-- ===== src/Products/Fresh.antt =====
-- About the cache of src/product/product.service.ts: when a read is of the tables.
use mesyaf_market.Prelude.{
  ℕ, String, ◌≡◌, refl, sym, ap, ◌∙◌, fun_ext, true, none, some, arith, ◌==◌, inl, inr,
  Option-cases,
}
use mesyaf_market.Database.Schema.{VendorProfile}
use mesyaf_market.Database.World.{World, Exec, ok}
use mesyaf_market.Database.Rules.{Result-cases}
use mesyaf_market.Database.Rows.{find_row}
use mesyaf_market.Database.Prisma.{Prisma, Documented, reference, Documented-reference}
use mesyaf_market.Database.Cache.{
  Key, Value, all_page, vendor_page, has_key, Redis, DocumentedRedis, redis_reference, Listed,
  Documented-redis_reference,
}
use mesyaf_market.Products.Filter.{ProductFilter, is_trusted}
use mesyaf_market.Products.Ownership.{is_all_page, is_vendor_page}
use mesyaf_market.Products.Catalog.{
  Texts, cached_or, read_all, read_vendor, get_all_products, get_vendor_products,
  fetch_products_for_vendor,
}
use mesyaf_market.Products.Editing.{ProductDto, create_product, create_for}
use mesyaf_market.Products.Purge.{
  purged, find-purged, purged-keeps, is_all_page-IsStable, is_vendor_page-IsStable,
  invalidate_all_products-purged, invalidate_vendor_products-purged,
}

pub cached_or-miss :
    (k : Key) (ttl : ℕ) (fresh : Exec Value) (w : World)
    → find_row (has_key k w.now) w.cache ≡ none
    → (cached_or redis_reference k ttl fresh w).0 ≡ (fresh w).0
unfolding cached_or
cached_or-miss k ttl fresh w h = elim (Result-cases (fresh w).0) [
  | inl (x, e) ↦ ground arith
  | inr (v, e) ↦ ground arith
]

create_for-done :
    (dto : ProductDto) (v : VendorProfile) (w : World)
    → ((create_for reference redis_reference dto v w).1.now ≡ w.now)
      × ((create_for reference redis_reference dto v w).1.db.vendors ≡ w.db.vendors)
      × ((create_for reference redis_reference dto v w).1.cache
          ≡ purged is_all_page w.now (purged (is_vendor_page v.id) w.now w.cache))
      × ((p : Listed)
          → (create_for reference redis_reference dto v w).0 ≡ ok p
          → p.row.vendor_id ≡ v.id)
unfolding create_for
create_for-done dto v w =
    rw (fun_ext (invalidate_vendor_products-purged v.id), fun_ext invalidate_all_products-purged)
      (refl, refl, refl, λ p e. ground arith)

create_product-inverted :
    (u : ℕ) (dto : ProductDto) (w : World) (p : Listed)
    → (create_product reference redis_reference u dto w).0 ≡ ok p
    → (v : VendorProfile) × (create_product reference redis_reference u dto w
        ≡ create_for reference redis_reference dto v w)
unfolding create_product
create_product-inverted u dto w p h =
    elim (Option-cases (find_row (λ v. v.user_id == u) w.db.vendors.rows)) [
      | inl f ↦ ground arith
      | inr (v, f) ↦ (v, ground arith)
    ]

-- After the creation of a product the cache has no page of all products and none of the vendor's.
pub created-misses :
    (u : ℕ) (dto : ProductDto) (w : World) (p : Listed) (f : String)
    → (create_product reference redis_reference u dto w).0 ≡ ok p
    → (find_row
          (has_key (all_page f) (create_product reference redis_reference u dto w).1.now)
          (create_product reference redis_reference u dto w).1.cache
        ≡ none)
      × (find_row
            (has_key
              (vendor_page p.row.vendor_id f)
              (create_product reference redis_reference u dto w).1.now)
            (create_product reference redis_reference u dto w).1.cache
          ≡ none)
created-misses u dto w p f h =
    let (v, e) = create_product-inverted u dto w p h in
    let (now_eq, vendors_eq, cache_eq, id_eq) = create_for-done dto v w in
    let es = purged (is_vendor_page v.id) w.now w.cache in
    rw (e, now_eq, cache_eq, id_eq p (ap (λ r. r.0) (sym e) ∙ h))
      (
        find-purged is_all_page (all_page f) w.now es is_all_page-IsStable refl,
        purged-keeps is_all_page (vendor_page v.id f) w.now es is_all_page-IsStable refl
            ∙ find-purged (is_vendor_page v.id) (vendor_page v.id f) w.now w.cache
                (is_vendor_page-IsStable v.id) (ground arith),
      )

-- The reads after the creation, at the reference clients.
fresh_reads :
    (texts : Texts) (u : ℕ) (dto : ProductDto) (w : World) (p : Listed) (v : VendorProfile)
    (f : ProductFilter)
    → (create_product reference redis_reference u dto w).0 ≡ ok p
    → find_row
        (λ r. r.id == p.row.vendor_id)
        (create_product reference redis_reference u dto w).1.db.vendors.rows
      ≡ some v
    → is_trusted v ≡ true
    → ((get_all_products reference redis_reference texts f
          (create_product reference redis_reference u dto w).1).0
        ≡ (read_all reference texts f (create_product reference redis_reference u dto w).1).0)
      × ((get_vendor_products reference redis_reference texts p.row.vendor_id f
            (create_product reference redis_reference u dto w).1).0
          ≡ (read_vendor reference texts p.row.vendor_id f
              (create_product reference redis_reference u dto w).1).0)
unfolding get_all_products get_vendor_products fetch_products_for_vendor
fresh_reads texts u dto w p v f h found trusted =
    let (no_all, no_own) = created-misses u dto w p (texts.stringify f) h in
    let w' = (create_product reference redis_reference u dto w).1 in
    (
      cached_or-miss (all_page (texts.stringify f)) 300 (read_all reference texts f) w' no_all,
      rw (found, trusted)
          (cached_or-miss (vendor_page p.row.vendor_id (texts.stringify f)) 300
            (read_vendor reference texts p.row.vendor_id f) w' no_own),
    )

module _ {prisma : Prisma} {redis : Redis} (d : Documented prisma)
    (d' : DocumentedRedis redis) where
  -- After a successful creation of a product, the next listing of all products and the next of the
  -- vendor's products, with any filter, is what the queries read from the tables, whatever pages
  -- were cached before. The vendor is found by the product's vendor id and may sell.
  pub created_product_is_read :
      (texts : Texts) (u : ℕ) (dto : ProductDto) (w : World) (p : Listed) (v : VendorProfile)
      (f : ProductFilter)
      → (create_product prisma redis u dto w).0 ≡ ok p
      → prisma.find_first
          (λ r. r.id == p.row.vendor_id)
          (create_product prisma redis u dto w).1.db.vendors
        ≡ some v
      → is_trusted v ≡ true
      → ((get_all_products prisma redis texts f (create_product prisma redis u dto w).1).0
          ≡ (read_all prisma texts f (create_product prisma redis u dto w).1).0)
        × ((get_vendor_products prisma redis texts p.row.vendor_id f
              (create_product prisma redis u dto w).1).0
            ≡ (read_vendor prisma texts p.row.vendor_id f
                (create_product prisma redis u dto w).1).0)
  created_product_is_read = rw (Documented-reference d, Documented-redis_reference d') fresh_reads
