-- ===== src/Products/Stale.antt =====
-- About the cache of src/product/product.service.ts: what is served after a product changed.
use mesyaf_market.Prelude.{ℕ, ◌≡◌, refl, ◌∙◌, fun_ext, none, some, arith, ◌==◌, inl, inr}
use mesyaf_market.Database.World.{World, ok, err, not_found}
use mesyaf_market.Database.Rows.{find_row, drop_rows}
use mesyaf_market.Database.Prisma.{Prisma, Documented, reference, Documented-reference}
use mesyaf_market.Database.Cache.{
  Value, product, all_page, has_key, same_key, Redis, DocumentedRedis, redis_reference,
  Documented-redis_reference,
}
use mesyaf_market.Products.Filter.{ProductFilter}
use mesyaf_market.Products.Ownership.{is_vendor_page}
use mesyaf_market.Products.Purge.{
  purged-keeps, is_vendor_page-IsStable, invalidate_vendor_products-purged,
}
use mesyaf_market.Products.Catalog.{
  Texts, cached_or, get_all_products, get_product_by_id, query_product,
}
use mesyaf_market.Products.Fresh.{cached_or-miss}
use mesyaf_market.Products.Owners.{validate-cases}
use mesyaf_market.Products.Editing.{delete_product, delete_for}
use mesyaf_market.Products.Kept.{KeepsPages, find_row-dropped, delete_rows-cases, run-KeepsPages}
use mesyaf_market.Products.Calls.{ProductCall, run}

-- A page of all products is cached after the world changed as it was before.
all_page_served :
    (texts : Texts) (c : ProductCall) (u pid : ℕ) (f : ProductFilter) (w : World) (v : Value)
    → redis_reference.get (all_page (texts.stringify f)) w.now w.cache ≡ some v
    → (get_all_products reference redis_reference texts f
        (run reference redis_reference u pid c w).1).0
      ≡ ok v
unfolding get_all_products cached_or KeepsPages
all_page_served texts c u pid f w v h =
    let (clock, pages) = run-KeepsPages c u pid w in rw (clock, pages (texts.stringify f), h) refl

delete_for-gone :
    (pid v : ℕ) (w : World)
    → (delete_for reference redis_reference pid v w).0 ≡ ok tt
    → (find_row
          (has_key (product pid) (delete_for reference redis_reference pid v w).1.now)
          (delete_for reference redis_reference pid v w).1.cache
        ≡ none)
      × (find_row
            (λ p. p.id == pid)
            (delete_for reference redis_reference pid v w).1.db.products.rows
          ≡ none)
unfolding delete_for
delete_for-gone pid v w =
    rw (fun_ext (invalidate_vendor_products-purged v)) (elim (delete_rows-cases pid w) [
      | inl (x, e) ↦ rw e (λ h. ground arith)
      | inr (e, n, c, g) ↦
          rw (e, n, c)
            λ h. (
              purged-keeps (is_vendor_page v) (product pid) w.now
                    (drop_rows (λ r. same_key r.key (product pid)) w.cache)
                    (is_vendor_page-IsStable v) refl
                  ∙ find_row-dropped (has_key (product pid) w.now)
                      (λ r. same_key r.key (product pid)) w.cache (λ r t. ground arith),
              g,
            )
    ])

deleted_is_gone :
    (u pid : ℕ) (w : World)
    → (delete_product reference redis_reference u pid w).0 ≡ ok tt
    → (get_product_by_id reference redis_reference pid
        (delete_product reference redis_reference u pid w).1).0
      ≡ err not_found
unfolding delete_product get_product_by_id query_product
deleted_is_gone u pid w = elim (validate-cases u pid w) [
  | inl (x, f) ↦ rw f λ h. ground arith
  | inr (v, f, own) ↦ rw f λ h.
      let (uncached, absent) = delete_for-gone pid v w h in
      cached_or-miss (product pid) 600 (query_product reference pid)
        (delete_for reference redis_reference pid v w).1 uncached
      ∙ rw absent refl
]

module _ {prisma : Prisma} {redis : Redis} (d : Documented prisma)
    (d' : DocumentedRedis redis) where
  -- A product that was deleted is not found any more, also where it was cached.
  pub deleted_product_is_gone :
      (u pid : ℕ) (w : World)
      → (delete_product prisma redis u pid w).0 ≡ ok tt
      → (get_product_by_id prisma redis pid (delete_product prisma redis u pid w).1).0
        ≡ err not_found
  deleted_product_is_gone =
      rw (Documented-reference d, Documented-redis_reference d') deleted_is_gone

  -- None of the calls that update or delete a product or change its images or tags drops a cached
  -- page of all products: the listing with the same filter is the old page afterwards.
  pub cached_page_outlives_changes :
      (texts : Texts) (c : ProductCall) (u pid : ℕ) (f : ProductFilter) (w : World) (v : Value)
      → redis.get (all_page (texts.stringify f)) w.now w.cache ≡ some v
      → (get_all_products prisma redis texts f (run prisma redis u pid c w).1).0 ≡ ok v
  cached_page_outlives_changes =
      rw (Documented-reference d, Documented-redis_reference d') all_page_served
