-- ===== src/Products/Kept.antt =====
-- About src/product/product.service.ts: the calls on a product keep the pages of all products that
-- are cached, and a deletion drops the product.
use mesyaf_market.Prelude.{
  ℕ, ◌≡◌, refl, ◌∙◌, fun_ext, Bool, true, none, List, [], ◌∷◌, arith, ◌==◌, inl, inr, ◌⊎◌,
  Option-cases, String,
}
use mesyaf_market.Database.World.{World, Exec, Error, ok, err, record_missing, ◌>>=◌, ◌>>◌, pure}
use mesyaf_market.Database.Rules.{Result-cases}
use mesyaf_market.Database.Rows.{find_row, update_rows, drop_rows}
use mesyaf_market.Database.Prisma.{reference}
use mesyaf_market.Database.Cache.{product, all_page, has_key, same_key, Entry, redis_reference}
use mesyaf_market.Products.Ownership.{validate_ownership, is_vendor_page}
use mesyaf_market.Products.Purge.{
  purged, purged-keeps, is_vendor_page-IsStable, invalidate_vendor_products-purged, drop_rows_same,
}
use mesyaf_market.Products.Owners.{validate-cases}
use mesyaf_market.Products.Editing.{
  update_product, delete_product, update_for, delete_for, delete_rows, ProductUpdate,
}
use mesyaf_market.Products.Media.{
  ImageDto, add_product_image, insert_image, remove_product_image, clear_product_images,
  attach_tags, detach_tags, remove_all_tags,
}
use mesyaf_market.Products.Calls.{
  ProductCall, update, delete, add_image, remove_image, clear_images, attach, detach, remove_tags,
  run,
}

-- A page of all products is cached after the world changed as it was before.
pub find_row-dropped :
    {R : Type 0} (q p : R → Bool) (rs : List R)
    → ((r : R) → q r ≡ true → p r ≡ true)
    → find_row q (drop_rows p rs) ≡ none
unfolding find_row drop_rows
find_row-dropped q p [] h = refl
find_row-dropped q p (r ∷ rs) h = ground (arith, h r, find_row-dropped q p rs h)

unfoldable pub KeepsPages : World → World → Type 0
KeepsPages w w' =
    (w'.now ≡ w.now)
    × ((f : String)
        → find_row (has_key (all_page f) w.now) w'.cache
          ≡ find_row (has_key (all_page f) w.now) w.cache)

dropped-keeps :
    (f : String) (now pid v : ℕ) (es : List Entry)
    → find_row
        (has_key (all_page f) now)
        (purged (is_vendor_page v) now (drop_rows (λ e. same_key e.key (product pid)) es))
      ≡ find_row (has_key (all_page f) now) es
dropped-keeps f now pid v es =
    purged-keeps (is_vendor_page v) (all_page f) now
      (drop_rows (λ e. same_key e.key (product pid)) es) (is_vendor_page-IsStable v) refl
    ∙ drop_rows_same (has_key (all_page f) now) (λ e. same_key e.key (product pid)) es
        (λ e t. ground arith)

update_for-KeepsPages :
    (pid : ℕ) (dto : ProductUpdate) (v : ℕ) (w : World)
    → KeepsPages w (update_for reference redis_reference pid dto v w).1
unfolding update_for KeepsPages
update_for-KeepsPages pid dto v w =
    rw (fun_ext (invalidate_vendor_products-purged v))
      (elim (Option-cases (find_row (λ p. p.id == pid) w.db.products.rows)) [
        | inl e ↦ rw e (refl, λ f. refl)
        | inr (p, e) ↦ rw e (refl, λ f. dropped-keeps f w.now pid v w.cache)
      ])

-- The transaction of a deletion throws and changes nothing, or the product is gone.
pub delete_rows-cases :
    (pid : ℕ) (w : World)
    → ((e : Error) × (reference.transaction (delete_rows reference pid) w ≡ (err e, w)))
      ⊎ (((reference.transaction (delete_rows reference pid) w).0 ≡ ok tt)
          × ((reference.transaction (delete_rows reference pid) w).1.now ≡ w.now)
          × ((reference.transaction (delete_rows reference pid) w).1.cache ≡ w.cache)
          × (find_row
                (λ p. p.id == pid)
                (reference.transaction (delete_rows reference pid) w).1.db.products.rows
              ≡ none))
unfolding delete_rows
delete_rows-cases pid w = elim (Option-cases (find_row (λ p. p.id == pid) w.db.products.rows)) [
  | inl e ↦ inl (record_missing, ground arith)
  | inr (p, e) ↦
      let cleared =
        update_rows (λ r. r.id == pid) (λ r. record r { tags = [] }) w.db.products.rows in
      elim (Option-cases (find_row (λ r. r.id == pid) cleared)) [
        | inl g ↦ inl (record_missing, ground arith)
        | inr (q, g) ↦ inr (
          ground arith,
          ground arith,
          ground arith,
          ground (arith, find_row-dropped (λ r. r.id == pid) (λ r. r.id == pid) cleared (λ r t. t)),
        )
      ]
]

delete_for-KeepsPages :
    (pid : ℕ) (v : ℕ) (w : World) → KeepsPages w (delete_for reference redis_reference pid v w).1
unfolding delete_for KeepsPages
delete_for-KeepsPages pid v w =
    rw (fun_ext (invalidate_vendor_products-purged v)) (elim (delete_rows-cases pid w) [
      | inl (x, e) ↦ rw e (refl, λ f. refl)
      | inr (e, n, c, g) ↦ rw (e, n, c) (refl, λ f. dropped-keeps f w.now pid v w.cache)
    ])

-- The same of a block whose last step is `pure`, and of a block after the check.
then_pure-KeepsPages :
    {A : Type 0} (m : Exec A) (w : World) → KeepsPages w (m w).1 → KeepsPages w ((m >> pure tt) w).1
then_pure-KeepsPages m w h = elim (Result-cases (m w).0) [
  | inl (x, f) ↦ rw f h
  | inr (a, f) ↦ rw f h
]

checked-KeepsPages :
    {A : Type 0} (u pid : ℕ) (k : ℕ → Exec A) (w : World)
    → ((v : ℕ) → KeepsPages w (k v w).1)
    → KeepsPages w ((validate_ownership reference u pid >>= k) w).1
unfolding KeepsPages
checked-KeepsPages u pid k w h = elim (validate-cases u pid w) [
  | inl (x, f) ↦ rw f (refl, λ g. refl)
  | inr (v, f, own) ↦ rw f (h v)
]

same_cache : (w w' : World) → w'.now ≡ w.now → w'.cache ≡ w.cache → KeepsPages w w'
unfolding KeepsPages
same_cache w w' n c = (n, λ f. rw c refl)

-- A block that reads and writes the tables only.
media-KeepsPages :
    {A : Type 0} (u pid : ℕ) (k : ℕ → Exec A) (w : World)
    → ((v : ℕ) → ((k v w).1.now ≡ w.now) × ((k v w).1.cache ≡ w.cache))
    → KeepsPages w (((validate_ownership reference u pid >>= k) >> pure tt) w).1
media-KeepsPages u pid k w h =
    then_pure-KeepsPages (validate_ownership reference u pid >>= k) w
      (checked-KeepsPages u pid k w (λ v. same_cache w (k v w).1 (h v).0 (h v).1))

attach-KeepsPages :
    (ids : List ℕ) (u pid : ℕ) (w : World)
    → KeepsPages w (run reference redis_reference u pid (attach ids) w).1
unfolding run attach_tags
attach-KeepsPages ids u pid w = media-KeepsPages u pid _ w (λ v. (ground arith, ground arith))

detach-KeepsPages :
    (ids : List ℕ) (u pid : ℕ) (w : World)
    → KeepsPages w (run reference redis_reference u pid (detach ids) w).1
unfolding run detach_tags
detach-KeepsPages ids u pid w = media-KeepsPages u pid _ w (λ v. (ground arith, ground arith))

remove_tags-KeepsPages :
    (u pid : ℕ) (w : World) → KeepsPages w (run reference redis_reference u pid remove_tags w).1
unfolding run remove_all_tags
remove_tags-KeepsPages u pid w = media-KeepsPages u pid _ w (λ v. (ground arith, ground arith))

images-KeepsPages :
    (dto : ImageDto) (id u pid : ℕ) (w : World)
    → KeepsPages w (run reference redis_reference u pid (add_image dto) w).1
      × KeepsPages w (run reference redis_reference u pid (remove_image id) w).1
      × KeepsPages w (run reference redis_reference u pid clear_images w).1
unfolding run add_product_image remove_product_image clear_product_images insert_image
images-KeepsPages dto id u pid w = (
  media-KeepsPages u pid _ w (λ v. (refl, refl)),
  media-KeepsPages u pid _ w (λ v. (refl, refl)),
  media-KeepsPages u pid _ w (λ v. (refl, refl)),
)

pub run-KeepsPages :
    (c : ProductCall) (u pid : ℕ) (w : World)
    → KeepsPages w (run reference redis_reference u pid c w).1
unfolding run update_product delete_product
run-KeepsPages (update dto) u pid w =
    then_pure-KeepsPages (update_product reference redis_reference u pid dto) w (
      checked-KeepsPages u pid (update_for reference redis_reference pid dto) w
        (λ v. update_for-KeepsPages pid dto v w))
run-KeepsPages delete u pid w =
    checked-KeepsPages u pid (delete_for reference redis_reference pid) w
      (λ v. delete_for-KeepsPages pid v w)
run-KeepsPages (add_image dto) u pid w = (images-KeepsPages dto 0 u pid w).0
run-KeepsPages (remove_image id) u pid w =
    (images-KeepsPages (record { url = ""; alt_text = none }) id u pid w).1
run-KeepsPages clear_images u pid w =
    (images-KeepsPages (record { url = ""; alt_text = none }) 0 u pid w).2
run-KeepsPages (attach ids) u pid w = attach-KeepsPages ids u pid w
run-KeepsPages (detach ids) u pid w = detach-KeepsPages ids u pid w
run-KeepsPages remove_tags u pid w = remove_tags-KeepsPages u pid w
