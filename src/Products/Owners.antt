-- ===== src/Products/Owners.antt =====
-- About src/product/product.service.ts: who changes a product, and calls that throw.
use mesyaf_market.Prelude.{
  ℕ, ◌≡◌, refl, true, false, arith, ◌==◌, inl, inr, ◌⊎◌, Option-cases, Bool-cases,
}
use mesyaf_market.Database.World.{World, Exec, Error, ok, err, not_found, forbidden, ◌>>=◌}
use mesyaf_market.Database.Rows.{find_row}
use mesyaf_market.Database.Prisma.{Prisma, Documented, reference, Documented-reference}
use mesyaf_market.Database.Cache.{
  Redis, DocumentedRedis, redis_reference, Documented-redis_reference,
}
use mesyaf_market.Products.Filter.{is_trusted}
use mesyaf_market.Products.Ownership.{validate_ownership}
use mesyaf_market.Products.Editing.{update_product, delete_product}
use mesyaf_market.Products.Media.{
  add_product_image, remove_product_image, clear_product_images, attach_tags, detach_tags,
  remove_all_tags,
}
use mesyaf_market.Products.Calls.{
  ProductCall, update, delete, add_image, remove_image, clear_images, attach, detach, remove_tags,
  run, owns,
}

-- The check throws and changes nothing, or answers.
pub validate-cases :
    (u pid : ℕ) (w : World)
    → ((e : Error) × (validate_ownership reference u pid w ≡ (err e, w)))
      ⊎ ((v : ℕ) × (validate_ownership reference u pid w ≡ (ok v, w))
          × (owns reference w u pid ≡ true))
unfolding validate_ownership owns
validate-cases u pid w = elim (Option-cases (find_row (λ v. v.user_id == u) w.db.vendors.rows)) [
  | inl f ↦ inl (not_found, ground arith)
  | inr (v, f) ↦ elim (Bool-cases (is_trusted v)) [
    | inr may_not ↦ inl (forbidden, ground arith)
    | inl may ↦ elim (Option-cases (find_row (λ p. p.id == pid) w.db.products.rows)) [
      | inl g ↦ inl (not_found, ground arith)
      | inr (p, g) ↦ elim (Bool-cases (p.vendor_id == v.id)) [
        | inr other ↦ inl (forbidden, ground arith)
        | inl own ↦ inr (v.id, ground arith, ground arith)
      ]
    ]
  ]
]

-- A block that starts with the check does no more where the check throws.
stopped :
    {A : Type 0} (u pid : ℕ) (k : ℕ → Exec A) (w : World) (e : Error)
    → validate_ownership reference u pid w ≡ (err e, w)
    → (validate_ownership reference u pid >>= k) w ≡ (err e, w)
stopped u pid k w e h = rw h refl

pub run-stopped :
    (c : ProductCall) (u pid : ℕ) (w : World) (e : Error)
    → validate_ownership reference u pid w ≡ (err e, w)
    → run reference redis_reference u pid c w ≡ (err e, w)
unfolding run update_product delete_product add_product_image remove_product_image
    clear_product_images attach_tags detach_tags remove_all_tags
run-stopped (update dto) u pid w e h = rw h refl
run-stopped delete u pid w e h = rw h refl
run-stopped (add_image dto) u pid w e h = rw h refl
run-stopped (remove_image id) u pid w e h = rw h refl
run-stopped clear_images u pid w e h = rw h refl
run-stopped (attach ids) u pid w e h = rw h refl
run-stopped (detach ids) u pid w e h = rw h refl
run-stopped remove_tags u pid w e h = rw h refl

strangers_refused :
    (c : ProductCall) (u pid : ℕ) (w : World)
    → owns reference w u pid ≡ false
    → (e : Error) × (run reference redis_reference u pid c w ≡ (err e, w))
strangers_refused c u pid w h = elim (validate-cases u pid w) [
  | inl (e, f) ↦ (e, run-stopped c u pid w e f)
  | inr (v, f, own) ↦ ground arith
]

module _ {prisma : Prisma} {redis : Redis} (d : Documented prisma)
    (d' : DocumentedRedis redis) where
  -- Whoever does not own a product, by an active and verified profile, changes nothing: each of the
  -- calls that update or delete it or change its images or tags throws, and the tables and the
  -- cache stay as they were.
  pub strangers_change_nothing :
      (c : ProductCall) (u pid : ℕ) (w : World)
      → owns prisma w u pid ≡ false
      → (e : Error) × (run prisma redis u pid c w ≡ (err e, w))
  strangers_change_nothing =
      rw (Documented-reference d, Documented-redis_reference d') strangers_refused
