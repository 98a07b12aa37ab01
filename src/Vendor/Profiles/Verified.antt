-- ===== src/Vendor/Profiles/Verified.antt =====
-- About the profiles of src/vendor/vendor.service.ts: only an administrator verifies one.
use mesyaf_market.Prelude.{
  ◌≡◌, ◌≤◌, inl, inr, refl, ℕ, Bool, true, false, some, none, or_else, List, [], ◌∷◌, arith, ◌==◌,
  Option-cases, if◌then◌else◌,
}
use mesyaf_market.Database.Schema.{Role, VendorProfile, Product}
use mesyaf_market.Database.World.{World, Table, for_each}
use mesyaf_market.Database.Rules.{for_each_keeps}
use mesyaf_market.Database.Rows.{
  find_row, filter_rows, update_rows, count_rows, count-update_rows_le, count-append,
  count-drop_rows_le,
}
use mesyaf_market.Database.Prisma.{Prisma, Documented, Documented-reference, reference}
use mesyaf_market.Vendor.Profiles.{
  VendorDto, VendorUpdate, create_profile, update_profile, toggle_profile, delete_profile,
  delete_product, request_promotion_or_reactivation, given,
}

-- The calls of the service that write a profile.
pub data VendorCall : Type 0 where
  create : ℕ → VendorDto → VendorCall
  update : ℕ → VendorUpdate → VendorCall
  delete : ℕ → Role → VendorCall
  toggle : ℕ → Bool → Role → VendorCall
  request : ℕ → VendorCall

abbrev pub call : Prisma → VendorCall → World → World
call prisma (create u dto) w = (create_profile prisma u dto w).1
call prisma (update u dto) w = (update_profile prisma u dto w).1
call prisma (delete u role) w = (delete_profile prisma u role w).1
call prisma (toggle u active role) w = (toggle_profile prisma u active role w).1
call prisma (request u) w = (request_promotion_or_reactivation prisma u w).1

abbrev pub calls : Prisma → List VendorCall → World → World
calls prisma [] w = w
calls prisma (c ∷ cs) w = calls prisma cs (call prisma c w)

-- How many profiles are verified.
abbrev pub verified : Prisma → World → ℕ
verified prisma w = prisma.count (λ v. v.is_verified) w.db.vendors

delete_product-vendors :
    (p : Product) (w : World) → (delete_product reference p w).1.db.vendors ≡ w.db.vendors
unfolding delete_product
delete_product-vendors p w = ground arith

loop-vendors :
    (t : Table VendorProfile) (ps : List Product) (w : World)
    → w.db.vendors ≡ t
    → (for_each (delete_product reference) ps w).1.db.vendors ≡ t
loop-vendors t ps w h =
    for_each_keeps (λ x. x.db.vendors ≡ t) (delete_product reference)
      (λ p x e. ground (arith, delete_product-vendors p x)) ps w h

-- A write that verifies no row leaves no more rows verified.
kept :
    (p : VendorProfile → Bool) (f : VendorProfile → VendorProfile)
    → ((r : VendorProfile) → (f r).is_verified ≡ true → r.is_verified ≡ true)
    → (w : World)
    → count_rows (λ v. v.is_verified) (update_rows p f w.db.vendors.rows)
      ≤ count_rows (λ v. v.is_verified) w.db.vendors.rows
kept p f clears w =
    count-update_rows_le (λ v. v.is_verified) p f (λ r _ h. clears r h) w.db.vendors.rows

create-verified :
    (u : ℕ) (dto : VendorDto) (w : World)
    → verified reference (create_profile reference u dto w).1 ≤ verified reference w
unfolding create_profile
create-verified u dto w = ground (
  arith,
  count-append (λ v. v.is_verified) w.db.vendors.rows
      (record {
        id = w.db.vendors.next_id;
        user_id = u;
        shop_name = dto.shop_name;
        cover_image = dto.cover_image;
        description = dto.description;
        address = dto.address;
        latitude = dto.latitude;
        longitude = dto.longitude;
        is_verified = false;
        is_active = true;
        demotion_reason = none;
        suspended_at = none;
        reactivated_at = none;
        created_at = w.now;
      }),
)

update-verified :
    (u : ℕ) (dto : VendorUpdate) (w : World)
    → verified reference (update_profile reference u dto w).1 ≤ verified reference w
unfolding update_profile
update-verified u dto w = ground (
  arith,
  kept (λ v. v.user_id == u)
      (λ v. record v {
        shop_name = or_else dto.shop_name v.shop_name;
        cover_image = given dto.cover_image v.cover_image;
        description = given dto.description v.description;
        address = given dto.address v.address;
        latitude = given dto.latitude v.latitude;
        longitude = given dto.longitude v.longitude;
      })
      (λ r h. h) w,
)

toggle-verified :
    (u : ℕ) (active : Bool) (role : Role) (w : World)
    → verified reference (toggle_profile reference u active role w).1 ≤ verified reference w
unfolding toggle_profile
toggle-verified u active role w =
    elim (Option-cases (find_row (λ v. v.user_id == u) w.db.vendors.rows)) [
      | inl f ↦ ground arith
      | inr (p, f) ↦ ground (
        arith,
        kept (λ v. v.user_id == u)
            (λ v. record v {
              is_active = active;
              suspended_at = if active then p.suspended_at else some w.now;
              reactivated_at = if active then some w.now else p.reactivated_at;
            })
            (λ r h. h) w,
      )
    ]

request-verified :
    (u : ℕ) (w : World)
    → verified reference (request_promotion_or_reactivation reference u w).1 ≤ verified reference w
unfolding request_promotion_or_reactivation
request-verified u w = ground (
  arith,
  kept (λ r. r.user_id == u)
      (λ r. record r { demotion_reason = none; is_verified = false; is_active = true }) (λ r h. cc)
      w,
  kept (λ r. r.user_id == u)
      (λ r. record r { is_active = true; reactivated_at = some w.now; demotion_reason = none })
      (λ r h. h) w,
)

delete-verified :
    (u : ℕ) (role : Role) (w : World)
    → verified reference (delete_profile reference u role w).1 ≤ verified reference w
unfolding delete_profile
delete-verified u role w = elim (Option-cases (find_row (λ v. v.user_id == u) w.db.vendors.rows)) [
  | inl f ↦ ground arith
  | inr (p, f) ↦
      let ps : List Product = filter_rows (λ r. r.vendor_id == p.id) w.db.products.rows in
      ground (
        arith,
        loop-vendors w.db.vendors ps w refl,
        count-drop_rows_le (λ v. v.is_verified) (λ v. v.user_id == u) w.db.vendors.rows,
      )
]

call-verified :
    (c : VendorCall) (w : World) → verified reference (call reference c w) ≤ verified reference w
call-verified (create u dto) w = create-verified u dto w
call-verified (update u dto) w = update-verified u dto w
call-verified (delete u role) w = delete-verified u role w
call-verified (toggle u active role) w = toggle-verified u active role w
call-verified (request u) w = request-verified u w

calls-verified :
    (cs : List VendorCall) (w : World)
    → verified reference (calls reference cs w) ≤ verified reference w
calls-verified [] w = omega arith
calls-verified (c ∷ cs) w = omega (arith, calls-verified cs (call reference c w), call-verified c w)

module _ {prisma : Prisma} (d : Documented prisma) where
  -- No history of those calls of the vendor service that write profiles makes more profiles
  -- verified, whoever calls and whether or not a call throws.
  pub vendors_verify_nobody :
      (cs : List VendorCall) (w : World) → verified prisma (calls prisma cs w) ≤ verified prisma w
  vendors_verify_nobody = rw (Documented-reference d) calls-verified
