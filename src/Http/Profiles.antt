-- ===== src/Http/Profiles.antt =====
-- The calls that write vendors' profiles verify nobody, and leave the users alone.
use mesyaf_market.Prelude.{
  ◌≡◌, ◌≢◌, ◌≤◌, refl, ap, ℕ, Bool, true, false, Option, none, some, List, [], ◌∷◌, arith,
}
use mesyaf_market.Database.Schema.{Role, User, Order, VendorProfile}
use mesyaf_market.Database.World.{Db, Table}
use mesyaf_market.Database.Prisma.{Prisma, Documented}
use mesyaf_market.Database.Keeps.{
  Keeps, keeps, Keeps-transaction, Keeps-create, Keeps-create_unique, Keeps-update,
  Keeps-update_many, Keeps-delete_many, Keeps-delete,
}
use mesyaf_market.Vendor.Profiles.{
  VendorDto, VendorUpdate, create_profile, update_profile, delete_profile, toggle_profile,
  request_for, request_promotion_or_reactivation,
}
use mesyaf_market.Vendor.Profiles.Verified.{VendorCall, vendors_verify_nobody}
use mesyaf_market.Http.Powers.{Lowers, verified_profiles}

module _ {prisma : Prisma} (d : Documented prisma) where
  pub Lowers-create :
      (u : ℕ) (dto : VendorDto) → Lowers (verified_profiles prisma) (create_profile prisma u dto)
  Lowers-create u dto = record { at = vendors_verify_nobody d (VendorCall.create u dto ∷ []) }

  pub Lowers-update :
      (u : ℕ) (dto : VendorUpdate) → Lowers (verified_profiles prisma) (update_profile prisma u dto)
  Lowers-update u dto = record { at = vendors_verify_nobody d (VendorCall.update u dto ∷ []) }

  pub Lowers-delete :
      (u : ℕ) (r : Role) → Lowers (verified_profiles prisma) (delete_profile prisma u r)
  Lowers-delete u r = record { at = vendors_verify_nobody d (VendorCall.delete u r ∷ []) }

  pub Lowers-toggle :
      (u : ℕ) (b : Bool) (r : Role)
      → Lowers (verified_profiles prisma) (toggle_profile prisma u b r)
  Lowers-toggle u b r = record { at = vendors_verify_nobody d (VendorCall.toggle u b r ∷ []) }

  pub Lowers-request :
      (u : ℕ) → Lowers (verified_profiles prisma) (request_promotion_or_reactivation prisma u)
  Lowers-request u = record { at = vendors_verify_nobody d (VendorCall.request u ∷ []) }

-- What those calls do not touch.
abbrev pub spared : Db → Table User × Table Order
spared db = (db.users, db.orders)

pub ruleset touches =
    (keeps, Keeps-create, Keeps-create_unique, Keeps-update, Keeps-delete_many, Keeps-delete, refl)

module _ {prisma : Prisma} (d : Documented prisma) where
  pub Keeps-spared_create : (u : ℕ) (dto : VendorDto) → Keeps spared (create_profile prisma u dto)
  unfolding create_profile
  Keeps-spared_create u dto = record { at = λ w. ground arith }

  pub Keeps-spared_update :
      (u : ℕ) (dto : VendorUpdate) → Keeps spared (update_profile prisma u dto)
  unfolding update_profile
  Keeps-spared_update u dto = search touches depth 12

  pub Keeps-spared_delete : (u : ℕ) (r : Role) → Keeps spared (delete_profile prisma u r)
  unfolding delete_profile
  Keeps-spared_delete u r = search (touches, Keeps-transaction d) depth 16

  pub Keeps-spared_toggle :
      (u : ℕ) (b : Bool) (r : Role) → Keeps spared (toggle_profile prisma u b r)
  unfolding toggle_profile
  Keeps-spared_toggle u b r = search touches depth 12

  Keeps-spared-request_for :
      (u : ℕ) (r : Role) (v : Option VendorProfile) → Keeps spared (request_for prisma u r v)
  unfolding request_for
  Keeps-spared-request_for u Role.customer none = search touches depth 12
  Keeps-spared-request_for u Role.customer (some v) = search touches depth 12
  Keeps-spared-request_for u Role.vendor none = search touches depth 12
  Keeps-spared-request_for u Role.vendor (some v) = search touches depth 12
  Keeps-spared-request_for u _ v = search touches depth 12

  pub Keeps-spared_request : (u : ℕ) → Keeps spared (request_promotion_or_reactivation prisma u)
  unfolding request_promotion_or_reactivation
  Keeps-spared_request u = search (touches, Keeps-spared-request_for) depth 12
