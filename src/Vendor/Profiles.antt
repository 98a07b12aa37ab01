-- ===== src/Vendor/Profiles.antt =====
-- src/vendor/vendor.service.ts: the profile of a vendor.
pub mod Verified
use mesyaf_market.Prelude.{
  ℕ, Bool, true, false, Option, none, some, List, [], ◌&&◌, not, ◌==◌, if◌then◌else◌, String,
  or_else,
}
use mesyaf_market.Database.Schema.{
  Float, Role, OrderStatus, VendorProfile, Product, Order, is_role, is_order,
}
use mesyaf_market.Database.World.{
  Exec, pure, throw, throw_if, or_throw, gets, for_each, ◌>>=◌, ◌>>◌, not_found, forbidden,
  conflict,
}
use mesyaf_market.Database.Prisma.{
  Prisma, users, vendors, products, images, orders, find_first, find_many, create_unique, update,
  delete_many, delete,
}

-- CreateVendorProfileDto; UpdateVendorProfileDto is its partial type.
pub record VendorDto : Type 0 where
  pub shop_name : String
  pub cover_image : Option String
  pub description : Option String
  pub address : Option String
  pub latitude : Option Float
  pub longitude : Option Float

pub record VendorUpdate : Type 0 where
  pub shop_name : Option String
  pub cover_image : Option String
  pub description : Option String
  pub address : Option String
  pub latitude : Option Float
  pub longitude : Option Float

-- A key that the update does not have leaves the column.
abbrev given {ℓ} : {A : Type ℓ} → Option A → Option A → Option A
given none old = old
given (some a) old = some a

abbrev pub is_visible : VendorProfile → Bool
is_visible v = v.is_active && v.is_verified

module _ (prisma : Prisma) where
  -- VendorService.createProfile
  unfoldable pub create_profile : ℕ → VendorDto → Exec VendorProfile
  create_profile user_id dto = do
    existing ← find_first prisma vendors (λ v. v.user_id == user_id)
    elim existing [
      | some v ↦ throw conflict
      | none ↦ do
        now ← gets (λ w. w.now)
        create_unique prisma vendors (λ v. v.user_id == user_id)
            (λ id. record {
              id = id;
              user_id = user_id;
              shop_name = dto.shop_name;
              cover_image = dto.cover_image;
              description = dto.description;
              address = dto.address;
              latitude = dto.latitude;
              longitude = dto.longitude;
              is_verified = false;
              is_active = true;
              demotion_reason = none;
              suspended_at = none;
              reactivated_at = none;
              created_at = now;
            })
    ]

  -- VendorService.getProfileByUserId
  unfoldable pub get_profile_by_user_id : ℕ → Exec VendorProfile
  get_profile_by_user_id user_id = do
    profile ← find_first prisma vendors (λ v. v.user_id == user_id && is_visible v)
    or_throw profile not_found

  -- VendorService.getProfileByVendorId
  unfoldable pub get_profile_by_vendor_id : ℕ → Exec VendorProfile
  get_profile_by_vendor_id vendor_id = do
    profile ← find_first prisma vendors (λ v. v.id == vendor_id && is_visible v)
    or_throw profile not_found

  -- VendorService.getAllVendors
  unfoldable pub get_all_vendors : Exec (List VendorProfile)
  get_all_vendors = find_many prisma vendors is_visible

  -- VendorService.updateProfile
  unfoldable pub update_profile : ℕ → VendorUpdate → Exec VendorProfile
  update_profile user_id dto = do
    profile ← find_first prisma vendors (λ v. v.user_id == user_id)
    or_throw profile not_found
    update prisma vendors (λ v. v.user_id == user_id)
        (λ v. record v {
          shop_name = or_else dto.shop_name v.shop_name;
          cover_image = given dto.cover_image v.cover_image;
          description = given dto.description v.description;
          address = given dto.address v.address;
          latitude = given dto.latitude v.latitude;
          longitude = given dto.longitude v.longitude;
        })

  -- One round of the loop of deleteProfile.
  delete_product : Product → Exec (Unit {0})
  delete_product p = do
    update prisma products (λ r. r.id == p.id) (λ r. record r { tags = [] })
    delete_many prisma images (λ i. i.product_id == p.id)
    delete prisma products (λ r. r.id == p.id)
    pure tt

  -- VendorService.deleteProfile
  unfoldable pub delete_profile : ℕ → Role → Exec (Unit {0})
  unfolding delete_product
  delete_profile user_id current_user_role = do
    found ← find_first prisma vendors (λ v. v.user_id == user_id)
    profile ← or_throw found not_found
    throw_if (not (profile.user_id == user_id) && not (is_role current_user_role Role.admin))
        forbidden
    prisma.transaction (do
      ps ← find_many prisma products (λ p. p.vendor_id == profile.id)
      for_each delete_product ps
      delete prisma vendors (λ v. v.user_id == user_id)
      pure tt)

  -- VendorService.toggleProfile
  unfoldable pub toggle_profile : ℕ → Bool → Role → Exec VendorProfile
  toggle_profile user_id is_active current_user_role = do
    found ← find_first prisma vendors (λ v. v.user_id == user_id)
    profile ← or_throw found not_found
    throw_if (not (profile.user_id == user_id) && not (is_role current_user_role Role.admin))
        forbidden
    now ← gets (λ w. w.now)
    update prisma vendors (λ v. v.user_id == user_id)
        (λ v. record v {
          is_active = is_active;
          suspended_at = if is_active then profile.suspended_at else some now;
          reactivated_at = if is_active then some now else profile.reactivated_at;
        })

  -- The branches of requestPromotionOrReactivation, by the user's role and profile.
  unfoldable pub request_for : ℕ → Role → Option VendorProfile → Exec VendorProfile
  request_for user_id Role.customer none = throw not_found
  request_for user_id Role.customer (some v) =
      update prisma vendors (λ r. r.user_id == user_id)
        (λ r. record r { demotion_reason = none; is_verified = false; is_active = true })
  request_for user_id Role.vendor (some v) = do
    now ← gets (λ w. w.now)
    if v.is_active
        then throw forbidden
        else update prisma vendors (λ r. r.user_id == user_id)
            (λ r. record r { is_active = true; reactivated_at = some now; demotion_reason = none })
  request_for user_id _ _ = throw forbidden

  -- VendorService.requestPromotionOrReactivation
  unfoldable pub request_promotion_or_reactivation : ℕ → Exec VendorProfile
  unfolding request_for
  request_promotion_or_reactivation user_id = do
    found ← find_first prisma users (λ u. u.id == user_id)
    user ← or_throw found not_found
    profile ← find_first prisma vendors (λ v. v.user_id == user_id)
    request_for user_id user.role profile

  -- `...(orderStatus ? { status: orderStatus } : {})`
  has_order_status : Option OrderStatus → OrderStatus → Bool
  has_order_status none s = true
  has_order_status (some t) s = is_order s t

  -- VendorService.getVendorOrders
  unfoldable pub get_vendor_orders : ℕ → Option OrderStatus → Exec (List Order)
  unfolding has_order_status
  get_vendor_orders user_id order_status = do
    found ← find_first prisma vendors (λ v. v.user_id == user_id)
    profile ← or_throw found not_found
    find_many prisma orders
        (λ o. o.vendor_id == profile.id && has_order_status order_status o.status)
