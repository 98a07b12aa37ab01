-- ===== src/Vendor/Admin.antt =====
-- src/admin/admin.service.ts: what an administrator does to users, vendors and deliverers.
use mesyaf_market.Prelude.{
  ℕ, Bool, true, false, Option, none, some, List, ◌&&◌, not, ◌==◌, if◌then◌else◌, String, or_else,
  is_some,
}
use mesyaf_market.Database.Schema.{Role, VendorProfile, User, DelivererProfile, is_role}
use mesyaf_market.Database.World.{Exec, pure, or_throw, gets, ◌>>=◌, ◌>>◌, not_found}
use mesyaf_market.Users.{PublicUser, find_all}
use mesyaf_market.Database.Prisma.{
  Prisma, users, vendors, deliverers, find_first, find_many, create_unique, update, delete,
}

module _ (prisma : Prisma) where
  -- AdminService.getAllUsers
  unfoldable pub get_all_users : Exec (List PublicUser)
  unfolding find_all
  get_all_users = find_all prisma

  demote_profile : ℕ → String → Exec (Unit {0})
  demote_profile user_id reason = do
    now ← gets (λ w. w.now)
    update prisma vendors (λ v. v.user_id == user_id)
        (λ v. record v {
          is_active = false;
          is_verified = false;
          demotion_reason = some reason;
          suspended_at = some now;
        })
    pure tt

  -- AdminService.updateUserRole
  unfoldable pub update_user_role : ℕ → Role → Option String → Exec User
  unfolding demote_profile
  update_user_role id role reason = do
    found ← find_first prisma users (λ u. u.id == id)
    user ← or_throw found not_found
    profile ← find_first prisma vendors (λ v. v.user_id == id)
    if is_role user.role Role.vendor && is_role role Role.customer && is_some profile
        then demote_profile id (or_else reason "demoted")
        else pure tt
    update prisma users (λ u. u.id == id) (λ u. record u { role = role })

  approve : ℕ → ℕ → Exec VendorProfile
  approve vendor_id user_id = do
    now ← gets (λ w. w.now)
    updated ←
        update prisma vendors (λ v. v.id == vendor_id)
          (λ v. record v { is_verified = true; is_active = true; reactivated_at = some now })
    update prisma users (λ u. u.id == user_id) (λ u. record u { role = Role.vendor })
    pure updated

  reject : ℕ → String → Exec VendorProfile
  reject vendor_id reason = do
    now ← gets (λ w. w.now)
    update prisma vendors (λ v. v.id == vendor_id)
        (λ v. record v {
          is_verified = false;
          is_active = false;
          demotion_reason = some reason;
          suspended_at = some now;
        })

  -- AdminService.approveVendorPromotion
  unfoldable pub approve_vendor_promotion : ℕ → Bool → Option String → Exec VendorProfile
  unfolding approve reject
  approve_vendor_promotion vendor_id approved reason = do
    found ← find_first prisma vendors (λ v. v.id == vendor_id)
    profile ← or_throw found not_found
    if approved
        then approve vendor_id profile.user_id
        else reject vendor_id (or_else reason "rejected")

  -- AdminService.suspendVendor
  unfoldable pub suspend_vendor : ℕ → String → Exec VendorProfile
  unfolding reject
  suspend_vendor vendor_id reason = do
    found ← find_first prisma vendors (λ v. v.id == vendor_id)
    or_throw found not_found
    reject vendor_id reason

  -- AdminService.getPendingVendors
  unfoldable pub get_pending_vendors : Exec (List VendorProfile)
  get_pending_vendors = find_many prisma vendors (λ v. not v.is_verified && v.is_active)

  -- AdminService.promoteUserToDeliverer
  unfoldable pub promote_user_to_deliverer : ℕ → Exec DelivererProfile
  promote_user_to_deliverer user_id = do
    found ← find_first prisma users (λ u. u.id == user_id)
    or_throw found not_found
    update prisma users (λ u. u.id == user_id) (λ u. record u { role = Role.deliverer })
    create_unique prisma deliverers (λ d. d.user_id == user_id)
        (λ id. record {
          id = id;
          user_id = user_id;
          current_lat = none;
          current_lng = none;
          availability = true;
          max_concurrent_orders = 3;
          max_stops = 5;
          accepts_batching = true;
          active_job_id = none;
        })

  -- AdminService.removeDeliverer
  unfoldable pub remove_deliverer : ℕ → Exec (Unit {0})
  remove_deliverer user_id = do
    found ← find_first prisma deliverers (λ d. d.user_id == user_id)
    or_throw found not_found
    delete prisma deliverers (λ d. d.user_id == user_id)
    update prisma users (λ u. u.id == user_id) (λ u. record u { role = Role.customer })
    pure tt
