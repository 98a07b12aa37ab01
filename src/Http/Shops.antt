-- ===== src/Http/Shops.antt =====
-- src/vendor/vendor.controller.ts, and the envelopes of src/vendor/vendor.service.ts.
use mesyaf_market.Prelude.{ℕ, Bool, Option, none, some, List, [], ◌∷◌, if◌then◌else◌}
use mesyaf_market.Database.Schema.{Role, VendorProfile, Order, OrderStatus}
use mesyaf_market.Database.World.{Exec, pure, ◌>>=◌, ◌>>◌}
use mesyaf_market.Database.Prisma.{Prisma}
use mesyaf_market.Vendor.Profiles.{
  VendorDto, VendorUpdate, create_profile, get_profile_by_user_id, get_profile_by_vendor_id,
  get_all_vendors, update_profile, delete_profile, toggle_profile,
  request_promotion_or_reactivation, get_vendor_orders,
}
use mesyaf_market.Vendor.Orders.{vendor_accept_order, vendor_reject_order}
use mesyaf_market.Http.Guards.{
  Caller, signed_in, with_role, unset_user, Envelope, success_with, created_with,
}

module _ (prisma : Prisma) where
  -- POST vendor/profile
  unfoldable pub post_profile : Caller → VendorDto → Exec (Envelope VendorProfile)
  post_profile caller dto = do
    user ← with_role (Role.customer ∷ Role.vendor ∷ []) caller
    v ← create_profile prisma user.id dto
    pure (created_with "Vendor profile created successfully" (some v))

  -- GET vendor/profile/me
  unfoldable pub read_own_profile : Caller → Exec VendorProfile
  read_own_profile caller = do
    user ← with_role (Role.vendor ∷ []) caller
    get_profile_by_user_id prisma user.id

  -- PATCH vendor/profile
  unfoldable pub patch_profile : Caller → VendorUpdate → Exec (Envelope VendorProfile)
  patch_profile caller dto = do
    user ← with_role (Role.vendor ∷ []) caller
    v ← update_profile prisma user.id dto
    pure (success_with "Vendor profile updated successfully" (some v))

  -- DELETE vendor/profile
  unfoldable pub drop_profile : Caller → Exec (Envelope (Unit {0}))
  drop_profile caller = do
    user ← with_role (Role.vendor ∷ Role.admin ∷ []) caller
    delete_profile prisma user.id user.role
    pure (success_with "Vendor profile and all related products deleted successfully" none)

  -- PATCH vendor/profile/toggle
  unfoldable pub patch_active : Caller → Bool → Exec (Envelope VendorProfile)
  patch_active caller is_active = do
    user ← with_role (Role.vendor ∷ Role.admin ∷ []) caller
    v ← toggle_profile prisma user.id is_active user.role
    pure (
        success_with
          (if is_active
            then "Vendor profile activated successfully"
            else "Vendor profile deactivated successfully")
          (some v))

  -- GET vendor/:vendorId
  unfoldable pub read_shop : ℕ → Exec (Envelope VendorProfile)
  read_shop vendor_id = do
    v ← get_profile_by_vendor_id prisma vendor_id
    pure (success_with "Vendor profile retrieved successfully" (some v))

  -- GET vendor/all, which GET vendor/:vendorId stands before
  unfoldable pub read_shops : Exec (Envelope (List VendorProfile))
  read_shops = do
    vs ← get_all_vendors prisma
    pure (success_with "All active vendors retrieved successfully" (some vs))

  -- PATCH vendor/profile/:userId/request
  unfoldable pub patch_request : Caller → ℕ → Exec VendorProfile
  patch_request caller user_id = do
    signed_in caller
    request_promotion_or_reactivation prisma user_id

  -- GET vendor/orders/:status
  unfoldable pub read_vendor_orders : Caller → Option OrderStatus → Exec (List Order)
  read_vendor_orders caller order_status = do
    user ← signed_in caller
    get_vendor_orders prisma user.id order_status

  -- POST vendor/orders/:orderId/accept, with no guard
  unfoldable pub accept_order : ℕ → Exec Order
  accept_order order_id = do user ← unset_user; vendor_accept_order prisma order_id user.id

  -- POST vendor/orders/:orderId/reject, with no guard
  unfoldable pub reject_order : ℕ → Exec Order
  reject_order order_id = do user ← unset_user; vendor_reject_order prisma order_id user.id
