-- ===== src/Http/Admin.antt =====
-- src/admin/admin.controller.ts, and the envelopes of src/admin/admin.service.ts.
use mesyaf_market.Prelude.{ℕ, Bool, Option, none, some, List, [], ◌∷◌, String, if◌then◌else◌}
use mesyaf_market.Database.Schema.{Role, User, VendorProfile, DelivererProfile}
use mesyaf_market.Database.World.{Exec, pure, ◌>>=◌, ◌>>◌}
use mesyaf_market.Database.Prisma.{Prisma}
use mesyaf_market.Users.{PublicUser}
use mesyaf_market.Access.{AuthenticatedUser}
use mesyaf_market.Vendor.Admin.{
  get_all_users, update_user_role, approve_vendor_promotion, suspend_vendor, get_pending_vendors,
  promote_user_to_deliverer, remove_deliverer,
}
use mesyaf_market.Http.Guards.{Caller, with_role, Envelope, success_with}

-- The guards of the controller's class
abbrev pub admin_only : Caller → Exec AuthenticatedUser
admin_only caller = with_role (Role.admin ∷ []) caller

module _ (prisma : Prisma) where
  -- GET admin/allUsers
  unfoldable pub read_users : Caller → Exec (Envelope (List PublicUser))
  read_users caller = do
    admin_only caller
    us ← get_all_users prisma
    pure (success_with "Users fetched successfully" (some us))

  -- GET admin/vendors/pending
  unfoldable pub read_pending : Caller → Exec (Envelope (List VendorProfile))
  read_pending caller = do
    admin_only caller
    vs ← get_pending_vendors prisma
    pure (success_with "Pending vendor applications retrieved successfully" (some vs))

  -- PATCH admin/vendors/:vendorId/approve
  unfoldable pub patch_approval : Caller → ℕ → Bool → Option String → Exec (Envelope VendorProfile)
  patch_approval caller vendor_id approve reason = do
    admin_only caller
    v ← approve_vendor_promotion prisma vendor_id approve reason
    pure (
        success_with
          (if approve
            then "Vendor promotion approved successfully"
            else "Vendor promotion rejected")
          (some v))

  -- PATCH admin/vendors/:vendorId/suspend
  unfoldable pub patch_suspension : Caller → ℕ → String → Exec (Envelope VendorProfile)
  patch_suspension caller vendor_id reason = do
    admin_only caller
    v ← suspend_vendor prisma vendor_id reason
    pure (success_with "Vendor suspended successfully" (some v))

  -- PATCH admin/users/:id/role
  unfoldable pub patch_role : Caller → ℕ → Role → Option String → Exec (Envelope User)
  patch_role caller id role reason = do
    admin_only caller
    u ← update_user_role prisma id role reason
    pure (success_with "User role updated successfully" (some u))

  -- POST admin/:userId/promote
  unfoldable pub post_deliverer : Caller → ℕ → Exec (Envelope DelivererProfile)
  post_deliverer caller user_id = do
    admin_only caller
    d ← promote_user_to_deliverer prisma user_id
    pure (
        success_with
          "User promoted to Deliverer. They must log out and log back in for the change to take effect."
          (some d))

  -- DELETE admin/:userId
  unfoldable pub drop_deliverer : Caller → ℕ → Exec (Envelope (Unit {0}))
  drop_deliverer caller user_id = do
    admin_only caller
    remove_deliverer prisma user_id
    pure (success_with "Deliverer removed and user demoted to Customer" none)
