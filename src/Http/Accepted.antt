-- ===== src/Http/Accepted.antt =====
-- Over histories of requests: no order is accepted.
use mesyaf_market.Prelude.{
  ◌≡◌, ◌≤◌, refl, ap, ℕ, Bool, true, false, Option, none, some, List, [], ◌∷◌, arith, String,
}
use mesyaf_market.Database.Schema.{User}
use mesyaf_market.Database.World.{World, Exec}
use mesyaf_market.Database.Prisma.{Prisma, Documented}
use mesyaf_market.Database.Keeps.{
  Keeps, keeps, Keeps-create, Keeps-create_unique, Keeps-update, Keeps-update_many,
  Keeps-delete_many, Keeps-delete,
}
use mesyaf_market.Access.{
  AuthenticatedUser, update_my_profile, update_user, check_password, remove_user,
}
use mesyaf_market.Users.{create_user, find_by_email}
use mesyaf_market.Auth.{register, login, generate_token}
use mesyaf_market.Vendor.Admin.{
  update_user_role, approve_vendor_promotion, suspend_vendor, promote_user_to_deliverer,
  remove_deliverer,
}
use mesyaf_market.Delivery.Profiles.{update_deliverer}
use mesyaf_market.Http.Guards.{Caller}
use mesyaf_market.Http.Catalog.{
  post_product, patch_product, drop_product, post_image, drop_image, drop_images, post_tags,
  drop_tags, drop_all_tags,
}
use mesyaf_market.Http.Shops.{
  post_profile, patch_profile, drop_profile, patch_active, patch_request, accept_order,
  reject_order,
}
use mesyaf_market.Http.Admin.{
  patch_approval, patch_suspension, patch_role, post_deliverer, drop_deliverer,
}
use mesyaf_market.Http.Accounts.{patch_me, drop_user, post_login, post_register}
use mesyaf_market.Http.Deliveries.{post_order, patch_ready, test_batch, patch_own_deliverer}
use mesyaf_market.Http.Requests.{
  Server, Request, read, write, admin, Write, AdminWrite, approval, new_product, new_order,
  readiness, new_profile, profile_update, profile_removal, activation, request, caller_of, serve,
  serve_for, serve_write, serve_admin,
}
use mesyaf_market.Http.Reads.{Keeps-read, Keeps-signed_in, Keeps-with_role}
use mesyaf_market.Http.Goods.{
  SkipsCatalog, Keeps-add_image, Keeps-remove_image, Keeps-clear_images, Keeps-attach, Keeps-detach,
  Keeps-remove_tags, Keeps-new_product, Keeps-update_product, Keeps-delete_product,
}
use mesyaf_market.Http.Powers.{Lowers, Lowers-pure, Lowers-bind, Lowers-then}
use mesyaf_market.Http.Profiles.{
  spared, Keeps-spared_create, Keeps-spared_update, Keeps-spared_delete, Keeps-spared_toggle,
  Keeps-spared_request,
}
use mesyaf_market.Http.Decided.{
  accepted, the_orders, by_orders, Keeps-closed, Lowers-new_order, Lowers-ready,
}
use mesyaf_market.Http.Grants.{Visit, at_time, history}

orders-SkipsCatalog : SkipsCatalog the_orders
orders-SkipsCatalog = record { products_put = λ t d. refl; images_put = λ t d. refl }

ruleset touches = (
  keeps, Keeps-create, Keeps-create_unique, Keeps-update, Keeps-update_many, Keeps-delete_many,
  Keeps-delete, refl, Keeps-signed_in, Keeps-with_role,
)

ruleset lowers = (Lowers-pure, Lowers-bind, Lowers-then)

by_spared : {A : Type 0} (m : Exec A) → Keeps spared m → Keeps the_orders m
by_spared m k = record { at = λ w. ap (λ a. a.1) (k.at w) }

-- The requests that write to the orders.
is_on_order : Write → Bool
is_on_order (new_order v dto) = true
is_on_order (readiness id) = true
is_on_order _ = false

module _ (prisma : Prisma) where
  Keeps-check :
      (compare : String → String → Bool) (found : Option User) (password : String)
      → Keeps the_orders (check_password prisma compare found password)
  unfolding check_password
  Keeps-check compare none password = search keeps
  Keeps-check compare (some u) password = search keeps

  Keeps-remove_user :
      (compare : String → String → Bool) (id : ℕ) (user : AuthenticatedUser) (password : String)
      → Keeps the_orders (remove_user prisma compare id user password)
  unfolding remove_user
  Keeps-remove_user compare id user password = search (touches, Keeps-check) depth 16

module _ (s : Server) (d : Documented s.prisma) (caller : Caller) where
  Keeps-admin : (r : AdminWrite) → Keeps the_orders (serve_admin s caller r)
  unfolding serve_admin patch_approval patch_suspension patch_role post_deliverer drop_deliverer
      update_user_role approve_vendor_promotion suspend_vendor promote_user_to_deliverer
      remove_deliverer
  Keeps-admin (approval id b reason) = search touches depth 16
  Keeps-admin _ = search touches depth 16

  Keeps-write : (r : Write) → is_on_order r ≡ false → Keeps the_orders (serve_write s caller r)
  unfolding is_on_order serve_write post_product patch_product drop_product post_image drop_image
      drop_images post_tags drop_tags drop_all_tags post_profile patch_profile drop_profile
      patch_active patch_request accept_order reject_order test_batch patch_own_deliverer patch_me
      drop_user post_register post_login update_deliverer update_my_profile update_user register
      create_user generate_token login find_by_email
  Keeps-write (new_product dto) h =
      search (touches, Keeps-new_product orders-SkipsCatalog d) depth 12
  Keeps-write (new_order v dto) h = cc
  Keeps-write (readiness id) h = cc
  Keeps-write (new_profile dto) h =
      by_spared _ (search (keeps, Keeps-with_role, Keeps-spared_create d) depth 12)
  Keeps-write (profile_update dto) h =
      by_spared _ (search (keeps, Keeps-with_role, Keeps-spared_update d) depth 12)
  Keeps-write profile_removal h =
      by_spared _ (search (keeps, Keeps-with_role, Keeps-spared_delete d) depth 12)
  Keeps-write (activation b) h =
      by_spared _ (search (keeps, Keeps-with_role, Keeps-spared_toggle d) depth 12)
  Keeps-write (request id) h =
      by_spared _ (search (keeps, Keeps-signed_in, Keeps-spared_request d) depth 12)
  Keeps-write _ h =
      search
        (
          touches,
          Keeps-update_product orders-SkipsCatalog d,
          Keeps-delete_product orders-SkipsCatalog d,
          Keeps-add_image orders-SkipsCatalog d,
          Keeps-remove_image orders-SkipsCatalog d,
          Keeps-clear_images orders-SkipsCatalog d,
          Keeps-attach orders-SkipsCatalog d,
          Keeps-detach orders-SkipsCatalog d,
          Keeps-remove_tags orders-SkipsCatalog d,
          Keeps-remove_user,
          Keeps-closed,
        )
        depth 16

  Lowers-write : (r : Write) → Lowers (accepted s.prisma) (serve_write s caller r)
  unfolding serve_write post_order patch_ready is_on_order
  Lowers-write (new_product dto) = by_orders s.prisma _ (Keeps-write (new_product dto) refl)
  Lowers-write (new_order v dto) =
      search (lowers, by_orders s.prisma, Keeps-signed_in, Lowers-new_order d) depth 12
  Lowers-write (readiness id) =
      search (lowers, by_orders s.prisma, Keeps-with_role, Lowers-ready d) depth 12
  Lowers-write r = by_orders s.prisma _ (Keeps-write r refl)

  Lowers-request : (r : Request) → Lowers (accepted s.prisma) (serve_for s caller r)
  unfolding serve_for
  Lowers-request (read r) = record { at = λ w. rw ((Keeps-read s d caller r).at w) (omega arith) }
  Lowers-request (write r) = Lowers-write r
  Lowers-request (admin r) = by_orders s.prisma _ (Keeps-admin r)

-- No history of requests, whoever sends them, leaves more orders accepted by their vendor than
-- there were: the routes that accept and reject an order have no guard, so that they do not know
-- the user.
pub no_order_is_accepted :
    (s : Server)
    → Documented s.prisma
    → (vs : List (Visit s)) (w : World)
    → accepted s.prisma (history s vs w).db ≤ accepted s.prisma w.db
unfolding serve
no_order_is_accepted s d [] w = omega arith
no_order_is_accepted s d ((t, token, r) ∷ vs) w =
    let w' = (serve s token r (at_time t w)).1 in
    let step = (Lowers-request s d (caller_of s token (at_time t w)) r).at (at_time t w) in
    omega (arith, no_order_is_accepted s d vs w')
