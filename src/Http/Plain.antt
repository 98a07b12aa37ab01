-- ===== src/Http/Plain.antt =====
-- The requests that touch no account, and the routes of the administrators.
use mesyaf_market.Prelude.{◌≡◌, ◌≢◌, refl, Bool, true, false, none, some, arith}
use mesyaf_market.Database.Schema.{Role}
use mesyaf_market.Database.World.{World}
use mesyaf_market.Database.Prisma.{Documented}
use mesyaf_market.Database.Keeps.{Keeps, keeps}
use mesyaf_market.Access.{update_my_profile, update_user}
use mesyaf_market.Users.{find_by_email}
use mesyaf_market.Auth.{login, generate_token}
use mesyaf_market.Http.Guards.{Caller, with_role}
use mesyaf_market.Http.Catalog.{
  post_product, patch_product, drop_product, post_image, drop_image, drop_images, post_tags,
  drop_tags, drop_all_tags,
}
use mesyaf_market.Http.Shops.{accept_order, reject_order}
use mesyaf_market.Http.Admin.{
  patch_approval, patch_suspension, patch_role, post_deliverer, drop_deliverer,
}
use mesyaf_market.Http.Accounts.{patch_me, post_login}
use mesyaf_market.Http.Deliveries.{post_order, patch_ready, test_batch, patch_own_deliverer}
use mesyaf_market.Http.Requests.{
  Server, Write, AdminWrite, approval, new_product, new_profile, profile_update, profile_removal,
  activation, request, user_removal, registration, serve_write, serve_admin,
}
use mesyaf_market.Http.Reads.{Keeps-signed_in, Keeps-with_role}
use mesyaf_market.Http.Goods.{
  SkipsCatalog, Keeps-add_image, Keeps-remove_image, Keeps-clear_images, Keeps-attach, Keeps-detach,
  Keeps-remove_tags, Keeps-new_product, Keeps-update_product, Keeps-delete_product,
}
use mesyaf_market.Http.Untouched.{
  accounts, Keeps-close, Keeps-create_order, Keeps-ready, Keeps-deliverer,
}

-- A caller who is no administrator.
abbrev pub IsNoAdmin : Caller → Type 0
IsNoAdmin none = Unit {0}
IsNoAdmin (some u) = u.role ≢ Role.admin

accounts-SkipsCatalog : SkipsCatalog accounts
accounts-SkipsCatalog = record { products_put = λ t d. refl; images_put = λ t d. refl }

-- The requests that write to the profiles or delete or register a user.
unfoldable pub is_plain : Write → Bool
is_plain (new_profile dto) = false
is_plain (profile_update dto) = false
is_plain profile_removal = false
is_plain (activation b) = false
is_plain (request id) = false
is_plain (user_removal id password) = false
is_plain (registration dto salt) = false
is_plain _ = true

pub Keeps-plain :
    (s : Server)
    → Documented s.prisma
    → (caller : Caller) (r : Write) → is_plain r ≡ true
    → Keeps accounts (serve_write s caller r)
unfolding is_plain serve_write post_product patch_product drop_product post_image drop_image
    drop_images post_tags drop_tags drop_all_tags accept_order reject_order patch_me post_login
    post_order patch_ready test_batch patch_own_deliverer login find_by_email generate_token
    update_my_profile update_user
Keeps-plain s d caller (new_product dto) h =
    search (keeps, Keeps-with_role, Keeps-new_product accounts-SkipsCatalog d) depth 12
Keeps-plain s d caller (new_profile dto) h = cc
Keeps-plain s d caller (profile_update dto) h = cc
Keeps-plain s d caller profile_removal h = cc
Keeps-plain s d caller (activation b) h = cc
Keeps-plain s d caller (request id) h = cc
Keeps-plain s d caller (user_removal id password) h = cc
Keeps-plain s d caller (registration dto salt) h = cc
Keeps-plain s d caller _ h =
    search
      (
        keeps,
        Keeps-signed_in,
        Keeps-with_role,
        Keeps-update_product accounts-SkipsCatalog d,
        Keeps-delete_product accounts-SkipsCatalog d,
        Keeps-add_image accounts-SkipsCatalog d,
        Keeps-remove_image accounts-SkipsCatalog d,
        Keeps-clear_images accounts-SkipsCatalog d,
        Keeps-attach accounts-SkipsCatalog d,
        Keeps-detach accounts-SkipsCatalog d,
        Keeps-remove_tags accounts-SkipsCatalog d,
        Keeps-create_order d,
        Keeps-ready d,
        Keeps-close,
        Keeps-deliverer d,
      )
      depth 12

-- Nobody else than an administrator passes the guards of the administrator's routes.
pub refused_admin :
    (s : Server) (caller : Caller) (r : AdminWrite) (w : World)
    → IsNoAdmin caller
    → (serve_admin s caller r w).1 ≡ w
unfolding serve_admin patch_approval patch_suspension patch_role post_deliverer drop_deliverer
    with_role
refused_admin s none (approval id b reason) w h = refl
refused_admin s none _ w h = refl
refused_admin s (some u) (approval id b reason) w h = ground arith
refused_admin s (some u) _ w h = ground arith
