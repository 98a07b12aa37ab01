-- ===== src/Http/Guests.antt =====
-- Requests without a valid token.
use mesyaf_market.Prelude.{◌≡◌, refl, Bool, true, false, Option, none}
use mesyaf_market.Database.World.{World}
use mesyaf_market.Database.Prisma.{Documented}
use mesyaf_market.Database.Keeps.{Keeps, keeps}
use mesyaf_market.Users.{find_by_email}
use mesyaf_market.Auth.{login, generate_token}
use mesyaf_market.Http.Guards.{signed_in, with_role}
use mesyaf_market.Http.Catalog.{
  post_product, patch_product, drop_product, post_image, drop_image, drop_images, post_tags,
  drop_tags, drop_all_tags,
}
use mesyaf_market.Http.Shops.{
  post_profile, patch_profile, drop_profile, patch_active, patch_request, accept_order,
  reject_order,
}
use mesyaf_market.Http.Admin.{
  patch_approval, patch_suspension, patch_role, post_deliverer, drop_deliverer,
}
use mesyaf_market.Http.Accounts.{patch_me, drop_user, post_login}
use mesyaf_market.Http.Deliveries.{post_order, patch_ready, test_batch, patch_own_deliverer}
use mesyaf_market.Http.Requests.{
  Server, Request, read, write, admin, registration, authentication, Write, AdminWrite, approval,
  caller_of, serve, serve_for, serve_write, serve_admin,
}
use mesyaf_market.Http.Reads.{same, Keeps-read}

abbrev pub is_registration : Request → Bool
is_registration (write (registration dto salt)) = true
is_registration _ = false

module _ (s : Server) where
  Keeps-login : (r : Write) → is_registration (write r) ≡ false → Keeps same (serve_write s none r)
  unfolding serve_write post_product patch_product drop_product post_image drop_image drop_images
      post_tags drop_tags drop_all_tags post_profile patch_profile drop_profile patch_active
      patch_request accept_order reject_order patch_me drop_user post_login post_order patch_ready
      test_batch patch_own_deliverer signed_in with_role login find_by_email generate_token
  Keeps-login (registration dto salt) h = cc
  Keeps-login (authentication dto) h = search keeps depth 12
  Keeps-login _ h = record { at = λ w. refl }

  Keeps-refused : (r : AdminWrite) → Keeps same (serve_admin s none r)
  unfolding serve_admin patch_approval patch_suspension patch_role post_deliverer drop_deliverer
      signed_in with_role
  Keeps-refused (approval id b reason) = record { at = λ w. refl }
  Keeps-refused _ = record { at = λ w. refl }

  guests_keep :
      Documented s.prisma
      → (r : Request) (w : World) → is_registration r ≡ false
      → (serve_for s none r w).1.db ≡ w.db
  unfolding serve_for
  guests_keep d (read r) w h = (Keeps-read s d none r).at w
  guests_keep d (write r) w h = (Keeps-login r h).at w
  guests_keep d (admin r) w h = (Keeps-refused r).at w

-- A request without a valid token changes no table, unless it registers a new user.
pub guests_change_nothing :
    (s : Server)
    → Documented s.prisma
    → (token : Option s.jwt.Token) (r : Request) (w : World) → caller_of s token w ≡ none
    → is_registration r ≡ false
    → (serve s token r w).1.db ≡ w.db
unfolding serve
guests_change_nothing s d token r w h k = rw h (guests_keep s d r w k)
