-- ===== src/Http/Grants.antt =====
-- Over histories of requests: only an administrator makes administrators and verifies vendors.
use mesyaf_market.Prelude.{◌≡◌, ◌≤◌, refl, ℕ, true, Option, none, some, List, [], ◌∷◌, arith}
use mesyaf_market.Database.Schema.{Role, is_role}
use mesyaf_market.Database.World.{World, Exec}
use mesyaf_market.Database.Prisma.{Documented}
use mesyaf_market.Database.Keeps.{Keeps, keeps}
use mesyaf_market.Access.Laws.{remove_user_refused}
use mesyaf_market.Users.{create_user}
use mesyaf_market.Auth.{register, generate_token}
use mesyaf_market.Http.Guards.{Caller, signed_in, with_role}
use mesyaf_market.Http.Shops.{
  post_profile, patch_profile, drop_profile, patch_active, patch_request,
}
use mesyaf_market.Http.Accounts.{drop_user, post_register}
use mesyaf_market.Http.Requests.{
  Server, Request, read, write, admin, Write, new_product, new_profile, profile_update,
  profile_removal, activation, request, user_removal, registration, caller_of, serve, serve_for,
  serve_write,
}
use mesyaf_market.Http.Reads.{Keeps-read, Keeps-signed_in, Keeps-with_role}
use mesyaf_market.Http.Untouched.{accounts}
use mesyaf_market.Http.Powers.{
  Lowers, Lowers-pure, Lowers-bind, Lowers-then, Lowers-Keeps, admins, verified_profiles,
  Lowers-register,
}
use mesyaf_market.Http.Plain.{IsNoAdmin, is_plain, Keeps-plain, refused_admin}
use mesyaf_market.Http.Profiles.{
  Lowers-create, Lowers-update, Lowers-delete, Lowers-toggle, Lowers-request, spared, touches,
  Keeps-spared_create, Keeps-spared_update, Keeps-spared_delete, Keeps-spared_toggle,
  Keeps-spared_request,
}

ruleset lowers = (keeps, Lowers-pure, Lowers-bind, Lowers-then)

module _ (s : Server) (d : Documented s.prisma) where
  plain-Lowers :
      (caller : Caller) (r : Write)
      → is_plain r ≡ true
      → Lowers (admins s.prisma) (serve_write s caller r)
        × Lowers (verified_profiles s.prisma) (serve_write s caller r)
  plain-Lowers caller r h =
      let keep = Keeps-plain s d caller r h in
      (
        Lowers-Keeps accounts (λ a. s.prisma.count (λ u. is_role u.role Role.admin) a.0)
            (serve_write s caller r) (λ db. refl) keep,
        Lowers-Keeps accounts (λ a. s.prisma.count (λ v. v.is_verified) a.1)
            (serve_write s caller r) (λ db. refl) keep,
      )

  by_users : {A : Type 0} (m : Exec A) → Keeps spared m → Lowers (admins s.prisma) m
  by_users m k =
      Lowers-Keeps spared (λ a. s.prisma.count (λ u. is_role u.role Role.admin) a.0) m (λ db. refl)
        k

  by_vendors :
      {A : Type 0} (m : Exec A) → Keeps (λ db. db.vendors) m → Lowers (verified_profiles s.prisma) m
  by_vendors m k =
      Lowers-Keeps (λ db. db.vendors) (s.prisma.count (λ v. v.is_verified)) m (λ db. refl) k

  write-Lowers-admins :
      (caller : Caller) (r : Write)
      → IsNoAdmin caller
      → Lowers (admins s.prisma) (serve_write s caller r)
  unfolding serve_write post_profile patch_profile drop_profile patch_active patch_request drop_user
      post_register signed_in is_plain
  write-Lowers-admins caller (new_product dto) h = (plain-Lowers caller (new_product dto) refl).0
  write-Lowers-admins caller (new_profile dto) h =
      by_users _ (search (keeps, Keeps-with_role, Keeps-spared_create d) depth 12)
  write-Lowers-admins caller (profile_update dto) h =
      by_users _ (search (keeps, Keeps-with_role, Keeps-spared_update d) depth 12)
  write-Lowers-admins caller profile_removal h =
      by_users _ (search (keeps, Keeps-with_role, Keeps-spared_delete d) depth 12)
  write-Lowers-admins caller (activation b) h =
      by_users _ (search (keeps, Keeps-with_role, Keeps-spared_toggle d) depth 12)
  write-Lowers-admins caller (request id) h =
      by_users _ (search (keeps, Keeps-signed_in, Keeps-spared_request d) depth 12)
  write-Lowers-admins none (user_removal id password) h = record { at = λ w. omega arith }
  write-Lowers-admins (some u) (user_removal id password) h = record {
    at = λ w. rw (remove_user_refused d s.bcrypt.compare id u password w h) (omega arith);
  }
  write-Lowers-admins caller (registration dto salt) h =
      Lowers-then _ _
        (Lowers-bind _ _ (Lowers-register d s.jwt s.bcrypt dto salt) (λ t. Lowers-pure _))
        (Lowers-pure _)
  write-Lowers-admins caller r h = (plain-Lowers caller r refl).0

  write-Lowers_verified :
      (caller : Caller) (r : Write)
      → IsNoAdmin caller
      → Lowers (verified_profiles s.prisma) (serve_write s caller r)
  unfolding serve_write post_profile patch_profile drop_profile patch_active patch_request drop_user
      post_register signed_in with_role register create_user generate_token is_plain
  write-Lowers_verified caller (new_product dto) h = (plain-Lowers caller (new_product dto) refl).1
  write-Lowers_verified caller (new_profile dto) h =
      search (lowers, by_vendors, Keeps-with_role, Lowers-create d) depth 12
  write-Lowers_verified caller (profile_update dto) h =
      search (lowers, by_vendors, Keeps-with_role, Lowers-update d) depth 12
  write-Lowers_verified caller profile_removal h =
      search (lowers, by_vendors, Keeps-with_role, Lowers-delete d) depth 12
  write-Lowers_verified caller (activation b) h =
      search (lowers, by_vendors, Keeps-with_role, Lowers-toggle d) depth 12
  write-Lowers_verified caller (request id) h =
      search (lowers, by_vendors, Keeps-signed_in, Lowers-request d) depth 12
  write-Lowers_verified none (user_removal id password) h = record { at = λ w. omega arith }
  write-Lowers_verified (some u) (user_removal id password) h = record {
    at = λ w. rw (remove_user_refused d s.bcrypt.compare id u password w h) (omega arith);
  }
  write-Lowers_verified caller (registration dto salt) h = by_vendors _ (search touches depth 16)
  write-Lowers_verified caller r h = (plain-Lowers caller r refl).1

  -- One request of a caller who is no administrator.
  request_lowers :
      (caller : Caller) (r : Request) (w : World)
      → IsNoAdmin caller
      → (admins s.prisma (serve_for s caller r w).1.db ≤ admins s.prisma w.db)
        × (verified_profiles s.prisma (serve_for s caller r w).1.db
            ≤ verified_profiles s.prisma w.db)
  unfolding serve_for
  request_lowers caller (read r) w h = rw ((Keeps-read s d caller r).at w) (omega arith)
  request_lowers caller (write r) w h =
      ((write-Lowers-admins caller r h).at w, (write-Lowers_verified caller r h).at w)
  request_lowers caller (admin r) w h = rw (refused_admin s caller r w h) (omega arith)

-- A history of requests, each with the time at which it is served and the token of its header.
abbrev pub Visit : Server → Type 0
Visit s = ℕ × Option s.jwt.Token × Request

abbrev pub at_time : ℕ → World → World
at_time t w = record w { now = t }

abbrev pub history : (s : Server) → List (Visit s) → World → World
history s [] w = w
history s ((t, token, r) ∷ vs) w = history s vs (serve s token r (at_time t w)).1

-- No request has the token of an administrator when it is served.
abbrev pub HasNoAdmin : (s : Server) → List (Visit s) → World → Type 0
HasNoAdmin s [] w = Unit {0}
HasNoAdmin s ((t, token, r) ∷ vs) w =
    IsNoAdmin (caller_of s token (at_time t w)) × HasNoAdmin s vs (serve s token r (at_time t w)).1

-- A history of requests without an administrator's token leaves no more users administrators, and
-- no more vendors' profiles verified, than there were.
pub powers_are_granted :
    (s : Server)
    → Documented s.prisma
    → (vs : List (Visit s)) (w : World) → HasNoAdmin s vs w
    → (admins s.prisma (history s vs w).db ≤ admins s.prisma w.db)
      × (verified_profiles s.prisma (history s vs w).db ≤ verified_profiles s.prisma w.db)
unfolding serve
powers_are_granted s d [] w h = (omega arith, omega arith)
powers_are_granted s d ((t, token, r) ∷ vs) w (h, hs) =
    let w' = (serve s token r (at_time t w)).1 in
    let (a, v) = request_lowers s d (caller_of s token (at_time t w)) r (at_time t w) h in
    let (a', v') = powers_are_granted s d vs w' hs in (omega arith, omega arith)
