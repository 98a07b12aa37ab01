-- ===== src/Seed/Accounts.antt =====
-- About prisma/seed.ts: its accounts and its shop can be used.
use mesyaf_market.Prelude.{
  ◌≡◌, refl, ℕ, suc, Bool, true, Option, some, none, ◌==◌, String, str_eq, same_id, arith,
}
use mathlib.Core.Option
use mesyaf_market.Database.Schema.{Role, User, DelivererProfile}
use mesyaf_market.Database.World.{World, ok}
use mesyaf_market.Database.Rows.{find_row, count_rows}
use mesyaf_market.Database.Prisma.{Prisma, Documented, Documented-reference, reference}
use mesyaf_market.Users.{find_by_email}
use mesyaf_market.Access.{AuthenticatedUser}
use mesyaf_market.Auth.{
  Bcrypt, DocumentedBcrypt, Jwt, DocumentedJwt, login, generate_token, authenticate, claims_of,
}
use mesyaf_market.Products.Filter.{ProductFilter, passes}
use mesyaf_market.Products.Catalog.{is_listed}
use mesyaf_market.Delivery.Assignment.{is_free}
use mesyaf_market.Seed.{seed, test_deliverer}
use mesyaf_market.Seed.Filled.{filled, user_of, seed_lem}

pub data Account : Type 0 where
  admin customer vendor deliverer second_deliverer : Account

abbrev pub email_of : Account → String
email_of admin = "admin@test.com"
email_of customer = "customer@test.com"
email_of vendor = "vendor@test.com"
email_of deliverer = "deliverer@test.com"
email_of second_deliverer = "deliverer2@test.com"

abbrev name_of : Account → String
name_of admin = "Admin User"
name_of customer = "Test Customer"
name_of vendor = "Test Vendor"
name_of deliverer = "Test Deliverer"
name_of second_deliverer = "Test-Deliverer2"

abbrev pub role_of : Account → Role
role_of admin = Role.admin
role_of customer = Role.customer
role_of vendor = Role.vendor
role_of deliverer = Role.deliverer
role_of second_deliverer = Role.deliverer

-- The ids, after those that the database used before
abbrev pub id_of : Account → World → ℕ
id_of admin w = w.db.users.next_id
id_of customer w = suc w.db.users.next_id
id_of vendor w = suc (suc w.db.users.next_id)
id_of deliverer w = suc (suc (suc w.db.users.next_id))
id_of second_deliverer w = suc (suc (suc (suc w.db.users.next_id)))

abbrev profile_of : Account → World → Option DelivererProfile
profile_of deliverer w = some (
    test_deliverer 4630130893982074309 4630310920584203041 (id_of deliverer w)
      w.db.deliverers.next_id)
profile_of second_deliverer w = some (
    test_deliverer 4630132532749020410 4630310999886600902 (id_of second_deliverer w)
      (suc w.db.deliverers.next_id))
profile_of _ w = none

-- Whom a token of the account stands for
abbrev pub signed_in_as : Account → World → AuthenticatedUser
signed_in_as a w = record {
  id = id_of a w;
  email = email_of a;
  role = role_of a;
  deliverer_id = Option.map (λ p. p.id) (profile_of a w);
}

abbrev row_of : String → Account → World → User
row_of hashed a w = user_of hashed w (email_of a) (name_of a) (role_of a) (id_of a w)

user_found :
    (hashed : String) (a : Account) (w : World)
    → find_row (λ u. str_eq u.email (email_of a)) (filled hashed w).users.rows
      ≡ some (row_of hashed a w)
unfolding find_row
user_found hashed admin w = refl
user_found hashed customer w = refl
user_found hashed vendor w = refl
user_found hashed deliverer w = refl
user_found hashed second_deliverer w = refl

profile_found :
    (hashed : String) (a : Account) (w : World)
    → find_row (λ d. d.user_id == id_of a w) (filled hashed w).deliverers.rows ≡ profile_of a w
unfolding find_row
profile_found hashed admin w = ground arith
profile_found hashed customer w = ground arith
profile_found hashed vendor w = ground arith
profile_found hashed deliverer w = ground arith
profile_found hashed second_deliverer w = ground arith

accounts_log_in :
    (jwt : Jwt) (bcrypt : Bcrypt)
    → DocumentedJwt jwt
    → DocumentedBcrypt bcrypt
    → (salt : String) (a : Account) (w : World)
    → let w' = (seed reference bcrypt salt w).1 in
      ((seed reference bcrypt salt w).0 ≡ ok tt)
      × (t : jwt.Token) × ((login jwt reference bcrypt
            (record { email = email_of a; password = "password123" })
            w').0
          ≡ ok t)
      × (authenticate jwt t w' ≡ some (signed_in_as a w))
unfolding login find_by_email generate_token authenticate
accounts_log_in jwt bcrypt dj db salt a w =
    let hashed = bcrypt.hash "password123" salt in
    let claims = claims_of (row_of hashed a w) (profile_of a w) in
    rw (seed_lem bcrypt salt w) (
      refl,
      jwt.sign claims w.now,
      rw (user_found hashed a w, profile_found hashed a w, db.compare-hash_lem "password123" salt)
          refl,
      rw (dj.verify-sign_lem claims w.now) refl,
    )

products_listed :
    (contains : String → String → Bool) (filter : ProductFilter) (hashed : String) (w : World)
    → let db = filled hashed w in
      count_rows (is_listed reference contains filter db) db.products.rows
      ≡ count_rows (passes contains filter) db.products.rows
unfolding count_rows find_row
products_listed contains filter hashed w = rw (same_id w.db.vendors.next_id) refl

shop_opens :
    (bcrypt : Bcrypt) (salt : String) (contains : String → String → Bool) (filter : ProductFilter)
    (w : World)
    → let db = (seed reference bcrypt salt w).1.db in
      (count_rows (is_listed reference contains filter db) db.products.rows
        ≡ count_rows (passes contains filter) db.products.rows)
      × (count_rows is_free db.deliverers.rows ≡ 2)
      × (count_rows (λ o. true) db.orders.rows ≡ 0)
unfolding count_rows
shop_opens bcrypt salt contains filter w =
    let hashed = bcrypt.hash "password123" salt in
    rw (seed_lem bcrypt salt w) (products_listed contains filter hashed w, refl, refl)

module _ {prisma : Prisma} (d : Documented prisma) where
  -- The seed ends on every database, whatever was in it, and each of its five accounts can then log
  -- in with its email and the password of the seed: the token stands for the account, with its role,
  -- and with the id of its profile if it is a deliverer's.
  pub seeded_accounts_log_in :
      (jwt : Jwt) (bcrypt : Bcrypt)
      → DocumentedJwt jwt
      → DocumentedBcrypt bcrypt
      → (salt : String) (a : Account) (w : World)
      → let w' = (seed prisma bcrypt salt w).1 in
        ((seed prisma bcrypt salt w).0 ≡ ok tt)
        × (t : jwt.Token) × ((login jwt prisma bcrypt
              (record { email = email_of a; password = "password123" })
              w').0
            ≡ ok t)
        × (authenticate jwt t w' ≡ some (signed_in_as a w))
  seeded_accounts_log_in = rw (Documented-reference d) accounts_log_in

  -- After the seed the listing of all products has every product that passes the filter, whatever
  -- the filter, both deliverers are free for a batch, and no order is left.
  seeded_shop_opens :
      (bcrypt : Bcrypt) (salt : String) (contains : String → String → Bool) (filter : ProductFilter)
      (w : World)
      → let db = (seed prisma bcrypt salt w).1.db in
        (prisma.count (is_listed prisma contains filter db) db.products
          ≡ prisma.count (passes contains filter) db.products)
        × (prisma.count is_free db.deliverers ≡ 2)
        × (prisma.count (λ o. true) db.orders ≡ 0)
  seeded_shop_opens = rw (Documented-reference d) shop_opens
