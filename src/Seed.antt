-- ===== src/Seed.antt =====
-- prisma/seed.ts: the database is emptied, and filled with accounts and a shop to try the program
-- with. The printing and the end of the process are left out.
pub mod Filled
pub mod Accounts
mod Examples
use mesyaf_market.Prelude.{ℕ, Bool, true, false, none, some, [], ◌==◌, String, str_eq}
use mesyaf_market.Database.Schema.{
  Float, Role, Condition, User, VendorProfile, DelivererProfile, Category, Product,
}
use mesyaf_market.Database.World.{Exec, pure, gets, ◌>>=◌, ◌>>◌}
use mesyaf_market.Database.Prisma.{
  Prisma, users, vendors, products, categories, images, deliverers, orders, items, drop_offs, jobs,
  batches, events, order_timeline, job_timeline, create, create_unique, delete_many,
}
use mesyaf_market.Users.{UserDto, create_user}
use mesyaf_market.Auth.{Bcrypt}

-- `deleteMany()` has no condition.
abbrev pub every : {R : Type 0} → R → Bool
every r = true

-- { email, password, name, role }
abbrev pub account : String → String → String → Role → UserDto
account email password name role = record {
  name = name;
  email = email;
  password = password;
  role = some role;
  profile_image = none;
  phone_number = none;
  address = none;
}

-- The data of `prisma.vendorProfile.create`
abbrev pub test_shop : ℕ → ℕ → ℕ → VendorProfile
test_shop user_id now id = record {
  id = id;
  user_id = user_id;
  shop_name = "Test Shop";
  cover_image = none;
  description = none;
  address = none;
  latitude = some 4630131351288302595;
  longitude = some 4630310976452246417;
  is_verified = true;
  is_active = true;
  demotion_reason = none;
  suspended_at = none;
  reactivated_at = none;
  created_at = now;
}

-- The data of `prisma.delivererProfile.create`, which is called with two places
abbrev pub test_deliverer : Float → Float → ℕ → ℕ → DelivererProfile
test_deliverer lat lng user_id id = record {
  id = id;
  user_id = user_id;
  current_lat = some lat;
  current_lng = some lng;
  availability = true;
  max_concurrent_orders = 3;
  max_stops = 5;
  accepts_batching = true;
  active_job_id = none;
}

abbrev pub test_category : String → ℕ → Category
test_category name id = record { id = id; name = name }

-- The data of `prisma.product.createMany`, of two products with the same price and stock
abbrev pub test_product : String → ℕ → ℕ → ℕ → ℕ → Product
test_product name vendor_id category_id now id = record {
  id = id;
  vendor_id = vendor_id;
  category_id = category_id;
  name = name;
  description = none;
  price = 4627730092099895296;
  discount_price = none;
  stock_quantity = 100;
  condition = Condition.new;
  is_available = true;
  tags = [];
  created_at = now;
}

module _ (prisma : Prisma) where
  -- "Clean in correct order"
  unfoldable pub clean : Exec (Unit {0})
  clean = do
    delete_many prisma events every
    delete_many prisma job_timeline every
    delete_many prisma order_timeline every
    delete_many prisma drop_offs every
    delete_many prisma jobs every
    delete_many prisma batches every
    delete_many prisma items every
    delete_many prisma orders every
    delete_many prisma images every
    delete_many prisma products every
    delete_many prisma categories every
    delete_many prisma deliverers every
    delete_many prisma vendors every
    delete_many prisma users every
    pure tt

  -- A deliverer's account with its profile
  unfoldable pub add_deliverer : String → String → String → Float → Float → Exec DelivererProfile
  add_deliverer email password name lat lng = do
    user ← create_user prisma (account email password name Role.deliverer)
    create_unique prisma deliverers (λ d. d.user_id == user.id) (test_deliverer lat lng user.id)

  -- The vendor's account with its profile
  unfoldable pub add_vendor : String → Exec VendorProfile
  add_vendor password = do
    user ← create_user prisma (account "vendor@test.com" password "Test Vendor" Role.vendor)
    now ← gets (λ w. w.now)
    create_unique prisma vendors (λ v. v.user_id == user.id) (test_shop user.id now)

  unfoldable pub add_category : String → Exec Category
  add_category name = create_unique prisma categories (λ c. str_eq c.name name) (test_category name)

  unfoldable pub add_products : VendorProfile → Category → Category → Exec (Unit {0})
  add_products vendor general food = do
    now ← gets (λ w. w.now)
    create prisma products (test_product "Test Product" vendor.id general.id now)
    create prisma products (test_product "Test-Food-Product" vendor.id food.id now)
    pure tt

  -- All that is created, with the hash of the one password
  unfoldable pub fill : String → Exec (Unit {0})
  unfolding add_deliverer add_vendor add_category add_products
  fill password = do
    create_user prisma (account "admin@test.com" password "Admin User" Role.admin)
    create_user prisma (account "customer@test.com" password "Test Customer" Role.customer)
    vendor ← add_vendor password
    add_deliverer "deliverer@test.com" password "Test Deliverer" 4630130893982074309
        4630310920584203041
    add_deliverer "deliverer2@test.com" password "Test-Deliverer2" 4630132532749020410
        4630310999886600902
    general ← add_category "General"
    food ← add_category "Food"
    add_products vendor general food

  -- main
  unfoldable pub seed : Bcrypt → String → Exec (Unit {0})
  seed bcrypt salt = clean >> fill (bcrypt.hash "password123" salt)
