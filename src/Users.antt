-- ===== src/Users.antt =====
-- src/users/users.service.ts: creating and reading users. Who may change one is in Access.
use mesyaf_market.Prelude.{
  ℕ, Bool, true, false, Option, none, some, List, map, ◌&&◌, ◌==◌, String, str_eq, or_else,
}
use mathlib.Core.Option
use mesyaf_market.Database.Schema.{
  Role, User, OrderStatus, Order, OrderItem, Product, DelivererProfile, VendorProfile, is_order,
}
use mesyaf_market.Database.World.{Db, Exec, pure, throw, gets, ◌>>=◌, plain}
use mesyaf_market.Database.Prisma.{Prisma, users, orders, find_first, find_many, create_unique}

-- CreateUserDto
pub record UserDto : Type 0 where
  pub name : String
  pub email : String
  pub password : String
  pub role : Option Role
  pub profile_image : Option String
  pub phone_number : Option String
  pub address : Option String

-- select: { id, email, name, role, profileImage, phoneNumber, address, createdAt }
pub record PublicUser : Type 0 where
  pub id : ℕ
  pub email : String
  pub name : String
  pub role : Role
  pub profile_image : Option String
  pub phone_number : Option String
  pub address : Option String
  pub created_at : ℕ

abbrev public : User → PublicUser
public u = record {
  id = u.id;
  email = u.email;
  name = u.name;
  role = u.role;
  profile_image = u.profile_image;
  phone_number = u.phone_number;
  address = u.address;
  created_at = u.created_at;
}

-- include: { delivererProfile: true, vendorProfile: true }
pub record UserWithProfiles : Type 0 where
  pub user : User
  pub deliverer : Option DelivererProfile
  pub vendor : Option VendorProfile

-- include: { orderItems: { include: { product: true } } }
pub record OrderWithItems : Type 0 where
  pub order : Order
  pub items : List (OrderItem × Option Product)

abbrev pub new_user : UserDto → ℕ → ℕ → User
new_user dto now id = record {
  id = id;
  name = dto.name;
  email = dto.email;
  password = dto.password;
  role = or_else dto.role Role.customer;
  last_seen_at = none;
  is_online = false;
  profile_image = dto.profile_image;
  phone_number = dto.phone_number;
  address = dto.address;
  created_at = now;
}

-- `if (OrderStatus) whereClause.status = OrderStatus`
abbrev pub status_matches : Option OrderStatus → OrderStatus → Bool
status_matches none s = true
status_matches (some t) s = is_order s t

-- `{ customerId: userId }`, where an `undefined` leaves the condition out
abbrev pub customer_matches : Option ℕ → ℕ → Bool
customer_matches none id = true
customer_matches (some k) id = id == k

module _ (prisma : Prisma) where
  -- UsersService.create; the email is unique.
  unfoldable pub create_user : UserDto → Exec User
  create_user dto = do
    now ← gets (λ w. w.now)
    create_unique prisma users (λ u. str_eq u.email dto.email) (new_user dto now)

  -- UsersService.findAll, which AdminService.getAllUsers calls
  unfoldable pub find_all : Exec (List PublicUser)
  find_all = do
    found ← find_many prisma users (λ u. true)
    pure (map {A = User} {B = PublicUser} public found)

  -- UsersService.findOne; Prisma refuses an `id` that is `undefined`.
  unfoldable pub find_one : Option ℕ → Exec (Option PublicUser)
  find_one none = throw plain
  find_one (some id) = do
    found ← find_first prisma users (λ u. u.id == id)
    pure (Option.map public found)

  abbrev pub with_profiles : Db → User → UserWithProfiles
  with_profiles db u = record {
    user = u;
    deliverer = prisma.find_first (λ d. d.user_id == u.id) db.deliverers;
    vendor = prisma.find_first (λ v. v.user_id == u.id) db.vendors;
  }

  -- UsersService.findByEmail
  unfoldable pub find_by_email : String → Exec (Option UserWithProfiles)
  find_by_email email = do
    found ← find_first prisma users (λ u. str_eq u.email email)
    db ← gets (λ w. w.db)
    pure (Option.map (with_profiles db) found)

  abbrev pub with_items : Db → Order → OrderWithItems
  with_items db o = record {
    order = o;
    items =
        map {A = OrderItem} {B = OrderItem × Option Product}
          (λ it. (it, prisma.find_first (λ p. p.id == it.product_id) db.products))
          (prisma.find_many (λ it. it.order_id == o.id) db.items);
  }

  -- UsersService.getUserOrders
  unfoldable pub get_user_orders : Option ℕ → Option OrderStatus → Exec (List OrderWithItems)
  get_user_orders user_id status = do
    found ←
        find_many prisma orders
          (λ o. customer_matches user_id o.customer_id && status_matches status o.status)
    db ← gets (λ w. w.db)
    pure (map {A = Order} {B = OrderWithItems} (with_items db) found)
