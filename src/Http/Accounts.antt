-- ===== src/Http/Accounts.antt =====
-- src/users/users.controller.ts and src/auth/auth.controller.ts.
use mesyaf_market.Prelude.{ℕ, Bool, Option, none, some, List, String}
use mesyaf_market.Database.Schema.{User, OrderStatus}
use mesyaf_market.Database.World.{Exec, pure, ◌>>=◌, ◌>>◌}
use mesyaf_market.Database.Prisma.{Prisma}
use mesyaf_market.Users.{PublicUser, OrderWithItems, find_all, find_one, get_user_orders}
use mesyaf_market.Access.{UserUpdate, claimed_user_id, update_my_profile, remove_user}
use mesyaf_market.Auth.{Jwt, Bcrypt, RegisterDto, LoginDto, register, login}
use mesyaf_market.Http.Guards.{Caller, signed_in, Envelope, success_with, error_with}

-- `if (!user) return this.response.error('User not found', 404)`
abbrev profile_answer : Option PublicUser → Envelope PublicUser
profile_answer none = error_with "User not found" 404
profile_answer (some u) = success_with "Profile fetched successfully" (some u)

module _ (prisma : Prisma) where
  -- GET users; the service wraps the list once more.
  unfoldable pub read_all_users : Caller → Exec (Envelope (Envelope (List PublicUser)))
  read_all_users caller = do
    signed_in caller
    us ← find_all prisma
    pure (
        success_with "Users fetched successfully"
          (some (success_with "Users fetched successfully" (some us))))

  -- GET users/me
  unfoldable pub read_me : Caller → Exec (Envelope PublicUser)
  read_me caller = do
    user ← signed_in caller
    found ← find_one prisma (claimed_user_id user)
    pure (profile_answer found)

  -- PATCH users/me
  unfoldable pub patch_me : Caller → UserUpdate → Exec (Envelope User)
  patch_me caller dto = do
    user ← signed_in caller
    u ← update_my_profile prisma dto user
    pure (success_with "Profile updated successfully" (some u))

  -- DELETE users/:id
  unfoldable pub drop_user : (String → String → Bool) → Caller → ℕ → String → Exec (Envelope User)
  drop_user compare caller id password = do
    user ← signed_in caller
    u ← remove_user prisma compare id user password
    pure (success_with "User deleted successfully" (some u))

  -- GET users/orders
  unfoldable pub read_own_orders : Caller → Option OrderStatus → Exec (List OrderWithItems)
  read_own_orders caller order_status = do
    user ← signed_in caller
    get_user_orders prisma (claimed_user_id user) order_status

module _ (jwt : Jwt) (prisma : Prisma) (bcrypt : Bcrypt) where
  -- POST auth/register, with the salt that bcrypt draws
  unfoldable pub post_register : RegisterDto → String → Exec (Envelope jwt.Token)
  post_register dto salt = do
    t ← register jwt prisma bcrypt dto salt
    pure (success_with "User registered successfully" (some t))

  -- POST auth/login
  unfoldable pub post_login : LoginDto → Exec (Envelope jwt.Token)
  post_login dto = do
    t ← login jwt prisma bcrypt dto
    pure (success_with "Login successful" (some t))
