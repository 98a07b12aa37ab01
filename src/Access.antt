-- ===== src/Access.antt =====
-- src/common/timeline/*.query.service.ts, src/common/guards/roles.guard.ts and
-- src/users/users.service.ts: who may read a timeline, and who may change or delete a user.
pub mod Laws
mod Examples
use mesyaf_market.Prelude.{
  ℕ, Bool, true, false, Option, none, some, List, ◌&&◌, ◌||◌, not, ◌==◌, is_value, if◌then◌else◌,
  String, any,
}
use mesyaf_market.Database.Schema.{Role, User, Order, OrderTimelineRow, JobTimelineRow, is_role}
use mesyaf_market.Database.World.{
  Exec, pure, throw, throw_if, or_throw, ◌>>=◌, ◌>>◌, not_found, forbidden, unauthorized, plain,
}
use mesyaf_market.Database.Prisma.{
  Prisma, users, orders, jobs, order_timeline, job_timeline, find_first, find_many, update, delete,
}

-- `req.user`: JwtStrategy.validate copies these four claims; any other property is `undefined`.
pub record AuthenticatedUser : Type 0 where
  pub id : ℕ
  pub email : String
  pub role : Role
  pub deliverer_id : Option ℕ

-- `user.vendorId`, which is `undefined`
abbrev pub claimed_vendor_id : AuthenticatedUser → Option ℕ
claimed_vendor_id user = none

-- `currentUser.userId`, `req.user.userId`, which are `undefined`
abbrev pub claimed_user_id : AuthenticatedUser → Option ℕ
claimed_user_id user = none

-- RolesGuard.canActivate: the roles of the decorator, and the user of the request.
unfoldable pub can_activate : Option (List Role) → Option AuthenticatedUser → Exec Bool
unfolding any
can_activate none user = pure true
can_activate (some roles) none = throw unauthorized
can_activate (some roles) (some user) = pure (any (λ r. is_role r user.role) roles)

-- `user.delivererId !== job.delivererId` on two nullable ids
abbrev same_nullable : Option ℕ → Option ℕ → Bool
same_nullable none none = true
same_nullable none (some b) = false
same_nullable (some a) b = is_value b a

-- UpdateUserDto; `password`, `email` and the rest are refused by the validation pipe.
pub record UserUpdate : Type 0 where
  pub name : String
  pub role : Option Role
  pub profile_image : Option String
  pub phone_number : Option String
  pub address : Option String

abbrev overwrite : Option String → Option String → Option String
overwrite none old = old
overwrite (some a) old = some a

abbrev role_or : Option Role → Role → Role
role_or none old = old
role_or (some r) old = r

-- `delete data.role`
abbrev without_role : Bool → Option Role → Option Role
without_role is_admin role = if is_admin then role else none

module _ (prisma : Prisma) where
  -- JobTimelineQueryService.getJobTimeline
  unfoldable pub get_job_timeline : ℕ → AuthenticatedUser → Exec (List JobTimelineRow)
  get_job_timeline job_id user = do
    found ← find_first prisma jobs (λ j. j.id == job_id)
    job ← or_throw found not_found
    throw_if
        (not (is_role user.role Role.admin)
          && not (same_nullable user.deliverer_id job.deliverer_id))
        forbidden
    rows ← find_many prisma job_timeline (λ r. r.job_id == job_id)
    pure (prisma.order_by (λ r. some r.occurred_at) rows)

  -- Who may read the timeline of an order.
  abbrev pub may_read_order : AuthenticatedUser → Order → Bool
  may_read_order user o =
      is_role user.role Role.admin
      || (is_role user.role Role.customer && user.id == o.customer_id)
      || (is_role user.role Role.vendor && is_value (claimed_vendor_id user) o.vendor_id)

  -- OrderTimelineQueryService.getOrderTimeline
  unfoldable pub get_order_timeline : ℕ → AuthenticatedUser → Exec (List OrderTimelineRow)
  get_order_timeline order_id user = do
    found ← find_first prisma orders (λ o. o.id == order_id)
    o ← or_throw found not_found
    throw_if (not (may_read_order user o)) forbidden
    rows ← find_many prisma order_timeline (λ r. r.order_id == order_id)
    pure (prisma.order_by (λ r. some r.occurred_at) rows)

  -- `prisma.user.update({ where: { id }, data })`, which refuses an `id` that is undefined.
  update_by_id : Option ℕ → UserUpdate → Option Role → Exec User
  update_by_id none dto role = throw plain
  update_by_id (some id) dto role =
      update prisma users (λ u. u.id == id)
        (λ u. record u {
          name = dto.name;
          role = role_or role u.role;
          profile_image = overwrite dto.profile_image u.profile_image;
          phone_number = overwrite dto.phone_number u.phone_number;
          address = overwrite dto.address u.address;
        })

  -- UsersService.updateProfile
  unfoldable pub update_user : Option ℕ → UserUpdate → AuthenticatedUser → Exec User
  unfolding update_by_id
  update_user id dto current_user = do
    let is_admin = is_role current_user.role Role.admin
    throw_if (not (same_nullable id (claimed_user_id current_user)) && not is_admin) forbidden
    update_by_id id dto (without_role is_admin dto.role)

  -- UsersController.updateMyProfile
  unfoldable pub update_my_profile : UserUpdate → AuthenticatedUser → Exec User
  unfolding update_user
  update_my_profile dto user = update_user (claimed_user_id user) dto user

  -- The check of the password, which only a user who is no administrator passes through.
  unfoldable pub check_password : (String → String → Bool) → Option User → String → Exec (Unit {0})
  check_password compare none password = throw unauthorized
  check_password compare (some u) password =
      throw_if (not (compare password u.password)) unauthorized

  -- UsersService.remove, over bcrypt's `compare`
  unfoldable pub remove_user : (String → String → Bool) → ℕ → AuthenticatedUser → String → Exec User
  unfolding check_password
  remove_user compare id current_user password = do
    let is_admin = is_role current_user.role Role.admin
    throw_if (not is_admin && not (is_value (claimed_user_id current_user) id)) forbidden
    found ← find_first prisma users (λ u. u.id == id)
    if is_admin then pure tt else check_password compare found password
    delete prisma users (λ u. u.id == id)
