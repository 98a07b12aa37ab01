-- ===== src/Delivery/Profiles.antt =====
-- src/deliverer/deliverer.service.ts: the profile of a deliverer.
use mesyaf_market.Prelude.{ℕ, Bool, Option, none, some, List, map, ◌==◌, or_else}
use mesyaf_market.Database.Schema.{Float, User, DelivererProfile}
use mesyaf_market.Database.World.{Db, Exec, pure, or_throw, gets, ◌>>=◌, not_found}
use mesyaf_market.Database.Prisma.{Prisma, deliverers, find_first, find_many, update}

-- UpdateDelivererProfileDto
pub record DelivererUpdate : Type 0 where
  pub current_lat : Option Float
  pub current_lng : Option Float
  pub availability : Option Bool

-- include: { user: true }
pub record DelivererWithUser : Type 0 where
  pub profile : DelivererProfile
  pub user : Option User

-- `a ?? b` on two nullable values
abbrev pub first_of : Option Float → Option Float → Option Float
first_of none b = b
first_of (some a) b = some a

module _ (prisma : Prisma) where
  abbrev pub with_user : Db → DelivererProfile → DelivererWithUser
  with_user db p = record {
    profile = p;
    user = prisma.find_first (λ u. u.id == p.user_id) db.users;
  }

  -- DelivererService.getProfileByUserId
  unfoldable pub get_profile : ℕ → Exec DelivererWithUser
  get_profile user_id = do
    found ← find_first prisma deliverers (λ d. d.user_id == user_id)
    p ← or_throw found not_found
    db ← gets (λ w. w.db)
    pure (with_user db p)

  -- DelivererService.updateProfile
  unfoldable pub update_deliverer : ℕ → DelivererUpdate → Exec DelivererProfile
  update_deliverer user_id dto = do
    found ← find_first prisma deliverers (λ d. d.user_id == user_id)
    p ← or_throw found not_found
    update prisma deliverers (λ d. d.user_id == user_id)
        (λ d. record d {
          current_lat = first_of dto.current_lat p.current_lat;
          current_lng = first_of dto.current_lng p.current_lng;
          availability = or_else dto.availability p.availability;
        })

  -- DelivererService.listAvailableDeliverers: the answer holds the query itself, since the code does
  -- not await it, and a Prisma query runs only when it is awaited.
  unfoldable pub list_available_deliverers : Exec (Exec (List DelivererWithUser))
  list_available_deliverers = pure (do
    found ← find_many prisma deliverers (λ d. d.availability)
    db ← gets (λ w. w.db)
    pure (map {A = DelivererProfile} {B = DelivererWithUser} (with_user db) found))
