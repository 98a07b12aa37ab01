-- ===== src/Delivery/Location.antt =====
-- src/deliverer/deliverer-location-service.ts. What Redis holds is `World.live`: a key that has
-- expired reads as `none`.
pub mod Many
mod Examples
use mesyaf_market.Prelude.{
  ℕ, Bool, false, Option, none, some, List, [], ◌∷◌, ◌++◌, ◌&&◌, ◌==◌, if◌then◌else◌, any,
}
use mesyaf_market.Database.Schema.{Float, DelivererProfile}
use mesyaf_market.Database.World.{Exec, pure, gets, modify, swallow, for_each, ◌>>=◌, ◌>>◌}
use mesyaf_market.Database.Prisma.{Prisma, deliverers, find_first, find_many, update}

pub data Source : Type 0 where
  redis db : Source

-- The value types of a message, as `typeof` and the number tests of JavaScript see them.
pub record Numbers : Type 0 where
  pub is_finite : Float → Bool
  pub abs_le : Float → ℕ → Bool

pub data Json : Type 0 where
  number : Float → Json
  other : Json

-- DelivererLocationService.isValid
unfoldable pub is_valid : Numbers → Json → Json → Bool
is_valid n (number lat) (number lng) =
    n.is_finite lat && n.is_finite lng && n.abs_le lat 90 && n.abs_le lng 180
is_valid n _ _ = false

abbrev set_live : ℕ → Float × Float → (ℕ → Option (Float × Float)) → ℕ → Option (Float × Float)
set_live id v live k = if k == id then some v else live k

-- DelivererLocationService.update
unfoldable pub update_location : ℕ → Float → Float → Exec (Unit {0})
update_location deliverer_id lat lng =
    modify (λ w. record w { live = set_live deliverer_id (lat, lng) w.live })

-- `lat != null && lng != null`
abbrev pub both : Option Float → Option Float → Option (Float × Float)
both (some a) (some b) = some (a, b)
both _ _ = none

abbrev pub stored : Option DelivererProfile → Option (Float × Float)
stored none = none
stored (some p) = both p.current_lat p.current_lng

abbrev tagged : Option (Float × Float) → Source → Option (Float × Float × Source)
tagged none s = none
tagged (some (a, b)) s = some (a, b, s)

-- The cached positions of `ids`, and the ids with none, in order.
unfoldable pub cached_of : (ℕ → Option (Float × Float)) → List ℕ → List (ℕ × Float × Float) × List ℕ
cached_of live [] = ([], [])
cached_of live (id ∷ ids) =
    let (found, missing) = cached_of live ids in
    elim (live id) [ some (a, b) ↦ ((id, a, b) ∷ found, missing) | none ↦ (found, id ∷ missing) ]

unfoldable pub stored_of : List DelivererProfile → List (ℕ × Float × Float)
stored_of [] = []
stored_of (r ∷ rows) =
    let rest = stored_of rows in
    elim (both r.current_lat r.current_lng) [ some (a, b) ↦ (r.id, a, b) ∷ rest | none ↦ rest ]

module _ (prisma : Prisma) where
  -- DelivererLocationService.get
  unfoldable pub get_location : ℕ → Exec (Option (Float × Float × Source))
  get_location deliverer_id = do
    cached ← gets (λ w. w.live deliverer_id)
    elim cached [
      | some v ↦ pure (tagged (some v) Source.redis)
      | none ↦ do
        p ← find_first prisma deliverers (λ r. r.id == deliverer_id)
        pure (tagged (stored p) Source.db)
    ]

  -- `if (missing.length) { … }`
  unfoldable pub fetch_missing : List ℕ → List (ℕ × Float × Float) → Exec (List (ℕ × Float × Float))
  fetch_missing [] found = pure found
  fetch_missing (id ∷ ids) found = do
    rows ← find_many prisma deliverers (λ r. any (λ k. k == r.id) (id ∷ ids))
    pure (found ++ stored_of rows)

  -- DelivererLocationService.getMany, as the list of the map's entries
  unfoldable pub get_many : List ℕ → Exec (List (ℕ × Float × Float))
  unfolding cached_of stored_of any fetch_missing
  get_many ids = do
    live ← gets (λ w. w.live)
    let (found, missing) = cached_of live ids
    fetch_missing missing found

  -- DelivererLocationService.flushToDb
  unfoldable pub flush_to_db : ℕ → Exec (Unit {0})
  flush_to_db deliverer_id = do
    loc ← gets (λ w. w.live deliverer_id)
    elim loc [
      | none ↦ pure tt
      | some (lat, lng) ↦ do
        update prisma deliverers (λ r. r.id == deliverer_id)
            (λ r. record r { current_lat = some lat; current_lng = some lng })
        pure tt
    ]

  -- DelivererLocationService.flushAll, over the scan of the keys of Redis, by the ids in them
  unfoldable pub flush_all : ((ℕ → Option (Float × Float)) → List ℕ) → Exec (Unit {0})
  unfolding flush_to_db
  flush_all scan = do ids ← gets (λ w. scan w.live); for_each (λ id. swallow (flush_to_db id)) ids
