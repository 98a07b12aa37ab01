-- ===== src/Throttler.antt =====
-- src/common/throttler: the counters of the rate limit in Redis, and the guard that picks the
-- counter of a request.
pub mod Laws
pub mod Lives
pub mod Passed
pub mod Ends
pub mod Recovers
mod Examples
use Prim.Native.Nat.{◌/◌}
use mathlib.Core.Option
use mesyaf_market.Prelude.{
  ℕ, zero, suc, ◌+◌, ◌-◌, Bool, true, false, Option, none, some, String, ◌&&◌, ltb, if◌then◌else◌,
}
use mesyaf_market.Database.World.{World, Exec, pure, gets, ◌>>=◌, ◌>>◌}
use mesyaf_market.Database.Cache.{Key, hits, block, Value, one, many, number, until, Redis}
use mesyaf_market.Database.RedisService.{get, set, exists, incr_with_expire, get_ttl}
use mesyaf_market.Auth.{Jwt, Claims}

-- ThrottlerStorageRecord
pub record ThrottlerRecord : Type 0 where
  pub total_hits : ℕ
  pub time_to_expire : ℕ
  pub is_blocked : Bool
  pub time_to_block_expire : ℕ

-- Math.ceil(ms / 1000)
abbrev pub ceil_seconds : ℕ → ℕ
ceil_seconds ms = (ms + 999) / 1000

-- `blockedData ? Math.ceil((blockedData.expiresAt - Date.now()) / 1000) : …`; the key lives less
-- than a second longer than its value says, and then the quotient is rounded up to 0.
abbrev block_left : Option Value → ℕ → ℕ → ℕ
block_left (some (until t)) now duration = ceil_seconds (t - now)
block_left (some v) now duration = 0
block_left none now duration = ceil_seconds duration

-- `remainingTtl > 0 ? remainingTtl : ttlSeconds`
abbrev time_left : Option ℕ → ℕ → ℕ
time_left none seconds = seconds
time_left (some zero) seconds = seconds
time_left (some (suc n)) seconds = suc n

module _ (redis : Redis) where
  -- The answer while the tracker is blocked.
  unfoldable pub still_blocked : Key → ℕ → ℕ → Exec ThrottlerRecord
  still_blocked block_key limit block_duration = do
    blocked ← get redis block_key
    now ← gets (λ w. w.now)
    pure (record {
      total_hits = limit + 1;
      time_to_expire = 0;
      is_blocked = true;
      time_to_block_expire = block_left blocked now block_duration;
    })

  -- The answer to a hit: too many of them block the tracker.
  unfoldable pub answer : Key → ℕ → ℕ → ℕ → ℕ → Exec ThrottlerRecord
  answer block_key total time_to_expire limit block_duration =
      if ltb limit total && ltb 0 block_duration
      then (do
        now ← gets (λ w. w.now)
        set redis block_key (until (now + block_duration)) (ceil_seconds block_duration)
        pure (record {
          total_hits = total;
          time_to_expire = time_to_expire;
          is_blocked = true;
          time_to_block_expire = ceil_seconds block_duration;
        }))
      else pure (record {
        total_hits = total;
        time_to_expire = time_to_expire;
        is_blocked = false;
        time_to_block_expire = 0;
      })

  -- The count of a hit.
  unfoldable pub count_hit : Key → Key → ℕ → ℕ → ℕ → Exec ThrottlerRecord
  count_hit hits_key block_key ttl limit block_duration = do
    total ← incr_with_expire redis hits_key (ceil_seconds ttl)
    remaining ← get_ttl redis hits_key
    answer block_key total (time_left remaining (ceil_seconds ttl)) limit block_duration

  -- RedisThrottlerStorage.increment
  unfoldable pub increment : String → ℕ → ℕ → ℕ → String → Exec ThrottlerRecord
  increment key ttl limit block_duration name = do
    blocked ← exists redis (block name key)
    if blocked
        then still_blocked (block name key) limit block_duration
        else count_hit (hits name key) (block name key) ttl limit block_duration

-- `user-<sub>` and `ip-<address>`
pub data Tracker : Type 0 where
  user : (id : ℕ) → Tracker
  ip : (address : String) → Tracker

-- `user && user['sub']`
abbrev tracker_of : Option Claims → String → Tracker
tracker_of none address = ip address
tracker_of (some c) address = if ltb 0 c.sub then user c.sub else ip address

-- CostumThrottlerGuard.getTracker, with the bearer token of the request; a token that is not valid
-- counts as none.
unfoldable pub get_tracker : (jwt : Jwt) → Option jwt.Token → String → World → Tracker
get_tracker jwt none address w = ip address
get_tracker jwt (some token) address w = tracker_of (jwt.verify token w.now) address

-- CostumThrottlerGuard.canActivate, over that of ThrottlerGuard
unfoldable pub can_activate : (is_http : Bool) → Exec Bool → Exec Bool
can_activate true guard = guard
can_activate false guard = pure true
