-- ===== src/Database/RedisService.antt =====
-- src/common/redis/redis.service.ts: the service over the client of Redis.
use mesyaf_market.Prelude.{ℕ, Bool, Option, List, ◌==◌, if◌then◌else◌}
use mesyaf_market.Database.World.{Exec, modify}
use mesyaf_market.Database.World.{ok}
use mesyaf_market.Database.Cache.{Key, Value, Redis}

module _ (redis : Redis) where
  -- RedisService.get
  abbrev pub get : Key → Exec (Option Value)
  get k w = (ok (redis.get k w.now w.cache), w)

  -- RedisService.set, with a time to live in seconds; every caller gives one, above zero
  abbrev pub set : Key → Value → ℕ → Exec (Unit {0})
  set k v ttl = modify (λ w. record w { cache = redis.set k v ttl w.now w.cache })

  -- RedisService.del, with Redis reachable, as everywhere in the model.
  abbrev pub del : Key → Exec (Unit {0})
  del k = modify (λ w. record w { cache = redis.del k w.cache })

  -- RedisService.getKeysByPattern, where the pattern is a test on keys
  abbrev pub keys_by_pattern : (Key → Bool) → Exec (List Key)
  keys_by_pattern p w = (ok (redis.scan p w.now w.cache), w)

  -- RedisService.exists
  abbrev pub exists : Key → Exec Bool
  exists k w = (ok (redis.exists k w.now w.cache), w)

  -- RedisService.incrWithExpire
  abbrev pub incr_with_expire : Key → ℕ → Exec ℕ
  incr_with_expire k seconds w =
      let (hits, es) = redis.incr k w.now w.cache in
      (ok hits, record w { cache = if hits == 1 then redis.expire k seconds w.now es else es })

  -- RedisService.getTtl
  abbrev pub get_ttl : Key → Exec (Option ℕ)
  get_ttl k w = (ok (redis.ttl k w.now w.cache), w)
