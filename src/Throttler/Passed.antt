-- ===== src/Throttler/Passed.antt =====
-- About src/common/throttler/redis-throttler.storage.ts: how many requests of a tracker pass.
use mesyaf_market.Prelude.{
  ℕ, suc, ◌+◌, ◌-◌, ◌*◌, ◌≤◌, ◌<◌, ◌≡◌, refl, ◌∙◌, Bool, true, false, Option, none, some, arith,
  ltb, leb, String, inl, inr, Bool-cases, if◌then◌else◌, eq_iff, List, [], ◌∷◌, length, ◌⊎◌,
}
use mathlib.Core.Option
use mesyaf_market.Database.World.{World, Result, ok, err}
use mesyaf_market.Database.Rows.{find_row}
use mesyaf_market.Database.Cache.{
  hits, block, until, Value, Entry, has_key, counted, bumped, Redis, DocumentedRedis,
  redis_reference, Documented-redis_reference,
}
use mesyaf_market.Throttler.{
  ThrottlerRecord, ceil_seconds, increment, count_hit, answer, still_blocked,
}
use mesyaf_market.Throttler.Lives.{lives_till, still_none, still_there, after_hit-lives}
use mesyaf_market.Throttler.Laws.{stored, after_hit, after_hit-block, bumped-counted}

abbrev pub total : List ℕ → ℕ
total [] = 0
total (x ∷ xs) = x + total xs

abbrev pub was_blocked : Result ThrottlerRecord → Bool
was_blocked (ok r) = r.is_blocked
was_blocked (err e) = true

module _ (redis : Redis) (key : String) (ttl limit duration : ℕ) (name : String) where
  -- How many of the next requests of the tracker are let through, each of them some milliseconds
  -- after the one before it.
  unfoldable pub passed : List ℕ → World → ℕ
  passed [] w = 0
  passed (x ∷ xs) w =
      let v = record w { now = w.now + x } in
      let rest = passed xs (increment redis key ttl limit duration name v).1 in
      (if was_blocked (increment redis key ttl limit duration name v).0 then 0 else 1) + rest

module _ (key : String) (ttl limit duration : ℕ) (name : String) where
  abbrev pub step : World → Result ThrottlerRecord × World
  step = increment redis_reference key ttl limit duration name

  abbrev pub block_of : World → Option Entry
  block_of w = find_row (has_key (block name key) w.now) w.cache

  abbrev pub hits_of : World → ℕ
  hits_of w = stored (find_row (has_key (hits name key) w.now) w.cache)

  pub blocked_step :
      (w : World) (e : Entry)
      → block_of w ≡ some e
      → (was_blocked (step w).0 ≡ true) × ((step w).1 ≡ w)
  unfolding increment still_blocked
  blocked_step w e h = (ground arith, ground arith)

  pub low_step :
      (w : World)
      → block_of w ≡ none
      → hits_of w < limit
      → (was_blocked (step w).0 ≡ false)
        × ((step w).1 ≡ record w { cache = after_hit name key (ceil_seconds ttl) w.now w.cache })
  unfolding increment count_hit answer
  low_step w h low =
      let total =
        bumped-counted (hits name key) (find_row (has_key (hits name key) w.now) w.cache) in
      let within : ltb limit (
            counted
              (bumped (hits name key) (find_row (has_key (hits name key) w.now) w.cache)).value)
          ≡ false =
        ground (arith, total) in
      rw (h, within) (refl, refl)

  abbrev block_entry : World → Entry
  block_entry w = record {
    key = block name key;
    value = until (w.now + duration);
    expires_at = some (w.now + ceil_seconds duration * 1000);
  }

  block_entry-fresh :
      (w : World) → 0 < duration → has_key (block name key) w.now (block_entry w) ≡ true
  block_entry-fresh w pos = ground (arith, (eq_iff name name).1 refl, (eq_iff key key).1 refl)

  high_step :
      (w : World)
      → block_of w ≡ none
      → limit ≤ hits_of w
      → 0 < duration
      → (was_blocked (step w).0 ≡ true)
        × (block_of (step w).1 ≡ some (block_entry w))
        × ((step w).1.now ≡ w.now)
  unfolding increment count_hit answer find_row
  high_step w h high pos =
      let total =
        bumped-counted (hits name key) (find_row (has_key (hits name key) w.now) w.cache) in
      let over : ltb limit (
            counted
              (bumped (hits name key) (find_row (has_key (hits name key) w.now) w.cache)).value)
          ≡ true =
        ground (arith, total) in
      let blocks : ltb 0 duration ≡ true = ground arith in
      rw (h, over, blocks) (refl, rw (block_entry-fresh w pos) refl, refl)

  passed-blocked :
      (xs : List ℕ) (end : ℕ) (w : World) (e : Entry)
      → w.now + total xs ≤ end
      → lives_till end e ≡ true
      → block_of w ≡ some e
      → passed redis_reference key ttl limit duration name xs w ≡ 0
  unfolding passed
  passed-blocked [] end w e le lives h = refl
  passed-blocked (x ∷ xs) end w e le lives h =
      let v : World = record w { now = w.now + x } in
      let there : block_of v ≡ some e =
        still_there (block name key) w.now v.now end w.cache e (omega arith) (omega (arith, le))
          lives h in
      let (b, same) = blocked_step v e there in
      rw (b, same) (omega (arith, passed-blocked xs end v e (omega (arith, le)) lives there))

  -- The counter of the tracker is not there, or it is there to the end.
  abbrev CounterLives : ℕ → World → Type 0
  CounterLives end w =
      (find_row (has_key (hits name key) w.now) w.cache ≡ none)
      ⊎ ((e : Entry) × (find_row (has_key (hits name key) w.now) w.cache ≡ some e)
          × (lives_till end e ≡ true))

  later-CounterLives :
      (end x : ℕ) (w : World)
      → w.now + x ≤ end
      → CounterLives end w
      → CounterLives end (record w { now = w.now + x })
        × (hits_of (record w { now = w.now + x }) ≡ hits_of w)
  later-CounterLives end x w le c = elim c [
    | inl f ↦
        let off = still_none (hits name key) w.now (w.now + x) w.cache (omega arith) f in
        (inl off, rw (off, f) refl)
    | inr (e, f, lives) ↦
        let on =
          still_there (hits name key) w.now (w.now + x) end w.cache e (omega arith) le lives f in
        (inr (e, on, lives), rw (on, f) refl)
  ]

  -- From `k` hits on, which are not above the limit.
  passed-open :
      (xs : List ℕ) (end : ℕ) (w : World) (k : ℕ)
      → block_of w ≡ none
      → CounterLives end w
      → hits_of w ≡ k
      → k ≤ limit
      → w.now + total xs ≤ end
      → end < w.now + ceil_seconds ttl * 1000
      → end < w.now + ceil_seconds duration * 1000
      → 0 < duration
      → passed redis_reference key ttl limit duration name xs w
        ≡ (if leb (length xs) (limit - k) then length xs else limit - k)
  unfolding passed
  passed-open [] end w k b c h low le t d pos = ground arith
  passed-open (x ∷ xs) end w k b c h low le t d pos =
      let v : World = record w { now = w.now + x } in
      let free_before : block_of v ≡ none =
        still_none (block name key) w.now v.now w.cache (omega arith) b in
      let (lives, same) = later-CounterLives end x w (omega (arith, le)) c in
      elim (Bool-cases (ltb k limit)) [
        | inl e ↦
            let below : k < limit = ground arith in
            let (free, next) = low_step v free_before (omega (arith, same, h, below)) in
            let (entry, found, count, lasts) =
              after_hit-lives name key (ceil_seconds ttl) v.now end v.cache (omega (arith, le))
                (omega (arith, t)) lives in
            let more =
              passed-open xs end (step v).1 (suc k)
                (rw next (after_hit-block name key (ceil_seconds ttl) v.now v.cache ∙ free_before))
                (rw next (inr (entry, found, lasts)))
                (rw (next, found) (omega (arith, count, same, h))) (ground arith)
                (rw next (omega (arith, le))) (rw next (omega (arith, t)))
                (rw next (omega (arith, d))) pos in
            rw free (ground (arith, more))
        | inr e ↦
            let (stopped, found, clock) = high_step v free_before (ground (arith, same, h)) pos in
            let none_more =
              passed-blocked xs end (step v).1 (block_entry v) (omega (arith, clock, le))
                (ground (arith, d)) found in
            rw (stopped, none_more) (ground arith)
      ]

pub get-none :
    (o : Option Entry) → Option.map {A = Entry} {B = Value} (λ e. e.value) o ≡ none → o ≡ none
get-none none h = refl
get-none (some e) h = cc

limited :
    (key name : String) (ttl limit duration : ℕ) (waits : List ℕ) (w : World)
    → redis_reference.get (hits name key) w.now w.cache ≡ none
    → redis_reference.get (block name key) w.now w.cache ≡ none
    → total waits < ceil_seconds ttl * 1000
    → total waits < ceil_seconds duration * 1000
    → passed redis_reference key ttl limit duration name waits w
      ≡ (if leb (length waits) limit then length waits else limit)
limited key name ttl limit duration waits w h b t d =
    let unblocked = get-none (block_of key ttl limit duration name w) b in
    let no_counter = get-none (find_row (has_key (hits name key) w.now) w.cache) h in
    let no_hits : hits_of key ttl limit duration name w ≡ 0 = rw no_counter refl in
    ground (
      arith,
      passed-open key ttl limit duration name waits (w.now + total waits) w 0 unblocked
          (inl no_counter) no_hits (omega arith) (omega arith) (omega (arith, t)) (omega (arith, d))
          (omega (arith, d)),
    )

module _ {redis : Redis} (d : DocumentedRedis redis) where
  -- Of the requests that one tracker makes within the window, at whatever times, as many pass as
  -- the limit allows: all of them, or the limit where it is smaller. There are no hits and no block
  -- at the start, and all the requests come in less time than the window and the block last, in
  -- whole seconds; each one comes some milliseconds after the one before it.
  pub requests_are_limited :
      (key name : String) (ttl limit duration : ℕ) (waits : List ℕ) (w : World)
      → redis.get (hits name key) w.now w.cache ≡ none
      → redis.get (block name key) w.now w.cache ≡ none
      → total waits < ceil_seconds ttl * 1000
      → total waits < ceil_seconds duration * 1000
      → passed redis key ttl limit duration name waits w
        ≡ (if leb (length waits) limit then length waits else limit)
  requests_are_limited = rw (Documented-redis_reference d) limited
