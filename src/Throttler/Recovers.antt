-- ===== src/Throttler/Recovers.antt =====
-- About src/common/throttler/redis-throttler.storage.ts: a tracker that was blocked is let through
-- again.
use mesyaf_market.Prelude.{
  ℕ, zero, suc, ◌+◌, ◌*◌, ◌≤◌, ◌<◌, ◌≡◌, ◌⊎◌, refl, true, false, ◌&&◌, none, some, List, [], ◌∷◌,
  All, arith, ltb, String, inl, inr, Option-cases, Bool-cases,
}
use mesyaf_market.Database.World.{World}
use mesyaf_market.Database.Rows.{find_row}
use mesyaf_market.Database.Cache.{
  hits, block, until, Value, Entry, has_key, same_key, counted, bumped, Redis, DocumentedRedis,
  redis_reference, Documented-redis_reference,
}
use mesyaf_market.Throttler.{ceil_seconds, increment, count_hit, answer}
use mesyaf_market.Throttler.Laws.{after_hit}
use mesyaf_market.Throttler.Passed.{get-none, was_blocked, low_step, blocked_step, step, block_of}
use mesyaf_market.Throttler.Ends.{All-drop_rows, ends_by, after_hit-ends}

-- The requests of a tracker, one after another.
module _ (redis : Redis) (key : String) (ttl limit duration : ℕ) (name : String) where
  unfoldable pub after_requests : ℕ → World → World
  after_requests zero w = w
  after_requests (suc n) w = after_requests n (increment redis key ttl limit duration name w).1

module _ (key : String) (ttl limit duration : ℕ) (name : String) where
  AllEnd : ℕ → List Entry → Type 0
  AllEnd t = All (λ e. ends_by name key t e ≡ true)

  abbrev hit_cache : World → List Entry
  hit_cache w = after_hit name key (ceil_seconds ttl) w.now w.cache

  abbrev total_of : World → ℕ
  total_of w =
      counted (bumped (hits name key) (find_row (has_key (hits name key) w.now) w.cache)).value

  block-ends :
      (v : Value) (t s : ℕ)
      → s ≤ t
      → ends_by name key t (record { key = block name key; value = v; expires_at = some s }) ≡ true
  unfolding ends_by
  block-ends v t s h = ground arith

  -- A request counts, or counts and blocks.
  open_step :
      (w : World)
      → block_of key ttl limit duration name w ≡ none
      → let w' = (step key ttl limit duration name w).1 in
        (w' ≡ record w { cache = hit_cache w })
        ⊎ (w' ≡ record w {
          cache =
              redis_reference.set
                (block name key)
                (until (w.now + duration))
                (ceil_seconds duration)
                w.now
                (hit_cache w);
        })
  unfolding increment count_hit answer
  open_step w h = elim (Bool-cases (ltb limit (total_of w) && ltb 0 duration)) [
    | inr e ↦ inl (rw (h, e) refl)
    | inl e ↦ inr (rw (h, e) refl)
  ]

  step-ends :
      (w : World) (t : ℕ)
      → w.now + ceil_seconds ttl * 1000 ≤ t
      → w.now + ceil_seconds duration * 1000 ≤ t
      → AllEnd t w.cache
      → ((step key ttl limit duration name w).1.now ≡ w.now)
        × AllEnd t (step key ttl limit duration name w).1.cache
  unfolding AllEnd
  step-ends w t a b all = elim (Option-cases (block_of key ttl limit duration name w)) [
    | inr (e, f) ↦ rw (blocked_step key ttl limit duration name w e f).1 (refl, all)
    | inl f ↦
        let counted_all = after_hit-ends name key (ceil_seconds ttl) w.now t w.cache a all in
        elim (open_step w f) [
          | inl same ↦ rw same (refl, counted_all)
          | inr same ↦ rw same (
            refl,
            (
              block-ends (until (w.now + duration)) t (w.now + ceil_seconds duration * 1000) b,
              All-drop_rows (λ e. ends_by name key t e ≡ true)
                  (λ e. same_key e.key (block name key)) (hit_cache w) counted_all,
            ),
          )
        ]
  ]

  requests-end :
      (n : ℕ) (w : World) (t : ℕ)
      → w.now + ceil_seconds ttl * 1000 ≤ t
      → w.now + ceil_seconds duration * 1000 ≤ t
      → AllEnd t w.cache
      → AllEnd t (after_requests redis_reference key ttl limit duration name n w).cache
  unfolding after_requests
  requests-end zero w t a b all = all
  requests-end (suc n) w t a b all =
      let (clock, kept) = step-ends w t a b all in
      requests-end n (step key ttl limit duration name w).1 t (omega (arith, clock, a))
        (omega (arith, clock, b)) kept

  -- Nothing of the tracker is left once everything has ended.
  ended-none :
      (t : ℕ) (es : List Entry)
      → AllEnd t es
      → (find_row (has_key (hits name key) t) es ≡ none)
        × (find_row (has_key (block name key) t) es ≡ none)
  unfolding AllEnd ends_by find_row
  ended-none t [] h = (refl, refl)
  ended-none t (e ∷ es) h =
      let (no_hits, no_block) = ended-none t es h.1 in
      (ground (arith, h.0, no_hits), ground (arith, h.0, no_block))

  -- What has no entry of the tracker at a time has ended by then.
  none-ended :
      (now t : ℕ) (es : List Entry)
      → now ≤ t
      → find_row (has_key (hits name key) now) es ≡ none
      → find_row (has_key (block name key) now) es ≡ none
      → AllEnd t es
  unfolding AllEnd ends_by find_row
  none-ended now t [] le h b = tt
  none-ended now t (e ∷ es) le h b = elim (Bool-cases (has_key (hits name key) now e)) [
    | inl x ↦ ground arith
    | inr x ↦ elim (Bool-cases (has_key (block name key) now e)) [
      | inl y ↦ ground arith
      | inr y ↦ (ground arith, none-ended now t es le (ground arith) (ground arith))
    ]
  ]

  recovered :
      (n later : ℕ) (w : World)
      → redis_reference.get (hits name key) w.now w.cache ≡ none
      → redis_reference.get (block name key) w.now w.cache ≡ none
      → 0 < limit
      → w.now + ceil_seconds ttl * 1000 ≤ later
      → w.now + ceil_seconds duration * 1000 ≤ later
      → let w' = after_requests redis_reference key ttl limit duration name n w in
        was_blocked (step key ttl limit duration name (record w' { now = later })).0 ≡ false
  recovered n later w h b pos a c =
      let clean =
        none-ended w.now later w.cache (omega (arith, a))
          (get-none (find_row (has_key (hits name key) w.now) w.cache) h)
          (get-none (find_row (has_key (block name key) w.now) w.cache) b) in
      let w' = after_requests redis_reference key ttl limit duration name n w in
      let (no_hits, no_block) = ended-none later w'.cache (requests-end n w later a c clean) in
      (low_step key ttl limit duration name (record w' { now = later }) no_block (rw no_hits pos)).0

module _ {redis : Redis} (d : DocumentedRedis redis) where
  -- Nobody is locked out for good: however many requests a tracker made at one time, from no hits
  -- and no block on, its next request is let through once the window and the block's time, in whole
  -- seconds, are over. The limit is above zero, and there was no request in between.
  pub requests_pass_again :
      (key name : String) (ttl limit duration n later : ℕ) (w : World)
      → redis.get (hits name key) w.now w.cache ≡ none
      → redis.get (block name key) w.now w.cache ≡ none
      → 0 < limit
      → w.now + ceil_seconds ttl * 1000 ≤ later
      → w.now + ceil_seconds duration * 1000 ≤ later
      → let w' = after_requests redis key ttl limit duration name n w in
        was_blocked (increment redis key ttl limit duration name (record w' { now = later })).0
        ≡ false
  requests_pass_again =
      rw (Documented-redis_reference d)
        (λ key name ttl limit duration. recovered key ttl limit duration name)
