-- ===== src/Throttler/Lives.antt =====
-- About src/common/throttler/redis-throttler.storage.ts: the keys of a tracker while the clock runs.
use mesyaf_market.Prelude.{
  ℕ, ◌+◌, ◌*◌, ◌≤◌, ◌<◌, ◌≡◌, refl, ◌⊎◌, Bool, true, false, none, some, List, [], ◌∷◌, arith, ◌==◌,
  ltb, String, inl, inr, Option-cases, Bool-cases,
}
use mesyaf_market.Database.Rows.{find_row, update_rows}
use mesyaf_market.Database.Cache.{Key, hits, Entry, has_key, counted, bumped, expiring}
use mesyaf_market.Throttler.Laws.{after_hit, bumped_is_found, bumped-counted, stored}

-- The entry is still there at a time.
abbrev pub lives_till : ℕ → Entry → Bool
lives_till t e = elim e.expires_at [ none ↦ true | some s ↦ ltb t s ]

pub still_none :
    (k : Key) (now now' : ℕ) (es : List Entry)
    → now ≤ now'
    → find_row (has_key k now) es ≡ none
    → find_row (has_key k now') es ≡ none
unfolding find_row
still_none k now now' [] le h = refl
still_none k now now' (e ∷ es) le h = elim (Bool-cases (has_key k now e)) [
  | inl x ↦ ground arith
  | inr x ↦
      let off : has_key k now' e ≡ false = elim (Option-cases e.expires_at) [
        | inl f ↦ ground arith
        | inr (s, f) ↦ ground arith
      ] in
      rw off (still_none k now now' es le (ground arith))
]

pub still_there :
    (k : Key) (now now' end : ℕ) (es : List Entry) (e : Entry)
    → now ≤ now'
    → now' ≤ end
    → lives_till end e ≡ true
    → find_row (has_key k now) es ≡ some e
    → find_row (has_key k now') es ≡ some e
unfolding find_row
still_there k now now' end [] e le last lives h = cc
still_there k now now' end (r ∷ es) e le last lives h = elim (Bool-cases (has_key k now r)) [
  | inl x ↦
      let same : r ≡ e = ground arith in
      let alive : lives_till end r ≡ true = rw same lives in
      let on : has_key k now' r ≡ true = elim (Option-cases r.expires_at) [
        | inl f ↦ ground arith
        | inr (s, f) ↦ ground arith
      ] in
      rw (on, same) refl
  | inr x ↦
      let off : has_key k now' r ≡ false = elim (Option-cases r.expires_at) [
        | inl f ↦ ground arith
        | inr (s, f) ↦ ground arith
      ] in
      rw off (still_there k now now' end es e le last lives (ground arith))
]

-- The counter after a hit.
pub after_hit-lives :
    (name key : String) (seconds now end : ℕ) (es : List Entry)
    → now ≤ end
    → end < now + seconds * 1000
    → (find_row (has_key (hits name key) now) es ≡ none)
      ⊎ ((e : Entry) × (find_row (has_key (hits name key) now) es ≡ some e)
          × (lives_till end e ≡ true))
    → (e : Entry) × (find_row (has_key (hits name key) now) (after_hit name key seconds now es)
        ≡ some e)
      × (counted e.value ≡ stored (find_row (has_key (hits name key) now) es) + 1)
      × (lives_till end e ≡ true)
unfolding find_row update_rows
after_hit-lives name key seconds now end es le last before =
    let b = bumped (hits name key) (find_row (has_key (hits name key) now) es) in
    let found = bumped_is_found name key now es in
    let total = bumped-counted (hits name key) (find_row (has_key (hits name key) now) es) in
    elim (Bool-cases (counted b.value == 1)) [
      | inl first ↦
          let t = now + seconds * 1000 in
          let on : has_key (hits name key) now (expiring t b) ≡ true = ground arith in
          let lasts : ltb end t ≡ true = ground arith in
          (expiring t b, rw (first, found, on) refl, total, lasts)
      | inr more ↦ (
        b,
        rw (more, found) refl,
        total,
        elim before [ inl f ↦ ground (arith, f, more) | inr (e, f, lives) ↦ rw f lives ],
      )
    ]
