-- ===== src/Throttler/Ends.antt =====
-- About src/common/throttler/redis-throttler.storage.ts: when the entries of a tracker end.
use mesyaf_market.Prelude.{
  ℕ, ◌+◌, ◌*◌, ◌≤◌, ◌≡◌, ◌⊎◌, refl, Bool, true, false, ◌||◌, not, none, some, List, [], ◌∷◌, All,
  arith, ◌==◌, leb, String, inl, inr, Option-cases, Bool-cases,
}
use mesyaf_market.Database.Rows.{find_row, find_row_holds, drop_rows, update_rows, All-update_rows}
use mesyaf_market.Database.Cache.{hits, block, Entry, has_key, same_key, counted, bumped, expiring}
use mesyaf_market.Throttler.Laws.{after_hit, bumped_is_found}

pub All-drop_rows {ℓ} :
    {R : Type 0} (P : R → Type ℓ) (p : R → Bool) (rs : List R) → All P rs → All P (drop_rows p rs)
unfolding drop_rows
All-drop_rows P p [] h = tt
All-drop_rows P p (r ∷ rs) h = elim (Bool-cases (p r)) [
  | inl e ↦ rw e (All-drop_rows P p rs h.1)
  | inr e ↦ rw e (h.0, All-drop_rows P p rs h.1)
]

All-found :
    {R : Type 0} (q p : R → Bool) (rs : List R) (r : R)
    → All (λ s. q s ≡ true) rs
    → find_row p rs ≡ some r
    → q r ≡ true
unfolding find_row
All-found q p [] r h f = cc
All-found q p (s ∷ rs) r h f = ground (arith, h.0, All-found q p rs r h.1)

module _ (name key : String) where
  -- The entry is not of the tracker, or it ends by `t`.
  unfoldable pub ends_by : ℕ → Entry → Bool
  ends_by t e =
      not (same_key e.key (hits name key) || same_key e.key (block name key))
      || elim e.expires_at [ none ↦ false | some s ↦ leb s t ]

  expiring-ends : (t t' : ℕ) (e : Entry) → t' ≤ t → ends_by t (expiring t' e) ≡ true
  unfolding ends_by
  expiring-ends t t' e h = ground arith

  update_rows-ends :
      (p : Entry → Bool) (t t' : ℕ) (es : List Entry)
      → t' ≤ t
      → All (λ e. ends_by t e ≡ true) es
      → All (λ e. ends_by t e ≡ true) (update_rows p (expiring t') es)
  update_rows-ends p t t' es h =
      All-update_rows (λ e. ends_by t e ≡ true) (λ e. ends_by t e ≡ true) p (expiring t')
        (λ r u v. expiring-ends t t' r h) (λ r u v. u) es

  -- A counter that was there keeps its end, and a new one has none until EXPIRE.
  bumped-ends :
      (now t : ℕ) (es : List Entry)
      → All (λ e. ends_by t e ≡ true) es
      → let b = bumped (hits name key) (find_row (has_key (hits name key) now) es) in
        (counted b.value ≡ 1) ⊎ (ends_by t b ≡ true)
  unfolding ends_by
  bumped-ends now t es all = elim (Option-cases (find_row (has_key (hits name key) now) es)) [
    | inl f ↦ inl (rw f refl)
    | inr (e, f) ↦ inr (
        rw f (
          ground (
            arith,
            All-found (ends_by t) (has_key (hits name key) now) es e all f,
            find_row_holds (has_key (hits name key) now) es e f,
          )))
  ]

  pub after_hit-ends :
      (seconds now t : ℕ) (es : List Entry)
      → now + seconds * 1000 ≤ t
      → All (λ e. ends_by t e ≡ true) es
      → All (λ e. ends_by t e ≡ true) (after_hit name key seconds now es)
  unfolding update_rows
  after_hit-ends seconds now t es h all =
      let b = bumped (hits name key) (find_row (has_key (hits name key) now) es) in
      let rest : List Entry = drop_rows (λ e. same_key e.key (hits name key)) es in
      let kept =
        All-drop_rows (λ e. ends_by t e ≡ true) (λ e. same_key e.key (hits name key)) es all in
      let t' = now + seconds * 1000 in
      elim (Bool-cases (counted b.value == 1)) [
        | inl e ↦
            rw (e, bumped_is_found name key now es)
              (
                expiring-ends t t' b h,
                update_rows-ends (has_key (hits name key) now) t t' rest h kept,
              )
        | inr e ↦ rw e (ground (arith, bumped-ends now t es all), kept)
      ]
