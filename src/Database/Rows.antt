-- ===== src/Database/Rows.antt =====
-- Lists of rows under the queries, with the laws of lookups after writes.
use mesyaf_market.Prelude.{
  ℤ, pos, negsuc, take, drop, length, ◌-◌, ℕ, ◌+◌, ◌≤◌, ◌≡◌, refl, Bool, true, false, Option, none,
  some, List, [], ◌∷◌, ◌++◌, All, arith, leb, if◌then◌else◌, is_some, Bool-cases, inl, inr,
}
use mathlib.Core.Option

-- PostgreSQL sorts ascending with NULL last.
abbrev pub key_le : Option ℕ → Option ℕ → Bool
key_le (some a) (some b) = leb a b
key_le (some a) none = true
key_le none (some b) = false
key_le none none = true

module _ {R : Type 0} where
  unfoldable pub find_row : (R → Bool) → List R → Option R
  find_row p [] = none
  find_row p (r ∷ rs) = if p r then some r else find_row p rs

  unfoldable pub filter_rows : (R → Bool) → List R → List R
  filter_rows p [] = []
  filter_rows p (r ∷ rs) = let rest = filter_rows p rs in if p r then r ∷ rest else rest

  -- `skip` and `take`: a `take` below zero counts from the end, as does the `skip` beside it.
  abbrev pub slice_rows : ℕ → ℤ → List R → List R
  slice_rows skip (pos n) rs = take n (drop skip rs)
  slice_rows skip (negsuc n) rs =
      let before = length rs - skip in drop (before - (n + 1)) (take before rs)

  unfoldable pub drop_rows : (R → Bool) → List R → List R
  drop_rows p [] = []
  drop_rows p (r ∷ rs) = let rest = drop_rows p rs in if p r then rest else r ∷ rest

  unfoldable pub count_rows : (R → Bool) → List R → ℕ
  count_rows p [] = 0
  count_rows p (r ∷ rs) = (if p r then 1 else 0) + count_rows p rs

  unfoldable pub update_rows : (R → Bool) → (R → R) → List R → List R
  update_rows p f [] = []
  update_rows p f (r ∷ rs) = (if p r then f r else r) ∷ update_rows p f rs

  unfoldable pub insert_row : (R → Option ℕ) → R → List R → List R
  insert_row key r [] = r ∷ []
  insert_row key r (s ∷ rs) = if key_le (key r) (key s) then r ∷ s ∷ rs else s ∷ insert_row key r rs

  -- A stable sort, the smallest key first.
  unfoldable pub sort_rows : (R → Option ℕ) → List R → List R
  unfolding insert_row
  sort_rows key [] = []
  sort_rows key (r ∷ rs) = insert_row key r (sort_rows key rs)

  unfoldable pub insert_row_desc : (R → ℕ) → R → List R → List R
  insert_row_desc key r [] = r ∷ []
  insert_row_desc key r (s ∷ rs) =
      if leb (key s) (key r) then r ∷ s ∷ rs else s ∷ insert_row_desc key r rs

  -- A stable sort, the largest key first.
  unfoldable pub sort_rows_desc : (R → ℕ) → List R → List R
  unfolding insert_row_desc
  sort_rows_desc key [] = []
  sort_rows_desc key (r ∷ rs) = insert_row_desc key r (sort_rows_desc key rs)

  -- A query whose columns the write leaves alone finds the written row.
  pub find-update_rows :
      (q p : R → Bool) (f : R → R)
      → ((r : R) → q (f r) ≡ q r)
      → (rs : List R)
      → find_row q (update_rows p f rs) ≡ Option.map (λ r. if p r then f r else r) (find_row q rs)
  unfolding find_row update_rows
  find-update_rows q p f same [] = refl
  find-update_rows q p f same (r ∷ rs) = ground (arith, same r, find-update_rows q p f same rs)

  pub count_rows_zero : (p : R → Bool) (rs : List R) → count_rows p rs ≡ 0 → find_row p rs ≡ none
  unfolding count_rows find_row
  count_rows_zero p [] h = refl
  count_rows_zero p (r ∷ rs) h = ground (arith, count_rows_zero p rs)

  pub find_row_holds : (p : R → Bool) (rs : List R) (r : R) → find_row p rs ≡ some r → p r ≡ true
  unfolding find_row
  find_row_holds p [] r h = cc
  find_row_holds p (s ∷ rs) r h = ground (arith, find_row_holds p rs r)

  pub find_row-none : (p : R → Bool) (rs : List R) → find_row p rs ≡ none → count_rows p rs ≡ 0
  unfolding count_rows find_row
  find_row-none p [] h = refl
  find_row-none p (r ∷ rs) h = ground (arith, find_row-none p rs)

  pub find-append :
      (p : R → Bool) (rs : List R) (r : R)
      → find_row p (rs ++ r ∷ [])
        ≡ (if is_some (find_row p rs) then find_row p rs else if p r then some r else none)
  unfolding find_row
  find-append p [] r = refl
  find-append p (s ∷ rs) r = ground (arith, find-append p rs r)

  pub count_rows_pos :
      (q p : R → Bool) (rs : List R) (r : R)
      → find_row q rs ≡ some r
      → p r ≡ true
      → ¬ (count_rows p rs ≡ 0)
  unfolding count_rows find_row
  count_rows_pos q p [] r h e z = cc
  count_rows_pos q p (s ∷ rs) r h e z = ground (arith, count_rows_pos q p rs r)

  -- A write that can only clear a property lowers its count.
  pub count-update_rows_le :
      (q p : R → Bool) (f : R → R)
      → ((r : R) → p r ≡ true → q (f r) ≡ true → q r ≡ true)
      → (rs : List R) → count_rows q (update_rows p f rs) ≤ count_rows q rs
  unfolding count_rows update_rows
  count-update_rows_le q p f clears [] = omega arith
  count-update_rows_le q p f clears (r ∷ rs) =
      ground (arith, clears r, count-update_rows_le q p f clears rs)

  -- A write after which its own test fails leaves no row that passes it.
  pub count-update_rows_self :
      (p : R → Bool) (f : R → R)
      → ((r : R) → p (f r) ≡ false)
      → (rs : List R) → count_rows p (update_rows p f rs) ≡ 0
  unfolding count_rows update_rows
  count-update_rows_self p f clears [] = refl
  count-update_rows_self p f clears (r ∷ rs) =
      ground (arith, clears r, count-update_rows_self p f clears rs)

  -- A write that matches no row changes nothing.
  pub update_rows_none :
      (p : R → Bool) (f : R → R) (rs : List R) → count_rows p rs ≡ 0 → update_rows p f rs ≡ rs
  unfolding count_rows update_rows
  update_rows_none p f [] h = refl
  update_rows_none p f (r ∷ rs) h = ground (arith, update_rows_none p f rs)

  -- Every row after a write satisfies what the written rows and the others satisfied.
  pub All-update_rows {ℓ} :
      (P Q : R → Type ℓ) (p : R → Bool) (f : R → R)
      → ((r : R) → P r → p r ≡ true → Q (f r))
      → ((r : R) → P r → p r ≡ false → Q r)
      → (rs : List R) → All P rs
      → All Q (update_rows p f rs)
  unfolding update_rows
  All-update_rows P Q p f hit miss [] h = tt
  All-update_rows P Q p f hit miss (r ∷ rs) h = elim (Bool-cases (p r)) [
    | inl e ↦ rw e (hit r h.0 e, All-update_rows P Q p f hit miss rs h.1)
    | inr e ↦ rw e (miss r h.0 e, All-update_rows P Q p f hit miss rs h.1)
  ]

  pub All-filter_rows : (p : R → Bool) (rs : List R) → All (λ r. p r ≡ true) (filter_rows p rs)
  unfolding filter_rows
  All-filter_rows p [] = tt
  All-filter_rows p (r ∷ rs) = ground (arith, All-filter_rows p rs)

  pub count-append :
      (p : R → Bool) (rs : List R) (r : R)
      → count_rows p (rs ++ r ∷ []) ≡ count_rows p rs + (if p r then 1 else 0)
  unfolding count_rows
  count-append p [] r = ground arith
  count-append p (s ∷ rs) r = ground (arith, count-append p rs r)

  pub count-drop_rows_le :
      (q p : R → Bool) (rs : List R) → count_rows q (drop_rows p rs) ≤ count_rows q rs
  unfolding count_rows drop_rows
  count-drop_rows_le q p [] = omega arith
  count-drop_rows_le q p (r ∷ rs) = ground (arith, count-drop_rows_le q p rs)

  pub filter-drop_rows : (p : R → Bool) (rs : List R) → filter_rows p (drop_rows p rs) ≡ []
  unfolding filter_rows drop_rows
  filter-drop_rows p [] = refl
  filter-drop_rows p (r ∷ rs) = ground (arith, filter-drop_rows p rs)

  pub filter-append :
      (p : R → Bool) (rs : List R) (r : R)
      → p r ≡ true
      → filter_rows p (rs ++ r ∷ []) ≡ filter_rows p rs ++ r ∷ []
  unfolding filter_rows
  filter-append p [] r h = rw h refl
  filter-append p (s ∷ rs) r h = ground (arith, filter-append p rs r h)

  pub count_rows_below :
      (p g : R → Bool)
      → ((r : R) → p r ≡ false → g r ≡ false)
      → (rs : List R) → count_rows p rs ≡ 0
      → count_rows g rs ≡ 0
  unfolding count_rows
  count_rows_below p g part [] h = refl
  count_rows_below p g part (r ∷ rs) h = ground (arith, part r, count_rows_below p g part rs)

  -- What the one row of a key does not pass, no row passes.
  pub count_rows_unique :
      (p g : R → Bool)
      → ((r : R) → p r ≡ false → g r ≡ false)
      → (rs : List R) (j : R) → find_row p rs ≡ some j
      → count_rows p rs ≤ 1
      → g j ≡ false
      → count_rows g rs ≡ 0
  unfolding count_rows find_row
  count_rows_unique p g part [] j f one h = refl
  count_rows_unique p g part (r ∷ rs) j f one h = elim (Bool-cases (p r)) [
    | inl e ↦
        let f' : some r ≡ some j = rw e at f in
        let same : r ≡ j = cc in
        let h' : g r ≡ false = rw same h in
        let none_left : count_rows p rs ≡ 0 = ground (arith, one) in
        rw h' (ground (arith, count_rows_below p g part rs none_left))
    | inr e ↦
        let f' : find_row p rs ≡ some j = rw e at f in
        let one' : count_rows p rs ≤ 1 = omega (arith, rw e at one) in
        rw (part r e) (omega (arith, count_rows_unique p g part rs j f' one' h))
  ]

  -- A write makes a row that passes `q` of each row that passed `p`.
  pub count-update_rows_ge :
      (p q : R → Bool) (f : R → R)
      → ((r : R) → p r ≡ true → q (f r) ≡ true)
      → (rs : List R) → count_rows p rs ≤ count_rows q (update_rows p f rs)
  unfolding count_rows update_rows
  count-update_rows_ge p q f makes [] = omega arith
  count-update_rows_ge p q f makes (r ∷ rs) =
      ground (arith, makes r, count-update_rows_ge p q f makes rs)
