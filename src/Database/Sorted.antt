-- ===== src/Database/Sorted.antt =====
-- Pages of sorted rows: what `orderBy`, `skip` and `take` keep.
use mesyaf_market.Prelude.{
  ℤ, pos, negsuc, magnitude, ◌-◌, ◌+◌, Option, ℕ, zero, suc, ◌≤◌, ◌≡◌, refl, Bool, List, [], ◌∷◌,
  All, length, take, drop, arith, leb, inl, inr, Bool-cases,
}
use mesyaf_market.Database.Rows.{
  slice_rows, filter_rows, count_rows, sort_rows_desc, insert_row_desc, insert_row, sort_rows,
  key_le,
}

module _ {R : Type 0} where
  pub All-drop {ℓ} : (P : R → Type ℓ) (n : ℕ) (rs : List R) → All P rs → All P (drop n rs)
  All-drop P zero rs h = h
  All-drop P (suc n) [] h = tt
  All-drop P (suc n) (r ∷ rs) h = All-drop P n rs h.1

  pub All-take {ℓ} : (P : R → Type ℓ) (n : ℕ) (rs : List R) → All P rs → All P (take n rs)
  All-take P zero rs h = tt
  All-take P (suc n) [] h = tt
  All-take P (suc n) (r ∷ rs) h = (h.0, All-take P n rs h.1)

  pub length-take_le : (n : ℕ) (rs : List R) → length (take n rs) ≤ n
  length-take_le zero rs = omega arith
  length-take_le (suc n) [] = omega arith
  length-take_le (suc n) (r ∷ rs) = omega (arith, length-take_le n rs)

  pub length-take_shorter : (n : ℕ) (rs : List R) → length (take n rs) ≤ length rs
  length-take_shorter zero rs = omega arith
  length-take_shorter (suc n) [] = omega arith
  length-take_shorter (suc n) (r ∷ rs) = omega (arith, length-take_shorter n rs)

  pub length-drop_shorter : (n : ℕ) (rs : List R) → length (drop n rs) ≤ length rs
  length-drop_shorter zero rs = omega arith
  length-drop_shorter (suc n) [] = omega arith
  length-drop_shorter (suc n) (r ∷ rs) = omega (arith, length-drop_shorter n rs)

  pub length-filter_rows :
      (p : R → Bool) (rs : List R) → length (filter_rows p rs) ≡ count_rows p rs
  unfolding filter_rows count_rows
  length-filter_rows p [] = refl
  length-filter_rows p (r ∷ rs) = ground (arith, length-filter_rows p rs)

  length-drop : (n : ℕ) (rs : List R) → length (drop n rs) ≡ length rs - n
  length-drop zero rs = omega arith
  length-drop (suc n) [] = omega arith
  length-drop (suc n) (r ∷ rs) = omega (arith, length-drop n rs)

  pub length-slice_rows_le :
      (skip : ℕ) (limit : ℤ) (rs : List R) → length (slice_rows skip limit rs) ≤ magnitude limit
  length-slice_rows_le skip (pos n) rs = length-take_le n (drop skip rs)
  length-slice_rows_le skip (negsuc n) rs =
      let before = length rs - skip in
      omega (arith, length-drop (before - (n + 1)) (take before rs), length-take_le before rs)

  pub length-slice_rows_shorter :
      (skip : ℕ) (limit : ℤ) (rs : List R) → length (slice_rows skip limit rs) ≤ length rs
  length-slice_rows_shorter skip (pos n) rs =
      omega (arith, length-take_shorter n (drop skip rs), length-drop_shorter skip rs)
  length-slice_rows_shorter skip (negsuc n) rs =
      let before = length rs - skip in
      omega (
        arith,
        length-drop_shorter (before - (n + 1)) (take before rs),
        length-take_shorter before rs,
      )

  pub All-slice_rows {ℓ} :
      (P : R → Type ℓ) (skip : ℕ) (limit : ℤ) (rs : List R)
      → All P rs
      → All P (slice_rows skip limit rs)
  All-slice_rows P skip (pos n) rs h = All-take P n (drop skip rs) (All-drop P skip rs h)
  All-slice_rows P skip (negsuc n) rs h =
      let before = length rs - skip in
      All-drop P (before - (n + 1)) (take before rs) (All-take P before rs h)

  -- Sorted, the largest key first.
  unfoldable pub IsDescending : (R → ℕ) → List R → Type 0
  IsDescending key [] = Unit
  IsDescending key (r ∷ rs) = All (λ s. key s ≤ key r) rs × IsDescending key rs

  pub drop-IsDescending :
      (key : R → ℕ) (n : ℕ) (rs : List R) → IsDescending key rs → IsDescending key (drop n rs)
  unfolding IsDescending
  drop-IsDescending key zero rs h = h
  drop-IsDescending key (suc n) [] h = tt
  drop-IsDescending key (suc n) (r ∷ rs) h = drop-IsDescending key n rs h.1

  pub take-IsDescending :
      (key : R → ℕ) (n : ℕ) (rs : List R) → IsDescending key rs → IsDescending key (take n rs)
  unfolding IsDescending
  take-IsDescending key zero rs h = tt
  take-IsDescending key (suc n) [] h = tt
  take-IsDescending key (suc n) (r ∷ rs) h =
      (All-take (λ s. key s ≤ key r) n rs h.0, take-IsDescending key n rs h.1)

  pub slice_rows-IsDescending :
      (key : R → ℕ) (skip : ℕ) (limit : ℤ) (rs : List R)
      → IsDescending key rs
      → IsDescending key (slice_rows skip limit rs)
  slice_rows-IsDescending key skip (pos n) rs h =
      take-IsDescending key n (drop skip rs) (drop-IsDescending key skip rs h)
  slice_rows-IsDescending key skip (negsuc n) rs h =
      let before = length rs - skip in
      drop-IsDescending key (before - (n + 1)) (take before rs) (take-IsDescending key before rs h)

  All-insert_desc {ℓ} :
      (P : R → Type ℓ) (key : R → ℕ) (r : R) (rs : List R)
      → P r
      → All P rs
      → All P (insert_row_desc key r rs)
  unfolding insert_row_desc
  All-insert_desc P key r [] h hs = (h, tt)
  All-insert_desc P key r (s ∷ rs) h hs = elim (Bool-cases (leb (key s) (key r))) [
    | inl e ↦ rw e (h, hs)
    | inr e ↦ rw e (hs.0, All-insert_desc P key r rs h hs.1)
  ]

  pub All-sort_desc {ℓ} :
      (P : R → Type ℓ) (key : R → ℕ) (rs : List R) → All P rs → All P (sort_rows_desc key rs)
  unfolding sort_rows_desc
  All-sort_desc P key [] h = tt
  All-sort_desc P key (r ∷ rs) h =
      All-insert_desc P key r (sort_rows_desc key rs) h.0 (All-sort_desc P key rs h.1)

  below_all :
      (key : R → ℕ) (r s : R) (rs : List R)
      → key s ≤ key r
      → All (λ t. key t ≤ key s) rs
      → All (λ t. key t ≤ key r) rs
  below_all key r s [] h hs = tt
  below_all key r s (t ∷ rs) h hs = (omega (arith, hs.0, h), below_all key r s rs h hs.1)

  insert-IsDescending :
      (key : R → ℕ) (r : R) (rs : List R)
      → IsDescending key rs
      → IsDescending key (insert_row_desc key r rs)
  unfolding IsDescending insert_row_desc
  insert-IsDescending key r [] h = (tt, tt)
  insert-IsDescending key r (s ∷ rs) h = elim (Bool-cases (leb (key s) (key r))) [
    | inl e ↦ rw e ((ground arith, below_all key r s rs (ground arith) h.0), h)
    | inr e ↦ rw e (
      All-insert_desc (λ t. key t ≤ key s) key r rs (ground arith) h.0,
      insert-IsDescending key r rs h.1,
    )
  ]

  pub sort-IsDescending : (key : R → ℕ) (rs : List R) → IsDescending key (sort_rows_desc key rs)
  unfolding IsDescending sort_rows_desc
  sort-IsDescending key [] = tt
  sort-IsDescending key (r ∷ rs) =
      insert-IsDescending key r (sort_rows_desc key rs) (sort-IsDescending key rs)

  length-insert_desc :
      (key : R → ℕ) (r : R) (rs : List R) → length (insert_row_desc key r rs) ≡ suc (length rs)
  unfolding insert_row_desc
  length-insert_desc key r [] = refl
  length-insert_desc key r (s ∷ rs) = ground (arith, length-insert_desc key r rs)

  pub length-sort_desc : (key : R → ℕ) (rs : List R) → length (sort_rows_desc key rs) ≡ length rs
  unfolding sort_rows_desc
  length-sort_desc key [] = refl
  length-sort_desc key (r ∷ rs) =
      omega (arith, length-insert_desc key r (sort_rows_desc key rs), length-sort_desc key rs)

  pub All-insert_row {ℓ} :
      (P : R → Type ℓ) (key : R → Option ℕ) (r : R) (rs : List R)
      → P r
      → All P rs
      → All P (insert_row key r rs)
  unfolding insert_row
  All-insert_row P key r [] h hs = (h, tt)
  All-insert_row P key r (s ∷ rs) h hs = elim (Bool-cases (key_le (key r) (key s))) [
    | inl e ↦ rw e (h, hs)
    | inr e ↦ rw e (hs.0, All-insert_row P key r rs h hs.1)
  ]

  pub All-sort_rows {ℓ} :
      (P : R → Type ℓ) (key : R → Option ℕ) (rs : List R) → All P rs → All P (sort_rows key rs)
  unfolding sort_rows
  All-sort_rows P key [] h = tt
  All-sort_rows P key (r ∷ rs) h =
      All-insert_row P key r (sort_rows key rs) h.0 (All-sort_rows P key rs h.1)
