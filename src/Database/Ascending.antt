-- ===== src/Database/Ascending.antt =====
-- What `orderBy` does to rows: they are the same, the smallest key first.
use mesyaf_market.Prelude.{
  some, ℕ, zero, suc, ◌+◌, ◌≤◌, ◌≡◌, refl, Bool, ◌&&◌, List, [], ◌∷◌, ◌++◌, All, length, take, drop,
  arith, leb, inl, inr, Bool-cases, ◌⊎◌, if◌then◌else◌,
}
use mesyaf_market.Database.Rows.{filter_rows, count_rows, insert_row, sort_rows}
use mesyaf_market.Database.Sorted.{All-insert_row}

module _ {R : Type 0} where
  -- Sorted, the smallest key first.
  unfoldable pub IsAscending : (R → ℕ) → List R → Type 0
  IsAscending key [] = Unit
  IsAscending key (r ∷ rs) = All (λ s. key r ≤ key s) rs × IsAscending key rs

  above_all :
      (key : R → ℕ) (r s : R) (rs : List R)
      → key r ≤ key s
      → All (λ t. key s ≤ key t) rs
      → All (λ t. key r ≤ key t) rs
  above_all key r s [] h hs = tt
  above_all key r s (t ∷ rs) h hs = (omega (arith, hs.0, h), above_all key r s rs h hs.1)

  insert-IsAscending :
      (key : R → ℕ) (r : R) (rs : List R)
      → IsAscending key rs
      → IsAscending key (insert_row (λ s. some (key s)) r rs)
  unfolding IsAscending insert_row
  insert-IsAscending key r [] h = (tt, tt)
  insert-IsAscending key r (s ∷ rs) h = elim (Bool-cases (leb (key r) (key s))) [
    | inl e ↦ rw e ((ground arith, above_all key r s rs (ground arith) h.0), h)
    | inr e ↦ rw e (
      All-insert_row (λ t. key s ≤ key t) (λ t. some (key t)) r rs (ground arith) h.0,
      insert-IsAscending key r rs h.1,
    )
  ]

  pub sort-IsAscending :
      (key : R → ℕ) (rs : List R) → IsAscending key (sort_rows (λ s. some (key s)) rs)
  unfolding IsAscending sort_rows
  sort-IsAscending key [] = tt
  sort-IsAscending key (r ∷ rs) =
      insert-IsAscending key r (sort_rows (λ s. some (key s)) rs) (sort-IsAscending key rs)

  count-insert_row :
      (p : R → Bool) (key : R → ℕ) (r : R) (rs : List R)
      → count_rows p (insert_row (λ s. some (key s)) r rs)
        ≡ (if p r then 1 else 0) + count_rows p rs
  unfolding count_rows insert_row
  count-insert_row p key r [] = refl
  count-insert_row p key r (s ∷ rs) = elim (Bool-cases (leb (key r) (key s))) [
    | inl e ↦ rw e refl
    | inr e ↦ rw e (omega (arith, count-insert_row p key r rs))
  ]

  pub count-sort_rows :
      (p : R → Bool) (key : R → ℕ) (rs : List R)
      → count_rows p (sort_rows (λ s. some (key s)) rs) ≡ count_rows p rs
  unfolding count_rows sort_rows
  count-sort_rows p key [] = refl
  count-sort_rows p key (r ∷ rs) =
      omega (
        arith,
        count-insert_row p key r (sort_rows (λ s. some (key s)) rs),
        count-sort_rows p key rs,
      )

  pub count-filter_rows :
      (p q : R → Bool) (rs : List R)
      → count_rows p (filter_rows q rs) ≡ count_rows (λ r. q r && p r) rs
  unfolding count_rows filter_rows
  count-filter_rows p q [] = refl
  count-filter_rows p q (r ∷ rs) = elim (Bool-cases (q r)) [
    | inl e ↦ rw e (omega (arith, count-filter_rows p q rs))
    | inr e ↦ rw e (omega (arith, count-filter_rows p q rs))
  ]

  pub take-drop : (n : ℕ) (rs : List R) → take n rs ++ drop n rs ≡ rs
  take-drop zero rs = refl
  take-drop (suc n) [] = refl
  take-drop (suc n) (r ∷ rs) = rw (take-drop n rs) refl

  -- A page is full, or nothing is left behind it.
  pub take-full :
      (n : ℕ) (rs : List R)
      → (length (take n rs) ≡ n) ⊎ ((drop n rs ≡ []) × (length (take n rs) ≤ n))
  take-full zero rs = inl refl
  take-full (suc n) [] = inr (refl, omega arith)
  take-full (suc n) (r ∷ rs) = elim (take-full n rs) [
    | inl e ↦ inl (omega (arith, e))
    | inr (e, h) ↦ inr (e, omega (arith, h))
  ]
