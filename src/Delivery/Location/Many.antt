-- ===== src/Delivery/Location/Many.antt =====
-- About src/deliverer/deliverer-location-service.ts: getMany against get.
use mesyaf_market.Prelude.{
  ℕ, ◌≡◌, ◌≤◌, refl, Bool, true, false, Option, none, some, List, [], ◌∷◌, ◌++◌, ◌&&◌, ◌==◌, any,
  is_none, is_some, arith, Option-cases, inl, inr, if◌then◌else◌,
}
use mesyaf_market.Database.Schema.{Float, DelivererProfile}
use mesyaf_market.Database.World.{World, ok}
use mesyaf_market.Database.Rows.{find_row, filter_rows, count_rows}
use mesyaf_market.Database.Prisma.{Prisma, Documented, Documented-reference, reference}
use mesyaf_market.Delivery.Location.{
  Source, cached_of, stored_of, stored, fetch_missing, get_many, get_location,
}

abbrev pub Entry : Type 0
Entry = ℕ × Float × Float

abbrev entry_at : ℕ → Option (Float × Float) → Option Entry
entry_at k none = none
entry_at k (some (a, b)) = some (k, a, b)

-- What `get` answered, as an entry of the map for `k`.
abbrev pub entry_of : ℕ → Option (Float × Float × Source) → Option Entry
entry_of k none = none
entry_of k (some (a, b, s)) = some (k, a, b)

find-concat :
    {R : Type 0} (p : R → Bool) (rs ss : List R)
    → find_row p (rs ++ ss) ≡ (if is_some (find_row p rs) then find_row p rs else find_row p ss)
unfolding find_row
find-concat p [] ss = refl
find-concat p (r ∷ rs) ss = ground (arith, find-concat p rs ss)

cached_entry :
    (live : ℕ → Option (Float × Float)) (k : ℕ) (ids : List ℕ)
    → find_row (λ e. e.0 == k) (cached_of live ids).0
      ≡ (if any (λ j. j == k) ids then entry_at k (live k) else none)
unfolding cached_of find_row any
cached_entry live k [] = refl
cached_entry live k (id ∷ ids) = ground (arith, cached_entry live k ids)

missing_key :
    (live : ℕ → Option (Float × Float)) (k : ℕ) (ids : List ℕ)
    → any (λ j. j == k) (cached_of live ids).1 ≡ any (λ j. j == k) ids && is_none (live k)
unfolding cached_of any
missing_key live k [] = refl
missing_key live k (id ∷ ids) = ground (arith, missing_key live k ids)

stored_none :
    (q : ℕ → Bool) (k : ℕ) (rows : List DelivererProfile)
    → count_rows (λ r. r.id == k) rows ≡ 0
    → find_row (λ e. e.0 == k) (stored_of (filter_rows (λ r. q r.id) rows)) ≡ none
unfolding stored_of filter_rows count_rows find_row
stored_none q k [] h = refl
stored_none q k (r ∷ rows) h = ground (arith, stored_none q k rows)

stored_entry :
    (q : ℕ → Bool) (k : ℕ) (rows : List DelivererProfile)
    → count_rows (λ r. r.id == k) rows ≤ 1
    → find_row (λ e. e.0 == k) (stored_of (filter_rows (λ r. q r.id) rows))
      ≡ (if q k then entry_at k (stored (find_row (λ r. r.id == k) rows)) else none)
unfolding stored_of filter_rows count_rows find_row
stored_entry q k [] h = ground arith
stored_entry q k (r ∷ rows) h = ground (arith, stored_entry q k rows, stored_none q k rows)

fetched :
    (k : ℕ) (missing : List ℕ) (found : List Entry) (w : World)
    → count_rows (λ r. r.id == k) w.db.deliverers.rows ≤ 1
    → (all : List Entry) × (fetch_missing reference missing found w ≡ (ok all, w))
      × (find_row (λ e. e.0 == k) all ≡ (
          if is_some (find_row (λ e. e.0 == k) found)
          then find_row (λ e. e.0 == k) found
          else if any (λ j. j == k) missing
          then entry_at k (stored (find_row (λ r. r.id == k) w.db.deliverers.rows))
          else none))
unfolding fetch_missing any
fetched k [] found w h = (found, refl, ground arith)
fetched k (id ∷ ids) found w h =
    let rows = filter_rows (λ r. any (λ j. j == r.id) (id ∷ ids)) w.db.deliverers.rows in
    (
      found ++ stored_of rows,
      refl,
      rw
          (
            find-concat (λ e. e.0 == k) found (stored_of rows),
            stored_entry (λ j. any (λ i. i == j) (id ∷ ids)) k w.db.deliverers.rows h,
          )
          refl,
    )

-- The position that Redis holds, or the one stored in the table.
abbrev last_known : ℕ → World → Option (Float × Float)
last_known k w =
    if is_some (w.live k) then w.live k else stored (find_row (λ r. r.id == k) w.db.deliverers.rows)

located :
    (k : ℕ) (w : World)
    → (loc : Option (Float × Float × Source)) × (get_location reference k w ≡ (ok loc, w))
      × (entry_of k loc ≡ entry_at k (last_known k w))
unfolding get_location
located k w = elim (Option-cases (w.live k)) [
  | inl e ↦ elim (Option-cases (stored (find_row (λ r. r.id == k) w.db.deliverers.rows))) [
    | inl f ↦ (none, rw (e, f) refl, rw (e, f) refl)
    | inr ((a, b), f) ↦ (some (a, b, Source.db), rw (e, f) refl, rw (e, f) refl)
  ]
  | inr ((a, b), e) ↦ (some (a, b, Source.redis), rw e refl, rw e refl)
]

-- The entry found first in the cache, then in the table, is that of the last known position.
chosen :
    (k : ℕ) (asked : Bool) (live kept : Option (Float × Float))
    → (if is_some (if asked then entry_at k live else none)
        then if asked then entry_at k live else none
        else if asked && is_none live
        then entry_at k kept
        else none)
      ≡ (if asked then entry_at k (if is_some live then live else kept) else none)
chosen k true none kept = refl
chosen k true (some v) kept = refl
chosen k false live kept = refl

same_answer :
    (ids : List ℕ) (k : ℕ) (w : World)
    → count_rows (λ r. r.id == k) w.db.deliverers.rows ≤ 1
    → (found : List Entry) × (loc : Option (Float × Float × Source)) × (get_many reference ids w
        ≡ (ok found, w))
      × (get_location reference k w ≡ (ok loc, w))
      × (find_row (λ e. e.0 == k) found ≡ (if any (λ j. j == k) ids then entry_of k loc else none))
unfolding get_many
same_answer ids k w h =
    let (cached, missing) = cached_of w.live ids in
    let (all, run, at) = fetched k missing cached w h in
    let (loc, got, entry) = located k w in
    (
      all,
      loc,
      run,
      got,
      rw (at, cached_entry w.live k ids, missing_key w.live k ids, entry)
          (chosen k (any (λ j. j == k) ids) (w.live k)
            (stored (find_row (λ r. r.id == k) w.db.deliverers.rows))),
    )

module _ {prisma : Prisma} (d : Documented prisma) where
  -- For an id that at most one deliverer has, getMany and get agree: both return and change
  -- nothing, and the map of getMany holds for the id what get answers, if the id was asked for, and
  -- nothing otherwise.
  pub get_many_agrees :
      (ids : List ℕ) (k : ℕ) (w : World)
      → prisma.count (λ r. r.id == k) w.db.deliverers ≤ 1
      → (found : List Entry) × (loc : Option (Float × Float × Source)) × (get_many prisma ids w
          ≡ (ok found, w))
        × (get_location prisma k w ≡ (ok loc, w))
        × (find_row (λ e. e.0 == k) found
            ≡ (if any (λ j. j == k) ids then entry_of k loc else none))
  get_many_agrees = rw (Documented-reference d) same_answer
