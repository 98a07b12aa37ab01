-- ===== src/Delivery/Assignment/Choice.antt =====
-- About findClosestDeliverer of src/deliverer/deliverer-assignment.service.ts: the deliverer who is
-- chosen is one of those who are available.
use mesyaf_market.Prelude.{
  ◌≡◌, ℕ, Bool, true, Option, none, some, List, [], ◌∷◌, All, inl, inr, Bool-cases, Option-cases,
  arith,
}
use mesyaf_market.Database.Schema.{Float, DelivererProfile}
use mesyaf_market.Database.Rows.{filter_rows, count_rows}
use mesyaf_market.Delivery.Geo.{FloatOps, calc_distance_km}
use mesyaf_market.Delivery.Assignment.{
  scan_closest, closer, with_locations, lookup_location, relocated, or_first,
}

-- A row that a query finds is counted by every test that holds of it.
pub filtered_counts :
    {R : Type 0} (p : R → Bool) (g : R → R → Bool)
    → ((r : R) → p r ≡ true → g r r ≡ true)
    → (whole rs : List R) → ((r : R) → count_rows (g r) whole ≡ 0 → count_rows (g r) rs ≡ 0)
    → All (λ r. ¬ (count_rows (g r) whole ≡ 0)) (filter_rows p rs)
unfolding filter_rows count_rows
filtered_counts p g self whole [] part = tt
filtered_counts p g self whole (r ∷ rs) part =
    let rest = filtered_counts p g self whole rs (λ s z. ground (arith, part s z)) in
    elim (Bool-cases (p r)) [
      | inl e ↦ rw e (λ z. omega (arith, rw (self r e) at (part r z)), rest)
      | inr e ↦ rw e rest
    ]

-- What holds of ids is kept by the places that are filled in.
module _ (P : ℕ → Type 0) where
  pub of_relocated :
      (o : Option (Float × Float)) (d : DelivererProfile) → P d.id → P (relocated o d).id
  of_relocated none d h = h
  of_relocated (some (lat, lng)) d h = h

  pub All-with_locations :
      (fresh : List (ℕ × Float × Float)) (ds : List DelivererProfile)
      → All (λ d. P d.id) ds
      → All (λ d. P d.id) (with_locations fresh ds)
  unfolding with_locations
  All-with_locations fresh [] h = tt
  All-with_locations fresh (d ∷ ds) (h, hs) =
      (of_relocated (lookup_location d.id fresh) d h, All-with_locations fresh ds hs)

  unfoldable pub Holds : Option DelivererProfile → Type 0
  Holds none = Unit {0}
  Holds (some d) = P d.id

  module _ (float : FloatOps) (lat lng : Float) where
    closer-Holds :
        (d : DelivererProfile) (best : Option DelivererProfile × Float)
        → P d.id
        → Holds best.0
        → Holds (closer float lat lng d best).0
    unfolding closer Holds
    closer-Holds d (closest, m) h hb = elim (Option-cases d.current_lat) [
      | inl el ↦ rw el hb
      | inr (d_lat, el) ↦ elim (Option-cases d.current_lng) [
        | inl en ↦ rw (el, en) hb
        | inr (d_lng, en) ↦
            elim (Bool-cases (float.lt (calc_distance_km float lat lng d_lat d_lng) m)) [
              | inl e ↦ rw (el, en, e) h
              | inr e ↦ rw (el, en, e) hb
            ]
      ]
    ]

    pub scan-Holds :
        (ds : List DelivererProfile) (best : Option DelivererProfile × Float)
        → All (λ d. P d.id) ds
        → Holds best.0
        → Holds (scan_closest float lat lng ds best).0
    unfolding scan_closest
    scan-Holds [] best h hb = hb
    scan-Holds (d ∷ ds) best (h, hs) hb =
        scan-Holds ds (closer float lat lng d best) hs (closer-Holds d best h hb)

  pub or_first-Holds :
      (o : Option DelivererProfile) (d : DelivererProfile) → Holds o → P d.id → P (or_first o d).id
  unfolding Holds
  or_first-Holds none d h k = k
  or_first-Holds (some c) d h k = h
