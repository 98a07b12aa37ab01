-- ===== src/Delivery/Assignment/Nearest.antt =====
-- About findClosestDeliverer of src/deliverer/deliverer-assignment.service.ts.
use mesyaf_market.Prelude.{
  ◌≡◌, refl, sym, subst, Bool, true, false, Option, none, some, List, [], ◌∷◌, All, arith,
  if◌then◌else◌, Option-cases, Bool-cases, inl, inr,
}
use mesyaf_market.Database.Schema.{Float, DelivererProfile}
use mesyaf_market.Delivery.Geo.{FloatOps, calc_distance_km}
use mesyaf_market.Delivery.Assignment.{closer, scan_closest, find_closest_deliverer}

-- What is used of the order of floating-point numbers, which NaN and the infinities keep as well.
pub record IsOrder (lt : Float → Float → Bool) : Type 0 where
  pub irreflexive : (a : Float) → lt a a ≡ false
  pub transitive : (a b c : Float) → lt a b ≡ true → lt b c ≡ true → lt a c ≡ true

some_injective : (a b : DelivererProfile) → some a ≡ some b → a ≡ b
some_injective a b h = cc

module _ (float : FloatOps) (lat lng : Float) where
  -- The distance of a deliverer whose position is known.
  abbrev pub distance_of : DelivererProfile → Option Float
  distance_of d = elim d.current_lat [
    | none ↦ none
    | some a ↦ elim d.current_lng [
      | none ↦ none
      | some b ↦ some (calc_distance_km float lat lng a b)
    ]
  ]

  abbrev pub is_within : Option Float → Float → Bool
  is_within none m = false
  is_within (some a) m = float.lt a m

  -- One round, by the distance.
  round_lem :
      (d : DelivererProfile) (best : Option DelivererProfile × Float)
      → closer float lat lng d best ≡ (elim (distance_of d) [
        | none ↦ best
        | some a ↦ if float.lt a best.1 then (some d, a) else best
      ])
  unfolding closer
  round_lem d best = elim (Option-cases d.current_lat) [
    | inl e ↦ ground arith
    | inr (a, e) ↦ elim (Option-cases d.current_lng) [
      | inl f ↦ ground arith
      | inr (b, f) ↦ ground arith
    ]
  ]

  module _ (o : IsOrder float.lt) where
    round_le :
        (d : DelivererProfile) (best : Option DelivererProfile × Float) (x : Float)
        → float.lt x (closer float lat lng d best).1 ≡ true
        → float.lt x best.1 ≡ true
    round_le d best x h = elim (Option-cases (distance_of d)) [
      | inl e ↦ ground (arith, round_lem d best)
      | inr (a, e) ↦ ground (arith, round_lem d best, o.transitive x a best.1)
    ]

    round_beats :
        (d : DelivererProfile) (best : Option DelivererProfile × Float)
        → is_within (distance_of d) (closer float lat lng d best).1 ≡ false
    round_beats d best = elim (Option-cases (distance_of d)) [
      | inl e ↦ rw e refl
      | inr (a, e) ↦ ground (arith, round_lem d best, o.irreflexive a)
    ]

    scan_le :
        (ds : List DelivererProfile) (best : Option DelivererProfile × Float) (x : Float)
        → float.lt x (scan_closest float lat lng ds best).1 ≡ true
        → float.lt x best.1 ≡ true
    unfolding scan_closest
    scan_le [] best x h = h
    scan_le (d ∷ ds) best x h = round_le d best x (scan_le ds (closer float lat lng d best) x h)

    within_mono :
        (a : Option Float) (m n : Float)
        → ((x : Float) → float.lt x n ≡ true → float.lt x m ≡ true)
        → is_within a m ≡ false
        → is_within a n ≡ false
    within_mono none m n h e = refl
    within_mono (some a) m n h e = elim (Bool-cases (float.lt a n)) [
      | inl t ↦ ground (arith, h a t)
      | inr f ↦ f
    ]

    scan_beats :
        (ds : List DelivererProfile) (best : Option DelivererProfile × Float)
        → All (λ d. is_within (distance_of d) (scan_closest float lat lng ds best).1 ≡ false) ds
    unfolding scan_closest
    scan_beats [] best = tt
    scan_beats (d ∷ ds) best = (
      within_mono (distance_of d) (closer float lat lng d best).1 _
          (scan_le ds (closer float lat lng d best)) (round_beats d best),
      scan_beats ds (closer float lat lng d best),
    )

    -- The distance that is kept is the one of the deliverer who is kept.
    Fits : Option DelivererProfile × Float → Type 0
    Fits best = (c : DelivererProfile) → best.0 ≡ some c → distance_of c ≡ some best.1

    alone-Fits : (d : DelivererProfile) (a : Float) → distance_of d ≡ some a → Fits (some d, a)
    unfolding Fits
    alone-Fits d a e c h = rw (← some_injective d c h) e

    round_kept :
        (d : DelivererProfile) (best : Option DelivererProfile × Float)
        → Fits best
        → Fits (closer float lat lng d best)
    round_kept d best kept = elim (Option-cases (distance_of d)) [
      | inl e ↦ subst Fits (sym (same e)) kept
      | inr (a, e) ↦ elim (Bool-cases (float.lt a best.1)) [
        | inl t ↦ subst Fits (sym (taken a e t)) (alone-Fits d a e)
        | inr f ↦ subst Fits (sym (left a e f)) kept
      ]
    ]
      where
        same : distance_of d ≡ none → closer float lat lng d best ≡ best
        same e = ground (arith, round_lem d best)

        taken :
            (a : Float)
            → distance_of d ≡ some a
            → float.lt a best.1 ≡ true
            → closer float lat lng d best ≡ (some d, a)
        taken a e t = ground (arith, round_lem d best)

        left :
            (a : Float)
            → distance_of d ≡ some a
            → float.lt a best.1 ≡ false
            → closer float lat lng d best ≡ best
        left a e f = ground (arith, round_lem d best)

    scan_kept :
        (ds : List DelivererProfile) (best : Option DelivererProfile × Float)
        → Fits best
        → Fits (scan_closest float lat lng ds best)
    unfolding scan_closest
    scan_kept [] best kept = kept
    scan_kept (d ∷ ds) best kept =
        scan_kept ds (closer float lat lng d best) (round_kept d best kept)

    -- The deliverer who is found has a known position, and no deliverer of the list with a known
    -- position is nearer, where the comparison of distances is irreflexive and transitive.
    pub nearest_is_found :
        (ds : List DelivererProfile) (c : DelivererProfile)
        → find_closest_deliverer float ds lat lng ≡ some c
        → (m : Float) × (distance_of c ≡ some m) × All (λ d. is_within (distance_of d) m ≡ false) ds
    unfolding find_closest_deliverer Fits
    nearest_is_found ds c h = (
      (scan_closest float lat lng ds (none, float.infinity)).1,
      scan_kept ds (none, float.infinity) (λ b e. cc) c h,
      scan_beats ds (none, float.infinity),
    )
