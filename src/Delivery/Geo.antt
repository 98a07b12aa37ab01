-- ===== src/Delivery/Geo.antt =====
-- The distance on a sphere, which order.service.ts and deliverer-assignment.service.ts each
-- compute. JavaScript's numbers are a parameter: their arithmetic, tests and `Math`.
use mesyaf_market.Prelude.{ℕ, Bool}
use mesyaf_market.Database.Schema.{Float}

pub record FloatOps : Type 0 where
  pub of_ℕ : ℕ → Float
  pub plus : Float → Float → Float
  pub minus : Float → Float → Float
  pub times : Float → Float → Float
  pub over : Float → Float → Float
  pub pow : Float → Float → Float
  pub sin : Float → Float
  pub cos : Float → Float
  pub asin : Float → Float
  pub sqrt : Float → Float
  pub pi : Float
  pub infinity : Float
  pub lt : Float → Float → Bool

module _ (float : FloatOps) where
  open float use {of_ℕ, plus, minus, times, over, pow, sin, cos, asin, sqrt, pi}

  abbrev radians : Float → Float
  radians x = times x (over pi (of_ℕ 180))

  abbrev square : Float → Float
  square x = pow x (of_ℕ 2)

  abbrev half_chord : Float → Float → Float
  half_chord from to = square (sin (over (radians (minus to from)) (of_ℕ 2)))

  abbrev arc : Float → Float
  arc h = times (times (of_ℕ 2) (of_ℕ 6371)) (asin (sqrt h))

  -- DelivererAssignmentService.calcDistanceKm
  unfoldable pub calc_distance_km : Float → Float → Float → Float → Float
  calc_distance_km lat1 lng1 lat2 lng2 = arc (
      plus (half_chord lat1 lat2)
        (times (times (cos (radians lat1)) (cos (radians lat2))) (half_chord lng1 lng2)))

  -- OrderService.calcDistanceKm, which multiplies in another order
  unfoldable pub point_distance_km : Float × Float → Float × Float → Float
  point_distance_km (lat1, lng1) (lat2, lng2) = arc (
      plus (half_chord lat1 lat2)
        (times (times (half_chord lng1 lng2) (cos (radians lat1))) (cos (radians lat2))))
