-- ===== src/Order/Batching.antt =====
-- src/order/order.service.ts: the rules of a city, and the tests that put an order into a batch
-- and close it.
use mesyaf_market.Prelude.{
  ℕ, ◌+◌, ◌*◌, Bool, true, Option, none, some, List, [], ◌∷◌, ◌&&◌, ◌||◌, not, ◌==◌, leb, any,
  if◌then◌else◌, length, String, str_eq,
}
use mesyaf_market.Database.Schema.{Float, OrderType, Order, is_food}
use mesyaf_market.Delivery.Geo.{FloatOps, point_distance_km}

pub record CityRules : Type 0 where
  pub max_vendor_dist : ℕ
  pub max_delay_threshold : ℕ
  pub window_min : ℕ

-- CITY_TYPE and ALLOW_MULTI_VENDOR_BATCHING
pub record Settings : Type 0 where
  pub city_type : String
  pub allow_multi_vendor : Bool

abbrev small_city : CityRules
small_city = record { max_vendor_dist = 120; max_delay_threshold = 7; window_min = 3 }

abbrev medium_city : CityRules
medium_city = record { max_vendor_dist = 60; max_delay_threshold = 5; window_min = 4 }

abbrev large_city : CityRules
large_city = record { max_vendor_dist = 20; max_delay_threshold = 3; window_min = 3 }

-- OrderService.rules
unfoldable pub city_rules : Settings → CityRules
city_rules s =
    if str_eq s.city_type "SMALL"
    then small_city
    else if str_eq s.city_type "LARGE"
    then large_city
    else medium_city

abbrev pub food_max_batch : ℕ
food_max_batch = 3

abbrev pub grocery_max_batch : ℕ
grocery_max_batch = 5

-- Both coordinates of a point, where there are both.
abbrev pub point : Option Float → Option Float → Option (Float × Float)
point (some lat) (some lng) = some (lat, lng)
point _ _ = none

module _ (float : FloatOps) where
  open float use {of_ℕ, plus, minus, over, times, lt}

  -- Minutes at 30 km per hour.
  abbrev minutes : Float → Float
  minutes km = over km (over (of_ℕ 30) (of_ℕ 60))

  -- The loop of estimateDelay, on `routeTime` and `currentPoint`.
  unfoldable pub drive : List Order → Float × (Float × Float) → Float × (Float × Float)
  drive [] at = at
  drive (o ∷ os) (time, current) = drive os (elim (point o.customer_lat o.customer_lng) [
    | none ↦ (time, current)
    | some stop ↦ (plus time (minutes (point_distance_km float current stop)), stop)
  ])

  -- The delay for one order, where its four coordinates are there.
  unfoldable pub delay_between : Float × Float → Float × Float → List Order → Float
  unfolding drive
  delay_between vendor customer batch_orders =
      let (time, current) = drive batch_orders (of_ℕ 0, vendor) in
      minus (plus time (minutes (point_distance_km float current customer)))
        (minutes (point_distance_km float vendor customer))

  -- OrderService.estimateDelay
  unfoldable pub estimate_delay : Order → List Order → Float
  unfolding delay_between
  estimate_delay o batch_orders = elim (point o.vendor_lat o.vendor_lng) [
    | none ↦ of_ℕ 0
    | some vendor ↦ elim (point o.customer_lat o.customer_lng) [
      | none ↦ of_ℕ 0
      | some customer ↦ delay_between vendor customer batch_orders
    ]
  ]

  -- What a missing coordinate counts as in arithmetic: `null` becomes 0.
  abbrev number_of : Option Float → Float
  number_of none = of_ℕ 0
  number_of (some x) = x

  abbrev vendor_point : Order → Float × Float
  vendor_point o = (number_of o.vendor_lat, number_of o.vendor_lng)

  abbrev pub max_for : OrderType → ℕ
  max_for t = if is_food t then food_max_batch else grocery_max_batch

  -- The tests of checkBatchEligibility on a batch with an order in it.
  unfoldable pub fits_batch : Settings → CityRules → Order → Order → List Order → Bool
  unfolding any estimate_delay
  fits_batch s rules o first rest =
      (s.allow_multi_vendor || not (any (λ b. not (b.vendor_id == o.vendor_id)) (first ∷ rest)))
      && not (leb (max_for o.order_type) (length (first ∷ rest)))
      && not (
          lt (of_ℕ rules.max_vendor_dist)
            (times (point_distance_km float (vendor_point o) (vendor_point first)) (of_ℕ 1000)))
      && not (lt (of_ℕ rules.max_delay_threshold) (estimate_delay o (first ∷ rest)))

  -- OrderService.checkBatchEligibility
  unfoldable pub check_batch_eligibility : Settings → CityRules → Order → List Order → Bool
  unfolding fits_batch
  check_batch_eligibility s rules o [] = true
  check_batch_eligibility s rules o (first ∷ rest) = fits_batch s rules o first rest

abbrev pub has_food : List Order → Bool
has_food os = any (λ o. is_food o.order_type) os

-- OrderService.shouldCloseBatch: `(now - createdAt) / 60000 >= WINDOW_MIN` is an order of numbers.
unfoldable pub should_close_batch : CityRules → ℕ → ℕ → List Order → Bool
unfolding any
should_close_batch rules now created_at [] = leb (created_at + rules.window_min * 60000) now
should_close_batch rules now created_at (o ∷ os) =
    leb (created_at + rules.window_min * 60000) now
    || leb (if has_food (o ∷ os) then food_max_batch else grocery_max_batch) (length (o ∷ os))
