-- ===== src/Order/Ready/Small.antt =====
-- About vendorMarkReady of src/order/order.service.ts: how large a batch becomes.
use mesyaf_market.Prelude.{
  ℕ, suc, ◌+◌, ◌≤◌, ◌<◌, ◌≡◌, refl, ◌∙◌, Bool, true, none, some, List, [], ◌∷◌, ◌++◌, All, length,
  arith, ◌==◌, is_value, inl, inr, Option-cases, Bool-cases, if◌then◌else◌,
}
use mesyaf_market.Database.Schema.{
  Order, OrderType, OrderStatus, Batch, JobStatus, EventEntityType, is_job,
}
use mesyaf_market.Database.World.{World, Db}
use mesyaf_market.Database.Rows.{count_rows, find_row, update_rows, filter_rows, sort_rows}
use mesyaf_market.Database.Rules.{Result-cases}
use mesyaf_market.Database.Sorted.{length-filter_rows, All-sort_rows}
use mesyaf_market.Events.{order_ready}
use mesyaf_market.Events.Record.{record_event_lem}
use mesyaf_market.Delivery.Jobs.{order_payload}
use mesyaf_market.Order.Ready.Claimable.{is_claimable, claimed}
use mesyaf_market.Database.Prisma.{reference}
use mesyaf_market.Delivery.Geo.{FloatOps}
use mesyaf_market.Order.Batching.{
  Settings, CityRules, city_rules, check_batch_eligibility, fits_batch,
}
use mesyaf_market.Order.Ready.{
  open_batch, join_batch, try_batches, assign_to_batch, claim_ready, orders_in,
}

count-update_rows_same :
    {R : Type 0} (q p : R → Bool) (f : R → R) (rs : List R)
    → ((r : R) → q (f r) ≡ q r)
    → count_rows q (update_rows p f rs) ≡ count_rows q rs
unfolding count_rows update_rows
count-update_rows_same q p f [] h = refl
count-update_rows_same q p f (r ∷ rs) h = ground (arith, h r, count-update_rows_same q p f rs h)

abbrev pub in_batch : ℕ → Order → Bool
in_batch k o = is_value o.delivery_batch_id k

abbrev into : ℕ → Order → Order
into b o = record o { delivery_batch_id = some b }

count-into :
    (k b i : ℕ) (os : List Order)
    → count_rows (in_batch k) (update_rows (λ r. r.id == i) (into b) os)
      ≤ count_rows (in_batch k) os + (if k == b then count_rows (λ r. r.id == i) os else 0)
unfolding count_rows update_rows
count-into k b i [] = ground arith
count-into k b i (o ∷ os) = ground (arith, count-into k b i os)

-- No batch has more than five orders, an id is of one order, and the next batch is new.
abbrev pub AreSmall : List Order → List Batch → ℕ → Type 0
AreSmall os bs next =
    ((k : ℕ) → count_rows (in_batch k) os ≤ 5)
    × ((i : ℕ) → count_rows (λ o. o.id == i) os ≤ 1)
    × ((k : ℕ) → next ≤ k → count_rows (in_batch k) os ≡ 0)
    × All (λ b. b.id < next) bs

into-AreSmall :
    (b i next next' : ℕ) (os : List Order) (bs bs' : List Batch)
    → b < next'
    → next ≤ next'
    → count_rows (in_batch b) os ≤ 4
    → All (λ r. r.id < next') bs'
    → AreSmall os bs next
    → AreSmall (update_rows (λ r. r.id == i) (into b) os) bs' next'
into-AreSmall b i next next' os bs bs' new le few ids (five, one, fresh, old) = (
  (λ k. ground (arith, count-into k b i os, five k, one i, few)),
  (λ j. ground (
    arith,
    one j,
    count-update_rows_same (λ o. o.id == j) (λ r. r.id == i) (into b) os (λ r. refl),
  )),
  (λ k h. ground (arith, count-into k b i os, fresh k, h)),
  ids,
)

eligible_is_small :
    (float : FloatOps) (s : Settings) (rules : CityRules) (o : Order) (os : List Order)
    → check_batch_eligibility float s rules o os ≡ true
    → length os ≤ 4
unfolding check_batch_eligibility fits_batch
eligible_is_small float s rules o [] h = omega arith
eligible_is_small float s rules o (p ∷ os) h = ground arith

-- The invariant of the tables.
abbrev pub IsSmall : Db → Type 0
IsSmall db = AreSmall db.orders.rows db.batches.rows db.batches.next_id

abbrev Older : ℕ → List Batch → Type 0
Older n bs = All (λ b. b.id < n) bs

Older-opened :
    (n : ℕ) (b : Batch) (bs : List Batch) → b.id ≡ n → Older n bs → Older (suc n) (bs ++ b ∷ [])
Older-opened n b [] e h = (omega (arith, e), tt)
Older-opened n b (c ∷ bs) e h = (omega (arith, h.0), Older-opened n b bs e h.1)

Older-filtered :
    (p : Batch → Bool) (n : ℕ) (bs : List Batch) → Older n bs → Older n (filter_rows p bs)
unfolding filter_rows
Older-filtered p n [] h = tt
Older-filtered p n (b ∷ bs) h = elim (Bool-cases (p b)) [
  | inl e ↦ rw e (h.0, Older-filtered p n bs h.1)
  | inr e ↦ rw e (Older-filtered p n bs h.1)
]

module _ (float : FloatOps) (s : Settings) where
  open_batch-IsSmall :
      (o : Order) (w : World) → IsSmall w.db → IsSmall (open_batch reference float s o w).1.db
  unfolding open_batch
  open_batch-IsSmall o w h =
      let n = w.db.batches.next_id in
      let (five, one, fresh, old) = h in
      let b : Batch = record {
        id = n;
        deliverer_id = none;
        status = JobStatus.pending;
        created_at = w.now;
      } in
      let ids = Older-opened n b w.db.batches.rows refl old in
      elim (Option-cases (find_row (λ r. r.id == o.id) w.db.orders.rows)) [
        | inl f ↦ rw f (five, one, (λ k le. fresh k (omega (arith, le))), ids)
        | inr (p, f) ↦ rw f (
            into-AreSmall n o.id n (suc n) w.db.orders.rows w.db.batches.rows
              (w.db.batches.rows ++ b ∷ []) (omega arith) (omega arith) (ground (arith, fresh n))
              ids h)
      ]

  join_batch-IsSmall :
      (rules : CityRules) (o : Order) (b : Batch) (w : World)
      → b.id < w.db.batches.next_id
      → length (orders_in reference w.db b.id) ≤ 4
      → IsSmall w.db
      → IsSmall (join_batch reference float s rules o b (orders_in reference w.db b.id) w).1.db
  unfolding join_batch
  join_batch-IsSmall rules o b w old few h =
      let n = w.db.batches.next_id in
      elim (Option-cases (find_row (λ r. r.id == o.id) w.db.orders.rows)) [
        | inl f ↦ rw f h
        | inr (p, f) ↦ rw f (
            into-AreSmall b.id o.id n n w.db.orders.rows w.db.batches.rows w.db.batches.rows old
              (omega arith)
              (omega (arith, few, length-filter_rows (in_batch b.id) w.db.orders.rows)) h.3 h)
      ]

  try_batches-IsSmall :
      (rules : CityRules) (o : Order) (bs : List Batch) (w : World)
      → Older w.db.batches.next_id bs
      → IsSmall w.db
      → IsSmall (try_batches reference float s rules o w.db bs w).1.db
  unfolding try_batches
  try_batches-IsSmall rules o [] w old h = open_batch-IsSmall o w h
  try_batches-IsSmall rules o (b ∷ bs) w old h =
      elim (Bool-cases (check_batch_eligibility float s rules o (orders_in reference w.db b.id))) [
        | inl e ↦ rw e (
            join_batch-IsSmall rules o b w old.0
              (eligible_is_small float s rules o (orders_in reference w.db b.id) e) h)
        | inr e ↦ rw e (try_batches-IsSmall rules o bs w old.1 h)
      ]

  assign-IsSmall :
      (rules : CityRules) (o : Order) (w : World)
      → IsSmall w.db
      → IsSmall (assign_to_batch reference float s rules o w).1.db
  unfolding assign_to_batch
  assign-IsSmall rules o w h =
      let pending : Batch → Bool = λ b. is_job b.status JobStatus.pending in
      try_batches-IsSmall rules o
        (sort_rows (λ b. some b.created_at) (filter_rows pending w.db.batches.rows)) w
        (All-sort_rows (λ b. b.id < w.db.batches.next_id) (λ b. some b.created_at)
          (filter_rows pending w.db.batches.rows)
          (Older-filtered pending w.db.batches.next_id w.db.batches.rows h.3))
        h

  claimed-IsSmall :
      (order_id : ℕ) (t : OrderType) (w : World)
      → IsSmall w.db
      → IsSmall (claimed float s order_id t w).db
  claimed-IsSmall order_id t w (five, one, fresh, old) =
      let f : Order → Order = λ o. record o {
        status = OrderStatus.ready_for_delivery;
        order_type = t;
        ready_at = some w.now;
      } in
      let os = w.db.orders.rows in
      let p = is_claimable order_id in
      (
        (λ k. omega (arith, five k, count-update_rows_same (in_batch k) p f os (λ r. refl))),
        (λ i. omega (arith, one i, count-update_rows_same (λ o. o.id == i) p f os (λ r. refl))),
        (λ k le. count-update_rows_same (in_batch k) p f os (λ r. refl) ∙ fresh k le),
        old,
      )

  pub claim-IsSmall :
      (order_id : ℕ) (t : OrderType) (w : World)
      → IsSmall w.db
      → IsSmall (claim_ready reference float s order_id t w).1.db
  unfolding claim_ready
  claim-IsSmall order_id t w h =
      let w₁ = claimed float s order_id t w in
      let small = claimed-IsSmall order_id t w h in
      elim (Bool-cases (count_rows (is_claimable order_id) w.db.orders.rows == 0)) [
        | inl e ↦ rw e small
        | inr e ↦ elim (Option-cases (find_row (λ o. o.id == order_id) w₁.db.orders.rows)) [
          | inl f ↦ rw (e, f) small
          | inr (o, f) ↦
              let w₂ = (assign_to_batch reference float s (city_rules s) o w₁).1 in
              let small₂ = assign-IsSmall (city_rules s) o w₁ small in
              elim (Result-cases (assign_to_batch reference float s (city_rules s) o w₁).0) [
                | inl (x, g) ↦ rw (e, f, g) small₂
                | inr (b, g) ↦
                    rw
                      (
                        e,
                        f,
                        g,
                        record_event_lem EventEntityType.order order_id order_ready
                            (order_payload order_id OrderStatus.ready_for_delivery) w₂,
                      )
                      small₂
              ]
        ]
      ]
