-- ===== src/Delivery/Assignment/Outcome.antt =====
-- About assignDelivererToBatch of src/deliverer/deliverer-assignment.service.ts: what a call of it
-- does to the tables.
use mesyaf_market.Prelude.{
  ◌≡◌, refl, ap, ℕ, Bool, true, Option, none, some, List, [], ◌∷◌, ◌==◌, ◌||◌, map, length,
  is_value, is_none, ◌⊎◌, inl, inr, Bool-cases, Option-cases,
}
use mesyaf_market.Database.Schema.{Float, Order, Batch, Job, JobStatus, DelivererProfile}
use mesyaf_market.Database.World.{
  unique_violation, World, Db, Result, Error, ok, err, swallow, continue, conflict,
  no_deliverer_available,
}
use mesyaf_market.Database.Rows.{count_rows, find_row}
use mesyaf_market.Database.Keeps.{Keeps, keeps}
use mesyaf_market.Database.Prisma.{Prisma, Documented, Documented-reference, reference, settle}
use mesyaf_market.Delivery.Geo.{FloatOps}
use mesyaf_market.Delivery.Location.{get_many, fetch_missing, cached_of}
use mesyaf_market.Delivery.Assignment.{
  is_taken, is_unclaimed, is_set, claim_batch, claim_both, notify_assigned, assign_nearest,
  assign_available, assign_pickup, assign_orders, assign_deliverer_to_batch, find_available,
  with_locations, lookup_location, relocated, or_first, find_closest_deliverer,
}
use mesyaf_market.Delivery.Assignment.Exclusive.{
  is_free_one, both_claimed, settled-Claims, is_given_to, is_busy_with,
}
use mesyaf_market.Delivery.Assignment.Stops.{planned, place_of, of_job, is_left_out, fill-IsFilled}
use mesyaf_market.Delivery.Assignment.Filled.{batch_filled, upsert_job-IsGiven}

-- The orders of a batch, the first to be ready first.
abbrev pub batch_orders : Prisma → ℕ → Db → List Order
batch_orders prisma batch_id db =
    prisma.order_by (λ o. o.ready_at)
      (prisma.find_many (λ o. is_value o.delivery_batch_id batch_id) db.orders)

-- There is no such batch, it has its deliverer, no orders, or no place to pick them up.
abbrev pub needs_nothing : Option Batch → List Order → Bool
needs_nothing none os = true
needs_nothing (some b) [] = true
needs_nothing (some b) (o ∷ os) =
    is_set b.deliverer_id || is_none o.vendor_lat || is_none o.vendor_lng

-- The batch is given to the deliverer, with the job.
abbrev pub IsAssigned :
    Prisma → (batch_id deliverer_id : ℕ) → List Order → Job → (old new : Db) → Type 0
IsAssigned prisma batch_id deliverer_id os j old new =
    (¬ (prisma.count (is_unclaimed batch_id) old.batches ≡ 0))
    × (¬ (prisma.count (is_free_one deliverer_id) old.deliverers ≡ 0))
    × (prisma.count (is_free_one deliverer_id) new.deliverers ≡ 0)
    × (¬ (prisma.count (is_given_to batch_id deliverer_id) new.batches ≡ 0))
    × (¬ (prisma.count (is_busy_with deliverer_id j.id) new.deliverers ≡ 0))
    × (prisma.find_first (λ k. k.batch_id == batch_id) new.jobs ≡ some j)
    × (j.deliverer_id ≡ some deliverer_id)
    × (j.status ≡ JobStatus.assigned)
    × (j.total_orders ≡ some (length os))
    × (map place_of (prisma.find_many (of_job j.id) new.drop_offs) ≡ planned 0 os)
    × (prisma.count (is_left_out batch_id deliverer_id j.id) new.orders ≡ 0)

-- What a call answers, and what it did.
abbrev pub Outcome :
    Prisma → (batch_id : ℕ) → Option Batch → List Order → World → Result Unit × World → Type 0
Outcome prisma batch_id batch os w r =
    ((needs_nothing batch os ≡ true) × (r ≡ (ok tt, w)))
    ⊎ ((((r.0 ≡ err conflict)
            ⊎ (r.0 ≡ err unique_violation)
            ⊎ (r.0 ≡ err (no_deliverer_available batch_id)))
          × (r.1.db ≡ w.db))
        ⊎ ((r.0 ≡ ok tt)
            × (deliverer_id : ℕ) × (j : Job) × IsAssigned prisma batch_id deliverer_id os j w.db
                r.1.db))

fetched :
    (missing : List ℕ) (cached : List (ℕ × Float × Float)) (w : World)
    → (found : List (ℕ × Float × Float)) × (fetch_missing reference missing cached w
        ≡ (ok found, w))
unfolding fetch_missing
fetched [] cached w = (_, refl)
fetched (id ∷ ids) cached w = (_, refl)

pub found_places :
    (ids : List ℕ) (w : World)
    → (found : List (ℕ × Float × Float)) × (get_many reference ids w ≡ (ok found, w))
unfolding get_many
found_places ids w = fetched (cached_of w.live ids).1 (cached_of w.live ids).0 w

Keeps-notify :
    (batch_id : ℕ) (job : Job) (deliverer_id : ℕ) (os : List Order)
    → Keeps (λ db. db) (notify_assigned reference batch_id job deliverer_id os)
unfolding notify_assigned
Keeps-notify batch_id job deliverer_id os = search keeps depth 8

settled_err :
    {A : Type 0} (w : World) (r : Result A × World) (x : Error)
    → (settle w r).0 ≡ err x
    → (r.0 ≡ err x) × ((settle w r).1.db ≡ w.db)
settled_err w (ok a, w') x h = cc
settled_err w (err y, w') x h = (h, refl)

both_conflict :
    (batch_id deliverer_id : ℕ) (os : List Order) (job : Job) (w : World) (x : Error)
    → (claim_both reference batch_id deliverer_id os job w).0 ≡ err x
    → (x ≡ conflict) ⊎ (x ≡ unique_violation)
unfolding claim_both
both_conflict batch_id deliverer_id os job w x h =
    let batches = count_rows (is_unclaimed batch_id) w.db.batches.rows in
    let deliverers = count_rows (is_free_one deliverer_id) w.db.deliverers.rows in
    let (a, _, _) =
      fill-IsFilled batch_id deliverer_id os job (both_claimed batch_id deliverer_id job w) in
    elim (Bool-cases (batches == 0)) [
      | inl b ↦ let y = rw b at h in inl cc
      | inr b ↦ elim (Bool-cases (deliverers == 0)) [
        | inl c ↦ let y = rw (b, c) at h in inl cc
        | inr c ↦ elim (Bool-cases (count_rows (is_taken job.id) w.db.deliverers.rows == 0)) [
          | inl t ↦ let y = rw (b, c, t, a) at h in cc
          | inr t ↦ let y = rw (b, c, t) at h in inr cc
        ]
      ]
    ]

-- A claim conflicts, or is made.
claim_conflicts :
    (batch_id deliverer_id : ℕ) (os : List Order) (w : World) (x : Error)
    → (settle w (claim_batch reference batch_id deliverer_id os w)).0 ≡ err x
    → ((x ≡ conflict) ⊎ (x ≡ unique_violation))
      × ((settle w (claim_batch reference batch_id deliverer_id os w)).1.db ≡ w.db)
unfolding claim_batch
claim_conflicts batch_id deliverer_id os w x h =
    let (job, a, _) = upsert_job-IsGiven batch_id deliverer_id os w in
    let (e, same) = settled_err w (claim_batch reference batch_id deliverer_id os w) x h in
    let e' = rw a at e in (both_conflict batch_id deliverer_id os job _ x e', same)

claim-IsAssigned :
    (batch_id deliverer_id : ℕ) (os : List Order) (w : World) (j : Job)
    → (settle w (claim_batch reference batch_id deliverer_id os w)).0 ≡ ok j
    → IsAssigned reference batch_id deliverer_id os j w.db
        (settle w (claim_batch reference batch_id deliverer_id os w)).1.db
claim-IsAssigned batch_id deliverer_id os w j h =
    let c = settled-Claims batch_id deliverer_id os w j h in
    let (found, given, status, total, stops, waiting) =
      batch_filled batch_id deliverer_id os w j h in
    (
      c.was_unclaimed, c.was_free, c.free, c.given, c.busy, found, given, status, total, stops,
      waiting,
    )

-- The part of a call after which a deliverer is chosen.
abbrev Made : (batch_id : ℕ) → List Order → World → Result Unit × World → Type 0
Made batch_id os w r =
    (((r.0 ≡ err conflict)
        ⊎ (r.0 ≡ err unique_violation)
        ⊎ (r.0 ≡ err (no_deliverer_available batch_id)))
      × (r.1.db ≡ w.db))
    ⊎ ((r.0 ≡ ok tt)
        × (deliverer_id : ℕ) × (j : Job) × IsAssigned reference batch_id deliverer_id os j w.db
            r.1.db)

notified-Made :
    (batch_id deliverer_id : ℕ) (os : List Order) (w : World) (s : Result Job × World)
    → ((x : Error) → s.0 ≡ err x → ((x ≡ conflict) ⊎ (x ≡ unique_violation)) × (s.1.db ≡ w.db))
    → ((j : Job) → s.0 ≡ ok j → IsAssigned reference batch_id deliverer_id os j w.db s.1.db)
    → Made batch_id os w
        (continue s.0 (λ job. swallow (notify_assigned reference batch_id job deliverer_id os)) s.1)
notified-Made batch_id deliverer_id os w (ok j, w') f g =
    inr (refl, deliverer_id, j, rw ((Keeps-notify batch_id j deliverer_id os).at w') (g j refl))
notified-Made batch_id deliverer_id os w (err x, w') f g =
    let (c, same) = f x refl in
    inl (elim c [ inl a ↦ inl (ap err a) | inr a ↦ inr (inl (ap err a)) ], same)

module _ (float : FloatOps) where
  nearest-Made :
      (batch_id : ℕ) (os : List Order) (lat lng : Float) (d : DelivererProfile)
      (ds : List DelivererProfile) (w : World)
      → Made batch_id os w (assign_nearest reference float batch_id os lat lng d ds w)
  unfolding assign_nearest
  nearest-Made batch_id os lat lng d ds w =
      let (found, e) = found_places (map (λ (r : DelivererProfile). r.id) (d ∷ ds)) w in
      let first = relocated (lookup_location d.id found) d in
      let located = with_locations found (d ∷ ds) in
      let id = (or_first (find_closest_deliverer float located lat lng) first).id in
      rw e (
        notified-Made batch_id id os w (settle w (claim_batch reference batch_id id os w))
          (claim_conflicts batch_id id os w) (claim-IsAssigned batch_id id os w))

  available-Made :
      (batch_id : ℕ) (os : List Order) (lat lng : Float) (ds : List DelivererProfile) (w : World)
      → Made batch_id os w (assign_available reference float batch_id os lat lng ds w)
  unfolding assign_available
  available-Made batch_id os lat lng [] w = inl (inr (inr refl), refl)
  available-Made batch_id os lat lng (d ∷ ds) w = nearest-Made batch_id os lat lng d ds w

  pickup-Made :
      (batch_id : ℕ) (os : List Order) (lat lng : Float) (w : World)
      → Made batch_id os w (assign_pickup reference float batch_id os (some lat) (some lng) w)
  unfolding assign_pickup find_available
  pickup-Made batch_id os lat lng w = available-Made batch_id os lat lng _ w

  place-Made :
      (batch_id : ℕ) (os : List Order) (lat lng : Option Float) (w : World)
      → (((is_none lat || is_none lng) ≡ true)
          × (assign_pickup reference float batch_id os lat lng w ≡ (ok tt, w)))
        ⊎ Made batch_id os w (assign_pickup reference float batch_id os lat lng w)
  unfolding assign_pickup
  place-Made batch_id os none lng w = inl (refl, refl)
  place-Made batch_id os (some lat) none w = inl (refl, refl)
  place-Made batch_id os (some lat) (some lng) w = inr (pickup-Made batch_id os lat lng w)

  orders-Outcome :
      (batch_id : ℕ) (b : Batch) (os : List Order) (w : World)
      → Outcome reference batch_id (some b) os w (assign_orders reference float batch_id b os w)
  unfolding assign_orders
  orders-Outcome batch_id b [] w = inl (refl, refl)
  orders-Outcome batch_id b (o ∷ os) w = elim (Bool-cases (is_set b.deliverer_id)) [
    | inl e ↦ rw e (inl (refl, refl))
    | inr e ↦ rw e (place-Made batch_id (o ∷ os) o.vendor_lat o.vendor_lng w)
  ]

  call-Outcome :
      (batch_id : ℕ) (w : World)
      → Outcome reference batch_id
          (reference.find_first (λ b. b.id == batch_id) w.db.batches)
          (batch_orders reference batch_id w.db)
          w
          (assign_deliverer_to_batch reference float batch_id w)
  unfolding assign_deliverer_to_batch
  call-Outcome batch_id w =
      elim (Option-cases (find_row (λ b. b.id == batch_id) w.db.batches.rows)) [
        | inl e ↦ rw e (inl (refl, refl))
        | inr (b, e) ↦ rw e (orders-Outcome batch_id b (batch_orders reference batch_id w.db) w)
      ]

module _ {prisma : Prisma} (d : Documented prisma) where
  -- A call of assignDelivererToBatch has one of three outcomes. If there is no such batch, or it has
  -- a deliverer, no orders, or no place to pick them up, nothing happens. Or it throws, a conflict,
  -- that no deliverer is available, or that the job is some deliverer's active one already, and the
  -- tables are as they were. Or it returns, and the batch,
  -- unclaimed before, is given to a deliverer: its row names the deliverer, who was free and is now
  -- busy with its job; its job is assigned to the deliverer, with the number of orders and one stop
  -- for each order of the batch, the first to be ready first, and every order of the batch waits for
  -- the deliverer with that job.
  pub assignment-Outcome :
      (float : FloatOps) (batch_id : ℕ) (w : World)
      → Outcome prisma batch_id
          (prisma.find_first (λ b. b.id == batch_id) w.db.batches)
          (batch_orders prisma batch_id w.db)
          w
          (assign_deliverer_to_batch prisma float batch_id w)
  assignment-Outcome = rw (Documented-reference d) call-Outcome
