-- ===== src/Order/Closing/Once.antt =====
-- About closeBatch of src/order/order.service.ts.
use mesyaf_market.Prelude.{
  ◌≡◌, ◌+◌, refl, sym, ℕ, Bool, true, false, not, arith, ◌==◌, ◌&&◌, ◌||◌, ◌++◌, List, ◌∷◌, [],
  if◌then◌else◌, inl, inr, Bool-cases,
}
use mathlib.Core.List.{append-nil}
use mesyaf_market.Database.Schema.{JobStatus, Batch, is_job}
use mesyaf_market.Database.World.{
  World, Result, Message, ok, err, queue_down, enqueue, assign_deliverer,
}
use mesyaf_market.Database.Rows.{count_rows, update_rows, count-update_rows_self, update_rows_none}
use mesyaf_market.Database.Prisma.{Prisma, Documented, Documented-reference, reference}
use mesyaf_market.Order.Closing.{close_batch}

abbrev pub is_pending : ℕ → Batch → Bool
is_pending batch_id b = b.id == batch_id && is_job b.status JobStatus.pending

abbrev pub handed_over : Batch → Batch
handed_over b = record b { status = JobStatus.in_progress }

none_pending :
    (batch_id : ℕ) (w : World)
    → count_rows (is_pending batch_id) (close_batch reference batch_id w).1.db.batches.rows ≡ 0
unfolding close_batch enqueue
none_pending batch_id w = ground (
  arith,
  count-update_rows_self (is_pending batch_id) handed_over (λ b. ground arith) w.db.batches.rows,
)

not_pending :
    (batch_id : ℕ) (w : World)
    → count_rows (is_pending batch_id) w.db.batches.rows ≡ 0
    → close_batch reference batch_id w ≡ (ok tt, w)
unfolding close_batch enqueue
not_pending batch_id w h =
    ground (arith, update_rows_none (is_pending batch_id) handed_over w.db.batches.rows h)

close_twice :
    (batch_id : ℕ) (w : World)
    → close_batch reference batch_id (close_batch reference batch_id w).1
      ≡ (ok tt, (close_batch reference batch_id w).1)
close_twice batch_id w =
    not_pending batch_id (close_batch reference batch_id w).1 (none_pending batch_id w)

abbrev pub is_closed : ℕ → Batch → Bool
is_closed batch_id b = b.id == batch_id && is_job b.status JobStatus.in_progress

closes_rows :
    (batch_id : ℕ) (rs : List Batch)
    → count_rows (is_closed batch_id) (update_rows (is_pending batch_id) handed_over rs)
      ≡ count_rows (is_closed batch_id) rs + count_rows (is_pending batch_id) rs
unfolding count_rows update_rows
closes_rows batch_id [] = refl
closes_rows batch_id (b ∷ bs) = elim (Bool-cases (is_pending batch_id b)) [
  | inl e ↦
      let open_before : is_closed batch_id b ≡ false = ground arith in
      let closed_after : is_closed batch_id (handed_over b) ≡ true = ground arith in
      rw (e, open_before, closed_after) (omega (arith, closes_rows batch_id bs))
  | inr e ↦ rw e (elim (Bool-cases (is_closed batch_id b)) [
    | inl f ↦ rw f (omega (arith, closes_rows batch_id bs))
    | inr f ↦ rw f (omega (arith, closes_rows batch_id bs))
  ])
]

-- What the first call answers, and what it adds to the queue.
abbrev pub first_answer : ℕ → Bool → Result (Unit {0})
first_answer pending online = if pending == 0 || online then ok tt else err queue_down

abbrev pub first_queued : ℕ → ℕ → Bool → List Message
first_queued batch_id pending online =
    if not (pending == 0) && online then assign_deliverer batch_id ∷ [] else []

first_call :
    (batch_id : ℕ) (w : World)
    → let pending = count_rows (is_pending batch_id) w.db.batches.rows in
      ((close_batch reference batch_id w).0 ≡ first_answer pending w.queue_online)
      × ((close_batch reference batch_id w).1.queued
          ≡ w.queued ++ first_queued batch_id pending w.queue_online)
unfolding close_batch enqueue
first_call batch_id w =
    elim (Bool-cases (count_rows (is_pending batch_id) w.db.batches.rows == 0)) [
      | inl e ↦ rw e (refl, sym (append-nil w.queued))
      | inr e ↦ elim (Bool-cases w.queue_online) [
        | inl f ↦ rw (e, f) (refl, refl)
        | inr f ↦ rw (e, f) (refl, sym (append-nil w.queued))
      ]
    ]

closed_rows :
    (batch_id : ℕ) (w : World)
    → (close_batch reference batch_id w).1.db.batches.rows
      ≡ update_rows (is_pending batch_id) handed_over w.db.batches.rows
unfolding close_batch enqueue
closed_rows batch_id w = ground arith

module _ {prisma : Prisma} (d : Documented prisma) where
  -- However often a batch is closed, by its size, its timer or the sweep, one call at most queues
  -- an assignment. The first call puts what is pending of the batch in progress, and if there was
  -- something pending it queues one assignment, or fails and queues none where the queue cannot be
  -- reached. Another call right after succeeds, queues nothing and changes nothing, also where the
  -- first one failed.
  pub close_batch_once :
      (batch_id : ℕ) (w : World)
      → let pending = prisma.count (is_pending batch_id) w.db.batches in
        let w' = (close_batch prisma batch_id w).1 in
        ((close_batch prisma batch_id w).0 ≡ first_answer pending w.queue_online)
        × (w'.queued ≡ w.queued ++ first_queued batch_id pending w.queue_online)
        × (prisma.count (is_pending batch_id) w'.db.batches ≡ 0)
        × (prisma.count (is_closed batch_id) w'.db.batches
            ≡ prisma.count (is_closed batch_id) w.db.batches + pending)
        × (close_batch prisma batch_id w' ≡ (ok tt, w'))
  close_batch_once = rw (Documented-reference d) λ batch_id w.
      (let (answer, queue) = first_call batch_id w in
        (
          answer,
          queue,
          none_pending batch_id w,
          rw (closed_rows batch_id w) (closes_rows batch_id w.db.batches.rows),
          close_twice batch_id w,
        ))
