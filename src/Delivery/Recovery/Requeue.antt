-- ===== src/Delivery/Recovery/Requeue.antt =====
-- About requeueStuckBatches of src/common/decorators/recovery/deliverer-recovery.service.ts.
use mesyaf_market.Prelude.{
  none, ◌≡◌, ◌≤◌, refl, sym, ap, fun_ext, is_some, Option-cases, if◌then◌else◌, ℕ, ◌+◌, ltb, Bool,
  true, false, Option, some, List, [], ◌∷◌, ◌++◌, ◌&&◌, ◌⊎◌, arith, map, take, drop, length, ◌∙◌,
  inl, inr, Bool-cases, is_none,
}
use mathlib.Core.List.{append-nil, append_assoc}
use mesyaf_market.Database.Schema.{JobStatus, is_job, Batch, DelivererProfile}
use mesyaf_market.Database.World.{World, Message, ok, for_each, enqueue, assign_deliverer}
use mesyaf_market.Database.Rows.{count_rows, filter_rows, sort_rows}
use mesyaf_market.Database.Ascending.{
  IsAscending, sort-IsAscending, count-sort_rows, count-filter_rows, take-drop, take-full,
}
use mesyaf_market.Database.Prisma.{Prisma, Documented, Documented-reference, reference}
use mesyaf_market.Delivery.Assignment.{is_free}
use mesyaf_market.Delivery.Jobs.{is_stuck}
use mesyaf_market.Delivery.Recovery.{stuck_batch_min_age_ms, requeue_stuck_batches, requeue_up_to}

-- In progress and not given to anyone.
abbrev pub lacks_deliverer : JobStatus → Option ℕ → Bool
lacks_deliverer JobStatus.in_progress none = true
lacks_deliverer _ _ = false

-- A closed batch that nobody was given and that is older than a minute.
abbrev pub is_waiting : ℕ → Batch → Bool
is_waiting now b =
    if lacks_deliverer b.status b.deliverer_id then ltb (b.created_at + 60000) now else false

-- A deliverer who is on duty, with no job in hand.
abbrev pub is_idle : DelivererProfile → Bool
is_idle d = if is_some d.active_job_id then false else d.availability

lacks_deliverer_lem :
    (s : JobStatus) (d : Option ℕ)
    → lacks_deliverer s d ≡ (is_job s JobStatus.in_progress && is_none d)
lacks_deliverer_lem JobStatus.in_progress none = refl
lacks_deliverer_lem JobStatus.in_progress (some d) = refl
lacks_deliverer_lem JobStatus.pending none = refl
lacks_deliverer_lem JobStatus.pending (some d) = refl
lacks_deliverer_lem JobStatus.assigned none = refl
lacks_deliverer_lem JobStatus.assigned (some d) = refl
lacks_deliverer_lem JobStatus.completed none = refl
lacks_deliverer_lem JobStatus.completed (some d) = refl

is_waiting_lem :
    (now : ℕ) (b : Batch)
    → (is_stuck b && ltb (b.created_at + stuck_batch_min_age_ms) now) ≡ is_waiting now b
is_waiting_lem now b =
    rw (sym (lacks_deliverer_lem b.status b.deliverer_id))
      (elim (Bool-cases (lacks_deliverer b.status b.deliverer_id)) [
        | inl e ↦ rw e refl
        | inr e ↦ rw e refl
      ])

is_idle_lem : (d : DelivererProfile) → is_free d ≡ is_idle d
is_idle_lem d = elim (Option-cases d.active_job_id) [
  | inl e ↦ ground (arith, e)
  | inr (j, e) ↦ ground (arith, e)
]

enqueue_all :
    (bs : List Batch) (w : World)
    → w.queue_online ≡ true
    → for_each (λ b. enqueue (assign_deliverer b.id)) bs w ≡ (
      ok tt,
      record w {
        queued = w.queued ++ map {A = Batch} {B = Message} (λ b. assign_deliverer b.id) bs;
      },
    )
unfolding for_each enqueue
enqueue_all [] w h = rw append-nil refl
enqueue_all (b ∷ bs) w h = ground (
  arith,
  enqueue_all bs (record w { queued = w.queued ++ assign_deliverer b.id ∷ [] }) h,
  append_assoc w.queued (assign_deliverer b.id ∷ [])
      (map {A = Batch} {B = Message} (λ r. assign_deliverer r.id) bs),
)

sorted : World → List Batch
sorted w =
    sort_rows (λ b. some b.created_at)
      (filter_rows (λ b. is_stuck b && ltb (b.created_at + stuck_batch_min_age_ms) w.now)
        w.db.batches.rows)

-- The batches of one sweep: `queued` go to the queue, `left` wait for the next one.
pub record IsOneSweep (rows : List Batch) (now free : ℕ) (queued left : List Batch) : Type 0 where
  pub same_rows :
      (p : Batch → Bool)
      → count_rows p (queued ++ left) ≡ count_rows (λ b. is_waiting now b && p b) rows
  pub oldest_first : IsAscending (λ b. b.created_at) (queued ++ left)
  pub full : (length queued ≡ free) ⊎ ((left ≡ []) × (length queued ≤ free))

sorted-IsOneSweep :
    (w : World) (free : ℕ)
    → IsOneSweep w.db.batches.rows w.now free (take free (sorted w)) (drop free (sorted w))
unfolding sorted
sorted-IsOneSweep w free =
    let stuck : Batch → Bool =
      λ b. is_stuck b && ltb (b.created_at + stuck_batch_min_age_ms) w.now in
    let rows = w.db.batches.rows in
    let same : stuck ≡ is_waiting w.now = fun_ext (is_waiting_lem w.now) in
    record {
      same_rows = λ p. rw (take-drop free (sorted w)) (
          count-sort_rows p (λ b. b.created_at) (filter_rows stuck rows)
          ∙ count-filter_rows p stuck rows
          ∙ ap (λ q. count_rows (λ b. q b && p b) rows) same);
      oldest_first =
          rw (take-drop free (sorted w))
            (sort-IsAscending (λ b. b.created_at) (filter_rows stuck rows));
      full = take-full free (sorted w);
    }

requeued :
    (w : World)
    → w.queue_online ≡ true
    → (queued : List Batch) × (left : List Batch) × IsOneSweep w.db.batches.rows w.now
        (count_rows is_idle w.db.deliverers.rows)
        queued
        left
      × (requeue_stuck_batches reference w ≡ (
        ok tt,
        record w {
          queued = w.queued ++ map {A = Batch} {B = Message} (λ b. assign_deliverer b.id) queued;
        },
      ))
unfolding requeue_stuck_batches requeue_up_to sorted
requeued w h =
    let free = count_rows is_free w.db.deliverers.rows in
    let same_free : free ≡ count_rows is_idle w.db.deliverers.rows =
      ap (λ p. count_rows p w.db.deliverers.rows) (fun_ext is_idle_lem) in
    (
      take free (sorted w),
      drop free (sorted w),
      rw (sym same_free) (sorted-IsOneSweep w free),
      enqueue_all (take free (sorted w)) w h,
    )

module _ {prisma : Prisma} (d : Documented prisma) where
  -- While the queue can be reached, a sweep queues one assignment for each of some of the batches
  -- that wait, and changes nothing else. With those that are left they are all the batches that are
  -- in progress, given to nobody and older than a minute, each as often as it is there. They come
  -- before the ones that are left by age, the oldest first. They are as many as there are deliverers
  -- on duty with no job in hand, or fewer where none is left.
  pub requeues_oldest :
      (w : World)
      → w.queue_online ≡ true
      → (queued : List Batch) × (left : List Batch) × IsOneSweep w.db.batches.rows w.now
          (prisma.count is_idle w.db.deliverers)
          queued
          left
        × (requeue_stuck_batches prisma w ≡ (
          ok tt,
          record w {
            queued = w.queued ++ map {A = Batch} {B = Message} (λ b. assign_deliverer b.id) queued;
          },
        ))
  requeues_oldest = rw (Documented-reference d) requeued
