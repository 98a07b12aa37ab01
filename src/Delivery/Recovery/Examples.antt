-- ===== src/Delivery/Recovery/Examples.antt =====
-- Examples for the sweeps over deliverers and batches.
use mesyaf_market.Prelude.{◌≡◌, refl, some, ◌∷◌, [], ◌++◌, List, map, arith}
use mesyaf_market.Database.Schema.{Batch}
use mesyaf_market.Database.World.{Message, ok, assign_deliverer}
use mesyaf_market.Database.Prisma.{reference, reference-Documented}
use mesyaf_market.Delivery.Recovery.{escalate_started_job, requeue_stuck_batches}
use mesyaf_market.Delivery.Recovery.Sweep.{escalated_once}
use mesyaf_market.Delivery.Recovery.Requeue.{is_idle, IsOneSweep, requeues_oldest}
use mesyaf_market.Sample.{closed, with_job, running_job, placed_order}

escalated_once_example :
    let w' =
      (escalate_started_job reference
        (some 400)
        running_job
        (placed_order ∷ [])
        (with_job running_job)).1 in
    escalate_started_job reference (some 400) running_job (placed_order ∷ []) w' ≡ (ok tt, w')
escalated_once_example =
    escalated_once reference-Documented 400 running_job (placed_order ∷ []) (with_job running_job)
      (omega arith)

requeues_oldest_example :
    (queued : List Batch) × (left : List Batch) × IsOneSweep closed.db.batches.rows closed.now
      (reference.count is_idle closed.db.deliverers)
      queued
      left
    × (requeue_stuck_batches reference closed ≡ (
      ok tt,
      record closed {
        queued = closed.queued ++ map {A = Batch} {B = Message} (λ b. assign_deliverer b.id) queued;
      },
    ))
requeues_oldest_example = requeues_oldest reference-Documented closed refl
