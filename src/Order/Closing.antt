-- ===== src/Order/Closing.antt =====
-- src/order/order.service.ts: what closes a batch and hands it to the assignment queue.
pub mod Once
pub mod Expired
mod Examples
use mesyaf_market.Prelude.{ℕ, String, str_eq, ◌+◌, ◌*◌, Bool, ◌&&◌, ◌==◌, ltb, if◌then◌else◌}
use mesyaf_market.Database.Schema.{JobStatus, is_job}
use mesyaf_market.Database.World.{
  Exec, pure, gets, swallow, enqueue, for_each, ◌>>=◌, ◌>>◌, close_batch_timeout, assign_deliverer,
}
use mesyaf_market.Database.Prisma.{Prisma, batches, find_many, update_many}
use mesyaf_market.Order.Batching.{CityRules, Settings, city_rules}

-- { batchId, created, close }
pub record BatchOutcome : Type 0 where
  pub batch_id : ℕ
  pub created : Bool
  pub close : Bool

module _ (prisma : Prisma) where
  -- OrderService.closeBatch
  unfoldable pub close_batch : ℕ → Exec (Unit {0})
  close_batch batch_id = do
    closed ←
        update_many prisma batches (λ b. b.id == batch_id && is_job b.status JobStatus.pending)
          (λ b. record b { status = JobStatus.in_progress })
    if closed == 0 then pure tt else enqueue (assign_deliverer batch_id)

  -- OrderService.scheduleBatchTimeout
  unfoldable pub schedule_batch_timeout : CityRules → ℕ → Exec (Unit {0})
  schedule_batch_timeout rules batch_id =
      enqueue (close_batch_timeout batch_id (rules.window_min * 60 * 1000))

  -- OrderService.afterBatching
  unfoldable pub after_batching : CityRules → BatchOutcome → Exec (Unit {0})
  unfolding close_batch schedule_batch_timeout
  after_batching rules outcome = do
    if outcome.created then schedule_batch_timeout rules outcome.batch_id else pure tt
    if outcome.close then close_batch outcome.batch_id else pure tt

  -- OrderService.forceCloseBatchFromTimeout
  abbrev pub force_close_batch_from_timeout : ℕ → Exec (Unit {0})
  force_close_batch_from_timeout = close_batch

  -- BatchTimeoutProcessor.process
  unfoldable pub process_timeout : String → ℕ → Exec (Unit {0})
  unfolding close_batch
  process_timeout job_name batch_id =
      if str_eq job_name "close-batch-timeout"
      then force_close_batch_from_timeout batch_id
      else pure tt

  -- OrderService.closeExpiredBatches
  unfoldable pub close_expired_batches : Settings → Exec (Unit {0})
  unfolding close_batch
  close_expired_batches s = do
    now ← gets (λ w. w.now)
    expired ← find_many prisma batches (λ b.
        is_job b.status JobStatus.pending
        && ltb (b.created_at + ((city_rules s).window_min + 1) * 60 * 1000) now)
    for_each (λ b. swallow (close_batch b.id)) expired
