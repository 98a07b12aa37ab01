-- ===== src/Order/Closing/Examples.antt =====
-- Examples for closing a batch.

use mesyaf_market.Prelude.{◌≡◌, ◌+◌, ◌++◌, true}
use mesyaf_market.Database.World.{ok}
use mesyaf_market.Database.Rows.{count_rows}
use mesyaf_market.Database.Prisma.{reference, reference-Documented}
use mesyaf_market.Order.Closing.{close_batch, close_expired_batches}
use mesyaf_market.Order.Closing.Once.{
  is_pending, is_closed, first_answer, first_queued, close_batch_once,
}
use mesyaf_market.Order.Closing.Expired.{is_expired, sweep_closes_expired}
use mesyaf_market.Sample.{collecting, settings}

close_batch_once_example :
    let w' = (close_batch reference 1 collecting).1 in
    ((close_batch reference 1 collecting).0 ≡ first_answer 1 true)
    × (w'.queued ≡ collecting.queued ++ first_queued 1 1 true)
    × (reference.count (is_pending 1) w'.db.batches ≡ 0)
    × (reference.count (is_closed 1) w'.db.batches
        ≡ reference.count (is_closed 1) collecting.db.batches + 1)
    × (close_batch reference 1 w' ≡ (ok tt, w'))
unfolding count_rows
close_batch_once_example = close_batch_once reference-Documented 1 collecting

sweep_closes_expired_example :
    reference.count
      (is_expired settings 1000000)
      (close_expired_batches reference settings collecting).1.db.batches
    ≡ 0
sweep_closes_expired_example = sweep_closes_expired reference-Documented settings collecting
