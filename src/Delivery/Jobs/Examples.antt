-- ===== src/Delivery/Jobs/Examples.antt =====
-- Examples for the jobs of a deliverer.
use mesyaf_market.Prelude.{◌≡◌, ◌≤◌, arith, refl, true, some, All, ◌++◌, ◌∷◌, [], ◌==◌}
use mesyaf_market.Database.World.{ok, err, forbidden}
use mesyaf_market.Database.Rows.{find_row, count_rows, update_rows}
use mesyaf_market.Database.Prisma.{reference, reference-Documented}
use mesyaf_market.Events.{record_event, project_order, project_job, order_row, job_row}
use mesyaf_market.Delivery.Jobs.{
  complete_drop_off, complete_stop, claim_stop, finish_if_last, finish_job, record_completion,
  after_job_completed, start_job,
}
use mesyaf_market.Delivery.Jobs.Start.{
  refusal, start_job_refused, start_job_done, started, start_event, IsUnderWay,
}
use mesyaf_market.Delivery.Jobs.Stops.{drop_off_completes, Completed}
use mesyaf_market.Sample.{with_job, running_job, assigned_job}

delivered : (complete_drop_off reference 1 1 1 (with_job running_job)).0 ≡ ok true
unfolding complete_drop_off complete_stop claim_stop finish_if_last finish_job record_completion
    after_job_completed record_event project_order project_job order_row job_row find_row count_rows
    update_rows
delivered = refl

drop_off_completes_example :
    Completed reference 1 1 1 true
      (with_job running_job)
      (complete_drop_off reference 1 1 1 (with_job running_job)).1
drop_off_completes_example =
    drop_off_completes reference-Documented 1 1 1 (with_job running_job) true delivered

one_job : reference.count (λ j. j.id == 1) (with_job assigned_job).db.jobs ≤ 1
unfolding count_rows
one_job = omega arith

not_his :
    refusal (reference.find_first (λ j. j.id == 1) (with_job assigned_job).db.jobs) 2
    ≡ some forbidden
unfolding find_row
not_his = refl

-- The job is assigned to deliverer 1.
start_job_refused_example :
    start_job reference 1 (some 2) (with_job assigned_job) ≡ (err forbidden, with_job assigned_job)
start_job_refused_example =
    start_job_refused reference-Documented 1 2 (with_job assigned_job) forbidden one_job not_his

found_assigned :
    reference.find_first (λ j. j.id == 1) (with_job assigned_job).db.jobs ≡ some assigned_job
unfolding find_row
found_assigned = refl

start_job_done_example :
    let w = with_job assigned_job in
    let w' = (start_job reference 1 (some 1) w).1 in
    ((start_job reference 1 (some 1) w).0 ≡ ok tt)
    × (reference.find_first (λ r. r.id == 1) w'.db.jobs ≡ some (started assigned_job w.now))
    × All (IsUnderWay 1) w'.db.orders.rows
    × (w'.db.events.rows ≡ w.db.events.rows ++ start_event 1 w ∷ [])
start_job_done_example =
    start_job_done reference-Documented 1 (some 1) (with_job assigned_job) assigned_job
      found_assigned refl
