-- ===== src/Delivery/Recovery/Sweep.antt =====
-- About src/common/decorators/recovery/deliverer-recovery.service.ts: what the sweep does with the
-- jobs of deliverers who went away.
use mesyaf_market.Prelude.{
  none, ◌≡◌, ◌<◌, refl, ℕ, ltb, Bool, true, some, List, ◌&&◌, ◌==◌, arith, Option-cases, inl, inr,
  str_eq,
}
use mesyaf_market.Database.Schema.{is_job, JobStatus, Order, Job, Event, EventEntityType, is_entity}
use mesyaf_market.Database.World.{record_missing, err, World, ok}
use mesyaf_market.Database.Rows.{
  find_row, count_rows, count-append, find_row-none, find_row_holds, count_rows_pos,
}
use mesyaf_market.Database.Rules.{for_each_keeps}
use mesyaf_market.Database.Prisma.{settle, Prisma, Documented, Documented-reference, reference}
use mesyaf_market.Delivery.Geo.{FloatOps}
use mesyaf_market.Events.{job_escalated, order_delivery_issue}
use mesyaf_market.Events.Record.{record_event_lem, new_event, logged}
use mesyaf_market.Delivery.Recovery.{
  release_job, recover_unstarted_job, escalate_started_job, is_escalated, report_issue, reason,
  issue,
}

-- An escalation of the job after a time.
abbrev is_escalation : ℕ → ℕ → Event → Bool
is_escalation job_id since e =
    is_entity e.entity_type EventEntityType.job
    && e.entity_id == job_id
    && str_eq e.event_type job_escalated
    && ltb since e.created_at

abbrev escalations : ℕ → ℕ → World → ℕ
escalations job_id since w = count_rows (is_escalation job_id since) w.db.events.rows

logged_keeps :
    (job_id since : ℕ) (e : Event) (w : World)
    → ¬ (escalations job_id since w ≡ 0)
    → ¬ (escalations job_id since (logged e w) ≡ 0)
logged_keeps job_id since e w h z =
    h (ground (arith, count-append (is_escalation job_id since) w.db.events.rows e))

logged_escalation :
    (job_id since : ℕ) (e : Event) (w : World)
    → is_escalation job_id since e ≡ true
    → ¬ (escalations job_id since (logged e w) ≡ 0)
logged_escalation job_id since e w h z =
    ground (arith, count-append (is_escalation job_id since) w.db.events.rows e)

report_keeps :
    (job_id since : ℕ) (job : Job) (o : Order) (w : World)
    → ¬ (escalations job_id since w ≡ 0)
    → ¬ (escalations job_id since (report_issue reference job o w).1 ≡ 0)
unfolding report_issue
report_keeps job_id since job o w h =
    rw (record_event_lem EventEntityType.order o.id order_delivery_issue (issue o job) w)
      (logged_keeps job_id since _ w h)

escalated_now :
    (since : ℕ) (job : Job) (os : List Order) (w : World)
    → since < w.now
    → ¬ (escalations job.id since (escalate_started_job reference (some since) job os w).1 ≡ 0)
unfolding escalate_started_job is_escalated
escalated_now since job os w later =
    elim (Option-cases (find_row (is_escalation job.id since) w.db.events.rows)) [
      | inl f ↦
          let text = reason "DELIVERER_OFFLINE_DURING_DELIVERY" in
          let e = new_event EventEntityType.job job.id job_escalated text w in
          rw (f, record_event_lem EventEntityType.job job.id job_escalated text w)
            (for_each_keeps (λ v. ¬ (escalations job.id since v ≡ 0)) (report_issue reference job)
              (report_keeps job.id since job) os (logged e w)
              (logged_escalation job.id since e w (ground arith)))
      | inr (e, f) ↦ rw f (
          count_rows_pos (is_escalation job.id since) (is_escalation job.id since) w.db.events.rows
            e f (find_row_holds (is_escalation job.id since) w.db.events.rows e f))
    ]

escalated_already :
    (since : ℕ) (job : Job) (os : List Order) (w : World)
    → ¬ (escalations job.id since w ≡ 0)
    → escalate_started_job reference (some since) job os w ≡ (ok tt, w)
unfolding escalate_started_job is_escalated
escalated_already since job os w h =
    elim (Option-cases (find_row (is_escalation job.id since) w.db.events.rows)) [
      | inl f ↦ absurd (h (find_row-none (is_escalation job.id since) w.db.events.rows f))
      | inr (e, f) ↦ ground arith
    ]

escalate_twice :
    (since : ℕ) (job : Job) (os : List Order) (w : World)
    → since < w.now
    → let w' = (escalate_started_job reference (some since) job os w).1 in
      escalate_started_job reference (some since) job os w' ≡ (ok tt, w')
escalate_twice since job os w later =
    escalated_already since job os (escalate_started_job reference (some since) job os w).1
      (escalated_now since job os w later)

release_fails :
    (deliverer_id : ℕ) (job : Job) (w : World)
    → find_row (λ j. j.id == job.id && is_job j.status JobStatus.assigned) w.db.jobs.rows ≡ none
    → settle w (release_job reference deliverer_id job w) ≡ (err record_missing, w)
unfolding release_job
release_fails deliverer_id job w h =
    elim (Option-cases (find_row (λ d. d.id == deliverer_id) w.db.deliverers.rows)) [
      | inl f ↦ ground arith
      | inr (d, f) ↦ ground arith
    ]

recovery_fails :
    (float : FloatOps) (deliverer_id : ℕ) (job : Job) (w : World)
    → find_row (λ j. j.id == job.id && is_job j.status JobStatus.assigned) w.db.jobs.rows ≡ none
    → recover_unstarted_job reference float deliverer_id job w ≡ (err record_missing, w)
unfolding recover_unstarted_job
recovery_fails float deliverer_id job w h = rw (release_fails deliverer_id job w h) refl

module _ {prisma : Prisma} (d : Documented prisma) where
  -- A job is escalated once while its deliverer stays away: after an escalation, whether or not all
  -- of it went through, a further one for the same last sign of the deliverer does nothing, where
  -- that sign lies in the past.
  pub escalated_once :
      (since : ℕ) (job : Job) (os : List Order) (w : World)
      → since < w.now
      → let w' = (escalate_started_job prisma (some since) job os w).1 in
        escalate_started_job prisma (some since) job os w' ≡ (ok tt, w')
  escalated_once = rw (Documented-reference d) escalate_twice

  -- A job that is no longer assigned when the sweep comes to recover it, for it was started or
  -- released since the sweep read it, is left with its deliverer: the recovery throws and changes
  -- nothing.
  started_job_is_kept :
      (float : FloatOps) (deliverer_id : ℕ) (job : Job) (w : World)
      → prisma.find_first (λ j. j.id == job.id && is_job j.status JobStatus.assigned) w.db.jobs
        ≡ none
      → recover_unstarted_job prisma float deliverer_id job w ≡ (err record_missing, w)
  started_job_is_kept = rw (Documented-reference d) recovery_fails
