-- ===== src/Delivery/Jobs/Last.antt =====
-- About the end of completeDropOff in src/deliverer/deliverer-job.service.ts: what its last stop sets
-- off, in the transaction and after it.
use mesyaf_market.Prelude.{
  ◌≡◌, ◌↔◌, ◌⊎◌, inl, inr, refl, ℕ, Bool, true, false, some, arith, ◌==◌, Option-cases, Bool-cases,
  if◌then◌else◌,
}
use mesyaf_market.Database.Schema.{Float, Job, JobStatus, DropOff}
use mesyaf_market.Database.World.{World, Db, Table, ok, enqueue, pure, ◌>>=◌}
use mesyaf_market.Database.Rules.{bind_ok}
use mesyaf_market.Database.Rows.{find_row, update_rows, count_rows, All-update_rows}
use mesyaf_market.Database.Prisma.{reference}
use mesyaf_market.Delivery.Location.{flush_to_db}
use mesyaf_market.Delivery.Jobs.{finish_job, finish_if_last, after_job_completed, is_open_stop}
use mesyaf_market.Delivery.Jobs.Finish.{
  IsFinished, done_job, finish_job-done, finish_job-IsFinished, finish_job_lem,
}

drop_offs-finish_job :
    (job_id deliverer_id batch_id : ℕ) (w : World)
    → (finish_job reference job_id deliverer_id batch_id w).0 ≡ ok tt
    → (finish_job reference job_id deliverer_id batch_id w).1.db.drop_offs ≡ w.db.drop_offs
drop_offs-finish_job job_id deliverer_id batch_id w h =
    rw (finish_job_lem job_id deliverer_id batch_id w h) refl

finish_last :
    (job_id deliverer_id : ℕ) (job : Job) (w : World)
    → (count_rows (is_open_stop job_id) w.db.drop_offs.rows == 0) ≡ true
    → finish_if_last reference job_id deliverer_id job w
      ≡ (finish_job reference job_id deliverer_id job.batch_id >>= λ _. pure true) w
unfolding finish_if_last
finish_last job_id deliverer_id job w last = rw last refl

not_last :
    (job_id deliverer_id : ℕ) (job : Job) (w : World)
    → (count_rows (is_open_stop job_id) w.db.drop_offs.rows == 0) ≡ false
    → finish_if_last reference job_id deliverer_id job w ≡ (ok false, w)
unfolding finish_if_last
not_last job_id deliverer_id job w more = rw more refl

-- What the last part of the transaction promises of its answer and its tables.
pub record LastStop (job_id deliverer_id : ℕ) (job : Job) (now : ℕ) (b : Bool) (t : Table DropOff)
    (db : Db) : Type 0 where
  pub answer : (b ≡ true) ↔ (count_rows (is_open_stop job_id) db.drop_offs.rows ≡ 0)
  pub stops : db.drop_offs ≡ t
  pub over : b ≡ true → IsFinished job_id deliverer_id job.batch_id db
  pub done : b ≡ true → find_row (λ r. r.id == job_id) db.jobs.rows ≡ some (done_job job now)

pub last_stop :
    (job_id deliverer_id : ℕ) (job : Job) (w : World) (b : Bool)
    → find_row (λ r. r.id == job_id) w.db.jobs.rows ≡ some job
    → job.status ≡ JobStatus.in_progress
    → (finish_if_last reference job_id deliverer_id job w).0 ≡ ok b
    → LastStop job_id deliverer_id job w.now b w.db.drop_offs
        (finish_if_last reference job_id deliverer_id job w).1.db
last_stop job_id deliverer_id job w b found running h =
    elim (Bool-cases (count_rows (is_open_stop job_id) w.db.drop_offs.rows == 0)) [
      | inl last ↦
          let e = finish_last job_id deliverer_id job w last in
          let h' : ((finish_job reference job_id deliverer_id job.batch_id >>= λ _. pure true) w).0
              ≡ ok b =
            rw e at h in
          let (u, done, r, e') =
            bind_ok (finish_job reference job_id deliverer_id job.batch_id) (λ _. pure true) w b
              h' in
          let same = drop_offs-finish_job job_id deliverer_id job.batch_id w done in
          rw (e, e')
            (record {
              answer = ((λ _. rw same (ground arith)), (λ _. ground arith));
              stops = same;
              over = λ _. finish_job-IsFinished job_id deliverer_id job.batch_id w done;
              done = λ _. finish_job-done job_id deliverer_id job.batch_id w job done found running;
            })
      | inr more ↦
          let e = not_last job_id deliverer_id job w more in
          rw e (record {
            answer = ((λ t. ground (arith, h, e)), (λ z. absurd (ground arith)));
            stops = refl;
            over = λ t. let h' : ok false ≡ ok b = rw e at h in absurd cc;
            done = λ t. let h' : ok false ≡ ok b = rw e at h in absurd cc;
          })
    ]

located : ℕ → Float → Float → World → Db
located id lat lng w = record w.db {
  deliverers = record w.db.deliverers {
    rows =
        update_rows (λ r. r.id == id)
          (λ r. record r { current_lat = some lat; current_lng = some lng }) w.db.deliverers.rows;
  };
}

-- The work after a commit writes a position at most.
after_writes :
    (id : ℕ) (w : World)
    → ((after_job_completed reference id w).1.db ≡ w.db)
      ⊎ ((lat : Float) × (lng : Float) × ((after_job_completed reference id w).1.db
            ≡ located id lat lng w))
unfolding after_job_completed flush_to_db enqueue located
after_writes id w = elim (Option-cases (w.live id)) [
  | inl e ↦ inl (ground arith)
  | inr ((lat, lng), e) ↦ elim (Option-cases (find_row (λ r. r.id == id) w.db.deliverers.rows)) [
    | inl f ↦ inl (ground arith)
    | inr (r, f) ↦ inr (lat, lng, ground arith)
  ]
]

LastStop-located :
    (id : ℕ) (lat lng : Float) (job_id deliverer_id : ℕ) (job : Job) (now : ℕ) (b : Bool)
    (t : Table DropOff) (w : World)
    → LastStop job_id deliverer_id job now b t w.db
    → LastStop job_id deliverer_id job now b t (located id lat lng w)
unfolding located
LastStop-located id lat lng job_id deliverer_id job now b t w h = record {
  answer = h.answer;
  stops = h.stops;
  over = λ y. record {
    jobs = (h.over y).jobs;
    batch = (h.over y).batch;
    free = All-update_rows _ _ _ _ (λ r p _. p) (λ r p _. p) w.db.deliverers.rows (h.over y).free;
    orders = (h.over y).orders;
  };
  done = h.done;
}

after-LastStop :
    (id job_id deliverer_id : ℕ) (job : Job) (now : ℕ) (b : Bool) (t : Table DropOff) (w : World)
    → LastStop job_id deliverer_id job now b t w.db
    → LastStop job_id deliverer_id job now b t (after_job_completed reference id w).1.db
after-LastStop id job_id deliverer_id job now b t w h = elim (after_writes id w) [
  | inl e ↦ rw e h
  | inr (lat, lng, e) ↦ rw e (LastStop-located id lat lng job_id deliverer_id job now b t w h)
]

pub after_if-LastStop :
    (go : Bool) (id job_id deliverer_id : ℕ) (job : Job) (now : ℕ) {b : Bool} (t : Table DropOff)
    (w : World)
    → LastStop job_id deliverer_id job now b t w.db
    → LastStop job_id deliverer_id job now b t
        (if go then (after_job_completed reference id w).1 else w).db
after_if-LastStop true id job_id deliverer_id job now {b} t w h =
    after-LastStop id job_id deliverer_id job now b t w h
after_if-LastStop false id job_id deliverer_id job now t w h = h
