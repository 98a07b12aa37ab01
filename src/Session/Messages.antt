-- ===== src/Session/Messages.antt =====
-- About the messages of the gateways: src/deliverer/deliverer.gateway.ts and
-- src/users/customer.gateway.ts.
use mesyaf_market.Prelude.{
  ℕ, ◌≡◌, ◌⊎◌, refl, ap, true, ◌&&◌, Option, none, some, List, [], ◌∷◌, ◌++◌, arith, ◌==◌, is_value,
  inl, inr, Option-cases, Bool-cases,
}
use mesyaf_market.Database.Schema.{Float, Job, JobStatus, is_job}
use mesyaf_market.Database.World.{
  World, Emission, Error, Exec, emit, pure, ◌>>◌, ok, location_update,
}
use mesyaf_market.Database.Rows.{find_row, find_row_holds}
use mesyaf_market.Database.Prisma.{
  Prisma, Documented, reference, reference-Documented, Documented-reference,
}
use mesyaf_market.Delivery.Jobs.{is_startable, start_job, validate_live_tracking}
use mesyaf_market.Delivery.Jobs.Start.{started, start_job_done}
use mesyaf_market.Delivery.Location.{Numbers, number, is_valid, update_location}
use mesyaf_market.Session.Handlers.{
  Client, Reply, job_started, job_error, given_id, handle_start_job, handle_location_update, track,
  or_reply, reply_to,
}

-- The deliverer of the client, the job of the message and its row: the deliverer holds the job, it
-- is under way, and the position is sent to the room of the job.
unfoldable pub IsShared : Prisma → Option ℕ → Client → Float → Float → World → World → Type 0
IsShared prisma job_id client lat lng w w' =
    (d : ℕ) × (k : ℕ) × (j : Job) × (given_id client.deliverer_id ≡ some d)
    × (given_id job_id ≡ some k)
    × (prisma.find_first (λ r. r.id == k) w.db.jobs ≡ some j)
    × (j.deliverer_id ≡ some d)
    × (j.status ≡ JobStatus.in_progress)
    × (w'.sent ≡ w.sent ++ location_update k lat lng ∷ [])

is_value-true : (o : Option ℕ) (k : ℕ) → is_value o k ≡ true → o ≡ some k
is_value-true none k h = cc
is_value-true (some j) k h = ground arith

is_job-in_progress :
    (s : JobStatus) → is_job s JobStatus.in_progress ≡ true → s ≡ JobStatus.in_progress
is_job-in_progress s h = ground arith

IsShared-or_silent :
    (n : Numbers) (client : Client) (job_id : Option ℕ) (lat lng : Float) (w : World)
    → ((handle_location_update reference n client job_id (number lat) (number lng) w).1.sent
        ≡ w.sent)
      ⊎ IsShared reference job_id client lat lng w
          (handle_location_update reference n client job_id (number lat) (number lng) w).1
unfolding handle_location_update track validate_live_tracking IsShared update_location
IsShared-or_silent n client job_id lat lng w = elim (Option-cases (given_id client.deliverer_id)) [
  | inl a ↦ inl (ground arith)
  | inr (d, a) ↦ elim (Bool-cases (is_valid n (number lat) (number lng))) [
    | inr b ↦ inl (ground arith)
    | inl b ↦ elim (Option-cases (given_id job_id)) [
      | inl c ↦ inl (ground arith)
      | inr (k, c) ↦ elim (Option-cases (find_row (λ r. r.id == k) w.db.jobs.rows)) [
        | inl f ↦ inl (ground arith)
        | inr (j, f) ↦
            elim (Bool-cases (is_value j.deliverer_id d && is_job j.status JobStatus.in_progress)) [
              | inr e ↦ inl (ground arith)
              | inl e ↦ inr (
                d,
                k,
                j,
                a,
                c,
                f,
                is_value-true j.deliverer_id d (ground arith),
                is_job-in_progress j.status (ground arith),
                ground arith,
              )
            ]
      ]
    ]
  ]
]

-- A handler whose work returns sends its message and replies.
replied :
    (m : Exec (Unit {0})) (e : Emission) (rs : List Reply) (f : Error → Reply) (w : World)
    → (m w).0 ≡ ok tt
    → or_reply (m >> (emit e >> pure rs)) f w
      ≡ (ok rs, record (m w).1 { sent = (m w).1.sent ++ e ∷ [] })
replied m e rs f w h =
    let inner : (m >> (emit e >> pure rs)) w
        ≡ (ok rs, record (m w).1 { sent = (m w).1.sent ++ e ∷ [] }) =
      rw h refl in
    ap (reply_to f) inner

started_unfinished :
    (client : Client) (job_id : ℕ) (w : World) (j : Job)
    → client.deliverer_id ≡ none
    → find_row (λ r. r.id == job_id) w.db.jobs.rows ≡ some j
    → j.status ≡ JobStatus.assigned
    → ((handle_start_job reference client job_id w).0 ≡ ok (job_started job_id ∷ []))
      × (find_row (λ r. r.id == job_id) (handle_start_job reference client job_id w).1.db.jobs.rows
          ≡ some (started j w.now))
unfolding handle_start_job
started_unfinished client job_id w j u f s =
    let may : is_startable job_id none j ≡ true =
      ground (arith, find_row_holds (λ r. r.id == job_id) w.db.jobs.rows j f) in
    let (done, row, orders, events) = start_job_done reference-Documented job_id none w j f may in
    rw u (
      rw
        (replied (start_job reference job_id none) (Emission.delivery_started job_id)
          (job_started job_id ∷ []) job_error w done)
        (refl, row))

module _ {prisma : Prisma} (d : Documented prisma) where
  -- A position that a deliverer sends is told to nobody, or the deliverer holds the job of the
  -- message, the job is under way, and exactly its room is told the position.
  pub position_reaches_own_job :
      (n : Numbers) (client : Client) (job_id : Option ℕ) (lat lng : Float) (w : World)
      → ((handle_location_update prisma n client job_id (number lat) (number lng) w).1.sent
          ≡ w.sent)
        ⊎ IsShared prisma job_id client lat lng w
            (handle_location_update prisma n client job_id (number lat) (number lng) w).1
  position_reaches_own_job = rw (Documented-reference d) IsShared-or_silent

  -- A client whose handshake has not set the deliverer's id starts every assigned job, whoever
  -- holds it: the reply says that it started, and it is in progress.
  pub unfinished_handshake_starts_job :
      (client : Client) (job_id : ℕ) (w : World) (j : Job)
      → client.deliverer_id ≡ none
      → prisma.find_first (λ r. r.id == job_id) w.db.jobs ≡ some j
      → j.status ≡ JobStatus.assigned
      → ((handle_start_job prisma client job_id w).0 ≡ ok (job_started job_id ∷ []))
        × (prisma.find_first
              (λ r. r.id == job_id)
              (handle_start_job prisma client job_id w).1.db.jobs
            ≡ some (started j w.now))
  unfinished_handshake_starts_job = rw (Documented-reference d) started_unfinished
