-- ===== src/Session/Examples.antt =====
-- Examples for the handshakes.
use mesyaf_market.Prelude.{any, leb, true, ◌⊎◌, ◌==◌, arith, ◌≡◌, refl, some, none, ◌∷◌, []}
use mesyaf_market.Database.Schema.{JobStatus, Role, EventEntityType}
use mesyaf_market.Database.World.{World, ok}
use mesyaf_market.Database.Rows.{find_row, filter_rows, sort_rows, update_rows}
use mesyaf_market.Database.Prisma.{reference, reference-Documented}
use mesyaf_market.Events.{get_events_since, job_assigned, no_keys}
use mesyaf_market.Delivery.Jobs.{get_deliverer_by_user_id}
use mesyaf_market.Session.Presence.{mark_online}
use mesyaf_market.Session.Replay.{
  replay_for_customer, replay_for_deliverer, replay_job, events_of_orders,
}
use mesyaf_market.Session.Reconnect.{
  CustomerContext, DelivererContext, get_customer_context, get_deliverer_context,
}
use mesyaf_market.Session.Connection.{Greeting, Token, connect_customer, connect_deliverer}
use mesyaf_market.Session.Laws.{customer_misses_events, deliverer_gets_events}
use mesyaf_market.Session.Messages.{
  IsShared, position_reaches_own_job, unfinished_handshake_starts_job,
}
use mesyaf_market.Session.Handlers.{Client, job_started, handle_start_job, handle_location_update}
use mesyaf_market.Delivery.Jobs.Start.{started}
use mesyaf_market.Delivery.Location.{Numbers, number}
use mesyaf_market.Sample.{
  assigned_job, table, placed, with_job, running_job, busy_deliverer, deliverer_user,
}

abbrev log_of : EventEntityType → World → World
log_of entity w = record w {
  db = record w.db {
    events = table (
        record {
          id = 1;
          entity_type = entity;
          entity_id = 1;
          event_type = job_assigned;
          payload = no_keys;
          created_at = 500;
        }
        ∷ []);
  };
}

-- A customer who was last seen at 400, and an event of the own order at 500.
abbrev missing : World
missing = log_of EventEntityType.order placed

abbrev customer_token : Token
customer_token = record { sub = 1; role = Role.customer }

abbrev unheard : Greeting CustomerContext
unheard = record { context = record { snapshot_at = 1000000; contents = none }; missed = [] }

let_in : (connect_customer reference customer_token missing).0 ≡ ok (some unheard)
unfolding connect_customer mark_online get_customer_context replay_for_customer events_of_orders
    get_events_since find_row filter_rows sort_rows update_rows any
let_in = refl

customer_misses_events_example : unheard.missed ≡ []
customer_misses_events_example =
    customer_misses_events reference-Documented customer_token missing unheard (omega arith, tt)
      let_in

-- A deliverer with job 1, who was last seen at 400, and an event of the job at 500.
abbrev away : World
away = log_of EventEntityType.job (with_job running_job)

abbrev deliverer_token : Token
deliverer_token = record { sub = 3; role = Role.deliverer }

abbrev heard : Greeting DelivererContext
heard = record {
  context = record {
    snapshot_at = 1000000;
    contents = some (record {
      job_id = 1;
      status = JobStatus.in_progress;
      assigned_at = 200;
      total_orders = some 1;
      stops = record { id = 1; status = JobStatus.pending; lat = some 7; lng = some 8 } ∷ [];
    });
  };
  missed = away.db.events.rows;
}

back : (connect_deliverer reference deliverer_token away).0 ≡ ok (some heard)
unfolding connect_deliverer mark_online get_deliverer_by_user_id get_deliverer_context
    replay_for_deliverer replay_job get_events_since find_row filter_rows sort_rows update_rows any
back = refl

the_deliverer : reference.find_first (λ r. r.user_id == 3) away.db.deliverers ≡ some busy_deliverer
unfolding find_row
the_deliverer = refl

same_deliverer : reference.find_first (λ r. r.id == 1) away.db.deliverers ≡ some busy_deliverer
unfolding find_row
same_deliverer = refl

the_user : reference.find_first (λ r. r.id == 3) away.db.users ≡ some deliverer_user
unfolding find_row
the_user = refl

deliverer_gets_events_example :
    (get_events_since reference EventEntityType.job (1 ∷ []) 400 away).0 ≡ ok heard.missed
deliverer_gets_events_example =
    deliverer_gets_events reference-Documented deliverer_token away heard busy_deliverer
      deliverer_user 0 400 the_deliverer same_deliverer refl the_user refl back

abbrev client : Client
client = record { user_id = some 3; deliverer_id = some 1; customer_id = none; joined = [] }

abbrev numbers : Numbers
numbers = record { is_finite = λ a. true; abs_le = λ a b. leb a b }

position_reaches_own_job_example :
    ((handle_location_update reference numbers client
        (some 1)
        (number 7)
        (number 8)
        (with_job running_job)).1.sent
      ≡ [])
    ⊎ IsShared reference
        (some 1)
        client
        7
        8
        (with_job running_job)
        (handle_location_update reference numbers client
          (some 1)
          (number 7)
          (number 8)
          (with_job running_job)).1
position_reaches_own_job_example =
    position_reaches_own_job reference-Documented numbers client (some 1) 7 8 (with_job running_job)

abbrev early_client : Client
early_client = record { user_id = none; deliverer_id = none; customer_id = none; joined = [] }

assigned : reference.find_first (λ r. r.id == 1) (with_job assigned_job).db.jobs ≡ some assigned_job
unfolding find_row
assigned = refl

unfinished_handshake_starts_job_example :
    ((handle_start_job reference early_client 1 (with_job assigned_job)).0
      ≡ ok (job_started 1 ∷ []))
    × (reference.find_first
          (λ r. r.id == 1)
          (handle_start_job reference early_client 1 (with_job assigned_job)).1.db.jobs
        ≡ some (started assigned_job 1000000))
unfinished_handshake_starts_job_example =
    unfinished_handshake_starts_job reference-Documented early_client 1 (with_job assigned_job)
      assigned_job refl assigned refl
