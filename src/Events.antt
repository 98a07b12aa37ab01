-- ===== src/Events.antt =====
-- src/common/events and src/common/timeline: the event log, and the projection of each event to
-- the timeline of its order or job, which is idempotent in the event's id.
mod Names
pub mod Record
pub mod Laws
mod Examples
pub use Names.{
  order_created, order_accepted, order_rejected, order_ready, order_completed, order_delivery_issue,
  job_assigned, job_started, job_completed, job_recovered, job_escalated, status_name,
}
unfoldable pub use Names.{parse_status}
use Names.{order_message, job_message}
use mesyaf_market.Prelude.{
  ℕ, String, Bool, Option, none, some, List, [], ◌∷◌, ◌&&◌, ◌||◌, str_eq, is_some, is_none,
  is_value, ltb, ◌==◌, if◌then◌else◌, ◌≡◌, refl, any,
}
use mesyaf_market.Database.Schema.{
  Role, OrderStatus, EventEntityType, Payload, Event, OrderTimelineRow, JobTimelineRow, is_entity,
  is_role,
}
use mesyaf_market.Database.World.{
  Exec, pure, throw, throw_if, or_throw, gets, ◌>>=◌, ◌>>◌, not_found, forbidden,
}
use mesyaf_market.Database.Prisma.{
  Prisma, events, order_timeline, job_timeline, orders, jobs, find_first, find_many, create,
  create_missing,
}

unfoldable pub order_row : Event → ℕ → OrderTimelineRow
order_row e id = record {
  id = id;
  order_id = e.entity_id;
  source_event_id = e.id;
  event_type = e.event_type;
  status = parse_status e.payload.status;
  message = order_message e.event_type;
  payload = e.payload;
  occurred_at = e.created_at;
}

unfoldable pub job_row : Event → ℕ → JobTimelineRow
job_row e id = record {
  id = id;
  job_id = e.entity_id;
  source_event_id = e.id;
  event_type = e.event_type;
  message = job_message e.event_type;
  payload = e.payload;
  occurred_at = e.created_at;
}

-- The JSON object with no key.
abbrev pub no_keys : Payload
no_keys = record {
  order_id = none;
  job_id = none;
  status = none;
  reason = none;
  current_status = none;
}

module _ (prisma : Prisma) where
  -- OrderTimelineProjectionService.project
  unfoldable pub project_order : Event → Exec (Unit {0})
  unfolding order_row
  project_order e =
      if is_entity e.entity_type EventEntityType.order
      then create_missing prisma order_timeline (λ r. r.source_event_id == e.id) (order_row e)
        >> pure tt
      else pure tt

  -- JobTimelineProjectionService.project
  unfoldable pub project_job : Event → Exec (Unit {0})
  unfolding job_row
  project_job e =
      if is_entity e.entity_type EventEntityType.job
      then create_missing prisma job_timeline (λ r. r.source_event_id == e.id) (job_row e)
        >> pure tt
      else pure tt

  abbrev project : Event → Exec (Unit {0})
  project e = elim e.entity_type [
    | EventEntityType.order ↦ project_order e
    | EventEntityType.job ↦ project_job e
  ]

  -- EventLogService.recordEvent
  unfoldable pub record_event : EventEntityType → ℕ → String → Payload → Exec Event
  unfolding project_order project_job
  record_event entity_type entity_id event_type payload = do
    now ← gets (λ w. w.now)
    event ← create prisma events (λ id. record {
      id = id;
      entity_type = entity_type;
      entity_id = entity_id;
      event_type = event_type;
      payload = payload;
      created_at = now;
    })
    project event
    pure event

  -- EventLogService.getEventsSince
  unfoldable pub get_events_since : EventEntityType → List ℕ → ℕ → Exec (List Event)
  unfolding any
  get_events_since entity_type entity_ids since = do
    found ← find_many prisma events (λ e.
        is_entity e.entity_type entity_type
        && any (λ id. id == e.entity_id) entity_ids
        && ltb since e.created_at)
    pure (prisma.order_by (λ e. some e.created_at) found)
