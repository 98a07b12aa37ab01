-- ===== src/Events/Record.antt =====
-- What EventLogService.recordEvent does to the tables, in one equation.
use mesyaf_market.Prelude.{◌≡◌, ℕ, String, arith, some, none, ◌==◌, if◌then◌else◌}
use mesyaf_market.Database.Schema.{
  EventEntityType, Payload, Event, OrderTimelineRow, JobTimelineRow, is_entity,
}
use mesyaf_market.Database.World.{World, Table, ok}
use mesyaf_market.Database.Rows.{find_row, find-append}
use mesyaf_market.Database.Prisma.{reference, inserted, insert_missing}
use mesyaf_market.Events.{record_event, order_row, job_row}

abbrev pub new_event : EventEntityType → ℕ → String → Payload → World → Event
new_event entity_type entity_id event_type payload w = record {
  id = w.db.events.next_id;
  entity_type = entity_type;
  entity_id = entity_id;
  event_type = event_type;
  payload = payload;
  created_at = w.now;
}

unfoldable pub on_order_timeline : Event → Table OrderTimelineRow → Table OrderTimelineRow
on_order_timeline e t =
    if is_entity e.entity_type EventEntityType.order
    then (insert_missing (find_row (λ r. r.source_event_id == e.id) t.rows) (order_row e) t).1
    else t

pub on_job_timeline : Event → Table JobTimelineRow → Table JobTimelineRow
on_job_timeline e t =
    if is_entity e.entity_type EventEntityType.job
    then (insert_missing (find_row (λ r. r.source_event_id == e.id) t.rows) (job_row e) t).1
    else t

-- The world with the event in the log and in its timeline.
abbrev pub logged : Event → World → World
logged e w = record w {
  db = record w.db {
    events = inserted (λ _. e) w.db.events;
    order_timeline = on_order_timeline e w.db.order_timeline;
    job_timeline = on_job_timeline e w.db.job_timeline;
  };
}

pub record_event_lem :
    (entity_type : EventEntityType) (entity_id : ℕ) (event_type : String) (payload : Payload)
    (w : World)
    → record_event reference entity_type entity_id event_type payload w ≡ (
      ok (new_event entity_type entity_id event_type payload w),
      logged (new_event entity_type entity_id event_type payload w) w,
    )
unfolding record_event on_order_timeline on_job_timeline
record_event_lem EventEntityType.order entity_id event_type payload w = ground arith
record_event_lem EventEntityType.job entity_id event_type payload w = ground arith

-- A new event of an order has its row in the timeline.
pub found_on_timeline :
    (e : Event) (t : Table OrderTimelineRow)
    → e.entity_type ≡ EventEntityType.order
    → find_row (λ r. r.source_event_id == e.id) t.rows ≡ none
    → find_row (λ r. r.source_event_id == e.id) (on_order_timeline e t).rows
      ≡ some (order_row e t.next_id)
unfolding on_order_timeline order_row
found_on_timeline e t o fresh =
    ground (arith, find-append (λ r. r.source_event_id == e.id) t.rows (order_row e t.next_id))
