-- ===== src/Events/Laws.antt =====
-- About the event log and its projections (src/common/events, src/common/timeline): the timeline
-- of the orders is what the log says.
use mesyaf_market.Prelude.{
  ◌≡◌, ◌↔◌, refl, ap, ℕ, suc, ◌<◌, String, some, none, List, [], ◌∷◌, ◌++◌, map, All, Bool, true,
  false, arith, ◌==◌, if◌then◌else◌, str_eq, eq_iff, Bool-cases, inl, inr,
}
use mathlib.Core.List.{append-nil}
use mesyaf_market.Database.Schema.{
  OrderStatus, EventEntityType, Event, Payload, OrderTimelineRow, is_entity,
}
use mesyaf_market.Database.World.{World}
use mesyaf_market.Database.Rows.{find_row, filter_rows, find-append}
use mesyaf_market.Database.Prisma.{Prisma, Documented, Documented-reference, reference}
use mesyaf_market.Events.Names.{parse_status, status_name, status_among, all_statuses}
use mesyaf_market.Events.{project_order, record_event, order_row}
use mesyaf_market.Events.Record.{record_event_lem, new_event, logged, on_order_timeline}

status_name-status_among :
    (ss : List OrderStatus) (raw : String) (s : OrderStatus)
    → status_among ss raw ≡ some s
    → status_name s ≡ raw
unfolding status_among
status_name-status_among [] raw s h = ground arith
status_name-status_among (x ∷ ss) raw s h = elim (Bool-cases (str_eq (status_name x) raw)) [
  | inl e ↦ ground (arith, (eq_iff (status_name x) raw).0)
  | inr e ↦ status_name-status_among ss raw s (cc)
]

status_name-parse_status :
    (raw : String) (s : OrderStatus) → parse_status (some raw) ≡ some s → status_name s ≡ raw
unfolding parse_status
status_name-parse_status raw s h = status_name-status_among all_statuses raw s h

parse_status-status_name : (s : OrderStatus) → parse_status (some (status_name s)) ≡ some s
unfolding parse_status
parse_status-status_name OrderStatus.cancelled = refl
parse_status-status_name _ = refl

-- A status is read back from the text of a payload exactly if the text is the status's name.
parse_status_iff :
    (raw : String) (s : OrderStatus) → (parse_status (some raw) ≡ some s) ↔ (status_name s ≡ raw)
parse_status_iff raw s =
    (status_name-parse_status raw s, λ e. rw (← e) (parse_status-status_name s))

project_twice :
    (e : Event) (w : World)
    → project_order reference e (project_order reference e w).1 ≡ project_order reference e w
unfolding project_order order_row
project_twice e w = ground (
  arith,
  find-append (λ r. r.source_event_id == e.id) w.db.order_timeline.rows
      (order_row e w.db.order_timeline.next_id),
)

-- A timeline without the ids that its table gave, and the timeline that a log asks for.
abbrev pub contents : List OrderTimelineRow → List OrderTimelineRow
contents rows = map {A = OrderTimelineRow} {B = OrderTimelineRow} (λ r. record r { id = 0 }) rows

abbrev pub is_of_order : Event → Bool
is_of_order e = is_entity e.entity_type EventEntityType.order

abbrev pub timeline_of : List Event → List OrderTimelineRow
timeline_of es = map (λ e. order_row e 0) (filter_rows is_of_order es)

-- The timeline of the orders holds what the log says, and no row of an event yet to come.
pub record IsProjected (w : World) : Type 0 where
  pub past : All (λ r. r.source_event_id < w.db.events.next_id) w.db.order_timeline.rows
  pub rows : contents w.db.order_timeline.rows ≡ timeline_of w.db.events.rows

none_yet :
    (n : ℕ) (rows : List OrderTimelineRow)
    → All (λ r. r.source_event_id < n) rows
    → find_row (λ r. r.source_event_id == n) rows ≡ none
unfolding find_row
none_yet n [] h = refl
none_yet n (r ∷ rows) h = ground (arith, none_yet n rows h.1)

All-weaken :
    (n : ℕ) (rows : List OrderTimelineRow)
    → All (λ r. r.source_event_id < n) rows
    → All (λ r. r.source_event_id < suc n) rows
All-weaken n [] h = tt
All-weaken n (r ∷ rows) h = (omega arith, All-weaken n rows h.1)

All-snoc :
    (n : ℕ) (rows : List OrderTimelineRow) (r : OrderTimelineRow)
    → All (λ s. s.source_event_id < n) rows
    → r.source_event_id < n
    → All (λ s. s.source_event_id < n) (rows ++ r ∷ [])
All-snoc n [] r h k = (k, tt)
All-snoc n (s ∷ rows) r h k = (h.0, All-snoc n rows r h.1 k)

-- The row that a new event adds.
added_row :
    (e : Event) (w : World)
    → is_of_order e ≡ true
    → e.id ≡ w.db.events.next_id
    → IsProjected w
    → (on_order_timeline e w.db.order_timeline).rows
      ≡ w.db.order_timeline.rows ++ order_row e w.db.order_timeline.next_id ∷ []
unfolding on_order_timeline
added_row e w o i h = ground (arith, none_yet w.db.events.next_id w.db.order_timeline.rows h.past)

no_row :
    (e : Event) (w : World)
    → is_of_order e ≡ false
    → (on_order_timeline e w.db.order_timeline).rows ≡ w.db.order_timeline.rows
unfolding on_order_timeline
no_row e w o = rw o refl

timeline_of-snoc :
    (es : List Event) (e : Event)
    → timeline_of (es ++ e ∷ [])
      ≡ timeline_of es ++ (if is_of_order e then order_row e 0 ∷ [] else [])
unfolding filter_rows
timeline_of-snoc [] e = ground arith
timeline_of-snoc (x ∷ es) e = ground (arith, timeline_of-snoc es e)

contents-snoc :
    (rows : List OrderTimelineRow) (e : Event) (id : ℕ)
    → contents (rows ++ order_row e id ∷ []) ≡ contents rows ++ order_row e 0 ∷ []
unfolding order_row
contents-snoc [] e id = refl
contents-snoc (r ∷ rows) e id = ap (λ l. (record r { id = 0 }) ∷ l) (contents-snoc rows e id)

logged-rows :
    (e : Event) (w : World)
    → e.id ≡ w.db.events.next_id
    → IsProjected w
    → contents (on_order_timeline e w.db.order_timeline).rows
      ≡ timeline_of (w.db.events.rows ++ e ∷ [])
logged-rows e w i h = elim (Bool-cases (is_of_order e)) [
  | inl o ↦
      rw
        (
          added_row e w o i h,
          timeline_of-snoc w.db.events.rows e,
          o,
          contents-snoc w.db.order_timeline.rows e w.db.order_timeline.next_id,
        )
        (ap (λ l. l ++ order_row e 0 ∷ []) h.rows)
  | inr o ↦ rw (no_row e w o, timeline_of-snoc w.db.events.rows e, o, append-nil) h.rows
]

logged-past :
    (e : Event) (w : World)
    → e.id ≡ w.db.events.next_id
    → IsProjected w
    → All
        (λ r. r.source_event_id < suc w.db.events.next_id)
        (on_order_timeline e w.db.order_timeline).rows
unfolding order_row
logged-past e w i h = elim (Bool-cases (is_of_order e)) [
  | inl o ↦ rw (added_row e w o i h) (
      All-snoc (suc w.db.events.next_id) w.db.order_timeline.rows
        (order_row e w.db.order_timeline.next_id)
        (All-weaken w.db.events.next_id w.db.order_timeline.rows h.past) (omega arith))
  | inr o ↦ rw (no_row e w o) (All-weaken w.db.events.next_id w.db.order_timeline.rows h.past)
]

logged-IsProjected :
    (e : Event) (w : World) → e.id ≡ w.db.events.next_id → IsProjected w → IsProjected (logged e w)
logged-IsProjected e w i h = record { past = logged-past e w i h; rows = logged-rows e w i h }

record_event_keeps_reference :
    (entity_type : EventEntityType) (entity_id : ℕ) (event_type : String) (payload : Payload)
    (w : World)
    → IsProjected w
    → IsProjected (record_event reference entity_type entity_id event_type payload w).1
record_event_keeps_reference entity_type entity_id event_type payload w h =
    rw (record_event_lem entity_type entity_id event_type payload w)
      (logged-IsProjected (new_event entity_type entity_id event_type payload w) w refl h)

module _ {prisma : Prisma} (d : Documented prisma) where
  -- Recording an event keeps the timeline of the orders equal, row for row and up to the rows'
  -- own ids, to what the log asks for: a projection of each of its order events, in their order.
  pub record_event_keeps_timeline :
      (entity_type : EventEntityType) (entity_id : ℕ) (event_type : String) (payload : Payload)
      (w : World)
      → IsProjected w
      → IsProjected (record_event prisma entity_type entity_id event_type payload w).1
  record_event_keeps_timeline = rw (Documented-reference d) record_event_keeps_reference

  -- To project an event a second time changes nothing: the result and the world are those of the
  -- first time.
  project_order_idempotent :
      (e : Event) (w : World)
      → project_order prisma e (project_order prisma e w).1 ≡ project_order prisma e w
  project_order_idempotent = rw (Documented-reference d) project_twice
