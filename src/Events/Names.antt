-- ===== src/Events/Names.antt =====
-- src/common/events/events.constants.ts, and the texts of the projections: the names of the event
-- types and of the statuses, and the message of each timeline row.
use mesyaf_market.Prelude.{String, Option, none, some, List, [], ◌∷◌, str_eq, if◌then◌else◌}
use mesyaf_market.Database.Schema.{OrderStatus}

-- events.constants.ts
abbrev pub order_created : String
order_created = "order.created"

abbrev pub order_accepted : String
order_accepted = "order.accepted"

abbrev pub order_rejected : String
order_rejected = "order.rejected"

abbrev pub order_ready : String
order_ready = "order.ready"

abbrev pub order_completed : String
order_completed = "order.completed"

abbrev pub order_cancelled : String
order_cancelled = "order.cancelled"

abbrev pub order_delivery_issue : String
order_delivery_issue = "order.delivery_issue"

abbrev pub job_assigned : String
job_assigned = "job.assigned"

abbrev pub job_started : String
job_started = "job.started"

abbrev pub job_completed : String
job_completed = "job.completed"

abbrev pub job_recovered : String
job_recovered = "job.recovered"

abbrev pub job_escalated : String
job_escalated = "job.escalated"

-- The text of an `OrderStatus` value.
abbrev pub status_name : OrderStatus → String
status_name OrderStatus.pending_vendor_confirmation = "PENDING_VENDOR_CONFIRMATION"
status_name OrderStatus.vendor_accepted = "VENDOR_ACCEPTED"
status_name OrderStatus.vendor_rejected = "VENDOR_REJECTED"
status_name OrderStatus.ready_for_delivery = "READY_FOR_DELIVERY"
status_name OrderStatus.waiting_for_deliverer = "WAITING_FOR_DELIVERER"
status_name OrderStatus.in_progress = "IN_PROGRESS"
status_name OrderStatus.completed = "COMPLETED"
status_name OrderStatus.cancelled = "CANCELLED"

abbrev pub all_statuses : List OrderStatus
all_statuses =
    OrderStatus.pending_vendor_confirmation ∷ OrderStatus.vendor_accepted
    ∷ OrderStatus.vendor_rejected ∷ OrderStatus.ready_for_delivery
    ∷ OrderStatus.waiting_for_deliverer ∷ OrderStatus.in_progress ∷ OrderStatus.completed
    ∷ OrderStatus.cancelled ∷ []

unfoldable pub status_among : List OrderStatus → String → Option OrderStatus
status_among [] raw = none
status_among (s ∷ rest) raw = if str_eq (status_name s) raw then some s else status_among rest raw

-- `Object.values(OrderStatus).includes(raw) ? raw : null`
unfoldable pub parse_status : Option String → Option OrderStatus
unfolding status_among
parse_status none = none
parse_status (some raw) = status_among all_statuses raw

pub order_message : String → String
order_message t =
    if str_eq t order_created
    then "Order placed"
    else if str_eq t order_accepted
    then "Vendor accepted the order"
    else if str_eq t order_rejected
    then "Vendor rejected the order"
    else if str_eq t order_ready
    then "Order is ready for delivery"
    else if str_eq t order_completed
    then "Order delivered"
    else if str_eq t order_cancelled
    then "Order cancelled"
    else if str_eq t order_delivery_issue
    then "Delivery issue detected and escalated"
    else t

pub job_message : String → String
job_message t =
    if str_eq t job_assigned
    then "Job assigned to deliverer"
    else if str_eq t job_started
    then "Delivery started"
    else if str_eq t job_completed
    then "Delivery completed"
    else if str_eq t job_recovered
    then "Delivery assignment recovered after deliverer timeout"
    else if str_eq t job_escalated
    then "Delivery issue escalated for manual intervention"
    else t
