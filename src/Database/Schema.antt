-- ===== src/Database/Schema.antt =====
-- prisma/schema.prisma: the rows of each table. A `Float` column or value is its bit pattern, a
-- `DateTime` the milliseconds since the epoch. Columns that no code reads or writes are left out.
use mesyaf_market.Prelude.{ℤ, ℕ, String, Bool, Option, List, true, false, ◌==◌}

abbrev pub Float : Type 0
Float = ℕ

pub data Role : Type 0 where
  admin vendor deliverer customer : Role

pub data Condition : Type 0 where
  new used : Condition

pub data OrderType : Type 0 where
  food grocery vegetable empty : OrderType

pub data OrderStatus : Type 0 where
  pending_vendor_confirmation vendor_accepted vendor_rejected ready_for_delivery : OrderStatus
  waiting_for_deliverer in_progress completed cancelled : OrderStatus

pub data JobStatus : Type 0 where
  pending assigned in_progress completed : JobStatus

pub data EventEntityType : Type 0 where
  order job : EventEntityType

pub record User : Type 0 where
  pub id : ℕ
  pub name : String
  pub email : String
  pub password : String
  pub role : Role
  pub last_seen_at : Option ℕ
  pub is_online : Bool
  pub profile_image : Option String
  pub phone_number : Option String
  pub address : Option String
  pub created_at : ℕ

pub record VendorProfile : Type 0 where
  pub id : ℕ
  pub user_id : ℕ
  pub shop_name : String
  pub cover_image : Option String
  pub description : Option String
  pub address : Option String
  pub latitude : Option Float
  pub longitude : Option Float
  pub is_verified : Bool
  pub is_active : Bool
  pub demotion_reason : Option String
  pub suspended_at : Option ℕ
  pub reactivated_at : Option ℕ
  pub created_at : ℕ

-- `tags` is the relation `ProductTags`, by the ids of the tags.
pub record Product : Type 0 where
  pub id : ℕ
  pub vendor_id : ℕ
  pub category_id : ℕ
  pub name : String
  pub description : Option String
  pub price : Float
  pub discount_price : Option Float
  pub stock_quantity : ℕ
  pub condition : Condition
  pub is_available : Bool
  pub tags : List ℕ
  pub created_at : ℕ

pub record Category : Type 0 where
  pub id : ℕ
  pub name : String

pub record ProductTag : Type 0 where
  pub id : ℕ
  pub name : String

pub record ProductImage : Type 0 where
  pub id : ℕ
  pub product_id : ℕ
  pub url : String
  pub alt_text : Option String

pub record DelivererProfile : Type 0 where
  pub id : ℕ
  pub user_id : ℕ
  pub current_lat : Option Float
  pub current_lng : Option Float
  pub availability : Bool
  pub max_concurrent_orders : ℕ
  pub max_stops : ℕ
  pub accepts_batching : Bool
  pub active_job_id : Option ℕ

pub record Order : Type 0 where
  pub id : ℕ
  pub vendor_id : ℕ
  pub customer_id : ℕ
  pub status : OrderStatus
  pub order_type : OrderType
  pub estimated_prep_time : Option ℤ
  pub ready_at : Option ℕ
  pub delivered_at : Option ℕ
  pub created_at : ℕ
  pub delivery_fee : Option ℤ
  pub deliverer_id : Option ℕ
  pub delivery_job_id : Option ℕ
  pub delivery_batch_id : Option ℕ
  pub vendor_lat : Option Float
  pub vendor_lng : Option Float
  pub customer_address : Option String
  pub customer_lat : Option Float
  pub customer_lng : Option Float

pub record OrderItem : Type 0 where
  pub id : ℕ
  pub order_id : ℕ
  pub product_id : ℕ
  pub quantity : ℤ
  pub price : Float

pub record DropOff : Type 0 where
  pub id : ℕ
  pub job_id : ℕ
  pub order_id : ℕ
  pub sequence : ℕ
  pub status : JobStatus
  pub dropoff_lat : Option Float
  pub dropoff_lng : Option Float
  pub completed_at : Option ℕ

pub record Job : Type 0 where
  pub id : ℕ
  pub deliverer_id : Option ℕ
  pub batch_id : ℕ
  pub status : JobStatus
  pub assigned_at : ℕ
  pub started_at : Option ℕ
  pub completed_at : Option ℕ
  pub total_orders : Option ℕ

pub record Batch : Type 0 where
  pub id : ℕ
  pub deliverer_id : Option ℕ
  pub status : JobStatus
  pub created_at : ℕ

-- The JSON of an event, with every key that some event has. `status` is the text of the key.
pub record Payload : Type 0 where
  pub order_id : Option ℕ
  pub job_id : Option ℕ
  pub status : Option String
  pub reason : Option String
  pub current_status : Option String

pub record Event : Type 0 where
  pub id : ℕ
  pub entity_type : EventEntityType
  pub entity_id : ℕ
  pub event_type : String
  pub payload : Payload
  pub created_at : ℕ

pub record OrderTimelineRow : Type 0 where
  pub id : ℕ
  pub order_id : ℕ
  pub source_event_id : ℕ
  pub event_type : String
  pub status : Option OrderStatus
  pub message : String
  pub payload : Payload
  pub occurred_at : ℕ

pub record JobTimelineRow : Type 0 where
  pub id : ℕ
  pub job_id : ℕ
  pub source_event_id : ℕ
  pub event_type : String
  pub message : String
  pub payload : Payload
  pub occurred_at : ℕ

-- `===` on the enumerations, by the positions of the constructors.
abbrev pub role_code : Role → ℕ
role_code Role.admin = 0
role_code Role.vendor = 1
role_code Role.deliverer = 2
role_code Role.customer = 3

abbrev pub order_code : OrderStatus → ℕ
order_code OrderStatus.pending_vendor_confirmation = 0
order_code OrderStatus.vendor_accepted = 1
order_code OrderStatus.vendor_rejected = 2
order_code OrderStatus.ready_for_delivery = 3
order_code OrderStatus.waiting_for_deliverer = 4
order_code OrderStatus.in_progress = 5
order_code OrderStatus.completed = 6
order_code OrderStatus.cancelled = 7

abbrev pub job_code : JobStatus → ℕ
job_code JobStatus.pending = 0
job_code JobStatus.assigned = 1
job_code JobStatus.in_progress = 2
job_code JobStatus.completed = 3

abbrev pub is_role : Role → Role → Bool
is_role a b = role_code a == role_code b

abbrev pub is_order : OrderStatus → OrderStatus → Bool
is_order a b = order_code a == order_code b

abbrev pub is_job : JobStatus → JobStatus → Bool
is_job a b = job_code a == job_code b

abbrev pub is_food : OrderType → Bool
is_food OrderType.food = true
is_food _ = false

abbrev pub is_entity : EventEntityType → EventEntityType → Bool
is_entity EventEntityType.order EventEntityType.order = true
is_entity EventEntityType.job EventEntityType.job = true
is_entity _ _ = false
