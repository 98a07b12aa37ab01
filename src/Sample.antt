-- ===== src/Sample.antt =====
-- Rows and worlds at which the examples run the handlers. They model no code.
use mesyaf_market.Prelude.{true, false, none, some, List, [], ◌∷◌, ltb, ◌+◌, ◌-◌, ◌*◌}
use mesyaf_market.Database.Schema.{
  User, Role, VendorProfile, DelivererProfile, Order, OrderStatus, OrderType, Job, JobStatus, Batch,
  DropOff,
}
use mesyaf_market.Database.World.{World, Db, Table}
use mesyaf_market.Delivery.Geo.{FloatOps}
use mesyaf_market.Order.Batching.{Settings}
use mesyaf_market.Access.{AuthenticatedUser}

abbrev pub table : {R : Type 0} → List R → Table R
table rows = record { rows = rows; next_id = 10 }

abbrev pub customer : User
customer = record {
  id = 1;
  name = "Omar";
  email = "omar@market.test";
  password = "hash";
  role = Role.customer;
  last_seen_at = some 400;
  is_online = false;
  profile_image = none;
  phone_number = none;
  address = none;
  created_at = 1;
}

abbrev pub vendor_user : User
vendor_user = record customer {
  id = 2;
  name = "Sara";
  email = "sara@market.test";
  role = Role.vendor;
}

abbrev pub deliverer_user : User
deliverer_user = record customer {
  id = 3;
  name = "Ali";
  email = "ali@market.test";
  role = Role.deliverer;
}

abbrev pub shop : VendorProfile
shop = record {
  id = 1;
  user_id = 2;
  shop_name = "Bakery";
  cover_image = none;
  description = none;
  address = none;
  latitude = some 5;
  longitude = some 6;
  is_verified = true;
  is_active = true;
  demotion_reason = none;
  suspended_at = none;
  reactivated_at = none;
  created_at = 1;
}

abbrev pub free_deliverer : DelivererProfile
free_deliverer = record {
  id = 1;
  user_id = 3;
  current_lat = some 7;
  current_lng = some 8;
  availability = true;
  max_concurrent_orders = 1;
  max_stops = 4;
  accepts_batching = true;
  active_job_id = none;
}

abbrev pub placed_order : Order
placed_order = record {
  id = 1;
  vendor_id = 1;
  customer_id = 1;
  status = OrderStatus.pending_vendor_confirmation;
  order_type = OrderType.grocery;
  estimated_prep_time = none;
  ready_at = none;
  delivered_at = none;
  created_at = 100;
  delivery_fee = none;
  deliverer_id = none;
  delivery_job_id = none;
  delivery_batch_id = none;
  vendor_lat = some 5;
  vendor_lng = some 6;
  customer_address = none;
  customer_lat = some 7;
  customer_lng = some 8;
}

abbrev pub empty_db : Db
empty_db = record {
  users = table [];
  vendors = table [];
  products = table [];
  categories = table [];
  tags = table [];
  images = table [];
  deliverers = table [];
  orders = table [];
  items = table [];
  drop_offs = table [];
  jobs = table [];
  batches = table [];
  events = table [];
  order_timeline = table [];
  job_timeline = table [];
}

abbrev pub empty_world : World
empty_world = record {
  db = empty_db;
  now = 1000000;
  queue_online = true;
  queued = [];
  sent = [];
  live = λ id. none;
  cache = [];
}

-- An order that waits for its vendor.
abbrev pub placed : World
placed = record empty_world {
  db = record empty_db {
    users = table (customer ∷ vendor_user ∷ deliverer_user ∷ []);
    vendors = table (shop ∷ []);
    deliverers = table (free_deliverer ∷ []);
    orders = table (placed_order ∷ []);
  };
}

abbrev pub pending_batch : Batch
pending_batch = record { id = 1; deliverer_id = none; status = JobStatus.pending; created_at = 100 }

-- The order in a batch that still collects orders.
abbrev pub collecting : World
collecting = record placed {
  db = record placed.db {
    batches = table (pending_batch ∷ []);
    orders = table (
        record placed_order { status = OrderStatus.ready_for_delivery; delivery_batch_id = some 1 }
        ∷ []);
  };
}

-- The batch closed, with no deliverer.
abbrev pub closed : World
closed = record collecting {
  db = record collecting.db {
    batches = table (record pending_batch { status = JobStatus.in_progress } ∷ []);
  };
}

abbrev pub assigned_job : Job
assigned_job = record {
  id = 1;
  deliverer_id = some 1;
  batch_id = 1;
  status = JobStatus.assigned;
  assigned_at = 200;
  started_at = none;
  completed_at = none;
  total_orders = some 1;
}

abbrev pub running_job : Job
running_job = record assigned_job { status = JobStatus.in_progress; started_at = some 300 }

abbrev pub busy_deliverer : DelivererProfile
busy_deliverer = record free_deliverer { availability = false; active_job_id = some 1 }

abbrev pub stop : DropOff
stop = record {
  id = 1;
  job_id = 1;
  order_id = 1;
  sequence = 0;
  status = JobStatus.pending;
  dropoff_lat = some 7;
  dropoff_lng = some 8;
  completed_at = none;
}

-- A deliverer with a job: assigned, or under way.
abbrev pub with_job : Job → World
with_job j = record placed {
  db = record placed.db {
    deliverers = table (busy_deliverer ∷ []);
    jobs = table (j ∷ []);
    drop_offs = table (stop ∷ []);
    batches =
        table (record pending_batch { deliverer_id = some 1; status = JobStatus.in_progress } ∷ []);
    orders = table (
        record placed_order {
          status = OrderStatus.waiting_for_deliverer;
          delivery_batch_id = some 1;
          delivery_job_id = some 1;
          deliverer_id = some 1;
        }
        ∷ []);
  };
}

abbrev pub settings : Settings
settings = record { city_type = "MEDIUM"; allow_multi_vendor = false }

-- Whole numbers in place of floating-point ones.
abbrev pub whole : FloatOps
whole = record {
  of_ℕ = λ n. n;
  plus = λ a b. a + b;
  minus = λ a b. a - b;
  times = λ a b. a * b;
  over = λ a b. a;
  pow = λ a b. a * a;
  sin = λ a. a;
  cos = λ a. a;
  asin = λ a. a;
  sqrt = λ a. a;
  pi = 3;
  infinity = 1000000000000000;
  lt = λ a b. ltb a b;
}

abbrev pub signed_in : Role → AuthenticatedUser
signed_in role = record { id = 1; email = "omar@market.test"; role = role; deliverer_id = none }
