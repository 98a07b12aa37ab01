-- ===== src/Database/World.antt =====
-- What the handlers read and write: the tables, and what they send out. A handler is an action
-- of `Exec`: it returns or throws, and what it wrote before stays written.
use mesyaf_market.Prelude.{ℕ, Bool, true, false, List, [], ◌∷◌, ◌++◌, Option, none, some}
use mesyaf_market.Database.Schema.{
  Float, User, VendorProfile, Product, Category, ProductTag, ProductImage, DelivererProfile, Order,
  OrderItem, DropOff, Job, Batch, Event, OrderTimelineRow, JobTimelineRow,
}
use mesyaf_market.Database.Cache.{Entry}

-- A table, and the next value of its `autoincrement()`.
pub record Table (R : Type 0) : Type 0 where
  pub rows : List R
  pub next_id : ℕ

pub record Db : Type 0 where
  pub users : Table User
  pub vendors : Table VendorProfile
  pub products : Table Product
  pub categories : Table Category
  pub tags : Table ProductTag
  pub images : Table ProductImage
  pub deliverers : Table DelivererProfile
  pub orders : Table Order
  pub items : Table OrderItem
  pub drop_offs : Table DropOff
  pub jobs : Table Job
  pub batches : Table Batch
  pub events : Table Event
  pub order_timeline : Table OrderTimelineRow
  pub job_timeline : Table JobTimelineRow

-- A call of `emit` on a room of a gateway.
pub data Emission : Type 0 where
  order_new : (vendor_id order_id : ℕ) → Emission
  order_accepted order_rejected order_ready : (customer_id order_id : ℕ) → Emission
  delivery_assigned : (customer_id job_id deliverer_id : ℕ) → Emission
  delivery_issue : (customer_id job_id order_id : ℕ) → Emission
  job_assigned : (deliverer_id job_id batch_id total_orders : ℕ) → Emission
  delivery_started delivery_completed : (job_id : ℕ) → Emission
  location_update : (job_id : ℕ) (lat lng : Float) → Emission

-- A call of `add` on a BullMQ queue, with its delay in milliseconds.
pub data Message : Type 0 where
  close_batch_timeout : (batch_id delay : ℕ) → Message
  assign_deliverer : (batch_id : ℕ) → Message

-- `now` is the clock, which stands still while a handler runs. `queue_online` says whether the
-- calls of a queue go through, `live` what Redis holds under `location:deliverer:<id>`, `cache`
-- the rest of what it holds.
pub record World : Type 0 where
  pub db : Db
  pub now : ℕ
  pub queue_online : Bool
  pub queued : List Message
  pub sent : List Emission
  pub live : ℕ → Option (Float × Float)
  pub cache : List Entry

-- The exceptions: NestJS's HTTP exceptions, Prisma's P2025 and P2002, a failed queue call, a plain `Error`,
-- and `NoDelivererAvailableError`.
pub data Error : Type 0 where
  not_found forbidden conflict bad_request unauthorized : Error
  record_missing unique_violation foreign_key_violation queue_down plain : Error
  no_deliverer_available : (batch_id : ℕ) → Error

pub data Result (A : Type 0) : Type 0 where
  ok : A → Result A
  err : Error → Result A

abbrev pub Exec : Type 0 → Type 0
Exec A = World → Result A × World

module _ {A : Type 0} where
  abbrev pub pure : A → Exec A
  pure a w = (ok a, w)

  abbrev pub throw : Error → Exec A
  throw e w = (err e, w)

  abbrev pub gets : (World → A) → Exec A
  gets f w = (ok (f w), w)

  -- `if (!x) throw e`
  abbrev pub or_throw : Option A → Error → Exec A
  or_throw none e = throw e
  or_throw (some a) e = pure a

module _ {A B : Type 0} where
  abbrev pub continue : Result A → (A → Exec B) → Exec B
  continue (ok a) f w = f a w
  continue (err e) f w = (err e, w)

  infixl 5 ◌>>=◌ ◌>>◌
  abbrev pub ◌>>=◌ : Exec A → (A → Exec B) → Exec B
  ◌>>=◌ m f w = continue (m w).0 f (m w).1

  abbrev pub ◌>>◌ : Exec A → Exec B → Exec B
  m >> k = m >>= λ _. k

-- `if (b) throw e`
abbrev pub throw_if : Bool → Error → Exec (Unit {0})
throw_if true e = throw e
throw_if false e = pure tt

abbrev pub modify : (World → World) → Exec (Unit {0})
modify f w = (ok tt, f w)

abbrev pub on_db : (Db → Db) → World → World
on_db f w = record w { db = f w.db }

-- `try { m } catch (error) { this.logger… }`
abbrev pub swallow : Exec (Unit {0}) → Exec (Unit {0})
swallow m w = (ok tt, (m w).1)

-- `this.server.to(room).emit(…)`
abbrev pub emit : Emission → Exec (Unit {0})
emit e w = (ok tt, record w { sent = w.sent ++ e ∷ [] })

enqueue_if : Bool → Message → Exec (Unit {0})
enqueue_if true m w = (ok tt, record w { queued = w.queued ++ m ∷ [] })
enqueue_if false m w = (err queue_down, w)

-- `await queue.add(…)`
unfoldable pub enqueue : Message → Exec (Unit {0})
unfolding enqueue_if
enqueue m w = enqueue_if w.queue_online m w

-- `for (const x of xs) await f(x)`
unfoldable pub for_each : {A : Type 0} → (A → Exec (Unit {0})) → List A → Exec (Unit {0})
for_each f [] w = (ok tt, w)
for_each f (x ∷ xs) w = continue (f x w).0 (λ _. for_each f xs) (f x w).1
