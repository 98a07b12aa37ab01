-- ===== src/Http/Untouched.antt =====
-- The operations that leave the users and the vendors' profiles alone.
use mesyaf_market.Prelude.{refl, ℕ, Bool, List, [], ◌∷◌, String}
use mesyaf_market.Database.Schema.{
  EventEntityType, Event, Payload, Order, OrderType, Batch, User, VendorProfile,
}
use mesyaf_market.Database.World.{Db, Table, Exec}
use mesyaf_market.Database.Prisma.{Prisma, Model, Documented, items, products}
use mesyaf_market.Database.Keeps.{
  Keeps, keeps, Keeps-if, Keeps-then, Keeps-transaction, Keeps-create, Keeps-create_missing,
  Keeps-update, Keeps-update_many, Keeps-delete_many, Keeps-delete,
}
use mesyaf_market.Events.{record_event, project_order, project_job}
use mesyaf_market.Order.Create.{
  ItemDto, OrderDto, refer_to, create_items, place_order, create_order,
}
use mesyaf_market.Order.Closing.{close_batch, schedule_batch_timeout, after_batching}
use mesyaf_market.Order.Batching.{Settings, CityRules}
use mesyaf_market.Order.Ready.{
  orders_in, join_batch, open_batch, try_batches, assign_to_batch, claim_ready, announce_ready,
  mark_owned, vendor_mark_ready,
}
use mesyaf_market.Delivery.Geo.{FloatOps}
use mesyaf_market.Delivery.Profiles.{DelivererUpdate, update_deliverer}

-- Who may do what: the users with their roles, and the vendors' profiles.
abbrev pub accounts : Db → Table User × Table VendorProfile
accounts d = (d.users, d.vendors)

ruleset touches = (
  keeps, Keeps-create, Keeps-create_missing, Keeps-update, Keeps-update_many, Keeps-delete_many,
  Keeps-delete, refl,
)

module _ (prisma : Prisma) where
  Keeps-project :
      (e : Event) (t : EventEntityType)
      → Keeps accounts (elim t as (λ x. Exec (Unit {0})) [
        | EventEntityType.order ↦ project_order prisma e
        | EventEntityType.job ↦ project_job prisma e
      ])
  unfolding project_order project_job
  Keeps-project e EventEntityType.order = search touches depth 12
  Keeps-project e EventEntityType.job = search touches depth 12

  Keeps-project_event :
      (e : Event)
      → Keeps accounts (elim e.entity_type as (λ x. Exec (Unit {0})) [
        | EventEntityType.order ↦ project_order prisma e
        | EventEntityType.job ↦ project_job prisma e
      ])
  Keeps-project_event e = Keeps-project e e.entity_type

  Keeps-record_event :
      (t : EventEntityType) (id : ℕ) (name : String) (payload : Payload)
      → Keeps accounts (record_event prisma t id name payload)
  unfolding record_event
  Keeps-record_event t id name payload = search (touches, Keeps-project_event) depth 12

  pub Keeps-close : (id : ℕ) → Keeps accounts (close_batch prisma id)
  unfolding close_batch
  Keeps-close id = search touches depth 12

  Keeps-refer_to :
      {R : Type 0} (model : Model R) (test : R → Bool) → Keeps accounts (refer_to prisma model test)
  unfolding refer_to
  Keeps-refer_to model test = search touches depth 12

  Keeps-create_items : (id : ℕ) (its : List ItemDto) → Keeps accounts (create_items prisma id its)
  unfolding create_items
  Keeps-create_items id [] = search keeps
  Keeps-create_items id (it ∷ its) =
      Keeps-then _ (create_items prisma id its)
        (Keeps-then _ _ (Keeps-refer_to products _) (Keeps-create prisma items (λ t d. refl) _))
        (Keeps-create_items id its)

module _ {prisma : Prisma} (d : Documented prisma) where
  pub Keeps-create_order : (dto : OrderDto) (v c : ℕ) → Keeps accounts (create_order prisma dto v c)
  unfolding create_order place_order
  Keeps-create_order dto v c =
      search (touches, Keeps-refer_to, Keeps-create_items, Keeps-record_event, Keeps-transaction d)
        depth 16

  module _ (float : FloatOps) (s : Settings) where
    Keeps-try_batches :
        (rules : CityRules) (o : Order) (db : Db) (bs : List Batch)
        → Keeps accounts (try_batches prisma float s rules o db bs)
    unfolding try_batches join_batch open_batch
    Keeps-try_batches rules o db [] = search touches depth 12
    Keeps-try_batches rules o db (b ∷ bs) =
        Keeps-if _ (join_batch prisma float s rules o b (orders_in prisma db b.id))
          (try_batches prisma float s rules o db bs) (search touches depth 12)
          (Keeps-try_batches rules o db bs)

    Keeps-claim_ready : (id : ℕ) (t : OrderType) → Keeps accounts (claim_ready prisma float s id t)
    unfolding claim_ready assign_to_batch
    Keeps-claim_ready id t = search (touches, Keeps-try_batches, Keeps-record_event) depth 20

    Keeps-mark_owned : (id : ℕ) (o : Order) → Keeps accounts (mark_owned prisma float s id o)
    unfolding mark_owned announce_ready after_batching schedule_batch_timeout
    Keeps-mark_owned id o =
        search (touches, Keeps-claim_ready, Keeps-close, Keeps-transaction d) depth 20

    pub Keeps-ready : (id u : ℕ) → Keeps accounts (vendor_mark_ready prisma float s id u)
    unfolding vendor_mark_ready
    Keeps-ready id u = search (keeps, Keeps-mark_owned) depth 12

  pub Keeps-deliverer :
      (u : ℕ) (dto : DelivererUpdate) → Keeps accounts (update_deliverer prisma u dto)
  unfolding update_deliverer
  Keeps-deliverer u dto = search touches depth 12
