-- ===== src/Session/Replay.antt =====
-- src/common/websocket/reply.service.ts: the events that a user has missed.
use mesyaf_market.Prelude.{
  ℕ, Bool, Option, none, some, List, [], ◌∷◌, map, ◌&&◌, not, ◌==◌, if◌then◌else◌,
}
use mesyaf_market.Database.Schema.{
  OrderStatus, EventEntityType, User, VendorProfile, Order, Event, is_order,
}
use mesyaf_market.Database.World.{Db, Exec, pure, gets, ◌>>=◌}
use mesyaf_market.Database.Prisma.{
  Prisma, users, vendors, deliverers, orders, find_first, find_many,
}
use mesyaf_market.Events.{get_events_since}

-- `status: { notIn: ['COMPLETED', 'CANCELLED'] }`
abbrev pub is_live_order : OrderStatus → Bool
is_live_order s = not (is_order s OrderStatus.completed) && not (is_order s OrderStatus.cancelled)

abbrev seen_at : Option User → Option ℕ
seen_at none = none
seen_at (some u) = u.last_seen_at

module _ (prisma : Prisma) where
  unfoldable pub events_of_orders : List Order → ℕ → Exec (List Event)
  events_of_orders [] since = pure []
  events_of_orders (o ∷ os) since =
      get_events_since prisma EventEntityType.order (map (λ r. r.id) (o ∷ os)) since

  -- ReplayService.replayForCustomer
  unfoldable pub replay_for_customer : ℕ → Exec (List Event)
  unfolding events_of_orders
  replay_for_customer customer_id = do
    user ← find_first prisma users (λ u. u.id == customer_id)
    elim (seen_at user) [
      | none ↦ pure []
      | some since ↦ do
        found ←
            find_many prisma orders (λ o. o.customer_id == customer_id && is_live_order o.status)
        events_of_orders found since
    ]

  -- `vendor.user`, `deliverer.user`
  abbrev vendor_user : Db → Option VendorProfile → Option User
  vendor_user db none = none
  vendor_user db (some v) = prisma.find_first (λ u. u.id == v.user_id) db.users

  -- ReplayService.replayForVendor
  unfoldable pub replay_for_vendor : ℕ → Exec (List Event)
  replay_for_vendor vendor_id = do
    vendor ← find_first prisma vendors (λ v. v.id == vendor_id)
    db ← gets (λ w. w.db)
    elim (seen_at (vendor_user db vendor)) [
      | none ↦ pure []
      | some since ↦ do
        found ←
            find_many prisma orders
              (λ o. o.vendor_id == vendor_id && not (is_order o.status OrderStatus.completed))
        get_events_since prisma EventEntityType.order (map (λ r. r.id) found) since
    ]

  unfoldable pub replay_job : Option ℕ → Option ℕ → Exec (List Event)
  replay_job (some job_id) (some since) =
      if job_id == 0
      then pure []
      else get_events_since prisma EventEntityType.job (job_id ∷ []) since
  replay_job _ _ = pure []

  -- ReplayService.replayForDeliverer
  unfoldable pub replay_for_deliverer : ℕ → Exec (List Event)
  unfolding replay_job
  replay_for_deliverer deliverer_id = do
    deliverer ← find_first prisma deliverers (λ d. d.id == deliverer_id)
    db ← gets (λ w. w.db)
    elim deliverer [
      | none ↦ pure []
      | some d ↦
          replay_job d.active_job_id (seen_at (prisma.find_first (λ u. u.id == d.user_id) db.users))
    ]
