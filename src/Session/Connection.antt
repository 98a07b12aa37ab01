-- ===== src/Session/Connection.antt =====
-- handleConnection of the gateways (src/users/customer.gateway.ts, src/vendor/vendor.gateway.ts,
-- src/deliverer/deliverer.gateway.ts), from the verified token on: the order of the presence
-- update, the snapshot and the replay. Joining rooms and logging are left out.
use mesyaf_market.Prelude.{ℕ, Option, none, some, List, not, if◌then◌else◌}
use mesyaf_market.Database.Schema.{Role, Event, is_role}
use mesyaf_market.Database.World.{Exec, ok, err, pure, ◌>>=◌, ◌>>◌}
use mesyaf_market.Database.Prisma.{Prisma}
use mesyaf_market.Delivery.Jobs.{get_deliverer_by_user_id}
use mesyaf_market.Vendor.Profiles.{get_profile_by_user_id}
use mesyaf_market.Session.Presence.{mark_online}
use mesyaf_market.Session.Replay.{replay_for_customer, replay_for_vendor, replay_for_deliverer}
use mesyaf_market.Session.Reconnect.{
  Envelope, CustomerContext, DelivererContext, VendorOrder, get_customer_context,
  get_deliverer_context, get_vendor_context,
}

-- The payload of a verified token.
pub record Token : Type 0 where
  pub sub : ℕ
  pub role : Role

-- What a client that is let in receives: `session.context`, and `events.replay` if not empty.
pub record Greeting (T : Type 0) : Type 0 where
  pub context : Envelope T
  pub missed : List Event

-- `none` is a client that is disconnected.
abbrev refuse_on_error : {T : Type 0} → Exec (Option T) → Exec (Option T)
refuse_on_error m w = elim (m w).0 [ ok r ↦ (ok r, (m w).1) | err e ↦ (ok none, (m w).1) ]

module _ (prisma : Prisma) where
  -- CustomerGateway.handleConnection
  unfoldable pub connect_customer : Token → Exec (Option (Greeting CustomerContext))
  connect_customer token = refuse_on_error (
      if not (is_role token.role Role.customer) then pure none else do
        mark_online prisma token.sub
        context ← get_customer_context prisma token.sub
        missed ← replay_for_customer prisma token.sub
        pure (some (record { context = context; missed = missed })))

  -- VendorGateway.handleConnection, which catches nothing
  unfoldable pub connect_vendor : Token → Exec (Option (Greeting (List VendorOrder)))
  connect_vendor token = if not (is_role token.role Role.vendor) then pure none else do
    mark_online prisma token.sub
    vendor ← get_profile_by_user_id prisma token.sub
    context ← get_vendor_context prisma vendor.id
    missed ← replay_for_vendor prisma vendor.id
    pure (some (record { context = context; missed = missed }))

  -- DelivererGateway.handleConnection
  unfoldable pub connect_deliverer : Token → Exec (Option (Greeting DelivererContext))
  connect_deliverer token = refuse_on_error (
      if not (is_role token.role Role.deliverer) then pure none else do
        deliverer ← get_deliverer_by_user_id prisma token.sub
        missed ← replay_for_deliverer prisma deliverer.id
        mark_online prisma token.sub
        context ← get_deliverer_context prisma deliverer.id
        pure (some (record { context = context; missed = missed })))
