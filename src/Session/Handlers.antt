-- ===== src/Session/Handlers.antt =====
-- The messages of the gateways after the handshake: src/deliverer/deliverer.gateway.ts,
-- src/users/customer.gateway.ts, src/vendor/vendor.gateway.ts, and
-- src/users/delivery-job-subscription.service.ts. Logging is left out.
use mesyaf_market.Prelude.{
  ℕ, zero, suc, Bool, false, Option, none, some, List, [], ◌∷◌, not, ◌==◌, is_value, any,
  if◌then◌else◌,
}
use mesyaf_market.Database.Schema.{Order, Job}
use mesyaf_market.Database.World.{
  World, Exec, Error, Result, Emission, ok, err, pure, throw, throw_if, or_throw, emit, swallow,
  ◌>>=◌, ◌>>◌, not_found, forbidden, plain,
}
use mesyaf_market.Database.Prisma.{Prisma, jobs, orders, find_first, find_many}
use mesyaf_market.Delivery.Jobs.{start_job, complete_drop_off, validate_live_tracking}
use mesyaf_market.Delivery.Location.{Numbers, Json, number, is_valid, update_location, flush_to_db}
use mesyaf_market.Session.Presence.{mark_offline, heartbeat}

-- `client.data`, whose keys are undefined until the handshake sets them, and the rooms of the jobs
-- that the client joined.
pub record Client : Type 0 where
  pub user_id : Option ℕ
  pub deliverer_id : Option ℕ
  pub customer_id : Option ℕ
  pub joined : List ℕ

-- What `client.emit` sends back.
pub data Reply : Type 0 where
  job_started : (job_id : ℕ) → Reply
  drop_off_completed : (job_completed : Bool) → Reply
  job_subscribed : (job_id : ℕ) → Reply
  job_error drop_off_error : Error → Reply

-- `if (!id)`: an id of 0 counts as none.
abbrev pub given_id : Option ℕ → Option ℕ
given_id none = none
given_id (some zero) = none
given_id (some (suc n)) = some (suc n)

-- `try { … } catch (err) { client.emit(…) }`
abbrev pub reply_to : (Error → Reply) → Result (List Reply) × World → Result (List Reply) × World
reply_to reply (ok rs, w) = (ok rs, w)
reply_to reply (err e, w) = (ok (reply e ∷ []), w)

abbrev pub or_reply : Exec (List Reply) → (Error → Reply) → Exec (List Reply)
or_reply m reply w = reply_to reply (m w)

-- `order.customerId === customerId`
abbrev pub is_order_of : Option ℕ → Order → Bool
is_order_of none o = false
is_order_of (some customer_id) o = o.customer_id == customer_id

module _ (prisma : Prisma) where
  flush_of : Option ℕ → Exec (Unit {0})
  flush_of none = pure tt
  flush_of (some id) = flush_to_db prisma id

  -- DelivererGateway.handleDisconnect
  unfoldable pub disconnect_deliverer : Client → Exec (Unit {0})
  unfolding flush_of
  disconnect_deliverer client = elim (given_id client.user_id) [
    | none ↦ pure tt
    | some user_id ↦
        swallow (mark_offline prisma user_id >> flush_of (given_id client.deliverer_id))
  ]

  -- The body of the next two.
  unfoldable pub disconnect_user : Option ℕ → Exec (Unit {0})
  disconnect_user id = elim (given_id id) [
    | none ↦ pure tt
    | some user_id ↦ mark_offline prisma user_id >> pure tt
  ]

  -- VendorGateway.handleDisconnect
  unfoldable pub disconnect_vendor : Client → Exec (Unit {0})
  unfolding disconnect_user
  disconnect_vendor client = disconnect_user client.user_id

  -- CustomerGateway.handleDisconnect
  unfoldable pub disconnect_customer : Client → Exec (Unit {0})
  unfolding disconnect_user
  disconnect_customer client = disconnect_user client.customer_id

  -- handleHeartbeat of the deliverers' and vendors' gateways, with the user's id
  unfoldable pub handle_heartbeat : Option ℕ → Exec (Unit {0})
  handle_heartbeat id = elim (given_id id) [
    | none ↦ pure tt
    | some user_id ↦ heartbeat prisma user_id
  ]

  -- CustomerGateway.handleHeartbeat
  unfoldable pub handle_customer_heartbeat : Client → Exec (Unit {0})
  unfolding handle_heartbeat
  handle_customer_heartbeat client = handle_heartbeat client.customer_id

  -- DelivererGateway.handleStartJob
  unfoldable pub handle_start_job : Client → ℕ → Exec (List Reply)
  handle_start_job client job_id =
      or_reply
        (do
          start_job prisma job_id client.deliverer_id
          emit (Emission.delivery_started job_id)
          pure (job_started job_id ∷ []))
        job_error

  -- `completeDropOff` with an id that may be undefined, which is no job's deliverer.
  complete_for : Option ℕ → ℕ → ℕ → Exec Bool
  complete_for (some deliverer_id) job_id drop_off_id =
      complete_drop_off prisma job_id drop_off_id deliverer_id
  complete_for none job_id drop_off_id = do
    found ← find_first prisma jobs (λ j. j.id == job_id)
    or_throw found not_found
    throw forbidden

  -- DelivererGateway.handleCompleteDropoff
  unfoldable pub handle_complete_drop_off : Client → ℕ → ℕ → Exec (List Reply)
  unfolding complete_for
  handle_complete_drop_off client job_id drop_off_id =
      or_reply
        (do
          job_completed ← complete_for client.deliverer_id job_id drop_off_id
          if job_completed then emit (Emission.delivery_completed job_id) else pure tt
          pure (drop_off_completed job_completed ∷ []))
        drop_off_error

  -- `data.jobId && (await validateLiveTracking(…))`
  is_tracked : Option ℕ → ℕ → Exec Bool
  is_tracked none deliverer_id = pure false
  is_tracked (some job_id) deliverer_id = validate_live_tracking prisma job_id deliverer_id

  share_location : Option ℕ → Json → Json → Exec (Unit {0})
  share_location (some job_id) (number lat) (number lng) =
      emit (Emission.location_update job_id lat lng)
  share_location _ _ _ = pure tt

  store_location : ℕ → Json → Json → Exec (Unit {0})
  store_location deliverer_id (number lat) (number lng) = update_location deliverer_id lat lng
  store_location deliverer_id _ _ = pure tt

  -- DelivererGateway.handleLocationUpdate, after the early return
  unfoldable pub track : ℕ → Option ℕ → Json → Json → Exec (Unit {0})
  unfolding is_tracked share_location store_location
  track deliverer_id job_id lat lng = do
    store_location deliverer_id lat lng
    tracked ← is_tracked job_id deliverer_id
    if tracked then share_location job_id lat lng else pure tt

  -- DelivererGateway.handleLocationUpdate
  unfoldable pub handle_location_update :
      Numbers → Client → Option ℕ → Json → Json → Exec (Unit {0})
  handle_location_update numbers client job_id lat lng = elim (given_id client.deliverer_id) [
    | none ↦ pure tt
    | some deliverer_id ↦
        if is_valid numbers lat lng then track deliverer_id (given_id job_id) lat lng else pure tt
  ]

  -- DeliveryJobSubscriptionService.subscribeCustomerToJob, which throws plain errors
  unfoldable pub subscribe_customer_to_job : Option ℕ → ℕ → Exec Job
  subscribe_customer_to_job customer_id job_id = do
    found ← find_first prisma jobs (λ j. j.id == job_id)
    job ← or_throw found plain
    job_orders ← find_many prisma orders (λ o. is_value o.delivery_job_id job_id)
    throw_if (not (any (is_order_of customer_id) job_orders)) plain
    pure job

  abbrev joined_room : Client → ℕ → Client
  joined_room client job_id =
      if any (λ k. k == job_id) client.joined
      then client
      else record client { joined = job_id ∷ client.joined }

  -- CustomerGateway.handleJobSubscribe, with the client's rooms afterwards
  unfoldable pub handle_job_subscribe : Client → ℕ → Exec (Client × List Reply)
  handle_job_subscribe client job_id w =
      let (r, w') = subscribe_customer_to_job client.customer_id job_id w in
      elim r [
        | ok job ↦ (ok (joined_room client job_id, job_subscribed job_id ∷ []), w')
        | err e ↦ (ok (client, job_error e ∷ []), w')
      ]
