-- ===== src/Session/Laws.antt =====
-- About the handshakes of src/users/customer.gateway.ts, src/vendor/vendor.gateway.ts and
-- src/deliverer/deliverer.gateway.ts, and the presence of src/common/websocket.
use mesyaf_market.Delivery.Jobs.{get_deliverer_by_user_id}
use mesyaf_market.Prelude.{
  suc, ◌≡◌, ◌≤◌, ◌<◌, map, ◌&&◌, refl, ℕ, Bool, true, some, List, [], ◌∷◌, arith, ◌==◌, any, ltb,
  Option-cases, inl, inr, All,
}
use mesyaf_market.Database.Schema.{DelivererProfile, EventEntityType, User, Event, is_entity}
use mesyaf_market.Database.World.{World, ok}
use mesyaf_market.Database.Rows.{
  find_row, find-update_rows, find_row_holds, filter_rows, sort_rows, update_rows,
}
use mesyaf_market.Database.Prisma.{Prisma, Documented, Documented-reference, reference}
use mesyaf_market.Events.{get_events_since}
use mesyaf_market.Session.Presence.{mark_online}
use mesyaf_market.Session.Replay.{replay_for_deliverer, replay_for_customer, is_live_order}
use mesyaf_market.Session.Reconnect.{DelivererContext, CustomerContext, get_customer_context}
use mesyaf_market.Session.Connection.{connect_deliverer, Greeting, Token, connect_customer}

-- No event lies in the future of the clock.
abbrev pub IsPast : World → Type 0
IsPast w = All (λ e. e.created_at ≤ w.now) w.db.events.rows

later_events_none :
    (p : Event → Bool) (now : ℕ) (es : List Event)
    → ((e : Event) → p e ≡ true → now < e.created_at)
    → All (λ e. e.created_at ≤ now) es
    → filter_rows p es ≡ []
unfolding filter_rows
later_events_none p now [] later past = refl
later_events_none p now (e ∷ es) later past =
    ground (arith, later e, later_events_none p now es later past.1)

-- A user who was last seen now has missed nothing.
since_now :
    (entity : EventEntityType) (ids : List ℕ) (w : World)
    → IsPast w
    → get_events_since reference entity ids w.now w ≡ (ok [], w)
unfolding get_events_since sort_rows
since_now entity ids w past = rw (
    later_events_none
      (λ e.
        is_entity e.entity_type entity
        && any (λ id. id == e.entity_id) ids
        && ltb w.now e.created_at)
      w.now w.db.events.rows (λ e h. ground arith) past)

replay_now :
    (id : ℕ) (w : World) (u : User)
    → IsPast w
    → find_row (λ r. r.id == id) w.db.users.rows ≡ some u
    → u.last_seen_at ≡ some w.now
    → replay_for_customer reference id w ≡ (ok [], w)
unfolding replay_for_customer
replay_now id w u past f seen = ground (
  arith,
  since_now EventEntityType.order
      (map (λ r. r.id)
        (filter_rows (λ o. o.customer_id == id && is_live_order o.status) w.db.orders.rows))
      w past,
)

-- The world after `markOnline`.
abbrev online : ℕ → World → World
online id w = record w {
  db = record w.db {
    users = record w.db.users {
      rows =
          update_rows (λ u. u.id == id)
            (λ u. record u { is_online = true; last_seen_at = some w.now }) w.db.users.rows;
    };
  };
}

seen_online :
    (id : ℕ) (w : World) (u : User)
    → find_row (λ r. r.id == id) w.db.users.rows ≡ some u
    → find_row (λ r. r.id == id) (online id w).db.users.rows
      ≡ some (record u { is_online = true; last_seen_at = some w.now })
seen_online id w u f = ground (
  arith,
  find-update_rows (λ r. r.id == id) (λ r. r.id == id)
      (λ r. record r { is_online = true; last_seen_at = some w.now }) (λ r. refl) w.db.users.rows,
  find_row_holds (λ r. r.id == id) w.db.users.rows u f,
)

replay_job_events :
    (deliverer_id job_id since : ℕ) (w : World) (p : DelivererProfile) (u : User)
    → find_row (λ r. r.id == deliverer_id) w.db.deliverers.rows ≡ some p
    → p.active_job_id ≡ some (suc job_id)
    → find_row (λ r. r.id == p.user_id) w.db.users.rows ≡ some u
    → u.last_seen_at ≡ some since
    → replay_for_deliverer reference deliverer_id w
      ≡ get_events_since reference EventEntityType.job (suc job_id ∷ []) since w
unfolding replay_for_deliverer
replay_job_events deliverer_id job_id since w p u fd a fu seen = ground arith

deliverer_replay :
    (token : Token) (w : World) (g : Greeting DelivererContext) (p : DelivererProfile) (u : User)
    (job_id since : ℕ)
    → find_row (λ r. r.user_id == token.sub) w.db.deliverers.rows ≡ some p
    → find_row (λ r. r.id == p.id) w.db.deliverers.rows ≡ some p
    → p.active_job_id ≡ some (suc job_id)
    → find_row (λ r. r.id == p.user_id) w.db.users.rows ≡ some u
    → u.last_seen_at ≡ some since
    → (connect_deliverer reference token w).0 ≡ ok (some g)
    → (get_events_since reference EventEntityType.job (suc job_id ∷ []) since w).0 ≡ ok g.missed
unfolding connect_deliverer get_deliverer_by_user_id get_events_since
deliverer_replay token w g p u job_id since fu fp a fs seen h =
    ground (arith, replay_job_events p.id job_id since w p u fp a fs seen)

module _ {prisma : Prisma} (d : Documented prisma) where
  -- A customer who reconnects is replayed no event at all.
  pub customer_misses_events :
      (token : Token) (w : World) (g : Greeting CustomerContext)
      → IsPast w
      → (connect_customer prisma token w).0 ≡ ok (some g)
      → g.missed ≡ []
  customer_misses_events = rw (Documented-reference d) (
      unfold connect_customer mark_online get_customer_context in
      λ token w g past e. elim (Option-cases (find_row (λ u. u.id == token.sub) w.db.users.rows)) [
        | inl f ↦ ground arith
        | inr (u, f) ↦ ground (
          arith,
          seen_online token.sub w u f,
          replay_now token.sub (online token.sub w)
              (record u { is_online = true; last_seen_at = some w.now }) past
              (seen_online token.sub w u f) refl,
        )
      ])

  -- A deliverer who reconnects with an active job is replayed the events of this job since the
  -- deliverer was last seen, as the log had them before the connection.
  pub deliverer_gets_events :
      (token : Token) (w : World) (g : Greeting DelivererContext) (p : DelivererProfile) (u : User)
      (job_id since : ℕ)
      → prisma.find_first (λ r. r.user_id == token.sub) w.db.deliverers ≡ some p
      → prisma.find_first (λ r. r.id == p.id) w.db.deliverers ≡ some p
      → p.active_job_id ≡ some (suc job_id)
      → prisma.find_first (λ r. r.id == p.user_id) w.db.users ≡ some u
      → u.last_seen_at ≡ some since
      → (connect_deliverer prisma token w).0 ≡ ok (some g)
      → (get_events_since prisma EventEntityType.job (suc job_id ∷ []) since w).0 ≡ ok g.missed
  deliverer_gets_events = rw (Documented-reference d) deliverer_replay
