-- ===== src/Session/Presence.antt =====
-- src/common/websocket/session.service.ts: when a user was last seen.
use mesyaf_market.Prelude.{ℕ, true, false, some, ◌==◌}
use mesyaf_market.Database.Schema.{User}
use mesyaf_market.Database.World.{Exec, pure, gets, ◌>>=◌, ◌>>◌}
use mesyaf_market.Database.Prisma.{Prisma, users, update}

module _ (prisma : Prisma) where
  -- SessionService.markOnline
  unfoldable pub mark_online : ℕ → Exec (Unit {0})
  mark_online user_id = do
    now ← gets (λ w. w.now)
    update prisma users (λ u. u.id == user_id)
        (λ u. record u { is_online = true; last_seen_at = some now })
    pure tt

  -- SessionService.markOffline
  unfoldable pub mark_offline : ℕ → Exec User
  mark_offline user_id = do
    now ← gets (λ w. w.now)
    update prisma users (λ u. u.id == user_id)
        (λ u. record u { is_online = false; last_seen_at = some now })

  -- SessionService.heartbeat
  unfoldable pub heartbeat : ℕ → Exec (Unit {0})
  heartbeat user_id = do
    now ← gets (λ w. w.now)
    update prisma users (λ u. u.id == user_id) (λ u. record u { last_seen_at = some now })
    pure tt
