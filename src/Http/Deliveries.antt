-- ===== src/Http/Deliveries.antt =====
-- src/order/order.controller.ts, src/deliverer/deliverer.controller.ts and
-- src/common/timeline/timeline.controller.ts.
use mesyaf_market.Prelude.{ℕ, Option, some, List, [], ◌∷◌, String}
use mesyaf_market.Database.Schema.{
  Role, Order, Job, JobStatus, DelivererProfile, OrderTimelineRow, JobTimelineRow,
}
use mesyaf_market.Database.World.{Exec, pure, throw, ◌>>=◌, ◌>>◌, plain}
use mesyaf_market.Database.Prisma.{Prisma}
use mesyaf_market.Delivery.Geo.{FloatOps}
use mesyaf_market.Delivery.Jobs.{get_deliverer_jobs}
use mesyaf_market.Delivery.Profiles.{
  DelivererUpdate, DelivererWithUser, get_profile, update_deliverer,
}
use mesyaf_market.Order.Batching.{Settings}
use mesyaf_market.Order.Closing.{close_batch}
use mesyaf_market.Order.Create.{OrderDto, create_order}
use mesyaf_market.Order.Ready.{vendor_mark_ready}
use mesyaf_market.Access.{get_job_timeline, get_order_timeline}
use mesyaf_market.Http.Guards.{Caller, signed_in, with_role, without_user, Envelope, success_with}

-- GET order/test-error
unfoldable pub test_error : Exec (Unit {0})
test_error = throw plain

module _ (prisma : Prisma) where
  -- POST order/:vendorId
  unfoldable pub post_order : Caller → ℕ → OrderDto → Exec Order
  post_order caller vendor_id dto = do
    user ← signed_in caller
    create_order prisma dto vendor_id user.id

  -- PATCH order/markeReady/:orderId
  unfoldable pub patch_ready : FloatOps → Settings → Caller → ℕ → Exec Order
  patch_ready float s caller order_id = do
    user ← with_role (Role.vendor ∷ []) caller
    vendor_mark_ready prisma float s order_id user.id

  -- GET order/test-batch/:batchId
  unfoldable pub test_batch : Caller → ℕ → Exec (String × ℕ)
  test_batch caller batch_id = do
    signed_in caller
    close_batch prisma batch_id
    pure ("closeBatch triggered", batch_id)

  -- GET deliverer/me
  unfoldable pub read_own_deliverer : Caller → Exec (Envelope DelivererWithUser)
  read_own_deliverer caller = do
    user ← with_role (Role.deliverer ∷ []) caller
    d ← get_profile prisma user.id
    pure (success_with "Deliverer profile retrieved successfully" (some d))

  -- GET deliverer/jobs
  unfoldable pub read_jobs : Caller → Option JobStatus → Exec (List Job)
  read_jobs caller job_status = do
    user ← signed_in caller
    get_deliverer_jobs prisma user.id job_status

  -- GET deliverer/:userId, whose guard reads a user that nothing has set
  unfoldable pub read_deliverer : ℕ → Exec (Envelope DelivererWithUser)
  read_deliverer user_id = do
    without_user (Role.admin ∷ [])
    d ← get_profile prisma user_id
    pure (success_with "Deliverer profile retrieved successfully" (some d))

  -- PATCH deliverer/me
  unfoldable pub patch_own_deliverer : Caller → DelivererUpdate → Exec DelivererProfile
  patch_own_deliverer caller dto = do
    user ← with_role (Role.deliverer ∷ []) caller
    update_deliverer prisma user.id dto

  -- GET timeline/:jobId/job
  unfoldable pub read_job_timeline : Caller → ℕ → Exec (List JobTimelineRow)
  read_job_timeline caller job_id = do
    user ← with_role (Role.deliverer ∷ Role.admin ∷ []) caller
    get_job_timeline prisma job_id user

  -- GET timeline/:orderId/order
  unfoldable pub read_order_timeline : Caller → ℕ → Exec (List OrderTimelineRow)
  read_order_timeline caller order_id = do
    user ← with_role (Role.customer ∷ Role.vendor ∷ Role.admin ∷ []) caller
    get_order_timeline prisma order_id user
