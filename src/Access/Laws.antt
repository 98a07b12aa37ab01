-- ===== src/Access/Laws.antt =====
-- About the checks of src/common/timeline, src/common/guards and src/users.
use mesyaf_market.Prelude.{◌≡◌, ◌≢◌, ◌⊎◌, ℕ, Bool, some, none, List, String, arith, ◌==◌}
use mesyaf_market.Database.Schema.{Role, Order, Job, OrderTimelineRow}
use mesyaf_market.Database.World.{World, ok, err, forbidden, plain}
use mesyaf_market.Database.Prisma.{Prisma, Documented, Documented-reference}
use mesyaf_market.Access.{
  AuthenticatedUser, UserUpdate, get_job_timeline, get_order_timeline, update_my_profile,
  remove_user,
}

module _ {prisma : Prisma} (d : Documented prisma) where
  -- A vendor who is signed in is never shown the timeline of an order.
  pub vendor_never_reads_timeline :
      (order_id : ℕ) (user : AuthenticatedUser) (w : World)
      → user.role ≡ Role.vendor
      → (rows : List OrderTimelineRow) → (get_order_timeline prisma order_id user w).0 ≢ ok rows
  unfolding get_order_timeline
  vendor_never_reads_timeline = rw (Documented-reference d) λ order_id user w h rows e. ground arith

  -- Who reads the timeline of an order that is there: an administrator, or the customer whose
  -- order it is. The rows are those of the order, sorted by the time of their events.
  pub order_timeline_readers :
      (order_id : ℕ) (user : AuthenticatedUser) (w : World) (o : Order)
      (rows : List OrderTimelineRow)
      → prisma.find_first (λ r. r.id == order_id) w.db.orders ≡ some o
      → (get_order_timeline prisma order_id user w).0 ≡ ok rows
      → ((user.role ≡ Role.admin) ⊎ ((user.role ≡ Role.customer) × (user.id ≡ o.customer_id)))
        × (rows
            ≡ prisma.order_by
                (λ r. some r.occurred_at)
                (prisma.find_many (λ r. r.order_id == order_id) w.db.order_timeline))
  unfolding get_order_timeline
  order_timeline_readers =
      rw (Documented-reference d) λ order_id user w o rows f e. (ground arith, ground arith)

  -- The timeline of a job that no deliverer holds is shown to every user without a deliverer's id.
  pub unassigned_job_is_shown :
      (job_id : ℕ) (user : AuthenticatedUser) (w : World) (j : Job)
      → prisma.find_first (λ r. r.id == job_id) w.db.jobs ≡ some j
      → j.deliverer_id ≡ none
      → user.deliverer_id ≡ none
      → (get_job_timeline prisma job_id user w).0
        ≡ ok (
            prisma.order_by
              (λ r. some r.occurred_at)
              (prisma.find_many (λ r. r.job_id == job_id) w.db.job_timeline))
  unfolding get_job_timeline
  unassigned_job_is_shown = rw (Documented-reference d) λ job_id user w j f n u. ground arith

  -- No signed-in user can change the own profile: the call fails and changes nothing.
  update_my_profile_fails :
      (dto : UserUpdate) (user : AuthenticatedUser) (w : World)
      → update_my_profile prisma dto user w ≡ (err plain, w)
  unfolding update_my_profile
  update_my_profile_fails dto user w = ground arith

  -- Only an administrator deletes a user: anybody else is refused, with the right password too.
  pub remove_user_refused :
      (compare : String → String → Bool) (id : ℕ) (user : AuthenticatedUser) (password : String)
      (w : World)
      → user.role ≢ Role.admin
      → remove_user prisma compare id user password w ≡ (err forbidden, w)
  unfolding remove_user
  remove_user_refused compare id user password w h = ground arith
