-- ===== src/Order/Closing/Expired.antt =====
-- About closeExpiredBatches of src/order/order.service.ts.
use mesyaf_market.Prelude.{
  ◌≡◌, refl, ℕ, ◌+◌, ◌*◌, Bool, List, [], ◌∷◌, ltb, any, not, arith, ◌==◌, ◌&&◌, Bool-cases, inl,
  inr,
}
use mesyaf_market.Database.Schema.{JobStatus, Batch, is_job}
use mesyaf_market.Database.World.{World, for_each, swallow, enqueue}
use mesyaf_market.Database.Rows.{count_rows, update_rows, filter_rows}
use mesyaf_market.Database.Prisma.{Prisma, Documented, Documented-reference, reference}
use mesyaf_market.Order.Batching.{Settings, city_rules}
use mesyaf_market.Order.Closing.{close_batch, close_expired_batches}
use mesyaf_market.Order.Closing.Once.{is_pending, handed_over}

-- A pending batch that its timer should have closed more than a minute ago.
abbrev pub is_expired : Settings → ℕ → Batch → Bool
is_expired s now b =
    is_job b.status JobStatus.pending
    && ltb (b.created_at + ((city_rules s).window_min + 1) * 60 * 1000) now

-- Of the expired rows, only those whose id is listed.
left : Settings → ℕ → List Batch → Batch → Bool
left s now bs r = is_expired s now r && not (any (λ b. b.id == r.id) bs)

rows-close_batch :
    (id : ℕ) (w : World)
    → (close_batch reference id w).1.db.batches.rows
      ≡ update_rows (is_pending id) handed_over w.db.batches.rows
unfolding close_batch enqueue
rows-close_batch id w = ground arith

left-update_rows :
    (s : Settings) (now : ℕ) (b : Batch) (bs rows : List Batch)
    → count_rows (left s now (b ∷ bs)) rows ≡ 0
    → count_rows (left s now bs) (update_rows (is_pending b.id) handed_over rows) ≡ 0
unfolding left count_rows update_rows any
left-update_rows s now b bs [] h = refl
left-update_rows s now b bs (r ∷ rows) h = ground (arith, left-update_rows s now b bs rows)

closes_listed :
    (s : Settings) (now : ℕ) (bs : List Batch) (w : World)
    → count_rows (left s now bs) w.db.batches.rows ≡ 0
    → count_rows
        (left s now [])
        (for_each (λ b. swallow (close_batch reference b.id)) bs w).1.db.batches.rows
      ≡ 0
unfolding for_each
closes_listed s now [] w h = h
closes_listed s now (b ∷ bs) w h =
    closes_listed s now bs (close_batch reference b.id w).1
      (rw (rows-close_batch b.id w) (left-update_rows s now b bs w.db.batches.rows h))

-- Every expired row is listed.
left-cons :
    (s : Settings) (now : ℕ) (b : Batch) (bs rows : List Batch)
    → count_rows (left s now bs) rows ≡ 0
    → count_rows (left s now (b ∷ bs)) rows ≡ 0
unfolding left count_rows any
left-cons s now b bs [] h = refl
left-cons s now b bs (r ∷ rows) h = ground (arith, left-cons s now b bs rows)

all_listed :
    (s : Settings) (now : ℕ) (rows : List Batch)
    → count_rows (left s now (filter_rows (is_expired s now) rows)) rows ≡ 0
unfolding left count_rows filter_rows any
all_listed s now [] = refl
all_listed s now (r ∷ rows) = elim (Bool-cases (is_expired s now r)) [
  | inl e ↦
      ground (
        arith,
        left-cons s now r (filter_rows (is_expired s now) rows) rows (all_listed s now rows),
      )
  | inr e ↦ ground (arith, all_listed s now rows)
]

none_expired :
    (s : Settings) (w : World)
    → count_rows (left s w.now []) (close_expired_batches reference s w).1.db.batches.rows ≡ 0
unfolding close_expired_batches
none_expired s w =
    closes_listed s w.now (filter_rows (is_expired s w.now) w.db.batches.rows) w
      (all_listed s w.now w.db.batches.rows)

count_left :
    (s : Settings) (now : ℕ) (rows : List Batch)
    → count_rows (left s now []) rows ≡ count_rows (is_expired s now) rows
unfolding left count_rows any
count_left s now [] = refl
count_left s now (r ∷ rows) = ground (arith, count_left s now rows)

module _ {prisma : Prisma} (d : Documented prisma) where
  -- The sweep leaves no batch pending that its timer should have closed more than a minute before,
  -- even if the queue cannot be reached for any of them.
  pub sweep_closes_expired :
      (s : Settings) (w : World)
      → prisma.count (is_expired s w.now) (close_expired_batches prisma s w).1.db.batches ≡ 0
  sweep_closes_expired = rw (Documented-reference d) λ s w.
      rw (← count_left s w.now (close_expired_batches reference s w).1.db.batches.rows)
        (none_expired s w)
