-- ===== src/Database/Prisma.antt =====
-- The Prisma client as a parameter: `Prisma` has the queries that the services make, `Documented`
-- what its documentation says of them. A where-clause is a test on rows, `data` a function on rows.
use mesyaf_market.Prelude.{
  ℤ, ℕ, suc, ◌≡◌, refl, Bool, Option, none, some, List, [], ◌∷◌, ◌++◌, ◌==◌, any, if◌then◌else◌,
}
use mesyaf_market.Database.Schema.{
  User, VendorProfile, Product, Category, ProductTag, ProductImage, DelivererProfile, Order,
  OrderItem, DropOff, Job, Batch, Event, OrderTimelineRow, JobTimelineRow,
}
use mesyaf_market.Database.World.{
  Table, Db, World, Exec, Result, ok, err, record_missing, unique_violation,
}
use mesyaf_market.Database.Rows.{
  slice_rows, find_row, filter_rows, drop_rows, count_rows, update_rows, sort_rows, sort_rows_desc,
}

pub record Prisma : Type 1 where
  -- findUnique, findFirst
  pub find_first : {R : Type 0} → (R → Bool) → Table R → Option R
  pub find_many : {R : Type 0} → (R → Bool) → Table R → List R
  -- orderBy: { key: 'asc' }
  pub order_by : {R : Type 0} → (R → Option ℕ) → List R → List R
  -- orderBy: { key: 'desc' }, on a column that is never NULL
  pub order_by_desc : {R : Type 0} → (R → ℕ) → List R → List R
  -- skip, take
  pub page_of : {R : Type 0} → ℕ → ℤ → List R → List R
  pub count : {R : Type 0} → (R → Bool) → Table R → ℕ
  pub create : {R : Type 0} → (ℕ → R) → Table R → R × Table R
  -- create in a table with a unique column, where the test finds a row with that value
  pub create_unique : {R : Type 0} → (R → Bool) → (ℕ → R) → Table R → Option (R × Table R)
  -- createMany of one row with skipDuplicates, where the test finds a row with its unique key
  pub create_missing : {R : Type 0} → (R → Bool) → (ℕ → R) → Table R → ℕ × Table R
  -- update, where the test is on a unique key
  pub update : {R : Type 0} → (R → Bool) → (R → R) → Table R → Option (R × Table R)
  pub update_many : {R : Type 0} → (R → Bool) → (R → R) → Table R → ℕ × Table R
  pub delete_many : {R : Type 0} → (R → Bool) → Table R → ℕ × Table R
  -- connect and disconnect, on the ids of a relation
  pub connect : List ℕ → List ℕ → List ℕ
  pub disconnect : List ℕ → List ℕ → List ℕ
  pub transaction : {A : Type 0} → Exec A → Exec A

module _ {R : Type 0} where
  abbrev pub with_rows : List R → Table R → Table R
  with_rows rs t = record t { rows = rs }

  abbrev pub inserted : (ℕ → R) → Table R → Table R
  inserted mk t = record { rows = t.rows ++ mk t.next_id ∷ []; next_id = suc t.next_id }

  abbrev pub insert_missing : Option R → (ℕ → R) → Table R → ℕ × Table R
  insert_missing none mk t = (1, inserted mk t)
  insert_missing (some r) mk t = (0, t)

  abbrev pub insert_unique : Option R → (ℕ → R) → Table R → Option (R × Table R)
  insert_unique none mk t = some (mk t.next_id, inserted mk t)
  insert_unique (some r) mk t = none

  abbrev pub update_found : Option R → (R → Bool) → (R → R) → Table R → Option (R × Table R)
  update_found none p f t = none
  update_found (some r) p f t = some (f r, with_rows (update_rows p f t.rows) t)

-- The ids that are not there yet, added at the end.
unfoldable pub add_ids : List ℕ → List ℕ → List ℕ
unfolding any
add_ids [] old = old
add_ids (id ∷ ids) old = add_ids ids (if any (λ k. k == id) old then old else old ++ id ∷ [])

-- A transaction that throws takes back what it wrote to the tables.
abbrev pub settle : {A : Type 0} → World → Result A × World → Result A × World
settle w (ok a, w') = (ok a, w')
settle w (err e, w') = (err e, record w' { db = w.db })

pub record Documented (prisma : Prisma) : Type 1 where
  pub find_first_lem :
      {R : Type 0} (p : R → Bool) (t : Table R) → prisma.find_first p t ≡ find_row p t.rows
  pub find_many_lem :
      {R : Type 0} (p : R → Bool) (t : Table R) → prisma.find_many p t ≡ filter_rows p t.rows
  pub order_by_lem :
      {R : Type 0} (key : R → Option ℕ) (rs : List R) → prisma.order_by key rs ≡ sort_rows key rs
  pub order_by_desc_lem :
      {R : Type 0} (key : R → ℕ) (rs : List R) → prisma.order_by_desc key rs ≡ sort_rows_desc key rs
  pub page_of_lem :
      {R : Type 0} (skip : ℕ) (limit : ℤ) (rs : List R)
      → prisma.page_of skip limit rs ≡ slice_rows skip limit rs
  pub count_lem : {R : Type 0} (p : R → Bool) (t : Table R) → prisma.count p t ≡ count_rows p t.rows
  pub create_lem :
      {R : Type 0} (mk : ℕ → R) (t : Table R) → prisma.create mk t ≡ (mk t.next_id, inserted mk t)
  pub create_unique_lem :
      {R : Type 0} (p : R → Bool) (mk : ℕ → R) (t : Table R)
      → prisma.create_unique p mk t ≡ insert_unique (find_row p t.rows) mk t
  pub create_missing_lem :
      {R : Type 0} (p : R → Bool) (mk : ℕ → R) (t : Table R)
      → prisma.create_missing p mk t ≡ insert_missing (find_row p t.rows) mk t
  pub update_lem :
      {R : Type 0} (p : R → Bool) (f : R → R) (t : Table R)
      → prisma.update p f t ≡ update_found (find_row p t.rows) p f t
  pub update_many_lem :
      {R : Type 0} (p : R → Bool) (f : R → R) (t : Table R)
      → prisma.update_many p f t ≡ (count_rows p t.rows, with_rows (update_rows p f t.rows) t)
  pub delete_many_lem :
      {R : Type 0} (p : R → Bool) (t : Table R)
      → prisma.delete_many p t ≡ (count_rows p t.rows, with_rows (drop_rows p t.rows) t)
  pub connect_lem : (ids old : List ℕ) → prisma.connect ids old ≡ add_ids ids old
  pub disconnect_lem :
      (ids old : List ℕ) → prisma.disconnect ids old ≡ drop_rows (λ k. any (λ id. id == k) ids) old
  pub transaction_lem :
      {A : Type 0} (m : Exec A) (w : World) → prisma.transaction m w ≡ settle w (m w)

-- A client that does what is documented, on lists of rows.
abbrev pub reference : Prisma
reference = record {
  find_first = λ p t. find_row p t.rows;
  find_many = λ p t. filter_rows p t.rows;
  order_by = λ key rs. sort_rows key rs;
  order_by_desc = λ key rs. sort_rows_desc key rs;
  page_of = λ skip limit rs. slice_rows skip limit rs;
  count = λ p t. count_rows p t.rows;
  create = λ mk t. (mk t.next_id, inserted mk t);
  create_unique = λ p mk t. insert_unique (find_row p t.rows) mk t;
  create_missing = λ p mk t. insert_missing (find_row p t.rows) mk t;
  update = λ p f t. update_found (find_row p t.rows) p f t;
  update_many = λ p f t. (count_rows p t.rows, with_rows (update_rows p f t.rows) t);
  delete_many = λ p t. (count_rows p t.rows, with_rows (drop_rows p t.rows) t);
  connect = λ ids old. add_ids ids old;
  disconnect = λ ids old. drop_rows (λ k. any (λ id. id == k) ids) old;
  transaction = λ m w. settle w (m w);
}

pub reference-Documented : Documented reference
reference-Documented = record {
  find_first_lem = λ p t. refl;
  find_many_lem = λ p t. refl;
  order_by_lem = λ key rs. refl;
  order_by_desc_lem = λ key rs. refl;
  page_of_lem = λ skip limit rs. refl;
  count_lem = λ p t. refl;
  create_lem = λ mk t. refl;
  create_unique_lem = λ p mk t. refl;
  create_missing_lem = λ p mk t. refl;
  update_lem = λ p f t. refl;
  update_many_lem = λ p f t. refl;
  delete_many_lem = λ p t. refl;
  connect_lem = λ ids old. refl;
  disconnect_lem = λ ids old. refl;
  transaction_lem = λ m w. refl;
}

-- A documented client is the reference, so a theorem may be proved on lists of rows.
pub Documented-reference : {prisma : Prisma} → Documented prisma → prisma ≡ reference
Documented-reference d = λ i. record {
  find_first = λ p t. d.find_first_lem p t i;
  find_many = λ p t. d.find_many_lem p t i;
  order_by = λ key rs. d.order_by_lem key rs i;
  order_by_desc = λ key rs. d.order_by_desc_lem key rs i;
  page_of = λ skip limit rs. d.page_of_lem skip limit rs i;
  count = λ p t. d.count_lem p t i;
  create = λ mk t. d.create_lem mk t i;
  create_unique = λ p mk t. d.create_unique_lem p mk t i;
  create_missing = λ p mk t. d.create_missing_lem p mk t i;
  update = λ p f t. d.update_lem p f t i;
  update_many = λ p f t. d.update_many_lem p f t i;
  delete_many = λ p t. d.delete_many_lem p t i;
  connect = λ ids old. d.connect_lem ids old i;
  disconnect = λ ids old. d.disconnect_lem ids old i;
  transaction = λ m w. d.transaction_lem m w i;
}

-- A table of the database: `prisma.order`, `prisma.deliveryJob`, ….
pub record Model (R : Type 0) : Type 0 where
  pub get : Db → Table R
  pub put : Table R → Db → Db

abbrev pub users : Model User
users = record { get = λ d. d.users; put = λ t d. record d { users = t } }

abbrev pub vendors : Model VendorProfile
vendors = record { get = λ d. d.vendors; put = λ t d. record d { vendors = t } }

abbrev pub products : Model Product
products = record { get = λ d. d.products; put = λ t d. record d { products = t } }

abbrev pub categories : Model Category
categories = record { get = λ d. d.categories; put = λ t d. record d { categories = t } }

abbrev pub tags : Model ProductTag
tags = record { get = λ d. d.tags; put = λ t d. record d { tags = t } }

abbrev pub images : Model ProductImage
images = record { get = λ d. d.images; put = λ t d. record d { images = t } }

abbrev pub deliverers : Model DelivererProfile
deliverers = record { get = λ d. d.deliverers; put = λ t d. record d { deliverers = t } }

abbrev pub orders : Model Order
orders = record { get = λ d. d.orders; put = λ t d. record d { orders = t } }

abbrev pub items : Model OrderItem
items = record { get = λ d. d.items; put = λ t d. record d { items = t } }

abbrev pub drop_offs : Model DropOff
drop_offs = record { get = λ d. d.drop_offs; put = λ t d. record d { drop_offs = t } }

abbrev pub jobs : Model Job
jobs = record { get = λ d. d.jobs; put = λ t d. record d { jobs = t } }

abbrev pub batches : Model Batch
batches = record { get = λ d. d.batches; put = λ t d. record d { batches = t } }

abbrev pub events : Model Event
events = record { get = λ d. d.events; put = λ t d. record d { events = t } }

abbrev pub order_timeline : Model OrderTimelineRow
order_timeline = record {
  get = λ d. d.order_timeline;
  put = λ t d. record d { order_timeline = t };
}

abbrev pub job_timeline : Model JobTimelineRow
job_timeline = record { get = λ d. d.job_timeline; put = λ t d. record d { job_timeline = t } }

-- The queries as actions.
module _ (prisma : Prisma) {R : Type 0} (m : Model R) where
  abbrev write : Table R → World → World
  write t w = record w { db = m.put t w.db }

  abbrev pub find_first : (R → Bool) → Exec (Option R)
  find_first p w = (ok (prisma.find_first p (m.get w.db)), w)

  abbrev pub find_many : (R → Bool) → Exec (List R)
  find_many p w = (ok (prisma.find_many p (m.get w.db)), w)

  abbrev pub count : (R → Bool) → Exec ℕ
  count p w = (ok (prisma.count p (m.get w.db)), w)

  abbrev pub create : (ℕ → R) → Exec R
  create mk w = let (r, t) = prisma.create mk (m.get w.db) in (ok r, write t w)

  abbrev pub create_missing : (R → Bool) → (ℕ → R) → Exec ℕ
  create_missing p mk w = let (n, t) = prisma.create_missing p mk (m.get w.db) in (ok n, write t w)

  abbrev made : Option (R × Table R) → Exec R
  made none w = (err unique_violation, w)
  made (some (r, t)) w = (ok r, write t w)

  abbrev pub create_unique : (R → Bool) → (ℕ → R) → Exec R
  create_unique p mk w = made (prisma.create_unique p mk (m.get w.db)) w

  abbrev updated : Option (R × Table R) → Exec R
  updated none w = (err record_missing, w)
  updated (some (r, t)) w = (ok r, write t w)

  abbrev pub update : (R → Bool) → (R → R) → Exec R
  update p f w = updated (prisma.update p f (m.get w.db)) w

  abbrev pub update_many : (R → Bool) → (R → R) → Exec ℕ
  update_many p f w = let (n, t) = prisma.update_many p f (m.get w.db) in (ok n, write t w)

  abbrev pub delete_many : (R → Bool) → Exec ℕ
  delete_many p w = let (n, t) = prisma.delete_many p (m.get w.db) in (ok n, write t w)

  -- Prisma runs an upsert on a unique key as an update where the row is there, else a create.
  abbrev upserted : Option (R × Table R) → (ℕ → R) → Exec R
  upserted none mk w = create mk w
  upserted (some (r, t)) mk w = (ok r, write t w)

  abbrev pub upsert : (R → Bool) → (R → R) → (ℕ → R) → Exec R
  upsert p f mk w = upserted (prisma.update p f (m.get w.db)) mk w

  abbrev deleted : Option R → Table R → Exec R
  deleted none t w = (err record_missing, w)
  deleted (some r) t w = (ok r, write t w)

  -- `delete` on a unique key throws where there is no row, as `update` does.
  abbrev pub delete : (R → Bool) → Exec R
  delete p w = deleted (prisma.find_first p (m.get w.db)) (prisma.delete_many p (m.get w.db)).1 w
