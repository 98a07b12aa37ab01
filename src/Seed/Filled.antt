-- ===== src/Seed/Filled.antt =====
-- About prisma/seed.ts: what the database holds afterwards.
use mesyaf_market.Prelude.{◌≡◌, refl, ℕ, suc, false, List, [], ◌∷◌, ◌==◌, String, arith}
use mesyaf_market.Database.Schema.{Role, User}
use mesyaf_market.Database.World.{World, Db, ok}
use mesyaf_market.Database.Rows.{drop_rows, find_row}
use mesyaf_market.Database.Prisma.{reference, with_rows}
use mesyaf_market.Users.{create_user, new_user}
use mesyaf_market.Auth.{Bcrypt}
use mesyaf_market.Seed.{
  account, test_shop, test_deliverer, test_category, test_product, every, clean, fill, add_vendor,
  add_deliverer, add_category, add_products, seed,
}

drop-every : {R : Type 0} (rs : List R) → drop_rows every rs ≡ []
unfolding drop_rows
drop-every [] = refl
drop-every (r ∷ rs) = drop-every rs

-- The database with no rows but the tags.
abbrev pub emptied : Db → Db
emptied d = record d {
  users = with_rows [] d.users;
  vendors = with_rows [] d.vendors;
  products = with_rows [] d.products;
  categories = with_rows [] d.categories;
  images = with_rows [] d.images;
  deliverers = with_rows [] d.deliverers;
  orders = with_rows [] d.orders;
  items = with_rows [] d.items;
  drop_offs = with_rows [] d.drop_offs;
  jobs = with_rows [] d.jobs;
  batches = with_rows [] d.batches;
  events = with_rows [] d.events;
  order_timeline = with_rows [] d.order_timeline;
  job_timeline = with_rows [] d.job_timeline;
}

clean_lem : (w : World) → clean reference w ≡ (ok tt, record w { db = emptied w.db })
unfolding clean
clean_lem w = simp drop-every

-- A user of the seed, by its place.
abbrev pub user_of : String → World → String → String → Role → ℕ → User
user_of password w email name role id = new_user (account email password name role) w.now id

-- The database that the seed leaves, with the hash of the password.
abbrev pub filled : String → World → Db
filled password w =
    let n = w.db.users.next_id in
    let d = w.db.deliverers.next_id in
    let v = w.db.vendors.next_id in
    let c = w.db.categories.next_id in
    let p = w.db.products.next_id in
    record (emptied w.db) {
      users = record {
        rows =
            user_of password w "admin@test.com" "Admin User" Role.admin n
            ∷ user_of password w "customer@test.com" "Test Customer" Role.customer (suc n)
            ∷ user_of password w "vendor@test.com" "Test Vendor" Role.vendor (suc (suc n))
            ∷ user_of password w "deliverer@test.com" "Test Deliverer" Role.deliverer
                (suc (suc (suc n)))
            ∷ user_of password w "deliverer2@test.com" "Test-Deliverer2" Role.deliverer
                (suc (suc (suc (suc n))))
            ∷ [];
        next_id = suc (suc (suc (suc (suc n))));
      };
      vendors = record { rows = test_shop (suc (suc n)) w.now v ∷ []; next_id = suc v };
      deliverers = record {
        rows =
            test_deliverer 4630130893982074309 4630310920584203041 (suc (suc (suc n))) d
            ∷ test_deliverer 4630132532749020410 4630310999886600902 (suc (suc (suc (suc n))))
                (suc d)
            ∷ [];
        next_id = suc (suc d);
      };
      categories = record {
        rows = test_category "General" c ∷ test_category "Food" (suc c) ∷ [];
        next_id = suc (suc c);
      };
      products = record {
        rows =
            test_product "Test Product" v c w.now p
            ∷ test_product "Test-Food-Product" v (suc c) w.now (suc p)
            ∷ [];
        next_id = suc (suc p);
      };
    }

next_differs : (n : ℕ) → (n == suc n) ≡ false
next_differs n = ground arith

fill_lem :
    (password : String) (w : World)
    → fill reference password (record w { db = emptied w.db })
      ≡ (ok tt, record w { db = filled password w })
unfolding fill add_vendor add_deliverer add_category add_products create_user find_row
fill_lem password w = rw (next_differs (suc (suc (suc w.db.users.next_id)))) refl

pub seed_lem :
    (bcrypt : Bcrypt) (salt : String) (w : World)
    → seed reference bcrypt salt w
      ≡ (ok tt, record w { db = filled (bcrypt.hash "password123" salt) w })
unfolding seed
seed_lem bcrypt salt w = rw (clean_lem w) (fill_lem (bcrypt.hash "password123" salt) w)
