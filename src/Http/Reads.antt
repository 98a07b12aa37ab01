-- ===== src/Http/Reads.antt =====
-- The requests of the method GET change no table.
use mesyaf_market.Prelude.{◌≡◌, ℕ, Option, none, some, List}
use mesyaf_market.Database.Schema.{Role}
use mesyaf_market.Database.World.{Db, World, Exec, ◌>>=◌, ◌>>◌, pure}
use mesyaf_market.Database.Prisma.{Prisma, Documented}
use mesyaf_market.Database.Cache.{Redis, Key, Value}
use mesyaf_market.Database.Keeps.{Keeps, keeps, Keeps-transaction}
use mesyaf_market.Database.RedisService.{set}
use mesyaf_market.Access.{get_job_timeline, get_order_timeline}
use mesyaf_market.Products.Filter.{ProductFilter}
use mesyaf_market.Products.Catalog.{
  Texts, cached_or, read_all, read_vendor, query_all, query_vendor, query_product, get_all_products,
  fetch_products_for_vendor, get_vendor_products, get_vendor_products_by_user, get_product_by_id,
}
use mesyaf_market.Vendor.Profiles.{
  get_profile_by_user_id, get_profile_by_vendor_id, get_all_vendors, get_vendor_orders,
}
use mesyaf_market.Vendor.Admin.{get_all_users, get_pending_vendors}
use mesyaf_market.Users.{find_all, find_one, get_user_orders}
use mesyaf_market.Delivery.Profiles.{get_profile}
use mesyaf_market.Delivery.Jobs.{get_deliverer_jobs}
use mesyaf_market.Http.Catalog.{read_products, read_product, read_vendor_products}
use mesyaf_market.Http.Shops.{read_own_profile, read_shop, read_vendor_orders}
use mesyaf_market.Http.Admin.{read_users, read_pending}
use mesyaf_market.Http.Accounts.{read_all_users, read_me, read_own_orders}
use mesyaf_market.Http.Deliveries.{
  test_error, read_own_deliverer, read_jobs, read_deliverer, read_job_timeline, read_order_timeline,
}
use mesyaf_market.Http.Requests.{
  Server, Read, read, products, caller_of, serve_read, serve_for, serve,
}
use mesyaf_market.Http.Guards.{Caller, signed_in, with_role, without_user}

module _ {X : Type 0} {get : Db → X} where
  pub Keeps-signed_in : (caller : Caller) → Keeps get (signed_in caller)
  unfolding signed_in
  Keeps-signed_in caller = search keeps

  pub Keeps-with_role : (roles : List Role) (caller : Caller) → Keeps get (with_role roles caller)
  unfolding with_role
  Keeps-with_role roles caller = search keeps

  pub Keeps-without_user : (roles : List Role) → Keeps get (without_user roles)
  unfolding without_user
  Keeps-without_user roles = search keeps

  module _ (redis : Redis) (k : Key) (ttl : ℕ) (fresh : Exec Value) (h : Keeps get fresh) where
    Keeps-missed :
        (cached : Option Value)
        → Keeps get (elim cached as (λ x. Exec Value) [
          | some v ↦ pure v
          | none ↦ do v ← fresh; set redis k v ttl; pure v
        ])
    Keeps-missed none = search keeps
    Keeps-missed (some v) = search keeps

    Keeps-cached_or : Keeps get (cached_or redis k ttl fresh)
    unfolding cached_or
    Keeps-cached_or = search (keeps, Keeps-missed)

  module _ {prisma : Prisma} (d : Documented prisma) (redis : Redis) where
    Keeps-query_product : (id : ℕ) → Keeps get (query_product prisma id)
    unfolding query_product
    Keeps-query_product id = search keeps

    pub Keeps-product : (id : ℕ) → Keeps get (get_product_by_id prisma redis id)
    unfolding get_product_by_id
    Keeps-product id = search (keeps, Keeps-cached_or, Keeps-query_product)

    module _ (texts : Texts) where
      Keeps-read_all : (f : ProductFilter) → Keeps get (read_all prisma texts f)
      unfolding read_all query_all
      Keeps-read_all f = search (keeps, Keeps-transaction d)

      Keeps-read_vendor : (v : ℕ) (f : ProductFilter) → Keeps get (read_vendor prisma texts v f)
      unfolding read_vendor query_vendor
      Keeps-read_vendor v f = search (keeps, Keeps-transaction d)

      pub Keeps-all : (f : ProductFilter) → Keeps get (get_all_products prisma redis texts f)
      unfolding get_all_products
      Keeps-all f = search (keeps, Keeps-cached_or, Keeps-read_all)

      Keeps-fetch :
          (v : ℕ) (f : ProductFilter) → Keeps get (fetch_products_for_vendor prisma redis texts v f)
      unfolding fetch_products_for_vendor
      Keeps-fetch v f = search (keeps, Keeps-cached_or, Keeps-read_vendor)

      pub Keeps-of_vendor :
          (v : ℕ) (f : ProductFilter) → Keeps get (get_vendor_products prisma redis texts v f)
      unfolding get_vendor_products
      Keeps-of_vendor v f = search (keeps, Keeps-fetch)

      pub Keeps-of_user :
          (u : ℕ) (f : ProductFilter)
          → Keeps get (get_vendor_products_by_user prisma redis texts u f)
      unfolding get_vendor_products_by_user
      Keeps-of_user u f = search (keeps, Keeps-fetch)

abbrev pub same : Db → Db
same d = d

module _ (s : Server) (d : Documented s.prisma) (caller : Caller) where
  pub Keeps-read : (r : Read) → Keeps same (serve_read s caller r)
  unfolding serve_read read_products read_product read_vendor_products read_own_profile read_shop
      read_vendor_orders read_users read_pending read_all_users read_me read_own_orders
      read_own_deliverer read_jobs read_deliverer read_job_timeline read_order_timeline test_error
      get_profile_by_user_id get_profile_by_vendor_id get_all_vendors get_vendor_orders
      get_all_users get_pending_vendors find_all find_one get_user_orders get_profile
      get_deliverer_jobs get_job_timeline get_order_timeline
  Keeps-read (products f) = search (keeps, Keeps-all d)
  Keeps-read _ =
      search
        (
          keeps,
          Keeps-signed_in,
          Keeps-with_role,
          Keeps-without_user,
          Keeps-product d,
          Keeps-all d,
          Keeps-of_vendor d,
          Keeps-of_user d,
        )
        depth 12

-- A GET request, but GET order/test-batch/:batchId, changes no table, whoever sends it.
pub reads_change_nothing :
    (s : Server)
    → Documented s.prisma
    → (token : Option s.jwt.Token) (r : Read) (w : World) → (serve s token (read r) w).1.db ≡ w.db
unfolding serve serve_for
reads_change_nothing s d token r w = (Keeps-read s d (caller_of s token w) r).at w
