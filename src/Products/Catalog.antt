-- ===== src/Products/Catalog.antt =====
-- src/product/product.service.ts: the reads, over the cache in Redis.
use mesyaf_market.Prelude.{
  magnitude, ℕ, Bool, true, false, none, some, List, ◌&&◌, not, ◌==◌, String, any, map, is_some,
  if◌then◌else◌,
}
use mathlib.Core.Option
use mesyaf_market.Database.Schema.{Product, VendorProfile}
use mesyaf_market.Database.World.{
  Db, Exec, pure, throw_if, or_throw, gets, ◌>>=◌, ◌>>◌, not_found, forbidden, plain,
}
use mesyaf_market.Database.Prisma.{Prisma, vendors, products, find_first, find_many, count}
use mesyaf_market.Database.Cache.{
  Key, product, vendor_page, all_page, Value, one, many, Listed, Page, VendorSummary, Redis,
}
use mesyaf_market.Database.RedisService.{get, set}
use mesyaf_market.Products.Filter.{
  ProductFilter, passes, page_number, page_limit, page_skip, is_negative_skip, is_trusted,
}

-- What the reads use besides Prisma and Redis: JSON.stringify of a filter, and the test of
-- `contains` with mode 'insensitive'.
pub record Texts : Type 0 where
  pub stringify : ProductFilter → String
  pub contains : String → String → Bool

abbrev summary : VendorProfile → VendorSummary
summary v = record { shop_name = v.shop_name; is_active = v.is_active; is_verified = v.is_verified }

-- where: { vendorId, isAvailable: true, … }
abbrev pub is_listed_of : (String → String → Bool) → ProductFilter → ℕ → Product → Bool
is_listed_of contains f vendor_id p =
    p.vendor_id == vendor_id && p.is_available && passes contains f p

module _ (redis : Redis) where
  -- `if (cached) return cached`, else what `fresh` reads, which is cached for `ttl` seconds
  unfoldable pub cached_or : Key → ℕ → Exec Value → Exec Value
  cached_or key ttl fresh = do
    cached ← get redis key
    elim cached [ some v ↦ pure v | none ↦ do v ← fresh; set redis key v ttl; pure v ]

module _ (prisma : Prisma) where
  -- include: { images, tags, category, vendor }, the last two where the query names them
  abbrev pub included : Bool → Bool → Db → Product → Listed
  included with_category with_vendor db p = record {
    row = p;
    images = prisma.find_many (λ i. i.product_id == p.id) db.images;
    tags = prisma.find_many (λ t. any (λ id. id == t.id) p.tags) db.tags;
    category =
        if with_category
        then prisma.find_first (λ c. c.id == p.category_id) db.categories
        else none;
    vendor =
        if with_vendor
        then Option.map summary (prisma.find_first (λ v. v.id == p.vendor_id) db.vendors)
        else none;
  }

  -- product.vendor.isActive and isVerified
  abbrev pub vendor_is_trusted : Db → Product → Bool
  vendor_is_trusted db p =
      is_some (prisma.find_first (λ v. v.id == p.vendor_id && is_trusted v) db.vendors)

  -- where: { isAvailable: true, vendor: { isActive: true, isVerified: true }, … }
  abbrev pub is_listed : (String → String → Bool) → ProductFilter → Db → Product → Bool
  is_listed contains f db p = p.is_available && vendor_is_trusted db p && passes contains f p

  -- The page of the rows that a query found, of which there are `total`.
  abbrev pub page_from : ProductFilter → Bool → Db → List Product → ℕ → Page
  page_from f with_category db rows total = record {
    products =
        map {A = Product} {B = Listed} (included with_category false db)
          (prisma.page_of (magnitude (page_skip f)) (page_limit f) rows);
    total = total;
    page = page_number f;
    limit = page_limit f;
  }

  -- The two queries of getAllProducts.
  unfoldable pub query_all : (String → String → Bool) → ProductFilter → Exec Page
  query_all contains f = do
    throw_if (is_negative_skip f) plain
    db ← gets (λ w. w.db)
    rows ← find_many prisma products (is_listed contains f db)
    total ← count prisma products (is_listed contains f db)
    pure (page_from f false db rows total)

  -- The two queries of fetchProductsForVendor, the newest product first.
  unfoldable pub query_vendor : (String → String → Bool) → ProductFilter → ℕ → Exec Page
  query_vendor contains f vendor_id = do
    throw_if (is_negative_skip f) plain
    db ← gets (λ w. w.db)
    rows ← find_many prisma products (is_listed_of contains f vendor_id)
    total ← count prisma products (is_listed_of contains f vendor_id)
    pure (page_from f true db (prisma.order_by_desc (λ p. p.created_at) rows) total)

  module _ (texts : Texts) where
    -- What getAllProducts and fetchProductsForVendor read where the cache has no page.
    unfoldable pub read_all : ProductFilter → Exec Value
    read_all f = prisma.transaction (query_all texts.contains f) >>= λ p. pure (many p)

    unfoldable pub read_vendor : ℕ → ProductFilter → Exec Value
    read_vendor vendor_id f =
        prisma.transaction (query_vendor texts.contains f vendor_id) >>= λ p. pure (many p)

  -- `!product.vendor.isActive || !product.vendor.isVerified` is refused.
  abbrev pub is_shown : Listed → Bool
  is_shown p =
      p.row.is_available && elim p.vendor [ none ↦ false | some v ↦ v.is_active && v.is_verified ]

  -- The query of getProductById.
  unfoldable pub query_product : ℕ → Exec Value
  query_product id = do
    found ← find_first prisma products (λ p. p.id == id)
    row ← or_throw found not_found
    db ← gets (λ w. w.db)
    throw_if (not (is_shown (included true true db row))) not_found
    pure (one (included true true db row))

  module _ (redis : Redis) where
    module _ (texts : Texts) where
      -- ProductService.getAllProducts
      unfoldable pub get_all_products : ProductFilter → Exec Value
      unfolding cached_or
      get_all_products f = cached_or redis (all_page (texts.stringify f)) 300 (read_all texts f)

      -- ProductService.fetchProductsForVendor
      unfoldable pub fetch_products_for_vendor : ℕ → ProductFilter → Exec Value
      unfolding cached_or
      fetch_products_for_vendor vendor_id f = do
        found ← find_first prisma vendors (λ v. v.id == vendor_id)
        vendor ← or_throw found not_found
        throw_if (not (is_trusted vendor)) forbidden
        cached_or redis (vendor_page vendor_id (texts.stringify f)) 300
            (read_vendor texts vendor_id f)

      -- ProductService.getVendorProducts
      unfoldable pub get_vendor_products : ℕ → ProductFilter → Exec Value
      get_vendor_products = fetch_products_for_vendor

      -- ProductService.getVendorProductsByUser
      unfoldable pub get_vendor_products_by_user : ℕ → ProductFilter → Exec Value
      unfolding fetch_products_for_vendor
      get_vendor_products_by_user user_id f = do
        found ← find_first prisma vendors (λ v. v.user_id == user_id)
        vendor ← or_throw found not_found
        throw_if (not (is_trusted vendor)) forbidden
        fetch_products_for_vendor vendor.id f

    -- ProductService.getProductById
    unfoldable pub get_product_by_id : ℕ → Exec Value
    unfolding cached_or
    get_product_by_id id = cached_or redis (product id) 600 (query_product id)
