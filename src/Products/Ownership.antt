-- ===== src/Products/Ownership.antt =====
-- src/product/product.service.ts: the checks before a write, and the keys that a write drops.
use mesyaf_market.Prelude.{ℕ, Bool, true, false, not, ◌==◌}
use mesyaf_market.Database.World.{
  Exec, pure, throw_if, or_throw, for_each, ◌>>=◌, ◌>>◌, not_found, forbidden,
}
use mesyaf_market.Database.Prisma.{Prisma, vendors, products, find_first}
use mesyaf_market.Database.Cache.{Key, vendor_page, all_page, Redis}
use mesyaf_market.Database.RedisService.{del, keys_by_pattern}
use mesyaf_market.Products.Filter.{is_trusted}

-- products:all:*
abbrev pub is_all_page : Key → Bool
is_all_page (all_page f) = true
is_all_page _ = false

-- products:vendor:${vendorId}:*
abbrev pub is_vendor_page : ℕ → Key → Bool
is_vendor_page vendor_id (vendor_page v f) = v == vendor_id
is_vendor_page vendor_id _ = false

module _ (redis : Redis) where
  -- ProductService.invalidateAllProductsCache
  unfoldable pub invalidate_all_products : Exec (Unit {0})
  invalidate_all_products = keys_by_pattern redis is_all_page >>= for_each (del redis)

  -- ProductService.invalidateVendorProductsCache
  unfoldable pub invalidate_vendor_products : ℕ → Exec (Unit {0})
  invalidate_vendor_products vendor_id =
      keys_by_pattern redis (is_vendor_page vendor_id) >>= for_each (del redis)

-- ProductService.validateOwnershipAndGetProduct; the answer is the id of the vendor.
unfoldable pub validate_ownership : Prisma → ℕ → ℕ → Exec ℕ
validate_ownership prisma user_id product_id = do
  found ← find_first prisma vendors (λ v. v.user_id == user_id)
  vendor ← or_throw found not_found
  throw_if (not (is_trusted vendor)) forbidden
  found_product ← find_first prisma products (λ p. p.id == product_id)
  p ← or_throw found_product not_found
  throw_if (not (p.vendor_id == vendor.id)) forbidden
  pure vendor.id
