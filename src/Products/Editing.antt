-- ===== src/Products/Editing.antt =====
-- src/product/product.service.ts: creation, update and deletion of a product.
use mesyaf_market.Prelude.{ℕ, Bool, true, false, Option, none, some, [], not, ◌==◌, String, or_else}
use mesyaf_market.Database.Schema.{Float, Condition, Product, VendorProfile}
use mesyaf_market.Database.World.{Exec, pure, throw_if, or_throw, gets, ◌>>=◌, ◌>>◌, forbidden}
use mesyaf_market.Database.Prisma.{
  Prisma, vendors, products, images, find_first, create, update, delete_many, delete,
}
use mesyaf_market.Database.Cache.{product, Listed, Redis}
use mesyaf_market.Database.RedisService.{del}
use mesyaf_market.Products.Filter.{is_trusted}
use mesyaf_market.Products.Ownership.{
  invalidate_all_products, invalidate_vendor_products, validate_ownership,
}
use mesyaf_market.Products.Catalog.{included}

pub record ProductDto : Type 0 where
  pub name : String
  pub category_id : ℕ
  pub description : Option String
  pub condition : Condition
  pub price : Float
  pub discount_price : Option Float
  pub stock_quantity : Option ℕ
  pub is_available : Bool

-- UpdateProductDto, the partial type; a key that it does not have leaves the column.
pub record ProductUpdate : Type 0 where
  pub name : Option String
  pub category_id : Option ℕ
  pub description : Option String
  pub condition : Option Condition
  pub price : Option Float
  pub discount_price : Option Float
  pub stock_quantity : Option ℕ
  pub is_available : Option Bool

abbrev given {ℓ} : {A : Type ℓ} → Option A → Option A → Option A
given none old = old
given (some a) old = some a

abbrev pub new_product : ProductDto → ℕ → ℕ → ℕ → Product
new_product dto vendor_id now id = record {
  id = id;
  vendor_id = vendor_id;
  category_id = dto.category_id;
  name = dto.name;
  description = dto.description;
  price = dto.price;
  discount_price = dto.discount_price;
  stock_quantity = or_else dto.stock_quantity 0;
  condition = dto.condition;
  is_available = dto.is_available;
  tags = [];
  created_at = now;
}

abbrev pub with_update : ProductUpdate → Product → Product
with_update dto p = record p {
  name = or_else dto.name p.name;
  category_id = or_else dto.category_id p.category_id;
  description = given dto.description p.description;
  condition = or_else dto.condition p.condition;
  price = or_else dto.price p.price;
  discount_price = given dto.discount_price p.discount_price;
  stock_quantity = or_else dto.stock_quantity p.stock_quantity;
  is_available = or_else dto.is_available p.is_available;
}

module _ (prisma : Prisma) where
  -- The transaction of deleteProduct.
  unfoldable pub delete_rows : ℕ → Exec (Unit {0})
  delete_rows product_id = do
    update prisma products (λ p. p.id == product_id) (λ p. record p { tags = [] })
    delete_many prisma images (λ i. i.product_id == product_id)
    delete prisma products (λ p. p.id == product_id)
    pure tt

  module _ (redis : Redis) where
    -- The rest of createProduct, for a vendor that may sell.
    unfoldable pub create_for : ProductDto → VendorProfile → Exec Listed
    create_for dto vendor = do
      now ← gets (λ w. w.now)
      p ← create prisma products (new_product dto vendor.id now)
      db ← gets (λ w. w.db)
      invalidate_vendor_products redis vendor.id
      invalidate_all_products redis
      pure (included prisma true false db p)

    -- ProductService.createProduct
    unfoldable pub create_product : ℕ → ProductDto → Exec Listed
    create_product user_id dto = do
      found ← find_first prisma vendors (λ v. v.user_id == user_id)
      vendor ← or_throw found forbidden
      throw_if (not (is_trusted vendor)) forbidden
      create_for dto vendor

    -- The rest of updateProduct, for a product of the vendor.
    unfoldable pub update_for : ℕ → ProductUpdate → ℕ → Exec Listed
    update_for product_id dto vendor_id = do
      p ← update prisma products (λ p. p.id == product_id) (with_update dto)
      db ← gets (λ w. w.db)
      del redis (product product_id)
      invalidate_vendor_products redis vendor_id
      pure (included prisma true false db p)

    -- ProductService.updateProduct
    unfoldable pub update_product : ℕ → ℕ → ProductUpdate → Exec Listed
    update_product user_id product_id dto =
        validate_ownership prisma user_id product_id >>= update_for product_id dto

    -- The rest of deleteProduct, for a product of the vendor.
    unfoldable pub delete_for : ℕ → ℕ → Exec (Unit {0})
    delete_for product_id vendor_id = do
      prisma.transaction (delete_rows product_id)
      del redis (product product_id)
      invalidate_vendor_products redis vendor_id

    -- ProductService.deleteProduct
    unfoldable pub delete_product : ℕ → ℕ → Exec (Unit {0})
    delete_product user_id product_id =
        validate_ownership prisma user_id product_id >>= delete_for product_id
