-- ===== src/Http/Catalog.antt =====
-- src/product/product.controller.ts, and the envelopes of src/product/product.service.ts. A path's
-- id that is no number is refused before the handler.
use mesyaf_market.Prelude.{ℕ, none, some, List, [], ◌∷◌}
use mesyaf_market.Database.Schema.{Role, Product, ProductImage}
use mesyaf_market.Database.World.{Exec, pure, ◌>>=◌, ◌>>◌}
use mesyaf_market.Database.Prisma.{Prisma}
use mesyaf_market.Database.Cache.{Redis, Value, Listed}
use mesyaf_market.Products.Filter.{ProductFilter}
use mesyaf_market.Products.Catalog.{
  Texts, get_all_products, get_vendor_products, get_vendor_products_by_user, get_product_by_id,
}
use mesyaf_market.Products.Editing.{
  ProductDto, ProductUpdate, create_product, update_product, delete_product,
}
use mesyaf_market.Products.Media.{
  ImageDto, TaggedProduct, add_product_image, remove_product_image, clear_product_images,
  attach_tags, detach_tags, remove_all_tags,
}
use mesyaf_market.Http.Guards.{Caller, signed_in, with_role, Envelope, success_with, created_with}

abbrev vendors_only : List Role
vendors_only = Role.vendor ∷ []

module _ (prisma : Prisma) (redis : Redis) where
  -- POST product/products
  unfoldable pub post_product : Caller → ProductDto → Exec (Envelope Listed)
  post_product caller dto = do
    user ← with_role vendors_only caller
    p ← create_product prisma redis user.id dto
    pure (created_with "Product created successfully" (some p))

  -- PATCH product/products/:id
  unfoldable pub patch_product : Caller → ProductUpdate → ℕ → Exec (Envelope Listed)
  patch_product caller dto product_id = do
    user ← with_role vendors_only caller
    p ← update_product prisma redis user.id product_id dto
    pure (success_with "Product updated successfully" (some p))

  -- DELETE product/products/:id
  unfoldable pub drop_product : Caller → ℕ → Exec (Envelope (Unit {0}))
  drop_product caller product_id = do
    user ← with_role vendors_only caller
    delete_product prisma redis user.id product_id
    pure (success_with "Product deleted successfully" none)

  -- GET product/products/:id
  unfoldable pub read_product : Caller → ℕ → Exec (Envelope Value)
  read_product caller product_id = do
    signed_in caller
    v ← get_product_by_id prisma redis product_id
    pure (success_with "Product fetched successfully" (some v))

  module _ (texts : Texts) where
    -- GET product/products/me
    unfoldable pub read_own_products : Caller → ProductFilter → Exec (Envelope Value)
    read_own_products caller filter = do
      user ← with_role vendors_only caller
      v ← get_vendor_products_by_user prisma redis texts user.id filter
      pure (success_with "Vendor products fetched successfully" (some v))

    -- GET product/products/vendor/:vendorId
    unfoldable pub read_vendor_products : Caller → ℕ → ProductFilter → Exec (Envelope Value)
    read_vendor_products caller vendor_id filter = do
      signed_in caller
      v ← get_vendor_products prisma redis texts vendor_id filter
      pure (success_with "Vendor products fetched successfully" (some v))

    -- GET product/products
    unfoldable pub read_products : ProductFilter → Exec (Envelope Value)
    read_products filter = do
      v ← get_all_products prisma redis texts filter
      pure (success_with "Products fetched successfully" (some v))

module _ (prisma : Prisma) where
  -- POST product/products/:id/images
  unfoldable pub post_image : Caller → ℕ → ImageDto → Exec (Envelope (ProductImage × ℕ))
  post_image caller product_id dto = do
    user ← with_role vendors_only caller
    r ← add_product_image prisma user.id product_id dto
    pure (success_with "Image added successfully" (some r))

  -- DELETE product/products/:productId/images/:imageId
  unfoldable pub drop_image : Caller → ℕ → ℕ → Exec (Envelope ℕ)
  drop_image caller product_id image_id = do
    user ← with_role vendors_only caller
    n ← remove_product_image prisma user.id product_id image_id
    pure (success_with "Image removed successfully" (some n))

  -- DELETE product/products/:productId/images
  unfoldable pub drop_images : Caller → ℕ → Exec (Envelope ℕ)
  drop_images caller product_id = do
    user ← with_role vendors_only caller
    n ← clear_product_images prisma user.id product_id
    pure (success_with "All images removed successfully" (some n))

  -- POST product/products/:id/tags
  unfoldable pub post_tags : Caller → ℕ → List ℕ → Exec (Envelope TaggedProduct)
  post_tags caller product_id tag_ids = do
    user ← with_role vendors_only caller
    r ← attach_tags prisma user.id product_id tag_ids
    pure (success_with "Tags added successfully" (some r))

  -- DELETE product/products/:id/tags
  unfoldable pub drop_tags : Caller → ℕ → List ℕ → Exec (Envelope TaggedProduct)
  drop_tags caller product_id tag_ids = do
    user ← with_role vendors_only caller
    r ← detach_tags prisma user.id product_id tag_ids
    pure (success_with "Tags removed successfully" (some r))

  -- DELETE product/products/:id/tags/all
  unfoldable pub drop_all_tags : Caller → ℕ → Exec (Envelope Product)
  drop_all_tags caller product_id = do
    user ← with_role vendors_only caller
    p ← remove_all_tags prisma user.id product_id
    pure (success_with "All tags removed successfully" (some p))
