-- ===== src/Products/Media.antt =====
-- src/product/product.service.ts: the images and tags of a product.
use mesyaf_market.Prelude.{
  ℕ, Bool, true, false, Option, List, [], ◌∷◌, ◌&&◌, ◌==◌, String, any, is_none,
}
use mesyaf_market.Database.Schema.{Product, ProductImage, ProductTag}
use mesyaf_market.Database.World.{
  World, Exec, pure, throw_if, gets, ◌>>=◌, ◌>>◌, bad_request, record_missing,
}
use mesyaf_market.Database.Prisma.{Prisma, products, images, create, count, update, delete_many}
use mesyaf_market.Products.Ownership.{validate_ownership}

-- AddProductImageDto
pub record ImageDto : Type 0 where
  pub url : String
  pub alt_text : Option String

-- select: { id, name, tags }
pub record TaggedProduct : Type 0 where
  pub id : ℕ
  pub name : String
  pub tags : List ProductTag

-- `tagIds.length === 0`
abbrev pub is_empty : List ℕ → Bool
is_empty [] = true
is_empty (_ ∷ _) = false

module _ (prisma : Prisma) where
  -- The transaction of addProductImage.
  unfoldable pub insert_image : ℕ → ImageDto → Exec (ProductImage × ℕ)
  insert_image product_id dto = do
    img ←
        create prisma images (λ id. record {
          id = id;
          product_id = product_id;
          url = dto.url;
          alt_text = dto.alt_text;
        })
    n ← count prisma images (λ i. i.product_id == product_id)
    pure (img, n)

  -- ProductService.addProductImage
  unfoldable pub add_product_image : ℕ → ℕ → ImageDto → Exec (ProductImage × ℕ)
  add_product_image user_id product_id dto = do
    validate_ownership prisma user_id product_id
    prisma.transaction (insert_image product_id dto)

  -- ProductService.removeProductImage
  unfoldable pub remove_product_image : ℕ → ℕ → ℕ → Exec ℕ
  remove_product_image user_id product_id image_id = do
    validate_ownership prisma user_id product_id
    delete_many prisma images (λ i. i.id == image_id && i.product_id == product_id)

  -- ProductService.clearProductImages
  unfoldable pub clear_product_images : ℕ → ℕ → Exec ℕ
  clear_product_images user_id product_id = do
    validate_ownership prisma user_id product_id
    delete_many prisma images (λ i. i.product_id == product_id)

  -- An id that `connect` does not find.
  abbrev pub has_missing_tag : List ℕ → World → Bool
  has_missing_tag ids w = any (λ id. is_none (prisma.find_first (λ t. t.id == id) w.db.tags)) ids

  abbrev tagged : Product → Exec TaggedProduct
  tagged p = do
    ts ← gets (λ w. prisma.find_many (λ t. any (λ id. id == t.id) p.tags) w.db.tags)
    pure (record { id = p.id; name = p.name; tags = ts })

  -- ProductService.attachTags; Prisma throws P2025 where a tag is not there.
  unfoldable pub attach_tags : ℕ → ℕ → List ℕ → Exec TaggedProduct
  attach_tags user_id product_id tag_ids = do
    validate_ownership prisma user_id product_id
    throw_if (is_empty tag_ids) bad_request
    missing ← gets (has_missing_tag tag_ids)
    throw_if missing record_missing
    p ←
        update prisma products (λ p. p.id == product_id)
          (λ p. record p { tags = prisma.connect tag_ids p.tags })
    tagged p

  -- ProductService.detachTags
  unfoldable pub detach_tags : ℕ → ℕ → List ℕ → Exec TaggedProduct
  detach_tags user_id product_id tag_ids = do
    validate_ownership prisma user_id product_id
    throw_if (is_empty tag_ids) bad_request
    p ←
        update prisma products (λ p. p.id == product_id)
          (λ p. record p { tags = prisma.disconnect tag_ids p.tags })
    tagged p

  -- ProductService.removeAllTags
  unfoldable pub remove_all_tags : ℕ → ℕ → Exec Product
  remove_all_tags user_id product_id = do
    validate_ownership prisma user_id product_id
    update prisma products (λ p. p.id == product_id) (λ p. record p { tags = [] })
