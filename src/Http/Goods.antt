-- ===== src/Http/Goods.antt =====
-- The operations on products leave what is not of the catalogue alone.
use mesyaf_market.Prelude.{◌≡◌, ℕ, List}
use mesyaf_market.Database.Schema.{Product, ProductImage}
use mesyaf_market.Database.World.{Db, Table}
use mesyaf_market.Database.Prisma.{Prisma, Documented}
use mesyaf_market.Database.Cache.{Redis}
use mesyaf_market.Database.Keeps.{
  Keeps, keeps, Keeps-transaction, Keeps-create, Keeps-update, Keeps-delete_many, Keeps-delete,
}
use mesyaf_market.Products.Ownership.{
  validate_ownership, invalidate_all_products, invalidate_vendor_products,
}
use mesyaf_market.Products.Editing.{
  ProductDto, ProductUpdate, create_product, create_for, update_product, update_for, delete_product,
  delete_for, delete_rows,
}
use mesyaf_market.Products.Media.{
  ImageDto, insert_image, add_product_image, remove_product_image, clear_product_images,
  attach_tags, detach_tags, remove_all_tags,
}

-- A part of the database without the products and their images.
pub record SkipsCatalog {X : Type 0} (get : Db → X) : Type 0 where
  pub products_put : (t : Table Product) (d : Db) → get (record d { products = t }) ≡ get d
  pub images_put : (t : Table ProductImage) (d : Db) → get (record d { images = t }) ≡ get d

ruleset touches = (keeps, Keeps-create, Keeps-update, Keeps-delete_many, Keeps-delete)

module _ {X : Type 0} {get : Db → X} (k : SkipsCatalog get) {prisma : Prisma}
    (d : Documented prisma) where
  Keeps-ownership : (u id : ℕ) → Keeps get (validate_ownership prisma u id)
  unfolding validate_ownership
  Keeps-ownership u id = search keeps depth 12

  Keeps-insert_image : (id : ℕ) (dto : ImageDto) → Keeps get (insert_image prisma id dto)
  unfolding insert_image
  Keeps-insert_image id dto = search (touches, k.products_put, k.images_put) depth 12

  pub Keeps-add_image : (u id : ℕ) (dto : ImageDto) → Keeps get (add_product_image prisma u id dto)
  unfolding add_product_image
  Keeps-add_image u id dto =
      search
        (
          touches,
          k.products_put,
          k.images_put,
          Keeps-ownership,
          Keeps-insert_image,
          Keeps-transaction d,
        )
        depth 12

  pub Keeps-remove_image : (u id i : ℕ) → Keeps get (remove_product_image prisma u id i)
  unfolding remove_product_image
  Keeps-remove_image u id i =
      search (touches, k.products_put, k.images_put, Keeps-ownership) depth 12

  pub Keeps-clear_images : (u id : ℕ) → Keeps get (clear_product_images prisma u id)
  unfolding clear_product_images
  Keeps-clear_images u id = search (touches, k.products_put, k.images_put, Keeps-ownership) depth 12

  pub Keeps-attach : (u id : ℕ) (ts : List ℕ) → Keeps get (attach_tags prisma u id ts)
  unfolding attach_tags
  Keeps-attach u id ts = search (touches, k.products_put, k.images_put, Keeps-ownership) depth 12

  pub Keeps-detach : (u id : ℕ) (ts : List ℕ) → Keeps get (detach_tags prisma u id ts)
  unfolding detach_tags
  Keeps-detach u id ts = search (touches, k.products_put, k.images_put, Keeps-ownership) depth 12

  pub Keeps-remove_tags : (u id : ℕ) → Keeps get (remove_all_tags prisma u id)
  unfolding remove_all_tags
  Keeps-remove_tags u id = search (touches, k.products_put, k.images_put, Keeps-ownership) depth 12

  module _ (redis : Redis) where
    Keeps-no_pages : Keeps get (invalidate_all_products redis)
    unfolding invalidate_all_products
    Keeps-no_pages = search keeps depth 12

    Keeps-no_vendor_pages : (v : ℕ) → Keeps get (invalidate_vendor_products redis v)
    unfolding invalidate_vendor_products
    Keeps-no_vendor_pages v = search keeps depth 12

    pub Keeps-new_product :
        (u : ℕ) (dto : ProductDto) → Keeps get (create_product prisma redis u dto)
    unfolding create_product create_for
    Keeps-new_product u dto =
        search (touches, k.products_put, k.images_put, Keeps-no_pages, Keeps-no_vendor_pages) depth
          16

    pub Keeps-update_product :
        (u id : ℕ) (dto : ProductUpdate) → Keeps get (update_product prisma redis u id dto)
    unfolding update_product update_for
    Keeps-update_product u id dto =
        search (touches, k.products_put, k.images_put, Keeps-ownership, Keeps-no_vendor_pages) depth
          16

    Keeps-delete_rows : (id : ℕ) → Keeps get (delete_rows prisma id)
    unfolding delete_rows
    Keeps-delete_rows id = search (touches, k.products_put, k.images_put) depth 12

    pub Keeps-delete_product : (u id : ℕ) → Keeps get (delete_product prisma redis u id)
    unfolding delete_product delete_for
    Keeps-delete_product u id =
        search
          (
            touches,
            k.products_put,
            k.images_put,
            Keeps-ownership,
            Keeps-no_vendor_pages,
            Keeps-delete_rows,
            Keeps-transaction d,
          )
          depth 16
