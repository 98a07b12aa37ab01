-- ===== src/Products/Calls.antt =====
-- src/product/product.service.ts: the calls that change a product that is there.
use mesyaf_market.Prelude.{ℕ, Bool, false, none, some, List, ◌&&◌, ◌==◌}
use mesyaf_market.Database.World.{World, Exec, pure, ◌>>◌}
use mesyaf_market.Database.Prisma.{Prisma}
use mesyaf_market.Database.Cache.{Redis}
use mesyaf_market.Products.Filter.{is_trusted}
use mesyaf_market.Products.Editing.{ProductUpdate, update_product, delete_product}
use mesyaf_market.Products.Media.{
  ImageDto, add_product_image, remove_product_image, clear_product_images, attach_tags, detach_tags,
  remove_all_tags,
}

-- The routes of a product; the user and the product are given to each.
pub data ProductCall : Type 0 where
  update : ProductUpdate → ProductCall
  delete : ProductCall
  add_image : ImageDto → ProductCall
  remove_image : (image_id : ℕ) → ProductCall
  clear_images : ProductCall
  attach detach : (tag_ids : List ℕ) → ProductCall
  remove_tags : ProductCall

module _ (prisma : Prisma) (redis : Redis) (user_id product_id : ℕ) where
  unfoldable pub run : ProductCall → Exec (Unit {0})
  run (update dto) = update_product prisma redis user_id product_id dto >> pure tt
  run delete = delete_product prisma redis user_id product_id
  run (add_image dto) = add_product_image prisma user_id product_id dto >> pure tt
  run (remove_image id) = remove_product_image prisma user_id product_id id >> pure tt
  run clear_images = clear_product_images prisma user_id product_id >> pure tt
  run (attach ids) = attach_tags prisma user_id product_id ids >> pure tt
  run (detach ids) = detach_tags prisma user_id product_id ids >> pure tt
  run remove_tags = remove_all_tags prisma user_id product_id >> pure tt

-- The user has an active and verified profile, and the product is that vendor's.
unfoldable pub owns : Prisma → World → ℕ → ℕ → Bool
owns prisma w user_id product_id =
    elim (prisma.find_first (λ v. v.user_id == user_id) w.db.vendors) [
      | none ↦ false
      | some v ↦ is_trusted v && elim (prisma.find_first (λ p. p.id == product_id) w.db.products) [
        | none ↦ false
        | some p ↦ p.vendor_id == v.id
      ]
    ]
