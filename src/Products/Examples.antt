-- ===== src/Products/Examples.antt =====
-- Examples for the products.
use mesyaf_market.Prelude.{
  pos, ◌≡◌, refl, sym, ◌∙◌, true, false, some, none, ◌∷◌, [], ◌==◌, str_eq, any,
}
use mesyaf_market.Database.Schema.{Product, Condition}
use mesyaf_market.Database.World.{World, Error, ok, err, not_found}
use mesyaf_market.Database.Cache.{
  Entry, Listed, Page, one, many, product, all_page, redis_reference, redis_reference-Documented,
}
use mesyaf_market.Database.Rows.{
  find_row, filter_rows, count_rows, drop_rows, update_rows, sort_rows_desc, insert_row_desc,
}
use mesyaf_market.Database.World.{for_each}
use mesyaf_market.Database.Prisma.{reference, reference-Documented}
use mesyaf_market.Products.Filter.{ProductFilter}
use mesyaf_market.Products.Ownership.{
  validate_ownership, invalidate_all_products, invalidate_vendor_products,
}
use mesyaf_market.Products.Catalog.{
  Texts, get_all_products, get_vendor_products, get_product_by_id, read_all, read_vendor,
  query_vendor, is_listed_of,
}
use mesyaf_market.Products.Editing.{
  ProductDto, create_product, create_for, delete_product, delete_for, delete_rows,
}
use mesyaf_market.Products.Calls.{run, owns, delete, attach}
use mesyaf_market.Products.Media.{attach_tags}
use mesyaf_market.Products.Coherent.{listings, answers, listings_refine_tables}
use mesyaf_market.Products.Fresh.{created_product_is_read}
use mesyaf_market.Products.Pages.{IsPageOf, rows_of, vendor_page_is_bounded}
use mesyaf_market.Database.Sorted.{IsDescending}
use mesyaf_market.Products.Owners.{strangers_change_nothing}
use mesyaf_market.Products.Stale.{deleted_product_is_gone, cached_page_outlives_changes}
use mesyaf_market.Sample.{placed, table, shop}

abbrev bread : Product
bread = record {
  id = 1;
  vendor_id = 1;
  category_id = 1;
  name = "Bread";
  description = none;
  price = 3;
  discount_price = none;
  stock_quantity = 5;
  condition = Condition.new;
  is_available = true;
  tags = [];
  created_at = 50;
}

abbrev shown : Product → Listed
shown p = record { row = p; images = []; tags = []; category = none; vendor = none }

abbrev texts : Texts
texts = record { stringify = λ f. "{}"; contains = λ a b. str_eq a b }

abbrev any_product : ProductFilter
any_product = record {
  category_id = none;
  tag_ids = none;
  search = none;
  page = none;
  limit = none;
}

abbrev bread_page : Page
bread_page = record { products = shown bread ∷ []; total = 1; page = pos 1; limit = pos 10 }

abbrev cached : Entry
cached = record { key = all_page "{}"; value = many bread_page; expires_at = some 1200000 }

abbrev cached_bread : Entry
cached_bread = record { key = product 1; value = one (shown bread); expires_at = some 1500000 }

-- A shop with one product, which is cached, as is the first page of all products.
abbrev stocked : World
stocked = record placed {
  db = record placed.db { products = table (bread ∷ []) };
  cache = cached ∷ cached_bread ∷ [];
}

abbrev cake : ProductDto
cake = record {
  name = "Cake";
  category_id = 1;
  description = none;
  condition = Condition.new;
  price = 9;
  discount_price = none;
  stock_quantity = none;
  is_available = true;
}

abbrev new_cake : Product
new_cake = record bread {
  id = 10;
  name = "Cake";
  price = 9;
  stock_quantity = 0;
  created_at = 1000000;
}

created : (create_product reference redis_reference 2 cake stocked).0 ≡ ok (shown new_cake)
unfolding create_product create_for invalidate_all_products invalidate_vendor_products for_each
    find_row filter_rows drop_rows
created = refl

its_shop :
    find_row
      (λ r. r.id == 1)
      (create_product reference redis_reference 2 cake stocked).1.db.vendors.rows
    ≡ some shop
unfolding create_product create_for invalidate_all_products invalidate_vendor_products for_each
    find_row filter_rows drop_rows
its_shop = refl

created_product_is_read_example :
    ((get_all_products reference redis_reference texts any_product
        (create_product reference redis_reference 2 cake stocked).1).0
      ≡ (read_all reference texts any_product
          (create_product reference redis_reference 2 cake stocked).1).0)
    × ((get_vendor_products reference redis_reference texts 1 any_product
          (create_product reference redis_reference 2 cake stocked).1).0
        ≡ (read_vendor reference texts 1 any_product
            (create_product reference redis_reference 2 cake stocked).1).0)
created_product_is_read_example =
    created_product_is_read reference-Documented redis_reference-Documented texts 2 cake stocked
      (shown new_cake) shop any_product created its_shop refl

queried_vendor : (query_vendor reference texts.contains any_product 1 stocked).0 ≡ ok bread_page
unfolding query_vendor find_row filter_rows count_rows sort_rows_desc insert_row_desc
queried_vendor = refl

vendor_page_is_bounded_example :
    IsPageOf
      (is_listed_of texts.contains any_product 1)
      (pos 10)
      stocked.db.products.rows
      bread_page
    × IsDescending (λ p. p.created_at) (rows_of bread_page.products)
vendor_page_is_bounded_example =
    vendor_page_is_bounded reference-Documented texts.contains any_product 1 stocked bread_page
      queried_vendor

stranger : owns reference stocked 1 1 ≡ false
unfolding owns find_row
stranger = refl

strangers_change_nothing_example :
    (e : Error) × (run reference redis_reference 1 1 delete stocked ≡ (err e, stocked))
strangers_change_nothing_example =
    strangers_change_nothing reference-Documented redis_reference-Documented delete 1 1 stocked
      stranger

unknown_tag :
    (run reference redis_reference 2 1 (attach (7 ∷ [])) stocked).0 ≡ err Error.record_missing
unfolding run attach_tags validate_ownership find_row any
unknown_tag = refl

deleted : (delete_product reference redis_reference 2 1 stocked).0 ≡ ok tt
unfolding delete_product delete_for delete_rows validate_ownership invalidate_vendor_products
    for_each find_row filter_rows drop_rows update_rows
deleted = refl

deleted_product_is_gone_example :
    (get_product_by_id reference redis_reference 1
      (delete_product reference redis_reference 2 1 stocked).1).0
    ≡ err not_found
deleted_product_is_gone_example =
    deleted_product_is_gone reference-Documented redis_reference-Documented 2 1 stocked deleted

the_page : redis_reference.get (all_page "{}") stocked.now stocked.cache ≡ some (many bread_page)
unfolding find_row
the_page = refl

cached_page_outlives_changes_example :
    (get_all_products reference redis_reference texts any_product
      (run reference redis_reference 2 1 delete stocked).1).0
    ≡ ok (many bread_page)
cached_page_outlives_changes_example =
    cached_page_outlives_changes reference-Documented redis_reference-Documented texts delete 2 1
      any_product stocked (many bread_page) the_page

listings_refine_tables_example :
    listings reference texts redis_reference
      (any_product ∷ any_product ∷ [])
      (create_product reference redis_reference 2 cake stocked).1
    ≡ answers reference texts
        (any_product ∷ any_product ∷ [])
        (create_product reference redis_reference 2 cake stocked).1
listings_refine_tables_example =
    listings_refine_tables reference-Documented redis_reference-Documented (λ f. f ≡ any_product)
      texts (λ f g pf pg same. pf ∙ sym pg) 2 cake stocked (shown new_cake) created
      (any_product ∷ any_product ∷ []) (refl, (refl, tt))
