-- ===== src/Products/Pages.antt =====
-- About the pages of src/product/product.service.ts: their size, contents and order.
use mesyaf_market.Prelude.{
  ℤ, magnitude, ℕ, ◌≤◌, ◌≡◌, refl, ap, subst, ◌∙◌, Bool, true, false, List, [], ◌∷◌, map, All,
  length, arith, String, inl, inr, Bool-cases,
}
use mesyaf_market.Database.Schema.{Product}
use mesyaf_market.Database.World.{World, Db, ok}
use mesyaf_market.Database.Rows.{
  slice_rows, filter_rows, count_rows, sort_rows_desc, All-filter_rows,
}
use mesyaf_market.Database.Sorted.{
  IsDescending, slice_rows-IsDescending, length-slice_rows_le, length-slice_rows_shorter,
  All-slice_rows, length-filter_rows, All-sort_desc, sort-IsDescending, length-sort_desc,
}
use mesyaf_market.Database.Prisma.{Prisma, Documented, reference, Documented-reference}
use mesyaf_market.Database.Cache.{Listed, Page}
use mesyaf_market.Products.Filter.{ProductFilter, page_limit, page_skip, is_negative_skip}
use mesyaf_market.Products.Catalog.{
  query_all, query_vendor, is_listed, is_listed_of, page_from, included,
}

-- The rows of a page, and the same after `include`.
abbrev pub rows_of : List Listed → List Product
rows_of ps = map {A = Listed} {B = Product} (λ l. l.row) ps

rows_of-included :
    (c : Bool) (db : Db) (ps : List Product)
    → rows_of (map {A = Product} {B = Listed} (included reference c false db) ps) ≡ ps
rows_of-included c db [] = refl
rows_of-included c db (p ∷ ps) = ap (λ qs. p ∷ qs) (rows_of-included c db ps)

-- A page of the rows that pass a test: not more than its limit, without
-- its sign, and than the total, and no others.
unfoldable pub IsPageOf : (Product → Bool) → ℤ → List Product → Page → Type 0
IsPageOf test limit table page =
    (length (rows_of page.products) ≤ magnitude limit)
    × (length (rows_of page.products) ≤ page.total)
    × (page.total ≡ count_rows test table)
    × All (λ p. test p ≡ true) (rows_of page.products)

page_from-IsPageOf :
    (c : Bool) (test : Product → Bool) (f : ProductFilter) (db : Db) (rows table : List Product)
    → All (λ p. test p ≡ true) rows
    → length rows ≡ count_rows test table
    → IsPageOf test (page_limit f) table (page_from reference f c db rows (count_rows test table))
unfolding IsPageOf
page_from-IsPageOf c test f db rows table all same =
    let skip = magnitude (page_skip f) in
    rw (rows_of-included c db (slice_rows skip (page_limit f) rows)) (
      length-slice_rows_le skip (page_limit f) rows,
      omega (arith, length-slice_rows_shorter skip (page_limit f) rows, same),
      refl,
      All-slice_rows (λ p. test p ≡ true) skip (page_limit f) rows all,
    )

-- The page that a query returns.
query_all-page :
    (contains : String → String → Bool) (f : ProductFilter) (w : World) (page : Page)
    → (query_all reference contains f w).0 ≡ ok page
    → page_from reference f false w.db
        (filter_rows (is_listed reference contains f w.db) w.db.products.rows)
        (count_rows (is_listed reference contains f w.db) w.db.products.rows)
      ≡ page
unfolding query_all
query_all-page contains f w page h = elim (Bool-cases (is_negative_skip f)) [
  | inl e ↦ ground arith
  | inr e ↦ ground arith
]

query_vendor-page :
    (contains : String → String → Bool) (f : ProductFilter) (v : ℕ) (w : World) (page : Page)
    → (query_vendor reference contains f v w).0 ≡ ok page
    → page_from reference f true w.db
        (sort_rows_desc
          (λ p. p.created_at)
          (filter_rows (is_listed_of contains f v) w.db.products.rows))
        (count_rows (is_listed_of contains f v) w.db.products.rows)
      ≡ page
unfolding query_vendor
query_vendor-page contains f v w page h = elim (Bool-cases (is_negative_skip f)) [
  | inl e ↦ ground arith
  | inr e ↦ ground arith
]

all_bounded :
    (contains : String → String → Bool) (f : ProductFilter) (w : World) (page : Page)
    → (query_all reference contains f w).0 ≡ ok page
    → IsPageOf (is_listed reference contains f w.db) (page_limit f) w.db.products.rows page
all_bounded contains f w page h =
    let test = is_listed reference contains f w.db in
    subst (IsPageOf test (page_limit f) w.db.products.rows) (query_all-page contains f w page h) (
      page_from-IsPageOf false test f w.db (filter_rows test w.db.products.rows) w.db.products.rows
        (All-filter_rows test w.db.products.rows) (length-filter_rows test w.db.products.rows))

vendor_bounded :
    (contains : String → String → Bool) (f : ProductFilter) (v : ℕ) (w : World) (page : Page)
    → (query_vendor reference contains f v w).0 ≡ ok page
    → IsPageOf (is_listed_of contains f v) (page_limit f) w.db.products.rows page
      × IsDescending (λ p. p.created_at) (rows_of page.products)
vendor_bounded contains f v w page h =
    let test = is_listed_of contains f v in
    let found = filter_rows test w.db.products.rows in
    let key : Product → ℕ = λ p. p.created_at in
    let sorted = sort_rows_desc key found in
    subst
      (λ q.
        IsPageOf test (page_limit f) w.db.products.rows q × IsDescending key (rows_of q.products))
      (query_vendor-page contains f v w page h)
      (
        page_from-IsPageOf true test f w.db sorted w.db.products.rows
            (All-sort_desc (λ p. test p ≡ true) key found (All-filter_rows test w.db.products.rows))
            (length-sort_desc key found ∙ length-filter_rows test w.db.products.rows),
        rw (rows_of-included true w.db (slice_rows (magnitude (page_skip f)) (page_limit f) sorted))
            (slice_rows-IsDescending key (magnitude (page_skip f)) (page_limit f) sorted
              (sort-IsDescending key found)),
      )

module _ {prisma : Prisma} (d : Documented prisma) where
  -- A page of all products that the query returns has at most as many products as the filter's
  -- limit, without its sign, and as its total, the total counts the products of the table that are
  -- available, pass the filter and are of an active and verified vendor, and every product of the
  -- page is one.
  page_is_bounded :
      (contains : String → String → Bool) (f : ProductFilter) (w : World) (page : Page)
      → (query_all prisma contains f w).0 ≡ ok page
      → IsPageOf (is_listed prisma contains f w.db) (page_limit f) w.db.products.rows page
  page_is_bounded = rw (Documented-reference d) all_bounded

  -- A page of one vendor's products that the query returns, whatever page and limit were asked for,
  -- below zero also, has at most as many products as the limit says without its sign, and as its
  -- total. The total counts the vendor's products that are available and pass the filter, every
  -- product of the page is one, and none of them was created after one before it.
  pub vendor_page_is_bounded :
      (contains : String → String → Bool) (f : ProductFilter) (v : ℕ) (w : World) (page : Page)
      → (query_vendor prisma contains f v w).0 ≡ ok page
      → IsPageOf (is_listed_of contains f v) (page_limit f) w.db.products.rows page
        × IsDescending (λ p. p.created_at) (rows_of page.products)
  vendor_page_is_bounded = rw (Documented-reference d) vendor_bounded
