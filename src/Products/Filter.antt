-- ===== src/Products/Filter.antt =====
-- src/product/dto/ProductFilter.dto.ts, and the where-clauses of src/product/product.service.ts.
use mesyaf_market.Prelude.{
  ℤ, pos, times, minus_one, is_negative, ℕ, Bool, true, Option, none, some, List, [], ◌∷◌, ◌&&◌,
  ◌==◌, String, str_eq, any, or_else, if◌then◌else◌,
}
use mesyaf_market.Database.Schema.{Product, VendorProfile}

-- ProductFilterDto
pub record ProductFilter : Type 0 where
  pub category_id : Option ℕ
  pub tag_ids : Option (List ℕ)
  pub search : Option String
  pub page : Option ℤ
  pub limit : Option ℤ

-- page = 1, limit = 10
abbrev pub page_number : ProductFilter → ℤ
page_number f = or_else f.page (pos 1)

abbrev pub page_limit : ProductFilter → ℤ
page_limit f = or_else f.limit (pos 10)

-- (page - 1) * limit
abbrev pub page_skip : ProductFilter → ℤ
page_skip f = times (minus_one (page_number f)) (page_limit f)

-- Prisma refuses a `skip` below zero.
abbrev pub is_negative_skip : ProductFilter → Bool
is_negative_skip f = is_negative (page_skip f)

-- ...(categoryId && { categoryId })
abbrev pub in_category : Option ℕ → Product → Bool
in_category none p = true
in_category (some c) p = if c == 0 then true else p.category_id == c

-- ...(search && { name: { contains: search, mode: 'insensitive' } })
abbrev pub has_text : (String → String → Bool) → Option String → Product → Bool
has_text contains none p = true
has_text contains (some s) p = if str_eq s "" then true else contains s p.name

-- ...(tagIds?.length && { tags: { some: { id: { in: tagIds } } } })
abbrev pub has_tag : Option (List ℕ) → Product → Bool
has_tag none p = true
has_tag (some []) p = true
has_tag (some (id ∷ ids)) p = any (λ t. any (λ k. k == t) (id ∷ ids)) p.tags

module _ (contains : String → String → Bool) (f : ProductFilter) where
  abbrev pub passes : Product → Bool
  passes p = in_category f.category_id p && has_text contains f.search p && has_tag f.tag_ids p

-- The vendor is active and verified.
abbrev pub is_trusted : VendorProfile → Bool
is_trusted v = v.is_active && v.is_verified
