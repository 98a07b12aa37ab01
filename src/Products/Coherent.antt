-- ===== src/Products/Coherent.antt =====
-- About the cache of src/product/product.service.ts: getAllProducts as a refinement of the reading
-- of the tables.
use mesyaf_market.Prelude.{
  ℕ, ◌≡◌, refl, ap, sym, subst, ◌∙◌, true, false, some, List, [], ◌∷◌, All, arith, String, str_eq,
  eq_iff, inl, inr, ◌⊎◌, Option-cases, Bool-cases,
}
use mathlib.Core.Option
use mesyaf_market.Database.World.{World, Result, ok}
use mesyaf_market.Database.Rules.{Result-cases}
use mesyaf_market.Database.Rows.{find_row}
use mesyaf_market.Database.Prisma.{Prisma, Documented, reference, Documented-reference}
use mesyaf_market.Database.Cache.{
  Key, product, vendor_page, hits, block, Value, all_page, has_key, same_key, Entry, Listed, Redis,
  DocumentedRedis, redis_reference, Documented-redis_reference,
}
use mesyaf_market.Products.Filter.{ProductFilter, is_negative_skip}
use mesyaf_market.Products.Catalog.{Texts, cached_or, query_all, read_all, get_all_products}
use mesyaf_market.Products.Purge.{drop_rows_same}
use mesyaf_market.Products.Editing.{ProductDto, create_product}
use mesyaf_market.Products.Fresh.{created-misses}

-- The answers to a sequence of listings: by the service, and by the tables.
module _ (prisma : Prisma) (texts : Texts) where
  unfoldable pub listings : Redis → List ProductFilter → World → List (Result Value)
  listings redis [] w = []
  listings redis (f ∷ fs) w =
      (get_all_products prisma redis texts f w).0
      ∷ listings redis fs (get_all_products prisma redis texts f w).1

  unfoldable pub answers : List ProductFilter → World → List (Result Value)
  answers [] w = []
  answers (f ∷ fs) w = (read_all prisma texts f w).0 ∷ answers fs w

-- A reading is of the tables alone and writes nothing.
read_all-world :
    (texts : Texts) (f : ProductFilter) (w : World) → (read_all reference texts f w).1 ≡ w
unfolding read_all query_all
read_all-world texts f w = elim (Bool-cases (is_negative_skip f)) [
  | inl e ↦ rw e refl
  | inr e ↦ rw e refl
]

read_all-cache :
    (texts : Texts) (f : ProductFilter) (w : World) (es : List Entry)
    → (read_all reference texts f (record w { cache = es })).0 ≡ (read_all reference texts f w).0
unfolding read_all query_all
read_all-cache texts f w es = elim (Bool-cases (is_negative_skip f)) [
  | inl e ↦ rw e refl
  | inr e ↦ rw e refl
]

answers-cache :
    (texts : Texts) (fs : List ProductFilter) (w : World) (es : List Entry)
    → answers reference texts fs (record w { cache = es }) ≡ answers reference texts fs w
unfolding answers
answers-cache texts [] w es = refl
answers-cache texts (f ∷ fs) w es =
    rw (read_all-cache texts f w es, answers-cache texts fs w es) refl

-- What is cached for the filters of a kind is what the tables say.
IsCoherent : (ProductFilter → Type 0) → Texts → World → Type 0
IsCoherent P texts w =
    (f : ProductFilter) (v : Value)
    → P f
    → redis_reference.get (all_page (texts.stringify f)) w.now w.cache ≡ some v
    → (read_all reference texts f w).0 ≡ ok v

get_all-cases :
    (texts : Texts) (f : ProductFilter) (w : World)
    → ((v : Value) × (redis_reference.get (all_page (texts.stringify f)) w.now w.cache ≡ some v)
        × (get_all_products reference redis_reference texts f w ≡ (ok v, w)))
      ⊎ ((get_all_products reference redis_reference texts f w
            ≡ ((read_all reference texts f w).0, w))
          ⊎ ((v : Value) × ((read_all reference texts f w).0 ≡ ok v)
              × (get_all_products reference redis_reference texts f w ≡ (
                ok v,
                record w {
                  cache = redis_reference.set (all_page (texts.stringify f)) v 300 w.now w.cache;
                },
              ))))
unfolding get_all_products cached_or
get_all-cases texts f w =
    elim (Option-cases (redis_reference.get (all_page (texts.stringify f)) w.now w.cache)) [
      | inr (v, h) ↦ inl (v, h, rw h refl)
      | inl h ↦ elim (Result-cases (read_all reference texts f w).0) [
        | inl (x, e) ↦ inr (inl (rw (h, e, read_all-world texts f w) refl))
        | inr (v, e) ↦ inr (inr (v, e, rw (h, e, read_all-world texts f w) refl))
      ]
    ]

other_page :
    (k : Key) (s t : String)
    → same_key k (all_page s) ≡ true
    → str_eq s t ≡ false
    → same_key k (all_page t) ≡ false
other_page (all_page x) s t u e = subst (λ y. str_eq y t ≡ false) (sym ((eq_iff x s).0 u)) e
other_page (product a) s t u e = refl
other_page (vendor_page a f) s t u e = refl
other_page (hits n a) s t u e = refl
other_page (block n a) s t u e = refl

-- The lookups after a page was cached.
set_page-get :
    (s t : String) (v u : Value) (now : ℕ) (es : List Entry)
    → redis_reference.get (all_page t) now (redis_reference.set (all_page s) v 300 now es) ≡ some u
    → ((s ≡ t) × (v ≡ u)) ⊎ (redis_reference.get (all_page t) now es ≡ some u)
unfolding find_row
set_page-get s t v u now es h = elim (Bool-cases (str_eq s t)) [
  | inl e ↦ inl ((eq_iff s t).0 e, ground arith)
  | inr e ↦ inr (
      ap (λ o. Option.map {A = Entry} {B = Value} (λ r. r.value) o)
        (sym (
          drop_rows_same (has_key (all_page t) now) (λ r. same_key r.key (all_page s)) es
            (λ r m. rw (other_page r.key s t m e) refl)))
      ∙ sym (rw e refl)
      ∙ h)
]

set_page-IsCoherent :
    {P : ProductFilter → Type 0} (texts : Texts)
    → ((f g : ProductFilter) → P f → P g → texts.stringify f ≡ texts.stringify g → f ≡ g)
    → (f : ProductFilter) (v : Value) (w : World) → P f
    → (read_all reference texts f w).0 ≡ ok v
    → IsCoherent P texts w
    → IsCoherent P texts (record w {
      cache = redis_reference.set (all_page (texts.stringify f)) v 300 w.now w.cache;
    })
unfolding IsCoherent
set_page-IsCoherent texts exact f v w pf e coherent g u pg h =
    read_all-cache texts g w
      (redis_reference.set (all_page (texts.stringify f)) v 300 w.now w.cache)
    ∙ elim (set_page-get (texts.stringify f) (texts.stringify g) v u w.now w.cache h) [
      | inl (same, eq) ↦
          ap (λ k. (read_all reference texts k w).0) (sym (exact f g pf pg same)) ∙ e ∙ ap ok eq
      | inr old ↦ coherent g u pg old
    ]

listings_answer :
    {P : ProductFilter → Type 0} (texts : Texts)
    → ((f g : ProductFilter) → P f → P g → texts.stringify f ≡ texts.stringify g → f ≡ g)
    → (fs : List ProductFilter) (w : World) → All P fs
    → IsCoherent P texts w
    → listings reference texts redis_reference fs w ≡ answers reference texts fs w
unfolding listings answers IsCoherent
listings_answer texts exact [] w ps coherent = refl
listings_answer {P} texts exact (f ∷ fs) w ps coherent = elim (get_all-cases texts f w) [
  | inl (v, h, e) ↦
      let more = listings_answer texts exact fs w ps.1 coherent in
      let answer = coherent f v ps.0 h in rw (e, answer, more) refl
  | inr (inl e) ↦ let more = listings_answer texts exact fs w ps.1 coherent in rw (e, more) refl
  | inr (inr (v, r, e)) ↦
      let es = redis_reference.set (all_page (texts.stringify f)) v 300 w.now w.cache in
      let more =
        listings_answer texts exact fs (record w { cache = es }) ps.1
          (set_page-IsCoherent texts exact f v w ps.0 r coherent) in
      rw (e, r, more, answers-cache texts fs w es) refl
]

-- A creation leaves no page of all products, so nothing that the tables do not say.
created-IsCoherent :
    (P : ProductFilter → Type 0) (texts : Texts) (u : ℕ) (dto : ProductDto) (w : World) (p : Listed)
    → (create_product reference redis_reference u dto w).0 ≡ ok p
    → IsCoherent P texts (create_product reference redis_reference u dto w).1
unfolding IsCoherent
created-IsCoherent P texts u dto w p h f v pf got =
    let uncached = (created-misses u dto w p (texts.stringify f) h).0 in
    ground (arith, uncached, got)

listings_after :
    (P : ProductFilter → Type 0) (texts : Texts)
    → ((f g : ProductFilter) → P f → P g → texts.stringify f ≡ texts.stringify g → f ≡ g)
    → (u : ℕ) (dto : ProductDto) (w : World) (p : Listed)
    → (create_product reference redis_reference u dto w).0 ≡ ok p
    → (fs : List ProductFilter) → All P fs
    → listings reference texts redis_reference fs
        (create_product reference redis_reference u dto w).1
      ≡ answers reference texts fs (create_product reference redis_reference u dto w).1
listings_after P texts exact u dto w p h fs ps =
    listings_answer texts exact fs (create_product reference redis_reference u dto w).1 ps
      (created-IsCoherent P texts u dto w p h)

module _ {prisma : Prisma} {redis : Redis} (d : Documented prisma)
    (d' : DocumentedRedis redis) where
  -- After a successful creation of a product, any sequence of listings of all products answers, one
  -- by one, what the queries read from the tables, although the listings cache and reuse pages. The
  -- filters of the listings are of a kind of which JSON.stringify tells any two apart.
  pub listings_refine_tables :
      (P : ProductFilter → Type 0) (texts : Texts)
      → ((f g : ProductFilter) → P f → P g → texts.stringify f ≡ texts.stringify g → f ≡ g)
      → (u : ℕ) (dto : ProductDto) (w : World) (p : Listed)
      → (create_product prisma redis u dto w).0 ≡ ok p
      → (fs : List ProductFilter) → All P fs
      → listings prisma texts redis fs (create_product prisma redis u dto w).1
        ≡ answers prisma texts fs (create_product prisma redis u dto w).1
  listings_refine_tables = rw (Documented-reference d, Documented-redis_reference d') listings_after
