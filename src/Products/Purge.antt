-- ===== src/Products/Purge.antt =====
-- About the invalidation of src/product/product.service.ts: what the cache holds afterwards.
use mesyaf_market.Prelude.{
  ℕ, ◌≡◌, refl, sym, ◌∙◌, subst, Bool, true, false, ◌&&◌, none, List, [], ◌∷◌, map, All, any, arith,
  eq_iff, inl, inr, Bool-cases,
}
use mesyaf_market.Database.World.{World, for_each, ok}
use mesyaf_market.Database.Rows.{find_row, filter_rows, drop_rows, count_rows}
use mesyaf_market.Database.Cache.{
  Key, product, vendor_page, all_page, hits, block, Entry, same_key, has_key, is_fresh,
  redis_reference,
}
use mesyaf_market.Database.RedisService.{del}
use mesyaf_market.Products.Ownership.{
  is_all_page, is_vendor_page, invalidate_all_products, invalidate_vendor_products,
}

unfoldable drop_keys : List Key → List Entry → List Entry
drop_keys [] es = es
drop_keys (k ∷ ks) es = drop_keys ks (drop_rows (λ e. same_key e.key k) es)

del_all :
    (ks : List Key) (w : World)
    → for_each (del redis_reference) ks w ≡ (ok tt, record w { cache = drop_keys ks w.cache })
unfolding for_each drop_keys
del_all [] w = refl
del_all (k ∷ ks) w = del_all ks (record w { cache = drop_rows (λ e. same_key e.key k) w.cache })

same_key_refl : (k : Key) → same_key k k ≡ true
same_key_refl (product a) = ground arith
same_key_refl (vendor_page a f) = ground (arith, (eq_iff f f).1 refl)
same_key_refl (all_page f) = (eq_iff f f).1 refl
same_key_refl (hits n a) = ground (arith, (eq_iff n n).1 refl, (eq_iff a a).1 refl)
same_key_refl (block n a) = ground (arith, (eq_iff n n).1 refl, (eq_iff a a).1 refl)

pub drop_rows_same :
    {R : Type 0} (q p : R → Bool) (rs : List R)
    → ((r : R) → p r ≡ true → q r ≡ false)
    → find_row q (drop_rows p rs) ≡ find_row q rs
unfolding find_row drop_rows
drop_rows_same q p [] h = refl
drop_rows_same q p (r ∷ rs) h = ground (arith, h r, drop_rows_same q p rs h)

-- An entry whose key is among the dropped ones is gone.
Covered : (Entry → Bool) → List Key → Entry → Type 0
Covered q ks e = q e ≡ true → any (same_key e.key) ks ≡ true

drop-Covered :
    (q : Entry → Bool) (k : Key) (ks : List Key) (es : List Entry)
    → All (Covered q (k ∷ ks)) es
    → All (Covered q ks) (drop_rows (λ e. same_key e.key k) es)
unfolding Covered any drop_rows
drop-Covered q k ks [] h = tt
drop-Covered q k ks (e ∷ es) h = ground (arith, h.0, drop-Covered q k ks es h.1)

none-Covered : (q : Entry → Bool) (es : List Entry) → All (Covered q []) es → count_rows q es ≡ 0
unfolding Covered any count_rows
none-Covered q [] h = refl
none-Covered q (e ∷ es) h = ground (arith, h.0, none-Covered q es h.1)

drop_keys-count :
    (q : Entry → Bool) (ks : List Key) (es : List Entry)
    → All (Covered q ks) es
    → count_rows q (drop_keys ks es) ≡ 0
unfolding drop_keys
drop_keys-count q [] es h = none-Covered q es h
drop_keys-count q (k ∷ ks) es h = drop_keys-count q ks _ (drop-Covered q k ks es h)

Covered-more :
    (q : Entry → Bool) (k : Key) (ks : List Key) (es : List Entry)
    → All (Covered q ks) es
    → All (Covered q (k ∷ ks)) es
unfolding Covered any
Covered-more q k ks [] h = tt
Covered-more q k ks (e ∷ es) h = (λ t. ground (arith, h.0 t), Covered-more q k ks es h.1)

abbrev keys_of : List Entry → List Key
keys_of es = map {A = Entry} {B = Key} (λ e. e.key) es

filter_rows-hit :
    (q : Entry → Bool) (e : Entry) (es : List Entry)
    → q e ≡ true
    → filter_rows q (e ∷ es) ≡ e ∷ filter_rows q es
unfolding filter_rows
filter_rows-hit q e es t = ground arith

filter_rows-miss :
    (q : Entry → Bool) (e : Entry) (es : List Entry)
    → q e ≡ false
    → filter_rows q (e ∷ es) ≡ filter_rows q es
unfolding filter_rows
filter_rows-miss q e es f = ground arith

scan_covers : (q : Entry → Bool) (es : List Entry) → All (Covered q (keys_of (filter_rows q es))) es
unfolding Covered any
scan_covers q [] = tt
scan_covers q (e ∷ es) = elim (Bool-cases (q e)) [
  | inl t ↦
      subst (λ rs. All (Covered q (keys_of rs)) (e ∷ es)) (sym (filter_rows-hit q e es t))
        (
          (λ u. ground (arith, same_key_refl e.key)),
          Covered-more q e.key (keys_of (filter_rows q es)) es (scan_covers q es),
        )
  | inr f ↦
      subst (λ rs. All (Covered q (keys_of rs)) (e ∷ es)) (sym (filter_rows-miss q e es f))
        ((λ u. cc), scan_covers q es)
]

-- What a purge of the keys of a pattern leaves.
pub purged : (Key → Bool) → ℕ → List Entry → List Entry
purged p now es =
    drop_keys (keys_of (filter_rows (λ e. p e.key && is_fresh now e.expires_at) es)) es

purged-none :
    (p : Key → Bool) (now : ℕ) (es : List Entry)
    → count_rows (λ e. p e.key && is_fresh now e.expires_at) (purged p now es) ≡ 0
unfolding purged
purged-none p now es = drop_keys-count _ _ es (scan_covers _ es)

pub invalidate_all_products-purged :
    (w : World)
    → invalidate_all_products redis_reference w
      ≡ (ok tt, record w { cache = purged is_all_page w.now w.cache })
unfolding invalidate_all_products purged
invalidate_all_products-purged w = del_all _ w

pub invalidate_vendor_products-purged :
    (v : ℕ) (w : World)
    → invalidate_vendor_products redis_reference v w
      ≡ (ok tt, record w { cache = purged (is_vendor_page v) w.now w.cache })
unfolding invalidate_vendor_products purged
invalidate_vendor_products-purged v w = del_all _ w

find_row-weaker :
    {R : Type 0} (q p : R → Bool) (rs : List R)
    → ((r : R) → q r ≡ true → p r ≡ true)
    → count_rows p rs ≡ 0
    → find_row q rs ≡ none
unfolding find_row count_rows
find_row-weaker q p [] h z = refl
find_row-weaker q p (r ∷ rs) h z = ground (arith, h r, find_row-weaker q p rs h)

-- `p` says the same of keys that are the same.
unfoldable pub IsStable : (Key → Bool) → Type 0
IsStable p = (i j : Key) → same_key i j ≡ true → p i ≡ p j

pub is_all_page-IsStable : IsStable is_all_page
unfolding IsStable
is_all_page-IsStable i j h = ground arith

pub is_vendor_page-IsStable : (v : ℕ) → IsStable (is_vendor_page v)
unfolding IsStable
is_vendor_page-IsStable v i j h = ground arith

drop_keys-keeps :
    (q : Entry → Bool) (p : Key → Bool)
    → IsStable p
    → ((e : Entry) → q e ≡ true → p e.key ≡ false)
    → (ks : List Key) → All (λ k. p k ≡ true) ks
    → (es : List Entry) → find_row q (drop_keys ks es) ≡ find_row q es
unfolding drop_keys IsStable
drop_keys-keeps q p stable off [] a es = refl
drop_keys-keeps q p stable off (k ∷ ks) a es =
    drop_keys-keeps q p stable off ks a.1 (drop_rows (λ e. same_key e.key k) es)
    ∙ drop_rows_same q (λ e. same_key e.key k) es
        (λ e t. elim (Bool-cases (q e)) [
          | inl u ↦ ground (arith, off e u, stable e.key k t, a.0)
          | inr f ↦ f
        ])

keys_of-pattern :
    (p : Key → Bool) (now : ℕ) (es : List Entry)
    → All (λ k. p k ≡ true) (keys_of (filter_rows (λ e. p e.key && is_fresh now e.expires_at) es))
unfolding filter_rows
keys_of-pattern p now [] = tt
keys_of-pattern p now (e ∷ es) = ground (arith, keys_of-pattern p now es)

-- A key of the pattern has no entry after the purge, and one outside it the entry it had.
pub find-purged :
    (p : Key → Bool) (k : Key) (now : ℕ) (es : List Entry)
    → IsStable p
    → p k ≡ true
    → find_row (has_key k now) (purged p now es) ≡ none
unfolding IsStable
find-purged p k now es stable on =
    find_row-weaker (has_key k now) (λ e. p e.key && is_fresh now e.expires_at) (purged p now es)
      (λ e t. ground (arith, stable e.key k)) (purged-none p now es)

pub purged-keeps :
    (p : Key → Bool) (k : Key) (now : ℕ) (es : List Entry)
    → IsStable p
    → p k ≡ false
    → find_row (has_key k now) (purged p now es) ≡ find_row (has_key k now) es
unfolding purged IsStable
purged-keeps p k now es stable off =
    drop_keys-keeps (has_key k now) p stable (λ e t. ground (arith, stable e.key k))
      (keys_of (filter_rows (λ e. p e.key && is_fresh now e.expires_at) es))
      (keys_of-pattern p now es) es
