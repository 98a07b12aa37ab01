-- ===== src/Throttler/Laws.antt =====
-- About src/common/throttler/redis-throttler.storage.ts: how many requests pass.
use mesyaf_market.Prelude.{
  ℕ, ◌+◌, ◌*◌, ◌<◌, ◌≡◌, refl, ◌∙◌, Bool, true, false, Option, none, some, List, [], ◌∷◌, arith,
  ◌==◌, String, eq_iff, inl, inr, Option-cases, Bool-cases, if◌then◌else◌,
}
use mesyaf_market.Database.Rows.{find_row, find_row_holds, drop_rows, update_rows}
use mesyaf_market.Database.Cache.{
  Key, hits, block, Entry, same_key, has_key, counted, bumped, expiring,
}
use mesyaf_market.Products.Purge.{drop_rows_same}

-- The hits that a counter holds at a time.
abbrev pub stored : Option Entry → ℕ
stored none = 0
stored (some e) = counted e.value

update_rows_same :
    {R : Type 0} (q p : R → Bool) (f : R → R) (rs : List R)
    → ((r : R) → p r ≡ true → q r ≡ false)
    → ((r : R) → p r ≡ true → q (f r) ≡ false)
    → find_row q (update_rows p f rs) ≡ find_row q rs
unfolding find_row update_rows
update_rows_same q p f [] h g = refl
update_rows_same q p f (r ∷ rs) h g = ground (arith, h r, g r, update_rows_same q p f rs h g)

pub bumped-counted : (k : Key) (o : Option Entry) → counted (bumped k o).value ≡ stored o + 1
bumped-counted k none = refl
bumped-counted k (some e) = refl

same_hits : (name key : String) → same_key (hits name key) (hits name key) ≡ true
same_hits name key = ground (arith, (eq_iff name name).1 refl, (eq_iff key key).1 refl)

pub bumped_is_found :
    (name key : String) (now : ℕ) (es : List Entry)
    → has_key
        (hits name key)
        now
        (bumped (hits name key) (find_row (has_key (hits name key) now) es))
      ≡ true
bumped_is_found name key now es = elim (Option-cases (find_row (has_key (hits name key) now) es)) [
  | inl f ↦ rw f (ground (arith, same_hits name key))
  | inr (e, f) ↦
      rw f (ground (arith, same_hits name key, find_row_holds (has_key (hits name key) now) es e f))
]

-- The entries after INCR, with the counter in front, and EXPIRE on the first hit.
abbrev pub expired_first : Key → ℕ → ℕ → Entry → List Entry → List Entry
expired_first k now t b rest =
    if counted b.value == 1 then update_rows (has_key k now) (expiring t) (b ∷ rest) else b ∷ rest

expired_first-stored :
    (k : Key) (now t : ℕ) (b : Entry) (rest : List Entry)
    → has_key k now b ≡ true
    → now < t
    → stored (find_row (has_key k now) (expired_first k now t b rest)) ≡ counted b.value
unfolding find_row update_rows
expired_first-stored k now t b rest found later = elim (Bool-cases (counted b.value == 1)) [
  | inl e ↦ ground arith
  | inr e ↦ ground arith
]

expired_first-other :
    (q : Entry → Bool) (k : Key) (now t : ℕ) (b : Entry) (rest : List Entry)
    → ((r : Entry) → same_key r.key k ≡ true → q r ≡ false)
    → same_key b.key k ≡ true
    → find_row q (expired_first k now t b rest) ≡ find_row q rest
unfolding find_row update_rows
expired_first-other q k now t b rest off same = elim (Bool-cases (counted b.value == 1)) [
  | inl e ↦ rw e (
      update_rows_same q (has_key k now) (expiring t) (b ∷ rest) (λ r u. off r (ground arith))
        (λ r u. off (expiring t r) (ground arith))
      ∙ rw (off b same) refl)
  | inr e ↦ rw e (rw (off b same) refl)
]

-- The cache after a hit.
abbrev pub after_hit : String → String → ℕ → ℕ → List Entry → List Entry
after_hit name key seconds now es =
    expired_first (hits name key) now (now + seconds * 1000)
      (bumped (hits name key) (find_row (has_key (hits name key) now) es))
      (drop_rows (λ e. same_key e.key (hits name key)) es)

bumped-key :
    (name key : String) (o : Option Entry)
    → same_key (bumped (hits name key) o).key (hits name key) ≡ true
bumped-key name key none = same_hits name key
bumped-key name key (some e) = same_hits name key

pub after_hit-stored :
    (name key : String) (seconds now : ℕ) (es : List Entry)
    → 0 < seconds
    → stored (find_row (has_key (hits name key) now) (after_hit name key seconds now es))
      ≡ stored (find_row (has_key (hits name key) now) es) + 1
after_hit-stored name key seconds now es pos =
    let o = find_row (has_key (hits name key) now) es in
    expired_first-stored (hits name key) now (now + seconds * 1000) (bumped (hits name key) o)
      (drop_rows (λ e. same_key e.key (hits name key)) es) (bumped_is_found name key now es)
      (omega arith)
    ∙ bumped-counted (hits name key) o

pub after_hit-block :
    (name key : String) (seconds now : ℕ) (es : List Entry)
    → find_row (has_key (block name key) now) (after_hit name key seconds now es)
      ≡ find_row (has_key (block name key) now) es
after_hit-block name key seconds now es =
    expired_first-other (has_key (block name key) now) (hits name key) now (now + seconds * 1000)
      (bumped (hits name key) (find_row (has_key (hits name key) now) es))
      (drop_rows (λ e. same_key e.key (hits name key)) es) (λ r u. ground arith)
      (bumped-key name key (find_row (has_key (hits name key) now) es))
    ∙ drop_rows_same (has_key (block name key) now) (λ e. same_key e.key (hits name key)) es
        (λ r u. ground arith)
