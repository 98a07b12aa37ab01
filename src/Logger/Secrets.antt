-- ===== src/Logger/Secrets.antt =====
-- About AppLogger.print of src/common/logger/app-logger.service.ts: what is under a redacted key is
-- not logged.
use mesyaf_market.Prelude.{
  ℕ, zero, suc, ◌≡◌, refl, sym, ap, ◌∙◌, fun_ext, inl, inr, List, [], ◌∷◌, ◌++◌, ◌==◌, String,
  str_eq, eq_iff, any, length, map, Bool-cases, if◌then◌else◌,
}
use mathlib.Core.List.{map-append}
use mesyaf_market.Logger.{
  JsValue, fault, ref, Cell, array, object, Heap, Step, Json, cell_at, is_redacted, sanitize_field,
  sanitize_fields, sanitize_cell, sanitize, sanitize_value, print, Process, Method, set_key, spread,
  entries, gather, meta_of, strings_of, stack_of,
}

abbrev Pair : Type 0
Pair = String × JsValue

-- A field without its value, where the key is redacted.
abbrev pub masked : Pair → Pair
masked (k, v) = (k, if is_redacted k then JsValue.other 0 else v)

abbrev pub masked_cell : Cell → Cell
masked_cell (array vs) = array vs
masked_cell (object kvs) = object (map masked kvs)

-- The heap without what is under redacted keys.
abbrev pub hide : Heap → Heap
hide h = map masked_cell h

cell_at-hide : (h : Heap) (a : ℕ) → cell_at (hide h) a ≡ masked_cell (cell_at h a)
cell_at-hide [] a = refl
cell_at-hide (c ∷ h) zero = refl
cell_at-hide (c ∷ h) (suc a) = cell_at-hide h a

length-hide : (h : Heap) → length (hide h) ≡ length h
length-hide [] = refl
length-hide (c ∷ h) = ap suc (length-hide h)

module _ (visit : JsValue → Step Json) where
  field_masked :
      (k : String) (v : JsValue) (seen : List ℕ)
      → sanitize_field visit k (masked (k, v)).1 seen ≡ sanitize_field visit k v seen
  unfolding sanitize_field
  field_masked k v seen = elim (Bool-cases (is_redacted k)) [
    | inl e ↦ rw e refl
    | inr e ↦ rw e refl
  ]

  fields_masked :
      (kvs : List Pair) (seen : List ℕ)
      → sanitize_fields visit (map masked kvs) seen ≡ sanitize_fields visit kvs seen
  unfolding sanitize_fields
  fields_masked [] seen = refl
  fields_masked ((k, v) ∷ kvs) seen = rw (field_masked k v, fun_ext (fields_masked kvs)) refl

  cell_masked :
      (c : Cell) (seen : List ℕ)
      → sanitize_cell visit (masked_cell c) seen ≡ sanitize_cell visit c seen
  unfolding sanitize_cell
  cell_masked (array vs) seen = refl
  cell_masked (object kvs) seen = rw (fields_masked kvs seen) refl

sanitize-hide :
    (h : Heap) (fuel : ℕ) (v : JsValue) (seen : List ℕ)
    → sanitize (hide h) fuel v seen ≡ sanitize h fuel v seen
unfolding sanitize
sanitize-hide h zero v seen = refl
sanitize-hide h (suc fuel) (JsValue.text s) seen = refl
sanitize-hide h (suc fuel) (JsValue.other k) seen = refl
sanitize-hide h (suc fuel) (fault e) seen = refl
sanitize-hide h (suc fuel) (ref a) seen =
    let same : sanitize (hide h) fuel ≡ sanitize h fuel =
      fun_ext (λ v. fun_ext (sanitize-hide h fuel v)) in
    elim (Bool-cases (any (λ b. b == a) seen)) [
      | inl e ↦ rw e refl
      | inr e ↦
          rw (e, same, cell_at-hide h a) (cell_masked (sanitize h fuel) (cell_at h a) (a ∷ seen))
    ]

value-hide : (h : Heap) (v : JsValue) → sanitize_value (hide h) v ≡ sanitize_value h v
unfolding sanitize_value
value-hide h v = rw (length-hide h, sanitize-hide h (suc (length h)) v []) refl

masked_twice : (q : Pair) → masked (masked q) ≡ masked q
masked_twice (k, v) = elim (Bool-cases (is_redacted k)) [ inl e ↦ rw e refl | inr e ↦ rw e refl ]

map-masked_twice : (kvs : List Pair) → map masked (map masked kvs) ≡ map masked kvs
map-masked_twice [] = refl
map-masked_twice (q ∷ kvs) = rw (masked_twice q, map-masked_twice kvs) refl

set_key-masked :
    (k : String) (v : JsValue) (kvs : List Pair)
    → map masked (set_key k v kvs) ≡ set_key k (masked (k, v)).1 (map masked kvs)
unfolding set_key
set_key-masked k v [] = refl
set_key-masked k v ((j, w) ∷ kvs) = elim (Bool-cases (str_eq j k)) [
  | inl e ↦ rw (e, (eq_iff j k).0 e) refl
  | inr e ↦ rw (e, set_key-masked k v kvs) refl
]

spread-masked :
    (old new : List Pair) → map masked (spread old new) ≡ spread (map masked old) (map masked new)
unfolding spread
spread-masked old [] = refl
spread-masked old ((k, v) ∷ new) =
    rw (spread-masked (set_key k v old) new, set_key-masked k v old) refl

module _ (p : Process) where
  entries-masked : (c : Cell) → map masked (entries p (masked_cell c)) ≡ map masked (entries p c)
  unfolding entries
  entries-masked (array vs) = refl
  entries-masked (object kvs) = map-masked_twice kvs

  module _ (h g : Heap) (same : hide h ≡ hide g) where
    entries_same :
        (a : ℕ) → map masked (entries p (cell_at h a)) ≡ map masked (entries p (cell_at g a))
    entries_same a =
        rw (← entries-masked (cell_at h a), ← cell_at-hide h a, same, cell_at-hide g a)
          (entries-masked (cell_at g a))

    gather_same :
        (m n : List Pair) (vs : List JsValue)
        → map masked m ≡ map masked n
        → map masked (gather p h m vs) ≡ map masked (gather p g n vs)
    unfolding gather
    gather_same m n [] e = e
    gather_same m n (JsValue.text s ∷ vs) e = gather_same m n vs e
    gather_same m n (JsValue.other k ∷ vs) e = gather_same m n vs e
    gather_same m n (fault x ∷ vs) e =
        gather_same (set_key "error" (fault x) m) (set_key "error" (fault x) n) vs
          (rw (set_key-masked "error" (fault x) m, set_key-masked "error" (fault x) n, e) refl)
    gather_same m n (ref a ∷ vs) e =
        gather_same (spread m (entries p (cell_at h a))) (spread n (entries p (cell_at g a))) vs (
          rw
            (
              spread-masked m (entries p (cell_at h a)),
              spread-masked n (entries p (cell_at g a)),
              e,
              entries_same a,
            )
            refl)

    length_same : length h ≡ length g
    length_same = sym (length-hide h) ∙ ap length same ∙ length-hide g

    message_same : (v : JsValue) → sanitize_value h v ≡ sanitize_value g v
    message_same v = rw (← value-hide h v, ← value-hide g v, same) refl

    with_object :
        (m n : List Pair) (v : JsValue)
        → map masked m ≡ map masked n
        → sanitize_value (h ++ object m ∷ []) v ≡ sanitize_value (g ++ object n ∷ []) v
    with_object m n v e =
        rw
          (
            ← value-hide (h ++ object m ∷ []) v,
            ← value-hide (g ++ object n ∷ []) v,
            map-append masked_cell h (object m ∷ []),
            map-append masked_cell g (object n ∷ []),
            same,
            e,
          )
          refl

-- What is logged does not depend on what stands under the redacted keys: two heaps that differ
-- only there, anywhere in the objects given and in those within them, make the same entry.
pub secrets_are_not_logged :
    (p : Process) (h g : Heap) (name : String) (method : Method) (message : JsValue)
    (params : List JsValue)
    → hide h ≡ hide g
    → print p h name method message params ≡ print p g name method message params
unfolding print meta_of
secrets_are_not_logged p h g name method message params same =
    rw
      (
        message_same p h g same message,
        with_object p h g same (meta_of p h params) (meta_of p g params) (ref (length h)) (
            gather_same p h g same (stack_of (strings_of params)) (stack_of (strings_of params))
              params refl),
        length_same p h g same,
      )
      refl
