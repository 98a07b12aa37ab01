-- ===== src/Logger/Total.antt =====
-- About AppLogger.sanitize and print of src/common/logger/app-logger.service.ts: they end.
use mesyaf_market.Prelude.{
  ℕ, zero, suc, ◌≤◌, ◌<◌, ◌+◌, ◌≡◌, refl, false, inl, inr, Option, some, List, [], ◌∷◌, ◌++◌, ◌==◌,
  String, any, leb, arith, length, Bool-cases, if◌then◌else◌,
}
use mesyaf_market.Logger.{
  JsValue, fault, ref, Cell, array, object, Heap, Json, nil, cons, arr, obj, end, field, Step,
  cell_at, is_redacted, error_fields, both, meta_of, entry, level_of, last_of, strings_of,
  sanitize_items, sanitize_field, sanitize_fields, sanitize_cell, sanitize, sanitize_value, print,
  Process, Method, Entry,
}

-- The cells of a heap, below `n`, that have not been seen.
unseen : ℕ → List ℕ → ℕ
unseen zero seen = 0
unseen (suc n) seen = (if any (λ b. b == n) seen then 0 else 1) + unseen n seen

unseen-cons : (n a : ℕ) (seen : List ℕ) → unseen n (a ∷ seen) ≤ unseen n seen
unfolding unseen any
unseen-cons zero a seen = omega arith
unseen-cons (suc n) a seen = ground (arith, unseen-cons n a seen)

unseen-fresh :
    (n a : ℕ) (seen : List ℕ)
    → a < n
    → any (λ b. b == a) seen ≡ false
    → unseen n (a ∷ seen) < unseen n seen
unfolding unseen any
unseen-fresh zero a seen h e = absurd (omega arith)
unseen-fresh (suc n) a seen h e = ground (arith, unseen-fresh n a seen, unseen-cons n a seen)

unseen-nil : (n : ℕ) → unseen n [] ≤ n
unfolding unseen any
unseen-nil zero = omega arith
unseen-nil (suc n) = ground (arith, unseen-nil n)

-- A step that ends and has seen no less.
Ends : {A : Type 0} → ℕ → List ℕ → Option (A × List ℕ) → Type 0
Ends {A} n seen r = (j : A) × (s : List ℕ) × (r ≡ some (j, s)) × (unseen n s ≤ unseen n seen)

module _ (n fuel : ℕ) (visit : JsValue → Step Json)
    (ends : (v : JsValue) (seen : List ℕ) → unseen n seen < fuel → Ends n seen (visit v seen)) where
  items_end :
      (vs : List JsValue) (seen : List ℕ)
      → unseen n seen < fuel
      → Ends n seen (sanitize_items visit vs seen)
  unfolding sanitize_items Ends
  items_end [] seen h = (nil, seen, refl, omega arith)
  items_end (v ∷ vs) seen h =
      let (j, s, e, le) = ends v seen h in
      let (js, s', e', le') = items_end vs s (omega arith) in
      (cons j js, s', rw (e, e') refl, omega arith)

  field-Ends :
      (k : String) (v : JsValue) (seen : List ℕ)
      → unseen n seen < fuel
      → Ends n seen (sanitize_field visit k v seen)
  unfolding sanitize_field Ends
  field-Ends k v seen h = elim (Bool-cases (is_redacted k)) [
    | inl e ↦ (Json.text "[REDACTED]", seen, rw e refl, omega arith)
    | inr e ↦ rw e (ends v seen h)
  ]

  fields_end :
      (kvs : List (String × JsValue)) (seen : List ℕ)
      → unseen n seen < fuel
      → Ends n seen (sanitize_fields visit kvs seen)
  unfolding sanitize_fields Ends
  fields_end [] seen h = (end, seen, refl, omega arith)
  fields_end ((k, v) ∷ kvs) seen h =
      let (j, s, e, le) = field-Ends k v seen h in
      let (js, s', e', le') = fields_end kvs s (omega arith) in
      (field k j js, s', rw (e, e') refl, omega arith)

  cell-Ends :
      (c : Cell) (seen : List ℕ) → unseen n seen < fuel → Ends n seen (sanitize_cell visit c seen)
  unfolding sanitize_cell Ends
  cell-Ends (array vs) seen h =
      let (js, s, e, le) = items_end vs seen h in (arr js, s, rw e refl, le)
  cell-Ends (object kvs) seen h =
      let (js, s, e, le) = fields_end kvs seen h in (obj js, s, rw e refl, le)

cell_at_end : (h : Heap) (a : ℕ) → length h ≤ a → cell_at h a ≡ object []
cell_at_end [] a le = refl
cell_at_end (c ∷ h) zero le = absurd (omega arith)
cell_at_end (c ∷ h) (suc a) le = cell_at_end h a (omega arith)

sanitize-Ends :
    (h : Heap) (fuel : ℕ) (v : JsValue) (seen : List ℕ)
    → unseen (length h) seen < fuel
    → Ends (length h) seen (sanitize h fuel v seen)
unfolding sanitize Ends
sanitize-Ends h zero v seen lt = absurd (omega arith)
sanitize-Ends h (suc fuel) (JsValue.text s) seen lt = (Json.text s, seen, refl, omega arith)
sanitize-Ends h (suc fuel) (JsValue.other k) seen lt = (Json.other k, seen, refl, omega arith)
sanitize-Ends h (suc fuel) (fault e) seen lt = (error_fields e, seen, refl, omega arith)
sanitize-Ends h (suc fuel) (ref a) seen lt = elim (Bool-cases (any (λ b. b == a) seen)) [
  | inl e ↦ (Json.text "[Circular]", seen, rw e refl, omega arith)
  | inr e ↦ elim (Bool-cases (leb (length h) a)) [
    | inl out ↦ (
      obj end,
      a ∷ seen,
      rw (e, cell_at_end h a (ground arith)) refl,
      unseen-cons (length h) a seen,
    )
    | inr inside ↦
        let less = unseen-fresh (length h) a seen (ground arith) e in
        let (j, s, run, le) =
          cell-Ends (length h) fuel (sanitize h fuel) (sanitize-Ends h fuel) (cell_at h a)
            (a ∷ seen) (omega arith) in
        (j, s, rw e run, omega arith)
  ]
]

-- A heap of n cells needs no more than n + 1 nested calls, also where its objects contain
-- themselves.
value_ends : (h : Heap) (v : JsValue) → (j : Json) × (sanitize_value h v ≡ some j)
unfolding sanitize_value Ends
value_ends h v =
    let (j, s, e, le) =
      sanitize-Ends h (suc (length h)) v [] (omega (arith, unseen-nil (length h))) in
    (j, rw e refl)

-- Every call of the logger prints an entry: the traversal of the message and of the objects ends
-- within as many nested calls as there are objects, and one, however they contain one another.
pub print_ends :
    (p : Process) (h : Heap) (name : String) (method : Method) (message : JsValue)
    (params : List JsValue)
    → (e : Entry) × (print p h name method message params ≡ some e)
unfolding print both
print_ends p h name method message params =
    let (j, e) = value_ends h message in
    let (k, e') = value_ends (h ++ Cell.object (meta_of p h params) ∷ []) (ref (length h)) in
    (entry p (level_of method) (last_of name (strings_of params)) j k, rw (e, e') refl)
