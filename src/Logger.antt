-- ===== src/Logger.antt =====
-- src/common/logger/app-logger.service.ts. JavaScript's objects are cells of a heap, and a value
-- that is an array or an object is the address of its cell, so that values may share and contain
-- one another. An address out of the heap does not occur there; it reads as an object with no keys.
pub mod Total
pub mod Secrets
mod Examples
use mesyaf_market.Prelude.{
  ℕ, zero, suc, Bool, true, false, Option, none, some, List, [], ◌∷◌, ◌++◌, ◌==◌, ◌||◌, String,
  str_eq, any, length, if◌then◌else◌,
}
use mathlib.Core.Option

-- An Error: `code` is the optional text that Node puts there.
pub record JsError : Type 0 where
  pub name : String
  pub message : String
  pub code : Option String
  pub stack : String

-- `other` stands for null, undefined, numbers and booleans, which pass as they are.
pub data JsValue : Type 0 where
  text : String → JsValue
  other : ℕ → JsValue
  fault : JsError → JsValue
  ref : ℕ → JsValue

pub data Cell : Type 0 where
  array : List JsValue → Cell
  object : List (String × JsValue) → Cell

abbrev pub Heap : Type 0
Heap = List Cell

-- What JSON.stringify is given.
mutual
  pub data Json : Type 0 where
    text : String → Json
    other : ℕ → Json
    arr : Items → Json
    obj : Fields → Json

  pub data Items : Type 0 where
    nil : Items
    cons : Json → Items → Items

  pub data Fields : Type 0 where
    end : Fields
    field : String → Json → Fields → Fields

-- REDACTED_KEYS
unfoldable pub is_redacted : String → Bool
is_redacted k =
    str_eq k "password"
    || str_eq k "token"
    || str_eq k "access_token"
    || str_eq k "authorization"
    || str_eq k "refreshToken"
    || str_eq k "refresh_token"
    || str_eq k "secret"
    || str_eq k "jwt"

abbrev pub cell_at : Heap → ℕ → Cell
cell_at [] a = Cell.object []
cell_at (c ∷ h) zero = c
cell_at (c ∷ h) (suc a) = cell_at h a

-- A code that is missing or empty is left out.
abbrev code_field : Option String → Fields → Fields
code_field none rest = rest
code_field (some c) rest = if str_eq c "" then rest else field "code" (Json.text c) rest

unfoldable pub error_fields : JsError → Json
error_fields e = obj (
    field "name" (Json.text e.name) (
      field "message" (Json.text e.message)
        (code_field e.code (field "stack" (Json.text e.stack) end))))

-- A step of `sanitize` gives the value and the WeakSet `seen`; `none` means that the fuel ran out.
abbrev pub Step : Type 0 → Type 0
Step A = List ℕ → Option (A × List ℕ)

abbrev pub continue : {A B : Type 0} → Option (A × List ℕ) → (A → Step B) → Option (B × List ℕ)
continue none f = none
continue (some (a, seen)) f = f a seen

infixl 5 ◌>>=◌
abbrev ◌>>=◌ : {A B : Type 0} → Step A → (A → Step B) → Step B
◌>>=◌ m f seen = continue (m seen) f

abbrev pure : {A : Type 0} → A → Step A
pure a seen = some (a, seen)

module _ (visit : JsValue → Step Json) where
  -- `value.map((v) => this.sanitize(v, seen))`
  unfoldable pub sanitize_items : List JsValue → Step Items
  sanitize_items [] = pure nil
  sanitize_items (v ∷ vs) = do j ← visit v; js ← sanitize_items vs; pure (cons j js)

  -- The redacted keys' values are not visited.
  pub sanitize_field : String → JsValue → Step Json
  sanitize_field k v = if is_redacted k then pure (Json.text "[REDACTED]") else visit v

  -- `for (const [key, raw] of Object.entries(value))`
  unfoldable pub sanitize_fields : List (String × JsValue) → Step Fields
  unfolding sanitize_field
  sanitize_fields [] = pure end
  sanitize_fields ((k, v) ∷ kvs) = do
    j ← sanitize_field k v
    js ← sanitize_fields kvs
    pure (field k j js)

  unfoldable pub sanitize_cell : Cell → Step Json
  unfolding sanitize_items sanitize_fields
  sanitize_cell (array vs) = do js ← sanitize_items vs; pure (arr js)
  sanitize_cell (object kvs) = do js ← sanitize_fields kvs; pure (obj js)

-- An object that was seen before, or a new one, which is added to `seen`.
abbrev visit_cell : Bool → (JsValue → Step Json) → Cell → ℕ → Step Json
visit_cell true visit c a seen = some (Json.text "[Circular]", seen)
visit_cell false visit c a seen = sanitize_cell visit c (a ∷ seen)

-- AppLogger.sanitize, on fuel
unfoldable pub sanitize : Heap → ℕ → JsValue → Step Json
unfolding error_fields sanitize_cell any
sanitize h zero v seen = none
sanitize h (suc fuel) (JsValue.text s) seen = some (Json.text s, seen)
sanitize h (suc fuel) (JsValue.other n) seen = some (Json.other n, seen)
sanitize h (suc fuel) (fault e) seen = some (error_fields e, seen)
sanitize h (suc fuel) (ref a) seen =
    visit_cell (any (λ b. b == a) seen) (sanitize h fuel) (cell_at h a) a seen

-- `o[k] = v` and the spread of an object, which keep the place of a key that is there.
unfoldable pub set_key {ℓ} : {A : Type ℓ} → String → A → List (String × A) → List (String × A)
set_key k v [] = (k, v) ∷ []
set_key k v ((j, w) ∷ kvs) = if str_eq j k then (j, v) ∷ kvs else (j, w) ∷ set_key k v kvs

unfoldable pub spread {ℓ} : {A : Type ℓ} → List (String × A) → List (String × A) → List (String × A)
unfolding set_key
spread old [] = old
spread old ((k, v) ∷ kvs) = spread (set_key k v old) kvs

-- What the process gives: its numbers and texts, and the keys "0", "1", … of an array.
pub record Process : Type 0 where
  pub pid : ℕ
  pub node_env : Option String
  pub timestamp : String
  pub index_key : ℕ → String

unfoldable pub entries_from : (ℕ → String) → ℕ → List JsValue → List (String × JsValue)
entries_from key i [] = []
entries_from key i (v ∷ vs) = (key i, v) ∷ entries_from key (suc i) vs

-- Object.entries
unfoldable pub entries : Process → Cell → List (String × JsValue)
unfolding entries_from
entries p (array vs) = entries_from p.index_key 0 vs
entries p (object kvs) = kvs

-- `params.filter((p) => typeof p === 'string')`
abbrev pub strings_of : List JsValue → List String
strings_of [] = []
strings_of (JsValue.text s ∷ vs) = s ∷ strings_of vs
strings_of (JsValue.other n ∷ vs) = strings_of vs
strings_of (fault e ∷ vs) = strings_of vs
strings_of (ref a ∷ vs) = strings_of vs

abbrev pub last_of : String → List String → String
last_of s [] = s
last_of s (t ∷ ts) = last_of t ts

-- `if (strings.length > 1) meta.stack = strings[0]`
abbrev pub stack_of : List String → List (String × JsValue)
stack_of [] = []
stack_of (s ∷ []) = []
stack_of (s ∷ t ∷ ts) = ("stack", JsValue.text s) ∷ []

module _ (p : Process) (h : Heap) where
  -- The loop that fills `meta`
  unfoldable pub gather : List (String × JsValue) → List JsValue → List (String × JsValue)
  unfolding set_key spread entries
  gather meta [] = meta
  gather meta (JsValue.text s ∷ vs) = gather meta vs
  gather meta (JsValue.other n ∷ vs) = gather meta vs
  gather meta (fault e ∷ vs) = gather (set_key "error" (fault e) meta) vs
  gather meta (ref a ∷ vs) = gather (spread meta (entries p (cell_at h a))) vs

  pub meta_of : List JsValue → List (String × JsValue)
  unfolding gather
  meta_of params = gather (stack_of (strings_of params)) params

-- `this.sanitize(value)`, with fuel for every cell
unfoldable pub sanitize_value : Heap → JsValue → Option Json
unfolding sanitize
sanitize_value h v = Option.map (λ r. r.0) (sanitize h (suc (length h)) v [])

abbrev listed : Fields → List (String × Json)
listed end = []
listed (field k j fs) = (k, j) ∷ listed fs

abbrev fields_of : Json → List (String × Json)
fields_of (Json.text s) = []
fields_of (Json.other n) = []
fields_of (arr js) = []
fields_of (obj fs) = listed fs

pub data Method : Type 0 where
  log error warn debug verbose : Method

abbrev pub level_of : Method → String
level_of log = "info"
level_of error = "error"
level_of warn = "warn"
level_of debug = "debug"
level_of verbose = "debug"

abbrev env_of : Option String → String
env_of none = "development"
env_of (some e) = e

abbrev pub Entry : Type 0
Entry = List (String × Json)

pub entry : Process → String → String → Json → Json → Entry
unfolding spread
entry p level context message meta =
    spread
      (spread
        (("level", Json.text level) ∷ ("context", Json.text context) ∷ ("message", message) ∷ [])
        (fields_of meta))
      (("pid", Json.other p.pid)
        ∷ ("env", Json.text (env_of p.node_env))
        ∷ ("timestamp", Json.text p.timestamp)
        ∷ [])

pub both : {A B C : Type 0} → (A → B → C) → Option A → Option B → Option C
both f none b = none
both f (some a) none = none
both f (some a) (some b) = some (f a b)

-- AppLogger.print, up to JSON.stringify; `meta` is a new object
unfoldable pub print : Process → Heap → String → Method → JsValue → List JsValue → Option Entry
unfolding sanitize_value meta_of entry both
print p h name method message params =
    both (entry p (level_of method) (last_of name (strings_of params))) (sanitize_value h message)
      (sanitize_value (h ++ Cell.object (meta_of p h params) ∷ []) (ref (length h)))
