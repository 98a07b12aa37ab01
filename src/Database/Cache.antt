-- ===== src/Database/Cache.antt =====
-- src/common/redis/redis.service.ts and the keys and values that the code keeps in Redis. The
-- client of Redis is a parameter: `Redis` has the commands that the service sends, `DocumentedRedis`
-- what its documentation says of them. Positions of deliverers are apart, in `World.live`.
use Prim.Native.Nat.{◌/◌}
use mesyaf_market.Prelude.{
  ℤ, ℕ, ◌+◌, ◌-◌, ◌*◌, ◌≡◌, refl, Bool, true, false, ◌&&◌, Option, none, some, List, ◌∷◌, map,
  String, str_eq, ◌==◌, ltb, is_some,
}
use mathlib.Core.Option
use mesyaf_market.Database.Schema.{Product, ProductImage, ProductTag, Category}
use mesyaf_market.Database.Rows.{find_row, filter_rows, drop_rows, update_rows}

-- `product:<id>`, `products:vendor:<id>:<filter>`, `products:all:<filter>`, and
-- `throttler:<name>:<key>:hits` and `…:block`.
pub data Key : Type 0 where
  product : (id : ℕ) → Key
  vendor_page : (vendor_id : ℕ) (filter : String) → Key
  all_page : (filter : String) → Key
  hits block : (throttler key : String) → Key

-- `select: { shopName, rating, isActive, isVerified }`, where the rating is never written.
pub record VendorSummary : Type 0 where
  pub shop_name : String
  pub is_active : Bool
  pub is_verified : Bool

-- A product with what the queries include.
pub record Listed : Type 0 where
  pub row : Product
  pub images : List ProductImage
  pub tags : List ProductTag
  pub category : Option Category
  pub vendor : Option VendorSummary

-- { data, count, page, limit }
pub record Page : Type 0 where
  pub products : List Listed
  pub total : ℕ
  pub page : ℤ
  pub limit : ℤ

pub data Value : Type 0 where
  one : Listed → Value
  many : Page → Value
  number : ℕ → Value
  until : (expires_at : ℕ) → Value

-- `expires_at` is the end of the key's time to live, if it has one.
pub record Entry : Type 0 where
  pub key : Key
  pub value : Value
  pub expires_at : Option ℕ

abbrev pub same_key : Key → Key → Bool
same_key (product a) (product b) = a == b
same_key (vendor_page a f) (vendor_page b g) = a == b && str_eq f g
same_key (all_page f) (all_page g) = str_eq f g
same_key (hits n a) (hits m b) = str_eq n m && str_eq a b
same_key (block n a) (block m b) = str_eq n m && str_eq a b
same_key _ _ = false

abbrev pub is_fresh : ℕ → Option ℕ → Bool
is_fresh now none = true
is_fresh now (some t) = ltb now t

-- The entry of a key at a time.
abbrev pub has_key : Key → ℕ → Entry → Bool
has_key k now e = same_key e.key k && is_fresh now e.expires_at

abbrev pub expiring : ℕ → Entry → Entry
expiring t e = record { key = e.key; value = e.value; expires_at = some t }

abbrev pub counted : Value → ℕ
counted (number n) = n
counted _ = 0

-- The entry of a counter after INCR; a counter holds a number.
abbrev pub bumped : Key → Option Entry → Entry
bumped k none = record { key = k; value = number 1; expires_at = none }
bumped k (some e) = record {
  key = k;
  value = number (counted e.value + 1);
  expires_at = e.expires_at;
}

-- The seconds to an expiry, rounded; none where TTL answers a number below zero.
abbrev pub seconds_left : ℕ → Option Entry → Option ℕ
seconds_left now none = none
seconds_left now (some e) = Option.map (λ t. (t - now + 500) / 1000) e.expires_at

pub record Redis : Type 0 where
  pub get : Key → ℕ → List Entry → Option Value
  -- SET with EX, the seconds to live
  pub set : Key → Value → ℕ → ℕ → List Entry → List Entry
  pub del : Key → List Entry → List Entry
  pub exists : Key → ℕ → List Entry → Bool
  pub incr : Key → ℕ → List Entry → ℕ × List Entry
  -- EXPIRE, with the seconds to live
  pub expire : Key → ℕ → ℕ → List Entry → List Entry
  pub ttl : Key → ℕ → List Entry → Option ℕ
  -- SCAN with MATCH, from cursor 0 until it returns to 0
  pub scan : (Key → Bool) → ℕ → List Entry → List Key

pub record DocumentedRedis (redis : Redis) : Type 0 where
  pub get_lem :
      (k : Key) (now : ℕ) (es : List Entry)
      → redis.get k now es ≡ Option.map (λ e. e.value) (find_row (has_key k now) es)
  pub set_lem :
      (k : Key) (v : Value) (ttl now : ℕ) (es : List Entry)
      → redis.set k v ttl now es
        ≡ record { key = k; value = v; expires_at = some (now + ttl * 1000) }
          ∷ drop_rows (λ e. same_key e.key k) es
  pub del_lem : (k : Key) (es : List Entry) → redis.del k es ≡ drop_rows (λ e. same_key e.key k) es
  pub exists_lem :
      (k : Key) (now : ℕ) (es : List Entry)
      → redis.exists k now es ≡ is_some (find_row (has_key k now) es)
  pub incr_lem :
      (k : Key) (now : ℕ) (es : List Entry)
      → redis.incr k now es ≡ (
        counted (bumped k (find_row (has_key k now) es)).value,
        bumped k (find_row (has_key k now) es) ∷ drop_rows (λ e. same_key e.key k) es,
      )
  pub expire_lem :
      (k : Key) (seconds now : ℕ) (es : List Entry)
      → redis.expire k seconds now es
        ≡ update_rows (has_key k now) (expiring (now + seconds * 1000)) es
  pub ttl_lem :
      (k : Key) (now : ℕ) (es : List Entry)
      → redis.ttl k now es ≡ seconds_left now (find_row (has_key k now) es)
  pub scan_lem :
      (p : Key → Bool) (now : ℕ) (es : List Entry)
      → redis.scan p now es
        ≡ map {A = Entry} {B = Key}
            (λ e. e.key)
            (filter_rows (λ e. p e.key && is_fresh now e.expires_at) es)

-- A client that does what is documented.
abbrev pub redis_reference : Redis
redis_reference = record {
  get = λ k now es. Option.map (λ e. e.value) (find_row (has_key k now) es);
  set = λ k v ttl now es.
      record { key = k; value = v; expires_at = some (now + ttl * 1000) }
      ∷ drop_rows (λ e. same_key e.key k) es;
  del = λ k es. drop_rows (λ e. same_key e.key k) es;
  exists = λ k now es. is_some (find_row (has_key k now) es);
  incr = λ k now es. (
    counted (bumped k (find_row (has_key k now) es)).value,
    bumped k (find_row (has_key k now) es) ∷ drop_rows (λ e. same_key e.key k) es,
  );
  expire = λ k seconds now es. update_rows (has_key k now) (expiring (now + seconds * 1000)) es;
  ttl = λ k now es. seconds_left now (find_row (has_key k now) es);
  scan = λ p now es.
      map {A = Entry} {B = Key} (λ e. e.key)
        (filter_rows (λ e. p e.key && is_fresh now e.expires_at) es);
}

pub redis_reference-Documented : DocumentedRedis redis_reference
redis_reference-Documented = record {
  get_lem = λ k now es. refl;
  set_lem = λ k v ttl now es. refl;
  del_lem = λ k es. refl;
  exists_lem = λ k now es. refl;
  incr_lem = λ k now es. refl;
  expire_lem = λ k seconds now es. refl;
  ttl_lem = λ k now es. refl;
  scan_lem = λ p now es. refl;
}

pub Documented-redis_reference : {redis : Redis} → DocumentedRedis redis → redis ≡ redis_reference
Documented-redis_reference d = λ i. record {
  get = λ k now es. d.get_lem k now es i;
  set = λ k v ttl now es. d.set_lem k v ttl now es i;
  del = λ k es. d.del_lem k es i;
  exists = λ k now es. d.exists_lem k now es i;
  incr = λ k now es. d.incr_lem k now es i;
  expire = λ k seconds now es. d.expire_lem k seconds now es i;
  ttl = λ k now es. d.ttl_lem k now es i;
  scan = λ p now es. d.scan_lem p now es i;
}
