-- ===== src/Database/Keeps.antt =====
-- What an action leaves alone: one rule for each way to build an action. `get` is a part of the
-- database, or all of it.
use mesyaf_market.Prelude.{
  ◌≡◌, refl, ap, arith, ◌∙◌, ℕ, Bool, true, false, Option, none, some, List, [], ◌∷◌, Option-cases,
  inl, inr, if◌then◌else◌,
}
use mesyaf_market.Database.Cache.{Key, Value, Redis}
use mesyaf_market.Database.RedisService
use mesyaf_market.Database.World.{
  World, Db, Table, Error, Emission, Message, Result, Exec, ok, err, continue, pure, throw,
  throw_if, or_throw, gets, modify, emit, enqueue, swallow, for_each, ◌>>=◌, ◌>>◌,
}
use mesyaf_market.Database.Prisma.{
  Prisma, Documented, Model, settle, find_first, find_many, count, create, create_missing,
  create_unique, update, update_many, delete_many, delete,
}

pub record Keeps {X A : Type 0} (get : Db → X) (m : Exec A) : Type 0 where
  pub at : (w : World) → get (m w).1.db ≡ get w.db

settled :
    {X A : Type 0} (get : Db → X) (w : World) (r : Result A × World)
    → get r.1.db ≡ get w.db
    → get (settle w r).1.db ≡ get w.db
settled get w (ok a, w') h = h
settled get w (err e, w') h = refl

enqueue-db : (m : Message) (w : World) → (enqueue m w).1.db ≡ w.db
unfolding enqueue
enqueue-db m w = ground arith

module _ {X : Type 0} {get : Db → X} where
  module _ {A : Type 0} where
    pub Keeps-pure : (a : A) → Keeps get (pure a)
    Keeps-pure a = record { at = λ w. refl }

    pub Keeps-throw : (e : Error) → Keeps get (throw {A = A} e)
    Keeps-throw e = record { at = λ w. refl }

    pub Keeps-gets : (f : World → A) → Keeps get (gets f)
    Keeps-gets f = record { at = λ w. refl }

    pub Keeps-or_throw : (o : Option A) (e : Error) → Keeps get (or_throw o e)
    Keeps-or_throw none e = record { at = λ w. refl }
    Keeps-or_throw (some a) e = record { at = λ w. refl }

    pub Keeps-if :
        (b : Bool) (m n : Exec A) → Keeps get m → Keeps get n → Keeps get (if b then m else n)
    Keeps-if true m n km kn = km
    Keeps-if false m n km kn = kn

    pub Keeps-transaction :
        {prisma : Prisma}
        → Documented prisma
        → (m : Exec A) → Keeps get m
        → Keeps get (prisma.transaction m)
    Keeps-transaction d m k = record {
      at = λ w. rw (d.transaction_lem m w) (settled get w (m w) (k.at w));
    }

  pub Keeps-modify :
      (f : World → World) → ((w : World) → get (f w).db ≡ get w.db) → Keeps get (modify f)
  Keeps-modify f h = record { at = h }

  -- Redis is no part of the database.
  module _ (redis : Redis) where
    pub Keeps-get : (k : Key) → Keeps get (RedisService.get redis k)
    Keeps-get k = record { at = λ w. refl }

    pub Keeps-set : (k : Key) (v : Value) (ttl : ℕ) → Keeps get (RedisService.set redis k v ttl)
    Keeps-set k v ttl = record { at = λ w. refl }

    pub Keeps-del : (k : Key) → Keeps get (RedisService.del redis k)
    Keeps-del k = record { at = λ w. refl }

    pub Keeps-keys : (p : Key → Bool) → Keeps get (RedisService.keys_by_pattern redis p)
    Keeps-keys p = record { at = λ w. refl }

  pub Keeps-throw_if : (b : Bool) (e : Error) → Keeps get (throw_if b e)
  Keeps-throw_if true e = record { at = λ w. refl }
  Keeps-throw_if false e = record { at = λ w. refl }

  pub Keeps-emit : (e : Emission) → Keeps get (emit e)
  Keeps-emit e = record { at = λ w. refl }

  pub Keeps-enqueue : (m : Message) → Keeps get (enqueue m)
  Keeps-enqueue m = record { at = λ w. ap get (enqueue-db m w) }

  pub Keeps-swallow : (m : Exec (Unit {0})) → Keeps get m → Keeps get (swallow m)
  Keeps-swallow m k = record { at = k.at }

  module _ {A B : Type 0} where
    continued :
        (r : Result A) (f : A → Exec B) (w : World)
        → ((a : A) → Keeps get (f a))
        → get (continue r f w).1.db ≡ get w.db
    continued (ok a) f w k = (k a).at w
    continued (err e) f w k = refl

    pub Keeps-bind :
        (m : Exec A) (f : A → Exec B)
        → Keeps get m
        → ((a : A) → Keeps get (f a))
        → Keeps get (m >>= f)
    Keeps-bind m f km kf = record { at = λ w. continued (m w).0 f (m w).1 kf ∙ km.at w }

    pub Keeps-then : (m : Exec A) (n : Exec B) → Keeps get m → Keeps get n → Keeps get (m >> n)
    Keeps-then m n km kn = Keeps-bind m (λ _. n) km (λ _. kn)

  pub Keeps-for_each :
      {A : Type 0} (f : A → Exec (Unit {0})) (xs : List A)
      → ((x : A) → Keeps get (f x))
      → Keeps get (for_each f xs)
  unfolding for_each
  Keeps-for_each f [] k = record { at = λ w. refl }
  Keeps-for_each f (x ∷ xs) k =
      Keeps-bind (f x) (λ _. for_each f xs) (k x) (λ _. Keeps-for_each f xs k)

  -- The queries. A write keeps what is not in its table.
  module _ (prisma : Prisma) {R : Type 0} (m : Model R) where
    pub Keeps-find_first : (p : R → Bool) → Keeps get (find_first prisma m p)
    Keeps-find_first p = record { at = λ w. refl }

    pub Keeps-find_many : (p : R → Bool) → Keeps get (find_many prisma m p)
    Keeps-find_many p = record { at = λ w. refl }

    pub Keeps-count : (p : R → Bool) → Keeps get (count prisma m p)
    Keeps-count p = record { at = λ w. refl }

    module _ (skips : (t : Table R) (d : Db) → get (m.put t d) ≡ get d) where
      pub Keeps-create : (mk : ℕ → R) → Keeps get (create prisma m mk)
      Keeps-create mk = record { at = λ w. skips (prisma.create mk (m.get w.db)).1 w.db }

      pub Keeps-create_missing :
          (p : R → Bool) (mk : ℕ → R) → Keeps get (create_missing prisma m p mk)
      Keeps-create_missing p mk = record {
        at = λ w. skips (prisma.create_missing p mk (m.get w.db)).1 w.db;
      }

      pub Keeps-create_unique :
          (p : R → Bool) (mk : ℕ → R) → Keeps get (create_unique prisma m p mk)
      Keeps-create_unique p mk = record {
        at = λ w. elim (Option-cases (prisma.create_unique p mk (m.get w.db))) [
          | inl e ↦ rw e refl
          | inr ((r, t), e) ↦ rw e (skips t w.db)
        ];
      }

      pub Keeps-update : (p : R → Bool) (f : R → R) → Keeps get (update prisma m p f)
      Keeps-update p f = record {
        at = λ w. elim (Option-cases (prisma.update p f (m.get w.db))) [
          | inl e ↦ rw e refl
          | inr ((r, t), e) ↦ rw e (skips t w.db)
        ];
      }

      pub Keeps-update_many : (p : R → Bool) (f : R → R) → Keeps get (update_many prisma m p f)
      Keeps-update_many p f = record {
        at = λ w. skips (prisma.update_many p f (m.get w.db)).1 w.db;
      }

      pub Keeps-delete_many : (p : R → Bool) → Keeps get (delete_many prisma m p)
      Keeps-delete_many p = record { at = λ w. skips (prisma.delete_many p (m.get w.db)).1 w.db }

      pub Keeps-delete : (p : R → Bool) → Keeps get (delete prisma m p)
      Keeps-delete p = record {
        at = λ w. elim (Option-cases (prisma.find_first p (m.get w.db))) [
          | inl e ↦ rw e refl
          | inr (r, e) ↦ rw e (skips (prisma.delete_many p (m.get w.db)).1 w.db)
        ];
      }

pub ruleset keeps = (
  Keeps-pure, Keeps-throw, Keeps-gets, Keeps-or_throw, Keeps-if, Keeps-throw_if, Keeps-emit,
  Keeps-enqueue, Keeps-swallow, Keeps-bind, Keeps-then, Keeps-for_each, Keeps-find_first,
  Keeps-find_many, Keeps-count, Keeps-get, Keeps-set, Keeps-del, Keeps-keys,
)
