-- ===== src/Http/Powers.antt =====
-- Requests of users who are no administrators: nobody gains the powers that administrators give.
use mesyaf_market.Prelude.{
  ◌≡◌, ◌≤◌, ap, ℕ, Bool, true, false, arith, String, str_eq, Option-cases, inl, inr, if◌then◌else◌,
}
use mesyaf_market.Database.Schema.{Role, is_role}
use mesyaf_market.Database.World.{Db, World, Result, Exec, ok, err, continue, pure, ◌>>=◌, ◌>>◌}
use mesyaf_market.Database.Rows.{find_row, count-append}
use mesyaf_market.Database.Prisma.{Prisma, Documented, Documented-reference, reference}
use mesyaf_market.Database.Keeps.{Keeps}
use mesyaf_market.Users.{create_user, new_user}
use mesyaf_market.Auth.{Jwt, Bcrypt, RegisterDto, register, registered, generate_token}

-- An action that does not raise a number of the database.
pub record Lowers {A : Type 0} (n : Db → ℕ) (m : Exec A) : Type 0 where
  pub at : (w : World) → n (m w).1.db ≤ n w.db

module _ {n : Db → ℕ} where
  pub Lowers-pure : {A : Type 0} (a : A) → Lowers n (pure a)
  Lowers-pure a = record { at = λ w. omega arith }

  pub Lowers-if :
      {A : Type 0} (b : Bool) (m k : Exec A)
      → Lowers n m
      → Lowers n k
      → Lowers n (if b then m else k)
  Lowers-if true m k lm lk = lm
  Lowers-if false m k lm lk = lk

  module _ {A B : Type 0} where
    pub Lowers-bind :
        (m : Exec A) (f : A → Exec B) → Lowers n m → ((a : A) → Lowers n (f a)) → Lowers n (m >>= f)
    Lowers-bind m f lm lf = record { at = λ w. omega (arith, lm.at w, continued (m w).0 (m w).1) }
      where
        continued : (r : Result A) (w : World) → n (continue r f w).1.db ≤ n w.db
        continued (ok a) w = (lf a).at w
        continued (err e) w = omega arith

    pub Lowers-then : (m : Exec A) (k : Exec B) → Lowers n m → Lowers n k → Lowers n (m >> k)
    Lowers-then m k lm lk = Lowers-bind m (λ _. k) lm (λ _. lk)

  pub Lowers-Keeps :
      {A X : Type 0} (get : Db → X) (f : X → ℕ) (m : Exec A)
      → ((d : Db) → n d ≡ f (get d))
      → Keeps get m
      → Lowers n m
  Lowers-Keeps get f m e k = record { at = λ w. omega (arith, e (m w).1.db, e w.db, ap f (k.at w)) }

-- How many users are administrators, and how many profiles are verified.
abbrev pub admins : Prisma → Db → ℕ
admins prisma db = prisma.count (λ u. is_role u.role Role.admin) db.users

abbrev pub verified_profiles : Prisma → Db → ℕ
verified_profiles prisma db = prisma.count (λ v. v.is_verified) db.vendors

admins-register :
    (jwt : Jwt) (bcrypt : Bcrypt) (dto : RegisterDto) (salt : String) (w : World)
    → admins reference (register jwt reference bcrypt dto salt w).1.db ≤ admins reference w.db
unfolding register create_user generate_token
admins-register jwt bcrypt dto salt w =
    elim (Option-cases (find_row (λ u. str_eq u.email dto.email) w.db.users.rows)) [
      | inr (u, f) ↦ rw f (omega arith)
      | inl f ↦ rw f (
          ground (
            arith,
            count-append (λ u. is_role u.role Role.admin) w.db.users.rows
                (new_user (registered dto (bcrypt.hash dto.password salt)) w.now
                  w.db.users.next_id),
          ))
    ]

pub Lowers-register :
    {prisma : Prisma}
    → Documented prisma
    → (jwt : Jwt) (bcrypt : Bcrypt) (dto : RegisterDto) (salt : String)
    → Lowers (admins prisma) (register jwt prisma bcrypt dto salt)
Lowers-register d =
    rw (Documented-reference d)
      λ jwt bcrypt dto salt. record { at = admins-register jwt bcrypt dto salt }
