-- ===== src/Database/Rules.antt =====
-- Rules for actions: what a loop keeps, and the inversion of a block that returns.
use mesyaf_market.Prelude.{◌≡◌, ◌⊎◌, inl, inr, refl, List, [], ◌∷◌}
use mesyaf_market.Database.World.{World, Error, Result, Exec, ok, err, continue, for_each, ◌>>=◌}

continue_keeps {ℓ} :
    (P : World → Type ℓ) (k : Exec (Unit {0})) (r : Result Unit) (w : World)
    → P w
    → P (k w).1
    → P (continue r (λ _. k) w).1
continue_keeps P k (ok a) w h h' = h'
continue_keeps P k (err e) w h h' = h

-- A loop keeps what each of its rounds keeps, whether it ends or a round throws.
pub for_each_keeps {ℓ} :
    {A : Type 0} (P : World → Type ℓ) (f : A → Exec (Unit {0}))
    → ((x : A) (w : World) → P w → P (f x w).1)
    → (xs : List A) (w : World) → P w
    → P (for_each f xs w).1
unfolding for_each
for_each_keeps P f keep [] w h = h
for_each_keeps P f keep (x ∷ xs) w h =
    continue_keeps P (for_each f xs) (f x w).0 (f x w).1 (keep x w h)
      (for_each_keeps P f keep xs (f x w).1 (keep x w h))

-- Inversion of a block that returns.
pub bind_ok :
    {A B : Type 0} (m : Exec A) (f : A → Exec B) (w : World) (b : B)
    → ((m >>= f) w).0 ≡ ok b
    → (a : A) × ((m w).0 ≡ ok a) × ((f a (m w).1).0 ≡ ok b) × ((m >>= f) w ≡ f a (m w).1)
bind_ok {A} {B} m f w b h = split (m w).0 refl h
  where
    split :
        (r : Result A)
        → (m w).0 ≡ r
        → (continue r f (m w).1).0 ≡ ok b
        → (a : A) × ((m w).0 ≡ ok a) × ((f a (m w).1).0 ≡ ok b) × ((m >>= f) w ≡ f a (m w).1)
    split (ok a) e h' = (a, e, h', rw (e, continue))
    split (err x) e h' = cc

pub Result-cases :
    {A : Type 0} (r : Result A) → ((x : Error) × (r ≡ err x)) ⊎ ((a : A) × (r ≡ ok a))
Result-cases (ok a) = inr (a, refl)
Result-cases (err x) = inl (x, refl)
