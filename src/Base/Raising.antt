-- ===== src/Base/Raising.antt =====
-- A computation that may raise: a value or the exception.
use mathlib.Core.Path.{◌≡◌, refl}
use mathlib.Core.Bool.{Bool, true, false}
use native.Mathlib.Omega.{arith}
use mathlib.Core.Option.{Option, none, some}
use mathlib.Core.Logic.{◌⊎◌, inl, inr}

pub data Result (E A : Type 0) : Type 0 where
  ok : A → Result E A
  err : E → Result E A

pub Result-cases :
    {E A : Type 0} (r : Result E A) → ((a : A) × (r ≡ ok a)) ⊎ ((e : E) × (r ≡ err e))
Result-cases (ok a) = inl (a, refl)
Result-cases (err e) = inr (e, refl)

infixl 5 ◌>>=◌ ◌>>◌
abbrev pub ◌>>=◌ : {E A B : Type 0} → Result E A → (A → Result E B) → Result E B
ok a >>= f = f a
err e >>= f = err e

abbrev pub ◌>>◌ : {E A B : Type 0} → Result E A → Result E B → Result E B
r >> k = r >>= λ _. k

-- `if test: raise error`
abbrev pub refuse_if : {E : Type 0} → Bool → E → Result E (Unit {0})
refuse_if test e = elim test [ true ↦ err e | false ↦ ok tt ]

-- A value that must be there.
abbrev pub demand : {E A : Type 0} → Option A → E → Result E A
demand none e = err e
demand (some a) e = ok a

pub bind_ok :
    {E A B : Type 0} (r : Result E A) (f : A → Result E B) (b : B)
    → (r >>= f) ≡ ok b
    → (a : A) × (r ≡ ok a) × (f a ≡ ok b)
bind_ok (ok a) f b h = (a, refl, h)
bind_ok (err e) f b h = ground arith

-- The same, for what follows from the parts.
pub from_ok {ℓ} :
    {E A B : Type 0}
    → {C : Type ℓ} → (r : Result E A) (f : A → Result E B) (b : B)
    → ((a : A) → r ≡ ok a → f a ≡ ok b → C)
    → (r >>= f) ≡ ok b
    → C
from_ok (ok a) f b g h = g a refl h
from_ok (err e) f b g h = absurd (ground arith)

pub demand_ok : {E A : Type 0} (o : Option A) (e : E) (a : A) → demand o e ≡ ok a → o ≡ some a
demand_ok none e a h = ground arith
demand_ok (some b) e a h = ground arith

pub refuse_if_ok :
    {E : Type 0} (test : Bool) (e : E) (u : Unit {0}) → refuse_if test e ≡ ok u → test ≡ false
refuse_if_ok true e u h = ground arith
refuse_if_ok false e u h = refl
