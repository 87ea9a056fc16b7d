-- ===== src/Prelude/Faults.antt =====
-- What ends a run of the programs early: a failed `assert`, an index or a key that is not there,
-- `list.remove` of a missing value, and `exit`. No program handles any of these.
use mathlib.Core.Path.{◌≡◌, refl, ap, subst}
use mathlib.Core.Bool.{Bool, true, false}
use mathlib.Core.Logic.{◌⊎◌, inl, inr}
use mathlib.Core.Option.{Option, none, some}
use cs334_operating_systems.Prelude.Tests.{if◌then◌else◌}

pub data Fault : Type 0 where
  assertion index_error key_error value_error type_error exit : Fault

pub data Result {ℓ} (A : Type ℓ) : Type ℓ where
  ok : A → Result A
  raise : Fault → Result A

module _ {ℓ κ} {A : Type ℓ} {B : Type κ} where
  infixl 5 ◌>>=◌
  abbrev pub ◌>>=◌ : Result A → (A → Result B) → Result B
  raise e >>= f = raise e
  ok a >>= f = f a

  pub >>=-eq-ok :
      (first : Result A) (rest : A → Result B) {y : B}
      → (first >>= rest) ≡ ok y
      → (x : A) × (first ≡ ok x) × (rest x ≡ ok y)
  >>=-eq-ok (raise e) f h = cc
  >>=-eq-ok (ok a) f h = (a, refl, h)

-- `assert(b)`
abbrev pub check : Bool → Result (Unit {0})
check false = raise Fault.assertion
check true = ok tt

infixl 5 ◌>>◌
abbrev pub ◌>>◌ {ℓ} : {B : Type ℓ} → Result (Unit {0}) → Result B → Result B
test >> rest = test >>= λ _. rest

abbrev pub or_raise {ℓ} : {A : Type ℓ} → Fault → Option A → Result A
or_raise e none = raise e
or_raise e (some a) = ok a

pub ok-injective {ℓ} : {A : Type ℓ} {a b : A} → ok a ≡ ok b → a ≡ b
ok-injective {a} h = ap (λ r. elim r [ ok c ↦ c | raise e ↦ a ]) h

pub Result-cases {ℓ} :
    {A : Type ℓ} (r : Result A) → ((a : A) × (r ≡ ok a)) ⊎ ((f : Fault) × (r ≡ raise f))
Result-cases (raise f) = inr (f, refl)
Result-cases (ok a) = inl (a, refl)

-- what holds of a result that was returned; one rule for each way to build a chain
pub record Ensures {ℓ κ} {A : Type ℓ} (P : A → Type κ) (r : Result A) : Type (ℓ ⊔ κ) where
  pub at : (a : A) → r ≡ ok a → P a

module _ {ℓ κ} {A : Type ℓ} {P : A → Type κ} where
  pub Ensures-ok : {a : A} → P a → Ensures P (ok a)
  Ensures-ok p = record { at = λ b h. subst P (ok-injective h) p }

  pub Ensures-raise : (e : Fault) → Ensures P (raise e)
  Ensures-raise e = record { at = λ b h. absurd (cc) }

  pub Ensures-if :
      (b : Bool) (m n : Result A)
      → (b ≡ true → Ensures P m)
      → (b ≡ false → Ensures P n)
      → Ensures P (if b then m else n)
  Ensures-if true m n f g = f refl
  Ensures-if false m n f g = g refl

module _ {ℓ κ μ} {A : Type ℓ} {B : Type κ} {P : B → Type μ} where
  pub Ensures-bind {ν} :
      {Q : A → Type ν} (m : Result A) (f : A → Result B)
      → Ensures Q m
      → ((a : A) → Q a → Ensures P (f a))
      → Ensures P (m >>= f)
  Ensures-bind (ok a) f q g = g a (q.at a refl)
  Ensures-bind (raise e) f q g = Ensures-raise e

  -- the rest of the chain may use what was returned
  pub Ensures-bind_eq :
      (m : Result A) (f : A → Result B)
      → ((a : A) → m ≡ ok a → Ensures P (f a))
      → Ensures P (m >>= f)
  Ensures-bind_eq (ok a) f g = g a refl
  Ensures-bind_eq (raise e) f g = Ensures-raise e

-- the result of a run that is known to return
abbrev pub ok_or {ℓ} : {A : Type ℓ} → Result A → A → A
ok_or (ok a) d = a
ok_or (raise e) d = d

pub or_raise-ok {ℓ} :
    {A : Type ℓ} (e : Fault) (o : Option A) {a : A} → or_raise e o ≡ ok a → o ≡ some a
or_raise-ok e none h = absurd (cc)
or_raise-ok e (some b) h = ap some (ok-injective h)
