-- ===== src/Prelude/Index.antt =====
-- Python's indexing: from the end for a negative index, an IndexError out of range.
use mathlib.Core.Path.{◌≡◌, refl, ap}
use mathlib.Core.Logic.{inl, inr}
use mathlib.Core.Option.{Option, none, some}
use mathlib.Core.List.{List, [], ◌∷◌, map}
use Prim.Native.Nat.{ℕ, zero, suc, ◌-◌, ◌<◌}
use native.Mathlib.Omega.{arith}
use cs334_operating_systems.Prelude.Tests.{ltb, if◌then◌else◌, Option-cases}
use cs334_operating_systems.Prelude.Lists.{length, get_elem?, set}
use cs334_operating_systems.Prelude.Faults.{
  index_error, Result, ok, raise, ◌>>=◌, or_raise, ok-injective, >>=-eq-ok,
}
use cs334_operating_systems.Prelude.Int.{ℤ, pos, negsuc}

-- the place that index `i` names in a list of `n` items
unfoldable pub position : ℕ → ℤ → Option ℕ
position n (pos i) = if ltb i n then some i else none
position n (negsuc i) = if ltb i n then some (n - suc i) else none

module _ {ℓ} {A : Type ℓ} where
  -- `l[i]` for an index that is not negative
  abbrev pub nth : List A → ℕ → Result A
  nth l i = or_raise index_error (get_elem? l i)

  abbrev pub nth_of : List A → Option ℕ → Result A
  nth_of l none = raise index_error
  nth_of l (some i) = nth l i

  -- `l[i]`, and `l[i] = v`
  abbrev pub item_at : List A → ℤ → Result A
  item_at l i = nth_of l (position (length l) i)

  abbrev pub set_of : List A → Option ℕ → A → List A
  set_of l none v = l
  set_of l (some i) v = set l i v

  -- only used after `item_at` has found the index in range
  abbrev pub set_at : List A → ℤ → A → List A
  set_at l i v = set_of l (position (length l) i) v

  pub set_same : (l : List A) (i : ℕ) (a : A) → get_elem? l i ≡ some a → set l i a ≡ l
  set_same [] i a h = refl
  set_same (x ∷ l) zero a h = ground arith
  set_same (x ∷ l) (suc i) a h = ap (◌∷◌ x) (set_same l i a h)

  pub set-set : (l : List A) (i : ℕ) (a b : A) → set (set l i a) i b ≡ set l i b
  set-set [] i a b = refl
  set-set (x ∷ l) zero a b = refl
  set-set (x ∷ l) (suc i) a b = ap (◌∷◌ x) (set-set l i a b)

  pub lt-length_of_get : (l : List A) (i : ℕ) (a : A) → get_elem? l i ≡ some a → i < length l
  lt-length_of_get [] i a h = cc
  lt-length_of_get (x ∷ l) zero a h = omega arith
  lt-length_of_get (x ∷ l) (suc i) a h = omega (arith, lt-length_of_get l i a h)

  pub get_of_lt-length : (l : List A) (i : ℕ) → i < length l → (a : A) × (get_elem? l i ≡ some a)
  get_of_lt-length [] i h = elim h [ ]
  get_of_lt-length (x ∷ l) zero h = (x, refl)
  get_of_lt-length (x ∷ l) (suc i) h = get_of_lt-length l i (omega arith)

  pub position_get :
      (l : List A) (i : ℕ) (a : A) → get_elem? l i ≡ some a → position (length l) (pos i) ≡ some i
  unfolding position
  position_get l i a h = ground (arith, lt-length_of_get l i a h)

module _ {ℓ κ} {A : Type ℓ} {B : Type κ} (f : A → B) where
  pub map-set : (l : List A) (i : ℕ) (a : A) → map f (set l i a) ≡ set (map f l) i (f a)
  map-set [] i a = refl
  map-set (x ∷ l) zero a = refl
  map-set (x ∷ l) (suc i) a = ap (◌∷◌ (f x)) (map-set l i a)

  pub get-map :
      (l : List A) (i : ℕ) (a : A) → get_elem? l i ≡ some a → get_elem? (map f l) i ≡ some (f a)
  get-map [] i a h = cc
  get-map (x ∷ l) zero a h = ground arith
  get-map (x ∷ l) (suc i) a h = get-map l i a h

  -- a write that keeps the image of the item keeps the image of the list
  pub map-set_same :
      (l : List A) (i : ℕ) (a b : A)
      → get_elem? l i ≡ some a
      → f b ≡ f a
      → map f (set l i b) ≡ map f l
  map-set_same [] i a b h e = refl
  map-set_same (x ∷ l) zero a b h e = ground arith
  map-set_same (x ∷ l) (suc i) a b h e = ap (◌∷◌ (f x)) (map-set_same l i a b h e)

-- `f(l[i])` where `f` changes the object
abbrev pub modify {ℓ} : {A : Type ℓ} → List A → ℤ → (A → Result A) → Result (List A)
modify l i f = do a ← item_at l i; b ← f a; ok (set_at l i b)

module _ {ℓ} {A : Type ℓ} where
  pub item_at-ok :
      (l : List A) (i : ℤ) {a : A}
      → item_at l i ≡ ok a
      → (n : ℕ) × (position (length l) i ≡ some n) × (get_elem? l n ≡ some a)
  item_at-ok l i h = elim (Option-cases (position (length l) i)) [
    | inl e ↦ absurd (ground arith)
    | inr (n, e) ↦ elim (Option-cases (get_elem? l n)) [
      | inl g ↦ absurd (ground arith)
      | inr (b, g) ↦ (n, e, ground arith)
    ]
  ]

  pub item_at-get : (l : List A) (i : ℕ) {a : A} → get_elem? l i ≡ some a → item_at l (pos i) ≡ ok a
  item_at-get l i {a} h = simp (position_get l i a h, h) refl

  -- inversion of `modify`
  pub modify-ok :
      (l : List A) (i : ℤ) (f : A → Result A) {m : List A}
      → modify l i f ≡ ok m
      → (n : ℕ) × (a b : A) × (position (length l) i ≡ some n)
        × (get_elem? l n ≡ some a)
        × (f a ≡ ok b)
        × (m ≡ set l n b)
  modify-ok l i f h =
      let (a, got, rest) = >>=-eq-ok (item_at l i) (λ a. f a >>= λ b. ok (set_at l i b)) h in
      let (n, e, g) = item_at-ok l i got in
      let (b, made, done) = >>=-eq-ok (f a) (λ b. ok (set_at l i b)) rest in
      (n, a, b, e, g, made, ground (arith, ok-injective done))

pub position_pos : (n k m : ℕ) → position n (pos k) ≡ some m → m ≡ k
unfolding position
position_pos n k m h = ground arith
