-- ===== src/Prelude/DivMod.antt =====
-- A number is its quotient and its remainder, and they are the only ones.
use native.Mathlib.Nat.{mod-eq_of_lt, mod-eq-sub-mod, mod-add-mod}
use cs334_operating_systems.Prelude.{
  ℕ, ◌+◌, ◌-◌, ◌*◌, ◌/◌, ◌%◌, ◌<◌, ◌≡◌, refl, ap, ◌∙◌, ◌⊎◌, inl, inr, arith, ltb, leb, Bool-cases,
}

module _ (q c r : ℕ) (h : r < c) where
  pub div_of : (q * c + r) / c ≡ q
  div_of = grind arith

  pub mod_of : (q * c + r) % c ≡ r
  mod_of = grind arith

pub join : (a c : ℕ) → 0 < c → a / c * c + a % c ≡ a
join a c h = grind arith

pub mod-lt_pos : (a c : ℕ) → 0 < c → a % c < c
mod-lt_pos a c h = grind arith

-- the remainder of a number below `2 * n`
pub mod_wrap : (a j n : ℕ) → j < n → (a ≡ j) ⊎ (a ≡ j + n) → a % n ≡ j
mod_wrap a j n h (inl e) = rw e (mod-eq_of_lt h)
mod_wrap a j n h (inr e) = rw e (
    mod-eq-sub-mod {n = j + n} {m = n} (omega arith)
    ∙ ap (λ x. x % n) (let f : j + n - n ≡ j = omega arith in f)
    ∙ mod-eq_of_lt h)

-- Going round `n` places from `t` on: the place after `k` steps is `(t + k) % n`.
pub round_step : (t k n : ℕ) → ((t + k) % n + 1) % n ≡ (t + (k + 1)) % n
round_step t k n = mod-add-mod (t + k) n 1 ∙ ap (λ x. x % n) (omega arith)

pub round_home : (t k n : ℕ) → t < n → k < n → (t + (k + 1)) % n ≡ t → k + 1 ≡ n
round_home t k n ht hk h = elim (Bool-cases (ltb (t + (k + 1)) n)) [
  | inl below ↦
      absurd (omega (arith, mod_wrap (t + (k + 1)) (t + (k + 1)) n (ground arith) (inl refl), h))
  | inr above ↦ elim (Bool-cases (ltb (k + 1) n)) [
    | inl before ↦
        let back : t + (k + 1) - n < n = ground arith in
        absurd
          (ground (arith, mod_wrap (t + (k + 1)) (t + (k + 1) - n) n back (inr (ground arith)), h))
    | inr end ↦ ground arith
  ]
]

pub round_cover : (t g n : ℕ) → t < n → g < n → (j : ℕ) × (j < n) × ((t + j) % n ≡ g)
round_cover t g n ht hg = elim (Bool-cases (leb t g)) [
  | inl ahead ↦ (g - t, ground arith, mod_wrap (t + (g - t)) g n hg (inl (ground arith)))
  | inr behind ↦ (g + n - t, ground arith, mod_wrap (t + (g + n - t)) g n hg (inr (ground arith)))
]

-- a place in the first `n` rows of width `w`
pub lt-mul_of_row : (k i n w : ℕ) → k < n → i < w → k * w + i < n * w
lt-mul_of_row k i n w hk hi =
    let (m, e) : (m : ℕ) × (n ≡ k + 1 + m) = (n - (k + 1), omega arith) in
    let f : n * w ≡ k * w + w + m * w = rw e (grind arith) in omega (arith, f)
