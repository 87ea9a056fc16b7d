-- ===== src/Checksum/Laws.antt =====
-- What the sums of checksum.py are, and what they say about the order of the bytes.
use native.Mathlib.Nat.{add-mul-mod_self_left, div-add-mod}
use cs334_operating_systems.Prelude.{
  ℕ, ◌+◌, ◌*◌, ◌/◌, ◌%◌, ◌<◌, ◌≡◌, sym, ap, ◌∙◌, ◌↔◌, List, [], ◌∷◌, ◌++◌, arith, length,
  length-append,
}
use cs334_operating_systems.Checksum.{Sums, start, step, sums_from, sums}

unfoldable pub total : List ℕ → ℕ
total [] = 0
total (v ∷ vs) = v + total vs

-- each byte as often as there are bytes from it on
unfoldable pub weighted : List ℕ → ℕ
weighted [] = 0
weighted (v ∷ vs) = v * (1 + length vs) + weighted vs

mul_mod : (n x y m : ℕ) → (n * (x % m) + y) % m ≡ (n * x + y) % m
mul_mod n x y m =
    let parts : n * x + y ≡ n * (x % m) + y + m * (n * (x / m)) =
      ap (λ z. n * z + y) (sym (div-add-mod x m)) ∙ grind arith in
    sym (ap (λ z. z % m) parts ∙ add-mul-mod_self_left (n * (x % m) + y) m (n * (x / m)))

-- the sums are remainders
record IsReduced (s : Sums) : Type 0 where
  small_add : s.add < 256
  small_a : s.fletcher_a < 255
  small_b : s.fletcher_b < 255

step-IsReduced : (s : Sums) (v : ℕ) → IsReduced (step s v)
unfolding step
step-IsReduced s v = record {
  small_add = omega arith;
  small_a = omega arith;
  small_b = omega arith;
}

sums_from-total :
    (s : Sums) (vs : List ℕ)
    → IsReduced s
    → ((sums_from s vs).add ≡ (s.add + total vs) % 256)
      × ((sums_from s vs).fletcher_a ≡ (s.fletcher_a + total vs) % 255)
unfolding sums_from total
sums_from-total s [] r = (omega (arith, r.small_add), omega (arith, r.small_a))
sums_from-total s (v ∷ vs) r =
    let (e, f) = sums_from-total (step s v) vs (step-IsReduced s v) in
    (unfold step in omega (arith, e), unfold step in omega (arith, f))

weigh :
    (a b v n w : ℕ)
    → ((b + (a + v) % 255) % 255 + (n * ((a + v) % 255) + w)) % 255
      ≡ (b + ((1 + n) * (a + v) + w)) % 255
weigh a b v n w =
    let e = mul_mod n (a + v) w 255 in
    let d : (1 + n) * (a + v) ≡ (a + v) + n * (a + v) = grind arith in omega (arith, e, d)

sums_from-weighted :
    (s : Sums) (vs : List ℕ)
    → IsReduced s
    → (sums_from s vs).fletcher_b ≡ (s.fletcher_b + (length vs * s.fletcher_a + weighted vs)) % 255
unfolding sums_from weighted
sums_from-weighted s [] r = omega (arith, r.small_b)
sums_from-weighted s (v ∷ vs) r =
    sums_from-weighted (step s v) vs (step-IsReduced s v)
    ∙ (unfold step in weigh s.fletcher_a s.fletcher_b v (length vs) (weighted vs))
    ∙ ap (λ x. x % 255) (grind arith)

start-IsReduced : IsReduced start
unfolding start
start-IsReduced = record { small_add = omega arith; small_a = omega arith; small_b = omega arith }

-- Add is the total of the bytes modulo 256, the first Fletcher sum the total modulo 255, and the
-- second the sum modulo 255 of the bytes, each weighted by the number of bytes from it on.
pub sums_lem :
    (vs : List ℕ)
    → ((sums vs).add ≡ total vs % 256)
      × ((sums vs).fletcher_a ≡ total vs % 255)
      × ((sums vs).fletcher_b ≡ weighted vs % 255)
unfolding sums start
sums_lem vs =
    let (e, f) = sums_from-total start vs start-IsReduced in
    let g = sums_from-weighted start vs start-IsReduced in
    (omega (arith, e), omega (arith, f), g ∙ ap (λ x. x % 255) (grind arith))

total-swap : (l m : List ℕ) (x y : ℕ) → total (l ++ x ∷ y ∷ m) ≡ total (l ++ y ∷ x ∷ m)
unfolding total
total-swap [] m x y = omega arith
total-swap (v ∷ l) m x y = omega (arith, total-swap l m x y)

weighted-swap :
    (l m : List ℕ) (x y : ℕ) → weighted (l ++ x ∷ y ∷ m) + y ≡ weighted (l ++ y ∷ x ∷ m) + x
unfolding weighted
weighted-swap [] m x y = grind arith
weighted-swap (v ∷ l) m x y =
    let same : length (l ++ x ∷ y ∷ m) ≡ length (l ++ y ∷ x ∷ m) =
      omega (arith, length-append l (x ∷ y ∷ m), length-append l (y ∷ x ∷ m)) in
    let scaled : v * (1 + length (l ++ x ∷ y ∷ m)) ≡ v * (1 + length (l ++ y ∷ x ∷ m)) =
      ap (λ n. v * (1 + n)) same in
    omega (arith, scaled, weighted-swap l m x y)

-- When two neighbours change places, Add and the first Fletcher sum stay the same; the second one
-- stays the same exactly when the two are equal modulo 255.
pub sums-swap :
    (l m : List ℕ) (x y : ℕ)
    → let before = sums (l ++ x ∷ y ∷ m) in
      let after = sums (l ++ y ∷ x ∷ m) in
      (before.add ≡ after.add)
      × (before.fletcher_a ≡ after.fletcher_a)
      × ((before.fletcher_b ≡ after.fletcher_b) ↔ (x % 255 ≡ y % 255))
sums-swap l m x y =
    let (e, f, g) = sums_lem (l ++ x ∷ y ∷ m) in
    let (p, q, r) = sums_lem (l ++ y ∷ x ∷ m) in
    let t = total-swap l m x y in
    let w = weighted-swap l m x y in
    (
      omega (arith, e, p, t),
      omega (arith, f, q, t),
      (λ h. omega (arith, g, r, w, h), λ h. omega (arith, g, r, w, h)),
    )
