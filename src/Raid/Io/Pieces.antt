-- ===== src/Raid/Io/Pieces.antt =====
-- HW-Raid/raid.py, enqueue45: the parts of a write, stripe by stripe.
use cs334_operating_systems.Prelude.{
  ℕ, zero, suc, ◌+◌, ◌-◌, ◌*◌, ◌/◌, ◌%◌, ◌≤◌, ◌<◌, ◌≡◌, refl, false, List, [], ◌∷◌, arith, ◌==◌,
}
use cs334_operating_systems.Prelude.DivMod.{join, mod-lt_pos}
use cs334_operating_systems.Raid.Io.{stop_of, pieces, stripe_count}

-- The parts follow one another from `begin` to `stop`, one for each stripe from `s` on, none empty
-- and each inside its stripe of `w` blocks.
abbrev pub Covers : ℕ → ℕ → ℕ → ℕ → List (ℕ × ℕ × ℕ) → Type 0
Covers w s begin stop [] = begin ≡ stop
Covers w s begin stop ((t, b, e) ∷ l) =
    (t ≡ s) × (b ≡ begin) × (s * w ≤ b) × (b < e) × (e ≤ s * w + w) × Covers w (s + 1) e stop l

module _ (w : ℕ) where
  last_stop :
      (stripe left begin : ℕ)
      → stripe * w ≤ begin
      → begin + left ≤ stripe * w + w
      → stop_of w stripe left begin ≡ begin + left
  last_stop stripe left begin lo reach = ground arith

  full_stop :
      (stripe left begin : ℕ)
      → stripe * w ≤ begin
      → stripe * w + w ≤ begin + left
      → stop_of w stripe left begin ≡ stripe * w + w
  full_stop stripe left begin lo reach = ground arith

  pieces_cover :
      (k stripe left begin stop : ℕ)
      → begin + left ≡ stop
      → stripe * w ≤ begin
      → begin < stripe * w + w
      → 0 < left
      → stop ≤ (stripe + k) * w
      → (stripe + k) * w < stop + w
      → Covers w stripe begin stop (pieces w k stripe left begin)
  unfolding pieces
  pieces_cover zero stripe left begin stop t lo hi some_left reach last = absurd (omega arith)
  pieces_cover (suc zero) stripe left begin stop t lo hi some_left reach last =
      rw (last_stop stripe left begin lo (omega arith))
        (refl, refl, lo, omega arith, omega arith, t)
  pieces_cover (suc (suc k)) stripe left begin stop t lo hi some_left reach last =
      let far : stripe * w + w < stop = omega arith in
      let next : (stripe + 1) * w ≡ stripe * w + w = omega arith in
      rw (full_stop stripe left begin lo (omega arith)) (
        refl,
        refl,
        lo,
        hi,
        omega arith,
        pieces_cover (suc k) (stripe + 1) (left - (stripe * w + w - begin)) (stripe * w + w) stop
            (omega arith) (omega arith) (omega arith) (omega arith) (omega arith) (omega arith),
      )

div_mono : (a b c : ℕ) → 0 < c → a ≤ b → a / c ≤ b / c
div_mono a b c h l = grind arith

-- The loop of `enqueue45` covers a write of `size` blocks at `addr` exactly once, in order, stripe
-- by stripe.
pub pieces-Covers :
    (w addr size : ℕ)
    → 0 < w
    → 0 < size
    → Covers w
        (addr / w)
        addr
        (addr + size)
        (pieces w (stripe_count w addr size) (addr / w) size addr)
unfolding stripe_count
pieces-Covers w addr size h pos_size =
    let first : addr / w * w + addr % w ≡ addr = join addr w h in
    let last : (addr + size - 1) / w * w + (addr + size - 1) % w ≡ addr + size - 1 =
      join (addr + size - 1) w h in
    let nonzero : (addr + size == 0) ≡ false = ground arith in
    let q = (addr + size - 1) / w in
    let le : addr / w ≤ q = div_mono addr (addr + size - 1) w h (omega arith) in
    let start : addr / w * w ≤ addr = omega (arith, first) in
    let rem : addr % w < w = mod-lt_pos addr w h in
    let count : addr / w + (q + 1 - addr / w) ≡ q + 1 = omega (arith, le) in
    rw nonzero (
      pieces_cover w ((addr + size - 1) / w + 1 - addr / w) (addr / w) size addr (addr + size) refl
        start (omega (arith, first, rem)) pos_size
        (rw count (omega (arith, last, mod-lt_pos (addr + size - 1) w h)))
        (rw count (omega (arith, last))))
