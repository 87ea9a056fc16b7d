-- ===== src/DiskSim/Run/Arm.antt =====
-- HW-Disk/disk.py, class Disk: DoneWithSeek and the place of the arm.
use cs334_operating_systems.Prelude.{
  ℕ, zero, suc, ◌+◌, ◌*◌, ◌<◌, ◌≡◌, refl, sym, ap, ◌∙◌, ◌⊎◌, inl, inr, Bool, true, false, ◌&&◌,
  ◌||◌, arith, leb,
}
use cs334_operating_systems.Prelude.Int.{ℤ, pos, ◌+ℤ◌, ◌-ℤ◌, ltb_ℤ, leb_ℤ, pos-add-pos}
use cs334_operating_systems.DiskSim.Run.Service.{Moving, inward, outward}

-- the test of `done_with_seek`
abbrev pub arrives : ℤ → ℤ → ℤ → Bool
arrives x1 speed target =
    (ltb_ℤ (pos 0) speed && leb_ℤ target (x1 +ℤ speed))
    || (ltb_ℤ speed (pos 0) && leb_ℤ (x1 +ℤ speed) target)

inward-arrives : (x v w : ℕ) → 0 < v → arrives (pos x) (pos v) (pos (x + (v + w))) ≡ leb w 0
unfolding ◌+ℤ◌
inward-arrives x v w h = ground arith

outward-sum : (x v : ℕ) → pos (x + v) +ℤ (pos 0 -ℤ pos v) ≡ pos x
unfolding ◌+ℤ◌ ◌-ℤ◌
outward-sum x v = ground arith

outward-arrives : (x v w : ℕ) → 0 < v → arrives (pos (x + w + v)) (pos 0 -ℤ pos v) (pos x) ≡ leb w 0
unfolding ◌+ℤ◌ ◌-ℤ◌
outward-arrives x v w h = ground arith

row : (n v : ℕ) → suc n * v ≡ v + n * v
row n v = grind arith

still_moving : (n v : ℕ) → 0 < v → leb (suc n * v) 0 ≡ false
still_moving n v h = ground (arith, row n v, h)

abbrev Step : ℤ → ℤ → ℤ → ℕ → ℕ → Type 0
Step x1 speed target v n =
    ((n ≡ 0) × (target ≡ x1 +ℤ speed) × (arrives x1 speed target ≡ true))
    ⊎ ((0 < n) × (arrives x1 speed target ≡ false) × Moving (x1 +ℤ speed) speed target v n)

-- the two cases, when the test says whether ticks are left
test-Step :
    (x1 speed target : ℤ) (v n : ℕ)
    → 0 < v
    → arrives x1 speed target ≡ leb (n * v) 0
    → (n ≡ 0 → target ≡ x1 +ℤ speed)
    → Moving (x1 +ℤ speed) speed target v n
    → Step x1 speed target v n
test-Step x1 speed target v zero h test there m =
    inl (refl, there refl, test ∙ (let z : 0 * v ≡ 0 = omega arith in rw z refl))
test-Step x1 speed target v (suc n) h test there m = inr (omega arith, test ∙ still_moving n v h, m)

pub arrives-Moving :
    (x1 speed target : ℤ) (v n : ℕ)
    → 0 < v
    → Moving x1 speed target v (suc n)
    → Step x1 speed target v n
arrives-Moving x1 speed target v n h (inward x at_x by to) =
    let to : target ≡ pos (x + (v + n * v)) = to ∙ ap (λ w. pos (x + w)) (row n v) in
    let sum : x1 +ℤ speed ≡ pos (x + v) = rw (at_x, by) (pos-add-pos x v) in
    test-Step x1 speed target v n h (rw (at_x, by, to) (inward-arrives x v (n * v) h))
      (λ e. to ∙ ap pos (rw e (omega arith)) ∙ sym sum)
      (inward (x + v) sum by (to ∙ ap pos (omega arith)))
arrives-Moving x1 speed target v n h (outward x at_x by to) =
    let at_x : x1 ≡ pos (x + n * v + v) = at_x ∙ ap pos (omega (arith, row n v)) in
    let sum : x1 +ℤ speed ≡ pos (x + n * v) = rw (at_x, by) (outward-sum (x + n * v) v) in
    test-Step x1 speed target v n h (rw (at_x, by, to) (outward-arrives x v (n * v) h))
      (λ e. to ∙ ap pos (rw e (omega arith)) ∙ sym sum) (outward x sum by to)
