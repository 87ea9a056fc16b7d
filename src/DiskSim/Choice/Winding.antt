-- ===== src/DiskSim/Choice/Winding.antt =====
-- The loops of DoSATF that bring an angle into range.
use cs334_operating_systems.Prelude.{
  ℕ, zero, suc, ◌+◌, ◌*◌, ◌≤◌, ◌≡◌, inl, inr, false, arith, Bool-cases,
}
use cs334_operating_systems.Prelude.Int.{
  ℤ, pos, pos_part, neg_part, ◌+ℤ◌, ◌-ℤ◌, ltb_ℤ, +ℤ_parts, -ℤ_parts,
}
use cs334_operating_systems.DiskSim.Choice.{wind_down, wind_up, wound_down, wound_up}

-- two angles that differ by whole turns
abbrev pub SameAngle : ℤ → ℤ → Type 0
SameAngle x y =
    (a : ℕ) × (b : ℕ) × (pos_part x + neg_part y + 360 * a ≡ pos_part y + neg_part x + 360 * b)

SameAngle-trans : (x y z : ℤ) → SameAngle x y → SameAngle y z → SameAngle x z
SameAngle-trans x y z (a, b, e) (c, d, f) = (a + c, b + d, omega (arith, e, f))

turn_back : (x : ℤ) → SameAngle (x -ℤ pos 360) x
turn_back x = (1, 0, omega (arith, -ℤ_parts x (pos 360)))

turn_on : (x : ℤ) → SameAngle (x +ℤ pos 360) x
turn_on x = (0, 1, omega (arith, +ℤ_parts x (pos 360)))

wind_down_lem :
    (k : ℕ) (x : ℤ)
    → pos_part x ≤ k
    → (ltb_ℤ (pos 360) (wind_down k x) ≡ false) × SameAngle (wind_down k x) x
unfolding wind_down
wind_down_lem zero x h = (ground (arith, h), (0, 0, omega arith))
wind_down_lem (suc k) x h = elim (Bool-cases (ltb_ℤ (pos 360) x)) [
  | inl far ↦
      let (low, same) = wind_down_lem k (x -ℤ pos 360) (ground (arith, -ℤ_parts x (pos 360), h)) in
      rw far (low, SameAngle-trans (wind_down k (x -ℤ pos 360)) (x -ℤ pos 360) x same (turn_back x))
  | inr near ↦ rw near (near, (0, 0, omega arith))
]

wind_up_lem :
    (k : ℕ) (x : ℤ)
    → neg_part x ≤ k
    → ltb_ℤ (pos 360) x ≡ false
    → (ltb_ℤ (wind_up k x) (pos 0) ≡ false)
      × (ltb_ℤ (pos 360) (wind_up k x) ≡ false)
      × SameAngle (wind_up k x) x
unfolding wind_up
wind_up_lem zero x h low = (ground (arith, h), low, (0, 0, omega arith))
wind_up_lem (suc k) x h low = elim (Bool-cases (ltb_ℤ x (pos 0))) [
  | inl below ↦
      let (up, still, same) =
        wind_up_lem k (x +ℤ pos 360) (ground (arith, +ℤ_parts x (pos 360), h))
          (ground (arith, +ℤ_parts x (pos 360))) in
      rw below
        (up, still, SameAngle-trans (wind_up k (x +ℤ pos 360)) (x +ℤ pos 360) x same (turn_on x))
  | inr above ↦ rw above (above, low, (0, 0, omega arith))
]

-- The loops that bring a rotational distance into range have fuel enough: the result lies between 0
-- and 360, and differs from the distance by whole turns.
pub wound_up-wound_down :
    (x : ℤ)
    → (ltb_ℤ (wound_up (wound_down x)) (pos 0) ≡ false)
      × (ltb_ℤ (pos 360) (wound_up (wound_down x)) ≡ false)
      × SameAngle (wound_up (wound_down x)) x
wound_up-wound_down x =
    let (low, same) = wind_down_lem (pos_part x) x (omega arith) in
    let (up, still, again) =
      wind_up_lem (neg_part (wound_down x)) (wound_down x) (omega arith) low in
    (up, still, SameAngle-trans (wound_up (wound_down x)) (wound_down x) x again same)
