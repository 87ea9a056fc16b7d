-- ===== src/Raid/Mapping/Rotated.antt =====
-- Level 5: parity goes round the disks, one row of chunks after the other.
use native.Mathlib.Nat.{add-zero, mod-eq_of_lt, mod-eq-sub-mod}
use native.Mathlib.Decide.{dec_le}
use cs334_operating_systems.Prelude.{
  ℕ, ◌+◌, ◌-◌, ◌*◌, ◌/◌, ◌%◌, ◌<◌, ◌≡◌, refl, ap, ◌∙◌, ◌≢◌, ◌⊎◌, inl, inr, arith, leb,
  if◌then◌else◌, ok,
}
use cs334_operating_systems.Prelude.DivMod.{div_of, join, mod-lt_pos, mod_wrap}
use cs334_operating_systems.Raid.Mapping.{
  sub_mod, Raid5Type, left_symmetric, left_asymmetric, other, data_disk, bmap5_full,
  blocks_in_stripe, pmap5,
}
use cs334_operating_systems.Raid.Mapping.Striping.{unstripe, stripe, unstripe-stripe}

-- the two layouts that the program accepts
abbrev pub IsLayout : Raid5Type → Type 0
IsLayout other = ⊥
IsLayout _ = Unit

-- The column of a data disk: what `data_disk` did, undone.
unfoldable pub data_column : Raid5Type → ℕ → ℕ → ℕ → ℕ → ℕ
data_column left_asymmetric n disk col pdisk = if leb pdisk disk then disk - 1 else disk
data_column _ n disk col pdisk = (disk + col) % n

-- one row: the data disk is in the array, is not the parity disk, and gives back its column
record Row (kind : Raid5Type) (n j col d : ℕ) : Type 0 where
  chosen : data_disk kind n j col (n - 1 - col) ≡ ok d
  below : d < n
  apart : d ≢ n - 1 - col
  back : data_column kind n d col (n - 1 - col) ≡ j

sub_mod-cases :
    (j col n : ℕ)
    → j < n
    → col < n
    → (sub_mod j col n < n) × ((sub_mod j col n + col ≡ j) ⊎ (sub_mod j col n + col ≡ j + n))
sub_mod-cases j col n h k = rw (mod-eq_of_lt k) (elim (dec_le col j) [
  | yes p ↦
      let e : (j + (n - col)) % n ≡ j - col =
        mod-eq-sub-mod {n = j + (n - col)} {m = n} (omega arith)
        ∙ ap (λ x. x % n) (let f : j + (n - col) - n ≡ j - col = omega arith in f)
        ∙ mod-eq_of_lt {n = j - col} {m = n} (omega arith) in
      rw e (omega arith, inl (omega arith))
  | no p ↦
      let e : (j + (n - col)) % n ≡ j + (n - col) =
        mod-eq_of_lt {n = j + (n - col)} {m = n} (omega arith) in
      rw e (omega arith, inr (omega arith))
])

rotated :
    (kind : Raid5Type) (n j col : ℕ)
    → IsLayout kind
    → j < n - 1
    → col < n
    → (d : ℕ) × Row kind n j col d
unfolding data_disk data_column
rotated other n j col l h k = absurd l
rotated left_asymmetric n j col l h k = (
  (if leb (n - 1 - col) j then j + 1 else j),
  record { chosen = refl; below = ground arith; apart = ground arith; back = ground arith },
)
rotated left_symmetric n j col l h k =
    let (b, s) = sub_mod-cases j col n (omega arith) k in
    (
      sub_mod j col n,
      record {
        chosen = refl;
        below = b;
        apart = λ e. absurd (omega arith);
        back = mod_wrap (sub_mod j col n + col) j n (omega arith) s;
      },
    )

-- The block at an offset of a data disk of level 5.
unfoldable pub unrotate : Raid5Type → ℕ → ℕ → ℕ → ℕ → ℕ
unfolding data_column
unrotate kind c n disk off =
    let col = off / c % n in unstripe c (n - 1) (data_column kind n disk col (n - 1 - col)) off

-- Level 5, both layouts: the assertion `disk != pdisk` never fails, data and parity lie on two
-- different disks of the array, and the block is found again from its disk and offset, so no two
-- blocks share a place.
pub bmap5_full_lem :
    (kind : Raid5Type) (c n : ℕ)
    → IsLayout kind
    → 0 < c
    → 1 < n
    → (b : ℕ)
    → (disk pdisk off : ℕ) × (bmap5_full kind c n b ≡ ok (disk, pdisk, off))
      × (disk < n)
      × (pdisk < n)
      × (disk ≢ pdisk)
      × (unrotate kind c n disk off ≡ b)
unfolding bmap5_full unrotate
bmap5_full_lem kind c n layout cpos npos b =
    let j = b / c % (n - 1) in
    let row = b / c / (n - 1) in
    let wpos : 0 < n - 1 = omega arith in
    let (d, r) =
      rotated kind n j (row % n) layout (mod-lt_pos (b / c) (n - 1) wpos)
        (mod-lt_pos row n (omega arith)) in
    let line : (row * c + b % c) / c ≡ row = div_of row c (b % c) (mod-lt_pos b c cpos) in
    (
      d,
      n - 1 - row % n,
      row * c + b % c,
      rw r.chosen (ground (arith, r.apart)),
      r.below,
      omega (arith, mod-lt_pos row n),
      r.apart,
      rw (line, r.back) (unfold stripe in unstripe-stripe c (n - 1) cpos wpos b),
    )

-- the row of a block
row_of : (s k w c : ℕ) → 0 < c → k < w * c → (s * (w * c) + k) / c / w ≡ s
row_of s k w c h l =
    let small : k / c < w = grind arith in
    let e : s * (w * c) + k ≡ (s * w + k / c) * c + k % c = omega (arith, join k c h) in
    rw (e, div_of (s * w + k / c) c (k % c) (mod-lt_pos k c h)) (div_of s w (k / c) small)

-- the parity disk depends on the row alone
pdisk_of_row :
    (kind : Raid5Type) (c n : ℕ)
    → IsLayout kind
    → 0 < c
    → 1 < n
    → (b row : ℕ) → b / c / (n - 1) ≡ row
    → (disk off : ℕ) × (bmap5_full kind c n b ≡ ok (disk, n - 1 - row % n, off))
unfolding bmap5_full
pdisk_of_row kind c n layout cpos npos b row e =
    let j = b / c % (n - 1) in
    let (d, r) =
      rotated kind n j (row % n) layout (mod-lt_pos (b / c) (n - 1) (omega arith))
        (mod-lt_pos row n (omega arith)) in
    (d, row * c + b % c, rw (e, r.chosen) (ground (arith, r.apart)))

-- Every block of stripe `snum` has its parity on the disk that `pmap5` names.
pub pmap5-bmap5 :
    (kind : Raid5Type) (c n snum k : ℕ)
    → IsLayout kind
    → 0 < c
    → 1 < n
    → k < blocks_in_stripe c n
    → (disk pdisk off : ℕ) × (bmap5_full kind c n (snum * blocks_in_stripe c n + k)
        ≡ ok (disk, pdisk, off))
      × (pmap5 kind c n snum ≡ ok pdisk)
unfolding pmap5
pmap5-bmap5 kind c n snum k layout cpos npos l =
    let start : snum * blocks_in_stripe c n / c / (n - 1) ≡ snum =
      rw (← add-zero (snum * blocks_in_stripe c n)) (row_of snum 0 (n - 1) c cpos (grind arith)) in
    let (d, off, e) =
      pdisk_of_row kind c n layout cpos npos (snum * blocks_in_stripe c n + k) snum
        (row_of snum k (n - 1) c cpos l) in
    let (d', off', e') =
      pdisk_of_row kind c n layout cpos npos (snum * blocks_in_stripe c n) snum start in
    (d, n - 1 - snum % n, off, e, rw e')
