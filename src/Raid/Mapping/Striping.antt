-- ===== src/Raid/Mapping/Striping.antt =====
-- The layouts of levels 0, 1 and 4 lose no block: each has an inverse.
use cs334_operating_systems.Prelude.{ℕ, ◌+◌, ◌-◌, ◌*◌, ◌/◌, ◌%◌, ◌<◌, ◌≡◌, refl, ap, arith}
use cs334_operating_systems.Raid.Mapping.{bmap0, bmap1, bmap4, pmap4}
use cs334_operating_systems.Prelude.DivMod.{div_of, mod_of, join, mod-lt_pos}

-- The block at an offset of column `col`, when chunks go round `width` columns.
unfoldable pub unstripe : ℕ → ℕ → ℕ → ℕ → ℕ
unstripe chunk_size width col off = (off / chunk_size * width + col) * chunk_size + off % chunk_size

-- the column and the offset of a block
unfoldable pub stripe : ℕ → ℕ → ℕ → ℕ × ℕ
stripe chunk_size width bnum =
    (bnum / chunk_size % width, bnum / chunk_size / width * chunk_size + bnum % chunk_size)

module _ (c w : ℕ) (cpos : 0 < c) (wpos : 0 < w) where
  pub unstripe-stripe : (b : ℕ) → unstripe c w (stripe c w b).0 (stripe c w b).1 ≡ b
  unfolding unstripe stripe
  unstripe-stripe b =
      rw
        (
          div_of (b / c / w) c (b % c) (mod-lt_pos b c cpos),
          mod_of (b / c / w) c (b % c) (mod-lt_pos b c cpos),
          join (b / c) w wpos,
        )
        (join b c cpos)

  pub stripe-unstripe : (col off : ℕ) → col < w → stripe c w (unstripe c w col off) ≡ (col, off)
  unfolding unstripe stripe
  stripe-unstripe col off h =
      rw
        (
          div_of (off / c * w + col) c (off % c) (mod-lt_pos off c cpos),
          mod_of (off / c * w + col) c (off % c) (mod-lt_pos off c cpos),
          div_of (off / c) w col h,
          mod_of (off / c) w col h,
        )
        (ap (λ (x : ℕ). (col, x)) (join off c cpos))

-- Level 0: `bmap0` is a bijection between the logical blocks and the pairs of a disk below
-- `num_disks` and an offset.
pub bmap0_bijective :
    (c n : ℕ)
    → 0 < c
    → 0 < n
    → ((b : ℕ) → ((bmap0 c n b).0 < n) × (unstripe c n (bmap0 c n b).0 (bmap0 c n b).1 ≡ b))
      × ((disk off : ℕ) → disk < n → bmap0 c n (unstripe c n disk off) ≡ (disk, off))
unfolding bmap0
bmap0_bijective c n cpos npos = (
  λ b. (mod-lt_pos (b / c) n npos, unfold stripe in unstripe-stripe c n cpos npos b),
  λ disk off h. unfold stripe in stripe-unstripe c n cpos npos disk off h,
)

-- Level 1: with an even number of disks the two copies of a block lie at one offset of two
-- different disks of the array, and the block is found again from either copy.
pub bmap1_mirrors :
    (c n : ℕ)
    → 0 < c
    → 0 < n / 2
    → n % 2 ≡ 0
    → (b : ℕ)
    → let (disk1, disk2, off) = bmap1 c n b in
      (disk1 < n)
      × (disk2 < n)
      × (disk2 ≡ disk1 + 1)
      × (unstripe c (n / 2) (disk1 / 2) off ≡ b)
      × (unstripe c (n / 2) (disk2 / 2) off ≡ b)
unfolding bmap1
bmap1_mirrors c n cpos npos even b =
    let col = b / c % (n / 2) in
    let below : col < n / 2 = mod-lt_pos (b / c) (n / 2) npos in
    let first : 2 * col / 2 ≡ col = omega arith in
    let second : (2 * col + 1) / 2 ≡ col = omega arith in
    let back : unstripe c (n / 2) (b / c % (n / 2)) (b / c / (n / 2) * c + b % c) ≡ b =
      unfold stripe in unstripe-stripe c (n / 2) cpos npos b in
    (omega arith, omega arith, refl, rw first back, rw second back)

-- Level 4: data never lies on the parity disk, and `bmap4` is a bijection between the logical
-- blocks and the pairs of a data disk and an offset.
pub bmap4_bijective :
    (c n snum : ℕ)
    → 0 < c
    → 1 < n
    → ((b : ℕ)
        → ((bmap4 c n b).0 < pmap4 c n snum)
          × (pmap4 c n snum < n)
          × (unstripe c (n - 1) (bmap4 c n b).0 (bmap4 c n b).1 ≡ b))
      × ((disk off : ℕ) → disk < n - 1 → bmap4 c n (unstripe c (n - 1) disk off) ≡ (disk, off))
unfolding bmap4 pmap4
bmap4_bijective c n snum cpos npos =
    let wpos : 0 < n - 1 = omega arith in
    (
      λ b. (
        mod-lt_pos (b / c) (n - 1) wpos,
        omega arith,
        unfold stripe in unstripe-stripe c (n - 1) cpos wpos b,
      ),
      λ disk off h. unfold stripe in stripe-unstripe c (n - 1) cpos wpos disk off h,
    )
