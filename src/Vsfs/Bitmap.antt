-- ===== src/Vsfs/Bitmap.antt =====
-- HW-VSFS/vsfs.py, class bitmap: the allocation bitmaps of inodes and data blocks.
pub mod Laws
use cs334_operating_systems.Prelude.{
  ℕ, ◌+◌, List, [], ◌∷◌, ◌==◌, if◌then◌else◌, set, replicate, Result, ok, ◌>>=◌, check, ◌>>◌,
  item_at, set_at,
}
use cs334_operating_systems.Prelude.Int.{ℤ, pos, negsuc, ◌+ℤ◌, ◌-ℤ◌, minus_one}

pub record Bitmap : Type 0 where
  pub size : ℕ
  pub bmap : List ℕ
  pub num_allocated : ℤ

unfoldable pub init : ℕ → Bitmap
init size = record { size = size; bmap = replicate size 0; num_allocated = pos 0 }

-- the loop of `alloc`: the index of the first 0, counted from `num`
unfoldable pub first_free : ℕ → List ℕ → ℤ
first_free num [] = minus_one
first_free num (b ∷ bs) = if b == 0 then pos num else first_free (num + 1) bs

-- the body of the loop's `if`, or the `return -1` after the loop
abbrev pub take_bit : Bitmap → ℤ → ℤ × Bitmap
take_bit b (pos num) =
    (pos num, record b { bmap = set b.bmap num 1; num_allocated = b.num_allocated +ℤ pos 1 })
take_bit b (negsuc n) = (negsuc n, b)

unfoldable pub alloc : Bitmap → ℤ × Bitmap
unfolding first_free
alloc b = take_bit b (first_free 0 b.bmap)

unfoldable pub free : Bitmap → ℤ → Result Bitmap
free b num = do
  bit ← item_at b.bmap num
  check (bit == 1)
  ok (record b { num_allocated = b.num_allocated -ℤ pos 1; bmap = set_at b.bmap num 0 })

unfoldable pub mark_allocated : Bitmap → ℤ → Result Bitmap
mark_allocated b num = do
  bit ← item_at b.bmap num
  check (bit == 0)
  ok (record b { num_allocated = b.num_allocated +ℤ pos 1; bmap = set_at b.bmap num 1 })

unfoldable pub num_free : Bitmap → ℤ
num_free b = pos b.size -ℤ b.num_allocated
