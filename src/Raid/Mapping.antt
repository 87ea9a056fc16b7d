-- ===== src/Raid/Mapping.antt =====
-- HW-Raid/raid.py, class raid: bmap0, bmap1, bmap4, pmap4, __bmap5, bmap5 and pmap5, from a logical
-- block to its disk and offset. Where a divisor is 0 the source raises, so the theorems take the
-- chunk size and the numbers of disks in use to be positive.
pub mod Striping
pub mod Rotated
use cs334_operating_systems.Prelude.{
  ℕ, ◌+◌, ◌-◌, ◌*◌, ◌/◌, ◌%◌, not, leb, ◌==◌, if◌then◌else◌, Fault, Result, ok, raise, ◌>>=◌, check,
  ◌>>◌,
}

-- `(a - b) % n`, which Python takes from 0 to n - 1
abbrev pub sub_mod : ℕ → ℕ → ℕ → ℕ
sub_mod a b n = (a + (n - b % n)) % n

module _ (chunk_size num_disks : ℕ) where
  unfoldable pub bmap0 : ℕ → ℕ × ℕ
  bmap0 bnum =
      let cnum = bnum / chunk_size in
      let coff = bnum % chunk_size in (cnum % num_disks, cnum / num_disks * chunk_size + coff)

  unfoldable pub bmap1 : ℕ → ℕ × ℕ × ℕ
  bmap1 bnum =
      let cnum = bnum / chunk_size in
      let coff = bnum % chunk_size in
      let disk = 2 * (cnum % (num_disks / 2)) in
      (disk, disk + 1, cnum / (num_disks / 2) * chunk_size + coff)

  unfoldable pub bmap4 : ℕ → ℕ × ℕ
  bmap4 bnum =
      let cnum = bnum / chunk_size in
      let coff = bnum % chunk_size in
      (cnum % (num_disks - 1), cnum / (num_disks - 1) * chunk_size + coff)

  -- `self.pdisk`, as `__init__` sets it for level 4
  unfoldable pub pmap4 : ℕ → ℕ
  pmap4 snum = num_disks - 1

-- `raid5type`: 'LS', 'LA', or any other text
pub data Raid5Type : Type 0 where
  left_symmetric left_asymmetric other : Raid5Type

-- the disk of a data chunk: `disk` of `num_disks - 1` before the parity disk is left out
unfoldable pub data_disk : Raid5Type → ℕ → ℕ → ℕ → ℕ → Result ℕ
data_disk left_asymmetric num_disks disk col pdisk = ok (if leb pdisk disk then disk + 1 else disk)
data_disk left_symmetric num_disks disk col pdisk = ok (sub_mod disk col num_disks)
data_disk other num_disks disk col pdisk = raise Fault.exit

-- `__bmap5`
unfoldable pub bmap5_full : Raid5Type → ℕ → ℕ → ℕ → Result (ℕ × ℕ × ℕ)
unfolding data_disk
bmap5_full kind chunk_size num_disks bnum = do
  let cnum = bnum / chunk_size
  let coff = bnum % chunk_size
  let ddsk = cnum / (num_disks - 1)
  let doff = ddsk * chunk_size + coff
  let col = ddsk % num_disks
  let pdisk = num_disks - 1 - col
  disk ← data_disk kind num_disks (cnum % (num_disks - 1)) col pdisk
  check (not (disk == pdisk))
  ok (disk, pdisk, doff)

unfoldable pub bmap5 : Raid5Type → ℕ → ℕ → ℕ → Result (ℕ × ℕ)
bmap5 kind chunk_size num_disks bnum = do
  (disk, pdisk, off) ← bmap5_full kind chunk_size num_disks bnum
  ok (disk, off)

-- `blocksInStripe` of levels 4 and 5
abbrev pub blocks_in_stripe : ℕ → ℕ → ℕ
blocks_in_stripe chunk_size num_disks = (num_disks - 1) * chunk_size

unfoldable pub pmap5 : Raid5Type → ℕ → ℕ → ℕ → Result ℕ
pmap5 kind chunk_size num_disks snum = do
  (disk, pdisk, off) ←
      bmap5_full kind chunk_size num_disks (snum * blocks_in_stripe chunk_size num_disks)
  ok pdisk
