-- ===== src/Vsfs/Consistent.antt =====
-- The invariant of the file system: the bitmaps say which inodes and blocks are in use.
pub mod Steps
pub mod Alloc
pub mod Ops
pub mod Runs
use cs334_operating_systems.Prelude.{ℕ, ◌≡◌, Option, none, some, List, map, set}
use cs334_operating_systems.Vsfs.Bitmap
use cs334_operating_systems.Vsfs.Bitmap.Laws
use cs334_operating_systems.Vsfs.Block.{FType, dir, file, unused, Block}
use cs334_operating_systems.Vsfs.Inode.{Inode}
use cs334_operating_systems.Vsfs.Fs.{Fs}

abbrev pub type_bit : FType → ℕ
type_bit unused = 0
type_bit dir = 1
type_bit file = 1

abbrev pub inode_bit : Inode → ℕ
inode_bit i = type_bit i.ftype

abbrev pub block_bit : Block → ℕ
block_bit b = type_bit b.ftype

-- the bits, with one more set for an item that is taken and not yet in use
abbrev pub taking : Option ℕ → List ℕ → List ℕ
taking none bits = bits
taking (some n) bits = set bits n 1

-- Between an allocation and the first use of what it returned, `inode` and `block` name what is
-- taken.
pub record IsConsistentBut (inode block : Option ℕ) (s : Fs) : Type 0 where
  pub ivalid : Laws.IsValid s.ibitmap
  pub dvalid : Laws.IsValid s.dbitmap
  pub inode_bits : s.ibitmap.bmap ≡ taking inode (map inode_bit s.inodes)
  pub block_bits : s.dbitmap.bmap ≡ taking block (map block_bit s.blocks)

-- Bit i of the inode bitmap is 1 exactly when inode i is not free, so with the blocks, and both
-- bitmaps count their bits.
abbrev pub IsConsistent : Fs → Type 0
IsConsistent = IsConsistentBut none none
