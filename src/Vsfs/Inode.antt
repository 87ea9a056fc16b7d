-- ===== src/Vsfs/Inode.antt =====
-- HW-VSFS/vsfs.py, class inode.
use cs334_operating_systems.Prelude.{ℕ, if◌then◌else◌}
use cs334_operating_systems.Prelude.Int.{ℤ, pos, ◌+ℤ◌, ◌-ℤ◌, eq_ℤ, minus_one}
use cs334_operating_systems.Vsfs.Block.{FType, unused}

-- `addr` is -1 where the inode points to no block.
pub record Inode : Type 0 where
  pub ftype : FType
  pub addr : ℤ
  pub ref_cnt : ℤ

abbrev pub init : Inode
init = record { ftype = unused; addr = minus_one; ref_cnt = pos 1 }

-- `ftype` can be nothing but the three values that `setAll` and `setType` assert
unfoldable pub set_all : Inode → FType → ℤ → ℤ → Inode
set_all i ftype addr ref_cnt = record { ftype = ftype; addr = addr; ref_cnt = ref_cnt }

unfoldable pub inc_ref_cnt : Inode → Inode
inc_ref_cnt i = record i { ref_cnt = i.ref_cnt +ℤ pos 1 }

unfoldable pub dec_ref_cnt : Inode → Inode
dec_ref_cnt i = record i { ref_cnt = i.ref_cnt -ℤ pos 1 }

unfoldable pub set_type : Inode → FType → Inode
set_type i ftype = record i { ftype = ftype }

unfoldable pub set_addr : Inode → ℤ → Inode
set_addr i block = record i { addr = block }

unfoldable pub get_size : Inode → ℕ
get_size i = if eq_ℤ i.addr minus_one then 0 else 1

-- `refCnt` is kept
unfoldable pub free : Inode → Inode
free i = record i { ftype = unused; addr = minus_one }
