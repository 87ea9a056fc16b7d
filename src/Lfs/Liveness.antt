-- ===== src/Lfs/Liveness.antt =====
-- HW-LFS/lfs.py, class LFS: determine_liveness, which `__dump` calls. The dictionary `live` is the
-- list of the keys that it sets to True.
pub mod Reached
use cs334_operating_systems.Prelude.{
  Bool, false, ◌||◌, List, [], ◌∷◌, ◌++◌, if◌then◌else◌, key_error, Result, ok, raise, ◌>>=◌, ◌>>◌,
  item_at,
}
use cs334_operating_systems.Prelude.Int.{ℤ, pos, eq_ℤ, minus_one}
use cs334_operating_systems.Lfs.State.{Block, inode_block, Lfs}

-- the loops that skip -1
unfoldable pub in_use : List ℤ → List ℤ
in_use [] = []
in_use (a ∷ l) = if eq_ℤ a minus_one then in_use l else a ∷ in_use l

-- `inode['pointers']`, a key of inodes only
abbrev pub pointers_of : Block → Result (List ℤ)
pointers_of (inode_block i) = ok i.pointers
pointers_of _ = raise key_error

-- what the inodes at these addresses point to, also the -1 of an unused pointer
unfoldable pub pointed_to : Lfs → List ℤ → Result (List ℤ)
pointed_to s [] = ok []
pointed_to s (a ∷ l) = do
  block ← item_at s.disk a
  ptrs ← pointers_of block
  rest ← pointed_to s l
  ok (ptrs ++ rest)

unfoldable pub determine_liveness : Lfs → Result (List ℤ)
unfolding in_use pointed_to
determine_liveness s = do
  ptrs ← pointed_to s (in_use s.inode_map)
  ok (pos 0 ∷ in_use s.cr ++ (in_use s.inode_map ++ ptrs))

-- `self.live[i]`
unfoldable pub is_live : ℤ → List ℤ → Bool
is_live a [] = false
is_live a (b ∷ l) = eq_ℤ b a || is_live a l
