-- ===== src/Lfs/Lookup.antt =====
-- HW-LFS/lfs.py, class LFS: get_inode_from_inumber, __lookup, __walk_path, __find_matching_dir_slot
-- and __add_dir_entry, which read the disk.
use mathlib.Core.Option
use cs334_operating_systems.Prelude.{
  ℕ, zero, suc, ◌+◌, Bool, true, false, not, Option, none, some, List, [], ◌∷◌, ◌==◌, if◌then◌else◌,
  set, Fault, Result, ok, raise, ◌>>=◌, check, ◌>>◌, nth, item_at,
}
use cs334_operating_systems.Prelude.Int.{ℤ, pos, eq_ℤ, minus_one, div_floor, mod_floor}
use cs334_operating_systems.Prelude.Text.{Text, text_eq, split}
use cs334_operating_systems.Lfs.State.{
  directory, regular, Inode, Entry, Block, checkpoint, imap, data_dir, inode_block, Error,
  malformed, not_found, not_a_dir, Lfs, num_inodes_per_imap_chunk, num_inode_ptrs, root_inode, dash,
  make_empty_dirblock, inode_map_at,
}

-- the assertions on `block_type`
abbrev pub as_checkpoint : Block → Result (List ℤ)
as_checkpoint (checkpoint l) = ok l
as_checkpoint _ = raise Fault.assertion

abbrev pub as_imap : Block → Result (List ℤ)
as_imap (imap l) = ok l
as_imap _ = raise Fault.assertion

abbrev pub as_dir : Block → Result (List Entry)
as_dir (data_dir l) = ok l
as_dir _ = raise Fault.assertion

abbrev pub as_inode : Block → Result Inode
as_inode (inode_block i) = ok i
as_inode _ = raise Fault.assertion

-- by the checkpoint region on disk, or by the map in memory
unfoldable pub inode_address : Lfs → ℤ → Result ℤ
inode_address s inum =
    if s.use_disk_cr
    then (do
      cp ← item_at s.disk (pos 0)
      ptrs ← as_checkpoint cp
      address ← item_at ptrs (div_floor inum num_inodes_per_imap_chunk)
      block ← item_at s.disk address
      entries ← as_imap block
      item_at entries (mod_floor inum num_inodes_per_imap_chunk))
    else inode_map_at s inum

unfoldable pub get_inode_from_inumber : Lfs → ℤ → Result Inode
unfolding inode_address
get_inode_from_inumber s inum = do
  address ← inode_address s inum
  check (not (eq_ℤ address minus_one))
  block ← item_at s.disk address
  as_inode block

abbrev pub is_directory : Inode → Bool
is_directory i = elim i.itype [ directory ↦ true | regular ↦ false ]

unfoldable pub find_entry : Text → List Entry → Option ℤ
find_entry name [] = none
find_entry name ((n, inum) ∷ l) = if text_eq n name then some inum else find_entry name l

-- the loops over the blocks of a directory
unfoldable pub lookup_blocks : Lfs → Text → List ℤ → Result ℤ
unfolding find_entry
lookup_blocks s name [] = ok minus_one
lookup_blocks s name (address ∷ l) = do
  let rest = lookup_blocks s name l
  if eq_ℤ address minus_one then rest else (do
    block ← item_at s.disk address
    entries ← as_dir block
    elim (find_entry name entries) [ some inum ↦ ok inum | none ↦ rest ])

-- `__lookup`: the entry's inode number or -1, and the inode of the directory itself
unfoldable pub lookup_in : Lfs → ℤ → Text → Result (ℤ × Inode)
unfolding lookup_blocks get_inode_from_inumber
lookup_in s parent_inum name = do
  parent ← get_inode_from_inumber s parent_inum
  check (is_directory parent)
  inum ← lookup_blocks s name parent.pointers
  ok (inum, parent)

-- what `__walk_path` returns, or the error that it logs before it returns -1
pub data Walked : Type 0 where
  found : ℤ → Text → ℤ → Inode → Walked
  failed : Error → Walked

-- the loop over the directories of a path and the last look-up; the inode that is tested for its
-- type is the one that `__lookup` returns, that of the directory searched
unfoldable pub walk : Lfs → ℤ → Text → List Text → Result Walked
unfolding lookup_in
walk s parent name [] = do
  (inum, parent_inode) ← lookup_in s parent name
  ok (found inum name parent parent_inode)
walk s parent name (next ∷ l) = do
  (inum, inode) ← lookup_in s parent name
  if eq_ℤ inum minus_one
      then ok (failed not_found)
      else if not (is_directory inode)
      then ok (failed not_a_dir)
      else walk s inum next l

-- `path.split('/')`: the first piece must be empty, and with no second it is the file name too
unfoldable pub walk_pieces : Lfs → List Text → Result Walked
unfolding walk
walk_pieces s ([] ∷ []) = walk s root_inode [] []
walk_pieces s ([] ∷ name ∷ l) = walk s root_inode name l
walk_pieces s _ = ok (failed malformed)

unfoldable pub walk_path : Lfs → Text → Result Walked
unfolding walk_pieces split
walk_path s path = walk_pieces s (split b'/' path)

unfoldable pub slot_of : Text → List Entry → Option ℕ
slot_of name [] = none
slot_of name ((n, inum) ∷ l) =
    let rest = slot_of name l in if text_eq n name then some 0 else Option.map suc rest

abbrev pub read_dirblock : Lfs → Inode → ℕ → Result (List Entry)
read_dirblock s i index = do
  address ← nth i.pointers index
  block ← item_at s.disk address
  as_dir block

-- `__find_matching_dir_slot`, with `n` blocks still to search from `index` on
unfoldable pub find_slot : Lfs → Text → Inode → ℕ → ℕ → Result (Option (ℕ × ℕ))
unfolding slot_of
find_slot s name i index zero = ok none
find_slot s name i index (suc n) = do
  entries ← read_dirblock s i index
  let rest = find_slot s name i (index + 1) n
  elim (slot_of name entries) [ some slot ↦ ok (some (index, slot)) | none ↦ rest ]

unfoldable pub find_matching_dir_slot : Lfs → Text → Inode → Result (Option (ℕ × ℕ))
unfolding find_slot
find_matching_dir_slot s name i = find_slot s name i 0 i.size

-- `__add_dir_entry`: the index of the block, the directory's size and the new block
unfoldable pub add_in_slot :
    Lfs → Inode → Entry → Option (ℕ × ℕ) → Result (Option (ℕ × ℕ × List Entry))
unfolding make_empty_dirblock
add_in_slot s parent entry (some (index, slot)) = do
  entries ← read_dirblock s parent index
  ok (some (index, parent.size, set entries slot entry))
add_in_slot s parent entry none =
    if parent.size == num_inode_ptrs
    then ok none
    else ok (some (parent.size, parent.size + 1, set make_empty_dirblock 0 entry))

unfoldable pub add_dir_entry : Lfs → Inode → Text → ℤ → Result (Option (ℕ × ℕ × List Entry))
unfolding find_matching_dir_slot add_in_slot
add_dir_entry s parent file_name inum = do
  place ← find_matching_dir_slot s dash parent
  add_in_slot s parent (file_name, inum) place
