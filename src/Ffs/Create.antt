-- ===== src/Ffs/Create.antt =====
-- HW-FFS/ffs.py, class file_system: do_create, create, mkdir, delete and the loop of read_input, with
-- the lines of the file as commands. Sizes are not negative.
pub mod Books
pub mod Keeps
pub mod Runs
pub mod Start
use cs334_operating_systems.Prelude.{
  ℕ, ◌+◌, ◌*◌, ◌||◌, Option, none, some, List, [], ◌∷◌, ◌++◌, map, ◌==◌, if◌then◌else◌, Fault,
  key_error, Result, ok, raise, ◌>>=◌, ◌>>◌, or_raise,
}
use cs334_operating_systems.Prelude.Int.{pos, ◌-ℤ◌, ltb_ℤ, eq_ℤ}
use cs334_operating_systems.Prelude.Text.{Text, lookup}
use cs334_operating_systems.Ffs.State.{
  IType, regular, directory, Ffs, find, put, allocate_symbol, do_verify,
}
use cs334_operating_systems.Ffs.Groups.{
  pick_group, find_free_inode, find_min_data_usage, mark_inode_used,
}
use cs334_operating_systems.Ffs.Delete.{get_parent, entry_of, is_dir, do_delete}
use cs334_operating_systems.Ffs.Blocks.{Scan, allocate_blocks}

-- How `do_create` ends: with -1, or with 0 and the new state. Where the picked group has no free
-- inode the source goes on with -1 as the index, and the model stops; `endless` is a run whose loop
-- for blocks has not ended after `rounds`.
pub data Created : Type 0 where
  failed : Created
  made : Ffs → Created
  no_inode : ℕ → Created
  endless : Created

abbrev pub global_number : Ffs → ℕ × ℕ → ℕ
global_number s p = p.1 + p.0 * s.blocks_per_group

-- the path must not be mapped already
abbrev pub unmapped : Option ℕ → Result (Unit {0})
unmapped none = ok tt
unmapped (some inum) = raise Fault.exit

unfoldable pub set_name_to_inode : Ffs → Text → ℕ → Result (List (Text × ℕ))
set_name_to_inode s path inum = do
  unmapped (lookup path s.name_to_inode_map)
  ok (s.name_to_inode_map ++ (path, inum) ∷ [])

abbrev pub dots : List (Text × ℕ)
dots = (b'.' ∷ [], 0) ∷ (b'.' ∷ b'.' ∷ [], 0) ∷ []

-- everything behind the allocation of the blocks
unfoldable pub record_file :
    Ffs → Text → ℕ → Text → List (Text × ℕ) → ℕ → IType → ℕ → ℕ → Scan → Result Ffs
unfolding mark_inode_used set_name_to_inode allocate_symbol put
record_file s path parent_inum filename entries size itype group index scan = do
  let inum = index + group * s.inodes_per_group
  t ← mark_inode_used s group index
  names ← set_name_to_inode s path inum
  u ← allocate_symbol t inum filename
  let data_of = put parent_inum (entries ++ (filename, inum) ∷ []) s.dir_data
  ok (record u {
    data_bitmap = scan.bitmap;
    dir_data = if is_dir itype then put inum dots data_of else data_of;
    inode_type = put inum itype s.inode_type;
    inode_blocks = put inum (map (global_number s) scan.allocated) s.inode_blocks;
    name_to_inode_map = names;
    total_inodes_free = s.total_inodes_free -ℤ pos 1;
    total_data_free = s.total_data_free -ℤ pos size;
  })

-- Where data is spread and no block is free, the group is -1: the loop fails its assertion if it asks
-- for runs of no block, and never ends otherwise.
unfoldable pub blocks_for : Ffs → ℕ → ℕ → ℕ → Result (Option Scan)
unfolding allocate_blocks find_min_data_usage
blocks_for s group size inum =
    if s.spread_data_blocks
    then (do
      target ← find_min_data_usage s
      elim target [
        | some g ↦ allocate_blocks s g size inum
        | none ↦
            if size == 0 || s.contig_allocation_policy == 0 then raise Fault.assertion else ok none
      ])
    else allocate_blocks s group size inum

unfoldable pub create_at :
    Ffs → Text → ℕ → Text → List (Text × ℕ) → ℕ → IType → ℕ → Option ℕ → Result Created
unfolding blocks_for record_file
create_at s path parent_inum filename entries size itype group none = ok (no_inode group)
create_at s path parent_inum filename entries size itype group (some index) = do
  allocated ← blocks_for s group size (index + group * s.inodes_per_group)
  elim allocated [
    | none ↦ ok endless
    | some scan ↦ (do
      t ← record_file s path parent_inum filename entries size itype group index scan
      ok (made t))
  ]

unfoldable pub create_new :
    Ffs → Text → ℕ → Text → List (Text × ℕ) → ℕ → IType → Option ℕ → Result Created
unfolding pick_group find_free_inode create_at
create_new s path parent_inum filename entries size itype (some taken) = ok failed
create_new s path parent_inum filename entries size itype none = do
  group ← pick_group s parent_inum itype
  index ← find_free_inode s group
  create_at s path parent_inum filename entries size itype group index

unfoldable pub create_in : Ffs → Text → Text → ℕ → IType → Option ℕ → Result Created
unfolding find entry_of create_new
create_in s path filename size itype none = ok failed
create_in s path filename size itype (some parent_inum) = do
  entries ← or_raise key_error (find parent_inum s.dir_data)
  create_new s path parent_inum filename entries size itype (entry_of filename entries)

unfoldable pub do_create : Ffs → Text → ℕ → IType → Result Created
unfolding get_parent create_in
do_create s path size itype =
    let (parent, filename) = get_parent path in
    if eq_ℤ s.total_inodes_free (pos 0) || ltb_ℤ s.total_data_free (pos size)
    then ok failed
    else create_in s path filename size itype (lookup parent s.name_to_inode_map)

-- the lines `file`, `dir` and `delete`
pub data Command : Type 0 where
  file : Text → ℕ → Command
  dir delete : Text → Command

abbrev pub go_on : Ffs → Created → Created
go_on s failed = made s
go_on s c = c

unfoldable pub execute : Ffs → Command → Result Created
unfolding do_create do_delete
execute s (file path size) = do c ← do_create s path size regular; ok (go_on s c)
execute s (dir path) = do c ← do_create s path 1 directory; ok (go_on s c)
execute s (delete path) = do (rc, t) ← do_delete s path; ok (made t)

-- `read_input`: `do_verify` after every line
unfoldable pub run : Ffs → List Command → Result Created
unfolding execute do_verify
run s [] = ok (made s)
run s (c ∷ l) = do
  r ← execute s c
  elim r [
    | made t ↦ (do do_verify t; run t l)
    | failed ↦ ok failed
    | no_inode g ↦ ok (no_inode g)
    | endless ↦ ok endless
  ]
