-- ===== src/Ffs/Delete.antt =====
-- HW-FFS/ffs.py, class file_system: get_parent and do_delete. The blocks and the inode are freed at
-- the places that the source computes.
pub mod Laws
use cs334_operating_systems.Prelude.{
  ℕ, zero, suc, ◌+◌, ◌-◌, ◌/◌, ◌%◌, Bool, true, false, ◌&&◌, Option, none, some, List, [], ◌∷◌,
  ◌==◌, if◌then◌else◌, length, take, drop, key_error, Result, ok, ◌>>=◌, or_raise,
}
use cs334_operating_systems.Prelude.Int.{ℤ, pos, ◌+ℤ◌, minus_one}
use cs334_operating_systems.Prelude.Text.{Text, text_eq, lookup}
use cs334_operating_systems.Ffs.State.{
  IType, directory, deleted, Ffs, find, put, free_symbol, put_entry, slash,
}

-- `path.rfind(c)`, `none` for -1
unfoldable pub rfind : ℕ → Text → Option ℕ
rfind c [] = none
rfind c (x ∷ s) = elim (rfind c s) [
  | some i ↦ some (suc i)
  | none ↦ if x == c then some 0 else none
]

-- with no slash the parent is the path without its last character
abbrev pub cut : Text → Option ℕ → Text × Text
cut path (some zero) = (slash, drop 1 path)
cut path (some (suc i)) = (take (suc i) path, drop (suc i + 1) path)
cut path none = (take (length path - 1) path, path)

unfoldable pub get_parent : Text → Text × Text
unfolding rfind
get_parent path = cut path (rfind b'/' path)

unfoldable pub entry_of : Text → List (Text × ℕ) → Option ℕ
entry_of filename [] = none
entry_of filename ((name, inum) ∷ l) =
    if text_eq name filename then some inum else entry_of filename l

-- `remove((name, inode_number))`
unfoldable pub remove_entry : Text → ℕ → List (Text × ℕ) → List (Text × ℕ)
remove_entry name inum [] = []
remove_entry name inum ((n, i) ∷ l) =
    if text_eq n name && i == inum then l else (n, i) ∷ remove_entry name inum l

-- the loop over the blocks; the source divides by the number of groups
unfoldable pub free_blocks : ℕ → List ℕ → List (List (Option ℕ)) → Result (List (List (Option ℕ)))
unfolding put_entry
free_blocks num_groups [] bitmap = ok bitmap
free_blocks num_groups (b ∷ l) bitmap = do
  next ← put_entry bitmap (b / num_groups) (b % num_groups) none
  free_blocks num_groups l next

unfoldable pub discard_name : Text → List (Text × ℕ) → List (Text × ℕ)
discard_name k [] = []
discard_name k ((j, w) ∷ m) = if text_eq j k then m else (j, w) ∷ discard_name k m

-- `do_delete` once the file is found
unfoldable pub delete_inode : Ffs → Text → ℕ → Text → List (Text × ℕ) → ℕ → Result Ffs
unfolding free_blocks put_entry free_symbol discard_name remove_entry find put
delete_inode s path parent_inum filename entries inum = do
  blocks ← or_raise key_error (find inum s.inode_blocks)
  bitmap ← free_blocks s.num_groups blocks s.data_bitmap
  inodes ← put_entry s.inode_bitmap (inum / s.num_groups) (inum % s.num_groups) none
  t ← free_symbol s inum
  _ ← or_raise key_error (lookup path s.name_to_inode_map)
  ok (record t {
    data_bitmap = bitmap;
    inode_bitmap = inodes;
    dir_data = put parent_inum (remove_entry filename inum entries) s.dir_data;
    name_to_inode_map = discard_name path s.name_to_inode_map;
    total_inodes_free = s.total_inodes_free +ℤ pos 1;
    total_data_free = s.total_data_free +ℤ pos (length blocks);
    inode_type = put inum deleted s.inode_type;
    inode_blocks = put inum [] s.inode_blocks;
  })

abbrev pub is_dir : IType → Bool
is_dir directory = true
is_dir _ = false

unfoldable pub delete_found : Ffs → Text → ℕ → Text → List (Text × ℕ) → Option ℕ → Result (ℤ × Ffs)
unfolding find
delete_found s path parent_inum filename entries none = ok (minus_one, s)
delete_found s path parent_inum filename entries (some inum) = do
  itype ← or_raise key_error (find inum s.inode_type)
  if is_dir itype
      then ok (minus_one, s)
      else (do t ← delete_inode s path parent_inum filename entries inum; ok (pos 0, t))

unfoldable pub delete_in : Ffs → Text → Text → Option ℕ → Result (ℤ × Ffs)
unfolding find entry_of delete_found
delete_in s path filename none = ok (minus_one, s)
delete_in s path filename (some parent_inum) = do
  entries ← or_raise key_error (find parent_inum s.dir_data)
  delete_found s path parent_inum filename entries (entry_of filename entries)

unfoldable pub do_delete : Ffs → Text → Result (ℤ × Ffs)
unfolding get_parent delete_in
do_delete s path =
    let (parent, filename) = get_parent path in
    delete_in s path filename (lookup parent s.name_to_inode_map)
