-- ===== src/Lfs/Ops.antt =====
-- HW-LFS/lfs.py, class LFS: file_create, dir_create, file_link, file_write, file_delete and sync. A
-- method returns its code beside the new state. The data of `make_random_blocks` is an argument.
use Prim.Native.Nat.{min}
use cs334_operating_systems.Prelude.{
  ℕ, zero, suc, ◌+◌, ◌-◌, Bool, true, false, ◌||◌, none, some, List, [], ◌∷◌, if◌then◌else◌, length,
  set, take, Fault, Result, ok, raise, ◌>>=◌, or_raise,
}
use cs334_operating_systems.Prelude.Int.{
  ℤ, pos, pos_part, ◌+ℤ◌, ◌-ℤ◌, ltb_ℤ, eq_ℤ, leb_ℤ, minus_one,
}
use cs334_operating_systems.Prelude.Text.{Text}
use cs334_operating_systems.Lfs.State.{
  directory, regular, Inode, Entry, data_dir, data_block, inode_block, Error, exists, walk_failed,
  no_inodes, dir_full, link_src, link_type, link_dst, write_missing, write_type, bad_offset,
  delete_missing, delete_type, Lfs, num_inode_ptrs, make_inode, dash, make_new_dirblock, log,
  logged, remap, inum_to_chunk, write_chunk, update_imap, cr_sync, force, error_log, error_clear,
  allocate_inode, free_inode,
}
use cs334_operating_systems.Lfs.Lookup.{
  get_inode_from_inumber, is_directory, Walked, found, failed, walk_path, read_dirblock,
  find_matching_dir_slot, add_dir_entry,
}

abbrev pub fail : Lfs → Error → Result (ℤ × Lfs)
fail s e = ok (minus_one, error_log s e)

-- the version of a directory's inode with a new block
unfoldable pub with_pointer : Inode → ℕ → ℕ → ℤ → Inode
with_pointer i size index address = record i {
  size = size;
  pointers = set i.pointers index address;
}

abbrev pub with_refs : Inode → ℤ → Inode
with_refs i refs = record i { refs = refs }

-- `__file_create` from the first write on: the directory block, for a directory its own block, the
-- inodes of the parent and of the new file, the imap
unfoldable pub write_new : Lfs → Bool → ℤ → Inode → ℤ → ℕ × ℕ × List Entry → Result (ℤ × Lfs)
unfolding with_pointer
write_new s is_file parent_inum parent inum (index, size, entries) = do
  let (block_address, s) = log s (data_dir entries)
  let parent = if is_file then parent else with_refs parent (parent.refs +ℤ pos 1)
  let parent = with_pointer parent size index (pos block_address)
  let s = if is_file then s else logged s (data_dir (make_new_dirblock parent_inum inum))
  let own =
      if is_file
      then make_inode regular 0 (pos 1)
      else with_pointer (make_inode directory 1 (pos 2)) 1 0 (pos (length s.disk - 1))
  let (parent_address, s) = log s (inode_block parent)
  let (address, s) = log s (inode_block own)
  let s = remap s parent_inum (pos parent_address)
  let s = remap s inum (pos address)
  s ← update_imap s (parent_inum ∷ inum ∷ [])
  ok (pos 0, force s)

unfoldable pub create_in : Lfs → Bool → Text → ℤ → Inode → Result (ℤ × Lfs)
unfolding write_new
create_in s is_file file_name parent_inum parent =
    let (inum, t) = allocate_inode s in
    if eq_ℤ inum minus_one then fail t no_inodes else (do
      place ← add_dir_entry t parent file_name inum
      elim place [
        | none ↦ (do u ← free_inode (error_log t dir_full) inum; ok (minus_one, u))
        | some p ↦ write_new t is_file parent_inum parent inum p
      ])

-- `__file_create`; the failure of the walk that it tests for logs its own error behind the walk's
unfoldable pub create_walked : Lfs → Bool → Walked → Result (ℤ × Lfs)
unfolding create_in
create_walked s is_file (failed e) = fail (error_log s e) walk_failed
create_walked s is_file (found inum file_name parent_inum parent) =
    if eq_ℤ inum minus_one then create_in s is_file file_name parent_inum parent else fail s exists

unfoldable pub file_or_dir_create : Lfs → Bool → Text → Result (ℤ × Lfs)
unfolding create_walked
file_or_dir_create s is_file path = do w ← walk_path s path; create_walked s is_file w

unfoldable pub file_create : Lfs → Text → Result (ℤ × Lfs)
file_create s path = file_or_dir_create (error_clear s) true path

unfoldable pub dir_create : Lfs → Text → Result (ℤ × Lfs)
dir_create s path = file_or_dir_create (error_clear s) false path

-- `file_link` from the first write on; only the chunk of the destination's directory is written
unfoldable pub write_link : Lfs → ℤ → Inode → ℤ → Inode → ℕ × ℕ × List Entry → Result (ℤ × Lfs)
unfolding with_pointer
write_link s src_inum src parent_inum parent (index, size, entries) = do
  let (block_address, s) = log s (data_dir entries)
  let (parent_address, s) = log s (inode_block (with_pointer parent size index (pos block_address)))
  let (src_address, s) = log s (inode_block (with_refs src (src.refs +ℤ pos 1)))
  let s = remap s parent_inum (pos parent_address)
  let s = remap s src_inum (pos src_address)
  s ← update_imap s (parent_inum ∷ [])
  ok (pos 0, force s)

-- the destination: where its walk failed, `''` stands for the parent's inode, and `''['size']` raises
unfoldable pub link_to : Lfs → ℤ → Inode → Walked → Result (ℤ × Lfs)
unfolding write_link
link_to s src_inum src (failed e) = raise Fault.type_error
link_to s src_inum src (found inum file_name parent_inum parent) =
    if eq_ℤ inum minus_one
    then (do
      place ← add_dir_entry s parent file_name src_inum
      elim place [
        | none ↦ fail s dir_full
        | some p ↦ write_link s src_inum src parent_inum parent p
      ])
    else fail s link_dst

unfoldable pub link_from : Lfs → Text → Walked → Result (ℤ × Lfs)
unfolding link_to
link_from s dstpath (failed e) = fail (error_log s e) link_src
link_from s dstpath (found inum file_name parent_inum parent) =
    if eq_ℤ inum minus_one then fail s link_src else (do
      src ← get_inode_from_inumber s inum
      if is_directory src
          then fail s link_type
          else (do w ← walk_path s dstpath; link_to s inum src w))

unfoldable pub file_link : Lfs → Text → Text → Result (ℤ × Lfs)
unfolding link_from
file_link s srcpath dstpath = do
  let s = error_clear s
  w ← walk_path s srcpath
  link_from s dstpath w

-- the data blocks, and the pointers of the inode to them
unfoldable pub log_data : Lfs → List Text → Lfs
log_data s [] = s
log_data s (c ∷ cs) = log_data (logged s (data_block c)) cs

unfoldable pub point_to : List ℤ → ℕ → ℕ → ℕ → List ℤ
point_to pointers offset address zero = pointers
point_to pointers offset address (suc n) =
    point_to (set pointers offset (pos address)) (offset + 1) (address + 1) n

-- `file_write` once the file is found; `offset` is not negative here
unfoldable pub write_data : Lfs → ℤ → Inode → ℕ → List Text → Result (ℤ × Lfs)
unfolding log_data point_to
write_data s inum inode offset contents = do
  let n = min (num_inode_ptrs - offset) (length contents)
  let first = length s.disk
  let s = log_data s (take n contents)
  let (address, s) = log s (
      inode_block
        (record inode { size = offset + n; pointers = point_to inode.pointers offset first n }))
  s ← write_chunk (remap s inum (pos address)) (inum_to_chunk inum)
  ok (pos n, force s)

unfoldable pub write_walked : Lfs → ℤ → List Text → Walked → Result (ℤ × Lfs)
unfolding write_data
write_walked s offset contents (failed e) = fail (error_log s e) write_missing
write_walked s offset contents (found inum file_name parent_inum parent) =
    if eq_ℤ inum minus_one then fail s write_missing else (do
      inode ← get_inode_from_inumber s inum
      if is_directory inode
          then fail s write_type
          else if ltb_ℤ offset (pos 0) || leb_ℤ (pos num_inode_ptrs) offset
          then fail s bad_offset
          else write_data s inum inode (pos_part offset) contents)

unfoldable pub file_write : Lfs → Text → ℤ → List Text → Result (ℤ × Lfs)
unfolding write_walked
file_write s path offset contents = do
  let s = error_clear s
  w ← walk_path s path
  write_walked s offset contents w

-- `file_delete` from `__find_matching_dir_slot` on
unfoldable pub write_removal : Lfs → ℤ → Inode → Text → ℤ → Inode → Result (ℤ × Lfs)
unfolding with_pointer
write_removal s inum inode file_name parent_inum parent = do
  place ← find_matching_dir_slot s file_name parent
  (index, slot) ← or_raise Fault.assertion place
  entries ← read_dirblock s parent index
  let (block_address, s) = log s (data_dir (set entries slot (dash, minus_one)))
  let (parent_address, s) =
      log s (inode_block (with_pointer parent parent.size index (pos block_address)))
  let s = remap s parent_inum (pos parent_address)
  let (address, t) = log s (inode_block (with_refs inode (inode.refs -ℤ pos 1)))
  let s = if leb_ℤ inode.refs (pos 1) then s else remap t inum (pos address)
  s ← update_imap s (inum ∷ parent_inum ∷ [])
  ok (pos 0, force s)

unfoldable pub delete_walked : Lfs → Walked → Result (ℤ × Lfs)
unfolding write_removal
delete_walked s (failed e) = fail (error_log s e) delete_missing
delete_walked s (found inum file_name parent_inum parent) =
    if eq_ℤ inum minus_one then fail s delete_missing else (do
      inode ← get_inode_from_inumber s inum
      if is_directory inode then fail s delete_type else (do
        t ← if eq_ℤ inode.refs (pos 1) then free_inode s inum else ok s
        write_removal t inum inode file_name parent_inum parent))

unfoldable pub file_delete : Lfs → Text → Result (ℤ × Lfs)
unfolding delete_walked
file_delete s path = do let s = error_clear s; w ← walk_path s path; delete_walked s w

unfoldable pub sync : Lfs → Result (ℤ × Lfs)
sync s = ok (pos 0, cr_sync (error_clear s))

-- a command of the command list
pub data Command : Type 0 where
  create mkdir remove : Text → Command
  link : Text → Text → Command
  write : Text → ℤ → List Text → Command
  checkpoint_now : Command

unfoldable pub execute : Lfs → Command → Result (ℤ × Lfs)
unfolding file_create dir_create sync
execute s (create path) = file_create s path
execute s (mkdir path) = dir_create s path
execute s (remove path) = file_delete s path
execute s (link src dst) = file_link s src dst
execute s (write path offset contents) = file_write s path offset contents
execute s checkpoint_now = sync s

unfoldable pub run : Lfs → List Command → Result Lfs
run s [] = ok s
run s (c ∷ l) = do (rc, t) ← execute s c; run t l
