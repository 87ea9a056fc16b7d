-- ===== src/Lfs/State.antt =====
-- HW-LFS/lfs.py, class LFS: the disk, the in-memory maps, `log`, the imap chunks and the checkpoint.
use cs334_operating_systems.Prelude.{
  ℕ, zero, suc, ◌+◌, ◌-◌, ◌*◌, ◌/◌, ◌%◌, Bool, false, not, ◌||◌, Option, none, some, List, [], ◌∷◌,
  ◌++◌, ◌==◌, if◌then◌else◌, length, get_elem?, set, replicate, key_error, Result, ok, raise, ◌>>=◌,
  check, ◌>>◌, or_raise, nth,
}
use cs334_operating_systems.Prelude.Int.{ℤ, pos, negsuc, pos_part, eq_ℤ, minus_one}
use cs334_operating_systems.Prelude.Text.{Text}

pub data IType : Type 0 where
  directory regular : IType

-- the dictionary of BLOCK_TYPE_INODE
pub record Inode : Type 0 where
  pub itype : IType
  pub size : ℕ
  pub refs : ℤ
  pub pointers : List ℤ

abbrev pub Entry : Type 0
Entry = Text × ℤ

-- a block by its `block_type`, with what it holds
pub data Block : Type 0 where
  checkpoint imap : List ℤ → Block
  data_dir : List Entry → Block
  data_block : Text → Block
  inode_block : Inode → Block

-- the messages of `error_log`, without their texts
pub data Error : Type 0 where
  malformed not_found not_a_dir exists walk_failed no_inodes dir_full link_src link_type : Error
  link_dst write_missing write_type bad_offset delete_missing delete_type : Error

pub record Lfs : Type 0 where
  pub use_disk_cr : Bool
  pub no_force_checkpoints : Bool
  pub disk : List Block
  pub cr : List ℤ
  pub inode_map : List ℤ
  pub error_list : List Error

abbrev pub num_imap_ptrs_in_cr : ℕ
num_imap_ptrs_in_cr = 16

abbrev pub num_inodes_per_imap_chunk : ℕ
num_inodes_per_imap_chunk = 16

abbrev pub num_inode_ptrs : ℕ
num_inode_ptrs = 8

abbrev pub num_inodes : ℕ
num_inodes = num_imap_ptrs_in_cr * num_inodes_per_imap_chunk

abbrev pub root_inode : ℤ
root_inode = pos 0

unfoldable pub make_inode : IType → ℕ → ℤ → Inode
make_inode itype size refs = record {
  itype = itype;
  size = size;
  refs = refs;
  pointers = replicate 8 minus_one;
}

abbrev pub dash : Text
dash = b'-' ∷ []

abbrev pub empty_entries : List Entry
empty_entries = replicate 8 (dash, minus_one)

unfoldable pub make_empty_dirblock : List Entry
make_empty_dirblock = empty_entries

unfoldable pub make_new_dirblock : ℤ → ℤ → List Entry
make_new_dirblock parent_inum current_inum =
    set (set empty_entries 0 (b'.' ∷ [], current_inum)) 1 (b'.' ∷ b'.' ∷ [], parent_inum)

-- `log`: the new address, and the disk with the block behind its last
unfoldable pub log : Lfs → Block → ℕ × Lfs
log s block = (length s.disk, record s { disk = s.disk ++ block ∷ [] })

abbrev pub logged : Lfs → Block → Lfs
logged s block = (log s block).1

-- `d[k]` of `inode_map`, a dictionary from 0 to NUM_INODES - 1
abbrev pub inode_map_at : Lfs → ℤ → Result ℤ
inode_map_at s (pos i) = or_raise key_error (get_elem? s.inode_map i)
inode_map_at s (negsuc i) = raise key_error

-- no inode has a negative number
unfoldable pub remap : Lfs → ℤ → ℤ → Lfs
remap s (pos i) address = record s { inode_map = set s.inode_map i address }
remap s (negsuc i) address = s

-- `n` entries of the map from `start` on
unfoldable pub map_entries : Lfs → ℕ → ℕ → Result (List ℤ)
map_entries s start zero = ok []
map_entries s start (suc n) = do
  e ← inode_map_at s (pos start)
  es ← map_entries s (start + 1) n
  ok (e ∷ es)

unfoldable pub make_imap_chunk : Lfs → ℕ → Result Block
unfolding map_entries
make_imap_chunk s cnum = do
  es ← map_entries s (cnum * num_inodes_per_imap_chunk) num_inodes_per_imap_chunk
  ok (imap es)

-- the number that a live inode has is not negative
abbrev pub inum_to_chunk : ℤ → ℕ
inum_to_chunk inum = pos_part inum / num_inodes_per_imap_chunk

-- the chunk goes to the log, and the checkpoint region in memory points to it
unfoldable pub write_chunk : Lfs → ℕ → Result Lfs
write_chunk s cnum = do
  chunk ← make_imap_chunk s cnum
  let t = logged s chunk
  _ ← nth t.cr cnum
  ok (record t { cr = set t.cr cnum (pos (length t.disk - 1)) })

unfoldable pub seen : ℕ → List ℕ → Bool
seen c [] = false
seen c (d ∷ ds) = c == d || seen c ds

-- `update_imap`: each chunk of the inodes is written once
unfoldable pub update_chunks : Lfs → List ℕ → List ℤ → Result Lfs
unfolding seen
update_chunks s done [] = ok s
update_chunks s done (inum ∷ l) = do
  let cnum = inum_to_chunk inum
  t ← if seen cnum done then ok s else write_chunk s cnum
  update_chunks t (if seen cnum done then done else done ++ cnum ∷ []) l

unfoldable pub update_imap : Lfs → List ℤ → Result Lfs
unfolding update_chunks
update_imap s inum_list = update_chunks s [] inum_list

-- the only overwrite: block 0
unfoldable pub cr_sync : Lfs → Lfs
cr_sync s = record s { disk = set s.disk 0 (checkpoint s.cr) }

-- `if not self.no_force_checkpoints: self.cr_sync()`
unfoldable pub force : Lfs → Lfs
unfolding cr_sync
force s = if s.no_force_checkpoints then s else cr_sync s

abbrev pub error_log : Lfs → Error → Lfs
error_log s e = record s { error_list = s.error_list ++ e ∷ [] }

abbrev pub error_clear : Lfs → Lfs
error_clear s = record s { error_list = [] }

-- ALLOCATE_SEQUENTIAL: the first entry of -1 becomes 1 until the inode has an address
unfoldable pub first_unmapped : ℕ → List ℤ → ℤ
first_unmapped i [] = minus_one
first_unmapped i (a ∷ l) = if eq_ℤ a minus_one then pos i else first_unmapped (i + 1) l

unfoldable pub allocate_inode : Lfs → ℤ × Lfs
unfolding first_unmapped remap
allocate_inode s = let i = first_unmapped 0 s.inode_map in (i, remap s i (pos 1))

-- the draws until one finds a free inode, of the numbers `d % n`
unfoldable pub draw_unmapped : List ℤ → List ℕ → Result (Option ℕ)
draw_unmapped l [] = ok none
draw_unmapped l (d ∷ ds) = do
  let index = d % length l
  a ← or_raise key_error (get_elem? l index)
  if eq_ℤ a minus_one then ok (some index) else draw_unmapped l ds

-- ALLOCATE_RANDOM, or none where the draws end before an inode is found; the operations below take the
-- first policy
unfoldable pub allocate_random : Lfs → List ℕ → Result (Option (ℤ × Lfs))
unfolding first_unmapped draw_unmapped remap
allocate_random s draws =
    if eq_ℤ (first_unmapped 0 s.inode_map) minus_one then ok (some (minus_one, s)) else (do
      drawn ← draw_unmapped s.inode_map draws
      elim drawn [
        | none ↦ ok none
        | some index ↦ ok (some (pos index, remap s (pos index) (pos 1)))
      ])

unfoldable pub free_inode : Lfs → ℤ → Result Lfs
unfolding remap
free_inode s inum = do
  a ← inode_map_at s inum
  check (not (eq_ℤ a minus_one))
  ok (remap s inum minus_one)

-- `__init__`
unfoldable pub init : Bool → Bool → Result Lfs
unfolding log make_new_dirblock make_inode remap make_imap_chunk
init use_disk_cr no_force_checkpoints = do
  let cr : List ℤ = pos 3 ∷ replicate 15 minus_one
  let s : Lfs = record {
    use_disk_cr = use_disk_cr;
    no_force_checkpoints = no_force_checkpoints;
    disk = [];
    cr = cr;
    inode_map = replicate num_inodes minus_one;
    error_list = [];
  }
  let s = logged s (checkpoint cr)
  let s = logged s (data_dir (make_new_dirblock root_inode root_inode))
  let i = make_inode directory 1 (pos 2)
  let i : Inode = record i { pointers = set i.pointers 0 (pos 1) }
  let (address, s) = log s (inode_block i)
  let s = remap s root_inode (pos address)
  chunk ← make_imap_chunk s 0
  ok (logged s chunk)
