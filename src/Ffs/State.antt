-- ===== src/Ffs/State.antt =====
-- HW-FFS/ffs.py, class file_system: the state, the symbols and do_verify.
use cs334_operating_systems.Prelude.{
  ℕ, suc, ◌+◌, ◌*◌, ◌/◌, ◌%◌, Bool, false, not, ◌&&◌, ◌||◌, Option, none, some, List, [], ◌∷◌, ◌++◌,
  map, leb, ◌==◌, if◌then◌else◌, length, set, replicate, key_error, value_error, Result, ok, ◌>>=◌,
  check, ◌>>◌, or_raise, nth,
}
use cs334_operating_systems.Prelude.Int.{ℤ, pos, ◌+ℤ◌, ◌-ℤ◌, eq_ℤ}
use cs334_operating_systems.Prelude.Text.{Text, codes, text_eq}
use mathlib.Core.Option

-- `inode_type`: 'regular', 'directory', or '' once the file is deleted
pub data IType : Type 0 where
  regular directory deleted : IType

-- A bitmap holds BITMAP_FREE, here `none`, or the number of the inode that uses the place.
pub record Ffs : Type 0 where
  pub num_groups : ℕ
  pub blocks_per_group : ℕ
  pub inodes_per_group : ℕ
  pub large_file_exception : ℕ
  pub spread_inodes : Bool
  pub contig_allocation_policy : ℕ
  pub spread_data_blocks : Bool
  pub allocate_faraway : ℕ
  pub data_bitmap : List (List (Option ℕ))
  pub inode_bitmap : List (List (Option ℕ))
  pub symbol_map : List (ℕ × Text)
  pub used_symbols : List Text
  pub available_symbols : List Text
  pub total_data_free : ℤ
  pub total_inodes_free : ℤ
  pub dir_data : List (ℕ × List (Text × ℕ))
  pub inode_type : List (ℕ × IType)
  pub inode_blocks : List (ℕ × List ℕ)
  pub name_to_inode_map : List (Text × ℕ)

-- dictionaries with numbers as keys: `d[k]`, `d[k] = v` and `del d[k]`
module _ {ℓ} {V : Type ℓ} where
  unfoldable pub find : ℕ → List (ℕ × V) → Option V
  find k [] = none
  find k ((j, v) ∷ m) = if j == k then some v else find k m

  unfoldable pub put : ℕ → V → List (ℕ × V) → List (ℕ × V)
  put k v [] = (k, v) ∷ []
  put k v ((j, w) ∷ m) = if j == k then (j, v) ∷ m else (j, w) ∷ put k v m

  unfoldable pub discard : ℕ → List (ℕ × V) → List (ℕ × V)
  discard k [] = []
  discard k ((j, w) ∷ m) = if j == k then m else (j, w) ∷ discard k m

-- `l.remove(x)` on a list of texts
unfoldable pub without : Text → List Text → Option (List Text)
without x [] = none
without x (y ∷ l) =
    let rest = without x l in if text_eq y x then some l else Option.map (λ r. y ∷ r) rest

unfoldable pub contains : Text → List Text → Bool
contains x [] = false
contains x (y ∷ l) = text_eq y x || contains x l

-- 'N' is not among them
abbrev pub all_symbols : List Text
all_symbols =
    map (λ c. c ∷ [])
      (codes "abcdefghijklmnopqrstuvwxyzABCDEFGHIJKLMOPQRSTUVWXYZ0123456789!@#%^&*()[]{}/.<>|")

-- `allocate_symbol`: the symbol for a name
unfoldable pub choose_symbol : List Text → List Text → Text → Result Text
unfolding contains
choose_symbol used available name =
    if not (contains name used) && contains name available
    then ok name
    else (do check (leb 1 (length available)); nth available 0)

unfoldable pub allocate_symbol : Ffs → ℕ → Text → Result Ffs
unfolding choose_symbol without put
allocate_symbol s inum suggested_name = do
  choice ← choose_symbol s.used_symbols s.available_symbols suggested_name
  left ← or_raise value_error (without choice s.available_symbols)
  ok (record s {
    used_symbols = s.used_symbols ++ choice ∷ [];
    available_symbols = left;
    symbol_map = put inum choice s.symbol_map;
  })

unfoldable pub free_symbol : Ffs → ℕ → Result Ffs
unfolding find discard without
free_symbol s inum = do
  symbol ← or_raise key_error (find inum s.symbol_map)
  used ← or_raise value_error (without symbol s.used_symbols)
  ok (record s {
    symbol_map = discard inum s.symbol_map;
    used_symbols = used;
    available_symbols = s.available_symbols ++ symbol ∷ [];
  })

-- `bitmap[group][index]`, and `bitmap[group][index] = v`
unfoldable pub entry : List (List (Option ℕ)) → ℕ → ℕ → Result (Option ℕ)
entry bitmap group index = do row ← nth bitmap group; nth row index

unfoldable pub put_entry :
    List (List (Option ℕ)) → ℕ → ℕ → Option ℕ → Result (List (List (Option ℕ)))
put_entry bitmap group index v = do
  row ← nth bitmap group
  _ ← nth row index
  ok (set bitmap group (set row index v))

abbrev pub slash : Text
slash = b'/' ∷ []

-- the options that decide where inodes and blocks go
pub record Options : Type 0 where
  pub large_file_exception : ℕ
  pub spread_inodes : Bool
  pub contig_allocation_policy : ℕ
  pub spread_data_blocks : Bool
  pub allocate_faraway : ℕ

-- before the root directory has its symbol
abbrev pub blank : ℕ → ℕ → ℕ → Options → List (List (Option ℕ)) → List (List (Option ℕ)) → Ffs
blank num_groups blocks_per_group inodes_per_group o blocks inodes = record {
  num_groups = num_groups;
  blocks_per_group = blocks_per_group;
  inodes_per_group = inodes_per_group;
  large_file_exception = o.large_file_exception;
  spread_inodes = o.spread_inodes;
  contig_allocation_policy = o.contig_allocation_policy;
  spread_data_blocks = o.spread_data_blocks;
  allocate_faraway = o.allocate_faraway;
  data_bitmap = blocks;
  inode_bitmap = inodes;
  symbol_map = [];
  used_symbols = [];
  available_symbols = all_symbols;
  total_data_free = pos (blocks_per_group * num_groups) -ℤ pos 1;
  total_inodes_free = pos (inodes_per_group * num_groups) -ℤ pos 1;
  dir_data = (0, ((b'.' ∷ [], 0) ∷ (b'.' ∷ b'.' ∷ [], 0) ∷ [])) ∷ [];
  inode_type = (0, directory) ∷ [];
  inode_blocks = (0, 0 ∷ []) ∷ [];
  name_to_inode_map = (slash, 0) ∷ [];
}

-- `__init__`; the options of printing are left out
unfoldable pub init : ℕ → ℕ → ℕ → Options → Result Ffs
unfolding put_entry allocate_symbol
init num_groups blocks_per_group inodes_per_group o = do
  inodes ← put_entry (replicate num_groups (replicate inodes_per_group none)) 0 0 (some 0)
  blocks ← put_entry (replicate num_groups (replicate blocks_per_group none)) 0 0 (some 0)
  allocate_symbol (blank num_groups blocks_per_group inodes_per_group o blocks inodes) 0 slash

unfoldable pub get_free_count : List (Option ℕ) → ℕ
get_free_count [] = 0
get_free_count (none ∷ l) = suc (get_free_count l)
get_free_count (some i ∷ l) = get_free_count l

-- the places in use, of the loops of `do_verify`
unfoldable pub used_in : List (Option ℕ) → ℕ
used_in [] = 0
used_in (none ∷ l) = used_in l
used_in (some i ∷ l) = suc (used_in l)

unfoldable pub used : List (List (Option ℕ)) → ℕ
unfolding used_in
used [] = 0
used (row ∷ l) = used_in row + used l

abbrev pub is_inode : ℕ → Option ℕ → Bool
is_inode inum none = false
is_inode inum (some i) = i == inum

unfoldable pub verify_blocks : Ffs → ℕ → List ℕ → Result (Unit {0})
unfolding entry
verify_blocks s inum [] = ok tt
verify_blocks s inum (b ∷ l) = do
  e ← entry s.data_bitmap (b / s.blocks_per_group) (b % s.blocks_per_group)
  check (is_inode inum e)
  verify_blocks s inum l

unfoldable pub verify_names : Ffs → List (Text × ℕ) → Result (Unit {0})
unfolding find verify_blocks
verify_names s [] = ok tt
verify_names s ((name, inum) ∷ l) = do
  blocks ← or_raise key_error (find inum s.inode_blocks)
  verify_blocks s inum blocks
  verify_names s l

-- each bitmap has a row for every group, with a place for every block or inode of the group
unfoldable pub do_verify : Ffs → Result (Unit {0})
unfolding used verify_names
do_verify s = do
  check (
      eq_ℤ (pos (used s.data_bitmap) +ℤ s.total_data_free)
        (pos (s.num_groups * s.blocks_per_group)))
  check (
      eq_ℤ (pos (used s.inode_bitmap) +ℤ s.total_inodes_free)
        (pos (s.num_groups * s.inodes_per_group)))
  verify_names s s.name_to_inode_map
