-- ===== src/Ffs/Spans.antt =====
-- HW-FFS/ffs.py, class file_system: get_dist, get_spans and do_all_spans, with the sums and the counts
-- of which it prints the quotients. A file is looked up by a name of the map, so it has an inode.
pub mod Bounds
mod Tests
use cs334_operating_systems.Prelude.{
  ℕ, ◌+◌, ◌-◌, ◌*◌, ◌/◌, ◌%◌, Bool, true, false, not, ◌||◌, Option, none, some, List, [], ◌∷◌, ◌++◌,
  ltb, if◌then◌else◌, key_error, Result, ok, ◌>>=◌, check, ◌>>◌, or_raise,
}
use cs334_operating_systems.Prelude.Int.{ℤ, pos, ◌+ℤ◌, ◌-ℤ◌, ltb_ℤ, minus_one}
use cs334_operating_systems.Prelude.Text.{Text, text_eq, lookup}
use cs334_operating_systems.Ffs.State.{Ffs, find, put}
use cs334_operating_systems.Ffs.Delete.{is_dir}

unfoldable pub get_dist : ℕ → ℕ → ℕ
get_dist a b = if ltb b a then a - b else b - a

abbrev pub group_size : Ffs → ℕ
group_size s = s.inodes_per_group + s.blocks_per_group

-- an inode lies among the first places of its group, a block behind them
abbrev pub inode_address : Ffs → ℕ → ℕ
inode_address s inum = inum % s.inodes_per_group + inum / s.inodes_per_group * group_size s

abbrev pub data_address : Ffs → ℕ → ℕ
data_address s d =
    d % s.blocks_per_group + d / s.blocks_per_group * group_size s + s.inodes_per_group

-- what `get_spans` returns; the greatest address starts as -1
pub record Span : Type 0 where
  pub inode_number : ℕ
  pub inode_address : ℕ
  pub min_address : ℕ
  pub max_address : ℤ

unfoldable pub widen : Ffs → Span → List ℕ → Span
widen s r [] = r
widen s r (d ∷ l) =
    let a = data_address s d in
    widen s
      (record r {
        min_address = if ltb a r.min_address then a else r.min_address;
        max_address = if ltb_ℤ r.max_address (pos a) then pos a else r.max_address;
      })
      l

unfoldable pub get_spans : Ffs → Text → Result Span
unfolding widen find lookup
get_spans s path = do
  inum ← or_raise key_error (lookup path s.name_to_inode_map)
  data_blocks ← or_raise key_error (find inum s.inode_blocks)
  ok (
      widen s
        (record {
          inode_number = inum;
          inode_address = inode_address s inum;
          min_address = 1 + s.num_groups * group_size s;
          max_address = minus_one;
        })
        data_blocks)

abbrev pub least : ℤ → List ℤ → ℤ
least m [] = m
least m (a ∷ l) = least (if ltb_ℤ a m then a else m) l

abbrev pub greatest : ℤ → List ℤ → ℤ
greatest m [] = m
greatest m (a ∷ l) = greatest (if ltb_ℤ m a then a else m) l

-- the addresses of `span_results`
abbrev pub three : Span → List ℤ
three r = pos r.inode_address ∷ pos r.min_address ∷ r.max_address ∷ []

abbrev pub file_span : Span → ℤ
file_span r =
    greatest (pos r.inode_address) (r.max_address ∷ [])
    -ℤ least (pos r.inode_address) (pos r.min_address ∷ [])

-- the loop over the files: `span_results`, the sum and the count
unfoldable pub file_spans :
    Ffs → List (Text × ℕ) → List (ℕ × Span) → ℤ → ℕ → Result (List (ℕ × Span) × ℤ × ℕ)
unfolding get_spans put
file_spans s [] results sum count = ok (results, sum, count)
file_spans s ((f, _) ∷ l) results sum count = do
  r ← get_spans s f
  itype ← or_raise key_error (find r.inode_number s.inode_type)
  if is_dir itype then file_spans s l results sum count else (do
    check (is_new (find r.inode_number results))
    file_spans s l (put r.inode_number r results) (sum +ℤ file_span r) (count + 1))
  where
    is_new : Option Span → Bool
    is_new none = true
    is_new (some r) = false

abbrev pub is_dot : Text → Bool
is_dot name = text_eq name (b'.' ∷ []) || text_eq name (b'.' ∷ b'.' ∷ [])

-- the addresses of the files of a directory
unfoldable pub entry_addresses : Ffs → List (ℕ × Span) → List (Text × ℕ) → Result (List ℤ)
unfolding find text_eq
entry_addresses s results [] = ok []
entry_addresses s results ((name, inum) ∷ l) =
    let rest = entry_addresses s results l in
    if is_dot name then rest else (do
      itype ← or_raise key_error (find inum s.inode_type)
      if is_dir itype
          then rest
          else (do r ← or_raise key_error (find inum results); more ← rest; ok (three r ++ more)))

-- the last of the sorted addresses less the first
abbrev pub dirspan : Span → List ℤ → ℤ
dirspan r l =
    greatest (pos r.inode_address) (three r ++ l) -ℤ least (pos r.inode_address) (three r ++ l)

-- the loop over the directories
unfoldable pub dir_spans : Ffs → List (ℕ × Span) → List (Text × ℕ) → ℤ → ℕ → Result (ℤ × ℕ)
unfolding get_spans entry_addresses
dir_spans s results [] sum count = ok (sum, count)
dir_spans s results ((f, _) ∷ l) sum count = do
  r ← get_spans s f
  itype ← or_raise key_error (find r.inode_number s.inode_type)
  if not (is_dir itype) then dir_spans s results l sum count else (do
    entries ← or_raise key_error (find r.inode_number s.dir_data)
    addresses ← entry_addresses s results entries
    dir_spans s results l (sum +ℤ dirspan r addresses) (count + 1))

-- the sums and the counts; the root is a directory, so the second count is not 0
unfoldable pub do_all_spans : Ffs → Result (ℤ × ℕ × ℤ × ℕ)
unfolding file_spans dir_spans
do_all_spans s = do
  (results, file_sum, files) ← file_spans s s.name_to_inode_map [] (pos 0) 0
  (dir_sum, dirs) ← dir_spans s results s.name_to_inode_map (pos 0) 0
  ok (file_sum, files, dir_sum, dirs)
