-- ===== src/Ffs/Groups.antt =====
-- HW-FFS/ffs.py, class file_system: which group is picked for an inode or for data.
pub mod Best
pub mod Near
pub mod Pick
use cs334_operating_systems.Prelude.{
  ℕ, zero, suc, ◌+◌, ◌-◌, ◌*◌, ◌/◌, ◌%◌, Option, none, some, List, [], ◌∷◌, ◌++◌, leb, ◌==◌,
  if◌then◌else◌, Fault, assertion, value_error, Result, ok, raise, ◌>>=◌, or_raise, nth,
}
use cs334_operating_systems.Ffs.State.{
  IType, regular, directory, deleted, Ffs, put_entry, get_free_count,
}

unfoldable pub get_free_inode_count : Ffs → ℕ → Result ℕ
unfolding get_free_count
get_free_inode_count s group = do row ← nth s.inode_bitmap group; ok (get_free_count row)

unfoldable pub get_free_data_count : Ffs → ℕ → Result ℕ
unfolding get_free_count
get_free_data_count s group = do row ← nth s.data_bitmap group; ok (get_free_count row)

-- the loops that look for the greatest count: the first group with the most wins
unfoldable pub most : (ℕ → Result ℕ) → List ℕ → ℕ → Option ℕ → Result (ℕ × Option ℕ)
most count [] best target = ok (best, target)
most count (g ∷ l) best target = do
  n ← count g
  if leb n best then most count l best target else most count l n (some g)

-- `range(a, b, step)` has `steps a b step` members
abbrev pub steps : ℕ → ℕ → ℕ → ℕ
steps a b step = (b - a + step - 1) / step

unfoldable pub range_by : ℕ → ℕ → ℕ → List ℕ
range_by zero a step = []
range_by (suc n) a step = a ∷ range_by n (a + step) step

unfoldable pub find_most_free_inodes : Ffs → ℕ → Result (Option ℕ)
unfolding most range_by get_free_inode_count
find_most_free_inodes s starting_point = do
  (best, target) ←
      most (get_free_inode_count s)
        (range_by (s.num_groups - starting_point) starting_point 1 ++ range_by starting_point 0 1) 0
        none
  ok target

unfoldable pub find_free_inodes_in_range : Ffs → ℕ → ℕ → Result ℕ
unfolding get_free_inode_count
find_free_inodes_in_range s group zero = ok 0
find_free_inodes_in_range s group (suc how_many) = do
  n ← get_free_inode_count s (group % s.num_groups)
  rest ← find_free_inodes_in_range s (group + 1) how_many
  ok (n + rest)

-- a step of 0 is a ValueError
unfoldable pub find_most_free_inodes_multiple : Ffs → ℕ → ℕ → Result ℕ
unfolding find_free_inodes_in_range most range_by
find_most_free_inodes_multiple s starting_point how_many =
    if how_many == 0 then raise value_error else (do
      (best, target) ←
          most (λ g. find_free_inodes_in_range s g how_many)
            (range_by (steps starting_point s.num_groups how_many) starting_point how_many
              ++ range_by (steps 0 starting_point how_many) 0 how_many)
            0 none
      or_raise assertion target)

-- `(g - 1) % num_groups` for a group `g`
abbrev pub before : Ffs → ℕ → ℕ
before s g = (g + (s.num_groups - 1)) % s.num_groups

abbrev pub after : Ffs → ℕ → ℕ
after s g = (g + 1) % s.num_groups

-- the loop of `find_free_inodes_near`, with `n` rounds to go: outwards on both sides in turn
unfoldable pub near : Ffs → ℕ → ℕ → ℕ → ℕ → Result ℕ
unfolding get_free_inode_count
near s zero i grower shrinker = ok 1
near s (suc n) i grower shrinker = do
  let current_group = if i % 2 == 0 then grower else shrinker
  let next_grower = if i % 2 == 0 then after s grower else grower
  let next_shrinker = if i % 2 == 0 then shrinker else before s shrinker
  free ← get_free_inode_count s current_group
  if leb 1 free then ok current_group else near s n (i + 1) next_grower next_shrinker

unfoldable pub find_free_inodes_near : Ffs → ℕ → Result ℕ
unfolding near
find_free_inodes_near s target_group =
    near s (s.num_groups - 1) 0 (after s target_group) (before s target_group)

-- the parent is known to be there: `do_create` looks it up first
unfoldable pub pick_near_parent : Ffs → ℕ → Result ℕ
unfolding find_free_inodes_near
pick_near_parent s parent_inum = do
  let target_group = parent_inum / s.inodes_per_group
  free ← get_free_inode_count s target_group
  if free == 0 then find_free_inodes_near s target_group else ok target_group

unfoldable pub pick_group : Ffs → ℕ → IType → Result ℕ
unfolding pick_near_parent find_most_free_inodes_multiple
pick_group s parent_inum directory = find_most_free_inodes_multiple s 0 s.allocate_faraway
pick_group s parent_inum regular =
    if s.spread_inodes
    then find_most_free_inodes_multiple s 0 s.allocate_faraway
    else pick_near_parent s parent_inum
pick_group s parent_inum deleted =
    if s.spread_inodes
    then find_most_free_inodes_multiple s 0 s.allocate_faraway
    else raise Fault.exit

unfoldable pub first_none : ℕ → List (Option ℕ) → Option ℕ
first_none i [] = none
first_none i (none ∷ l) = some i
first_none i (some k ∷ l) = first_none (i + 1) l

-- a row has `inodes_per_group` places
unfoldable pub find_free_inode : Ffs → ℕ → Result (Option ℕ)
unfolding first_none
find_free_inode s group = do row ← nth s.inode_bitmap group; ok (first_none 0 row)

-- despite the name, the group with the most free blocks
unfoldable pub find_min_data_usage : Ffs → Result (Option ℕ)
unfolding get_free_data_count most range_by
find_min_data_usage s = do
  (best, target) ← most (get_free_data_count s) (range_by s.num_groups 0 1) 0 none
  ok target

unfoldable pub mark_inode_used : Ffs → ℕ → ℕ → Result Ffs
unfolding put_entry
mark_inode_used s group inode_index = do
  inodes ←
      put_entry s.inode_bitmap group inode_index (some (inode_index + group * s.inodes_per_group))
  ok (record s { inode_bitmap = inodes })
