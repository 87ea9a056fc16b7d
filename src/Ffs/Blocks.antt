-- ===== src/Ffs/Blocks.antt =====
-- HW-FFS/ffs.py, class file_system: range_free and allocate_blocks. The loop of allocate_blocks runs
-- on fuel, and `none` means that it has not ended by then.
pub mod Places
pub mod Running
pub mod Cycles
pub mod Ends
use cs334_operating_systems.Prelude.{
  ℕ, zero, suc, ◌+◌, ◌-◌, ◌*◌, ◌%◌, Bool, true, false, ◌&&◌, ◌||◌, Option, none, some, List, [],
  ◌∷◌, ◌++◌, ltb, leb, ◌==◌, if◌then◌else◌, length, Result, ok, ◌>>=◌, check, ◌>>◌,
}
use cs334_operating_systems.Prelude.Int.{pos, leb_ℤ}
use cs334_operating_systems.Ffs.State.{Ffs, entry, put_entry}

abbrev pub is_free : Option ℕ → Bool
is_free none = true
is_free (some i) = false

-- the loop of `range_free` over `n` places from `index` on
unfoldable pub all_free : List (List (Option ℕ)) → ℕ → ℕ → ℕ → Result Bool
unfolding entry
all_free bitmap group index zero = ok true
all_free bitmap group index (suc n) = do
  e ← entry bitmap group index
  let rest = all_free bitmap group (index + 1) n
  if is_free e then rest else ok false

unfoldable pub range_free : Ffs → List (List (Option ℕ)) → ℕ → ℕ → ℕ → ℕ → Result Bool
unfolding all_free
range_free s bitmap group index needed chunks_free =
    let n = if ltb needed chunks_free then needed else chunks_free in
    if leb (s.blocks_per_group + 1) (index + n) then ok false else all_free bitmap group index n

-- the variables of `allocate_blocks`, with the bitmap
pub record Scan : Type 0 where
  pub bitmap : List (List (Option ℕ))
  pub allocated : List (ℕ × ℕ)
  pub index : ℕ
  pub allocated_in_group : ℕ
  pub current_group : ℕ
  pub chunks_free : ℕ

-- the first `if` of the loop: the place at `index` is taken if the run from there on is free
unfoldable pub take_place : Ffs → ℕ → ℕ → Scan → Result Scan
unfolding range_free entry put_entry
take_place s inum size c = do
  fine ← range_free s c.bitmap c.current_group c.index (size - length c.allocated) c.chunks_free
  if fine
      then (do
        e ← entry c.bitmap c.current_group c.index
        check (is_free e)
        bitmap ← put_entry c.bitmap c.current_group c.index (some inum)
        ok (record c {
          bitmap = bitmap;
          allocated_in_group = c.allocated_in_group + 1;
          allocated = c.allocated ++ (c.current_group, c.index) ∷ [];
        }))
      else ok c

-- the group is searched, or has its share of a large file
unfoldable pub leaves_group : Ffs → Scan → Bool
leaves_group s c =
    c.index == s.blocks_per_group
    || (ltb 0 s.large_file_exception && c.allocated_in_group == s.large_file_exception)

unfoldable pub next_group : Ffs → ℕ → Scan → Scan
next_group s target c =
    let group = (c.current_group + 1) % s.num_groups in
    record c {
      allocated_in_group = 0;
      index = 0;
      current_group = group;
      chunks_free = if group == target then 1 else c.chunks_free;
    }

unfoldable pub allocate_from : Ffs → ℕ → ℕ → ℕ → ℕ → Scan → Result (Option Scan)
unfolding take_place leaves_group next_group
allocate_from s inum size target zero c = ok none
allocate_from s inum size target (suc fuel) c = do
  d ← take_place s inum size c
  let e = record d { index = d.index + 1 }
  let rest =
      allocate_from s inum size target fuel (if leaves_group s e then next_group s target e else e)
  if length e.allocated == size then ok (some e) else rest

-- enough for any size but 0
abbrev pub rounds : Ffs → ℕ → ℕ
rounds s size = (size + 1) * (s.num_groups * s.blocks_per_group)

-- before the first round
abbrev pub first_scan : Ffs → ℕ → Scan
first_scan s target_group = record {
  bitmap = s.data_bitmap;
  allocated = [];
  index = 0;
  allocated_in_group = 0;
  current_group = target_group;
  chunks_free = s.contig_allocation_policy;
}

unfoldable pub allocate_blocks : Ffs → ℕ → ℕ → ℕ → Result (Option Scan)
unfolding allocate_from
allocate_blocks s target_group size inum = do
  check (leb_ℤ (pos size) s.total_data_free)
  allocate_from s inum size target_group (rounds s size) (first_scan s target_group)
