-- ===== src/Ffs/Tests.antt =====
-- Runs of the model on a small file system, and the theorems applied to it.
use cs334_operating_systems.Prelude.{
  ℕ, zero, suc, ◌*◌, ◌/◌, ◌≤◌, ◌<◌, ◌≡◌, refl, ◌≢◌, false, Option, none, some, List, [], ◌∷◌, arith,
  length, get_elem?, Fault, Result, ok, raise, ◌>>=◌, Ensures, ok_or,
}
use cs334_operating_systems.Prelude.Int.{pos, ◌+ℤ◌, ◌-ℤ◌, minus_one}
use cs334_operating_systems.Prelude.Text.{codes, text_eq, lookup}
use cs334_operating_systems.Ffs.State.{
  regular, directory, Ffs, find, entry, slash, Options, init, do_verify,
}
use cs334_operating_systems.Ffs.Groups.{
  get_free_inode_count, find_free_inodes_in_range, find_most_free_inodes_multiple,
  find_free_inodes_near, pick_group,
}
use cs334_operating_systems.Ffs.Groups.Best.{find_most_free_inodes_multiple-most}
use cs334_operating_systems.Ffs.Delete.{get_parent, delete_inode, do_delete}
use cs334_operating_systems.Ffs.Delete.Laws.{do_delete-fails, delete_inode-ne}
use cs334_operating_systems.Ffs.Grid.{IsShaped, free_total}
use cs334_operating_systems.Ffs.Groups.Near.{HasFree, find_free_inodes_near_lem}
use cs334_operating_systems.Ffs.Blocks.{Scan, allocate_blocks}
use cs334_operating_systems.Ffs.Blocks.Places.{Taken}
use cs334_operating_systems.Ffs.Blocks.Ends.{allocate_blocks_lem}
use cs334_operating_systems.Ffs.Create.{
  Created, failed, made, no_inode, do_create, Command, file, dir, run,
}
use cs334_operating_systems.Ffs.Create.Keeps.{IsReady}
use cs334_operating_systems.Ffs.Create.Runs.{
  IsOver, do_create-IsOver, AllCreations, run_unchecked, run-run_unchecked,
}
use cs334_operating_systems.Ffs.Create.Start.{init-IsReady}

-- two groups of four blocks and three inodes, with the file `/a` as inode 1 on block 3
abbrev with_file : Ffs
with_file = record {
  num_groups = 2;
  blocks_per_group = 4;
  inodes_per_group = 3;
  large_file_exception = 0;
  spread_inodes = false;
  contig_allocation_policy = 1;
  spread_data_blocks = false;
  allocate_faraway = 1;
  data_bitmap = (some 0 ∷ none ∷ none ∷ some 1 ∷ []) ∷ (none ∷ none ∷ none ∷ none ∷ []) ∷ [];
  inode_bitmap = (some 0 ∷ some 1 ∷ none ∷ []) ∷ (none ∷ none ∷ none ∷ []) ∷ [];
  symbol_map = (0, slash) ∷ (1, codes "a") ∷ [];
  used_symbols = slash ∷ codes "a" ∷ [];
  available_symbols = codes "b" ∷ codes "c" ∷ [];
  total_data_free = pos 6;
  total_inodes_free = pos 4;
  dir_data = (0, (codes ".", 0) ∷ (codes "..", 0) ∷ (codes "a", 1) ∷ []) ∷ [];
  inode_type = (0, directory) ∷ (1, regular) ∷ [];
  inode_blocks = (0, 0 ∷ []) ∷ (1, 3 ∷ []) ∷ [];
  name_to_inode_map = (slash, 0) ∷ (codes "/a", 1) ∷ [];
}

abbrev defaults : Options
defaults = record {
  large_file_exception = 0;
  spread_inodes = false;
  contig_allocation_policy = 1;
  spread_data_blocks = false;
  allocate_faraway = 1;
}

abbrev state_of : Result Ffs → Ffs
state_of r = ok_or r with_file

init-do_verify : (init 2 4 3 defaults >>= do_verify) ≡ ok tt
unfolding init do_verify text_eq ◌+ℤ◌ ◌-ℤ◌
init-do_verify = refl

do_verify-with_file : do_verify with_file ≡ ok tt
unfolding do_verify ◌+ℤ◌
do_verify-with_file = refl

pick_group-with_file : pick_group with_file 0 regular ≡ ok 0
unfolding pick_group
pick_group-with_file = refl

find_free_inodes_near-with_file : find_free_inodes_near with_file 0 ≡ ok 1
unfolding find_free_inodes_near
find_free_inodes_near-with_file = refl

get_parent-codes : get_parent (codes "/a/bc") ≡ (codes "/a", codes "bc")
unfolding get_parent
get_parent-codes = refl

-- the deletion frees block 3 at the place of block 5
abbrev deleted_file : Result Ffs
deleted_file = delete_inode with_file (codes "/a") 0 (codes "a") ((codes "a", 1) ∷ []) 1

deleted_file-ok : deleted_file ≡ ok (state_of deleted_file)
unfolding delete_inode text_eq lookup
deleted_file-ok = refl

deleted_file-do_verify : (deleted_file >>= do_verify) ≡ raise Fault.assertion
unfolding delete_inode do_verify text_eq lookup ◌+ℤ◌
deleted_file-do_verify = refl

best_run : find_most_free_inodes_multiple with_file 0 1 ≡ ok 1
unfolding find_most_free_inodes_multiple
best_run = refl

first_free : find_free_inodes_in_range with_file (0 * 1) 1 ≡ ok 1
unfolding find_free_inodes_in_range
first_free = refl

find_most_free_inodes_multiple-most_example :
    (m : ℕ) × (find_free_inodes_in_range with_file 1 1 ≡ ok m) × (0 < m) × (1 ≤ m)
find_most_free_inodes_multiple-most_example =
    find_most_free_inodes_multiple-most with_file 1 1 0 1 best_run (omega arith) first_free

no_file : do_delete with_file (codes "/b") ≡ ok (minus_one, with_file)
unfolding do_delete text_eq lookup
no_file = refl

do_delete-fails_example : with_file ≡ with_file
do_delete-fails_example = do_delete-fails with_file (codes "/b") no_file

-- block 3 lies in group 0, and is freed in group 1
one_block : (k b : ℕ) → get_elem? (3 ∷ []) k ≡ some b → b / 2 ≢ 0
one_block zero b h = ground arith
one_block (suc k) b h = cc

known_blocks : find 1 with_file.inode_blocks ≡ some (3 ∷ [])
unfolding find
known_blocks = refl

-- inode 1 is freed in group 0
one_inode : 1 / 2 ≢ 1
one_inode h = omega (arith, h)

delete_inode-ne_example :
    (entry (state_of deleted_file).data_bitmap 0 3 ≡ entry with_file.data_bitmap 0 3)
    × (entry (state_of deleted_file).inode_bitmap 1 0 ≡ entry with_file.inode_bitmap 1 0)
delete_inode-ne_example =
    delete_inode-ne with_file (codes "/a") (codes "a") 0 1 0 3 1 0 ((codes "a", 1) ∷ []) (3 ∷ [])
      deleted_file-ok known_blocks one_block one_inode

-- a new file system with two groups of four blocks and three inodes
abbrev started : Ffs
started = state_of (init 2 4 3 defaults)

init-started : init 2 4 3 defaults ≡ ok started
unfolding init text_eq ◌-ℤ◌
init-started = refl

started-IsReady : IsReady started
started-IsReady = init-IsReady 2 4 3 defaults (omega arith) refl init-started

abbrev script : List Command
script = dir (codes "/d") ∷ file (codes "/d/a") 3 ∷ file (codes "/b") 9 ∷ []

script-AllCreations : AllCreations script
script-AllCreations = (tt, (omega arith, (omega arith, tt)))

run-run_unchecked_example :
    (run started script ≡ run_unchecked started script)
    × Ensures (λ c. (t : Ffs) × (c ≡ made t) × IsReady t) (run started script)
run-run_unchecked_example = run-run_unchecked started script started-IsReady script-AllCreations

abbrev with_dir : Created
with_dir = ok_or (do_create started (codes "/d") 1 directory) failed

do_create-with_dir : do_create started (codes "/d") 1 directory ≡ ok with_dir
unfolding do_create text_eq lookup ◌-ℤ◌ init
do_create-with_dir = refl

do_create-IsOver_example : IsOver with_dir
do_create-IsOver_example =
    do_create-IsOver started (codes "/d") 1 directory started-IsReady (omega arith)
      do_create-with_dir

abbrev group_of : Created → ℕ
group_of (no_inode g) = g
group_of _ = 9

-- with runs of two groups the first one is picked though it has no free inode
far_apart-no_inode :
    do_create
      (record with_file {
        allocate_faraway = 2;
        inode_bitmap = (some 0 ∷ some 1 ∷ some 2 ∷ []) ∷ (none ∷ none ∷ none ∷ []) ∷ [];
      })
      (codes "/d")
      1
      directory
    ≡ ok (no_inode 0)
unfolding do_create text_eq lookup
far_apart-no_inode = refl

-- a file of no block: the loop takes blocks until its assertion fails
empty_file-assertion : do_create started (codes "/e") 0 regular ≡ raise Fault.assertion
unfolding do_create text_eq lookup ◌-ℤ◌ init
empty_file-assertion = refl

started-IsShaped : IsShaped 2 4 started.data_bitmap
unfolding init text_eq
started-IsShaped = started-IsReady.sound.blocks_shaped

free_blocks_seven : free_total started.data_bitmap ≡ 7
unfolding free_total init text_eq
free_blocks_seven = refl

allocate_blocks_lem_example :
    (d : Scan) × (allocate_blocks started 1 5 2 ≡ ok (some d))
    × (length d.allocated ≡ 5)
    × Taken 2 4 started.data_bitmap 2 d.bitmap d.allocated
unfolding init text_eq
allocate_blocks_lem_example =
    allocate_blocks_lem started 1 5 2 started-IsShaped started-IsReady.sound.blocks_total
      (omega arith) (omega arith) (omega arith) (omega (arith, free_blocks_seven))

group_one-HasFree : HasFree with_file 1
unfolding get_free_inode_count
group_one-HasFree = (3, refl, omega arith)

with_file-IsShaped : IsShaped 2 3 with_file.inode_bitmap
with_file-IsShaped = record { rows = refl; wide = wide }
  where
    wide :
        (g : ℕ) (row : List (Option ℕ))
        → get_elem? with_file.inode_bitmap g ≡ some row
        → length row ≡ 3
    wide zero row h = ground (arith, h)
    wide (suc zero) row h = ground (arith, h)
    wide (suc (suc g)) row h = cc

find_free_inodes_near_lem_example :
    (h : ℕ) × (find_free_inodes_near with_file 0 ≡ ok h) × (h < 2) × HasFree with_file h
find_free_inodes_near_lem_example =
    find_free_inodes_near_lem with_file 3 0 1 with_file-IsShaped (omega arith) (omega arith)
      (λ e. omega (arith, e)) group_one-HasFree
