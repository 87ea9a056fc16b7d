-- ===== src/Vsfs/Tests.antt =====
-- HW-VSFS/vsfs.py: runs at concrete inputs.
use cs334_operating_systems.Prelude.{
  position, ℕ, ◌≡◌, refl, ◌≢◌, ◌⊎◌, true, false, some, List, [], ◌∷◌, arith, get_elem?, set, ok,
  ok_or,
}
use cs334_operating_systems.Prelude.Int.{pos, ◌+ℤ◌, ◌-ℤ◌, minus_one}
use cs334_operating_systems.Prelude.Text.{codes, text_eq, lookup, insert}
use cs334_operating_systems.Vsfs.Fs.{
  Fs, root_name, dot, dot_dot, blank, init, inode_alloc, inode_free, data_alloc, data_free,
  get_parent,
}
use cs334_operating_systems.Vsfs.Ops.{
  remove_text, drop_link, delete_file, can_add, add_link, create_link, init_dir_block, install,
  create_dir_block, create_inode, create_file, fill_block, write_file,
}
use cs334_operating_systems.Vsfs.Workload.{
  make_name, do_delete, do_link, do_create, do_append, Attempt, append_to, delete, link, create_f,
  create_d, pass, run,
}
use cs334_operating_systems.Vsfs.Consistent.{IsConsistent}
use cs334_operating_systems.Vsfs.Atomic.{IsSameButAddress, create_file-atomic}
use cs334_operating_systems.Vsfs.Bitmap
use cs334_operating_systems.Vsfs.Bitmap.{Bitmap, num_free}
use cs334_operating_systems.Vsfs.Bitmap.Laws
use cs334_operating_systems.Vsfs.Block
use cs334_operating_systems.Vsfs.Block.{Block, FType, dir, file, unused, base_name}
use cs334_operating_systems.Vsfs.Block.Laws as BlockLaws
use cs334_operating_systems.Vsfs.Inode
use cs334_operating_systems.Vsfs.Consistent.Runs.{run-IsConsistent}

program : Unit {0}
unfolding Bitmap.init Bitmap.alloc Bitmap.free Bitmap.mark_allocated Bitmap.num_free Block.set_type
    Block.add_data Block.get_free_entries Block.add_dir_entry Block.del_dir_entry
    Block.dir_entry_exists Block.free Inode.set_all Inode.inc_ref_cnt Inode.dec_ref_cnt
    Inode.set_addr Inode.get_size Inode.free init inode_alloc inode_free data_alloc data_free
    get_parent remove_text drop_link delete_file can_add add_link create_link init_dir_block install
    create_dir_block create_inode create_file fill_block write_file do_delete do_link do_create
    do_append pass run position text_eq lookup insert ◌+ℤ◌ ◌-ℤ◌
program = tt

abbrev start : Fs
start = ok_or (init 6 6) (blank 6 6)

abbrev draws : List Attempt
draws =
    create_f 0 (codes "a")
    ∷ create_d 0 (codes "d")
    ∷ create_f 1 (codes "b")
    ∷ append_to 1 (codes "x")
    ∷ link 0 (codes "c") 1
    ∷ delete 0
    ∷ create_f 0 (codes "c")
    ∷ delete 0
    ∷ []

abbrev after : ℕ × Fs
after = ok_or (run 20 draws start) (0, start)

init-start : init 6 6 ≡ ok start
unfolding program
init-start = refl

run-draws : run 20 draws start ≡ ok after
unfolding program
run-draws = refl

-- `c` is taken, so seven of the eight attempts succeed; `/c` is left
after_draws :
    (after.0 ≡ 13)
    × (after.1.files ≡ codes "/c" ∷ [])
    × (after.1.ibitmap.bmap ≡ 1 ∷ 0 ∷ 1 ∷ 1 ∷ 0 ∷ 0 ∷ [])
unfolding program
after_draws = (refl, refl, refl)

run-IsConsistent_example : IsConsistent after.1
run-IsConsistent_example = run-IsConsistent 6 6 20 draws init-start run-draws

abbrev bits : Bitmap
bits = record { size = 3; bmap = 1 ∷ 0 ∷ 1 ∷ []; num_allocated = pos 2 }

bits-IsValid : Laws.IsValid bits
unfolding Laws.ones
bits-IsValid = record { sized = refl; bits = omega arith; counted = refl }

alloc_lem_example :
    ((num_free bits ≡ pos 0) × (Bitmap.alloc bits ≡ (minus_one, bits)))
    ⊎ ((n : ℕ) × (num_free bits ≢ pos 0)
        × (Bitmap.alloc bits ≡ (pos n, Laws.marked bits n))
        × (get_elem? bits.bmap n ≡ some 0)
        × Laws.NoneFreeBelow n bits.bmap)
alloc_lem_example = Laws.alloc_lem bits bits-IsValid

bits_alloc : Bitmap.alloc bits ≡ (pos 1, Laws.marked bits 1)
unfolding program
bits_alloc = refl

free-alloc_example : Bitmap.free (Laws.marked bits 1) (pos 1) ≡ ok bits
free-alloc_example = Laws.free-alloc bits 1 bits_alloc

abbrev bit_ops : List Laws.Op
bit_ops = Laws.alloc_op ∷ Laws.mark_op (pos 2) ∷ Laws.free_op (pos 0) ∷ Laws.alloc_op ∷ []

abbrev bits_after : Bitmap
bits_after = ok_or (Laws.run bit_ops (Bitmap.init 3)) bits

bit_ops-run : Laws.run bit_ops (Bitmap.init 3) ≡ ok bits_after
unfolding program Laws.run Laws.apply
bit_ops-run = refl

run-init_example : Laws.IsValid bits_after × (bits_after.size ≡ 3)
run-init_example = Laws.run-init 3 bit_ops bit_ops-run

abbrev folder : Block
folder = record (Block.init dir) {
  dir_list = (dot, pos 4) ∷ (dot_dot, pos 0) ∷ [];
  dir_used = pos 2;
}

abbrev folder_x : Block
folder_x = ok_or (Block.add_dir_entry folder (codes "x") (pos 7)) folder

folder_add : Block.add_dir_entry folder (codes "x") (pos 7) ≡ ok folder_x
unfolding program
folder_add = refl

folder_new : Block.dir_entry_exists folder (codes "x") ≡ ok false
unfolding program
folder_new = refl

x_own : base_name (codes "x") ≡ codes "x"
unfolding base_name
x_own = refl

del_dir_entry-add_dir_entry_example :
    (Block.dir_entry_exists folder_x (codes "x") ≡ ok true)
    × (Block.del_dir_entry folder_x (codes "x") ≡ ok folder)
del_dir_entry-add_dir_entry_example =
    BlockLaws.del_dir_entry-add_dir_entry folder (codes "x") (pos 7) folder_add folder_new x_own

abbrev freed : Block
freed = ok_or (Block.free folder) folder

abbrev reused : Block
reused = ok_or (Block.set_type freed dir) folder

folder-free : Block.free folder ≡ ok freed
unfolding program
folder-free = refl

folder_reuse : Block.set_type freed dir ≡ ok reused
unfolding program
folder_reuse = refl

set_type-free_stale_example :
    (reused.dir_used ≡ pos 0)
    × (reused.dir_list ≡ folder.dir_list)
    × (Block.dir_entry_exists reused dot ≡ Block.dir_entry_exists folder dot)
set_type-free_stale_example = BlockLaws.set_type-free_stale folder dot refl folder-free folder_reuse

-- two inodes and one data block, so a second directory finds no block
abbrev tight : Fs
tight = ok_or (init 2 1) (blank 2 1)

tight-init : init 2 1 ≡ ok tight
unfolding program
tight-init = refl

tight-IsConsistent : IsConsistent tight
tight-IsConsistent = run-IsConsistent 2 1 0 [] {due = 0} tight-init (unfold run in refl)

-- the same with an address left in the unused inode
abbrev stale : Fs
stale = record tight { inodes = set tight.inodes 1 (record Inode.init { addr = pos 0 }) }

stale-IsConsistent : IsConsistent stale
stale-IsConsistent = record {
  ivalid = tight-IsConsistent.ivalid;
  dvalid = tight-IsConsistent.dvalid;
  inode_bits = unfold program in refl;
  block_bits = tight-IsConsistent.block_bits;
}

stale_fails : create_file stale root_name (codes "d") dir ≡ ok (minus_one, tight)
unfolding program
stale_fails = refl

create_file-atomic_example : IsSameButAddress stale tight
create_file-atomic_example =
    create_file-atomic stale root_name (codes "d") dir stale-IsConsistent stale_fails

-- the letters i and l are left out
tenth_name : make_name 9 ≡ ok (codes "k")
unfolding make_name
tenth_name = refl

made_file : (Inode.set_type Inode.init file).ref_cnt ≡ pos 1
unfolding Inode.set_type
made_file = refl
