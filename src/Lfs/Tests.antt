-- ===== src/Lfs/Tests.antt =====
-- HW-LFS/lfs.py: runs at concrete inputs.
use cs334_operating_systems.Prelude.{
  position, ◌+◌, ◌/◌, ◌<◌, ◌≡◌, refl, ◌≢◌, ◌↔◌, true, false, some, List, [], ◌∷◌, arith, length,
  get_elem?, Fault, ok, raise, ok_or,
}
use cs334_operating_systems.Prelude.Int.{ℤ, pos, ◌+ℤ◌, ◌-ℤ◌}
use cs334_operating_systems.Prelude.Text.{codes, text_eq}
use cs334_operating_systems.Lfs.State.{
  directory, regular, not_a_dir, Lfs, make_inode, make_new_dirblock, log, remap, make_imap_chunk,
  write_chunk, update_imap, cr_sync, force, allocate_inode, allocate_random, free_inode, init,
}
use cs334_operating_systems.Lfs.Lookup.{
  get_inode_from_inumber, lookup_in, failed, walk_path, add_dir_entry,
}
use cs334_operating_systems.Lfs.Ops.{
  file_or_dir_create, file_create, dir_create, write_link, file_link, file_write, file_delete, sync,
  Command, create, mkdir, remove, link, write, execute, run,
}
use cs334_operating_systems.Lfs.Growth.{run-Keeps}
use cs334_operating_systems.Lfs.Paths.{walk_path-ne-not_a_dir}
use cs334_operating_systems.Lfs.Liveness.{determine_liveness, is_live}
use cs334_operating_systems.Lfs.Liveness.Reached.{Reached, determine_liveness-Reached}
use cs334_operating_systems.Lfs.Imap.Init.{run-disk_map}
use cs334_operating_systems.Lfs.Imap.Link.{write_link-new_inode}
use cs334_operating_systems.Lfs.Growth.Steps.{Keeps}

program : Unit {0}
unfolding init log make_new_dirblock make_inode remap make_imap_chunk update_imap write_chunk force
    allocate_inode free_inode get_inode_from_inumber lookup_in walk_path add_dir_entry
    file_or_dir_create file_create dir_create write_link file_link file_write file_delete execute
    run position text_eq cr_sync sync ◌+ℤ◌ ◌-ℤ◌
program = tt

abbrev start : Lfs
start = ok_or (init false false) (record {
  use_disk_cr = false;
  no_force_checkpoints = false;
  disk = [];
  cr = [];
  inode_map = [];
  error_list = [];
})

abbrev script : List Command
script =
    create (codes "/a")
    ∷ mkdir (codes "/d")
    ∷ write (codes "/a") (pos 6) (codes "x" ∷ codes "y" ∷ codes "z" ∷ [])
    ∷ link (codes "/a") (codes "/d/b")
    ∷ remove (codes "/a")
    ∷ create (codes "/q/r")
    ∷ []

abbrev after : Lfs
after = ok_or (run start script) start

run-script : run start script ≡ ok after
unfolding program
run-script = refl

-- 4 blocks of the start, 6 + 5 + 5 + 4 + 3 of the commands, and the failed ones write none
disk_after : length after.disk ≡ 25
unfolding program
disk_after = refl

run-Keeps_example : Keeps start after
run-Keeps_example = run-Keeps start after script run-script

walk_path-ne-not_a_dir_example : walk_path after (codes "/d/b") ≢ ok (failed not_a_dir)
walk_path-ne-not_a_dir_example = walk_path-ne-not_a_dir after (codes "/d/b")

-- a file below a file is no error but a failed assertion
below_a_file : walk_path after (codes "/d/b/c") ≡ raise Fault.assertion
unfolding program
below_a_file = refl

abbrev one_file : Lfs
one_file = ok_or (run start (create (codes "/a") ∷ [])) start

-- a link whose destination has no directory
link_nowhere : file_link one_file (codes "/a") (codes "/q/b") ≡ raise Fault.type_error
unfolding program
link_nowhere = refl

abbrev live_blocks : List ℤ
live_blocks = ok_or (determine_liveness one_file) []

one_file_live : determine_liveness one_file ≡ ok live_blocks
unfolding program determine_liveness
one_file_live = refl

determine_liveness-Reached_example : (is_live (pos 1) live_blocks ≡ true) ↔ Reached one_file (pos 1)
determine_liveness-Reached_example =
    determine_liveness-Reached one_file live_blocks (pos 1) one_file_live

-- the creation of /a moves the data of the root to block 4, and block 1 is dead
block_1_dead : is_live (pos 1) live_blocks ≡ false
unfolding program determine_liveness is_live
block_1_dead = refl

start_made : init false false ≡ ok start
unfolding program
start_made = refl

-- no link in it
abbrev plain_script : List Command
plain_script =
    create (codes "/a")
    ∷ mkdir (codes "/d")
    ∷ write (codes "/a") (pos 6) (codes "x" ∷ codes "y" ∷ codes "z" ∷ [])
    ∷ create (codes "/d/b")
    ∷ remove (codes "/a")
    ∷ []

abbrev plain_end : Lfs
plain_end = ok_or (run start plain_script) start

plain_run : run start plain_script ≡ ok plain_end
unfolding program
plain_run = refl

plain_forced : plain_end.no_force_checkpoints ≡ false
unfolding program
plain_forced = refl

-- the inode of /d/b
inode_3 : get_elem? plain_end.inode_map 3 ≡ some (pos 19)
unfolding program
inode_3 = refl

run-disk_map_example :
    get_inode_from_inumber (record plain_end { use_disk_cr = true }) (pos 3)
    ≡ get_inode_from_inumber (record plain_end { use_disk_cr = false }) (pos 3)
run-disk_map_example =
    run-disk_map false false plain_script start plain_end 3 (pos 19) start_made refl plain_run
      plain_forced inode_3 (λ e. absurd (cc))

-- a link below the root to inode 16, the first of the second chunk
abbrev linked : Lfs
linked =
    (ok_or
      (write_link start (pos 16) (make_inode regular 0 (pos 1)) (pos 0)
        (make_inode directory 1 (pos 2)) (0, 1, []))
      (pos 0, start)).1

link_done :
    write_link start
      (pos 16)
      (make_inode regular 0 (pos 1))
      (pos 0)
      (make_inode directory 1 (pos 2))
      (0, 1, [])
    ≡ ok (pos 0, linked)
unfolding program
link_done = refl

start_inodes : 16 < length start.inode_map
unfolding program
start_inodes = omega arith

write_link-new_inode_example :
    (get_elem? linked.inode_map 16 ≡ some (pos (length start.disk + 2)))
    × (get_elem? linked.cr (16 / 16) ≡ get_elem? start.cr (16 / 16))
write_link-new_inode_example =
    write_link-new_inode start linked (pos 0) 16 0 (make_inode regular 0 (pos 1))
      (make_inode directory 1 (pos 2)) (0, 1, []) (λ e. absurd (omega (arith, e))) start_inodes
      link_done

-- the root is drawn first, and then inode 5
random_inode :
    allocate_random start (256 ∷ 261 ∷ []) ≡ ok (some (pos 5, remap start (pos 5) (pos 1)))
unfolding program allocate_random
random_inode = refl
