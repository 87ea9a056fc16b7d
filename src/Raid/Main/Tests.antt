-- ===== src/Raid/Main/Tests.antt =====
-- HW-Raid/raid.py, the program: runs at concrete inputs.
use cs334_operating_systems.Prelude.{
  position, ℕ, ◌≤◌, ◌<◌, ◌≡◌, refl, ◌≢◌, true, List, arith, replicate, Fault, ok, raise,
}
use cs334_operating_systems.Prelude.Int.{pos, negsuc, ◌-ℤ◌}
use cs334_operating_systems.Prelude.Text.{codes, text_eq}
use cs334_operating_systems.Prelude.Parse.{int}
use cs334_operating_systems.Raid.Mapping.{left_symmetric, bmap5_full}
use cs334_operating_systems.Raid.Io.{
  Io, pieces, stripe_count, do_partial_write, write_pieces, enqueue45, raid5, Raid, ios, longest,
  go,
}
use cs334_operating_systems.Raid.Io.Cost.{has_write}
use cs334_operating_systems.Raid.Io.Bounds.{AllSound}
use cs334_operating_systems.Raid.Io.Requests.{ios-Written}
use cs334_operating_systems.Raid.Main.{convert, Options, Setup, set_up, Draw, request_all, main}
use cs334_operating_systems.Raid.Main.Runs.{main-ok}
use cs334_operating_systems.Raid.Disk

program : Unit {0}
unfolding convert text_eq int ◌-ℤ◌ position main set_up request_all Disk.init Disk.distance
    Disk.enqueue bmap5_full ios pieces stripe_count do_partial_write write_pieces enqueue45 longest
program = tt

kilobytes : convert (codes "12k") ≡ ok (pos 12288)
unfolding program
kilobytes = refl

negative_megabytes : convert (codes "-1M") ≡ ok (negsuc 1048575)
unfolding program
negative_megabytes = refl

no_size : convert (codes "") ≡ raise Fault.index_error
unfolding program
no_size = refl

no_number : convert (codes "4kk") ≡ raise Fault.value_error
unfolding program
no_number = refl

abbrev options : Options
options = record {
  num_disks = 4;
  chunk_bytes = 4096;
  size_bytes = 8192;
  workload = codes "seq";
  write_frac = pos 100;
  range = 10000;
  level = 5;
  raid5type = codes "LS";
}

abbrev array : Raid
array = record {
  chunk_size = 1;
  num_disks = 4;
  level = raid5;
  raid5type = left_symmetric;
  disks = replicate 4 Disk.init;
}

abbrev ready : Setup
ready = record { size = 2; is_sequential = true; raid = array }

accepted : set_up options ≡ ok ready
unfolding program
accepted = refl

abbrev draws : List Draw
draws = replicate 3 (record { address = 7; fraction = 50 })

main-ok_example : (r : Raid) × (main options draws ≡ ok (go r, r)) × AllSound r.disks
main-ok_example =
    main-ok options ready 10 draws accepted (omega arith) (omega arith) (omega arith) (omega arith)
      ((λ e. omega arith), (λ e. absurd (cc)))

ios-Written_example :
    (l : List Io) × (ios array 2 2 true ≡ ok l)
    × ((v : ℕ)
        → 2 ≤ v
        → v < 4
        → (disk pdisk off : ℕ) × (bmap5_full left_symmetric 1 4 v ≡ ok (disk, pdisk, off))
          × (disk ≢ pdisk)
          × (has_write disk off l ≡ true)
          × (has_write pdisk off l ≡ true))
ios-Written_example = ios-Written array 2 2 refl tt (omega arith) (omega arith) (omega arith)
