-- ===== src/Raid/Tests.antt =====
-- HW-Raid/raid.py: runs at concrete inputs.
use cs334_operating_systems.Prelude.{
  ℕ, ◌+◌, ◌*◌, ◌/◌, ◌%◌, ◌≤◌, ◌<◌, ◌≡◌, refl, ap, ◌≢◌, true, List, [], ◌∷◌, arith, length, Result,
  ok, ok_or,
}
use cs334_operating_systems.Raid.Mapping.{
  bmap0, bmap1, bmap4, pmap4, left_symmetric, left_asymmetric, bmap5_full, bmap5, pmap5,
}
use cs334_operating_systems.Raid.Mapping.Striping.{
  unstripe, bmap0_bijective, bmap1_mirrors, bmap4_bijective,
}
use cs334_operating_systems.Raid.Mapping.Rotated.{unrotate, bmap5_full_lem, pmap5-bmap5}
use cs334_operating_systems.Raid.Io.{
  Io, read, write, span, enqueue0, enqueue1, note_off, pieces, stripe_count, places,
  do_partial_write, write_pieces, enqueue45,
}
use cs334_operating_systems.Raid.Io.Pieces.{Covers, pieces-Covers}
use cs334_operating_systems.Raid.Io.Cost.{do_partial_write_cost, has_write, do_partial_write_parity}
use cs334_operating_systems.Raid.Disk
use cs334_operating_systems.Raid.Disk.{Disk}
use cs334_operating_systems.Raid.Disk.Laws

program : Unit {0}
unfolding bmap0 bmap1 bmap4 pmap4 bmap5_full bmap5 pmap5 Disk.init Disk.distance Disk.enqueue
    Laws.enqueue_all span enqueue0 enqueue1 note_off places do_partial_write pieces stripe_count
    write_pieces enqueue45
program = tt

bmap0_bijective_example :
    ((b : ℕ) → ((bmap0 2 3 b).0 < 3) × (unstripe 2 3 (bmap0 2 3 b).0 (bmap0 2 3 b).1 ≡ b))
    × ((disk off : ℕ) → disk < 3 → bmap0 2 3 (unstripe 2 3 disk off) ≡ (disk, off))
bmap0_bijective_example = bmap0_bijective 2 3 (omega arith) (omega arith)

bmap1_mirrors_example :
    let (disk1, disk2, off) = bmap1 2 4 7 in
    (disk1 < 4)
    × (disk2 < 4)
    × (disk2 ≡ disk1 + 1)
    × (unstripe 2 2 (disk1 / 2) off ≡ 7)
    × (unstripe 2 2 (disk2 / 2) off ≡ 7)
bmap1_mirrors_example = bmap1_mirrors 2 4 (omega arith) (omega arith) (omega arith) 7

bmap4_bijective_example :
    ((b : ℕ)
      → ((bmap4 2 4 b).0 < pmap4 2 4 1)
        × (pmap4 2 4 1 < 4)
        × (unstripe 2 3 (bmap4 2 4 b).0 (bmap4 2 4 b).1 ≡ b))
    × ((disk off : ℕ) → disk < 3 → bmap4 2 4 (unstripe 2 3 disk off) ≡ (disk, off))
bmap4_bijective_example = bmap4_bijective 2 4 1 (omega arith) (omega arith)

bmap5_full_lem_example :
    (disk pdisk off : ℕ) × (bmap5_full left_symmetric 1 4 7 ≡ ok (disk, pdisk, off))
    × (disk < 4)
    × (pdisk < 4)
    × (disk ≢ pdisk)
    × (unrotate left_symmetric 1 4 disk off ≡ 7)
bmap5_full_lem_example = bmap5_full_lem left_symmetric 1 4 tt (omega arith) (omega arith) 7

-- block 7 of README-raid's example: row 2, next to the parity on disk 1
bmap5_runs : bmap5_full left_symmetric 1 4 7 ≡ ok (3, 1, 2)
unfolding program
bmap5_runs = refl

pmap5-bmap5_example :
    (disk pdisk off : ℕ) × (bmap5_full left_asymmetric 2 4 (3 * 6 + 4) ≡ ok (disk, pdisk, off))
    × (pmap5 left_asymmetric 2 4 3 ≡ ok pdisk)
pmap5-bmap5_example =
    pmap5-bmap5 left_asymmetric 2 4 3 4 tt (omega arith) (omega arith) (omega arith)

pieces-Covers_example : Covers 3 1 5 12 (pieces 3 (stripe_count 3 5 7) 1 7 5)
pieces-Covers_example = pieces-Covers 3 5 7 (omega arith) (omega arith)

abbrev four : ℕ → Result (ℕ × ℕ)
four b = ok (bmap4 1 4 b)

abbrev parity : ℕ → Result ℕ
parity s = ok (pmap4 1 4 s)

row_one : (v : ℕ) → 1 * 3 ≤ v → v < 1 * 3 + 3 → (d : ℕ) × (four v ≡ ok (d, 1))
unfolding bmap4
row_one v lo hi =
    let e : v / 1 / 3 * 1 + v % 1 ≡ 1 = omega arith in
    (v / 1 % 3, ap (λ (x : ℕ). ok (v / 1 % 3, x)) e)

do_partial_write_cost_example :
    (l : List Io) × (do_partial_write four parity 3 1 4 5 ≡ ok l) × (length l ≡ 4)
do_partial_write_cost_example =
    do_partial_write_cost four parity 3 1 1 row_one 4 5 3 (omega arith) (omega arith) (omega arith)
      (unfold pmap4 in refl)

abbrev update_one : List Io
update_one = read 1 1 ∷ read 3 1 ∷ write 1 1 ∷ write 3 1 ∷ []

update_runs : do_partial_write four parity 3 1 4 5 ≡ ok update_one
unfolding program
update_runs = refl

do_partial_write_parity_example :
    (has_write 1 1 update_one ≡ true) × (has_write 3 1 update_one ≡ true)
do_partial_write_parity_example =
    do_partial_write_parity four parity 3 1 4 5 3 update_one update_runs (unfold pmap4 in refl) 4 1
      1 (omega arith) (omega arith) (unfold bmap4 in refl)

abbrev served : Disk
served = ok_or (Laws.enqueue_all Disk.init (0 ∷ 1 ∷ 5 ∷ 900 ∷ [])) Disk.init

served_runs : Laws.enqueue_all Disk.init (0 ∷ 1 ∷ 5 ∷ 900 ∷ []) ≡ ok served
unfolding program
served_runs = refl

enqueue_all-init_example :
    (served.count_seq + served.count_nseq + served.count_rand ≡ served.count_io)
    × (served.count_seq + 101 * served.count_rand ≤ Disk.go served)
    × (Disk.go served ≤ served.count_seq + 99 * served.count_nseq + 101 * served.count_rand)
enqueue_all-init_example = Laws.enqueue_all-init (0 ∷ 1 ∷ 5 ∷ 900 ∷ []) served_runs
