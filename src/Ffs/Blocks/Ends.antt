-- ===== src/Ffs/Blocks/Ends.antt =====
-- HW-FFS/ffs.py, class file_system: the end of the loop of allocate_blocks.
use native.Mathlib.Nat.{add-zero, mod-eq_of_lt}
use cs334_operating_systems.Prelude.{
  ℕ, zero, suc, ◌+◌, ◌-◌, ◌*◌, ◌%◌, ◌≤◌, ◌<◌, ◌≡◌, refl, sym, inl, inr, true, false, Option, some,
  arith, ◌==◌, Bool-cases, length, Result, ok,
}
use cs334_operating_systems.Prelude.Int.{pos, leb_ℤ}
use cs334_operating_systems.Prelude.DivMod.{lt-mul_of_row}
use cs334_operating_systems.Ffs.State.{Ffs}
use cs334_operating_systems.Ffs.Grid.{Grid, IsShaped, free_total, free_place}
use cs334_operating_systems.Ffs.Blocks.{
  Scan, leaves_group, next_group, allocate_from, rounds, first_scan, allocate_blocks,
}
use cs334_operating_systems.Ffs.Blocks.Places.{Taken, Taken-none}
use cs334_operating_systems.Ffs.Blocks.Running.{Running, round}
use cs334_operating_systems.Ffs.Blocks.Cycles.{onward, spare_cycle, wrap}

le-mul_pos : (c x : ℕ) → 0 < c → x ≤ c * x
le-mul_pos c x h =
    let (m, e) : (m : ℕ) × (c ≡ m + 1) = (c - 1, omega arith) in
    let f : c * x ≡ m * x + x = rw e (grind arith) in omega (arith, f)

module _ (s : Ffs) (inum size target : ℕ) (b : Grid) where
  abbrev n : ℕ
  n = s.num_groups

  abbrev w : ℕ
  w = s.blocks_per_group

  -- what the loop returns
  abbrev Ended : Result (Option Scan) → Type 0
  Ended r =
      (d : Scan) × (r ≡ ok (some d))
      × (length d.allocated ≡ size)
      × Taken n w b inum d.bitmap d.allocated

  module _ (target_inside : target < n) (enough : size ≤ free_total b) where
    stays_inside : (c : Scan) → c.index ≤ w → leaves_group s c ≡ false → c.index < w
    unfolding leaves_group
    stays_inside c h stays = ground arith

    onward_fuel :
        (fuel k cycles index : ℕ)
        → index < w
        → cycles * (n * w) ≤ suc fuel + (k * w + index)
        → cycles * (n * w) ≤ fuel + ((k + 1) * w + 0)
    onward_fuel fuel k cycles index hi h =
        let row : (k + 1) * w ≡ k * w + w = grind arith in omega (arith, row)

    wrap_fuel :
        (fuel k cycles index : ℕ)
        → k + 1 ≡ n
        → 0 < cycles
        → index < w
        → cycles * (n * w) ≤ suc fuel + (k * w + index)
        → (cycles - 1) * (n * w) ≤ fuel + (0 * w + 0)
    wrap_fuel fuel k cycles index last spare hi h =
        let (m, e) : (m : ℕ) × (cycles ≡ m + 1) = (cycles - 1, omega arith) in
        let less : cycles - 1 ≡ m = omega (arith, e) in
        let product : cycles * (n * w) ≡ m * (n * w) + n * w = rw e (grind arith) in
        let rows : n * w ≡ k * w + w = rw (← last) (grind arith) in
        rw less (omega (arith, product, rows))

    -- by induction on the fuel, which covers the cycles that are left
    runs :
        (fuel k a0 cycles : ℕ) (c : Scan)
        → Running s inum size target b k a0 cycles c
        → c.index < w
        → length c.allocated < size
        → cycles * (n * w) ≤ fuel + (k * w + c.index)
        → Ended (allocate_from s inum size target fuel c)
    unfolding allocate_from next_group
    runs zero k a0 cycles c r hi more h = absurd (
        omega (
          arith,
          lt-mul_of_row k c.index n w r.inside hi,
          le-mul_pos cycles (n * w)
              (spare_cycle s inum size target b target_inside enough k a0 cycles c r more),
          h,
        ))
    runs (suc fuel) k a0 cycles c r hi more h =
        let (d, run, at, q) =
          round s inum size target b target_inside enough k a0 cycles c r hi more in
        let e = record d { index = d.index + 1 } in
        rw run (elim (Bool-cases (length d.allocated == size)) [
          | inl done ↦ (e, rw done refl, ground arith, q.taken)
          | inr open_yet ↦
              let small : length d.allocated < size = ground (arith, q.small) in
              rw open_yet (elim (Bool-cases (leaves_group s e)) [
                | inr stays ↦ rw stays (
                    runs fuel k a0 cycles e q (stays_inside e q.column stays) small
                      (omega (arith, at, h)))
                | inl leaves ↦ rw leaves (elim (Bool-cases ((d.current_group + 1) % n == target)) [
                  | inl home ↦
                      let (last, spare, again) =
                        wrap s inum size target b target_inside enough k a0 cycles e q leaves
                          (ground arith) small in
                      runs fuel 0 (length d.allocated) (cycles - 1) (next_group s target e) again
                        (omega (arith, hi)) small (wrap_fuel fuel k cycles c.index last spare hi h)
                  | inr away ↦
                      runs fuel (k + 1) a0 cycles (next_group s target e)
                        (onward s inum size target b target_inside enough k a0 cycles e q leaves
                          (λ eq. ground arith))
                        (omega (arith, hi)) small (onward_fuel fuel k cycles c.index hi h)
                ])
              ])
        ])

-- On a bitmap of the right shape with a sound count of its free blocks, with
-- `contig_allocation_policy` above 0 and a target group in range: asked for at least one block and at
-- most as many as are free, `allocate_blocks` ends with exactly that many places, all different, each
-- inside the bitmap, free before and now marked with the inode's number; every other place of the
-- bitmap is as it was. The large-file exception may be any number.
pub allocate_blocks_lem :
    (s : Ffs) (target size inum : ℕ)
    → IsShaped s.num_groups s.blocks_per_group s.data_bitmap
    → s.total_data_free ≡ pos (free_total s.data_bitmap)
    → target < s.num_groups
    → 0 < s.contig_allocation_policy
    → 0 < size
    → size ≤ free_total s.data_bitmap
    → (d : Scan) × (allocate_blocks s target size inum ≡ ok (some d))
      × (length d.allocated ≡ size)
      × Taken s.num_groups s.blocks_per_group s.data_bitmap inum d.bitmap d.allocated
unfolding allocate_blocks
allocate_blocks_lem s target size inum shaped total inside chunks pos_size enough =
    let b = s.data_bitmap in
    let (g, i, hg, hi, e) =
      free_place s.num_groups s.blocks_per_group b shaped (omega (arith, enough)) in
    let room : leb_ℤ (pos size) s.total_data_free ≡ true = rw total (ground (arith, enough)) in
    let first : Running s inum size target b 0 0 (size + 1) (first_scan s target) = record {
      taken = Taken-none s.num_groups s.blocks_per_group b inum shaped;
      group = rw (add-zero target) (sym (mod-eq_of_lt inside));
      inside = omega (arith, inside);
      column = omega arith;
      small = omega arith;
      chunks = chunks;
      share = omega arith;
      budget = inl (omega arith);
    } in
    let loop : Ended s inum size target b
        (allocate_from s inum size target (rounds s size) (first_scan s target)) =
      runs s inum size target b inside enough (rounds s size) 0 0 (size + 1) (first_scan s target)
        first (omega (arith, hi)) pos_size (omega arith) in
    rw room loop
