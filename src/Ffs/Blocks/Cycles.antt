-- ===== src/Ffs/Blocks/Cycles.antt =====
-- HW-FFS/ffs.py, class file_system: the cycles of the loop of allocate_blocks through the groups.
use native.Mathlib.Nat.{add-zero, mod-eq_of_lt}
use cs334_operating_systems.Prelude.{
  ℕ, ◌+◌, ◌-◌, ◌%◌, ◌≤◌, ◌<◌, ◌≡◌, sym, ap, ◌∙◌, ◌≢◌, inl, inr, true, none, arith, ltb, Bool-cases,
  length, ok,
}
use cs334_operating_systems.Prelude.DivMod.{mod_wrap, round_step, round_home, round_cover}
use cs334_operating_systems.Ffs.State.{Ffs, entry}
use cs334_operating_systems.Ffs.Grid.{Grid, free_total, free_place}
use cs334_operating_systems.Ffs.Blocks.{Scan, leaves_group, next_group}
use cs334_operating_systems.Ffs.Blocks.Running.{Searched, Running}

module _ (s : Ffs) (inum size target : ℕ) (b : Grid) where
  abbrev n : ℕ
  n = s.num_groups

  abbrev w : ℕ
  w = s.blocks_per_group

  module _ (target_inside : target < n) (enough : size ≤ free_total b) where
    -- a group is left at its end, unless places were taken in it
    at_end :
        (k a0 cycles : ℕ) (c : Scan)
        → Running s inum size target b k a0 cycles c
        → leaves_group s c ≡ true
        → length c.allocated ≡ a0
        → c.index ≡ w
    unfolding leaves_group
    at_end k a0 cycles c r leaves h =
        let none_here : c.allocated_in_group ≡ 0 = omega (arith, r.share, h) in ground arith

    -- all groups up to this one have been searched
    passed_group :
        (k a0 cycles : ℕ) (c : Scan)
        → Running s inum size target b k a0 cycles c
        → leaves_group s c ≡ true
        → Searched s inum size target b k a0 c
        → length c.allocated ≡ a0
        → (j i : ℕ) → j < k + 1
        → i < w
        → entry c.bitmap ((target + j) % n) i ≢ ok none
    passed_group k a0 cycles c r leaves f h j i hj hi = elim (Bool-cases (ltb j k)) [
      | inl before ↦ f.passed h j i (ground arith) hi
      | inr last ↦
          let same : j ≡ k = ground arith in
          rw (same, ← r.group) (f.here h i (omega (arith, at_end k a0 cycles c r leaves h)))
    ]

    pub onward :
        (k a0 cycles : ℕ) (c : Scan)
        → Running s inum size target b k a0 cycles c
        → leaves_group s c ≡ true
        → (c.current_group + 1) % n ≢ target
        → Running s inum size target b (k + 1) a0 cycles (next_group s target c)
    unfolding next_group
    onward k a0 cycles c r leaves away = record {
      taken = r.taken;
      group = following;
      inside = elim (Bool-cases (ltb (k + 1) n)) [
        | inl t ↦ ground arith
        | inr f ↦
            let last : k + 1 ≡ n = ground (arith, r.inside) in
            absurd (
              away (
                following
                ∙ mod_wrap (target + (k + 1)) target n target_inside (inr (omega (arith, last)))))
      ];
      column = omega arith;
      small = r.small;
      chunks = ground (arith, r.chunks);
      share = omega (arith, r.share);
      budget = elim r.budget [
        | inl e ↦ inl e
        | inr (e, f) ↦ inr (
          e,
          record {
            single = ground (arith, f.single);
            passed = λ h. passed_group k a0 cycles c r leaves f h;
            here = λ h i l. absurd (omega arith);
          },
        )
      ];
    }
      where
        following : (c.current_group + 1) % n ≡ (target + (k + 1)) % n
        following = ap (λ g. (g + 1) % n) r.group ∙ round_step target k n

    -- a whole cycle that takes nothing would have found every place in use
    progress :
        (k a0 cycles : ℕ) (c : Scan)
        → Running s inum size target b k a0 cycles c
        → leaves_group s c ≡ true
        → k + 1 ≡ n
        → length c.allocated < size
        → Searched s inum size target b k a0 c
        → length c.allocated ≢ a0
    progress k a0 cycles c r leaves end more f h =
        let (g, i, hg, hi, e) =
          free_place n w c.bitmap r.taken.shaped (omega (arith, r.taken.counted)) in
        let (j, hj, same) = round_cover target g n target_inside hg in
        passed_group k a0 cycles c r leaves f h j i (omega arith) hi (rw same e)

    pub spare_cycle :
        (k a0 cycles : ℕ) (c : Scan)
        → Running s inum size target b k a0 cycles c
        → length c.allocated < size
        → 0 < cycles
    spare_cycle k a0 cycles c r more = elim r.budget [
      | inl e ↦ omega (arith, r.share)
      | inr (e, f) ↦ omega (arith, r.share)
    ]

    pub wrap :
        (k a0 cycles : ℕ) (c : Scan)
        → Running s inum size target b k a0 cycles c
        → leaves_group s c ≡ true
        → (c.current_group + 1) % n ≡ target
        → length c.allocated < size
        → (k + 1 ≡ n)
          × (0 < cycles)
          × Running s inum size target b 0 (length c.allocated) (cycles - 1) (next_group s target c)
    unfolding next_group
    wrap k a0 cycles c r leaves home more = (
      last,
      spare,
      record {
        taken = r.taken;
        group = rw (add-zero target) (home ∙ sym (mod-eq_of_lt target_inside));
        inside = omega (arith, target_inside);
        column = omega arith;
        small = r.small;
        chunks = ground arith;
        share = omega arith;
        budget = inr (
          elim r.budget [
            | inl e ↦ omega (arith, r.share)
            | inr (e, f) ↦
                let some_taken = progress k a0 cycles c r leaves last more f in
                ground (arith, r.share)
          ],
          record {
            single = ground arith;
            passed = λ h j i l. absurd (omega arith);
            here = λ h i l. absurd (omega arith);
          },
        );
      },
    )
      where
        last : k + 1 ≡ n
        last =
            round_home target k n target_inside r.inside
              (sym (ap (λ g. (g + 1) % n) r.group ∙ round_step target k n) ∙ home)

        spare : 0 < cycles
        spare = spare_cycle k a0 cycles c r more
