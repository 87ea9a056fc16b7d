-- ===== src/Ffs/Blocks/Running.antt =====
-- HW-FFS/ffs.py, class file_system: the state of the loop of allocate_blocks between its rounds.
use cs334_operating_systems.Prelude.{
  ℕ, ◌+◌, ◌%◌, ◌≤◌, ◌<◌, ◌≡◌, refl, ◌≢◌, ◌⊎◌, inl, inr, none, [], ◌∷◌, ◌++◌, arith, ltb, Bool-cases,
  length, length-append, ok,
}
use cs334_operating_systems.Prelude.DivMod.{mod-lt_pos}
use cs334_operating_systems.Ffs.State.{Ffs, entry, used}
use cs334_operating_systems.Ffs.Grid.{Grid, free_total}
use cs334_operating_systems.Ffs.Blocks.{Scan, take_place}
use cs334_operating_systems.Ffs.Blocks.Places.{Taken, Taken-one, take_place-cases}

module _ (s : Ffs) (inum size target : ℕ) (b : Grid) where
  abbrev n : ℕ
  n = s.num_groups

  abbrev w : ℕ
  w = s.blocks_per_group

  -- In the cycle that began with `a0` places, in its `k`-th group: as long as no place has been
  -- taken in the cycle, what has been passed is in use.
  pub record Searched (k a0 : ℕ) (c : Scan) : Type 0 where
    pub single : c.chunks_free ≡ 1
    pub passed :
        length c.allocated ≡ a0
        → (j i : ℕ) → j < k
        → i < w
        → entry c.bitmap ((target + j) % n) i ≢ ok none
    pub here :
        length c.allocated ≡ a0 → (i : ℕ) → i < c.index → entry c.bitmap c.current_group i ≢ ok none

  -- `cycles` more cycles are enough; the first one may take nothing
  pub record Running (k a0 cycles : ℕ) (c : Scan) : Type 0 where
    pub taken : Taken n w b inum c.bitmap c.allocated
    pub group : c.current_group ≡ (target + k) % n
    pub inside : k < n
    pub column : c.index ≤ w
    pub small : length c.allocated ≤ size
    pub chunks : 0 < c.chunks_free
    pub share : c.allocated_in_group + a0 ≤ length c.allocated
    pub budget : (size + 1 ≤ a0 + cycles) ⊎ ((size ≤ a0 + cycles) × Searched k a0 c)

  module _ (target_inside : target < n) (enough : size ≤ free_total b) where
    group_inside : (k a0 cycles : ℕ) (c : Scan) → Running k a0 cycles c → c.current_group < n
    group_inside k a0 cycles c r = omega (arith, r.group, mod-lt_pos (target + k) n (omega arith))

    -- the state behind a round, before the tests at its end
    pub round :
        (k a0 cycles : ℕ) (c : Scan)
        → Running k a0 cycles c
        → c.index < w
        → length c.allocated < size
        → (d : Scan) × (take_place s inum size c ≡ ok d)
          × (d.index ≡ c.index)
          × Running k a0 cycles (record d { index = d.index + 1 })
    round k a0 cycles c r hi more =
        elim (take_place-cases s inum size c r.taken.shaped (group_inside k a0 cycles c r) hi more
          r.chunks) [
            | inl (b', takes, run) ↦ (
              _,
              run,
              refl,
              record {
                taken =
                    Taken-one n w b inum c.bitmap c.allocated c.current_group c.index b' r.taken
                      (group_inside k a0 cycles c r) hi takes;
                group = r.group;
                inside = r.inside;
                column = omega arith;
                small = omega (arith, grown c);
                chunks = r.chunks;
                share = omega (arith, grown c, r.share);
                budget = elim r.budget [
                  | inl e ↦ inl e
                  | inr (e, f) ↦ inr (
                    e,
                    record {
                      single = f.single;
                      passed = λ h. absurd (omega (arith, grown c, r.share, h));
                      here = λ h. absurd (omega (arith, grown c, r.share, h));
                    },
                  )
                ];
              },
            )
            | inr (run, used) ↦ (
              c,
              run,
              refl,
              record {
                taken = r.taken;
                group = r.group;
                inside = r.inside;
                column = omega arith;
                small = r.small;
                chunks = r.chunks;
                share = r.share;
                budget = elim r.budget [
                  | inl e ↦ inl e
                  | inr (e, f) ↦ inr (
                    e,
                    record {
                      single = f.single;
                      passed = f.passed;
                      here = λ h i l. elim (Bool-cases (ltb i c.index)) [
                        | inl before ↦ f.here h i (ground arith)
                        | inr last ↦
                            let same : c.index ≡ i = ground arith in rw (← same) (used f.single)
                      ];
                    },
                  )
                ];
              },
            )
          ]
      where
        grown :
            (c : Scan)
            → length (c.allocated ++ (c.current_group, c.index) ∷ []) ≡ length c.allocated + 1
        grown c = length-append c.allocated ((c.current_group, c.index) ∷ [])
