-- ===== src/Ffs/Groups/Pick.antt =====
-- HW-FFS/ffs.py, class file_system: the groups that are picked.
use cs334_operating_systems.Prelude.{
  ℕ, zero, suc, ◌+◌, ◌*◌, ◌/◌, ◌%◌, ◌<◌, ◌≡◌, refl, sym, ap, ◌∙◌, ◌≢◌, inl, inr, Option, none, some,
  List, [], ◌∷◌, ◌++◌, arith, ◌==◌, Option-cases, get_elem?, Fault, ok, ok-injective, Ensures,
  Ensures-ok, Ensures-raise, Ensures-if, Ensures-bind, Ensures-bind_eq, lt-length_of_get,
}
use cs334_operating_systems.Prelude.DivMod.{mod_wrap}
use cs334_operating_systems.Ffs.State.{
  IType, regular, directory, deleted, Ffs, entry, get_free_count,
}
use cs334_operating_systems.Ffs.Grid.{IsShaped, free_total, free_row}
use cs334_operating_systems.Ffs.Groups.{
  get_free_inode_count, get_free_data_count, most, steps, range_by, find_free_inodes_in_range,
  find_most_free_inodes_multiple, pick_near_parent, pick_group, first_none, find_free_inode,
  find_min_data_usage,
}
use cs334_operating_systems.Ffs.Groups.Best.{most-Finds, get-range_by}
use cs334_operating_systems.Ffs.Groups.Near.{
  get_free_inode_count_inside, HasFree, find_free_inodes_near_lem,
}

get-range_by_inv :
    (c a step i g : ℕ) → get_elem? (range_by c a step) i ≡ some g → (i < c) × (g ≡ a + i * step)
unfolding range_by
get-range_by_inv zero a step i g h = cc
get-range_by_inv (suc c) a step zero g h = (omega arith, ground arith)
get-range_by_inv (suc c) a step (suc i) g h =
    let (l, e) = get-range_by_inv c (a + step) step i g h in
    let f : a + step + i * step ≡ a + suc i * step = grind arith in (omega arith, e ∙ f)

-- `first_none` finds a free place
first_none_lem :
    (k : ℕ) (row : List (Option ℕ))
    → 0 < get_free_count row
    → (i : ℕ) × (first_none k row ≡ some (k + i)) × (get_elem? row i ≡ some none)
unfolding first_none get_free_count
first_none_lem k [] h = elim h [ ]
first_none_lem k (none ∷ l) h = (0, ap some (omega arith), refl)
first_none_lem k (some x ∷ l) h =
    let (i, e, at) = first_none_lem (k + 1) l h in (suc i, e ∙ ap some (omega arith), at)

-- a free inode of a group that has one
pub find_free_inode_lem :
    (s : Ffs) (w g : ℕ)
    → IsShaped s.num_groups w s.inode_bitmap
    → HasFree s g
    → (i : ℕ) × (find_free_inode s g ≡ ok (some i)) × (i < w) × (entry s.inode_bitmap g i ≡ ok none)
unfolding find_free_inode get_free_inode_count entry
find_free_inode_lem s w g shaped (c, count, more) =
    elim (Option-cases (get_elem? s.inode_bitmap g)) [
      | inl n ↦ absurd (ground (arith, n, count))
      | inr (row, at) ↦
          let counted : get_free_count row ≡ c = ground (arith, at, count) in
          let (i, first, there) = first_none_lem 0 row (omega (arith, counted)) in
          (
            i,
            rw (at, first) (ap (λ x. ok (some x)) (omega arith)),
            omega (arith, lt-length_of_get row i none there, shaped.wide g row at),
            rw (at, there) refl,
          )
    ]

module _ (s : Ffs) (w : ℕ) (shaped : IsShaped s.num_groups w s.inode_bitmap) where
  abbrev IsPicked : ℕ → Type 0
  IsPicked g = (g < s.num_groups) × HasFree s g

  abbrev starts : List ℕ
  starts = range_by (steps 0 s.num_groups 1) 0 1 ++ range_by (steps 0 0 1) 0 1

  append_nil : (l : List ℕ) → l ++ [] ≡ l
  append_nil [] = refl
  append_nil (x ∷ l) = ap (◌∷◌ x) (append_nil l)

  start_inside : (i g : ℕ) → get_elem? starts i ≡ some g → g < s.num_groups
  unfolding range_by
  start_inside i g h =
      let plain : starts ≡ range_by (steps 0 s.num_groups 1) 0 1 =
        append_nil (range_by (steps 0 s.num_groups 1) 0 1) in
      let (l, e) =
        get-range_by_inv (steps 0 s.num_groups 1) 0 1 i g
          (ap (λ x. get_elem? x i) (sym plain) ∙ h) in
      omega (arith, l, e)

  -- one group at a time, the count of the range is the count of the group
  one_group :
      (g m : ℕ) → g < s.num_groups → 0 < m → find_free_inodes_in_range s g 1 ≡ ok m → HasFree s g
  unfolding find_free_inodes_in_range
  one_group g m hg hm h =
      let (c, count) = get_free_inode_count_inside s w g shaped hg in
      let round : g % s.num_groups ≡ g = mod_wrap g g s.num_groups hg (inl refl) in
      let same : c + 0 ≡ m = ok-injective (sym (rw (round, count) refl) ∙ h) in
      (c, count, omega (arith, same))

  most_free-IsPicked : Ensures IsPicked (find_most_free_inodes_multiple s 0 1)
  unfolding find_most_free_inodes_multiple
  most_free-IsPicked =
      Ensures-bind (most (λ a. find_free_inodes_in_range s a 1) starts 0 none) _
        (most-Finds (λ a. find_free_inodes_in_range s a 1) starts 0 none)
        λ r f. record {
          at = λ a ea. elim f.chosen [
            | inl same ↦ absurd (ground (arith, ap (λ p. p.1) same))
            | inr (i, g, there, at, c, more) ↦
                let equal : g ≡ a = ground arith in
                let inside = start_inside i g there in
                rw (← equal) (inside, one_group g r.0 inside more c)
          ];
        }

  near_parent-IsPicked :
      (parent_inum : ℕ)
      → parent_inum / s.inodes_per_group < s.num_groups
      → 0 < free_total s.inode_bitmap
      → Ensures IsPicked (pick_near_parent s parent_inum)
  unfolding pick_near_parent
  near_parent-IsPicked p inside some_free =
      let t = p / s.inodes_per_group in
      Ensures-bind_eq (get_free_inode_count s t) _ λ c count.
        Ensures-if (c == 0) _ _
          (λ full.
            let (g, row, at, more) = free_row s.inode_bitmap some_free in
            let counted : get_free_inode_count s g ≡ ok (get_free_count row) =
              unfold get_free_inode_count in rw at refl in
            let away : g ≢ t = λ same.
              let equal : get_free_count row ≡ c =
                ok-injective (sym counted ∙ ap (get_free_inode_count s) same ∙ count) in
              ground arith in
            let (h, found, hh, free) =
              find_free_inodes_near_lem s w t g shaped inside
                (omega (arith, lt-length_of_get s.inode_bitmap g row at, shaped.rows)) away
                (get_free_count row, counted, more) in
            rw found (Ensures-ok (hh, free)))
          (λ some_here. Ensures-ok (inside, (c, count, ground arith)))

  -- With `allocate_faraway` at 1 the group that is picked has a free inode, if any group has.
  pub pick_group-HasFree :
      (parent_inum : ℕ) (itype : IType)
      → s.allocate_faraway ≡ 1
      → parent_inum / s.inodes_per_group < s.num_groups
      → 0 < free_total s.inode_bitmap
      → Ensures (λ g. (g < s.num_groups) × HasFree s g) (pick_group s parent_inum itype)
  unfolding pick_group
  pick_group-HasFree p directory far inside some_free = rw far most_free-IsPicked
  pick_group-HasFree p regular far inside some_free =
      Ensures-if s.spread_inodes _ _ (λ _. rw far most_free-IsPicked)
        (λ _. near_parent-IsPicked p inside some_free)
  pick_group-HasFree p deleted far inside some_free =
      Ensures-if s.spread_inodes _ _ (λ _. rw far most_free-IsPicked)
        (λ _. Ensures-raise Fault.exit)

-- Where a block is free, `find_min_data_usage` returns a group that has one.
pub find_min_data_usage_lem :
    (s : Ffs) (w : ℕ)
    → IsShaped s.num_groups w s.data_bitmap
    → 0 < free_total s.data_bitmap
    → Ensures (λ r. (g : ℕ) × (r ≡ some g) × (g < s.num_groups)) (find_min_data_usage s)
unfolding find_min_data_usage
find_min_data_usage_lem s w shaped some_free =
    Ensures-bind (most (get_free_data_count s) (range_by s.num_groups 0 1) 0 none) _
      (most-Finds (get_free_data_count s) (range_by s.num_groups 0 1) 0 none)
      λ r f. Ensures-ok (elim f.chosen [
        | inl same ↦
            let (g, row, at, more) = free_row s.data_bitmap some_free in
            let counted : get_free_data_count s g ≡ ok (get_free_count row) =
              unfold get_free_data_count in rw at refl in
            let there : get_elem? (range_by s.num_groups 0 1) g ≡ some g =
              get-range_by s.num_groups 0 1 g
                (omega (arith, lt-length_of_get s.data_bitmap g row at, shaped.rows))
              ∙ ap some (omega arith) in
            let best : r.0 ≡ 0 = ap (λ p. p.0) same in
            absurd (omega (arith, f.covers g g (get_free_count row) there counted, best))
        | inr (i, g, there, at, c, more) ↦
            let (l, e) = get-range_by_inv s.num_groups 0 1 i g there in (g, at, omega (arith, l, e))
      ])
