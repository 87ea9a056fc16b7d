-- ===== src/Ffs/Groups/Near.antt =====
-- HW-FFS/ffs.py, class file_system: find_free_inodes_near, on both sides in turn.
use native.Mathlib.Nat.{mod-add-mod, add-mod_right}
use cs334_operating_systems.Prelude.{
  ℕ, zero, suc, ◌+◌, ◌-◌, ◌%◌, ◌≤◌, ◌<◌, ◌≡◌, refl, sym, ap, ◌∙◌, ◌≢◌, inl, inr, false, arith, ltb,
  leb, ◌==◌, Bool-cases, ok, ok-injective, get_of_lt-length,
}
use cs334_operating_systems.Prelude.DivMod.{mod-lt_pos, mod_wrap, round_step, round_cover}
use cs334_operating_systems.Ffs.State.{Ffs, get_free_count}
use cs334_operating_systems.Ffs.Grid.{IsShaped}
use cs334_operating_systems.Ffs.Groups.{
  get_free_inode_count, before, after, near, find_free_inodes_near,
}

-- the free inodes of a group can be counted
pub get_free_inode_count_inside :
    (s : Ffs) (w g : ℕ)
    → IsShaped s.num_groups w s.inode_bitmap
    → g < s.num_groups
    → (c : ℕ) × (get_free_inode_count s g ≡ ok c)
unfolding get_free_inode_count
get_free_inode_count_inside s w g shaped h =
    let (row, at) = get_of_lt-length s.inode_bitmap g (omega (arith, shaped.rows)) in
    (get_free_count row, rw at refl)

-- a group with a free inode
abbrev pub HasFree : Ffs → ℕ → Type 0
HasFree s g = (c : ℕ) × (get_free_inode_count s g ≡ ok c) × (0 < c)

module _ (s : Ffs) (w target : ℕ) (shaped : IsShaped s.num_groups w s.inode_bitmap)
    (inside : target < s.num_groups) where
  abbrev n : ℕ
  n = s.num_groups

  up_step : (g k : ℕ) → g ≡ (target + k) % n → after s g ≡ (target + (k + 1)) % n
  up_step g k e = ap (λ x. (x + 1) % n) e ∙ round_step target k n

  down_step : (g k : ℕ) → 0 < k → g ≡ (target + k) % n → before s g ≡ (target + (k - 1)) % n
  down_step g k h e =
      ap (λ x. (x + (n - 1)) % n) e
      ∙ mod-add-mod (target + k) n (n - 1)
      ∙ ap (λ x. x % n)
          (let sum : target + k + (n - 1) ≡ target + (k - 1) + n = omega (arith, inside) in sum)
      ∙ add-mod_right (target + (k - 1)) n

  -- Of the offsets from the target those from `lo` to `hi` are left, a group for each of `m` rounds.
  near_lem :
      (m i lo hi grower shrinker j : ℕ)
      → lo + m ≡ hi + 1
      → grower ≡ (target + lo) % n
      → shrinker ≡ (target + hi) % n
      → lo ≤ j
      → j ≤ hi
      → 0 < lo
      → HasFree s ((target + j) % n)
      → (g : ℕ) × (near s m i grower shrinker ≡ ok g) × (g < n) × HasFree s g
  unfolding near
  near_lem zero i lo hi grower shrinker j e up down lj jh hlo free = absurd (omega (arith, e))
  near_lem (suc m) i lo hi grower shrinker j e up down lj jh hlo free =
      elim (Bool-cases (i % 2 == 0)) [
        | inl even ↦
            let (c, count) =
              get_free_inode_count_inside s w grower shaped
                (omega (arith, up, mod-lt_pos (target + lo) n (omega (arith, inside)))) in
            elim (Bool-cases (leb 1 c)) [
              | inl some_free ↦ (
                grower,
                rw (even, count, some_free) refl,
                omega (arith, up, mod-lt_pos (target + lo) n (omega (arith, inside))),
                (c, count, ground arith),
              )
              | inr full ↦
                  let other : j ≢ lo =
                    λ same. absurd (no_free grower c j lo count full up same free) in
                  rw (even, count, full)
                    (near_lem m (i + 1) (lo + 1) hi (after s grower) shrinker j (omega (arith, e))
                      (up_step grower lo up) down (ground arith) jh (omega arith) free)
            ]
        | inr odd ↦
            let (c, count) =
              get_free_inode_count_inside s w shrinker shaped
                (omega (arith, down, mod-lt_pos (target + hi) n (omega (arith, inside)))) in
            elim (Bool-cases (leb 1 c)) [
              | inl some_free ↦ (
                shrinker,
                rw (odd, count, some_free) refl,
                omega (arith, down, mod-lt_pos (target + hi) n (omega (arith, inside))),
                (c, count, ground arith),
              )
              | inr full ↦
                  let other : j ≢ hi =
                    λ same. absurd (no_free shrinker c j hi count full down same free) in
                  rw (odd, count, full)
                    (near_lem m (i + 1) lo (hi - 1) grower (before s shrinker) j (omega (arith, e))
                      up (down_step shrinker hi (omega arith) down) lj (ground arith) hlo free)
            ]
      ]
    where
      no_free :
          (g c j k : ℕ)
          → get_free_inode_count s g ≡ ok c
          → leb 1 c ≡ false
          → g ≡ (target + k) % n
          → j ≡ k
          → HasFree s ((target + j) % n)
          → ⊥
      no_free g c j k count full at same (d, found, more) =
          let place : (target + j) % n ≡ g = ap (λ x. (target + x) % n) same ∙ sym at in
          let equal : c ≡ d =
            ok-injective (sym count ∙ ap (get_free_inode_count s) (sym place) ∙ found) in
          ground arith

-- When a group other than the target has a free inode, the search returns a group that has one.
pub find_free_inodes_near_lem :
    (s : Ffs) (w target g : ℕ)
    → IsShaped s.num_groups w s.inode_bitmap
    → target < s.num_groups
    → g < s.num_groups
    → g ≢ target
    → HasFree s g
    → (h : ℕ) × (find_free_inodes_near s target ≡ ok h) × (h < s.num_groups) × HasFree s h
unfolding find_free_inodes_near
find_free_inodes_near_lem s w target g shaped inside hg away free =
    let n = s.num_groups in
    let (j, hj, same) = round_cover target g n inside hg in
    let offset : 0 < j = elim (Bool-cases (ltb 0 j)) [
      | inl t ↦ ground arith
      | inr f ↦
          let zero_j : j ≡ 0 = ground arith in
          absurd (
            away (
              sym same
              ∙ ap (λ x. (target + x) % n) zero_j
              ∙ mod_wrap (target + 0) target n inside (inl (omega arith))))
    ] in
    near_lem s w target shaped inside (n - 1) 0 1 (n - 1) (after s target) (before s target) j
      (omega (arith, inside)) refl
      (ap (λ x. x % n) (let e : target + (n - 1) ≡ target + (n - 1) = refl in e)) offset
      (omega (arith, hj)) (omega arith) (rw same free)
