-- ===== src/Ffs/Groups/Best.antt =====
-- HW-FFS/ffs.py, class file_system: find_most_free_inodes_multiple.
use cs334_operating_systems.Prelude.{
  ℕ, zero, suc, ◌+◌, ◌*◌, ◌≤◌, ◌<◌, ◌≡◌, refl, sym, ap, ◌∙◌, ◌⊎◌, inl, inr, Option, none, some,
  List, [], ◌∷◌, ◌++◌, arith, leb, ◌==◌, get_elem?, Fault, Result, ok, or_raise, ok-injective,
  Ensures, Ensures-ok, Ensures-raise, Ensures-if, Ensures-bind, Ensures-bind_eq,
}
use cs334_operating_systems.Ffs.State.{Ffs}
use cs334_operating_systems.Ffs.Groups.{
  most, steps, range_by, find_free_inodes_in_range, find_most_free_inodes_multiple,
}

module _ (count : ℕ → Result ℕ) where
  -- what the loop over `l` makes of `best` and `target`
  pub record Finds (l : List ℕ) (best : ℕ) (target : Option ℕ) (r : ℕ × Option ℕ) : Type 0 where
    pub grows : best ≤ r.0
    pub covers : (i g n : ℕ) → get_elem? l i ≡ some g → count g ≡ ok n → n ≤ r.0
    pub chosen :
        (r ≡ (best, target))
        ⊎ ((i g : ℕ) × (get_elem? l i ≡ some g)
            × (r.1 ≡ some g)
            × (count g ≡ ok r.0)
            × (best < r.0))

  skip :
      (g n : ℕ) (l : List ℕ) (best : ℕ) (target : Option ℕ) {r : ℕ × Option ℕ}
      → count g ≡ ok n
      → n ≤ best
      → Finds l best target r
      → Finds (g ∷ l) best target r
  skip g n l best target {r} e small f = record {
    grows = f.grows;
    covers = covered;
    chosen = elim f.chosen [
      | inl same ↦ inl same
      | inr (i, h, there, at, c, more) ↦ inr (suc i, h, there, at, c, more)
    ];
  }
    where
      covered : (i h k : ℕ) → get_elem? (g ∷ l) i ≡ some h → count h ≡ ok k → k ≤ r.0
      covered zero h k at c =
          let same : g ≡ h = ground (arith, at) in
          let equal : n ≡ k = ok-injective (sym e ∙ ap count same ∙ c) in omega (arith, f.grows)
      covered (suc i) h k at c = f.covers i h k at c

  update :
      (g n : ℕ) (l : List ℕ) (best : ℕ) (target : Option ℕ) {r : ℕ × Option ℕ}
      → count g ≡ ok n
      → best < n
      → Finds l n (some g) r
      → Finds (g ∷ l) best target r
  update g n l best target {r} e big f = record {
    grows = omega (arith, f.grows);
    covers = covered;
    chosen = inr (elim f.chosen [
      | inl same ↦
          let value : n ≡ r.0 = sym (ap (λ p. p.0) same) in
          (0, g, refl, ap (λ p. p.1) same, e ∙ ap ok value, omega (arith, value))
      | inr (i, h, there, at, c, more) ↦ (suc i, h, there, at, c, omega arith)
    ]);
  }
    where
      covered : (i h k : ℕ) → get_elem? (g ∷ l) i ≡ some h → count h ≡ ok k → k ≤ r.0
      covered zero h k at c =
          let same : g ≡ h = ground (arith, at) in
          let equal : n ≡ k = ok-injective (sym e ∙ ap count same ∙ c) in omega (arith, f.grows)
      covered (suc i) h k at c = f.covers i h k at c

  pub most-Finds :
      (l : List ℕ) (best : ℕ) (target : Option ℕ)
      → Ensures (Finds l best target) (most count l best target)
  unfolding most
  most-Finds [] best target =
      Ensures-ok (record { grows = omega arith; covers = λ i g n h e. cc; chosen = inl refl })
  most-Finds (g ∷ l) best target = Ensures-bind_eq (count g) _ λ n e.
      Ensures-if (leb n best) _ _
        (λ t. record {
          at = λ r h. skip g n l best target e (ground arith) ((most-Finds l best target).at r h);
        })
        (λ t. record {
          at = λ r h. update g n l best target e (ground arith) ((most-Finds l n (some g)).at r h);
        })

pub get-range_by : (c a step j : ℕ) → j < c → get_elem? (range_by c a step) j ≡ some (a + j * step)
unfolding range_by
get-range_by zero a step j h = elim h [ ]
get-range_by (suc c) a step zero h = ap some (omega arith)
get-range_by (suc c) a step (suc j) h =
    get-range_by c (a + step) step j (omega arith) ∙ ap some (grind arith)

get-append : (l m : List ℕ) (i : ℕ) {a : ℕ} → get_elem? l i ≡ some a → get_elem? (l ++ m) i ≡ some a
get-append [] m i h = cc
get-append (x ∷ l) m zero h = h
get-append (x ∷ l) m (suc i) h = get-append l m i h

lt-steps : (j k n : ℕ) → 0 < k → j * k < n → j < steps 0 n k
lt-steps j k n pos_k h = grind arith

-- For a directory the group that is picked has free inodes in the `k` groups that start there, and
-- no multiple of `k` is the start of `k` groups with more of them.
pub find_most_free_inodes_multiple-most :
    (s : Ffs) (k g j n : ℕ)
    → find_most_free_inodes_multiple s 0 k ≡ ok g
    → j * k < s.num_groups
    → find_free_inodes_in_range s (j * k) k ≡ ok n
    → (m : ℕ) × (find_free_inodes_in_range s g k ≡ ok m) × (0 < m) × (n ≤ m)
unfolding find_most_free_inodes_multiple
find_most_free_inodes_multiple-most s k g j n h inside e = steps_of.at g h
  where
    count : ℕ → Result ℕ
    count a = find_free_inodes_in_range s a k

    starts : List ℕ
    starts = range_by (steps 0 s.num_groups k) 0 k ++ range_by (steps 0 0 k) 0 k

    picked :
        0 < k
        → (r : ℕ × Option ℕ) → Finds count starts 0 none r
        → Ensures
            (λ g. (m : ℕ) × (count g ≡ ok m) × (0 < m) × (n ≤ m))
            (or_raise Fault.assertion r.1)
    picked kpos r f = record {
      at = λ a ea. elim f.chosen [
        | inl same ↦ absurd (ground (arith, ap (λ p. p.1) same))
        | inr (i, b, there, at, c, more) ↦
            let equal : b ≡ a = ground arith in
            let found : get_elem? starts j ≡ some (j * k) =
              get-append (range_by (steps 0 s.num_groups k) 0 k) (range_by (steps 0 0 k) 0 k) j (
                get-range_by (steps 0 s.num_groups k) 0 k j (lt-steps j k s.num_groups kpos inside))
              ∙ ap some (omega arith) in
            (r.0, ap count (sym equal) ∙ c, more, f.covers j (j * k) n found e)
      ];
    }

    steps_of :
        Ensures
          (λ g. (m : ℕ) × (count g ≡ ok m) × (0 < m) × (n ≤ m))
          (find_most_free_inodes_multiple s 0 k)
    steps_of =
        Ensures-if (k == 0) _ _ (λ _. Ensures-raise _)
          (λ t.
            Ensures-bind (most count starts 0 none) _ (most-Finds count starts 0 none)
              (λ r f. picked (ground arith) r f))
