-- ===== src/Ffs/Blocks/Places.antt =====
-- HW-FFS/ffs.py, class file_system: a round of the loop of allocate_blocks, its bitmap and its list of places.
use cs334_operating_systems.Prelude.{
  ℕ, zero, suc, ◌+◌, ◌-◌, ◌≤◌, ◌<◌, ◌≡◌, refl, sym, ap, ◌∙◌, ◌≢◌, ◌⊎◌, inl, inr, Bool, true, false,
  none, some, List, [], ◌∷◌, ◌++◌, arith, ltb, leb, if◌then◌else◌, Bool-cases, Option-cases, length,
  get_elem?, length-append, get-append_left, get-append_last, ok,
}
use cs334_operating_systems.Ffs.State.{Ffs, put, entry, used}
use cs334_operating_systems.Ffs.Grid.{
  Grid, IsShaped, free_total, entry_inside, Takes, put_entry-Takes,
}
use cs334_operating_systems.Ffs.Blocks.{all_free, range_free, Scan, take_place}

-- From the bitmap `b` the places `l` have been taken for the inode `inum`: they are different places
-- inside the bitmap, free in `b` and marked in `c`, and every other place is as in `b`.
pub record Taken (n w : ℕ) (b : Grid) (inum : ℕ) (c : Grid) (l : List (ℕ × ℕ)) : Type 0 where
  pub shaped : IsShaped n w c
  pub counted : free_total c + length l ≡ free_total b
  pub marked :
      (q g i : ℕ) → get_elem? l q ≡ some (g, i) → (g < n) × (i < w) × (entry c g i ≡ ok (some inum))
  pub free : (q g i : ℕ) → get_elem? l q ≡ some (g, i) → entry b g i ≡ ok none
  pub distinct : (q r : ℕ) (p : ℕ × ℕ) → get_elem? l q ≡ some p → get_elem? l r ≡ some p → q ≡ r
  pub others : (g i : ℕ) → ((q : ℕ) → get_elem? l q ≢ some (g, i)) → entry c g i ≡ entry b g i
  pub kept : (g i x : ℕ) → entry b g i ≡ ok (some x) → entry c g i ≡ ok (some x)

pub Taken-none : (n w : ℕ) (b : Grid) (inum : ℕ) → IsShaped n w b → Taken n w b inum b []
Taken-none n w b inum s = record {
  shaped = s;
  counted = omega arith;
  marked = λ q g i h. cc;
  free = λ q g i h. cc;
  distinct = λ q r p h k. cc;
  others = λ g i h. refl;
  kept = λ g i x h. h;
}

get-snoc :
    (l : List (ℕ × ℕ)) (p r : ℕ × ℕ) (q : ℕ)
    → get_elem? (l ++ p ∷ []) q ≡ some r
    → (get_elem? l q ≡ some r) ⊎ ((p ≡ r) × (q ≡ length l))
get-snoc [] p r zero h = inr (ground arith, refl)
get-snoc [] p r (suc q) h = cc
get-snoc (x ∷ l) p r zero h = inl h
get-snoc (x ∷ l) p r (suc q) h = elim (get-snoc l p r q h) [
  | inl e ↦ inl e
  | inr (e, n) ↦ inr (e, omega (arith, n))
]

module _ (n w : ℕ) (b : Grid) (inum : ℕ) (c : Grid) (l : List (ℕ × ℕ)) (g i : ℕ) (d : Grid)
    (t : Taken n w b inum c l) (k : Takes c g i inum d) where
  -- a place that is free after some have been taken is none of them
  not_listed : (q : ℕ) → get_elem? l q ≢ some (g, i)
  not_listed q e =
      let (_, _, there) = t.marked q g i e in absurd (ground (arith, there, k.was_free))

  snoc-free : (q h j : ℕ) → get_elem? (l ++ (g, i) ∷ []) q ≡ some (h, j) → entry b h j ≡ ok none
  snoc-free q h j e = elim (get-snoc l (g, i) (h, j) q e) [
    | inl old ↦ t.free q h j old
    | inr (new, _) ↦
        let gh : g ≡ h = ap (λ p. p.0) new in
        let ij : i ≡ j = ap (λ p. p.1) new in
        rw (← gh, ← ij) (sym (t.others g i not_listed) ∙ k.was_free)
  ]

  snoc-distinct :
      (q r : ℕ) (p : ℕ × ℕ)
      → get_elem? (l ++ (g, i) ∷ []) q ≡ some p
      → get_elem? (l ++ (g, i) ∷ []) r ≡ some p
      → q ≡ r
  snoc-distinct q r p e f = elim (get-snoc l (g, i) p q e) [
    | inl old ↦ elim (get-snoc l (g, i) p r f) [
      | inl older ↦ t.distinct q r p old older
      | inr (same, _) ↦ absurd (not_listed q (old ∙ ap some (sym same)))
    ]
    | inr (new, at) ↦ elim (get-snoc l (g, i) p r f) [
      | inl old ↦ absurd (not_listed r (old ∙ ap some (sym new)))
      | inr (_, there) ↦ at ∙ sym there
    ]
  ]

  snoc-others :
      (h j : ℕ)
      → ((q : ℕ) → get_elem? (l ++ (g, i) ∷ []) q ≢ some (h, j))
      → entry d h j ≡ entry b h j
  snoc-others h j away =
      k.others h j (λ gh ij. away (length l) (get-append_last l (g, i) ∙ rw (gh, ij) refl))
      ∙ t.others h j (λ q e. away q (get-append_left l ((g, i) ∷ []) q (h, j) e))

pub Taken-one :
    (n w : ℕ) (b : Grid) (inum : ℕ) (c : Grid) (l : List (ℕ × ℕ)) (g i : ℕ) (d : Grid)
    → Taken n w b inum c l
    → g < n
    → i < w
    → Takes c g i inum d
    → Taken n w b inum d (l ++ (g, i) ∷ [])
Taken-one n w b inum c l g i d t hg hi k = record {
  shaped = k.shaped n w t.shaped;
  counted = omega (arith, t.counted, k.counted, length-append l ((g, i) ∷ []));
  marked = λ q h j e. elim (get-snoc l (g, i) (h, j) q e) [
    | inl old ↦ let (a, z, m) = t.marked q h j old in (a, z, k.kept h j inum m)
    | inr (new, _) ↦
        let gh : g ≡ h = ap (λ p. p.0) new in
        let ij : i ≡ j = ap (λ p. p.1) new in
        (omega (arith, gh), omega (arith, ij), rw (← gh, ← ij) k.written)
  ];
  free = snoc-free n w b inum c l g i d t k;
  distinct = snoc-distinct n w b inum c l g i d t k;
  others = snoc-others n w b inum c l g i d t k;
  kept = λ h j x e. k.kept h j x (t.kept h j x e);
}

-- The run of `m` places is inspected without an exception.
all_free_lem :
    (n w : ℕ) (b : Grid) (g i m : ℕ)
    → IsShaped n w b
    → g < n
    → i + m ≤ w
    → (r : Bool) × (all_free b g i m ≡ ok r)
      × (r ≡ true → 0 < m → entry b g i ≡ ok none)
      × (m ≡ 1 → entry b g i ≡ ok none → r ≡ true)
unfolding all_free
all_free_lem n w b g i zero s hg hm = (true, refl, λ e h. elim h [ ], λ e h. refl)
all_free_lem n w b g i (suc m) s hg hm =
    let (e, at) = entry_inside n w b s g i hg (omega arith) in
    let (r, run, _, one) = all_free_lem n w b g (i + 1) m s hg (omega arith) in
    elim (Option-cases e) [
      | inl free ↦
          let read : entry b g i ≡ ok none = at ∙ ap ok free in
          (r, rw read run, λ _ _. read, λ h _. last m r (omega arith) run)
      | inr (x, used) ↦
          let read : entry b g i ≡ ok (some x) = at ∙ ap ok used in
          (false, rw read refl, λ t. absurd (cc t), λ h f. absurd (ground (arith, read, f)))
    ]
  where
    last : (m : ℕ) (r : Bool) → m ≡ 0 → all_free b g (i + 1) m ≡ ok r → r ≡ true
    last zero r h e = ground arith
    last (suc m) r h e = absurd (omega arith)

range_free_lem :
    (s : Ffs) (b : Grid) (g i needed chunks : ℕ)
    → IsShaped s.num_groups s.blocks_per_group b
    → g < s.num_groups
    → i < s.blocks_per_group
    → 0 < needed
    → 0 < chunks
    → (r : Bool) × (range_free s b g i needed chunks ≡ ok r)
      × (r ≡ true → entry b g i ≡ ok none)
      × (chunks ≡ 1 → entry b g i ≡ ok none → r ≡ true)
unfolding range_free
range_free_lem s b g i needed chunks h hg hi hn hc =
    let m = if ltb needed chunks then needed else chunks in
    let pos_m : 0 < m = ground arith in
    let single : chunks ≡ 1 → m ≡ 1 = λ e. ground arith in
    elim (Bool-cases (leb (s.blocks_per_group + 1) (i + m))) [
      | inl out ↦
          (false, rw out refl, λ t. absurd (cc t), λ e _. absurd (ground (arith, single e, out)))
      | inr fits ↦
          let (r, run, first, one) =
            all_free_lem s.num_groups s.blocks_per_group b g i m h hg (ground arith) in
          (r, rw fits run, λ t. first t pos_m, λ e f. one (single e) f)
    ]

-- One round takes the place or leaves everything as it was; with chunks of one block it leaves only
-- a place that is in use.
pub take_place-cases :
    (s : Ffs) (inum size : ℕ) (c : Scan)
    → IsShaped s.num_groups s.blocks_per_group c.bitmap
    → c.current_group < s.num_groups
    → c.index < s.blocks_per_group
    → length c.allocated < size
    → 0 < c.chunks_free
    → ((b : Grid) × Takes c.bitmap c.current_group c.index inum b
        × (take_place s inum size c
            ≡ ok (record c {
              bitmap = b;
              allocated_in_group = c.allocated_in_group + 1;
              allocated = c.allocated ++ (c.current_group, c.index) ∷ [];
            })))
      ⊎ ((take_place s inum size c ≡ ok c)
          × (c.chunks_free ≡ 1 → entry c.bitmap c.current_group c.index ≢ ok none))
unfolding take_place
take_place-cases s inum size c h hg hi more hc =
    let (r, run, free, one) =
      range_free_lem s c.bitmap c.current_group c.index (size - length c.allocated) c.chunks_free h
        hg hi (omega arith) hc in
    elim (Bool-cases r) [
      | inl fine ↦
          let read = free fine in
          let (b, put, takes) = put_entry-Takes c.bitmap c.current_group c.index inum read in
          inl (b, takes, rw (run, fine, read, put) refl)
      | inr used ↦
          inr (rw (run, used) refl, λ single f. absurd (ground (arith, one single f, used)))
    ]
