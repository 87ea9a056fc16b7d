-- ===== src/Ffs/Grid.antt =====
-- Facts on the bitmaps of ffs.py: their shape, the free places, and what a write does.
use cs334_operating_systems.Prelude.{
  ℕ, zero, suc, ◌+◌, ◌<◌, ◌≡◌, refl, sym, ap, ◌∙◌, ◌≢◌, inl, inr, Option, none, some, List, [], ◌∷◌,
  arith, ltb, ◌==◌, Bool-cases, Option-cases, length, get_elem?, set, length-set,
  get_elem?-set_self, get_elem?-set_ne, ok, lt-length_of_get, get_of_lt-length,
}
use cs334_operating_systems.Ffs.State.{entry, put_entry, get_free_count}

abbrev pub Grid : Type 0
Grid = List (List (Option ℕ))

-- `n` rows of `w` places
pub record IsShaped (n w : ℕ) (b : Grid) : Type 0 where
  pub rows : length b ≡ n
  pub wide : (g : ℕ) (row : List (Option ℕ)) → get_elem? b g ≡ some row → length row ≡ w

unfoldable pub free_total : Grid → ℕ
unfolding get_free_count
free_total [] = 0
free_total (row ∷ l) = get_free_count row + free_total l

get_free_count-set :
    (row : List (Option ℕ)) (i v : ℕ)
    → get_elem? row i ≡ some none
    → get_free_count row ≡ get_free_count (set row i (some v)) + 1
unfolding get_free_count
get_free_count-set [] i v h = cc
get_free_count-set (x ∷ l) zero v h = ground arith
get_free_count-set (none ∷ l) (suc i) v h = omega (arith, get_free_count-set l i v h)
get_free_count-set (some x ∷ l) (suc i) v h = get_free_count-set l i v h

free_total-set :
    (b : Grid) (g : ℕ) (row new : List (Option ℕ))
    → get_elem? b g ≡ some row
    → get_free_count row ≡ get_free_count new + 1
    → free_total b ≡ free_total (set b g new) + 1
unfolding free_total
free_total-set [] g row new h e = cc
free_total-set (x ∷ l) zero row new h e = ground arith
free_total-set (x ∷ l) (suc g) row new h e = omega (arith, free_total-set l g row new h e)

free_in_row :
    (row : List (Option ℕ)) → 0 < get_free_count row → (i : ℕ) × (get_elem? row i ≡ some none)
unfolding get_free_count
free_in_row [] h = elim h [ ]
free_in_row (none ∷ l) h = (0, refl)
free_in_row (some x ∷ l) h = let (i, e) = free_in_row l h in (suc i, e)

pub free_row :
    (b : Grid)
    → 0 < free_total b
    → (g : ℕ) × (row : List (Option ℕ)) × (get_elem? b g ≡ some row) × (0 < get_free_count row)
unfolding free_total
free_row [] h = elim h [ ]
free_row (x ∷ l) h = elim (Bool-cases (ltb 0 (get_free_count x))) [
  | inl t ↦ (0, x, refl, ground arith)
  | inr f ↦ let (g, row, e, pos_free) = free_row l (ground arith) in (suc g, row, e, pos_free)
]

entry-get :
    (b : Grid) (g i : ℕ) (row : List (Option ℕ)) (e : Option ℕ)
    → get_elem? b g ≡ some row
    → get_elem? row i ≡ some e
    → entry b g i ≡ ok e
unfolding entry
entry-get b g i row e h k = rw (h, k) refl

-- inversion of a read
pub entry-ok :
    (b : Grid) (g i : ℕ) (e : Option ℕ)
    → entry b g i ≡ ok e
    → (row : List (Option ℕ)) × (get_elem? b g ≡ some row) × (get_elem? row i ≡ some e)
unfolding entry
entry-ok b g i e h = elim (Option-cases (get_elem? b g)) [
  | inl n ↦ absurd (ground arith)
  | inr (row, at) ↦ elim (Option-cases (get_elem? row i)) [
    | inl n ↦ absurd (ground arith)
    | inr (x, there) ↦ (row, at, ground arith)
  ]
]

module _ (n w : ℕ) (b : Grid) (s : IsShaped n w b) where
  pub entry_inside : (g i : ℕ) → g < n → i < w → (e : Option ℕ) × (entry b g i ≡ ok e)
  entry_inside g i hg hi =
      let (row, at) = get_of_lt-length b g (omega (arith, s.rows)) in
      let (e, there) = get_of_lt-length row i (omega (arith, s.wide g row at)) in
      (e, entry-get b g i row e at there)

  pub free_place : 0 < free_total b → (g i : ℕ) × (g < n) × (i < w) × (entry b g i ≡ ok none)
  free_place h =
      let (g, row, at, some_free) = free_row b h in
      let (i, there) = free_in_row row some_free in
      (
        g,
        i,
        omega (arith, lt-length_of_get b g row at, s.rows),
        omega (arith, lt-length_of_get row i none there, s.wide g row at),
        entry-get b g i row none at there,
      )

-- What is known of the bitmap `c` after `v` is written to a free place of `b`.
pub record Takes (b : Grid) (g i v : ℕ) (c : Grid) : Type 0 where
  pub shaped : (n w : ℕ) → IsShaped n w b → IsShaped n w c
  pub counted : free_total b ≡ free_total c + 1
  pub written : entry c g i ≡ ok (some v)
  pub was_free : entry b g i ≡ ok none
  pub others : (h j : ℕ) → (g ≡ h → i ≢ j) → entry c h j ≡ entry b h j
  pub kept : (h j x : ℕ) → entry b h j ≡ ok (some x) → entry c h j ≡ ok (some x)

module _ (b : Grid) (g i v : ℕ) (row : List (Option ℕ)) (at : get_elem? b g ≡ some row)
    (there : get_elem? row i ≡ some none) where
  new_row : List (Option ℕ)
  new_row = set row i (some v)

  set-IsShaped : (n w : ℕ) → IsShaped n w b → IsShaped n w (set b g new_row)
  unfolding new_row
  set-IsShaped n w s = record {
    rows = length-set b g new_row ∙ s.rows;
    wide = λ h r e. elim (Bool-cases (g == h)) [
      | inl same ↦
          let gh : g ≡ h = ground arith in
          let new : r ≡ new_row =
            ground (arith, get_elem?-set_self b g new_row (lt-length_of_get b g row at)) in
          ap length new ∙ length-set row i (some v) ∙ s.wide g row at
      | inr other ↦ s.wide h r (sym (get_elem?-set_ne b new_row (λ e. ground arith)) ∙ e)
    ];
  }

  set-kept : (h j x : ℕ) → entry b h j ≡ ok (some x) → entry (set b g new_row) h j ≡ ok (some x)
  unfolding new_row
  set-kept h j x e =
      let (r, rat, rthere) = entry-ok b h j (some x) e in
      elim (Bool-cases (g == h)) [
        | inl same ↦
            let gh : g ≡ h = ground arith in
            let rr : row ≡ r = ground arith in
            let ij : i ≢ j = λ eq. ground arith in
            entry-get (set b g new_row) h j new_row (some x)
              (rw (← gh) (get_elem?-set_self b g new_row (lt-length_of_get b g row at)))
              (get_elem?-set_ne row (some v) ij ∙ (rw rr rthere))
        | inr other ↦
            entry-get (set b g new_row) h j r (some x)
              (get_elem?-set_ne b new_row (λ eq. ground arith) ∙ rat) rthere
      ]

  set-others : (h j : ℕ) → (g ≡ h → i ≢ j) → entry (set b g new_row) h j ≡ entry b h j
  unfolding entry new_row
  set-others h j other = elim (Bool-cases (g == h)) [
    | inl same ↦
        let gh : g ≡ h = ground arith in
        rw
          (
            ← gh,
            get_elem?-set_self b g new_row (lt-length_of_get b g row at),
            at,
            get_elem?-set_ne row (some v) (other gh),
          )
          refl
    | inr away ↦ let gh : g ≢ h = λ e. ground arith in rw (get_elem?-set_ne b new_row gh) refl
  ]

  set-Takes : Takes b g i v (set b g new_row)
  unfolding new_row
  set-Takes = record {
    shaped = set-IsShaped;
    counted = free_total-set b g row new_row at (get_free_count-set row i v there);
    written =
        entry-get (set b g new_row) g i new_row (some v)
          (get_elem?-set_self b g new_row (lt-length_of_get b g row at))
          (get_elem?-set_self row i (some v) (lt-length_of_get row i none there));
    was_free = entry-get b g i row none at there;
    others = set-others;
    kept = set-kept;
  }

-- A free place can be taken.
pub put_entry-Takes :
    (b : Grid) (g i v : ℕ)
    → entry b g i ≡ ok none
    → (c : Grid) × (put_entry b g i (some v) ≡ ok c) × Takes b g i v c
unfolding put_entry new_row
put_entry-Takes b g i v h =
    let (row, at, there) = entry-ok b g i none h in
    (set b g (set row i (some v)), rw (at, there) refl, set-Takes b g i v row at there)
