-- ===== src/Ffs/Spans/Bounds.antt =====
-- HW-FFS/ffs.py, class file_system: the span of a file.
use mathlib.Core.Path.{subst}
use mathlib.Core.Option
use cs334_operating_systems.Prelude.{
  ℕ, zero, suc, ◌+◌, ◌-◌, ◌*◌, ◌/◌, ◌%◌, ◌≤◌, ◌<◌, ◌≡◌, refl, ap, ◌∙◌, ◌⊎◌, inl, inr, some, List,
  [], ◌∷◌, arith, ltb, if◌then◌else◌, ltb→lt, Bool-cases, get_elem?, ok,
}
use cs334_operating_systems.Prelude.Int.{ℤ, pos, pos_part, neg_part, ◌≤ℤ◌, ltb_ℤ, minus_one}
use cs334_operating_systems.Prelude.DivMod.{join, mod-lt_pos, lt-mul_of_row}
use cs334_operating_systems.Prelude.Text.{Text, lookup}
use cs334_operating_systems.Ffs.State.{Ffs, find}
use cs334_operating_systems.Ffs.Spans.{
  group_size, inode_address, data_address, Span, widen, get_spans,
}

-- a block of the list lies at the address
abbrev pub IsAddress : Ffs → List ℕ → ℤ → Type 0
IsAddress s l a = (k d : ℕ) × (get_elem? l k ≡ some d) × (a ≡ pos (data_address s d))

-- what holds of the first block and of the others holds of each
each :
    (P : ℕ → Type 0) (d : ℕ) (l : List ℕ)
    → P d
    → ((k e : ℕ) → get_elem? l k ≡ some e → P e)
    → (k e : ℕ) → get_elem? (d ∷ l) k ≡ some e
    → P e
each P d l h all zero e at = subst P (Option.some-injective d e at) h
each P d l h all (suc k) e at = all k e at

lower : (a m : ℕ) → ((if ltb a m then a else m) ≤ a) × ((if ltb a m then a else m) ≤ m)
lower a m = (ground arith, ground arith)

upper : (a m : ℤ) → (a ≤ℤ (if ltb_ℤ m a then a else m)) × (m ≤ℤ (if ltb_ℤ m a then a else m))
upper a m = (ground arith, ground arith)

-- the group of a block
group_below : (d n b : ℕ) → 0 < b → d < n * b → d / b < n
group_below d n b some_place less = elim (Bool-cases (ltb (d / b) n)) [
  | inl e ↦ ltb→lt (d / b) n e
  | inr e ↦
      let (m, at) : (m : ℕ) × (d / b ≡ n + m) = (d / b - n, ground (arith, e)) in
      let whole : (n + m) * b + d % b ≡ d = rw (← at) (join d b some_place) in
      let split : (n + m) * b ≡ n * b + m * b = grind arith in
      absurd (omega (arith, whole, split, less))
]

module _ (s : Ffs) where
  abbrev widened : Span → ℕ → Span
  widened r a = record r {
    min_address = if ltb a r.min_address then a else r.min_address;
    max_address = if ltb_ℤ r.max_address (pos a) then pos a else r.max_address;
  }

  widen-bounds :
      (r : Span) (l : List ℕ)
      → ((widen s r l).min_address ≤ r.min_address)
        × (r.max_address ≤ℤ (widen s r l).max_address)
        × ((k d : ℕ)
            → get_elem? l k ≡ some d
            → ((widen s r l).min_address ≤ data_address s d)
              × (pos (data_address s d) ≤ℤ (widen s r l).max_address))
  unfolding widen
  widen-bounds r [] = (omega arith, omega arith, λ k d h. absurd (cc))
  widen-bounds r (d ∷ l) =
      let a = data_address s d in
      let (low, high, all) = widen-bounds (widened r a) l in
      let (near, same) = lower a r.min_address in
      let (far, more) = upper (pos a) r.max_address in
      (
        omega (arith, low, same),
        omega (arith, high, more),
        each
            (λ e.
              ((widen s r (d ∷ l)).min_address ≤ data_address s e)
              × (pos (data_address s e) ≤ℤ (widen s r (d ∷ l)).max_address))
            d l (omega (arith, low, near), omega (arith, high, far)) all,
      )

  behind : (d : ℕ) (l : List ℕ) (a : ℤ) → IsAddress s l a → IsAddress s (d ∷ l) a
  behind d l a (k, e, at, same) = (suc k, e, at, same)

  widen-attained :
      (r : Span) (l : List ℕ)
      → (((widen s r l).min_address ≡ r.min_address)
          ⊎ IsAddress s l (pos (widen s r l).min_address))
        × (((widen s r l).max_address ≡ r.max_address) ⊎ IsAddress s l (widen s r l).max_address)
  unfolding widen
  widen-attained r [] = (inl refl, inl refl)
  widen-attained r (d ∷ l) =
      let a = data_address s d in
      let (low, high) = widen-attained (widened r a) l in
      (
        elim low [
          | inl e ↦ elim (Bool-cases (ltb a r.min_address)) [
            | inl less ↦ inr (0, d, refl, ap pos (e ∙ rw less refl))
            | inr more ↦ inl (e ∙ rw more refl)
          ]
          | inr h ↦ inr (behind d l _ h)
        ],
        elim high [
          | inl e ↦ elim (Bool-cases (ltb_ℤ r.max_address (pos a))) [
            | inl less ↦ inr (0, d, refl, e ∙ rw less refl)
            | inr more ↦ inl (e ∙ rw more refl)
          ]
          | inr h ↦ inr (behind d l _ h)
        ],
      )

  inside :
      (d : ℕ)
      → 0 < s.blocks_per_group
      → d < s.num_groups * s.blocks_per_group
      → data_address s d < s.num_groups * group_size s
  inside d some_place less =
      let b = s.blocks_per_group in
      let row =
        lt-mul_of_row (d / b) (d % b + s.inodes_per_group) s.num_groups (group_size s)
          (group_below d s.num_groups b some_place less)
          (omega (arith, mod-lt_pos d b some_place)) in
      omega (arith, row)

-- The span of a file with blocks, all of them on the disk: its least and its greatest address are
-- addresses of its blocks, and every block lies between them.
pub get_spans_lem :
    (s : Ffs) (path : Text) (inum : ℕ) (d : ℕ) (l : List ℕ)
    → lookup path s.name_to_inode_map ≡ some inum
    → find inum s.inode_blocks ≡ some (d ∷ l)
    → 0 < s.blocks_per_group
    → d < s.num_groups * s.blocks_per_group
    → (r : Span) × (get_spans s path ≡ ok r)
      × IsAddress s (d ∷ l) (pos r.min_address)
      × IsAddress s (d ∷ l) r.max_address
      × ((k e : ℕ)
          → get_elem? (d ∷ l) k ≡ some e
          → (r.min_address ≤ data_address s e) × (pos (data_address s e) ≤ℤ r.max_address))
unfolding get_spans
get_spans_lem s path inum d l named has some_place less =
    let start : Span = record {
      inode_number = inum;
      inode_address = inode_address s inum;
      min_address = 1 + s.num_groups * group_size s;
      max_address = minus_one;
    } in
    let (low, high, all) = widen-bounds s start (d ∷ l) in
    let (least_at, greatest_at) = widen-attained s start (d ∷ l) in
    let (first_low, first_high) = all 0 d refl in
    let fits = inside s d some_place less in
    (
      widen s start (d ∷ l),
      rw (named, has) refl,
      elim least_at [ inl e ↦ absurd (omega (arith, e, first_low, fits)) | inr h ↦ h ],
      elim greatest_at [
        | inl e ↦ absurd (omega (arith, ap pos_part e, ap neg_part e, first_high))
        | inr h ↦ h
      ],
      all,
    )
