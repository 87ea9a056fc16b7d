-- ===== src/DiskSim/Choice/Nearest.antt =====
-- do_satf returns an open request with the least estimate.
use mathlib.Core.Path.{subst}
use cs334_operating_systems.Prelude.{
  ℕ, zero, suc, ◌≡◌, refl, sym, ap, ◌∙◌, ◌⊎◌, inl, inr, true, false, none, some, List, [], ◌∷◌,
  arith, if◌then◌else◌, Bool-cases, get_elem?, ok, ok-injective, Ensures, Ensures-ok, Ensures-if,
  Ensures-bind_eq, nth,
}
use cs334_operating_systems.Prelude.Int.{ℤ, ltb_ℤ}
use cs334_operating_systems.DiskSim.Layout.{Label, Place, place_of}
use cs334_operating_systems.DiskSim.State.{Phase, done, Sim}
use cs334_operating_systems.DiskSim.Choice.{
  is_finished, estimate, Best, improves, satf_from, do_satf,
}

-- the request `b`, of number `index`, is not done, and its estimate is `e`
pub record Waits (s : Sim) (e : ℤ) (b : Label) (index : ℕ) : Type 0 where
  pub phase : Phase
  pub has_phase : nth s.request_state index ≡ ok phase
  pub not_done : is_finished phase ≡ false
  pub place : Place
  pub has_place : place_of s.layout.places b ≡ ok place
  pub offset : ℕ
  pub has_offset : nth s.layout.block_angle_offset place.track ≡ ok offset
  pub estimated : estimate s place offset ≡ e

abbrev pub In : Label × ℕ → List (Label × ℕ) → Type 0
In entry l = (i : ℕ) × (get_elem? l i ≡ some entry)

pub In-cons : (x y : Label × ℕ) (l : List (Label × ℕ)) → In x (y ∷ l) → (y ≡ x) ⊎ In x l
In-cons x y l (zero, h) = inl (cc)
In-cons x y l (suc i, h) = inr (i, h)

module _ (s : Sim) where
  -- the request that the loop has found is there, and its estimate is not above `e`
  abbrev Below : ℤ → Best → Type 0
  Below e r = (m : ℤ) × (c : Label) × (i : ℕ) × (r ≡ some (m, c, i)) × (ltb_ℤ e m ≡ false)

  -- what the loop over `l` makes of the best so far
  record Nearest (best : Best) (l : List (Label × ℕ)) (r : Best) : Type 0 where
    keeps : (e : ℤ) (b : Label) (i : ℕ) → best ≡ some (e, b, i) → Below e r
    bounds : (e : ℤ) (b : Label) (i : ℕ) → In (b, i) l → Waits s e b i → Below e r
    origin :
        (r ≡ best)
        ⊎ ((e : ℤ) × (b : Label) × (i : ℕ) × (r ≡ some (e, b, i)) × In (b, i) l × Waits s e b i)

  skip :
      (best : Best) (block : Label) (k : ℕ) (l : List (Label × ℕ)) (r : Best)
      → ((e : ℤ) → Waits s e block k → ⊥)
      → Nearest best l r
      → Nearest best ((block, k) ∷ l) r
  skip best block k l r over n = record {
    keeps = n.keeps;
    bounds = λ e b i inside w. elim (In-cons (b, i) (block, k) l inside) [
      | inl same ↦ absurd (over e (rw (ap (λ x. x.0) same, ap (λ x. x.1) same) w))
      | inr behind ↦ n.bounds e b i behind w
    ];
    origin = elim n.origin [
      | inl same ↦ inl same
      | inr (e, b, i, at, (j, there), w) ↦ inr (e, b, i, at, (suc j, there), w)
    ];
  }

  not_less : (a b m : ℤ) → ltb_ℤ b a ≡ true → ltb_ℤ b m ≡ false → ltb_ℤ a m ≡ false
  not_less a b m h k = ground arith

  not_less_trans : (a b m : ℤ) → ltb_ℤ a b ≡ false → ltb_ℤ b m ≡ false → ltb_ℤ a m ≡ false
  not_less_trans a b m h k = ground arith

  same_estimate : (e f : ℤ) (b : Label) (k : ℕ) → Waits s e b k → Waits s f b k → e ≡ f
  same_estimate e f b k v w =
      let place : v.place ≡ w.place = ok-injective (sym v.has_place ∙ w.has_place) in
      let offset : v.offset ≡ w.offset = ok-injective (
        sym v.has_offset
        ∙ ap (λ p. nth s.layout.block_angle_offset p.track) place
        ∙ w.has_offset) in
      sym v.estimated
      ∙ ap (λ p. estimate s p v.offset) place
      ∙ ap (estimate s w.place) offset
      ∙ w.estimated

  -- an open request at the head, where the result is not above it nor above the best so far
  with_head :
      (best : Best) (block : Label) (k : ℕ) (l : List (Label × ℕ)) (r new : Best) (est : ℤ)
      → Waits s est block k
      → Nearest new l r
      → Below est r
      → ((e : ℤ) (b : Label) (i : ℕ) → best ≡ some (e, b, i) → Below e r)
      → (new ≡ best) ⊎ (new ≡ some (est, block, k))
      → Nearest best ((block, k) ∷ l) r
  with_head best block k l r new est w n low keeps which = record {
    keeps = keeps;
    bounds = λ e b i inside v. elim (In-cons (b, i) (block, k) l inside) [
      | inl same ↦
          let there : Waits s e block k = rw (ap (λ x. x.0) same, ap (λ x. x.1) same) v in
          rw (same_estimate e est block k there w) low
      | inr behind ↦ n.bounds e b i behind v
    ];
    origin = elim n.origin [
      | inl same ↦ elim which [
        | inl kept ↦ inl (same ∙ kept)
        | inr taken ↦ inr (est, block, k, same ∙ taken, (0, refl), w)
      ]
      | inr (e, b, i, at, (j, there), v) ↦ inr (e, b, i, at, (suc j, there), v)
    ];
  }

  -- the loop goes on from the better of the head and the best so far
  use_head :
      (best : Best) (block : Label) (k : ℕ) (l : List (Label × ℕ)) (r : Best) (est : ℤ)
      → Waits s est block k
      → Nearest (if improves est best then some (est, block, k) else best) l r
      → Nearest best ((block, k) ∷ l) r
  unfolding improves
  use_head none block k l r est w n =
      with_head none block k l r (some (est, block, k)) est w n (n.keeps est block k refl)
        (λ e b i h. absurd (cc)) (inr refl)
  use_head (some (m, c, j)) block k l r est w n = elim (Bool-cases (ltb_ℤ est m)) [
    | inl less ↦
        let n : Nearest (some (est, block, k)) l r =
          subst (λ t. Nearest (if t then some (est, block, k) else some (m, c, j)) l r) less n in
        let (x, d, i, at, low) = n.keeps est block k refl in
        with_head (some (m, c, j)) block k l r (some (est, block, k)) est w n (x, d, i, at, low)
          (λ e b g h.
            let same : m ≡ e = cc in (x, d, i, at, rw (sym same) (not_less m est x less low)))
          (inr refl)
    | inr more ↦
        let n : Nearest (some (m, c, j)) l r =
          subst (λ t. Nearest (if t then some (est, block, k) else some (m, c, j)) l r) more n in
        let (x, d, i, at, low) = n.keeps m c j refl in
        with_head (some (m, c, j)) block k l r (some (m, c, j)) est w n
          (x, d, i, at, not_less_trans est m x more low) n.keeps (inl refl)
  ]

  satf_from-Nearest :
      (best : Best) (l : List (Label × ℕ)) → Ensures (Nearest best l) (satf_from s best l)
  unfolding satf_from
  satf_from-Nearest best [] = Ensures-ok (record {
    keeps = λ e b i h. (e, b, i, h, ground arith);
    bounds = λ e b i inside w. absurd (let h = inside.1 in cc);
    origin = inl refl;
  })
  satf_from-Nearest best ((block, k) ∷ l) = Ensures-bind_eq (nth s.request_state k) _ λ phase has.
      Ensures-if (is_finished phase) _ _
        (λ over. record {
          at = λ r h.
              skip best block k l r
                (λ e w.
                  let same : phase ≡ w.phase = ok-injective (sym has ∙ w.has_phase) in
                  absurd (let f : is_finished w.phase ≡ true = rw (sym same) over in cc))
                ((satf_from-Nearest best l).at r h);
        })
        (λ waits. Ensures-bind_eq (place_of s.layout.places block) _ λ p placed.
          Ensures-bind_eq (nth s.layout.block_angle_offset p.track) _ λ offset wide. record {
            at = λ r h.
                use_head best block k l r (estimate s p offset)
                  (record {
                    phase = phase;
                    has_phase = has;
                    not_done = waits;
                    place = p;
                    has_place = placed;
                    offset = offset;
                    has_offset = wide;
                    estimated = refl;
                  })
                  ((satf_from-Nearest
                      (if improves (estimate s p offset) best
                        then some (estimate s p offset, block, k)
                        else best)
                      l).at
                    r h);
          })

-- a request that the loop can read: it is done, or has a place
pub data Known (s : Sim) : Label × ℕ → Type 0 where
  finished : (b : Label) (i : ℕ) → nth s.request_state i ≡ ok done → Known s (b, i)
  waiting : (e : ℤ) (b : Label) (i : ℕ) → Waits s e b i → Known s (b, i)

satf_from-ends_step :
    (s : Sim) (best : Best) (x : Label × ℕ) (l : List (Label × ℕ))
    → Known s x
    → ((new : Best) → (r : Best) × (satf_from s new l ≡ ok r))
    → (r : Best) × (satf_from s best (x ∷ l) ≡ ok r)
unfolding satf_from
satf_from-ends_step s best x l (finished b i h) rest = rw h (rest best)
satf_from-ends_step s best x l (waiting e b i w) rest =
    rw (w.has_phase, w.not_done, w.has_place, w.has_offset) (rest _)

satf_from-ends :
    (s : Sim) (best : Best) (l : List (Label × ℕ))
    → ((x : Label × ℕ) → In x l → Known s x)
    → (r : Best) × (satf_from s best l ≡ ok r)
unfolding satf_from
satf_from-ends s best [] known = (best, refl)
satf_from-ends s best (x ∷ l) known =
    satf_from-ends_step s best x l (known x (0, refl))
      (λ new. satf_from-ends s new l (λ y (i, h). known y (suc i, h)))

-- When each request of a list is done or has a place, and one is not done, do_satf returns one of
-- the list that is not done, and no other of these has a smaller estimate.
pub do_satf-least :
    (s : Sim) (l : List (Label × ℕ)) (f : ℤ) (c : Label) (j : ℕ)
    → ((x : Label × ℕ) → In x l → Known s x)
    → In (c, j) l
    → Waits s f c j
    → (e : ℤ) × (b : Label) × (i : ℕ) × (do_satf s l ≡ ok (b, i))
      × In (b, i) l
      × Waits s e b i
      × ((f : ℤ) (c : Label) (j : ℕ) → In (c, j) l → Waits s f c j → ltb_ℤ f e ≡ false)
unfolding do_satf
do_satf-least s l f c j known inside waits =
    let (r, ends) = satf_from-ends s none l known in
    let n = (satf_from-Nearest s none l).at r ends in
    elim n.origin [
      | inl same ↦ absurd (let (m, d, i, at, low) = n.bounds f c j inside waits in cc)
      | inr (e, b, i, at, there, w) ↦ (
        e,
        b,
        i,
        rw (ends, at) refl,
        there,
        w,
        λ g d k within v.
            let (m, d, i, found, low) = n.bounds g d k within v in
            let same : m ≡ e = cc in rw (sym same) low,
      )
    ]
