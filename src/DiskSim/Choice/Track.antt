-- ===== src/DiskSim/Choice/Track.antt =====
-- do_sstf returns the open requests on a nearest track.
use mathlib.Core.Path.{subst}
use cs334_operating_systems.Prelude.{
  ℕ, suc, ◌≤◌, ◌<◌, ◌≡◌, refl, sym, ap, ◌∙◌, ◌↔◌, inl, inr, true, List, [], ◌∷◌, ◌++◌, arith, ltb,
  ◌==◌, Bool-cases, ok, ◌>>=◌, >>=-eq-ok, ok-injective,
}
use cs334_operating_systems.Prelude.Int.{ℤ}
use cs334_operating_systems.DiskSim.Layout.{Label}
use cs334_operating_systems.DiskSim.State.{done, Sim}
use cs334_operating_systems.DiskSim.Choice.{
  gap, is_finished, max_tracks, sstf_from, not_empty, do_sstf,
}
use cs334_operating_systems.DiskSim.Choice.Nearest.{Waits, In, Known, finished, waiting}
use cs334_operating_systems.DiskSim.Choice.Distance.{
  Far, same_distance, NearestTrack, pass, restart, join,
}

module _ (s : Sim) where
  pub Waits-Far :
      (e : ℤ) (b : Label) (i : ℕ) (w : Waits s e b i) → Far s (b, i) (gap s.arm_track w.place.track)
  Waits-Far e b i w = record {
    phase = w.phase;
    has_phase = w.has_phase;
    not_done = w.not_done;
    place = w.place;
    has_place = w.has_place;
    distance = refl;
  }

  Loop : ℕ → List (Label × ℕ) → List (Label × ℕ) → Type 0
  Loop d kept l =
      (r : List (Label × ℕ)) × (m : ℕ) × (sstf_from s d kept l ≡ ok r) × NearestTrack s d kept l r m

  sstf_from-step :
      (d : ℕ) (kept : List (Label × ℕ)) (x : Label × ℕ) (l : List (Label × ℕ))
      → Known s x
      → ((c : ℕ) (new : List (Label × ℕ)) → Loop c new l)
      → Loop d kept (x ∷ l)
  unfolding Loop sstf_from
  sstf_from-step d kept x l (finished b i h) rest =
      let (r, m, e, n) = rest d kept in
      (r, m, rw h e, pass s d kept (b, i) l r m (λ c f. absurd (over c f)) n)
    where
      over : (c : ℕ) → Far s (b, i) c → ⊥
      over c f =
          let same : done ≡ f.phase = ok-injective (sym h ∙ f.has_phase) in
          absurd
            (let g : is_finished f.phase ≡ true = rw (sym same) refl in ground (arith, f.not_done))
  sstf_from-step d kept x l (waiting e b i w) rest =
      let c = gap s.arm_track w.place.track in
      let far = Waits-Far e b i w in
      elim (Bool-cases (ltb c d)) [
        | inl nearer ↦
            let (r, m, e, n) = rest c ((b, i) ∷ []) in
            (
              r,
              m,
              rw (w.has_phase, w.not_done, w.has_place, nearer) e,
              restart s d c kept (b, i) l r m far (ground arith) n,
            )
        | inr no_nearer ↦ elim (Bool-cases (c == d)) [
          | inl level ↦
              let (r, m, e, n) = rest d (kept ++ (b, i) ∷ []) in
              (
                r,
                m,
                rw (w.has_phase, w.not_done, w.has_place, no_nearer, level) e,
                join s d kept (b, i) l r m (subst (Far s (b, i)) (ground arith) far) n,
              )
          | inr farther ↦
              let (r, m, e, n) = rest d kept in
              (
                r,
                m,
                rw (w.has_phase, w.not_done, w.has_place, no_nearer, farther) e,
                pass s d kept (b, i) l r m
                    (λ f g. let same : c ≡ f = same_distance s (b, i) c f far g in ground arith) n,
              )
        ]
      ]

  sstf_from-ends :
      (d : ℕ) (kept l : List (Label × ℕ)) → ((x : Label × ℕ) → In x l → Known s x) → Loop d kept l
  unfolding Loop sstf_from
  sstf_from-ends d kept [] known = (
    kept,
    d,
    refl,
    record {
      least = omega arith;
      bounds = λ x c (j, h) f. absurd (cc);
      only_far = λ x inside. inl (inside, refl);
      all_kept = λ x inside e. inside;
      all_far = λ x (j, h) f. absurd (cc);
      some_kept = inl refl;
    },
  )
  sstf_from-ends d kept (x ∷ l) known =
      sstf_from-step d kept x l (known x (0, refl))
        (λ c new. sstf_from-ends c new l (λ y (i, h). known y (suc i, h)))

  is_there :
      (m : ℕ) (r l : List (Label × ℕ)) {d : ℕ}
      → NearestTrack s max_tracks [] l r m
      → m ≤ d
      → d < max_tracks
      → not_empty r ≡ ok r
  is_there m [] l n near short = elim n.some_kept [
    | inl e ↦ absurd (omega (arith, e))
    | inr (y, (j, h)) ↦ absurd (cc)
  ]
  is_there m (x ∷ r) l n near short = refl

-- When each request of a list is done or has a place, and one that is not done lies less than
-- max_tracks from the arm, do_sstf returns a list of exactly the requests that are not done and lie at
-- the least distance from the arm.
pub do_sstf-nearest :
    (s : Sim) (l : List (Label × ℕ)) (x : Label × ℕ) (d : ℕ)
    → ((y : Label × ℕ) → In y l → Known s y)
    → In x l
    → Far s x d
    → d < max_tracks
    → (r : List (Label × ℕ)) × (m : ℕ) × (do_sstf s l ≡ ok r)
      × (m ≤ d)
      × ((y : Label × ℕ) → In y r ↔ (In y l × Far s y m))
      × ((y : Label × ℕ) (c : ℕ) → In y l → Far s y c → m ≤ c)
unfolding do_sstf Loop
do_sstf-nearest s l x d known inside far short =
    let (r, m, e, n) = sstf_from-ends s max_tracks [] l known in
    let near : m ≤ d = n.bounds x d inside far in
    (
      r,
      m,
      ap (λ q. q >>= not_empty) e ∙ is_there s m r l n near short,
      near,
      (λ y. (
        (λ kept. elim (n.only_far y kept) [ inl ((j, h), _) ↦ absurd (cc) | inr found ↦ found ]),
        λ (within, f). n.all_far y within f,
      )),
      n.bounds,
    )

pub do_sstf-not_empty : (s : Sim) (l : List (Label × ℕ)) → do_sstf s l ≡ ok [] → ⊥
unfolding do_sstf
do_sstf-not_empty s l h =
    let (r, _, e) = >>=-eq-ok (sstf_from s max_tracks [] l) not_empty h in absurd (filled r e)
  where
    filled : (r : List (Label × ℕ)) → not_empty r ≡ ok [] → ⊥
    filled [] e = cc
    filled (x ∷ r) e = absurd (let same = ok-injective e in cc)
