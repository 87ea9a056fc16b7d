-- ===== src/DiskSim/Choice/Distance.antt =====
-- The steps of the loop of do_sstf keep the open requests at the least distance so far.
use mathlib.Core.Path.{subst}
use cs334_operating_systems.Prelude.{
  ℕ, zero, suc, ◌≤◌, ◌<◌, ◌≡◌, refl, sym, ap, ◌∙◌, ◌⊎◌, inl, inr, false, some, List, [], ◌∷◌, ◌++◌,
  arith, ok, ok-injective, nth,
}
use cs334_operating_systems.DiskSim.Layout.{Label, Place, place_of}
use cs334_operating_systems.DiskSim.State.{Phase, Sim}
use cs334_operating_systems.DiskSim.Choice.{gap, is_finished}
use cs334_operating_systems.DiskSim.Choice.Nearest.{In, In-cons}

-- the request `x` is not done, and its track is `d` tracks from the arm
pub record Far (s : Sim) (x : Label × ℕ) (d : ℕ) : Type 0 where
  pub phase : Phase
  pub has_phase : nth s.request_state x.1 ≡ ok phase
  pub not_done : is_finished phase ≡ false
  pub place : Place
  pub has_place : place_of s.layout.places x.0 ≡ ok place
  pub distance : gap s.arm_track place.track ≡ d

In-append_one : (x y : Label × ℕ) (l : List (Label × ℕ)) → In x (l ++ y ∷ []) → In x l ⊎ (y ≡ x)
In-append_one x y [] (zero, h) = inr cc
In-append_one x y [] (suc i, h) = absurd (cc)
In-append_one x y (z ∷ l) (zero, h) = inl (0, h)
In-append_one x y (z ∷ l) (suc i, h) = elim (In-append_one x y l (i, h)) [
  | inl (j, e) ↦ inl (suc j, e)
  | inr same ↦ inr same
]

In-append_left : (x y : Label × ℕ) (l : List (Label × ℕ)) → In x l → In x (l ++ y ∷ [])
In-append_left x y [] (i, h) = absurd (cc)
In-append_left x y (z ∷ l) (zero, h) = (0, h)
In-append_left x y (z ∷ l) (suc i, h) = let (j, e) = In-append_left x y l (i, h) in (suc j, e)

In-append_last : (y : Label × ℕ) (l : List (Label × ℕ)) → In y (l ++ y ∷ [])
In-append_last y [] = (0, refl)
In-append_last y (z ∷ l) = let (j, e) = In-append_last y l in (suc j, e)

module _ (s : Sim) where
  pub same_distance : (x : Label × ℕ) (c d : ℕ) → Far s x c → Far s x d → c ≡ d
  same_distance x c d v w =
      let place : v.place ≡ w.place = ok-injective (sym v.has_place ∙ w.has_place) in
      sym v.distance ∙ ap (λ p. gap s.arm_track p.track) place ∙ w.distance

  -- what the loop over `l` makes of the least distance `d` and the list `kept`; `m` is the least
  pub record NearestTrack (d : ℕ) (kept l r : List (Label × ℕ)) (m : ℕ) : Type 0 where
    pub least : m ≤ d
    pub bounds : (x : Label × ℕ) (c : ℕ) → In x l → Far s x c → m ≤ c
    pub only_far : (x : Label × ℕ) → In x r → (In x kept × (m ≡ d)) ⊎ (In x l × Far s x m)
    pub all_kept : (x : Label × ℕ) → In x kept → m ≡ d → In x r
    pub all_far : (x : Label × ℕ) → In x l → Far s x m → In x r
    pub some_kept : (m ≡ d) ⊎ ((y : Label × ℕ) × In y r)

  -- a head that is not kept
  pub pass :
      (d : ℕ) (kept : List (Label × ℕ)) (y : Label × ℕ) (l r : List (Label × ℕ)) (m : ℕ)
      → ((c : ℕ) → Far s y c → d < c)
      → NearestTrack d kept l r m
      → NearestTrack d kept (y ∷ l) r m
  pass d kept y l r m away n = record {
    least = n.least;
    bounds = λ x c inside f. elim (In-cons x y l inside) [
      | inl same ↦ omega (arith, n.least, away c (subst (λ z. Far s z c) (sym same) f))
      | inr behind ↦ n.bounds x c behind f
    ];
    only_far = λ x inside. elim (n.only_far x inside) [
      | inl before ↦ inl before
      | inr ((j, h), f) ↦ inr ((suc j, h), f)
    ];
    all_kept = n.all_kept;
    all_far = λ x inside f. elim (In-cons x y l inside) [
      | inl same ↦ absurd (omega (arith, n.least, away m (subst (λ z. Far s z m) (sym same) f)))
      | inr behind ↦ n.all_far x behind f
    ];
    some_kept = n.some_kept;
  }

  -- a head on a nearer track than those before
  pub restart :
      (d c : ℕ) (kept : List (Label × ℕ)) (y : Label × ℕ) (l r : List (Label × ℕ)) (m : ℕ)
      → Far s y c
      → c < d
      → NearestTrack c (y ∷ []) l r m
      → NearestTrack d kept (y ∷ l) r m
  restart d c kept y l r m near less n = record {
    least = omega (arith, n.least);
    bounds = λ x e inside f. elim (In-cons x y l inside) [
      | inl same ↦
          omega (arith, n.least, same_distance y c e near (subst (λ z. Far s z e) (sym same) f))
      | inr behind ↦ n.bounds x e behind f
    ];
    only_far = λ x inside. elim (n.only_far x inside) [
      | inl (before, e) ↦ elim (In-cons x y [] before) [
        | inl same ↦
            inr ((0, ap some same), subst (λ z. Far s z m) same (subst (Far s y) (sym e) near))
        | inr (j, h) ↦ absurd (cc)
      ]
      | inr ((j, h), f) ↦ inr ((suc j, h), f)
    ];
    all_kept = λ x inside e. absurd (omega (arith, n.least, e));
    all_far = λ x inside f. elim (In-cons x y l inside) [
      | inl same ↦
          n.all_kept x (0, ap some same)
            (sym (same_distance y c m near (subst (λ z. Far s z m) (sym same) f)))
      | inr behind ↦ n.all_far x behind f
    ];
    some_kept = elim n.some_kept [
      | inl e ↦ inr (y, n.all_kept y (0, refl) e)
      | inr found ↦ inr found
    ];
  }

  -- a head on a track as near as those before
  pub join :
      (d : ℕ) (kept : List (Label × ℕ)) (y : Label × ℕ) (l r : List (Label × ℕ)) (m : ℕ)
      → Far s y d
      → NearestTrack d (kept ++ y ∷ []) l r m
      → NearestTrack d kept (y ∷ l) r m
  join d kept y l r m near n = record {
    least = n.least;
    bounds = λ x e inside f. elim (In-cons x y l inside) [
      | inl same ↦
          omega (arith, n.least, same_distance y d e near (subst (λ z. Far s z e) (sym same) f))
      | inr behind ↦ n.bounds x e behind f
    ];
    only_far = λ x inside. elim (n.only_far x inside) [
      | inl (before, e) ↦ elim (In-append_one x y kept before) [
        | inl old ↦ inl (old, e)
        | inr same ↦
            inr ((0, ap some same), subst (λ z. Far s z m) same (subst (Far s y) (sym e) near))
      ]
      | inr ((j, h), f) ↦ inr ((suc j, h), f)
    ];
    all_kept = λ x inside e. n.all_kept x (In-append_left x y kept inside) e;
    all_far = λ x inside f. elim (In-cons x y l inside) [
      | inl same ↦
          n.all_kept x (subst (λ z. In z (kept ++ y ∷ [])) same (In-append_last y kept))
            (sym (same_distance y d m near (subst (λ z. Far s z m) (sym same) f)))
      | inr behind ↦ n.all_far x behind f
    ];
    some_kept = n.some_kept;
  }
