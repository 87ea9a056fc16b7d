-- ===== src/DiskSim/Run/Start.antt =====
-- HW-Disk/disk.py, class Disk: __init__, and the whole simulation.
use native.Mathlib.Nat.{mul-mod_left}
use cs334_operating_systems.Prelude.{
  ℕ, zero, suc, ◌+◌, ◌*◌, ◌%◌, ◌≤◌, ◌<◌, ◌≡◌, refl, sym, ap, ◌∙◌, ◌≢◌, ◌⊎◌, inl, inr, Bool, true,
  false, not, ◌&&◌, some, List, [], ◌∷◌, ◌++◌, map, arith, ltb, ◌==◌, Bool-cases, length, get_elem?,
  length-append, length-map, ok, ◌>>=◌,
}
use cs334_operating_systems.Prelude.Int.{pos, minus_one}
use cs334_operating_systems.DiskSim.Layout.{
  Label, number, Place, Layout, init_block_layout, find_place, place_of,
}
use cs334_operating_systems.DiskSim.State.{
  Phase, null, Policy, other, Sim, add_queue_entry, add_request, add_all, track_width, blank, init,
}
use cs334_operating_systems.DiskSim.Choice.{is_finished}
use cs334_operating_systems.DiskSim.Run.{go}
use cs334_operating_systems.DiskSim.Run.Service.{count_done, Sound, Rests}
use cs334_operating_systems.DiskSim.Run.Completion.{go-Over}
use cs334_operating_systems.DiskSim.Layout.Tables.{IsLaidOut, init_block_layout-IsLaidOut}

-- a queue on which nothing has been done
record Fresh (layout : Layout) (queue : List (Label × ℕ)) (states : List Phase) : Type 0 where
  numbered : (j : ℕ) (b : Label) (i : ℕ) → get_elem? queue j ≡ some (b, i) → i ≡ j
  placed :
      (j : ℕ) (b : Label) (i : ℕ)
      → get_elem? queue j ≡ some (b, i)
      → (p : Place) × (place_of layout.places b ≡ ok p) × (p.track < 3)
  sizes : length states ≡ length queue
  none_done : count_done (map is_finished states) ≡ 0
  unmarked : (j : ℕ) (m : Bool) → get_elem? (map is_finished states) j ≡ some m → m ≡ false

module _ {ℓ} {A : Type ℓ} where
  get-append_one :
      (l : List A) (x y : A) (j : ℕ)
      → get_elem? (l ++ x ∷ []) j ≡ some y
      → (get_elem? l j ≡ some y) ⊎ ((j ≡ length l) × (x ≡ y))
  get-append_one [] x y zero h = inr (refl, cc)
  get-append_one [] x y (suc j) h = absurd (cc)
  get-append_one (z ∷ l) x y zero h = inl h
  get-append_one (z ∷ l) x y (suc j) h = elim (get-append_one l x y j h) [
    | inl before ↦ inl before
    | inr (at, same) ↦ inr (ap suc at, same)
  ]

map-append_null :
    (l : List Phase) → map is_finished (l ++ null ∷ []) ≡ map is_finished l ++ false ∷ []
map-append_null [] = refl
map-append_null (x ∷ l) = ap (◌∷◌ (is_finished x)) (map-append_null l)

count_done-append_false : (l : List Bool) → count_done (l ++ false ∷ []) ≡ count_done l
unfolding count_done
count_done-append_false [] = refl
count_done-append_false (true ∷ l) = ap suc (count_done-append_false l)
count_done-append_false (false ∷ l) = count_done-append_false l

add_one :
    (layout : Layout) (q : List (Label × ℕ)) (states : List Phase) (b : ℕ) (p : Place)
    → find_place layout.places b ≡ some p
    → p.track < 3
    → Fresh layout q states
    → Fresh layout (q ++ (number (pos b), length q) ∷ []) (states ++ null ∷ [])
unfolding place_of
add_one layout q states b p found on f = record {
  numbered = λ j c i h. elim (get-append_one q (number (pos b), length q) (c, i) j h) [
    | inl before ↦ f.numbered j c i before
    | inr (at, same) ↦ sym (ap (λ x. x.1) same) ∙ sym at
  ];
  placed = λ j c i h. elim (get-append_one q (number (pos b), length q) (c, i) j h) [
    | inl before ↦ f.placed j c i before
    | inr (at, same) ↦
        (p, ap (place_of layout.places) (sym (ap (λ x. x.0) same)) ∙ rw found refl, on)
  ];
  sizes =
      length-append states (null ∷ [])
      ∙ ap (λ n. n + 1) f.sizes
      ∙ sym (length-append q ((number (pos b), length q) ∷ []));
  none_done =
      ap count_done (map-append_null states)
      ∙ count_done-append_false (map is_finished states)
      ∙ f.none_done;
  unmarked = λ j m h.
      elim (get-append_one (map is_finished states) false m j
        (ap (λ l. get_elem? l j) (sym (map-append_null states)) ∙ h)) [
          | inl before ↦ f.unmarked j m before
          | inr (at, same) ↦ sym same
        ];
}

Fresh-empty : (layout : Layout) → Fresh layout [] []
unfolding count_done
Fresh-empty layout = record {
  numbered = λ j b i h. absurd (cc);
  placed = λ j b i h. absurd (cc);
  sizes = refl;
  none_done = refl;
  unmarked = λ j m h. absurd (cc);
}

-- the blocks of the requests are on the disk
abbrev OnDisk : Layout → List ℕ → Type 0
OnDisk layout l =
    (j b : ℕ)
    → get_elem? l j ≡ some b
    → (p : Place) × (find_place layout.places b ≡ some p) × (p.track < 3)

add_all-Fresh :
    (s : Sim) (l : List ℕ)
    → Fresh s.layout s.request_queue s.request_state
    → OnDisk s.layout l
    → (q : List (Label × ℕ)) × (states : List Phase) × (add_all s (map pos l)
        ≡ record s { request_queue = q; request_state = states })
      × Fresh s.layout q states
      × (length q ≡ length s.request_queue + length l)
unfolding add_all add_request add_queue_entry
add_all-Fresh s [] f on = (s.request_queue, s.request_state, refl, f, omega arith)
add_all-Fresh s (b ∷ l) f on =
    let (p, found, track) = on 0 b refl in
    let (q, states, e, g, size) =
      add_all-Fresh (add_request s (number (pos b))) l
        (add_one s.layout s.request_queue s.request_state b p found track f)
        (λ j c h. on (suc j) c h) in
    (
      q,
      states,
      e,
      g,
      omega (
        arith,
        size,
        length-append s.request_queue ((number (pos b), length s.request_queue) ∷ []),
      ),
    )

module _ (layout : Layout) (last : ℕ) (laid : IsLaidOut layout last) (policy : Policy)
    (known : policy ≢ other) (k seek_speed rotate_speed : ℕ)
    (divides : k * seek_speed ≡ track_width) (turns : 0 < rotate_speed) (requests : List ℕ)
    (low : (j b : ℕ) → get_elem? requests j ≡ some b → b ≤ last) where
  speed_fits : (ltb 1 seek_speed && not (track_width % seek_speed == 0)) ≡ false
  speed_fits = elim (Bool-cases (ltb 1 seek_speed)) [
    | inl fast ↦
        let even : track_width % seek_speed ≡ 0 =
          ap (λ x. x % seek_speed) (sym divides) ∙ mul-mod_left k seek_speed in
        rw (fast, even) refl
    | inr slow ↦ rw slow refl
  ]

  -- the disk that `__init__` makes is ready to serve
  init-Sound :
      (s : Sim) × (init layout policy seek_speed rotate_speed minus_one (map pos requests) []
        ≡ ok s)
      × Sound s
      × Rests s 0
      × (s.angle ≡ 0)
      × (s.is_done ≡ false)
      × (length s.request_queue ≡ length requests)
  unfolding init
  init-Sound =
      let s0 : Sim = blank layout policy seek_speed rotate_speed minus_one [] in
      let (q, states, e, f, size) =
        add_all-Fresh s0 requests (Fresh-empty layout) (λ j b h. laid.placed b (low j b h)) in
      (
        record s0 { request_queue = q; request_state = states },
        rw speed_fits (ap ok e),
        record {
          turns = turns;
          steps = k;
          divides = divides;
          offsets = laid.offsets;
          ends = laid.ends;
          numbered = f.numbered;
          placed = f.placed;
          sizes = length-map states is_finished ∙ f.sizes;
          counted = f.none_done;
          known = known;
          whole = refl;
          no_late = refl;
          in_order = λ _ j m h. f.unmarked j m h ∙ sym (ground arith);
        },
        (refl, refl),
        refl,
        refl,
        size ∙ omega arith,
      )

-- With a layout, a known policy, no window and no late requests, a seek speed that divides
-- the width of a track, a rotation, and requests for blocks of the disk, the program ends after some
-- number of ticks, and it counts the end of a transfer for each request.
pub init-go :
    (outer middle inner skew last k seek_speed rotate_speed : ℕ) (layout : Layout) (policy : Policy)
    (requests : List ℕ)
    → init_block_layout outer middle inner skew ≡ ok layout
    → get_elem? layout.tracks_begin_end 2 ≡ some (layout.max_block, last)
    → policy ≢ other
    → k * seek_speed ≡ track_width
    → 0 < rotate_speed
    → ((j b : ℕ) → get_elem? requests j ≡ some b → b ≤ last)
    → (fuel : ℕ) × (t : Sim) × ((init layout policy seek_speed rotate_speed minus_one
            (map pos requests)
            []
          >>= go fuel)
        ≡ ok t)
      × (t.is_done ≡ true)
      × (t.request_count ≡ length requests)
init-go outer middle inner skew last k seek_speed rotate_speed layout policy requests made ends
      known divides turns low =
    let laid = init_block_layout-IsLaidOut outer middle inner skew last layout made ends in
    let (s, e, sound, rests, zero_angle, running, size) =
      init-Sound layout last laid policy known k seek_speed rotate_speed divides turns requests
        low in
    let (fuel, t, ran, over) =
      go-Over s 0 sound rests (omega arith) (omega (arith, zero_angle)) running in
    (fuel, t, ap (λ r. r >>= go fuel) e ∙ ran, over.stopped, over.all_counted ∙ size)
