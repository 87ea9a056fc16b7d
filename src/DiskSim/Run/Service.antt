-- ===== src/DiskSim/Run/Service.antt =====
-- HW-Disk/disk.py, class Disk: the books of a disk that serves requests, all of them known from the start.
use mathlib.Core.Path.{subst}
use cs334_operating_systems.Prelude.{
  ℕ, zero, suc, ◌+◌, ◌*◌, ◌<◌, ◌≡◌, refl, sym, ap, ◌∙◌, ◌≢◌, Bool, true, false, some, List, [], ◌∷◌,
  map, ltb, if◌then◌else◌, length, get_elem?, set, ok, ◌>>=◌, nth, position_get, map-set_same,
}
use cs334_operating_systems.Prelude.Int.{ℤ, pos, ◌-ℤ◌, leb_ℤ, minus_one}
use cs334_operating_systems.DiskSim.Layout.{Label, Place, Layout, place_of}
use cs334_operating_systems.DiskSim.State.{
  Phase, Policy, fifo, other, Sim, track_width, arm_over, switch_state,
}
use cs334_operating_systems.DiskSim.Choice.{is_finished}
use cs334_operating_systems.DiskSim.Run.{animate, animate_all}

-- which requests are done
abbrev pub marks : Sim → List Bool
marks s = map is_finished s.request_state

unfoldable pub count_done : List Bool → ℕ
count_done [] = 0
count_done (true ∷ l) = suc (count_done l)
count_done (false ∷ l) = count_done l

-- The books of a run without late requests, under a policy that looks at the whole queue.
pub record Books (layout : Layout) (policy : Policy) (seek_speed rotate_speed : ℕ) (curr_window : ℤ)
    (late_requests : List Label) (late_count : ℕ) (queue : List (Label × ℕ)) (finished : List Bool)
    (request_count : ℕ) : Type 0 where
  pub turns : 0 < rotate_speed
  pub steps : ℕ
  pub divides : steps * seek_speed ≡ track_width
  pub offsets : (t : ℕ) → t < 3 → (o : ℕ) × (nth layout.block_angle_offset t ≡ ok o)
  pub ends : (t : ℕ) → t < 3 → (e : ℕ × ℕ) × (nth layout.tracks_begin_end t ≡ ok e)
  pub numbered : (j : ℕ) (b : Label) (i : ℕ) → get_elem? queue j ≡ some (b, i) → i ≡ j
  pub placed :
      (j : ℕ) (b : Label) (i : ℕ)
      → get_elem? queue j ≡ some (b, i)
      → (p : Place) × (place_of layout.places b ≡ ok p) × (p.track < 3)
  pub sizes : length finished ≡ length queue
  pub counted : count_done finished ≡ request_count
  pub known : policy ≢ other
  pub whole : leb_ℤ curr_window minus_one ≡ true
  pub no_late : ltb late_count (length late_requests) ≡ false
  pub in_order :
      policy ≡ fifo → (j : ℕ) (m : Bool) → get_elem? finished j ≡ some m → m ≡ ltb j request_count

pub get-map_back :
    (f : Phase → Bool) (l : List Phase) (i : ℕ) (b : Bool)
    → get_elem? (map f l) i ≡ some b
    → (a : Phase) × (get_elem? l i ≡ some a) × (f a ≡ b)
get-map_back f [] i b h = absurd (cc)
get-map_back f (x ∷ l) zero b h = (x, refl, cc)
get-map_back f (x ∷ l) (suc i) b h = get-map_back f l i b h

abbrev pub Sound : Sim → Type 0
Sound s =
    Books s.layout s.policy s.seek_speed s.rotate_speed s.curr_window s.late_requests s.late_count
      s.request_queue (marks s) s.request_count

-- the current request, which is not done, and its place
pub record Serving (layout : Layout) (index : ℤ) (block : Label) (queue : List (Label × ℕ))
    (finished : List Bool) (is_done : Bool) (policy : Policy) (request_count : ℕ) (i : ℕ)
    (p : Place) : Type 0 where
  pub numbered : index ≡ pos i
  pub entry : get_elem? queue i ≡ some (block, i)
  pub waits : get_elem? finished i ≡ some false
  pub place : place_of layout.places block ≡ ok p
  pub on_disk : p.track < 3
  pub running : is_done ≡ false
  pub turn : policy ≡ fifo → i ≡ request_count

abbrev pub Serves : Sim → ℕ → Place → Type 0
Serves s i p =
    Serving s.layout s.current_index s.current_block s.request_queue (marks s) s.is_done s.policy
      s.request_count i p

-- the arm rests over a track
abbrev pub Rests : Sim → ℕ → Type 0
Rests s track = (s.arm_track ≡ track) × (s.arm_x1 ≡ arm_over track)

-- The arm is `n` ticks from the place where it is to stop.
pub data Moving (x1 arm_speed target : ℤ) (seek_speed n : ℕ) : Type 0 where
  inward :
      (x : ℕ)
      → x1 ≡ pos x
      → arm_speed ≡ pos seek_speed
      → target ≡ pos (x + n * seek_speed)
      → Moving x1 arm_speed target seek_speed n
  outward :
      (x : ℕ)
      → x1 ≡ pos (x + n * seek_speed)
      → arm_speed ≡ pos 0 -ℤ pos seek_speed
      → target ≡ pos x
      → Moving x1 arm_speed target seek_speed n

abbrev pub Moves : Sim → ℕ → Type 0
Moves s n = Moving s.arm_x1 s.arm_speed s.arm_target_x1 s.seek_speed n

-- the current request in another phase that is not the last
abbrev pub in_phase : Sim → ℕ → Phase → Sim
in_phase s i phase = record s { state = phase; request_state = set s.request_state i phase }

pub switch_state-at :
    (s : Sim) (i : ℕ) (phase old : Phase)
    → s.current_index ≡ pos i
    → get_elem? s.request_state i ≡ some old
    → switch_state s phase ≡ ok (in_phase s i phase)
unfolding switch_state
switch_state-at s i phase old n e = rw (n, position_get s.request_state i old e, e) refl

module _ (s : Sim) (i : ℕ) (p : Place) (phase : Phase) (serves : Serves s i p) where
  has_phase : (old : Phase) × (get_elem? s.request_state i ≡ some old) × (is_finished old ≡ false)
  has_phase = get-map_back is_finished s.request_state i false serves.waits

  pub switch_state-in_phase : switch_state s phase ≡ ok (in_phase s i phase)
  switch_state-in_phase =
      let (old, e, _) = has_phase in switch_state-at s i phase old serves.numbered e

  pub marks-in_phase : is_finished phase ≡ false → marks (in_phase s i phase) ≡ marks s
  marks-in_phase h =
      let (old, e, open_before) = has_phase in
      map-set_same is_finished s.request_state i old phase e (h ∙ sym open_before)

  pub in_phase-Sound : is_finished phase ≡ false → Sound s → Sound (in_phase s i phase)
  in_phase-Sound h sound =
      subst
        (λ m.
          Books s.layout s.policy s.seek_speed s.rotate_speed s.curr_window s.late_requests
            s.late_count s.request_queue m s.request_count)
        (sym (marks-in_phase h)) sound

  pub in_phase-Serves : is_finished phase ≡ false → Serves (in_phase s i phase) i p
  in_phase-Serves h =
      subst
        (λ m.
          Serving s.layout s.current_index s.current_block s.request_queue m s.is_done s.policy
            s.request_count i p)
        (sym (marks-in_phase h)) serves

-- what the ticks of a run come to
pub data Reaches (Q : Sim → Type 0) : Sim → Type 0 where
  here : {s : Sim} → Q s → Reaches Q s
  after : {s : Sim} (t : Sim) → s.is_done ≡ false → animate s ≡ ok t → Reaches Q t → Reaches Q s

pub animate_all-Reaches :
    (Q : Sim → Type 0) (s : Sim)
    → Reaches Q s
    → ((t : Sim) → Q t → t.is_done ≡ true)
    → (fuel : ℕ) × (t : Sim) × (animate_all fuel s ≡ ok t) × Q t
unfolding animate_all
animate_all-Reaches Q s (here q) stop = (0, s, refl, q)
animate_all-Reaches Q s (after t on step r) stop =
    let (fuel, u, e, q) = animate_all-Reaches Q t r stop in
    (
      suc fuel,
      u,
      ap (λ b. if b then ok s else (animate s >>= animate_all fuel)) on
          ∙ ap (λ r. r >>= animate_all fuel) step
          ∙ e,
      q,
    )
