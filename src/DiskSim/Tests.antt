-- ===== src/DiskSim/Tests.antt =====
-- Runs of the disk at fixed inputs.
use mathlib.Core.Path.{subst}
use cs334_operating_systems.Prelude.{
  position, ℕ, zero, suc, ◌+◌, ◌*◌, ◌≤◌, ◌≡◌, refl, ◌↔◌, inl, inr, Bool, true, false, Option, none,
  some, List, [], ◌∷◌, map, arith, length, get_elem?, key_error, Result, ok, raise, ◌>>=◌, ok_or,
}
use cs334_operating_systems.Prelude.Int.{ℤ, pos, negsuc, ◌+ℤ◌, ◌-ℤ◌, ltb_ℤ, minus_one}
use cs334_operating_systems.Prelude.Text.{codes}
use cs334_operating_systems.DiskSim.Layout.{
  Label, number, text, Layout, init_block_layout, place_of,
}
use cs334_operating_systems.DiskSim.Layout.Blocks.{Placed, init_block_layout_lem}
use cs334_operating_systems.DiskSim.State.{null, fifo, satf, Sim, blank, init}
use cs334_operating_systems.DiskSim.Choice.{wound_down, wound_up, do_satf, do_sstf}
use cs334_operating_systems.DiskSim.Choice.Nearest.{
  Waits, In, In-cons, Known, waiting, do_satf-least,
}
use cs334_operating_systems.DiskSim.Run.{go}
use cs334_operating_systems.DiskSim.Run.Start.{init-go}
use cs334_operating_systems.DiskSim.Choice.Track.{do_sstf-nearest}
use cs334_operating_systems.DiskSim.Choice.Distance.{Far}
use cs334_operating_systems.DiskSim.Choice.Winding.{SameAngle, wound_up-wound_down}
use cs334_operating_systems.DiskSim.Requests.{numbers, texts, make_requests, block_numbers}

-- the layout of the default zoning, 12 blocks on each track
abbrev default_zoning : Layout
default_zoning =
    ok_or (init_block_layout 30 30 30 0)
      (record { places = []; block_angle_offset = []; tracks_begin_end = []; max_block = 0 })

default_zoning_lem : init_block_layout 30 30 30 0 ≡ ok default_zoning
unfolding init_block_layout
default_zoning_lem = refl

default_tracks : get_elem? default_zoning.tracks_begin_end 2 ≡ some (default_zoning.max_block, 35)
unfolding init_block_layout
default_tracks = refl

middle_track : get_elem? default_zoning.tracks_begin_end 1 ≡ some (12, 23)
unfolding init_block_layout
middle_track = refl

abbrev one : ℕ
one = 1

init_block_layout_lem_example :
    Placed default_zoning.places 20 1 × ((one ≡ 2) ↔ (default_zoning.max_block ≤ 20))
init_block_layout_lem_example =
    init_block_layout_lem 30 30 30 0 1 12 23 20 default_zoning default_zoning_lem middle_track
      (omega arith) (omega arith)

abbrev three_blocks : List ℕ
three_blocks = 10 ∷ 24 ∷ 1 ∷ []

three_blocks_low : (j b : ℕ) → get_elem? three_blocks j ≡ some b → b ≤ 35
three_blocks_low zero b h = let e : 10 ≡ b = cc in omega (arith, e)
three_blocks_low (suc zero) b h = let e : 24 ≡ b = cc in omega (arith, e)
three_blocks_low (suc (suc zero)) b h = let e : 1 ≡ b = cc in omega (arith, e)
three_blocks_low (suc (suc (suc j))) b h = absurd (cc)

init-go_example :
    (fuel : ℕ) × (t : Sim) × ((init default_zoning satf 1 1 minus_one (map pos three_blocks) []
        >>= go fuel)
      ≡ ok t)
    × (t.is_done ≡ true)
    × (t.request_count ≡ length three_blocks)
init-go_example =
    init-go 30 30 30 0 35 40 1 1 default_zoning satf three_blocks default_zoning_lem default_tracks
      (λ e. absurd (cc)) (omega arith) (omega arith) three_blocks_low

-- two blocks to a track, fast speeds
abbrev small : Result Sim
small = init_block_layout 180 180 180 0 >>= λ l. init l fifo 40 90 minus_one (pos 1 ∷ pos 4 ∷ []) []

abbrev run_of : ℕ → Result Sim
run_of fuel = small >>= go fuel

-- what a run comes to: the end, the requests, the time and the times of the phases
abbrev summary : Result Sim → Option (Bool × ℕ × ℕ × ℤ × ℤ × ℤ)
summary (raise e) = none
summary (ok s) = some (s.is_done, s.request_count, s.timer, s.seek_total, s.rot_total, s.xfer_total)

run_of-summary : summary (run_of 40) ≡ some (true, 2, 11, pos 2, pos 5, pos 4)
unfolding init_block_layout init go position ◌+ℤ◌ ◌-ℤ◌
run_of-summary = refl

-- A late request that is given by its address stays a text, which has no place.
abbrev late_text : Result Sim
late_text = small >>= λ s. go 40 (record s { late_requests = text (codes "3") ∷ [] })

late_text-raises : late_text ≡ raise key_error
unfolding init_block_layout init go position ◌+ℤ◌ ◌-ℤ◌
late_text-raises = refl

abbrev waiting_disk : Sim
waiting_disk = record (blank default_zoning satf 1 1 minus_one []) {
  request_queue = (number (pos 10), 0) ∷ (number (pos 24), 1) ∷ [];
  request_state = null ∷ null ∷ [];
}

waits_10 : (e : ℤ) × Waits waiting_disk e (number (pos 10)) 0
unfolding init_block_layout place_of
waits_10 = (
  _,
  record {
    phase = null;
    has_phase = refl;
    not_done = refl;
    place = _;
    has_place = refl;
    offset = 15;
    has_offset = refl;
    estimated = refl;
  },
)

waits_24 : (e : ℤ) × Waits waiting_disk e (number (pos 24)) 1
unfolding init_block_layout place_of
waits_24 = (
  _,
  record {
    phase = null;
    has_phase = refl;
    not_done = refl;
    place = _;
    has_place = refl;
    offset = 15;
    has_offset = refl;
    estimated = refl;
  },
)

all-Known : (x : Label × ℕ) → In x waiting_disk.request_queue → Known waiting_disk x
all-Known x inside = elim (In-cons x (number (pos 10), 0) ((number (pos 24), 1) ∷ []) inside) [
  | inl same ↦ subst (Known waiting_disk) same (waiting waits_10.0 _ _ waits_10.1)
  | inr behind ↦ elim (In-cons x (number (pos 24), 1) [] behind) [
    | inl same ↦ subst (Known waiting_disk) same (waiting waits_24.0 _ _ waits_24.1)
    | inr (j, h) ↦ absurd (cc)
  ]
]

do_satf-least_example :
    (e : ℤ) × (b : Label) × (i : ℕ) × (do_satf waiting_disk waiting_disk.request_queue ≡ ok (b, i))
    × In (b, i) waiting_disk.request_queue
    × Waits waiting_disk e b i
    × ((f : ℤ) (c : Label) (j : ℕ)
        → In (c, j) waiting_disk.request_queue
        → Waits waiting_disk f c j
        → ltb_ℤ f e ≡ false)
do_satf-least_example =
    do_satf-least waiting_disk waiting_disk.request_queue waits_10.0 (number (pos 10)) 0 all-Known
      (0, refl) waits_10.1

block_24-Far : Far waiting_disk (number (pos 24), 1) 2
unfolding init_block_layout place_of
block_24-Far = record {
  phase = null;
  has_phase = refl;
  not_done = refl;
  place = _;
  has_place = refl;
  distance = refl;
}

do_sstf-nearest_example :
    (r : List (Label × ℕ)) × (m : ℕ) × (do_sstf waiting_disk waiting_disk.request_queue ≡ ok r)
    × (m ≤ 2)
    × ((y : Label × ℕ) → In y r ↔ (In y waiting_disk.request_queue × Far waiting_disk y m))
    × ((y : Label × ℕ) (c : ℕ) → In y waiting_disk.request_queue → Far waiting_disk y c → m ≤ c)
do_sstf-nearest_example =
    do_sstf-nearest waiting_disk waiting_disk.request_queue (number (pos 24), 1) 2 all-Known
      (1, refl) block_24-Far (omega arith)

wound_up-wound_down_example :
    (ltb_ℤ (wound_up (wound_down (negsuc 799))) (pos 0) ≡ false)
    × (ltb_ℤ (pos 360) (wound_up (wound_down (negsuc 799))) ≡ false)
    × SameAngle (wound_up (wound_down (negsuc 799))) (negsuc 799)
wound_up-wound_down_example = wound_up-wound_down (negsuc 799)

-- two requests below the block 24, the first of the inner track, and the texts of given addresses
drawn_requests :
    make_requests 24 (λ i. 20 + 10 * i) (codes "-1") (codes "2,-1,0")
    ≡ ok (numbers (pos 20 ∷ pos 6 ∷ []))
unfolding make_requests
drawn_requests = refl

given_requests :
    make_requests 24 (λ i. 0) (codes "7,30") (codes "2,-1,0")
    ≡ ok (texts (codes "7" ∷ codes "30" ∷ []))
unfolding make_requests
given_requests = refl

given_numbers : block_numbers (codes "7" ∷ codes "30" ∷ []) ≡ ok (pos 7 ∷ pos 30 ∷ [])
unfolding block_numbers
given_numbers = refl
