-- ===== src/DiskSim/Choice.antt =====
-- HW-Disk/disk.py, class Disk: DoSATF and DoSSTF. The estimates are exact and in units of
-- 1 / rotateSpeed, where the source divides floating-point numbers.
pub mod Nearest
pub mod Winding
pub mod Distance
pub mod Track
use cs334_operating_systems.Prelude.{
  ℕ, zero, suc, ◌+◌, ◌-◌, ◌*◌, ◌/◌, Bool, true, false, Option, none, some, List, [], ◌∷◌, ◌++◌, ltb,
  leb, ◌==◌, if◌then◌else◌, Fault, Result, ok, raise, ◌>>=◌, or_raise, nth,
}
use cs334_operating_systems.Prelude.Int.{ℤ, pos, pos_part, neg_part, ◌+ℤ◌, ◌-ℤ◌, ltb_ℤ}
use cs334_operating_systems.DiskSim.Layout.{Label, Place, place_of}
use cs334_operating_systems.DiskSim.State.{Phase, done, Sim, track_width}

abbrev pub gap : ℕ → ℕ → ℕ
gap a b = if leb a b then b - a else a - b

abbrev pub is_finished : Phase → Bool
is_finished done = true
is_finished _ = false

-- `while x > 360.0: x -= 360.0`, with fuel
unfoldable pub wind_down : ℕ → ℤ → ℤ
wind_down zero x = x
wind_down (suc k) x = let rest = wind_down k (x -ℤ pos 360) in if ltb_ℤ (pos 360) x then rest else x

-- `while x < 0.0: x += 360.0`, with fuel
unfoldable pub wind_up : ℕ → ℤ → ℤ
wind_up zero x = x
wind_up (suc k) x = let rest = wind_up k (x +ℤ pos 360) in if ltb_ℤ x (pos 0) then rest else x

-- an integer's distance from 0 is fuel enough, since each round moves it by 360
abbrev pub wound_down : ℤ → ℤ
wound_down x = wind_down (pos_part x) x

abbrev pub wound_up : ℤ → ℤ
wound_up x = wind_up (neg_part x) x

-- `seekEst`; the seek speed divides the width of a track
abbrev pub seek_estimate : Sim → Place → ℕ
seek_estimate s p = track_width / s.seek_speed * gap s.arm_track p.track

unfoldable pub estimate : Sim → Place → ℕ → ℤ
unfolding wind_down wind_up
estimate s p angle_offset =
    let seek_est = seek_estimate s p in
    let arrival = wound_down (pos (s.angle + seek_est * s.rotate_speed)) in
    let rot_dist = wound_up (wound_down (pos p.angle -ℤ pos angle_offset -ℤ arrival)) in
    pos (seek_est * s.rotate_speed) +ℤ rot_dist +ℤ pos (2 * angle_offset)

abbrev pub Best : Type 0
Best = Option (ℤ × Label × ℕ)

-- is the estimate the first, or less than the least so far?
unfoldable pub improves : ℤ → Best → Bool
improves est none = true
improves est (some (least, block, index)) = ltb_ℤ est least

-- the loop of `DoSATF`
unfoldable pub satf_from : Sim → Best → List (Label × ℕ) → Result Best
unfolding estimate improves place_of
satf_from s best [] = ok best
satf_from s best ((block, index) ∷ l) = do
  phase ← nth s.request_state index
  if is_finished phase then satf_from s best l else (do
    p ← place_of s.layout.places block
    angle_offset ← nth s.layout.block_angle_offset p.track
    let est = estimate s p angle_offset
    satf_from s (if improves est best then some (est, block, index) else best) l)

unfoldable pub do_satf : Sim → List (Label × ℕ) → Result (Label × ℕ)
unfolding satf_from
do_satf s l = do
  best ← satf_from s none l
  (est, block, index) ← or_raise Fault.assertion best
  ok (block, index)

abbrev pub max_tracks : ℕ
max_tracks = 1000

-- the loop of `DoSSTF`: the least distance so far, and the requests at that distance
unfoldable pub sstf_from : Sim → ℕ → List (Label × ℕ) → List (Label × ℕ) → Result (List (Label × ℕ))
unfolding place_of
sstf_from s min_dist track_list [] = ok track_list
sstf_from s min_dist track_list ((block, index) ∷ l) = do
  phase ← nth s.request_state index
  if is_finished phase then sstf_from s min_dist track_list l else (do
    p ← place_of s.layout.places block
    let dist = gap s.arm_track p.track
    if ltb dist min_dist
        then sstf_from s dist ((block, index) ∷ []) l
        else if dist == min_dist
        then sstf_from s min_dist (track_list ++ (block, index) ∷ []) l
        else sstf_from s min_dist track_list l)

abbrev pub not_empty : List (Label × ℕ) → Result (List (Label × ℕ))
not_empty [] = raise Fault.assertion
not_empty l = ok l

unfoldable pub do_sstf : Sim → List (Label × ℕ) → Result (List (Label × ℕ))
unfolding sstf_from
do_sstf s l = do track_list ← sstf_from s max_tracks [] l; not_empty track_list
