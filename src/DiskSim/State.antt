-- ===== src/DiskSim/State.antt =====
-- HW-Disk/disk.py, class Disk: the state, __init__ and the queue. Speeds are whole numbers, and the
-- coordinates of the arm are those of the source.
use cs334_operating_systems.Prelude.{
  ℕ, ◌+◌, ◌*◌, ◌%◌, Bool, true, false, not, ◌&&◌, List, [], ◌∷◌, ◌++◌, ltb, ◌==◌, if◌then◌else◌,
  length, Fault, Result, ok, raise, ◌>>=◌, item_at, set_at,
}
use cs334_operating_systems.Prelude.Int.{
  ℤ, pos, pos_part, ◌+ℤ◌, ltb_ℤ, eq_ℤ, leb_ℤ, minus_one, mod_floor,
}
use cs334_operating_systems.DiskSim.Layout.{Label, number, Layout}

pub data Phase : Type 0 where
  null seek rotate xfer done : Phase

pub data Policy : Type 0 where
  fifo satf bsatf sstf other : Policy

pub record Sim : Type 0 where
  pub layout : Layout
  pub policy : Policy
  pub seek_speed : ℕ
  pub rotate_speed : ℕ
  pub window : ℤ
  pub curr_window : ℤ
  pub fair_window : ℤ
  pub late_requests : List Label
  pub late_count : ℕ
  pub request_count : ℕ
  pub request_queue : List (Label × ℕ)
  pub request_state : List Phase
  pub current_block : Label
  pub current_index : ℤ
  pub state : Phase
  pub arm_track : ℕ
  pub arm_x1 : ℤ
  pub arm_speed : ℤ
  pub arm_target : ℕ
  pub arm_target_x1 : ℤ
  pub angle : ℕ
  pub timer : ℕ
  pub seek_begin : ℕ
  pub rot_begin : ℕ
  pub xfer_begin : ℕ
  pub seek_total : ℤ
  pub rot_total : ℤ
  pub xfer_total : ℤ
  pub is_done : Bool

-- `AddQueueEntry`
unfoldable pub add_queue_entry : Sim → Label → ℕ → Sim
add_queue_entry s block index = record s {
  request_queue = s.request_queue ++ (block, index) ∷ [];
  request_state = s.request_state ++ null ∷ [];
}

-- `AddRequest`: a late request is not turned into a number
unfoldable pub add_request : Sim → Label → Sim
unfolding add_queue_entry
add_request s block = add_queue_entry s block (length s.request_queue)

unfoldable pub add_all : Sim → List ℤ → Sim
unfolding add_request
add_all s [] = s
add_all s (b ∷ l) = add_all (add_request s (number b)) l

abbrev pub is_bsatf : Policy → Bool
is_bsatf bsatf = true
is_bsatf _ = false

abbrev pub track_width : ℕ
track_width = 40

-- the left edge of the arm over a track
abbrev pub arm_over : ℕ → ℤ
arm_over track = pos (90 + track_width * track)

-- the attributes that `__init__` sets before the requests; one that is set before it is read is 0
abbrev pub blank : Layout → Policy → ℕ → ℕ → ℤ → List Label → Sim
blank layout policy seek_speed rotate_speed window late_requests = record {
  layout = layout;
  policy = policy;
  seek_speed = seek_speed;
  rotate_speed = rotate_speed;
  window = window;
  curr_window = window;
  fair_window = if is_bsatf policy && not (eq_ℤ window minus_one) then window else minus_one;
  late_requests = late_requests;
  late_count = 0;
  request_count = 0;
  request_queue = [];
  request_state = [];
  current_block = number minus_one;
  current_index = minus_one;
  state = null;
  arm_track = 0;
  arm_x1 = arm_over 0;
  arm_speed = pos seek_speed;
  arm_target = 0;
  arm_target_x1 = pos 0;
  angle = 0;
  timer = 0;
  seek_begin = 0;
  rot_begin = 0;
  xfer_begin = 0;
  seek_total = pos 0;
  rot_total = pos 0;
  xfer_total = pos 0;
  is_done = false;
}

-- `__init__`
unfoldable pub init : Layout → Policy → ℕ → ℕ → ℤ → List ℤ → List Label → Result Sim
unfolding add_all
init layout policy seek_speed rotate_speed window requests late_requests =
    if ltb 1 seek_speed && not (track_width % seek_speed == 0)
    then raise Fault.exit
    else ok (add_all (blank layout policy seek_speed rotate_speed window late_requests) requests)

-- `SwitchState`
unfoldable pub switch_state : Sim → Phase → Result Sim
switch_state s phase = do
  _ ← item_at s.request_state s.current_index
  ok (record s { state = phase; request_state = set_at s.request_state s.current_index phase })

-- `UpdateWindow`
unfoldable pub update_window : Sim → Sim
update_window s =
    if eq_ℤ s.fair_window minus_one
      && (ltb_ℤ (pos 0) s.curr_window && ltb_ℤ s.curr_window (pos (length s.request_queue)))
    then record s { curr_window = s.curr_window +ℤ pos 1 }
    else s

-- `GetWindow`: the end of the window, which it may move
unfoldable pub get_window : Sim → ℤ × Sim
get_window s =
    if leb_ℤ s.curr_window minus_one
    then (pos (length s.request_queue), s)
    else if not (eq_ℤ s.fair_window minus_one)
        && (ltb 0 s.request_count
            && eq_ℤ (mod_floor (pos s.request_count) (pos_part s.fair_window)) (pos 0))
    then (s.curr_window +ℤ s.fair_window, record s { curr_window = s.curr_window +ℤ s.fair_window })
    else (s.curr_window, s)
