-- ===== src/DiskSim/Run.antt =====
-- HW-Disk/disk.py, class Disk: GetNextIO, PlanSeek, Animate and Go. The loop of Go runs on fuel.
pub mod Service
pub mod Arm
pub mod Phases
pub mod Seek
pub mod Entries
pub mod Pick
pub mod Next
pub mod Finish
pub mod Completion
pub mod Start
use cs334_operating_systems.Prelude.{
  ℕ, zero, suc, ◌+◌, ◌-◌, ◌%◌, Bool, true, false, ◌&&◌, ◌||◌, List, [], ◌∷◌, ltb, leb, ◌==◌,
  if◌then◌else◌, length, take, Fault, Result, ok, raise, ◌>>=◌, nth,
}
use cs334_operating_systems.Prelude.Int.{ℤ, pos, pos_part, ◌+ℤ◌, ◌-ℤ◌, ltb_ℤ, leb_ℤ}
use cs334_operating_systems.DiskSim.Layout.{Label, Place, place_of}
use cs334_operating_systems.DiskSim.State.{
  Phase, seek, rotate, xfer, done, Policy, fifo, sstf, other, Sim, add_request, arm_over,
  switch_state, update_window, get_window,
}
use cs334_operating_systems.DiskSim.Choice.{gap, do_satf, do_sstf}

-- `requestQueue[0:end]`
abbrev pub head_of : Sim → ℤ → List (Label × ℕ)
head_of s stop = take (pos_part stop) s.request_queue

-- the choice of the policy, and the state with the window that it may have moved
unfoldable pub choose : Sim → Policy → Result ((Label × ℕ) × Sim)
unfolding get_window do_satf do_sstf
choose s fifo = do
  entry ← nth s.request_queue s.request_count
  _ ← do_satf s (entry ∷ [])
  ok (entry, s)
choose s sstf = do
  let (stop, t) = get_window s
  track_list ← do_sstf t (head_of t stop)
  entry ← do_satf t track_list
  ok (entry, t)
choose s other = raise Fault.exit
choose s _ = do let (stop, t) = get_window s; entry ← do_satf t (head_of t stop); ok (entry, t)

unfoldable pub plan_seek : Sim → ℕ → Result Sim
unfolding switch_state
plan_seek s track = do
  t ← switch_state (record s { seek_begin = s.timer }) seek
  if track == t.arm_track
      then switch_state (record t { rot_begin = t.timer }) rotate
      else ok (record t {
        arm_target = track;
        arm_target_x1 = arm_over track;
        arm_speed = if leb t.arm_track track then pos t.seek_speed else pos 0 -ℤ pos t.seek_speed;
      })

unfoldable pub add_late : Sim → Result Sim
unfolding add_request
add_late s =
    if ltb s.late_count (length s.late_requests)
    then (do
      block ← nth s.late_requests s.late_count
      ok (record (add_request s block) { late_count = s.late_count + 1 }))
    else ok s

unfoldable pub get_next_io : Sim → Result Sim
unfolding choose plan_seek add_late place_of
get_next_io s =
    if s.request_count == length s.request_queue then ok (record s { is_done = true }) else (do
      ((block, index), t) ← choose s s.policy
      p ← place_of t.layout.places block
      u ← plan_seek (record t { current_block = block; current_index = pos index }) p.track
      add_late u)

-- `DoneWithSeek`
unfoldable pub done_with_seek : Sim → Bool × Sim
done_with_seek s =
    let x = s.arm_x1 +ℤ s.arm_speed in
    if (ltb_ℤ (pos 0) s.arm_speed && leb_ℤ s.arm_target_x1 x)
      || (ltb_ℤ s.arm_speed (pos 0) && leb_ℤ x s.arm_target_x1)
    then (true, record s { arm_x1 = x; arm_track = s.arm_target })
    else (false, record s { arm_x1 = x })

abbrev pub radially_close_to : Sim → ℕ → ℕ → Bool
radially_close_to s a b = ltb (gap a b) s.rotate_speed

-- the angle where the transfer of the current block ends, and the one where it begins
unfoldable pub end_angle : Sim → Result ℕ
unfolding place_of
end_angle s = do
  p ← place_of s.layout.places s.current_block
  offset ← nth s.layout.block_angle_offset s.arm_track
  ok ((p.angle + offset) % 360)

unfoldable pub begin_angle : Sim → Result ℕ
unfolding place_of
begin_angle s = do
  p ← place_of s.layout.places s.current_block
  offset ← nth s.layout.block_angle_offset s.arm_track
  ok ((p.angle + (360 - offset % 360)) % 360)

-- `DoneWithRotation` is followed by the same change of state in `Animate`
unfoldable pub rotate_step : Sim → Result Sim
unfolding begin_angle switch_state
rotate_step s = do
  a ← begin_angle s
  if radially_close_to s s.angle a
      then switch_state (record s { xfer_begin = s.timer }) xfer
      else ok s

unfoldable pub seek_step : Sim → Result Sim
unfolding done_with_seek switch_state
seek_step s =
    let (arrived, t) = done_with_seek s in
    if arrived then switch_state (record t { rot_begin = t.timer }) rotate else ok t

-- `DoRequestStats`
unfoldable pub do_request_stats : Sim → Sim
do_request_stats s = record s {
  seek_total = s.seek_total +ℤ (pos s.rot_begin -ℤ pos s.seek_begin);
  rot_total = s.rot_total +ℤ (pos s.xfer_begin -ℤ pos s.rot_begin);
  xfer_total = s.xfer_total +ℤ (pos s.timer -ℤ pos s.xfer_begin);
}

-- the next block follows the current one on the track, or is the first of the track behind the last
unfoldable pub follows : ℕ × ℕ → Place → Place → Bool
follows (first, last) p q = (p.block == last && q.block == first) || p.block + 1 == q.block

-- the end of a transfer, from `DoRequestStats` on
unfoldable pub finish : Sim → Result Sim
unfolding do_request_stats switch_state update_window get_next_io follows place_of
finish s = do
  t ← switch_state (do_request_stats s) done
  u ← get_next_io (update_window t)
  p ← place_of u.layout.places s.current_block
  q ← place_of u.layout.places u.current_block
  if p.track == q.track
      then (do
        ends ← nth u.layout.tracks_begin_end u.arm_track
        if follows ends p q
            then switch_state
                (record u { rot_begin = u.timer; seek_begin = u.timer; xfer_begin = u.timer }) xfer
            else ok u)
      else ok u

unfoldable pub transfer_step : Sim → Result Sim
unfolding end_angle switch_state finish
transfer_step s = do
  a ← end_angle s
  if radially_close_to s s.angle a
      then (do t ← switch_state s done; finish (record t { request_count = t.request_count + 1 }))
      else ok s

abbrev pub when : Phase → Phase → (Sim → Result Sim) → Sim → Result Sim
when seek seek f s = f s
when rotate rotate f s = f s
when xfer xfer f s = f s
when _ _ f s = ok s

-- the clock and the angle, which starts again at 0
unfoldable pub tick : Sim → Sim
tick s =
    let angle = s.angle + s.rotate_speed in
    record s { timer = s.timer + 1; angle = if leb 360 angle then 0 else angle }

-- `Animate`: one tick, then the three tests in a row
unfoldable pub animate : Sim → Result Sim
unfolding tick seek_step rotate_step transfer_step
animate s = do
  let s = tick s
  s ← when s.state seek seek_step s
  s ← when s.state rotate rotate_step s
  when s.state xfer transfer_step s

unfoldable pub animate_all : ℕ → Sim → Result Sim
unfolding animate
animate_all zero s = ok s
animate_all (suc fuel) s = if s.is_done then ok s else (do t ← animate s; animate_all fuel t)

-- `Go`; the run has ended if `is_done` is set
unfoldable pub go : ℕ → Sim → Result Sim
unfolding get_next_io animate_all
go fuel s = do t ← get_next_io s; animate_all fuel t
