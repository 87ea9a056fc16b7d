-- ===== src/DiskSim/Run/Seek.antt =====
-- HW-Disk/disk.py, class Disk: a seek, and the rotation and the transfer behind it.
use cs334_operating_systems.Prelude.{
  ℕ, zero, suc, ◌*◌, ◌<◌, ◌≡◌, refl, sym, ap, ◌∙◌, inl, inr, Bool, true, false, List, arith, ltb,
  Bool-cases, Result, ok, ◌>>=◌,
}
use cs334_operating_systems.Prelude.Int.{◌+ℤ◌}
use cs334_operating_systems.DiskSim.Layout.{Place}
use cs334_operating_systems.DiskSim.State.{seek, rotate, xfer, Sim, track_width, arm_over}
use cs334_operating_systems.DiskSim.Run.{
  done_with_seek, rotate_step, seek_step, transfer_step, when, tick, animate,
}
use cs334_operating_systems.DiskSim.Run.Service.{
  marks, Sound, Serves, Moves, in_phase, switch_state-in_phase, marks-in_phase, in_phase-Sound,
  in_phase-Serves, Reaches, after,
}
use cs334_operating_systems.DiskSim.Run.Arm.{arrives, arrives-Moving}
use cs334_operating_systems.DiskSim.Run.Phases.{
  next_angle-lt, from_xfer, from_rotate, Ends, Last, rotate-Ends,
}

module _ (Q : Sim → Type 0) (finished : List Bool) (i : ℕ) (p : Place)
    (last : Last Q finished i p) where
  -- one tick of a disk that seeks
  abbrev from_seek : Sim → Result Sim
  from_seek s = when s.state seek seek_step s >>= from_rotate

  animate-seek : (s : Sim) → s.state ≡ seek → animate s ≡ from_seek (tick s)
  unfolding animate
  animate-seek s e = rw e refl

  -- a disk whose arm is `n` ticks from the track of its request
  pub record Seeks (s : Sim) (n : ℕ) : Type 0 where
    pub same : marks s ≡ finished
    pub sound : Sound s
    pub serves : Serves s i p
    pub moves : Moves s n
    pub to_track : s.arm_target ≡ p.track
    pub to_edge : s.arm_target_x1 ≡ arm_over p.track
    pub seeking : s.state ≡ seek
    pub inside : s.angle < 360

  abbrev moved : Sim → Sim
  moved s = record (tick s) { arm_x1 = s.arm_x1 +ℤ s.arm_speed }

  done_with_seek-arrived :
      (s : Sim)
      → arrives s.arm_x1 s.arm_speed s.arm_target_x1 ≡ true
      → done_with_seek (tick s) ≡ (true, record (moved s) { arm_track = s.arm_target })
  unfolding done_with_seek tick
  done_with_seek-arrived s e = rw e refl

  done_with_seek-on_the_way :
      (s : Sim)
      → arrives s.arm_x1 s.arm_speed s.arm_target_x1 ≡ false
      → done_with_seek (tick s) ≡ (false, moved s)
  unfolding done_with_seek tick
  done_with_seek-on_the_way s e = rw e refl

  pos-seek_speed : (k v : ℕ) → k * v ≡ track_width → 0 < v
  pos-seek_speed k v e = elim (Bool-cases (ltb 0 v)) [
    | inl some_speed ↦ ground arith
    | inr stuck ↦
        let z : v ≡ 0 = ground arith in
        absurd (let f : k * 0 ≡ 40 = rw (sym z) e in omega (arith, f))
  ]

  arrived : Sim → Sim
  arrived s = record (moved s) { arm_track = s.arm_target; rot_begin = (tick s).timer }

  seek_step-arrived :
      (s : Sim) (n : ℕ)
      → Seeks s n
      → arrives s.arm_x1 s.arm_speed s.arm_target_x1 ≡ true
      → seek_step (tick s) ≡ ok (in_phase (arrived s) i rotate)
  unfolding seek_step tick arrived
  seek_step-arrived s n at_s e =
      rw (done_with_seek-arrived s e) (switch_state-in_phase (arrived s) i p rotate at_s.serves)

  seek_step-on_the_way :
      (s : Sim) (n : ℕ)
      → Seeks s n
      → arrives s.arm_x1 s.arm_speed s.arm_target_x1 ≡ false
      → seek_step (tick s) ≡ ok (moved s)
  unfolding seek_step tick
  seek_step-on_the_way s n at_s e = rw (done_with_seek-on_the_way s e) refl

  arrived-Ends :
      (s : Sim) (n : ℕ)
      → Seeks s n
      → s.arm_target_x1 ≡ s.arm_x1 +ℤ s.arm_speed
      → Ends Q from_rotate (in_phase (arrived s) i rotate)
  unfolding arrived tick
  arrived-Ends s n at_s there =
      rotate-Ends Q finished i p last (in_phase (arrived s) i rotate)
        (marks-in_phase s i p rotate at_s.serves refl ∙ at_s.same)
        (in_phase-Sound s i p rotate at_s.serves refl at_s.sound)
        (in_phase-Serves s i p rotate at_s.serves refl) (at_s.to_track, sym there ∙ at_s.to_edge)
        (next_angle-lt s.rotate_speed s.angle) refl

  moved-Seeks : (s : Sim) (n : ℕ) → Seeks s (suc n) → Moves (moved s) n → Seeks (moved s) n
  unfolding tick
  moved-Seeks s n at_s m = record {
    same = at_s.same;
    sound = at_s.sound;
    serves = at_s.serves;
    moves = m;
    to_track = at_s.to_track;
    to_edge = at_s.to_edge;
    seeking = at_s.seeking;
    inside = next_angle-lt s.rotate_speed s.angle;
  }

  -- the tick of a disk that seeks comes to the seek's step
  animate-seek_step :
      (s : Sim) {t : Sim} → s.state ≡ seek → seek_step (tick s) ≡ ok t → animate s ≡ from_rotate t
  unfolding tick
  animate-seek_step s e step =
      animate-seek s e
      ∙ ap (λ phase. when phase seek seek_step (tick s) >>= from_rotate) e
      ∙ ap (λ r. r >>= from_rotate) step

  stays : (s : Sim) → s.state ≡ seek → from_rotate (moved s) ≡ ok (moved s)
  unfolding tick
  stays s e =
      ap (λ phase. when phase rotate rotate_step (moved s) >>= from_xfer) e
      ∙ ap (λ phase. when phase xfer transfer_step (moved s)) e

  pub seek-ends : (n : ℕ) (s : Sim) → Seeks s n → 0 < n → Reaches Q s
  unfolding tick
  seek-ends zero s at_s h = absurd (omega arith)
  seek-ends (suc n) s at_s h =
      elim (arrives-Moving s.arm_x1 s.arm_speed s.arm_target_x1 s.seek_speed n
        (pos-seek_speed at_s.sound.steps s.seek_speed at_s.sound.divides) at_s.moves) [
          | inl (e, there, test) ↦
              let (u, ends, r) = arrived-Ends s (suc n) at_s there in
              after u at_s.serves.running
                (animate-seek_step s at_s.seeking (seek_step-arrived s (suc n) at_s test) ∙ ends) r
          | inr (left, test, m) ↦
              after (moved s) at_s.serves.running
                (animate-seek_step s at_s.seeking (seek_step-on_the_way s (suc n) at_s test)
                  ∙ stays s at_s.seeking)
                (seek-ends n (moved s) (moved-Seeks s n at_s m) left)
        ]
