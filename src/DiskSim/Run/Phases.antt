-- ===== src/DiskSim/Run/Phases.antt =====
-- HW-Disk/disk.py, class Disk: the phases of a request.
use cs334_operating_systems.Prelude.{
  ℕ, zero, suc, ◌+◌, ◌-◌, ◌%◌, ◌<◌, ◌≡◌, refl, ap, ◌∙◌, inl, inr, Bool, true, false, List, arith,
  ltb, leb, if◌then◌else◌, Bool-cases, Result, ok, ◌>>=◌, nth,
}
use cs334_operating_systems.DiskSim.Layout.{Place}
use cs334_operating_systems.DiskSim.State.{rotate, xfer, done, Sim, switch_state}
use cs334_operating_systems.DiskSim.Choice.{gap}
use cs334_operating_systems.DiskSim.Run.{
  end_angle, begin_angle, rotate_step, finish, transfer_step, when, tick, animate,
}
use cs334_operating_systems.DiskSim.Run.Service.{
  marks, Sound, Serves, Rests, in_phase, switch_state-in_phase, marks-in_phase, in_phase-Sound,
  in_phase-Serves, Reaches, after,
}
use cs334_operating_systems.Prelude.DivMod.{mod-lt_pos}

-- the disk at another time and angle
abbrev pub at : Sim → ℕ → ℕ → Sim
at s timer angle = record s { timer = timer; angle = angle }

-- how far the disk has to turn to the angle `a`, but for the last tick
abbrev to_go : ℕ → ℕ → ℕ → ℕ
to_go speed angle a = if leb (angle + speed) a then a - angle else 360 + a - angle

abbrev next_angle : ℕ → ℕ → ℕ
next_angle speed angle = if leb 360 (angle + speed) then 0 else angle + speed

to_go-next_angle :
    (speed angle a : ℕ)
    → 0 < speed
    → angle < 360
    → a < 360
    → ltb (gap (next_angle speed angle) a) speed ≡ false
    → to_go speed (next_angle speed angle) a < to_go speed angle a
to_go-next_angle speed angle a pos_speed inside on far = ground arith

pub next_angle-lt : (speed angle : ℕ) → next_angle speed angle < 360
next_angle-lt speed angle = ground arith

-- A phase `f` that waits for the angle `a` comes to its end.
module _ (Q : Sim → Type 0) (s : Sim) (f : Sim → Result Sim) (a : ℕ)
    (pos_speed : 0 < s.rotate_speed) (on : a < 360) (running : s.is_done ≡ false)
    (ticks : (time angle : ℕ) → animate (at s time angle) ≡ f (tick (at s time angle)))
    (waits : (time angle : ℕ)
      → ltb (gap angle a) s.rotate_speed ≡ false
      → f (at s time angle) ≡ ok (at s time angle))
    (stops : (time angle : ℕ)
      → angle < 360
      → ltb (gap angle a) s.rotate_speed ≡ true
      → (u : Sim) × (f (at s time angle) ≡ ok u) × Reaches Q u) where
  turn :
      (n time angle : ℕ)
      → angle < 360
      → (ltb (gap angle a) s.rotate_speed ≡ false → to_go s.rotate_speed angle a < n)
      → (u : Sim) × (f (at s time angle) ≡ ok u) × Reaches Q u
  unfolding tick
  turn zero time angle inside left = elim (Bool-cases (ltb (gap angle a) s.rotate_speed)) [
    | inl near ↦ stops time angle inside near
    | inr far ↦ absurd (omega (arith, left far))
  ]
  turn (suc n) time angle inside left = elim (Bool-cases (ltb (gap angle a) s.rotate_speed)) [
    | inl near ↦ stops time angle inside near
    | inr far ↦
        let (u, e, r) =
          turn n (time + 1) (next_angle s.rotate_speed angle) (next_angle-lt s.rotate_speed angle)
            (λ still. omega (
              arith,
              left far,
              to_go-next_angle s.rotate_speed angle a pos_speed inside on still,
            )) in
        (at s time angle, waits time angle far, after u running (ticks time angle ∙ e) r)
  ]

  -- the phase at any time and angle
  pub turn-ends :
      (time angle : ℕ) → angle < 360 → (u : Sim) × (f (at s time angle) ≡ ok u) × Reaches Q u
  turn-ends time angle inside = turn 720 time angle inside (λ _. ground (arith, on))

-- the tests of a tick from a phase on
abbrev pub from_xfer : Sim → Result Sim
from_xfer s = when s.state xfer transfer_step s

abbrev pub from_rotate : Sim → Result Sim
from_rotate s = when s.state rotate rotate_step s >>= from_xfer

-- `Ends Q s` says that the rest of the tick succeeds and comes to `Q`
abbrev pub Ends : (Sim → Type 0) → (Sim → Result Sim) → Sim → Type 0
Ends Q f s = (u : Sim) × (f s ≡ ok u) × Reaches Q u

-- the end of a transfer
abbrev pub counted_done : Sim → Result Sim
counted_done s =
    switch_state s done >>= λ t. finish (record t { request_count = t.request_count + 1 })

module _ (Q : Sim → Type 0) (s : Sim) (i : ℕ) (p : Place) (sound : Sound s) (serves : Serves s i p)
    (rests : Rests s p.track) where
  offset_of : (o : ℕ) × (nth s.layout.block_angle_offset s.arm_track ≡ ok o)
  offset_of = let (o, e) = sound.offsets p.track serves.on_disk in (o, rw rests.0 e)

  module _ (moving : s.state ≡ xfer)
      (last : (time angle : ℕ) → angle < 360 → Ends Q counted_done (at s time angle)) where
    xfer_waits :
        (time angle : ℕ)
        → ltb (gap angle ((p.angle + offset_of.0) % 360)) s.rotate_speed ≡ false
        → from_xfer (at s time angle) ≡ ok (at s time angle)
    unfolding transfer_step end_angle
    xfer_waits time angle far = rw (moving, serves.place, offset_of.1, far) refl

    xfer_arrives :
        (time angle : ℕ)
        → angle < 360
        → ltb (gap angle ((p.angle + offset_of.0) % 360)) s.rotate_speed ≡ true
        → Ends Q from_xfer (at s time angle)
    unfolding transfer_step end_angle
    xfer_arrives time angle inside near =
        let (u, e, r) = last time angle inside in
        (u, rw (moving, serves.place, offset_of.1, near) e, r)

    xfer_ticks : (time angle : ℕ) → animate (at s time angle) ≡ from_xfer (tick (at s time angle))
    unfolding animate
    xfer_ticks time angle = rw moving refl

    pub transfer-Ends : (time angle : ℕ) → angle < 360 → Ends Q from_xfer (at s time angle)
    transfer-Ends =
        turn-ends Q s from_xfer ((p.angle + offset_of.0) % 360) sound.turns
          (mod-lt_pos (p.angle + offset_of.0) 360 (omega arith)) serves.running xfer_ticks
          xfer_waits xfer_arrives

-- what `from` has to be followed by: the end of the transfer, for the same requests done
abbrev pub Last : (Sim → Type 0) → List Bool → ℕ → Place → Type 0
Last Q finished i p =
    (t : Sim)
    → marks t ≡ finished
    → Sound t
    → Serves t i p
    → Rests t p.track
    → t.angle < 360
    → Ends Q counted_done t

module _ (Q : Sim → Type 0) (finished : List Bool) (i : ℕ) (p : Place)
    (last : Last Q finished i p) where
  pub xfer-Ends :
      (s : Sim)
      → marks s ≡ finished
      → Sound s
      → Serves s i p
      → Rests s p.track
      → s.angle < 360
      → s.state ≡ xfer
      → Ends Q from_xfer s
  xfer-Ends s same sound serves rests inside moving =
      transfer-Ends Q s i p sound serves rests moving
        (λ time angle h. last (at s time angle) same sound serves rests h) s.timer s.angle inside

  module _ (s : Sim) (same : marks s ≡ finished) (sound : Sound s) (serves : Serves s i p)
      (rests : Rests s p.track) (turning : s.state ≡ rotate) where
    offset : (o : ℕ) × (nth s.layout.block_angle_offset s.arm_track ≡ ok o)
    offset = let (o, e) = sound.offsets p.track serves.on_disk in (o, rw rests.0 e)

    rotate_waits :
        (time angle : ℕ)
        → ltb (gap angle ((p.angle + (360 - offset.0 % 360)) % 360)) s.rotate_speed ≡ false
        → from_rotate (at s time angle) ≡ ok (at s time angle)
    unfolding rotate_step begin_angle
    rotate_waits time angle far = rw (turning, serves.place, offset.1, far) refl

    rotate_step-near :
        (time angle : ℕ)
        → ltb (gap angle ((p.angle + (360 - offset.0 % 360)) % 360)) s.rotate_speed ≡ true
        → rotate_step (at s time angle)
          ≡ ok (in_phase (record (at s time angle) { xfer_begin = time }) i xfer)
    unfolding rotate_step begin_angle
    rotate_step-near time angle near =
        rw (serves.place, offset.1, near)
          (switch_state-in_phase (record (at s time angle) { xfer_begin = time }) i p xfer serves)

    rotate_arrives :
        (time angle : ℕ)
        → angle < 360
        → ltb (gap angle ((p.angle + (360 - offset.0 % 360)) % 360)) s.rotate_speed ≡ true
        → Ends Q from_rotate (at s time angle)
    rotate_arrives time angle inside near =
        let t : Sim = in_phase (record (at s time angle) { xfer_begin = time }) i xfer in
        let (u, e, r) =
          xfer-Ends t (marks-in_phase s i p xfer serves refl ∙ same)
            (in_phase-Sound s i p xfer serves refl sound) (in_phase-Serves s i p xfer serves refl)
            rests inside refl in
        (
          u,
          ap (λ phase. when phase rotate rotate_step (at s time angle) >>= from_xfer) turning
              ∙ ap (λ x. x >>= from_xfer) (rotate_step-near time angle near)
              ∙ e,
          r,
        )

    rotate_ticks :
        (time angle : ℕ) → animate (at s time angle) ≡ from_rotate (tick (at s time angle))
    unfolding animate
    rotate_ticks time angle = rw turning refl

    pub rotation-Ends : (time angle : ℕ) → angle < 360 → Ends Q from_rotate (at s time angle)
    rotation-Ends =
        turn-ends Q s from_rotate ((p.angle + (360 - offset.0 % 360)) % 360) sound.turns
          (mod-lt_pos (p.angle + (360 - offset.0 % 360)) 360 (omega arith)) serves.running
          rotate_ticks rotate_waits rotate_arrives

  pub rotate-Ends :
      (s : Sim)
      → marks s ≡ finished
      → Sound s
      → Serves s i p
      → Rests s p.track
      → s.angle < 360
      → s.state ≡ rotate
      → Ends Q from_rotate s
  rotate-Ends s same sound serves rests inside turning =
      rotation-Ends s same sound serves rests turning s.timer s.angle inside
