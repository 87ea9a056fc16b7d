-- ===== src/DiskSim/Run/Next.antt =====
-- HW-Disk/disk.py, class Disk: GetNextIO and PlanSeek.
use cs334_operating_systems.Prelude.{
  ℕ, ◌+◌, ◌-◌, ◌*◌, ◌<◌, ◌≡◌, refl, sym, ap, ◌∙◌, ◌≢◌, ◌⊎◌, inl, inr, Bool, true, false, List,
  arith, ltb, leb, ◌==◌, if◌then◌else◌, Bool-cases, length, ok,
}
use cs334_operating_systems.Prelude.Int.{ℤ, pos, ◌-ℤ◌}
use cs334_operating_systems.DiskSim.Layout.{Label, Place}
use cs334_operating_systems.DiskSim.State.{seek, rotate, Sim, track_width, arm_over}
use cs334_operating_systems.DiskSim.Run.{plan_seek, add_late, get_next_io}
use cs334_operating_systems.DiskSim.Run.Service.{
  marks, Sound, Serves, Rests, Moving, inward, outward, Moves, in_phase, switch_state-in_phase,
  marks-in_phase, in_phase-Sound, in_phase-Serves,
}
use cs334_operating_systems.DiskSim.Run.Pick.{choose-Picked}
use cs334_operating_systems.DiskSim.Run.Entries.{Picked}

some_ticks : (n v d : ℕ) → n * v ≡ track_width * d → 0 < d → 0 < n
some_ticks n v d e h = elim (Bool-cases (ltb 0 n)) [
  | inl t ↦ ground arith
  | inr f ↦
      let z : n ≡ 0 = ground arith in
      absurd (let g : 0 * v ≡ track_width * d = rw (sym z) e in omega (arith, g, h))
]

-- a seek between two tracks takes this many ticks
seek_ticks :
    (k v d : ℕ) → k * v ≡ track_width → 0 < d → (n : ℕ) × (0 < n) × (n * v ≡ track_width * d)
seek_ticks k v d e h =
    let c : k * d * v ≡ k * v * d = grind arith in
    let f : k * d * v ≡ track_width * d = c ∙ ap (λ x. x * d) e in
    (k * d, some_ticks (k * d) v d f h, f)

-- the arm that is sent from the track `r` to the track `q`
sent :
    (x1 : ℤ) (k v r q : ℕ)
    → k * v ≡ track_width
    → r ≢ q
    → x1 ≡ arm_over r
    → (n : ℕ) × (0 < n) × Moving x1 (if leb r q then pos v else pos 0 -ℤ pos v) (arm_over q) v n
sent x1 k v r q e apart over = elim (Bool-cases (leb r q)) [
  | inl out ↦
      let (n, more, far) = seek_ticks k v (q - r) e (ground (arith, apart)) in
      (n, more, rw out (inward (90 + 40 * r) over refl (ap pos (ground (arith, far)))))
  | inr back ↦
      let (n, more, far) = seek_ticks k v (r - q) e (ground (arith, apart)) in
      (n, more, rw back (outward (90 + 40 * q) (over ∙ ap pos (ground (arith, far))) refl refl))
]

-- the service of a request has begun, with the arm over the track `r`
pub record Begun (finished : List Bool) (r : ℕ) (s : Sim) (i : ℕ) (p : Place) : Type 0 where
  pub same : marks s ≡ finished
  pub sound : Sound s
  pub serves : Serves s i p
  pub inside : s.angle < 360
  pub over : s.arm_track ≡ r
  pub way :
      ((p.track ≡ r) × Rests s p.track × (s.state ≡ rotate))
      ⊎ ((p.track ≢ r)
          × ((n : ℕ) × (0 < n) × Moves s n)
          × (s.arm_target ≡ p.track)
          × (s.arm_target_x1 ≡ arm_over p.track)
          × (s.state ≡ seek))

module _ (s : Sim) (r : ℕ) (sound : Sound s) (rests : Rests s r) (on : r < 3)
    (inside : s.angle < 360) (running : s.is_done ≡ false) where
  module _ (b : Label) (i : ℕ) (p : Place) (picked : Picked s b i p) where
    -- the state that `plan_seek` starts from, once it has set the time
    abbrev current : Sim
    current = record s { current_block = b; current_index = pos i; seek_begin = s.timer }

    current-Serves : Serves current i p
    current-Serves = record {
      numbered = refl;
      entry = picked.entry;
      waits = picked.waits;
      place = picked.place;
      on_disk = picked.on_disk;
      running = running;
      turn = picked.turn;
    }

    abbrev seeking : Sim
    seeking = in_phase current i seek

    seeking-Serves : Serves seeking i p
    seeking-Serves = in_phase-Serves current i p seek current-Serves refl

    plan_seek-Begun :
        (u : Sim) × (plan_seek (record s { current_block = b; current_index = pos i }) p.track
          ≡ ok u)
        × Begun (marks s) r u i p
        × (u.layout ≡ s.layout)
        × (u.current_block ≡ b)
    unfolding plan_seek
    plan_seek-Begun = elim (Bool-cases (p.track == s.arm_track)) [
      | inl here_now ↦ (
        in_phase (record seeking { rot_begin = s.timer }) i rotate,
        rw (switch_state-in_phase current i p seek current-Serves, here_now)
            (switch_state-in_phase (record seeking { rot_begin = s.timer }) i p rotate
              seeking-Serves),
        record {
          same =
              marks-in_phase seeking i p rotate seeking-Serves refl
              ∙ marks-in_phase current i p seek current-Serves refl;
          sound =
              in_phase-Sound seeking i p rotate seeking-Serves refl
                (in_phase-Sound current i p seek current-Serves refl sound);
          serves = in_phase-Serves seeking i p rotate seeking-Serves refl;
          inside = inside;
          over = rests.0;
          way =
              let there : p.track ≡ r = ground (arith, rests.0) in
              inl (there, (rests.0 ∙ sym there, rests.1 ∙ ap arm_over (sym there)), refl);
        },
        refl,
        refl,
      )
      | inr away ↦
          let apart : r ≢ p.track = ground (arith, rests.0) in
          let (n, more, way) =
            sent s.arm_x1 sound.steps s.seek_speed r p.track sound.divides apart rests.1 in
          (
            record seeking {
              arm_target = p.track;
              arm_target_x1 = arm_over p.track;
              arm_speed =
                  if leb s.arm_track p.track then pos s.seek_speed else pos 0 -ℤ pos s.seek_speed;
            },
            rw (switch_state-in_phase current i p seek current-Serves, away) refl,
            record {
              same = marks-in_phase current i p seek current-Serves refl;
              sound = in_phase-Sound current i p seek current-Serves refl sound;
              serves = seeking-Serves;
              inside = inside;
              over = rests.0;
              way = inr ((λ e. apart (sym e)), (n, more, rw rests.0 way), refl, refl, refl);
            },
            refl,
            refl,
          )
    ]

  add_late-none : (u : Sim) → Sound u → add_late u ≡ ok u
  unfolding add_late
  add_late-none u at_u = rw at_u.no_late refl

  -- With requests left the service of one of them begins.
  pub get_next_io-Begun :
      s.request_count ≢ length s.request_queue
      → (u : Sim) × (i : ℕ) × (p : Place) × (get_next_io s ≡ ok u)
        × Begun (marks s) r u i p
        × (u.layout ≡ s.layout)
  unfolding get_next_io
  get_next_io-Begun left =
      let (b, i, p, chosen, picked) = choose-Picked s sound left (omega (arith, rests.0, on)) in
      let (u, planned, begun, same, _) = plan_seek-Begun b i p picked in
      let more : (s.request_count == length s.request_queue) ≡ false = ground (arith, left) in
      (u, i, p, rw (more, chosen, picked.place, planned) (add_late-none u begun.sound), begun, same)

  pub get_next_io-over :
      s.request_count ≡ length s.request_queue → get_next_io s ≡ ok (record s { is_done = true })
  unfolding get_next_io
  get_next_io-over e =
      let t : (s.request_count == length s.request_queue) ≡ true = ground (arith, e) in rw t refl
