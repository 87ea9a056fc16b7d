-- ===== src/DiskSim/Run/Finish.antt =====
-- HW-Disk/disk.py, class Disk: the end of a transfer, and what follows it.
use mathlib.Core.Path.{subst}
use cs334_operating_systems.Prelude.{
  ℕ, zero, suc, ◌+◌, ◌<◌, ◌≡◌, refl, sym, ap, ◌∙◌, ◌≢◌, ◌⊎◌, inl, inr, Bool, true, false, some,
  List, [], ◌∷◌, map, arith, ltb, ◌==◌, if◌then◌else◌, lt→ltb, Bool-cases, length, get_elem?, set,
  length-set, get_elem?-set_self, get_elem?-set_ne, Result, ok, ◌>>=◌, nth, set-set,
  lt-length_of_get, map-set,
}
use cs334_operating_systems.Prelude.Int.{pos, ltb_ℤ, eq_ℤ, leb_ℤ, minus_one}
use cs334_operating_systems.DiskSim.Layout.{Place, place_of}
use cs334_operating_systems.DiskSim.State.{
  Phase, xfer, done, fifo, Sim, switch_state, update_window,
}
use cs334_operating_systems.DiskSim.Choice.{is_finished}
use cs334_operating_systems.DiskSim.Run.{get_next_io, do_request_stats, follows, finish}
use cs334_operating_systems.DiskSim.Run.Service.{
  marks, count_done, Books, get-map_back, Sound, Serves, Rests, in_phase, switch_state-at,
  switch_state-in_phase, marks-in_phase, in_phase-Sound, in_phase-Serves,
}
use cs334_operating_systems.DiskSim.Run.Phases.{counted_done}
use cs334_operating_systems.DiskSim.Run.Next.{Begun, get_next_io-Begun, get_next_io-over}

pub count_done-set :
    (l : List Bool) (i : ℕ)
    → get_elem? l i ≡ some false
    → count_done (set l i true) ≡ suc (count_done l)
unfolding count_done
count_done-set [] i h = absurd (cc)
count_done-set (true ∷ l) zero h = absurd (cc)
count_done-set (false ∷ l) zero h = refl
count_done-set (true ∷ l) (suc i) h = ap suc (count_done-set l i h)
count_done-set (false ∷ l) (suc i) h = count_done-set l i h

-- the run is over, with `n` requests counted
pub record Over (n : ℕ) (s : Sim) : Type 0 where
  pub stopped : s.is_done ≡ true
  pub all_counted : s.request_count ≡ n

-- the service of a request goes on, with so many done
pub data Started (finished : List Bool) (s : Sim) : Type 0 where
  begun : (r i : ℕ) (p : Place) → Begun finished r s i p → Started finished s
  straight :
      (i : ℕ) (p : Place)
      → marks s ≡ finished
      → Sound s
      → Serves s i p
      → Rests s p.track
      → s.angle < 360
      → s.state ≡ xfer
      → Started finished s

update_window-whole : (s : Sim) → leb_ℤ s.curr_window minus_one ≡ true → update_window s ≡ s
unfolding update_window
update_window-whole s h =
    let closed : ltb_ℤ (pos 0) s.curr_window ≡ false = ground arith in
    elim (Bool-cases (eq_ℤ s.fair_window minus_one)) [
      | inl plain ↦ rw (plain, closed) refl
      | inr fair ↦ rw fair refl
    ]

module _ (s : Sim) (i : ℕ) (p : Place) (sound : Sound s) (serves : Serves s i p)
    (rests : Rests s p.track) (inside : s.angle < 360) where
  -- the state that `finish` starts from
  abbrev counted : Sim
  counted = record (in_phase s i done) { request_count = s.request_count + 1 }

  abbrev settled : Sim
  settled = in_phase (do_request_stats counted) i done

  old_phase : (old : Phase) × (get_elem? s.request_state i ≡ some old) × (is_finished old ≡ false)
  old_phase = get-map_back is_finished s.request_state i false serves.waits

  done_at : get_elem? (set s.request_state i done) i ≡ some done
  done_at =
      let (old, e, _) = old_phase in
      get_elem?-set_self s.request_state i done (lt-length_of_get s.request_state i old e)

  done_twice : get_elem? (set (set s.request_state i done) i done) i ≡ some done
  done_twice =
      get_elem?-set_self (set s.request_state i done) i done
        (lt-length_of_get (set s.request_state i done) i done done_at)

  settles : switch_state (do_request_stats counted) done ≡ ok settled
  unfolding do_request_stats
  settles = switch_state-at (do_request_stats counted) i done done serves.numbered done_at

  marks-settled : marks settled ≡ set (marks s) i true
  unfolding do_request_stats
  marks-settled =
      ap (map is_finished) (set-set s.request_state i done done)
      ∙ map-set is_finished s.request_state i done

  -- the window covers the whole queue and stays
  update_window-settled : update_window settled ≡ settled
  unfolding do_request_stats
  update_window-settled = update_window-whole settled sound.whole

  in_order-settled :
      s.policy ≡ fifo
      → (j : ℕ) (m : Bool) → get_elem? (set (marks s) i true) j ≡ some m
      → m ≡ ltb j (s.request_count + 1)
  in_order-settled f j m h = elim (Bool-cases (i == j)) [
    | inl same ↦
        let at_i : get_elem? (set (marks s) i true) i ≡ some true =
          get_elem?-set_self (marks s) i true (lt-length_of_get (marks s) i false serves.waits) in
        let e : i ≡ j = ground arith in
        let value : m ≡ true =
          (let g : some m ≡ some true =
              sym h ∙ ap (get_elem? (set (marks s) i true)) (sym e) ∙ at_i in
            cc) in
        value ∙ sym (lt→ltb j (s.request_count + 1) (omega (arith, e, serves.turn f)))
    | inr away ↦
        let ne : i ≢ j = ground arith in
        let e : m ≡ ltb j s.request_count =
          sound.in_order f j m (sym (get_elem?-set_ne (marks s) true ne) ∙ h) in
        e ∙ ground (arith, serves.turn f, ne)
  ]

  settled-Sound : Sound settled
  unfolding do_request_stats
  settled-Sound =
      subst
        (λ m.
          Books s.layout s.policy s.seek_speed s.rotate_speed s.curr_window s.late_requests
            s.late_count s.request_queue m (s.request_count + 1))
        (sym marks-settled)
        (record {
          turns = sound.turns;
          steps = sound.steps;
          divides = sound.divides;
          offsets = sound.offsets;
          ends = sound.ends;
          numbered = sound.numbered;
          placed = sound.placed;
          sizes = length-set (marks s) i true ∙ sound.sizes;
          counted = count_done-set (marks s) i serves.waits ∙ ap suc sound.counted ∙ omega arith;
          known = sound.known;
          whole = sound.whole;
          no_late = sound.no_late;
          in_order = in_order-settled;
        })

  settled-Rests : Rests settled p.track
  unfolding do_request_stats
  settled-Rests = rests

  -- what `finish` does to the state with the new window
  goes_on : Sim → Result Sim
  goes_on w = get_next_io w >>= λ u. place_of u.layout.places s.current_block >>= λ p.
      place_of u.layout.places u.current_block >>= λ q.
      if p.track == q.track
      then (nth u.layout.tracks_begin_end u.arm_track >>= λ ends.
          if follows ends p q
          then switch_state
              (record u { rot_begin = u.timer; seek_begin = u.timer; xfer_begin = u.timer }) xfer
          else ok u)
      else ok u

  counted_done-goes_on : counted_done s ≡ goes_on settled
  unfolding goes_on finish
  counted_done-goes_on =
      let (old, e, _) = old_phase in
      ap (λ r. r >>= λ t. finish (record t { request_count = t.request_count + 1 }))
        (switch_state-at s i done old serves.numbered e)
      ∙ ap (λ r. r >>= λ t. goes_on (update_window t)) settles
      ∙ ap goes_on update_window-settled

  -- nothing is left
  goes_on-Over :
      s.request_count + 1 ≡ length s.request_queue
      → (u : Sim) × (goes_on settled ≡ ok u) × Over (length s.request_queue) u
  unfolding goes_on do_request_stats
  goes_on-Over e =
      let (ends, found) = sound.ends p.track serves.on_disk in
      let found : nth s.layout.tracks_begin_end s.arm_track ≡ ok ends = rw rests.0 found in
      let same : (p.track == p.track) ≡ true = ground arith in
      let over =
        get_next_io-over settled p.track settled-Sound settled-Rests serves.on_disk inside
          serves.running e in
      elim (Bool-cases (follows ends p p)) [
        | inl round ↦ (
          in_phase
              (record settled {
                is_done = true;
                rot_begin = s.timer;
                seek_begin = s.timer;
                xfer_begin = s.timer;
              })
              i xfer,
          rw (over, serves.place, same, found, round)
              (switch_state-at
                (record settled {
                  is_done = true;
                  rot_begin = s.timer;
                  seek_begin = s.timer;
                  xfer_begin = s.timer;
                })
                i xfer done serves.numbered done_twice),
          record { stopped = refl; all_counted = e },
        )
        | inr stop ↦ (
          record settled { is_done = true },
          rw (over, serves.place, same, found, stop) refl,
          record { stopped = refl; all_counted = e },
        )
      ]

  -- another request is begun, or its transfer if it follows on the track
  goes_on-Started :
      s.request_count + 1 ≢ length s.request_queue
      → (u : Sim) × (goes_on settled ≡ ok u) × Started (set (marks s) i true) u
  unfolding goes_on do_request_stats
  goes_on-Started left =
      let (u, j, q, next, b, layout) =
        get_next_io-Begun settled p.track settled-Sound settled-Rests serves.on_disk inside
          serves.running left in
      let marked : Begun (set (marks s) i true) p.track u j q =
        subst (λ m. Begun m p.track u j q) marks-settled b in
      let place : place_of u.layout.places s.current_block ≡ ok p =
        ap (λ l. place_of l.places s.current_block) layout ∙ serves.place in
      elim (Bool-cases (p.track == q.track)) [
        | inr apart ↦ (u, rw (next, place, b.serves.place, apart) refl, begun p.track j q marked)
        | inl together ↦ elim b.way [
          | inr (away, _, _, _, _) ↦ absurd (away (ground arith))
          | inl (there, over, turning) ↦
              let (ends, found) = b.sound.ends q.track b.serves.on_disk in
              let found : nth u.layout.tracks_begin_end u.arm_track ≡ ok ends = rw over.0 found in
              let t : Sim = record u {
                rot_begin = u.timer;
                seek_begin = u.timer;
                xfer_begin = u.timer;
              } in
              elim (Bool-cases (follows ends p q)) [
                | inr stop ↦ (
                  u,
                  rw (next, place, b.serves.place, together, found, stop) refl,
                  begun p.track j q marked,
                )
                | inl on ↦ (
                  in_phase t j xfer,
                  rw (next, place, b.serves.place, together, found, on)
                      (switch_state-in_phase t j q xfer b.serves),
                  straight j q (marks-in_phase t j q xfer b.serves refl ∙ marked.same)
                      (in_phase-Sound t j q xfer b.serves refl b.sound)
                      (in_phase-Serves t j q xfer b.serves refl) over b.inside refl,
                )
              ]
        ]
      ]

  -- The end of a transfer counts the request, and ends the run or starts on another request.
  pub counted_done-ends :
      (u : Sim) × (counted_done s ≡ ok u)
      × (Over (length s.request_queue) u ⊎ Started (set (marks s) i true) u)
  counted_done-ends = elim (Bool-cases (s.request_count + 1 == length s.request_queue)) [
    | inl all ↦
        let (u, e, over) = goes_on-Over (ground arith) in (u, counted_done-goes_on ∙ e, inl over)
    | inr more ↦
        let (u, e, start) = goes_on-Started (ground arith) in
        (u, counted_done-goes_on ∙ e, inr start)
  ]
