-- ===== src/DiskSim/Run/Completion.antt =====
-- HW-Disk/disk.py, class Disk: the loop of Go.
use mathlib.Core.Path.{subst}
use cs334_operating_systems.Prelude.{
  ℕ, zero, suc, ◌+◌, ◌≤◌, ◌<◌, ◌≡◌, refl, sym, ap, ◌∙◌, inl, inr, Bool, true, false, some, List,
  arith, ◌==◌, Bool-cases, length, get_elem?, set, length-set, ok, ◌>>=◌,
}
use cs334_operating_systems.DiskSim.Layout.{Place}
use cs334_operating_systems.DiskSim.State.{rotate, xfer, Sim}
use cs334_operating_systems.DiskSim.Run.{tick, animate, animate_all, go}
use cs334_operating_systems.DiskSim.Run.Service.{
  marks, count_done, Sound, Rests, Reaches, here, after, animate_all-Reaches,
}
use cs334_operating_systems.DiskSim.Run.Phases.{
  next_angle-lt, from_xfer, from_rotate, Last, xfer-Ends, rotate-Ends,
}
use cs334_operating_systems.DiskSim.Run.Seek.{seek-ends}
use cs334_operating_systems.DiskSim.Run.Next.{Begun, get_next_io-Begun, get_next_io-over}
use cs334_operating_systems.DiskSim.Run.Finish.{
  count_done-set, Over, Started, begun, straight, counted_done-ends,
}
use cs334_operating_systems.DiskSim.Run.Entries.{count_done-le}

animate-rotate : (s : Sim) → s.state ≡ rotate → animate s ≡ from_rotate (tick s)
unfolding animate
animate-rotate s e = rw e refl

animate-xfer : (s : Sim) → s.state ≡ xfer → animate s ≡ from_xfer (tick s)
unfolding animate
animate-xfer s e = rw e refl

module _ (n : ℕ) (finished : List Bool)
    (last : (i : ℕ) (p : Place) → Last (Over n) finished i p) where
  Begun-Reaches : (r i : ℕ) (p : Place) (s : Sim) → Begun finished r s i p → Reaches (Over n) s
  unfolding tick
  Begun-Reaches r i p s b = elim b.way [
    | inl (_, rests, turning) ↦
        let (u, e, reached) =
          rotate-Ends (Over n) finished i p (last i p) (tick s) b.same b.sound b.serves rests
            (next_angle-lt s.rotate_speed s.angle) turning in
        after u b.serves.running (animate-rotate s turning ∙ e) reached
    | inr (_, (ticks, more, m), track, edge, seeking) ↦
        seek-ends (Over n) finished i p (last i p) ticks s
          (record {
            same = b.same;
            sound = b.sound;
            serves = b.serves;
            moves = m;
            to_track = track;
            to_edge = edge;
            seeking = seeking;
            inside = b.inside;
          })
          more
  ]

  Started-Reaches : (s : Sim) → Started finished s → Reaches (Over n) s
  unfolding tick
  Started-Reaches s (begun r i p b) = Begun-Reaches r i p s b
  Started-Reaches s (straight i p same sound serves rests inside moving) =
      let (u, e, reached) =
        xfer-Ends (Over n) finished i p (last i p) (tick s) same sound serves rests
          (next_angle-lt s.rotate_speed s.angle) moving in
      after u serves.running (animate-xfer s moving ∙ e) reached

some_left :
    (finished : List Bool) (s : Sim)
    → Started finished s
    → (i : ℕ) × (get_elem? finished i ≡ some false)
some_left finished s (begun r i p b) =
    (i, subst (λ m. get_elem? m i ≡ some false) b.same b.serves.waits)
some_left finished s (straight i p same sound serves rests inside moving) =
    (i, subst (λ m. get_elem? m i ≡ some false) same serves.waits)

-- `k` bounds the requests that are not done
abbrev Bounded : ℕ → ℕ → Type 0
Bounded n k =
    (finished : List Bool) (s : Sim)
    → length finished ≡ n
    → length finished ≤ count_done finished + k
    → Started finished s
    → Reaches (Over n) s

rest-Last :
    (n k : ℕ) (finished : List Bool)
    → Bounded n k
    → length finished ≡ n
    → length finished ≤ count_done finished + suc k
    → (i : ℕ) (p : Place) → Last (Over n) finished i p
rest-Last n k finished rest size few i p t same sound serves rests inside =
    let (u, e, next) = counted_done-ends t i p sound serves rests inside in
    (
      u,
      e,
      elim next [
        | inl over ↦ here (subst (λ m. Over m u) (sym sound.sizes ∙ ap length same ∙ size) over)
        | inr start ↦
            rest (set (marks t) i true) u (length-set (marks t) i true ∙ ap length same ∙ size)
              (omega (
                arith,
                length-set (marks t) i true,
                count_done-set (marks t) i serves.waits,
                few,
                ap length same,
                ap count_done same,
              ))
              start
      ],
    )

run-Reaches : (n k : ℕ) → Bounded n k
run-Reaches n zero finished s size few start =
    let (i, left) = some_left finished s start in
    absurd (
      omega (
        arith,
        few,
        count_done-set finished i left,
        count_done-le (set finished i true),
        length-set finished i true,
      ))
run-Reaches n (suc k) finished s size few start =
    Started-Reaches n finished (rest-Last n k finished (run-Reaches n k) size few) s start

-- A run on sound books, with the arm at rest over a track, ends after some number of ticks, and then
-- the requests counted at the ends of their transfers are as many as the queue had.
pub go-Over :
    (s : Sim) (r : ℕ)
    → Sound s
    → Rests s r
    → r < 3
    → s.angle < 360
    → s.is_done ≡ false
    → (fuel : ℕ) × (t : Sim) × (go fuel s ≡ ok t) × Over (length s.request_queue) t
unfolding go
go-Over s r sound rests on inside running =
    elim (Bool-cases (s.request_count == length s.request_queue)) [
      | inl all ↦ (
        0,
        record s { is_done = true },
        rw (get_next_io-over s r sound rests on inside running (ground arith)) refl,
        record { stopped = refl; all_counted = ground arith },
      )
      | inr left ↦
          let (u, i, p, next, b, _) =
            get_next_io-Begun s r sound rests on inside running (ground arith) in
          let (fuel, t, e, over) =
            animate_all-Reaches (Over (length s.request_queue)) u
              (run-Reaches (length s.request_queue) (length (marks s)) (marks s) u sound.sizes
                (omega arith) (begun r i p b))
              (λ t over. over.stopped) in
          (fuel, t, ap (λ x. x >>= animate_all fuel) next ∙ e, over)
    ]
