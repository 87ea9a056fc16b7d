-- ===== src/DiskSim/Run/Pick.antt =====
-- HW-Disk/disk.py, class Disk: the choice of GetNextIO.
use cs334_operating_systems.Prelude.{
  ℕ, ◌<◌, ◌≡◌, refl, sym, ap, ◌∙◌, ◌≢◌, false, some, List, [], ◌∷◌, arith, length, get_elem?, ok,
  ok-injective, get_of_lt-length,
}
use cs334_operating_systems.Prelude.Int.{ℤ, pos}
use cs334_operating_systems.DiskSim.Layout.{Label, Place}
use cs334_operating_systems.DiskSim.State.{Policy, fifo, satf, bsatf, sstf, other, Sim, get_window}
use cs334_operating_systems.DiskSim.Choice.{gap, do_satf, max_tracks, do_sstf}
use cs334_operating_systems.DiskSim.Choice.Nearest.{Waits, In, waiting, do_satf-least}
use cs334_operating_systems.DiskSim.Run.{head_of, choose}
use cs334_operating_systems.DiskSim.Run.Service.{marks, Sound}
use cs334_operating_systems.DiskSim.Choice.Track.{Waits-Far, do_sstf-nearest, do_sstf-not_empty}
use cs334_operating_systems.DiskSim.Run.Entries.{
  count_done-le, not_all_done, take_all, Picked, only, entry-Known, entry-Picked, entry_of,
  far_waits,
}

module _ (s : Sim) (sound : Sound s) where
  module _ (left : s.request_count ≢ length s.request_queue) (near : s.arm_track < 3) where
    some_waits : (j : ℕ) × (get_elem? (marks s) j ≡ some false)
    some_waits = not_all_done (marks s) (λ e. left (sym sound.counted ∙ e ∙ sound.sizes))

    first_of : (r : List (Label × ℕ)) → do_sstf s s.request_queue ≡ ok r → (x : Label × ℕ) × In x r
    first_of [] h = absurd (do_sstf-not_empty s s.request_queue h)
    first_of (x ∷ r) h = (x, (0, refl))

    -- the pick from the whole queue
    best_pick :
        (b : Label) × (i : ℕ) × (e : ℤ) × (do_satf s s.request_queue ≡ ok (b, i))
        × In (b, i) s.request_queue
        × Waits s e b i
    best_pick =
        let (j, h) = some_waits in
        let (c, f, found, w) = entry_of s sound j h in
        let (e, b, i, made, inside, waits, _) =
          do_satf-least s s.request_queue f c j (entry-Known s sound) (j, found) w in
        (b, i, e, made, inside, waits)

    get_window-whole : get_window s ≡ (pos (length s.request_queue), s)
    unfolding get_window
    get_window-whole = rw sound.whole refl

    head_of-whole : head_of s (pos (length s.request_queue)) ≡ s.request_queue
    head_of-whole = take_all s.request_queue

    choose-satf : {x : Label × ℕ} → do_satf s s.request_queue ≡ ok x → choose s satf ≡ ok (x, s)
    unfolding choose
    choose-satf e = rw (get_window-whole, head_of-whole, e) refl

    choose-bsatf : {x : Label × ℕ} → do_satf s s.request_queue ≡ ok x → choose s bsatf ≡ ok (x, s)
    unfolding choose
    choose-bsatf e = rw (get_window-whole, head_of-whole, e) refl

    -- the pick of the policies with the shortest access time
    shortest :
        (s.policy ≡ fifo → ⊥)
        → ((x : Label × ℕ) → do_satf s s.request_queue ≡ ok x → choose s s.policy ≡ ok (x, s))
        → (b : Label) × (i : ℕ) × (p : Place) × (choose s s.policy ≡ ok ((b, i), s))
          × Picked s b i p
    shortest not_fifo choose_lem =
        let (b, i, e, made, inside, w) = best_pick in
        let (p, picked) = entry-Picked s sound b i e inside w (λ f. absurd (not_fifo f)) in
        (b, i, p, choose_lem (b, i) made, picked)

    in_turn :
        s.policy ≡ fifo
        → (b : Label) × (i : ℕ) × (p : Place) × (choose s fifo ≡ ok ((b, i), s)) × Picked s b i p
    unfolding choose
    in_turn e =
        let n = s.request_count in
        let short : n < length (marks s) =
          omega (arith, count_done-le (marks s), sound.counted, sound.sizes, left) in
        let (m, at_n) = get_of_lt-length (marks s) n short in
        let waits : get_elem? (marks s) n ≡ some false =
          at_n ∙ ap some (sound.in_order e n m at_n ∙ ground arith) in
        let (b, f, found, w) = entry_of s sound n waits in
        let (g, c, i, made, _, _, _) =
          do_satf-least s ((b, n) ∷ []) f b n (only s (b, n) (waiting f b n w)) (0, refl) w in
        let (p, picked) = entry-Picked s sound b n f (n, found) w (λ _. refl) in
        (b, n, p, rw (found, made) refl, picked)

    -- an entry on a nearest track
    nearest_pick :
        (r : List (Label × ℕ)) × (b : Label) × (i : ℕ) × (e : ℤ) × (do_sstf s s.request_queue
          ≡ ok r)
        × (do_satf s r ≡ ok (b, i))
        × In (b, i) s.request_queue
        × Waits s e b i
    nearest_pick =
        let (j, h) = some_waits in
        let (c, f, found, w) = entry_of s sound j h in
        let (p, placed, on_disk) = sound.placed j c j found in
        let same : w.place ≡ p = ok-injective (sym w.has_place ∙ placed) in
        let short : gap s.arm_track w.place.track < max_tracks =
          ground (arith, near, on_disk, ap (λ q. q.track) same) in
        let (r, m, made, _, kept, _) =
          do_sstf-nearest s s.request_queue (c, j) (gap s.arm_track w.place.track)
            (entry-Known s sound) (j, found) (Waits-Far s f c j w) short in
        let ((d, n), inside) = first_of r made in
        let ((k, within), far) = (kept (d, n)).0 inside in
        let (g, v) = far_waits s sound d n k m within far in
        let (e, b, i, picked, there, waits, _) =
          do_satf-least s r g d n (λ y at. (entry-Known s sound) y ((kept y).0 at).0) inside v in
        (r, b, i, e, made, picked, ((kept (b, i)).0 there).0, waits)

    choose-sstf :
        (r : List (Label × ℕ)) (x : Label × ℕ)
        → do_sstf s s.request_queue ≡ ok r
        → do_satf s r ≡ ok x
        → choose s sstf ≡ ok (x, s)
    unfolding choose
    choose-sstf r x e f = rw (get_window-whole, head_of-whole, e, f) refl

    by_track :
        s.policy ≡ sstf
        → (b : Label) × (i : ℕ) × (p : Place) × (choose s s.policy ≡ ok ((b, i), s))
          × Picked s b i p
    by_track pol =
        let (r, b, i, e, made, picked, inside, w) = nearest_pick in
        let (p, pick) =
          entry-Picked s sound b i e inside w
            (λ f. absurd (let g : sstf ≡ fifo = sym pol ∙ f in cc)) in
        (b, i, p, ap (choose s) pol ∙ choose-sstf r (b, i) made picked, pick)

    pub choose-Picked :
        (b : Label) × (i : ℕ) × (p : Place) × (choose s s.policy ≡ ok ((b, i), s)) × Picked s b i p
    choose-Picked = pick s.policy refl
      where
        pick :
            (policy : Policy)
            → s.policy ≡ policy
            → (b : Label) × (i : ℕ) × (p : Place) × (choose s s.policy ≡ ok ((b, i), s))
              × Picked s b i p
        pick fifo e =
            let (b, i, p, made, picked) = in_turn e in (b, i, p, ap (choose s) e ∙ made, picked)
        pick satf e =
            shortest (λ f. absurd (let g : satf ≡ fifo = sym e ∙ f in cc))
              (λ x made. ap (choose s) e ∙ choose-satf made)
        pick bsatf e =
            shortest (λ f. absurd (let g : bsatf ≡ fifo = sym e ∙ f in cc))
              (λ x made. ap (choose s) e ∙ choose-bsatf made)
        pick sstf e = by_track e
        pick other e = absurd (sound.known e)
