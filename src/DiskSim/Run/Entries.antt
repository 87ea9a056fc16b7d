-- ===== src/DiskSim/Run/Entries.antt =====
-- HW-Disk/disk.py, class Disk: the entries of the queue on sound books.
use mathlib.Core.Path.{subst}
use cs334_operating_systems.Prelude.{
  ℕ, suc, ◌≤◌, ◌<◌, ◌≡◌, refl, sym, ap, ◌∙◌, ◌≢◌, inl, inr, Bool, true, false, some, List, [], ◌∷◌,
  arith, Bool-cases, length, get_elem?, take, length-map, ok, ok-injective, nth, lt-length_of_get,
  get_of_lt-length, get-map,
}
use cs334_operating_systems.Prelude.Int.{ℤ}
use cs334_operating_systems.DiskSim.Layout.{Label, Place, place_of}
use cs334_operating_systems.DiskSim.State.{Phase, null, seek, rotate, xfer, done, fifo, Sim}
use cs334_operating_systems.DiskSim.Choice.{is_finished, estimate}
use cs334_operating_systems.DiskSim.Choice.Nearest.{Waits, In, In-cons, Known, finished, waiting}
use cs334_operating_systems.DiskSim.Choice.Distance.{Far}
use cs334_operating_systems.DiskSim.Run.Service.{marks, count_done, get-map_back, Sound}

pub count_done-le : (l : List Bool) → count_done l ≤ length l
unfolding count_done
count_done-le [] = omega arith
count_done-le (true ∷ l) = omega (arith, count_done-le l)
count_done-le (false ∷ l) = omega (arith, count_done-le l)

pub not_all_done :
    (l : List Bool) → count_done l ≢ length l → (j : ℕ) × (get_elem? l j ≡ some false)
unfolding count_done
not_all_done [] h = absurd (h refl)
not_all_done (false ∷ l) h = (0, refl)
not_all_done (true ∷ l) h = let (j, e) = not_all_done l (λ e. h (ap suc e)) in (suc j, e)

done_of : (phase : Phase) → is_finished phase ≡ true → phase ≡ done
done_of null h = absurd (cc)
done_of seek h = absurd (cc)
done_of rotate h = absurd (cc)
done_of xfer h = absurd (cc)
done_of done h = refl

pub take_all {ℓ} : {A : Type ℓ} (l : List A) → take (length l) l ≡ l
take_all [] = refl
take_all (x ∷ l) = ap (◌∷◌ x) (take_all l)

-- a request of the queue that is not done, with its place
pub record Picked (s : Sim) (b : Label) (i : ℕ) (p : Place) : Type 0 where
  pub entry : get_elem? s.request_queue i ≡ some (b, i)
  pub waits : get_elem? (marks s) i ≡ some false
  pub place : place_of s.layout.places b ≡ ok p
  pub on_disk : p.track < 3
  pub turn : s.policy ≡ fifo → i ≡ s.request_count

pub only : (s : Sim) (y : Label × ℕ) → Known s y → (x : Label × ℕ) → In x (y ∷ []) → Known s x
only s y k x inside = elim (In-cons x y [] inside) [
  | inl same ↦ subst (Known s) same k
  | inr (j, h) ↦ absurd (cc)
]

module _ (s : Sim) (sound : Sound s) where
  pub phase_of :
      (j : ℕ) (x : Label × ℕ)
      → get_elem? s.request_queue j ≡ some x
      → (phase : Phase) × (get_elem? s.request_state j ≡ some phase)
  phase_of j x h = get_of_lt-length s.request_state j (
      omega (
        arith,
        lt-length_of_get s.request_queue j x h,
        sound.sizes,
        length-map s.request_state is_finished,
      ))

  pub waits_of :
      (j : ℕ) (b : Label) (i : ℕ) (phase : Phase)
      → get_elem? s.request_queue j ≡ some (b, i)
      → get_elem? s.request_state j ≡ some phase
      → is_finished phase ≡ false
      → (e : ℤ) × Waits s e b i
  waits_of j b i phase h at_j open_now =
      let (p, placed, on_disk) = sound.placed j b i h in
      let (o, wide) = sound.offsets p.track on_disk in
      let same : i ≡ j = sound.numbered j b i h in
      (
        estimate s p o,
        record {
          phase = phase;
          has_phase = rw (same, at_j) refl;
          not_done = open_now;
          place = p;
          has_place = placed;
          offset = o;
          has_offset = wide;
          estimated = refl;
        },
      )

  pub entry-Known : (x : Label × ℕ) → In x s.request_queue → Known s x
  entry-Known (b, i) (j, h) =
      let (phase, at_j) = phase_of j (b, i) h in
      elim (Bool-cases (is_finished phase)) [
        | inl over ↦
            let same : i ≡ j = sound.numbered j b i h in
            finished b i (rw (same, at_j) (ap ok (done_of phase over)))
        | inr open_now ↦ let (e, w) = waits_of j b i phase h at_j open_now in waiting e b i w
      ]

  -- an entry that waits is one that may be picked
  pub entry-Picked :
      (b : Label) (i : ℕ) (e : ℤ)
      → In (b, i) s.request_queue
      → Waits s e b i
      → (s.policy ≡ fifo → i ≡ s.request_count)
      → (p : Place) × Picked s b i p
  entry-Picked b i e (j, h) w turn =
      let same : i ≡ j = sound.numbered j b i h in
      let (p, placed, on_disk) = sound.placed j b i h in
      let (phase, at_j) = phase_of j (b, i) h in
      let found : phase ≡ w.phase =
        let now : nth s.request_state i ≡ ok phase = rw (same, at_j) refl in
        ok-injective (sym now ∙ w.has_phase) in
      (
        p,
        record {
          entry = ap (get_elem? s.request_queue) same ∙ h;
          waits =
              ap (get_elem? (marks s)) same
              ∙ get-map is_finished s.request_state j phase at_j
              ∙ ap some (ap is_finished found ∙ w.not_done);
          place = placed;
          on_disk = on_disk;
          turn = turn;
        },
      )

  -- the entry of a number whose mark is not set
  pub entry_of :
      (j : ℕ)
      → get_elem? (marks s) j ≡ some false
      → (b : Label) × (e : ℤ) × (get_elem? s.request_queue j ≡ some (b, j)) × Waits s e b j
  entry_of j h =
      let (phase, at_j, open_now) = get-map_back is_finished s.request_state j false h in
      let ((b, i), found) =
        get_of_lt-length s.request_queue j
          (omega (arith, lt-length_of_get (marks s) j false h, sound.sizes)) in
      let same : i ≡ j = sound.numbered j b i found in
      let (e, w) = waits_of j b i phase found at_j open_now in
      (b, e, found ∙ ap (λ k. some (b, k)) same, subst (Waits s e b) same w)

  pub far_waits :
      (b : Label) (i j m : ℕ)
      → get_elem? s.request_queue j ≡ some (b, i)
      → Far s (b, i) m
      → (e : ℤ) × Waits s e b i
  far_waits b i j m h far =
      let (phase, at_j) = phase_of j (b, i) h in
      let same : i ≡ j = sound.numbered j b i h in
      let now : nth s.request_state i ≡ ok phase = rw (same, at_j) refl in
      let this : phase ≡ far.phase = ok-injective (sym now ∙ far.has_phase) in
      waits_of j b i phase h at_j (ap is_finished this ∙ far.not_done)
