-- ===== src/Raid/Io/Bounds.antt =====
-- HW-Raid/raid.py, class raid: the disks and the offsets of requests, and the disks that serve them.
use mathlib.Core.Path.{subst}
use mathlib.Core.Option
use cs334_operating_systems.Prelude.{
  ℕ, zero, suc, ◌*◌, ◌<◌, ◌≡◌, refl, ◌∙◌, inl, inr, Bool, true, some, List, [], ◌∷◌, ◌++◌, map,
  arith, ltb, lt→ltb, Bool-cases, length, get_elem?, set, length-set, ok, ◌>>=◌, check,
  get_of_lt-length, position_get, modify,
}
use cs334_operating_systems.Prelude.Int.{pos}
use cs334_operating_systems.Raid.Disk.{Disk}
use cs334_operating_systems.Raid.Io.{
  Io, read, write, has, note_off, off_list, reads, writes, with_parity, perform,
}
use cs334_operating_systems.Raid.Disk.Laws.{IsSound, enqueue-IsSound}
use cs334_operating_systems.Raid.Disk

-- requests to the `n` disks, of 100 tracks of 100 blocks each
abbrev pub InRange : ℕ → List Io → Type 0
InRange n [] = Unit
InRange n (read disk off ∷ l) = (disk < n) × (off < 10000) × InRange n l
InRange n (write disk off ∷ l) = (disk < n) × (off < 10000) × InRange n l

pub InRange-append : (n : ℕ) (l m : List Io) → InRange n l → InRange n m → InRange n (l ++ m)
InRange-append n [] m h k = k
InRange-append n (read disk off ∷ l) m (a, b, h) k = (a, b, InRange-append n l m h k)
InRange-append n (write disk off ∷ l) m (a, b, h) k = (a, b, InRange-append n l m h k)

abbrev pub AllSound : List Disk → Type 0
AllSound [] = Unit
AllSound (d ∷ ds) = IsSound d × AllSound ds

passed {ℓ} : {A : Type ℓ} {b : Bool} {x : A} → b ≡ true → (check b >>= λ _. ok x) ≡ ok x
passed e = rw e refl

enqueue-ok :
    (d : Disk) (off : ℕ)
    → IsSound d
    → off < 10000
    → (e : Disk) × (Disk.enqueue d off ≡ ok e) × IsSound e
unfolding Disk.enqueue
enqueue-ok d off v less =
    let fits : ltb off (d.num_tracks * d.blocks_per_track) ≡ true =
      rw (v.tracks, v.blocks) (lt→ltb off 10000 less) in
    let served = passed fits in
    (_, served, (enqueue-IsSound d off v).at _ (unfold Disk.enqueue in served))

get-AllSound :
    (ds : List Disk) (i : ℕ) (d : Disk) → AllSound ds → get_elem? ds i ≡ some d → IsSound d
get-AllSound [] i d h e = absurd (cc)
get-AllSound (x ∷ ds) zero d (v, h) e = subst IsSound (Option.some-injective x d e) v
get-AllSound (x ∷ ds) (suc i) d (v, h) e = get-AllSound ds i d h e

set-AllSound : (ds : List Disk) (i : ℕ) (d : Disk) → AllSound ds → IsSound d → AllSound (set ds i d)
set-AllSound [] i d h v = tt
set-AllSound (x ∷ ds) zero d (w, h) v = (v, h)
set-AllSound (x ∷ ds) (suc i) d (w, h) v = (w, set-AllSound ds i d h v)

modify-AllSound :
    (n : ℕ) (ds : List Disk) (disk off : ℕ)
    → length ds ≡ n
    → AllSound ds
    → disk < n
    → off < 10000
    → (es : List Disk) × (modify ds (pos disk) (λ d. Disk.enqueue d off) ≡ ok es)
      × (length es ≡ n)
      × AllSound es
modify-AllSound n ds disk off len sound inside less =
    let (d, at) = get_of_lt-length ds disk (omega (arith, len, inside)) in
    let (e, served, v) = enqueue-ok d off (get-AllSound ds disk d sound at) less in
    (
      set ds disk e,
      rw (position_get ds disk d at, at, served) refl,
      length-set ds disk e ∙ len,
      set-AllSound ds disk e sound v,
    )

-- requests in range are served
pub perform-ok :
    (n : ℕ) (l : List Io) (ds : List Disk)
    → InRange n l
    → length ds ≡ n
    → AllSound ds
    → (es : List Disk) × (perform l ds ≡ ok es) × (length es ≡ n) × AllSound es
unfolding perform
perform-ok n [] ds h len sound = (ds, refl, len, sound)
perform-ok n (read disk off ∷ l) ds (a, b, h) len sound =
    let (es, e, len', sound') = modify-AllSound n ds disk off len sound a b in
    let (fs, f, len'', sound'') = perform-ok n l es h len' sound' in (fs, rw e f, len'', sound'')
perform-ok n (write disk off ∷ l) ds (a, b, h) len sound =
    let (es, e, len', sound') = modify-AllSound n ds disk off len sound a b in
    let (fs, f, len'', sound'') = perform-ok n l es h len' sound' in (fs, rw e f, len'', sound'')

-- the places of blocks, and what is done to them
abbrev pub Places : ℕ → List (ℕ × ℕ) → Type 0
Places n [] = Unit
Places n ((disk, off) ∷ ps) = (disk < n) × (off < 10000) × Places n ps

Offs : List ℕ → Type 0
Offs [] = Unit
Offs (o ∷ os) = (o < 10000) × Offs os

pub reads-InRange : (n : ℕ) (ps : List (ℕ × ℕ)) → Places n ps → InRange n (reads ps)
reads-InRange n [] h = tt
reads-InRange n (p ∷ ps) (a, b, h) = (a, b, reads-InRange n ps h)

pub writes-InRange : (n : ℕ) (ps : List (ℕ × ℕ)) → Places n ps → InRange n (writes ps)
writes-InRange n [] h = tt
writes-InRange n (p ∷ ps) (a, b, h) = (a, b, writes-InRange n ps h)

note_off-Offs : (o : ℕ) (os : List ℕ) → o < 10000 → Offs os → Offs (note_off o os)
unfolding note_off Offs
note_off-Offs o os a h = elim (Bool-cases (has o os)) [ inl e ↦ rw e h | inr e ↦ rw e (last os h) ]
  where
    last : (os : List ℕ) → Offs os → Offs (os ++ o ∷ [])
    last [] h = (a, tt)
    last (x ∷ os) (b, h) = (b, last os h)

off_list-Offs :
    (n : ℕ) (os : List ℕ) (ps : List (ℕ × ℕ)) → Offs os → Places n ps → Offs (off_list os ps)
off_list-Offs n os [] h k = h
off_list-Offs n os ((d, o) ∷ ps) h (a, b, k) =
    off_list-Offs n (note_off o os) ps (note_off-Offs o os b h) k

parity-InRange :
    (n pd : ℕ) (os : List ℕ)
    → pd < n
    → Offs os
    → InRange n (map (read pd) os) × InRange n (map (write pd) os)
unfolding Offs
parity-InRange n pd [] a h = (tt, tt)
parity-InRange n pd (o ∷ os) a (b, h) =
    let (r, w) = parity-InRange n pd os a h in ((a, b, r), (a, b, w))

pub with_parity-InRange :
    (n pd : ℕ) (ps : List (ℕ × ℕ))
    → pd < n
    → Places n ps
    → InRange n (with_parity read pd ps) × InRange n (with_parity write pd ps)
unfolding Offs
with_parity-InRange n pd ps a h =
    let (r, w) = parity-InRange n pd (off_list [] ps) a (off_list-Offs n [] ps tt h) in
    (
      InRange-append n (reads ps) _ (reads-InRange n ps h) r,
      InRange-append n (writes ps) _ (writes-InRange n ps h) w,
    )
