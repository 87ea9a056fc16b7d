-- ===== src/Raid/Io/Served.antt =====
-- HW-Raid/raid.py, enqueue45: the disks and the offsets of the requests of levels 4 and 5.
use cs334_operating_systems.Prelude.{
  ℕ, zero, suc, ◌+◌, ◌-◌, ◌*◌, ◌/◌, ◌≤◌, ◌<◌, ◌≡◌, refl, inl, inr, Bool, true, false, List, [], ◌∷◌,
  ◌++◌, arith, ltb, leb, ltb→lt, Bool-cases, Result, ok,
}
use cs334_operating_systems.Raid.Io.{
  Io, read, write, span, reads, with_parity, pieces, stripe_count, places, do_partial_write,
  write_pieces, enqueue45,
}
use cs334_operating_systems.Raid.Io.Pieces.{Covers, pieces-Covers}
use cs334_operating_systems.Raid.Io.Bounds.{
  InRange, InRange-append, Places, reads-InRange, with_parity-InRange,
}

-- a stripe that begins before the end of the last one ends there or before
row_fits : (s rows w : ℕ) → s * w < rows * w → s * w + w ≤ rows * w
row_fits s rows w h = elim (Bool-cases (ltb s rows)) [
  | inl e ↦
      let less : s < rows = ltb→lt s rows e in
      let (m, at) : (m : ℕ) × (rows ≡ s + 1 + m) = (rows - (s + 1), omega (arith, less)) in
      let f : rows * w ≡ s * w + w + m * w = rw at (grind arith) in omega (arith, f)
  | inr e ↦
      let (m, at) : (m : ℕ) × (s ≡ rows + m) = (s - rows, ground (arith, e)) in
      let f : s * w ≡ rows * w + m * w = rw at (grind arith) in absurd (omega (arith, f, h))
]

module _ (bmap : ℕ → Result (ℕ × ℕ)) (pmap : ℕ → Result ℕ) (w rows n : ℕ)
    (block_at : (v : ℕ)
      → v < rows * w
      → (disk off : ℕ) × (bmap v ≡ ok (disk, off)) × (disk < n) × (off < 10000))
    (parity_at : (s : ℕ) → (pd : ℕ) × (pmap s ≡ ok pd) × (pd < n)) where
  places-Places :
      (a k : ℕ)
      → a + k ≤ rows * w
      → (ps : List (ℕ × ℕ)) × (places bmap (span a k) ≡ ok ps) × Places n ps
  unfolding places span
  places-Places a zero h = ([], refl, tt)
  places-Places a (suc k) h =
      let (disk, off, e, b, c) = block_at a (omega (arith, h)) in
      let (ps, made, below) = places-Places (a + 1) k (omega (arith, h)) in
      ((disk, off) ∷ ps, rw (e, made) refl, (b, c, below))

  do_partial_write-InRange :
      (snum begin stop : ℕ)
      → snum * w ≤ begin
      → begin < stop
      → stop ≤ snum * w + w
      → stop ≤ rows * w
      → (l : List Io) × (do_partial_write bmap pmap w snum begin stop ≡ ok l) × InRange n l
  unfolding do_partial_write
  do_partial_write-InRange snum begin stop lo longer hi inside =
      let fits : snum * w + w ≤ rows * w =
        row_fits snum rows w (omega (arith, lo, longer, inside)) in
      let (pd, parity, pd_in) = parity_at snum in
      let (new, e, in_new) = places-Places begin (stop - begin) (omega (arith, longer, inside)) in
      let (before, eb, in_before) =
        places-Places (snum * w) (begin - snum * w) (omega (arith, lo, longer, inside)) in
      let (after, ea, in_after) =
        places-Places stop (snum * w + w - stop) (omega (arith, hi, fits)) in
      let (r, wr) = with_parity-InRange n pd new pd_in in_new in
      elim (Bool-cases (leb (stop - begin + 1) (w - (stop - begin)))) [
        | inl t ↦ (
          with_parity read pd new ++ with_parity write pd new,
          rw (parity, e, t) refl,
          InRange-append n (with_parity read pd new) _ r wr,
        )
        | inr t ↦ (
          (reads before ++ reads after) ++ with_parity write pd new,
          rw (parity, e, t, eb, ea) refl,
          InRange-append n (reads before ++ reads after) _
              (InRange-append n (reads before) _ (reads-InRange n before in_before)
                (reads-InRange n after in_after))
              wr,
        )
      ]

  write_pieces-InRange :
      (s begin stop : ℕ) (l : List (ℕ × ℕ × ℕ))
      → stop ≤ rows * w
      → Covers w s begin stop l
      → (begin ≤ stop) × (m : List Io) × (write_pieces bmap pmap w l ≡ ok m) × InRange n m
  unfolding write_pieces
  write_pieces-InRange s begin stop [] inside covers = (omega (arith, covers), [], refl, tt)
  write_pieces-InRange s begin stop ((t, b, e) ∷ l) inside (same, at, lo, longer, hi, more) =
      let (reach, rest, made_rest, in_rest) = write_pieces-InRange (s + 1) e stop l inside more in
      let (first, made, in_first) =
        do_partial_write-InRange t b e (rw same lo) longer (rw same hi)
          (omega (arith, reach, inside)) in
      (
        omega (arith, at, longer, reach),
        first ++ rest,
        rw (made, made_rest) refl,
        InRange-append n first rest in_first in_rest,
      )

  -- a request within the rows
  pub enqueue45-InRange :
      (addr size : ℕ) (is_write : Bool)
      → 0 < w
      → 0 < size
      → addr + size ≤ rows * w
      → (l : List Io) × (enqueue45 bmap pmap w addr size is_write ≡ ok l) × InRange n l
  unfolding enqueue45
  enqueue45-InRange addr size false pos_w some_block inside =
      let (ps, e, h) = places-Places addr size inside in (reads ps, rw e refl, reads-InRange n ps h)
  enqueue45-InRange addr size true pos_w some_block inside =
      let (_, l, e, h) =
        write_pieces-InRange (addr / w) addr (addr + size)
          (pieces w (stripe_count w addr size) (addr / w) size addr) inside
          (pieces-Covers w addr size pos_w some_block) in
      (l, e, h)
