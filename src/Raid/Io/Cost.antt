-- ===== src/Raid/Io/Cost.antt =====
-- HW-Raid/raid.py, doPartialWrite: the number of its requests, and its writes of data and of parity.
use Prim.Native.Nat.{min}
use native.Mathlib.Decide.{ℕ_discrete}
use cs334_operating_systems.Prelude.{
  ℕ, zero, suc, ◌+◌, ◌-◌, ◌*◌, ◌≤◌, ◌<◌, ◌≡◌, refl, sym, ap, ◌∙◌, inl, inr, Bool, true, false, ◌&&◌,
  ◌||◌, List, [], ◌∷◌, ◌++◌, map, arith, leb, ◌==◌, if◌then◌else◌, leb→le, Bool-cases, length,
  length-append, length-map, Result, ok, >>=-eq-ok, ok-injective, Ensures, Ensures-ok,
  Ensures-bind_eq,
}
use cs334_operating_systems.Raid.Io.{
  Io, read, write, span, has, note_off, off_list, reads, writes, with_parity, places,
  do_partial_write,
}

has-append : (off : ℕ) (l m : List ℕ) → has off (l ++ m) ≡ (has off l || has off m)
unfolding has
has-append off [] m = refl
has-append off (o ∷ l) m = ground (arith, has-append off l m)

has-note_off : (o off : ℕ) (offs : List ℕ) → has o (note_off off offs) ≡ (o == off || has o offs)
unfolding note_off
has-note_off o off offs = ground (arith, has-append o offs (off ∷ []))

-- all the places lie at offset `o`
abbrev AllAt : ℕ → List (ℕ × ℕ) → Type 0
AllAt o [] = Unit
AllAt o ((d, off) ∷ ps) = (off ≡ o) × AllAt o ps

-- the blocks' offsets, as a list
abbrev offs_of : List (ℕ × ℕ) → List ℕ
offs_of = map (λ p. p.1)

has-off_list :
    (o : ℕ) (offs : List ℕ) (ps : List (ℕ × ℕ))
    → has o (off_list offs ps) ≡ (has o offs || has o (offs_of ps))
unfolding has
has-off_list o offs [] = ground arith
has-off_list o offs ((d, off) ∷ ps) =
    ground (arith, has-off_list o (note_off off offs) ps, has-note_off o off offs)

-- `offList` has one offset where all the blocks lie at one
one_off : (ps : List (ℕ × ℕ)) (o : ℕ) → AllAt o ps → off_list (o ∷ []) ps ≡ o ∷ []
one_off [] o h = refl
one_off ((d, off) ∷ ps) o h =
    let e : note_off off (o ∷ []) ≡ o ∷ [] = unfold note_off has in ground (arith, h.0) in
    rw e (one_off ps o h.1)

length-with_parity :
    (io : ℕ → ℕ → Io) (pd o : ℕ) (ps : List (ℕ × ℕ))
    → AllAt o ps
    → 0 < length ps
    → length (with_parity io pd ps) ≡ length ps + 1
length-with_parity io pd o [] h l = absurd (omega arith)
length-with_parity io pd o ((d, off) ∷ ps) h l =
    let e : off_list [] ((d, off) ∷ ps) ≡ o ∷ [] =
      unfold note_off has in rw h.0 (one_off ps o h.1) in
    length-append (map (λ p. io p.0 p.1) ((d, off) ∷ ps))
      (map (io pd) (off_list [] ((d, off) ∷ ps)))
    ∙ rw (e, length-map ((d, off) ∷ ps) (λ (p : ℕ × ℕ). io p.0 p.1)) refl

length-reads : (ps qs : List (ℕ × ℕ)) → length (reads ps ++ reads qs) ≡ length ps + length qs
length-reads ps qs = rw (
  length-append (reads ps) (reads qs),
  length-map ps (λ (p : ℕ × ℕ). read p.0 p.1),
  length-map qs (λ (p : ℕ × ℕ). read p.0 p.1),
)

leb-false : (a b : ℕ) → leb a b ≡ false → b < a
leb-false a b h = ground arith

module _ (bmap : ℕ → Result (ℕ × ℕ)) (pmap : ℕ → Result ℕ) (w snum o : ℕ)
    (at_row : (v : ℕ) → snum * w ≤ v → v < snum * w + w → (d : ℕ) × (bmap v ≡ ok (d, o))) where
  places_at :
      (a n : ℕ)
      → snum * w ≤ a
      → a + n ≤ snum * w + w
      → (ps : List (ℕ × ℕ)) × (places bmap (span a n) ≡ ok ps) × AllAt o ps × (length ps ≡ n)
  unfolding places span
  places_at a zero lo hi = ([], refl, tt, refl)
  places_at a (suc n) lo hi =
      let (d, e) = at_row a lo (omega arith) in
      let (ps, made, at, len) = places_at (a + 1) n (omega arith) (omega arith) in
      ((d, o) ∷ ps, rw (e, made), (refl, at), ap suc len)

  -- The write of a part of a stripe whose blocks lie in one row, as with chunks of one block, takes
  -- the cheaper of the two ways to compute parity: for `m` of the `w` data blocks, `2 * m + 2`
  -- requests with subtractive and `w + 1` with additive parity.
  pub do_partial_write_cost :
      (begin stop pd : ℕ)
      → snum * w ≤ begin
      → begin < stop
      → stop ≤ snum * w + w
      → pmap snum ≡ ok pd
      → (l : List Io) × (do_partial_write bmap pmap w snum begin stop ≡ ok l)
        × (length l ≡ min (2 * (stop - begin) + 2) (w + 1))
  unfolding do_partial_write
  do_partial_write_cost begin stop pd lo some_block hi parity =
      let (new, e, at, n) = places_at begin (stop - begin) lo (omega arith) in
      let (before, eb, _, nb) =
        places_at (snum * w) (begin - snum * w) (omega arith) (omega arith) in
      let (after, ea, _, na) = places_at stop (snum * w + w - stop) (omega arith) (omega arith) in
      let cost_w = length-with_parity write pd o new at (omega arith) in
      elim (Bool-cases (leb (stop - begin + 1) (w - (stop - begin)))) [
        | inl t ↦ (
          with_parity read pd new ++ with_parity write pd new,
          rw (parity, e, t),
          length-append (with_parity read pd new) (with_parity write pd new)
              ∙ omega
                  (arith, cost_w, length-with_parity read pd o new at (omega arith), leb→le _ _ t),
        )
        | inr t ↦ (
          (reads before ++ reads after) ++ with_parity write pd new,
          rw (parity, e, t, eb, ea),
          length-append (reads before ++ reads after) (with_parity write pd new)
              ∙ omega (
                arith,
                cost_w,
                n,
                nb,
                na,
                length-reads before after,
                leb-false (stop - begin + 1) (w - (stop - begin)) t,
              ),
        )
      ]

-- whether the requests hold a write of a place
unfoldable pub has_write : ℕ → ℕ → List Io → Bool
has_write d off [] = false
has_write d off (read e o ∷ l) = has_write d off l
has_write d off (write e o ∷ l) = (d == e && off == o) || has_write d off l

pub has_write-append :
    (d off : ℕ) (l m : List Io)
    → has_write d off (l ++ m) ≡ (has_write d off l || has_write d off m)
unfolding has_write
has_write-append d off [] m = refl
has_write-append d off (read e o ∷ l) m = has_write-append d off l m
has_write-append d off (write e o ∷ l) m = ground (arith, has_write-append d off l m)

-- `stripe` of the offsets on the parity disk
has_write-parity :
    (pd off : ℕ) (offs : List ℕ)
    → has off offs ≡ true
    → has_write pd off (map (write pd) offs) ≡ true
unfolding has has_write
has_write-parity pd off [] h = h
has_write-parity pd off (o ∷ offs) h = ground (arith, has_write-parity pd off offs)

-- the places of a span of blocks, one by one
places-has :
    (bmap : ℕ → Result (ℕ × ℕ)) (a n v d off : ℕ) (ps : List (ℕ × ℕ))
    → places bmap (span a n) ≡ ok ps
    → a ≤ v
    → v < a + n
    → bmap v ≡ ok (d, off)
    → (has_write d off (writes ps) ≡ true) × (has off (offs_of ps) ≡ true)
unfolding places span has has_write
places-has bmap a zero v d off ps e lo hi at = absurd (omega arith)
places-has bmap a (suc n) v d off ps e lo hi at =
    let (p, first, rest) = >>=-eq-ok (bmap a) _ e in
    let (qs, more, done) = >>=-eq-ok (places bmap (span (a + 1) n)) _ rest in
    let whole : p ∷ qs ≡ ps = ok-injective done in
    elim (ℕ_discrete v a) [
      | yes same ↦
          let here : p ≡ (d, off) = ok-injective (sym first ∙ rw (← same) at) in
          rw (← whole, here) (ground arith, ground arith)
      | no other ↦
          let (w, o) = places-has bmap (a + 1) n v d off qs more (omega arith) (omega arith) at in
          rw (← whole) (ground (arith, w), ground (arith, o))
    ]

parity_follows :
    (d off pd : ℕ) (old : List Io) (new : List (ℕ × ℕ))
    → has_write d off (writes new) ≡ true
    → has off (offs_of new) ≡ true
    → (has_write d off (old ++ with_parity write pd new) ≡ true)
      × (has_write pd off (old ++ with_parity write pd new) ≡ true)
parity_follows d off pd old new own offs =
    let listed : has off (off_list [] new) ≡ true = has-off_list off [] new ∙ unfold has in offs in
    let par : has_write pd off (map (write pd) (off_list [] new)) ≡ true =
      has_write-parity pd off (off_list [] new) listed in
    (
      ground (
        arith,
        has_write-append d off old (with_parity write pd new),
        has_write-append d off (writes new) (map (write pd) (off_list [] new)),
        own,
      ),
      ground (
        arith,
        has_write-append pd off old (with_parity write pd new),
        has_write-append pd off (writes new) (map (write pd) (off_list [] new)),
        par,
      ),
    )

-- Every block of the part that is written is written to its own place, and the parity block at its
-- offset is written too, whichever way parity is computed.
pub do_partial_write_parity :
    (bmap : ℕ → Result (ℕ × ℕ)) (pmap : ℕ → Result ℕ) (w snum begin stop pd : ℕ) (l : List Io)
    → do_partial_write bmap pmap w snum begin stop ≡ ok l
    → pmap snum ≡ ok pd
    → (v d off : ℕ) → begin ≤ v
    → v < stop
    → bmap v ≡ ok (d, off)
    → (has_write d off l ≡ true) × (has_write pd off l ≡ true)
unfolding do_partial_write
do_partial_write_parity bmap pmap w snum begin stop pd l h parity v d off lo hi at = steps.at l h
  where
    steps :
        Ensures
          (λ l. (has_write d off l ≡ true) × (has_write pd off l ≡ true))
          (do_partial_write bmap pmap w snum begin stop)
    steps = rw parity (
        Ensures-bind_eq (places bmap (span begin (stop - begin))) _ λ new e.
          let (own, offs) =
            places-has bmap begin (stop - begin) v d off new e lo (omega arith) at in
          Ensures-bind_eq
            (if leb (stop - begin + 1) (w - (stop - begin))
              then ok (with_parity read pd new)
              else _)
            _ λ old _. Ensures-ok (parity_follows d off pd old new own offs))
