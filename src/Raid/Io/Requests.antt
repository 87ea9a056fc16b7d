-- ===== src/Raid/Io/Requests.antt =====
-- HW-Raid/raid.py, enqueue45: a write of levels 4 and 5 as a whole.
use cs334_operating_systems.Prelude.{
  ℕ, ◌+◌, ◌-◌, ◌*◌, ◌/◌, ◌%◌, ◌≤◌, ◌<◌, ◌≡◌, refl, sym, ap, ◌∙◌, ◌≢◌, inl, inr, true, List, [], ◌∷◌,
  ◌++◌, arith, ltb, leb, ltb→lt, Bool-cases, Result, ok, ok-injective,
}
use cs334_operating_systems.Prelude.DivMod.{div_of, join, mod-lt_pos}
use cs334_operating_systems.Raid.Mapping.{Raid5Type, bmap5_full, bmap5, blocks_in_stripe, pmap5}
use cs334_operating_systems.Raid.Mapping.Rotated.{IsLayout, bmap5_full_lem, pmap5-bmap5}
use cs334_operating_systems.Raid.Io.{
  Io, read, write, span, reads, with_parity, pieces, stripe_count, places, do_partial_write,
  write_pieces, enqueue45, raid5, Raid, ios,
}
use cs334_operating_systems.Raid.Io.Pieces.{Covers, pieces-Covers}
use cs334_operating_systems.Raid.Io.Cost.{has_write, has_write-append, do_partial_write_parity}

row_in_stripe :
    (w v s b e t : ℕ) → 0 < w → t ≡ s → s * w ≤ b → v < e → e ≤ s * w + w → b ≤ v → v / w ≡ t
row_in_stripe w v s b e t pos_w same lo to hi from =
    ap (λ x. x / w) (let j : v ≡ s * w + (v - s * w) = omega (arith, lo, from) in j)
    ∙ div_of s w (v - s * w) (omega (arith, lo, to, hi, from))
    ∙ sym same

module _ (bmap : ℕ → Result (ℕ × ℕ)) (pmap : ℕ → Result ℕ) (w : ℕ)
    (block_at : (v : ℕ) → (p : ℕ × ℕ) × (bmap v ≡ ok p))
    (parity_at : (s : ℕ) → (pd : ℕ) × (pmap s ≡ ok pd)) where
  places-ok : (vs : List ℕ) → (ps : List (ℕ × ℕ)) × (places bmap vs ≡ ok ps)
  unfolding places
  places-ok [] = ([], refl)
  places-ok (v ∷ vs) =
      let (p, e) = block_at v in let (ps, f) = places-ok vs in (p ∷ ps, rw (e, f) refl)

  do_partial_write-ok :
      (snum begin stop : ℕ) → (l : List Io) × (do_partial_write bmap pmap w snum begin stop ≡ ok l)
  unfolding do_partial_write
  do_partial_write-ok snum begin stop =
      let (pd, parity) = parity_at snum in
      let (new, e) = places-ok (span begin (stop - begin)) in
      let (before, eb) = places-ok (span (snum * w) (begin - snum * w)) in
      let (after, ea) = places-ok (span stop (snum * w + w - stop)) in
      elim (Bool-cases (leb (stop - begin + 1) (w - (stop - begin)))) [
        | inl t ↦ (with_parity read pd new ++ with_parity write pd new, rw (parity, e, t) refl)
        | inr t ↦ (
          (reads before ++ reads after) ++ with_parity write pd new,
          rw (parity, e, t, eb, ea) refl,
        )
      ]

  -- block `v` and the parity of its stripe are written
  abbrev Written : List Io → ℕ → Type 0
  Written l v =
      (d off pd : ℕ)
      → bmap v ≡ ok (d, off)
      → pmap (v / w) ≡ ok pd
      → (has_write d off l ≡ true) × (has_write pd off l ≡ true)

  first-Written : (l m : List Io) (v : ℕ) → Written l v → Written (l ++ m) v
  first-Written l m v h d off pd at parity =
      let (a, b) = h d off pd at parity in
      (
        ground (arith, has_write-append d off l m, a),
        ground (arith, has_write-append pd off l m, b),
      )

  second-Written : (l m : List Io) (v : ℕ) → Written m v → Written (l ++ m) v
  second-Written l m v h d off pd at parity =
      let (a, b) = h d off pd at parity in
      (
        ground (arith, has_write-append d off l m, a),
        ground (arith, has_write-append pd off l m, b),
      )

  write_pieces-Written :
      (s begin stop : ℕ) (l : List (ℕ × ℕ × ℕ))
      → 0 < w
      → Covers w s begin stop l
      → (m : List Io) × (write_pieces bmap pmap w l ≡ ok m)
        × ((v : ℕ) → begin ≤ v → v < stop → Written m v)
  unfolding write_pieces
  write_pieces-Written s begin stop [] pos_w covers =
      ([], refl, λ v lo hi. absurd (omega (arith, covers)))
  write_pieces-Written s begin stop ((t, b, e) ∷ l) pos_w (same, at, lo, longer, hi, more) =
      let (first, made) = do_partial_write-ok t b e in
      let (rest, made_rest, behind) = write_pieces-Written (s + 1) e stop l pos_w more in
      (
        first ++ rest,
        rw (made, made_rest) refl,
        λ v from to. elim (Bool-cases (ltb v e)) [
          | inl inside ↦ first-Written first rest v (λ d off pd place parity.
              let row : v / w ≡ t =
                row_in_stripe w v s b e t pos_w same lo (ltb→lt v e inside) hi
                  (omega (arith, at, from)) in
              do_partial_write_parity bmap pmap w t b e pd first made (ap pmap (sym row) ∙ parity) v
                d off (omega (arith, at, from)) (ltb→lt v e inside) place)
          | inr outside ↦ second-Written first rest v (behind v (ground (arith, outside)) to)
        ],
      )

  enqueue45-Written :
      (addr size : ℕ)
      → 0 < w
      → 0 < size
      → (l : List Io) × (enqueue45 bmap pmap w addr size true ≡ ok l)
        × ((v : ℕ) → addr ≤ v → v < addr + size → Written l v)
  unfolding enqueue45
  enqueue45-Written addr size pos_w some_block =
      write_pieces-Written (addr / w) addr (addr + size)
        (pieces w (stripe_count w addr size) (addr / w) size addr) pos_w
        (pieces-Covers w addr size pos_w some_block)

pmap5_of_block :
    (kind : Raid5Type) (c n v d pd off : ℕ)
    → IsLayout kind
    → 0 < c
    → 1 < n
    → bmap5_full kind c n v ≡ ok (d, pd, off)
    → pmap5 kind c n (v / blocks_in_stripe c n) ≡ ok pd
pmap5_of_block kind c n v d pd off layout cpos npos at =
    let w = blocks_in_stripe c n in
    let wpos : 0 < w = grind arith in
    let (d', pd', off', e, f) =
      pmap5-bmap5 kind c n (v / w) (v % w) layout cpos npos (mod-lt_pos v w wpos) in
    let same : (d', pd', off') ≡ (d, pd, off) =
      ok-injective (sym e ∙ ap (bmap5_full kind c n) (join v w wpos) ∙ at) in
    f ∙ ap (λ p. ok p.1) same

-- Level 5: a write of any blocks gives a list of requests in which, for every block, both its place
-- and the place of its parity, on another disk at the same offset, are written.
pub ios-Written :
    (r : Raid) (addr size : ℕ)
    → r.level ≡ raid5
    → IsLayout r.raid5type
    → 0 < r.chunk_size
    → 1 < r.num_disks
    → 0 < size
    → (l : List Io) × (ios r addr size true ≡ ok l)
      × ((v : ℕ)
          → addr ≤ v
          → v < addr + size
          → (disk pdisk off : ℕ) × (bmap5_full r.raid5type r.chunk_size r.num_disks v
              ≡ ok (disk, pdisk, off))
            × (disk ≢ pdisk)
            × (has_write disk off l ≡ true)
            × (has_write pdisk off l ≡ true))
unfolding ios bmap5
ios-Written r addr size level layout cpos npos some_block =
    let c = r.chunk_size in
    let n = r.num_disks in
    let kind = r.raid5type in
    let wpos : 0 < blocks_in_stripe c n = grind arith in
    let (l, made, all) =
      enqueue45-Written (bmap5 kind c n) (pmap5 kind c n) (blocks_in_stripe c n)
        (λ v.
          let (d, pd, off, e, _, _, _, _) = bmap5_full_lem kind c n layout cpos npos v in
          ((d, off), rw e refl))
        (λ s. let (d, pd, off, e, f) = pmap5-bmap5 kind c n s 0 layout cpos npos wpos in (pd, f))
        addr size wpos some_block in
    (
      l,
      rw level made,
      λ v from to.
          let (d, pd, off, e, _, _, apart, _) = bmap5_full_lem kind c n layout cpos npos v in
          let parity = pmap5_of_block kind c n v d pd off layout cpos npos e in
          let (own, also) = all v from to d off pd (rw e refl) parity in
          (d, pd, off, e, apart, own, also),
    )
