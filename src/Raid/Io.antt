-- ===== src/Raid/Io.antt =====
-- HW-Raid/raid.py, class raid: enqueue0, enqueue1, doPartialWrite, enqueue45, enqueue and go. A
-- request gives the list of its doSingleRead and doSingleWrite calls in their order; `perform` makes
-- them. What is printed beside these calls is not modelled.
pub mod Pieces
pub mod Cost
pub mod Requests
pub mod Bounds
pub mod Served
pub mod Levels
use cs334_operating_systems.Prelude.{
  ℕ, zero, suc, ◌+◌, ◌-◌, ◌*◌, ◌/◌, ◌%◌, Bool, true, false, not, ◌||◌, List, [], ◌∷◌, ◌++◌, map,
  ltb, leb, ◌==◌, if◌then◌else◌, replicate, Fault, Result, ok, raise, ◌>>=◌, ◌>>◌, modify,
}
use cs334_operating_systems.Raid.Mapping.{
  bmap0, bmap1, bmap4, pmap4, Raid5Type, bmap5, blocks_in_stripe, pmap5,
}
use cs334_operating_systems.Prelude.Int.{pos}
use cs334_operating_systems.Raid.Disk
use cs334_operating_systems.Raid.Disk.{Disk}

pub data Io : Type 0 where
  read write : ℕ → ℕ → Io

-- `range(a, a + n)`
unfoldable pub span : ℕ → ℕ → List ℕ
span a zero = []
span a (suc n) = a ∷ span (a + 1) n

abbrev pub single : Bool → ℕ → ℕ → Io
single true disk off = write disk off
single false disk off = read disk off

unfoldable pub enqueue0 : ℕ → ℕ → ℕ → ℕ → Bool → List Io
enqueue0 chunk_size num_disks addr size is_write =
    map (λ b. let (disk, off) = bmap0 chunk_size num_disks b in single is_write disk off)
      (span addr size)

-- one block of level 1: both copies are written, the offset chooses the one that is read
unfoldable pub mirror : ℕ × ℕ × ℕ → Bool → List Io
mirror (disk1, disk2, off) true = write disk1 off ∷ write disk2 off ∷ []
mirror (disk1, disk2, off) false = read (if off % 2 == 0 then disk1 else disk2) off ∷ []

unfoldable pub enqueue1 : ℕ → ℕ → List ℕ → Bool → List Io
unfolding mirror
enqueue1 chunk_size num_disks [] is_write = []
enqueue1 chunk_size num_disks (b ∷ bs) is_write =
    mirror (bmap1 chunk_size num_disks b) is_write ++ enqueue1 chunk_size num_disks bs is_write

-- `if off not in offList: offList.append(off)`
unfoldable pub has : ℕ → List ℕ → Bool
has off [] = false
has off (o ∷ os) = off == o || has off os

unfoldable pub note_off : ℕ → List ℕ → List ℕ
unfolding has
note_off off offs = if has off offs then offs else offs ++ off ∷ []

abbrev pub off_list : List ℕ → List (ℕ × ℕ) → List ℕ
off_list offs [] = offs
off_list offs ((disk, off) ∷ ps) = off_list (note_off off offs) ps

abbrev pub reads : List (ℕ × ℕ) → List Io
reads = map (λ p. read p.0 p.1)

abbrev pub writes : List (ℕ × ℕ) → List Io
writes = map (λ p. write p.0 p.1)

-- the blocks, and their offsets on the parity disk
abbrev pub with_parity : (ℕ → ℕ → Io) → ℕ → List (ℕ × ℕ) → List Io
with_parity io pdisk ps = map (λ p. io p.0 p.1) ps ++ map (io pdisk) (off_list [] ps)

module _ (in_stripe : ℕ) where
  -- where the loop of `enqueue45` ends the part of the request that lies in a stripe
  abbrev pub stop_of : ℕ → ℕ → ℕ → ℕ
  stop_of stripe left begin =
      let end_of_stripe = stripe * in_stripe + in_stripe in
      let stop = if leb in_stripe left then begin + in_stripe else begin + left in
      if leb end_of_stripe stop then end_of_stripe else stop

  -- the loop over the stripes: (stripe, begin, end) of each round
  unfoldable pub pieces : ℕ → ℕ → ℕ → ℕ → List (ℕ × ℕ × ℕ)
  pieces zero stripe left begin = []
  pieces (suc k) stripe left begin =
      let stop = stop_of stripe left begin in
      (stripe, begin, stop) ∷ pieces k (stripe + 1) (left - (stop - begin)) stop

  -- the length of `range(initStripe, finalStripe + 1)`; `finalStripe` is -1 for no block at 0
  unfoldable pub stripe_count : ℕ → ℕ → ℕ
  stripe_count addr size =
      if addr + size == 0 then 0 else (addr + size - 1) / in_stripe + 1 - addr / in_stripe

module _ (bmap : ℕ → Result (ℕ × ℕ)) where
  -- the places of the blocks in order
  unfoldable pub places : List ℕ → Result (List (ℕ × ℕ))
  places [] = ok []
  places (v ∷ vs) = do p ← bmap v; ps ← places vs; ok (p ∷ ps)

module _ (bmap : ℕ → Result (ℕ × ℕ)) (pmap : ℕ → Result ℕ) (in_stripe : ℕ) where
  unfoldable pub do_partial_write : ℕ → ℕ → ℕ → Result (List Io)
  do_partial_write snum begin stop = do
    let num_writes = stop - begin
    pdisk ← pmap snum
    new ← places bmap (span begin num_writes)
    let stripe_begin = snum * in_stripe
    let stripe_end = stripe_begin + in_stripe
    old ←
        if leb (num_writes + 1) (in_stripe - num_writes)
        then ok (with_parity read pdisk new)
        else (do
          before ← places bmap (span stripe_begin (begin - stripe_begin))
          after ← places bmap (span stop (stripe_end - stop))
          ok (reads before ++ reads after))
    ok (old ++ with_parity write pdisk new)

  unfoldable pub write_pieces : List (ℕ × ℕ × ℕ) → Result (List Io)
  write_pieces [] = ok []
  write_pieces ((stripe, begin, stop) ∷ l) = do
    first ← do_partial_write stripe begin stop
    rest ← write_pieces l
    ok (first ++ rest)

  unfoldable pub enqueue45 : ℕ → ℕ → Bool → Result (List Io)
  enqueue45 addr size false = do ps ← places bmap (span addr size); ok (reads ps)
  enqueue45 addr size true =
      write_pieces
        (pieces in_stripe (stripe_count in_stripe addr size) (addr / in_stripe) size addr)

-- `raidLevel`, of the values that the program accepts
pub data Level : Type 0 where
  raid0 raid1 raid4 raid5 : Level

pub record Raid : Type 0 where
  pub chunk_size : ℕ
  pub num_disks : ℕ
  pub level : Level
  pub raid5type : Raid5Type
  pub disks : List Disk

-- `__init__`, with `chunkSize` in bytes
unfoldable pub init : ℕ → ℕ → Level → Raid5Type → Result Raid
init chunk_bytes num_disks level raid5type =
    if not (chunk_bytes % 4096 == 0)
    then raise Fault.exit
    else if odd_mirror level
    then raise Fault.exit
    else ok (record {
      chunk_size = chunk_bytes / 4096;
      num_disks = num_disks;
      level = level;
      raid5type = raid5type;
      disks = replicate num_disks Disk.init;
    })
  where
    odd_mirror : Level → Bool
    odd_mirror raid1 = not (num_disks % 2 == 0)
    odd_mirror _ = false

-- `doSingleRead` and `doSingleWrite`, made in order
unfoldable pub perform : List Io → List Disk → Result (List Disk)
perform [] ds = ok ds
perform (read disk off ∷ l) ds = do
  ds ← modify ds (pos disk) (λ d. Disk.enqueue d off)
  perform l ds
perform (write disk off ∷ l) ds = do
  ds ← modify ds (pos disk) (λ d. Disk.enqueue d off)
  perform l ds

unfoldable pub ios : Raid → ℕ → ℕ → Bool → Result (List Io)
ios r addr size is_write = dispatch r.level
  where
    in_stripe : ℕ
    in_stripe = blocks_in_stripe r.chunk_size r.num_disks

    dispatch : Level → Result (List Io)
    dispatch raid0 = ok (enqueue0 r.chunk_size r.num_disks addr size is_write)
    dispatch raid1 = ok (enqueue1 r.chunk_size r.num_disks (span addr size) is_write)
    dispatch raid4 =
        enqueue45 (λ b. ok (bmap4 r.chunk_size r.num_disks b))
          (λ s. ok (pmap4 r.chunk_size r.num_disks s)) in_stripe addr size is_write
    dispatch raid5 =
        enqueue45 (bmap5 r.raid5type r.chunk_size r.num_disks)
          (pmap5 r.raid5type r.chunk_size r.num_disks) in_stripe addr size is_write

unfoldable pub enqueue : Raid → ℕ → ℕ → Bool → Result Raid
unfolding ios
enqueue r addr size is_write = do
  l ← ios r addr size is_write
  ds ← perform l r.disks
  ok (record r { disks = ds })

-- `go`: the time of the disk that is busy longest
unfoldable pub longest : ℕ → List Disk → ℕ
longest tmax [] = tmax
longest tmax (d ∷ ds) = longest (if ltb tmax (Disk.go d) then Disk.go d else tmax) ds

abbrev pub go : Raid → ℕ
go r = longest 0 r.disks
