-- ===== src/Raid/Main.antt =====
-- HW-Raid/raid.py: convert, the checks of the options and the loop of requests, with one draw for
-- each of the numRequests requests. `int(random.random() * n)` is `d % n` for a drawn number `d`, and the
-- fraction of writes is in hundredths. The sizes are the bytes that convert gives; negative ones are
-- left out.
pub mod Runs
mod Tests
use cs334_operating_systems.Prelude.{
  ℕ, suc, ◌+◌, ◌-◌, ◌*◌, ◌/◌, ◌%◌, Bool, true, false, not, ◌&&◌, ◌||◌, List, [], ◌∷◌, ltb, ◌==◌,
  if◌then◌else◌, length, take, Fault, Result, ok, raise, ◌>>=◌, check, ◌>>◌, item_at,
}
use cs334_operating_systems.Prelude.Int.{ℤ, pos, negsuc, ◌-ℤ◌, ltb_ℤ, leb_ℤ}
use cs334_operating_systems.Prelude.Text.{Text, codes, text_eq}
use cs334_operating_systems.Prelude.Parse.{digits, int}
use cs334_operating_systems.Raid.Mapping.{Raid5Type, left_symmetric, left_asymmetric, other}
use cs334_operating_systems.Raid.Io.{
  Level, raid0, raid1, raid4, raid5, Raid, init, enqueue, longest, go,
}

abbrev pub block_size : ℕ
block_size = 4096

-- `n * m` for m > 0
abbrev pub times : ℤ → ℕ → ℤ
times (pos n) m = pos (n * m)
times (negsuc n) m = negsuc (suc n * m - 1)

abbrev pub scaled : Text → ℕ → Result ℤ
scaled digits m = do n ← int digits; ok (times n m)

-- `convert`: the last character may be a unit
unfoldable pub convert : Text → Result ℤ
unfolding int
convert size = do
  lastchar ← item_at size (pos (length size) -ℤ pos 1)
  let digits = take (length size - 1) size
  if lastchar == b'k' || lastchar == b'K'
      then scaled digits 1024
      else if lastchar == b'm' || lastchar == b'M'
      then scaled digits (1024 * 1024)
      else if lastchar == b'g' || lastchar == b'G'
      then scaled digits (1024 * 1024 * 1024)
      else int size

-- whether the workload is sequential
unfoldable pub workload_of : Text → Result Bool
workload_of workload =
    let is : Text → Bool = text_eq workload in
    if is (codes "seq") || is (codes "s") || is (codes "sequential")
    then ok true
    else if is (codes "rand") || is (codes "r") || is (codes "random")
    then ok false
    else raise Fault.exit

unfoldable pub level_of : ℕ → Result Level
level_of level =
    if level == 0
    then ok raid0
    else if level == 1
    then ok raid1
    else if level == 4
    then ok raid4
    else if level == 5
    then ok raid5
    else raise Fault.assertion

unfoldable pub raid5type_of : Text → Raid5Type
raid5type_of raid5type =
    if text_eq raid5type (codes "LA")
    then left_asymmetric
    else if text_eq raid5type (codes "LS")
    then left_symmetric
    else other

pub record Options : Type 0 where
  pub num_disks : ℕ
  pub chunk_bytes : ℕ
  pub size_bytes : ℕ
  pub workload : Text
  pub write_frac : ℤ
  pub range : ℕ
  pub level : ℕ
  pub raid5type : Text

abbrev pub other_type : Raid5Type → Bool
other_type other = true
other_type _ = false

-- what is known before the first request
pub record Setup : Type 0 where
  pub size : ℕ
  pub is_sequential : Bool
  pub raid : Raid

unfoldable pub set_up : Options → Result Setup
unfolding workload_of level_of raid5type_of init
set_up o = do
  check (leb_ℤ (pos 0) o.write_frac && leb_ℤ o.write_frac (pos 100))
  if not (o.size_bytes % block_size == 0) then raise Fault.exit else (do
    is_sequential ← workload_of o.workload
    level ← level_of o.level
    if not (o.level == 0) && ltb o.num_disks 2
        then raise Fault.exit
        else if o.level == 5 && other_type (raid5type_of o.raid5type)
        then raise Fault.exit
        else (do
          r ← init o.chunk_bytes o.num_disks level (raid5type_of o.raid5type)
          ok (record {
            size = o.size_bytes / block_size;
            is_sequential = is_sequential;
            raid = r;
          })))

-- what `random` draws for one request
pub record Draw : Type 0 where
  pub address : ℕ
  pub fraction : ℕ

abbrev pub below : ℕ → ℕ → ℕ
below n d = if n == 0 then 0 else d % n

-- the loop over the requests, `off` blocks behind the start
unfoldable pub request_all : Options → Setup → ℕ → List Draw → Result Raid
unfolding enqueue
request_all o s off [] = ok s.raid
request_all o s off (d ∷ draws) = do
  let blk = if s.is_sequential then off else below o.range d.address
  r ← enqueue s.raid blk s.size (ltb_ℤ (pos (d.fraction % 100)) o.write_frac)
  request_all o (record s { raid = r }) (off + s.size) draws

-- the program, to the total time that it prints
unfoldable pub main : Options → List Draw → Result (ℕ × Raid)
unfolding set_up request_all longest
main o draws = do s ← set_up o; r ← request_all o s 0 draws; ok (go r, r)
