-- ===== src/Raid/Disk.antt =====
-- HW-Raid/raid.py, class disk: where the arm is, what a request costs, and the counts. Times are in
-- tenths of a millisecond: `xferTime` 0.1 is 1 and `seekTime` 10 is 100. (The source adds them up as
-- floating-point numbers.)
pub mod Laws
use cs334_operating_systems.Prelude.{
  ℕ, suc, ◌+◌, ◌-◌, ◌*◌, ◌/◌, Bool, ◌||◌, ltb, leb, ◌==◌, if◌then◌else◌, Result, ok, ◌>>=◌, check,
  ◌>>◌,
}
use cs334_operating_systems.Prelude.Int.{ℤ, pos, negsuc, eq_ℤ, div_floor}

pub record Disk : Type 0 where
  pub seek_time : ℕ
  pub xfer_time : ℕ
  pub curr_addr : ℤ
  pub num_tracks : ℕ
  pub blocks_per_track : ℕ
  pub count_io : ℕ
  pub count_seq : ℕ
  pub count_nseq : ℕ
  pub count_rand : ℕ
  pub util_time : ℕ

-- `disk()`, with the default arguments; `currAddr` is -10000
unfoldable pub init : Disk
init = record {
  seek_time = 100;
  xfer_time = 1;
  curr_addr = negsuc 9999;
  num_tracks = 100;
  blocks_per_track = 100;
  count_io = 0;
  count_seq = 0;
  count_nseq = 0;
  count_rand = 0;
  util_time = 0;
}

-- `addr - currAddr`, without its sign
unfoldable pub distance : ℤ → ℕ → ℕ
distance (pos a) addr = if leb a addr then addr - a else a - addr
distance (negsuc a) addr = addr + suc a

-- the request is served without a seek
unfoldable pub is_near : Disk → ℕ → Bool
unfolding distance
is_near d addr =
    eq_ℤ (div_floor d.curr_addr d.num_tracks) (pos (addr / d.num_tracks))
    || ltb (distance d.curr_addr addr) d.blocks_per_track

unfoldable pub serve : Disk → ℕ → Disk
unfolding is_near
serve d addr =
    let diff = distance d.curr_addr addr in
    if is_near d addr
    then (if diff == 1
        then record d { count_seq = d.count_seq + 1; util_time = d.util_time + diff * d.xfer_time }
        else record d {
          count_nseq = d.count_nseq + 1;
          util_time = d.util_time + diff * d.xfer_time;
        })
    else record d {
      count_rand = d.count_rand + 1;
      util_time = d.util_time + (d.seek_time + d.xfer_time);
    }

unfoldable pub enqueue : Disk → ℕ → Result Disk
unfolding serve
enqueue d addr = do
  check (ltb addr (d.num_tracks * d.blocks_per_track))
  let e = serve (record d { count_io = d.count_io + 1 }) addr
  ok (record e { curr_addr = pos addr })

-- `stats` and `go`
abbrev pub stats : Disk → ℕ × ℕ × ℕ × ℕ × ℕ
stats d = (d.count_io, d.count_seq, d.count_nseq, d.count_rand, d.util_time)

abbrev pub go : Disk → ℕ
go d = d.util_time
