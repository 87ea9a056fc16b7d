-- ===== src/Raid/Disk/Laws.antt =====
-- The counts of a disk add up, and bound its time.
use cs334_operating_systems.Prelude.{
  ℕ, ◌+◌, ◌*◌, ◌/◌, ◌≤◌, ◌≡◌, true, ◌||◌, List, [], ◌∷◌, arith, ltb, Result, ok, ◌>>=◌, Ensures,
  Ensures-ok, Ensures-bind,
}
use cs334_operating_systems.Prelude.Int.{ℤ, pos, negsuc, eq_ℤ, div_floor}
use cs334_operating_systems.Raid.Disk.{Disk, init, distance, enqueue, go}

-- the requests in order
unfoldable pub enqueue_all : Disk → List ℕ → Result Disk
enqueue_all d [] = ok d
enqueue_all d (a ∷ l) = do e ← enqueue d a; enqueue_all e l

-- what holds of a disk with the default timings
pub record IsSound (d : Disk) : Type 0 where
  pub seek : d.seek_time ≡ 100
  pub xfer : d.xfer_time ≡ 1
  pub tracks : d.num_tracks ≡ 100
  pub blocks : d.blocks_per_track ≡ 100
  pub counts : d.count_seq + d.count_nseq + d.count_rand ≡ d.count_io
  pub time_low : d.count_seq + 101 * d.count_rand ≤ d.util_time
  pub time_high : d.util_time ≤ d.count_seq + 99 * d.count_nseq + 101 * d.count_rand

pub init-IsSound : IsSound init
unfolding init
init-IsSound = omega arith

-- a request on the same track, or within a track's length, crosses fewer than 100 blocks
near_distance :
    (curr : ℤ) (addr : ℕ)
    → (eq_ℤ (div_floor curr 100) (pos (addr / 100)) || ltb (distance curr addr) 100) ≡ true
    → distance curr addr ≤ 99
unfolding distance
near_distance (pos a) addr h = ground arith
near_distance (negsuc a) addr h = ground arith

pub enqueue-IsSound : (d : Disk) (a : ℕ) → IsSound d → Ensures IsSound (enqueue d a)
unfolding enqueue
enqueue-IsSound d a v = record {
  at = λ e h. ground (arith, near_distance d.curr_addr a, v.seek, v.xfer, v.tracks, v.blocks);
}

enqueue_all-IsSound : (d : Disk) (l : List ℕ) → IsSound d → Ensures IsSound (enqueue_all d l)
unfolding enqueue_all
enqueue_all-IsSound d [] v = Ensures-ok v
enqueue_all-IsSound d (a ∷ l) v =
    Ensures-bind (enqueue d a) _ (enqueue-IsSound d a v) λ e w. enqueue_all-IsSound e l w

-- After any requests to a new disk every one of them is counted as sequential, near or random, and
-- the time lies between the bounds that these counts give: a sequential request takes one
-- transfer, a near one at most 99, a random one a seek and a transfer.
pub enqueue_all-init :
    (l : List ℕ) {d : Disk}
    → enqueue_all init l ≡ ok d
    → (d.count_seq + d.count_nseq + d.count_rand ≡ d.count_io)
      × (d.count_seq + 101 * d.count_rand ≤ go d)
      × (go d ≤ d.count_seq + 99 * d.count_nseq + 101 * d.count_rand)
enqueue_all-init l {d} h =
    let v = (enqueue_all-IsSound init l init-IsSound).at d h in (v.counts, v.time_low, v.time_high)
