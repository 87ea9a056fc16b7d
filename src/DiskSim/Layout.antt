-- ===== src/DiskSim/Layout.antt =====
-- HW-Disk/disk.py, class Disk: InitBlockLayout. The three parts of `zoning` are given as numbers.
pub mod Blocks
pub mod Tables
use cs334_operating_systems.Prelude.{
  ℕ, zero, suc, ◌+◌, ◌-◌, ◌*◌, ◌/◌, ◌%◌, Option, none, some, List, [], ◌∷◌, ◌++◌, map, ◌==◌,
  if◌then◌else◌, key_error, value_error, Result, ok, raise, ◌>>=◌, or_raise,
}
use cs334_operating_systems.Prelude.Int.{ℤ, pos, negsuc}
use cs334_operating_systems.Prelude.Text.{Text}

-- A block as the program names it: a number, or the text of a late request given by its address.
pub data Label : Type 0 where
  number : ℤ → Label
  text : Text → Label

-- an entry of blockToTrackMap and of blockToAngleMap
pub record Place : Type 0 where
  pub block : ℕ
  pub track : ℕ
  pub angle : ℕ

pub record Layout : Type 0 where
  pub places : List Place
  pub block_angle_offset : List ℕ
  pub tracks_begin_end : List (ℕ × ℕ)
  pub max_block : ℕ

-- `range(0, 360, angleOffset)`, for a positive step
unfoldable pub angles_from : ℕ → ℕ → ℕ → List ℕ
angles_from zero angle step = []
angles_from (suc n) angle step = angle ∷ angles_from n (angle + step) step

abbrev pub blocks_on : ℕ → ℕ
blocks_on angle_offset = (360 + angle_offset - 1) / angle_offset

-- the blocks of a track, the first of which is `pblock`; `skew` is in blocks
unfoldable pub track_places : ℕ → ℕ → ℕ → ℕ → List Place
unfolding angles_from
track_places track angle_offset skew pblock =
    map
      (λ angle. record {
        block = angle / angle_offset + pblock;
        track = track;
        angle = (angle + angle_offset * skew + 180) % 360;
      })
      (angles_from (blocks_on angle_offset) 0 angle_offset)

-- a zone of 0 or 1 makes the step 0, a ValueError
abbrev pub step_of : ℕ → Result ℕ
step_of zone = if 2 * (zone / 2) == 0 then raise value_error else ok (2 * (zone / 2))

-- `maxBlock` is the first block of the inner track
unfoldable pub init_block_layout : ℕ → ℕ → ℕ → ℕ → Result Layout
unfolding track_places
init_block_layout outer middle inner skew = do
  a ← step_of outer
  b ← step_of middle
  c ← step_of inner
  let p = blocks_on a
  let q = p + blocks_on b
  ok (record {
    places = track_places 0 a 0 0 ++ (track_places 1 b skew p ++ track_places 2 c (2 * skew) q);
    block_angle_offset = outer / 2 ∷ middle / 2 ∷ inner / 2 ∷ [];
    tracks_begin_end = (0, p - 1) ∷ (p, q - 1) ∷ (q, q + blocks_on c - 1) ∷ [];
    max_block = q;
  })

unfoldable pub find_place : List Place → ℕ → Option Place
find_place [] block = none
find_place (p ∷ l) block = if p.block == block then some p else find_place l block

-- the entry of a block, or KeyError
unfoldable pub place_of : List Place → Label → Result Place
unfolding find_place
place_of places (number (pos block)) = or_raise key_error (find_place places block)
place_of places (number (negsuc n)) = raise key_error
place_of places (text t) = raise key_error
