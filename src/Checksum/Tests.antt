-- ===== src/Checksum/Tests.antt =====
-- A run of checksum.py, and the theorems applied to its bytes.
use cs334_operating_systems.Prelude.{ℕ, ◌%◌, ◌≡◌, refl, ◌↔◌, List, [], ◌∷◌, ok}
use cs334_operating_systems.Checksum.{values_of, sums}
use cs334_operating_systems.Checksum.Laws.{total, weighted, sums_lem, sums-swap}
use cs334_operating_systems.Prelude.Int.{pos, negsuc}
use cs334_operating_systems.Prelude.Text.{codes}

abbrev bytes : List ℕ
bytes = 216 ∷ 194 ∷ 107 ∷ 66 ∷ []

sums-bytes : sums bytes ≡ record { add = 71; xor = 51; fletcher_a = 73; fletcher_b = 196 }
unfolding sums
sums-bytes = refl

sums_lem_example :
    ((sums bytes).add ≡ total bytes % 256)
    × ((sums bytes).fletcher_a ≡ total bytes % 255)
    × ((sums bytes).fletcher_b ≡ weighted bytes % 255)
sums_lem_example = sums_lem bytes

sums-swap_example :
    let after = sums (216 ∷ 107 ∷ 194 ∷ 66 ∷ []) in
    ((sums bytes).add ≡ after.add)
    × ((sums bytes).fletcher_a ≡ after.fletcher_a)
    × (((sums bytes).fletcher_b ≡ after.fletcher_b) ↔ (194 % 255 ≡ 107 % 255))
sums-swap_example = sums-swap (216 ∷ []) (66 ∷ []) 194 107

values_read : values_of (codes "216,-3, 7") ≡ ok (pos 216 ∷ negsuc 2 ∷ pos 7 ∷ [])
unfolding values_of
values_read = refl
