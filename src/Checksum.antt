-- ===== src/Checksum.antt =====
-- HW-Checksums/checksum.py: the three checksums of a list of bytes, computed in one loop.
pub mod Laws
mod Tests
use Prim.Native.Nat.{bit_xor}
use cs334_operating_systems.Prelude.{ℕ, ◌+◌, ◌%◌, List, [], ◌∷◌, Result, ok, ◌>>=◌, ◌>>◌}
use cs334_operating_systems.Prelude.Int.{ℤ}
use cs334_operating_systems.Prelude.Text.{Text, split}
use cs334_operating_systems.Prelude.Parse.{int}

pub record Sums : Type 0 where
  pub add : ℕ
  pub xor : ℕ
  pub fletcher_a : ℕ
  pub fletcher_b : ℕ

unfoldable pub start : Sums
start = record { add = 0; xor = 0; fletcher_a = 0; fletcher_b = 0 }

-- `--data`: the numbers between the commas
unfoldable pub read_values : List Text → Result (List ℤ)
unfolding int
read_values [] = ok []
read_values (t ∷ tmp) = do v ← int t; vs ← read_values tmp; ok (v ∷ vs)

unfoldable pub values_of : Text → Result (List ℤ)
unfolding read_values split
values_of text = read_values (split b',' text)

-- the body of the loop
unfoldable pub step : Sums → ℕ → Sums
step s value =
    let fletcher_a = (s.fletcher_a + value) % 255 in
    record {
      add = (s.add + value) % 256;
      xor = bit_xor s.xor value;
      fletcher_a = fletcher_a;
      fletcher_b = (s.fletcher_b + fletcher_a) % 255;
    }

unfoldable pub sums_from : Sums → List ℕ → Sums
unfolding step
sums_from s [] = s
sums_from s (value ∷ values) = sums_from (step s value) values

unfoldable pub sums : List ℕ → Sums
unfolding start sums_from
sums values = sums_from start values
