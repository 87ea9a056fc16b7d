-- ===== src/Ffs/Dump.antt =====
-- HW-FFS/ffs.py, class file_system: the texts of dump, which list_to_string and do_numeric_header make.
use cs334_operating_systems.Prelude.{
  ℕ, zero, suc, ◌+◌, ◌%◌, ◌^◌, ◌&&◌, Option, none, some, List, [], ◌∷◌, ◌++◌, ltb, ◌==◌,
  if◌then◌else◌, key_error, Result, ok, ◌>>=◌, or_raise,
}
use cs334_operating_systems.Prelude.Text.{Text}
use cs334_operating_systems.Ffs.State.{Ffs, find}

-- a space behind every ten places
abbrev pub gap : ℕ → Text
gap i = if ltb 0 i && i % 10 == 0 then b' ' ∷ [] else []

abbrev pub place_text : Ffs → Option ℕ → Result Text
place_text s none = ok (b'-' ∷ [])
place_text s (some inum) = or_raise key_error (find inum s.symbol_map)

-- `list_to_string`, from place `i` on
unfoldable pub string_from : Ffs → ℕ → List (Option ℕ) → Result Text
unfolding find
string_from s i [] = ok []
string_from s i (p ∷ l) = do
  own ← place_text s p
  rest ← string_from s (i + 1) l
  ok (gap i ++ own ++ rest)

abbrev pub list_to_string : Ffs → List (Option ℕ) → Result Text
list_to_string s l = string_from s 0 l

-- the loop of `do_numeric_header`, with `n` places still to come from `i` on
unfoldable pub header_from : ℕ → ℕ → ℕ → ℕ → ℕ → Text
header_from power i counter value zero = []
header_from power i counter value (suc n) =
    let next = counter + 1 == power in
    gap i
    ++ (b'0' + value % 10)
      ∷ header_from power (i + 1) (if next then 0 else counter + 1)
          (if next then value + 1 else value) n

-- the text that it prints
unfoldable pub do_numeric_header : ℕ → ℕ → Text
unfolding header_from
do_numeric_header power_level how_many = header_from (10 ^ power_level) 0 0 0 how_many
