-- ===== src/Ffs/Lines.antt =====
-- HW-FFS/ffs.py, class file_system: how read_input reads a line. An empty one is skipped, the words
-- of the others are counted by assertions, and an unknown command ends the program.
use cs334_operating_systems.Prelude.{
  Bool, Option, none, some, List, [], ◌∷◌, ◌==◌, if◌then◌else◌, length, Fault, Result, ok, raise,
  ◌>>=◌, check, ◌>>◌, nth,
}
use cs334_operating_systems.Prelude.Int.{ℤ}
use cs334_operating_systems.Prelude.Text.{Text, codes, text_eq}
use cs334_operating_systems.Prelude.Parse.{words_from, words, int}

-- a line by its command
pub data Line : Type 0 where
  file_line : Text → ℤ → Line
  dir_line delete_line : Text → Line
  dump_line : Line

unfoldable pub file_words : List Text → Result Line
unfolding int
file_words tmp = do
  check (length tmp == 3)
  name ← nth tmp 1
  text ← nth tmp 2
  size ← int text
  ok (file_line name size)

unfoldable pub name_words : (Text → Line) → List Text → Result Line
name_words line tmp = do check (length tmp == 2); name ← nth tmp 1; ok (line name)

unfoldable pub dump_words : List Text → Result Line
dump_words tmp = do check (length tmp == 1); ok dump_line

unfoldable pub read_words : List Text → Result (Option Line)
unfolding file_words name_words dump_words
read_words [] = ok none
read_words (word ∷ l) = do
  let tmp = word ∷ l
  let is : Text → Bool = text_eq word
  line ←
      if is (codes "file")
      then file_words tmp
      else if is (codes "dir")
      then name_words dir_line tmp
      else if is (codes "delete")
      then name_words delete_line tmp
      else if is (codes "dump")
      then dump_words tmp
      else raise Fault.exit
  ok (some line)

unfoldable pub read_line : Text → Result (Option Line)
unfolding read_words words_from
read_line line = read_words (words line)
