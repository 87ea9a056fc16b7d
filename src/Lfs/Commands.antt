-- ===== src/Lfs/Commands.antt =====
-- HW-LFS/lfs.py, the helpers for main and its loop: process_percentages, make_command_list and the
-- reading of a command list. What `random.random()` draws is an argument: `int(random.random() * n)`
-- is `d % n` for a drawn number `d`, and the fraction that chooses the command is in hundredths.
pub mod Asked
pub mod Pieces
pub mod Rounds
pub mod Generated
mod Tests
use mathlib.Core.Option
use cs334_operating_systems.Prelude.{
  ℕ, zero, suc, ◌+◌, ◌%◌, Bool, false, not, ◌&&◌, ◌||◌, Option, none, some, List, [], ◌∷◌, ◌++◌,
  ◌==◌, if◌then◌else◌, length, Fault, key_error, Result, ok, raise, ◌>>=◌, check, ◌>>◌, or_raise,
  nth,
}
use cs334_operating_systems.Prelude.Int.{ℤ, pos, pos_part, ◌+ℤ◌, ltb_ℤ, eq_ℤ, leb_ℤ}
use cs334_operating_systems.Prelude.Text.{Text, text_eq, split, lookup, insert}
use cs334_operating_systems.Prelude.Parse.{int, digits_onto, decimal}
use cs334_operating_systems.Lfs.State.{Lfs}
use cs334_operating_systems.Lfs.Ops.{
  Command, create, mkdir, remove, link, write, checkpoint_now, execute,
}

-- the letters of `cmd_list`
pub data Kind : Type 0 where
  creates writes makes_dir removes links syncs : Kind

abbrev pub letter : Kind → ℕ
letter creates = b'c'
letter writes = b'w'
letter makes_dir = b'd'
letter removes = b'r'
letter links = b'l'
letter syncs = b's'

abbrev pub cmd_list : List Kind
cmd_list = creates ∷ writes ∷ makes_dir ∷ removes ∷ links ∷ syncs ∷ []

-- the pair that `p_array` holds for a command
pub record Range : Type 0 where
  pub low : ℤ
  pub high : ℤ

abbrev pub Percents : Type 0
Percents = List (Text × Range)

-- `p[0]` and `p[1:]`
abbrev pub cmd_and_value : Text → Result (ℕ × Text)
cmd_and_value [] = raise Fault.index_error
cmd_and_value (cmd ∷ value) = ok (cmd, value)

-- the first loop; its test `value < 0` compares a text with a number, which is never true
unfoldable pub percent_sum : ℤ → List Text → Result ℤ
percent_sum csum [] = ok csum
percent_sum csum (p ∷ ps) = do
  (cmd, value) ← cmd_and_value p
  v ← int value
  percent_sum (csum +ℤ v) ps

abbrev pub is_cmd : ℕ → List Kind → Bool
is_cmd cmd [] = false
is_cmd cmd (k ∷ ks) = cmd == letter k || is_cmd cmd ks

abbrev pub no_percents : List Kind → Percents
no_percents [] = []
no_percents (k ∷ ks) =
    insert (letter k ∷ []) (record { low = pos 0; high = pos 0 }) (no_percents ks)

-- the last loop, in hundredths
unfoldable pub percent_ranges : ℤ → Percents → List Text → Result Percents
percent_ranges csum p_array [] = ok p_array
percent_ranges csum p_array (p ∷ ps) = do
  (cmd, text) ← cmd_and_value p
  if not (is_cmd cmd cmd_list) then raise Fault.exit else (do
    value ← int text
    percent_ranges (csum +ℤ value)
        (insert (cmd ∷ []) (record { low = csum; high = csum +ℤ value }) p_array) ps)

unfoldable pub process_percentages : Text → Result Percents
unfolding percent_sum percent_ranges split insert int
process_percentages percentages = do
  let tmp = split b',' percentages
  csum ← percent_sum (pos 0) tmp
  if not (eq_ℤ csum (pos 100))
      then raise Fault.exit
      else percent_ranges (pos 0) (no_percents cmd_list) tmp

-- what `random` draws in one round
pub record Draw : Type 0 where
  pub chance : ℕ
  pub choice : ℕ
  pub dir_choice : ℕ
  pub letter1 : ℕ
  pub letter2 : ℕ
  pub number : ℕ
  pub offset : ℕ
  pub size : ℕ

pub record Names : Type 0 where
  pub existing_files : List Text
  pub existing_dirs : List Text

unfoldable pub pick_random : List Text → ℕ → Result Text
pick_random a_list d = if length a_list == 0 then ok [] else nth a_list (d % length a_list)

-- `str` of a number below 10
abbrev pub digit : ℕ → ℕ
digit n = b'0' + n % 10

unfoldable pub make_random_file_name : Text → Draw → Text
make_random_file_name parent_dir d =
    let name : Text =
      b'/' ∷ (b'a' + d.letter1 % 26) ∷ (b'a' + d.letter2 % 26) ∷ digit d.number ∷ [] in
    if text_eq parent_dir (b'/' ∷ []) then name else parent_dir ++ name

-- the first command whose range holds the fraction
unfoldable pub chosen : Percents → ℕ → List Kind → Result Kind
unfolding lookup
chosen percents chance [] = raise Fault.exit
chosen percents chance (k ∷ ks) = do
  range ← or_raise key_error (lookup (letter k ∷ []) percents)
  if leb_ℤ range.low (pos (chance % 100)) && ltb_ℤ (pos (chance % 100)) range.high
      then ok k
      else chosen percents chance ks

-- a new name below a directory, or none (`continue`) where there is no directory
unfoldable pub new_name : Names → Draw → Result (Option Text)
unfolding pick_random make_random_file_name
new_name names d = do
  pdir ← pick_random names.existing_dirs d.dir_choice
  ok (if text_eq pdir [] then none else some (make_random_file_name pdir d))

abbrev pub remove_at : List Text → ℕ → List Text
remove_at [] i = []
remove_at (x ∷ l) zero = l
remove_at (x ∷ l) (suc i) = x ∷ remove_at l i

abbrev pub add_file : Names → Text → Names
add_file names f = record names { existing_files = names.existing_files ++ f ∷ [] }

-- one round of the loop: the command and the names behind it, or none (`continue`)
unfoldable pub make_command : Names → Draw → Kind → Result (Option (Text × Names))
unfolding new_name
make_command names d creates = do
  name ← new_name names d
  ok (Option.map (λ f. (b'c' ∷ b',' ∷ f, add_file names f)) name)
make_command names d writes = do
  pfile ← pick_random names.existing_files d.choice
  ok (
      if text_eq pfile []
      then none
      else some (
        b'w' ∷ b',' ∷ pfile ++ b',' ∷ (b'0' + d.offset % 8) ∷ b',' ∷ (b'0' + d.size % 8) ∷ [],
        names,
      ))
make_command names d makes_dir = do
  name ← new_name names d
  ok (
      Option.map
        (λ f. (b'd' ∷ b',' ∷ f, record names { existing_dirs = names.existing_dirs ++ f ∷ [] }))
        name)
make_command names d removes =
    let index = d.choice % length names.existing_files in
    if length names.existing_files == 0 then ok none else (do
      f ← nth names.existing_files index
      ok (
          some (
            b'r' ∷ b',' ∷ f,
            record names { existing_files = remove_at names.existing_files index },
          )))
make_command names d links = do
  name ← new_name names d
  elim name [
    | none ↦ ok none
    | some nfile ↦ (do
      f ← nth names.existing_files (d.choice % length names.existing_files)
      ok (some (b'l' ∷ b',' ∷ f ++ b',' ∷ nfile, add_file names nfile)))
  ]
make_command names d syncs = ok (some (b's' ∷ [], names))

abbrev pub add_command : Text → Text → Text
add_command command_list command =
    if text_eq command_list [] then command else command_list ++ b':' ∷ command

-- the loop, over the draws of its rounds: the commands still due when the draws end, and the list
unfoldable pub make_command_list : Percents → List Draw → ℕ → Names → Text → Result (ℕ × Text)
unfolding chosen make_command
make_command_list percents draws zero names command_list = ok (0, command_list)
make_command_list percents [] (suc n) names command_list = ok (suc n, command_list)
make_command_list percents (d ∷ draws) (suc n) names command_list = do
  kind ← chosen percents d.chance cmd_list
  made ← make_command names d kind
  elim made [
    | none ↦ make_command_list percents draws (suc n) names command_list
    | some (command, after) ↦
        make_command_list percents draws n after (add_command command_list command)
  ]

abbrev pub no_names : Names
no_names = record { existing_files = []; existing_dirs = (b'/' ∷ []) ∷ [] }

-- the commands with one path; an assertion counts the words
unfoldable pub with_path : (Text → Command) → List Text → Result (Option Command)
with_path make l = do check (length l == 2); path ← nth l 1; ok (some (make path))

unfoldable pub parse_link : List Text → Result (Option Command)
parse_link l = do check (length l == 3); src ← nth l 1; dst ← nth l 2; ok (some (link src dst))

-- `16 * s`
abbrev pub repeated : ℕ → Text → Text
repeated zero s = []
repeated (suc n) s = s ++ repeated n s

-- `make_random_blocks`, from block `i` on, each with a drawn letter
unfoldable pub make_random_blocks : (ℕ → ℕ) → ℕ → ℕ → List Text
unfolding digits_onto
make_random_blocks draw i zero = []
make_random_blocks draw i (suc num) =
    repeated 16 ((b'a' + draw i % 26) ∷ decimal i) ∷ make_random_blocks draw (i + 1) num

-- `blocks n` are the `n` blocks that `make_random_blocks` makes
unfoldable pub parse_write : (ℕ → List Text) → List Text → Result (Option Command)
unfolding int
parse_write blocks l = do
  check (length l == 4)
  path ← nth l 1
  second ← nth l 2
  offset ← int second
  third ← nth l 3
  num_blks ← int third
  ok (some (write path offset (blocks (pos_part num_blks))))

-- the words of a command; an unknown one is skipped
unfoldable pub parse_command : (ℕ → List Text) → List Text → Result (Option Command)
unfolding with_path parse_link parse_write
parse_command blocks l = do
  word ← nth l 0
  let is : ℕ → Bool = λ c. text_eq word (c ∷ [])
  if is b'c'
      then with_path create l
      else if is b'd'
      then with_path mkdir l
      else if is b'r'
      then with_path remove l
      else if is b'l'
      then parse_link l
      else if is b'w'
      then parse_write blocks l
      else if is b's'
      then ok (some checkpoint_now)
      else ok none

abbrev pub step : Lfs → Option Command → Result Lfs
step s none = ok s
step s (some c) = do (rc, t) ← execute s c; ok t

-- the loop of main from command `i` on
unfoldable pub run_texts : (ℕ → ℕ → List Text) → ℕ → Lfs → List Text → Result Lfs
unfolding parse_command split
run_texts blocks i s [] = ok s
run_texts blocks i s (t ∷ ts) = do
  c ← parse_command (blocks i) (split b',' t)
  u ← step s c
  run_texts blocks (i + 1) u ts

-- `if command_list != ''`
unfoldable pub run_list : (ℕ → ℕ → List Text) → Lfs → Text → Result Lfs
unfolding run_texts
run_list blocks s command_list =
    if text_eq command_list [] then ok s else run_texts blocks 0 s (split b':' command_list)
