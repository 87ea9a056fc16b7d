-- ===== src/Vsfs/Workload.antt =====
-- HW-VSFS/vsfs.py, class fs: doDelete, doLink, doCreate, doAppend and run. What `random` draws is an
-- argument: the index of the chosen file or directory, the new name, the data, the operation.
use cs334_operating_systems.Prelude.{
  ℕ, zero, suc, ◌||◌, List, [], ◌∷◌, ◌++◌, ◌==◌, if◌then◌else◌, length, Fault, Result, ok, raise,
  ◌>>=◌, nth,
}
use cs334_operating_systems.Prelude.Int.{ℤ, pos, eq_ℤ, leb_ℤ, minus_one}
use cs334_operating_systems.Prelude.Text.{Text, codes, text_eq, insert}
use cs334_operating_systems.Vsfs.Fs.{Fs, root_name}
use cs334_operating_systems.Vsfs.Ops.{delete_file, create_link, create_file, write_file}
use cs334_operating_systems.Vsfs.Bitmap.{num_free}
use cs334_operating_systems.Vsfs.Block.{FType, dir, file, ftype_eq, slash}

-- `makeName`: a letter, for the number of the one that is drawn; what stands behind its first `return` is
-- never run
unfoldable pub make_name : ℕ → Result Text
make_name draw = do letter ← nth (codes "abcdefghjkmnopqrstuvwxyz") draw; ok (letter ∷ [])

-- `parent + nfile` below the root, `parent + '/' + nfile` elsewhere
unfoldable pub full_name : Text → Text → Text
full_name parent nfile =
    if text_eq parent root_name then parent ++ nfile else parent ++ slash ∷ nfile

unfoldable pub do_delete : Fs → ℕ → Result (ℤ × Fs)
do_delete s choice =
    if length s.files == 0
    then ok (minus_one, s)
    else (do dfile ← nth s.files choice; delete_file s dfile)

unfoldable pub note_file : ℤ × Fs → Text → Result (ℤ × Fs)
note_file (inum, s) name =
    if leb_ℤ (pos 0) inum
    then ok (
      pos 0,
      record s { files = s.files ++ name ∷ []; name_to_inum = insert name inum s.name_to_inum },
    )
    else ok (minus_one, s)

unfoldable pub note_dir : ℤ × Fs → Text → Result (ℤ × Fs)
note_dir (inum, s) name =
    if leb_ℤ (pos 0) inum
    then ok (
      pos 0,
      record s { dirs = s.dirs ++ name ∷ []; name_to_inum = insert name inum s.name_to_inum },
    )
    else ok (minus_one, s)

unfoldable pub do_link : Fs → ℕ → Text → ℕ → Result (ℤ × Fs)
unfolding full_name note_file
do_link s parent_choice nfile target_choice = if length s.files == 0 then ok (minus_one, s) else (do
  parent ← nth s.dirs parent_choice
  target ← nth s.files target_choice
  r ← create_link s target nfile parent
  note_file r (full_name parent nfile))

unfoldable pub do_create : Fs → FType → ℕ → Text → Result (ℤ × Fs)
unfolding full_name note_file note_dir
do_create s ftype parent_choice nfile = do
  parent ← nth s.dirs parent_choice
  r ← create_file s parent nfile ftype
  if ftype_eq ftype dir
      then note_dir r (full_name parent nfile)
      else note_file r (full_name parent nfile)

unfoldable pub do_append : Fs → ℕ → Text → Result (ℤ × Fs)
do_append s choice contents =
    if length s.files == 0
    then ok (minus_one, s)
    else (do afile ← nth s.files choice; write_file s afile contents)

-- what one pass of the `while` of `run` draws
pub data Attempt : Type 0 where
  append_to : ℕ → Text → Attempt
  delete : ℕ → Attempt
  link : ℕ → Text → ℕ → Attempt
  create_f create_d : ℕ → Text → Attempt

unfoldable pub attempt : Fs → Attempt → Result (ℤ × Fs)
attempt s (append_to k contents) = do_append s k contents
attempt s (delete k) = do_delete s k
attempt s (link p name t) = do_link s p name t
attempt s (create_f p name) = do_create s file p name
attempt s (create_d p name) = do_create s dir p name

-- one pass: the operation, then the two tests that `exit(1)` when a bitmap is full
unfoldable pub pass : Fs → Attempt → Result (ℤ × Fs)
unfolding attempt
pass s a = do
  (rc, t) ← attempt s a
  if eq_ℤ (num_free t.ibitmap) (pos 0) || eq_ℤ (num_free t.dbitmap) (pos 0)
      then raise Fault.exit
      else ok (rc, t)

-- `run`: the attempts in the order drawn. A pass with code -1 is drawn again, any other is one of
-- the requests; the result counts the requests still due when the draws end.
unfoldable pub run : ℕ → List Attempt → Fs → Result (ℕ × Fs)
run zero rest s = ok (0, s)
run (suc n) [] s = ok (suc n, s)
run (suc n) (a ∷ rest) s = do
  (rc, t) ← pass s a
  run (if eq_ℤ rc minus_one then suc n else n) rest t
