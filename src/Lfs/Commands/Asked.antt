-- ===== src/Lfs/Commands/Asked.antt =====
-- HW-LFS/lfs.py, make_command_list: the commands that the draws ask for, without the text that
-- writes them down.
use mathlib.Core.Option
use cs334_operating_systems.Prelude.{
  ℕ, zero, suc, ◌+◌, ◌%◌, Option, none, some, List, [], ◌∷◌, ◌++◌, ◌==◌, if◌then◌else◌, length,
  Result, ok, ◌>>=◌, nth,
}
use cs334_operating_systems.Prelude.Int.{pos}
use cs334_operating_systems.Prelude.Text.{Text, text_eq}
use cs334_operating_systems.Lfs.Ops.{Command, create, mkdir, remove, link, write, checkpoint_now}
use cs334_operating_systems.Lfs.Commands.{
  Kind, creates, writes, makes_dir, removes, links, syncs, cmd_list, Percents, Draw, Names,
  pick_random, new_name, chosen, add_file, remove_at,
}

-- A round: the command on the names that are drawn, with the names behind it. `c` creates a file and
-- `d` a directory below a drawn directory, `w` writes below 8 blocks from a place below 8 of a drawn
-- file, `r` removes one, and `l` links to a drawn file, its source, from a new name.
unfoldable pub asked : (ℕ → List Text) → Names → Draw → Kind → Result (Option (Command × Names))
asked blocks names d creates = do
  name ← new_name names d
  ok (Option.map (λ f. (create f, add_file names f)) name)
asked blocks names d writes = do
  f ← pick_random names.existing_files d.choice
  ok (
      if text_eq f []
      then none
      else some (write f (pos (d.offset % 8)) (blocks (d.size % 8)), names))
asked blocks names d makes_dir = do
  name ← new_name names d
  ok (
      Option.map (λ f. (mkdir f, record names { existing_dirs = names.existing_dirs ++ f ∷ [] }))
        name)
asked blocks names d removes =
    let index = d.choice % length names.existing_files in
    if length names.existing_files == 0 then ok none else (do
      f ← nth names.existing_files index
      ok (some (remove f, record names { existing_files = remove_at names.existing_files index })))
asked blocks names d links = do
  name ← new_name names d
  elim name [
    | none ↦ ok none
    | some nfile ↦ (do
      f ← nth names.existing_files (d.choice % length names.existing_files)
      ok (some (link f nfile, add_file names nfile)))
  ]
asked blocks names d syncs = ok (some (checkpoint_now, names))

-- the commands of all rounds, the first of them at place `i`, beside the number still due
unfoldable pub asked_list :
    Percents → (ℕ → ℕ → List Text) → ℕ → List Draw → ℕ → Names → Result (ℕ × List Command)
unfolding asked
asked_list percents blocks i draws zero names = ok (0, [])
asked_list percents blocks i [] (suc n) names = ok (suc n, [])
asked_list percents blocks i (d ∷ draws) (suc n) names = do
  kind ← chosen percents d.chance cmd_list
  a ← asked (blocks i) names d kind
  elim a [
    | none ↦ asked_list percents blocks i draws (suc n) names
    | some (c, after) ↦ (do
      (due, cs) ← asked_list percents blocks (i + 1) draws n after
      ok (due, c ∷ cs))
  ]
