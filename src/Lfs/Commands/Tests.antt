-- ===== src/Lfs/Commands/Tests.antt =====
-- HW-LFS/lfs.py, the random commands: runs at concrete inputs.
use cs334_operating_systems.Prelude.{ℕ, ◌+◌, ◌≡◌, refl, List, [], ◌∷◌, map, Fault, ok, raise, ok_or}
use cs334_operating_systems.Prelude.Int.{pos, ◌+ℤ◌}
use cs334_operating_systems.Prelude.Text.{Text, codes, text_eq, insert}
use cs334_operating_systems.Lfs.State.{Lfs}
use cs334_operating_systems.Lfs.Ops.{create, mkdir, remove, link, write}
use cs334_operating_systems.Lfs.Commands.{
  cmd_list, Percents, no_percents, process_percentages, Draw, make_command_list, no_names, repeated,
  make_random_blocks, parse_command,
}
use cs334_operating_systems.Lfs.Commands.Asked.{asked_list}

program : Unit {0}
unfolding process_percentages make_command_list parse_command text_eq ◌+ℤ◌
program = tt

-- the default percentages
abbrev percents : Percents
percents = ok_or (process_percentages (codes "c30,w30,d10,r20,l10,s0")) []

percents_made : process_percentages (codes "c30,w30,d10,r20,l10,s0") ≡ ok percents
unfolding program
percents_made = refl

-- a sum that is not 100, and an unknown command
bad_sum : process_percentages (codes "c30,w30") ≡ raise Fault.exit
unfolding program
bad_sum = refl

unknown_command : process_percentages (codes "c30,x70") ≡ raise Fault.exit
unfolding program
unknown_command = refl

abbrev draw : ℕ → Draw
draw chance = record {
  chance = chance;
  choice = 0;
  dir_choice = 0;
  letter1 = 1;
  letter2 = 27;
  number = 4;
  offset = 3;
  size = 10;
}

-- a write that waits for a file, a file, a write, a directory, a link, and a removal
abbrev draws : List Draw
draws = map draw (40 ∷ 0 ∷ 40 ∷ 60 ∷ 95 ∷ 70 ∷ [])

abbrev commands : Text
commands = codes "c,/bb4:w,/bb4,3,2:d,/bb4:l,/bb4,/bb4:r,/bb4"

abbrev blocks : ℕ → ℕ → List Text
blocks i n = make_random_blocks (λ j. i + j) 0 n

asked_commands :
    asked_list percents blocks 0 draws 6 no_names
    ≡ ok (
      1,
      create (codes "/bb4")
          ∷ write (codes "/bb4") (pos 3) (blocks 1 2)
          ∷ mkdir (codes "/bb4")
          ∷ link (codes "/bb4") (codes "/bb4")
          ∷ remove (codes "/bb4")
          ∷ [],
    )
unfolding program asked_list
asked_commands = refl

-- a link that is drawn before there is a file
early_link : make_command_list percents (draw 95 ∷ []) 1 no_names [] ≡ raise Fault.index_error
unfolding program
early_link = refl

-- writes alone never make a command
abbrev writes_only : Percents
writes_only = ok_or (process_percentages (codes "w100")) []

no_write : make_command_list writes_only (map draw (0 ∷ 40 ∷ 99 ∷ [])) 1 no_names [] ≡ ok (1, [])
unfolding program
no_write = refl

-- a negative percentage is accepted
negative_percentage :
    process_percentages (codes "c130,w-30")
    ≡ ok (
        insert
          (codes "w")
          (record { low = pos 130; high = pos 100 })
          (insert (codes "c") (record { low = pos 0; high = pos 130 }) (no_percents cmd_list)))
unfolding program
negative_percentage = refl

twelfth_block : make_random_blocks (λ i. i) 12 1 ≡ repeated 16 (codes "m12") ∷ []
unfolding make_random_blocks
twelfth_block = refl
