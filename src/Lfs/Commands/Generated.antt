-- ===== src/Lfs/Commands/Generated.antt =====
-- HW-LFS/lfs.py: a list of make_command_list as the loop of main reads it.
use cs334_operating_systems.Prelude.{
  ℕ, ◌+◌, ◌≡◌, true, false, some, List, [], ◌∷◌, ◌++◌, length, ok, ◌>>=◌,
}
use cs334_operating_systems.Prelude.Text.{Text, text_eq, split}
use cs334_operating_systems.Lfs.State.{Lfs}
use cs334_operating_systems.Lfs.Ops.{Command}
use cs334_operating_systems.Lfs.Commands.{Percents, Draw, Names, parse_command}
use cs334_operating_systems.Lfs.Commands.Asked.{asked_list}

module _ (blocks : ℕ → ℕ → List Text) where
  -- each text is read as the command at its place
  abbrev AllRead : ℕ → List Text → List Command → Type 0
  AllRead i [] [] = Unit
  AllRead i (t ∷ ts) (c ∷ cs) =
      (parse_command (blocks i) (split b',' t) ≡ ok (some c)) × AllRead (i + 1) ts cs
  AllRead i _ _ = ⊥

  -- the list of the commands `cs`
  record Listed (text : Text) (cs : List Command) : Type 0 where
    none_yet : text_eq text [] ≡ true → cs ≡ []
    all_read : text_eq text [] ≡ false → AllRead 0 (split b':' text) cs

  -- from the commands `cs` on, the rest of the loop adds those that are asked for
  Adds : Percents → List Draw → ℕ → Names → List Command → ℕ × Text → Type 0
  Adds percents draws n names cs r =
      (more : List Command) × (asked_list percents blocks (length cs) draws n names
        ≡ ok (r.0, more))
      × (length more + r.0 ≡ n)
      × Listed r.1 (cs ++ more)
