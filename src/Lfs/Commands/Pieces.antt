-- ===== src/Lfs/Commands/Pieces.antt =====
-- Texts without a separator: what `split` makes of them, and the names of the existing files.
use cs334_operating_systems.Prelude.{
  ℕ, zero, suc, ◌≡◌, refl, inl, inr, true, false, List, [], ◌∷◌, ◌++◌, arith, ◌==◌, Bool-cases, ok,
  ok-injective, nth,
}
use cs334_operating_systems.Prelude.Text.{Text, split}
use cs334_operating_systems.Lfs.Commands.{Names, remove_at}

-- a text without a character
abbrev pub Avoids : ℕ → Text → Type 0
Avoids sep [] = Unit
Avoids sep (c ∷ s) = ((c == sep) ≡ false) × Avoids sep s

pub Avoids-append : (sep : ℕ) (s t : Text) → Avoids sep s → Avoids sep t → Avoids sep (s ++ t)
Avoids-append sep [] t h k = k
Avoids-append sep (c ∷ s) t (a, h) k = (a, Avoids-append sep s t h k)

pub split-Avoids : (sep : ℕ) (s : Text) → Avoids sep s → split sep s ≡ s ∷ []
unfolding split
split-Avoids sep [] h = refl
split-Avoids sep (c ∷ s) (a, h) = rw (a, split-Avoids sep s h) refl

pub split-append :
    (sep : ℕ) (s t : Text) → Avoids sep s → split sep (s ++ sep ∷ t) ≡ s ∷ split sep t
unfolding split
split-append sep [] t h = let e : (sep == sep) ≡ true = ground arith in rw e refl
split-append sep (c ∷ s) t (a, h) = rw (a, split-append sep s t h) refl

split-cons : (sep : ℕ) (s : Text) → (w : Text) × (ws : List Text) × (split sep s ≡ w ∷ ws)
unfolding split
split-cons sep [] = ([], [], refl)
split-cons sep (c ∷ s) = elim (Bool-cases (c == sep)) [
  | inl e ↦ ([], split sep s, rw e refl)
  | inr e ↦ let (w, ws, h) = split-cons sep s in (c ∷ w, ws, rw (e, h) refl)
]

-- a piece behind the last separator
pub split-last :
    (sep : ℕ) (s t : Text) → Avoids sep t → split sep (s ++ sep ∷ t) ≡ split sep s ++ t ∷ []
unfolding split
split-last sep [] t h =
    let e : (sep == sep) ≡ true = ground arith in rw (e, split-Avoids sep t h) refl
split-last sep (c ∷ s) t h = elim (Bool-cases (c == sep)) [
  | inl e ↦ rw (e, split-last sep s t h) refl
  | inr e ↦ let (w, ws, k) = split-cons sep s in rw (e, split-last sep s t h, k) refl
]

-- a name holds neither of the separators of a command list
abbrev pub Clean : Text → Type 0
Clean s = Avoids b',' s × Avoids b':' s

abbrev pub AllClean : List Text → Type 0
AllClean [] = Unit
AllClean (s ∷ l) = Clean s × AllClean l

pub nth-Clean : (l : List Text) (i : ℕ) (s : Text) → AllClean l → nth l i ≡ ok s → Clean s
nth-Clean [] i s h e = absurd (cc)
nth-Clean (x ∷ l) zero s (c, h) e = let j : x ≡ s = ok-injective e in rw (← j) c
nth-Clean (x ∷ l) (suc i) s (c, h) e = nth-Clean l i s h e

pub append-AllClean : (l : List Text) (s : Text) → AllClean l → Clean s → AllClean (l ++ s ∷ [])
append-AllClean [] s h c = (c, tt)
append-AllClean (x ∷ l) s (d, h) c = (d, append-AllClean l s h c)

pub remove_at-AllClean : (l : List Text) (i : ℕ) → AllClean l → AllClean (remove_at l i)
remove_at-AllClean [] i h = tt
remove_at-AllClean (x ∷ l) zero (c, h) = h
remove_at-AllClean (x ∷ l) (suc i) (c, h) = (c, remove_at-AllClean l i h)

abbrev pub CleanNames : Names → Type 0
CleanNames names = AllClean names.existing_files × AllClean names.existing_dirs
