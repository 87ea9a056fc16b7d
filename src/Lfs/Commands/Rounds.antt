-- ===== src/Lfs/Commands/Rounds.antt =====
-- HW-LFS/lfs.py: a round of make_command_list, and how main reads its command.
use cs334_operating_systems.Prelude.{
  ℕ, ◌+◌, ◌-◌, ◌*◌, ◌%◌, ◌<◌, ◌≡◌, refl, ap, ◌∙◌, inl, inr, Bool, true, false, ◌&&◌, Option, none,
  some, List, [], ◌∷◌, ◌++◌, arith, leb, ◌==◌, if◌then◌else◌, Bool-cases, length, ok, Ensures,
  Ensures-ok, Ensures-if, Ensures-bind, Ensures-bind_eq, nth,
}
use cs334_operating_systems.Prelude.Int.{pos}
use cs334_operating_systems.Prelude.Text.{Text, text_eq, split}
use cs334_operating_systems.Prelude.Parse.{is_space, int}
use cs334_operating_systems.Lfs.Ops.{Command, create, mkdir, remove, link, write, checkpoint_now}
use cs334_operating_systems.Lfs.Commands.{
  Kind, creates, writes, makes_dir, removes, links, syncs, Draw, Names, pick_random, digit,
  make_random_file_name, new_name, make_command, parse_command,
}
use cs334_operating_systems.Prelude.DivMod.{mod-lt_pos}
use cs334_operating_systems.Lfs.Commands.Pieces.{
  Avoids, Avoids-append, split-Avoids, split-append, Clean, AllClean, nth-Clean, append-AllClean,
  remove_at-AllClean, CleanNames,
}
use cs334_operating_systems.Lfs.Commands.Asked.{asked}

-- the characters that a name is made of
made_chars :
    (x n : ℕ)
    → (((b'a' + x == b',') ≡ false) × ((b'a' + x == b':') ≡ false))
      × (((b'0' + n % 10 == b',') ≡ false) × ((b'0' + n % 10 == b':') ≡ false))
made_chars x n =
    let below : n % 10 < 10 = mod-lt_pos n 10 (omega arith) in
    ((ground arith, ground arith), (ground arith, ground (arith, below)))

Clean-append : (s t : Text) → Clean s → Clean t → Clean (s ++ t)
Clean-append s t (a, b) (c, d) = (Avoids-append b',' s t a c, Avoids-append b':' s t b d)

if-Clean : (b : Bool) (s t : Text) → Clean s → Clean t → Clean (if b then s else t)
if-Clean true s t h k = h
if-Clean false s t h k = k

make_random_file_name-Clean :
    (dir : Text) (d : Draw) → Clean dir → Clean (make_random_file_name dir d)
unfolding make_random_file_name
make_random_file_name-Clean dir d h =
    let ((a, b), (e, f)) = made_chars (d.letter1 % 26) d.number in
    let ((a', b'), _) = made_chars (d.letter2 % 26) d.number in
    let own : Clean
        (b'/' ∷ (b'a' + d.letter1 % 26) ∷ (b'a' + d.letter2 % 26) ∷ digit d.number ∷ []) =
      ((refl, (a, (a', (e, tt)))), (refl, (b, (b', (f, tt))))) in
    if-Clean (text_eq dir (b'/' ∷ [])) _ _ own (Clean-append dir _ h own)

pick_random-Clean : (l : List Text) (n : ℕ) → AllClean l → Ensures Clean (pick_random l n)
unfolding pick_random
pick_random-Clean l n h =
    Ensures-if (length l == 0) _ _ (λ _. Ensures-ok (tt, tt))
      (λ _. record { at = λ s e. nth-Clean l (n % length l) s h e })

CleanName : Option Text → Type 0
CleanName none = Unit
CleanName (some s) = Clean s

new_name-Clean :
    (names : Names) (d : Draw) → CleanNames names → Ensures CleanName (new_name names d)
unfolding new_name CleanName
new_name-Clean names d (files, dirs) =
    Ensures-bind (pick_random names.existing_dirs d.dir_choice) _
      (pick_random-Clean names.existing_dirs d.dir_choice dirs)
      λ dir c. Ensures-ok (picked dir (text_eq dir []) c)
  where
    picked :
        (dir : Text) (b : Bool)
        → Clean dir
        → CleanName (if b then none else some (make_random_file_name dir d))
    picked dir true c = tt
    picked dir false c = make_random_file_name-Clean dir d c

-- the text of a command: it is one piece of a list, and main reads it as `c`
pub record Reads (blocks : ℕ → List Text) (t : Text) (c : Command) : Type 0 where
  pub one_piece : Avoids b':' t
  pub not_empty : text_eq t [] ≡ false
  pub parsed : parse_command blocks (split b',' t) ≡ ok (some c)

-- A round made what it was asked for.
abbrev pub Made : (ℕ → List Text) → Names → Draw → Kind → Option (Text × Names) → Type 0
Made blocks names d k none = asked blocks names d k ≡ ok none
Made blocks names d k (some (t, after)) =
    (c : Command) × Reads blocks t c
    × (asked blocks names d k ≡ ok (some (c, after)))
    × CleanNames after

-- the three commands with a path
path-Reads :
    (blocks : ℕ → List Text) (k : ℕ) (f : Text) {c : Command}
    → (k == b',') ≡ false
    → (k == b':') ≡ false
    → parse_command blocks ((k ∷ []) ∷ f ∷ []) ≡ ok (some c)
    → Clean f
    → Reads blocks (k ∷ b',' ∷ f) c
path-Reads blocks k f comma colon read (a, b) = record {
  one_piece = (colon, (refl, b));
  not_empty = unfold text_eq in refl;
  parsed =
      ap (parse_command blocks)
        (split-append b',' (k ∷ []) f (comma, tt) ∙ ap (◌∷◌ (k ∷ [])) (split-Avoids b',' f a))
      ∙ read;
}

int-digit : (m : ℕ) → m < 10 → int ((b'0' + m) ∷ []) ≡ ok (pos m)
unfolding int
int-digit m h =
    let not_space : is_space (b'0' + m) ≡ false = ground (arith, h) in
    let no_minus : (b'0' + m == b'-') ≡ false = ground (arith, h) in
    let no_plus : (b'0' + m == b'+') ≡ false = ground (arith, h) in
    let is_digit : (leb 48 (b'0' + m) && leb (b'0' + m) 57) ≡ true = ground (arith, h) in
    let value : 0 * 10 + (b'0' + m - 48) ≡ m = omega arith in
    rw (not_space, not_space, no_minus, no_plus, is_digit) (ap (λ x. ok (pos x)) value)

-- a command's separators out of the way
pieces_of :
    (k : ℕ) (f t : Text)
    → (k == b',') ≡ false
    → Clean f
    → split b',' (k ∷ b',' ∷ f ++ b',' ∷ t) ≡ (k ∷ []) ∷ f ∷ split b',' t
pieces_of k f t comma (a, b) =
    split-append b',' (k ∷ []) (f ++ b',' ∷ t) (comma, tt)
    ∙ ap (◌∷◌ (k ∷ [])) (split-append b',' f t a)

link-Reads :
    (blocks : ℕ → List Text) (f g : Text)
    → Clean f
    → Clean g
    → Reads blocks (b'l' ∷ b',' ∷ f ++ b',' ∷ g) (link f g)
unfolding parse_command text_eq
link-Reads blocks f g (a, b) (c, e) = record {
  one_piece = (refl, (refl, Avoids-append b':' f (b',' ∷ g) b (refl, e)));
  not_empty = refl;
  parsed =
      ap (parse_command blocks)
        (pieces_of b'l' f g refl (a, b) ∙ ap (λ l. (b'l' ∷ []) ∷ f ∷ l) (split-Avoids b',' g c))
      ∙ refl;
}

write-Reads :
    (blocks : ℕ → List Text) (f : Text) (m n : ℕ)
    → Clean f
    → Reads blocks
        (b'w' ∷ b',' ∷ f ++ b',' ∷ (b'0' + m % 8) ∷ b',' ∷ (b'0' + n % 8) ∷ [])
        (write f (pos (m % 8)) (blocks (n % 8)))
unfolding parse_command text_eq
write-Reads blocks f m n (a, b) =
    let hm : m % 8 < 8 = mod-lt_pos m 8 (omega arith) in
    let hn : n % 8 < 8 = mod-lt_pos n 8 (omega arith) in
    let mc : (b'0' + m % 8 == b',') ≡ false = ground arith in
    let nc : (b'0' + n % 8 == b',') ≡ false = ground arith in
    let mo : (b'0' + m % 8 == b':') ≡ false = ground (arith, hm) in
    let no : (b'0' + n % 8 == b':') ≡ false = ground (arith, hn) in
    record {
      one_piece = (refl, (refl, Avoids-append b':' f _ b (refl, (mo, (refl, (no, tt))))));
      not_empty = refl;
      parsed =
          ap (parse_command blocks) (
            pieces_of b'w' f _ refl (a, b)
            ∙ ap (λ l. (b'w' ∷ []) ∷ f ∷ l)
                (split-append b',' ((b'0' + m % 8) ∷ []) ((b'0' + n % 8) ∷ []) (mc, tt)
                  ∙ ap (◌∷◌ ((b'0' + m % 8) ∷ []))
                      (split-Avoids b',' ((b'0' + n % 8) ∷ []) (nc, tt))))
          ∙ rw (int-digit (m % 8) (omega (arith, hm)), int-digit (n % 8) (omega (arith, hn))) refl;
    }

-- Whatever its kind, a round makes the text of the command that is asked for.
module _ (blocks : ℕ → List Text) (names : Names) (d : Draw) (clean : CleanNames names) where
  name-Clean : (f : Text) → new_name names d ≡ ok (some f) → Clean f
  unfolding CleanName
  name-Clean f e = (new_name-Clean names d clean).at (some f) e

  file-Clean : (i : ℕ) (f : Text) → nth names.existing_files i ≡ ok f → Clean f
  file-Clean i f e = nth-Clean names.existing_files i f clean.0 e

  writes-Made : Ensures (Made blocks names d writes) (make_command names d writes)
  unfolding make_command asked
  writes-Made = Ensures-bind_eq (pick_random names.existing_files d.choice) _ λ f e.
      elim (Bool-cases (text_eq f [])) [
        | inl none_there ↦ rw none_there (Ensures-ok (rw (e, none_there) refl))
        | inr there ↦ rw there (
            Ensures-ok (
              write f (pos (d.offset % 8)) (blocks (d.size % 8)),
              write-Reads blocks f d.offset d.size
                  ((pick_random-Clean names.existing_files d.choice clean.0).at f e),
              rw (e, there) refl,
              clean,
            ))
      ]

  removes-Made : Ensures (Made blocks names d removes) (make_command names d removes)
  unfolding make_command asked parse_command text_eq
  removes-Made = elim (Bool-cases (length names.existing_files == 0)) [
    | inl no_file ↦ rw no_file (Ensures-ok (rw no_file refl))
    | inr some_file ↦ rw some_file (
        Ensures-bind_eq (nth names.existing_files (d.choice % length names.existing_files)) _ λ f e.
          Ensures-ok (
            remove f,
            path-Reads blocks b'r' f refl refl refl (file-Clean _ f e),
            rw (some_file, e) refl,
            (remove_at-AllClean names.existing_files _ clean.0, clean.1),
          ))
  ]

  links-Made : Ensures (Made blocks names d links) (make_command names d links)
  unfolding make_command asked
  links-Made = Ensures-bind_eq (new_name names d) _ (elim [
    | none ↦ λ e. Ensures-ok (rw e refl)
    | some g ↦ λ e.
        Ensures-bind_eq (nth names.existing_files (d.choice % length names.existing_files)) _
          λ f at. Ensures-ok (
            link f g,
            link-Reads blocks f g (file-Clean _ f at) (name-Clean g e),
            rw (e, at) refl,
            (append-AllClean names.existing_files g clean.0 (name-Clean g e), clean.1),
          )
  ])

  pub make_command-Made : (k : Kind) → Ensures (Made blocks names d k) (make_command names d k)
  unfolding make_command asked parse_command text_eq
  make_command-Made writes = writes-Made
  make_command-Made removes = removes-Made
  make_command-Made links = links-Made
  make_command-Made syncs = Ensures-ok (
    checkpoint_now,
    record { one_piece = (refl, tt); not_empty = refl; parsed = unfold split in refl },
    refl,
    clean,
  )
  make_command-Made creates = Ensures-bind_eq (new_name names d) _ (elim [
    | none ↦ λ e. Ensures-ok (rw e refl)
    | some f ↦ λ e. Ensures-ok (
      create f,
      path-Reads blocks b'c' f refl refl refl (name-Clean f e),
      rw e refl,
      (append-AllClean names.existing_files f clean.0 (name-Clean f e), clean.1),
    )
  ])
  make_command-Made makes_dir = Ensures-bind_eq (new_name names d) _ (elim [
    | none ↦ λ e. Ensures-ok (rw e refl)
    | some f ↦ λ e. Ensures-ok (
      mkdir f,
      path-Reads blocks b'd' f refl refl refl (name-Clean f e),
      rw e refl,
      (clean.0, append-AllClean names.existing_dirs f clean.1 (name-Clean f e)),
    )
  ])
