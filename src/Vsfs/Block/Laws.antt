-- ===== src/Vsfs/Block/Laws.antt =====
-- What the directory methods of `block` promise, and what `free` leaves behind.
use cs334_operating_systems.Prelude.{
  ◌+◌, ◌≤◌, ◌≡◌, refl, inl, inr, true, false, ◌||◌, some, List, [], ◌∷◌, ◌++◌, arith, Bool-cases,
  Option-cases, length, ok,
}
use cs334_operating_systems.Prelude.Int.{ℤ, pos, ◌+ℤ◌, ◌≤ℤ◌, add-sub-one}
use cs334_operating_systems.Prelude.Text.{Text, text_eq, text_eq_refl, eq_of_text_eq}
use cs334_operating_systems.Vsfs.Block.{
  dir, Block, set_type, add_dir_entry, base_name, pop_entry, del_dir_entry, entry_exists,
  dir_entry_exists, free,
}

-- A directory block counts its entries, and has room for `maxUsed` of them.
pub record IsDir (b : Block) : Type 0 where
  pub is_dir : b.ftype ≡ dir
  pub counted : b.dir_used ≡ pos (length b.dir_list)
  pub room : b.max_used ≡ pos 32
  pub fits : length b.dir_list ≤ 32

abbrev pub added : Block → Text → ℤ → Block
added b name inum = record b {
  dir_list = b.dir_list ++ (name, inum) ∷ [];
  dir_used = b.dir_used +ℤ pos 1;
}

pub add_dir_entry-ok :
    (b : Block) (name : Text) (inum : ℤ) {c : Block}
    → add_dir_entry b name inum ≡ ok c
    → (b.ftype ≡ dir) × (c ≡ added b name inum) × (b.dir_used +ℤ pos 1 ≤ℤ b.max_used)
unfolding add_dir_entry
add_dir_entry-ok b name inum h = ground arith

pub entry_exists-append :
    (name : Text) (l m : List (Text × ℤ))
    → entry_exists name (l ++ m) ≡ (entry_exists name l || entry_exists name m)
unfolding entry_exists
entry_exists-append name [] m = refl
entry_exists-append name ((n, i) ∷ l) m = ground (arith, entry_exists-append name l m)

pub text_eq_comm : (s t : Text) → text_eq s t ≡ text_eq t s
text_eq_comm s t =
    ground (arith, eq_of_text_eq s t, eq_of_text_eq t s, text_eq_refl s, text_eq_refl t)

-- Dropping the entry that was appended, when no earlier one has its name.
pub pop_entry-append :
    (name : Text) (i : ℤ) (l : List (Text × ℤ))
    → entry_exists name l ≡ false
    → pop_entry name (l ++ (name, i) ∷ []) ≡ some l
unfolding pop_entry entry_exists
pop_entry-append name i [] h = ground (arith, text_eq_refl name)
pop_entry-append name i ((n, j) ∷ l) h =
    ground (arith, pop_entry-append name i l, text_eq_comm n name)

pub pop_entry-exists :
    (name : Text) (l : List (Text × ℤ)) {m : List (Text × ℤ)}
    → pop_entry name l ≡ some m
    → (entry_exists name l ≡ true) × (length m + 1 ≡ length l)
unfolding pop_entry entry_exists
pop_entry-exists name [] h = cc
pop_entry-exists name ((n, j) ∷ l) {m} h = elim (Option-cases (pop_entry name l)) [
  | inl e ↦ ground (arith, text_eq_comm n name)
  | inr (r, e) ↦ ground (arith, pop_entry-exists name l e, text_eq_comm n name)
]

pub pop_entry_total :
    (name : Text) (l : List (Text × ℤ))
    → entry_exists name l ≡ true
    → (m : List (Text × ℤ)) × (pop_entry name l ≡ some m)
unfolding pop_entry entry_exists
pop_entry_total name [] h = absurd (ground arith)
pop_entry_total name ((n, j) ∷ l) h = elim (Bool-cases (text_eq n name)) [
  | inl e ↦ (l, rw e)
  | inr e ↦
      let (m, p) = pop_entry_total name l (ground (arith, text_eq_comm n name)) in
      ((n, j) ∷ m, rw (e, p))
]

-- `delDirEntry` takes back what `addDirEntry` did, if the name was new and is its own last piece.
pub del_dir_entry-add_dir_entry :
    (b : Block) (name : Text) (inum : ℤ) {c : Block}
    → add_dir_entry b name inum ≡ ok c
    → dir_entry_exists b name ≡ ok false
    → base_name name ≡ name
    → (dir_entry_exists c name ≡ ok true) × (del_dir_entry c name ≡ ok b)
unfolding dir_entry_exists del_dir_entry
del_dir_entry-add_dir_entry b name inum h new own = ground (
  arith,
  add_dir_entry-ok b name inum h,
  pop_entry-append name inum b.dir_list,
  entry_exists-append name b.dir_list ((name, inum) ∷ []),
  text_eq_refl name,
  add-sub-one b.dir_used,
)

-- A freed directory block that becomes a directory again still holds the old entries: `dirUsed` is
-- 0, yet `dirEntryExists` answers as it did before the block was freed.
pub set_type-free_stale :
    (b : Block) (name : Text) {c d : Block}
    → b.ftype ≡ dir
    → free b ≡ ok c
    → set_type c dir ≡ ok d
    → (d.dir_used ≡ pos 0)
      × (d.dir_list ≡ b.dir_list)
      × (dir_entry_exists d name ≡ dir_entry_exists b name)
unfolding free set_type dir_entry_exists
set_type-free_stale b name e h k = ground arith
