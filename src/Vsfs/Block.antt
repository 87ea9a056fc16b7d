-- ===== src/Vsfs/Block.antt =====
-- HW-VSFS/vsfs.py, class block: a free, directory or file block.
pub mod Laws
use mathlib.Core.Option
use cs334_operating_systems.Prelude.{
  ℕ, Bool, true, false, not, ◌||◌, Option, none, some, List, [], ◌∷◌, ◌++◌, if◌then◌else◌,
  assertion, Result, ok, ◌>>=◌, check, ◌>>◌, or_raise, item_at,
}
use cs334_operating_systems.Prelude.Int.{ℤ, pos, ◌+ℤ◌, ◌-ℤ◌, ltb_ℤ, eq_ℤ, leb_ℤ}
use cs334_operating_systems.Prelude.Text.{Text, text_eq, split, last_or}

-- 'd', 'f' and 'free', the values that the assertions on `ftype` allow
pub data FType : Type 0 where
  dir file unused : FType

unfoldable pub ftype_eq : FType → FType → Bool
ftype_eq dir dir = true
ftype_eq file file = true
ftype_eq unused unused = true
ftype_eq _ _ = false

pub record Block : Type 0 where
  pub ftype : FType
  pub dir_used : ℤ
  pub max_used : ℤ
  pub dir_list : List (Text × ℤ)
  pub contents : Text

abbrev pub init : FType → Block
init ftype = record {
  ftype = ftype;
  dir_used = pos 0;
  max_used = pos 32;
  dir_list = [];
  contents = [];
}

unfoldable pub set_type : Block → FType → Result Block
unfolding ftype_eq
set_type b ftype = do check (ftype_eq b.ftype unused); ok (record b { ftype = ftype })

unfoldable pub add_data : Block → Text → Result Block
unfolding ftype_eq
add_data b contents = do check (ftype_eq b.ftype file); ok (record b { contents = contents })

unfoldable pub get_num_entries : Block → Result ℤ
unfolding ftype_eq
get_num_entries b = do check (ftype_eq b.ftype dir); ok b.dir_used

unfoldable pub get_free_entries : Block → Result ℤ
unfolding ftype_eq
get_free_entries b = do check (ftype_eq b.ftype dir); ok (b.max_used -ℤ b.dir_used)

unfoldable pub get_entry : Block → ℤ → Result (Text × ℤ)
unfolding ftype_eq
get_entry b num = do
  check (ftype_eq b.ftype dir)
  check (ltb_ℤ num b.dir_used)
  item_at b.dir_list num

-- the second assertion stands behind the update
unfoldable pub add_dir_entry : Block → Text → ℤ → Result Block
unfolding ftype_eq
add_dir_entry b name inum = do
  check (ftype_eq b.ftype dir)
  let b' = record b { dir_list = b.dir_list ++ (name, inum) ∷ []; dir_used = b.dir_used +ℤ pos 1 }
  check (leb_ℤ b'.dir_used b'.max_used)
  ok b'

-- `/` in the paths
abbrev pub slash : ℕ
slash = b'/'

-- the last piece of `name.split('/')`
unfoldable pub base_name : Text → Text
unfolding split last_or
base_name name = last_or [] (split slash name)

-- the loop of `delDirEntry`: drops the first entry of that name
unfoldable pub pop_entry : Text → List (Text × ℤ) → Option (List (Text × ℤ))
pop_entry dname [] = none
pop_entry dname ((name, inum) ∷ l) =
    let rest = pop_entry dname l in
    if text_eq name dname then some l else Option.map (λ r. (name, inum) ∷ r) rest

-- `assert(1 == 0)` ends the loop that finds no entry
unfoldable pub del_dir_entry : Block → Text → Result Block
unfolding ftype_eq base_name pop_entry
del_dir_entry b name = do
  check (ftype_eq b.ftype dir)
  l ← or_raise assertion (pop_entry (base_name name) b.dir_list)
  ok (record b { dir_list = l; dir_used = b.dir_used -ℤ pos 1 })

unfoldable pub entry_exists : Text → List (Text × ℤ) → Bool
entry_exists name [] = false
entry_exists name ((n, inum) ∷ l) = text_eq name n || entry_exists name l

unfoldable pub dir_entry_exists : Block → Text → Result Bool
unfolding ftype_eq entry_exists
dir_entry_exists b name = do check (ftype_eq b.ftype dir); ok (entry_exists name b.dir_list)

-- `dirList` is not emptied
unfoldable pub free : Block → Result Block
unfolding ftype_eq
free b = do
  check (not (ftype_eq b.ftype unused))
  check (if ftype_eq b.ftype dir then eq_ℤ b.dir_used (pos 2) else true)
  ok (record b {
    dir_used = if ftype_eq b.ftype dir then pos 0 else b.dir_used;
    contents = [];
    ftype = unused;
  })
