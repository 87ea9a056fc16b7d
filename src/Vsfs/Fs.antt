-- ===== src/Vsfs/Fs.antt =====
-- HW-VSFS/vsfs.py, class fs: the operations on inodes, blocks and names. What `random` chooses is
-- an argument.
use cs334_operating_systems.Prelude.{
  ℕ, List, [], ◌∷◌, ◌++◌, replicate, key_error, Result, ok, ◌>>=◌, or_raise, modify,
}
use cs334_operating_systems.Prelude.Int.{ℤ, pos}
use cs334_operating_systems.Prelude.Text.{Text, split, lookup}
use cs334_operating_systems.Vsfs.Bitmap
use cs334_operating_systems.Vsfs.Bitmap.{Bitmap}
use cs334_operating_systems.Vsfs.Block
use cs334_operating_systems.Vsfs.Block.{dir, unused, Block, slash}
use cs334_operating_systems.Vsfs.Inode
use cs334_operating_systems.Vsfs.Inode.{Inode}

pub record Fs : Type 0 where
  pub num_inodes : ℕ
  pub num_data : ℕ
  pub ibitmap : Bitmap
  pub inodes : List Inode
  pub dbitmap : Bitmap
  pub blocks : List Block
  pub files : List Text
  pub dirs : List Text
  pub name_to_inum : List (Text × ℤ)

abbrev pub root : ℤ
root = pos 0

abbrev pub root_name : Text
root_name = slash ∷ []

abbrev pub dot : Text
dot = b'.' ∷ []

abbrev pub dot_dot : Text
dot_dot = b'.' ∷ b'.' ∷ []

-- `self.inodes[i].m()` and `self.data[i].m()`
abbrev pub with_inode : Fs → ℤ → (Inode → Inode) → Result Fs
with_inode s i f = do l ← modify s.inodes i (λ n. ok (f n)); ok (record s { inodes = l })

abbrev pub with_block : Fs → ℤ → (Block → Result Block) → Result Fs
with_block s i f = do l ← modify s.blocks i f; ok (record s { blocks = l })

unfoldable pub blank : ℕ → ℕ → Fs
unfolding Bitmap.init
blank num_inodes num_data = record {
  num_inodes = num_inodes;
  num_data = num_data;
  ibitmap = Bitmap.init num_inodes;
  inodes = replicate num_inodes Inode.init;
  dbitmap = Bitmap.init num_data;
  blocks = replicate num_data (Block.init unused);
  files = [];
  dirs = root_name ∷ [];
  name_to_inum = (root_name, root) ∷ [];
}

abbrev pub mark_inode : Fs → ℤ → Result Fs
mark_inode s n = do b ← Bitmap.mark_allocated s.ibitmap n; ok (record s { ibitmap = b })

abbrev pub mark_block : Fs → ℤ → Result Fs
mark_block s n = do b ← Bitmap.mark_allocated s.dbitmap n; ok (record s { dbitmap = b })

-- `__init__`
unfoldable pub init : ℕ → ℕ → Result Fs
unfolding blank
init num_inodes num_data = do
  s ← mark_inode (blank num_inodes num_data) root
  s ← with_inode s root (λ i. Inode.set_all i dir (pos 0) (pos 2))
  s ← mark_block s root
  s ← with_block s (pos 0) (λ b. Block.set_type b dir)
  s ← with_block s (pos 0) (λ b. Block.add_dir_entry b dot root)
  with_block s (pos 0) (λ b. Block.add_dir_entry b dot_dot root)

unfoldable pub inode_alloc : Fs → ℤ × Fs
inode_alloc s = let (n, b) = Bitmap.alloc s.ibitmap in (n, record s { ibitmap = b })

unfoldable pub inode_free : Fs → ℤ → Result Fs
inode_free s inum = do
  b ← Bitmap.free s.ibitmap inum
  with_inode (record s { ibitmap = b }) inum Inode.free

unfoldable pub data_alloc : Fs → ℤ × Fs
data_alloc s = let (n, b) = Bitmap.alloc s.dbitmap in (n, record s { dbitmap = b })

unfoldable pub data_free : Fs → ℤ → Result Fs
data_free s bnum = do
  b ← Bitmap.free s.dbitmap bnum
  with_block (record s { dbitmap = b }) bnum Block.free

-- `getParent`: the pieces but the first and the last, each behind a `/`
unfoldable pub join_middle : List Text → Text
join_middle [] = []
join_middle (w ∷ []) = []
join_middle (w ∷ v ∷ ws) = slash ∷ (w ++ join_middle (v ∷ ws))

abbrev pub parent_of_pieces : List Text → Text
parent_of_pieces (a ∷ b ∷ []) = root_name
parent_of_pieces [] = []
parent_of_pieces (a ∷ ws) = join_middle ws

unfoldable pub get_parent : Text → Text
unfolding split join_middle
get_parent name = parent_of_pieces (split slash name)

abbrev pub inum_of : Fs → Text → Result ℤ
inum_of s name = or_raise key_error (lookup name s.name_to_inum)
