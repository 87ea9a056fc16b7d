-- ===== src/Vsfs/Ops.antt =====
-- HW-VSFS/vsfs.py, class fs: deleteFile, createLink, createFile and writeFile. An operation returns
-- its code, -1 for a failure, beside the new state.
use mathlib.Core.Option
use cs334_operating_systems.Prelude.{
  Bool, false, not, Option, none, some, List, [], ◌∷◌, ◌==◌, if◌then◌else◌, value_error, Result, ok,
  ◌>>=◌, or_raise, item_at,
}
use cs334_operating_systems.Prelude.Int.{ℤ, pos, eq_ℤ, leb_ℤ, minus_one}
use cs334_operating_systems.Prelude.Text.{Text, text_eq}
use cs334_operating_systems.Vsfs.Fs.{
  Fs, dot, dot_dot, with_inode, with_block, inode_alloc, inode_free, data_alloc, data_free,
  get_parent, inum_of,
}
use cs334_operating_systems.Vsfs.Block
use cs334_operating_systems.Vsfs.Block.{FType, dir, file, ftype_eq, Block, base_name}
use cs334_operating_systems.Vsfs.Inode

-- `l.remove(x)`
unfoldable pub remove_text : Text → List Text → Option (List Text)
remove_text x [] = none
remove_text x (y ∷ l) =
    let rest = remove_text x l in if text_eq y x then some l else Option.map (λ r. y ∷ r) rest

-- `deleteFile`, the part on the inode: the last link frees the block and the inode
unfoldable pub drop_link : Fs → ℤ → Result Fs
drop_link s inum = do
  inode ← item_at s.inodes inum
  if eq_ℤ inode.ref_cnt (pos 1)
      then (do
        s ← if eq_ℤ inode.addr minus_one then ok s else data_free s inode.addr
        inode_free s inum)
      else with_inode s inum Inode.dec_ref_cnt

unfoldable pub delete_file : Fs → Text → Result (ℤ × Fs)
delete_file s tfile = do
  inum ← inum_of s tfile
  inode ← item_at s.inodes inum
  s ← drop_link s inum
  pinum ← inum_of s (get_parent tfile)
  pinode ← item_at s.inodes pinum
  s ← if ftype_eq inode.ftype dir then with_inode s pinum Inode.dec_ref_cnt else ok s
  s ← with_block s pinode.addr (λ b. Block.del_dir_entry b tfile)
  files ← or_raise value_error (remove_text tfile s.files)
  ok (pos 0, record s { files = files })

-- the two tests that `createLink` and `createFile` share: room in the parent, and a new name
unfoldable pub can_add : Fs → ℤ → Text → Result Bool
can_add s pblock newfile = do
  b ← item_at s.blocks pblock
  room ← Block.get_free_entries b
  if leb_ℤ room (pos 0)
      then ok false
      else (do taken ← Block.dir_entry_exists b newfile; ok (not taken))

unfoldable pub add_link : Fs → ℤ → Text → Text → Result (ℤ × Fs)
add_link s pblock target newfile = do
  tinum ← inum_of s target
  s ← with_inode s tinum Inode.inc_ref_cnt
  s ← with_block s pblock (λ b. Block.add_dir_entry b (base_name newfile) tinum)
  ok (tinum, s)

unfoldable pub create_link : Fs → Text → Text → Text → Result (ℤ × Fs)
create_link s target newfile parent = do
  parent_inum ← inum_of s parent
  pinode ← item_at s.inodes parent_inum
  fine ← can_add s pinode.addr newfile
  if fine then add_link s pinode.addr target newfile else ok (minus_one, s)

-- the block of a new directory, with its two entries
unfoldable pub init_dir_block : Fs → ℤ → ℤ → ℤ → Result Fs
init_dir_block s fblock inum parent_inum = do
  s ← with_block s fblock (λ b. Block.set_type b dir)
  s ← with_block s fblock (λ b. Block.add_dir_entry b dot inum)
  with_block s fblock (λ b. Block.add_dir_entry b dot_dot parent_inum)

-- the rest of `createFile` once the inode and, for a directory, its block are there
unfoldable pub install : Fs → ℤ → ℤ → ℤ → ℤ → Text → FType → Result (ℤ × Fs)
install s inum fblock parent_inum pblock newfile ftype = do
  s ←
      with_inode s inum
        (λ i. Inode.set_all i ftype fblock (if ftype_eq ftype dir then pos 2 else pos 1))
  s ← if ftype_eq ftype dir then with_inode s parent_inum Inode.inc_ref_cnt else ok s
  s ← with_block s pblock (λ b. Block.add_dir_entry b newfile inum)
  ok (inum, s)

-- the branch for a directory: with no block left the inode is given back
unfoldable pub create_dir_block : Fs → ℤ → ℤ → ℤ → Text → Result (ℤ × Fs)
create_dir_block s inum parent_inum pblock newfile =
    let (fblock, t) = data_alloc s in
    if eq_ℤ fblock minus_one then (do t ← inode_free t inum; ok (minus_one, t)) else (do
      t ← init_dir_block t fblock inum parent_inum
      install t inum fblock parent_inum pblock newfile dir)

unfoldable pub create_inode : Fs → ℤ → ℤ → Text → FType → Result (ℤ × Fs)
create_inode s parent_inum pblock newfile ftype =
    let (inum, t) = inode_alloc s in
    if eq_ℤ inum minus_one
    then ok (minus_one, t)
    else if ftype_eq ftype dir
    then create_dir_block t inum parent_inum pblock newfile
    else install t inum minus_one parent_inum pblock newfile ftype

unfoldable pub create_file : Fs → Text → Text → FType → Result (ℤ × Fs)
create_file s parent newfile ftype = do
  parent_inum ← inum_of s parent
  pinode ← item_at s.inodes parent_inum
  fine ← can_add s pinode.addr newfile
  if fine then create_inode s parent_inum pinode.addr newfile ftype else ok (minus_one, s)

unfoldable pub fill_block : Fs → ℤ → ℤ → Text → Result (ℤ × Fs)
fill_block s inum fblock contents = do
  s ← with_block s fblock (λ b. Block.set_type b file)
  s ← with_block s fblock (λ b. Block.add_data b contents)
  s ← with_inode s inum (λ i. Inode.set_addr i fblock)
  ok (pos 0, s)

unfoldable pub write_file : Fs → Text → Text → Result (ℤ × Fs)
write_file s tfile contents = do
  inum ← inum_of s tfile
  inode ← item_at s.inodes inum
  if Inode.get_size inode == 1
      then ok (minus_one, s)
      else (let (fblock, t) = data_alloc s in
          if eq_ℤ fblock minus_one then ok (minus_one, t) else fill_block t inum fblock contents)
