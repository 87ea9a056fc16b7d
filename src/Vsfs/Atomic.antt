-- ===== src/Vsfs/Atomic.antt =====
-- HW-VSFS/vsfs.py, class fs: the operations that return -1.
use cs334_operating_systems.Prelude.{
  ℕ, ◌≡◌, refl, sym, ap, ◌∙◌, ◌⊎◌, inl, inr, some, arith, if◌then◌else◌, length, get_elem?, set, ok,
  >>=-eq-ok, ok-injective, Ensures, Ensures-ok, Ensures-if, Ensures-bind_eq, item_at, get-map,
  position_pos,
}
use cs334_operating_systems.Prelude.Int.{ℤ, pos, minus_one}
use cs334_operating_systems.Prelude.Text.{Text}
use cs334_operating_systems.Vsfs.Fs.{Fs, with_inode, with_block, inode_free, inum_of}
use cs334_operating_systems.Vsfs.Ops.{
  can_add, init_dir_block, install, create_dir_block, create_inode, create_file,
}
use cs334_operating_systems.Vsfs.Consistent.{inode_bit, IsConsistent}
use cs334_operating_systems.Vsfs.Consistent.Steps.{with_inode-ok}
use cs334_operating_systems.Vsfs.Consistent.Alloc.{
  inode_taken, block_taken, inode_alloc-cases, data_alloc-cases,
}
use mathlib.Core.Option.{some-injective}
use cs334_operating_systems.Vsfs.Bitmap
use cs334_operating_systems.Vsfs.Bitmap.Laws
use cs334_operating_systems.Vsfs.Bitmap.Laws.{marked}
use cs334_operating_systems.Vsfs.Block.{FType, dir, unused, ftype_eq}
use cs334_operating_systems.Vsfs.Inode
use cs334_operating_systems.Vsfs.Inode.{Inode}

-- `t` is `s`, but for the address of one unused inode, which may now be -1.
abbrev pub IsSameButAddress : Fs → Fs → Type 0
IsSameButAddress s t =
    (t ≡ s)
    ⊎ ((k : ℕ) × (a : Inode) × (get_elem? s.inodes k ≡ some a)
        × (a.ftype ≡ unused)
        × (t ≡ record s { inodes = set s.inodes k (record a { addr = minus_one }) }))

-- what comes with a code of -1
abbrev Undone : Fs → ℤ × Fs → Type 0
Undone s r = r.0 ≡ minus_one → IsSameButAddress s r.1

free_unused :
    (a : Inode)
    → inode_bit a ≡ 0
    → (a.ftype ≡ unused) × (Inode.free a ≡ record a { addr = minus_one })
unfolding Inode.free
free_unused a h = let e : a.ftype ≡ unused = ground arith in (e, rw e refl)

-- Giving back the inode that was just taken.
inode_free-inode_taken :
    (s : Fs) (k : ℕ) {t : Fs}
    → IsConsistent s
    → get_elem? s.ibitmap.bmap k ≡ some 0
    → inode_free (inode_taken s k) (pos k) ≡ ok t
    → IsSameButAddress s t
unfolding inode_free
inode_free-inode_taken s k c g h =
    let (b, freed, rest) = >>=-eq-ok (Bitmap.free (marked s.ibitmap k) (pos k)) _ h in
    let back : b ≡ s.ibitmap = ok-injective (sym freed ∙ Laws.free-marked s.ibitmap k g) in
    let (m, a, at, got, e) = with_inode-ok (record s { ibitmap = b }) (pos k) Inode.free rest in
    let same : m ≡ k = position_pos (length s.inodes) k m at in
    let here : get_elem? s.inodes k ≡ some a = rw same at got in
    let bit : inode_bit a ≡ 0 = some-injective (inode_bit a) 0 (
      sym (get-map inode_bit s.inodes k a here) ∙ sym (ap (λ l. get_elem? l k) c.inode_bits) ∙ g) in
    let (spare, wiped) = free_unused a bit in
    inr (k, a, here, spare, rw (e, back, same, wiped) refl)

-- The code of an install is the inode's number, never -1.
install-Undone :
    (s₀ s : Fs) (k : ℕ) (fblock parent_inum pblock : ℤ) (name : Text) (ft : FType)
    → Ensures (Undone s₀) (install s (pos k) fblock parent_inum pblock name ft)
unfolding install
install-Undone s₀ s k fblock parent_inum pblock name ft =
    Ensures-bind_eq (with_inode s (pos k) _) _ λ s₁ _.
      Ensures-bind_eq
        (if ftype_eq ft dir then with_inode s₁ parent_inum Inode.inc_ref_cnt else ok s₁) _
        λ s₂ _.
          Ensures-bind_eq (with_block s₂ pblock _) _ λ s₃ _. Ensures-ok (λ e. absurd (ground arith))

create_dir_block-Undone :
    (s : Fs) (k : ℕ) (parent_inum pblock : ℤ) (name : Text)
    → IsConsistent s
    → get_elem? s.ibitmap.bmap k ≡ some 0
    → Ensures (Undone s) (create_dir_block (inode_taken s k) (pos k) parent_inum pblock name)
unfolding create_dir_block
create_dir_block-Undone s k parent_inum pblock name c g =
    elim (data_alloc-cases (inode_taken s k)) [
      | inl (n, e, free) ↦ rw e (
          Ensures-bind_eq
            (init_dir_block (block_taken (inode_taken s k) n) (pos n) (pos k) parent_inum) _
            λ t _. install-Undone s t k (pos n) parent_inum pblock name dir)
      | inr e ↦ rw e (
          Ensures-bind_eq (inode_free (inode_taken s k) (pos k)) _
            λ t h. Ensures-ok (λ _. inode_free-inode_taken s k c g h))
    ]

create_inode-Undone :
    (s : Fs) (parent_inum pblock : ℤ) (name : Text) (ft : FType)
    → IsConsistent s
    → Ensures (Undone s) (create_inode s parent_inum pblock name ft)
unfolding create_inode
create_inode-Undone s parent_inum pblock name ft c = elim (inode_alloc-cases s) [
  | inl (k, e, g) ↦ rw e (
      Ensures-if (ftype_eq ft dir) _ _
        (λ _. create_dir_block-Undone s k parent_inum pblock name c g)
        (λ _. install-Undone s (inode_taken s k) k minus_one parent_inum pblock name ft))
  | inr e ↦ rw e (Ensures-ok (λ _. inl refl))
]

-- In a state whose bitmaps are consistent with its inodes and blocks, a creation that returns -1 (no
-- room in the parent, a name that is taken, no inode or, for a directory, no block left) leaves the
-- file system as it was, but for the address of one unused inode, which may now be -1: both bitmaps
-- with their counts, every block, every inode in use and all names are the same.
pub create_file-atomic :
    (s : Fs) (parent newfile : Text) (ft : FType) {t : Fs}
    → IsConsistent s
    → create_file s parent newfile ft ≡ ok (minus_one, t)
    → IsSameButAddress s t
unfolding create_file
create_file-atomic s parent newfile ft c h =
    let steps : Ensures (Undone s) (create_file s parent newfile ft) =
      Ensures-bind_eq (inum_of s parent) _ λ parent_inum _.
        Ensures-bind_eq (item_at s.inodes parent_inum) _ λ pinode _.
          Ensures-bind_eq (can_add s pinode.addr newfile) _ λ fine _.
            Ensures-if fine _ _ (λ _. create_inode-Undone s parent_inum pinode.addr newfile ft c)
              (λ _. Ensures-ok (λ _. inl refl)) in
    steps.at _ h refl
