-- ===== src/Vsfs/Consistent/Ops.antt =====
-- HW-VSFS/vsfs.py, class fs: the bitmaps under the operations, on success and on -1.
use cs334_operating_systems.Prelude.{
  ℕ, ◌≡◌, refl, inl, inr, Option, none, some, arith, ◌==◌, if◌then◌else◌, length, get_elem?,
  value_error, ok, or_raise, Ensures, Ensures-ok, Ensures-if, Ensures-bind, Ensures-bind_eq,
  item_at, position_get,
}
use cs334_operating_systems.Prelude.Int.{ℤ, pos, eq_ℤ, minus_one}
use cs334_operating_systems.Vsfs.Fs.{
  Fs, dot, dot_dot, with_inode, with_block, inode_free, data_free, get_parent, inum_of,
}
use cs334_operating_systems.Vsfs.Ops.{
  remove_text, drop_link, delete_file, can_add, add_link, create_link, init_dir_block, install,
  create_dir_block, create_inode, create_file, fill_block, write_file,
}
use cs334_operating_systems.Vsfs.Consistent.{type_bit, block_bit, IsConsistentBut, IsConsistent}
use cs334_operating_systems.Vsfs.Consistent.Steps.{with_inode-keeps, with_block-keeps}
use cs334_operating_systems.Vsfs.Consistent.Alloc.{
  inode_taken, block_taken, inode_alloc-cases, data_alloc-cases, inode_taken-keeps,
  block_taken-keeps, with_inode-uses, with_block-uses, Freeable, length-inodes, inode_free-keeps,
  data_free-keeps,
}
use cs334_operating_systems.Prelude.Text.{Text}
use cs334_operating_systems.Vsfs.Block
use cs334_operating_systems.Vsfs.Block.{Block, FType, dir, file, unused, ftype_eq}
use cs334_operating_systems.Vsfs.Inode
use cs334_operating_systems.Vsfs.Inode.{Inode}

-- the methods of a block that keep its type
block_bit-add_dir_entry :
    (name : Text) (inum : ℤ) (a b : Block)
    → Block.add_dir_entry a name inum ≡ ok b
    → block_bit b ≡ block_bit a
unfolding Block.add_dir_entry
block_bit-add_dir_entry name inum a b h = ground arith

block_bit-del_dir_entry :
    (name : Text) (a b : Block) → Block.del_dir_entry a name ≡ ok b → block_bit b ≡ block_bit a
unfolding Block.del_dir_entry
block_bit-del_dir_entry name a b h = ground arith

block_bit-add_data :
    (contents : Text) (a b : Block) → Block.add_data a contents ≡ ok b → block_bit b ≡ block_bit a
unfolding Block.add_data
block_bit-add_data contents a b h = ground arith

block_bit-set_type :
    (t : FType) → type_bit t ≡ 1 → (a b : Block) → Block.set_type a t ≡ ok b → block_bit b ≡ 1
unfolding Block.set_type
block_bit-set_type t e a b h = ground arith

module _ {p q : Option ℕ} (s : Fs) (i : ℤ) (c : IsConsistentBut p q s) where
  inc-keeps : Ensures (IsConsistentBut p q) (with_inode s i Inode.inc_ref_cnt)
  unfolding Inode.inc_ref_cnt
  inc-keeps = record { at = λ t h. with_inode-keeps s i Inode.inc_ref_cnt (λ a. refl) h c }

  dec-keeps : Ensures (IsConsistentBut p q) (with_inode s i Inode.dec_ref_cnt)
  unfolding Inode.dec_ref_cnt
  dec-keeps = record { at = λ t h. with_inode-keeps s i Inode.dec_ref_cnt (λ a. refl) h c }

  add-keeps :
      (name : Text) (inum : ℤ)
      → Ensures (IsConsistentBut p q) (with_block s i (λ b. Block.add_dir_entry b name inum))
  add-keeps name inum = record {
    at = λ t h. with_block-keeps s i _ (block_bit-add_dir_entry name inum) h c;
  }

-- the state beside a code
abbrev pub Leaves : (Fs → Type 0) → ℤ × Fs → Type 0
Leaves P r = P r.1

install-keeps :
    (s : Fs) (k : ℕ) (fblock parent_inum pblock : ℤ) (name : Text) (ft : FType)
    → type_bit ft ≡ 1
    → IsConsistentBut (some k) none s
    → Ensures (Leaves IsConsistent) (install s (pos k) fblock parent_inum pblock name ft)
unfolding install Inode.set_all
install-keeps s k fblock parent_inum pblock name ft used c =
    Ensures-bind (with_inode s (pos k) _) _
      (record { at = λ t h. with_inode-uses s k _ (λ a. used) h c })
      λ s₁ c₁.
        Ensures-bind _ _
          (Ensures-if (ftype_eq ft dir) _ _ (λ _. inc-keeps s₁ parent_inum c₁) (λ _. Ensures-ok c₁))
          λ s₂ c₂.
            Ensures-bind (with_block s₂ pblock _) _ (add-keeps s₂ pblock c₂ name (pos k))
              λ s₃ c₃. Ensures-ok c₃

pub init_dir_block-keeps :
    {p : Option ℕ} (s : Fs) (k : ℕ) (inum parent_inum : ℤ)
    → IsConsistentBut p (some k) s
    → Ensures (IsConsistentBut p none) (init_dir_block s (pos k) inum parent_inum)
unfolding init_dir_block
init_dir_block-keeps s k inum parent_inum c =
    Ensures-bind (with_block s (pos k) _) _
      (record { at = λ t h. with_block-uses s k _ (block_bit-set_type dir refl) h c })
      λ s₁ c₁.
        Ensures-bind (with_block s₁ (pos k) _) _ (add-keeps s₁ (pos k) c₁ dot inum)
          λ s₂ c₂. add-keeps s₂ (pos k) c₂ dot_dot parent_inum

inode_free-Ensures :
    {p q : Option ℕ} (s : Fs) (i : ℤ)
    → Freeable p (length s.inodes) i
    → IsConsistentBut p q s
    → Ensures (IsConsistentBut none q) (inode_free s i)
inode_free-Ensures s i may c = record { at = λ t h. inode_free-keeps s i may h c }

taken_place :
    {q : Option ℕ} (s : Fs) (k : ℕ)
    → get_elem? s.ibitmap.bmap k ≡ some 0
    → IsConsistentBut none q s
    → Freeable (some k) (length s.inodes) (pos k)
taken_place s k g c = inr (rw (← length-inodes c) (position_get s.ibitmap.bmap k 0 g))

create_dir_block-keeps :
    (s : Fs) (k : ℕ) (parent_inum pblock : ℤ) (name : Text)
    → Freeable (some k) (length s.inodes) (pos k)
    → IsConsistentBut (some k) none s
    → Ensures (Leaves IsConsistent) (create_dir_block s (pos k) parent_inum pblock name)
unfolding create_dir_block
create_dir_block-keeps s k parent_inum pblock name may c = elim (data_alloc-cases s) [
  | inl (n, e, g) ↦ rw e (
      Ensures-bind (init_dir_block (block_taken s n) (pos n) (pos k) parent_inum) _
        (init_dir_block-keeps _ n (pos k) parent_inum (block_taken-keeps s n g c))
        λ s₁ c₁. install-keeps s₁ k (pos n) parent_inum pblock name dir refl c₁)
  | inr e ↦ rw e (
      Ensures-bind (inode_free s (pos k)) _ (inode_free-Ensures s (pos k) may c)
        λ s₁ c₁. Ensures-ok c₁)
]

create_inode-keeps :
    (s : Fs) (parent_inum pblock : ℤ) (name : Text) (ft : FType)
    → type_bit ft ≡ 1
    → IsConsistent s
    → Ensures (Leaves IsConsistent) (create_inode s parent_inum pblock name ft)
unfolding create_inode
create_inode-keeps s parent_inum pblock name ft used c = elim (inode_alloc-cases s) [
  | inl (k, e, g) ↦
      let c₁ : IsConsistentBut (some k) none (inode_taken s k) = inode_taken-keeps s k g c in
      rw e (
        Ensures-if (ftype_eq ft dir) _ _
          (λ _.
            create_dir_block-keeps (inode_taken s k) k parent_inum pblock name (taken_place s k g c)
              c₁)
          (λ _. install-keeps (inode_taken s k) k minus_one parent_inum pblock name ft used c₁))
  | inr e ↦ rw e (Ensures-ok c)
]

-- Creating a file or a directory keeps the invariant on every path.
pub create_file-keeps :
    (s : Fs) (parent newfile : Text) (ft : FType)
    → type_bit ft ≡ 1
    → IsConsistent s
    → Ensures (Leaves IsConsistent) (create_file s parent newfile ft)
unfolding create_file
create_file-keeps s parent newfile ft used c = Ensures-bind_eq (inum_of s parent) _ λ parent_inum _.
    Ensures-bind_eq (item_at s.inodes parent_inum) _ λ pinode _.
      Ensures-bind_eq (can_add s pinode.addr newfile) _ λ fine _.
        Ensures-if fine _ _ (λ _. create_inode-keeps s parent_inum pinode.addr newfile ft used c)
          (λ _. Ensures-ok c)

add_link-keeps :
    (s : Fs) (pblock : ℤ) (target newfile : Text)
    → IsConsistent s
    → Ensures (Leaves IsConsistent) (add_link s pblock target newfile)
unfolding add_link
add_link-keeps s pblock target newfile c = Ensures-bind_eq (inum_of s target) _ λ tinum _.
    Ensures-bind (with_inode s tinum _) _ (inc-keeps s tinum c) λ s₁ c₁.
      Ensures-bind (with_block s₁ pblock _) _ (add-keeps s₁ pblock c₁ _ tinum)
        λ s₂ c₂. Ensures-ok c₂

pub create_link-keeps :
    (s : Fs) (target newfile parent : Text)
    → IsConsistent s
    → Ensures (Leaves IsConsistent) (create_link s target newfile parent)
unfolding create_link
create_link-keeps s target newfile parent c = Ensures-bind_eq (inum_of s parent) _ λ parent_inum _.
    Ensures-bind_eq (item_at s.inodes parent_inum) _ λ pinode _.
      Ensures-bind_eq (can_add s pinode.addr newfile) _ λ fine _.
        Ensures-if fine _ _ (λ _. add_link-keeps s pinode.addr target newfile c) (λ _. Ensures-ok c)

-- `writeFile` leaves an inode that is in use
fill_block-keeps :
    (s : Fs) (inum : ℤ) (k : ℕ) (contents : Text)
    → IsConsistentBut none (some k) s
    → Ensures (Leaves IsConsistent) (fill_block s inum (pos k) contents)
unfolding fill_block Inode.set_addr
fill_block-keeps s inum k contents c =
    Ensures-bind (with_block s (pos k) _) _
      (record { at = λ t h. with_block-uses s k _ (block_bit-set_type file refl) h c })
      λ s₁ c₁.
        Ensures-bind (with_block s₁ (pos k) _) _
          (record { at = λ t h. with_block-keeps s₁ (pos k) _ (block_bit-add_data contents) h c₁ })
          λ s₂ c₂.
            Ensures-bind (with_inode s₂ inum _) _
              (record { at = λ t h. with_inode-keeps s₂ inum _ (λ a. refl) h c₂ })
              λ s₃ c₃. Ensures-ok c₃

pub write_file-keeps :
    (s : Fs) (tfile contents : Text)
    → IsConsistent s
    → Ensures (Leaves IsConsistent) (write_file s tfile contents)
unfolding write_file
write_file-keeps s tfile contents c = Ensures-bind_eq (inum_of s tfile) _ λ inum _.
    Ensures-bind_eq (item_at s.inodes inum) _ λ inode _.
      Ensures-if (Inode.get_size inode == 1) _ _ (λ _. Ensures-ok c)
        λ _. elim (data_alloc-cases s) [
          | inl (k, e, g) ↦
              rw e (fill_block-keeps (block_taken s k) inum k contents (block_taken-keeps s k g c))
          | inr e ↦ rw e (Ensures-ok c)
        ]

drop_link-keeps : (s : Fs) (inum : ℤ) → IsConsistent s → Ensures IsConsistent (drop_link s inum)
unfolding drop_link
drop_link-keeps s inum c = Ensures-bind_eq (item_at s.inodes inum) _ λ inode _.
    Ensures-if (eq_ℤ inode.ref_cnt (pos 1)) _ _
      (λ _.
        Ensures-bind (if eq_ℤ inode.addr minus_one then ok s else data_free s inode.addr) _
          (Ensures-if (eq_ℤ inode.addr minus_one) _ _ (λ _. Ensures-ok c)
            (λ _. record { at = λ t h. data_free-keeps s inode.addr (inl refl) h c }))
          λ s₁ c₁. inode_free-Ensures s₁ inum (inl refl) c₁)
      (λ _. dec-keeps s inum c)

pub delete_file-keeps :
    (s : Fs) (tfile : Text) → IsConsistent s → Ensures (Leaves IsConsistent) (delete_file s tfile)
unfolding delete_file
delete_file-keeps s tfile c = Ensures-bind_eq (inum_of s tfile) _ λ inum _.
    Ensures-bind_eq (item_at s.inodes inum) _ λ inode _.
      Ensures-bind (drop_link s inum) _ (drop_link-keeps s inum c) λ s₁ c₁.
        Ensures-bind_eq (inum_of s₁ (get_parent tfile)) _ λ pinum _.
          Ensures-bind_eq (item_at s₁.inodes pinum) _ λ pinode _.
            Ensures-bind
              (if ftype_eq inode.ftype dir then with_inode s₁ pinum Inode.dec_ref_cnt else ok s₁) _
              (Ensures-if (ftype_eq inode.ftype dir) _ _ (λ _. dec-keeps s₁ pinum c₁)
                (λ _. Ensures-ok c₁))
              λ s₂ c₂.
                Ensures-bind (with_block s₂ pinode.addr (λ b. Block.del_dir_entry b tfile)) _
                  (record {
                    at = λ t h.
                        with_block-keeps s₂ pinode.addr _ (block_bit-del_dir_entry tfile) h c₂;
                  })
                  λ s₃ c₃.
                    Ensures-bind_eq (or_raise value_error (remove_text tfile s₃.files)) _ λ files _.
                      Ensures-ok (record {
                        ivalid = c₃.ivalid;
                        dvalid = c₃.dvalid;
                        inode_bits = c₃.inode_bits;
                        block_bits = c₃.block_bits;
                      })
