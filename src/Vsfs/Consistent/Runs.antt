-- ===== src/Vsfs/Consistent/Runs.antt =====
-- HW-VSFS/vsfs.py, class fs: the bitmaps from the initial state on, through a run of the workload.
use cs334_operating_systems.Prelude.{
  ℕ, zero, suc, ◌≡◌, refl, ap, ◌||◌, Option, none, some, List, [], ◌∷◌, map, ◌==◌, if◌then◌else◌,
  length, replicate, Fault, ok, Ensures, Ensures-ok, Ensures-raise, Ensures-if, Ensures-bind,
  Ensures-bind_eq, nth, position_pos,
}
use cs334_operating_systems.Prelude.Int.{ℤ, pos, eq_ℤ, leb_ℤ, minus_one}
use cs334_operating_systems.Prelude.Text.{Text}
use cs334_operating_systems.Vsfs.Fs.{Fs, root, with_inode, blank, mark_inode, mark_block, init}
use cs334_operating_systems.Vsfs.Ops.{create_link, init_dir_block, create_file}
use cs334_operating_systems.Vsfs.Workload.{
  do_delete, note_file, note_dir, do_link, do_create, do_append, Attempt, append_to, delete, link,
  create_f, create_d, attempt, pass, run,
}
use cs334_operating_systems.Vsfs.Consistent.{
  type_bit, inode_bit, block_bit, IsConsistentBut, IsConsistent,
}
use cs334_operating_systems.Vsfs.Consistent.Alloc.{
  inode_taken-keeps, block_taken-keeps, with_inode-uses,
}
use cs334_operating_systems.Vsfs.Consistent.Ops.{
  Leaves, init_dir_block-keeps, create_file-keeps, create_link-keeps, write_file-keeps,
  delete_file-keeps,
}
use cs334_operating_systems.Vsfs.Bitmap
use cs334_operating_systems.Vsfs.Bitmap.{num_free}
use cs334_operating_systems.Vsfs.Bitmap.Laws
use cs334_operating_systems.Vsfs.Block
use cs334_operating_systems.Vsfs.Block.{Block, FType, dir, file, unused, ftype_eq}
use cs334_operating_systems.Vsfs.Inode
use cs334_operating_systems.Vsfs.Inode.{Inode}

note_file-keeps :
    (r : ℤ × Fs) (name : Text)
    → Leaves IsConsistent r
    → Ensures (Leaves IsConsistent) (note_file r name)
unfolding note_file
note_file-keeps (inum, s) name c =
    Ensures-if (leb_ℤ (pos 0) inum) _ _
      (λ _. Ensures-ok (record {
        ivalid = c.ivalid;
        dvalid = c.dvalid;
        inode_bits = c.inode_bits;
        block_bits = c.block_bits;
      }))
      (λ _. Ensures-ok c)

note_dir-keeps :
    (r : ℤ × Fs) (name : Text)
    → Leaves IsConsistent r
    → Ensures (Leaves IsConsistent) (note_dir r name)
unfolding note_dir
note_dir-keeps (inum, s) name c =
    Ensures-if (leb_ℤ (pos 0) inum) _ _
      (λ _. Ensures-ok (record {
        ivalid = c.ivalid;
        dvalid = c.dvalid;
        inode_bits = c.inode_bits;
        block_bits = c.block_bits;
      }))
      (λ _. Ensures-ok c)

do_create-keeps :
    (s : Fs) (ft : FType) (p : ℕ) (name : Text)
    → type_bit ft ≡ 1
    → IsConsistent s
    → Ensures (Leaves IsConsistent) (do_create s ft p name)
unfolding do_create
do_create-keeps s ft p name used c = Ensures-bind_eq (nth s.dirs p) _ λ parent _.
    Ensures-bind (create_file s parent name ft) _ (create_file-keeps s parent name ft used c)
      λ r c₁.
        Ensures-if (ftype_eq ft dir) _ _ (λ _. note_dir-keeps r _ c₁) (λ _. note_file-keeps r _ c₁)

-- Every operation that the workload can draw keeps the invariant, whether it succeeds or returns -1.
pub attempt-keeps :
    (s : Fs) (a : Attempt) → IsConsistent s → Ensures (Leaves IsConsistent) (attempt s a)
unfolding attempt do_append do_delete do_link
attempt-keeps s (append_to k contents) c =
    Ensures-if (length s.files == 0) _ _ (λ _. Ensures-ok c)
      λ _. Ensures-bind_eq (nth s.files k) _ λ f _. write_file-keeps s f contents c
attempt-keeps s (delete k) c =
    Ensures-if (length s.files == 0) _ _ (λ _. Ensures-ok c)
      λ _. Ensures-bind_eq (nth s.files k) _ λ f _. delete_file-keeps s f c
attempt-keeps s (link p name k) c =
    Ensures-if (length s.files == 0) _ _ (λ _. Ensures-ok c)
      λ _. Ensures-bind_eq (nth s.dirs p) _ λ parent _.
        Ensures-bind_eq (nth s.files k) _ λ target _.
          Ensures-bind (create_link s target name parent) _
            (create_link-keeps s target name parent c) λ r c₁. note_file-keeps r _ c₁
attempt-keeps s (create_f p name) c = do_create-keeps s file p name refl c
attempt-keeps s (create_d p name) c = do_create-keeps s dir p name refl c

pass-keeps : (s : Fs) (a : Attempt) → IsConsistent s → Ensures (Leaves IsConsistent) (pass s a)
unfolding pass
pass-keeps s a c = Ensures-bind (attempt s a) _ (attempt-keeps s a c) λ r c₁.
    Ensures-if (eq_ℤ (num_free r.1.ibitmap) (pos 0) || eq_ℤ (num_free r.1.dbitmap) (pos 0)) _ _
      (λ _. Ensures-raise Fault.exit) (λ _. Ensures-ok c₁)

abbrev Ends : ℕ × Fs → Type 0
Ends r = IsConsistent r.1

run-keeps : (n : ℕ) (draws : List Attempt) (s : Fs) → IsConsistent s → Ensures Ends (run n draws s)
unfolding run
run-keeps zero draws s c = Ensures-ok c
run-keeps (suc n) [] s c = Ensures-ok c
run-keeps (suc n) (a ∷ draws) s c =
    Ensures-bind (pass s a) _ (pass-keeps s a c)
      λ r c₁. run-keeps (if eq_ℤ r.0 minus_one then suc n else n) draws r.1 c₁

inode_bits-replicate : (n : ℕ) → replicate n 0 ≡ map inode_bit (replicate n Inode.init)
inode_bits-replicate zero = refl
inode_bits-replicate (suc n) = ap (◌∷◌ 0) (inode_bits-replicate n)

block_bits-replicate : (n : ℕ) → replicate n 0 ≡ map block_bit (replicate n (Block.init unused))
block_bits-replicate zero = refl
block_bits-replicate (suc n) = ap (◌∷◌ 0) (block_bits-replicate n)

blank-IsConsistent : (ni nd : ℕ) → IsConsistent (blank ni nd)
unfolding blank
blank-IsConsistent ni nd = record {
  ivalid = Laws.init-IsValid ni;
  dvalid = Laws.init-IsValid nd;
  inode_bits = inode_bits-replicate ni;
  block_bits = block_bits-replicate nd;
}

mark_inode-takes :
    {q : Option ℕ} (s : Fs) (k : ℕ)
    → IsConsistentBut none q s
    → Ensures (IsConsistentBut (some k) q) (mark_inode s (pos k))
mark_inode-takes s k c = Ensures-bind_eq (Bitmap.mark_allocated s.ibitmap (pos k)) _ λ b e.
    let (n, at, g, eb) = Laws.mark_allocated-ok s.ibitmap (pos k) e in
    let same : n ≡ k = position_pos (length s.ibitmap.bmap) k n at in
    Ensures-ok (rw (eb, same) (inode_taken-keeps s k (rw same at g) c))

mark_block-takes :
    {p : Option ℕ} (s : Fs) (k : ℕ)
    → IsConsistentBut p none s
    → Ensures (IsConsistentBut p (some k)) (mark_block s (pos k))
mark_block-takes s k c = Ensures-bind_eq (Bitmap.mark_allocated s.dbitmap (pos k)) _ λ b e.
    let (n, at, g, eb) = Laws.mark_allocated-ok s.dbitmap (pos k) e in
    let same : n ≡ k = position_pos (length s.dbitmap.bmap) k n at in
    Ensures-ok (rw (eb, same) (block_taken-keeps s k (rw same at g) c))

init-IsConsistent : (ni nd : ℕ) → Ensures IsConsistent (init ni nd)
unfolding init init_dir_block Inode.set_all
init-IsConsistent ni nd =
    Ensures-bind (mark_inode (blank ni nd) root) _
      (mark_inode-takes (blank ni nd) 0 (blank-IsConsistent ni nd))
      λ s₁ c₁.
        Ensures-bind (with_inode s₁ root _) _
          (record { at = λ t h. with_inode-uses s₁ 0 _ (λ a. refl) h c₁ })
          λ s₂ c₂.
            Ensures-bind (mark_block s₂ root) _ (mark_block-takes s₂ 0 c₂)
              λ s₃ c₃. init_dir_block-keeps s₃ 0 root root c₃

-- From `fs(numInodes, numData)` on, after any run of the workload that ends without an exception,
-- both bitmaps count their bits, and a bit is 1 exactly when its inode or block is not free.
pub run-IsConsistent :
    (ni nd n : ℕ) (draws : List Attempt) {s t : Fs} {due : ℕ}
    → init ni nd ≡ ok s
    → run n draws s ≡ ok (due, t)
    → IsConsistent t
run-IsConsistent ni nd n draws {s} start h =
    (run-keeps n draws s ((init-IsConsistent ni nd).at s start)).at _ h
