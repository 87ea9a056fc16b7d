-- ===== src/Vsfs/Consistent/Alloc.antt =====
-- HW-VSFS/vsfs.py, class fs: the bitmaps at the allocation, the first use and the freeing of inodes and blocks.
use cs334_operating_systems.Prelude.{
  position, ℕ, ◌≡◌, sym, ap, ◌∙◌, ◌⊎◌, inl, inr, Option, none, some, map, arith, length, get_elem?,
  set, length-map, Result, ok, >>=-eq-ok, map-set, position_pos,
}
use cs334_operating_systems.Prelude.Int.{ℤ, pos, minus_one}
use cs334_operating_systems.Vsfs.Fs.{
  Fs, with_inode, with_block, inode_alloc, inode_free, data_alloc, data_free,
}
use cs334_operating_systems.Vsfs.Consistent.{inode_bit, block_bit, IsConsistentBut}
use cs334_operating_systems.Vsfs.Consistent.Steps.{
  length-taking, taking-set, with_inode-ok, with_block-ok,
}
use cs334_operating_systems.Vsfs.Bitmap
use cs334_operating_systems.Vsfs.Bitmap.Laws
use cs334_operating_systems.Vsfs.Bitmap.Laws.{marked, cleared}
use cs334_operating_systems.Vsfs.Block
use cs334_operating_systems.Vsfs.Block.{Block, FType, unused, ftype_eq}
use cs334_operating_systems.Vsfs.Inode
use cs334_operating_systems.Vsfs.Inode.{Inode}

abbrev pub inode_taken : Fs → ℕ → Fs
inode_taken s k = record s { ibitmap = marked s.ibitmap k }

abbrev pub block_taken : Fs → ℕ → Fs
block_taken s k = record s { dbitmap = marked s.dbitmap k }

pub inode_alloc-cases :
    (s : Fs)
    → ((k : ℕ) × (inode_alloc s ≡ (pos k, inode_taken s k)) × (get_elem? s.ibitmap.bmap k ≡ some 0))
      ⊎ (inode_alloc s ≡ (minus_one, s))
unfolding inode_alloc
inode_alloc-cases s = elim (Laws.alloc-Allocates s.ibitmap) [
  | inl (k, e, g, below) ↦ inl (k, rw e, g)
  | inr (e, below) ↦ inr (rw e)
]

pub data_alloc-cases :
    (s : Fs)
    → ((k : ℕ) × (data_alloc s ≡ (pos k, block_taken s k)) × (get_elem? s.dbitmap.bmap k ≡ some 0))
      ⊎ (data_alloc s ≡ (minus_one, s))
unfolding data_alloc
data_alloc-cases s = elim (Laws.alloc-Allocates s.dbitmap) [
  | inl (k, e, g, below) ↦ inl (k, rw e, g)
  | inr (e, below) ↦ inr (rw e)
]

pub inode_taken-keeps :
    {q : Option ℕ} (s : Fs) (k : ℕ)
    → get_elem? s.ibitmap.bmap k ≡ some 0
    → IsConsistentBut none q s
    → IsConsistentBut (some k) q (inode_taken s k)
inode_taken-keeps s k g c = record {
  ivalid = Laws.marked-IsValid s.ibitmap k g c.ivalid;
  dvalid = c.dvalid;
  inode_bits = ap (λ l. set l k 1) c.inode_bits;
  block_bits = c.block_bits;
}

pub block_taken-keeps :
    {p : Option ℕ} (s : Fs) (k : ℕ)
    → get_elem? s.dbitmap.bmap k ≡ some 0
    → IsConsistentBut p none s
    → IsConsistentBut p (some k) (block_taken s k)
block_taken-keeps s k g c = record {
  ivalid = c.ivalid;
  dvalid = Laws.marked-IsValid s.dbitmap k g c.dvalid;
  inode_bits = c.inode_bits;
  block_bits = ap (λ l. set l k 1) c.block_bits;
}

-- the inode that was taken comes into use
pub with_inode-uses :
    {q : Option ℕ} (s : Fs) (k : ℕ) (f : Inode → Inode) {t : Fs}
    → ((a : Inode) → inode_bit (f a) ≡ 1)
    → with_inode s (pos k) f ≡ ok t
    → IsConsistentBut (some k) q s
    → IsConsistentBut none q t
with_inode-uses s k f used h c =
    let (n, a, at, g, e) = with_inode-ok s (pos k) f h in
    let same : n ≡ k = position_pos (length s.inodes) k n at in
    rw (e, same)
      (record {
        ivalid = c.ivalid;
        dvalid = c.dvalid;
        inode_bits = c.inode_bits ∙ rw (map-set inode_bit s.inodes k (f a), used a);
        block_bits = c.block_bits;
      })

-- the block that was taken comes into use
pub with_block-uses :
    {p : Option ℕ} (s : Fs) (k : ℕ) (f : Block → Result Block) {t : Fs}
    → ((a b : Block) → f a ≡ ok b → block_bit b ≡ 1)
    → with_block s (pos k) f ≡ ok t
    → IsConsistentBut p (some k) s
    → IsConsistentBut p none t
with_block-uses s k f used h c =
    let (n, a, b, at, g, fa, e) = with_block-ok s (pos k) f h in
    let same : n ≡ k = position_pos (length s.blocks) k n at in
    rw (e, same)
      (record {
        ivalid = c.ivalid;
        dvalid = c.dvalid;
        inode_bits = c.inode_bits;
        block_bits = c.block_bits ∙ rw (map-set block_bit s.blocks k b, used a b fa);
      })

-- what `inodeFree` and `dataFree` may be called on: an item in use, or the one just taken
abbrev pub Freeable : Option ℕ → ℕ → ℤ → Type 0
Freeable p n i = (p ≡ none) ⊎ (position n i ≡ p)

pub length-inodes :
    {p q : Option ℕ} {s : Fs} → IsConsistentBut p q s → length s.ibitmap.bmap ≡ length s.inodes
length-inodes {p} {s} c =
    ap length c.inode_bits
    ∙ length-taking p (map inode_bit s.inodes)
    ∙ length-map s.inodes inode_bit

length-blocks :
    {p q : Option ℕ} {s : Fs} → IsConsistentBut p q s → length s.dbitmap.bmap ≡ length s.blocks
length-blocks {q} {s} c =
    ap length c.block_bits
    ∙ length-taking q (map block_bit s.blocks)
    ∙ length-map s.blocks block_bit

-- the two lists have one length, so an index names one place in both
same_place :
    {m m' n n' : ℕ} (i : ℤ) → m ≡ m' → position m i ≡ some n → position m' i ≡ some n' → n ≡ n'
same_place i e h k = cc

Freeable-place :
    {p : Option ℕ} {n : ℕ} (l : ℕ) (i : ℤ)
    → Freeable p l i
    → position l i ≡ some n
    → (p ≡ none) ⊎ (p ≡ some n)
Freeable-place l i (inl e) h = inl e
Freeable-place l i (inr e) h = inr (sym e ∙ h)

pub inode_free-keeps :
    {p q : Option ℕ} (s : Fs) (i : ℤ) {t : Fs}
    → Freeable p (length s.inodes) i
    → inode_free s i ≡ ok t
    → IsConsistentBut p q s
    → IsConsistentBut none q t
unfolding inode_free
inode_free-keeps {p} {q} s i may h c =
    let (b, freed, rest) = >>=-eq-ok (Bitmap.free s.ibitmap i) _ h in
    let (n, at, bit, eb) = Laws.free-ok s.ibitmap i freed in
    let (m, a, at', g, e) = with_inode-ok (record s { ibitmap = b }) i Inode.free rest in
    let same : n ≡ m = same_place i (length-inodes c) at at' in
    rw (e, eb, same)
      (record {
        ivalid = Laws.cleared-IsValid s.ibitmap m (rw same at bit) c.ivalid;
        dvalid = c.dvalid;
        inode_bits =
            ap (λ l. set l m 0) c.inode_bits
            ∙ taking-set p (map inode_bit s.inodes) m 0 (Freeable-place (length s.inodes) i may at')
            ∙ unfold Inode.free in rw (map-set inode_bit s.inodes m (Inode.free a));
        block_bits = c.block_bits;
      })

freed_block : (a b : Block) → Block.free a ≡ ok b → block_bit b ≡ 0
unfolding Block.free
freed_block a b h = ground arith

pub data_free-keeps :
    {p q : Option ℕ} (s : Fs) (i : ℤ) {t : Fs}
    → Freeable q (length s.blocks) i
    → data_free s i ≡ ok t
    → IsConsistentBut p q s
    → IsConsistentBut p none t
unfolding data_free
data_free-keeps {p} {q} s i may h c =
    let (b, freed, rest) = >>=-eq-ok (Bitmap.free s.dbitmap i) _ h in
    let (n, at, bit, eb) = Laws.free-ok s.dbitmap i freed in
    let (m, a, a', at', g, fa, e) = with_block-ok (record s { dbitmap = b }) i Block.free rest in
    let same : n ≡ m = same_place i (length-blocks c) at at' in
    rw (e, eb, same)
      (record {
        ivalid = c.ivalid;
        dvalid = Laws.cleared-IsValid s.dbitmap m (rw same at bit) c.dvalid;
        inode_bits = c.inode_bits;
        block_bits =
            ap (λ l. set l m 0) c.block_bits
            ∙ taking-set q (map block_bit s.blocks) m 0 (Freeable-place (length s.blocks) i may at')
            ∙ rw (map-set block_bit s.blocks m a', freed_block a a' fa);
      })
