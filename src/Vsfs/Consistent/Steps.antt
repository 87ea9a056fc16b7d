-- ===== src/Vsfs/Consistent/Steps.antt =====
-- HW-VSFS/vsfs.py, class fs: the bitmaps under the steps on one inode, one block or one bit.
use cs334_operating_systems.Prelude.{
  position, ℕ, ◌≡◌, refl, sym, ap, ◌∙◌, ◌⊎◌, inl, inr, Option, none, some, List, length, get_elem?,
  set, length-set, Result, ok, >>=-eq-ok, ok-injective, set-set, map-set_same, modify, modify-ok,
}
use cs334_operating_systems.Prelude.Int.{ℤ}
use cs334_operating_systems.Vsfs.Fs.{Fs, with_inode, with_block}
use cs334_operating_systems.Vsfs.Consistent.{inode_bit, block_bit, taking, IsConsistentBut}
use cs334_operating_systems.Vsfs.Block.{Block}
use cs334_operating_systems.Vsfs.Inode.{Inode}

pub length-taking : (p : Option ℕ) (l : List ℕ) → length (taking p l) ≡ length l
length-taking none l = refl
length-taking (some n) l = length-set l n 1

-- A bit written twice is the bit written last.
pub taking-set :
    (p : Option ℕ) (l : List ℕ) (n v : ℕ)
    → (p ≡ none) ⊎ (p ≡ some n)
    → set (taking p l) n v ≡ set l n v
taking-set none l n v h = refl
taking-set (some m) l n v (inl h) = absurd (cc h)
taking-set (some m) l n v (inr h) = let e : m ≡ n = cc in rw e (set-set l n 1 v)

module _ (s : Fs) (i : ℤ) where
  pub with_inode-ok :
      (f : Inode → Inode) {t : Fs}
      → with_inode s i f ≡ ok t
      → (n : ℕ) × (a : Inode) × (position (length s.inodes) i ≡ some n)
        × (get_elem? s.inodes n ≡ some a)
        × (t ≡ record s { inodes = set s.inodes n (f a) })
  with_inode-ok f h =
      let (l, changed, e) = >>=-eq-ok (modify s.inodes i (λ n. ok (f n))) _ h in
      let (n, a, b, at, g, fa, w) = modify-ok s.inodes i (λ n. ok (f n)) changed in
      (n, a, at, g, rw (← ok-injective e, w, ← ok-injective fa))

  pub with_block-ok :
      (f : Block → Result Block) {t : Fs}
      → with_block s i f ≡ ok t
      → (n : ℕ) × (a b : Block) × (position (length s.blocks) i ≡ some n)
        × (get_elem? s.blocks n ≡ some a)
        × (f a ≡ ok b)
        × (t ≡ record s { blocks = set s.blocks n b })
  with_block-ok f h =
      let (l, changed, e) = >>=-eq-ok (modify s.blocks i f) _ h in
      let (n, a, b, at, g, fa, w) = modify-ok s.blocks i f changed in
      (n, a, b, at, g, fa, rw (← ok-injective e, w))

module _ {p q : Option ℕ} (s : Fs) (i : ℤ) where
  -- a change of an inode that keeps it in use or free
  pub with_inode-keeps :
      (f : Inode → Inode) {t : Fs}
      → ((a : Inode) → inode_bit (f a) ≡ inode_bit a)
      → with_inode s i f ≡ ok t
      → IsConsistentBut p q s
      → IsConsistentBut p q t
  with_inode-keeps f same h c =
      let (n, a, at, g, e) = with_inode-ok s i f h in
      rw e (record {
        ivalid = c.ivalid;
        dvalid = c.dvalid;
        inode_bits =
            c.inode_bits
            ∙ ap (taking p) (sym (map-set_same inode_bit s.inodes n a (f a) g (same a)));
        block_bits = c.block_bits;
      })

  -- a change of a block that keeps it in use or free
  pub with_block-keeps :
      (f : Block → Result Block) {t : Fs}
      → ((a b : Block) → f a ≡ ok b → block_bit b ≡ block_bit a)
      → with_block s i f ≡ ok t
      → IsConsistentBut p q s
      → IsConsistentBut p q t
  with_block-keeps f same h c =
      let (n, a, b, at, g, fa, e) = with_block-ok s i f h in
      rw e (record {
        ivalid = c.ivalid;
        dvalid = c.dvalid;
        inode_bits = c.inode_bits;
        block_bits =
            c.block_bits
            ∙ ap (taking q) (sym (map-set_same block_bit s.blocks n a b g (same a b fa)));
      })
