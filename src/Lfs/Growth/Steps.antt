-- ===== src/Lfs/Growth/Steps.antt =====
-- HW-LFS/lfs.py, class LFS: the blocks of the log under log, remap, update_imap and the checkpoint.
use cs334_operating_systems.Prelude.{
  ℕ, suc, ◌≡◌, ◌∙◌, inl, inr, Bool, true, false, not, some, List, [], ◌∷◌, if◌then◌else◌,
  Bool-cases, get_elem?, get-append_left, get-set_zero, ok, ◌>>=◌, check, Ensures, Ensures-ok,
  Ensures-if, Ensures-bind, Ensures-bind_eq, nth,
}
use cs334_operating_systems.Prelude.Int.{ℤ, pos, negsuc, eq_ℤ, minus_one}
use cs334_operating_systems.Lfs.State.{
  Inode, Entry, Block, checkpoint, Lfs, log, logged, inode_map_at, remap, make_imap_chunk,
  inum_to_chunk, write_chunk, seen, update_chunks, update_imap, cr_sync, force, free_inode,
}
use cs334_operating_systems.Lfs.Ops.{write_new}

-- Every block of `s` behind address 0 is in `t` at the same address.
abbrev pub Keeps : Lfs → Lfs → Type 0
Keeps s t =
    (a : ℕ) (b : Block) → get_elem? s.disk (suc a) ≡ some b → get_elem? t.disk (suc a) ≡ some b

abbrev pub Leaves : Lfs → ℤ × Lfs → Type 0
Leaves s r = Keeps s r.1

module _ (s t : Lfs) (k : Keeps s t) where
  pub logged-Keeps : (b : Block) → Keeps s (logged t b)
  unfolding log
  logged-Keeps b = λ a c h. get-append_left t.disk (b ∷ []) (suc a) c (k a c h)

  pub remap-Keeps : (inum address : ℤ) → Keeps s (remap t inum address)
  unfolding remap
  remap-Keeps (pos i) address = k
  remap-Keeps (negsuc i) address = k

  pub cr_sync-Keeps : Keeps s (cr_sync t)
  unfolding cr_sync
  cr_sync-Keeps = λ a c h. get-set_zero t.disk (checkpoint t.cr) a ∙ k a c h

  pub force-Keeps : Keeps s (force t)
  unfolding force
  force-Keeps = elim (Bool-cases t.no_force_checkpoints) [
    | inl e ↦ rw e k
    | inr e ↦ rw e (λ a c h. get-set_zero t.disk (checkpoint t.cr) a ∙ k a c h)
  ]

  pub free_inode-Keeps : (inum : ℤ) → Ensures (Keeps s) (free_inode t inum)
  unfolding free_inode
  free_inode-Keeps inum = Ensures-bind_eq (inode_map_at t inum) _ λ a _.
      Ensures-bind_eq (check (not (eq_ℤ a minus_one))) _
        λ _ _. Ensures-ok (unfold remap in remap-Keeps inum minus_one)

  pub write_chunk-Keeps : (cnum : ℕ) → Ensures (Keeps s) (write_chunk t cnum)
  unfolding write_chunk
  write_chunk-Keeps cnum =
      Ensures-bind_eq (make_imap_chunk t cnum) _
        λ b _. Ensures-bind_eq (nth (logged t b).cr cnum) _ λ _ _. Ensures-ok (logged-Keeps b)

  pub if-Keeps : (u : Lfs) (b : Bool) → Keeps s u → Keeps s (if b then t else u)
  if-Keeps u true h = k
  if-Keeps u false h = h

update_chunks-Keeps :
    (s t : Lfs) (done : List ℕ) (l : List ℤ)
    → Keeps s t
    → Ensures (Keeps s) (update_chunks t done l)
unfolding update_chunks
update_chunks-Keeps s t done [] k = Ensures-ok k
update_chunks-Keeps s t done (inum ∷ l) k =
    Ensures-bind
      (if seen (inum_to_chunk inum) done then ok t else write_chunk t (inum_to_chunk inum)) _
      (Ensures-if (seen (inum_to_chunk inum) done) _ _ (λ _. Ensures-ok k)
        (λ _. write_chunk-Keeps s t k (inum_to_chunk inum)))
      λ u ku. update_chunks-Keeps s u _ l ku

-- the imap, then the checkpoint
pub sealed-Keeps :
    (s t : Lfs) (l : List ℤ)
    → Keeps s t
    → Ensures (Leaves s) (update_imap t l >>= λ u. ok (pos 0, force u))
unfolding update_imap
sealed-Keeps s t l k =
    Ensures-bind (update_chunks t [] l) _ (update_chunks-Keeps s t [] l k)
      λ u ku. Ensures-ok (force-Keeps s u ku)

pub write_new-Keeps :
    (s t : Lfs) (f : Bool) (parent_inum : ℤ) (parent : Inode) (inum : ℤ) (p : ℕ × ℕ × List Entry)
    → Keeps s t
    → Ensures (Leaves s) (write_new t f parent_inum parent inum p)
unfolding write_new
write_new-Keeps s t f parent_inum parent inum (index, size, entries) k = sealed-Keeps s _ _ (
    remap-Keeps s _
      (remap-Keeps s _
        (logged-Keeps s _
          (logged-Keeps s _
            (if-Keeps s _ (logged-Keeps s t k _) _ f (logged-Keeps s _ (logged-Keeps s t k _) _)) _)
          _)
        parent_inum _)
      inum _)
