-- ===== src/Lfs/Imap/Sealed.antt =====
-- HW-LFS/lfs.py, class LFS: the ends of the operations, from their first write to the checkpoint.
use Prim.Native.Nat.{min}
use cs334_operating_systems.Prelude.{
  ℕ, ◌-◌, ◌≡◌, refl, ◌∙◌, inl, inr, Bool, true, false, some, List, [], ◌∷◌, arith, if◌then◌else◌,
  length, get_elem?, set, length-set, get_elem?-set_self, take, get-set_zero, Fault, ok, ◌>>=◌,
  or_raise, Ensures, Ensures-ok, Ensures-bind, Ensures-bind_eq,
}
use cs334_operating_systems.Prelude.Int.{ℤ, pos, leb_ℤ}
use cs334_operating_systems.Prelude.Text.{Text}
use cs334_operating_systems.Lfs.State.{
  Inode, Entry, Block, checkpoint, Lfs, num_inode_ptrs, logged, remap, inum_to_chunk, write_chunk,
  seen, update_chunks, update_imap, cr_sync, force,
}
use cs334_operating_systems.Lfs.Lookup.{read_dirblock, find_matching_dir_slot}
use cs334_operating_systems.Lfs.Ops.{write_new, write_data, write_removal}
use cs334_operating_systems.Lfs.Imap.Chunks.{OnDisk, stored, no_chunk, chunks, write_chunk-Fresh}
use cs334_operating_systems.Lfs.Imap.Writes.{
  Behind, seen-head, seen-one, seen-tail, weaken-Fresh, logged-Fresh, remap-Fresh, log_data-Fresh,
  update_chunks-Fresh,
}

-- block 0 holds the checkpoint region, where every operation forces it
abbrev pub Synced : Lfs → Type 0
Synced s = s.no_force_checkpoints ≡ false → get_elem? s.disk 0 ≡ some (checkpoint s.cr)

abbrev pub Tight : Lfs → Type 0
Tight s = Behind [] s × Synced s

abbrev pub After : ℤ × Lfs → Type 0
After r = Tight r.1

cr_sync-OnDisk :
    (disk : List Block) (cr : List ℤ) (b : Block) (i : ℕ) (a : ℤ)
    → OnDisk disk cr i a
    → OnDisk (set disk 0 b) cr i a
cr_sync-OnDisk disk cr b i a (stored k es at block e) =
    stored k es at (get-set_zero disk b k ∙ block) e
cr_sync-OnDisk disk cr b i a (no_chunk at e) = no_chunk at e

pub cr_sync-Tight : (s : Lfs) → Behind [] s → Tight (cr_sync s)
unfolding cr_sync
cr_sync-Tight s fresh = (
  record {
    some_blocks = omega (arith, length-set s.disk 0 (checkpoint s.cr), fresh.some_blocks);
    on_disk = λ i. elim (fresh.on_disk i) [
      | inl g ↦
          inl
            (record { good = λ a h. cr_sync-OnDisk s.disk s.cr (checkpoint s.cr) i a (g.good a h) })
      | inr l ↦ inr l
    ];
  },
  λ _. get_elem?-set_self s.disk 0 (checkpoint s.cr) fresh.some_blocks,
)

force-Tight : (s : Lfs) → Behind [] s → Tight (force s)
unfolding force
force-Tight s fresh = forced s.no_force_checkpoints refl
  where
    forced : (b : Bool) → s.no_force_checkpoints ≡ b → Tight (if b then s else cr_sync s)
    forced true e = (fresh, λ f. absurd (cc))
    forced false e = cr_sync-Tight s fresh

-- the imap, then the checkpoint
sealed-Tight :
    (s : Lfs) (l : List ℤ)
    → Behind (chunks l) s
    → Ensures After (update_imap s l >>= λ u. ok (pos 0, force u))
unfolding update_imap seen
sealed-Tight s l fresh =
    Ensures-bind (update_chunks s [] l) _
      (update_chunks-Fresh (λ c. seen c (chunks l) ≡ true) s [] l (λ c h. (h, unfold seen in refl))
        fresh)
      λ u fu. Ensures-ok (force-Tight u fu)

-- from a disk that agrees, two chunks may fall behind
module _ (a b : ℤ) where
  abbrev pub two : List ℕ
  two = chunks (a ∷ b ∷ [])

  pub first-Behind : (s : Lfs) (address : ℤ) → Behind two s → Behind two (remap s a address)
  first-Behind s address = remap-Fresh _ s a address (seen-head (inum_to_chunk a) _)

  pub second-Behind : (s : Lfs) (address : ℤ) → Behind two s → Behind two (remap s b address)
  second-Behind s address =
      remap-Fresh _ s b address
        (seen-tail (inum_to_chunk b) (inum_to_chunk a) _ (seen-head (inum_to_chunk b) []))

  logged-Behind : (s : Lfs) (k : Block) → Behind two s → Behind two (logged s k)
  logged-Behind s k = logged-Fresh _ s k

  if-Behind : (c : Bool) (s t : Lfs) → Behind two s → Behind two t → Behind two (if c then s else t)
  if-Behind true s t h k = h
  if-Behind false s t h k = k

pub from_tight : (cs : List ℕ) (s : Lfs) → Behind [] s → Behind cs s
unfolding seen
from_tight cs s fresh = weaken-Fresh _ _ s (λ c l. absurd (cc)) fresh

pub write_new-Tight :
    (s : Lfs) (f : Bool) (parent_inum : ℤ) (parent : Inode) (inum : ℤ) (p : ℕ × ℕ × List Entry)
    → Behind (two parent_inum inum) s
    → Ensures After (write_new s f parent_inum parent inum p)
unfolding write_new
write_new-Tight s f parent_inum parent inum (index, size, entries) h =
    let log_it : (t : Lfs) (k : Block)
        → Behind (two parent_inum inum) t
        → Behind (two parent_inum inum) (logged t k) =
      logged-Behind parent_inum inum in
    sealed-Tight _ _ (
      second-Behind parent_inum inum _ _ (
        first-Behind parent_inum inum _ _ (
          log_it _ _ (
            log_it _ _
              (if-Behind parent_inum inum f _ _ (log_it s _ h) (log_it _ _ (log_it s _ h)))))))

pub write_data-Tight :
    (s : Lfs) (inum : ℤ) (inode : Inode) (offset : ℕ) (contents : List Text)
    → Behind [] s
    → Ensures After (write_data s inum inode offset contents)
unfolding write_data
write_data-Tight s inum inode offset contents h =
    let c = inum_to_chunk inum in
    Ensures-bind (write_chunk _ _) _
      (write_chunk-Fresh (λ d. seen d (c ∷ []) ≡ true) _ c
        (remap-Fresh _ _ inum _ (seen-head c []) (
          logged-Fresh _ _ _ (
            log_data-Fresh _ s (take (min (num_inode_ptrs - offset) (length contents)) contents)
              (from_tight (c ∷ []) s h)))))
      λ u fu.
        Ensures-ok
          (force-Tight u (weaken-Fresh _ _ u (λ d l. absurd (l.1 (seen-one d c (l.0)))) fu))

pub write_removal-Tight :
    (s : Lfs) (inum : ℤ) (inode : Inode) (name : Text) (parent_inum : ℤ) (parent : Inode)
    → Behind (two inum parent_inum) s
    → Ensures After (write_removal s inum inode name parent_inum parent)
unfolding write_removal
write_removal-Tight s inum inode name parent_inum parent h =
    let log_it : (t : Lfs) (k : Block)
        → Behind (two inum parent_inum) t
        → Behind (two inum parent_inum) (logged t k) =
      logged-Behind inum parent_inum in
    Ensures-bind_eq (find_matching_dir_slot s name parent) _ λ place _.
      Ensures-bind_eq (or_raise Fault.assertion place) _ λ p _.
        Ensures-bind_eq (read_dirblock s parent p.0) _ λ entries _.
          let moved = second-Behind inum parent_inum _ _ (log_it _ _ (log_it s _ h)) in
          sealed-Tight _ _ (
            if-Behind inum parent_inum (leb_ℤ inode.refs (pos 1)) _ _ moved
              (first-Behind inum parent_inum _ _ (log_it _ _ moved)))
