-- ===== src/Lfs/Imap/Link.antt =====
-- HW-LFS/lfs.py, file_link: the imap chunks of the file and of the directory.
use cs334_operating_systems.Prelude.{
  ℕ, ◌+◌, ◌/◌, ◌<◌, ◌≡◌, refl, ap, ◌∙◌, ◌≢◌, inl, inr, some, List, [], ◌∷◌, ◌++◌, arith, Bool-cases,
  length, get_elem?, set, length-append, length-set, get_elem?-set_self, get_elem?-set_ne, ok,
  ◌>>=◌, Ensures, Ensures-ok, Ensures-bind, Ensures-bind_eq, nth,
}
use cs334_operating_systems.Prelude.Int.{ℤ, pos}
use cs334_operating_systems.Lfs.State.{
  Inode, Entry, data_dir, Lfs, log, remap, make_imap_chunk, inum_to_chunk, write_chunk, seen,
  update_chunks, update_imap, cr_sync, force,
}
use cs334_operating_systems.Lfs.Ops.{write_link}

-- what a chunk's write leaves in the checkpoint region and in the map
abbrev Others : Lfs → ℕ → Lfs → Type 0
Others s c t = ((d : ℕ) → c ≢ d → get_elem? t.cr d ≡ get_elem? s.cr d) × (t.inode_map ≡ s.inode_map)

write_chunk-Others : (s : Lfs) (c : ℕ) → Ensures (Others s c) (write_chunk s c)
unfolding write_chunk log
write_chunk-Others s c = Ensures-bind_eq (make_imap_chunk s c) _ λ chunk made.
    Ensures-bind_eq (nth s.cr c) _
      λ old inside. Ensures-ok (λ d ne. get_elem?-set_ne s.cr _ ne, refl)

one_chunk-Others :
    (s : Lfs) (inum : ℤ) → Ensures (Others s (inum_to_chunk inum)) (update_imap s (inum ∷ []))
unfolding update_imap update_chunks seen
one_chunk-Others s inum =
    Ensures-bind (write_chunk s (inum_to_chunk inum)) _ (write_chunk-Others s (inum_to_chunk inum))
      λ t o. Ensures-ok o

force-Others : (s t : Lfs) (c : ℕ) → Others s c t → Others s c (force t)
unfolding force cr_sync
force-Others s t c o = elim (Bool-cases t.no_force_checkpoints) [ inl e ↦ rw e o | inr e ↦ rw e o ]

sealed-Others :
    (s : Lfs) (inum : ℤ)
    → Ensures
        (λ (r : ℤ × Lfs). Others s (inum_to_chunk inum) r.1)
        (update_imap s (inum ∷ []) >>= λ u. ok (pos 0, force u))
sealed-Others s inum =
    Ensures-bind (update_imap s (inum ∷ [])) _ (one_chunk-Others s inum)
      λ u o. Ensures-ok (force-Others s u (inum_to_chunk inum) o)

-- A link whose file and directory have their inodes in different chunks: where it succeeds, the map in
-- memory has the file's new inode, three blocks behind the end of the log, and the checkpoint region
-- still points to the file's old chunk.
pub write_link-new_inode :
    (s t : Lfs) (rc : ℤ) (j k : ℕ) (src parent : Inode) (p : ℕ × ℕ × List Entry)
    → k / 16 ≢ j / 16
    → j < length s.inode_map
    → write_link s (pos j) src (pos k) parent p ≡ ok (rc, t)
    → (get_elem? t.inode_map j ≡ some (pos (length s.disk + 2)))
      × (get_elem? t.cr (j / 16) ≡ get_elem? s.cr (j / 16))
unfolding write_link log remap
write_link-new_inode s t rc j k src parent (index, size, entries) ne inside h =
    let (same, map_same) = (sealed-Others _ (pos k)).at (rc, t) h in
    (
      ap (λ m. get_elem? m j) map_same
          ∙ get_elem?-set_self (set s.inode_map k _) j _ (rw (length-set s.inode_map k _) inside)
          ∙ ap (λ n. some (pos n))
              (length-append (s.disk ++ data_dir entries ∷ []) _
                ∙ ap (λ n. n + 1) (length-append s.disk (data_dir entries ∷ []))
                ∙ omega arith),
      same (j / 16) ne,
    )
