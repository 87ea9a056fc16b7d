-- ===== src/Lfs/Imap/Runs.antt =====
-- HW-LFS/lfs.py, class LFS: the operations, from the look-up to the checkpoint, and the imap on the disk.
use mathlib.Core.Path.{subst}
use cs334_operating_systems.Prelude.{
  ℕ, suc, ◌+◌, ◌≡◌, refl, sym, ap, ◌∙◌, ◌⊎◌, inl, inr, Bool, true, false, not, ◌&&◌, ◌||◌, none,
  some, List, [], ◌∷◌, ◌++◌, arith, if◌then◌else◌, Bool-cases, get_elem?, set, key_error, ok,
  >>=-eq-ok, check, or_raise, ok-injective, Ensures, Ensures-ok, Ensures-if, Ensures-bind,
  Ensures-bind_eq, set_same, set-set,
}
use cs334_operating_systems.Prelude.Int.{ℤ, pos, pos_part, ltb_ℤ, eq_ℤ, leb_ℤ, minus_one, eq_ℤ→eq}
use cs334_operating_systems.Prelude.Text.{Text}
use cs334_operating_systems.Lfs.State.{
  Inode, Error, dir_full, Lfs, num_inode_ptrs, inode_map_at, remap, error_log, error_clear,
  first_unmapped, allocate_inode, free_inode,
}
use cs334_operating_systems.Lfs.Lookup.{
  get_inode_from_inumber, is_directory, Walked, found, failed, walk_path, add_dir_entry,
}
use cs334_operating_systems.Lfs.Ops.{
  create_in, create_walked, file_or_dir_create, write_walked, file_write, delete_walked,
  file_delete, Command, create, mkdir, remove, link, write, checkpoint_now, execute, run,
}
use cs334_operating_systems.Lfs.Imap.Writes.{Behind}
use cs334_operating_systems.Lfs.Imap.Sealed.{
  Tight, After, cr_sync-Tight, two, first-Behind, second-Behind, from_tight, write_new-Tight,
  write_data-Tight, write_removal-Tight,
}

-- an allocation that is taken back
first_unmapped-get :
    (start : ℕ) (l : List ℤ)
    → (first_unmapped start l ≡ minus_one)
      ⊎ ((k : ℕ) × (first_unmapped start l ≡ pos (start + k)) × (get_elem? l k ≡ some minus_one))
unfolding first_unmapped
first_unmapped-get start [] = inl refl
first_unmapped-get start (a ∷ l) = elim (Bool-cases (eq_ℤ a minus_one)) [
  | inl e ↦ inr (0, rw e (ap pos (omega arith)), ap some (eq_ℤ→eq a minus_one e))
  | inr e ↦ elim (first_unmapped-get (start + 1) l) [
    | inl h ↦ inl (rw e h)
    | inr (k, at, g) ↦ inr (suc k, rw e (at ∙ ap pos (omega arith)), g)
  ]
]

free-remap :
    (s t : Lfs) (e : Error) (k : ℕ)
    → get_elem? s.inode_map k ≡ some minus_one
    → free_inode (error_log (remap s (pos k) (pos 1)) e) (pos k) ≡ ok t
    → t ≡ error_log s e
unfolding free_inode remap
free-remap s t e k at h =
    let (a, was, h1) =
      >>=-eq-ok (or_raise key_error (get_elem? (set s.inode_map k (pos 1)) k)) _ h in
    let (u, live, h2) = >>=-eq-ok (check (not (eq_ℤ a minus_one))) _ h1 in
    sym (ok-injective h2)
    ∙ ap (λ m. record s { inode_map = m; error_list = s.error_list ++ e ∷ [] })
        (set-set s.inode_map k (pos 1) minus_one ∙ set_same s.inode_map k minus_one at)

free-allocate :
    (s t : Lfs) (e : Error)
    → free_inode (error_log (allocate_inode s).1 e) (allocate_inode s).0 ≡ ok t
    → t ≡ error_log s e
unfolding free_inode allocate_inode
free-allocate s t e h = elim (first_unmapped-get 0 s.inode_map) [
  | inl none_free ↦ absurd (
      let j = subst (λ i. free_inode (error_log (remap s i (pos 1)) e) i ≡ ok t) none_free h in
      unfold free_inode in cc)
  | inr (k, at, g) ↦ free-remap s t e k g (
      subst (λ i. free_inode (error_log (remap s i (pos 1)) e) i ≡ ok t)
        (at ∙ ap pos (let j : 0 + k ≡ k = omega arith in j)) h)
]

allocated-Behind :
    (s : Lfs) (parent_inum : ℤ)
    → Behind [] s
    → Behind (two parent_inum (allocate_inode s).0) (allocate_inode s).1
unfolding allocate_inode
allocated-Behind s parent_inum h =
    let i = first_unmapped 0 s.inode_map in
    second-Behind parent_inum i s (pos 1) (from_tight (two parent_inum i) s h)

-- no inode is free: nothing was marked
none_allocated : (s : Lfs) → eq_ℤ (allocate_inode s).0 minus_one ≡ true → (allocate_inode s).1 ≡ s
unfolding allocate_inode remap
none_allocated s e =
    ap (λ i. remap s i (pos 1)) (eq_ℤ→eq (first_unmapped 0 s.inode_map) minus_one e)

create_in-Tight :
    (s : Lfs) (f : Bool) (name : Text) (parent_inum : ℤ) (parent : Inode)
    → Tight s
    → Ensures After (create_in s f name parent_inum parent)
unfolding create_in
create_in-Tight s f name parent_inum parent h =
    let inum = (allocate_inode s).0 in
    let u = (allocate_inode s).1 in
    Ensures-if (eq_ℤ inum minus_one) _ _
      (λ e. Ensures-ok (subst Tight (sym (none_allocated s e)) h))
      (λ _. Ensures-bind_eq (add_dir_entry u parent name inum) _ (elim [
        | none ↦ λ _.
            Ensures-bind_eq (free_inode (error_log u dir_full) inum) _
              λ v freed. Ensures-ok (subst Tight (sym (free-allocate s v dir_full freed)) h)
        | some p ↦ λ _.
            write_new-Tight u f parent_inum parent inum p (allocated-Behind s parent_inum (h.0))
      ]))

create_walked-Tight :
    (s : Lfs) (f : Bool) (w : Walked) → Tight s → Ensures After (create_walked s f w)
unfolding create_walked
create_walked-Tight s f (failed e) h = Ensures-ok h
create_walked-Tight s f (found inum name parent_inum parent) h =
    Ensures-if (eq_ℤ inum minus_one) _ _ (λ _. create_in-Tight s f name parent_inum parent h)
      (λ _. Ensures-ok h)

write_walked-Tight :
    (s : Lfs) (offset : ℤ) (contents : List Text) (w : Walked)
    → Tight s
    → Ensures After (write_walked s offset contents w)
unfolding write_walked
write_walked-Tight s offset contents (failed e) h = Ensures-ok h
write_walked-Tight s offset contents (found inum name parent_inum parent) h =
    Ensures-if (eq_ℤ inum minus_one) _ _ (λ _. Ensures-ok h)
      λ _. Ensures-bind_eq (get_inode_from_inumber s inum) _ λ inode _.
        Ensures-if (is_directory inode) _ _ (λ _. Ensures-ok h)
          λ _.
            Ensures-if (ltb_ℤ offset (pos 0) || leb_ℤ (pos num_inode_ptrs) offset) _ _
              (λ _. Ensures-ok h)
              λ _. write_data-Tight s inum inode (pos_part offset) contents (h.0)

freed-Behind :
    (s : Lfs) (inum parent_inum : ℤ)
    → Behind [] s
    → Ensures (Behind (two inum parent_inum)) (free_inode s inum)
unfolding free_inode
freed-Behind s inum parent_inum h = Ensures-bind_eq (inode_map_at s inum) _ λ a _.
    Ensures-bind_eq (check (not (eq_ℤ a minus_one))) _ λ _ _.
      Ensures-ok (first-Behind inum parent_inum s minus_one (from_tight (two inum parent_inum) s h))

delete_walked-Tight : (s : Lfs) (w : Walked) → Tight s → Ensures After (delete_walked s w)
unfolding delete_walked
delete_walked-Tight s (failed e) h = Ensures-ok h
delete_walked-Tight s (found inum name parent_inum parent) h =
    Ensures-if (eq_ℤ inum minus_one) _ _ (λ _. Ensures-ok h)
      λ _. Ensures-bind_eq (get_inode_from_inumber s inum) _ λ inode _.
        Ensures-if (is_directory inode) _ _ (λ _. Ensures-ok h)
          λ _.
            Ensures-bind (if eq_ℤ inode.refs (pos 1) then free_inode s inum else ok s) _
              (Ensures-if (eq_ℤ inode.refs (pos 1)) _ _ (λ _. freed-Behind s inum parent_inum (h.0))
                (λ _. Ensures-ok (from_tight (two inum parent_inum) s (h.0))))
              λ u ku. write_removal-Tight u inum inode name parent_inum parent ku

-- a command that links no file
abbrev pub no_link : Command → Bool
no_link (link src dst) = false
no_link _ = true

-- a run without links
abbrev pub no_links : List Command → Bool
no_links [] = true
no_links (c ∷ l) = no_link c && no_links l

create-Tight :
    (s : Lfs) (f : Bool) (path : Text)
    → Tight s
    → Ensures After (file_or_dir_create (error_clear s) f path)
unfolding file_or_dir_create
create-Tight s f path h =
    Ensures-bind_eq (walk_path (error_clear s) path) _
      λ w _. create_walked-Tight (error_clear s) f w h

execute-Tight : (s : Lfs) (c : Command) → no_link c ≡ true → Tight s → Ensures After (execute s c)
unfolding execute file_write file_delete
execute-Tight s (create path) plain h = create-Tight s true path h
execute-Tight s (mkdir path) plain h = create-Tight s false path h
execute-Tight s (remove path) plain h =
    Ensures-bind_eq (walk_path (error_clear s) path) _
      λ w _. delete_walked-Tight (error_clear s) w h
execute-Tight s (link src dst) plain h = absurd (cc)
execute-Tight s (write path offset contents) plain h =
    Ensures-bind_eq (walk_path (error_clear s) path) _
      λ w _. write_walked-Tight (error_clear s) offset contents w h
execute-Tight s checkpoint_now plain h = Ensures-ok (cr_sync-Tight (error_clear s) (h.0))

both : (a b : Bool) → (a && b) ≡ true → (a ≡ true) × (b ≡ true)
both true b h = (refl, h)
both false b h = absurd (cc)

pub run-Tight : (s : Lfs) (l : List Command) → no_links l ≡ true → Tight s → Ensures Tight (run s l)
unfolding run
run-Tight s [] plain h = Ensures-ok h
run-Tight s (c ∷ l) plain h =
    let (p, q) = both (no_link c) (no_links l) plain in
    Ensures-bind (execute s c) _ (execute-Tight s c p h) λ r kr. run-Tight r.1 l q kr
