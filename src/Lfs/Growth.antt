-- ===== src/Lfs/Growth.antt =====
-- HW-LFS/lfs.py, class LFS: the blocks of the log under the operations.
pub mod Steps
use Prim.Native.Nat.{min}
use cs334_operating_systems.Prelude.{
  ℕ, ◌-◌, ◌≡◌, Bool, true, false, ◌||◌, none, some, List, [], ◌∷◌, if◌then◌else◌, length, take,
  Fault, ok, or_raise, Ensures, Ensures-ok, Ensures-raise, Ensures-if, Ensures-bind,
  Ensures-bind_eq,
}
use cs334_operating_systems.Prelude.Int.{ℤ, pos, pos_part, ltb_ℤ, eq_ℤ, leb_ℤ, minus_one}
use cs334_operating_systems.Prelude.Text.{Text}
use cs334_operating_systems.Lfs.State.{
  Inode, Entry, data_block, Error, no_inodes, dir_full, Lfs, num_inode_ptrs, logged, remap,
  write_chunk, error_log, error_clear, first_unmapped, allocate_inode, free_inode,
}
use cs334_operating_systems.Lfs.Lookup.{
  get_inode_from_inumber, is_directory, Walked, found, failed, walk_path, read_dirblock,
  find_matching_dir_slot, add_dir_entry,
}
use cs334_operating_systems.Lfs.Ops.{
  fail, create_in, create_walked, file_or_dir_create, write_link, link_to, link_from, file_link,
  log_data, write_data, write_walked, file_write, write_removal, delete_walked, file_delete,
  Command, create, mkdir, remove, link, write, checkpoint_now, execute, run,
}
use cs334_operating_systems.Lfs.Growth.Steps.{
  Keeps, Leaves, logged-Keeps, remap-Keeps, cr_sync-Keeps, force-Keeps, free_inode-Keeps,
  write_chunk-Keeps, if-Keeps, sealed-Keeps, write_new-Keeps,
}

module _ (s t : Lfs) (k : Keeps s t) where
  fail-Keeps : (e : Error) → Ensures (Leaves s) (fail t e)
  fail-Keeps e = Ensures-ok k

  allocate_inode-Keeps : Keeps s (allocate_inode t).1
  unfolding allocate_inode
  allocate_inode-Keeps = unfold remap in remap-Keeps s t k (first_unmapped 0 t.inode_map) (pos 1)

create_in-Keeps :
    (s t : Lfs) (f : Bool) (name : Text) (parent_inum : ℤ) (parent : Inode)
    → Keeps s t
    → Ensures (Leaves s) (create_in t f name parent_inum parent)
unfolding create_in
create_in-Keeps s t f name parent_inum parent k =
    let (inum, u) = allocate_inode t in
    let ku : Keeps s u = allocate_inode-Keeps s t k in
    Ensures-if (eq_ℤ inum minus_one) _ _ (λ _. fail-Keeps s u ku no_inodes)
      (λ _. Ensures-bind_eq (add_dir_entry u parent name inum) _ (elim [
        | none ↦ λ _.
            Ensures-bind (free_inode (error_log u dir_full) inum) _
              (free_inode-Keeps s (error_log u dir_full) ku inum) λ v kv. Ensures-ok kv
        | some p ↦ λ _. write_new-Keeps s u f parent_inum parent inum p ku
      ]))

create_walked-Keeps :
    (s t : Lfs) (f : Bool) (w : Walked) → Keeps s t → Ensures (Leaves s) (create_walked t f w)
unfolding create_walked
create_walked-Keeps s t f (failed e) k = Ensures-ok k
create_walked-Keeps s t f (found inum name parent_inum parent) k =
    Ensures-if (eq_ℤ inum minus_one) _ _ (λ _. create_in-Keeps s t f name parent_inum parent k)
      (λ _. Ensures-ok k)

create-Keeps :
    (s : Lfs) (f : Bool) (path : Text)
    → Ensures (Leaves s) (file_or_dir_create (error_clear s) f path)
unfolding file_or_dir_create
create-Keeps s f path =
    Ensures-bind_eq (walk_path (error_clear s) path) _
      λ w _. create_walked-Keeps s (error_clear s) f w (λ a b h. h)

write_link-Keeps :
    (s t : Lfs) (src_inum : ℤ) (src : Inode) (parent_inum : ℤ) (parent : Inode)
    (p : ℕ × ℕ × List Entry)
    → Keeps s t
    → Ensures (Leaves s) (write_link t src_inum src parent_inum parent p)
unfolding write_link
write_link-Keeps s t src_inum src parent_inum parent (index, size, entries) k = sealed-Keeps s _ _ (
    remap-Keeps s _
      (remap-Keeps s _ (logged-Keeps s _ (logged-Keeps s _ (logged-Keeps s t k _) _) _) parent_inum
        _)
      src_inum _)

link_to-Keeps :
    (s t : Lfs) (src_inum : ℤ) (src : Inode) (w : Walked)
    → Keeps s t
    → Ensures (Leaves s) (link_to t src_inum src w)
unfolding link_to
link_to-Keeps s t src_inum src (failed e) k = Ensures-raise Fault.type_error
link_to-Keeps s t src_inum src (found inum name parent_inum parent) k =
    Ensures-if (eq_ℤ inum minus_one) _ _
      (λ _. Ensures-bind_eq (add_dir_entry t parent name src_inum) _ (elim [
        | none ↦ λ _. Ensures-ok k
        | some p ↦ λ _. write_link-Keeps s t src_inum src parent_inum parent p k
      ]))
      (λ _. Ensures-ok k)

link_from-Keeps :
    (s t : Lfs) (dst : Text) (w : Walked) → Keeps s t → Ensures (Leaves s) (link_from t dst w)
unfolding link_from
link_from-Keeps s t dst (failed e) k = Ensures-ok k
link_from-Keeps s t dst (found inum name parent_inum parent) k =
    Ensures-if (eq_ℤ inum minus_one) _ _ (λ _. Ensures-ok k)
      λ _. Ensures-bind_eq (get_inode_from_inumber t inum) _ λ src _.
        Ensures-if (is_directory src) _ _ (λ _. Ensures-ok k)
          λ _. Ensures-bind_eq (walk_path t dst) _ λ w _. link_to-Keeps s t inum src w k

log_data-Keeps : (s t : Lfs) (l : List Text) → Keeps s t → Keeps s (log_data t l)
unfolding log_data
log_data-Keeps s t [] k = k
log_data-Keeps s t (c ∷ l) k = log_data-Keeps s (logged t (data_block c)) l (logged-Keeps s t k _)

write_data-Keeps :
    (s t : Lfs) (inum : ℤ) (inode : Inode) (offset : ℕ) (contents : List Text)
    → Keeps s t
    → Ensures (Leaves s) (write_data t inum inode offset contents)
unfolding write_data
write_data-Keeps s t inum inode offset contents k =
    Ensures-bind (write_chunk _ _) _
      (write_chunk-Keeps s _
        (remap-Keeps s _
          (logged-Keeps s _
            (log_data-Keeps s t (take (min (num_inode_ptrs - offset) (length contents)) contents) k)
            _)
          inum _)
        _)
      λ u ku. Ensures-ok (force-Keeps s u ku)

write_walked-Keeps :
    (s t : Lfs) (offset : ℤ) (contents : List Text) (w : Walked)
    → Keeps s t
    → Ensures (Leaves s) (write_walked t offset contents w)
unfolding write_walked
write_walked-Keeps s t offset contents (failed e) k = Ensures-ok k
write_walked-Keeps s t offset contents (found inum name parent_inum parent) k =
    Ensures-if (eq_ℤ inum minus_one) _ _ (λ _. Ensures-ok k)
      λ _. Ensures-bind_eq (get_inode_from_inumber t inum) _ λ inode _.
        Ensures-if (is_directory inode) _ _ (λ _. Ensures-ok k)
          λ _.
            Ensures-if (ltb_ℤ offset (pos 0) || leb_ℤ (pos num_inode_ptrs) offset) _ _
              (λ _. Ensures-ok k) λ _. write_data-Keeps s t inum inode (pos_part offset) contents k

write_removal-Keeps :
    (s t : Lfs) (inum : ℤ) (inode : Inode) (name : Text) (parent_inum : ℤ) (parent : Inode)
    → Keeps s t
    → Ensures (Leaves s) (write_removal t inum inode name parent_inum parent)
unfolding write_removal
write_removal-Keeps s t inum inode name parent_inum parent k =
    Ensures-bind_eq (find_matching_dir_slot t name parent) _ λ place _.
      Ensures-bind_eq (or_raise Fault.assertion place) _ λ p _.
        Ensures-bind_eq (read_dirblock t parent p.0) _ λ entries _.
          let k₁ = remap-Keeps s _ (logged-Keeps s _ (logged-Keeps s t k _) _) parent_inum _ in
          sealed-Keeps s _ _ (
            if-Keeps s _ k₁ _ (leb_ℤ inode.refs (pos 1))
              (remap-Keeps s _ (logged-Keeps s _ k₁ _) inum _))

delete_walked-Keeps : (s t : Lfs) (w : Walked) → Keeps s t → Ensures (Leaves s) (delete_walked t w)
unfolding delete_walked
delete_walked-Keeps s t (failed e) k = Ensures-ok k
delete_walked-Keeps s t (found inum name parent_inum parent) k =
    Ensures-if (eq_ℤ inum minus_one) _ _ (λ _. Ensures-ok k)
      λ _. Ensures-bind_eq (get_inode_from_inumber t inum) _ λ inode _.
        Ensures-if (is_directory inode) _ _ (λ _. Ensures-ok k)
          λ _.
            Ensures-bind (if eq_ℤ inode.refs (pos 1) then free_inode t inum else ok t) _
              (Ensures-if (eq_ℤ inode.refs (pos 1)) _ _ (λ _. free_inode-Keeps s t k inum)
                (λ _. Ensures-ok k))
              λ u ku. write_removal-Keeps s u inum inode name parent_inum parent ku

execute-Keeps : (s : Lfs) (c : Command) → Ensures (Leaves s) (execute s c)
unfolding execute file_link file_write file_delete
execute-Keeps s (create path) = create-Keeps s true path
execute-Keeps s (mkdir path) = create-Keeps s false path
execute-Keeps s (remove path) =
    Ensures-bind_eq (walk_path (error_clear s) path) _
      λ w _. delete_walked-Keeps s (error_clear s) w (λ a b h. h)
execute-Keeps s (link src dst) =
    Ensures-bind_eq (walk_path (error_clear s) src) _
      λ w _. link_from-Keeps s (error_clear s) dst w (λ a b h. h)
execute-Keeps s (write path offset contents) =
    Ensures-bind_eq (walk_path (error_clear s) path) _
      λ w _. write_walked-Keeps s (error_clear s) offset contents w (λ a b h. h)
execute-Keeps s checkpoint_now = Ensures-ok (cr_sync-Keeps s (error_clear s) (λ a b h. h))

run_from-Keeps : (s t : Lfs) (l : List Command) → Keeps s t → Ensures (Keeps s) (run t l)
unfolding run
run_from-Keeps s t [] k = Ensures-ok k
run_from-Keeps s t (c ∷ l) k =
    Ensures-bind (execute t c) _ (execute-Keeps t c)
      λ r kr. run_from-Keeps s r.1 l (λ a b h. kr a b (k a b h))

-- Whatever the commands, a block that is on the disk behind the checkpoint region stays there
-- unchanged: the log is only ever appended to.
pub run-Keeps : (s t : Lfs) (l : List Command) → run s l ≡ ok t → Keeps s t
run-Keeps s t l h = (run_from-Keeps s s l (λ a b e. e)).at t h
