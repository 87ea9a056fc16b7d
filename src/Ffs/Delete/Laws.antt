-- ===== src/Ffs/Delete/Laws.antt =====
-- HW-FFS/ffs.py, class file_system: what do_delete leaves behind.
use cs334_operating_systems.Prelude.{
  ℕ, suc, ◌/◌, ◌%◌, ◌≡◌, refl, ◌∙◌, ◌≢◌, Option, none, some, List, [], ◌∷◌, get_elem?, set,
  get_elem?-set_ne, key_error, ok, >>=-eq-ok, or_raise, ok-injective, Ensures, Ensures-ok,
  Ensures-if, Ensures-bind, Ensures-bind_eq, nth,
}
use cs334_operating_systems.Prelude.Int.{ℤ, minus_one}
use cs334_operating_systems.Prelude.Text.{Text, lookup}
use cs334_operating_systems.Ffs.State.{Ffs, find, free_symbol, entry, put_entry}
use cs334_operating_systems.Ffs.Delete.{
  get_parent, entry_of, free_blocks, delete_inode, is_dir, delete_found, delete_in, do_delete,
}

-- The state is as before, if the code is -1.
abbrev Unchanged : Ffs → ℤ × Ffs → Type 0
Unchanged s r = r.0 ≡ minus_one → r.1 ≡ s

delete_found-Unchanged :
    (s : Ffs) (path : Text) (parent_inum : ℕ) (filename : Text) (entries : List (Text × ℕ))
    (inum : Option ℕ)
    → Ensures (Unchanged s) (delete_found s path parent_inum filename entries inum)
unfolding delete_found
delete_found-Unchanged s path parent_inum filename entries none = Ensures-ok (λ _. refl)
delete_found-Unchanged s path parent_inum filename entries (some inum) =
    Ensures-bind_eq (or_raise key_error (find inum s.inode_type)) _ λ itype _.
      Ensures-if (is_dir itype) _ _ (λ _. Ensures-ok (λ _. refl))
        (λ _.
          Ensures-bind_eq (delete_inode s path parent_inum filename entries inum) _
            λ t _. Ensures-ok (λ e. absurd (cc e)))

delete_in-Unchanged :
    (s : Ffs) (path filename : Text) (parent_inum : Option ℕ)
    → Ensures (Unchanged s) (delete_in s path filename parent_inum)
unfolding delete_in
delete_in-Unchanged s path filename none = Ensures-ok (λ _. refl)
delete_in-Unchanged s path filename (some p) =
    Ensures-bind_eq (or_raise key_error (find p s.dir_data)) _
      λ entries _. delete_found-Unchanged s path p filename entries (entry_of filename entries)

-- A deletion that returns -1 (no such parent, no such file, or a directory) leaves the file system
-- as it was.
pub do_delete-fails :
    (s : Ffs) (path : Text) {t : Ffs} → do_delete s path ≡ ok (minus_one, t) → t ≡ s
unfolding do_delete
do_delete-fails s path h =
    (delete_in-Unchanged s path (get_parent path).1
        (lookup (get_parent path).0 s.name_to_inode_map)).at
      _ h refl

put_entry-ne :
    (bitmap : List (List (Option ℕ))) (g i h j : ℕ) (v : Option ℕ) {next : List (List (Option ℕ))}
    → put_entry bitmap g i v ≡ ok next
    → g ≢ h
    → entry next h j ≡ entry bitmap h j
unfolding put_entry entry
put_entry-ne bitmap g i h j v {next} e ne =
    let (row, _, rest) = >>=-eq-ok (nth bitmap g) _ e in
    let (old, _, done) = >>=-eq-ok (nth row i) _ rest in
    let same : get_elem? next h ≡ get_elem? bitmap h =
      rw (← ok-injective done) (get_elem?-set_ne bitmap (set row i v) ne) in
    rw same refl

-- the blocks of `l` are freed in other groups than `g`
abbrev Elsewhere : ℕ → List ℕ → ℕ → Type 0
Elsewhere num_groups l g = (k b : ℕ) → get_elem? l k ≡ some b → b / num_groups ≢ g

free_blocks-ne :
    (num_groups g i : ℕ) (l : List ℕ) (bitmap : List (List (Option ℕ)))
    → Elsewhere num_groups l g
    → Ensures (λ next. entry next g i ≡ entry bitmap g i) (free_blocks num_groups l bitmap)
unfolding free_blocks
free_blocks-ne n g i [] bitmap other = Ensures-ok refl
free_blocks-ne n g i (b ∷ l) bitmap other =
    Ensures-bind_eq (put_entry bitmap (b / n) (b % n) none) _ λ next e. record {
      at = λ r h.
          (free_blocks-ne n g i l next (λ k. other (suc k))).at r h
          ∙ put_entry-ne bitmap (b / n) (b % n) g i none e (other 0 b refl);
    }

-- A deletion changes no data bit of a group `g` that is not the quotient by the number of groups of
-- one of the file's blocks, and no inode bit of a group `h` that is not the quotient of the inode's
-- number by the number of groups. So in the group `b / blocks_per_group` of a block `b`, where
-- `do_verify` looks for it, no data bit changes unless one of the blocks has that group as its
-- quotient.
pub delete_inode-ne :
    (s : Ffs) (path filename : Text) (parent_inum inum g i h j : ℕ) (entries : List (Text × ℕ))
    (blocks : List ℕ) {t : Ffs}
    → delete_inode s path parent_inum filename entries inum ≡ ok t
    → find inum s.inode_blocks ≡ some blocks
    → ((k b : ℕ) → get_elem? blocks k ≡ some b → b / s.num_groups ≢ g)
    → inum / s.num_groups ≢ h
    → (entry t.data_bitmap g i ≡ entry s.data_bitmap g i)
      × (entry t.inode_bitmap h j ≡ entry s.inode_bitmap h j)
unfolding delete_inode
delete_inode-ne s path filename parent_inum inum g i h j entries blocks {t} done known other apart =
    left.at t done
  where
    left :
        Ensures
          (λ t.
            (entry t.data_bitmap g i ≡ entry s.data_bitmap g i)
            × (entry t.inode_bitmap h j ≡ entry s.inode_bitmap h j))
          (delete_inode s path parent_inum filename entries inum)
    left = rw known (
        Ensures-bind (free_blocks s.num_groups blocks s.data_bitmap) _
          (free_blocks-ne s.num_groups g i blocks s.data_bitmap other)
          λ bitmap kept.
            Ensures-bind_eq
              (put_entry s.inode_bitmap (inum / s.num_groups) (inum % s.num_groups) none) _
              λ inodes e. Ensures-bind_eq (free_symbol s inum) _ λ u _.
                Ensures-bind_eq (or_raise key_error (lookup path s.name_to_inode_map)) _ λ a _.
                  Ensures-ok (
                    kept,
                    put_entry-ne s.inode_bitmap (inum / s.num_groups) (inum % s.num_groups) h j none
                        e apart,
                  ))
