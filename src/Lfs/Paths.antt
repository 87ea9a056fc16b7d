-- ===== src/Lfs/Paths.antt =====
-- HW-LFS/lfs.py: how a path that goes wrong ends.
use cs334_operating_systems.Prelude.{
  ◌≡◌, refl, ◌≢◌, Bool, true, not, List, [], ◌∷◌, arith, ok, check, Ensures, Ensures-ok, Ensures-if,
  Ensures-bind, Ensures-bind_eq,
}
use cs334_operating_systems.Prelude.Int.{ℤ, eq_ℤ, minus_one}
use cs334_operating_systems.Prelude.Text.{Text, split}
use cs334_operating_systems.Lfs.State.{not_a_dir, Lfs, root_inode}
use cs334_operating_systems.Lfs.Lookup.{
  get_inode_from_inumber, is_directory, lookup_blocks, lookup_in, failed, walk, walk_pieces,
  walk_path,
}

-- what `__lookup` returns beside the entry is the inode of a directory
lookup_in-is_directory :
    (s : Lfs) (parent : ℤ) (name : Text)
    → Ensures (λ r. is_directory r.1 ≡ true) (lookup_in s parent name)
unfolding lookup_in
lookup_in-is_directory s parent name = Ensures-bind_eq (get_inode_from_inumber s parent) _ λ i _.
    Ensures-bind_eq (check (is_directory i)) _ λ _ c.
      Ensures-bind_eq (lookup_blocks s name i.pointers) _
        λ inum _. Ensures-ok (checked (is_directory i) c)
  where
    checked : (b : Bool) {u : Unit {0}} → check b ≡ ok u → b ≡ true
    checked b h = ground arith

walk-ne :
    (s : Lfs) (parent : ℤ) (name : Text) (l : List Text)
    → Ensures (λ w. w ≢ failed not_a_dir) (walk s parent name l)
unfolding walk
walk-ne s parent name [] =
    Ensures-bind_eq (lookup_in s parent name) _ λ r _. Ensures-ok (λ e. ground (arith, e))
walk-ne s parent name (next ∷ l) =
    Ensures-bind (lookup_in s parent name) _ (lookup_in-is_directory s parent name) λ r d.
      Ensures-if (eq_ℤ r.0 minus_one) _ _ (λ _. Ensures-ok (λ e. ground (arith, e)))
        λ _.
          Ensures-if (not (is_directory r.1)) _ _ (λ t. absurd (ground (arith, d, t)))
            (λ _. walk-ne s r.0 next l)

-- The error "invalid element of path (not a dir)" is never logged: `__walk_path` tests the inode of
-- the directory that it searched, which `__lookup` has already asserted to be a directory.
pub walk_path-ne-not_a_dir : (s : Lfs) (path : Text) → walk_path s path ≢ ok (failed not_a_dir)
unfolding walk_path
walk_path-ne-not_a_dir s path h = (pieces (split b'/' path)).at _ h refl
  where
    pieces : (l : List Text) → Ensures (λ w. w ≢ failed not_a_dir) (walk_pieces s l)
    pieces [] = Ensures-ok (λ e. ground (arith, e))
    pieces ([] ∷ []) = walk-ne s root_inode [] []
    pieces ([] ∷ name ∷ l) = walk-ne s root_inode name l
    pieces ((c ∷ w) ∷ l) = Ensures-ok (λ e. ground (arith, e))
