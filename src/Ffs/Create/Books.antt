-- ===== src/Ffs/Create/Books.antt =====
-- HW-FFS/ffs.py, class file_system: the books that do_verify checks: the counts of free blocks
-- and inodes, and for every name its inode and blocks.
use cs334_operating_systems.Prelude.{
  ℕ, suc, ◌+◌, ◌-◌, ◌*◌, ◌/◌, ◌%◌, ◌<◌, ◌≡◌, refl, ap, ◌∙◌, true, Option, none, some, List, [], ◌∷◌,
  arith, ◌==◌, length, get_elem?, ok,
}
use cs334_operating_systems.Prelude.Int.{ℤ, pos, ◌+ℤ◌, eq_ℤ, pos-add-pos}
use cs334_operating_systems.Prelude.Text.{Text}
use cs334_operating_systems.Ffs.State.{
  Ffs, find, entry, get_free_count, used_in, used, verify_blocks, verify_names, do_verify,
}
use cs334_operating_systems.Ffs.Grid.{Grid, IsShaped, free_total}

-- block `b` is marked as one of inode `inum`
abbrev pub IsBlockOf : ℕ → Grid → ℕ → ℕ → Type 0
IsBlockOf w blocks inum b = entry blocks (b / w) (b % w) ≡ ok (some inum)

abbrev pub AllBlocksOf : ℕ → Grid → ℕ → List ℕ → Type 0
AllBlocksOf w blocks inum l = (q b : ℕ) → get_elem? l q ≡ some b → IsBlockOf w blocks inum b

-- the inode `inum` is in use, and its blocks are marked
pub record IsFile (n w v : ℕ) (blocks inodes : Grid) (blocks_of : List (ℕ × List ℕ)) (inum : ℕ)
    : Type 0 where
  pub group : ℕ
  pub index : ℕ
  pub number : inum ≡ index + group * v
  pub group_inside : group < n
  pub index_inside : index < v
  pub in_use : entry inodes group index ≡ ok (some inum)
  pub list : List ℕ
  pub listed : find inum blocks_of ≡ some list
  pub marked : AllBlocksOf w blocks inum list

pub record IsSound (s : Ffs) : Type 0 where
  pub blocks_shaped : IsShaped s.num_groups s.blocks_per_group s.data_bitmap
  pub inodes_shaped : IsShaped s.num_groups s.inodes_per_group s.inode_bitmap
  pub blocks_total : s.total_data_free ≡ pos (free_total s.data_bitmap)
  pub inodes_total : s.total_inodes_free ≡ pos (free_total s.inode_bitmap)
  pub named :
      (q inum : ℕ) (path : Text)
      → get_elem? s.name_to_inode_map q ≡ some (path, inum)
      → IsFile s.num_groups s.blocks_per_group s.inodes_per_group s.data_bitmap s.inode_bitmap
          s.inode_blocks inum

row_split : (row : List (Option ℕ)) → used_in row + get_free_count row ≡ length row
unfolding used_in get_free_count
row_split [] = omega arith
row_split (none ∷ l) = omega (arith, row_split l)
row_split (some x ∷ l) = omega (arith, row_split l)

-- the places in use and the free ones make up the bitmap
used-free_total : (n w : ℕ) (b : Grid) → IsShaped n w b → used b + free_total b ≡ n * w
unfolding used free_total
used-free_total n w [] s = let e : n ≡ 0 = omega (arith, s.rows) in rw e (omega arith)
used-free_total n w (row ∷ l) s =
    let below : IsShaped (n - 1) w l = record {
      rows = omega (arith, s.rows);
      wide = λ g r h. s.wide (suc g) r h;
    } in
    let (m, e) : (m : ℕ) × (n ≡ m + 1) = (n - 1, omega (arith, s.rows)) in
    let less : n - 1 ≡ m = omega (arith, e) in
    let product : n * w ≡ m * w + w = rw e (grind arith) in
    let rest : used l + free_total l ≡ m * w =
      used-free_total (n - 1) w l below ∙ ap (λ x. x * w) less in
    omega (arith, rest, product, row_split row, s.wide 0 row refl)

module _ (s : Ffs) (sound : IsSound s) where
  verify_blocks_lem :
      (inum : ℕ) (l : List ℕ)
      → AllBlocksOf s.blocks_per_group s.data_bitmap inum l
      → verify_blocks s inum l ≡ ok tt
  unfolding verify_blocks
  verify_blocks_lem inum [] h = refl
  verify_blocks_lem inum (b ∷ l) h =
      let same : (inum == inum) ≡ true = ground arith in
      rw (h 0 b refl, same) (verify_blocks_lem inum l (λ q. h (suc q)))

  verify_names_lem :
      (names : List (Text × ℕ))
      → ((q inum : ℕ) (path : Text)
          → get_elem? names q ≡ some (path, inum)
          → IsFile s.num_groups s.blocks_per_group s.inodes_per_group s.data_bitmap s.inode_bitmap
              s.inode_blocks inum)
      → verify_names s names ≡ ok tt
  unfolding verify_names
  verify_names_lem [] h = refl
  verify_names_lem ((path, inum) ∷ l) h =
      let f = h 0 inum path refl in
      rw (f.listed, verify_blocks_lem inum f.list f.marked) (verify_names_lem l (λ q. h (suc q)))

  -- sound books pass `do_verify`
  pub do_verify_lem : do_verify s ≡ ok tt
  unfolding do_verify
  do_verify_lem =
      let blocks =
        balance s.num_groups s.blocks_per_group s.data_bitmap s.total_data_free sound.blocks_shaped
          sound.blocks_total in
      let inodes =
        balance s.num_groups s.inodes_per_group s.inode_bitmap s.total_inodes_free
          sound.inodes_shaped sound.inodes_total in
      rw (blocks, inodes) (verify_names_lem s.name_to_inode_map sound.named)
    where
      balance :
          (n w : ℕ) (b : Grid) (total : ℤ)
          → IsShaped n w b
          → total ≡ pos (free_total b)
          → eq_ℤ (pos (used b) +ℤ total) (pos (n * w)) ≡ true
      balance n w b total shaped e =
          let sum : pos (used b) +ℤ total ≡ pos (n * w) =
            ap (λ x. pos (used b) +ℤ x) e
            ∙ pos-add-pos (used b) (free_total b)
            ∙ ap pos (used-free_total n w b shaped) in
          rw sum (ground arith)
