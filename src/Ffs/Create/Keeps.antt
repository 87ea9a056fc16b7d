-- ===== src/Ffs/Create/Keeps.antt =====
-- HW-FFS/ffs.py, class file_system: the books under a creation.
use cs334_operating_systems.Prelude.{
  ℕ, zero, suc, ◌+◌, ◌*◌, ◌/◌, ◌%◌, ◌<◌, ◌≡◌, refl, sym, ap, ◌∙◌, ◌≢◌, ◌⊎◌, inl, inr, none, some,
  List, [], ◌∷◌, ◌++◌, map, arith, length, get_elem?, value_error, ok, or_raise, Ensures,
  Ensures-ok, Ensures-bind, Ensures-bind_eq,
}
use cs334_operating_systems.Prelude.Int.{pos, ◌-ℤ◌, pos-sub-pos}
use cs334_operating_systems.Prelude.Text.{Text, lookup}
use cs334_operating_systems.Prelude.DivMod.{div_of, mod_of}
use cs334_operating_systems.Ffs.State.{
  IType, Ffs, find, put, without, choose_symbol, allocate_symbol, entry,
}
use cs334_operating_systems.Ffs.Grid.{Grid, free_total, Takes, put_entry-Takes}
use cs334_operating_systems.Ffs.Groups.{before, mark_inode_used}
use cs334_operating_systems.Ffs.Blocks.{Scan}
use cs334_operating_systems.Ffs.Blocks.Places.{Taken}
use cs334_operating_systems.Ffs.Create.{global_number, unmapped, set_name_to_inode, record_file}
use cs334_operating_systems.Ffs.Create.Books.{IsFile, IsSound}

module _ {ℓ} {V : Type ℓ} where
  find-put_self : (k : ℕ) (v : V) (m : List (ℕ × V)) → find k (put k v m) ≡ some v
  unfolding find put
  find-put_self k v [] = ground arith
  find-put_self k v ((j, x) ∷ m) = ground (arith, find-put_self k v m)

  find-put_ne : (k j : ℕ) (v : V) (m : List (ℕ × V)) → k ≢ j → find j (put k v m) ≡ find j m
  unfolding find put
  find-put_ne k j v [] h = ground arith
  find-put_ne k j v ((i, x) ∷ m) h = ground (arith, find-put_ne k j v m h)

-- symbols are all that `allocate_symbol` changes
pub allocate_symbol-ok :
    (s : Ffs) (inum : ℕ) (name : Text)
    → Ensures
        (λ t.
          (map_of : List (ℕ × Text)) × (used_of left : List Text) × (t
            ≡ record s { symbol_map = map_of; used_symbols = used_of; available_symbols = left }))
        (allocate_symbol s inum name)
unfolding allocate_symbol
allocate_symbol-ok s inum name =
    Ensures-bind_eq (choose_symbol s.used_symbols s.available_symbols name) _ λ choice _.
      Ensures-bind_eq (or_raise value_error (without choice s.available_symbols)) _
        λ left _. Ensures-ok (_, _, _, refl)

set_name_to_inode-ok :
    (s : Ffs) (path : Text) (inum : ℕ)
    → Ensures (λ l. l ≡ s.name_to_inode_map ++ (path, inum) ∷ []) (set_name_to_inode s path inum)
unfolding set_name_to_inode
set_name_to_inode-ok s path inum =
    Ensures-bind_eq (unmapped (lookup path s.name_to_inode_map)) _ λ _ _. Ensures-ok refl

get-concat :
    (l : List (Text × ℕ)) (p r : Text × ℕ) (q : ℕ)
    → get_elem? (l ++ p ∷ []) q ≡ some r
    → (get_elem? l q ≡ some r) ⊎ (p ≡ r)
get-concat [] p r zero h = inr (ground arith)
get-concat [] p r (suc q) h = cc
get-concat (x ∷ l) p r zero h = inl h
get-concat (x ∷ l) p r (suc q) h = get-concat l p r q h

-- two places with one number are one place
same_number : (g i h j v : ℕ) → i < v → j < v → i + g * v ≡ j + h * v → (g ≡ h) × (i ≡ j)
same_number g i h j v hi hj e =
    let turned : g * v + i ≡ h * v + j = omega (arith, e) in
    (
      sym (div_of g v i hi) ∙ ap (λ x. x / v) turned ∙ div_of h v j hj,
      sym (mod_of g v i hi) ∙ ap (λ x. x % v) turned ∙ mod_of h v j hj,
    )

get-map_inv :
    (f : ℕ × ℕ → ℕ) (l : List (ℕ × ℕ)) (q b : ℕ)
    → get_elem? (map f l) q ≡ some b
    → (p : ℕ × ℕ) × (get_elem? l q ≡ some p) × (f p ≡ b)
get-map_inv f [] q b h = cc
get-map_inv f (x ∷ l) zero b h = (x, refl, ground arith)
get-map_inv f (x ∷ l) (suc q) b h = get-map_inv f l q b h

module _ (s : Ffs) (sound : IsSound s) (size group index : ℕ) (group_inside : group < s.num_groups)
    (index_inside : index < s.inodes_per_group) (free : entry s.inode_bitmap group index ≡ ok none)
    (scan : Scan)
    (taken : Taken s.num_groups s.blocks_per_group s.data_bitmap
      (index + group * s.inodes_per_group)
      scan.bitmap
      scan.allocated)
    (all_taken : length scan.allocated ≡ size) (inodes : Grid)
    (takes : Takes s.inode_bitmap group index (index + group * s.inodes_per_group) inodes) where
  abbrev inum : ℕ
  inum = index + group * s.inodes_per_group

  abbrev blocks_of : List (ℕ × List ℕ)
  blocks_of = put inum (map (global_number s) scan.allocated) s.inode_blocks

  new-IsFile :
      IsFile s.num_groups s.blocks_per_group s.inodes_per_group scan.bitmap inodes blocks_of inum
  new-IsFile = record {
    group = group;
    index = index;
    number = refl;
    group_inside = group_inside;
    index_inside = index_inside;
    in_use = takes.written;
    list = map (global_number s) scan.allocated;
    listed = find-put_self inum (map (global_number s) scan.allocated) s.inode_blocks;
    marked = λ q b h.
        let ((g, i), at, e) = get-map_inv (global_number s) scan.allocated q b h in
        let (_, hi, there) = taken.marked q g i at in
        let turned : b ≡ g * s.blocks_per_group + i = omega (arith, e) in
        let quotient : b / s.blocks_per_group ≡ g =
          ap (λ x. x / s.blocks_per_group) turned ∙ div_of g s.blocks_per_group i hi in
        let remainder : b % s.blocks_per_group ≡ i =
          ap (λ x. x % s.blocks_per_group) turned ∙ mod_of g s.blocks_per_group i hi in
        rw (quotient, remainder) there;
  }

  old-IsFile :
      (old : ℕ)
      → IsFile s.num_groups s.blocks_per_group s.inodes_per_group s.data_bitmap s.inode_bitmap
          s.inode_blocks old
      → IsFile s.num_groups s.blocks_per_group s.inodes_per_group scan.bitmap inodes blocks_of old
  old-IsFile old f = record {
    group = f.group;
    index = f.index;
    number = f.number;
    group_inside = f.group_inside;
    index_inside = f.index_inside;
    in_use = takes.kept f.group f.index old f.in_use;
    list = f.list;
    listed = find-put_ne inum old _ s.inode_blocks other ∙ f.listed;
    marked =
        λ q b h. taken.kept (b / s.blocks_per_group) (b % s.blocks_per_group) old (f.marked q b h);
  }
    where
      other : inum ≢ old
      other e =
          let (g, i) =
            same_number group index f.group f.index s.inodes_per_group index_inside f.index_inside
              (e ∙ f.number) in
          let there : entry s.inode_bitmap group index ≡ ok (some old) = rw (g, i) f.in_use in
          absurd (ground (arith, free, there))

  named_in :
      (path : Text) (q old : ℕ) (name : Text)
      → get_elem? (s.name_to_inode_map ++ (path, inum) ∷ []) q ≡ some (name, old)
      → IsFile s.num_groups s.blocks_per_group s.inodes_per_group scan.bitmap inodes blocks_of old
  named_in path q old name h = elim (get-concat s.name_to_inode_map (path, inum) (name, old) q h) [
    | inl before ↦ old-IsFile old (sound.named q old name before)
    | inr last ↦ rw (← (let same : inum ≡ old = ap (λ p. p.1) last in same)) new-IsFile
  ]

  inodes_left : s.total_inodes_free -ℤ pos 1 ≡ pos (free_total inodes)
  inodes_left =
      ap (λ x. x -ℤ pos 1) sound.inodes_total
      ∙ pos-sub-pos (free_total s.inode_bitmap) 1 (omega (arith, takes.counted))
      ∙ ap pos (omega (arith, takes.counted))

  blocks_left : s.total_data_free -ℤ pos size ≡ pos (free_total scan.bitmap)
  blocks_left =
      ap (λ x. x -ℤ pos size) sound.blocks_total
      ∙ pos-sub-pos (free_total s.data_bitmap) size (omega (arith, taken.counted, all_taken))
      ∙ ap pos (omega (arith, taken.counted, all_taken))

-- Sound books, with the options for which a creation always finds its places.
pub record IsReady (s : Ffs) : Type 0 where
  pub sound : IsSound s
  pub chunks : 0 < s.contig_allocation_policy
  pub one_by_one : s.allocate_faraway ≡ 1

-- Recording the file after its inode and its blocks have been found.
pub record_file-IsReady :
    (s : Ffs) (path : Text) (parent_inum : ℕ) (filename : Text) (entries : List (Text × ℕ))
    (size : ℕ) (itype : IType) (group index : ℕ) (scan : Scan)
    → IsReady s
    → group < s.num_groups
    → index < s.inodes_per_group
    → entry s.inode_bitmap group index ≡ ok none
    → Taken s.num_groups s.blocks_per_group s.data_bitmap
        (index + group * s.inodes_per_group)
        scan.bitmap
        scan.allocated
    → length scan.allocated ≡ size
    → Ensures IsReady (record_file s path parent_inum filename entries size itype group index scan)
unfolding record_file mark_inode_used
record_file-IsReady s path p filename entries size itype group index scan ready hg hi free taken
      len =
    let sound = ready.sound in
    let inum = index + group * s.inodes_per_group in
    let (inodes, written, takes) = put_entry-Takes s.inode_bitmap group index inum free in
    rw written (
      Ensures-bind (set_name_to_inode s path inum) _ (set_name_to_inode-ok s path inum) λ names ne.
        Ensures-bind (allocate_symbol (record s { inode_bitmap = inodes }) inum filename) _
          (allocate_symbol-ok (record s { inode_bitmap = inodes }) inum filename)
          λ u (m, used_of, left, e). Ensures-ok (
            rw (e, ne)
              (record {
                chunks = ready.chunks;
                one_by_one = ready.one_by_one;
                sound = record {
                  blocks_shaped = taken.shaped;
                  inodes_shaped = takes.shaped s.num_groups s.inodes_per_group sound.inodes_shaped;
                  blocks_total =
                      blocks_left s sound size group index hg hi free scan taken len inodes takes;
                  inodes_total =
                      inodes_left s sound size group index hg hi free scan taken len inodes takes;
                  named =
                      named_in s sound size group index hg hi free scan taken len inodes takes path;
                };
              })))
