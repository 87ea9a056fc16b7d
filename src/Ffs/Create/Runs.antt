-- ===== src/Ffs/Create/Runs.antt =====
-- HW-FFS/ffs.py, class file_system: runs of creations, with and without do_verify.
use cs334_operating_systems.Prelude.{
  ℕ, suc, ◌+◌, ◌*◌, ◌/◌, ◌≤◌, ◌<◌, ◌≡◌, refl, ap, ◌∙◌, inl, inr, ◌||◌, Option, none, some, List, [],
  ◌∷◌, arith, Bool-cases, length, get_elem?, key_error, Result, ok, ◌>>=◌, or_raise, Result-cases,
  Ensures, Ensures-ok, Ensures-raise, Ensures-if, Ensures-bind, Ensures-bind_eq,
}
use cs334_operating_systems.Prelude.Int.{pos, ltb_ℤ, eq_ℤ}
use cs334_operating_systems.Prelude.Text.{Text, text_eq, lookup}
use cs334_operating_systems.Prelude.DivMod.{div_of}
use cs334_operating_systems.Ffs.State.{IType, regular, directory, Ffs, find}
use cs334_operating_systems.Ffs.Grid.{free_total}
use cs334_operating_systems.Ffs.Groups.{pick_group, find_min_data_usage}
use cs334_operating_systems.Ffs.Groups.Pick.{
  find_free_inode_lem, pick_group-HasFree, find_min_data_usage_lem,
}
use cs334_operating_systems.Ffs.Delete.{get_parent, entry_of}
use cs334_operating_systems.Ffs.Blocks.{Scan, allocate_blocks}
use cs334_operating_systems.Ffs.Blocks.Places.{Taken}
use cs334_operating_systems.Ffs.Blocks.Ends.{allocate_blocks_lem}
use cs334_operating_systems.Ffs.Create.{
  Created, failed, made, no_inode, endless, record_file, blocks_for, create_at, create_new,
  create_in, do_create, Command, file, dir, delete, go_on, execute, run,
}
use cs334_operating_systems.Ffs.Create.Books.{do_verify_lem}
use cs334_operating_systems.Ffs.Create.Keeps.{IsReady, record_file-IsReady}

-- the creation has ended, and the books are sound
abbrev pub IsOver : Created → Type 0
IsOver failed = Unit
IsOver (made t) = IsReady t
IsOver (no_inode g) = ⊥
IsOver endless = ⊥

get_of-lookup :
    (k : Text) (m : List (Text × ℕ)) (v : ℕ)
    → lookup k m ≡ some v
    → (q : ℕ) × (j : Text) × (get_elem? m q ≡ some (j, v))
unfolding lookup
get_of-lookup k [] v h = cc
get_of-lookup k ((j, x) ∷ m) v h = elim (Bool-cases (text_eq j k)) [
  | inl t ↦ (0, j, ground arith)
  | inr f ↦ let (q, i, e) = get_of-lookup k m v (ground arith) in (suc q, i, e)
]

module _ (s : Ffs) (ready : IsReady s) (path : Text) (filename : Text) (size : ℕ) (itype : IType)
    (pos_size : 0 < size) (enough : size ≤ free_total s.data_bitmap)
    (some_inode : 0 < free_total s.inode_bitmap) where
  -- the blocks are found, whatever the group
  blocks_for_lem :
      (group inum : ℕ)
      → group < s.num_groups
      → Ensures
          (λ r.
            (d : Scan) × (r ≡ some d)
            × (length d.allocated ≡ size)
            × Taken s.num_groups s.blocks_per_group s.data_bitmap inum d.bitmap d.allocated)
          (blocks_for s group size inum)
  unfolding blocks_for
  blocks_for_lem group inum inside =
      Ensures-if s.spread_data_blocks _ _
        (λ _.
          Ensures-bind (find_min_data_usage s) _
            (find_min_data_usage_lem s s.blocks_per_group ready.sound.blocks_shaped
              (omega (arith, enough)))
            λ r (g, e, hg). rw e (allocated g hg))
        (λ _. allocated group inside)
    where
      allocated :
          (g : ℕ)
          → g < s.num_groups
          → Ensures
              (λ r.
                (d : Scan) × (r ≡ some d)
                × (length d.allocated ≡ size)
                × Taken s.num_groups s.blocks_per_group s.data_bitmap inum d.bitmap d.allocated)
              (allocate_blocks s g size inum)
      allocated g hg =
          let (d, run, len, taken) =
            allocate_blocks_lem s g size inum ready.sound.blocks_shaped ready.sound.blocks_total hg
              ready.chunks pos_size enough in
          rw run (Ensures-ok (d, refl, len, taken))

  create_new-IsOver :
      (parent_inum : ℕ) (entries : List (Text × ℕ)) (there : Option ℕ)
      → parent_inum / s.inodes_per_group < s.num_groups
      → Ensures IsOver (create_new s path parent_inum filename entries size itype there)
  unfolding create_new create_at
  create_new-IsOver p entries (some taken) inside = Ensures-ok tt
  create_new-IsOver p entries none inside =
      Ensures-bind (pick_group s p itype) _
        (pick_group-HasFree s s.inodes_per_group ready.sound.inodes_shaped p itype ready.one_by_one
          inside some_inode)
        λ g (hg, free).
          let (i, found, hi, at) =
            find_free_inode_lem s s.inodes_per_group g ready.sound.inodes_shaped free in
          rw found (
            Ensures-bind (blocks_for s g size (i + g * s.inodes_per_group)) _
              (blocks_for_lem g (i + g * s.inodes_per_group) hg)
              λ r (d, e, len, taken). rw e (
                Ensures-bind (record_file s path p filename entries size itype g i d) _
                  (record_file-IsReady s path p filename entries size itype g i d ready hg hi at
                    taken len)
                  λ t done. Ensures-ok done))

  create_in-IsOver :
      (parent : Option ℕ)
      → ((p : ℕ) → parent ≡ some p → p / s.inodes_per_group < s.num_groups)
      → Ensures IsOver (create_in s path filename size itype parent)
  unfolding create_in
  create_in-IsOver none inside = Ensures-ok tt
  create_in-IsOver (some p) inside =
      Ensures-bind_eq (or_raise key_error (find p s.dir_data)) _
        λ entries _. create_new-IsOver p entries (entry_of filename entries) (inside p refl)

-- With sound books, `allocate_faraway` at 1 and `contig_allocation_policy` above 0, a creation of at
-- least one block that no exception ends returns -1 or makes the file: it never stops for want of an
-- inode or of blocks. If it makes the file, the books are sound again and the options still so.
pub do_create-IsOver :
    (s : Ffs) (path : Text) (size : ℕ) (itype : IType) {c : Created}
    → IsReady s
    → 0 < size
    → do_create s path size itype ≡ ok c
    → IsOver c
unfolding do_create
do_create-IsOver s path size itype {c} ready pos_size h = over.at c h
  where
    parent_inside :
        (p : ℕ)
        → lookup (get_parent path).0 s.name_to_inode_map ≡ some p
        → p / s.inodes_per_group < s.num_groups
    parent_inside p e =
        let (q, j, at) = get_of-lookup (get_parent path).0 s.name_to_inode_map p e in
        let f = ready.sound.named q p j at in
        let turned : p ≡ f.group * s.inodes_per_group + f.index = omega (arith, f.number) in
        let quotient : p / s.inodes_per_group ≡ f.group =
          ap (λ x. x / s.inodes_per_group) turned
          ∙ div_of f.group s.inodes_per_group f.index f.index_inside in
        omega (arith, quotient, f.group_inside)

    over : Ensures IsOver (do_create s path size itype)
    over =
        Ensures-if (eq_ℤ s.total_inodes_free (pos 0) || ltb_ℤ s.total_data_free (pos size)) _ _
          (λ _. Ensures-ok tt)
          (λ room.
            create_in-IsOver s ready path (get_parent path).1 size itype pos_size
              (ground (arith, room, ready.sound.blocks_total))
              (ground (arith, room, ready.sound.inodes_total))
              (lookup (get_parent path).0 s.name_to_inode_map) parent_inside)

-- the commands that create, each with at least one block
abbrev pub IsCreation : Command → Type 0
IsCreation (file path size) = 0 < size
IsCreation (dir path) = Unit
IsCreation (delete path) = ⊥

abbrev pub AllCreations : List Command → Type 0
AllCreations [] = Unit
AllCreations (c ∷ l) = IsCreation c × AllCreations l

abbrev IsMade : Created → Type 0
IsMade c = (t : Ffs) × (c ≡ made t) × IsReady t

go_on-IsMade : (s : Ffs) (c : Created) → IsReady s → IsOver c → IsMade (go_on s c)
go_on-IsMade s failed ready over = (s, refl, ready)
go_on-IsMade s (made t) ready over = (t, refl, over)
go_on-IsMade s (no_inode g) ready over = elim over [ ]
go_on-IsMade s endless ready over = elim over [ ]

execute-IsMade : (s : Ffs) (c : Command) → IsReady s → IsCreation c → Ensures IsMade (execute s c)
unfolding execute
execute-IsMade s (file path size) ready h =
    Ensures-bind_eq (do_create s path size regular) _
      λ c e. Ensures-ok (go_on-IsMade s c ready (do_create-IsOver s path size regular ready h e))
execute-IsMade s (dir path) ready h = Ensures-bind_eq (do_create s path 1 directory) _ λ c e.
    Ensures-ok (go_on-IsMade s c ready (do_create-IsOver s path 1 directory ready (omega arith) e))
execute-IsMade s (delete path) ready h = elim h [ ]

-- the loop of `read_input` without `do_verify`
unfoldable pub run_unchecked : Ffs → List Command → Result Created
unfolding execute
run_unchecked s [] = ok (made s)
run_unchecked s (c ∷ l) = do
  r ← execute s c
  elim r [
    | made t ↦ run_unchecked t l
    | failed ↦ ok failed
    | no_inode g ↦ ok (no_inode g)
    | endless ↦ ok endless
  ]

-- From a state with sound books, `allocate_faraway` at 1 and `contig_allocation_policy` above 0, in a
-- run of creations of at least one block each, `do_verify` never fails: the run is the same without
-- it. An exception of a command may end the run; if none does, every command has ended and the books
-- are sound.
pub run-run_unchecked :
    (s : Ffs) (l : List Command)
    → IsReady s
    → AllCreations l
    → (run s l ≡ run_unchecked s l) × Ensures (λ c. (t : Ffs) × (c ≡ made t) × IsReady t) (run s l)
unfolding run run_unchecked
run-run_unchecked s [] ready h = (refl, Ensures-ok (s, refl, ready))
run-run_unchecked s (c ∷ l) ready (h, hs) = elim (Result-cases (execute s c)) [
  | inr (f, e) ↦ rw e (refl, Ensures-raise f)
  | inl (r, e) ↦
      let (t, made_t, ready_t) = (execute-IsMade s c ready h).at r e in
      rw (e, made_t, do_verify_lem t ready_t.sound) (run-run_unchecked t l ready_t hs)
]
