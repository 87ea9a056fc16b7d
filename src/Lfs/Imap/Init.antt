-- ===== src/Lfs/Imap/Init.antt =====
-- HW-LFS/lfs.py, class LFS: __init__, a run from it, and get_inode_from_inumber by the disk.
use native.Mathlib.Decide.{ℕ_discrete}
use cs334_operating_systems.Prelude.{
  ℕ, zero, suc, ◌+◌, ◌/◌, ◌%◌, ◌<◌, ◌≡◌, refl, sym, ap, ◌∙◌, ◌≢◌, inl, inr, Bool, true, false, not,
  some, List, [], ◌∷◌, arith, get_elem?, replicate, length-replicate, Result, ok, ◌>>=◌, check,
  ◌>>◌, Ensures, Ensures-ok, item_at, lt-length_of_get, item_at-get,
}
use cs334_operating_systems.Prelude.Int.{ℤ, pos, eq_ℤ, minus_one}
use cs334_operating_systems.Lfs.State.{
  Block, checkpoint, imap, Lfs, log, remap, map_entries, seen, init,
}
use cs334_operating_systems.Lfs.Lookup.{as_inode, inode_address, get_inode_from_inumber}
use cs334_operating_systems.Lfs.Ops.{Command, run}
use cs334_operating_systems.Lfs.Imap.Chunks.{OnDisk, stored, no_chunk, GoodIn, map_entries-get}
use cs334_operating_systems.Lfs.Imap.Sealed.{Tight}
use cs334_operating_systems.Lfs.Imap.Runs.{no_links, run-Tight}
use cs334_operating_systems.Prelude.DivMod.{mod-lt_pos}

get-replicate {ℓ} : {A : Type ℓ} (n i : ℕ) (v : A) → i < n → get_elem? (replicate n v) i ≡ some v
get-replicate zero i v h = absurd (omega arith)
get-replicate (suc n) zero v h = refl
get-replicate (suc n) (suc i) v h = get-replicate n i v (omega arith)

replicate-get {ℓ} :
    {A : Type ℓ} (n i : ℕ) (v a : A) → get_elem? (replicate n v) i ≡ some a → (i < n) × (a ≡ v)
replicate-get n i v a h =
    let less : i < n =
      omega (arith, length-replicate n v, lt-length_of_get (replicate n v) i a h) in
    (less, (let at = get-replicate n i v less in cc))

-- the other chunks are on no block, and their inodes are free
other_chunk :
    (disk : List Block) (root a : ℤ) (i c : ℕ)
    → i / 16 ≡ c
    → c ≢ 0
    → get_elem? (root ∷ replicate 255 minus_one) i ≡ some a
    → OnDisk disk (pos 3 ∷ replicate 15 minus_one) i a
other_chunk disk root a i zero at ne h = absurd (ne refl)
other_chunk disk root a zero (suc c) at ne h = absurd (omega (arith, at))
other_chunk disk root a (suc i) (suc c) at ne h =
    let (less, free) = replicate-get 255 i minus_one a h in
    no_chunk
      (ap (get_elem? (pos 3 ∷ replicate 15 minus_one)) at
        ∙ get-replicate 15 c minus_one (omega (arith, at, less)))
      free

-- only the root has an address, and only the first chunk is on the disk
first_chunk-Good :
    (disk : List Block) (es : List ℤ) (root : ℤ)
    → get_elem? disk 3 ≡ some (imap es)
    → ((i : ℕ) → i / 16 ≡ 0 → get_elem? es (i % 16) ≡ get_elem? (root ∷ replicate 255 minus_one) i)
    → (i : ℕ) → GoodIn disk (pos 3 ∷ replicate 15 minus_one) (root ∷ replicate 255 minus_one) i
first_chunk-Good disk es root block part i = elim (ℕ_discrete (i / 16) 0) [
  | yes e ↦ record {
    good =
        λ a h. stored 2 es (ap (get_elem? (pos 3 ∷ replicate 15 minus_one)) e) block (part i e ∙ h);
  }
  | no ne ↦ record { good = λ a h. other_chunk disk root a i (i / 16) refl ne h }
]

abbrev start_map : List ℤ
start_map = pos 2 ∷ replicate 255 minus_one

-- the entries of the chunk are the first of the map
first_part :
    (i : ℕ)
    → i / 16 ≡ 0
    → get_elem? (pos 2 ∷ replicate 15 minus_one) (i % 16) ≡ get_elem? start_map i
unfolding map_entries
first_part i at =
    let start : Lfs = record {
      use_disk_cr = false;
      no_force_checkpoints = false;
      disk = [];
      cr = [];
      inode_map = start_map;
      error_list = [];
    } in
    map_entries-get start 0 16 (pos 2 ∷ replicate 15 minus_one) (unfold map_entries in refl)
      (i % 16) (mod-lt_pos i 16 (omega arith))
    ∙ ap (get_elem? start_map) (let j : 0 + i % 16 ≡ i = omega (arith, at) in j)

pub init-Tight : (uc nf : Bool) → Ensures Tight (init uc nf)
unfolding init log remap
init-Tight uc nf = Ensures-ok (
  record {
    some_blocks = omega arith;
    on_disk =
        λ i. inl (first_chunk-Good _ (pos 2 ∷ replicate 15 minus_one) (pos 2) refl first_part i);
  },
  λ _. refl,
)

-- the disk names what the map names
module _ (s : Lfs) (i : ℕ) (a : ℤ) where
  from_disk :
      (k : ℕ) (entries : List ℤ)
      → get_elem? s.disk 0 ≡ some (checkpoint s.cr)
      → get_elem? s.cr (i / 16) ≡ some (pos (suc k))
      → get_elem? s.disk (suc k) ≡ some (imap entries)
      → get_elem? entries (i % 16) ≡ some a
      → inode_address (record s { use_disk_cr = true }) (pos i) ≡ ok a
  unfolding inode_address
  from_disk k entries c at block e =
      simp (item_at-get s.disk 0 c, item_at-get s.cr (i / 16) at, item_at-get s.disk (suc k) block)
        (item_at-get entries (i % 16) e)

  from_map :
      get_elem? s.inode_map i ≡ some a
      → inode_address (record s { use_disk_cr = false }) (pos i) ≡ ok a
  unfolding inode_address
  from_map h = rw h refl

  disk-map :
      Tight s
      → s.no_force_checkpoints ≡ false
      → get_elem? s.inode_map i ≡ some a
      → a ≢ minus_one
      → inode_address (record s { use_disk_cr = true }) (pos i) ≡ ok a
  unfolding seen
  disk-map (behind, synced) forced h ne = elim (behind.on_disk i) [
    | inl g ↦ elim (g.good a h) [
      | stored k entries at block e ↦ from_disk k entries (synced forced) at block e
      | no_chunk at e ↦ absurd (ne e)
    ]
    | inr l ↦ absurd (cc)
  ]

-- Whatever the commands are, links aside: if checkpoints are forced in the state at the end of a run of the
-- new file system, then an inode that the map in memory has an address for is read as the same inode by the
-- checkpoint region and the imap chunks on the disk.
pub run-disk_map :
    (uc nf : Bool) (l : List Command) (s t : Lfs) (i : ℕ) (a : ℤ)
    → init uc nf ≡ ok s
    → no_links l ≡ true
    → run s l ≡ ok t
    → t.no_force_checkpoints ≡ false
    → get_elem? t.inode_map i ≡ some a
    → a ≢ minus_one
    → get_inode_from_inumber (record t { use_disk_cr = true }) (pos i)
      ≡ get_inode_from_inumber (record t { use_disk_cr = false }) (pos i)
unfolding get_inode_from_inumber
run-disk_map uc nf l s t i a made plain ran forced h ne =
    let tight = (run-Tight s l plain ((init-Tight uc nf).at s made)).at t ran in
    ap
      (λ (r : Result ℤ). do
        address ← r
        check (not (eq_ℤ address minus_one))
        block ← item_at t.disk address
        as_inode block)
      (disk-map t i a tight forced h ne ∙ sym (from_map t i a h))
