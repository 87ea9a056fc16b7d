-- ===== src/Raid/Main/Runs.antt =====
-- HW-Raid/raid.py: the program on a workload within the capacity of the array.
use cs334_operating_systems.Prelude.{
  ℕ, zero, suc, ◌+◌, ◌*◌, ◌/◌, ◌%◌, ◌≤◌, ◌<◌, ◌≡◌, refl, inl, inr, Bool, true, false, not, ◌&&◌,
  List, [], ◌∷◌, arith, ltb, ◌==◌, if◌then◌else◌, Bool-cases, length, replicate, length-replicate,
  Fault, ok, check, Ensures, Ensures-ok, Ensures-raise, Ensures-if, Ensures-bind, Ensures-bind_eq,
}
use cs334_operating_systems.Prelude.Int.{pos, ltb_ℤ, leb_ℤ}
use cs334_operating_systems.Prelude.DivMod.{mod-lt_pos}
use cs334_operating_systems.Raid.Mapping.{Raid5Type, left_symmetric, left_asymmetric, other}
use cs334_operating_systems.Raid.Mapping.Rotated.{IsLayout}
use cs334_operating_systems.Raid.Io.{Level, raid0, raid1, raid4, raid5, Raid, init, go}
use cs334_operating_systems.Raid.Io.Bounds.{AllSound}
use cs334_operating_systems.Raid.Io.Levels.{Fits, IsArray, capacity, enqueue-IsArray}
use cs334_operating_systems.Raid.Main.{
  block_size, workload_of, level_of, raid5type_of, Options, other_type, Setup, set_up, Draw, below,
  request_all, main,
}
use cs334_operating_systems.Raid.Disk
use cs334_operating_systems.Raid.Disk.{Disk}
use cs334_operating_systems.Raid.Disk.Laws.{init-IsSound}

-- the new array
record Shape (bytes n : ℕ) (level : Level) (kind : Raid5Type) (r : Raid) : Type 0 where
  chunk : r.chunk_size ≡ bytes / 4096
  disk_count : r.num_disks ≡ n
  same_level : r.level ≡ level
  same_type : r.raid5type ≡ kind
  new_disks : r.disks ≡ replicate n Disk.init
  even : level ≡ raid1 → (n % 2 == 0) ≡ true

new_raid :
    {bytes n : ℕ} (level : Level) {kind : Raid5Type}
    → (level ≡ raid1 → (n % 2 == 0) ≡ true)
    → Shape bytes n level kind (record {
      chunk_size = bytes / 4096;
      num_disks = n;
      level = level;
      raid5type = kind;
      disks = replicate n Disk.init;
    })
new_raid level even = record {
  chunk = refl;
  disk_count = refl;
  same_level = refl;
  same_type = refl;
  new_disks = refl;
  even = even;
}

init-Shape :
    (bytes n : ℕ) (level : Level) (kind : Raid5Type)
    → Ensures (Shape bytes n level kind) (init bytes n level kind)
unfolding init
init-Shape bytes n raid0 kind =
    Ensures-if (not (bytes % 4096 == 0)) _ _ (λ _. Ensures-raise Fault.exit)
      (λ _. Ensures-ok (new_raid raid0 (λ e. absurd (cc))))
init-Shape bytes n raid1 kind =
    Ensures-if (not (bytes % 4096 == 0)) _ _ (λ _. Ensures-raise Fault.exit)
      (λ _.
        Ensures-if (not (n % 2 == 0)) _ _ (λ _. Ensures-raise Fault.exit)
          (λ e. Ensures-ok (new_raid raid1 (λ _. ground (arith, e)))))
init-Shape bytes n raid4 kind =
    Ensures-if (not (bytes % 4096 == 0)) _ _ (λ _. Ensures-raise Fault.exit)
      (λ _. Ensures-ok (new_raid raid4 (λ e. absurd (cc))))
init-Shape bytes n raid5 kind =
    Ensures-if (not (bytes % 4096 == 0)) _ _ (λ _. Ensures-raise Fault.exit)
      (λ _. Ensures-ok (new_raid raid5 (λ e. absurd (cc))))

new-AllSound : (n : ℕ) → AllSound (replicate n Disk.init)
new-AllSound zero = tt
new-AllSound (suc n) = (init-IsSound, new-AllSound n)

abbrev number : Level → ℕ
number raid0 = 0
number raid1 = 1
number raid4 = 4
number raid5 = 5

level_of-number : (l : ℕ) (level : Level) → level_of l ≡ ok level → l ≡ number level
unfolding level_of
level_of-number l raid0 h = ground arith
level_of-number l raid1 h = ground arith
level_of-number l raid4 h = ground arith
level_of-number l raid5 h = ground arith

known_type : (kind : Raid5Type) → other_type kind ≡ false → IsLayout kind
known_type left_symmetric h = tt
known_type left_asymmetric h = tt
known_type other h = absurd (cc)

-- the checks of the program leave the numbers of disks that a level can have
checks-Fits :
    (n : ℕ) (level : Level) (kind : Raid5Type)
    → (not (number level == 0) && ltb n 2) ≡ false
    → (number level == 5 && other_type kind) ≡ false
    → (level ≡ raid1 → (n % 2 == 0) ≡ true)
    → 0 < n
    → Fits level kind n
checks-Fits n raid0 kind disks layout even some_disk = some_disk
checks-Fits n raid1 kind disks layout even some_disk =
    let two : (n % 2 == 0) ≡ true = even refl in (ground (arith, two), ground (arith, disks))
checks-Fits n raid4 kind disks layout even some_disk = ground (arith, disks)
checks-Fits n raid5 kind disks layout even some_disk =
    (ground (arith, disks), known_type kind layout)

Shape-IsArray :
    (bytes n rows : ℕ) (level : Level) (kind : Raid5Type) (r : Raid)
    → Shape bytes n level kind r
    → Fits level kind n
    → 4096 ≤ bytes
    → rows * (bytes / 4096) ≤ 10000
    → IsArray rows r
Shape-IsArray bytes n rows level kind r shape fits some_chunk room = record {
  chunk = rw shape.chunk (ground (arith, some_chunk));
  fits = rw (shape.same_level, shape.same_type, shape.disk_count) fits;
  room = rw shape.chunk room;
  count = rw (shape.new_disks, shape.disk_count) (length-replicate n Disk.init);
  sound = rw shape.new_disks (new-AllSound n);
}

-- an array that is set up can be used
set_up-IsArray :
    (o : Options) (rows : ℕ)
    → 0 < o.num_disks
    → 4096 ≤ o.chunk_bytes
    → rows * (o.chunk_bytes / 4096) ≤ 10000
    → Ensures (λ s. IsArray rows s.raid) (set_up o)
unfolding set_up
set_up-IsArray o rows some_disk some_chunk room =
    let kind = raid5type_of o.raid5type in
    Ensures-bind_eq (check (leb_ℤ (pos 0) o.write_frac && leb_ℤ o.write_frac (pos 100))) _ λ _ _.
      Ensures-if (not (o.size_bytes % block_size == 0)) _ _ (λ _. Ensures-raise Fault.exit)
        λ _. Ensures-bind_eq (workload_of o.workload) _ λ is_sequential _.
          Ensures-bind_eq (level_of o.level) _ λ level lev.
            Ensures-if (not (o.level == 0) && ltb o.num_disks 2) _ _ (λ _. Ensures-raise Fault.exit)
              λ disks.
                Ensures-if (o.level == 5 && other_type kind) _ _ (λ _. Ensures-raise Fault.exit)
                  λ layout.
                    let is : o.level ≡ number level = level_of-number o.level level lev in
                    Ensures-bind (init o.chunk_bytes o.num_disks level kind) _
                      (init-Shape o.chunk_bytes o.num_disks level kind)
                      λ r shape. Ensures-ok (
                        Shape-IsArray o.chunk_bytes o.num_disks rows level kind r shape
                          (checks-Fits o.num_disks level kind (rw (← is) disks) (rw (← is) layout)
                            shape.even some_disk)
                          some_chunk room)

-- the requests from `off` on stay within the capacity
abbrev pub Within : Options → Setup → ℕ → ℕ → List Draw → Type 0
Within o s rows off draws =
    (s.is_sequential ≡ true → off + length draws * s.size ≤ capacity rows s.raid)
    × (s.is_sequential ≡ false → o.range + s.size ≤ capacity rows s.raid)

below-le : (n d : ℕ) → below n d ≤ n
below-le n d = elim (Bool-cases (n == 0)) [
  | inl e ↦ rw e (omega arith)
  | inr e ↦ let less : d % n < n = mod-lt_pos d n (ground (arith, e)) in rw e (omega (arith, less))
]

request_all-ok :
    (o : Options) (s : Setup) (rows off : ℕ) (draws : List Draw)
    → IsArray rows s.raid
    → 0 < s.size
    → Within o s rows off draws
    → (r : Raid) × (request_all o s off draws ≡ ok r) × AllSound r.disks
unfolding request_all
request_all-ok o s rows off [] v some_block within = (s.raid, refl, v.sound)
request_all-ok o s rows off (d ∷ draws) v some_block (seq, rand) =
    let blk = if s.is_sequential then off else below o.range d.address in
    let fits : blk + s.size ≤ capacity rows s.raid = place s.is_sequential refl in
    let (ds, served, w) =
      enqueue-IsArray s.raid rows blk s.size (ltb_ℤ (pos (d.fraction % 100)) o.write_frac) v
        some_block fits in
    let (r, done, sound) =
      request_all-ok o (record s { raid = record s.raid { disks = ds } }) rows (off + s.size) draws
        w some_block ((λ e. omega (arith, seq e)), rand) in
    (r, rw (served, done) refl, sound)
  where
    place :
        (b : Bool)
        → s.is_sequential ≡ b
        → (if b then off else below o.range d.address) + s.size ≤ capacity rows s.raid
    place true e = omega (arith, seq e)
    place false e = omega (arith, rand e, below-le o.range d.address)

-- A workload within the capacity runs to its end at every level: where the options pass the checks,
-- there is a disk, a chunk has a block, the first `rows` rows of chunks fit on a disk, a request has a
-- block and the requests lie in these rows, no disk is missing, no assertion fails, and in the end the
-- counts and the time of every disk are in their bounds.
pub main-ok :
    (o : Options) (s : Setup) (rows : ℕ) (draws : List Draw)
    → set_up o ≡ ok s
    → 0 < o.num_disks
    → 4096 ≤ o.chunk_bytes
    → rows * (o.chunk_bytes / 4096) ≤ 10000
    → 0 < s.size
    → Within o s rows 0 draws
    → (r : Raid) × (main o draws ≡ ok (go r, r)) × AllSound r.disks
unfolding main
main-ok o s rows draws ready some_disk some_chunk room some_block within =
    let v = (set_up-IsArray o rows some_disk some_chunk room).at s ready in
    let (r, done, sound) = request_all-ok o s rows 0 draws v some_block within in
    (r, rw (ready, done) refl, sound)
