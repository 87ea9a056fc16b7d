-- ===== src/Raid/Io/Levels.antt =====
-- HW-Raid/raid.py, enqueue: requests within the capacity of the array, level by level.
use cs334_operating_systems.Prelude.{
  ℕ, zero, suc, ◌+◌, ◌-◌, ◌*◌, ◌/◌, ◌%◌, ◌≤◌, ◌<◌, ◌≡◌, refl, sym, ap, ◌∙◌, inl, inr, Bool, true,
  false, not, List, arith, ltb, ◌==◌, if◌then◌else◌, ltb→lt, Bool-cases, length, ok, check,
  ok-injective, Ensures, Ensures-ok, Ensures-bind_eq,
}
use cs334_operating_systems.Prelude.DivMod.{join, mod-lt_pos, lt-mul_of_row}
use cs334_operating_systems.Raid.Mapping.{
  bmap0, bmap1, bmap4, pmap4, Raid5Type, data_disk, bmap5_full, bmap5, blocks_in_stripe, pmap5,
}
use cs334_operating_systems.Raid.Mapping.Rotated.{IsLayout, bmap5_full_lem, pmap5-bmap5}
use cs334_operating_systems.Raid.Io.{
  Io, span, enqueue0, mirror, enqueue1, Level, raid0, raid1, raid4, raid5, Raid, ios, enqueue,
}
use cs334_operating_systems.Raid.Io.Bounds.{InRange, AllSound, perform-ok}
use cs334_operating_systems.Raid.Io.Served.{enqueue45-InRange}
use cs334_operating_systems.Raid.Disk.{Disk}

-- the disks whose blocks hold different data
abbrev pub data_disks : Level → ℕ → ℕ
data_disks raid0 n = n
data_disks raid1 n = n / 2
data_disks _ n = n - 1

-- the numbers of disks and the layouts that a level can have
abbrev pub Fits : Level → Raid5Type → ℕ → Type 0
Fits raid0 kind n = 0 < n
Fits raid1 kind n = (n % 2 ≡ 0) × (0 < n / 2)
Fits raid4 kind n = 1 < n
Fits raid5 kind n = (1 < n) × IsLayout kind

-- the offset of a block of the first `rows` rows
row_off : (c k rows v : ℕ) → 0 < c → 0 < k → v < rows * (k * c) → v / c / k * c + v % c < rows * c
row_off c k rows v cpos kpos inside = elim (Bool-cases (ltb (v / c / k) rows)) [
  | inl e ↦ lt-mul_of_row (v / c / k) (v % c) rows c (ltb→lt _ _ e) (mod-lt_pos v c cpos)
  | inr e ↦
      let (m, at) : (m : ℕ) × (v / c / k ≡ rows + m) = (v / c / k - rows, ground (arith, e)) in
      let outer : (rows + m) * k + v / c % k ≡ v / c = rw (← at) (join (v / c) k kpos) in
      let whole : ((rows + m) * k + v / c % k) * c + v % c ≡ v = rw outer (join v c cpos) in
      let split : ((rows + m) * k + v / c % k) * c ≡ rows * (k * c) + (m * k * c + v / c % k * c) =
        grind arith in
      absurd (omega (arith, whole, split, inside))
]

-- level 5 puts a block in its row
bmap5_full-off :
    (kind : Raid5Type) (c n v d pd off : ℕ)
    → bmap5_full kind c n v ≡ ok (d, pd, off)
    → off ≡ v / c / (n - 1) * c + v % c
unfolding bmap5_full
bmap5_full-off kind c n v d pd off h = placed.at (d, pd, off) h
  where
    placed : Ensures (λ (p : ℕ × ℕ × ℕ). p.2 ≡ v / c / (n - 1) * c + v % c) (bmap5_full kind c n v)
    placed =
        let col = v / c / (n - 1) % n in
        Ensures-bind_eq (data_disk kind n (v / c % (n - 1)) col (n - 1 - col)) _
          λ disk a. Ensures-bind_eq (check (not (disk == n - 1 - col))) _ λ u b. Ensures-ok refl

module _ (c n rows : ℕ) (cpos : 0 < c) (room : rows * c ≤ 10000) where
  off_in : (k v : ℕ) → 0 < k → v < rows * (k * c) → v / c / k * c + v % c < 10000
  off_in k v kpos inside = let h = row_off c k rows v cpos kpos inside in omega (arith, h, room)

  enqueue0-InRange :
      (addr size : ℕ) (is_write : Bool)
      → 0 < n
      → addr + size ≤ rows * (n * c)
      → InRange n (enqueue0 c n addr size is_write)
  unfolding enqueue0 span bmap0
  enqueue0-InRange addr zero is_write npos inside = tt
  enqueue0-InRange addr (suc size) true npos inside = (
    mod-lt_pos (addr / c) n npos,
    off_in n addr npos (omega (arith, inside)),
    enqueue0-InRange (addr + 1) size true npos (omega (arith, inside)),
  )
  enqueue0-InRange addr (suc size) false npos inside = (
    mod-lt_pos (addr / c) n npos,
    off_in n addr npos (omega (arith, inside)),
    enqueue0-InRange (addr + 1) size false npos (omega (arith, inside)),
  )

  mirror_disk : (v : ℕ) → n % 2 ≡ 0 → 0 < n / 2 → 2 * (v / c % (n / 2)) + 1 < n
  mirror_disk v even npos =
      let below : v / c % (n / 2) < n / 2 = mod-lt_pos (v / c) (n / 2) npos in omega (arith, below)

  enqueue1-InRange :
      (addr size : ℕ) (is_write : Bool)
      → n % 2 ≡ 0
      → 0 < n / 2
      → addr + size ≤ rows * (n / 2 * c)
      → InRange n (enqueue1 c n (span addr size) is_write)
  unfolding enqueue1 span bmap1 mirror
  enqueue1-InRange addr zero is_write even npos inside = tt
  enqueue1-InRange addr (suc size) true even npos inside =
      let d = mirror_disk addr even npos in
      let o = off_in (n / 2) addr npos (omega (arith, inside)) in
      (
        omega (arith, d),
        o,
        (d, o, enqueue1-InRange (addr + 1) size true even npos (omega (arith, inside))),
      )
  enqueue1-InRange addr (suc size) false even npos inside =
      let d = mirror_disk addr even npos in
      let o = off_in (n / 2) addr npos (omega (arith, inside)) in
      let first : 2 * (addr / c % (n / 2)) < n = omega (arith, d) in
      (
        one_of (_ % 2 == 0) first d,
        o,
        enqueue1-InRange (addr + 1) size false even npos (omega (arith, inside)),
      )
    where
      one_of : {x y : ℕ} (b : Bool) → x < n → y < n → (if b then x else y) < n
      one_of true h k = h
      one_of false h k = k

  block4-InRange :
      (v : ℕ)
      → 1 < n
      → v < rows * blocks_in_stripe c n
      → (disk off : ℕ) × (ok (bmap4 c n v) ≡ ok (disk, off)) × (disk < n) × (off < 10000)
  unfolding bmap4
  block4-InRange v npos inside =
      let below : v / c % (n - 1) < n - 1 = mod-lt_pos (v / c) (n - 1) (omega arith) in
      (_, _, refl, omega (arith, below), off_in (n - 1) v (omega arith) inside)

  block5-InRange :
      (kind : Raid5Type) (v : ℕ)
      → 1 < n
      → IsLayout kind
      → v < rows * blocks_in_stripe c n
      → (disk off : ℕ) × (bmap5 kind c n v ≡ ok (disk, off)) × (disk < n) × (off < 10000)
  unfolding bmap5
  block5-InRange kind v npos layout inside =
      let (d, pd, off, e, below, _, _, back) = bmap5_full_lem kind c n layout cpos npos v in
      (
        d,
        off,
        rw e refl,
        below,
        rw (bmap5_full-off kind c n v d pd off e) (off_in (n - 1) v (omega arith) inside),
      )

  parity5-InRange :
      (kind : Raid5Type) (s : ℕ)
      → 1 < n
      → IsLayout kind
      → (pd : ℕ) × (pmap5 kind c n s ≡ ok pd) × (pd < n)
  parity5-InRange kind s npos layout =
      let wpos : 0 < blocks_in_stripe c n = grind arith in
      let (d, pd, off, e, f) = pmap5-bmap5 kind c n s 0 layout cpos npos wpos in
      let (d', pd', off', e', _, below, _, _) =
        bmap5_full_lem kind c n layout cpos npos (s * blocks_in_stripe c n + 0) in
      let same : (d', pd', off') ≡ (d, pd, off) = ok-injective (sym e' ∙ e) in
      (pd', f ∙ ap (λ p. ok p.1) (sym same), below)

-- an array that is in use: its disks, of which the first `rows` rows of chunks are
pub record IsArray (rows : ℕ) (r : Raid) : Type 0 where
  pub chunk : 0 < r.chunk_size
  pub fits : Fits r.level r.raid5type r.num_disks
  pub room : rows * r.chunk_size ≤ 10000
  pub count : length r.disks ≡ r.num_disks
  pub sound : AllSound r.disks

abbrev pub capacity : ℕ → Raid → ℕ
capacity rows r = rows * (data_disks r.level r.num_disks * r.chunk_size)

ios-InRange :
    (r : Raid) (level : Level) (rows addr size : ℕ) (is_write : Bool)
    → r.level ≡ level
    → 0 < r.chunk_size
    → Fits level r.raid5type r.num_disks
    → rows * r.chunk_size ≤ 10000
    → 0 < size
    → addr + size ≤ rows * (data_disks level r.num_disks * r.chunk_size)
    → (l : List Io) × (ios r addr size is_write ≡ ok l) × InRange r.num_disks l
unfolding ios pmap4
ios-InRange r raid0 rows addr size is_write e cpos fits room some_block inside = (
  _,
  rw e refl,
  enqueue0-InRange r.chunk_size r.num_disks rows cpos room addr size is_write fits inside,
)
ios-InRange r raid1 rows addr size is_write e cpos (even, npos) room some_block inside = (
  _,
  rw e refl,
  enqueue1-InRange r.chunk_size r.num_disks rows cpos room addr size is_write even npos inside,
)
ios-InRange r raid4 rows addr size is_write e cpos fits room some_block inside =
    let c = r.chunk_size in
    let n = r.num_disks in
    let (l, made, h) =
      enqueue45-InRange (λ b. ok (bmap4 c n b)) (λ s. ok (pmap4 c n s)) (blocks_in_stripe c n) rows
        n (λ v less. block4-InRange c n rows cpos room v fits less)
        (λ s. (pmap4 c n s, refl, unfold pmap4 in omega (arith, fits))) addr size is_write
        (grind arith) some_block inside in
    (l, rw e made, h)
ios-InRange r raid5 rows addr size is_write e cpos (npos, layout) room some_block inside =
    let c = r.chunk_size in
    let n = r.num_disks in
    let kind = r.raid5type in
    let (l, made, h) =
      enqueue45-InRange (bmap5 kind c n) (pmap5 kind c n) (blocks_in_stripe c n) rows n
        (λ v less. block5-InRange c n rows cpos room kind v npos layout less)
        (λ s. parity5-InRange c n rows cpos room kind s npos layout) addr size is_write
        (grind arith) some_block inside in
    (l, rw e made, h)

-- At every level a request within the capacity of the array is served: no disk is missing, no
-- assertion fails, and the array stays in use, the counts and the time of each disk in their bounds.
pub enqueue-IsArray :
    (r : Raid) (rows addr size : ℕ) (is_write : Bool)
    → IsArray rows r
    → 0 < size
    → addr + size ≤ capacity rows r
    → (ds : List Disk) × (enqueue r addr size is_write ≡ ok (record r { disks = ds }))
      × IsArray rows (record r { disks = ds })
unfolding enqueue
enqueue-IsArray r rows addr size is_write v some_block inside =
    let (l, made, h) =
      ios-InRange r r.level rows addr size is_write refl v.chunk v.fits v.room some_block inside in
    let (ds, served, len, sound) = perform-ok r.num_disks l r.disks h v.count v.sound in
    (
      ds,
      rw (made, served) refl,
      record { chunk = v.chunk; fits = v.fits; room = v.room; count = len; sound = sound },
    )
