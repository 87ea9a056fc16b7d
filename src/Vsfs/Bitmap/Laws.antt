-- ===== src/Vsfs/Bitmap/Laws.antt =====
-- What `bitmap` promises: the count is the number of allocated bits, `alloc` takes the first free
-- one, and `free` undoes `alloc`.
use cs334_operating_systems.Prelude.{
  position, ℕ, zero, suc, ◌+◌, ◌≤◌, ◌<◌, ◌≡◌, refl, sym, ap, ◌∙◌, ◌≢◌, ◌⊎◌, inl, inr, some, List,
  [], ◌∷◌, arith, ◌==◌, if◌then◌else◌, Bool-cases, Option-cases, length, get_elem?, set, length-set,
  get_elem?-set_self, replicate, length-replicate, Result, ok, ◌>>=◌, >>=-eq-ok, ok-injective,
  set_same, set-set, lt-length_of_get, position_get,
}
use cs334_operating_systems.Prelude.Int.{
  ℤ, pos, ◌+ℤ◌, ◌-ℤ◌, minus_one, pos-add-pos, pos-suc-sub-one, add-sub-one,
}
use cs334_operating_systems.Vsfs.Bitmap.{
  Bitmap, init, first_free, alloc, free, mark_allocated, num_free,
}
use native.Mathlib.Nat.{zero-add}

-- how many items are allocated, and free
unfoldable pub ones : List ℕ → ℕ
ones [] = 0
ones (b ∷ bs) = if b == 0 then ones bs else ones bs + 1

unfoldable pub zeros : List ℕ → ℕ
zeros [] = 0
zeros (b ∷ bs) = if b == 0 then zeros bs + 1 else zeros bs

abbrev pub AllBits : List ℕ → Type 0
AllBits [] = Unit
AllBits (b ∷ bs) = (b ≤ 1) × AllBits bs

pub record IsValid (b : Bitmap) : Type 0 where
  pub sized : length b.bmap ≡ b.size
  pub bits : AllBits b.bmap
  pub counted : b.num_allocated ≡ pos (ones b.bmap)

ones-add-zeros : (bs : List ℕ) → ones bs + zeros bs ≡ length bs
unfolding ones zeros
ones-add-zeros [] = omega arith
ones-add-zeros (b ∷ bs) = ground (arith, ones-add-zeros bs)

pub AllBits-set : (bs : List ℕ) (i v : ℕ) → v ≤ 1 → AllBits bs → AllBits (set bs i v)
AllBits-set [] i v h a = tt
AllBits-set (b ∷ bs) zero v h a = (h, a.1)
AllBits-set (b ∷ bs) (suc i) v h a = (a.0, AllBits-set bs i v h a.1)

pub ones-set_one : (bs : List ℕ) (i : ℕ) → get_elem? bs i ≡ some 0 → ones (set bs i 1) ≡ ones bs + 1
unfolding ones
ones-set_one [] i h = cc
ones-set_one (b ∷ bs) zero h = ground arith
ones-set_one (b ∷ bs) (suc i) h = ground (arith, ones-set_one bs i h)

pub ones-set_zero :
    (bs : List ℕ) (i : ℕ) → get_elem? bs i ≡ some 1 → ones (set bs i 0) + 1 ≡ ones bs
unfolding ones
ones-set_zero [] i h = cc
ones-set_zero (b ∷ bs) zero h = ground arith
ones-set_zero (b ∷ bs) (suc i) h = ground (arith, ones-set_zero bs i h)

-- no 0 stands before place `n`
abbrev pub NoneFreeBelow : ℕ → List ℕ → Type 0
NoneFreeBelow n bs = (i : ℕ) → i < n → get_elem? bs i ≢ some 0

-- how the scan of `alloc` ends
abbrev pub Scanned : ℕ → List ℕ → ℤ → Type 0
Scanned k bs r =
    ((n : ℕ) × (r ≡ pos (k + n)) × (get_elem? bs n ≡ some 0) × NoneFreeBelow n bs)
    ⊎ ((r ≡ minus_one) × NoneFreeBelow (length bs) bs)

Scanned-cons : (k b : ℕ) (bs : List ℕ) (r : ℤ) → b ≢ 0 → Scanned (k + 1) bs r → Scanned k (b ∷ bs) r
Scanned-cons k b bs r h (inl (n, e, g, below)) = inl (suc n, rw e (ap pos (omega arith)), g, shift)
  where
    shift : NoneFreeBelow (suc n) (b ∷ bs)
    shift zero l = ground arith
    shift (suc i) l = below i (omega arith)
Scanned-cons k b bs r h (inr (e, below)) = inr (e, shift)
  where
    shift : NoneFreeBelow (suc (length bs)) (b ∷ bs)
    shift zero l = ground arith
    shift (suc i) l = below i (omega arith)

pub first_free-Scanned : (k : ℕ) (bs : List ℕ) → Scanned k bs (first_free k bs)
unfolding first_free
first_free-Scanned k [] = inr (refl, λ i l. ground arith)
first_free-Scanned k (b ∷ bs) = elim (Bool-cases (b == 0)) [
  | inl e ↦ rw e (inl (0, ap pos (omega arith), ground arith, λ i l. ground arith))
  | inr e ↦ rw e (Scanned-cons k b bs _ (ground arith) (first_free-Scanned (k + 1) bs))
]

-- the bitmap with bit `n` set and counted
abbrev pub marked : Bitmap → ℕ → Bitmap
marked b n = record b { bmap = set b.bmap n 1; num_allocated = b.num_allocated +ℤ pos 1 }

pub num_free-zeros : (b : Bitmap) → IsValid b → num_free b ≡ pos (zeros b.bmap)
unfolding num_free ◌-ℤ◌
num_free-zeros b v = rw v.counted (ground (arith, ones-add-zeros b.bmap, v.sized))

zeros-pos : (bs : List ℕ) (n : ℕ) → get_elem? bs n ≡ some 0 → 0 < zeros bs
unfolding zeros
zeros-pos [] n h = cc
zeros-pos (b ∷ bs) zero h = ground arith
zeros-pos (b ∷ bs) (suc n) h = ground (arith, zeros-pos bs n h)

zeros-none : (bs : List ℕ) → NoneFreeBelow (length bs) bs → zeros bs ≡ 0
unfolding zeros
zeros-none [] h = refl
zeros-none (b ∷ bs) h =
    ground (arith, h 0 (omega arith), zeros-none bs (λ i l. h (suc i) (omega arith)))

-- what `alloc` does to a bitmap
abbrev pub Allocates : Bitmap → ℤ × Bitmap → Type 0
Allocates b r =
    ((n : ℕ) × (r ≡ (pos n, marked b n)) × (get_elem? b.bmap n ≡ some 0) × NoneFreeBelow n b.bmap)
    ⊎ ((r ≡ (minus_one, b)) × NoneFreeBelow (length b.bmap) b.bmap)

pub alloc-Allocates : (b : Bitmap) → Allocates b (alloc b)
unfolding alloc
alloc-Allocates b = elim (first_free-Scanned 0 b.bmap) [
  | inl (n, e, g, below) ↦ inl (n, rw (e, zero-add n), g, below)
  | inr (e, below) ↦ inr (rw e, below)
]

-- `alloc` on a valid bitmap returns -1 and changes nothing exactly when `numFree` is 0; otherwise
-- it returns the least free index and sets and counts that bit alone.
pub alloc_lem :
    (b : Bitmap)
    → IsValid b
    → ((num_free b ≡ pos 0) × (alloc b ≡ (minus_one, b)))
      ⊎ ((n : ℕ) × (num_free b ≢ pos 0)
          × (alloc b ≡ (pos n, marked b n))
          × (get_elem? b.bmap n ≡ some 0)
          × NoneFreeBelow n b.bmap)
alloc_lem b v = elim (alloc-Allocates b) [
  | inl (n, e, g, below) ↦
      inr (n, rw (num_free-zeros b v) (λ z. ground (arith, zeros-pos b.bmap n g)), e, g, below)
  | inr (e, below) ↦ inl (num_free-zeros b v ∙ ap pos (zeros-none b.bmap below), e)
]

pub marked-IsValid :
    (b : Bitmap) (n : ℕ) → get_elem? b.bmap n ≡ some 0 → IsValid b → IsValid (marked b n)
marked-IsValid b n g v = record {
  sized = length-set b.bmap n 1 ∙ v.sized;
  bits = AllBits-set b.bmap n 1 (omega arith) v.bits;
  counted = rw (v.counted, ones-set_one b.bmap n g) (pos-add-pos (ones b.bmap) 1);
}

pub alloc-IsValid : (b : Bitmap) → IsValid b → IsValid (alloc b).1
alloc-IsValid b v = elim (alloc-Allocates b) [
  | inl (n, e, g, below) ↦ rw e (marked-IsValid b n g v)
  | inr (e, below) ↦ rw e v
]

-- inversion of `mark_allocated` and of `free`
pub mark_allocated-ok :
    (b : Bitmap) (num : ℤ) {c : Bitmap}
    → mark_allocated b num ≡ ok c
    → (n : ℕ) × (position (length b.bmap) num ≡ some n)
      × (get_elem? b.bmap n ≡ some 0)
      × (c ≡ marked b n)
unfolding mark_allocated
mark_allocated-ok b num {c} h = elim (Option-cases (position (length b.bmap) num)) [
  | inl e ↦ absurd (ground arith)
  | inr (n, e) ↦ (n, e, ground arith, ground arith)
]

abbrev pub cleared : Bitmap → ℕ → Bitmap
cleared b n = record b { num_allocated = b.num_allocated -ℤ pos 1; bmap = set b.bmap n 0 }

pub free-ok :
    (b : Bitmap) (num : ℤ) {c : Bitmap}
    → free b num ≡ ok c
    → (n : ℕ) × (position (length b.bmap) num ≡ some n)
      × (get_elem? b.bmap n ≡ some 1)
      × (c ≡ cleared b n)
unfolding free
free-ok b num h = elim (Option-cases (position (length b.bmap) num)) [
  | inl e ↦ absurd (ground arith)
  | inr (n, e) ↦ (n, e, ground arith, ground arith)
]

pub free_total :
    (b : Bitmap) (n : ℕ) → get_elem? b.bmap n ≡ some 1 → free b (pos n) ≡ ok (cleared b n)
unfolding free
free_total b n g = ground (arith, position_get b.bmap n 1 g)

pub mark_allocated-IsValid :
    (b : Bitmap) (num : ℤ) {c : Bitmap} → mark_allocated b num ≡ ok c → IsValid b → IsValid c
mark_allocated-IsValid b num h v =
    let (n, p, g, e) = mark_allocated-ok b num h in rw e (marked-IsValid b n g v)

pub cleared-IsValid :
    (b : Bitmap) (n : ℕ) → get_elem? b.bmap n ≡ some 1 → IsValid b → IsValid (cleared b n)
cleared-IsValid b n g v = record {
  sized = length-set b.bmap n 0 ∙ v.sized;
  bits = AllBits-set b.bmap n 0 (omega arith) v.bits;
  counted = rw (v.counted, ← ones-set_zero b.bmap n g) (pos-suc-sub-one _);
}

pub free-IsValid : (b : Bitmap) (num : ℤ) {c : Bitmap} → free b num ≡ ok c → IsValid b → IsValid c
free-IsValid b num h v = let (n, p, g, e) = free-ok b num h in rw e (cleared-IsValid b n g v)

AllBits-replicate : (n : ℕ) → AllBits (replicate n 0)
AllBits-replicate zero = tt
AllBits-replicate (suc n) = (omega arith, AllBits-replicate n)

ones-replicate : (n : ℕ) → ones (replicate n 0) ≡ 0
unfolding ones
ones-replicate zero = refl
ones-replicate (suc n) = ones-replicate n

pub init-IsValid : (size : ℕ) → IsValid (init size)
unfolding init
init-IsValid size = record {
  sized = length-replicate size 0;
  bits = AllBits-replicate size;
  counted = ap pos (sym (ones-replicate size));
}

pub free-marked :
    (b : Bitmap) (n : ℕ) → get_elem? b.bmap n ≡ some 0 → free (marked b n) (pos n) ≡ ok b
free-marked b n g =
    free_total (marked b n) n (get_elem?-set_self b.bmap n 1 (lt-length_of_get b.bmap n 0 g))
    ∙ ap ok
        (ground (arith, add-sub-one b.num_allocated, set-set b.bmap n 1 0, set_same b.bmap n 0 g))

-- Freeing what `alloc` returned gives back the bitmap as it was, count included.
pub free-alloc : (b : Bitmap) (n : ℕ) {c : Bitmap} → alloc b ≡ (pos n, c) → free c (pos n) ≡ ok b
free-alloc b n {c} h = elim (alloc-Allocates b) [
  | inl (m, e, g, below) ↦ ground (arith, free-marked b m g)
  | inr (e, below) ↦ ground arith
]

-- One call of a bitmap's methods.
pub data Op : Type 0 where
  alloc_op : Op
  free_op mark_op : ℤ → Op

unfoldable pub apply : Bitmap → Op → Result Bitmap
apply b alloc_op = ok (alloc b).1
apply b (free_op n) = free b n
apply b (mark_op n) = mark_allocated b n

unfoldable pub run : List Op → Bitmap → Result Bitmap
run [] b = ok b
run (o ∷ os) b = do c ← apply b o; run os c

apply-IsValid : (b : Bitmap) (o : Op) {c : Bitmap} → apply b o ≡ ok c → IsValid b → IsValid c
unfolding apply
apply-IsValid b alloc_op h v =
    let e : (alloc b).1 ≡ _ = ok-injective h in rw e at (alloc-IsValid b v)
apply-IsValid b (free_op n) h v = free-IsValid b n h v
apply-IsValid b (mark_op n) h v = mark_allocated-IsValid b n h v

size-apply : (b : Bitmap) (o : Op) {c : Bitmap} → apply b o ≡ ok c → c.size ≡ b.size
unfolding apply alloc
size-apply b alloc_op h = elim (alloc-Allocates b) [
  | inl (n, e, g, below) ↦ ground (arith, e)
  | inr (e, below) ↦ ground (arith, e)
]
size-apply b (free_op n) h = let (k, p, g, e) = free-ok b n h in ground (arith, e)
size-apply b (mark_op n) h = let (k, p, g, e) = mark_allocated-ok b n h in ground (arith, e)

run_from :
    (os : List Op) (b : Bitmap) {c : Bitmap}
    → run os b ≡ ok c
    → IsValid b
    → IsValid c × (c.size ≡ b.size)
unfolding run
run_from [] b h v = (rw (ok-injective h) at v, ground arith)
run_from (o ∷ os) b {c} h v =
    let (d, first, rest) = >>=-eq-ok (apply b o) (run os) h in
    let (w, e) = run_from os d rest (apply-IsValid b o first v) in (w, e ∙ size-apply b o first)

-- After any calls that fail no assertion, the bitmap of an `init` with `size` bits still has `size`
-- bits, each 0 or 1, and `numAllocated` is the number of those that are 1.
pub run-init :
    (size : ℕ) (os : List Op) {c : Bitmap} → run os (init size) ≡ ok c → IsValid c × (c.size ≡ size)
run-init size os h =
    let (v, e) = run_from os (init size) h (init-IsValid size) in (v, unfold init in e)
