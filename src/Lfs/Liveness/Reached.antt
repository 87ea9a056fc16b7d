-- ===== src/Lfs/Liveness/Reached.antt =====
-- What determine_liveness marks is what the checkpoint region, the inode map and the mapped inodes
-- point to.
use mathlib.Core.Path.{subst}
use cs334_operating_systems.Prelude.{
  ℕ, zero, suc, ◌≡◌, refl, sym, ap, ◌∙◌, ◌≢◌, ◌↔◌, ◌⊎◌, inl, inr, true, ◌||◌, some, List, [], ◌∷◌,
  ◌++◌, arith, Bool-cases, get_elem?, ok, >>=-eq-ok, ok-injective, item_at,
}
use cs334_operating_systems.Prelude.Int.{ℤ, pos, negsuc, eq_ℤ, minus_one}
use cs334_operating_systems.Lfs.State.{
  Inode, Block, checkpoint, imap, data_dir, data_block, inode_block, Lfs,
}
use cs334_operating_systems.Lfs.Liveness.{
  in_use, pointers_of, pointed_to, determine_liveness, is_live,
}

-- an entry of a list of addresses that is in use
abbrev pub Points : List ℤ → ℤ → Type 0
Points l a = (k : ℕ) × (get_elem? l k ≡ some a)

-- what the file system can come to from its tables
pub data Reached (s : Lfs) (a : ℤ) : Type 0 where
  region : a ≡ pos 0 → Reached s a
  chunk : Points s.cr a → a ≢ minus_one → Reached s a
  mapped : Points s.inode_map a → a ≢ minus_one → Reached s a
  pointer :
      (b : ℤ) (inode : Inode)
      → Points s.inode_map b
      → b ≢ minus_one
      → item_at s.disk b ≡ ok (inode_block inode)
      → Points inode.pointers a
      → Reached s a

eq_ℤ-refl : (a : ℤ) → eq_ℤ a a ≡ true
eq_ℤ-refl (pos n) = ground arith
eq_ℤ-refl (negsuc n) = ground arith

eq_ℤ→eq : (a b : ℤ) → eq_ℤ a b ≡ true → a ≡ b
eq_ℤ→eq (pos m) (pos n) h = ap pos (ground arith)
eq_ℤ→eq (pos m) (negsuc n) h = absurd (cc)
eq_ℤ→eq (negsuc m) (pos n) h = absurd (cc)
eq_ℤ→eq (negsuc m) (negsuc n) h = ap negsuc (ground arith)

is_live-Points : (l : List ℤ) (a : ℤ) → is_live a l ≡ true → Points l a
unfolding is_live
is_live-Points [] a h = absurd (cc)
is_live-Points (b ∷ l) a h = elim (Bool-cases (eq_ℤ b a)) [
  | inl same ↦ (0, ap some (eq_ℤ→eq b a same))
  | inr away ↦
      let rest : is_live a l ≡ true = ap (λ t. t || is_live a l) (sym away) ∙ h in
      let (k, e) = is_live-Points l a rest in (suc k, e)
]

Points-is_live : (l : List ℤ) (a : ℤ) → Points l a → is_live a l ≡ true
unfolding is_live
Points-is_live [] a (k, h) = absurd (cc)
Points-is_live (b ∷ l) a (zero, h) =
    let same : b ≡ a = cc in
    let e : eq_ℤ b a ≡ true = ap (eq_ℤ b) (sym same) ∙ eq_ℤ-refl b in rw e refl
Points-is_live (b ∷ l) a (suc k, h) = elim (Bool-cases (eq_ℤ b a)) [
  | inl same ↦ rw same refl
  | inr away ↦ rw away (Points-is_live l a (k, h))
]

Points-append : (l m : List ℤ) (a : ℤ) → Points (l ++ m) a ↔ (Points l a ⊎ Points m a)
Points-append l m a = (split l, join l)
  where
    split : (l : List ℤ) → Points (l ++ m) a → Points l a ⊎ Points m a
    split [] p = inr p
    split (x ∷ l) (zero, h) = inl (0, h)
    split (x ∷ l) (suc k, h) = elim (split l (k, h)) [ inl (j, e) ↦ inl (suc j, e) | inr p ↦ inr p ]

    join : (l : List ℤ) → Points l a ⊎ Points m a → Points (l ++ m) a
    join [] (inl (k, h)) = absurd (cc)
    join [] (inr p) = p
    join (x ∷ l) (inl (zero, h)) = (0, h)
    join (x ∷ l) (inl (suc k, h)) = let (j, e) = join l (inl (k, h)) in (suc j, e)
    join (x ∷ l) (inr p) = let (j, e) = join l (inr p) in (suc j, e)

Points-cons : (x a : ℤ) (l : List ℤ) → Points (x ∷ l) a → (x ≡ a) ⊎ Points l a
Points-cons x a l (zero, h) = inl cc
Points-cons x a l (suc k, h) = inr (k, h)

in_use-Points : (l : List ℤ) (a : ℤ) → Points (in_use l) a ↔ (Points l a × (a ≢ minus_one))
unfolding in_use
in_use-Points [] a = ((λ (k, h). absurd (cc)), λ ((k, h), ne). absurd (cc))
in_use-Points (x ∷ l) a =
    let (there, back) = in_use-Points l a in
    elim (Bool-cases (eq_ℤ x minus_one)) [
      | inl none_here ↦ rw none_here (
        (λ p. let ((k, h), ne) = there p in ((suc k, h), ne)),
        λ (p, ne). elim (Points-cons x a l p) [
          | inl same ↦ absurd (ne (sym same ∙ eq_ℤ→eq x minus_one none_here))
          | inr behind ↦ back (behind, ne)
        ],
      )
      | inr used ↦ rw used (
        (λ p. elim (Points-cons x a (in_use l) p) [
          | inl same ↦ (
            (0, ap some same),
            λ e.
                let z : eq_ℤ x minus_one ≡ true = ap (λ y. eq_ℤ y minus_one) (same ∙ e) in
                absurd (cc),
          )
          | inr behind ↦ let ((k, h), ne) = there behind in ((suc k, h), ne)
        ]),
        λ (p, ne). elim (Points-cons x a l p) [
          | inl same ↦ (0, ap some same)
          | inr behind ↦ let (k, h) = back (behind, ne) in (suc k, h)
        ],
      )
    ]

-- an inode at one of the addresses points to `a`
abbrev Pointed : Lfs → List ℤ → ℤ → Type 0
Pointed s l a =
    (b : ℤ) × (inode : Inode) × Points l b
    × (item_at s.disk b ≡ ok (inode_block inode))
    × Points inode.pointers a

pointers_of-ok :
    (block : Block) (l : List ℤ)
    → pointers_of block ≡ ok l
    → (inode : Inode) × (block ≡ inode_block inode) × (inode.pointers ≡ l)
pointers_of-ok (checkpoint l) m h = absurd (cc)
pointers_of-ok (imap l) m h = absurd (cc)
pointers_of-ok (data_dir l) m h = absurd (cc)
pointers_of-ok (data_block l) m h = absurd (cc)
pointers_of-ok (inode_block i) m h = (i, refl, ok-injective h)

pointed_to-Pointed :
    (s : Lfs) (l ptrs : List ℤ) (a : ℤ) → pointed_to s l ≡ ok ptrs → Points ptrs a ↔ Pointed s l a
unfolding pointed_to
pointed_to-Pointed s [] ptrs a h =
    let none_there : [] ≡ ptrs = ok-injective h in
    (
      (λ (k, e).
          absurd (let f : get_elem? [] k ≡ some a = ap (λ m. get_elem? m k) none_there ∙ e in cc)),
      λ (b, i, (k, e), _, _). absurd (cc),
    )
pointed_to-Pointed s (x ∷ l) ptrs a h =
    let (block, at, h1) = >>=-eq-ok (item_at s.disk x) _ h in
    let (mine, got, h2) = >>=-eq-ok (pointers_of block) _ h1 in
    let (others, more, h3) = >>=-eq-ok (pointed_to s l) _ h2 in
    let all : mine ++ others ≡ ptrs = ok-injective h3 in
    let (inode, is_inode, has) = pointers_of-ok block mine got in
    let (there, back) = pointed_to-Pointed s l others a more in
    let (split, join) = Points-append mine others a in
    (
      (λ p. elim (split (subst (λ m. Points m a) (sym all) p)) [
        | inl here ↦
            (x, inode, (0, refl), at ∙ ap ok is_inode, subst (λ m. Points m a) (sym has) here)
        | inr behind ↦ let (b, i, (k, e), f, g) = there behind in (b, i, (suc k, e), f, g)
      ]),
      λ (b, i, p, f, g).
          subst (λ m. Points m a) all
            (elim (Points-cons x b l p) [
              | inl same ↦
                  let one : inode_block inode ≡ inode_block i =
                    sym is_inode ∙ ok-injective (sym at ∙ ap (item_at s.disk) same ∙ f) in
                  let equal : inode.pointers ≡ i.pointers = ok-injective (ap pointers_of one) in
                  join (inl (subst (λ m. Points m a) (sym equal ∙ has) g))
              | inr behind ↦ join (inr (back (b, i, behind, f, g)))
            ]),
    )

-- When determine_liveness returns, it has marked exactly the checkpoint region and what the
-- checkpoint region, the inode map and the inodes of the map point to.
pub determine_liveness-Reached :
    (s : Lfs) (live : List ℤ) (a : ℤ)
    → determine_liveness s ≡ ok live
    → (is_live a live ≡ true) ↔ Reached s a
unfolding determine_liveness
determine_liveness-Reached s live a h =
    let (ptrs, got, h1) = >>=-eq-ok (pointed_to s (in_use s.inode_map)) _ h in
    let marks : pos 0 ∷ in_use s.cr ++ (in_use s.inode_map ++ ptrs) ≡ live = ok-injective h1 in
    let (split_cr, join_cr) = Points-append (in_use s.cr) (in_use s.inode_map ++ ptrs) a in
    let (split_map, join_map) = Points-append (in_use s.inode_map) ptrs a in
    let (cr_there, cr_back) = in_use-Points s.cr a in
    let (map_there, map_back) = in_use-Points s.inode_map a in
    let (ptr_there, ptr_back) = pointed_to-Pointed s (in_use s.inode_map) ptrs a got in
    let behind : Points (in_use s.cr ++ (in_use s.inode_map ++ ptrs)) a → is_live a live ≡ true =
      λ (k, e). Points-is_live live a (subst (λ m. Points m a) marks (suc k, e)) in
    (
      (λ t.
          elim (Points-cons (pos 0) a _
            (subst (λ m. Points m a) (sym marks) (is_live-Points live a t))) [
              | inl first ↦ region (sym first)
              | inr rest ↦ elim (split_cr rest) [
                | inl in_cr ↦ let (p, ne) = cr_there in_cr in chunk p ne
                | inr rest ↦ elim (split_map rest) [
                  | inl in_map ↦ let (p, ne) = map_there in_map in mapped p ne
                  | inr in_ptrs ↦
                      let (b, i, p, f, g) = ptr_there in_ptrs in
                      let (q, ne) = (in_use-Points s.inode_map b).0 p in pointer b i q ne f g
                ]
              ]
            ]),
      λ r. elim r [
        | region e ↦ Points-is_live live a (subst (λ m. Points m a) marks (0, ap some (sym e)))
        | chunk p ne ↦ behind (join_cr (inl (cr_back (p, ne))))
        | mapped p ne ↦ behind (join_cr (inr (join_map (inl (map_back (p, ne))))))
        | pointer b i p ne f g ↦ behind (
            join_cr (
              inr
                (join_map (inr (ptr_back (b, i, (in_use-Points s.inode_map b).1 (p, ne), f, g))))))
      ],
    )
