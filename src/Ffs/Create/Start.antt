-- ===== src/Ffs/Create/Start.antt =====
-- HW-FFS/ffs.py, class file_system: the books of a new file system.
use cs334_operating_systems.Prelude.{
  ℕ, zero, suc, ◌+◌, ◌*◌, ◌/◌, ◌%◌, ◌<◌, ◌≡◌, refl, sym, ap, ◌∙◌, Option, none, some, List, [], ◌∷◌,
  arith, length, get_elem?, replicate, length-replicate, ok, ok-injective, Ensures, Ensures-bind_eq,
}
use cs334_operating_systems.Prelude.Int.{pos, ◌-ℤ◌, pos-sub-pos}
use cs334_operating_systems.Prelude.Text.{Text}
use cs334_operating_systems.Prelude.DivMod.{div_of, mod_of}
use cs334_operating_systems.Ffs.State.{
  Ffs, find, put, entry, put_entry, slash, Options, blank, init, get_free_count,
}
use cs334_operating_systems.Ffs.Grid.{Grid, IsShaped, free_total, Takes, put_entry-Takes}
use cs334_operating_systems.Ffs.Create.Books.{AllBlocksOf, IsFile}
use cs334_operating_systems.Ffs.Create.Keeps.{allocate_symbol-ok, IsReady}

replicate-IsShaped : (n w : ℕ) → IsShaped n w (replicate n (replicate w none))
replicate-IsShaped n w = record {
  rows = length-replicate n (replicate w none);
  wide = λ g row h. wide n g row h;
}
  where
    wide :
        (m g : ℕ) (row : List (Option ℕ))
        → get_elem? (replicate m (replicate w none)) g ≡ some row
        → length row ≡ w
    wide zero g row h = cc
    wide (suc m) zero row h =
        let same : replicate w none ≡ row = ground (arith, h) in
        ap length (sym same) ∙ length-replicate w none
    wide (suc m) (suc g) row h = wide m g row h

free_total-replicate : (n w : ℕ) → free_total (replicate n (replicate w none)) ≡ w * n
unfolding free_total
free_total-replicate zero w = omega arith
free_total-replicate (suc n) w =
    let product : w * suc n ≡ w * n + w = grind arith in
    omega (arith, free_total-replicate n w, row w, product)
  where
    row : (k : ℕ) → get_free_count (replicate k none) ≡ k
    row zero = unfold get_free_count in refl
    row (suc k) = unfold get_free_count in ap suc (row k)

-- the first place of a new bitmap
first_place :
    (n w : ℕ) {b : Grid}
    → put_entry (replicate n (replicate w none)) 0 0 (some 0) ≡ ok b
    → (0 < n) × (0 < w) × Takes (replicate n (replicate w none)) 0 0 0 b
unfolding put_entry
first_place zero w h = cc
first_place (suc n) zero h = cc
first_place (suc n) (suc w) h =
    let (c, put, takes) =
      put_entry-Takes (replicate (suc n) (replicate (suc w) none)) 0 0 0 (unfold entry in refl) in
    let same : c ≡ _ = ok-injective (sym put ∙ h) in (omega arith, omega arith, rw (← same) takes)

root-IsFile :
    (n w v : ℕ) (blocks inodes : Grid)
    → 0 < n
    → 0 < w
    → 0 < v
    → Takes (replicate n (replicate w none)) 0 0 0 blocks
    → Takes (replicate n (replicate v none)) 0 0 0 inodes
    → (q inum : ℕ) (path : Text) → get_elem? {A = Text × ℕ} ((slash, 0) ∷ []) q ≡ some (path, inum)
    → IsFile n w v blocks inodes ((0, 0 ∷ []) ∷ []) inum
root-IsFile n w v blocks inodes npos wpos vpos tb ti (suc q) inum path at = cc
root-IsFile n w v blocks inodes npos wpos vpos tb ti zero inum path at =
    let same : 0 ≡ inum = ground (arith, at) in
    rw (← same) (record {
      group = 0;
      index = 0;
      number = omega arith;
      group_inside = npos;
      index_inside = vpos;
      in_use = ti.written;
      list = 0 ∷ [];
      listed = unfold find in refl;
      marked = first_block;
    })
  where
    first_block : AllBlocksOf w blocks 0 (0 ∷ [])
    first_block zero b h =
        let origin : 0 ≡ b = ground (arith, h) in
        let zero_sum : 0 ≡ 0 * w + 0 = omega arith in
        let quotient : 0 / w ≡ 0 = ap (λ x. x / w) zero_sum ∙ div_of 0 w 0 wpos in
        let remainder : 0 % w ≡ 0 = ap (λ x. x % w) zero_sum ∙ mod_of 0 w 0 wpos in
        rw (← origin, quotient, remainder) tb.written
    first_block (suc q) b h = cc

-- A new file system has sound books.
pub init-IsReady :
    (n w v : ℕ) (o : Options) {s : Ffs}
    → 0 < o.contig_allocation_policy
    → o.allocate_faraway ≡ 1
    → init n w v o ≡ ok s
    → IsReady s
unfolding init
init-IsReady n w v o {s} chunks far h = ready.at s h
  where
    left :
        (w n : ℕ) {b : Grid}
        → Takes (replicate n (replicate w none)) 0 0 0 b
        → pos (w * n) -ℤ pos 1 ≡ pos (free_total b)
    left w n takes =
        let total = free_total-replicate n w in
        pos-sub-pos (w * n) 1 (omega (arith, total, takes.counted))
        ∙ ap pos (omega (arith, total, takes.counted))

    ready : Ensures IsReady (init n w v o)
    ready = Ensures-bind_eq (put_entry (replicate n (replicate v none)) 0 0 (some 0)) _ λ inodes ei.
        Ensures-bind_eq (put_entry (replicate n (replicate w none)) 0 0 (some 0)) _ λ blocks eb.
          let (npos, vpos, ti) = first_place n v ei in
          let (_, wpos, tb) = first_place n w eb in
          record {
            at = λ u hu.
                let (m, used_of, symbols, e) =
                  (allocate_symbol-ok (blank n w v o blocks inodes) 0 slash).at u hu in
                rw e (record {
                  chunks = chunks;
                  one_by_one = far;
                  sound = record {
                    blocks_shaped = tb.shaped n w (replicate-IsShaped n w);
                    inodes_shaped = ti.shaped n v (replicate-IsShaped n v);
                    blocks_total = left w n tb;
                    inodes_total = left v n ti;
                    named = λ q inum path at.
                        root-IsFile n w v blocks inodes npos wpos vpos tb ti q inum path at;
                  };
                });
          }
