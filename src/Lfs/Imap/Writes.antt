-- ===== src/Lfs/Imap/Writes.antt =====
-- HW-LFS/lfs.py, class LFS: log, remap and update_imap, and the chunks that are behind the map.
use native.Mathlib.Decide.{ℕ_discrete}
use mathlib.Core.Path.{subst}
use cs334_operating_systems.Prelude.{
  ℕ, ◌/◌, ◌≡◌, sym, ap, ◌≢◌, inl, inr, true, false, List, [], ◌∷◌, ◌++◌, arith, Bool-cases,
  length-append, Ensures, Ensures-ok, Ensures-bind,
}
use cs334_operating_systems.Prelude.Int.{ℤ, pos, negsuc, pos_part}
use cs334_operating_systems.Prelude.Text.{Text}
use cs334_operating_systems.Lfs.State.{
  Block, data_block, Lfs, log, logged, remap, inum_to_chunk, write_chunk, seen, update_chunks,
}
use cs334_operating_systems.Lfs.Ops.{log_data}
use cs334_operating_systems.Lfs.Imap.Chunks.{
  chunks, logged-Good, remap-Good, Fresh, write_chunk-Fresh,
}

-- The map in memory is on the disk, but for the inodes of the chunks of `cs`.
abbrev pub Behind : List ℕ → Lfs → Type 0
Behind cs = Fresh (λ c. seen c cs ≡ true)

seen-append_ne : (c d : ℕ) (cs : List ℕ) → c ≢ d → seen c cs ≡ false → seen c (cs ++ d ∷ []) ≡ false
unfolding seen
seen-append_ne c d [] ne h = grind arith
seen-append_ne c d (e ∷ cs) ne h = let j = seen-append_ne c d cs ne in ground arith

seen-cons_ne : (c d : ℕ) (cs : List ℕ) → c ≢ d → seen c (d ∷ cs) ≡ true → seen c cs ≡ true
unfolding seen
seen-cons_ne c d cs ne h = ground arith

pub seen-head : (c : ℕ) (cs : List ℕ) → seen c (c ∷ cs) ≡ true
unfolding seen
seen-head c cs = ground arith

pub seen-one : (c d : ℕ) → seen c (d ∷ []) ≡ true → c ≡ d
unfolding seen
seen-one c d h = ground arith

pub seen-tail : (c d : ℕ) (cs : List ℕ) → seen c cs ≡ true → seen c (d ∷ cs) ≡ true
unfolding seen
seen-tail c d cs h = ground arith

ne_of_seen : (c d : ℕ) (cs : List ℕ) → seen d cs ≡ true → seen c cs ≡ false → c ≢ d
ne_of_seen c d cs h k e = cc

pub weaken-Fresh :
    (late later : ℕ → Type 0) (s : Lfs)
    → ((c : ℕ) → late c → later c)
    → Fresh late s
    → Fresh later s
weaken-Fresh late later s more fresh = record {
  some_blocks = fresh.some_blocks;
  on_disk = λ i. elim (fresh.on_disk i) [ inl g ↦ inl g | inr l ↦ inr (more (i / 16) l) ];
}

module _ (late : ℕ → Type 0) where
  pub logged-Fresh : (s : Lfs) (b : Block) → Fresh late s → Fresh late (logged s b)
  unfolding log
  logged-Fresh s b fresh = record {
    some_blocks = omega (arith, length-append s.disk (b ∷ []), fresh.some_blocks);
    on_disk = λ i. elim (fresh.on_disk i) [
      | inl g ↦ inl (unfold log in logged-Good s b i g)
      | inr l ↦ inr l
    ];
  }

  pub remap-Fresh :
      (s : Lfs) (inum address : ℤ)
      → late (inum_to_chunk inum)
      → Fresh late s
      → Fresh late (remap s inum address)
  unfolding remap
  remap-Fresh s (negsuc j) address h fresh = fresh
  remap-Fresh s (pos j) address h fresh = record {
    some_blocks = fresh.some_blocks;
    on_disk = λ i. elim (ℕ_discrete j i) [
      | yes e ↦ inr (subst (λ k. late (k / 16)) e h)
      | no ne ↦ elim (fresh.on_disk i) [
        | inl g ↦
            inl (unfold remap in remap-Good s (pos j) address i (λ e. ne (sym (ap pos_part e))) g)
        | inr l ↦ inr l
      ]
    ];
  }

  pub log_data-Fresh : (s : Lfs) (l : List Text) → Fresh late s → Fresh late (log_data s l)
  unfolding log_data
  log_data-Fresh s [] fresh = fresh
  log_data-Fresh s (c ∷ l) fresh =
      log_data-Fresh (logged s (data_block c)) l (logged-Fresh s (data_block c) fresh)

-- `update_imap` leaves no chunk behind
pub update_chunks-Fresh :
    (late : ℕ → Type 0) (s : Lfs) (done : List ℕ) (l : List ℤ)
    → ((c : ℕ) → late c → (seen c (chunks l) ≡ true) × (seen c done ≡ false))
    → Fresh late s
    → Ensures (Behind []) (update_chunks s done l)
unfolding update_chunks
update_chunks-Fresh late s done [] covers fresh =
    Ensures-ok (weaken-Fresh late _ s (λ c l. (covers c l).0) fresh)
update_chunks-Fresh late s done (inum ∷ l) covers fresh =
    let d = inum_to_chunk inum in
    elim (Bool-cases (seen d done)) [
      | inl e ↦ rw e (
          update_chunks-Fresh late s done l
            (λ c h.
              let (a, b) = covers c h in
              (seen-cons_ne c d (chunks l) (ne_of_seen c d done e b) a, b))
            fresh)
      | inr e ↦ rw e (
          Ensures-bind (write_chunk s d) _ (write_chunk-Fresh late s d fresh) λ t ft.
            update_chunks-Fresh (λ c. late c × (c ≢ d)) t (done ++ d ∷ []) l
              (λ c h.
                let (a, b) = covers c (h.0) in
                (seen-cons_ne c d (chunks l) (h.1) a, seen-append_ne c d done (h.1) b))
              ft)
    ]
