-- ===== src/Lfs/Imap/Chunks.antt =====
-- HW-LFS/lfs.py, class LFS: what update_imap leaves on the disk, chunk by chunk.
use native.Mathlib.Decide.{ℕ_discrete}
use mathlib.Core.Path.{subst}
use cs334_operating_systems.Prelude.{
  ℕ, zero, suc, ◌+◌, ◌-◌, ◌*◌, ◌/◌, ◌%◌, ◌<◌, ◌≡◌, refl, sym, ap, ◌∙◌, ◌≢◌, ◌⊎◌, inl, inr, some,
  List, [], ◌∷◌, ◌++◌, arith, length, get_elem?, set, length-append, get_elem?-set_self,
  get_elem?-set_ne, get-append_left, get-append_last, index_error, key_error, Result, ok, raise,
  ◌>>=◌, >>=-eq-ok, ok-injective, Ensures, Ensures-ok, Ensures-bind_eq, or_raise-ok, nth,
  lt-length_of_get,
}
use cs334_operating_systems.Prelude.Int.{ℤ, pos, negsuc, minus_one}
use cs334_operating_systems.Prelude.DivMod.{join, mod-lt_pos}
use cs334_operating_systems.Lfs.State.{
  Block, imap, Lfs, log, logged, inode_map_at, remap, map_entries, make_imap_chunk, inum_to_chunk,
  write_chunk,
}

-- The entry of the map for `i` is `a` on the disk: in the chunk that the checkpoint region points to, or
-- there is no chunk and the inode is free. No chunk lies in block 0.
pub data OnDisk (disk : List Block) (cr : List ℤ) (i : ℕ) (a : ℤ) : Type 0 where
  stored :
      (k : ℕ) (entries : List ℤ)
      → get_elem? cr (i / 16) ≡ some (pos (suc k))
      → get_elem? disk (suc k) ≡ some (imap entries)
      → get_elem? entries (i % 16) ≡ some a
      → OnDisk disk cr i a
  no_chunk : get_elem? cr (i / 16) ≡ some minus_one → a ≡ minus_one → OnDisk disk cr i a

pub record GoodIn (disk : List Block) (cr inode_map : List ℤ) (i : ℕ) : Type 0 where
  pub good : (a : ℤ) → get_elem? inode_map i ≡ some a → OnDisk disk cr i a

-- whatever the map in memory says of `i` is on the disk
abbrev pub Good : Lfs → ℕ → Type 0
Good s i = GoodIn s.disk s.cr s.inode_map i

-- the chunks that the inodes of a list lie in
abbrev pub chunks : List ℤ → List ℕ
chunks [] = []
chunks (inum ∷ l) = inum_to_chunk inum ∷ chunks l

pub logged-Good : (s : Lfs) (b : Block) (i : ℕ) → Good s i → Good (logged s b) i
unfolding log
logged-Good s b i g = record {
  good = λ a h. elim (g.good a h) [
    | stored k es c d e ↦ stored k es c (get-append_left s.disk (b ∷ []) (suc k) (imap es) d) e
    | no_chunk c e ↦ no_chunk c e
  ];
}

pub remap-Good :
    (s : Lfs) (inum address : ℤ) (i : ℕ) → pos i ≢ inum → Good s i → Good (remap s inum address) i
unfolding remap
remap-Good s (pos j) address i ne g = record {
  good = λ a h.
      elim (g.good a (sym (get_elem?-set_ne s.inode_map address (λ e. ne (ap pos (sym e)))) ∙ h)) [
        | stored k es c d e ↦ stored k es c d e
        | no_chunk c e ↦ no_chunk c e
      ];
}
remap-Good s (negsuc j) address i ne g = g

-- a piece of the map
pub map_entries-get :
    (s : Lfs) (start n : ℕ) (es : List ℤ)
    → map_entries s start n ≡ ok es
    → (j : ℕ) → j < n
    → get_elem? es j ≡ get_elem? s.inode_map (start + j)
unfolding map_entries
map_entries-get s start zero es h j less = absurd (omega arith)
map_entries-get s start (suc n) es h j less =
    let (e, at, h1) = >>=-eq-ok (inode_map_at s (pos start)) _ h in
    let (rest, more, h2) = >>=-eq-ok (map_entries s (start + 1) n) _ h1 in
    ap (λ l. get_elem? l j) (sym (ok-injective h2))
    ∙ from_head e rest j (or_raise-ok key_error (get_elem? s.inode_map start) at)
        (λ k l. map_entries-get s (start + 1) n rest more k l) less
  where
    from_head :
        (e : ℤ) (rest : List ℤ) (j : ℕ)
        → get_elem? s.inode_map start ≡ some e
        → ((k : ℕ) → k < n → get_elem? rest k ≡ get_elem? s.inode_map (start + 1 + k))
        → j < suc n
        → get_elem? (e ∷ rest) j ≡ get_elem? s.inode_map (start + j)
    from_head e rest zero at behind less = sym at ∙ ap (get_elem? s.inode_map) (omega arith)
    from_head e rest (suc k) at behind less =
        behind k (omega arith) ∙ ap (get_elem? s.inode_map) (omega arith)

bind_imap :
    (r : Result (List ℤ)) (b : Block)
    → (r >>= λ es. ok (imap es)) ≡ ok b
    → (es : List ℤ) × (r ≡ ok es) × (imap es ≡ b)
bind_imap (ok es) b h = (es, refl, ok-injective h)
bind_imap (raise e) b h = absurd (cc)

make_imap_chunk-ok :
    (s : Lfs) (c : ℕ) (b : Block)
    → make_imap_chunk s c ≡ ok b
    → (es : List ℤ) × (map_entries s (c * 16) 16 ≡ ok es) × (imap es ≡ b)
unfolding make_imap_chunk
make_imap_chunk-ok s c b h = bind_imap (map_entries s (c * 16) 16) b h

-- a chunk holds its part of the map
pub make_imap_chunk-get :
    (s : Lfs) (c : ℕ) (b : Block)
    → make_imap_chunk s c ≡ ok b
    → (es : List ℤ) × (imap es ≡ b)
      × ((i : ℕ) → i / 16 ≡ c → get_elem? es (i % 16) ≡ get_elem? s.inode_map i)
make_imap_chunk-get s c b h =
    let (es, made, same) = make_imap_chunk-ok s c b h in
    (
      es,
      same,
      λ i at.
          map_entries-get s (c * 16) 16 es made (i % 16) (mod-lt_pos i 16 (omega arith))
          ∙ ap (get_elem? s.inode_map)
              (rw (← at) (let j : i / 16 * 16 + i % 16 ≡ i = join i 16 (omega arith) in j)),
    )

-- no block lies behind address 0 only
suc_pred : (n : ℕ) → 0 < n → suc (n - 1) ≡ n
suc_pred n h = omega arith

module _ (s : Lfs) (c : ℕ) (es : List ℤ) where
  abbrev with_chunk : Lfs
  with_chunk = record s { disk = s.disk ++ imap es ∷ []; cr = set s.cr c (pos (length s.disk)) }

  with_chunk-Good_other : (i : ℕ) → i / 16 ≢ c → Good s i → Good with_chunk i
  with_chunk-Good_other i ne g = record {
    good = λ a h. elim (g.good a h) [
      | stored k fs at block e ↦
          stored k fs (get_elem?-set_ne s.cr (pos (length s.disk)) (λ e. ne (sym e)) ∙ at)
            (get-append_left s.disk (imap es ∷ []) (suc k) (imap fs) block) e
      | no_chunk at e ↦
          no_chunk (get_elem?-set_ne s.cr (pos (length s.disk)) (λ e. ne (sym e)) ∙ at) e
    ];
  }

  with_chunk-Good_self :
      (i : ℕ)
      → 0 < length s.disk
      → c < length s.cr
      → i / 16 ≡ c
      → get_elem? es (i % 16) ≡ get_elem? s.inode_map i
      → Good with_chunk i
  with_chunk-Good_self i some_blocks inside at part = record {
    good = λ a h.
        stored (length s.disk - 1) es
          (ap (get_elem? with_chunk.cr) at
            ∙ get_elem?-set_self s.cr c (pos (length s.disk)) inside
            ∙ ap (λ n. some (pos n)) (sym (suc_pred (length s.disk) some_blocks)))
          (ap (get_elem? with_chunk.disk) (suc_pred (length s.disk) some_blocks)
            ∙ get-append_last s.disk (imap es))
          (part ∙ h);
  }

pub record FreshIn (late : ℕ → Type 0) (disk : List Block) (cr inode_map : List ℤ) : Type 0 where
  pub some_blocks : 0 < length disk
  pub on_disk : (i : ℕ) → GoodIn disk cr inode_map i ⊎ late (i / 16)

-- The map in memory is on the disk, but for the inodes of the chunks that are `late`.
abbrev pub Fresh : (ℕ → Type 0) → Lfs → Type 0
Fresh late s = FreshIn late s.disk s.cr s.inode_map

pub write_chunk-Fresh :
    (late : ℕ → Type 0) (s : Lfs) (c : ℕ)
    → Fresh late s
    → Ensures (Fresh (λ d. late d × (d ≢ c))) (write_chunk s c)
unfolding write_chunk log
write_chunk-Fresh late s c fresh = Ensures-bind_eq (make_imap_chunk s c) _ λ chunk made.
    Ensures-bind_eq (nth s.cr c) _ λ old inside. Ensures-ok (
      let (es, is_imap, part) = make_imap_chunk-get s c chunk made in
      let place : length s.disk ≡ length (s.disk ++ chunk ∷ []) - 1 =
        omega (arith, length-append s.disk (chunk ∷ [])) in
      subst (Fresh (λ d. late d × (d ≢ c)))
        (λ j. record s { disk = s.disk ++ is_imap j ∷ []; cr = set s.cr c (pos (place j)) })
        (with_chunk-Fresh es part
          (lt-length_of_get s.cr c old (or_raise-ok index_error (get_elem? s.cr c) inside))))
  where
    with_chunk-Fresh :
        (es : List ℤ)
        → ((i : ℕ) → i / 16 ≡ c → get_elem? es (i % 16) ≡ get_elem? s.inode_map i)
        → c < length s.cr
        → Fresh (λ d. late d × (d ≢ c)) (with_chunk s c es)
    with_chunk-Fresh es part inside = record {
      some_blocks = omega (arith, length-append s.disk (imap es ∷ []), fresh.some_blocks);
      on_disk = λ i. elim (ℕ_discrete (i / 16) c) [
        | yes at ↦ inl (with_chunk-Good_self s c es i fresh.some_blocks inside at (part i at))
        | no ne ↦ elim (fresh.on_disk i) [
          | inl g ↦ inl (with_chunk-Good_other s c es i ne g)
          | inr l ↦ inr (l, ne)
        ]
      ];
    }
