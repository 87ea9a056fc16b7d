-- ===== src/DiskSim/Layout/Blocks.antt =====
-- InitBlockLayout: each block lies on the track whose range of blocks has it.
use mathlib.Core.Path.{subst}
use mathlib.Core.List.{append-nil}
use native.Mathlib.Nat.{}
use cs334_operating_systems.Prelude.{
  ℕ, zero, suc, ◌+◌, ◌-◌, ◌*◌, ◌/◌, ◌%◌, ◌≤◌, ◌<◌, ◌≡◌, refl, sym, ap, ◌∙◌, ◌↔◌, ◌⊎◌, inl, inr,
  false, none, some, List, [], ◌∷◌, ◌++◌, map, arith, ◌==◌, Bool-cases, get_elem?, ok, Ensures,
  Ensures-ok, Ensures-raise, Ensures-if, Ensures-bind,
}
use cs334_operating_systems.Prelude.DivMod.{div_of, mod-lt_pos}
use cs334_operating_systems.DiskSim.Layout.{
  Place, Layout, angles_from, blocks_on, track_places, step_of, init_block_layout, find_place,
}

-- the place of a block as the layout has it
pub record Placed (places : List Place) (block track : ℕ) : Type 0 where
  pub place : Place
  pub found : find_place places block ≡ some place
  pub is_block : place.block ≡ block
  pub on_track : place.track ≡ track
  pub on_disk : place.angle < 360

module _ (track o skew pblock : ℕ) (pos_o : 0 < o) where
  place_at : ℕ → Place
  place_at angle = record {
    block = angle / o + pblock;
    track = track;
    angle = (angle + o * skew + 180) % 360;
  }

  -- the blocks of the track from the `k`-th on
  module _ (rest : List Place) where
    find_place-hit :
        (n k angle block : ℕ)
        → angle ≡ k * o + 0
        → pblock + k ≤ block
        → block < pblock + k + n
        → Placed (map place_at (angles_from n angle o) ++ rest) block track
    unfolding find_place angles_from place_at
    find_place-hit zero k angle block e low high = absurd (omega arith)
    find_place-hit (suc n) k angle block e low high =
        let here : angle / o ≡ k = rw e (div_of k o 0 pos_o) in
        elim (Bool-cases (angle / o + pblock == block)) [
          | inl same ↦ record {
            place = place_at angle;
            found = rw same refl;
            is_block = ground arith;
            on_track = refl;
            on_disk = mod-lt_pos (angle + o * skew + 180) 360 (omega arith);
          }
          | inr other ↦
              let p =
                find_place-hit n (k + 1) (angle + o) block (rw e (grind arith)) (ground arith)
                  (omega arith) in
              record {
                place = p.place;
                found = rw other p.found;
                is_block = p.is_block;
                on_track = p.on_track;
                on_disk = p.on_disk;
              }
        ]

    find_place-miss :
        (n k angle block : ℕ)
        → angle ≡ k * o + 0
        → (block < pblock + k) ⊎ (pblock + k + n ≤ block)
        → find_place (map place_at (angles_from n angle o) ++ rest) block ≡ find_place rest block
    unfolding find_place angles_from place_at
    find_place-miss zero k angle block e out = refl
    find_place-miss (suc n) k angle block e out =
        let here : angle / o ≡ k = rw e (div_of k o 0 pos_o) in
        let other : (angle / o + pblock == block) ≡ false = ground arith in
        rw other (
          find_place-miss n (k + 1) (angle + o) block (rw e (grind arith))
            (elim out [ inl before ↦ inl (omega arith) | inr behind ↦ inr (omega arith) ]))

    track_places-hit :
        (block : ℕ)
        → pblock ≤ block
        → block < pblock + blocks_on o
        → Placed (track_places track o skew pblock ++ rest) block track
    unfolding track_places place_at
    track_places-hit block low high =
        find_place-hit (blocks_on o) 0 0 block (omega arith) (omega (arith, low))
          (omega (arith, high))

    track_places-miss :
        (block : ℕ)
        → (block < pblock) ⊎ (pblock + blocks_on o ≤ block)
        → find_place (track_places track o skew pblock ++ rest) block ≡ find_place rest block
    unfolding track_places place_at
    track_places-miss block out =
        find_place-miss (blocks_on o) 0 0 block (omega arith)
          (elim out [ inl before ↦ inl (omega arith) | inr behind ↦ inr (omega arith) ])

behind :
    (l m : List Place) (block track : ℕ)
    → find_place l block ≡ find_place m block
    → Placed m block track
    → Placed l block track
behind l m block track e p = record {
  place = p.place;
  found = e ∙ p.found;
  is_block = p.is_block;
  on_track = p.on_track;
  on_disk = p.on_disk;
}

pub step_of-pos : (zone : ℕ) → Ensures (λ a. 0 < a) (step_of zone)
step_of-pos zone =
    Ensures-if (2 * (zone / 2) == 0) _ _ (λ _. Ensures-raise _) (λ t. Ensures-ok (ground arith))

pub blocks_on-pos : (a : ℕ) → 0 < a → 0 < blocks_on a
blocks_on-pos a h = grind arith

-- the three tracks of a layout, from their steps
module _ (a b c skew : ℕ) (pos_a : 0 < a) (pos_b : 0 < b) (pos_c : 0 < c) where
  abbrev p : ℕ
  p = blocks_on a

  abbrev q : ℕ
  q = blocks_on a + blocks_on b

  abbrev inner : List Place
  inner = track_places 2 c (2 * skew) q

  abbrev middle : List Place
  middle = track_places 1 b skew p ++ inner

  abbrev pub all : List Place
  all = track_places 0 a 0 0 ++ middle

  past_outer : (block : ℕ) → p ≤ block → find_place all block ≡ find_place middle block
  past_outer block h = track_places-miss 0 a 0 0 pos_a middle block (inr (omega (arith, h)))

  past_middle : (block : ℕ) → q ≤ block → find_place all block ≡ find_place inner block
  past_middle block h =
      past_outer block (omega (arith, h)) ∙ track_places-miss 1 b skew p pos_b inner block (inr h)

  pub outer-Placed : (block : ℕ) → block < p → Placed all block 0
  outer-Placed block h =
      track_places-hit 0 a 0 0 pos_a middle block (omega arith) (omega (arith, h))

  pub middle-Placed : (block : ℕ) → p ≤ block → block < q → Placed all block 1
  middle-Placed block low high =
      behind all middle block 1 (past_outer block low)
        (track_places-hit 1 b skew p pos_b inner block low high)

  pub inner-Placed : (block : ℕ) → q ≤ block → block < q + blocks_on c → Placed all block 2
  inner-Placed block low high = behind all inner block 2 (past_middle block low) (
      subst (λ l. Placed l block 2) (append-nil inner)
        (track_places-hit 2 c (2 * skew) q pos_c [] block low high))

  -- a block past the last one has no place
  none_beyond : (block : ℕ) → q + blocks_on c ≤ block → find_place all block ≡ none
  unfolding find_place
  none_beyond block h =
      past_middle block (omega (arith, h))
      ∙ ap (λ l. find_place l block) (sym (append-nil inner))
      ∙ track_places-miss 2 c (2 * skew) q pos_c [] block (inr h)

  tracks-Placed :
      (t first last block : ℕ)
      → get_elem? {A = ℕ × ℕ} ((0, p - 1) ∷ (p, q - 1) ∷ (q, q + blocks_on c - 1) ∷ []) t
        ≡ some (first, last)
      → first ≤ block
      → block ≤ last
      → Placed all block t × ((t ≡ 2) ↔ (q ≤ block))
  tracks-Placed zero f l block h low high =
      let e : p - 1 ≡ l = cc in
      (
        outer-Placed block (omega (arith, e, blocks_on-pos a pos_a)),
        ((λ e. absurd (omega (arith, e))), λ h. absurd (omega (arith, e, blocks_on-pos a pos_a))),
      )
  tracks-Placed (suc zero) f l block h low high =
      let d : p ≡ f = cc in
      let e : q - 1 ≡ l = cc in
      (
        middle-Placed block (omega (arith, d)) (omega (arith, e, blocks_on-pos a pos_a)),
        ((λ e. absurd (omega (arith, e))), λ h. absurd (omega (arith, e, blocks_on-pos a pos_a))),
      )
  tracks-Placed (suc (suc zero)) f l block h low high =
      let d : q ≡ f = cc in
      let e : q + blocks_on c - 1 ≡ l = cc in
      (
        inner-Placed block (omega (arith, d)) (omega (arith, e, blocks_on-pos c pos_c)),
        ((λ e. omega (arith, d)), λ h. refl),
      )
  tracks-Placed (suc (suc (suc t))) f l block h low high = absurd (cc)

-- When the layout is made, a block in the range of a track has a place on that track, at an angle
-- below 360, and the track is the inner one exactly for the blocks from max_block on.
pub init_block_layout_lem :
    (outer middle inner skew t first last block : ℕ) (l : Layout)
    → init_block_layout outer middle inner skew ≡ ok l
    → get_elem? l.tracks_begin_end t ≡ some (first, last)
    → first ≤ block
    → block ≤ last
    → Placed l.places block t × ((t ≡ 2) ↔ (l.max_block ≤ block))
unfolding init_block_layout
init_block_layout_lem outer middle inner skew t first last block l h = made.at l h
  where
    Good : Layout → Type 0
    Good l =
        get_elem? l.tracks_begin_end t ≡ some (first, last)
        → first ≤ block
        → block ≤ last
        → Placed l.places block t × ((t ≡ 2) ↔ (l.max_block ≤ block))

    made : Ensures Good (init_block_layout outer middle inner skew)
    made = Ensures-bind (step_of outer) _ (step_of-pos outer) λ a pa.
        Ensures-bind (step_of middle) _ (step_of-pos middle) λ b pb.
          Ensures-bind (step_of inner) _ (step_of-pos inner)
            λ c pc. Ensures-ok (tracks-Placed a b c skew pa pb pc t first last block)
