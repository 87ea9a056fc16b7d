-- ===== src/DiskSim/Layout/Tables.antt =====
-- The tables of a layout have a row for each track, and the blocks up to the last one have places.
use cs334_operating_systems.Prelude.{
  ℕ, zero, suc, ◌+◌, ◌-◌, ◌/◌, ◌≤◌, ◌<◌, ◌≡◌, refl, inl, inr, some, List, [], ◌∷◌, arith, ltb,
  Bool-cases, get_elem?, ok, Ensures, Ensures-ok, Ensures-bind, nth,
}
use cs334_operating_systems.DiskSim.Layout.{
  Place, Layout, blocks_on, step_of, init_block_layout, find_place,
}
use cs334_operating_systems.DiskSim.Layout.Blocks.{
  Placed, step_of-pos, blocks_on-pos, all, outer-Placed, middle-Placed, inner-Placed,
}

-- what a run needs of a layout: its tables have a row for each track, and blocks up to the last one
-- have a place
pub record IsLaidOut (l : Layout) (last : ℕ) : Type 0 where
  pub offsets : (t : ℕ) → t < 3 → (o : ℕ) × (nth l.block_angle_offset t ≡ ok o)
  pub ends : (t : ℕ) → t < 3 → (e : ℕ × ℕ) × (nth l.tracks_begin_end t ≡ ok e)
  pub placed :
      (block : ℕ)
      → block ≤ last
      → (p : Place) × (find_place l.places block ≡ some p) × (p.track < 3)

row_of {ℓ} : {A : Type ℓ} (a b c : A) (t : ℕ) → t < 3 → (x : A) × (nth (a ∷ b ∷ c ∷ []) t ≡ ok x)
row_of a b c zero h = (a, refl)
row_of a b c (suc zero) h = (b, refl)
row_of a b c (suc (suc zero)) h = (c, refl)
row_of a b c (suc (suc (suc t))) h = absurd (omega arith)

track_of :
    (l : List Place) (block t : ℕ)
    → t < 3
    → Placed l block t
    → (p : Place) × (find_place l block ≡ some p) × (p.track < 3)
track_of l block t h p = (p.place, p.found, omega (arith, p.on_track))

pub init_block_layout-IsLaidOut :
    (outer middle inner skew last : ℕ) (l : Layout)
    → init_block_layout outer middle inner skew ≡ ok l
    → get_elem? l.tracks_begin_end 2 ≡ some (l.max_block, last)
    → IsLaidOut l last
unfolding init_block_layout
init_block_layout-IsLaidOut outer middle inner skew last l h = made.at l h
  where
    Good : Layout → Type 0
    Good l = get_elem? l.tracks_begin_end 2 ≡ some (l.max_block, last) → IsLaidOut l last

    made : Ensures Good (init_block_layout outer middle inner skew)
    made = Ensures-bind (step_of outer) _ (step_of-pos outer) λ a pa.
        Ensures-bind (step_of middle) _ (step_of-pos middle) λ b pb.
          Ensures-bind (step_of inner) _ (step_of-pos inner) λ c pc. Ensures-ok (λ e. record {
            offsets = row_of (outer / 2) (middle / 2) (inner / 2);
            ends =
                row_of (0, blocks_on a - 1) (blocks_on a, blocks_on a + blocks_on b - 1)
                  (blocks_on a + blocks_on b, blocks_on a + blocks_on b + blocks_on c - 1);
            placed = λ block low.
                let end : blocks_on a + blocks_on b + blocks_on c - 1 ≡ last = cc in
                let l : List Place = all a b c skew pa pb pc in
                elim (Bool-cases (ltb block (blocks_on a))) [
                  | inl first ↦
                      track_of l block 0 (omega arith)
                        (outer-Placed a b c skew pa pb pc block (ground arith))
                  | inr past ↦ elim (Bool-cases (ltb block (blocks_on a + blocks_on b))) [
                    | inl second ↦
                        track_of l block 1 (omega arith)
                          (middle-Placed a b c skew pa pb pc block (ground arith) (ground arith))
                    | inr third ↦ track_of l block 2 (omega arith) (
                        inner-Placed a b c skew pa pb pc block (ground arith)
                          (omega (arith, end, low, blocks_on-pos c pc)))
                  ]
                ];
          })
