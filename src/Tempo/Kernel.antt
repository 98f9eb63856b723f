-- ===== src/Tempo/Kernel.antt =====
-- What tempo.ts promises of a tempo map: the effective map, the canonical position of a tick and
-- its inverse.
use Prim.Native.Nat.{min}
use daw_project.Common.{
  ◌<◌, ℕ, ◌≤◌, ◌≡◌, refl, some, List, [], ◌∷◌, arith, map, ◌>>=◌, Bool-cases, inl, inr, ◌==◌,
}
use daw_project.Num.{Num, num, round_pos, round_pos-num, round_pos_mono}
use daw_project.Common.Int.{◌≤ℤ◌}
use daw_project.Tempo.{
  TempoPoint, max_tick, min_milli_bpm, max_milli_bpm, clamp_milli_bpm, effective_map, clamp_point,
  anchor_at_zero, build_boundary_table, samples_at_tick, tick_at_sample,
}
use daw_project.Tempo.Integral.{
  Rises, HaveTempo, table, position, boundaries_from-some, read, read-eq-position, position_mono,
}
use daw_project.Tempo.Inverse.{
  tick_position, FineGrid, read_back, read_back-eq, tick_position-position,
}

-- The list of breakpoints that the document keeps is sorted, with no tick twice.
abbrev pub Rising : List TempoPoint → Type 0
Rising [] = Unit
Rising (p ∷ qs) = Rises p qs

abbrev pub InRange : List TempoPoint → Type 0
InRange [] = Unit
InRange (p ∷ ps) = (min_milli_bpm ≤ p.milli_bpm) × (p.milli_bpm ≤ max_milli_bpm) × InRange ps

-- A map that the kernel integrates: from tick 0, rising, at tempos in the range.
abbrev pub IsMap : List TempoPoint → Type 0
IsMap [] = ⊥
IsMap (p ∷ qs) = (p.tick ≡ 0) × Rises p qs × InRange (p ∷ qs)

clamp_milli_bpm-InRange :
    (v : Num) → (min_milli_bpm ≤ clamp_milli_bpm v) × (clamp_milli_bpm v ≤ max_milli_bpm)
unfolding clamp_milli_bpm
clamp_milli_bpm-InRange v = omega arith

map-InRange : (ps : List TempoPoint) → InRange (map clamp_point ps)
unfolding clamp_point
map-InRange [] = tt
map-InRange (p ∷ ps) =
    let r = clamp_milli_bpm-InRange (num p.milli_bpm) in (r.0, r.1, map-InRange ps)

map-Rises :
    (p : TempoPoint) (ps : List TempoPoint)
    → Rises p ps
    → Rises (clamp_point p) (map clamp_point ps)
unfolding clamp_point
map-Rises p [] r = tt
map-Rises p (q ∷ qs) r = (r.0, map-Rises q qs r.1)

anchor_at_zero-IsMap :
    (reg : ℕ) (ps : List TempoPoint)
    → min_milli_bpm ≤ reg
    → reg ≤ max_milli_bpm
    → Rising ps
    → InRange ps
    → IsMap (anchor_at_zero reg ps)
unfolding anchor_at_zero
anchor_at_zero-IsMap reg [] h k r i = (refl, tt, (h, k, tt))
anchor_at_zero-IsMap reg (p ∷ ps) h k r i = elim (Bool-cases (p.tick == 0)) [
  | inl e ↦ rw e (ground arith, r, i)
  | inr e ↦ rw e (refl, (ground arith, r), (h, k, i))
]

map-Rising : (ps : List TempoPoint) → Rising ps → Rising (map clamp_point ps)
map-Rising [] r = tt
map-Rising (p ∷ ps) r = map-Rises p ps r

-- Whatever the register and the tempos of a sorted list, the effective map begins at tick 0, rises
-- strictly and has every tempo between 20000 and 999000 milli-BPM.
pub effective_map-IsMap :
    (tempo : Num) (ps : List TempoPoint) → Rising ps → IsMap (effective_map tempo ps)
unfolding effective_map
effective_map-IsMap tempo ps r =
    let b = clamp_milli_bpm-InRange tempo in
    anchor_at_zero-IsMap (clamp_milli_bpm tempo) (map clamp_point ps) b.0 b.1 (map-Rising ps r)
      (map-InRange ps)

InRange-HaveTempo : (ps : List TempoPoint) → InRange ps → HaveTempo ps
InRange-HaveTempo [] h = tt
InRange-HaveTempo (p ∷ ps) h = (omega arith, InRange-HaveTempo ps h.2)

InRange-FineGrid : (sr : ℕ) (ps : List TempoPoint) → 15985 ≤ sr → InRange ps → FineGrid sr ps
InRange-FineGrid sr [] l h = tt
InRange-FineGrid sr (p ∷ ps) l h = (omega arith, InRange-FineGrid sr ps l h.2)

-- The position of a tick as one sum over the segments of the map, each rounded once.
pub integral : ℕ → List TempoPoint → ℕ → ℕ
integral sr [] t = 0
integral sr (p ∷ qs) t = position sr p 0 qs t

module _ (sr : ℕ) where
  boundary_table : List TempoPoint → List ℕ
  boundary_table [] = 0 ∷ []
  boundary_table (p ∷ qs) = table sr p 0 qs

  build_boundary_table-some :
      (points : List TempoPoint)
      → IsMap points
      → build_boundary_table points sr ≡ some (boundary_table points)
  unfolding build_boundary_table boundary_table
  build_boundary_table-some [] m = absurd m
  build_boundary_table-some (p ∷ qs) m =
      boundaries_from-some sr p 0 qs m.1 (InRange-HaveTempo (p ∷ qs) m.2)

  samples_at_tick-table :
      (points : List TempoPoint)
      → IsMap points
      → (x : Num)
      → samples_at_tick points (boundary_table points) sr x
        ≡ some (integral sr points (min (round_pos x) max_tick))
  unfolding samples_at_tick boundary_table integral read
  samples_at_tick-table [] m x = absurd m
  samples_at_tick-table (p ∷ qs) m x =
      read-eq-position sr p 0 qs _ (InRange-HaveTempo (p ∷ qs) m.2) (omega arith)

  -- On a map that rises from 0 nothing throws, and through the boundary table every tick has the
  -- position that the sum over the segments gives, the tick rounded and held within 0 and 2^36.
  pub samples_at_tick-eq-integral :
      (points : List TempoPoint) (x : Num)
      → IsMap points
      → (boundaries : List ℕ) × (build_boundary_table points sr ≡ some boundaries)
        × (samples_at_tick points boundaries sr x
            ≡ some (integral sr points (min (round_pos x) max_tick)))
  samples_at_tick-eq-integral points x m =
      (boundary_table points, build_boundary_table-some points m, samples_at_tick-table points m x)

  min-max_tick : (t : ℕ) → t ≤ max_tick → min t max_tick ≡ t
  min-max_tick t h = omega arith

  integral_mono :
      (points : List TempoPoint) (t u : ℕ)
      → IsMap points
      → t ≤ u
      → integral sr points t ≤ integral sr points u
  unfolding integral
  integral_mono [] t u m h = absurd m
  integral_mono (p ∷ qs) t u m h = position_mono sr p 0 qs t u (InRange-HaveTempo (p ∷ qs) m.2) h

  -- A later tick never has an earlier position, across tempo changes too.
  pub samples_at_tick_mono :
      (points : List TempoPoint) (x y : Num)
      → IsMap points
      → x ≤ℤ y
      → (boundaries : List ℕ) × (a : ℕ) × (b : ℕ) × (build_boundary_table points sr
          ≡ some boundaries)
        × (samples_at_tick points boundaries sr x ≡ some a)
        × (samples_at_tick points boundaries sr y ≡ some b)
        × (a ≤ b)
  samples_at_tick_mono points x y m h = (
    boundary_table points,
    _,
    _,
    build_boundary_table-some points m,
    samples_at_tick-table points m x,
    samples_at_tick-table points m y,
    integral_mono points _ _ m (omega (arith, round_pos_mono x y h)),
  )

  tick_at_sample-eq-read_back :
      (p : TempoPoint) (qs : List TempoPoint) (x : Num)
      → tick_at_sample (p ∷ qs) (table sr p 0 qs) sr x
        ≡ (read_back sr p 0 qs (round_pos x) >>= λ y. some (min y max_tick))
  unfolding tick_at_sample read_back
  tick_at_sample-eq-read_back p qs x = ground arith

  tick_at_sample-table :
      (points : List TempoPoint)
      → IsMap points
      → 15985 ≤ sr
      → (t : ℕ) → t ≤ max_tick
      → tick_at_sample points (boundary_table points) sr (num (integral sr points t)) ≡ some t
  unfolding boundary_table integral
  tick_at_sample-table [] m l t h = absurd m
  tick_at_sample-table (p ∷ qs) m l t h = rw (
    tick_at_sample-eq-read_back p qs,
    round_pos-num,
    read_back-eq sr p 0 qs (position sr p 0 qs t) (omega arith) (omega arith),
    tick_position-position sr p 0 qs t (InRange-HaveTempo (p ∷ qs) m.2)
        (InRange-FineGrid sr (p ∷ qs) l m.2) (omega arith),
    min-max_tick t h,
  )

  tick_at_sample-some :
      (points : List TempoPoint)
      → IsMap points
      → 0 < sr
      → (x : Num) → (t : ℕ) × (tick_at_sample points (boundary_table points) sr x ≡ some t)
  unfolding boundary_table
  tick_at_sample-some [] m l x = absurd m
  tick_at_sample-some (p ∷ qs) m l x = (
    min (tick_position sr p 0 qs (round_pos x)) max_tick,
    rw (
      tick_at_sample-eq-read_back p qs x,
      read_back-eq sr p 0 qs (round_pos x) (omega arith) (omega arith),
    ),
  )

  -- On a map that rises from 0 and at a positive sample rate every position has a tick.
  pub tick_at_sample_total :
      (points : List TempoPoint) (x : Num)
      → IsMap points
      → 0 < sr
      → (boundaries : List ℕ) × (t : ℕ) × (build_boundary_table points sr ≡ some boundaries)
        × (tick_at_sample points boundaries sr x ≡ some t)
  tick_at_sample_total points x m l =
      let (t, e) = tick_at_sample-some points m l x in
      (boundary_table points, t, build_boundary_table-some points m, e)

  -- At a sample rate of 15985 Hz or more the inverse is exact: the position of a tick up to 2^36,
  -- taken back, is that tick.
  pub tick_at_sample-samples_at_tick :
      (points : List TempoPoint) (t : ℕ)
      → IsMap points
      → 15985 ≤ sr
      → t ≤ max_tick
      → (boundaries : List ℕ) × (a : ℕ) × (build_boundary_table points sr ≡ some boundaries)
        × (samples_at_tick points boundaries sr (num t) ≡ some a)
        × (tick_at_sample points boundaries sr (num a) ≡ some t)
  tick_at_sample-samples_at_tick points t m l h = (
    boundary_table points,
    integral sr points t,
    build_boundary_table-some points m,
    rw (samples_at_tick-table points m (num t), round_pos-num, min-max_tick t h),
    tick_at_sample-table points m l t h,
  )
