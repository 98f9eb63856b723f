-- ===== src/Tests/Kernel.antt =====
-- A map with one tempo change.
use Prim.Native.Nat.{min}
use daw_project.Common.{ℕ, List, some, [], ◌∷◌, ◌≡◌, ◌≤◌, refl, arith}
use daw_project.Num.{num, round_pos}
use daw_project.Tempo.{TempoPoint, max_tick, build_boundary_table, samples_at_tick, tick_at_sample}
use daw_project.Tempo.Kernel.{
  IsMap, integral, samples_at_tick-eq-integral, samples_at_tick_mono,
  tick_at_sample-samples_at_tick,
}

abbrev points : List TempoPoint
points = record { tick = 0; milli_bpm = 120000 } ∷ record { tick = 960; milli_bpm = 97531 } ∷ []

points-IsMap : IsMap points
points-IsMap = (refl, (omega arith, tt), (omega arith, omega arith, (omega arith, omega arith, tt)))

samples_at_tick-eq-integral_example :
    (boundaries : List ℕ) × (build_boundary_table points 48000 ≡ some boundaries)
    × (samples_at_tick points boundaries 48000 (num 1501)
        ≡ some (integral 48000 points (min (round_pos (num 1501)) max_tick)))
samples_at_tick-eq-integral_example =
    samples_at_tick-eq-integral 48000 points (num 1501) points-IsMap

samples_at_tick_mono_example :
    (boundaries : List ℕ) × (a : ℕ) × (b : ℕ) × (build_boundary_table points 48000
      ≡ some boundaries)
    × (samples_at_tick points boundaries 48000 (num 959) ≡ some a)
    × (samples_at_tick points boundaries 48000 (num 961) ≡ some b)
    × (a ≤ b)
samples_at_tick_mono_example =
    samples_at_tick_mono 48000 points (num 959) (num 961) points-IsMap (omega arith)

tick_at_sample-samples_at_tick_example :
    (boundaries : List ℕ) × (a : ℕ) × (build_boundary_table points 48000 ≡ some boundaries)
    × (samples_at_tick points boundaries 48000 (num 1501) ≡ some a)
    × (tick_at_sample points boundaries 48000 (num a) ≡ some 1501)
tick_at_sample-samples_at_tick_example =
    tick_at_sample-samples_at_tick 48000 points 1501 points-IsMap (omega arith) (omega arith)
