-- ===== src/Tempo.antt =====
-- The tempo kernel, web/src/document/tempo.ts: whole numbers only (BigInt in the source). A throw
-- of the source is `none`.
pub mod Rounding
pub mod Integral
pub mod Inverse
pub mod Kernel
use Prim.Native.Nat.{max, min}
use daw_project.Common.{
  ℕ, zero, suc, ◌+◌, ◌-◌, ◌*◌, ◌/◌, ◌^◌, Option, none, some, List, [], ◌∷◌, map, leb, ltb, ◌==◌,
  if◌then◌else◌, ◌>>=◌, drop, get_elem?,
}
use daw_project.Num.{Num, num, round_pos}

pub record TempoPoint : Type 0 where
  pub tick : ℕ
  pub milli_bpm : ℕ

abbrev pub min_milli_bpm : ℕ
min_milli_bpm = 20000

abbrev pub max_milli_bpm : ℕ
max_milli_bpm = 999000

abbrev pub max_tick : ℕ
max_tick = 2 ^ 36

-- A negative numerator cannot be passed; a zero denominator throws.
unfoldable pub round_div : ℕ → ℕ → Option ℕ
round_div num den = if den == 0 then none else some ((2 * num + den) / (2 * den))

unfoldable pub seg_samples : ℕ → ℕ → ℕ → Option ℕ
seg_samples dt_ticks sample_rate milli_bpm =
    round_div (dt_ticks * sample_rate * 125) (2 * milli_bpm)

unfoldable pub clamp_milli_bpm : Num → ℕ
clamp_milli_bpm v = max min_milli_bpm (min max_milli_bpm (round_pos v))

clamp_point : TempoPoint → TempoPoint
clamp_point p = record { tick = p.tick; milli_bpm = clamp_milli_bpm (num p.milli_bpm) }

-- `map.unshift` of the register, where the list does not begin at 0.
anchor_at_zero : ℕ → List TempoPoint → List TempoPoint
anchor_at_zero reg [] = record { tick = 0; milli_bpm = reg } ∷ []
anchor_at_zero reg (p ∷ ps) =
    if p.tick == 0 then p ∷ ps else record { tick = 0; milli_bpm = reg } ∷ p ∷ ps

unfoldable pub effective_map : Num → List TempoPoint → List TempoPoint
unfolding clamp_point anchor_at_zero
effective_map tempo_milli_bpm tempo_map =
    anchor_at_zero (clamp_milli_bpm tempo_milli_bpm) (map clamp_point tempo_map)

-- A difference of positions; `roundDiv` throws on a negative one.
abbrev pub interval : ℕ → ℕ → Option ℕ
interval later earlier = if ltb later earlier then none else some (later - earlier)

-- The loop from the breakpoint `p`, whose boundary is `s`: the boundaries from `s` on.
pub boundaries_from : TempoPoint → ℕ → List TempoPoint → ℕ → Option (List ℕ)
boundaries_from p s [] sample_rate = some (s ∷ [])
boundaries_from p s (q ∷ qs) sample_rate = do
  dt ← interval q.tick p.tick
  d ← seg_samples dt sample_rate p.milli_bpm
  rest ← boundaries_from q (s + d) qs sample_rate
  some (s ∷ rest)

-- Of no breakpoint the table is the one boundary 0.
unfoldable pub build_boundary_table : List TempoPoint → ℕ → Option (List ℕ)
unfolding boundaries_from
build_boundary_table [] sample_rate = some (0 ∷ [])
build_boundary_table (p ∷ ps) sample_rate = boundaries_from p 0 ps sample_rate

-- `while (j + 1 < map.length && map[j + 1].tick <= t) j++`, over the breakpoints behind the first.
pub seek_tick : ℕ → List TempoPoint → ℕ
seek_tick t [] = 0
seek_tick t (q ∷ qs) = let j = seek_tick t qs in if leb q.tick t then suc j else 0

-- `while (j + 1 < S.length && S[j + 1] <= s) j++`
pub seek_sample : ℕ → List ℕ → ℕ
seek_sample s [] = 0
seek_sample s (b ∷ bs) = let j = seek_sample s bs in if leb b s then suc j else 0

-- A read out of bounds throws.
unfoldable pub samples_at_tick : List TempoPoint → List ℕ → ℕ → Num → Option ℕ
unfolding seek_tick
samples_at_tick points boundaries sample_rate tick = do
  let t = min (round_pos tick) max_tick
  let j = seek_tick t (drop 1 points)
  p ← get_elem? points j
  s ← get_elem? boundaries j
  dt ← interval t p.tick
  d ← seg_samples dt sample_rate p.milli_bpm
  some (s + d)

unfoldable pub tick_at_sample : List TempoPoint → List ℕ → ℕ → Num → Option ℕ
unfolding seek_sample
tick_at_sample points boundaries sample_rate sample = do
  let s = round_pos sample
  let j = seek_sample s (drop 1 boundaries)
  p ← get_elem? points j
  b ← get_elem? boundaries j
  ds ← interval s b
  d ← round_div (ds * 2 * p.milli_bpm) (sample_rate * 125)
  some (min (p.tick + d) max_tick)
