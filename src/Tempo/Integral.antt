-- ===== src/Tempo/Integral.antt =====
-- The position of a tick as one sum over the segments, with no table: what `samplesAtTick` computes
-- through the boundary table, and its order.
use daw_project.Common.{
  ℕ, ◌+◌, ◌-◌, ◌*◌, ◌≤◌, ◌<◌, ◌≡◌, refl, some, List, [], ◌∷◌, arith, leb, if◌then◌else◌, ◌>>=◌,
  get_elem?, Bool-cases, inl, inr, Option,
}
use daw_project.Tempo.{TempoPoint, seg_samples, interval, boundaries_from, seek_tick}
use daw_project.Tempo.Rounding.{half_up, half_up_mono, round_div-some}

-- The ticks rise strictly from `p` on.
abbrev pub Rises : TempoPoint → List TempoPoint → Type 0
Rises p [] = Unit
Rises p (q ∷ qs) = (p.tick < q.tick) × Rises q qs

abbrev pub HaveTempo : List TempoPoint → Type 0
HaveTempo [] = Unit
HaveTempo (p ∷ ps) = (0 < p.milli_bpm) × HaveTempo ps

-- A segment, as `segSamples` has it at a tempo above 0.
unfoldable pub seg : ℕ → ℕ → ℕ → ℕ
seg dt sample_rate milli_bpm = half_up (dt * sample_rate * 125) (2 * milli_bpm)

pub seg_samples-some : (dt sr m : ℕ) → 0 < m → seg_samples dt sr m ≡ some (seg dt sr m)
unfolding seg_samples seg
seg_samples-some dt sr m h = round_div-some _ _ (omega arith)

pub seg_mono : (dt dt' sr m : ℕ) → 0 < m → dt ≤ dt' → seg dt sr m ≤ seg dt' sr m
unfolding seg
seg_mono dt dt' sr m h k = half_up_mono _ _ _ (omega arith) (grind arith)

module _ (sr : ℕ) where
  last_leg :
      (p : TempoPoint) (s t : ℕ)
      → 0 < p.milli_bpm
      → p.tick ≤ t
      → (interval t p.tick >>= λ dt. seg_samples dt sr p.milli_bpm >>= λ d. some (s + d))
        ≡ some (s + seg (t - p.tick) sr p.milli_bpm)
  last_leg p s t h k =
      let step : interval t p.tick ≡ some (t - p.tick) = ground arith in
      rw (step, seg_samples-some (t - p.tick) sr p.milli_bpm h)

  -- From the breakpoint `p`, `s` samples in, to the tick `t`.
  unfoldable pub position : TempoPoint → ℕ → List TempoPoint → ℕ → ℕ
  position p s [] t = s + seg (t - p.tick) sr p.milli_bpm
  position p s (q ∷ qs) t =
      let beyond = position q (s + seg (q.tick - p.tick) sr p.milli_bpm) qs t in
      if leb q.tick t then beyond else s + seg (t - p.tick) sr p.milli_bpm

  unfoldable pub table : TempoPoint → ℕ → List TempoPoint → List ℕ
  table p s [] = s ∷ []
  table p s (q ∷ qs) = s ∷ table q (s + seg (q.tick - p.tick) sr p.milli_bpm) qs

  pub boundaries_from-some :
      (p : TempoPoint) (s : ℕ) (qs : List TempoPoint)
      → Rises p qs
      → HaveTempo (p ∷ qs)
      → boundaries_from p s qs sr ≡ some (table p s qs)
  unfolding boundaries_from table
  boundaries_from-some p s [] r h = refl
  boundaries_from-some p s (q ∷ qs) r h =
      let step : interval q.tick p.tick ≡ some (q.tick - p.tick) = ground arith in
      rw (
        step,
        seg_samples-some (q.tick - p.tick) sr p.milli_bpm h.0,
        boundaries_from-some q _ qs r.1 h.1,
      )

  -- The read of the map and of the table at the index that the loop finds.
  unfoldable pub read : TempoPoint → ℕ → List TempoPoint → ℕ → Option ℕ
  read p s qs t = do
    q ← get_elem? (p ∷ qs) (seek_tick t qs)
    b ← get_elem? (table p s qs) (seek_tick t qs)
    dt ← interval t q.tick
    d ← seg_samples dt sr q.milli_bpm
    some (b + d)

  pub read-eq-position :
      (p : TempoPoint) (s : ℕ) (qs : List TempoPoint) (t : ℕ)
      → HaveTempo (p ∷ qs)
      → p.tick ≤ t
      → read p s qs t ≡ some (position p s qs t)
  unfolding read table position seek_tick
  read-eq-position p s [] t h k = last_leg p s t h.0 k
  read-eq-position p s (q ∷ qs) t h k = elim (Bool-cases (leb q.tick t)) [
    | inl e ↦ rw (e, read, seek_tick) (read-eq-position q _ qs t h.1 (ground arith))
    | inr e ↦ rw (e, read, seek_tick) (last_leg p s t h.0 k)
  ]

  pub le-position : (p : TempoPoint) (s : ℕ) (qs : List TempoPoint) (t : ℕ) → s ≤ position p s qs t
  unfolding position
  le-position p s [] t = omega arith
  le-position p s (q ∷ qs) t =
      ground (arith, le-position q (s + seg (q.tick - p.tick) sr p.milli_bpm) qs t)

  pub position_mono :
      (p : TempoPoint) (s : ℕ) (qs : List TempoPoint) (t u : ℕ)
      → HaveTempo (p ∷ qs)
      → t ≤ u
      → position p s qs t ≤ position p s qs u
  unfolding position
  position_mono p s [] t u h k =
      omega (arith, seg_mono (t - p.tick) (u - p.tick) sr p.milli_bpm h.0 (omega arith))
  position_mono p s (q ∷ qs) t u h k =
      let s' = s + seg (q.tick - p.tick) sr p.milli_bpm in
      ground (
        arith,
        position_mono q s' qs t u h.1 k,
        le-position q s' qs u,
        seg_mono (t - p.tick) (u - p.tick) sr p.milli_bpm h.0,
        seg_mono (t - p.tick) (q.tick - p.tick) sr p.milli_bpm h.0,
      )
