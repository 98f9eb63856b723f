-- ===== src/Tempo/Inverse.antt =====
-- `tickAtSample` along the segments, and that it undoes `samplesAtTick` on segments where a sample
-- is shorter than a tick.
use native.Mathlib.Nat.{mul_assoc}
use daw_project.Common.{
  ℕ, suc, ◌+◌, ◌-◌, ◌*◌, ◌≤◌, ◌<◌, ◌≡◌, refl, some, List, [], ◌∷◌, arith, leb, if◌then◌else◌, ◌>>=◌,
  drop, get_elem?, Bool-cases, inl, inr, Option, false, true,
}
use daw_project.Tempo.{TempoPoint, interval, round_div, seek_sample}
use daw_project.Tempo.Rounding.{half_up, half_up-lt, half_up_inverse, round_div-some}
use daw_project.Tempo.Integral.{HaveTempo, seg, table, position, le-position}

-- A tick is longer than a sample, at every tempo of the map.
abbrev pub FineGrid : ℕ → List TempoPoint → Type 0
FineGrid sr [] = Unit
FineGrid sr (p ∷ ps) = (2 * p.milli_bpm < sr * 125) × FineGrid sr ps

seg_assoc : (dt sr m : ℕ) → seg dt sr m ≡ half_up (dt * (sr * 125)) (2 * m)
unfolding seg
seg_assoc dt sr m = rw (mul_assoc dt sr 125)

pub seg-lt : (dt dt' sr m : ℕ) → 0 < m → 2 * m < sr * 125 → dt < dt' → seg dt sr m < seg dt' sr m
seg-lt dt dt' sr m h k l =
    rw (seg_assoc dt sr m, seg_assoc dt' sr m) (half_up-lt _ _ (2 * m) (omega arith) (grind arith))

pub seg_inverse :
    (dt sr m : ℕ) → 0 < m → 2 * m < sr * 125 → half_up (seg dt sr m * 2 * m) (sr * 125) ≡ dt
seg_inverse dt sr m h k =
    rw (seg_assoc dt sr m, mul_assoc (half_up (dt * (sr * 125)) (2 * m)) 2 m)
      (half_up_inverse dt (sr * 125) (2 * m) (omega arith) k)

cancel : (b d : ℕ) → b + d - b ≡ d
cancel b d = omega arith

le→leb : (a b : ℕ) → a ≤ b → leb a b ≡ true
le→leb a b h = ground arith

module _ (sr : ℕ) where
  pub tick_position : TempoPoint → ℕ → List TempoPoint → ℕ → ℕ
  tick_position p b [] x = p.tick + half_up ((x - b) * 2 * p.milli_bpm) (sr * 125)
  tick_position p b (q ∷ qs) x =
      let b' = b + seg (q.tick - p.tick) sr p.milli_bpm in
      let beyond = tick_position q b' qs x in
      if leb b' x then beyond else p.tick + half_up ((x - b) * 2 * p.milli_bpm) (sr * 125)

  -- The read of the map and of the table at the index that the loop over the table finds.
  unfoldable pub read_back : TempoPoint → ℕ → List TempoPoint → ℕ → Option ℕ
  read_back p b qs x = do
    q ← get_elem? (p ∷ qs) (seek_sample x (drop 1 (table sr p b qs)))
    c ← get_elem? (table sr p b qs) (seek_sample x (drop 1 (table sr p b qs)))
    ds ← interval x c
    d ← round_div (ds * 2 * q.milli_bpm) (sr * 125)
    some (q.tick + d)

  last_leg :
      (p : TempoPoint) (b x : ℕ)
      → 0 < sr
      → b ≤ x
      → (interval x b >>= λ ds.
          round_div (ds * 2 * p.milli_bpm) (sr * 125) >>= λ d. some (p.tick + d))
        ≡ some (p.tick + half_up ((x - b) * 2 * p.milli_bpm) (sr * 125))
  last_leg p b x h k =
      let step : interval x b ≡ some (x - b) = ground arith in
      rw (step, round_div-some ((x - b) * 2 * p.milli_bpm) (sr * 125) (omega arith))

  seek_sample-table :
      (q : TempoPoint) (b : ℕ) (qs : List TempoPoint) (x : ℕ)
      → seek_sample x (table sr q b qs)
        ≡ (if leb b x then suc (seek_sample x (drop 1 (table sr q b qs))) else 0)
  unfolding table seek_sample
  seek_sample-table q b [] x = refl
  seek_sample-table q b (q' ∷ qs) x = refl

  pub read_back-eq :
      (p : TempoPoint) (b : ℕ) (qs : List TempoPoint) (x : ℕ)
      → 0 < sr
      → b ≤ x
      → read_back p b qs x ≡ some (tick_position p b qs x)
  unfolding read_back table tick_position seek_sample
  read_back-eq p b [] x h k = last_leg p b x h k
  read_back-eq p b (q ∷ qs) x h k =
      let b' = b + seg (q.tick - p.tick) sr p.milli_bpm in
      elim (Bool-cases (leb b' x)) [
        | inl e ↦
            rw (seek_sample-table q b' qs x, e, read_back) (read_back-eq q b' qs x h (ground arith))
        | inr e ↦ rw (seek_sample-table q b' qs x, e) (last_leg p b x h k)
      ]

  leb-position :
      (q : TempoPoint) (b : ℕ) (qs : List TempoPoint) (t : ℕ) → leb b (position sr q b qs t) ≡ true
  leb-position q b qs t = le→leb _ _ (le-position sr q b qs t)

  -- Back from the position of a tick to the tick.
  pub tick_position-position :
      (p : TempoPoint) (b : ℕ) (qs : List TempoPoint) (t : ℕ)
      → HaveTempo (p ∷ qs)
      → FineGrid sr (p ∷ qs)
      → p.tick ≤ t
      → tick_position p b qs (position sr p b qs t) ≡ t
  unfolding tick_position position
  tick_position-position p b [] t h g k =
      rw
        (
          cancel b (seg (t - p.tick) sr p.milli_bpm),
          seg_inverse (t - p.tick) sr p.milli_bpm h.0 g.0,
        )
        (omega arith)
  tick_position-position p b (q ∷ qs) t h g k =
      let b' = b + seg (q.tick - p.tick) sr p.milli_bpm in
      elim (Bool-cases (leb q.tick t)) [
        | inl e ↦
            rw (e, leb-position q b' qs t) (tick_position-position q b' qs t h.1 g.1 (ground arith))
        | inr e ↦
            let near : seg (t - p.tick) sr p.milli_bpm < seg (q.tick - p.tick) sr p.milli_bpm =
              seg-lt _ _ sr p.milli_bpm h.0 g.0 (ground arith) in
            let before : leb b' (b + seg (t - p.tick) sr p.milli_bpm) ≡ false = ground arith in
            rw
              (
                e,
                before,
                cancel b (seg (t - p.tick) sr p.milli_bpm),
                seg_inverse (t - p.tick) sr p.milli_bpm h.0 g.0,
              )
              (omega arith)
      ]
