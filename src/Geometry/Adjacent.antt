-- ===== src/Geometry/Adjacent.antt =====
-- The positions of musical clips, web/src/document/geometry.ts, on a document with a sorted map.
use Prim.Native.Nat.{min}
use daw_project.Common.{◌≡◌, refl, ap, some, []}
use daw_project.Common.Int.{int_laws, eq_of_parts, ◌+ℤ◌, ◌-ℤ◌}
use daw_project.Num.{Num, num, round_pos}
use daw_project.Tempo.{max_tick}
use daw_project.Tempo.Kernel.{Rising, effective_map-IsMap, integral, samples_at_tick-eq-integral}
use daw_project.Schema.{ClipDef, ProjectDef, or_else, effective_tempo_map}
use daw_project.Geometry.{
  tick_to_sample, tick_span, clip_start_samples, clip_length_samples, clip_end_samples,
}

-- The tempo map that the document keeps is sorted, with no tick twice.
abbrev pub HasSortedMap : ProjectDef → Type 0
HasSortedMap d = Rising (or_else d.tempo_map [])

rejoin : (a b : Num) → a +ℤ (b -ℤ a) ≡ b
rejoin a b = eq_of_parts (a +ℤ (b -ℤ a)) b (omega int_laws)

module _ (d : ProjectDef) (sorted : HasSortedMap d) where
  abbrev at : Num → Num
  at x = num (integral d.sample_rate (effective_tempo_map d) (min (round_pos x) max_tick))

  tick_to_sample-some : (x : Num) → tick_to_sample d x ≡ some (at x)
  unfolding tick_to_sample effective_tempo_map
  tick_to_sample-some x =
      let (boundaries, e, f) = samples_at_tick-eq-integral d.sample_rate (effective_tempo_map d) x (
        effective_map-IsMap (or_else d.tempo_milli_bpm (num 120000)) (or_else d.tempo_map [])
          sorted) in
      rw (e, f) refl

  -- Where one musical clip ends at the tick on which another starts, the first ends in samples
  -- exactly where the second starts: no gap and no overlap, whatever the tempo changes between.
  pub clip_end-clip_start :
      (a b : ClipDef) (tick len : Num)
      → a.start_tick ≡ some tick
      → a.length_tick ≡ some len
      → b.start_tick ≡ some (tick +ℤ len)
      → (s : Num) × (clip_end_samples a d ≡ some s) × (clip_start_samples b d ≡ some s)
  unfolding clip_end_samples clip_start_samples clip_length_samples tick_span
  clip_end-clip_start a b tick len ha hl hb = (
    at (tick +ℤ len),
    rw (ha, hl, tick_to_sample-some tick, tick_to_sample-some (tick +ℤ len))
        (ap some (rejoin (at tick) (at (tick +ℤ len)))),
    rw hb (tick_to_sample-some (tick +ℤ len)),
  )
