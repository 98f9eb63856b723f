-- ===== src/Geometry.antt =====
-- web/src/document/geometry.ts: positions of clips and notes in samples. The resolver is computed
-- where the source memoises it by the identity of the document. A throw is `none`.
pub mod Adjacent
use daw_project.Common.{Option, none, some, ◌>>=◌}
use daw_project.Common.Int.{◌+ℤ◌, ◌-ℤ◌}
use daw_project.Num.{Num, num}
use daw_project.Tempo.{build_boundary_table, samples_at_tick, tick_at_sample}
use daw_project.Schema.{ClipDef, NoteDef, ProjectDef, or_else, effective_tempo_map}

unfoldable pub tick_to_sample : ProjectDef → Num → Option Num
tick_to_sample doc tick = do
  let points = effective_tempo_map doc
  boundaries ← build_boundary_table points doc.sample_rate
  s ← samples_at_tick points boundaries doc.sample_rate tick
  some (num s)

unfoldable pub sample_to_tick : ProjectDef → Num → Option Num
sample_to_tick doc sample = do
  let points = effective_tempo_map doc
  boundaries ← build_boundary_table points doc.sample_rate
  t ← tick_at_sample points boundaries doc.sample_rate sample
  some (num t)

unfoldable pub clip_start_samples : ClipDef → ProjectDef → Option Num
clip_start_samples clip doc = elim clip.start_tick [
  | some tick ↦ tick_to_sample doc tick
  | none ↦ some (or_else clip.start_sample (num 0))
]

-- The distance of two ticks in samples.
tick_span : ProjectDef → Num → Num → Option Num
tick_span doc from until = do
  b ← tick_to_sample doc until
  a ← tick_to_sample doc from
  some (b -ℤ a)

unfoldable pub clip_length_samples : ClipDef → ProjectDef → Option Num
unfolding tick_span
clip_length_samples clip doc = elim clip.start_tick [
  | some tick ↦ elim clip.length_tick [
    | some len ↦ tick_span doc tick (tick +ℤ len)
    | none ↦ some (or_else clip.length_samples (num 0))
  ]
  | none ↦ some (or_else clip.length_samples (num 0))
]

unfoldable pub clip_end_samples : ClipDef → ProjectDef → Option Num
clip_end_samples clip doc = do
  a ← clip_start_samples clip doc
  n ← clip_length_samples clip doc
  some (a +ℤ n)

unfoldable pub note_start_samples : NoteDef → ClipDef → ProjectDef → Option Num
unfolding tick_span
note_start_samples note clip doc = elim clip.start_tick [
  | some tick ↦ elim note.start_tick [
    | some at ↦ tick_span doc tick (tick +ℤ at)
    | none ↦ some (or_else note.start_sample (num 0))
  ]
  | none ↦ some (or_else note.start_sample (num 0))
]

note_span : ProjectDef → Num → Option Num → NoteDef → Option Num
note_span doc abs none note = some (or_else note.length_samples (num 0))
note_span doc abs (some len) note = tick_span doc abs (abs +ℤ len)

unfoldable pub note_length_samples : NoteDef → ClipDef → ProjectDef → Option Num
unfolding note_span tick_span
note_length_samples note clip doc = elim clip.start_tick [
  | some tick ↦ elim note.start_tick [
    | some at ↦ note_span doc (tick +ℤ at) note.length_tick note
    | none ↦ some (or_else note.length_samples (num 0))
  ]
  | none ↦ some (or_else note.length_samples (num 0))
]
