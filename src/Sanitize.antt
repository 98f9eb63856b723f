-- ===== src/Sanitize.antt =====
-- web/src/document/sanitize.ts, less `cssId`.
use Prim.Native.Nat.{min}
use daw_project.Common.{ℕ, ◌*◌, ◌^◌, Bool, ◌&&◌}
use daw_project.Num.{Num, num, round_pos, clamp}
use daw_project.Schema.{ClipDef, is_some}

-- A value read from the document: a finite number, or anything else (NaN, an infinity, no number).
pub data JsValue : Type 0 where
  finite : Num → JsValue
  other : JsValue

abbrev pub max_samples : ℕ
max_samples = 48000 * 60 * 60 * 24

abbrev pub max_tick : ℕ
max_tick = 2 ^ 36

unfoldable pub clamp_samples : JsValue → Num
clamp_samples (finite n) = clamp (num 0) (num max_samples) n
clamp_samples other = num 0

unfoldable pub clamp_tick : JsValue → ℕ
clamp_tick (finite n) = min (round_pos n) max_tick
clamp_tick other = 0

-- True where the source returns a message.
unfoldable pub clip_domain_violation : ClipDef → Bool
clip_domain_violation clip = is_some clip.start_tick && is_some clip.start_sample
