-- ===== src/Mutators/Clips/Fades.antt =====
-- The fades that `setClipFades` leaves on a clip.
use Prim.Native.Nat.{min}
use native.Mathlib.Nat.{mul-div-le}
use daw_project.Common.{◌*◌, ◌/◌, ◌≤◌, ℕ, ◌≡◌, refl, arith, String, some}
use daw_project.Common.Int.{pos, negsuc, pos_part, int_laws, ◌+ℤ◌, ◌≤ℤ◌}
use daw_project.Num.{Num, num, unit, round_pos}
use daw_project.Schema.{ClipDef, ProjectDef, or_else}
use daw_project.Undo.{InverseOp, set_clip_fades as op_fades}
use daw_project.Document.{applied, find_clip, update_clip}
use daw_project.Document.Access.{find_clip-update_clip}
use daw_project.Mutators.Clips.{half_length, with_fades, set_clip_fades}

abbrev pub fade_in_of : ClipDef → Num
fade_in_of c = or_else c.fade_in_samples (num 0)

abbrev pub fade_out_of : ClipDef → Num
fade_out_of c = or_else c.fade_out_samples (num 0)

-- The fades are not negative and together no longer than the clip.
abbrev pub FadesApart : ClipDef → Type 0
FadesApart c =
    (num 0 ≤ℤ fade_in_of c)
    × (num 0 ≤ℤ fade_out_of c)
    × (fade_in_of c +ℤ fade_out_of c ≤ℤ or_else c.length_samples (num 0))

halves_fit :
    (len : Num) (a b : ℕ)
    → num 0 ≤ℤ len
    → a ≤ pos_part len / (2 * unit)
    → b ≤ pos_part len / (2 * unit)
    → num a +ℤ num b ≤ℤ len
halves_fit (pos n) a b h k l = omega (int_laws, mul-div-le n (2 * unit))
halves_fit (negsuc n) a b h k l = absurd (omega arith)

with_fades-FadesApart :
    (i o : Num) (c : ClipDef)
    → num 0 ≤ℤ or_else c.length_samples (num 0)
    → FadesApart (with_fades i o c)
with_fades-FadesApart i o c h = (
  omega arith,
  omega arith,
  halves_fit (or_else c.length_samples (num 0)) (min (half_length c) (round_pos i))
      (min (half_length c) (round_pos o)) h (omega arith) (omega arith),
)

-- Whatever fades are asked of a clip whose length is not negative, the call finds the clip there
-- afterwards with its length kept and with fades that are not negative and do not overlap.
pub set_clip_fades-FadesApart :
    (track_id clip_id : String) (fade_in fade_out : Num) (c : ClipDef) (d : ProjectDef)
    → find_clip d track_id clip_id ≡ some c
    → num 0 ≤ℤ or_else c.length_samples (num 0)
    → (inverse : InverseOp) × (d' : ProjectDef) × (c' : ClipDef) × (set_clip_fades track_id clip_id
          fade_in fade_out d
        ≡ applied inverse d')
      × (find_clip d' track_id clip_id ≡ some c')
      × (c'.length_samples ≡ c.length_samples)
      × FadesApart c'
unfolding set_clip_fades
set_clip_fades-FadesApart track_id clip_id fade_in fade_out c d found h = (
  op_fades track_id clip_id (fade_in_of c) (fade_out_of c),
  update_clip track_id clip_id (with_fades fade_in fade_out) d,
  with_fades fade_in fade_out c,
  rw (found, set_clip_fades) refl,
  find_clip-update_clip d track_id clip_id (with_fades fade_in fade_out) c found refl,
  refl,
  with_fades-FadesApart fade_in fade_out c h,
)
