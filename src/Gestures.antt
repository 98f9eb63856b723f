-- ===== src/Gestures.antt =====
-- Resizing a clip by one of its edges, web/src/app/gestures.ts: `beginClipResize`, and the snap rule of
-- web/src/app/navigation.ts. Where the source holds seconds, positions here are samples, the seconds
-- times the sample rate, so that what it divides by the rate and multiplies again is exact.
pub mod Trim
mod Writes
mod Wide
pub mod Undone
use daw_project.Common.{
  ℕ, zero, suc, ◌+◌, ◌-◌, ◌*◌, ◌/◌, String, Bool, true, false, ◌&&◌, ◌||◌, not, Option, none, some,
  List, [], ◌∷◌, ltb, leb, if◌then◌else◌, str_eq, ◌>>=◌,
}
use daw_project.Common.Int.{pos, pos_part, neg_part, negsuc, ◌+ℤ◌, ◌-ℤ◌, ltb_ℤ}
use daw_project.Num.{Num, num, unit, min_num, max_num}
use daw_project.Schema.{ClipDef, TrackDef, ProjectDef, or_else, is_musical_clip}
use daw_project.Undo.{ClipBounds}
use daw_project.Geometry.{
  clip_start_samples, clip_length_samples, clip_end_samples, sample_to_tick, tick_to_sample,
}
use daw_project.Document.{find_track, find_clip, clip_is}
use daw_project.Mutators.Clips.{set_clip_bounds}
use daw_project.Project.{Automerge, Project, mutate, begin_undo_group, end_undo_group}

-- `doc.sampleRate || 48000`
abbrev rate_of : ProjectDef → ℕ
rate_of doc = elim doc.sample_rate [ zero ↦ 48000 | suc n ↦ suc n ]

-- Sixteenths of a second in a step of the grid, by the pixels per second.
unfoldable pub snap_step : Num → ℕ
snap_step pps =
    if not (ltb_ℤ pps (num 80))
    then 1
    else if not (ltb_ℤ pps (num 40))
    then 2
    else if not (ltb_ℤ pps (num 10))
    then 4
    else 8

unfoldable pub snap_tick_step : Num → ℕ
snap_tick_step pps =
    if not (ltb_ℤ pps (num 80))
    then 120
    else if not (ltb_ℤ pps (num 40))
    then 240
    else if not (ltb_ℤ pps (num 10))
    then 480
    else 960

-- Math.round(x / step) * step
unfoldable pub round_to : ℕ → Num → Num
round_to step (pos n) = pos ((2 * n + step) / (2 * step) * step)
round_to step (negsuc n) = pos 0 -ℤ pos ((2 * suc n + step - 1) / (2 * step) * step)

unfoldable pub snap_sec_musical : ProjectDef → Num → Num → Option Num
snap_sec_musical doc pps sample = sample_to_tick doc sample >>= λ tick.
    tick_to_sample doc (max_num (num 0) (round_to (snap_tick_step pps * unit) tick))

-- The first edge within 8 pixels; both sides are times the rate and two steps of `Num`.
unfoldable pub near_edge : ℕ → Num → Num → List Num → Option Num
near_edge rate pps sample [] = none
near_edge rate pps sample (edge ∷ edges) =
    let d = sample -ℤ edge in
    if ltb ((pos_part d + neg_part d) * pos_part pps) (8 * rate * (unit * unit))
    then some edge
    else near_edge rate pps sample edges

pub data Side : Type 0 where
  left right : Side

-- What the gesture knows from its start.
pub record Resize : Type 0 where
  pub track_id : String
  pub clip_id : String
  pub side : Side
  pub doc : ProjectDef
  pub is_musical : Bool
  pub edges : List Num
  pub orig : ClipBounds

-- A pointer move: its way in pixels, and in samples as the browser divides, the scale and the Alt key.
pub record Move : Type 0 where
  pub dx : Num
  pub shift : Num
  pub pps : Num
  pub alt : Bool

abbrev pub min_length : Num
min_length = num 1024

-- Start and end of every other clip of the track; a throw is `none`.
edges_of : ProjectDef → String → List ClipDef → Option (List Num)
edges_of doc clip_id [] = some []
edges_of doc clip_id (c ∷ cs) =
    let rest = edges_of doc clip_id cs in
    if str_eq c.id clip_id then rest else (do
      start ← clip_start_samples c doc
      end' ← clip_end_samples c doc
      edges ← rest
      some (start ∷ end' ∷ edges))

resize_of : ProjectDef → String → String → Side → TrackDef → ClipDef → Option Resize
unfolding edges_of
resize_of doc track_id clip_id side track clip = do
  edges ← edges_of doc clip_id track.clips
  start ← clip_start_samples clip doc
  len ← clip_length_samples clip doc
  some (record {
    track_id = track_id;
    clip_id = clip_id;
    side = side;
    doc = doc;
    is_musical = is_musical_clip clip;
    edges = edges;
    orig = record {
      start_sample = start;
      length_samples = len;
      offset_samples = or_else clip.offset_samples (num 0);
    };
  })

unfoldable pub begin_clip_resize : ProjectDef → String → String → Side → Option Resize
unfolding resize_of
begin_clip_resize doc track_id clip_id side = do
  track ← find_track doc track_id
  clip ← find_clip doc track_id clip_id
  resize_of doc track_id clip_id side track clip

unfoldable pub snap_sec : Resize → Num → Bool → Num → Option Num
snap_sec r pps true sample = some sample
snap_sec r pps false sample = do
  snapped ←
      (if r.is_musical
        then snap_sec_musical r.doc pps sample
        else some (round_to (snap_step pps * rate_of r.doc * (unit / 16)) sample))
  some (or_else (near_edge (rate_of r.doc) pps sample r.edges) snapped)

-- The bounds with the start moved, within what the material and the other end allow.
unfoldable pub trim_head : ClipBounds → Num → ClipBounds
trim_head orig wanted =
    let min_start = orig.start_sample -ℤ orig.offset_samples in
    let max_start = orig.start_sample +ℤ orig.length_samples -ℤ min_length in
    let start = min_num max_start (max_num (num 0) (max_num min_start wanted)) in
    let d = start -ℤ orig.start_sample in
    record {
      start_sample = start;
      offset_samples = orig.offset_samples +ℤ d;
      length_samples = orig.length_samples -ℤ d;
    }

unfoldable pub trim_tail : ClipBounds → ClipBounds → Num → ClipBounds
trim_tail orig pending wanted = record pending {
  length_samples = max_num min_length (wanted -ℤ orig.start_sample);
}

-- Where the edge that is dragged would be without a grid.
unfoldable pub dragged_to : Side → ClipBounds → Num → Num
dragged_to right orig shift = orig.start_sample +ℤ orig.length_samples +ℤ shift
dragged_to left orig shift = orig.start_sample +ℤ shift

unfoldable pub trim : Side → ClipBounds → ClipBounds → Num → ClipBounds
trim right orig pending wanted = trim_tail orig pending wanted
trim left orig pending wanted = trim_head orig wanted

unfoldable pub pending_after : Resize → Move → ClipBounds → Option ClipBounds
pending_after r m pending = snap_sec r m.pps m.alt (dragged_to r.side r.orig m.shift) >>= λ wanted.
    some (trim r.side r.orig pending wanted)

-- Three pixels.
abbrev pub is_small : Num → Bool
is_small dx = ltb (pos_part dx + neg_part dx) (3 * unit)

-- The state between pointer down and pointer up; `frame` is a write that waits for the next frame.
pub record Gesture (A : Automerge) : Type 0 where
  pub project : Project A
  pub resize : Resize
  pub moved : Bool
  pub pending : ClipBounds
  pub frame : Bool

module _ (A : Automerge) where
  abbrev pub start_resize : Project A → Resize → Gesture A
  start_resize p r = record {
    project = p;
    resize = r;
    moved = false;
    pending = r.orig;
    frame = false;
  }

  unfoldable pub pointer_down : Project A → String → String → Side → Option (Gesture A)
  pointer_down p track_id clip_id side = do
    r ← begin_clip_resize (A.content p.doc) track_id clip_id side
    some (start_resize p r)

  unfoldable pub on_move : Move → Gesture A → Gesture A
  on_move m g =
      if not g.moved && is_small m.dx
      then g
      else (let p = if g.moved then g.project else begin_undo_group A g.project in
          let started = record g { project = p; moved = true } in
          elim (pending_after g.resize m g.pending) [
            | none ↦ started
            | some b ↦ record started { pending = b; frame = true }
          ])

  module _ (emit : List A.Change → List A.Change) where
    -- `emit` is what `sendLastChange` does to the queue; a throw comes before it.
    unfoldable pub flush_bounds : Gesture A → Project A × Bool
    flush_bounds g =
        let (p, threw) =
          mutate A (set_clip_bounds g.resize.track_id g.resize.clip_id g.pending) g.project in
        if threw then (p, true) else (record p { pending = emit p.pending }, false)

    -- The frame that was asked for.
    unfoldable pub on_frame : Gesture A → Gesture A
    on_frame g = if g.frame then record g { project = (flush_bounds g).0; frame = false } else g

    -- The frame that waits is cancelled. A throw skips the end of the group.
    unfoldable pub on_up : Gesture A → Project A
    on_up g =
        let (p, threw) = flush_bounds g in
        if g.moved then (if threw then p else end_undo_group A p) else g.project

pub data Event : Type 0 where
  move : Move → Event
  frame : Event

module _ (A : Automerge) (emit : List A.Change → List A.Change) where
  unfoldable pub run : List Event → Gesture A → Gesture A
  run [] g = g
  run (move m ∷ es) g = run es (on_move A m g)
  run (frame ∷ es) g = run es (on_frame A emit g)
