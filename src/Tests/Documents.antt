-- ===== src/Tests/Documents.antt =====
-- A project with one track, its device and its clip, and what the mutators make of it.
use daw_project.Common.{String, false, none, some, [], ◌∷◌, ◌≡◌, refl, length, arith, ◌≤◌}
use daw_project.Common.Int.{◌+ℤ◌}
use daw_project.Num.{Num, num}
use daw_project.Tempo.{TempoPoint}
use daw_project.Schema.{ClipDef, ProcessorDef, TrackDef, ProjectDef}
use daw_project.Undo.{InverseOp}
use daw_project.Document.{applied, find_track, find_clip, update_track}
use daw_project.Document.DisplayName.{display_name, max_name, length-display_name}
use daw_project.Common.Find.{remove_first, locate, insert_at, find, any, update_first}
use daw_project.Geometry.{clip_end_samples, clip_start_samples}
use daw_project.Geometry.Adjacent.{clip_end-clip_start}
use daw_project.Mutators.Clips.{set_clip_fades}
use daw_project.Mutators.Clips.Fades.{FadesApart, set_clip_fades-FadesApart}
use daw_project.Mutators.Processors.{with_processor, remove_processor, add_processor}
use daw_project.Replay.{perform}
use daw_project.Replay.Exact.{undo_exact}

abbrev pub device : String → ProcessorDef
device id = record {
  id = id;
  kind = "gain";
  uid = none;
  name = none;
  bypass = false;
  params = [];
  state_hash = none;
  state_version = none;
  stem_hash = none;
  stem_key = none;
  stem_latency_samples = none;
}

abbrev pub absolute_clip : ClipDef
absolute_clip = record {
  id = "c1";
  name = none;
  asset_hash = "h1";
  start_sample = some (num 4800);
  length_samples = some (num 10000);
  offset_samples = some (num 0);
  fade_in_samples = none;
  fade_out_samples = none;
  notes = none;
  scene_id = none;
  start_tick = none;
  length_tick = none;
}

-- A clip of two beats from the tick on.
abbrev musical_clip : String → Num → ClipDef
musical_clip id tick = record {
  id = id;
  name = none;
  asset_hash = "";
  start_sample = none;
  length_samples = none;
  offset_samples = none;
  fade_in_samples = none;
  fade_out_samples = none;
  notes = some [];
  scene_id = none;
  start_tick = some tick;
  length_tick = some (num 1920);
}

abbrev pub track : TrackDef
track = record {
  id = "t1";
  name = 84 ∷ 49 ∷ [];
  gain = num 1;
  kind = none;
  pan = none;
  order = none;
  clips = absolute_clip ∷ [];
  chain = device "p1" ∷ [];
  automation = none;
}

abbrev tempo_change : TempoPoint
tempo_change = record { tick = 1000; milli_bpm = 90000 }

abbrev pub document : ProjectDef
document = record {
  schema_version = 2;
  sample_rate = 48000;
  master_gain = none;
  tracks = track ∷ [];
  scenes = none;
  automation = none;
  tempo_milli_bpm = some (num 120000);
  tempo_map = some (tempo_change ∷ []);
}

abbrev pub add_device : InverseOp
add_device = InverseOp.add_processor "t1" (device "p2") 0

abbrev pub remove_device : InverseOp
remove_device = InverseOp.remove_processor "t1" "p2"

abbrev pub document_with_device : ProjectDef
document_with_device = update_track "t1" (with_processor (some 0) (device "p2")) document

pub added_device : perform "n1" add_device document ≡ applied remove_device document_with_device
unfolding perform add_processor find_track find any
added_device = refl

pub removed_device : perform "n1" remove_device document_with_device ≡ applied add_device document
unfolding perform remove_processor update_track find_track update_first remove_first insert_at
    locate find
removed_device = refl

undo_exact_example :
    (again : InverseOp) × (perform "n1" remove_device document_with_device ≡ applied again document)
undo_exact_example =
    undo_exact "n1" add_device remove_device document document_with_device tt added_device

clip_end-clip_start_example :
    (s : Num) × (clip_end_samples (musical_clip "c2" (num 0)) document ≡ some s)
    × (clip_start_samples (musical_clip "c3" (num 0 +ℤ num 1920)) document ≡ some s)
clip_end-clip_start_example =
    clip_end-clip_start document tt (musical_clip "c2" (num 0))
      (musical_clip "c3" (num 0 +ℤ num 1920)) (num 0) (num 1920) refl refl refl

found_clip : find_clip document "t1" "c1" ≡ some absolute_clip
unfolding find_clip find_track find
found_clip = refl

set_clip_fades-FadesApart_example :
    (inverse : InverseOp) × (d' : ProjectDef) × (c' : ClipDef) × (set_clip_fades "t1" "c1"
        (num 6000)
        (num 9000)
        document
      ≡ applied inverse d')
    × (find_clip d' "t1" "c1" ≡ some c')
    × (c'.length_samples ≡ some (num 10000))
    × FadesApart c'
set_clip_fades-FadesApart_example =
    set_clip_fades-FadesApart "t1" "c1" (num 6000) (num 9000) absolute_clip document found_clip
      (omega arith)

length-display_name_example : length (display_name (32 ∷ 65 ∷ 32 ∷ [])) ≤ max_name
length-display_name_example = length-display_name (32 ∷ 65 ∷ 32 ∷ [])
