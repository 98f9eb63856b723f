-- ===== src/Schema.antt =====
-- The document, web/src/document/schema.ts: an optional field is an `Option`, an id a text, a name
-- the list of its UTF-16 units, a number a `Num`. Sample rate, schema version and tempo points are
-- whole numbers. `timeSignature` is never read and is left out.
pub mod Order
use daw_project.Common.{
  ℕ, String, Bool, true, false, Option, none, some, List, [], ltb, if◌then◌else◌,
}
use daw_project.Num.{Num, num}
use daw_project.Tempo.{TempoPoint, effective_map}

abbrev pub schema_version : ℕ
schema_version = 2

-- A text shown to the user, by its UTF-16 units.
abbrev pub Name : Type 0
Name = List ℕ

pub record NoteDef : Type 0 where
  pub id : Option String
  pub pitch : Num
  pub velocity : Num
  pub start_sample : Option Num
  pub length_samples : Option Num
  pub start_tick : Option Num
  pub length_tick : Option Num

pub record ClipDef : Type 0 where
  pub id : String
  pub name : Option Name
  pub asset_hash : String
  pub start_sample : Option Num
  pub length_samples : Option Num
  pub offset_samples : Option Num
  pub fade_in_samples : Option Num
  pub fade_out_samples : Option Num
  pub notes : Option (List NoteDef)
  pub scene_id : Option String
  pub start_tick : Option Num
  pub length_tick : Option Num

pub record ProcessorParam : Type 0 where
  pub key : String
  pub value : Num

pub record ProcessorDef : Type 0 where
  pub id : String
  pub kind : String
  pub uid : Option String
  pub name : Option Name
  pub bypass : Bool
  pub params : List ProcessorParam
  pub state_hash : Option String
  pub state_version : Option Num
  pub stem_hash : Option String
  pub stem_key : Option String
  pub stem_latency_samples : Option Num

pub record AutomationTarget : Type 0 where
  pub processor_id : Option String
  pub param : String

pub record AutomationPoint : Type 0 where
  pub t : Num
  pub v : Num

-- `timeBase`: 'ticks' or absent.
pub record AutomationLaneDef : Type 0 where
  pub id : String
  pub target : AutomationTarget
  pub points : List AutomationPoint
  pub enabled : Bool
  pub time_base_ticks : Bool

pub data TrackKind : Type 0 where
  audio midi : TrackKind

pub record TrackDef : Type 0 where
  pub id : String
  pub name : Name
  pub gain : Num
  pub kind : Option TrackKind
  pub pan : Option Num
  pub order : Option Num
  pub clips : List ClipDef
  pub chain : List ProcessorDef
  pub automation : Option (List AutomationLaneDef)

pub record SceneDef : Type 0 where
  pub id : String
  pub name : Name

pub record ProjectDef : Type 0 where
  pub schema_version : ℕ
  pub sample_rate : ℕ
  pub master_gain : Option Num
  pub tracks : List TrackDef
  pub scenes : Option (List SceneDef)
  pub automation : Option (List AutomationLaneDef)
  pub tempo_milli_bpm : Option Num
  pub tempo_map : Option (List TempoPoint)

-- `x ?? d`
abbrev pub or_else {ℓ} : {A : Type ℓ} → Option A → A → A
or_else none d = d
or_else (some x) d = x

abbrev pub is_some {ℓ} : {A : Type ℓ} → Option A → Bool
is_some none = false
is_some (some x) = true

unfoldable pub is_musical_clip : ClipDef → Bool
is_musical_clip clip = is_some clip.start_tick

unfoldable pub effective_tempo_map : ProjectDef → List TempoPoint
effective_tempo_map doc =
    effective_map (or_else doc.tempo_milli_bpm (num 120000)) (or_else doc.tempo_map [])

unfoldable pub ensure_v2 : ProjectDef → ProjectDef
ensure_v2 doc = if ltb doc.schema_version 2 then record doc { schema_version = 2 } else doc

-- `none` is the throw on an unknown version.
unfoldable pub migrate_document : ProjectDef → Option ProjectDef
migrate_document doc =
    let d : ProjectDef =
      (if ltb 0 doc.schema_version then doc else record doc { schema_version = 1 }) in
    if ltb schema_version d.schema_version then none else some d

unfoldable pub create_empty_document : ℕ → ProjectDef
create_empty_document sample_rate = record {
  schema_version = 1;
  sample_rate = sample_rate;
  master_gain = none;
  tracks = [];
  scenes = none;
  automation = none;
  tempo_milli_bpm = none;
  tempo_map = none;
}
