-- ===== src/Tests/Drops.antt =====
-- Instances of the theorems on drops and on sending at concrete inputs.
use daw_project.Common.{
  ◌≤◌, ◌≡◌, refl, false, Option, none, some, List, [], ◌∷◌, ◌++◌, map, length, arith, if◌then◌else◌,
}
use daw_project.Common.Find.{any, find, locate, remove_first}
use daw_project.Schema.{TrackDef, ProjectDef}
use daw_project.Journal.{new_journal}
use daw_project.Document.{find_track}
use daw_project.Project.{Project}
use daw_project.ServerClient.{Bytes, ReadyState, ServerClient, Effect, send_change}
use daw_project.Sending.{send_last_change, is_ready, send_last_change_total}
use daw_project.DeviceReorder.{apply_drop}
use daw_project.DeviceReorder.Order.{Dropped, is_beside, apply_drop-Dropped}
use daw_project.Common.Int.{◌+ℤ◌}
use daw_project.Schema.Order.{with_keys, sort_keyed, comes_before, ordered_tracks}
use daw_project.TrackReorder.{apply_drop as drop_track}
use daw_project.TrackReorder.Fits.{Spaced}
use daw_project.TrackReorder.Placed.{Placed}
use daw_project.TrackReorder.Drop.{apply_drop-Placed}
use daw_project.SlotReorder.{Cell, Slot, change_both, apply_drop as drop_slot}
use daw_project.SlotReorder.Entry.{OneEntry, is_failed, apply_drop-OneEntry}
use daw_project.Project.{begin_undo_group}
use daw_project.Num.{num}
use daw_project.Schema.{ClipDef}
use daw_project.Tests.Documents.{device, track, document}
use daw_project.Tests.History.{plain_store}
use daw_project.Tests.Network.{browser, client, empty_storage}

-- The number of tracks stands for the bytes of a change.
abbrev wire : ProjectDef → Bytes
wire d = length d.tracks ∷ []

abbrev rack : TrackDef
rack = record track { chain = device "p1" ∷ device "p2" ∷ device "p3" ∷ [] }

abbrev stage : Project plain_store
stage = record { doc = record document { tracks = rack ∷ [] }; pending = []; journal = new_journal }

abbrev waiting_pair : Project plain_store
waiting_pair = record stage { pending = document ∷ stage.doc ∷ [] }

abbrev ready : ServerClient browser
ready = client "t" (some ReadyState.opened) false [] empty_storage

send_last_change_total_example :
    (last : ServerClient browser) × (effects : List (Effect browser)) × (send_last_change
        plain_store wire 3 waiting_pair
        (some ready)
      ≡ some (record waiting_pair { pending = [] }, (some last, effects)))
    × (if is_ready ready
        then (last ≡ ready) × (effects ≡ map send_change (map wire (document ∷ stage.doc ∷ [])))
        else (last.outbox ≡ [] ++ map wire (document ∷ stage.doc ∷ [])) × (effects ≡ []))
send_last_change_total_example =
    send_last_change_total plain_store wire 3 waiting_pair ready (omega arith)

apply_drop-Dropped_example :
    (q : Project plain_store) × (last : Option (ServerClient browser)) × (effects : List
      (Effect browser))
    × (apply_drop plain_store wire "t1" "p1" 3 stage (some ready) ≡ some (q, (last, effects)))
    × Dropped "p1" (device "p1") 3 rack q.doc
    × (if is_beside 3 0 then (q ≡ stage) × (last ≡ some ready) × (effects ≡ []) else q.pending ≡ [])
unfolding find_track find locate any remove_first
apply_drop-Dropped_example =
    apply_drop-Dropped rack "p1" 3 0 (device "p1") refl refl (omega arith) plain_store stage refl
      wire (some ready)

abbrev session_clip : ClipDef
session_clip = record {
  id = "c1";
  name = none;
  asset_hash = "h1";
  start_sample = some (num 0);
  length_samples = some (num 96000);
  offset_samples = some (num 0);
  fade_in_samples = none;
  fade_out_samples = none;
  notes = none;
  scene_id = some "s1";
  start_tick = none;
  length_tick = none;
}

abbrev session : Project plain_store
session = record stage {
  doc = record document {
    tracks =
        record track { clips = session_clip ∷ [] } ∷ record track { id = "t2"; clips = [] } ∷ [];
  };
}

abbrev full_slot : Slot
full_slot = record { track = "t1"; scene = "s1"; clip = "c1" }

abbrev free_cell : Cell
free_cell = record { track = "t2"; scene = "s2"; clip = "" }

apply_drop-OneEntry_example :
    OneEntry plain_store session.journal.undo_stack
      (is_failed
        (change_both plain_store full_slot free_cell (begin_undo_group plain_store session)).1)
      (drop_slot plain_store wire full_slot free_cell session (some ready))
apply_drop-OneEntry_example =
    apply_drop-OneEntry plain_store wire full_slot free_cell session (some ready) refl refl

abbrev three_tracks : Project plain_store
three_tracks = record stage {
  doc = record document {
    tracks = track ∷ record track { id = "t2" } ∷ record track { id = "t3" } ∷ [];
  };
}

three_spaced : Spaced (sort_keyed (with_keys 0 three_tracks.doc.tracks))
unfolding sort_keyed with_keys comes_before ◌+ℤ◌
three_spaced = omega arith

three_shown : 3 ≤ length (ordered_tracks three_tracks.doc)
unfolding ordered_tracks comes_before
three_shown = omega arith

apply_drop-Placed_example :
    (q : Project plain_store) × (last : Option (ServerClient browser)) × (effects : List
      (Effect browser))
    × (drop_track plain_store wire "t1" 3 three_tracks (some ready) ≡ some (q, (last, effects)))
    × Placed "t1" 3 (ordered_tracks three_tracks.doc) q.doc
unfolding any
apply_drop-Placed_example =
    apply_drop-Placed plain_store three_tracks "t1" 3 (refl, (refl, (refl, tt))) refl three_spaced
      three_shown wire (some ready)
