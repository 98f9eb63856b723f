-- ===== src/Tests/History.antt =====
-- A project whose document library keeps the document itself and sends it whole as the change.
use daw_project.Common.{ℕ, String, some, List, [], ◌∷◌, ◌≡◌, ◌≢◌, refl, arith, length}
use daw_project.Num.{num}
use daw_project.Schema.{ProjectDef}
use daw_project.Undo.{InverseOp, target_key}
use daw_project.Journal
use daw_project.Journal.{Journal, new_journal, begin_group, end_group, capture}
use daw_project.Journal.Groups.{IsIdle, first_per_key}
use daw_project.Journal.Bounds.{IsBounded, here, next, begins, captures, ends, Reach-IsBounded}
use daw_project.Replay.{perform}
use daw_project.Project.{Automerge, Project, done, raised, mutate, undo, redo}
use daw_project.Project.History.{undo_restores, redo-undo-mutate}
use daw_project.Project.Throws.{IsReadable, undo-redo_total}
use daw_project.Project.History.Timeline.{Command, edit, back, play}
use daw_project.Project.History.Timeline.Refines.{run, run-play}
use daw_project.Tests.Documents.{
  document, add_device, remove_device, document_with_device, added_device, removed_device,
}

abbrev pub plain_store : Automerge
plain_store = record {
  Doc = ProjectDef;
  Change = ProjectDef;
  Bytes = ProjectDef;
  content = λ d. d;
  change = λ d p. p;
  last_local_change = λ d. some d;
  load = λ b. some b;
  merge = λ a b. some b;
  apply_change = λ d c. some c;
  heads = λ d. [];
  changes_since = λ a b. b ∷ [];
  missing_deps = λ d. 0;
  seed = document;
  content-change = λ d p. refl;
}

abbrev project : Project plain_store
project = record { doc = document; pending = []; journal = new_journal }

abbrev send_all : List ProjectDef → List ProjectDef
send_all changes = []

abbrev ids : ℕ → String
ids n = "n1"

idle : IsIdle new_journal
idle = record { route = refl; grouping = refl; room = omega arith }

undo_restores_example :
    ((undo plain_store send_all ids (mutate plain_store (perform "n1" add_device) project).0).0.doc
      ≡ document)
    × ((undo plain_store send_all ids
          (mutate plain_store (perform "n1" add_device) project).0).0.journal.undo_stack
        ≡ [])
    × ((undo plain_store send_all ids (mutate plain_store (perform "n1" add_device) project).0).1
        ≡ done)
undo_restores_example =
    undo_restores plain_store send_all ids add_device remove_device project document_with_device
      idle tt added_device

redo-undo-mutate_example :
    ((undo plain_store send_all ids (mutate plain_store (perform "n1" add_device) project).0).0.doc
      ≡ document)
    × ((undo plain_store send_all ids
          (mutate plain_store (perform "n1" add_device) project).0).0.journal.undo_stack
        ≡ [])
    × ((redo plain_store send_all ids
          (undo plain_store send_all ids
            (mutate plain_store (perform "n1" add_device) project).0).0).0.doc
        ≡ document_with_device)
redo-undo-mutate_example =
    redo-undo-mutate plain_store send_all ids (perform "n1" add_device) project remove_device
      add_device remove_device document_with_device document document_with_device idle added_device
      removed_device added_device

-- Two moves of one fader and one of another.
abbrev drag : List InverseOp
drag =
    InverseOp.set_track_gain "t1" (num 1)
    ∷ InverseOp.set_track_pan "t1" (num 0)
    ∷ InverseOp.set_track_gain "t1" (num 2)
    ∷ []

first_per_key-drag :
    first_per_key [] drag
    ≡ InverseOp.set_track_gain "t1" (num 1) ∷ InverseOp.set_track_pan "t1" (num 0) ∷ []
unfolding first_per_key Journal.has Journal.eqb_key Journal.eqb_segment target_key
first_per_key-drag = refl

Reach-IsBounded_example : IsBounded (end_group (capture add_device (begin_group new_journal)))
Reach-IsBounded_example = Reach-IsBounded (
    next (next (next here (begins new_journal)) (captures add_device (begin_group new_journal)))
      (ends (capture add_device (begin_group new_journal))))

-- Two edits and three undos, the last with nothing to undo.
abbrev session : List Command
session = edit add_device ∷ edit add_device ∷ back ∷ back ∷ back ∷ []

run-play_example :
    ((run plain_store send_all ids session project).doc
      ≡ (play "n1" session (record { present = document; past = [] })).present)
    × (length (run plain_store send_all ids session project).journal.undo_stack
        ≡ length (play "n1" session (record { present = document; past = [] })).past)
run-play_example = run-play plain_store send_all ids session project refl refl refl (tt, (tt, tt))

undo-redo_total_example :
    ((undo plain_store send_all ids project).1 ≢ raised)
    × IsReadable (undo plain_store send_all ids project).0.doc
    × ((redo plain_store send_all ids project).1 ≢ raised)
    × IsReadable (redo plain_store send_all ids project).0.doc
undo-redo_total_example = undo-redo_total plain_store send_all ids project (tt, omega arith)
