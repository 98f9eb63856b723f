-- ===== src/Tests/Resizes.antt =====
-- Instances of the theorems on the resize of a clip.
use daw_project.Common.{◌≡◌, refl, true, false, some, List, [], ◌∷◌, arith}
use daw_project.Common.Int.{◌+ℤ◌, ◌-ℤ◌}
use daw_project.Num.{num, round_pos, min_num, max_num}
use daw_project.Journal.{new_journal}
use daw_project.Document.{find_clip, find_track}
use daw_project.Common.Find.{find}
use daw_project.Journal.Groups.{IsIdle}
use daw_project.Replay.Reversible.{IsAbsolute}
use daw_project.Project.{Project}
use daw_project.Gestures.{left, Resize, Event, move, frame, run, start_resize, trim_head}
use daw_project.Gestures.Trim.{IsTrimmed, resize-IsTrimmed}
use daw_project.Gestures.Undone.{Settled, undo-resize}
use daw_project.Tests.Documents.{document, absolute_clip}
use daw_project.Tests.History.{plain_store}

abbrev project : Project plain_store
project = record { doc = document; pending = []; journal = new_journal }

abbrev resize : Resize
resize = record {
  track_id = "t1";
  clip_id = "c1";
  side = left;
  doc = document;
  is_musical = false;
  edges = [];
  orig = record { start_sample = num 4800; length_samples = num 10000; offset_samples = num 0 };
}

-- To the right, without the grid, and on.
abbrev events : List Event
events =
    move (record { dx = num 2; shift = num 600; pps = num 40; alt = true })
    ∷ move (record { dx = num 5; shift = num 1500; pps = num 40; alt = true })
    ∷ frame
    ∷ move (record { dx = num 9; shift = num 2700; pps = num 40; alt = false })
    ∷ []

resize-IsTrimmed_example :
    IsTrimmed left resize.orig
      (run plain_store (λ q. []) events (start_resize plain_store project resize)).pending
resize-IsTrimmed_example =
    resize-IsTrimmed plain_store resize project (λ q. []) events (omega arith)

found : find_clip document "t1" "c1" ≡ some absolute_clip
unfolding find_clip find_track find
found = refl

idle : IsIdle new_journal
idle = record { route = refl; grouping = refl; room = omega arith }

absolute_clip-IsAbsolute : IsAbsolute absolute_clip
unfolding round_pos
absolute_clip-IsAbsolute = (refl, refl, refl, refl)

undo-resize_example :
    Settled plain_store
      (λ q. [])
      (λ n. "n")
      project
      resize
      absolute_clip
      found
      absolute_clip-IsAbsolute
      idle
      events
undo-resize_example =
    undo-resize plain_store (λ q. []) (λ n. "n") project resize absolute_clip found
      absolute_clip-IsAbsolute idle events

trimmed : (trim_head resize.orig (num 5000)).length_samples ≡ num 9800
unfolding trim_head ◌-ℤ◌ min_num max_num ◌+ℤ◌
trimmed = refl
