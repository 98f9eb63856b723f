-- ===== src/Tests/Envelope.antt =====
-- An instance of the theorem on envelopes at a concrete lane.
use daw_project.Common.{◌≡◌, refl, true, false, none, some, [], ◌∷◌, arith}
use daw_project.Num.{num}
use daw_project.Schema.{AutomationLaneDef}
use daw_project.Common.Find.{find}
use daw_project.Schema.{ProjectDef}
use daw_project.Mutators.Lanes.{
  find_lane, lanes_in, add_automation_point, move_automation_point, delete_automation_point,
}
use daw_project.Mutators.Lanes.Sorted.{LeavesSorted, points-IsSorted}
use daw_project.Tests.Documents.{document}
use daw_project.Automation.{Fraction, automation_value_at}
use daw_project.Automation.Bounds.{Within, automation_value_at-Within}

-- Two points at one time among four.
abbrev lane : AutomationLaneDef
lane = record {
  id = "l1";
  target = record { processor_id = none; param = "gain" };
  points =
      record { t = num 0; v = num 1 }
      ∷ record { t = num 100; v = num 0 }
      ∷ record { t = num 100; v = num 2 }
      ∷ record { t = num 300; v = num 1 }
      ∷ [];
  enabled = true;
  time_base_ticks = false;
}

automation_value_at-Within_example :
    (q : Fraction) × (automation_value_at lane (num 150) ≡ some q) × Within (num 0) (num 2) q
automation_value_at-Within_example =
    automation_value_at-Within (num 0) (num 2) lane (num 150) refl (omega arith) (omega arith)

abbrev with_envelope : ProjectDef
with_envelope = record document { automation = some (lane ∷ []) }

points-IsSorted_example :
    LeavesSorted none "l1" (add_automation_point none "l1" (num 50) (num 1) with_envelope)
    × LeavesSorted none "l1" (move_automation_point none "l1" 1 (num 50) (num 1) with_envelope)
    × LeavesSorted none "l1" (delete_automation_point none "l1" 1 with_envelope)
unfolding find_lane lanes_in find
points-IsSorted_example = points-IsSorted none "l1" with_envelope (num 50) (num 1) 1 (omega arith)
