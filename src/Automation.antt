-- ===== src/Automation.antt =====
-- `automationValueAt`, web/src/document/automation.ts: the value of an envelope at a time. A value is an
-- exact fraction of the steps of `Num`, where the source rounds.
pub mod Bounds
use daw_project.Common.{ℕ, Bool, true, false, Option, none, some, List, [], ◌∷◌, if◌then◌else◌}
use daw_project.Common.Int.{ℤ, pos, pos_part, ◌+ℤ◌, ◌-ℤ◌, ◌*ℤ◌, ltb_ℤ}
use daw_project.Num.{Num}
use daw_project.Schema.{AutomationPoint, AutomationLaneDef}

-- `num` steps divided by `den`.
pub record Fraction : Type 0 where
  pub num : ℤ
  pub den : ℕ

abbrev pub exact : Num → Fraction
exact v = record { num = v; den = 1 }

-- a.v + (b.v - a.v) * ((t - a.t) / dt)
unfoldable pub interpolate : AutomationPoint → AutomationPoint → Num → Fraction
interpolate a b t =
    let dt = b.t -ℤ a.t in
    if ltb_ℤ (pos 0) dt
    then record { num = a.v *ℤ dt +ℤ (b.v -ℤ a.v) *ℤ (t -ℤ a.t); den = pos_part dt }
    else exact b.v

-- The last of the points, `a` where there is no other.
last_point : AutomationPoint → List AutomationPoint → AutomationPoint
last_point a [] = a
last_point a (b ∷ rest) = last_point b rest

-- The loop from the point `a` on; behind it the value of the last point.
scan : AutomationPoint → List AutomationPoint → Num → Fraction → Fraction
scan a [] t behind = behind
scan a (b ∷ rest) t behind =
    let later = scan b rest t behind in if ltb_ℤ t b.t then interpolate a b t else later

value_among : List AutomationPoint → Num → Option Fraction
unfolding last_point scan
value_among [] t = none
value_among (p ∷ ps) t =
    let last = last_point p ps in
    if ltb_ℤ p.t t
    then some (if ltb_ℤ t last.t then scan p ps t (exact last.v) else exact last.v)
    else some (exact p.v)

unfoldable pub automation_value_at : AutomationLaneDef → Num → Option Fraction
unfolding value_among
automation_value_at lane t = if lane.enabled then value_among lane.points t else none
