-- ===== src/Journal/Keys.antt =====
-- A key of the journal is equal to itself.
use daw_project.Common.{◌≡◌, refl, true, [], ◌∷◌, arith, str_eq_iff}
use daw_project.Num.{eqb_num_iff}
use daw_project.Undo.{Segment, text, number, index, undefined, TargetKey}
use daw_project.Journal.{has, eqb_key, eqb_segment}

eqb_segment_self : (s : Segment) → eqb_segment s s ≡ true
unfolding eqb_segment
eqb_segment_self (text a) = (str_eq_iff a a).1 refl
eqb_segment_self (number a) = (eqb_num_iff a a).1 refl
eqb_segment_self (index a) = ground arith
eqb_segment_self undefined = refl

pub eqb_key_self : (k : TargetKey) → eqb_key k k ≡ true
unfolding eqb_key
eqb_key_self [] = refl
eqb_key_self (s ∷ k) = rw (eqb_segment_self s) (eqb_key_self k)

pub has_self : (k : TargetKey) → has k (k ∷ []) ≡ true
unfolding has
has_self k = rw (eqb_key_self k) refl
