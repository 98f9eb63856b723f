-- ===== src/Replay/Reversible/Chain.antt =====
-- The mutators of the device chain are taken back by the inverse that they capture.
use daw_project.Common.{
  ℕ, ◌-◌, ◌==◌, String, Bool, some, List, ◌≡◌, arith, Bool-cases, Option-cases, inl, inr, length,
  str_eq_iff,
}
use Prim.Native.Nat.{min}
use daw_project.Common.Splice.{locate_passes, locate_bound}
use daw_project.Common.Find.{locate}
use daw_project.Num.{Num, round_pos}
use daw_project.Schema.{ProcessorDef, ProjectDef}
use daw_project.Undo.{InverseOp}
use daw_project.Document.{processor_is, find_track, find_processor}
use daw_project.Mutators.Processors.Undo.{
  set_processor_bypass_back, remove_processor_back, move_processor_back,
}
use daw_project.Mutators.Processors
use daw_project.Replay.{perform}
use daw_project.Replay.Reversible.{Reversible, BackTo}

located_id :
    (id : String) (chain : List ProcessorDef) (i : ℕ) (p : ProcessorDef)
    → locate (processor_is id) chain ≡ some (i, p)
    → p.id ≡ id
located_id id chain i p at = (str_eq_iff p.id id).0 (locate_passes (processor_is id) chain i p at)

module _ (fresh : String) (d : ProjectDef) where
  pub bypass-BackTo :
      (t p : String) (b : Bool) → BackTo fresh d (Processors.set_processor_bypass t p b d)
  unfolding Processors.set_processor_bypass perform
  bypass-BackTo t p b = elim (Option-cases (find_processor d t p)) [
    | inl e ↦ rw (e, Processors.set_processor_bypass) tt
    | inr (pr, e) ↦
        rw (e, Processors.set_processor_bypass) (_, set_processor_bypass_back d t p pr b e)
  ]

  pub remove-BackTo :
      (t p : String)
      → Reversible (InverseOp.remove_processor t p) d
      → BackTo fresh d (Processors.remove_processor t p d)
  unfolding Processors.remove_processor perform
  remove-BackTo t p r = elim (Option-cases (find_track d t)) [
    | inl e ↦ rw (e, Processors.remove_processor) tt
    | inr (tr, e) ↦ elim (Option-cases (locate (processor_is p) tr.chain)) [
      | inl n ↦ rw (e, Processors.remove_processor, n) tt
      | inr ((i, pr), n) ↦
          rw (e, Processors.remove_processor, n)
            (
              _,
              remove_processor_back d t p tr e i pr n (rw (located_id p tr.chain i pr n) (r tr e)),
            )
    ]
  ]

  pub move-BackTo :
      (t p : String) (i : Num)
      → Reversible (InverseOp.move_processor t p i) d
      → BackTo fresh d (Processors.move_processor t p i d)
  unfolding Processors.move_processor perform
  move-BackTo t p i r = elim (Option-cases (find_track d t)) [
    | inl e ↦ rw (e, Processors.move_processor) tt
    | inr (tr, e) ↦ elim (Option-cases (locate (processor_is p) tr.chain)) [
      | inl n ↦ rw (e, Processors.move_processor, n) tt
      | inr ((from, pr), n) ↦ elim (Bool-cases (min (round_pos i) (length tr.chain - 1) == from)) [
        | inl same ↦ rw (e, Processors.move_processor, n, same) tt
        | inr differ ↦
            rw (e, Processors.move_processor, n, differ)
              (
                _,
                move_processor_back d t p tr e from (min (round_pos i) (length tr.chain - 1)) pr n
                    (r tr e) (omega (arith, locate_bound (processor_is p) tr.chain from pr n))
                    differ,
              )
      ]
    ]
  ]
