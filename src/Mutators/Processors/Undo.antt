-- ===== src/Mutators/Processors/Undo.antt =====
-- The captured inverse of each chain mutator takes the document back: a device returns to its place.
use Prim.Native.Nat.{min}
use daw_project.Common.{
  ℕ, ◌≤◌, ◌-◌, ◌==◌, String, Bool, true, false, some, ◌≡◌, refl, arith, ap, length, leb,
}
use daw_project.Common.Find.{locate, any, remove_first}
use daw_project.Common.Splice.{
  insert_at-remove_first, locate_bound, locate_passes, remove_first-insert_at, locate-insert_at,
  length-insert_at,
}
use daw_project.Num.{num, round_pos-num}
use daw_project.Schema.{ProcessorDef, TrackDef, ProjectDef}
use daw_project.Undo.{
  set_processor_bypass as op_bypass, remove_processor as op_remove, move_processor as op_move,
}
use daw_project.Document.{
  applied, processor_is, find_track, find_processor, update_track, update_processor,
}
use daw_project.Document.Access.{
  find_processor-update_processor, update_processor_restore, find_track-update_track,
  update_track_restore,
}
use daw_project.Mutators.Processors.{
  with_bypass, set_processor_bypass, with_processor, add_processor, without_processor, with_moved,
  move_processor,
}

pub set_processor_bypass_back :
    (d : ProjectDef) (tid id : String) (p : ProcessorDef) (bypass : Bool)
    → find_processor d tid id ≡ some p
    → set_processor_bypass tid id p.bypass (update_processor tid id (with_bypass bypass) d)
      ≡ applied (op_bypass tid id bypass) d
unfolding set_processor_bypass
set_processor_bypass_back d tid id p bypass found =
    rw
      (
        find_processor-update_processor d tid id (with_bypass bypass) p found refl,
        set_processor_bypass,
      )
      (ap (applied (op_bypass tid id bypass)) (
        update_processor_restore d tid id (with_bypass bypass) p found refl (with_bypass p.bypass)
          refl))

module _ (d : ProjectDef) (tid id : String) (t : TrackDef) (found : find_track d tid ≡ some t) where
  -- The device that was removed stands where it stood.
  pub remove_processor_back :
      (i : ℕ) (p : ProcessorDef)
      → locate (processor_is id) t.chain ≡ some (i, p)
      → any (processor_is p.id) (remove_first (processor_is id) t.chain) ≡ false
      → add_processor tid p (some i) (update_track tid (without_processor id) d)
        ≡ applied (op_remove tid p.id) d
  unfolding add_processor
  remove_processor_back i p at once =
      let fits : leb i (length (remove_first (processor_is id) t.chain)) ≡ true =
        ground (arith, locate_bound (processor_is id) t.chain i p) in
      rw (find_track-update_track d tid (without_processor id) t found refl, add_processor, once)
        (ap (applied (op_remove tid p.id)) (
          update_track_restore d tid (without_processor id) t found refl (with_processor (some i) p)
            (ap (λ c. record t { chain = c })
              (rw fits (insert_at-remove_first (processor_is id) t.chain i p at)))))

  pub move_processor_back :
      (from to : ℕ) (p : ProcessorDef)
      → locate (processor_is id) t.chain ≡ some (from, p)
      → any (processor_is id) (remove_first (processor_is id) t.chain) ≡ false
      → to ≤ length (remove_first (processor_is id) t.chain)
      → (to == from) ≡ false
      → move_processor tid id (num from) (update_track tid (with_moved id p to) d)
        ≡ applied (op_move tid id (num to)) d
  unfolding move_processor
  move_processor_back from to p at once fits differ =
      let rest = remove_first (processor_is id) t.chain in
      let passes = locate_passes (processor_is id) t.chain from p at in
      let there : min to (length rest) ≡ to = omega arith in
      let bound : from ≤ length rest = (locate_bound (processor_is id) t.chain from p at).1 in
      let here : min from (length rest) ≡ from = omega arith in
      let clamped : min from (length (with_moved id p to t).chain - 1) ≡ from =
        rw (there, length-insert_at (processor_is id) p passes to rest) (omega arith) in
      let other : (from == to) ≡ false = ground arith in
      rw
        (
          find_track-update_track d tid (with_moved id p to) t found refl,
          move_processor,
          there,
          locate-insert_at (processor_is id) p passes to rest once fits,
          round_pos-num,
          clamped,
          other,
        )
        (ap (applied (op_move tid id (num to))) (
          update_track_restore d tid (with_moved id p to) t found refl (with_moved id p from) (
            ap (λ c. record t { chain = c })
              (rw (there, remove_first-insert_at (processor_is id) p passes to rest once, here)
                (insert_at-remove_first (processor_is id) t.chain from p at)))))
