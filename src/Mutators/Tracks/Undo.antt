-- ===== src/Mutators/Tracks/Undo.antt =====
-- The captured inverse of each track mutator takes the document back, and captures the redo.
use daw_project.Common.{String, false, none, some, [], ◌∷◌, ◌≡◌, ◌≢◌, refl, ap, sym}
use daw_project.Common.Int.{◌≤ℤ◌}
use daw_project.Num.{Num, num, clamp-id, eqb_num, eqb_num_comm}
use daw_project.Schema.{Name, TrackDef, ProjectDef, or_else}
use daw_project.Undo.{
  set_track_gain as op_track_gain, set_track_pan as op_track_pan, set_track_order as op_track_order,
  clear_track_order as op_clear_order, rename_track as op_rename_track,
}
use daw_project.Sanitize.{finite}
use daw_project.Document.{applied, find_track, update_track}
use daw_project.Document.Access.{
  find_track-update_track, update_track_overwrite, update_track_restore,
}
use daw_project.Document.DisplayName.{display_name, eqb_name, eqb_name_comm}
use daw_project.Mutators.Tracks.{
  clamp_gain, minus_one, clamp_pan, with_gain, set_track_gain, with_pan, set_track_pan, with_order,
  set_order_of, set_track_order, clear_track_order, with_name, is_empty, rename_track,
}

pub is_empty-false : (n : Name) → n ≢ [] → is_empty n ≡ false
is_empty-false [] h = absurd (h refl)
is_empty-false (c ∷ cs) h = refl

module _ (d : ProjectDef) (id : String) (t : TrackDef) (found : find_track d id ≡ some t) where
  pub set_track_gain_back :
      (gain : Num)
      → num 0 ≤ℤ t.gain
      → t.gain ≤ℤ num 2
      → set_track_gain id t.gain (update_track id (with_gain gain) d)
        ≡ applied (op_track_gain id (clamp_gain gain)) d
  unfolding set_track_gain
  set_track_gain_back gain lo hi =
      rw (find_track-update_track d id (with_gain gain) t found refl, set_track_gain)
        (ap (applied (op_track_gain id (clamp_gain gain))) (
          update_track_restore d id (with_gain gain) t found refl (with_gain t.gain)
            (ap (λ g. record t { gain = g }) (clamp-id (num 0) (num 2) t.gain lo hi))))

  -- An absent pan comes back as the explicit centre.
  pub set_track_pan_back :
      (pan old : Num)
      → or_else t.pan (num 0) ≡ old
      → minus_one ≤ℤ old
      → old ≤ℤ num 1
      → set_track_pan id old (update_track id (with_pan pan) d)
        ≡ applied
            (op_track_pan id (clamp_pan pan))
            (update_track id (λ s. record s { pan = some old }) d)
  unfolding set_track_pan
  set_track_pan_back pan old e lo hi =
      rw (find_track-update_track d id (with_pan pan) t found refl, set_track_pan)
        (ap (applied (op_track_pan id (clamp_pan pan))) (
          update_track_overwrite d id (with_pan pan) t found refl (with_pan old)
            (λ s. record s { pan = some old })
            (ap (λ p. record t { pan = some p }) (clamp-id minus_one (num 1) old lo hi))))

  pub set_track_order_back :
      (order old : Num)
      → t.order ≡ some old
      → eqb_num old order ≡ false
      → set_track_order id (finite old) (update_track id (with_order (some order)) d)
        ≡ applied (op_track_order id order) d
  unfolding set_track_order
  set_track_order_back order old e ne =
      rw
        (
          find_track-update_track d id (with_order (some order)) t found refl,
          set_track_order,
          set_order_of,
          eqb_num_comm order old,
          ne,
        )
        (ap (applied (op_track_order id order)) (
          update_track_restore d id (with_order (some order)) t found refl (with_order (some old))
            (ap (λ o. record t { order = o }) (sym e))))

  pub clear_track_order_back :
      (order : Num)
      → t.order ≡ none
      → clear_track_order id (update_track id (with_order (some order)) d)
        ≡ applied (op_track_order id order) d
  unfolding clear_track_order
  clear_track_order_back order e =
      rw (find_track-update_track d id (with_order (some order)) t found refl, clear_track_order)
        (ap (applied (op_track_order id order)) (
          update_track_restore d id (with_order (some order)) t found refl (with_order none)
            (ap (λ o. record t { order = o }) (sym e))))

  pub restore_track_order :
      (old : Num)
      → t.order ≡ some old
      → set_track_order id (finite old) (update_track id (with_order none) d)
        ≡ applied (op_clear_order id) d
  unfolding set_track_order
  restore_track_order old e =
      rw (find_track-update_track d id (with_order none) t found refl, set_track_order)
        (ap (applied (op_clear_order id)) (
          update_track_restore d id (with_order none) t found refl (with_order (some old))
            (ap (λ o. record t { order = o }) (sym e))))

  pub rename_track_back :
      (next : Name)
      → display_name t.name ≡ t.name
      → t.name ≢ []
      → eqb_name next t.name ≡ false
      → rename_track id t.name (update_track id (with_name next) d)
        ≡ applied (op_rename_track id next) d
  unfolding rename_track
  rename_track_back next clean ne differ =
      rw
        (
          find_track-update_track d id (with_name next) t found refl,
          rename_track,
          clean,
          eqb_name_comm t.name next,
          differ,
          is_empty-false t.name ne,
        )
        (ap (applied (op_rename_track id next))
          (update_track_restore d id (with_name next) t found refl (with_name t.name) refl))
