-- ===== src/Replay/Reversible/Tracks.antt =====
-- The mutators of a track are taken back by the inverse that they capture.
use daw_project.Common.{
  String, ◌||◌, some, ◌≡◌, refl, arith, ap, ◌∙◌, Bool-cases, Option-cases, inl, inr,
}
use daw_project.Num.{Num, num, eqb_num}
use daw_project.Sanitize.{finite}
use daw_project.Schema.{Name, ProjectDef, or_else}
use daw_project.Undo.{InverseOp}
use daw_project.Document.{applied, find_track}
use daw_project.Document.Access.{update_track_same}
use daw_project.Document.DisplayName.{display_name, eqb_name}
use daw_project.Mutators.Tracks
use daw_project.Mutators.Tracks.{minus_one, is_empty}
use daw_project.Mutators.Tracks.Undo.{
  set_track_gain_back, set_track_pan_back, set_track_order_back, clear_track_order_back,
  restore_track_order, rename_track_back,
}
use daw_project.Replay.{perform}
use daw_project.Replay.Reversible.{Reversible, BackTo}

module _ (fresh : String) (d : ProjectDef) where
  pub gain-BackTo :
      (t : String) (g : Num)
      → Reversible (InverseOp.set_track_gain t g) d
      → BackTo fresh d (Tracks.set_track_gain t g d)
  unfolding Tracks.set_track_gain perform
  gain-BackTo t g r = elim (Option-cases (find_track d t)) [
    | inl e ↦ rw (e, Tracks.set_track_gain) tt
    | inr (tr, e) ↦
        rw (e, Tracks.set_track_gain) (_, set_track_gain_back d t tr e g (r tr e).0 (r tr e).1)
  ]

  pub pan-BackTo :
      (t : String) (p : Num)
      → Reversible (InverseOp.set_track_pan t p) d
      → BackTo fresh d (Tracks.set_track_pan t p d)
  unfolding Tracks.set_track_pan perform
  pan-BackTo t p r = elim (Option-cases (find_track d t)) [
    | inl e ↦ rw (e, Tracks.set_track_pan) tt
    | inr (track, e) ↦
        let (old, pe, lo, hi) = r track e in
        let reads : or_else track.pan (num 0) ≡ old = rw pe refl in
        let written : some (or_else track.pan (num 0)) ≡ track.pan = rw pe refl in
        rw (e, Tracks.set_track_pan)
          (
            _,
            set_track_pan_back d t track e p (or_else track.pan (num 0)) refl (rw reads lo)
                  (rw reads hi)
                ∙ ap (applied (InverseOp.set_track_pan t (Tracks.clamp_pan p))) (
                    update_track_same d t (λ s. record s { pan = some (or_else track.pan (num 0)) })
                      track e (ap (λ q. record track { pan = q }) written)),
          )
  ]

  pub order-BackTo : (t : String) (o : Num) → BackTo fresh d (Tracks.set_track_order t (finite o) d)
  unfolding Tracks.set_track_order perform
  order-BackTo t o = elim (Option-cases (find_track d t)) [
    | inl e ↦ rw (e, Tracks.set_track_order) tt
    | inr (tr, e) ↦ elim (Option-cases tr.order) [
      | inl n ↦ rw (e, Tracks.set_track_order, n) (_, clear_track_order_back d t tr e o n)
      | inr (old, n) ↦ elim (Bool-cases (eqb_num old o)) [
        | inl same ↦ rw (e, Tracks.set_track_order, n, same) tt
        | inr differ ↦
            rw (e, Tracks.set_track_order, n, differ)
              (_, set_track_order_back d t tr e o old n differ)
      ]
    ]
  ]

  pub clear-BackTo : (t : String) → BackTo fresh d (Tracks.clear_track_order t d)
  unfolding Tracks.clear_track_order perform
  clear-BackTo t = elim (Option-cases (find_track d t)) [
    | inl e ↦ rw (e, Tracks.clear_track_order) tt
    | inr (tr, e) ↦ elim (Option-cases tr.order) [
      | inl n ↦ rw (e, Tracks.clear_track_order, n) tt
      | inr (old, n) ↦ rw (e, Tracks.clear_track_order, n) (_, restore_track_order d t tr e old n)
    ]
  ]

  pub rename-BackTo :
      (t : String) (n : Name)
      → Reversible (InverseOp.rename_track t n) d
      → BackTo fresh d (Tracks.rename_track t n d)
  unfolding Tracks.rename_track perform
  rename-BackTo t n r = elim (Option-cases (find_track d t)) [
    | inl e ↦ rw (e, Tracks.rename_track) tt
    | inr (tr, e) ↦
        elim (Bool-cases (is_empty (display_name n) || eqb_name (display_name n) tr.name)) [
          | inl same ↦ rw (e, Tracks.rename_track, same) tt
          | inr differ ↦
              rw (e, Tracks.rename_track, differ)
                (
                  _,
                  rename_track_back d t tr e (display_name n) (r tr e).0 (r tr e).1
                      (ground (arith, differ)),
                )
        ]
  ]
