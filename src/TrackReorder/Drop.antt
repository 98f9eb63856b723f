-- ===== src/TrackReorder/Drop.antt =====
-- The drop of a track on the document of a project.
use daw_project.Common.{
  ◌≤◌, ◌≡◌, refl, ◌∙◌, ap, sym, String, Bool, true, Option, none, some, List, [], ◌∷◌, length,
  Bool-cases, Option-cases, inl, inr, ◌⊎◌, ℕ,
}
use daw_project.Common.Find.{any, find}
use daw_project.Num.{Num, eqb_num, eqb_num_iff}
use daw_project.Schema.{TrackDef, ProjectDef}
use daw_project.Schema.Order.{with_keys, sort_keyed, ordered_tracks}
use daw_project.Sanitize.{finite}
use daw_project.Undo.{
  InverseOp, clear_track_order as op_clear_order, set_track_order as op_track_order,
}
use daw_project.Document.{applied, ignored, find_track, track_is, update_track}
use daw_project.Document.Access.{update_track_same}
use daw_project.Mutators.Tracks.{set_track_order, with_order}
use daw_project.Project.{Automerge, Project, mutate, begin_undo_group, end_undo_group}
use daw_project.DeviceReorder.Order.{content-mutate, mutate-ignored}
use daw_project.ServerClient.{Bytes, Browser, ServerClient, Effect}
use daw_project.Sending.{send_last_change_ends}
use daw_project.TrackReorder.{Writing, nothing, order, writing_for, write, apply_drop}
use daw_project.TrackReorder.Insertion.{Distinct}
use daw_project.TrackReorder.Fits.{Spaced}
use daw_project.TrackReorder.Placed.{Placed, writing_for-Placed}

any-find {ℓ} :
    {A : Type ℓ} (p : A → Bool) (xs : List A) → any p xs ≡ true → (x : A) × (find p xs ≡ some x)
unfolding any find
any-find p [] h = cc
any-find p (x ∷ xs) h = elim (Bool-cases (p x)) [
  | inl e ↦ (x, rw e refl)
  | inr e ↦ let (y, f) = any-find p xs (rw e at h) in (y, rw e f)
]

-- The order is written, or was there already.
set_track_order_cases :
    (d : ProjectDef) (id : String) (v : Num) (t : TrackDef)
    → find_track d id ≡ some t
    → ((inverse : InverseOp) × (set_track_order id (finite v) d
          ≡ applied inverse (update_track id (with_order (some v)) d)))
      ⊎ ((set_track_order id (finite v) d ≡ ignored) × (t.order ≡ some v))
unfolding set_track_order
set_track_order_cases d id v t found = elim (Option-cases t.order) [
  | inl e ↦ inl (op_clear_order id, rw (found, e, set_track_order) refl)
  | inr (old, e) ↦ elim (Bool-cases (eqb_num old v)) [
    | inl q ↦ inr (rw (found, e, q, set_track_order) refl, rw e (ap some ((eqb_num_iff old v).0 q)))
    | inr q ↦ inl (op_track_order id old, rw (found, e, q, set_track_order) refl)
  ]
]

module _ (A : Automerge) (p : Project A) (id : String)
    (there : any (track_is id) (A.content p.doc).tracks ≡ true) where
  open A use {content}

  order-content :
      (v : Num)
      → content (mutate A (set_track_order id (finite v)) p).0.doc
        ≡ update_track id (with_order (some v)) (content p.doc)
  unfolding find_track
  order-content v =
      let (t, found) = any-find (track_is id) (content p.doc).tracks there in
      elim (set_track_order_cases (content p.doc) id v t found) [
        | inl (inverse, e) ↦ content-mutate A (set_track_order id (finite v)) p e
        | inr (e, same) ↦
            ap (λ q. content q.doc) (mutate-ignored A (set_track_order id (finite v)) p e)
            ∙ sym (
                update_track_same (content p.doc) id (with_order (some v)) t found
                  (ap (λ o. record t { order = o }) (sym same)))
      ]

-- A track of the document, all of whose tracks have their own ids, and a slot among those shown, of which
-- no neighbours have keys less than two steps apart.
module _ (A : Automerge) (p : Project A) (id : String) (slot : ℕ)
    (distinct : Distinct (A.content p.doc).tracks)
    (there : any (track_is id) (A.content p.doc).tracks ≡ true)
    (spaced : Spaced (sort_keyed (with_keys 0 (A.content p.doc).tracks)))
    (l : slot ≤ length (ordered_tracks (A.content p.doc))) where
  open A use {content}

  abbrev shown : List TrackDef
  shown = ordered_tracks (content p.doc)

  write-Placed :
      (w : Writing)
      → writing_for (content p.doc) id slot ≡ some w
      → Placed id slot shown (content (end_undo_group A (write A id w (begin_undo_group A p))).doc)
  unfolding begin_undo_group end_undo_group write
  write-Placed w e = elim (writing_for-Placed (content p.doc) id slot distinct there spaced l) [
    | inl (f, placed) ↦ cc
    | inr (inl (f, placed)) ↦ let same : w ≡ nothing = cc in rw same placed
    | inr (inr (v, f, placed)) ↦
        let same : w ≡ order (finite v) = cc in
        rw same (rw (order-content A (begin_undo_group A p) id there v) placed)
  ]

  none-Placed : writing_for (content p.doc) id slot ≡ none → Placed id slot shown (content p.doc)
  none-Placed e = elim (writing_for-Placed (content p.doc) id slot distinct there spaced l) [
    | inl (f, placed) ↦ placed
    | inr (inl (f, placed)) ↦ placed
    | inr (inr (v, f, placed)) ↦ cc
  ]

  module _ {B : Browser} (wire : A.Change → Bytes) where
    -- A drop of a track at a slot among the tracks shown: the call ends, and then what was shown before
    -- the slot is shown before the track and the rest behind it, each in its order, the slots next to
    -- the track included, which move nothing. It is so where every track has its own id and no two
    -- neighbours have keys less than two steps of 2^-20 apart.
    pub apply_drop-Placed :
        (client : Option (ServerClient B))
        → (q : Project A) × (last : Option (ServerClient B)) × (effects : List (Effect B))
          × (apply_drop A wire id slot p client ≡ some (q, (last, effects)))
          × Placed id slot shown (content q.doc)
    unfolding apply_drop
    apply_drop-Placed client = elim (Option-cases (writing_for (content p.doc) id slot)) [
      | inl e ↦ (p, client, [], rw (e, apply_drop) refl, none-Placed e)
      | inr (w, e) ↦
          let q = end_undo_group A (write A id w (begin_undo_group A p)) in
          let (last, effects, sent) = send_last_change_ends A wire q client in
          (record q { pending = [] }, last, effects, rw (e, apply_drop) sent, write-Placed w e)
    ]
