-- ===== src/Project/Throws.antt =====
-- Undo and redo do not throw.
use daw_project.Common.{
  ℕ, ◌<◌, ◌≡◌, ◌≢◌, refl, String, Bool, false, Option, none, some, List, [], ◌∷◌, length,
}
use daw_project.Schema.{ProjectDef}
use daw_project.Geometry.Adjacent.{HasSortedMap}
use daw_project.Undo.{InverseOp}
use daw_project.Journal
use daw_project.Journal.{Journal, Route, to_redo, to_undo}
use daw_project.Document.{Outcome, applied, ignored, thrown}
use daw_project.Replay.{perform}
use daw_project.Replay.Total.{Returns, perform-Returns}
use daw_project.Project.{
  Automerge, Project, Undone, raised, mutate, replay, replay_routed, revert, on_journal, undo, redo,
}

-- The tempo kernel can read the document: a sorted tempo map and a positive sample rate.
abbrev pub IsReadable : ProjectDef → Type 0
IsReadable d = HasSortedMap d × (0 < d.sample_rate)

module _ (A : Automerge) where
  open A use {content, change, content-change}

  -- No throw, and the document is readable.
  abbrev Fine : Project A × Bool → Type 0
  Fine r = (r.1 ≡ false) × IsReadable (content r.0.doc)

  mutate-Fine :
      (m : ProjectDef → Outcome) (p : Project A) (o : Outcome)
      → m (content p.doc) ≡ o
      → Returns (content p.doc) o
      → IsReadable (content p.doc)
      → Fine (mutate A m p)
  unfolding mutate
  mutate-Fine m p (applied inverse d) e r h =
      rw (e, mutate) (refl, rw (content-change p.doc d, r.0, r.1) h)
  mutate-Fine m p ignored e r h = rw (e, mutate) (refl, h)
  mutate-Fine m p thrown e r h = absurd r

  module _ (emit : List A.Change → List A.Change) (fresh : ℕ → String) where
    replay-Fine :
        (ops : List InverseOp) (p : Project A)
        → IsReadable (content p.doc)
        → Fine (replay A emit fresh ops p)
    unfolding replay
    replay-Fine [] p h = (refl, h)
    replay-Fine (op ∷ ops) p h =
        let m = perform (fresh (length ops)) op in
        let first =
          mutate-Fine m p (m (content p.doc)) refl
            (perform-Returns (fresh (length ops)) (content p.doc) h.0 h.1 op) h in
        let q = (mutate A m p).0 in
        rw first.0 (replay-Fine ops (record q { pending = emit q.pending }) first.1)

    -- What undo or redo returns.
    abbrev Kind : Project A × Undone → Type 0
    Kind r = (r.1 ≢ raised) × IsReadable (content r.0.doc)

    replay_routed-Kind :
        (direction : Route) (ops : List InverseOp) (p : Project A)
        → IsReadable (content p.doc)
        → Kind (replay_routed A emit fresh direction ops p)
    unfolding replay_routed on_journal
    replay_routed-Kind direction ops p h =
        let f =
          replay-Fine ops (record p { journal = Journal.enter_replay direction p.journal }) h in
        rw f.0 (λ e. cc, f.1)

    revert-Kind :
        (direction : Route) (r : Option (List InverseOp) × Journal) (p : Project A)
        → IsReadable (content p.doc)
        → Kind (revert A emit fresh direction r p)
    unfolding revert
    revert-Kind direction (none, j) p h = (λ e. cc, h)
    revert-Kind direction (some ops, j) p h =
        replay_routed-Kind direction ops (record p { journal = j }) h

    -- On a document with a sorted tempo map and a positive sample rate neither undo nor redo throws,
    -- whatever stands on the stacks, and the document that each leaves is again such a one.
    pub undo-redo_total :
        (p : Project A)
        → IsReadable (content p.doc)
        → ((undo A emit fresh p).1 ≢ raised)
          × IsReadable (content (undo A emit fresh p).0.doc)
          × ((redo A emit fresh p).1 ≢ raised)
          × IsReadable (content (redo A emit fresh p).0.doc)
    unfolding undo redo
    undo-redo_total p h =
        let u = revert-Kind to_redo (Journal.pop_undo p.journal) p h in
        let r = revert-Kind to_undo (Journal.pop_redo p.journal) p h in (u.0, u.1, r.0, r.1)
