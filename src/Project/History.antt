-- ===== src/Project/History.antt =====
-- Undo and redo of one mutation: the document goes back and forth as the captured inverses say, and
-- the stacks follow.
pub mod Timeline
use daw_project.Common.{ℕ, String, false, ◌≡◌, refl, ◌∙◌, some, List, [], ◌∷◌}
use daw_project.Schema.{ProjectDef}
use daw_project.Undo.{InverseOp}
use daw_project.Journal
use daw_project.Journal.{Journal, Route, UndoGroup, to_redo, to_undo, push_entry, max_entries}
use daw_project.Journal.Groups.{single, IsIdle, pop_undo-capture, replayed_undo, replayed_redo}
use daw_project.Document.{Outcome, applied}
use daw_project.Replay.{perform}
use daw_project.Replay.Reversible.{Reversible}
use daw_project.Replay.Exact.{undo_exact}
use daw_project.Project.{
  Automerge, Project, done, mutate, queued, replay, replay_routed, on_journal, undo, redo,
}

with_redo :
    (j : Journal) (stack : List UndoGroup) → IsIdle j → IsIdle (record j { redo_stack = stack })
with_redo j stack idle = record { route = idle.route; grouping = idle.grouping; room = idle.room }

pop_redo-single :
    (j : Journal) (op : InverseOp)
    → Journal.pop_redo (record j { redo_stack = single op ∷ [] })
      ≡ (some (op ∷ []), record j { redo_stack = [] })
unfolding Journal.pop_redo
pop_redo-single j op = refl

module _ (A : Automerge) where
  open A use {Doc, Change, content, change, content-change}

  -- The project after an applied mutation.
  abbrev after : InverseOp → ProjectDef → Project A → Project A
  after inverse d p = record {
    doc = change p.doc d;
    pending = queued A (change p.doc d) p.pending;
    journal = Journal.capture inverse p.journal;
  }

  mutate-applied :
      (m : ProjectDef → Outcome) (p : Project A) {inverse : InverseOp} {d : ProjectDef}
      → m (content p.doc) ≡ applied inverse d
      → mutate A m p ≡ (after inverse d p, false)
  unfolding mutate
  mutate-applied m p e = rw (e, mutate)

  -- What an applied mutation leaves.
  pub mutate_parts :
      (m : ProjectDef → Outcome) (p : Project A) {inverse : InverseOp} {d : ProjectDef}
      → m (content p.doc) ≡ applied inverse d
      → ((mutate A m p).1 ≡ false)
        × (content (mutate A m p).0.doc ≡ d)
        × ((mutate A m p).0.journal ≡ Journal.capture inverse p.journal)
  mutate_parts m p {d} e = rw (mutate-applied m p e) (refl, content-change p.doc d, refl)

  module _ (emit : List Change → List Change) (fresh : ℕ → String) where
    replay_one :
        (op : InverseOp) (p : Project A) {inverse : InverseOp} {d : ProjectDef}
        → perform (fresh 0) op (content p.doc) ≡ applied inverse d
        → replay A emit fresh (op ∷ []) p ≡ (
          record (after inverse d p) { pending = emit (queued A (change p.doc d) p.pending) },
          false,
        )
    unfolding replay
    replay_one op p e = rw (mutate-applied (perform (fresh 0) op) p e)

    replay_routed_undo :
        (op : InverseOp) (p : Project A) {inverse : InverseOp} {d : ProjectDef}
        → IsIdle p.journal
        → perform (fresh 0) op (content p.doc) ≡ applied inverse d
        → replay_routed A emit fresh to_redo (op ∷ []) p ≡ (
          record {
            doc = change p.doc d;
            pending = emit (queued A (change p.doc d) p.pending);
            journal = record p.journal {
              redo_stack = push_entry (single inverse) p.journal.redo_stack;
            };
          },
          done,
        )
    unfolding replay_routed on_journal
    replay_routed_undo op p {inverse} idle e = rw (
      replay_one op (record p { journal = Journal.enter_replay to_redo p.journal }) e,
      replayed_undo inverse p.journal idle,
    )

    replay_routed_redo :
        (op : InverseOp) (p : Project A) {inverse : InverseOp} {d : ProjectDef}
        → IsIdle p.journal
        → perform (fresh 0) op (content p.doc) ≡ applied inverse d
        → replay_routed A emit fresh to_undo (op ∷ []) p ≡ (
          record {
            doc = change p.doc d;
            pending = emit (queued A (change p.doc d) p.pending);
            journal = record p.journal {
              undo_stack = push_entry (single inverse) p.journal.undo_stack;
            };
          },
          done,
        )
    unfolding replay_routed on_journal
    replay_routed_redo op p {inverse} idle e = rw (
      replay_one op (record p { journal = Journal.enter_replay to_undo p.journal }) e,
      replayed_redo inverse p.journal idle,
    )

    undo_entry :
        (p : Project A) (op : InverseOp) (j : Journal)
        → Journal.pop_undo p.journal ≡ (some (op ∷ []), j)
        → undo A emit fresh p
          ≡ replay_routed A emit fresh to_redo (op ∷ []) (record p { journal = j })
    unfolding undo
    undo_entry p op j e = rw e

    redo_entry :
        (p : Project A) (op : InverseOp) (j : Journal)
        → Journal.pop_redo p.journal ≡ (some (op ∷ []), j)
        → redo A emit fresh p
          ≡ replay_routed A emit fresh to_undo (op ∷ []) (record p { journal = j })
    unfolding redo
    redo_entry p op j e = rw e

    -- The undo of an entry of one operation.
    pub undo_single :
        (p : Project A) (op : InverseOp) (j : Journal) {again : InverseOp} {d : ProjectDef}
        → Journal.pop_undo p.journal ≡ (some (op ∷ []), j)
        → IsIdle j
        → perform (fresh 0) op (content p.doc) ≡ applied again d
        → (content (undo A emit fresh p).0.doc ≡ d)
          × ((undo A emit fresh p).0.journal.undo_stack ≡ j.undo_stack)
          × ((undo A emit fresh p).1 ≡ done)
    undo_single p op j {d} e idle f =
        rw (undo_entry p op j e ∙ replay_routed_undo op (record p { journal = j }) idle f)
          (content-change p.doc d, refl, refl)

    -- The project after the undo of one applied mutation.
    abbrev undone : InverseOp → ProjectDef → InverseOp → ProjectDef → Project A → Project A
    undone inverse d again d' p =
        let doc' = change (change p.doc d) d' in
        record {
          doc = doc';
          pending = emit (queued A doc' (queued A (change p.doc d) p.pending));
          journal = record p.journal { redo_stack = single again ∷ [] };
        }

    undo-mutate :
        (m : ProjectDef → Outcome) (p : Project A) (inverse again : InverseOp) (d d' : ProjectDef)
        → IsIdle p.journal
        → m (content p.doc) ≡ applied inverse d
        → perform (fresh 0) inverse d ≡ applied again d'
        → undo A emit fresh (mutate A m p).0 ≡ (undone inverse d again d' p, done)
    unfolding push_entry
    undo-mutate m p inverse again d d' idle e f = rw (mutate-applied m p e) (
        undo_entry (after inverse d p) inverse _ (pop_undo-capture inverse p.journal idle)
        ∙ replay_routed_undo inverse
            (record (after inverse d p) { journal = record p.journal { redo_stack = [] } })
            (with_redo p.journal [] idle) (rw (content-change p.doc d) f))

    -- An applied mutation outside any group and replay with room on the undo stack, then undo, then
    -- redo, where the captured inverse applies and captures in its turn an operation that applies:
    -- undo leaves the document of that inverse and the undo stack of before, redo the document of
    -- the other.
    pub redo-undo-mutate :
        (m : ProjectDef → Outcome) (p : Project A) (inverse again back : InverseOp)
        (d d' d'' : ProjectDef)
        → IsIdle p.journal
        → m (content p.doc) ≡ applied inverse d
        → perform (fresh 0) inverse d ≡ applied again d'
        → perform (fresh 0) again d' ≡ applied back d''
        → (content (undo A emit fresh (mutate A m p).0).0.doc ≡ d')
          × ((undo A emit fresh (mutate A m p).0).0.journal.undo_stack ≡ p.journal.undo_stack)
          × (content (redo A emit fresh (undo A emit fresh (mutate A m p).0).0).0.doc ≡ d'')
    redo-undo-mutate m p inverse again back d d' d'' idle e f g =
        rw (undo-mutate m p inverse again d d' idle e f) (
          content-change _ _,
          refl,
          rw
              (
                redo_entry (undone inverse d again d' p) again
                    (record p.journal { redo_stack = [] }) (pop_redo-single p.journal again),
                replay_routed_redo again
                    (record (undone inverse d again d' p) {
                      journal = record p.journal { redo_stack = [] };
                    })
                    {inverse = back} {d = d''} (with_redo p.journal [] idle)
                    (rw (content-change (change p.doc d) d') g),
              )
              (content-change _ _),
        )

    -- An operation that is reversible on the document, applied outside any group and replay with
    -- room on the undo stack, then undo: the document is, in every field, the one of before, the
    -- undo stack is the one of before, and undo reports that it did something.
    pub undo_restores :
        (op inverse : InverseOp) (p : Project A) (d : ProjectDef)
        → IsIdle p.journal
        → Reversible op (content p.doc)
        → perform (fresh 0) op (content p.doc) ≡ applied inverse d
        → (content (undo A emit fresh (mutate A (perform (fresh 0) op) p).0).0.doc ≡ content p.doc)
          × ((undo A emit fresh (mutate A (perform (fresh 0) op) p).0).0.journal.undo_stack
              ≡ p.journal.undo_stack)
          × ((undo A emit fresh (mutate A (perform (fresh 0) op) p).0).1 ≡ done)
    undo_restores op inverse p d idle r e =
        let (again, f) = undo_exact (fresh 0) op inverse (content p.doc) d r e in
        rw (undo-mutate (perform (fresh 0) op) p inverse again d (content p.doc) idle e f)
          (content-change _ _, refl, refl)
