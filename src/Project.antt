-- ===== src/Project.antt =====
-- Class `Project`, web/src/document/project.ts: the document handle of Automerge, the queue of
-- changes to send and the undo journal. Automerge is a parameter.
pub mod History
pub mod Throws
pub mod Composite
use daw_project.Common.{
  str_eq, ◌&&◌, not, ◌>>=◌, ℕ, String, Bool, true, false, ◌==◌, ◌≡◌, Option, none, some, List, [],
  ◌∷◌, ◌++◌, length, ltb, if◌then◌else◌,
}
use daw_project.Schema.{ProjectDef}
use daw_project.Undo.{InverseOp}
use daw_project.Journal
use daw_project.Journal.{Journal, Route, to_redo, to_undo}
use daw_project.Document.{Outcome, applied, ignored, thrown}
use daw_project.Replay.{perform}

-- What the class relies on of @automerge/automerge. A throw is `none`.
pub record Automerge : Type 1 where
  pub Doc : Type 0
  pub Change : Type 0
  pub Bytes : Type 0
  pub content : Doc → ProjectDef
  pub change : Doc → ProjectDef → Doc
  pub last_local_change : Doc → Option Change
  pub load : Bytes → Option Doc
  pub merge : Doc → Doc → Option Doc
  pub apply_change : Doc → Change → Option Doc
  pub heads : Doc → List String
  pub changes_since : Doc → Doc → List Change
  pub missing_deps : Doc → ℕ
  pub seed : Doc
  -- The callback of `change` leaves the draft as it shall be.
  pub content-change : (d : Doc) (p : ProjectDef) → content (change d p) ≡ p

-- What `mergeRemote` returns.
pub data MergeResult : Type 0 where
  new same error : MergeResult

-- What `undo` and `redo` return: false, true, or a throw.
pub data Undone : Type 0 where
  nothing done raised : Undone

pub record Project (A : Automerge) : Type 0 where
  pub doc : A.Doc
  pub pending : List A.Change
  pub journal : Journal

-- Equality of the heads as one text.
same_heads : List String → List String → Bool
same_heads [] [] = true
same_heads (a ∷ as') (b ∷ bs) = str_eq a b && same_heads as' bs
same_heads _ _ = false

is_head : String → List String → Bool
is_head h [] = false
is_head h (s ∷ ss) = str_eq h s

module _ (A : Automerge) where
  open A use {
    Doc, Change, Bytes, content, change, last_local_change, load, merge, apply_change, heads,
    changes_since, missing_deps, seed,
  }

  abbrev pub new_project : Project A
  new_project = record { doc = seed; pending = []; journal = Journal.new_journal }

  -- Bytes that do not load leave the shared seed.
  unfoldable pub load_project : Bytes → Project A → Project A
  load_project bytes p = record {
    doc = elim (load bytes) [ none ↦ seed | some d ↦ d ];
    pending = [];
    journal = Journal.clear p.journal;
  }

  -- The one head of the document is the first of the seed.
  unfoldable pub is_pristine_seed : Project A → Bool
  unfolding is_head
  is_pristine_seed p = elim (heads p.doc) [ h ∷ [] ↦ is_head h (heads seed) | _ ↦ false ]

  -- What the remote document lacks; nothing where it does not load.
  unfoldable pub get_missing_changes : Bytes → Project A → List Change
  get_missing_changes remote_bytes p = elim (load remote_bytes) [
    | none ↦ []
    | some remote ↦ changes_since remote p.doc
  ]

  abbrev report : Bool → MergeResult
  report true = MergeResult.same
  report false = MergeResult.new

  merge_doc : Project A → Option Doc → Project A × MergeResult
  merge_doc p none = (p, MergeResult.error)
  merge_doc p (some d) = (record p { doc = d }, report (same_heads (heads p.doc) (heads d)))

  unfoldable pub merge_remote : Bytes → Project A → Project A × MergeResult
  unfolding merge_doc same_heads
  merge_remote bytes p = merge_doc p (load bytes >>= merge p.doc)

  -- False where the change throws, or is buffered for want of a dependency.
  unfoldable pub apply_remote_change : Change → Project A → Project A × Bool
  apply_remote_change c p = elim (apply_change p.doc c) [
    | none ↦ (p, false)
    | some d ↦ (record p { doc = d }, not (ltb (missing_deps p.doc) (missing_deps d)))
  ]

  -- `capturePending`
  abbrev queued : Doc → List Change → List Change
  queued d pending = elim (last_local_change d) [ none ↦ pending | some c ↦ pending ++ c ∷ [] ]

  -- The common form of the mutators: capture, change, queue; the Boolean tells of a throw.
  unfoldable pub mutate : (ProjectDef → Outcome) → Project A → Project A × Bool
  mutate m p = elim (m (content p.doc)) [
    | ignored ↦ (p, false)
    | thrown ↦ (p, true)
    | applied inverse d ↦
        let doc' = change p.doc d in
        (
          record {
            doc = doc';
            pending = queued doc' p.pending;
            journal = Journal.capture inverse p.journal;
          },
          false,
        )
  ]

  -- `getLastChange`: the oldest change of the queue.
  unfoldable pub get_last_change : Project A → Option Change × Project A
  get_last_change p = elim p.pending [
    | [] ↦ (none, p)
    | c ∷ cs ↦ (some c, record p { pending = cs })
  ]

  on_journal : (Journal → Journal) → Project A → Project A
  on_journal f p = record p { journal = f p.journal }

  unfoldable pub begin_undo_group : Project A → Project A
  unfolding on_journal
  begin_undo_group = on_journal Journal.begin_group

  unfoldable pub end_undo_group : Project A → Project A
  unfolding on_journal
  end_undo_group = on_journal Journal.end_group

  module _ (emit : List Change → List Change) (fresh : ℕ → String) where
    -- `emit` is what the callback does to the queue, and `fresh` the ids that `newId` gives to
    -- notes, by the operations left. A throw ends the loop; the Boolean tells of one.
    unfoldable pub replay : List InverseOp → Project A → Project A × Bool
    replay [] p = (p, false)
    replay (op ∷ ops) p =
        let (q, threw) = mutate (perform (fresh (length ops)) op) p in
        let rest = replay ops (record q { pending = emit q.pending }) in
        if threw then (q, true) else rest

    -- The journal leaves the replay by a throw too.
    replay_routed : Route → List InverseOp → Project A → Project A × Undone
    replay_routed direction ops p =
        let (q, threw) = replay ops (on_journal (Journal.enter_replay direction) p) in
        (on_journal Journal.leave_replay q, if threw then raised else done)

    -- `none` is the empty stack.
    revert : Route → Option (List InverseOp) × Journal → Project A → Project A × Undone
    revert direction (none, j) p = (p, nothing)
    revert direction (some ops, j) p = replay_routed direction ops (record p { journal = j })

    unfoldable pub undo : Project A → Project A × Undone
    unfolding revert replay_routed on_journal
    undo p = revert to_redo (Journal.pop_undo p.journal) p

    unfoldable pub redo : Project A → Project A × Undone
    unfolding revert replay_routed on_journal
    redo p = revert to_undo (Journal.pop_redo p.journal) p
