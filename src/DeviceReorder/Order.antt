-- ===== src/DeviceReorder/Order.antt =====
-- Where a dropped device stands.
use Prim.Native.Nat.{min}
use daw_project.Common.{
  ℕ, ◌-◌, ◌+◌, ◌==◌, ◌||◌, Bool, ◌≤◌, ◌≡◌, refl, ◌∙◌, ap, sym, String, true, false, Option, none,
  some, List, [], ◌∷◌, ◌++◌, ltb, length, take, drop, if◌then◌else◌, arith, Bool-cases, inl, inr,
  Option-cases,
}
use daw_project.Common.Find.{locate, any, remove_first, insert_at, without}
use daw_project.Common.Slot.{insert_at_slot}
use daw_project.Common.Splice.{insert_at-remove_first, locate_bound}
use daw_project.Num.{num, round_pos-num}
use daw_project.Schema.{ProcessorDef, TrackDef, ProjectDef}
use daw_project.Undo.{InverseOp, move_processor as op_move}
use daw_project.Document.{Outcome, applied, ignored, find_track, processor_is, update_track}
use daw_project.Document.Access.{find_track-update_track}
use daw_project.Mutators.Processors.{move_processor, with_moved}
use daw_project.Project.{Automerge, Project, mutate}
use daw_project.ServerClient.{Bytes, Browser, ServerClient, Effect}
use daw_project.Sending.{send_last_change_ends}
use daw_project.DeviceReorder.{target_in, apply_drop}

-- A drop that moves nothing asks for the place where the device stands.
target_in-none :
    (chain : List ProcessorDef) (id : String) (slot src : ℕ) (a : ProcessorDef)
    → locate (processor_is id) chain ≡ some (src, a)
    → target_in chain id slot ≡ none
    → (if ltb src slot then slot - 1 else slot) ≡ src
unfolding target_in
target_in-none chain id slot src a at h = ground arith

-- The slot is next to the device.
abbrev pub is_beside : ℕ → ℕ → Bool
is_beside slot src = slot == src || slot == src + 1

target_in-beside :
    (chain : List ProcessorDef) (id : String) (slot src : ℕ) (a : ProcessorDef)
    → locate (processor_is id) chain ≡ some (src, a)
    → target_in chain id slot ≡ none
    → is_beside slot src ≡ true
unfolding target_in
target_in-beside chain id slot src a at h = ground arith

target_in-away :
    (chain : List ProcessorDef) (id : String) (slot src to : ℕ) (a : ProcessorDef)
    → locate (processor_is id) chain ≡ some (src, a)
    → target_in chain id slot ≡ some to
    → is_beside slot src ≡ false
unfolding target_in
target_in-away chain id slot src to a at h = ground arith

target_in-some :
    (chain : List ProcessorDef) (id : String) (slot src to : ℕ) (a : ProcessorDef)
    → locate (processor_is id) chain ≡ some (src, a)
    → target_in chain id slot ≡ some to
    → (if ltb src slot then slot - 1 else slot) ≡ to
unfolding target_in
target_in-some chain id slot src to a at h = ground arith

module _ (A : Automerge) (m : ProjectDef → Outcome) (p : Project A) where
  pub content-mutate :
      {inverse : InverseOp} {d : ProjectDef}
      → m (A.content p.doc) ≡ applied inverse d
      → A.content (mutate A m p).0.doc ≡ d
  unfolding mutate
  content-mutate {inverse} {d} e = rw (e, mutate) (A.content-change p.doc d)

  pub mutate-ignored : m (A.content p.doc) ≡ ignored → (mutate A m p).0 ≡ p
  unfolding mutate
  mutate-ignored e = rw (e, mutate)

pub ==_eq : (i j : ℕ) → (i == j) ≡ true → i ≡ j
==_eq i j h = ground arith

-- The chain of the track has what stood before the slot, the device, and the rest.
abbrev pub Dropped : String → ProcessorDef → ℕ → TrackDef → ProjectDef → Type 0
Dropped proc_id a slot t d =
    find_track d t.id
    ≡ some (record t {
      chain =
          without (processor_is proc_id) (take slot t.chain)
          ++ a ∷ without (processor_is proc_id) (drop slot t.chain);
    })

-- A track with one device of the id, and a slot of its chain.
module _ (t : TrackDef) (proc_id : String) (slot src : ℕ) (a : ProcessorDef)
    (at : locate (processor_is proc_id) t.chain ≡ some (src, a))
    (once : any (processor_is proc_id) (remove_first (processor_is proc_id) t.chain) ≡ false)
    (l : slot ≤ length t.chain) where
  abbrev to : ℕ
  to = if ltb src slot then slot - 1 else slot

  to_bound : to ≤ length t.chain - 1
  to_bound = ground (arith, locate_bound (processor_is proc_id) t.chain src a)

  to_rest :
      min (min to (length t.chain - 1)) (length (remove_first (processor_is proc_id) t.chain)) ≡ to
  to_rest = omega (arith, to_bound, locate_bound (processor_is proc_id) t.chain src a at)

  with_moved-chain : with_moved proc_id a (min to (length t.chain - 1)) t ≡ record t {
    chain =
        without (processor_is proc_id) (take slot t.chain)
        ++ a ∷ without (processor_is proc_id) (drop slot t.chain);
  }
  with_moved-chain = rw to_rest (
      ap (λ c. record t { chain = c })
        (insert_at_slot (processor_is proc_id) t.chain src slot a at once l))

  -- Where the place asked for is the one the device has, the chain is already so.
  stays : (d : ProjectDef) → find_track d t.id ≡ some t → to ≡ src → Dropped proc_id a slot t d
  stays d found e =
      found
      ∙ ap (λ c. some (record t { chain = c }))
          (sym (insert_at-remove_first (processor_is proc_id) t.chain src a at)
            ∙ ap (λ i. insert_at i a (remove_first (processor_is proc_id) t.chain)) (sym e)
            ∙ insert_at_slot (processor_is proc_id) t.chain src slot a at once l)

  move_outcome :
      (d : ProjectDef)
      → find_track d t.id ≡ some t
      → move_processor t.id proc_id (num to) d ≡ (
          if min to (length t.chain - 1) == src
          then ignored
          else applied
              (op_move t.id proc_id (num src))
              (update_track t.id (with_moved proc_id a (min to (length t.chain - 1))) d))
  unfolding move_processor
  move_outcome d found = rw (found, at, round_pos-num to, move_processor)

  module _ (A : Automerge) (p : Project A)
      (found : find_track (A.content p.doc) t.id ≡ some t) where
    open A use {content, change, content-change}

    moved-Dropped :
        Dropped proc_id a slot t (content (mutate A (move_processor t.id proc_id (num to)) p).0.doc)
    moved-Dropped = elim (Bool-cases (min to (length t.chain - 1) == src)) [
      | inl e ↦
          rw
            (mutate-ignored A (move_processor t.id proc_id (num to)) p
              (move_outcome (content p.doc) found ∙ rw e refl))
            (stays (content p.doc) found
              (omega (arith, to_bound, ==_eq (min to (length t.chain - 1)) src e)))
      | inr e ↦
          rw
            (content-mutate A (move_processor t.id proc_id (num to)) p
              {inverse = op_move t.id proc_id (num src)}
              {d = update_track t.id (with_moved proc_id a (min to (length t.chain - 1)))
                (content p.doc)}
              (move_outcome (content p.doc) found ∙ rw e refl))
            (find_track-update_track (content p.doc) t.id
                (with_moved proc_id a (min to (length t.chain - 1))) t found refl
              ∙ ap some with_moved-chain)
    ]

    module _ {B : Browser} (wire : A.Change → Bytes) where
      -- A drop at a slot of the chain, of a device that is on the track once: what comes before the slot
      -- stays before the device, and the rest behind it, each in its order. The call ends. Where the
      -- slot is next to the device the project and the client stay as they are, and nothing goes out;
      -- else no change of the project is left to send.
      pub apply_drop-Dropped :
          (client : Option (ServerClient B))
          → (q : Project A) × (last : Option (ServerClient B)) × (effects : List (Effect B))
            × (apply_drop A wire t.id proc_id slot p client ≡ some (q, (last, effects)))
            × Dropped proc_id a slot t (content q.doc)
            × (if is_beside slot src
                then (q ≡ p) × (last ≡ client) × (effects ≡ [])
                else q.pending ≡ [])
      unfolding apply_drop
      apply_drop-Dropped client = elim (Option-cases (target_in t.chain proc_id slot)) [
        | inl e ↦ (
          p,
          client,
          [],
          rw (found, e, apply_drop),
          stays (content p.doc) found (target_in-none t.chain proc_id slot src a at e),
          rw (target_in-beside t.chain proc_id slot src a at e) (refl, refl, refl),
        )
        | inr (i, e) ↦
            let q = (mutate A (move_processor t.id proc_id (num i)) p).0 in
            let (last, effects, sent) = send_last_change_ends A wire q client in
            (
              record q { pending = [] },
              last,
              effects,
              rw (found, e, apply_drop) sent,
              rw (← target_in-some t.chain proc_id slot src i a at e) (moved-Dropped),
              rw (target_in-away t.chain proc_id slot src i a at e) refl,
            )
      ]
