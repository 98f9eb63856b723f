-- ===== src/Sending.antt =====
-- `sendLastChange`, web/src/app/context.ts: the queue of the project goes to the connection, one
-- change after the other, until it is empty.
use daw_project.Common.{
  ℕ, zero, suc, ◌<◌, ◌≡◌, refl, ◌∙◌, sym, Bool, true, false, ◌&&◌, not, Option, none, some, List,
  [], ◌∷◌, ◌++◌, map, arith, length, if◌then◌else◌, Bool-cases, inl, inr,
}
use mathlib.Core.List.{append_assoc, append-nil}
use daw_project.Project.{Automerge, Project, get_last_change}
use daw_project.ServerClient.{
  Bytes, Browser, ServerClient, Effect, send_change, is_open, submit_change, persist_outbox,
}

abbrev pub Sent : Automerge → Browser → Type 0
Sent A B = Project A × (Option (ServerClient B) × List (Effect B))

module _ {B : Browser} where
  -- The connection has its document.
  abbrev pub is_ready : ServerClient B → Bool
  is_ready client = is_open client.socket && not client.awaiting_initial_doc

-- A change of the document library is its bytes, `wire`.
module _ (A : Automerge) {B : Browser} (wire : A.Change → Bytes) where
  open A use {Change}

  -- `ctx.serverClient?.sendChange(change)`
  abbrev pub hand_over :
      Change → Option (ServerClient B) → Option (ServerClient B) × List (Effect B)
  hand_over c none = (none, [])
  hand_over c (some client) =
      let (next, effects) = submit_change (wire c) client in (some next, effects)

  -- What went out comes before what the later rounds send.
  with_effects : List (Effect B) → Option (Sent A B) → Option (Sent A B)
  with_effects effects none = none
  with_effects effects (some (r, (last, more))) = some (r, (last, effects ++ more))

  -- The loop, of at most so many rounds; `none` where they do not suffice.
  unfoldable pub send_last_change : ℕ → Project A → Option (ServerClient B) → Option (Sent A B)
  unfolding with_effects
  send_last_change zero p client = none
  send_last_change (suc rounds) p client =
      let (change, q) = get_last_change A p in
      elim change [
        | none ↦ some (q, (client, []))
        | some c ↦
            let (next, effects) = hand_over c client in
            with_effects effects (send_last_change rounds q next)
      ]

  submit-ready :
      (c : Bytes) (client : ServerClient B)
      → is_ready client ≡ true
      → submit_change c client ≡ (client, send_change c ∷ [])
  unfolding submit_change
  submit-ready c client h = rw h refl

  submit-waiting :
      (c : Bytes) (client : ServerClient B)
      → is_ready client ≡ false
      → (is_ready (submit_change c client).0 ≡ false)
        × ((submit_change c client).0.outbox ≡ client.outbox ++ c ∷ [])
        × ((submit_change c client).1 ≡ [])
  unfolding submit_change persist_outbox
  submit-waiting c client h = ground arith

  -- Whatever the connection, the loop ends with the queue empty.
  loop-total :
      (cs : List Change) (rounds : ℕ) (p : Project A) (client : Option (ServerClient B))
      → length cs < rounds
      → (last : Option (ServerClient B)) × (effects : List (Effect B)) × (send_last_change rounds
            (record p { pending = cs })
            client
          ≡ some (record p { pending = [] }, (last, effects)))
  unfolding send_last_change get_last_change
  loop-total cs zero p client l = absurd (omega arith)
  loop-total [] (suc rounds) p client l = (client, [], refl)
  loop-total (c ∷ cs) (suc rounds) p client l =
      let (last, effects, e) = loop-total cs rounds p (hand_over c client).0 (omega arith) in
      (last, (hand_over c client).1 ++ effects, rw e refl)

  pub send_last_change_ends :
      (p : Project A) (client : Option (ServerClient B))
      → (last : Option (ServerClient B)) × (effects : List (Effect B)) × (send_last_change
            (suc (length p.pending))
            p
            client
          ≡ some (record p { pending = [] }, (last, effects)))
  send_last_change_ends p client =
      loop-total p.pending (suc (length p.pending)) p client (omega arith)

  loop-ready :
      (cs : List Change) (rounds : ℕ) (p : Project A) (client : ServerClient B)
      → is_ready client ≡ true
      → length cs < rounds
      → send_last_change rounds (record p { pending = cs }) (some client)
        ≡ some (record p { pending = [] }, (some client, map send_change (map wire cs)))
  unfolding send_last_change get_last_change
  loop-ready cs zero p client h l = absurd (omega arith)
  loop-ready [] (suc rounds) p client h l = refl
  loop-ready (c ∷ cs) (suc rounds) p client h l =
      rw (submit-ready (wire c) client h, loop-ready cs rounds p client h (omega arith)) refl

  loop-waiting :
      (cs : List Change) (rounds : ℕ) (p : Project A) (client : ServerClient B)
      → is_ready client ≡ false
      → length cs < rounds
      → (last : ServerClient B) × (send_last_change rounds (record p { pending = cs }) (some client)
          ≡ some (record p { pending = [] }, (some last, [])))
        × (last.outbox ≡ client.outbox ++ map wire cs)
  unfolding send_last_change get_last_change
  loop-waiting cs zero p client h l = absurd (omega arith)
  loop-waiting [] (suc rounds) p client h l = (client, refl, sym (append-nil client.outbox))
  loop-waiting (c ∷ cs) (suc rounds) p client h l =
      let w = submit-waiting (wire c) client h in
      let (last, e, o) =
        loop-waiting cs rounds p (submit_change (wire c) client).0 w.0 (omega arith) in
      (last, rw (e, w.2) refl, o ∙ rw w.1 (append_assoc client.outbox (wire c ∷ []) (map wire cs)))

  -- The loop ends: with one round more than there are changes in the queue, the queue is empty and the
  -- document the same. A connection that has its document sends every change, in order, and is as it
  -- was; any other puts every change, in order, behind those that wait, and sends nothing.
  pub send_last_change_total :
      (rounds : ℕ) (p : Project A) (client : ServerClient B)
      → length p.pending < rounds
      → (last : ServerClient B) × (effects : List (Effect B)) × (send_last_change rounds p
            (some client)
          ≡ some (record p { pending = [] }, (some last, effects)))
        × (if is_ready client
            then (last ≡ client) × (effects ≡ map send_change (map wire p.pending))
            else (last.outbox ≡ client.outbox ++ map wire p.pending) × (effects ≡ []))
  send_last_change_total rounds p client l = elim (Bool-cases (is_ready client)) [
    | inl h ↦ (
      client,
      map send_change (map wire p.pending),
      loop-ready p.pending rounds p client h l,
      rw h (refl, refl),
    )
    | inr h ↦
        let (last, e, o) = loop-waiting p.pending rounds p client h l in
        (last, [], e, rw h (o, refl))
  ]
