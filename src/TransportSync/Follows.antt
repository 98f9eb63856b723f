-- ===== src/TransportSync/Follows.antt =====
-- When the local engine is driven by a peer.
use daw_project.Common.{
  if_elim, ◌≡◌, refl, arith, ◌∙◌, suc, Bool, true, false, ◌||◌, not, Option, none, some, List, [],
  ◌∷◌, Bool-cases, Option-cases, inl, inr,
}
use daw_project.Common.Int.{◌-ℤ◌}
use daw_project.Num.{Num}
use daw_project.Schema.{Name, is_some}
use daw_project.Document.DisplayName.{eqb_name}
use daw_project.TransportSync.{
  SyncState, Surroundings, Effect, Message, Body, anchor, rejoin, report_request, unreadable, apply,
  initial_state, is_older, set_enabled, publish, try_apply, retry, answer, handle_body,
  handle_signal, directed_elsewhere, follow, Pending,
}

-- Nothing waits while the sync is off.
abbrev pub WaitsOnlyOn : SyncState → Type 0
WaitsOnlyOn s = (not (is_some s.pending) || s.enabled) ≡ true

abbrev pub drives : List Effect → Bool
drives [] = false
drives (apply _ _ ∷ es) = true
drives (_ ∷ es) = drives es

pub data Step : SyncState → SyncState × List Effect → Type 0 where
  enables : (on : Bool) (s : SyncState) → Step s (set_enabled on s)
  publishes :
      (env : Surroundings) (playing : Bool) (at : Num) (s : SyncState)
      → Step s (publish env playing at s)
  hears : (env : Surroundings) (m : Message) (s : SyncState) → Step s (handle_signal env m s)
  retries : (env : Surroundings) (s : SyncState) → Step s (retry env s)

pub data Reach : SyncState → Type 0 where
  start : Reach initial_state
  next : {s : SyncState} {r : SyncState × List Effect} → Reach s → Step s r → Reach r.0

-- What a call leaves: nothing waits while the sync is off, and the engine is driven only where the
-- sync was on.
abbrev Leaves : SyncState → SyncState × List Effect → Type 0
Leaves s r = WaitsOnlyOn r.0 × ((not (drives r.1) || s.enabled) ≡ true)

follow-enabled :
    (env : Surroundings) (p : Pending) (x : Num) (s : SyncState)
    → (follow env p x s).0.enabled ≡ s.enabled
follow-enabled env p x s = elim (Bool-cases env.suspended) [ inl e ↦ rw e refl | inr e ↦ rw e refl ]

enabled-try_apply : (env : Surroundings) (s : SyncState) → (try_apply env s).0.enabled ≡ s.enabled
unfolding try_apply
enabled-try_apply env s = elim (Option-cases s.pending) [
  | inl e ↦ rw (e, try_apply) refl
  | inr (p, e) ↦ elim (Option-cases (env.offset_of p.from)) [
    | inl f ↦ rw (e, try_apply, f) refl
    | inr (offset, f) ↦ elim (Bool-cases (is_older (p.t -ℤ offset) p.from s.last)) [
      | inl g ↦ rw (e, try_apply, f, g) refl
      | inr g ↦ rw (e, try_apply, f, g) (follow-enabled env p (p.t -ℤ offset) s)
    ]
  ]
]

on-Leaves :
    (s : SyncState) (r : SyncState × List Effect)
    → s.enabled ≡ true
    → r.0.enabled ≡ true
    → Leaves s r
on-Leaves s r e f = (ground (arith, f), ground (arith, e))

off-Leaves :
    (s : SyncState) (r : SyncState × List Effect)
    → r.0.pending ≡ none
    → drives r.1 ≡ false
    → Leaves s r
off-Leaves s r e f = (rw e refl, rw f refl)

waits_none : (s : SyncState) → WaitsOnlyOn s → s.enabled ≡ false → s.pending ≡ none
waits_none s h e = elim (Option-cases s.pending) [ inl n ↦ n | inr (p, n) ↦ cc (rw (n, e) at h) ]

try_apply-Leaves : (env : Surroundings) (s : SyncState) → WaitsOnlyOn s → Leaves s (try_apply env s)
unfolding try_apply
try_apply-Leaves env s h = elim (Bool-cases s.enabled) [
  | inl on ↦ on-Leaves s (try_apply env s) on (enabled-try_apply env s ∙ on)
  | inr off ↦ let n = waits_none s h off in rw (n, try_apply) (rw n refl, refl)
]

answer-Leaves :
    (env : Surroundings) (from : Name) (s : SyncState) (live : Option (Bool × Num))
    → WaitsOnlyOn s
    → Leaves s (answer env from s live)
unfolding answer
answer-Leaves env from s none h = (h, refl)
answer-Leaves env from s (some (true, at)) h = (h, refl)
answer-Leaves env from s (some (false, at)) h = (h, refl)

handle_body-Leaves :
    (env : Surroundings) (from : Name) (b : Body) (s : SyncState)
    → WaitsOnlyOn s
    → Leaves s (handle_body env from b s)
unfolding handle_body
handle_body-Leaves env from report_request s h = (h, refl)
handle_body-Leaves env from unreadable s h = (h, refl)
handle_body-Leaves env from rejoin s h = elim (Bool-cases (not s.enabled || env.suspended)) [
  | inl e ↦ rw e (h, refl)
  | inr e ↦ rw e (answer-Leaves env from s env.live h)
]
handle_body-Leaves env from (anchor playing at t) s h =
    let s' : SyncState = record s {
      pending = some (record { from = from; playing = playing; pos_sec = at; t = t });
    } in
    if_elim (Leaves s) s.enabled
      (λ on. on-Leaves s (try_apply env s') on (enabled-try_apply env s' ∙ on))
      (λ off. off-Leaves s (record s { ignored = suc s.ignored }, []) (waits_none s h off) refl)

handle_signal-Leaves :
    (env : Surroundings) (m : Message) (s : SyncState)
    → WaitsOnlyOn s
    → Leaves s (handle_signal env m s)
unfolding handle_signal
handle_signal-Leaves env m s h =
    elim (Bool-cases
      (eqb_name m.from [] || eqb_name m.from env.id || directed_elsewhere env.id m.to)) [
        | inl e ↦ rw e (h, refl)
        | inr e ↦ rw e (handle_body-Leaves env m.from m.body s h)
      ]

publish-Leaves :
    (env : Surroundings) (playing : Bool) (at : Num) (s : SyncState)
    → WaitsOnlyOn s
    → Leaves s (publish env playing at s)
unfolding publish
publish-Leaves env playing at s h =
    if_elim (Leaves s) s.enabled (λ on. (h, refl)) (λ off. (h, refl))

Step-Leaves : {s : SyncState} {r : SyncState × List Effect} → Step s r → WaitsOnlyOn s → Leaves s r
unfolding set_enabled retry
Step-Leaves (enables true s) h = (ground arith, refl)
Step-Leaves (enables false s) h = (refl, refl)
Step-Leaves (publishes env playing at s) h = publish-Leaves env playing at s h
Step-Leaves (hears env m s) h = handle_signal-Leaves env m s h
Step-Leaves (retries env s) h = try_apply-Leaves env (record s { retrying = false }) h

Reach-WaitsOnlyOn : {s : SyncState} → Reach s → WaitsOnlyOn s
Reach-WaitsOnlyOn start = refl
Reach-WaitsOnlyOn (next r st) = (Step-Leaves st (Reach-WaitsOnlyOn r)).0

off-handle_body :
    (env : Surroundings) (from : Name) (b : Body) (s : SyncState)
    → s.enabled ≡ false
    → s.pending ≡ none
    → (handle_body env from b s).0.pending ≡ none
unfolding handle_body
off-handle_body env from report_request s e n = n
off-handle_body env from unreadable s e n = n
off-handle_body env from rejoin s e n = rw e n
off-handle_body env from (anchor playing at t) s e n = rw e n

-- From a state with the sync off.
off-Step :
    {s : SyncState} {r : SyncState × List Effect}
    → Step s r
    → s.enabled ≡ false
    → s.pending ≡ none
    → r.0.pending ≡ none
unfolding set_enabled retry publish handle_signal
off-Step (enables true s) e n = n
off-Step (enables false s) e n = refl
off-Step (publishes env playing at s) e n = rw (e, publish) n
off-Step (hears env m s) e n =
    elim (Bool-cases
      (eqb_name m.from [] || eqb_name m.from env.id || directed_elsewhere env.id m.to)) [
        | inl t ↦ rw t n
        | inr t ↦ rw t (off-handle_body env m.from m.body s e n)
      ]
off-Step (retries env s) e n = rw (n, try_apply) n

-- In any state that calls from the initial one reach, in which the sync is off: no anchor waits, no
-- call drives the local engine, and after any call none waits, the call that turns the sync on again
-- included.
pub drives-enabled :
    {s : SyncState} {r : SyncState × List Effect}
    → Reach s
    → Step s r
    → s.enabled ≡ false
    → (s.pending ≡ none) × (drives r.1 ≡ false) × (r.0.pending ≡ none)
drives-enabled {s} {r} reach step off =
    let n = waits_none s (Reach-WaitsOnlyOn reach) off in
    let d = (Step-Leaves step (Reach-WaitsOnlyOn reach)).1 in (n, ground arith, off-Step step off n)
