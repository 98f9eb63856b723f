-- ===== src/TransportSync.antt =====
-- Class `TransportSync`, web/src/network/transport_sync.ts: which transport anchor of the peers is
-- followed. Ids of peers are texts by their UTF-16 units. The notification of the user interface is
-- left out.
pub mod Follows
pub mod Newest
use daw_project.Common.{
  ℕ, suc, ◌==◌, Bool, true, false, ◌&&◌, ◌||◌, not, Option, none, some, List, [], ◌∷◌, ltb,
  if◌then◌else◌,
}
use daw_project.Common.Int.{◌-ℤ◌, ltb_ℤ}
use daw_project.Num.{Num, eqb_num}
use daw_project.Schema.{Name}
use daw_project.Document.DisplayName.{eqb_name}

pub record Anchor : Type 0 where
  pub playing : Bool
  pub pos_sec : Num
  pub local_t : Num
  pub peer : Name

pub record Pending : Type 0 where
  pub from : Name
  pub playing : Bool
  pub pos_sec : Num
  pub t : Num

pub record Published : Type 0 where
  pub playing : Bool
  pub pos_sec : Num
  pub t : Num

-- Math.max(0, posSec + elapsed / 1000), the quotient not computed, and Math.max(0, posSec).
pub data Position : Type 0 where
  running : Num → Num → Position
  stopped : Num → Position

pub record Applied : Type 0 where
  pub playing : Bool
  pub position : Position
  pub applied_at_local : Num

pub record SyncState : Type 0 where
  pub enabled : Bool
  pub last : Option Anchor
  pub pending : Option Pending
  pub retrying : Bool
  pub published : ℕ
  pub applied : ℕ
  pub ignored : ℕ
  pub suppressed : ℕ
  pub last_published : Option Published
  pub last_applied : Option Applied

-- The values that the code reads around it: its own id, the time, the offsets of the session clock,
-- the jam arbitration and the live engine.
pub record Surroundings : Type 0 where
  pub id : Name
  pub now : Num
  pub offset_of : Name → Option Num
  pub suspended : Bool
  pub live : Option (Bool × Num)

-- What is sent, and the call of `onApply`.
pub data Effect : Type 0 where
  ask_anchor : Effect
  send_anchor : Option Name → Bool → Num → Num → Effect
  send_report : Name → SyncState → Bool → Effect
  apply : Bool → Position → Effect

-- A message by its `ta`; an anchor has its three fields.
pub data Body : Type 0 where
  anchor : Bool → Num → Num → Body
  rejoin : Body
  report_request : Body
  unreadable : Body

pub record Message : Type 0 where
  pub from : Name
  pub to : Option Name
  pub body : Body

abbrev pub initial_state : SyncState
initial_state = record {
  enabled = false;
  last = none;
  pending = none;
  retrying = false;
  published = 0;
  applied = 0;
  ignored = 0;
  suppressed = 0;
  last_published = none;
  last_applied = none;
}

-- The order of two texts.
unfoldable pub ltb_name : Name → Name → Bool
ltb_name [] [] = false
ltb_name [] (_ ∷ _) = true
ltb_name (_ ∷ _) [] = false
ltb_name (a ∷ as') (b ∷ bs) = ltb a b || a == b && ltb_name as' bs

-- Before the last anchor, by time and then by peer.
unfoldable pub is_older : Num → Name → Option Anchor → Bool
is_older local_t from none = false
is_older local_t from (some l) =
    ltb_ℤ local_t l.local_t || eqb_num local_t l.local_t && ltb_name from l.peer

unfoldable pub set_enabled : Bool → SyncState → SyncState × List Effect
set_enabled on s = (
  record s { enabled = on; pending = if on then s.pending else none },
  if on then ask_anchor ∷ [] else [],
)

unfoldable pub publish : Surroundings → Bool → Num → SyncState → SyncState × List Effect
publish env playing pos_sec s =
    if s.enabled
    then (
      record s {
        last =
            some
              (record { playing = playing; pos_sec = pos_sec; local_t = env.now; peer = env.id });
        published = suc s.published;
        last_published = some (record { playing = playing; pos_sec = pos_sec; t = env.now });
      },
      send_anchor none playing pos_sec env.now ∷ [],
    )
    else (s, [])

abbrev position_now : Surroundings → Pending → Num → Position
position_now env p local_t =
    if p.playing then running p.pos_sec (env.now -ℤ local_t) else stopped p.pos_sec

-- The anchor is followed, unless the transport is suspended.
abbrev follow : Surroundings → Pending → Num → SyncState → SyncState × List Effect
follow env p local_t s =
    let after = record s {
      pending = none;
      last =
          some
            (record { playing = p.playing; pos_sec = p.pos_sec; local_t = local_t; peer = p.from });
    } in
    if env.suspended then (record after { suppressed = suc s.suppressed }, []) else (
      record after {
        applied = suc s.applied;
        last_applied = some (record {
          playing = p.playing;
          position = position_now env p local_t;
          applied_at_local = env.now;
        });
      },
      apply p.playing (position_now env p local_t) ∷ [],
    )

-- With no estimate of the sender's clock the anchor waits for the retry.
unfoldable pub try_apply : Surroundings → SyncState → SyncState × List Effect
try_apply env s = elim s.pending [
  | none ↦ (s, [])
  | some p ↦ elim (env.offset_of p.from) [
    | none ↦ (record s { retrying = true }, [])
    | some offset ↦
        let local_t = p.t -ℤ offset in
        if is_older local_t p.from s.last
        then (record s { pending = none }, [])
        else follow env p local_t s
  ]
]

unfoldable pub retry : Surroundings → SyncState → SyncState × List Effect
unfolding try_apply
retry env s = try_apply env (record s { retrying = false })

answer : Surroundings → Name → SyncState → Option (Bool × Num) → SyncState × List Effect
answer env from s none = (s, [])
answer env from s (some (playing, pos_sec)) =
    if playing then (s, send_anchor (some from) true pos_sec env.now ∷ []) else (s, [])

unfoldable pub handle_body : Surroundings → Name → Body → SyncState → SyncState × List Effect
unfolding answer try_apply
handle_body env from report_request s = (s, send_report from s env.suspended ∷ [])
handle_body env from rejoin s =
    if not s.enabled || env.suspended then (s, []) else answer env from s env.live
handle_body env from unreadable s = (s, [])
handle_body env from (anchor playing pos_sec t) s =
    if s.enabled
    then try_apply env (record s {
      pending = some (record { from = from; playing = playing; pos_sec = pos_sec; t = t });
    })
    else (record s { ignored = suc s.ignored }, [])

abbrev directed_elsewhere : Name → Option Name → Bool
directed_elsewhere id none = false
directed_elsewhere id (some []) = false
directed_elsewhere id (some (c ∷ cs)) = not (eqb_name (c ∷ cs) id)

unfoldable pub handle_signal : Surroundings → Message → SyncState → SyncState × List Effect
unfolding handle_body
handle_signal env m s =
    if eqb_name m.from [] || eqb_name m.from env.id || directed_elsewhere env.id m.to
    then (s, [])
    else handle_body env m.from m.body s
