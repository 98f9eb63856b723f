-- ===== src/Presence.antt =====
-- Class `Presence`, web/src/network/presence.ts: who is in the session and which track each peer has
-- selected.
pub mod Events
pub mod Said
pub mod Roster
use Prim.Native.Char.{code}
use Prim.Native.Nat.{bit_xor}
use daw_project.Common.{
  ℕ, ◌*◌, ◌^◌, ◌%◌, ◌==◌, String, Bool, true, false, ◌&&◌, ◌||◌, not, Option, none, some, List, [],
  ◌∷◌, ◌++◌, length, get_or, if◌then◌else◌, str_eq,
}
use daw_project.Common.Int.{◌-ℤ◌, ltb_ℤ}
use daw_project.Common.Dict.{lookup, insert, keep}
use daw_project.Num.{Num, num}
use daw_project.Schema.{or_else}

-- `hsl(h 70% 60%)`, or a text that a peer sent.
pub data Color : Type 0 where
  hue : ℕ → Color
  text : String → Color

pub record PeerPresence : Type 0 where
  pub id : String
  pub name : String
  pub color : Color
  pub selected_track : Option String
  pub last_seen : Num

-- A signal of the relay: the fields of the type that they must have.
pub record PresenceMsg : Type 0 where
  pub pr : Option ℕ
  pub from : Option String
  pub name : Option String
  pub color : Option Color
  pub sel : Option String

pub record Presence : Type 0 where
  pub peers : List (String × PeerPresence)
  pub timer : Bool
  pub my_selection : Option String

-- A signal to the relay, and the callback `onChange`.
pub data Effect : Type 0 where
  send : PresenceMsg → Effect
  on_change : Effect

abbrev stale_ms : Num
stale_ms = num 6000

-- The loop of `hashId` over the code points, which for the ids of tabs are the UTF-16 units; `h` is the
-- word without its sign.
unfoldable pub hash_from : ℕ → String → ℕ
hash_from h String.[] = h
hash_from h (String.◌∷◌ c cs) = hash_from (bit_xor h (code c) * 16777619 % 2 ^ 32) cs

unfoldable pub hash_id : String → ℕ
unfolding hash_from
hash_id id = hash_from 2166136261 id

unfoldable pub peer_color : String → Color
unfolding hash_id
peer_color id = hue (hash_id id % 360)

abbrev handles : List String
handles =
    "Renard" ∷ "Loutre" ∷ "Corbeau" ∷ "Lynx" ∷ "Hibou" ∷ "Blaireau" ∷ "Martre" ∷ "Belette"
    ∷ "Faucon" ∷ "Heron" ∷ "Cerf" ∷ "Sanglier" ∷ "Chouette" ∷ "Genette" ∷ "Putois" ∷ "Fouine" ∷ []

unfoldable pub peer_name : String → String
unfolding hash_id
peer_name id = get_or handles (hash_id id % length handles) ""

-- The constructor, which also announces the tab.
abbrev pub new_presence : Presence
new_presence = record { peers = []; timer = true; my_selection = none }

unfoldable pub broadcast : String → Presence → List Effect
broadcast own s =
    send (record {
      pr = some 1;
      from = some own;
      name = some (peer_name own);
      color = some (peer_color own);
      sel = s.my_selection;
    })
    ∷ []

abbrev pub same_track : Option String → Option String → Bool
same_track none none = true
same_track (some a) (some b) = str_eq a b
same_track _ _ = false

unfoldable pub set_selection : String → Option String → Presence → Presence × List Effect
set_selection own track_id s =
    if same_track track_id s.my_selection
    then (s, [])
    else (let next = record s { my_selection = track_id } in (next, broadcast own next))

-- Not silent for longer than three beats.
unfoldable pub is_fresh : Num → PeerPresence → Bool
is_fresh now p = not (ltb_ℤ stale_ms (now -ℤ p.last_seen))

any_stale : Num → List (String × PeerPresence) → Bool
unfolding is_fresh
any_stale now [] = false
any_stale now ((id, p) ∷ rest) = not (is_fresh now p) || any_stale now rest

unfoldable pub tick : String → Num → Presence → Presence × List Effect
unfolding any_stale
tick own now s = (
  record s { peers = keep (is_fresh now) s.peers },
  broadcast own s ++ (if any_stale now s.peers then on_change ∷ [] else []),
)

-- Who sends, where it is a presence signal of another tab.
unfoldable pub sender : String → PresenceMsg → Option String
sender own m = elim m.from [
  | none ↦ none
  | some from ↦
      if (elim m.pr [ none ↦ false | some pr ↦ pr == 1 ])
        && not (str_eq from "")
        && not (str_eq from own)
      then some from
      else none
]

unfoldable pub heard : String → Num → PresenceMsg → PeerPresence
heard from now m = record {
  id = from;
  name = or_else m.name (peer_name from);
  color = or_else m.color (peer_color from);
  selected_track = m.sel;
  last_seen = now;
}

abbrev selects : Option String → Option PeerPresence → Bool
selects sel none = false
selects sel (some p) = same_track p.selected_track sel

unfoldable pub handle_signal : String → Num → PresenceMsg → Presence → Presence × List Effect
handle_signal own now m s = elim (sender own m) [
  | none ↦ (s, [])
  | some from ↦ (
    record s { peers = insert from (heard from now m) s.peers },
    if selects m.sel (lookup from s.peers) then [] else on_change ∷ [],
  )
]

unfoldable pub stop : Presence → Presence
stop s = record s { peers = []; timer = false }

values : List (String × PeerPresence) → List PeerPresence
values [] = []
values ((id, p) ∷ rest) = p ∷ values rest

on_track_of : String → List PeerPresence → List PeerPresence
on_track_of track_id [] = []
on_track_of track_id (p ∷ ps) =
    let rest = on_track_of track_id ps in
    if same_track p.selected_track (some track_id) then p ∷ rest else rest

unfoldable pub list : Presence → List PeerPresence
unfolding values
list s = values s.peers

unfoldable pub on_track : String → Presence → List PeerPresence
unfolding values on_track_of
on_track track_id s = on_track_of track_id (values s.peers)
