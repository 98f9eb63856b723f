-- ===== src/ServerClient.antt =====
-- Class `ServerClient`, web/src/network/server_client.ts: the connection to the document server, the
-- queue of changes that waits for it and its copy in the storage of the browser. The browser's text
-- encodings are a parameter. Signals are texts already; their listeners are left out.
pub mod Connection
pub mod Events
pub mod Queue
pub mod Delivery
use daw_project.Common.{
  ◌≡◌, ℕ, zero, suc, ◌-◌, String, Bool, true, false, ◌&&◌, ◌||◌, not, Option, none, some, List, [],
  ◌∷◌, ◌++◌, map, ltb, if◌then◌else◌, str_eq, ◌>>=◌,
}
use daw_project.Common.Find.{find, remove_first}
use mathlib.Core.Option

abbrev pub Bytes : Type 0
Bytes = List ℕ

-- `btoa` and `atob` on a text of bytes, `JSON.stringify` and `JSON.parse` on a list of texts; a throw
-- is `none`.
pub record Browser : Type 1 where
  pub Text : Type 0
  pub btoa : Bytes → Text
  pub atob : Text → Option Bytes
  pub stringify : List Text → Text
  pub parse : Text → Option (List Text)
  -- What was written reads back.
  pub atob-btoa : (b : Bytes) → atob (btoa b) ≡ some b
  pub parse-stringify : (ts : List Text) → parse (stringify ts) ≡ some ts

-- `readyState`
pub data ReadyState : Type 0 where
  connecting opened closing closed : ReadyState

-- daw-outbox:<project>:<tab>, of ids without a colon.
pub record StorageKey : Type 0 where
  pub project : String
  pub tab : String

pub record StoredItem (B : Browser) : Type 0 where
  pub key : StorageKey
  pub value : B.Text

-- `localStorage`: a denied one throws at every access, a full one at `setItem`.
pub record Storage (B : Browser) : Type 0 where
  pub items : List (StoredItem B)
  pub denied : Bool
  pub full : Bool

pub record ServerClient (B : Browser) : Type 0 where
  pub socket : Option ReadyState
  pub project_id : String
  pub tab_id : String
  pub auth_token : Option String
  pub reconnecting : Bool
  pub awaiting_initial_doc : Bool
  pub last_activity : ℕ
  pub watching : Bool
  pub outbox : List Bytes
  pub signal_outbox : List B.Text
  pub resyncing : Bool
  pub storage : Storage B

-- What leaves the object: frames on the wire and the callbacks.
pub data Effect (B : Browser) : Type 0 where
  send_auth : String → Effect B
  send_change : Bytes → Effect B
  send_signal : B.Text → Effect B
  close_socket : Effect B
  open_socket : String → Effect B
  on_connect on_disconnect : Effect B
  on_document : Bytes → Effect B
  on_change : Bytes → Effect B
  on_signal : B.Text → Effect B

abbrev pub same_key : StorageKey → StorageKey → Bool
same_key a b = str_eq a.project b.project && str_eq a.tab b.tab

abbrev pub watchdog_timeout_ms : ℕ
watchdog_timeout_ms = 45000

abbrev pub is_open : Option ReadyState → Bool
is_open none = false
is_open (some ReadyState.opened) = true
is_open (some _) = false

-- A key of the project that is not ours.
abbrev pub is_orphan : StorageKey → StorageKey → Bool
is_orphan ours key = str_eq key.project ours.project && not (same_key key ours)

module _ (B : Browser) where
  open B use {Text, btoa, atob, stringify}

  -- The value that is written for a queue; an empty one is not written.
  abbrev pub encode_outbox : List Bytes → Text
  encode_outbox changes = stringify (map btoa changes)

  -- `decodeBase64` of each; the first that throws ends all.
  pub decode_all : List Text → Option (List Bytes)
  decode_all [] = some []
  decode_all (t ∷ ts) = do b ← atob t; bs ← decode_all ts; some (b ∷ bs)

module _ {B : Browser} where
  open B use {Text, parse}

  abbrev pub item_at : StorageKey → StoredItem B → Bool
  item_at key item = same_key item.key key

  abbrev pub storage_key : ServerClient B → StorageKey
  storage_key s = record { project = s.project_id; tab = s.tab_id }

  -- `setItem` writes over what is there.
  abbrev pub set_item : StorageKey → Text → Storage B → Storage B
  set_item key value st = record st {
    items = record { key = key; value = value } ∷ remove_first (item_at key) st.items;
  }

  abbrev pub remove_item : StorageKey → Storage B → Storage B
  remove_item key st = record st { items = remove_first (item_at key) st.items }

  write_outbox : StorageKey → List Bytes → Storage B → Storage B
  write_outbox key [] st = remove_item key st
  write_outbox key (c ∷ cs) st = if st.full then st else set_item key (encode_outbox B (c ∷ cs)) st

  -- A throw leaves the storage as it is.
  unfoldable pub persist_outbox : ServerClient B → ServerClient B
  unfolding write_outbox
  persist_outbox s =
      if s.storage.denied
      then s
      else record s { storage = write_outbox (storage_key s) s.outbox s.storage }

  unfoldable pub orphan_items : StorageKey → List (StoredItem B) → List (StoredItem B)
  orphan_items ours [] = []
  orphan_items ours (i ∷ is) =
      let rest = orphan_items ours is in if is_orphan ours i.key then i ∷ rest else rest

  -- The changes of all the queues, in the order of the storage.
  unfoldable pub read_queues : List (StoredItem B) → Option (List Bytes)
  unfolding decode_all
  read_queues [] = some []
  read_queues (i ∷ is) = do
    ts ← parse i.value
    bs ← decode_all B ts
    rest ← read_queues is
    some (bs ++ rest)

  remove_items : List (StoredItem B) → Storage B → Storage B
  remove_items [] st = st
  remove_items (i ∷ is) st = remove_items is (remove_item i.key st)

  -- With no orphan nothing is touched; with one that does not read neither.
  adopt_queues : List (StoredItem B) → Option (List Bytes) → ServerClient B → ServerClient B
  unfolding remove_items
  adopt_queues [] adopted s = s
  adopt_queues (i ∷ is) none s = s
  adopt_queues (i ∷ is) (some adopted) s =
      let p = persist_outbox (record s { outbox = adopted ++ s.outbox }) in
      record p { storage = remove_items (i ∷ is) p.storage }

  unfoldable pub adopt_orphan_outboxes : ServerClient B → ServerClient B
  unfolding adopt_queues
  adopt_orphan_outboxes s =
      if s.storage.denied
      then s
      else let orphans = orphan_items (storage_key s) s.storage.items in
        adopt_queues orphans (read_queues orphans) s

  -- The loop over the queue: the changes sent, and whether the socket stayed open. It dies after
  -- `budget` sends.
  unfoldable pub send_loop : ℕ → List Bytes → List (Effect B) × Bool
  send_loop budget [] = ([], true)
  send_loop zero (c ∷ cs) = ([], false)
  send_loop (suc budget) (c ∷ cs) =
      let (effects, alive) = send_loop budget cs in (send_change c ∷ effects, alive)

  -- The queue is cleared after a whole loop only.
  after_loop : List (Effect B) × Bool → ServerClient B → ServerClient B × List (Effect B)
  after_loop (effects, true) s = (persist_outbox (record s { outbox = [] }), effects)
  after_loop (effects, false) s = (record s { socket = some ReadyState.closing }, effects)

  unfoldable pub flush_outbox : ℕ → ServerClient B → ServerClient B × List (Effect B)
  unfolding after_loop
  flush_outbox budget s = elim s.outbox [
    | [] ↦ (s, [])
    | _ ∷ _ ↦ if is_open s.socket then after_loop (send_loop budget s.outbox) s else (s, [])
  ]

  unfoldable pub submit_change : Bytes → ServerClient B → ServerClient B × List (Effect B)
  submit_change change s =
      if is_open s.socket && not s.awaiting_initial_doc
      then (s, send_change change ∷ [])
      else (persist_outbox (record s { outbox = s.outbox ++ change ∷ [] }), [])

  unfoldable pub submit_signal : Text → ServerClient B → ServerClient B × List (Effect B)
  submit_signal text s =
      if is_open s.socket
      then (s, send_signal text ∷ [])
      else (record s { signal_outbox = s.signal_outbox ++ text ∷ [] }, [])
