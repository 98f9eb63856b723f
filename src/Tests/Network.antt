-- ===== src/Tests/Network.antt =====
-- Instances of the network theorems at concrete inputs.
use daw_project.Common.{
  ℕ, ◌≡◌, refl, String, Bool, true, false, Option, none, some, List, [], ◌∷◌, ◌++◌, map, ◌>>=◌,
  take, arith,
}
use daw_project.Common.Find.{any, remove_first}
use daw_project.Document.DisplayName.{eqb_name}
use daw_project.Num.{num}
use daw_project.Protocol.{Payloads, Codec, Incoming, ProtoMessage, frame, classify, decode_message}
use daw_project.Protocol.Framing.{decode_message-framed}
use daw_project.ServerClient.{
  Bytes, Browser, ReadyState, Storage, ServerClient, on_document, send_change, submit_change,
  orphan_items, read_queues,
}
use daw_project.ServerClient.Connection.{binary_arrives}
use daw_project.ServerClient.Events.{Event, run}
use daw_project.ServerClient.Queue.{Kept, run-Kept}
use daw_project.ServerClient.Delivery.{binary_arrives-delivers, next_tab-delivers}

-- A codec whose messages are positions.
abbrev pub bare : Payloads
bare = record {
  Meters = Unit;
  AudioTap = Unit;
  PluginCatalog = Unit;
  SessionState = Unit;
  RenderState = Unit;
  EngineState = Unit;
  project_id = λ _. "";
}

abbrev pub position_of : List ℕ → Option (Incoming bare)
position_of [] = none
position_of (n ∷ _) = some (record {
  position = some (record { position_samples = num n; is_playing = true; sample_rate = 48000 });
  meters = none;
  engine_state = none;
  audio_tap = none;
  plugin_catalog = none;
  session_state = none;
  render_state = none;
  error = none;
})

abbrev pub positions : Codec bare
positions = record { encode = λ (m : ProtoMessage). 7 ∷ []; decode = position_of }

decode_message-framed_example :
    (decode_message positions (frame (9 ∷ 4 ∷ [])) ≡ (positions.decode (9 ∷ 4 ∷ []) >>= classify))
    × (decode_message positions (take 5 (frame (9 ∷ 4 ∷ []))) ≡ none)
    × (decode_message positions (frame (9 ∷ 4 ∷ []) ++ 1 ∷ []) ≡ none)
unfolding frame
decode_message-framed_example =
    decode_message-framed positions (9 ∷ 4 ∷ []) 5 1 [] (omega arith) (omega arith) (omega arith)

-- Texts as trees: a quoted one, and the lists.
pub data Text : Type 0 where
  quoted : Bytes → Text
  nothing : Text
  more : Text → Text → Text

pub bytes_of : Text → Option Bytes
bytes_of (quoted b) = some b
bytes_of _ = none

pub list_text : List Text → Text
list_text [] = nothing
list_text (t ∷ ts) = more t (list_text ts)

pub read_list : Text → Option (List Text)
read_list (quoted b) = none
read_list nothing = some []
read_list (more t u) = do ts ← read_list u; some (t ∷ ts)

pub read_list-list_text : (ts : List Text) → read_list (list_text ts) ≡ some ts
unfolding read_list list_text
read_list-list_text [] = refl
read_list-list_text (t ∷ ts) = rw (read_list-list_text ts) refl

pub bytes_of_quoted : (b : Bytes) → bytes_of (quoted b) ≡ some b
unfolding bytes_of
bytes_of_quoted b = refl

abbrev pub browser : Browser
browser = record {
  Text = Text;
  btoa = quoted;
  atob = bytes_of;
  stringify = list_text;
  parse = read_list;
  atob-btoa = bytes_of_quoted;
  parse-stringify = read_list-list_text;
}

abbrev pub empty_storage : Storage browser
empty_storage = record { items = []; denied = false; full = false }

abbrev pub client :
    String → Option ReadyState → Bool → List Bytes → Storage browser → ServerClient browser
client tab socket waits outbox st = record {
  socket = socket;
  project_id = "song";
  tab_id = tab;
  auth_token = none;
  reconnecting = false;
  awaiting_initial_doc = waits;
  last_activity = 0;
  watching = false;
  outbox = outbox;
  signal_outbox = [];
  resyncing = false;
  storage = st;
}

abbrev a : Bytes
a = 1 ∷ []

abbrev b : Bytes
b = 2 ∷ 3 ∷ []

-- A change before the connection, one after it, and a socket that dies in between.
abbrev events : List (Event browser)
events =
    Event.change b
    ∷ Event.connects true "song"
    ∷ Event.opens 5
    ∷ Event.binary 6 1 (9 ∷ [])
    ∷ Event.closes
    ∷ Event.change a
    ∷ Event.reconnect false
    ∷ Event.reconnect true
    ∷ []

run-Kept_example : Kept a (run events (client "t" none false [] empty_storage))
unfolding any eqb_name
run-Kept_example = run-Kept browser a events (client "t" none false [] empty_storage) refl

abbrev closing_tab : ServerClient browser
closing_tab = client "t" none false (b ∷ []) empty_storage

abbrev next_tab : ServerClient browser
next_tab = client "u" (some ReadyState.opened) true (b ∷ []) (submit_change a closing_tab).0.storage

binary_arrives-delivers_example :
    ((binary_arrives 5 4
        (9 ∷ [])
        (client "u" (some ReadyState.opened) true (b ∷ []) empty_storage)).0.outbox
      ≡ [])
    × ((binary_arrives 5 4
          (9 ∷ [])
          (client "u" (some ReadyState.opened) true (b ∷ []) empty_storage)).1
        ≡ on_document (9 ∷ []) ∷ map send_change (b ∷ []))
unfolding orphan_items read_queues
binary_arrives-delivers_example =
    binary_arrives-delivers browser 5 4 (9 ∷ [])
      (client "u" (some ReadyState.opened) true (b ∷ []) empty_storage) [] refl refl refl refl
      (omega arith)

next_tab-delivers_example :
    ((binary_arrives 5 4 (9 ∷ []) next_tab).0.outbox ≡ [])
    × ((binary_arrives 5 4 (9 ∷ []) next_tab).1
        ≡ on_document (9 ∷ []) ∷ map send_change (b ∷ a ∷ b ∷ []))
unfolding orphan_items remove_first
next_tab-delivers_example =
    next_tab-delivers browser a (9 ∷ []) 5 4 closing_tab next_tab refl refl refl refl refl refl refl
      refl refl (omega arith)
