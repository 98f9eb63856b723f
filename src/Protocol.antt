-- ===== src/Protocol.antt =====
-- The engine protocol, web/src/network/protocol.ts: a message is its protobuf bytes behind a length of
-- four bytes, big-endian. The generated codec (web/src/proto/messages.ts) is a parameter.
pub mod Framing
use daw_project.Common.{
  ℕ, ◌+◌, ◌*◌, ◌/◌, ◌%◌, ◌^◌, ◌==◌, String, Bool, true, false, Option, none, some, List, [], ◌∷◌,
  ◌++◌, ltb, length, drop, if◌then◌else◌, ◌>>=◌,
}
use daw_project.Num.{Num, num}
use daw_project.Schema.{or_else}

-- `TransportCommand_Action`
pub data TransportAction : Type 0 where
  play stop seek loop : TransportAction

pub record TransportData : Type 0 where
  pub action : TransportAction
  pub seek_position : Option Num
  pub loop_enabled : Option Bool
  pub set_region : Option Bool
  pub loop_start : Option Num
  pub loop_end : Option Num
  pub clear_region : Option Bool

pub data EncodeMessage : Type 0 where
  transport : TransportData → EncodeMessage
  set_monitor : String → Bool → Bool → EncodeMessage
  tap_control : Bool → EncodeMessage
  editor : String → Bool → EncodeMessage
  session_launch : String → String → Bool → Bool → EncodeMessage
  render_request : ℕ → EncodeMessage
  switch_project : String → EncodeMessage

-- The message that is given to the codec: of a transport command every field is there.
pub data ProtoMessage : Type 0 where
  transport : TransportAction → Num → Bool → Bool → Num → Num → Bool → ProtoMessage
  set_monitor : String → Bool → Bool → ProtoMessage
  tap_control : Bool → ProtoMessage
  editor : String → Bool → ProtoMessage
  session_launch : String → String → Bool → Bool → ProtoMessage
  render_request : ℕ → ProtoMessage
  switch_project : String → ProtoMessage

unfoldable pub proto_message : EncodeMessage → ProtoMessage
proto_message (EncodeMessage.transport d) =
    ProtoMessage.transport d.action (or_else d.seek_position (num 0)) (or_else d.loop_enabled false)
      (or_else d.set_region false) (or_else d.loop_start (num 0)) (or_else d.loop_end (num 0))
      (or_else d.clear_region false)
proto_message (EncodeMessage.set_monitor t s m) = ProtoMessage.set_monitor t s m
proto_message (EncodeMessage.tap_control e) = ProtoMessage.tap_control e
proto_message (EncodeMessage.editor n o) = ProtoMessage.editor n o
proto_message (EncodeMessage.session_launch s t b q) = ProtoMessage.session_launch s t b q
proto_message (EncodeMessage.render_request d) = ProtoMessage.render_request d
proto_message (EncodeMessage.switch_project p) = ProtoMessage.switch_project p

-- Of what the engine sends the fields that the client reads; the others are types of the codec.
pub record TransportPosition : Type 0 where
  pub position_samples : Num
  pub is_playing : Bool
  pub sample_rate : ℕ

pub record Payloads : Type 1 where
  pub Meters : Type 0
  pub AudioTap : Type 0
  pub PluginCatalog : Type 0
  pub SessionState : Type 0
  pub RenderState : Type 0
  pub EngineState : Type 0
  pub project_id : EngineState → String

-- The decoded protobuf message: the fields that are there.
pub record Incoming (P : Payloads) : Type 0 where
  pub position : Option TransportPosition
  pub meters : Option P.Meters
  pub engine_state : Option P.EngineState
  pub audio_tap : Option P.AudioTap
  pub plugin_catalog : Option P.PluginCatalog
  pub session_state : Option P.SessionState
  pub render_state : Option P.RenderState
  pub error : Option String

pub data DecodedMessage (P : Payloads) : Type 0 where
  position : TransportPosition → DecodedMessage P
  meters : P.Meters → DecodedMessage P
  state : P.EngineState → DecodedMessage P
  audio_tap : P.AudioTap → DecodedMessage P
  plugin_catalog : P.PluginCatalog → DecodedMessage P
  session_state : P.SessionState → DecodedMessage P
  render_state : P.RenderState → DecodedMessage P
  error : String → DecodedMessage P

-- `Message.encode(m).finish()`, and `Message.decode`, which throws on bytes that it cannot read.
pub record Codec (P : Payloads) : Type 0 where
  pub encode : ProtoMessage → List ℕ
  pub decode : List ℕ → Option (Incoming P)

-- `setUint32(0, n, false)`: the four bytes of n modulo 2^32.
unfoldable pub set_uint32 : ℕ → List ℕ
set_uint32 n = n / 2 ^ 24 % 256 ∷ n / 2 ^ 16 % 256 ∷ n / 2 ^ 8 % 256 ∷ n % 256 ∷ []

-- `getUint32(0, false)`; of fewer than four bytes it throws.
unfoldable pub get_uint32 : List ℕ → Option ℕ
get_uint32 (a ∷ b ∷ c ∷ d ∷ rest) = some (a * 2 ^ 24 + b * 2 ^ 16 + c * 2 ^ 8 + d)
get_uint32 _ = none

unfoldable pub frame : List ℕ → List ℕ
unfolding set_uint32
frame encoded = set_uint32 (length encoded) ++ encoded

-- The payload, where there is one and its length is the one that stands in front.
unfoldable pub unframe : List ℕ → Option (List ℕ)
unfolding get_uint32
unframe bytes =
    if ltb (length bytes) 5
    then none
    else (get_uint32 bytes >>= λ n. if n + 4 == length bytes then some (drop 4 bytes) else none)

module _ {P : Payloads} where
  -- The first of the fields that is there, in the order of the source.
  unfoldable pub classify : Incoming P → Option (DecodedMessage P)
  classify m = elim m.position [
    | some p ↦ some (DecodedMessage.position p)
    | none ↦ elim m.meters [
      | some x ↦ some (DecodedMessage.meters x)
      | none ↦ elim m.engine_state [
        | some x ↦ some (DecodedMessage.state x)
        | none ↦ elim m.audio_tap [
          | some x ↦ some (DecodedMessage.audio_tap x)
          | none ↦ elim m.plugin_catalog [
            | some x ↦ some (DecodedMessage.plugin_catalog x)
            | none ↦ elim m.session_state [
              | some x ↦ some (DecodedMessage.session_state x)
              | none ↦ elim m.render_state [
                | some x ↦ some (DecodedMessage.render_state x)
                | none ↦ elim m.error [ some x ↦ some (DecodedMessage.error x) | none ↦ none ]
              ]
            ]
          ]
        ]
      ]
    ]
  ]

  module _ (codec : Codec P) where
    unfoldable pub encode_message : EncodeMessage → List ℕ
    unfolding frame proto_message
    encode_message msg = frame (codec.encode (proto_message msg))

    -- `none` is the null that the source returns, after a throw as well.
    unfoldable pub decode_message : List ℕ → Option (DecodedMessage P)
    unfolding unframe
    decode_message bytes = unframe bytes >>= codec.decode >>= classify
