-- ===== src/Lib.antt =====
-- A model of the document layer of the web client (web/src/document), the part that every peer of a
-- session runs: the schema of a project, the tempo kernel, the mutators, the undo journal and the
-- replay of inverses; and of the clip selection, the transport sync between peers, the connections
-- to the document server and to the audio engine, and the framing of the engine protocol.
--
-- How the parts interact. A mutator of class `Project` reads the document, captures its inverse in
-- the journal, writes inside one change of the document library and queues that change for the wire.
-- Undo pops an entry and replays its inverses, last first, through the same mutators, while the
-- journal routes what they capture to the redo stack. Positions of musical clips are ticks, turned
-- into samples by the tempo kernel.
--
--   Num, Common    numbers, lists, find/splice
--   Tempo          web/src/document/tempo.ts: roundDiv, segSamples, effectiveMap,
--                  buildBoundaryTable, samplesAtTick, tickAtSample
--   Schema         web/src/document/schema.ts; Schema.Order: orderedTracks
--   Sanitize       web/src/document/sanitize.ts
--   Geometry       web/src/document/geometry.ts
--   Undo           web/src/document/undo.ts: InverseOp, targetKey
--   Journal        web/src/document/undo.ts: UndoJournal
--   Document       lookups and writes by id inside Automerge.change; Outcome: applied with the
--                  captured inverse, a silent no-op, or a throw
--   Mutators       web/src/document/project.ts: the mutators, by what they change
--   Selection      web/src/app/clip_selection.ts, and its fields of web/src/app/context.ts
--   TransportSync  web/src/network/transport_sync.ts
--   Protocol       web/src/network/protocol.ts: encodeMessage, decodeMessage
--   ServerClient   web/src/network/server_client.ts: one function for each method, handler and timer;
--                  ServerClient.Events: what happens to a client, in any order
--   EngineClient   web/src/network/engine_client.ts, in the same form
--   Sending        web/src/app/context.ts: sendLastChange, from the queue of Project to ServerClient
--   Automation     web/src/document/automation.ts
--   Wav            web/src/app/placement.ts: encodeWav16; Wav.Reader: a reader to state its result
--   Transport      web/src/app/transport.ts: startPlayback and stopPlayback over EngineClient and
--                  TransportSync
--   Presence       web/src/network/presence.ts
--   SessionClock   web/src/network/session_clock.ts
--   Jam            web/src/network/jam.ts: class JamChannel; Jam.Signals: handleSignal, with what waits
--                  for promises; Jam.Events: what may happen, in any order
--   DeviceReorder  web/src/app/device_reorder.ts: slotAt, applyDrop
--   TrackReorder   web/src/app/track_reorder.ts: slotAt, applyDrop, with the rounding of a midpoint to
--                  a step; TrackReorder.Insertion, Fits, Shown, Order and Placed lead to the order shown
--   Ids            web/src/document/ids.ts, and clipDisplayName of web/src/document/schema.ts;
--                  Ids.Uuid has the form of what `uuid` gives, Ids.Rounds the loop of `clipStem`
--   Gestures       web/src/app/gestures.ts: beginClipResize, with snapStep and snapSecMusical of
--                  web/src/app/navigation.ts; Gestures.Writes has its writes
--   SlotReorder    web/src/app/slot_reorder.ts: applyDrop
--   Validate       web/src/document/validate.ts
--   Replay         web/src/document/project.ts: the dispatch of `replay`; Replay.Reversible says which
--                  operations are undone exactly on which documents
--   Project        web/src/document/project.ts: document, change queue, undo and redo;
--                  Project.History.Timeline: the list of documents that undo steps through;
--                  Project.Composite: splitClip, moveClipToTrack, addMidiClip, addSessionClip,
--                  duplicateScene
--   Tests          concrete runs
--
-- A JavaScript number is an integer count of 2^-20; NaN and the infinities come in by
-- `Sanitize.JsValue` only. Sample rate, schema version and tempo points are whole numbers. Ids are
-- texts and fresh ones are arguments. A key of the journal is the list of its pieces, which assumes
-- ids without a colon. The document library (Automerge) is a parameter: `Project.Automerge` has one
-- law, that a change leaves the content that its callback writes. Loops are structural recursion; that
-- of `sendLastChange` runs on a number of rounds, one more than the changes in the queue, and that
-- of `clipStem` on the number of parts, of which a round takes one at least. Of the
-- browser `ServerClient.Browser` has two laws, that what btoa and JSON.stringify wrote reads back;
-- what a callback itself does is an event of its own. Whether the constructor of the socket throws is a
-- flag of the calls of ServerClient and EngineClient that make one. A connection of WebRTC is the number
-- it was made as; one that was closed fires no event, as is documented. The protobuf codec is
-- `Protocol.Codec`, with no law. Index signatures and the time signature of the schema, which this layer
-- never reads, are left out.
--
-- Not modelled: the engine (C++) and the server (Rust), other languages; web/src/proto/messages.ts, which
-- is generated; web/src/network/jam_audio.ts, web/src/ui and most of web/src/app, which place elements of
-- the page and call the browser; of web/src/app/gestures.ts the drags of a clip and of a fade and the lasso.
pub mod Common
pub mod Num
pub mod Tempo
pub mod Schema
pub mod Undo
pub mod Journal
pub mod Sanitize
pub mod Geometry
pub mod Document
pub mod Mutators
pub mod Replay
pub mod Project
pub mod Selection
pub mod Validate
pub mod TransportSync
pub mod Protocol
pub mod ServerClient
pub mod EngineClient
pub mod Sending
pub mod Wav
pub mod Automation
pub mod DeviceReorder
pub mod SlotReorder
pub mod TrackReorder
pub mod Gestures
pub mod Ids
pub mod Transport
pub mod SessionClock
pub mod Presence
pub mod Jam
pub mod Tests
