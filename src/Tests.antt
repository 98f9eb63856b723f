-- ===== src/Tests.antt =====
-- Small projects on which the theorems are run.
pub mod Documents
pub mod Resizes
pub mod Company
pub mod Names
pub mod Band
pub mod Clock
pub mod Kernel
pub mod History
pub mod App
pub mod Transport
pub mod Network
pub mod Engine
pub mod Drops
pub mod Sound
pub mod Envelope
pub mod Playback
