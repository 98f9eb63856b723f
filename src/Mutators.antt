-- ===== src/Mutators.antt =====
-- The mutators of class `Project`, web/src/document/project.ts.
pub mod Tracks
pub mod Clips
pub mod Processors
pub mod Scenes
pub mod Notes
pub mod Lanes
