-- ===== src/Ptt.antt =====
-- The push-to-talk application, cmd/ptt: presence, floor control and the store of rooms.
pub mod Presence
pub mod Floor
pub mod Rooms
mod Examples
mod RoomExamples
