-- ===== src/Lobby.antt =====
-- The registry of rooms and the matchmaker (src/game/room_manager.cpp, src/game/matchmaker.cpp).
pub mod Rooms
pub mod Queue
mod Entries
pub mod Consistent
mod Left
pub mod Matched
pub mod Calls
pub mod Registry
