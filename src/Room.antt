-- ===== src/Room.antt =====
-- src/game/game_room.h and src/game/game_room.cpp: one game between two seats.
pub mod State
pub mod Clock
pub mod Play
pub mod Setup
pub mod Offers
pub mod Connections
pub mod Actions
pub mod Final
pub mod Kept
pub mod History
pub mod Moved
pub mod Played
pub mod Queries
pub mod Turns
pub mod Told
pub mod Once
