-- ===== src/Tests.antt =====
-- Test runs, and the theorems at concrete inputs.
mod Boards
mod Moves
mod Text
mod Rooms
mod Table
mod Lobby
mod Net
mod Evaluate
mod Crypto
mod Tournament
mod Search
