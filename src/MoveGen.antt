-- ===== src/MoveGen.antt =====
-- src/chess/move_gen.cpp: attacks, move generation, game status and perft.
pub mod Geometry
pub mod Rays
pub mod Attack
pub mod Generate
pub mod Valid
pub mod Sound
pub mod Ahead
pub mod Pawns
pub mod Castling
pub mod Legal
pub mod Legality
