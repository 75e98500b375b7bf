-- ===== src/Engine.antt =====
-- The engine's memory of positions (src/chess/transposition_table.cpp).
pub mod Table
pub mod TableLaws
pub mod Tables
pub mod Evaluate
pub mod Tilt
pub mod Order
pub mod Quiesce
pub mod Search
pub mod SearchLaws
pub mod Window
mod Deepen
pub mod Quiescence
pub mod Reversed
pub mod ReversedLoops
pub mod MirrorPawns
pub mod MirrorScores
pub mod MirrorKings
pub mod Mirror
