-- ===== src/Tournament.antt =====
-- Tournaments (src/tournament).
pub mod Swiss
pub mod Matching
pub mod Kept
pub mod KeptSearch
pub mod Finds
pub mod FirstRound
pub mod Round
pub mod RoundLaws
