-- ===== src/Board.antt =====
-- src/chess/board.cpp and src/chess/zobrist.cpp: the board, its hash, and the execution of moves.
pub mod State
pub mod Zobrist
pub mod Access
pub mod Moves
pub mod Undo
pub mod Hash
pub mod HashSteps
pub mod Incremental
pub mod Text
pub mod RoundTrip
pub mod Fen
pub mod Placement
pub mod Fill
pub mod Overrun
