-- ===== src/Board/State.antt =====
-- The fields of `Board` and of `Board::UndoInfo` (src/chess/board.h).
-- `squares_` is an array of 64 pieces: a function of the index, of which 0 … 63 are read.
use chess_engine.Base.{ℕ}
use chess_engine.Types.{Piece, Color}

pub record Board : Type 0 where
  pub squares : ℕ → Piece
  pub side_to_move : Color
  pub castling_rights : ℕ
  pub en_passant_sq : ℕ
  pub halfmove_clock : ℕ
  pub fullmove_number : ℕ
  pub zobrist_key : ℕ

pub record UndoInfo : Type 0 where
  pub captured : Piece
  pub castling_rights : ℕ
  pub en_passant_sq : ℕ
  pub halfmove_clock : ℕ
  pub zobrist_key : ℕ
