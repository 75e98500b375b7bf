-- ===== src/Board/Access.antt =====
-- Construction, access and search of the board (src/chess/board.cpp, src/chess/board.h).
-- Indices from 64 on are outside the array: the callers give smaller ones.
use chess_engine.Base.{ℕ, zero, suc, ◌+◌, ◌&&◌, if◌then◌else◌}
use chess_engine.Base.Arrays.{update}
use chess_engine.Types.{
  Piece, PieceType, Color, no_piece, type_eq, color_eq, no_square, num_squares,
}
use chess_engine.Board.State.{Board}
use chess_engine.Board.Zobrist.{ZobristKeys, compute_hash}

abbrev pub piece_at : Board → ℕ → Piece
piece_at b sq = b.squares sq

-- The loop of `find_king` from square `sq`, with `n` squares to go.
unfoldable pub find_king_from : (ℕ → Piece) → Color → ℕ → ℕ → ℕ
find_king_from squares color sq zero = no_square
find_king_from squares color sq (suc n) =
    let rest = find_king_from squares color (sq + 1) n in
    if type_eq (squares sq).type PieceType.king && color_eq (squares sq).color color
    then sq
    else rest

unfoldable pub find_king : Board → Color → ℕ
unfolding find_king_from
find_king b color = find_king_from b.squares color 0 num_squares

module _ (k : ZobristKeys) where
  unfoldable pub recompute_zobrist_key : Board → Board
  recompute_zobrist_key b = record b { zobrist_key = compute_hash k b }

  unfoldable pub set_piece : Board → ℕ → Piece → Board
  unfolding recompute_zobrist_key
  set_piece b sq p = recompute_zobrist_key (record b { squares = update b.squares sq p })

  unfoldable pub clear_square : Board → ℕ → Board
  unfolding recompute_zobrist_key
  clear_square b sq = recompute_zobrist_key (record b { squares = update b.squares sq no_piece })

  unfoldable pub set_side_to_move : Board → Color → Board
  unfolding recompute_zobrist_key
  set_side_to_move b c = recompute_zobrist_key (record b { side_to_move = c })

  unfoldable pub set_castling_rights : Board → ℕ → Board
  unfolding recompute_zobrist_key
  set_castling_rights b rights = recompute_zobrist_key (record b { castling_rights = rights })

  unfoldable pub set_en_passant_square : Board → ℕ → Board
  unfolding recompute_zobrist_key
  set_en_passant_square b sq = recompute_zobrist_key (record b { en_passant_sq = sq })

  -- `clear`, which the constructor calls.
  unfoldable pub clear : Board
  unfolding recompute_zobrist_key
  clear = recompute_zobrist_key (record {
    squares = λ sq. no_piece;
    side_to_move = Color.white;
    castling_rights = 0;
    en_passant_sq = no_square;
    halfmove_clock = 0;
    fullmove_number = 1;
    zobrist_key = 0;
  })
