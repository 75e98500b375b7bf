-- ===== src/Board/Moves.antt =====
-- `make_move`, `undo_move` and `update_castling_rights` (src/chess/board.cpp).
-- Each numbered step of the source is a function: on the squares, on the key, or on a counter.
use chess_engine.Base.{ℕ, ◌+◌, ◌-◌, ◌||◌, not, bit_and, bit_xor, ◌==◌, if◌then◌else◌}
use chess_engine.Base.Arrays.{update}
use chess_engine.Types.{Piece, PieceType, Color, Move, no_piece, is_none, type_eq, color_eq}
use chess_engine.Types.{type_index, color_index, opposite_color, make_square, rank_of, file_of}
use chess_engine.Types.{no_square, is_promotion, is_en_passant, is_kingside_castle}
use chess_engine.Types.{is_queenside_castle, is_double_pawn_push, all_rights}
use chess_engine.Types.{white_kingside, white_queenside, black_kingside, black_queenside}
use chess_engine.Board.State.{Board, UndoInfo}
use chess_engine.Board.Zobrist.{ZobristKeys}

-- `castling_rights_ &= ~mask`, on a byte.
abbrev pub revoke : ℕ → ℕ → ℕ
revoke rights mask = bit_and rights (255 - mask)

-- `update_castling_rights`, with e1 = 4, e8 = 60, h1 = 7, a1 = 0, h8 = 63 and a8 = 56.
unfoldable pub update_castling_rights : ℕ → ℕ → ℕ → ℕ
update_castling_rights rights from to =
    let r1 = if from == 4 then revoke rights 3 else rights in
    let r2 = if from == 60 then revoke r1 12 else r1 in
    let r3 = if from == 7 || to == 7 then revoke r2 white_kingside else r2 in
    let r4 = if from == 0 || to == 0 then revoke r3 white_queenside else r3 in
    let r5 = if from == 63 || to == 63 then revoke r4 black_kingside else r4 in
    if from == 56 || to == 56 then revoke r5 black_queenside else r5

-- `make_square(rank_of(to) + direction, file_of(to))`, where direction is -1 (255) for White: the
-- square behind `to`, which holds the pawn taken en passant, or which a double push passes.
unfoldable pub behind : Color → ℕ → ℕ
behind c to = make_square (rank_of to + (if color_eq c Color.white then 255 else 1)) (file_of to)

-- The rook's squares when the king castles from `from`.
unfoldable pub kingside_rook : ℕ → ℕ
kingside_rook from = make_square (rank_of from) 7

unfoldable pub kingside_rook_to : ℕ → ℕ
kingside_rook_to from = make_square (rank_of from) 5

unfoldable pub queenside_rook : ℕ → ℕ
queenside_rook from = make_square (rank_of from) 0

unfoldable pub queenside_rook_to : ℕ → ℕ
queenside_rook_to from = make_square (rank_of from) 3

-- Move what stands on one square to another, and clear the first.
abbrev pub carry : (ℕ → Piece) → ℕ → ℕ → ℕ → Piece
carry squares from to = update (update squares to (squares from)) from no_piece

-- Step 1: the rook of a castling move.
unfoldable pub castle_rook : (ℕ → Piece) → Move → ℕ → Piece
castle_rook squares m =
    if is_kingside_castle m
    then carry squares (kingside_rook m.from) (kingside_rook_to m.from)
    else if is_queenside_castle m
    then carry squares (queenside_rook m.from) (queenside_rook_to m.from)
    else squares

-- Step 2: what the move captures, and the squares without the pawn taken en passant.
unfoldable pub captured_piece : (ℕ → Piece) → Move → Piece
unfolding castle_rook
captured_piece squares m =
    if is_en_passant m
    then castle_rook squares m (behind (squares m.from).color m.to)
    else squares m.to

unfoldable pub take_passed_pawn : (ℕ → Piece) → Move → ℕ → Piece
unfolding castle_rook
take_passed_pawn squares m =
    if is_en_passant m
    then update (castle_rook squares m) (behind (squares m.from).color m.to) no_piece
    else castle_rook squares m

-- Steps 3 and 4: the piece moves, and is promoted.
unfoldable pub moved_squares : (ℕ → Piece) → Move → ℕ → Piece
unfolding take_passed_pawn
moved_squares squares m =
    let moved =
      update (update (take_passed_pawn squares m) m.to (squares m.from)) m.from no_piece in
    if is_promotion m
    then update moved m.to (record { type = m.promo_type; color = (squares m.from).color })
    else moved

-- Step 5.
unfoldable pub next_en_passant : (ℕ → Piece) → Move → ℕ
next_en_passant squares m =
    if is_double_pawn_push m then behind (squares m.from).color m.to else no_square

-- The rook of the same colour.
abbrev pub rook_of : Piece → Piece
rook_of p = record { type = PieceType.rook; color = p.color }

module _ (k : ZobristKeys) where
  -- `k.pieces[c][t][sq]` for a piece.
  abbrev pub raw_key : Piece → ℕ → ℕ
  raw_key p sq = k.pieces (color_index p.color) (type_index p.type) sq

  -- The key through steps 1 to 4.
  unfoldable pub key_after_castle : (ℕ → Piece) → Move → ℕ → ℕ
  key_after_castle squares m key =
      if is_kingside_castle m
      then bit_xor key (
          bit_xor (raw_key (rook_of (squares m.from)) (kingside_rook m.from))
            (raw_key (rook_of (squares m.from)) (kingside_rook_to m.from)))
      else if is_queenside_castle m
      then bit_xor key (
          bit_xor (raw_key (rook_of (squares m.from)) (queenside_rook m.from))
            (raw_key (rook_of (squares m.from)) (queenside_rook_to m.from)))
      else key

  unfoldable pub key_after_capture : (ℕ → Piece) → Move → ℕ → ℕ
  key_after_capture squares m key =
      if is_en_passant m
      then bit_xor key (raw_key (captured_piece squares m) (behind (squares m.from).color m.to))
      else if not (is_none (captured_piece squares m))
      then bit_xor key (raw_key (captured_piece squares m) m.to)
      else key

  unfoldable pub key_after_arrival : (ℕ → Piece) → Move → ℕ → ℕ
  key_after_arrival squares m key =
      if is_promotion m
      then bit_xor key
          (raw_key (record { type = m.promo_type; color = (squares m.from).color }) m.to)
      else bit_xor key (raw_key (squares m.from) m.to)

  -- The key through step 5: the old en passant file goes out, the new one comes in.
  unfoldable pub key_after_en_passant : Board → Move → ℕ → ℕ
  key_after_en_passant b m key =
      let old =
        if not (b.en_passant_sq == no_square)
        then bit_xor key (k.en_passant (file_of b.en_passant_sq))
        else key in
      if is_double_pawn_push m
      then bit_xor old (k.en_passant (file_of (next_en_passant b.squares m)))
      else old

  -- The key through all nine steps.
  unfoldable pub moved_key : Board → Move → ℕ
  moved_key b m =
      let s = b.squares in
      let k0 = bit_xor b.zobrist_key (raw_key (s m.from) m.from) in
      let k4 = key_after_arrival s m (key_after_capture s m (key_after_castle s m k0)) in
      let k5 = key_after_en_passant b m k4 in
      let rights = update_castling_rights b.castling_rights m.from m.to in
      let k6 = bit_xor k5 (
        bit_xor (k.castling (bit_and b.castling_rights all_rights))
          (k.castling (bit_and rights all_rights))) in
      bit_xor k6 k.side_to_move

  -- `make_move`: the board after the move, with steps 7 to 9 for the counters and the side.
  unfoldable pub moved_board : Board → Move → Board
  moved_board b m = record {
    squares = moved_squares b.squares m;
    side_to_move = opposite_color b.side_to_move;
    castling_rights = update_castling_rights b.castling_rights m.from m.to;
    en_passant_sq = next_en_passant b.squares m;
    halfmove_clock =
        if type_eq (b.squares m.from).type PieceType.pawn
          || not (is_none (captured_piece b.squares m))
        then 0
        else b.halfmove_clock + 1;
    fullmove_number =
        if color_eq b.side_to_move Color.black then b.fullmove_number + 1 else b.fullmove_number;
    zobrist_key = moved_key b m;
  }

unfoldable pub undo_info : Board → Move → UndoInfo
unfolding captured_piece
undo_info b m = record {
  captured = captured_piece b.squares m;
  castling_rights = b.castling_rights;
  en_passant_sq = b.en_passant_sq;
  halfmove_clock = b.halfmove_clock;
  zobrist_key = b.zobrist_key;
}

unfoldable pub make_move : ZobristKeys → Board → Move → Board × UndoInfo
unfolding moved_board undo_info
make_move k b m = (moved_board k b m, undo_info b m)

-- Steps 4 to 7 of `undo_move`; `side` is the side that made the move.
unfoldable pub undone_squares : (ℕ → Piece) → Color → Move → Piece → ℕ → Piece
undone_squares squares side m captured =
    let moving =
      if is_promotion m then record { type = PieceType.pawn; color = side } else squares m.to in
    let cleared = update (update squares m.from moving) m.to no_piece in
    let restored =
      if is_en_passant m
      then update cleared (behind side m.to) captured
      else update cleared m.to captured in
    if is_kingside_castle m
    then carry restored (kingside_rook_to m.from) (kingside_rook m.from)
    else if is_queenside_castle m
    then carry restored (queenside_rook_to m.from) (queenside_rook m.from)
    else restored

unfoldable pub undo_move : Board → Move → UndoInfo → Board
unfolding undone_squares
undo_move b m undo =
    let side = opposite_color b.side_to_move in
    record {
      squares = undone_squares b.squares side m undo.captured;
      side_to_move = side;
      castling_rights = undo.castling_rights;
      en_passant_sq = undo.en_passant_sq;
      halfmove_clock = undo.halfmove_clock;
      fullmove_number =
          if color_eq side Color.black then b.fullmove_number - 1 else b.fullmove_number;
      zobrist_key = undo.zobrist_key;
    }
