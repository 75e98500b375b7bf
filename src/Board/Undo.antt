-- ===== src/Board/Undo.antt =====
-- `undo_move` restores the board that `make_move` left (src/chess/board.cpp).
use chess_engine.Base.{ℕ, ◌-◌, ◌≡◌, sym, subst, fun_ext, ◌≢◌, ◌⊎◌, inl, inr, true, false, arith}
use chess_engine.Base.{if◌then◌else◌, Bool-cases}
use chess_engine.Base.Arrays.{update, update_again, update_undone, update_both}
use chess_engine.Types.{Piece, PieceType, Color, Move, no_piece, is_promotion, is_en_passant}
use chess_engine.Types.{
  is_kingside_castle, is_queenside_castle, is_castle, opposite_color, color_eq,
}
use chess_engine.Board.State.{Board}
use chess_engine.Board.Zobrist.{ZobristKeys}
use chess_engine.Board.Moves.{behind, kingside_rook, kingside_rook_to, queenside_rook}
use chess_engine.Board.Moves.{queenside_rook_to, captured_piece, moved_squares, undone_squares}
use chess_engine.Board.Moves.{
  carry, castle_rook, take_passed_pawn, make_move, undo_move, moved_board,
}

-- The rook's squares of a castling move differ from the king's, and the rook's goal is empty.
pub record IsClearPath (squares : ℕ → Piece) (m : Move) (rook rook_to : ℕ) : Type 0 where
  pub empty : squares rook_to ≡ no_piece
  pub apart :
      (rook ≢ rook_to) × (rook ≢ m.from) × (rook ≢ m.to) × (rook_to ≢ m.from) × (rook_to ≢ m.to)

-- What `undo_move` relies on: `side` is the side to move.
pub record IsReversible (squares : ℕ → Piece) (side : Color) (m : Move) : Type 0 where
  pub distinct : m.from ≢ m.to
  pub promoted :
      is_promotion m ≡ true → squares m.from ≡ record { type = PieceType.pawn; color = side }
  pub passing :
      is_en_passant m ≡ true
      → ((squares m.from).color ≡ side)
        × (squares m.to ≡ no_piece)
        × (behind side m.to ≢ m.from)
        × (behind side m.to ≢ m.to)
        × (is_castle m ≡ false)
  pub kingside :
      is_kingside_castle m ≡ true
      → IsClearPath squares m (kingside_rook m.from) (kingside_rook_to m.from)
  pub queenside :
      is_queenside_castle m ≡ true
      → IsClearPath squares m (queenside_rook m.from) (queenside_rook_to m.from)

carry_back : (s : ℕ → Piece) (a b : ℕ) → a ≢ b → s b ≡ no_piece → carry (carry s a b) b a ≡ s
carry_back s a b ne e = fun_ext λ j. ground arith

module _ (s : ℕ → Piece) (side : Color) (m : Move) (ok : IsReversible s side m) where
  -- The squares after step 2 agree with the first ones where the king or piece stands and goes.
  pub castle_rook-ends : (castle_rook s m m.from ≡ s m.from) × (castle_rook s m m.to ≡ s m.to)
  unfolding castle_rook
  castle_rook-ends =
      (ground (arith, ok.kingside, ok.queenside), ground (arith, ok.kingside, ok.queenside))

  -- Off its two squares the move changes nothing more.
  moved-off : (j : ℕ) → m.from ≢ j → m.to ≢ j → moved_squares s m j ≡ take_passed_pawn s m j
  unfolding moved_squares
  moved-off j a b = ground arith

  moving_back :
      (if is_promotion m
        then record { type = PieceType.pawn; color = side }
        else moved_squares s m m.to)
      ≡ s m.from
  unfolding moved_squares
  moving_back = ground (arith, ok.promoted, ok.distinct)

  pub passed_pawn_square : is_en_passant m ≡ true → behind (s m.from).color m.to ≡ behind side m.to
  passed_pawn_square e = rw (ok.passing e).0

  pub take_passed_pawn-ends :
      (take_passed_pawn s m m.from ≡ s m.from) × (take_passed_pawn s m m.to ≡ s m.to)
  unfolding take_passed_pawn
  take_passed_pawn-ends = (
    ground (arith, castle_rook-ends, ok.passing, passed_pawn_square),
    ground (arith, castle_rook-ends, ok.passing, passed_pawn_square),
  )

  put_back :
      update (update (moved_squares s m) m.from (s m.from)) m.to (s m.to) ≡ take_passed_pawn s m
  put_back =
      rw (← take_passed_pawn-ends.0, ← take_passed_pawn-ends.1)
        (update_both (take_passed_pawn s m) (moved_squares s m) m.from m.to moved-off)

  -- The rook goes back, where the move has castled.
  rook_back :
      (if is_kingside_castle m
        then carry (castle_rook s m) (kingside_rook_to m.from) (kingside_rook m.from)
        else if is_queenside_castle m
        then carry (castle_rook s m) (queenside_rook_to m.from) (queenside_rook m.from)
        else castle_rook s m)
      ≡ s
  unfolding castle_rook
  rook_back = elim (Bool-cases (is_kingside_castle m)) [
    | inl e ↦ rw e (carry_back s _ _ (ok.kingside e).apart.0 (ok.kingside e).empty)
    | inr e ↦ rw e (elim (Bool-cases (is_queenside_castle m)) [
      | inl q ↦ rw q (carry_back s _ _ (ok.queenside q).apart.0 (ok.queenside q).empty)
      | inr q ↦ rw q
    ])
  ]

  pub passed_pawn : is_en_passant m ≡ true → captured_piece s m ≡ castle_rook s m (behind side m.to)
  unfolding captured_piece
  passed_pawn e = rw (e, (ok.passing e).0)

  pub passed_squares :
      is_en_passant m ≡ true
      → take_passed_pawn s m ≡ update (castle_rook s m) (behind side m.to) no_piece
  unfolding take_passed_pawn
  passed_squares e = rw (e, (ok.passing e).0)

  pub other_capture : is_en_passant m ≡ false → captured_piece s m ≡ s m.to
  unfolding captured_piece
  other_capture e = rw e

  pub other_squares : is_en_passant m ≡ false → take_passed_pawn s m ≡ castle_rook s m
  unfolding take_passed_pawn
  other_squares e = rw e

  -- Steps 5 and 6 of `undo_move` give the squares after step 1 of `make_move`.
  capture_back :
      let cleared = update (update (moved_squares s m) m.from (s m.from)) m.to no_piece in
      (if is_en_passant m
        then update cleared (behind side m.to) (captured_piece s m)
        else update cleared m.to (captured_piece s m))
      ≡ castle_rook s m
  capture_back = elim (Bool-cases (is_en_passant m)) [
    | inl e ↦
        rw (e, ← (ok.passing e).1, put_back)
          (subst
            (λ (t : ℕ → Piece). update t (behind side m.to) (captured_piece s m) ≡ castle_rook s m)
            (sym (passed_squares e))
            (update_undone (castle_rook s m) (behind side m.to) no_piece (captured_piece s m)
              (sym (passed_pawn e))))
    | inr e ↦ rw (e, update_again, other_capture e, put_back) (other_squares e)
  ]

  undone-moved : undone_squares (moved_squares s m) side m (captured_piece s m) ≡ s
  unfolding undone_squares
  undone-moved = rw (moving_back, capture_back) rook_back

opposite_twice :
    (c : Color) → (c ≡ Color.white) ⊎ (c ≡ Color.black) → opposite_color (opposite_color c) ≡ c
opposite_twice c h = ground arith

module _ (k : ZobristKeys) (b : Board) (m : Move) where
  restored_number :
      (c : Color)
      → c ≡ b.side_to_move
      → (if color_eq c Color.black
          then (moved_board k b m).fullmove_number - 1
          else (moved_board k b m).fullmove_number)
        ≡ b.fullmove_number
  unfolding moved_board
  restored_number c e = ground arith

  -- With White or Black to move, `undo_move` gives back the very board that `make_move` was called
  -- on, for every move that is reversible there.
  pub undo_move-make_move :
      (b.side_to_move ≡ Color.white) ⊎ (b.side_to_move ≡ Color.black)
      → IsReversible b.squares b.side_to_move m
      → undo_move (make_move k b m).0 m (make_move k b m).1 ≡ b
  unfolding undo_move make_move
  undo_move-make_move side ok = λ i. record {
    squares = squares_back i;
    side_to_move = side_back i;
    castling_rights = b.castling_rights;
    en_passant_sq = b.en_passant_sq;
    halfmove_clock = b.halfmove_clock;
    fullmove_number = restored_number _ side_back i;
    zobrist_key = b.zobrist_key;
  }
    where
      side_back : opposite_color (opposite_color b.side_to_move) ≡ b.side_to_move
      side_back = opposite_twice b.side_to_move side

      squares_back :
          undone_squares
            (moved_squares b.squares m)
            (opposite_color (opposite_color b.side_to_move))
            m
            (captured_piece b.squares m)
          ≡ b.squares
      squares_back = rw side_back (undone-moved b.squares b.side_to_move m ok)
