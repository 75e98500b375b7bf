-- ===== src/MoveGen/Castling.antt =====
-- The castling moves are sound on a valid board (src/chess/move_gen.cpp).
use chess_engine.Base.{ℕ, ◌<◌, ◌≡◌, refl, ◌≢◌, inl, inr, true, false, arith, ap, sym, ◌∙◌}
use chess_engine.Base.{Bool, Bool-cases, not, ◌&&◌}
use chess_engine.Base.Lists.{All, All-append}
use chess_engine.Types.{Color, no_piece, is_none, color_eq, has_bit}
use chess_engine.Types.{plain_move, is_promotion, is_en_passant, is_kingside_castle, opposite_color}
use chess_engine.Types.{is_queenside_castle, is_double_pawn_push}
use chess_engine.Board.State.{Board}
use chess_engine.Board.Moves.{kingside_rook, kingside_rook_to, queenside_rook, queenside_rook_to}
use chess_engine.Board.Moves.{rook_of}
use chess_engine.MoveGen.Attack.{is_square_attacked}
use chess_engine.MoveGen.Generate.{castle_move, castle_moves}
use chess_engine.MoveGen.Valid.{IsValid, IsSound, AreHome}

module _ (b : Board) (v : IsValid b) where
  empty_square : (j : ℕ) → is_none (b.squares j) ≡ true → b.squares j ≡ no_piece
  empty_square j e = ground (arith, v.clean j)

  -- The squares of the king, of its goal, and of the rook's two squares.
  abbrev AreApart : ℕ → ℕ → ℕ → ℕ → Type 0
  AreApart king to rook rook_to =
      (king < 64)
      × (to < 64)
      × (king ≢ to)
      × (rook ≢ rook_to)
      × (rook ≢ king)
      × (rook ≢ to)
      × (rook_to ≢ king)
      × (rook_to ≢ to)

  module _ (c : Color) (king to : ℕ) where
    kingside-IsSound :
        AreHome b.squares c king (kingside_rook king)
        → color_eq c Color.none ≡ false
        → b.squares (kingside_rook_to king) ≡ no_piece
        → AreApart king to (kingside_rook king) (kingside_rook_to king)
        → IsSound b (plain_move king to 4)
    unfolding is_promotion is_en_passant is_kingside_castle is_queenside_castle is_double_pawn_push
    kingside-IsSound home colored empty a = (
      record {
        distinct = a.2;
        promoted = λ e. cc;
        passing = λ e. cc;
        kingside = λ e. record { empty = empty; apart = (a.3, a.4, a.5, a.6, a.7) };
        queenside = λ e. cc;
      },
      record {
        in_range = (a.0, a.1);
        mover = rw home.0 (refl, colored);
        target = v.clean to;
        promoted = λ e. cc;
        passing = λ e. cc;
        kingside = λ e. home.1 ∙ sym (ap rook_of home.0);
        queenside = λ e. cc;
        pushed = λ e. cc;
      },
    )

    queenside-IsSound :
        AreHome b.squares c king (queenside_rook king)
        → color_eq c Color.none ≡ false
        → b.squares (queenside_rook_to king) ≡ no_piece
        → AreApart king to (queenside_rook king) (queenside_rook_to king)
        → IsSound b (plain_move king to 8)
    unfolding is_promotion is_en_passant is_kingside_castle is_queenside_castle is_double_pawn_push
    queenside-IsSound home colored empty a = (
      record {
        distinct = a.2;
        promoted = λ e. cc;
        passing = λ e. cc;
        kingside = λ e. cc;
        queenside = λ e. record { empty = empty; apart = (a.3, a.4, a.5, a.6, a.7) };
      },
      record {
        in_range = (a.0, a.1);
        mover = rw home.0 (refl, colored);
        target = v.clean to;
        promoted = λ e. cc;
        passing = λ e. cc;
        kingside = λ e. cc;
        queenside = λ e. home.1 ∙ sym (ap rook_of home.0);
        pushed = λ e. cc;
      },
    )

  -- The move is made only under its right, over empty squares.
  castle_move-AreSound :
      (c : Color) (right : ℕ) (path_empty : Bool) (king pass to flag : ℕ)
      → (has_bit b.castling_rights right ≡ true
          → path_empty ≡ true
          → IsSound b (plain_move king to flag))
      → All (IsSound b) (castle_move b c right path_empty king pass to flag)
  unfolding castle_move
  castle_move-AreSound c right path_empty king pass to flag h =
      elim (Bool-cases (has_bit b.castling_rights right && path_empty)) [
        | inl e ↦
            rw e
              (elim (Bool-cases (
                not (is_square_attacked b.squares king (opposite_color c))
                && not (is_square_attacked b.squares pass (opposite_color c)))) [
                  | inl f ↦ rw f (h (ground arith) (ground arith), tt)
                  | inr f ↦ rw f tt
                ])
        | inr e ↦ rw e tt
      ]

  first_empty : (p q : Bool) → p && q ≡ true → p ≡ true
  first_empty p q e = ground arith

  -- The four castling moves.
  white_kingside-AreSound :
      (path_empty : Bool)
      → (path_empty ≡ true → is_none (b.squares 5) ≡ true)
      → All (IsSound b) (castle_move b b.side_to_move 1 path_empty 4 5 6 4)
  unfolding kingside_rook kingside_rook_to
  white_kingside-AreSound free h = castle_move-AreSound b.side_to_move 1 free 4 5 6 4 λ r p.
      kingside-IsSound Color.white 4 6 (v.white_kingside r) refl (empty_square 5 (h p))
        (omega arith)

  white_queenside-AreSound :
      (path_empty : Bool)
      → (path_empty ≡ true → is_none (b.squares 3) ≡ true)
      → All (IsSound b) (castle_move b b.side_to_move 2 path_empty 4 3 2 8)
  unfolding queenside_rook queenside_rook_to
  white_queenside-AreSound free h = castle_move-AreSound b.side_to_move 2 free 4 3 2 8 λ r p.
      queenside-IsSound Color.white 4 2 (v.white_queenside r) refl (empty_square 3 (h p))
        (omega arith)

  black_kingside-AreSound :
      (path_empty : Bool)
      → (path_empty ≡ true → is_none (b.squares 61) ≡ true)
      → All (IsSound b) (castle_move b b.side_to_move 4 path_empty 60 61 62 4)
  unfolding kingside_rook kingside_rook_to
  black_kingside-AreSound free h = castle_move-AreSound b.side_to_move 4 free 60 61 62 4 λ r p.
      kingside-IsSound Color.black 60 62 (v.black_kingside r) refl (empty_square 61 (h p))
        (omega arith)

  black_queenside-AreSound :
      (path_empty : Bool)
      → (path_empty ≡ true → is_none (b.squares 59) ≡ true)
      → All (IsSound b) (castle_move b b.side_to_move 8 path_empty 60 59 58 8)
  unfolding queenside_rook queenside_rook_to
  black_queenside-AreSound free h = castle_move-AreSound b.side_to_move 8 free 60 59 58 8 λ r p.
      queenside-IsSound Color.black 60 58 (v.black_queenside r) refl (empty_square 59 (h p))
        (omega arith)

  pub castle_moves-AreSound : All (IsSound b) (castle_moves b b.side_to_move)
  unfolding castle_moves
  castle_moves-AreSound = elim (Bool-cases (color_eq b.side_to_move Color.white)) [
    | inl e ↦ rw e (
        All-append (IsSound b) _ _ (white_kingside-AreSound _ (first_empty _ _))
          (white_queenside-AreSound _ (first_empty _ _)))
    | inr e ↦ rw e (
        All-append (IsSound b) _ _ (black_kingside-AreSound _ (first_empty _ _))
          (black_queenside-AreSound _ (first_empty _ _)))
  ]
