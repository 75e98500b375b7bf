-- ===== src/MoveGen/Valid.antt =====
-- Boards of a game in progress, and the moves that `make_move` and `undo_move` handle there
-- (src/chess/board.cpp, src/chess/move_gen.cpp).
use chess_engine.Base.{ℕ, ◌+◌, ◌<◌, ◌≤◌, ◌≡◌, refl, ◌≢◌, ◌⊎◌, true, false, arith}
use chess_engine.Base.{ap}
use chess_engine.MoveGen.Generate.{promote}
use chess_engine.Types.{Piece, PieceType, Color, Move, no_piece, type_eq}
use chess_engine.Types.{opposite_color, has_bit, plain_move, is_promotion, is_en_passant}
use chess_engine.Types.{is_kingside_castle, is_queenside_castle, is_double_pawn_push, is_castle}
use chess_engine.Board.State.{Board}
use chess_engine.Board.Moves.{behind}
use chess_engine.Board.Undo.{IsReversible}
use chess_engine.Board.Hash.{IsReal, IsHashable}

abbrev pub piece : PieceType → Color → Piece
piece t c = record { type = t; color = c }

-- `rank_first` is the first square of the rank that an en passant target of this side lies on: the
-- sixth rank if White is to move, the third if Black is.
abbrev pub rank_first : Color → ℕ
rank_first Color.white = 40
rank_first _ = 16

-- Behind the empty en passant square stands the pawn that has just passed it.
abbrev pub IsPassed : (ℕ → Piece) → Color → ℕ → Type 0
IsPassed s side ep =
    (rank_first side ≤ ep)
    × (ep < rank_first side + 8)
    × (s ep ≡ no_piece)
    × (s (behind side ep) ≡ piece PieceType.pawn (opposite_color side))

-- The king and one rook of a colour stand where the castling right needs them.
abbrev pub AreHome : (ℕ → Piece) → Color → ℕ → ℕ → Type 0
AreHome s c king rook = (s king ≡ piece PieceType.king c) × (s rook ≡ piece PieceType.rook c)

pub record IsValid (b : Board) : Type 0 where
  pub side : (b.side_to_move ≡ Color.white) ⊎ (b.side_to_move ≡ Color.black)
  pub clean : (j : ℕ) → (b.squares j ≡ no_piece) ⊎ IsReal (b.squares j)
  pub en_passant : (b.en_passant_sq ≡ 64) ⊎ IsPassed b.squares b.side_to_move b.en_passant_sq
  pub white_kingside : has_bit b.castling_rights 1 ≡ true → AreHome b.squares Color.white 4 7
  pub white_queenside : has_bit b.castling_rights 2 ≡ true → AreHome b.squares Color.white 4 0
  pub black_kingside : has_bit b.castling_rights 4 ≡ true → AreHome b.squares Color.black 60 63
  pub black_queenside : has_bit b.castling_rights 8 ≡ true → AreHome b.squares Color.black 60 56

-- A move that can be undone, and whose hash update finds every key.
abbrev pub IsSound : Board → Move → Type 0
IsSound b m = IsReversible b.squares b.side_to_move m × IsHashable b.squares b.side_to_move m

module _ (b : Board) (v : IsValid b) (sq : ℕ) (inside : sq < 64)
    (real : IsReal (b.squares sq)) where
  pub plain-IsSound : (to : ℕ) → to < 64 → sq ≢ to → IsSound b (plain_move sq to 0)
  unfolding is_promotion is_en_passant is_kingside_castle is_queenside_castle is_double_pawn_push
  plain-IsSound to h ne = (
    record {
      distinct = ne;
      promoted = λ e. cc;
      passing = λ e. cc;
      kingside = λ e. cc;
      queenside = λ e. cc;
    },
    record {
      in_range = (inside, h);
      mover = real;
      target = v.clean to;
      promoted = λ e. cc;
      passing = λ e. cc;
      kingside = λ e. cc;
      queenside = λ e. cc;
      pushed = λ e. cc;
    },
  )

  module _ (mine : b.squares sq ≡ piece PieceType.pawn b.side_to_move) where
    pub promote-IsSound :
        (to : ℕ) (t : PieceType)
        → to < 64
        → sq ≢ to
        → type_eq t PieceType.none ≡ false
        → IsSound b (promote sq to 0 t)
    unfolding is_promotion is_en_passant is_kingside_castle is_queenside_castle is_double_pawn_push
    promote-IsSound to t h ne some_type = (
      record {
        distinct = ne;
        promoted = λ e. mine;
        passing = λ e. cc;
        kingside = λ e. cc;
        queenside = λ e. cc;
      },
      record {
        in_range = (inside, h);
        mover = real;
        target = v.clean to;
        promoted = λ e. some_type;
        passing = λ e. cc;
        kingside = λ e. cc;
        queenside = λ e. cc;
        pushed = λ e. cc;
      },
    )

    pub double_push-IsSound :
        (to : ℕ)
        → to < 64
        → sq ≢ to
        → behind b.side_to_move to < 64
        → IsSound b (plain_move sq to 16)
    unfolding is_promotion is_en_passant is_kingside_castle is_queenside_castle is_double_pawn_push
    double_push-IsSound to h ne passed = (
      record {
        distinct = ne;
        promoted = λ e. cc;
        passing = λ e. cc;
        kingside = λ e. cc;
        queenside = λ e. cc;
      },
      record {
        in_range = (inside, h);
        mover = real;
        target = v.clean to;
        promoted = λ e. cc;
        passing = λ e. cc;
        kingside = λ e. cc;
        queenside = λ e. cc;
        pushed = λ e. rw mine passed;
      },
    )

    pub en_passant-IsSound :
        (to : ℕ)
        → sq ≢ to
        → IsPassed b.squares b.side_to_move to
        → behind b.side_to_move to < 64
        → behind b.side_to_move to ≢ sq
        → behind b.side_to_move to ≢ to
        → IsSound b (plain_move sq to 2)
    unfolding is_promotion is_en_passant is_kingside_castle is_queenside_castle is_double_pawn_push
        is_castle
    en_passant-IsSound to ne p h a c = (
      record {
        distinct = ne;
        promoted = λ e. cc;
        passing = λ e. (ap (λ (q : Piece). q.color) mine, p.2, a, c, refl);
        kingside = λ e. cc;
        queenside = λ e. cc;
      },
      record {
        in_range = (inside, ground arith);
        mover = real;
        target = v.clean to;
        promoted = λ e. cc;
        passing = λ e. (h, ground (arith, v.side));
        kingside = λ e. cc;
        queenside = λ e. cc;
        pushed = λ e. cc;
      },
    )
