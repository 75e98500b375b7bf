-- ===== src/Types.antt =====
-- src/core/types.h and src/chess/move.h: squares, pieces, colours, castling rights and moves.
use chess_engine.Base.{ℕ, ◌+◌, ◌*◌, ◌/◌, ◌%◌, Bool, not, ◌&&◌, ◌||◌}
use chess_engine.Base.{ltb, ◌==◌, bit_and}

-- A `Square` is a uint8_t; `NO_SQUARE` is the square after the last.
abbrev pub no_square : ℕ
no_square = 64

abbrev pub num_squares : ℕ
num_squares = 64

-- The cast to `Square` works modulo 256, so a rank of -1 may be given as 255.
abbrev pub make_square : ℕ → ℕ → ℕ
make_square rank file = (rank * 8 + file) % 256

abbrev pub rank_of : ℕ → ℕ
rank_of sq = sq / 8

abbrev pub file_of : ℕ → ℕ
file_of sq = sq % 8

-- On a `Square`, which is never negative.
abbrev pub is_valid_square : ℕ → Bool
is_valid_square sq = ltb sq num_squares

pub data PieceType : Type 0 where
  pawn knight bishop rook queen king none : PieceType

pub data Color : Type 0 where
  white black none : Color

-- `static_cast<int>` of the two enumerations.
abbrev pub type_index : PieceType → ℕ
type_index PieceType.pawn = 0
type_index PieceType.knight = 1
type_index PieceType.bishop = 2
type_index PieceType.rook = 3
type_index PieceType.queen = 4
type_index PieceType.king = 5
type_index PieceType.none = 6

abbrev pub color_index : Color → ℕ
color_index Color.white = 0
color_index Color.black = 1
color_index Color.none = 2

-- `==` of enumerations compares the numbers behind them.
abbrev pub type_eq : PieceType → PieceType → Bool
type_eq s t = type_index s == type_index t

abbrev pub color_eq : Color → Color → Bool
color_eq c d = color_index c == color_index d

abbrev pub opposite_color : Color → Color
opposite_color Color.white = Color.black
opposite_color _ = Color.white

pub record Piece : Type 0 where
  pub type : PieceType
  pub color : Color

-- `Piece()`.
abbrev pub no_piece : Piece
no_piece = record { type = PieceType.none; color = Color.none }

abbrev pub is_none : Piece → Bool
is_none p = type_eq p.type PieceType.none

abbrev pub piece_eq : Piece → Piece → Bool
piece_eq p q = type_eq p.type q.type && color_eq p.color q.color

-- The bits of `CastlingRights`.
abbrev pub white_kingside : ℕ
white_kingside = 1

abbrev pub white_queenside : ℕ
white_queenside = 2

abbrev pub black_kingside : ℕ
black_kingside = 4

abbrev pub black_queenside : ℕ
black_queenside = 8

abbrev pub all_rights : ℕ
all_rights = 0x0f

-- The bits of `MoveFlags`.
abbrev pub promotion_flag : ℕ
promotion_flag = 1

abbrev pub en_passant_flag : ℕ
en_passant_flag = 2

abbrev pub kingside_castle_flag : ℕ
kingside_castle_flag = 4

abbrev pub queenside_castle_flag : ℕ
queenside_castle_flag = 8

abbrev pub double_pawn_push_flag : ℕ
double_pawn_push_flag = 16

-- `bits & mask` as a condition.
abbrev pub has_bit : ℕ → ℕ → Bool
has_bit bits mask = not (bit_and bits mask == 0)

pub record Move : Type 0 where
  pub from : ℕ
  pub to : ℕ
  pub flags : ℕ
  pub promo_type : PieceType

-- `Move(from, to, flags)`, without a promotion, and `Move()`.
abbrev pub plain_move : ℕ → ℕ → ℕ → Move
plain_move f t fl = record { from = f; to = t; flags = fl; promo_type = PieceType.none }

abbrev pub no_move : Move
no_move = plain_move 0 0 0

unfoldable pub is_promotion : Move → Bool
is_promotion m = has_bit m.flags promotion_flag

unfoldable pub is_en_passant : Move → Bool
is_en_passant m = has_bit m.flags en_passant_flag

unfoldable pub is_kingside_castle : Move → Bool
is_kingside_castle m = has_bit m.flags kingside_castle_flag

unfoldable pub is_queenside_castle : Move → Bool
is_queenside_castle m = has_bit m.flags queenside_castle_flag

unfoldable pub is_castle : Move → Bool
unfolding is_kingside_castle is_queenside_castle
is_castle m = is_kingside_castle m || is_queenside_castle m

unfoldable pub is_double_pawn_push : Move → Bool
is_double_pawn_push m = has_bit m.flags double_pawn_push_flag

unfoldable pub move_eq : Move → Move → Bool
move_eq m n =
    m.from == n.from && m.to == n.to && m.flags == n.flags && type_eq m.promo_type n.promo_type

pub data GameStatus : Type 0 where
  ongoing checkmate stalemate draw_insufficient_material draw_fifty_move : GameStatus
  draw_threefold_repetition draw_agreement resignation timeout abandonment : GameStatus
