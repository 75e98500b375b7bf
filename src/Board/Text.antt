-- ===== src/Board/Text.antt =====
-- Pieces, squares, moves and positions as text (src/chess/board.cpp). A `char` is its ASCII code.
use chess_engine.Base.{ℕ, zero, suc, ◌+◌, ◌-◌, ◌/◌, ◌%◌, Bool, true, false, ◌&&◌}
use chess_engine.Base.{ltb, leb, ◌==◌, if◌then◌else◌, Option, none, some, List, [], ◌∷◌, ◌++◌}
use chess_engine.Types.{
  Piece, PieceType, Color, no_piece, color_eq, is_none, make_square, rank_of, file_of, no_square,
  num_squares, Move, no_move, is_promotion, promotion_flag, has_bit, white_kingside,
  white_queenside, black_kingside, black_queenside, pawn, knight, bishop, rook, queen, king,
}
use chess_engine.Board.State.{Board}

-- `std::isupper` and `std::tolower` on ASCII.
abbrev pub is_upper : ℕ → Bool
is_upper c = leb 65 c && leb c 90

abbrev pub to_lower : ℕ → ℕ
to_lower c = if is_upper c then c + 32 else c

abbrev pub type_char : PieceType → ℕ
type_char PieceType.pawn = 80
type_char PieceType.knight = 78
type_char PieceType.bishop = 66
type_char PieceType.rook = 82
type_char PieceType.queen = 81
type_char PieceType.king = 75
type_char PieceType.none = 46

unfoldable pub to_char : Piece → ℕ
to_char p =
    if is_none p
    then 46
    else if color_eq p.color Color.black
    then to_lower (type_char p.type)
    else type_char p.type

-- The `switch` over the lower-case letter.
abbrev pub type_of_char : ℕ → PieceType
type_of_char c =
    if c == 112
    then pawn
    else if c == 110
    then knight
    else if c == 98
    then bishop
    else if c == 114
    then rook
    else if c == 113
    then queen
    else if c == 107
    then king
    else PieceType.none

unfoldable pub from_char : ℕ → Piece
from_char c =
    let piece : Piece = record {
      type = type_of_char (to_lower c);
      color = if is_upper c then Color.white else Color.black;
    } in
    if is_none piece then no_piece else piece

abbrev pub square_text : ℕ → List ℕ
square_text sq = (97 + file_of sq) ∷ (49 + rank_of sq) ∷ []

unfoldable pub square_to_algebraic : ℕ → List ℕ
square_to_algebraic sq = if leb num_squares sq then 63 ∷ 63 ∷ [] else square_text sq

-- A file's letter and a rank's digit within their range: `'a' … 'h'` and `'1' … '8'`.
abbrev pub is_file_char : ℕ → Bool
is_file_char c = leb 97 c && leb c 104

abbrev pub is_rank_char : ℕ → Bool
is_rank_char c = leb 49 c && leb c 56

unfoldable pub algebraic_to_square : List ℕ → ℕ
algebraic_to_square (f ∷ r ∷ []) =
    if is_file_char f && is_rank_char r then make_square (r - 49) (f - 97) else no_square
algebraic_to_square _ = no_square

abbrev pub promotion_text : PieceType → List ℕ
promotion_text PieceType.queen = 113 ∷ []
promotion_text PieceType.rook = 114 ∷ []
promotion_text PieceType.bishop = 98 ∷ []
promotion_text PieceType.knight = 110 ∷ []
promotion_text _ = []

unfoldable pub to_uci : Move → List ℕ
to_uci m =
    square_text m.from
    ++ (square_text m.to ++ (if is_promotion m then promotion_text m.promo_type else []))

-- The two squares of `from_uci`, where their letters and digits are in range.
abbrev pub squares_of_uci : ℕ → ℕ → ℕ → ℕ → Option (ℕ × ℕ)
squares_of_uci ff fr tf tr =
    if is_file_char ff && is_rank_char fr && is_file_char tf && is_rank_char tr
    then some (make_square (fr - 49) (ff - 97), make_square (tr - 49) (tf - 97))
    else none

-- The promotion letters of `from_uci`.
abbrev pub promotion_of_char : ℕ → PieceType
promotion_of_char c =
    if c == 113
    then queen
    else if c == 114
    then rook
    else if c == 98
    then bishop
    else if c == 110
    then knight
    else PieceType.none

abbrev pub promotion_move : ℕ → ℕ → PieceType → Move
promotion_move f t PieceType.none = no_move
promotion_move f t p = record { from = f; to = t; flags = promotion_flag; promo_type = p }

unfoldable pub from_uci : List ℕ → Move
from_uci (ff ∷ fr ∷ tf ∷ tr ∷ []) = elim (squares_of_uci ff fr tf tr) [
  | none ↦ no_move
  | some (f, t) ↦ record { from = f; to = t; flags = 0; promo_type = PieceType.none }
]
from_uci (ff ∷ fr ∷ tf ∷ tr ∷ c ∷ []) = elim (squares_of_uci ff fr tf tr) [
  | none ↦ no_move
  | some (f, t) ↦ promotion_move f t (promotion_of_char (to_lower c))
]
from_uci _ = no_move

-- `std::to_string` of a number, on fuel that the number itself bounds.
unfoldable pub decimal_from : ℕ → ℕ → List ℕ → List ℕ
decimal_from zero n rest = rest
decimal_from (suc fuel) n rest = elim (ltb n 10) [
  | true ↦ (48 + n) ∷ rest
  | false ↦ decimal_from fuel (n / 10) ((48 + n % 10) ∷ rest)
]

unfoldable pub decimal : ℕ → List ℕ
unfolding decimal_from
decimal n = decimal_from (suc n) n []

-- The count of empty squares before a piece or at a rank's end: one digit.
abbrev pub empty_text : ℕ → List ℕ
empty_text empty = if ltb 0 empty then (48 + empty) ∷ [] else []

-- One rank of `to_fen` from `file`, with `n` files to go and `empty` empty squares counted.
unfoldable pub rank_text : (ℕ → Piece) → ℕ → ℕ → ℕ → ℕ → List ℕ
rank_text squares rank file zero empty = empty_text empty
rank_text squares rank file (suc n) empty = elim (is_none (squares (make_square rank file))) [
  | true ↦ rank_text squares rank (file + 1) n (empty + 1)
  | false ↦
      empty_text empty
      ++ (to_char (squares (make_square rank file)) ∷ rank_text squares rank (file + 1) n 0)
]

-- The ranks from `rank` down to the first.
unfoldable pub placement_text : (ℕ → Piece) → ℕ → List ℕ
unfolding rank_text
placement_text squares zero = rank_text squares 0 0 8 0
placement_text squares (suc rank) =
    rank_text squares (suc rank) 0 8 0 ++ (47 ∷ placement_text squares rank)

abbrev pub right_text : ℕ → ℕ → ℕ → List ℕ
right_text rights mask c = if has_bit rights mask then c ∷ [] else []

unfoldable pub castling_text : ℕ → List ℕ
castling_text rights =
    if rights == 0
    then 45 ∷ []
    else right_text rights white_kingside 75
      ++ (right_text rights white_queenside 81
          ++ (right_text rights black_kingside 107 ++ right_text rights black_queenside 113))

unfoldable pub en_passant_text : ℕ → List ℕ
unfolding square_to_algebraic
en_passant_text sq = if sq == no_square then 45 ∷ [] else square_to_algebraic sq

abbrev pub side_text : Color → List ℕ
side_text c = if color_eq c Color.white then 119 ∷ [] else 98 ∷ []

unfoldable pub to_fen : Board → List ℕ
unfolding placement_text castling_text en_passant_text decimal
to_fen b =
    placement_text b.squares 7
    ++ (32 ∷ side_text b.side_to_move
        ++ (32 ∷ castling_text b.castling_rights
            ++ (32 ∷ en_passant_text b.en_passant_sq
                ++ (32 ∷ decimal b.halfmove_clock ++ (32 ∷ decimal b.fullmove_number)))))
