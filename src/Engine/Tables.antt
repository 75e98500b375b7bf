-- ===== src/Engine/Tables.antt =====
-- The piece-square tables and the material values of src/chess/evaluator.cpp.
use chess_engine.Base.{ℕ, suc, zero, List, [], ◌∷◌, bit_xor}
use chess_engine.Base.Lists.{get_or}
use chess_engine.Base.Int.{ℤ, pos, negsuc}
use chess_engine.Types.{PieceType, Color, type_index, pawn, knight, bishop, rook, queen, king}

abbrev plus : ℕ → ℤ
plus n = pos n

abbrev minus : ℕ → ℤ
minus zero = pos 0
minus (suc n) = negsuc n

-- By the index of a piece's type.
abbrev pub piece_values : List ℕ
piece_values = 100 ∷ 320 ∷ 330 ∷ 500 ∷ 900 ∷ 20000 ∷ 0 ∷ []

abbrev pub piece_value : PieceType → ℕ
piece_value t = get_or piece_values (type_index t) 0

abbrev pub pst_pawn : List ℤ
pst_pawn =
    plus 0
    ∷ plus 0
    ∷ plus 0
    ∷ plus 0
    ∷ plus 0
    ∷ plus 0
    ∷ plus 0
    ∷ plus 0
    ∷ plus 50
    ∷ plus 50
    ∷ plus 50
    ∷ plus 50
    ∷ plus 50
    ∷ plus 50
    ∷ plus 50
    ∷ plus 50
    ∷ plus 10
    ∷ plus 10
    ∷ plus 20
    ∷ plus 30
    ∷ plus 30
    ∷ plus 20
    ∷ plus 10
    ∷ plus 10
    ∷ plus 5
    ∷ plus 5
    ∷ plus 10
    ∷ plus 25
    ∷ plus 25
    ∷ plus 10
    ∷ plus 5
    ∷ plus 5
    ∷ plus 0
    ∷ plus 0
    ∷ plus 0
    ∷ plus 20
    ∷ plus 20
    ∷ plus 0
    ∷ plus 0
    ∷ plus 0
    ∷ plus 5
    ∷ minus 5
    ∷ minus 10
    ∷ plus 0
    ∷ plus 0
    ∷ minus 10
    ∷ minus 5
    ∷ plus 5
    ∷ plus 5
    ∷ plus 10
    ∷ plus 10
    ∷ minus 20
    ∷ minus 20
    ∷ plus 10
    ∷ plus 10
    ∷ plus 5
    ∷ plus 0
    ∷ plus 0
    ∷ plus 0
    ∷ plus 0
    ∷ plus 0
    ∷ plus 0
    ∷ plus 0
    ∷ plus 0
    ∷ []

abbrev pub pst_knight : List ℤ
pst_knight =
    minus 50
    ∷ minus 40
    ∷ minus 30
    ∷ minus 30
    ∷ minus 30
    ∷ minus 30
    ∷ minus 40
    ∷ minus 50
    ∷ minus 40
    ∷ minus 20
    ∷ plus 0
    ∷ plus 0
    ∷ plus 0
    ∷ plus 0
    ∷ minus 20
    ∷ minus 40
    ∷ minus 30
    ∷ plus 0
    ∷ plus 10
    ∷ plus 15
    ∷ plus 15
    ∷ plus 10
    ∷ plus 0
    ∷ minus 30
    ∷ minus 30
    ∷ plus 5
    ∷ plus 15
    ∷ plus 20
    ∷ plus 20
    ∷ plus 15
    ∷ plus 5
    ∷ minus 30
    ∷ minus 30
    ∷ plus 0
    ∷ plus 15
    ∷ plus 20
    ∷ plus 20
    ∷ plus 15
    ∷ plus 0
    ∷ minus 30
    ∷ minus 30
    ∷ plus 5
    ∷ plus 10
    ∷ plus 15
    ∷ plus 15
    ∷ plus 10
    ∷ plus 5
    ∷ minus 30
    ∷ minus 40
    ∷ minus 20
    ∷ plus 0
    ∷ plus 5
    ∷ plus 5
    ∷ plus 0
    ∷ minus 20
    ∷ minus 40
    ∷ minus 50
    ∷ minus 40
    ∷ minus 30
    ∷ minus 30
    ∷ minus 30
    ∷ minus 30
    ∷ minus 40
    ∷ minus 50
    ∷ []

abbrev pub pst_bishop : List ℤ
pst_bishop =
    minus 20
    ∷ minus 10
    ∷ minus 10
    ∷ minus 10
    ∷ minus 10
    ∷ minus 10
    ∷ minus 10
    ∷ minus 20
    ∷ minus 10
    ∷ plus 0
    ∷ plus 0
    ∷ plus 0
    ∷ plus 0
    ∷ plus 0
    ∷ plus 0
    ∷ minus 10
    ∷ minus 10
    ∷ plus 0
    ∷ plus 5
    ∷ plus 10
    ∷ plus 10
    ∷ plus 5
    ∷ plus 0
    ∷ minus 10
    ∷ minus 10
    ∷ plus 5
    ∷ plus 5
    ∷ plus 10
    ∷ plus 10
    ∷ plus 5
    ∷ plus 5
    ∷ minus 10
    ∷ minus 10
    ∷ plus 0
    ∷ plus 10
    ∷ plus 10
    ∷ plus 10
    ∷ plus 10
    ∷ plus 0
    ∷ minus 10
    ∷ minus 10
    ∷ plus 10
    ∷ plus 10
    ∷ plus 10
    ∷ plus 10
    ∷ plus 10
    ∷ plus 10
    ∷ minus 10
    ∷ minus 10
    ∷ plus 5
    ∷ plus 0
    ∷ plus 0
    ∷ plus 0
    ∷ plus 0
    ∷ plus 5
    ∷ minus 10
    ∷ minus 20
    ∷ minus 10
    ∷ minus 10
    ∷ minus 10
    ∷ minus 10
    ∷ minus 10
    ∷ minus 10
    ∷ minus 20
    ∷ []

abbrev pub pst_rook : List ℤ
pst_rook =
    plus 0
    ∷ plus 0
    ∷ plus 0
    ∷ plus 0
    ∷ plus 0
    ∷ plus 0
    ∷ plus 0
    ∷ plus 0
    ∷ plus 5
    ∷ plus 10
    ∷ plus 10
    ∷ plus 10
    ∷ plus 10
    ∷ plus 10
    ∷ plus 10
    ∷ plus 5
    ∷ minus 5
    ∷ plus 0
    ∷ plus 0
    ∷ plus 0
    ∷ plus 0
    ∷ plus 0
    ∷ plus 0
    ∷ minus 5
    ∷ minus 5
    ∷ plus 0
    ∷ plus 0
    ∷ plus 0
    ∷ plus 0
    ∷ plus 0
    ∷ plus 0
    ∷ minus 5
    ∷ minus 5
    ∷ plus 0
    ∷ plus 0
    ∷ plus 0
    ∷ plus 0
    ∷ plus 0
    ∷ plus 0
    ∷ minus 5
    ∷ minus 5
    ∷ plus 0
    ∷ plus 0
    ∷ plus 0
    ∷ plus 0
    ∷ plus 0
    ∷ plus 0
    ∷ minus 5
    ∷ minus 5
    ∷ plus 0
    ∷ plus 0
    ∷ plus 0
    ∷ plus 0
    ∷ plus 0
    ∷ plus 0
    ∷ minus 5
    ∷ plus 0
    ∷ plus 0
    ∷ plus 0
    ∷ plus 5
    ∷ plus 5
    ∷ plus 0
    ∷ plus 0
    ∷ plus 0
    ∷ []

abbrev pub pst_queen : List ℤ
pst_queen =
    minus 20
    ∷ minus 10
    ∷ minus 10
    ∷ minus 5
    ∷ minus 5
    ∷ minus 10
    ∷ minus 10
    ∷ minus 20
    ∷ minus 10
    ∷ plus 0
    ∷ plus 0
    ∷ plus 0
    ∷ plus 0
    ∷ plus 0
    ∷ plus 0
    ∷ minus 10
    ∷ minus 10
    ∷ plus 0
    ∷ plus 5
    ∷ plus 5
    ∷ plus 5
    ∷ plus 5
    ∷ plus 0
    ∷ minus 10
    ∷ minus 5
    ∷ plus 0
    ∷ plus 5
    ∷ plus 5
    ∷ plus 5
    ∷ plus 5
    ∷ plus 0
    ∷ minus 5
    ∷ plus 0
    ∷ plus 0
    ∷ plus 5
    ∷ plus 5
    ∷ plus 5
    ∷ plus 5
    ∷ plus 0
    ∷ minus 5
    ∷ minus 10
    ∷ plus 5
    ∷ plus 5
    ∷ plus 5
    ∷ plus 5
    ∷ plus 5
    ∷ plus 0
    ∷ minus 10
    ∷ minus 10
    ∷ plus 0
    ∷ plus 5
    ∷ plus 0
    ∷ plus 0
    ∷ plus 0
    ∷ plus 0
    ∷ minus 10
    ∷ minus 20
    ∷ minus 10
    ∷ minus 10
    ∷ minus 5
    ∷ minus 5
    ∷ minus 10
    ∷ minus 10
    ∷ minus 20
    ∷ []

abbrev pub pst_king_mg : List ℤ
pst_king_mg =
    minus 30
    ∷ minus 40
    ∷ minus 40
    ∷ minus 50
    ∷ minus 50
    ∷ minus 40
    ∷ minus 40
    ∷ minus 30
    ∷ minus 30
    ∷ minus 40
    ∷ minus 40
    ∷ minus 50
    ∷ minus 50
    ∷ minus 40
    ∷ minus 40
    ∷ minus 30
    ∷ minus 30
    ∷ minus 40
    ∷ minus 40
    ∷ minus 50
    ∷ minus 50
    ∷ minus 40
    ∷ minus 40
    ∷ minus 30
    ∷ minus 30
    ∷ minus 40
    ∷ minus 40
    ∷ minus 50
    ∷ minus 50
    ∷ minus 40
    ∷ minus 40
    ∷ minus 30
    ∷ minus 20
    ∷ minus 30
    ∷ minus 30
    ∷ minus 40
    ∷ minus 40
    ∷ minus 30
    ∷ minus 30
    ∷ minus 20
    ∷ minus 10
    ∷ minus 20
    ∷ minus 20
    ∷ minus 20
    ∷ minus 20
    ∷ minus 20
    ∷ minus 20
    ∷ minus 10
    ∷ plus 20
    ∷ plus 20
    ∷ plus 0
    ∷ plus 0
    ∷ plus 0
    ∷ plus 0
    ∷ plus 20
    ∷ plus 20
    ∷ plus 20
    ∷ plus 30
    ∷ plus 10
    ∷ plus 0
    ∷ plus 0
    ∷ plus 10
    ∷ plus 30
    ∷ plus 20
    ∷ []

-- The bonus of a piece on a square; for Black the table is turned by `sq ^ 56`.
abbrev pst_index : Color → ℕ → ℕ
pst_index Color.black sq = bit_xor sq 56
pst_index _ sq = sq

unfoldable pub pst_bonus : PieceType → Color → ℕ → ℤ
pst_bonus pawn c sq = get_or pst_pawn (pst_index c sq) (pos 0)
pst_bonus knight c sq = get_or pst_knight (pst_index c sq) (pos 0)
pst_bonus bishop c sq = get_or pst_bishop (pst_index c sq) (pos 0)
pst_bonus rook c sq = get_or pst_rook (pst_index c sq) (pos 0)
pst_bonus queen c sq = get_or pst_queen (pst_index c sq) (pos 0)
pst_bonus king c sq = get_or pst_king_mg (pst_index c sq) (pos 0)
pst_bonus PieceType.none c sq = pos 0
