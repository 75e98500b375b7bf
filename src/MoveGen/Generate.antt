-- ===== src/MoveGen/Generate.antt =====
-- Pseudo-legal move generation (src/chess/move_gen.cpp).
use chess_engine.Base.{ℕ, zero, suc, ◌+◌, ◌-◌, List, [], ◌∷◌, ◌++◌, none, some, Bool, true, false}
use chess_engine.Base.{◌&&◌, ◌||◌, not, ◌==◌, if◌then◌else◌, bit_or}
use chess_engine.Base.Int.{ℤ, pos, negsuc}
use chess_engine.Types.{Piece, PieceType, Color, Move, color_eq, is_none, opposite_color}
use chess_engine.Types.{make_square, rank_of, file_of, plain_move, has_bit, promotion_flag}
use chess_engine.Types.{en_passant_flag, kingside_castle_flag, queenside_castle_flag}
use chess_engine.Types.{double_pawn_push_flag, white_kingside, white_queenside, black_kingside}
use chess_engine.Types.{black_queenside, num_squares}
use chess_engine.Board.State.{Board}
use chess_engine.MoveGen.Geometry.{
  Offset, shift, knight_targets, king_targets, rook_rays, bishop_rays,
}
use chess_engine.MoveGen.Geometry.{ray}
use chess_engine.MoveGen.Attack.{is_square_attacked}

abbrev pub promote : ℕ → ℕ → ℕ → PieceType → Move
promote sq to flags t = record {
  from = sq;
  to = to;
  flags = bit_or flags promotion_flag;
  promo_type = t;
}

-- `add_pawn_move`: four promotions on the last rank, else one move.
unfoldable pub add_pawn_move : Color → ℕ → ℕ → ℕ → List Move
add_pawn_move color sq to flags =
    if rank_of to == (if color_eq color Color.white then 7 else 0)
    then promote sq to flags PieceType.queen
      ∷ promote sq to flags PieceType.rook
      ∷ promote sq to flags PieceType.bishop
      ∷ promote sq to flags PieceType.knight
      ∷ []
    else plain_move sq to flags ∷ []

-- The double push from the start rank, where `r + 2 * dir` needs no sign.
unfoldable pub double_push : (ℕ → Piece) → ℕ → Color → List Move
double_push s sq color =
    let r = rank_of sq in
    let white = color_eq color Color.white in
    let double_sq = make_square (if white then r + 2 else r - 2) (file_of sq) in
    if r == (if white then 1 else 6)
    then if is_none (s double_sq) then plain_move sq double_sq double_pawn_push_flag ∷ [] else []
    else []

unfoldable pub pawn_pushes : (ℕ → Piece) → ℕ → Color → ℕ → List Move
unfolding add_pawn_move double_push
pawn_pushes s sq color forward_r =
    let forward_sq = make_square forward_r (file_of sq) in
    if is_none (s forward_sq)
    then add_pawn_move color sq forward_sq 0 ++ double_push s sq color
    else []

-- One capture, with df = -1 or 1.
unfoldable pub pawn_capture : Board → ℕ → Color → ℕ → ℤ → List Move
unfolding add_pawn_move
pawn_capture b sq color forward_r df = elim (shift (file_of sq) df) [
  | none ↦ []
  | some cap_f ↦
      let cap_sq = make_square forward_r cap_f in
      let target = b.squares cap_sq in
      if not (is_none target) && not (color_eq target.color color)
      then add_pawn_move color sq cap_sq 0
      else if cap_sq == b.en_passant_sq
      then add_pawn_move color sq cap_sq en_passant_flag
      else []
]

unfoldable pub generate_pawn_moves : Board → ℕ → Color → List Move
unfolding pawn_pushes pawn_capture
generate_pawn_moves b sq color =
    elim (shift (rank_of sq) (if color_eq color Color.white then pos 1 else negsuc 0)) [
      | none ↦ []
      | some forward_r ↦
          pawn_pushes b.squares sq color forward_r
          ++ (pawn_capture b sq color forward_r (negsuc 0)
              ++ pawn_capture b sq color forward_r (pos 1))
    ]

-- Moves to the targets of a table row that are empty or hold the other colour.
unfoldable pub table_moves : (ℕ → Piece) → ℕ → Color → List ℕ → List Move
table_moves s sq color [] = []
table_moves s sq color (to ∷ tos) =
    if is_none (s to) || not (color_eq (s to).color color)
    then plain_move sq to 0 ∷ table_moves s sq color tos
    else table_moves s sq color tos

-- Along one ray: up to the first piece, which is taken if it has the other colour.
unfoldable pub slide : (ℕ → Piece) → ℕ → Color → List ℕ → List Move
slide s sq color [] = []
slide s sq color (to ∷ tos) =
    if is_none (s to)
    then plain_move sq to 0 ∷ slide s sq color tos
    else if not (color_eq (s to).color color)
    then plain_move sq to 0 ∷ []
    else []

unfoldable pub ray_moves : (ℕ → Piece) → ℕ → Color → List Offset → List Move
unfolding slide
ray_moves s sq color [] = []
ray_moves s sq color (d ∷ ds) = slide s sq color (ray sq d) ++ ray_moves s sq color ds

unfoldable pub generate_ray_moves : (ℕ → Piece) → ℕ → Color → Bool → Bool → List Move
unfolding ray_moves
generate_ray_moves s sq color orthogonal diagonal =
    (if orthogonal then ray_moves s sq color rook_rays else [])
    ++ (if diagonal then ray_moves s sq color bishop_rays else [])

-- One castling move, if its right is held, the squares between are empty, and the king neither
-- stands in check nor passes an attacked square.
unfoldable pub castle_move : Board → Color → ℕ → Bool → ℕ → ℕ → ℕ → ℕ → List Move
castle_move b color right path_empty king pass to flag =
    if has_bit b.castling_rights right && path_empty
    then if not (is_square_attacked b.squares king (opposite_color color))
        && not (is_square_attacked b.squares pass (opposite_color color))
      then plain_move king to flag ∷ []
      else []
    else []

-- Castling, with a1 = 0 … h1 = 7 and a8 = 56 … h8 = 63.
unfoldable pub castle_moves : Board → Color → List Move
unfolding castle_move
castle_moves b color =
    let s = b.squares in
    if color_eq color Color.white
    then castle_move b color white_kingside (is_none (s 5) && is_none (s 6)) 4 5 6
        kingside_castle_flag
      ++ castle_move b color white_queenside (is_none (s 3) && (is_none (s 2) && is_none (s 1))) 4 3
          2 queenside_castle_flag
    else castle_move b color black_kingside (is_none (s 61) && is_none (s 62)) 60 61 62
        kingside_castle_flag
      ++ castle_move b color black_queenside (is_none (s 59) && (is_none (s 58) && is_none (s 57)))
          60 59 58 queenside_castle_flag

unfoldable pub generate_king_moves : Board → ℕ → Color → List Move
unfolding table_moves castle_moves
generate_king_moves b sq color =
    table_moves b.squares sq color (king_targets sq) ++ castle_moves b color

-- The `switch` on the type of the piece on `sq`.
unfoldable pub piece_moves : Board → ℕ → Color → PieceType → List Move
unfolding generate_pawn_moves table_moves generate_ray_moves generate_king_moves
piece_moves b sq color PieceType.pawn = generate_pawn_moves b sq color
piece_moves b sq color PieceType.knight = table_moves b.squares sq color (knight_targets sq)
piece_moves b sq color PieceType.bishop = generate_ray_moves b.squares sq color false true
piece_moves b sq color PieceType.rook = generate_ray_moves b.squares sq color true false
piece_moves b sq color PieceType.queen = generate_ray_moves b.squares sq color true true
piece_moves b sq color PieceType.king = generate_king_moves b sq color
piece_moves b sq color PieceType.none = []

-- The loop over the squares, from `sq`, with `n` to go.
unfoldable pub moves_from : Board → ℕ → ℕ → List Move
unfolding piece_moves
moves_from b sq zero = []
moves_from b sq (suc n) =
    let p = b.squares sq in
    (if is_none p || not (color_eq p.color b.side_to_move)
      then []
      else piece_moves b sq b.side_to_move p.type)
    ++ moves_from b (sq + 1) n

unfoldable pub generate_pseudo_legal_moves : Board → List Move
unfolding moves_from
generate_pseudo_legal_moves b = moves_from b 0 num_squares
