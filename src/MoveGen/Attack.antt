-- ===== src/MoveGen/Attack.antt =====
-- `is_square_attacked` and `is_in_check` (src/chess/move_gen.cpp).
use chess_engine.Base.{ℕ, ◌+◌, ◌-◌, List, [], ◌∷◌, none, some, Bool, false, ◌&&◌, ◌||◌, not}
use chess_engine.Base.{ltb, ◌==◌, if◌then◌else◌}
use chess_engine.Base.Int.{pos, negsuc}
use chess_engine.Types.{Piece, PieceType, Color, type_eq, color_eq, is_none, opposite_color}
use chess_engine.Types.{make_square, rank_of, file_of, no_square}
use chess_engine.Board.State.{Board}
use chess_engine.Board.Access.{find_king}
use chess_engine.MoveGen.Geometry.{
  Offset, shift, knight_targets, king_targets, rook_rays, bishop_rays,
}
use chess_engine.MoveGen.Geometry.{ray}

abbrev pub is_piece : PieceType → Color → Piece → Bool
is_piece t c p = type_eq p.type t && color_eq p.color c

unfoldable pub pawn_attacks : (ℕ → Piece) → ℕ → Color → Bool
pawn_attacks s sq attacker =
    elim (shift (rank_of sq) (if color_eq attacker Color.white then negsuc 0 else pos 1)) [
      | none ↦ false
      | some pawn_r ↦
          (ltb 0 (file_of sq)
            && is_piece PieceType.pawn attacker (s (make_square pawn_r (file_of sq - 1))))
          || (ltb (file_of sq) 7
              && is_piece PieceType.pawn attacker (s (make_square pawn_r (file_of sq + 1))))
    ]

-- A piece of the given type and colour on one of the squares.
unfoldable pub stands_on : (ℕ → Piece) → PieceType → Color → List ℕ → Bool
stands_on s t c [] = false
stands_on s t c (sq ∷ sqs) = is_piece t c (s sq) || stands_on s t c sqs

-- The first piece on a ray: a queen, or the slider of the ray's kind, of the attacker.
unfoldable pub ray_attacks : (ℕ → Piece) → Color → PieceType → List ℕ → Bool
ray_attacks s attacker slider [] = false
ray_attacks s attacker slider (sq ∷ sqs) =
    let rest = ray_attacks s attacker slider sqs in
    if not (is_none (s sq))
    then color_eq (s sq).color attacker
      && (type_eq (s sq).type PieceType.queen || type_eq (s sq).type slider)
    else rest

unfoldable pub any_ray : (ℕ → Piece) → Color → PieceType → ℕ → List Offset → Bool
any_ray s attacker slider sq [] = false
any_ray s attacker slider sq (d ∷ ds) =
    ray_attacks s attacker slider (ray sq d) || any_ray s attacker slider sq ds

unfoldable pub is_square_attacked : (ℕ → Piece) → ℕ → Color → Bool
unfolding pawn_attacks stands_on any_ray ray_attacks knight_targets king_targets ray
is_square_attacked s sq attacker =
    pawn_attacks s sq attacker
    || stands_on s PieceType.knight attacker (knight_targets sq)
    || stands_on s PieceType.king attacker (king_targets sq)
    || any_ray s attacker PieceType.rook sq rook_rays
    || any_ray s attacker PieceType.bishop sq bishop_rays

-- Without a king there is no check.
unfoldable pub is_in_check : Board → Color → Bool
unfolding is_square_attacked find_king
is_in_check b color =
    let king_sq = find_king b color in
    if king_sq == no_square
    then false
    else is_square_attacked b.squares king_sq (opposite_color color)
