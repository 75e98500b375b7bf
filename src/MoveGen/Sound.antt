-- ===== src/MoveGen/Sound.antt =====
-- Every pseudo-legal move of a valid board is one that `make_move` and `undo_move` handle
-- (src/chess/move_gen.cpp).
use chess_engine.Base.{ℕ, zero, suc, ◌+◌, ◌<◌, ◌≤◌, ◌≡◌, inl, inr, true, false}
use chess_engine.Base.{List, [], ◌∷◌, ap, arith, Bool-cases, not, if◌then◌else◌}
use chess_engine.Base.{Bool, ◌||◌}
use chess_engine.Base.Lists.{All, All-append}
use chess_engine.Types.{Piece, PieceType, Color, Move, is_none, color_eq}
use chess_engine.Board.State.{Board}
use chess_engine.Board.Hash.{IsReal}
use chess_engine.MoveGen.Geometry.{Offset, ray, rook_rays, bishop_rays}
use chess_engine.MoveGen.Rays.{
  AreOthers, AreShortRays, knight_targets-AreOthers, king_targets-AreOthers,
}
use chess_engine.MoveGen.Rays.{rook_rays-AreShortRays, bishop_rays-AreShortRays}
use chess_engine.MoveGen.Geometry.{knight_targets, king_targets}
use chess_engine.MoveGen.Generate.{table_moves, slide, ray_moves, generate_ray_moves}
use chess_engine.MoveGen.Generate.{castle_moves, generate_king_moves, piece_moves, moves_from}
use chess_engine.MoveGen.Generate.{generate_pseudo_legal_moves}
use chess_engine.MoveGen.Valid.{IsValid, IsSound, piece, plain-IsSound}
use chess_engine.MoveGen.Pawns.{generate_pawn_moves-AreSound}
use chess_engine.MoveGen.Castling.{castle_moves-AreSound}

module _ (b : Board) (v : IsValid b) (sq : ℕ) (inside : sq < 64)
    (real : IsReal (b.squares sq)) where
  abbrev AreSound : List Move → Type 0
  AreSound = All (IsSound b)

  table_moves-AreSound :
      (color : Color) (ts : List ℕ) → AreOthers sq ts → AreSound (table_moves b.squares sq color ts)
  unfolding table_moves
  table_moves-AreSound color [] h = tt
  table_moves-AreSound color (t ∷ ts) h =
      elim (Bool-cases (is_none (b.squares t) || not (color_eq (b.squares t).color color))) [
        | inl e ↦
            rw e (plain-IsSound b v sq inside real t h.0.0 h.0.1, table_moves-AreSound color ts h.1)
        | inr e ↦ rw e (table_moves-AreSound color ts h.1)
      ]

  slide-AreSound :
      (color : Color) (ts : List ℕ) → AreOthers sq ts → AreSound (slide b.squares sq color ts)
  unfolding slide
  slide-AreSound color [] h = tt
  slide-AreSound color (t ∷ ts) h = elim (Bool-cases (is_none (b.squares t))) [
    | inl e ↦ rw e (plain-IsSound b v sq inside real t h.0.0 h.0.1, slide-AreSound color ts h.1)
    | inr e ↦ rw e (elim (Bool-cases (color_eq (b.squares t).color color)) [
      | inl f ↦ rw f tt
      | inr f ↦ rw f (plain-IsSound b v sq inside real t h.0.0 h.0.1, tt)
    ])
  ]

  ray_moves-AreSound :
      (color : Color) (ds : List Offset)
      → AreShortRays sq ds
      → AreSound (ray_moves b.squares sq color ds)
  unfolding ray_moves
  ray_moves-AreSound color [] h = tt
  ray_moves-AreSound color (d ∷ ds) h =
      All-append (IsSound b) (slide b.squares sq color (ray sq d)) (ray_moves b.squares sq color ds)
        (slide-AreSound color (ray sq d) h.0.0) (ray_moves-AreSound color ds h.1)

  generate_ray_moves-AreSound :
      (color : Color) (orthogonal diagonal : Bool)
      → AreSound (generate_ray_moves b.squares sq color orthogonal diagonal)
  unfolding generate_ray_moves
  generate_ray_moves-AreSound color orthogonal diagonal =
      All-append (IsSound b) (if orthogonal then ray_moves b.squares sq color rook_rays else [])
        (if diagonal then ray_moves b.squares sq color bishop_rays else [])
        (chosen orthogonal rook_rays (rook_rays-AreShortRays sq inside))
        (chosen diagonal bishop_rays (bishop_rays-AreShortRays sq inside))
    where
      chosen :
          (c : Bool) (ds : List Offset)
          → AreShortRays sq ds
          → AreSound (if c then ray_moves b.squares sq color ds else [])
      chosen true ds h = ray_moves-AreSound color ds h
      chosen false ds h = tt

  piece_moves-AreSound :
      (t : PieceType)
      → b.squares sq ≡ piece t b.side_to_move
      → AreSound (piece_moves b sq b.side_to_move t)
  unfolding piece_moves generate_king_moves
  piece_moves-AreSound PieceType.pawn e = generate_pawn_moves-AreSound b v sq inside real e
  piece_moves-AreSound PieceType.knight e =
      table_moves-AreSound b.side_to_move (knight_targets sq) (knight_targets-AreOthers sq inside)
  piece_moves-AreSound PieceType.bishop e = generate_ray_moves-AreSound b.side_to_move false true
  piece_moves-AreSound PieceType.rook e = generate_ray_moves-AreSound b.side_to_move true false
  piece_moves-AreSound PieceType.queen e = generate_ray_moves-AreSound b.side_to_move true true
  piece_moves-AreSound PieceType.king e =
      All-append (IsSound b) (table_moves b.squares sq b.side_to_move (king_targets sq))
        (castle_moves b b.side_to_move)
        (table_moves-AreSound b.side_to_move (king_targets sq) (king_targets-AreOthers sq inside))
        (castle_moves-AreSound b v)
  piece_moves-AreSound PieceType.none e = tt

module _ (b : Board) (v : IsValid b) where
  own_color : (c : Color) → color_eq c b.side_to_move ≡ true → c ≡ b.side_to_move
  own_color c e = ground arith

  own-IsReal : (p : Piece) → is_none p ≡ false → color_eq p.color b.side_to_move ≡ true → IsReal p
  own-IsReal p e f = ground (arith, v.side)

  own_piece :
      (sq : ℕ)
      → sq < 64
      → is_none (b.squares sq) ≡ false
      → color_eq (b.squares sq).color b.side_to_move ≡ true
      → All (IsSound b) (piece_moves b sq b.side_to_move (b.squares sq).type)
  own_piece sq h e f =
      piece_moves-AreSound b v sq h (own-IsReal (b.squares sq) e f) (b.squares sq).type
        (ap (piece (b.squares sq).type) (own_color (b.squares sq).color f))

  moves_from-AreSound : (sq n : ℕ) → sq + n ≤ 64 → All (IsSound b) (moves_from b sq n)
  unfolding moves_from
  moves_from-AreSound sq zero h = tt
  moves_from-AreSound sq (suc n) h =
      All-append (IsSound b)
        (if is_none (b.squares sq) || not (color_eq (b.squares sq).color b.side_to_move)
          then []
          else piece_moves b sq b.side_to_move (b.squares sq).type)
        (moves_from b (sq + 1) n) own (moves_from-AreSound (sq + 1) n (omega arith))
    where
      own : All (IsSound b) (
          if is_none (b.squares sq) || not (color_eq (b.squares sq).color b.side_to_move)
          then []
          else piece_moves b sq b.side_to_move (b.squares sq).type)
      own =
          elim (Bool-cases
            (is_none (b.squares sq) || not (color_eq (b.squares sq).color b.side_to_move))) [
              | inl e ↦ rw e tt
              | inr e ↦ rw e (own_piece sq (omega arith) (ground arith) (ground arith))
            ]

  -- On a valid board every generated move can be undone, and finds all its hash keys.
  pub generate_pseudo_legal_moves-IsSound : All (IsSound b) (generate_pseudo_legal_moves b)
  unfolding generate_pseudo_legal_moves
  generate_pseudo_legal_moves-IsSound = moves_from-AreSound 0 64 (omega arith)
