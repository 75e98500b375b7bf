-- ===== src/MoveGen/Ahead.antt =====
-- The squares in front of and behind a pawn (src/chess/move_gen.cpp, src/chess/board.cpp).
use chess_engine.Base.{ℕ, ◌+◌, ◌/◌, ◌*◌, ◌<◌, ◌≡◌, ◌≢◌, ◌⊎◌}
use chess_engine.Base.{some, arith}
use chess_engine.Base.{if◌then◌else◌}
use chess_engine.Base.Int.{pos, negsuc}
use chess_engine.Types.{Color, color_eq}
use chess_engine.Types.{make_square, rank_of, file_of}
use chess_engine.Board.Moves.{behind}
use chess_engine.MoveGen.Geometry.{shift}

-- The rank in front of a pawn.
abbrev pub IsAhead : Color → ℕ → ℕ → Type 0
IsAhead Color.white sq fr = (fr ≡ sq / 8 + 1) × (fr < 8)
IsAhead _ sq fr = fr + 1 ≡ sq / 8

abbrev pub IsSide : Color → Type 0
IsSide c = (c ≡ Color.white) ⊎ (c ≡ Color.black)

pub shift-IsAhead :
    (c : Color) (sq fr : ℕ)
    → sq < 64
    → shift (rank_of sq) (if color_eq c Color.white then pos 1 else negsuc 0) ≡ some fr
    → IsAhead c sq fr × (fr < 8)
shift-IsAhead Color.white sq fr h e = ground arith
shift-IsAhead Color.black sq fr h e = ground arith
shift-IsAhead Color.none sq fr h e = ground arith

pub ahead_square :
    (c : Color) (sq fr f : ℕ)
    → sq < 64
    → IsAhead c sq fr
    → fr < 8
    → f < 8
    → (make_square fr f < 64) × (sq ≢ make_square fr f)
ahead_square Color.white sq fr f h a p q = omega arith
ahead_square Color.black sq fr f h a p q = omega arith
ahead_square Color.none sq fr f h a p q = omega arith

pub square_parts :
    (r f : ℕ) → r < 8 → f < 8 → (rank_of (make_square r f) ≡ r) × (file_of (make_square r f) ≡ f)
square_parts r f p q = omega arith

pub behind_value :
    (c : Color) (sq fr f : ℕ)
    → sq < 64
    → IsAhead c sq fr
    → fr < 8
    → f < 8
    → behind c (make_square fr f) ≡ sq / 8 * 8 + f
unfolding behind
behind_value Color.white sq fr f h a p q =
    let parts = square_parts fr f p q in rw (parts.0, parts.1) (omega arith)
behind_value Color.black sq fr f h a p q =
    let parts = square_parts fr f p q in rw (parts.0, parts.1) (omega arith)
behind_value Color.none sq fr f h a p q =
    let parts = square_parts fr f p q in rw (parts.0, parts.1) (omega arith)

-- Behind a square ahead, on another file: neither the pawn's square nor the square itself.
pub behind_ahead :
    (c : Color) (sq fr f : ℕ)
    → sq < 64
    → IsAhead c sq fr
    → fr < 8
    → f < 8
    → f ≢ file_of sq
    → (behind c (make_square fr f) < 64)
      × (behind c (make_square fr f) ≢ sq)
      × (behind c (make_square fr f) ≢ make_square fr f)
behind_ahead Color.white sq fr f h a p q ne =
    omega (arith, behind_value Color.white sq fr f h a p q)
behind_ahead Color.black sq fr f h a p q ne =
    omega (arith, behind_value Color.black sq fr f h a p q)
behind_ahead Color.none sq fr f h a p q ne = omega (arith, behind_value Color.none sq fr f h a p q)
