-- ===== src/Board/RoundTrip.antt =====
-- Reading back what the board writes: pieces, squares and moves (src/chess/board.cpp).
use chess_engine.Base.{
  ◌++◌, some, false, if◌then◌else◌, Bool-cases, ℕ, ◌+◌, ◌<◌, ◌≡◌, refl, ◌≢◌, ◌⊎◌, inl, inr, arith,
  List, [], ◌∷◌,
}
use chess_engine.Types.{
  Piece, PieceType, Color, no_piece, Move, is_promotion, promotion_flag, plain_move, knight, bishop,
  rook, queen, file_of, rank_of,
}
use chess_engine.Board.Hash.{IsReal}
use chess_engine.Board.Text.{
  to_char, from_char, square_to_algebraic, algebraic_to_square, to_uci, from_uci, squares_of_uci,
  square_text, promotion_text,
}

read_back :
    (t : PieceType) (c : Color)
    → t ≢ PieceType.none
    → c ≢ Color.none
    → from_char (to_char (record { type = t; color = c })) ≡ record { type = t; color = c }
unfolding from_char to_char
read_back t Color.none ht hc = absurd (hc refl)
read_back PieceType.none c ht hc = absurd (ht refl)
read_back PieceType.pawn Color.white ht hc = refl
read_back PieceType.pawn Color.black ht hc = refl
read_back PieceType.knight Color.white ht hc = refl
read_back PieceType.knight Color.black ht hc = refl
read_back PieceType.bishop Color.white ht hc = refl
read_back PieceType.bishop Color.black ht hc = refl
read_back PieceType.rook Color.white ht hc = refl
read_back PieceType.rook Color.black ht hc = refl
read_back PieceType.queen Color.white ht hc = refl
read_back PieceType.queen Color.black ht hc = refl
read_back PieceType.king Color.white ht hc = refl
read_back PieceType.king Color.black ht hc = refl

-- A piece of White or Black is read back from its character, and no piece from a dot.
pub from_char-to_char : (p : Piece) → (p ≡ no_piece) ⊎ IsReal p → from_char (to_char p) ≡ p
unfolding from_char to_char
from_char-to_char p (inl e) = rw e refl
from_char-to_char p (inr (a, b)) =
    read_back p.type p.color (λ e. ground (arith, e)) (λ e. ground (arith, e))

-- A square of the board is read back from its algebraic name.
pub algebraic_to_square-square_to_algebraic :
    (sq : ℕ) → sq < 64 → algebraic_to_square (square_to_algebraic sq) ≡ sq
unfolding algebraic_to_square square_to_algebraic
algebraic_to_square-square_to_algebraic sq h = ground arith

-- No other text than its algebraic name is read as a square of the board.
pub square_to_algebraic-algebraic_to_square :
    (text : List ℕ)
    → algebraic_to_square text < 64
    → square_to_algebraic (algebraic_to_square text) ≡ text
unfolding algebraic_to_square square_to_algebraic
square_to_algebraic-algebraic_to_square [] h = absurd (omega arith)
square_to_algebraic-algebraic_to_square (f ∷ []) h = absurd (omega arith)
square_to_algebraic-algebraic_to_square (f ∷ r ∷ []) h = ground arith
square_to_algebraic-algebraic_to_square (f ∷ r ∷ c ∷ cs) h = absurd (omega arith)

-- A promotion piece that UCI has a letter for.
abbrev pub IsPromotionType : PieceType → Type 0
IsPromotionType t = (t ≡ queen) ⊎ ((t ≡ rook) ⊎ ((t ≡ bishop) ⊎ (t ≡ knight)))

squares_read :
    (f t : ℕ)
    → f < 64
    → t < 64
    → squares_of_uci (97 + file_of f) (49 + rank_of f) (97 + file_of t) (49 + rank_of t)
      ≡ some (f, t)
squares_read f t hf ht = ground arith

-- What UCI text says of a move: its squares and its promotion, no other flag.
abbrev pub uci_part : Move → Move
uci_part m =
    if is_promotion m
    then record { from = m.from; to = m.to; flags = promotion_flag; promo_type = m.promo_type }
    else plain_move m.from m.to 0

promotion_read :
    (f t : ℕ) (p : PieceType)
    → f < 64
    → t < 64
    → IsPromotionType p
    → from_uci (square_text f ++ (square_text t ++ promotion_text p))
      ≡ record { from = f; to = t; flags = promotion_flag; promo_type = p }
unfolding from_uci
promotion_read f t p hf ht (inl q) = rw (q, from_uci, squares_read f t hf ht) refl
promotion_read f t p hf ht (inr (inl q)) = rw (q, from_uci, squares_read f t hf ht) refl
promotion_read f t p hf ht (inr (inr (inl q))) = rw (q, from_uci, squares_read f t hf ht) refl
promotion_read f t p hf ht (inr (inr (inr q))) = rw (q, from_uci, squares_read f t hf ht) refl

-- A move between squares of the board, with a promotion to a queen, a rook, a bishop or a knight
-- or with none, is read back from its UCI text up to the other flags.
pub from_uci-to_uci :
    (m : Move)
    → m.from < 64
    → m.to < 64
    → (is_promotion m ≡ false) ⊎ IsPromotionType m.promo_type
    → from_uci (to_uci m) ≡ uci_part m
unfolding from_uci to_uci
from_uci-to_uci m hf ht (inl e) = rw (e, from_uci, squares_read m.from m.to hf ht) refl
from_uci-to_uci m hf ht (inr p) = elim (Bool-cases (is_promotion m)) [
  | inl e ↦ rw e (promotion_read m.from m.to m.promo_type hf ht p)
  | inr e ↦ rw (e, from_uci, squares_read m.from m.to hf ht) refl
]
