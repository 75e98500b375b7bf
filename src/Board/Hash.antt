-- ===== src/Board/Hash.antt =====
-- The incremental hash update of `make_move` (src/chess/board.cpp) against `compute_hash`
-- (src/chess/zobrist.cpp).
use chess_engine.Base.{ℕ, ◌<◌, ◌≡◌, refl, sym, ◌∙◌, ap, ap₂, ◌≢◌, ◌⊎◌, true, false, arith}
use chess_engine.Base.{bit_xor}
use chess_engine.Base.Bits.{xor_laws}
use chess_engine.Base.Arrays.{update, update_at, update_other, xor_below_change}
use chess_engine.Types.{Piece, PieceType, Color, Move, no_piece, is_none, color_eq, type_eq}
use chess_engine.Types.{is_promotion, is_en_passant, is_kingside_castle, is_queenside_castle}
use chess_engine.Types.{is_double_pawn_push}
use chess_engine.Board.Zobrist.{ZobristKeys, piece_key, squares_key}
use chess_engine.Board.Moves.{carry, behind, kingside_rook, queenside_rook}
use chess_engine.Board.Moves.{raw_key, rook_of}
use chess_engine.Board.Undo.{}

-- A piece that has a type and a colour, so that it has a key.
abbrev pub IsReal : Piece → Type 0
IsReal p = (is_none p ≡ false) × (color_eq p.color Color.none ≡ false)

module _ (k : ZobristKeys) where
  abbrev pk : Piece → ℕ → ℕ
  pk = piece_key k

  pub piece_key-raw : (p : Piece) (sq : ℕ) → IsReal p → raw_key k p sq ≡ piece_key k p sq
  unfolding piece_key
  piece_key-raw p sq h = ground arith

  pub piece_key-none : (p : Piece) (sq : ℕ) → is_none p ≡ true → piece_key k p sq ≡ 0
  unfolding piece_key
  piece_key-none p sq h = ground arith

  -- One square changes: its old piece goes out of the hash and the new one comes in.
  pub squares_key-update :
      (s : ℕ → Piece) (i : ℕ) (v : Piece)
      → i < 64
      → squares_key k (update s i v)
        ≡ bit_xor (squares_key k s) (bit_xor (piece_key k (s i) i) (piece_key k v i))
  unfolding squares_key
  squares_key-update s i v h =
      xor_below_change 64 (λ sq. pk (s sq) sq) (λ sq. pk (update s i v sq) sq) i h
        (λ j ne. ap (λ p. pk p j) (sym (update_other s i j v ne)))
      ∙ ap (λ (p : Piece). bit_xor (squares_key k s) (bit_xor (pk (s i) i) (pk p i)))
          (update_at s i v)

  pub squares_key-carry :
      (s : ℕ → Piece) (a b : ℕ)
      → a < 64
      → b < 64
      → a ≢ b
      → s b ≡ no_piece
      → squares_key k (carry s a b)
        ≡ bit_xor (squares_key k s) (bit_xor (piece_key k (s a) a) (piece_key k (s a) b))
  squares_key-carry s a b ha hb ne e =
      squares_key-update (update s b (s a)) a no_piece ha
      ∙ ap₂ bit_xor
          (squares_key-update s b (s a) hb
            ∙ ap (λ (t : ℕ). bit_xor (squares_key k s) (bit_xor t (pk (s a) b)))
                (ap (λ (p : Piece). pk p b) e ∙ piece_key-none no_piece b refl))
          (ap₂ bit_xor (ap (λ (p : Piece). pk p a) (update_other s b a (s a) (λ d. ne (sym d))))
            (piece_key-none no_piece a refl))
      ∙ simp xor_laws

-- What the update relies on besides `IsReversible`: every key that is looked up exists.
pub record IsHashable (s : ℕ → Piece) (side : Color) (m : Move) : Type 0 where
  pub in_range : (m.from < 64) × (m.to < 64)
  pub mover : IsReal (s m.from)
  pub target : (s m.to ≡ no_piece) ⊎ IsReal (s m.to)
  pub promoted : is_promotion m ≡ true → type_eq m.promo_type PieceType.none ≡ false
  pub passing : is_en_passant m ≡ true → (behind side m.to < 64) × IsReal (s (behind side m.to))
  pub kingside : is_kingside_castle m ≡ true → s (kingside_rook m.from) ≡ rook_of (s m.from)
  pub queenside : is_queenside_castle m ≡ true → s (queenside_rook m.from) ≡ rook_of (s m.from)
  pub pushed : is_double_pawn_push m ≡ true → behind (s m.from).color m.to < 64
