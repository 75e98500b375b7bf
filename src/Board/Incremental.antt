-- ===== src/Board/Incremental.antt =====
-- The key that `make_move` (src/chess/board.cpp) keeps up to date is the one that `compute_hash`
-- (src/chess/zobrist.cpp) computes from scratch.
use chess_engine.Base.{ℕ, ◌<◌, ◌≤◌, ◌≡◌, refl, sym, ◌∙◌, ap, ◌⊎◌, inl, inr, true, false, not, arith}
use chess_engine.Base.{◌==◌, if◌then◌else◌, Bool-cases, bit_xor, bit_and}
use chess_engine.Base.Bits.{xor_laws, bit_xor-zero}
use chess_engine.Types.{Color, Move, no_square, file_of, opposite_color}
use chess_engine.Types.{is_double_pawn_push, all_rights}
use chess_engine.Board.State.{Board}
use chess_engine.Board.Zobrist.{ZobristKeys, squares_key, side_key, castling_key, en_passant_key}
use chess_engine.Board.Zobrist.{compute_hash}
use chess_engine.Board.Moves.{key_after_en_passant, next_en_passant, moved_key, moved_board}
use chess_engine.Board.Moves.{make_move, behind, moved_squares, update_castling_rights}
use chess_engine.Board.Undo.{IsReversible}
use chess_engine.Board.Hash.{IsHashable}
use chess_engine.Board.HashSteps.{squares_part}

-- Each part of a hash but the side's is exchanged for a new one, and the side's is turned by `t`.
exchange :
    (h s c e h' c' e' t : ℕ)
    → bit_xor
        (bit_xor
          (bit_xor (bit_xor (bit_xor (bit_xor (bit_xor h s) c) e) (bit_xor h h')) (bit_xor e e'))
          (bit_xor c c'))
        t
      ≡ bit_xor (bit_xor (bit_xor h' (bit_xor s t)) c') e'
exchange h s c e h' c' e' t = simp xor_laws

module _ (k : ZobristKeys) where
  side_part :
      (c : Color)
      → (c ≡ Color.white) ⊎ (c ≡ Color.black)
      → side_key k (opposite_color c) ≡ bit_xor (side_key k c) k.side_to_move
  unfolding side_key
  side_part Color.white h = simp xor_laws
  side_part Color.black h = simp xor_laws
  side_part Color.none h = absurd (ground arith)

  en_passant_key-valid :
      (ep : ℕ)
      → ep ≤ 64
      → en_passant_key k ep ≡ (if not (ep == no_square) then k.en_passant (file_of ep) else 0)
  unfolding en_passant_key
  en_passant_key-valid ep h = ground arith

  old_part :
      (ep x : ℕ)
      → ep ≤ 64
      → (if not (ep == no_square) then bit_xor x (k.en_passant (file_of ep)) else x)
        ≡ bit_xor x (en_passant_key k ep)
  old_part ep x h = ground (arith, en_passant_key-valid ep h, bit_xor-zero x)

  en_passant_key-inside : (ep : ℕ) → ep < 64 → en_passant_key k ep ≡ k.en_passant (file_of ep)
  en_passant_key-inside ep h = ground (arith, en_passant_key-valid ep)

  en_passant_key-none : en_passant_key k no_square ≡ 0
  unfolding en_passant_key
  en_passant_key-none = refl

  module _ (b : Board) (m : Move) where
    pushed_to :
        is_double_pawn_push m ≡ true
        → next_en_passant b.squares m ≡ behind (b.squares m.from).color m.to
    unfolding next_en_passant
    pushed_to e = rw e

    not_pushed : is_double_pawn_push m ≡ false → next_en_passant b.squares m ≡ no_square
    unfolding next_en_passant
    not_pushed e = rw e

    en_passant_part :
        (x : ℕ)
        → b.en_passant_sq ≤ 64
        → (is_double_pawn_push m ≡ true → behind (b.squares m.from).color m.to < 64)
        → key_after_en_passant k b m x
          ≡ bit_xor x (
              bit_xor
                (en_passant_key k b.en_passant_sq)
                (en_passant_key k (next_en_passant b.squares m)))
    unfolding key_after_en_passant
    en_passant_part x old new = elim (Bool-cases (is_double_pawn_push m)) [
      | inl e ↦
          rw (e, old_part b.en_passant_sq x old, pushed_to e, en_passant_key-inside _ (new e))
            (simp xor_laws)
      | inr e ↦
          rw (e, old_part b.en_passant_sq x old, not_pushed e, en_passant_key-none) (simp xor_laws)
    ]

    castling_raw : (rights : ℕ) → k.castling (bit_and rights all_rights) ≡ castling_key k rights
    unfolding castling_key
    castling_raw rights = refl

    moved_hash :
        compute_hash k (make_move k b m).0
        ≡ bit_xor
            (bit_xor
              (bit_xor
                (squares_key k (moved_squares b.squares m))
                (side_key k (opposite_color b.side_to_move)))
              (castling_key k (update_castling_rights b.castling_rights m.from m.to)))
            (en_passant_key k (next_en_passant b.squares m))
    unfolding compute_hash make_move moved_board
    moved_hash = refl

    old_hash :
        compute_hash k b
        ≡ bit_xor
            (bit_xor
              (bit_xor (squares_key k b.squares) (side_key k b.side_to_move))
              (castling_key k b.castling_rights))
            (en_passant_key k b.en_passant_sq)
    unfolding compute_hash
    old_hash = refl

    -- If the key is the board's hash, it still is after a reversible move of White or Black that
    -- finds all its keys, on a board whose en passant square is a square or `NO_SQUARE`.
    pub make_move-compute_hash :
        (b.side_to_move ≡ Color.white) ⊎ (b.side_to_move ≡ Color.black)
        → b.en_passant_sq ≤ 64
        → IsReversible b.squares b.side_to_move m
        → IsHashable b.squares b.side_to_move m
        → b.zobrist_key ≡ compute_hash k b
        → (make_move k b m).0.zobrist_key ≡ compute_hash k (make_move k b m).0
    unfolding make_move moved_board moved_key
    make_move-compute_hash side ep ok hash e =
        rw
          (
            squares_part k b.squares b.side_to_move m ok hash b.zobrist_key,
            en_passant_part _ ep hash.pushed,
            castling_raw b.castling_rights,
            castling_raw (update_castling_rights b.castling_rights m.from m.to),
            e,
            old_hash,
          )
          (exchange _ _ _ _ _ _ _ _)
        ∙ sym (
            ap
              (λ (t : ℕ).
                bit_xor
                  (bit_xor (bit_xor (squares_key k (moved_squares b.squares m)) t)
                    (castling_key k (update_castling_rights b.castling_rights m.from m.to)))
                  (en_passant_key k (next_en_passant b.squares m)))
              (side_part b.side_to_move side))
        ∙ sym moved_hash
