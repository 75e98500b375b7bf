-- ===== src/Engine/MirrorPawns.antt =====
-- The pawns of a file in the evaluation (src/chess/evaluator.cpp) of a
-- position with its colours exchanged and its ranks in the opposite order.
use chess_engine.Base.{ℕ, ◌+◌, ◌-◌, ◌<◌, ◌≡◌, ◌≢◌, refl, arith, bit_xor, Bool}
use chess_engine.Base.{◌&&◌, not, ap, ap₂, ◌∙◌, sym, ◌==◌}
use chess_engine.Types.{Color, Piece, PieceType, pawn, white, black, type_eq, color_eq}
use chess_engine.Types.{make_square, rank_of, file_of, opposite_color}
use chess_engine.Engine.Evaluate.{is_pawn_of, is_blocked, is_passed, own_pawns_on_file, near_count}
use chess_engine.Engine.Evaluate.{has_pawn_on_file, any_from}
use chess_engine.Engine.ReversedLoops.{opposite_square, make_square-opposite, any_from-shift}
use chess_engine.Engine.ReversedLoops.{any_from-reversed, count_from-shift, count_from-mirror}
use chess_engine.Engine.Mirror.{exchanged, mirrored}

-- A colour's pieces are the other colour's where the colours are exchanged.
pub color_eq-exchanged :
    (c d : Color) (t : PieceType)
    → c ≢ Color.none
    → color_eq (exchanged (record { type = t; color = d })).color c ≡ color_eq d (opposite_color c)
color_eq-exchanged white white t h = refl
color_eq-exchanged white black t h = refl
color_eq-exchanged white Color.none t h = refl
color_eq-exchanged black white t h = refl
color_eq-exchanged black black t h = refl
color_eq-exchanged black Color.none t h = refl
color_eq-exchanged Color.none d t h = absurd (h refl)

pub is_pawn_of-exchanged :
    (c : Color) (p : Piece)
    → c ≢ Color.none
    → is_pawn_of c (exchanged p) ≡ is_pawn_of (opposite_color c) p
is_pawn_of-exchanged c p h =
    ap (λ b. type_eq p.type pawn && b) (color_eq-exchanged c p.color p.type h)

pub file_of-opposite : (sq : ℕ) → sq < 64 → file_of (bit_xor sq 56) ≡ file_of sq
file_of-opposite sq h = ap file_of (opposite_square sq h) ∙ omega arith

pub rank_of-opposite : (sq : ℕ) → sq < 64 → rank_of (bit_xor sq 56) ≡ 7 - rank_of sq
rank_of-opposite sq h = ap rank_of (opposite_square sq h) ∙ omega arith

module _ (squares : ℕ → Piece) where
  -- A square by rank and file.
  pub pawn_at-mirrored :
      (c : Color) (rank file : ℕ)
      → c ≢ Color.none
      → rank < 8
      → file < 8
      → is_pawn_of c (mirrored squares (make_square rank file))
        ≡ is_pawn_of (opposite_color c) (squares (make_square (7 - rank) file))
  pawn_at-mirrored c rank file h p q =
      let there = squares (bit_xor (make_square rank file) 56) in
      is_pawn_of-exchanged c there h
      ∙ ap (λ s. is_pawn_of (opposite_color c) (squares s)) (make_square-opposite rank file p q)

  pub has_pawn_on_file-mirrored :
      (c : Color) (file : ℕ)
      → c ≢ Color.none
      → file < 8
      → has_pawn_on_file (mirrored squares) c file
        ≡ has_pawn_on_file squares (opposite_color c) file
  unfolding has_pawn_on_file
  has_pawn_on_file-mirrored c file h q =
      any_from-reversed 8 0 0 (λ r. is_pawn_of c (mirrored squares (make_square r file)))
        (λ r. is_pawn_of (opposite_color c) (squares (make_square r file)))
        (λ i p.
          pawn_at-mirrored c (0 + i) file h (omega arith) q
          ∙ ap (λ r. is_pawn_of (opposite_color c) (squares (make_square r file))) (omega arith))

  is_blocked-mirrored :
      (c : Color) (rank file : ℕ)
      → c ≢ Color.none
      → rank < 8
      → file < 8
      → is_blocked (mirrored squares) c rank file
        ≡ is_blocked squares (opposite_color c) (7 - rank) file
  unfolding is_blocked
  is_blocked-mirrored white rank file h p q =
      any_from-reversed (7 - rank) (rank + 1) 0
        (λ r. is_pawn_of black (mirrored squares (make_square r file)))
        (λ r. is_pawn_of white (squares (make_square r file)))
        (λ i r.
          pawn_at-mirrored black (rank + 1 + i) file (ground arith) (omega arith) q
          ∙ ap (λ s. is_pawn_of white (squares (make_square s file))) (omega arith))
  is_blocked-mirrored black rank file h p q =
      let count : 7 - (7 - rank) ≡ rank = omega arith in
      any_from-reversed rank 0 (7 - rank + 1)
        (λ r. is_pawn_of white (mirrored squares (make_square r file)))
        (λ r. is_pawn_of black (squares (make_square r file)))
        (λ i r.
          pawn_at-mirrored white (0 + i) file (ground arith) (omega arith) q
          ∙ ap (λ s. is_pawn_of black (squares (make_square s file))) (omega arith))
      ∙ ap (λ n. any_from (7 - rank + 1) n (λ r. is_pawn_of black (squares (make_square r file))))
          (sym count)
  is_blocked-mirrored Color.none rank file h p q = absurd (h refl)

  pub is_passed-mirrored :
      (c : Color) (rank file : ℕ)
      → c ≢ Color.none
      → rank < 8
      → file < 8
      → is_passed (mirrored squares) c rank file
        ≡ is_passed squares (opposite_color c) (7 - rank) file
  unfolding is_passed
  is_passed-mirrored c rank file h p q = ap not (
      any_from-shift (near_count file) (file - 1) (file - 1) (is_blocked (mirrored squares) c rank)
        (is_blocked squares (opposite_color c) (7 - rank))
        (λ i r. is_blocked-mirrored c rank (file - 1 + i) h p (ground arith)))

  pub own_pawns_on_file-mirrored :
      (c : Color) (file : ℕ)
      → c ≢ Color.none
      → own_pawns_on_file (mirrored squares) c file
        ≡ own_pawns_on_file squares (opposite_color c) file
  unfolding own_pawns_on_file
  own_pawns_on_file-mirrored c file h =
      let test : ℕ → Bool =
        λ sq. is_pawn_of (opposite_color c) (squares sq) && (file_of sq == file) in
      count_from-shift 64 0 0 (λ sq. is_pawn_of c (mirrored squares sq) && (file_of sq == file))
        (λ sq. test (bit_xor sq 56))
        (λ i p.
          ap₂ (λ v (f : ℕ). v && (f == file))
            (is_pawn_of-exchanged c (squares (bit_xor (0 + i) 56)) h)
            (sym (file_of-opposite (0 + i) (omega arith))))
      ∙ count_from-mirror test
