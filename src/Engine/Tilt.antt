-- ===== src/Engine/Tilt.antt =====
-- How the piece-square tables of src/chess/evaluator.cpp treat the two colours and the ranks.
use chess_engine.Base.{ℕ, ◌+◌, ◌<◌, ◌≡◌, refl, arith, bit_xor, true, Bool}
use chess_engine.Base.Range.{passes, passes_each}
use chess_engine.Base.Int.{ltb_ℤ, eqb_ℤ, eqb_ℤ-eq}
use chess_engine.Types.{PieceType, pawn, knight, bishop, rook, queen, king, white, black}
use chess_engine.Engine.Tables.{pst_bonus}

abbrev mirrors : PieceType → ℕ → Bool
mirrors t sq = eqb_ℤ (pst_bonus t black (bit_xor sq 56)) (pst_bonus t white sq)

mirrors_all : (t : PieceType) → passes 64 0 (mirrors t) ≡ true
unfolding passes pst_bonus
mirrors_all pawn = refl
mirrors_all knight = refl
mirrors_all bishop = refl
mirrors_all rook = refl
mirrors_all queen = refl
mirrors_all king = refl
mirrors_all PieceType.none = refl

-- A black piece has the bonus that a white one has on the square that lies opposite.
pub pst_bonus-mirror :
    (t : PieceType) (sq : ℕ) → sq < 64 → pst_bonus t black (bit_xor sq 56) ≡ pst_bonus t white sq
pst_bonus-mirror t sq h =
    eqb_ℤ-eq (pst_bonus t black (bit_xor sq 56)) (pst_bonus t white sq)
      (passes_each 64 0 sq (mirrors t) (mirrors_all t) (omega arith) (omega arith))

-- On every file a white pawn has a greater bonus on its second rank, where it starts, than on the
-- seventh, and a white king a greater one on the eighth rank than on the first.
pub pst_bonus-ranks :
    (file : ℕ)
    → file < 8
    → (ltb_ℤ (pst_bonus pawn white (48 + file)) (pst_bonus pawn white (8 + file)) ≡ true)
      × (ltb_ℤ (pst_bonus king white file) (pst_bonus king white (56 + file)) ≡ true)
unfolding passes pst_bonus
pst_bonus-ranks file h = (
  passes_each 8 0 file (λ f. ltb_ℤ (pst_bonus pawn white (48 + f)) (pst_bonus pawn white (8 + f)))
      refl (omega arith) (omega arith),
  passes_each 8 0 file (λ f. ltb_ℤ (pst_bonus king white f) (pst_bonus king white (56 + f))) refl
      (omega arith) (omega arith),
)
