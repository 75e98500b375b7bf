-- ===== src/Engine/Order.antt =====
-- The order in which the search tries the moves (src/chess/engine.cpp).
use chess_engine.Base.{ℕ, zero, suc, ◌+◌, ◌*◌, ◌<◌, ◌≡◌, refl, arith, Bool, ◌&&◌, ◌||◌, not, ◌==◌}
use chess_engine.Base.{if◌then◌else◌, List, [], ◌∷◌, map}
use chess_engine.Base.Lists.{length, get_or, All}
use chess_engine.Base.Int.{ℤ, pos, ◌+ℤ◌, ◌-ℤ◌}
use chess_engine.Types.{Move, PieceType, type_index, type_eq, pawn, no_move, is_none}
use chess_engine.Types.{is_en_passant}
use chess_engine.Board.State.{Board}
use chess_engine.Board.Access.{piece_at}

-- By the index of a type, as `MVV_LVA_VICTIM` and `MVV_LVA_ATTACKER`.
abbrev pub mvv_lva_values : List ℕ
mvv_lva_values = 100 ∷ 320 ∷ 330 ∷ 500 ∷ 900 ∷ 20000 ∷ 0 ∷ []

unfoldable pub mvv_lva_score : PieceType → PieceType → ℤ
mvv_lva_score victim attacker =
    pos (get_or mvv_lva_values (type_index victim) 0 * 10)
    -ℤ pos (get_or mvv_lva_values (type_index attacker) 0)

abbrev pub is_given : Move → Bool
is_given m = not (m.from == m.to) || not (m.flags == 0)

abbrev pub same_target : Move → Move → Bool
same_target m n = m.from == n.from && m.to == n.to && type_eq m.promo_type n.promo_type

unfoldable pub move_score : Board → Move → Move → ℤ
unfolding mvv_lva_score is_en_passant
move_score b tt_move m =
    if is_given tt_move && same_target m tt_move
    then pos 30000
    else if not (is_none (piece_at b m.to))
    then pos 10000 +ℤ mvv_lva_score (piece_at b m.to).type (piece_at b m.from).type
    else if is_en_passant m
    then pos 10000 +ℤ mvv_lva_score pawn pawn
    else pos 0

-- Each move's score with its index.
unfoldable pub scores_from : Board → Move → ℕ → List Move → List (ℤ × ℕ)
unfolding move_score
scores_from b tt_move i [] = []
scores_from b tt_move i (m ∷ ms) = (move_score b tt_move m, i) ∷ scores_from b tt_move (i + 1) ms

-- `std::sort` of the scores, the greatest first: of equal ones any order is possible.
unfoldable pub order_moves : (List (ℤ × ℕ) → List (ℤ × ℕ)) → List Move → Board → Move → List Move
unfolding scores_from
order_moves sort moves b tt_move =
    map (λ e. get_or moves e.1 no_move) (sort (scores_from b tt_move 0 moves))

-- What `std::sort` promises of the elements, of whatever order: none is lost, and none is new.
pub record Rearranges (sort : List (ℤ × ℕ) → List (ℤ × ℕ)) : Type 1 where
  pub keeps : (P : ℤ × ℕ → Type 0) (xs : List (ℤ × ℕ)) → All P xs → All P (sort xs)
  pub counts : (xs : List (ℤ × ℕ)) → length (sort xs) ≡ length xs

length-scores_from :
    (b : Board) (t : Move) (i : ℕ) (ms : List Move) → length (scores_from b t i ms) ≡ length ms
unfolding scores_from
length-scores_from b t i [] = refl
length-scores_from b t i (m ∷ ms) = ground (arith, length-scores_from b t (i + 1) ms)

scores_from-All :
    (b : Board) (t : Move) (i n : ℕ) (ms : List Move)
    → i + length ms ≡ n
    → All (λ e. e.1 < n) (scores_from b t i ms)
unfolding scores_from
scores_from-All b t i n [] h = tt
scores_from-All b t i n (m ∷ ms) h = (omega arith, scores_from-All b t (i + 1) n ms (omega arith))

get_or-inside :
    (P : Move → Type 0) (ms : List Move) (i : ℕ)
    → All P ms
    → i < length ms
    → P (get_or ms i no_move)
get_or-inside P [] i h lt = absurd (omega arith)
get_or-inside P (m ∷ ms) zero h lt = h.0
get_or-inside P (m ∷ ms) (suc i) h lt = get_or-inside P ms i h.1 (omega arith)

map-All :
    (P : Move → Type 0) (ms : List Move) (es : List (ℤ × ℕ))
    → All P ms
    → All (λ e. e.1 < length ms) es
    → All P (map (λ e. get_or ms e.1 no_move) es)
map-All P ms [] h inside = tt
map-All P ms (e ∷ es) h inside = (get_or-inside P ms e.1 h inside.0, map-All P ms es h inside.1)

length-map :
    (ms : List Move) (es : List (ℤ × ℕ)) → length (map (λ e. get_or ms e.1 no_move) es) ≡ length es
length-map ms [] = refl
length-map ms (e ∷ es) = ground (arith, length-map ms es)

module _ (sort : List (ℤ × ℕ) → List (ℤ × ℕ)) (sorts : Rearranges sort) where
  pub order_moves-All :
      (P : Move → Type 0) (moves : List Move) (b : Board) (t : Move)
      → All P moves
      → All P (order_moves sort moves b t)
  unfolding order_moves
  order_moves-All P moves b t h =
      let scores = scores_from b t 0 moves in
      let inside = scores_from-All b t 0 (length moves) moves (omega arith) in
      map-All P moves (sort scores) h (sorts.keeps (λ e. e.1 < length moves) scores inside)

  pub length-order_moves :
      (moves : List Move) (b : Board) (t : Move)
      → length (order_moves sort moves b t) ≡ length moves
  unfolding order_moves
  length-order_moves moves b t =
      let scores = scores_from b t 0 moves in
      ground
        (arith, length-map moves (sort scores), sorts.counts scores, length-scores_from b t 0 moves)
