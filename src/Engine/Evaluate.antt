-- ===== src/Engine/Evaluate.antt =====
-- The static evaluation (src/chess/evaluator.cpp).
use chess_engine.Base.{
  ℕ, zero, suc, ◌+◌, ◌-◌, ◌*◌, min, Bool, true, false, ◌&&◌, ◌||◌, not, leb, ltb,
}
use chess_engine.Base.{if◌then◌else◌, List, [], ◌∷◌, ◌==◌}
use chess_engine.Base.Lists.{length, get_or}
use chess_engine.Base.Int.{ℤ, pos, negsuc, ◌+ℤ◌, ◌-ℤ◌, ◌*ℤ◌}
use chess_engine.Types.{Color, Piece, pawn, bishop, type_eq, color_eq, is_none, make_square}
use chess_engine.Types.{rank_of, file_of, num_squares, no_square, opposite_color}
use chess_engine.Board.State.{Board}
use chess_engine.Board.Zobrist.{ZobristKeys}
use chess_engine.Board.Access.{find_king, set_side_to_move}
use chess_engine.MoveGen.Generate.{generate_pseudo_legal_moves}
use chess_engine.Engine.Tables.{piece_value, pst_bonus}

-- The loops from `start`, for `n` rounds: a sum, a count, and a search that breaks.
unfoldable pub sum_from : ℕ → ℕ → (ℕ → ℤ) → ℤ
sum_from start zero f = pos 0
sum_from start (suc n) f = f start +ℤ sum_from (start + 1) n f

unfoldable pub count_from : ℕ → ℕ → (ℕ → Bool) → ℕ
count_from start zero test = 0
count_from start (suc n) test =
    let rest = count_from (start + 1) n test in if test start then 1 + rest else rest

unfoldable pub any_from : ℕ → ℕ → (ℕ → Bool) → Bool
any_from start zero test = false
any_from start (suc n) test = test start || any_from (start + 1) n test

abbrev pub is_white : Piece → Bool
is_white p = color_eq p.color Color.white

abbrev pub is_pawn_of : Color → Piece → Bool
is_pawn_of c p = type_eq p.type pawn && color_eq p.color c

-- The first pass, for one side: what is not White's counts for Black.
abbrev pub counts_for : Bool → Piece → Bool
counts_for true p = is_white p
counts_for false p = not (is_white p)

unfoldable pub side_sum : Bool → (Piece → ℕ → ℤ) → (ℕ → Piece) → ℤ
unfolding sum_from
side_sum for_white value squares = sum_from 0 num_squares (λ sq.
    if not (is_none (squares sq)) && counts_for for_white (squares sq)
    then value (squares sq) sq
    else pos 0)

abbrev pub material_of : Piece → ℕ → ℤ
material_of p sq = pos (piece_value p.type)

abbrev pub pst_of : Piece → ℕ → ℤ
pst_of p sq = pst_bonus p.type p.color sq

-- The rank in front of the king, if the king stands at home; for Black it is 5 at the least.
abbrev pub shield_rank : Color → ℕ → ℕ
shield_rank Color.white rank = rank + 1
shield_rank _ rank = rank - 1

abbrev pub king_is_home : Color → ℕ → Bool
king_is_home Color.white rank = leb rank 1
king_is_home _ rank = leb 6 rank

-- The files from `max(0, file - 1)` to `min(7, file + 1)`.
abbrev pub near_count : ℕ → ℕ
near_count file = min 7 (file + 1) + 1 - (file - 1)

unfoldable pub shield_pawns : (ℕ → Piece) → Color → ℕ → ℕ → ℕ
unfolding count_from
shield_pawns squares c rank file =
    if king_is_home c rank && leb (shield_rank c rank) 7
    then count_from (file - 1) (near_count file)
        (λ f. is_pawn_of c (squares (make_square (shield_rank c rank) f)))
    else 0

unfoldable pub has_pawn_on_file : (ℕ → Piece) → Color → ℕ → Bool
unfolding any_from
has_pawn_on_file squares c file = any_from 0 8 (λ r. is_pawn_of c (squares (make_square r file)))

unfoldable pub evaluate_king_safety : (ℕ → Piece) → Color → ℕ → ℤ
unfolding shield_pawns has_pawn_on_file
evaluate_king_safety squares c king_sq =
    pos (10 * shield_pawns squares c (rank_of king_sq) (file_of king_sq))
    +ℤ (if has_pawn_on_file squares c (file_of king_sq) then pos 0 else negsuc 24)

-- `own_pawns_on_file[file]`.
unfoldable pub own_pawns_on_file : (ℕ → Piece) → Color → ℕ → ℕ
unfolding count_from
own_pawns_on_file squares c file =
    count_from 0 num_squares (λ sq. is_pawn_of c (squares sq) && (file_of sq == file))

-- An enemy pawn on the file ahead of the rank.
unfoldable pub is_blocked : (ℕ → Piece) → Color → ℕ → ℕ → Bool
unfolding any_from
is_blocked squares Color.white rank file =
    any_from (rank + 1) (7 - rank) (λ r. is_pawn_of Color.black (squares (make_square r file)))
is_blocked squares c rank file =
    any_from 0 rank (λ r. is_pawn_of (opposite_color c) (squares (make_square r file)))

unfoldable pub is_passed : (ℕ → Piece) → Color → ℕ → ℕ → Bool
unfolding is_blocked
is_passed squares c rank file =
    not (any_from (file - 1) (near_count file) (is_blocked squares c rank))

abbrev pub passed_pawn_bonus : List ℕ
passed_pawn_bonus = 0 ∷ 10 ∷ 15 ∷ 25 ∷ 40 ∷ 60 ∷ 90 ∷ 0 ∷ []

abbrev pub effective_rank : Color → ℕ → ℕ
effective_rank Color.white rank = rank
effective_rank _ rank = 7 - rank

abbrev pub is_isolated : (ℕ → Piece) → Color → ℕ → Bool
is_isolated squares c file =
    not (ltb 0 file && ltb 0 (own_pawns_on_file squares c (file - 1)))
    && not (ltb file 7 && ltb 0 (own_pawns_on_file squares c (file + 1)))

-- What one pawn adds.
unfoldable pub pawn_score : (ℕ → Piece) → Color → ℕ → ℤ
unfolding is_passed own_pawns_on_file
pawn_score squares c sq =
    (if ltb 1 (own_pawns_on_file squares c (file_of sq)) then negsuc 14 else pos 0)
    +ℤ (if is_isolated squares c (file_of sq) then negsuc 19 else pos 0)
    +ℤ (if is_passed squares c (rank_of sq) (file_of sq)
        then pos (get_or passed_pawn_bonus (effective_rank c (rank_of sq)) 0)
        else pos 0)

unfoldable pub evaluate_pawn_structure : (ℕ → Piece) → Color → ℤ
unfolding pawn_score sum_from
evaluate_pawn_structure squares c =
    sum_from 0 num_squares
      (λ sq. if is_pawn_of c (squares sq) then pawn_score squares c sq else pos 0)

unfoldable pub count_bishops : (ℕ → Piece) → Color → ℕ
unfolding count_from
count_bishops squares c =
    count_from 0 num_squares
      (λ sq. type_eq (squares sq).type bishop && color_eq (squares sq).color c)

pub record EvalBreakdown : Type 0 where
  pub material : ℤ
  pub pst : ℤ
  pub king_safety : ℤ
  pub pawn_structure : ℤ
  pub mobility : ℤ
  pub bishop_pair : ℤ
  pub total : ℤ

abbrev pub king_safety_of : Board → Color → ℤ
king_safety_of b c =
    if find_king b c == no_square then pos 0 else evaluate_king_safety b.squares c (find_king b c)

abbrev pub bishop_pair_of : Board → Color → ℤ
bishop_pair_of b c = if leb 2 (count_bishops b.squares c) then pos 30 else pos 0

unfoldable pub relative : Color → ℤ → ℤ
relative c total = if color_eq c Color.white then total else pos 0 -ℤ total

module _ (k : ZobristKeys) where
  -- The count, and the board with the side to move set back.
  unfoldable pub count_mobility : Board → Color → ℕ × Board
  unfolding set_side_to_move generate_pseudo_legal_moves
  count_mobility b c =
      let asked = set_side_to_move k b c in
      (length (generate_pseudo_legal_moves asked), set_side_to_move k asked b.side_to_move)

  unfoldable pub evaluate_detailed : Board → EvalBreakdown
  unfolding side_sum evaluate_king_safety evaluate_pawn_structure count_mobility count_bishops
  evaluate_detailed b =
      let material = side_sum true material_of b.squares -ℤ side_sum false material_of b.squares in
      let pst = side_sum true pst_of b.squares -ℤ side_sum false pst_of b.squares in
      let king_safety = king_safety_of b Color.white -ℤ king_safety_of b Color.black in
      let pawn_structure =
        evaluate_pawn_structure b.squares Color.white
        -ℤ evaluate_pawn_structure b.squares Color.black in
      let (white_mobility, copy) = count_mobility b Color.white in
      let (black_mobility, _) = count_mobility copy Color.black in
      let mobility = (pos white_mobility -ℤ pos black_mobility) *ℤ pos 4 in
      let bishop_pair = bishop_pair_of b Color.white -ℤ bishop_pair_of b Color.black in
      record {
        material = material;
        pst = pst;
        king_safety = king_safety;
        pawn_structure = pawn_structure;
        mobility = mobility;
        bishop_pair = bishop_pair;
        total = material +ℤ pst +ℤ king_safety +ℤ pawn_structure +ℤ mobility +ℤ bishop_pair;
      }

  -- From the side to move.
  unfoldable pub evaluate : Board → ℤ
  unfolding relative evaluate_detailed
  evaluate b = relative b.side_to_move (evaluate_detailed b).total
