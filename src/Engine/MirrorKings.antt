-- ===== src/Engine/MirrorKings.antt =====
-- The kings in the evaluation (src/chess/evaluator.cpp) of a position with its colours exchanged and
-- its ranks in the opposite order.
use chess_engine.Base.{ℕ, zero, suc, ◌+◌, ◌-◌, ◌*◌, ◌<◌, ◌≤◌, ◌≡◌, ◌≢◌, refl, arith}
use chess_engine.Base.{bit_xor, Bool, true, false, ◌&&◌, leb, ap, ap₂, ◌∙◌, sym}
use chess_engine.Base.{if◌then◌else◌, ◌==◌, Bool-cases, inl, inr}
use chess_engine.Base.Range.{passes_each}
use chess_engine.Base.Int.{pos, negsuc, ◌+ℤ◌}
use chess_engine.Types.{Color, Piece, king, white, black, type_eq, color_eq}
use chess_engine.Types.{make_square, rank_of, file_of, opposite_color, no_square}
use chess_engine.Board.State.{Board}
use chess_engine.Board.Access.{find_king, find_king_from}
use chess_engine.Engine.Evaluate.{evaluate_king_safety, shield_pawns, shield_rank, king_is_home}
use chess_engine.Engine.Evaluate.{near_count, is_pawn_of}
use chess_engine.Engine.Evaluate.{has_pawn_on_file, king_safety_of}
use chess_engine.Engine.Reversed.{lies_opposite, opposite_checked}
use chess_engine.Engine.ReversedLoops.{opposite_square, count_from-shift}
use chess_engine.Engine.Mirror.{exchanged, mirrored}
use chess_engine.Engine.MirrorPawns.{color_eq-exchanged, file_of-opposite, rank_of-opposite}
use chess_engine.Engine.MirrorPawns.{pawn_at-mirrored, has_pawn_on_file-mirrored}

-- Whether a king has a rank of pawns in front of it.
abbrev is_sheltered : Color → ℕ → Bool
is_sheltered c rank = king_is_home c rank && leb (shield_rank c rank) 7

is_sheltered-opposite :
    (c : Color) (rank : ℕ)
    → c ≢ Color.none
    → rank < 8
    → is_sheltered c rank ≡ is_sheltered (opposite_color c) (7 - rank)
is_sheltered-opposite white rank h p = ground arith
is_sheltered-opposite black rank h p = ground arith
is_sheltered-opposite Color.none rank h p = absurd (h refl)

shield_rank-opposite :
    (c : Color) (rank : ℕ)
    → c ≢ Color.none
    → rank < 8
    → is_sheltered c rank ≡ true
    → (shield_rank c rank < 8)
      × (7 - shield_rank c rank ≡ shield_rank (opposite_color c) (7 - rank))
shield_rank-opposite white rank h p home = ground (arith, home)
shield_rank-opposite black rank h p home = ground (arith, home)
shield_rank-opposite Color.none rank h p home = absurd (h refl)

counted_where :
    (s t : Bool) {m n : ℕ}
    → s ≡ t
    → (s ≡ true → m ≡ n)
    → (if s then m else 0) ≡ (if t then n else 0)
counted_where true t {m = m} {n = n} e h = ap (λ b. if b then m else 0) e ∙ rw (sym e) (h refl)
counted_where false t {m = m} {n = n} e h = rw (sym e) refl

shield_pawns-mirrored :
    (squares : ℕ → Piece) (c : Color) (rank file : ℕ)
    → c ≢ Color.none
    → rank < 8
    → file < 8
    → shield_pawns (mirrored squares) c rank file
      ≡ shield_pawns squares (opposite_color c) (7 - rank) file
unfolding shield_pawns
shield_pawns-mirrored squares c rank file h p q =
    let other = opposite_color c in
    counted_where (is_sheltered c rank) (is_sheltered other (7 - rank))
      (is_sheltered-opposite c rank h p)
      (λ home.
        let (low, same) = shield_rank-opposite c rank h p home in
        count_from-shift (near_count file) (file - 1) (file - 1)
          (λ f. is_pawn_of c (mirrored squares (make_square (shield_rank c rank) f)))
          (λ f. is_pawn_of other (squares (make_square (shield_rank other (7 - rank)) f)))
          (λ i r.
            pawn_at-mirrored squares c (shield_rank c rank) (file - 1 + i) h low (ground arith)
            ∙ ap (λ s. is_pawn_of other (squares (make_square s (file - 1 + i)))) same))

evaluate_king_safety-mirrored :
    (squares : ℕ → Piece) (c : Color) (sq : ℕ)
    → c ≢ Color.none
    → sq < 64
    → evaluate_king_safety (mirrored squares) c (bit_xor sq 56)
      ≡ evaluate_king_safety squares (opposite_color c) sq
unfolding evaluate_king_safety
evaluate_king_safety-mirrored squares c sq h p =
    let other = opposite_color c in
    let there = bit_xor sq 56 in
    let rank : rank_of there ≡ 7 - rank_of sq = rank_of-opposite sq p in
    let back : 7 - rank_of there ≡ rank_of sq = omega (arith, rank) in
    let file : file_of there ≡ file_of sq = file_of-opposite sq p in
    let within : file_of there < 8 = omega arith in
    ap₂ (λ n b. pos (10 * n) +ℤ (if b then pos 0 else negsuc 24))
      (shield_pawns-mirrored squares c (rank_of there) (file_of there) h (omega (arith, rank))
          within
        ∙ ap₂ (shield_pawns squares other) back file)
      (has_pawn_on_file-mirrored squares c (file_of there) h within
        ∙ ap (has_pawn_on_file squares other) file)

-- The king of a colour stands on this square, and no other king of that colour on the board.
abbrev is_king_of : Color → Piece → Bool
is_king_of c p = type_eq p.type king && color_eq p.color c

abbrev pub IsOnlyKing : (ℕ → Piece) → Color → ℕ → Type 0
IsOnlyKing squares c sq =
    (sq < 64)
    × ((is_king_of c (squares sq) ≡ true)
        × ((i : ℕ) → i < 64 → i ≢ sq → is_king_of c (squares i) ≡ false))

find_king_from-IsOnlyKing :
    (squares : ℕ → Piece) (c : Color) (sq : ℕ)
    → IsOnlyKing squares c sq
    → (n i : ℕ) → i + n ≡ 64
    → i ≤ sq
    → find_king_from squares c i n ≡ sq
unfolding find_king_from
find_king_from-IsOnlyKing squares c sq only zero i e low = absurd (omega (arith, only.0))
find_king_from-IsOnlyKing squares c sq only (suc n) i e low = elim (Bool-cases (i == sq)) [
  | inl same ↦
      let here : i ≡ sq = ground (arith, same) in
      let met : is_king_of c (squares i) ≡ true = rw here only.1.0 in
      ap (λ t. if t then i else find_king_from squares c (i + 1) n) met ∙ here
  | inr other ↦
      let missed = only.1.1 i (omega arith) (ground (arith, other)) in
      ap (λ t. if t then i else find_king_from squares c (i + 1) n) missed
      ∙ find_king_from-IsOnlyKing squares c sq only n (i + 1) (omega arith) (ground (arith, other))
]

opposite-opposite : (sq : ℕ) → sq < 64 → bit_xor (bit_xor sq 56) 56 ≡ sq
opposite-opposite sq h =
    let checked = passes_each 64 0 sq lies_opposite opposite_checked (omega arith) (omega arith) in
    ground (arith, checked)

mirrored-IsOnlyKing :
    (squares : ℕ → Piece) (c : Color) (sq : ℕ)
    → c ≢ Color.none
    → IsOnlyKing squares (opposite_color c) sq
    → IsOnlyKing (mirrored squares) c (bit_xor sq 56)
mirrored-IsOnlyKing squares c sq h (on_board, (met, missed)) =
    let other = opposite_color c in
    let turned : (p : Piece) → is_king_of c (exchanged p) ≡ is_king_of other p =
      λ p. ap (λ b. type_eq p.type king && b) (color_eq-exchanged c p.color p.type h) in
    (
      omega (arith, opposite_square sq on_board),
      (
        turned (squares (bit_xor (bit_xor sq 56) 56))
            ∙ ap (λ s. is_king_of other (squares s)) (opposite-opposite sq on_board)
            ∙ met,
        λ i p apart.
            turned (squares (bit_xor i 56))
            ∙ missed (bit_xor i 56) (omega (arith, opposite_square i p))
                (λ e. apart (sym (opposite-opposite i p) ∙ ap (λ s. bit_xor s 56) e)),
      ),
    )

king_safety_of-IsOnlyKing :
    (b : Board) (c : Color) (sq : ℕ)
    → IsOnlyKing b.squares c sq
    → king_safety_of b c ≡ evaluate_king_safety b.squares c sq
unfolding find_king
king_safety_of-IsOnlyKing b c sq only =
    let found = find_king_from-IsOnlyKing b.squares c sq only 64 0 refl (omega arith) in
    let there : (sq == no_square) ≡ false = ground (arith, only.0) in
    ap (λ s. if s == no_square then pos 0 else evaluate_king_safety b.squares c s) found
    ∙ ap (λ t. if t then pos 0 else evaluate_king_safety b.squares c sq) there

pub king_safety_of-mirrored :
    (b : Board) (c : Color) (sq : ℕ)
    → c ≢ Color.none
    → IsOnlyKing b.squares (opposite_color c) sq
    → king_safety_of (record b { squares = mirrored b.squares }) c
      ≡ king_safety_of b (opposite_color c)
king_safety_of-mirrored b c sq h only =
    king_safety_of-IsOnlyKing (record b { squares = mirrored b.squares }) c (bit_xor sq 56)
      (mirrored-IsOnlyKing b.squares c sq h only)
    ∙ evaluate_king_safety-mirrored b.squares c sq h only.0
    ∙ sym (king_safety_of-IsOnlyKing b (opposite_color c) sq only)
