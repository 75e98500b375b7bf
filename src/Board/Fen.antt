-- ===== src/Board/Fen.antt =====
-- `Board::set_from_fen` (src/chess/board.cpp), from the six fields that the stream gives.
use chess_engine.Base.{ℕ, zero, suc, ◌+◌, ◌*◌, ◌-◌, ◌%◌, Bool, true, false, ◌&&◌, ◌||◌, not}
use chess_engine.Base.{ltb, leb, ◌==◌, if◌then◌else◌, Option, none, some, List, [], ◌∷◌, bit_or}
use chess_engine.Base.Arrays.{update}
use chess_engine.Base.Int.{ℤ, pos, negsuc, ◌-ℤ◌, ltb_ℤ, pos_part}
use chess_engine.Types.{
  Piece, Color, is_none, no_piece, make_square, no_square, num_squares, white_kingside,
  white_queenside, black_kingside, black_queenside,
}
use chess_engine.Board.State.{Board}
use chess_engine.Board.Zobrist.{ZobristKeys}
use chess_engine.Board.Access.{recompute_zobrist_key}
use chess_engine.Board.Text.{from_char, algebraic_to_square}

-- What a step of the parser comes to. A write behind the array is undefined behaviour.
pub data Outcome {ℓ} (A : Type ℓ) : Type ℓ where
  rejected : Outcome A
  out_of_bounds : Outcome A
  ok : A → Outcome A

-- A later step, after one that went well.
abbrev pub after {ℓ κ} : {A : Type ℓ} {B : Type κ} → Outcome A → (A → Outcome B) → Outcome B
after rejected f = rejected
after out_of_bounds f = out_of_bounds
after (ok a) f = f a

-- The variables of the loop over the placement.
pub record Cursor : Type 0 where
  pub rank : ℤ
  pub file : ℕ
  pub squares : ℕ → Piece

-- `make_square` where the rank may be negative: `int` arithmetic, then the cast to `uint8_t`.
abbrev pub cursor_square : ℤ → ℕ → ℕ
cursor_square (pos rank) file = make_square rank file
cursor_square (negsuc rank) file = (256 - (suc rank * 8) % 256 + file) % 256

abbrev pub is_digit : ℕ → Bool
is_digit c = leb 48 c && leb c 57

-- The end of a rank.
unfoldable pub next_rank : Cursor → Outcome Cursor
next_rank cur =
    if cur.file == 8 then ok (record cur { rank = cur.rank -ℤ pos 1; file = 0 }) else rejected

unfoldable pub skip_squares : ℕ → Cursor → Outcome Cursor
skip_squares n cur =
    if ltb n 1 || ltb 8 n
    then rejected
    else if ltb 8 (cur.file + n)
    then rejected
    else ok (record cur { file = cur.file + n })

unfoldable pub put_piece : Piece → Cursor → Outcome Cursor
put_piece piece cur =
    if is_none piece
    then rejected
    else if leb 8 cur.file
    then rejected
    else if leb num_squares (cursor_square cur.rank cur.file)
    then out_of_bounds
    else ok (record cur {
      file = cur.file + 1;
      squares = update cur.squares (cursor_square cur.rank cur.file) piece;
    })

-- The body of the loop.
unfoldable pub read_char : ℕ → Cursor → Outcome Cursor
unfolding next_rank skip_squares put_piece
read_char c cur =
    if c == 47
    then next_rank cur
    else if is_digit c
    then skip_squares (c - 48) cur
    else put_piece (from_char c) cur

unfoldable pub read_chars : List ℕ → Cursor → Outcome Cursor
unfolding read_char
read_chars [] cur = ok cur
read_chars (c ∷ cs) cur = after (read_char c cur) (read_chars cs)

abbrev pub at_rank_8 : (ℕ → Piece) → Cursor
at_rank_8 squares = record { rank = pos 7; file = 0; squares = squares }

abbrev pub is_rank_1 : ℤ → Bool
is_rank_1 (pos zero) = true
is_rank_1 _ = false

-- Field 1, on the squares that `clear` has emptied.
unfoldable pub read_placement : List ℕ → Outcome (ℕ → Piece)
unfolding read_chars
read_placement text =
    after (read_chars text (at_rank_8 (λ sq. no_piece)))
      λ cur. if is_rank_1 cur.rank && cur.file == 8 then ok cur.squares else rejected

-- Field 2.
unfoldable pub read_side : List ℕ → Option Color
read_side (c ∷ []) =
    if c == 119 then some Color.white else if c == 98 then some Color.black else none
read_side _ = none

abbrev pub right_of_char : ℕ → Option ℕ
right_of_char c =
    if c == 75
    then some white_kingside
    else if c == 81
    then some white_queenside
    else if c == 107
    then some black_kingside
    else if c == 113
    then some black_queenside
    else none

-- The loop of field 3.
unfoldable pub add_rights : List ℕ → ℕ → Option ℕ
add_rights [] rights = some rights
add_rights (c ∷ cs) rights = elim (right_of_char c) [
  | none ↦ none
  | some right ↦ add_rights cs (bit_or rights right)
]

abbrev pub is_dash : List ℕ → Bool
is_dash (c ∷ []) = c == 45
is_dash _ = false

unfoldable pub read_castling : List ℕ → Option ℕ
unfolding add_rights
read_castling text = if is_dash text then some 0 else add_rights text 0

-- Field 4.
unfoldable pub read_en_passant : List ℕ → Option ℕ
unfolding algebraic_to_square
read_en_passant text =
    if is_dash text
    then some no_square
    else if algebraic_to_square text == no_square
    then none
    else some (algebraic_to_square text)

-- The fields that `stream >>` reads, where it does.
pub record FenFields : Type 0 where
  pub piece_placement : List ℕ
  pub side : List ℕ
  pub castling : List ℕ
  pub en_passant : List ℕ
  pub halfmove : ℤ
  pub fullmove : ℤ

-- Fields 5 and 6.
abbrev pub has_clocks : FenFields → Bool
has_clocks f = not (ltb_ℤ f.halfmove (pos 0) || ltb_ℤ f.fullmove (pos 1))

-- A field that `set_from_fen` may turn down.
abbrev accepted {ℓ} : {A : Type ℓ} → Option A → Outcome A
accepted none = rejected
accepted (some a) = ok a

-- The board of a FEN whose fields are all good.
unfoldable pub fields_board : ZobristKeys → FenFields → Outcome Board
unfolding read_placement read_side read_castling read_en_passant recompute_zobrist_key
fields_board k f = after (read_placement f.piece_placement) λ squares.
    after (accepted (read_side f.side)) λ side.
      after (accepted (read_castling f.castling)) λ rights.
        after (accepted (read_en_passant f.en_passant)) λ sq.
          if has_clocks f
          then ok (
              recompute_zobrist_key k (record {
                squares = squares;
                side_to_move = side;
                castling_rights = rights;
                en_passant_sq = sq;
                halfmove_clock = pos_part f.halfmove;
                fullmove_number = pos_part f.fullmove;
                zobrist_key = 0;
              }))
          else rejected

-- `set_from_fen`, with the stream's reading of the six fields as a parameter.
unfoldable pub set_from_fen : (List ℕ → Option FenFields) → ZobristKeys → List ℕ → Outcome Board
unfolding fields_board
set_from_fen fields k fen = elim (fields fen) [ none ↦ rejected | some f ↦ fields_board k f ]
