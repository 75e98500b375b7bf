-- ===== src/Board/Zobrist.antt =====
-- src/chess/zobrist.h and src/chess/zobrist.cpp: the keys and the hash from scratch.
use chess_engine.Base.{ℕ, zero, suc, ◌+◌, ◌*◌, ◌/◌, ◌%◌, ◌^◌, ◌&&◌, not, bit_and, bit_xor}
use chess_engine.Base.{ltb, ◌==◌, if◌then◌else◌, List, [], ◌∷◌}
use chess_engine.Base.Lists.{get_or}
use chess_engine.Base.Arrays.{xor_below}
use chess_engine.Types.{
  Piece, PieceType, Color, type_index, color_index, type_eq, color_eq, is_none,
}
use chess_engine.Types.{no_square, is_valid_square, file_of, all_rights}
use chess_engine.Board.State.{Board}

-- `pieces[c][t][sq]`, `castling[rights]` and `en_passant[file]` as functions of their indices.
pub record ZobristKeys : Type 0 where
  pub pieces : ℕ → ℕ → ℕ → ℕ
  pub side_to_move : ℕ
  pub castling : ℕ → ℕ
  pub en_passant : ℕ → ℕ

abbrev pub u64 : ℕ → ℕ
u64 n = n % 2 ^ 64

-- `PRNG64::next`: the state after the call, and what the call returns.
pub next_state : ℕ → ℕ
next_state state = u64 (state + 0x9e3779b97f4a7c15)

pub scramble : ℕ → ℕ
scramble state =
    let z1 = u64 (bit_xor state (state / 2 ^ 30) * 0xbf58476d1ce4e5b9) in
    let z2 = u64 (bit_xor z1 (z1 / 2 ^ 27) * 0x94d049bb133111eb) in bit_xor z2 (z2 / 2 ^ 31)

-- The first `n` outputs after `state`, in order.
pub outputs : ℕ → ℕ → List ℕ
outputs zero state = []
outputs (suc n) state = scramble (next_state state) ∷ outputs n (next_state state)

-- `init_keys` draws 768 piece keys, the side key, 16 castling keys and 8 en passant keys, in turn.
unfoldable pub init_keys : ZobristKeys
unfolding outputs next_state scramble
init_keys =
    let drawn : List ℕ = outputs 793 0x8a5cd7896342125 in
    record {
      pieces = λ c t sq. get_or drawn (c * 384 + t * 64 + sq) 0;
      side_to_move = get_or drawn 768 0;
      castling = λ rights. get_or drawn (769 + rights) 0;
      en_passant = λ file. get_or drawn (785 + file) 0;
    }

module _ (k : ZobristKeys) where
  -- What the piece on a square adds to the hash; an empty square adds nothing.
  unfoldable pub piece_key : Piece → ℕ → ℕ
  piece_key p sq =
      if not (is_none p) && not (color_eq p.color Color.none) && not (type_eq p.type PieceType.none)
      then if ltb (color_index p.color) 2 && ltb (type_index p.type) 6
        then k.pieces (color_index p.color) (type_index p.type) sq
        else 0
      else 0

  unfoldable pub side_key : Color → ℕ
  side_key c = if color_eq c Color.black then k.side_to_move else 0

  unfoldable pub castling_key : ℕ → ℕ
  castling_key rights = k.castling (bit_and rights all_rights)

  unfoldable pub en_passant_key : ℕ → ℕ
  en_passant_key ep =
      if not (ep == no_square) && is_valid_square ep
      then if ltb (file_of ep) 8 then k.en_passant (file_of ep) else 0
      else 0

  unfoldable pub squares_key : (ℕ → Piece) → ℕ
  squares_key squares = xor_below 64 (λ sq. piece_key (squares sq) sq)

  -- `compute_hash`.
  unfoldable pub compute_hash : Board → ℕ
  compute_hash b =
      bit_xor
        (bit_xor (bit_xor (squares_key b.squares) (side_key b.side_to_move))
          (castling_key b.castling_rights))
        (en_passant_key b.en_passant_sq)
