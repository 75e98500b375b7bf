-- ===== src/Tests/Boards.antt =====
-- The starting position, as `Board::starting_position` sets it up (src/chess/board.cpp).
use chess_engine.Base.{◌+◌, ◌*◌, false, List, [], ◌∷◌, ◌++◌, ◌≡◌, refl, ◌⊎◌, inl, inr}
use chess_engine.Base.Lists.{get_or, All, get_or-All, replicate, All-append, All-replicate}
use chess_engine.Types.{Piece, Color, no_piece, color_eq, pawn, knight, bishop, rook, queen, king}
use chess_engine.Types.{white, black}
use chess_engine.Board.State.{Board}
use chess_engine.Board.Hash.{IsReal}
use chess_engine.Board.Zobrist.{ZobristKeys, compute_hash}
use chess_engine.MoveGen.Valid.{IsValid, piece}

abbrev pub back_rank : Color → List Piece
back_rank c =
    piece rook c
    ∷ piece knight c
    ∷ piece bishop c
    ∷ piece queen c
    ∷ piece king c
    ∷ piece bishop c
    ∷ piece knight c
    ∷ piece rook c
    ∷ []

abbrev pub black_half : List Piece
black_half = replicate 8 (piece pawn black) ++ back_rank black

abbrev pub upper_ranks : List Piece
upper_ranks = replicate 32 no_piece ++ black_half

abbrev pub start_squares : List Piece
start_squares = back_rank white ++ (replicate 8 (piece pawn white) ++ upper_ranks)

abbrev pub start : Board
start = record {
  squares = λ sq. get_or start_squares sq no_piece;
  side_to_move = white;
  castling_rights = 15;
  en_passant_sq = 64;
  halfmove_clock = 0;
  fullmove_number = 1;
  zobrist_key = 0;
}

-- Keys that are told apart by hand.
abbrev pub plain_keys : ZobristKeys
plain_keys = record {
  pieces = λ c t sq. c + 2 * t + 16 * sq;
  side_to_move = 1024;
  castling = λ rights. 2048 * rights;
  en_passant = λ file. 65536 * file;
}

abbrev Clean : Piece → Type 0
Clean p = (p ≡ no_piece) ⊎ IsReal p

back_rank-Clean : (c : Color) → color_eq c Color.none ≡ false → All Clean (back_rank c)
back_rank-Clean c h = (
  inr (refl, h),
  (
    inr (refl, h),
    (
      inr (refl, h),
      (inr (refl, h), (inr (refl, h), (inr (refl, h), (inr (refl, h), (inr (refl, h), tt))))),
    ),
  ),
)

start-Clean : All Clean start_squares
start-Clean =
    All-append Clean (back_rank white) (replicate 8 (piece pawn white) ++ upper_ranks)
      (back_rank-Clean white refl)
      (All-append Clean (replicate 8 (piece pawn white)) upper_ranks
        (All-replicate Clean 8 (piece pawn white) (inr (refl, refl)))
        (All-append Clean (replicate 32 no_piece) black_half
          (All-replicate Clean 32 no_piece (inl refl))
          (All-append Clean (replicate 8 (piece pawn black)) (back_rank black)
            (All-replicate Clean 8 (piece pawn black) (inr (refl, refl)))
            (back_rank-Clean black refl))))

pub start-IsValid : IsValid start
start-IsValid = record {
  side = inl refl;
  clean = λ j. get_or-All Clean start_squares j no_piece start-Clean (inl refl);
  en_passant = inl refl;
  white_kingside = λ e. (refl, refl);
  white_queenside = λ e. (refl, refl);
  black_kingside = λ e. (refl, refl);
  black_queenside = λ e. (refl, refl);
}

-- The same with its hash.
abbrev pub start_hashed : Board
start_hashed = record start { zobrist_key = compute_hash plain_keys start }

pub start_hashed-IsValid : IsValid start_hashed
start_hashed-IsValid = record {
  side = start-IsValid.side;
  clean = start-IsValid.clean;
  en_passant = start-IsValid.en_passant;
  white_kingside = start-IsValid.white_kingside;
  white_queenside = start-IsValid.white_queenside;
  black_kingside = start-IsValid.black_kingside;
  black_queenside = start-IsValid.black_queenside;
}
