-- ===== src/Tests/Moves.antt =====
-- Making, undoing and generating moves (src/chess/board.cpp, src/chess/move_gen.cpp).
use chess_engine.Base.{◌≡◌, refl, inl, arith}
use chess_engine.Base.Lists.{select, All}
use chess_engine.Types.{Move, plain_move}
use chess_engine.Board.Moves.{make_move, undo_move, behind}
use chess_engine.Board.Undo.{undo_move-make_move}
use chess_engine.Board.Incremental.{make_move-compute_hash}
use chess_engine.Board.Zobrist.{compute_hash}
use chess_engine.MoveGen.Rays.{IsFinished, ray-IsFinished}
use chess_engine.MoveGen.Geometry.{rook_rays, bishop_rays}
use chess_engine.MoveGen.Generate.{generate_pseudo_legal_moves}
use chess_engine.MoveGen.Legal.{generate_legal_moves}
use chess_engine.MoveGen.Valid.{IsSound, double_push-IsSound}
use chess_engine.MoveGen.Sound.{generate_pseudo_legal_moves-IsSound}
use chess_engine.MoveGen.Legality.{is_safe, generate_legal_moves-select}
use chess_engine.Tests.Boards.{start, start-IsValid, start_hashed, start_hashed-IsValid, plain_keys}

-- The king's pawn goes from e2 to e4.
abbrev e2e4 : Move
e2e4 = plain_move 12 28 16

e2e4-IsSound : IsSound start_hashed e2e4
unfolding behind
e2e4-IsSound =
    double_push-IsSound start_hashed start_hashed-IsValid 12 (omega arith) (refl, refl) refl 28
      (omega arith) (omega arith) (omega arith)

undo_move-make_move_example :
    undo_move
      (make_move plain_keys start_hashed e2e4).0
      e2e4
      (make_move plain_keys start_hashed e2e4).1
    ≡ start_hashed
undo_move-make_move_example =
    undo_move-make_move plain_keys start_hashed e2e4 (inl refl) e2e4-IsSound.0

make_move-compute_hash_example :
    (make_move plain_keys start_hashed e2e4).0.zobrist_key
    ≡ compute_hash plain_keys (make_move plain_keys start_hashed e2e4).0
unfolding compute_hash
make_move-compute_hash_example =
    make_move-compute_hash plain_keys start_hashed e2e4 (inl refl) (omega arith) e2e4-IsSound.0
      e2e4-IsSound.1 refl

generate_pseudo_legal_moves-IsSound_example :
    All (IsSound start) (generate_pseudo_legal_moves start)
generate_pseudo_legal_moves-IsSound_example =
    generate_pseudo_legal_moves-IsSound start start-IsValid

generate_legal_moves-select_example :
    generate_legal_moves plain_keys start
    ≡ select (is_safe plain_keys start) (generate_pseudo_legal_moves start)
generate_legal_moves-select_example = generate_legal_moves-select plain_keys start start-IsValid

ray-IsFinished_example : IsFinished 27 rook_rays × IsFinished 27 bishop_rays
ray-IsFinished_example = ray-IsFinished 27 (omega arith)
