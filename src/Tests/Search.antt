-- ===== src/Tests/Search.antt =====
-- The search from the starting position (src/chess/engine.cpp).
use chess_engine.Base.{ℕ, suc, ◌≤◌, ◌≡◌, ◌⊎◌, refl, arith, Bool, true, false, leb}
use chess_engine.Base.{if◌then◌else◌, List, [], ◌∷◌, ◌==◌, Bool-cases, inl, inr}
use chess_engine.Base.Lists.{length, All}
use chess_engine.Base.Int.{ℤ, pos, ltb_ℤ}
use chess_engine.Types.{no_move, no_piece, king, white, black}
use chess_engine.MoveGen.Valid.{piece}
use chess_engine.Board.State.{Board}
use chess_engine.MoveGen.Legal.{generate_legal_moves}
use chess_engine.MoveGen.Generate.{generate_pseudo_legal_moves}
use chess_engine.MoveGen.Geometry.{king_targets}
use chess_engine.MoveGen.Attack.{is_in_check}
use chess_engine.Board.Moves.{make_move, moved_squares, undo_move}
use chess_engine.Types.{is_promotion, is_en_passant, is_kingside_castle, is_queenside_castle}
use chess_engine.Engine.Table.{empty_entry}
use chess_engine.Engine.Order.{Rearranges}
use chess_engine.Engine.Quiesce.{Engine, quiescence}
use chess_engine.Engine.Search.{search, is_mate_score}
use chess_engine.Engine.SearchLaws.{IsEntry, search-best_move, search-depth, search-reaches}
use chess_engine.Engine.Quiescence.{quiescence-fuel}
use chess_engine.Tests.Boards.{start, start_hashed, plain_keys}

-- A sort by insertion, the greatest score first.
unfoldable insert : ℤ × ℕ → List (ℤ × ℕ) → List (ℤ × ℕ)
insert e [] = e ∷ []
insert e (x ∷ xs) = let rest = insert e xs in if ltb_ℤ x.0 e.0 then e ∷ x ∷ xs else x ∷ rest

unfoldable sorted : List (ℤ × ℕ) → List (ℤ × ℕ)
unfolding insert
sorted [] = []
sorted (e ∷ es) = insert e (sorted es)

insert-All :
    (P : ℤ × ℕ → Type 0) (e : ℤ × ℕ) (xs : List (ℤ × ℕ)) → P e → All P xs → All P (insert e xs)
unfolding insert
insert-All P e [] he h = (he, tt)
insert-All P e (x ∷ xs) he h = elim (Bool-cases (ltb_ℤ x.0 e.0)) [
  | inl less ↦ rw (less, All) (he, h)
  | inr more ↦ rw (more, All) (h.0, insert-All P e xs he h.1)
]

sorted-All : (P : ℤ × ℕ → Type 0) (xs : List (ℤ × ℕ)) → All P xs → All P (sorted xs)
unfolding sorted
sorted-All P [] h = tt
sorted-All P (e ∷ es) h = insert-All P e (sorted es) h.0 (sorted-All P es h.1)

length-insert : (e : ℤ × ℕ) (xs : List (ℤ × ℕ)) → length (insert e xs) ≡ suc (length xs)
unfolding insert
length-insert e [] = refl
length-insert e (x ∷ xs) = ground (arith, length-insert e xs)

length-sorted : (xs : List (ℤ × ℕ)) → length (sorted xs) ≡ length xs
unfolding sorted
length-sorted [] = refl
length-sorted (e ∷ es) = ground (arith, length-insert e (sorted es), length-sorted es)

sorted-Rearranges : Rearranges sorted
sorted-Rearranges = record { keeps = sorted-All; counts = length-sorted }

abbrev at_start : Engine
at_start = record {
  board = start_hashed;
  tt = record { entries = λ i. empty_entry; mask = 1023; age = 0 };
  nodes_searched = 0;
  ticks = 0;
}

-- The time is over at the hundredth reading of the clock.
abbrev hasty : ℕ → Bool
hasty i = leb 100 i

abbrev patient : ℕ → Bool
patient i = false

-- A king on a1 and a king on h8.
abbrev two_kings : Board
two_kings = record start {
  squares =
      λ sq. if sq == 0 then piece king white else if sq == 63 then piece king black else no_piece;
  castling_rights = 0;
}

abbrev at_two_kings : Engine
at_two_kings = record at_start { board = two_kings }

king_moves : length (generate_legal_moves plain_keys two_kings) ≡ 3
unfolding generate_legal_moves generate_pseudo_legal_moves king_targets is_in_check make_move
    moved_squares is_promotion is_en_passant is_kingside_castle is_queenside_castle undo_move
king_moves = refl

search-best_move_example :
    IsEntry
      (search plain_keys sorted hasty 3 at_start).0.best_move
      (generate_legal_moves plain_keys start_hashed)
    ⊎ ((generate_legal_moves plain_keys start_hashed ≡ [])
        × ((search plain_keys sorted hasty 3 at_start).0.best_move ≡ no_move))
search-best_move_example = search-best_move plain_keys sorted hasty 3 at_start sorted-Rearranges

search-depth_example : (search plain_keys sorted hasty 3 at_start).0.depth ≤ 3
search-depth_example = search-depth plain_keys sorted hasty 3 at_start

search-reaches_example :
    ((search plain_keys sorted patient 3 at_two_kings).0.depth ≡ 3)
    ⊎ (is_mate_score plain_keys sorted patient
          (search plain_keys sorted patient 3 at_two_kings).0.score
        ≡ true)
search-reaches_example =
    search-reaches plain_keys sorted patient 3 at_two_kings (λ i. refl) (ground (arith, king_moves))

quiescence-fuel_example :
    quiescence plain_keys sorted hasty 64 2 (pos 0) (pos 50) at_start
    ≡ quiescence plain_keys sorted hasty 63 2 (pos 0) (pos 50) at_start
quiescence-fuel_example =
    quiescence-fuel plain_keys sorted hasty 63 2 (pos 0) (pos 50) at_start (omega arith)
      (omega arith)
