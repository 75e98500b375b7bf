-- ===== src/Engine/SearchLaws.antt =====
-- What the search (src/chess/engine.cpp) gives back: a legal move, a depth, and when it ends.
use chess_engine.Base.{ℕ, suc, ◌≤◌, ◌<◌, ◌≡◌, ◌⊎◌, refl, arith, Bool, true, false, inl, inr}
use chess_engine.Base.{List, [], ◌∷◌}
use chess_engine.Base.Lists.{length, get_or, All}
use chess_engine.Base.Int.{ℤ}
use chess_engine.Types.{Move, no_move}
use chess_engine.Board.Zobrist.{ZobristKeys}
use chess_engine.MoveGen.Legal.{generate_legal_moves}
use chess_engine.Engine.Order.{Rearranges}
use chess_engine.Engine.Quiesce.{Engine, SearchResult}
use chess_engine.Engine.Search.{search_from, search}
use chess_engine.Engine.Search.{is_mate_score, no_result}
use chess_engine.Engine.Deepen.{deepen-best, deepen-bound, deepen-reaches}
use chess_engine.Engine.Table.{new_search}

-- The engine at the start of a search.
abbrev begun : Engine → Engine
begun e = record e { nodes_searched = 0; tt = new_search e.tt }

-- The move at some place of a list.
abbrev pub IsEntry : Move → List Move → Type 0
IsEntry m moves = (i : ℕ) × (i < length moves) × (get_or moves i no_move ≡ m)

All-IsEntry : (moves : List Move) → All (λ m. IsEntry m moves) moves
All-IsEntry [] = tt
All-IsEntry (m ∷ ms) = ((0, omega arith, refl), lifted m ms ms (All-IsEntry ms))
  where
    lifted :
        (m : Move) (ms some_of : List Move)
        → All (λ n. IsEntry n ms) some_of
        → All (λ n. IsEntry n (m ∷ ms)) some_of
    lifted m ms [] h = tt
    lifted m ms (x ∷ xs) (first, others) =
        ((suc first.0, omega arith, first.2), lifted m ms xs others)

module _ (k : ZobristKeys) (sort : List (ℤ × ℕ) → List (ℤ × ℕ)) (clock : ℕ → Bool) where
  search_from-best_move :
      (max_depth : ℕ) (moves : List Move) (e : Engine)
      → Rearranges sort
      → IsEntry (search_from k sort clock max_depth moves e).0.best_move moves
        ⊎ ((moves ≡ []) × ((search_from k sort clock max_depth moves e).0.best_move ≡ no_move))
  unfolding search_from
  search_from-best_move max_depth [] e sorts = inr (refl, refl)
  search_from-best_move max_depth (m ∷ ms) e sorts =
      let first : IsEntry m (m ∷ ms) = (0, omega arith, refl) in
      inl (
        deepen-best k sort clock sorts (λ n. IsEntry n (m ∷ ms)) max_depth 1 (m ∷ ms)
          (record (no_result k sort clock) { best_move = m }) e (All-IsEntry (m ∷ ms)) (omega arith)
          first)

  search_from-depth :
      (max_depth : ℕ) (moves : List Move) (e : Engine)
      → (search_from k sort clock max_depth moves e).0.depth ≤ max_depth
  unfolding search_from
  search_from-depth max_depth [] e = omega arith
  search_from-depth max_depth (m ∷ ms) e =
      deepen-bound k sort clock max_depth 1 max_depth (m ∷ ms)
        (record (no_result k sort clock) { best_move = m }) e (omega arith) (omega arith)

  search_from-reaches :
      (max_depth : ℕ) (moves : List Move) (e : Engine)
      → ((i : ℕ) → clock i ≡ false)
      → 0 < length moves
      → ((search_from k sort clock max_depth moves e).0.depth ≡ max_depth)
        ⊎ (is_mate_score k sort clock (search_from k sort clock max_depth moves e).0.score ≡ true)
  unfolding search_from
  search_from-reaches max_depth [] e patient some_move = absurd (omega arith)
  search_from-reaches max_depth (m ∷ ms) e patient some_move =
      let first : SearchResult = record (no_result k sort clock) { best_move = m } in
      elim (deepen-reaches k sort clock patient max_depth 1 (m ∷ ms) first e refl) [
        | inl reached ↦ inl (omega arith)
        | inr mate ↦ inr mate
      ]

  -- Whenever the time runs out, the search gives a legal move of its position back where there is
  -- one, and else the move that is none; the sort may put the moves into any order.
  pub search-best_move :
      (max_depth : ℕ) (e : Engine)
      → Rearranges sort
      → IsEntry (search k sort clock max_depth e).0.best_move (generate_legal_moves k e.board)
        ⊎ ((generate_legal_moves k e.board ≡ [])
            × ((search k sort clock max_depth e).0.best_move ≡ no_move))
  unfolding search
  search-best_move max_depth e sorts =
      search_from-best_move max_depth (generate_legal_moves k e.board) (begun e) sorts

  -- The search reports no depth beyond the one asked for, whenever the time runs out.
  pub search-depth :
      (max_depth : ℕ) (e : Engine) → (search k sort clock max_depth e).0.depth ≤ max_depth
  unfolding search
  search-depth max_depth e = search_from-depth max_depth (generate_legal_moves k e.board) (begun e)

  -- Where the time never runs out and there is a legal move, the search ends with the depth asked
  -- for, or else with the score of a forced mate.
  pub search-reaches :
      (max_depth : ℕ) (e : Engine)
      → ((i : ℕ) → clock i ≡ false)
      → 0 < length (generate_legal_moves k e.board)
      → ((search k sort clock max_depth e).0.depth ≡ max_depth)
        ⊎ (is_mate_score k sort clock (search k sort clock max_depth e).0.score ≡ true)
  unfolding search
  search-reaches max_depth e patient some_move =
      search_from-reaches max_depth (generate_legal_moves k e.board) (begun e) patient some_move
