-- ===== src/Engine/Quiescence.antt =====
-- The quiescence search (src/chess/engine.cpp) comes to its end by the ply.
use chess_engine.Base.{ℕ, zero, suc, ◌+◌, ◌≤◌, ◌≡◌, refl, arith, Bool, true, inl, inr, ap, leb}
use chess_engine.Base.{List, [], ◌∷◌, Bool-cases, fun_ext}
use chess_engine.Base.Int.{ℤ}
use chess_engine.Types.{Move}
use chess_engine.Board.Zobrist.{ZobristKeys}
use chess_engine.MoveGen.Legal.{generate_legal_moves}
use chess_engine.MoveGen.Attack.{is_in_check}
use chess_engine.Engine.Quiesce.{
  Engine, Deeper, quiescence, quiescence_node, quiescence_legal, time_up, counted,
}

module _ (k : ZobristKeys) (sort : List (ℤ × ℕ) → List (ℤ × ℕ)) (clock : ℕ → Bool) where
  quiescence_legal-deep :
      (d f : Deeper) (ply : ℕ) (ms : List Move) (checked : Bool) (alpha beta : ℤ) (e : Engine)
      → leb 64 ply ≡ true
      → quiescence_legal k sort clock d ply ms checked alpha beta e
        ≡ quiescence_legal k sort clock f ply ms checked alpha beta e
  unfolding quiescence_legal
  quiescence_legal-deep d f ply [] checked alpha beta e h = refl
  quiescence_legal-deep d f ply (m ∷ ms) checked alpha beta e h =
      elim (Bool-cases (leb 100 e.board.halfmove_clock)) [
        | inl old ↦ rw (old, quiescence_legal) refl
        | inr young ↦ rw (young, h, quiescence_legal) refl
      ]

  -- From ply 64 on nothing deeper is searched.
  quiescence_node-deep :
      (d f : Deeper) (ply : ℕ) (alpha beta : ℤ) (e : Engine)
      → leb 64 ply ≡ true
      → quiescence_node k sort clock d ply alpha beta e
        ≡ quiescence_node k sort clock f ply alpha beta e
  unfolding quiescence_node
  quiescence_node-deep d f ply alpha beta e h =
      let timed = (time_up k sort clock (counted e)).1 in
      elim (Bool-cases (clock e.ticks)) [
        | inl late ↦ rw (late, quiescence_node) refl
        | inr early ↦
            rw (early, quiescence_node)
              (quiescence_legal-deep d f ply (generate_legal_moves k timed.board)
                (is_in_check timed.board timed.board.side_to_move) alpha beta timed h)
      ]

  -- With 65 rounds of fuel, less those of the plies gone, more fuel changes nothing: the search has
  -- ended before, and its result does not depend on the fuel.
  pub quiescence-fuel :
      (fuel ply : ℕ) (alpha beta : ℤ) (e : Engine)
      → 1 ≤ fuel
      → 65 ≤ fuel + ply
      → quiescence k sort clock (suc fuel) ply alpha beta e
        ≡ quiescence k sort clock fuel ply alpha beta e
  unfolding quiescence
  quiescence-fuel zero ply alpha beta e some_fuel enough = absurd (omega arith)
  quiescence-fuel (suc fuel) ply alpha beta e some_fuel enough = elim (Bool-cases (leb 64 ply)) [
    | inl deep ↦
        quiescence_node-deep (quiescence k sort clock (suc fuel) (ply + 1))
          (quiescence k sort clock fuel (ply + 1)) ply alpha beta e deep
    | inr shallow ↦
        ap (λ d. quiescence_node k sort clock d ply alpha beta e)
          (fun_ext (λ a. fun_ext (λ b. fun_ext (λ f.
            quiescence-fuel fuel (ply + 1) a b f (ground (arith, shallow, enough)) (omega arith)))))
  ]
