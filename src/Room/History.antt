-- ===== src/Room/History.antt =====
-- The board of a room against the record of its moves (src/game/game_room.cpp).
use chess_engine.Base.{◌≡◌, refl, sym, ap, ◌∙◌, Bool, true, List, [], ◌∷◌, ◌++◌}
use chess_engine.Base.{Option, none, some, Bool-cases, inl, inr, arith}
use mathlib.Core.List.{Memᴰ}
use chess_engine.Types.{Move}
use chess_engine.Board.State.{Board}
use chess_engine.Board.Zobrist.{ZobristKeys}
use chess_engine.Board.Moves.{make_move}
use chess_engine.MoveGen.Legal.{generate_legal_moves}
use chess_engine.Room.State.{MoveRecord}
use chess_engine.Room.Play.{find_move}

module _ (k : ZobristKeys) where
  -- A game from the board `b` to `final`: each move of the record is legal where it is made.
  unfoldable pub IsGame : Board → List MoveRecord → Board → Type 0
  IsGame b [] final = b ≡ final
  IsGame b (r ∷ records) final =
      Memᴰ r.move (generate_legal_moves k b) × IsGame (make_move k b r.move).0 records final

  pub IsGame-append :
      (b mid : Board) (records : List MoveRecord) (r : MoveRecord)
      → IsGame b records mid
      → Memᴰ r.move (generate_legal_moves k mid)
      → IsGame b (records ++ (r ∷ [])) (make_move k mid r.move).0
  unfolding IsGame
  IsGame-append b mid [] r same legal = rw same (legal, refl)
  IsGame-append b mid (x ∷ records) r (first, others) legal =
      (first, IsGame-append (make_move k b x.move).0 mid records r others legal)

some_injective : (x y : Move) → some x ≡ some y → x ≡ y
some_injective x y h = ap (λ (o : Option Move). elim o [ none ↦ x | some z ↦ z ]) h

pub find_move-Member :
    (test : Move → Bool) (ms : List Move) (m : Move)
    → find_move test ms ≡ some m
    → Memᴰ m ms × (test m ≡ true)
unfolding find_move
find_move-Member test [] m h = absurd (ground (arith, h))
find_move-Member test (x ∷ ms) m h = elim (Bool-cases (test x)) [
  | inl e ↦
      let same : some x ≡ some m = rw e at h in
      let there = some_injective x m same in (Memᴰ.head (sym there), sym (ap test there) ∙ e)
  | inr e ↦
      let rest : find_move test ms ≡ some m = rw e at h in
      let (later, passes) = find_move-Member test ms m rest in (Memᴰ.tail later, passes)
]
