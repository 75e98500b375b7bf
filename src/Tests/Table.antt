-- ===== src/Tests/Table.antt =====
-- The engine's memory of positions (src/chess/transposition_table.cpp).
use chess_engine.Base.{ℕ, ◌≡◌, refl, some, arith}
use chess_engine.Base.Int.{pos, negsuc, ◌≤ℤ◌}
use chess_engine.Types.{Move, plain_move}
use chess_engine.Engine.Table.{
  TranspositionTable, empty_entry, exact, store, probe, replaces, score_to_tt, score_from_tt,
}
use chess_engine.Engine.TableLaws.{probe-store, score_from_tt-score_to_tt}
use chess_engine.Engine.Quiesce.{node_type}
use chess_engine.Engine.Window.{IsAnswer, probe-IsAnswer}

abbrev small_table : TranspositionTable
small_table = record { entries = λ i. empty_entry; mask = 7; age = 0 }

abbrev best : Move
best = plain_move 12 28 16

-- A mate in view, five plies from the root.
abbrev filled : TranspositionTable
filled = store small_table 42 (pos 6) 5 (pos 999990) exact best

probe-store_example : (probe filled 42 (pos 4) 5 (pos 0) (pos 10)).0 ≡ some (pos 999990)
unfolding replaces
probe-store_example =
    probe-store small_table 42 6 5 (pos 999990) (pos 0) (pos 10) (pos 4) best (omega arith) refl
      refl

-- A search between 0 and 50 failed high with 70, where the value is 90.
failed_high : IsAnswer (pos 0) (pos 50) (pos 70) (pos 90)
failed_high = record {
  low = λ under. ground (arith, under);
  high = λ over. omega arith;
  inside = λ above below. ground (arith, below);
}

abbrev failed : TranspositionTable
failed = store small_table 42 (pos 6) 5 (pos 70) (node_type (pos 70) (pos 50) (pos 0)) best

found_again : (probe failed 42 (pos 4) 5 (pos 10) (pos 60)).0 ≡ some (pos 70)
unfolding probe store score_to_tt score_from_tt replaces
found_again = refl

abbrev failed_key : ℕ
failed_key = 42

probe-IsAnswer_example :
    (failed_key ≡ 42)
    × ((pos 70 ≡ pos 70) × ((pos 4 ≤ℤ pos 6) × IsAnswer (pos 10) (pos 60) (pos 70) (pos 90)))
unfolding replaces
probe-IsAnswer_example =
    probe-IsAnswer small_table failed_key 6 5 best (pos 0) (pos 50) (pos 70) (pos 90) 42 (pos 4)
      (pos 10) (pos 60) (pos 70) (omega arith) failed_high refl refl refl found_again

score_from_tt-score_to_tt_example : score_from_tt (score_to_tt (negsuc 900000) 3) 3 ≡ negsuc 900000
score_from_tt-score_to_tt_example = score_from_tt-score_to_tt (negsuc 900000) 3
