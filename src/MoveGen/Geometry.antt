-- ===== src/MoveGen/Geometry.antt =====
-- Coordinates, and the squares that a piece's pattern reaches on an empty board
-- (src/chess/move_gen.cpp).
use chess_engine.Base.{ℕ, zero, suc, ◌+◌, ◌-◌, List, [], ◌∷◌, Option, none, some}
use chess_engine.Base.{ltb, if◌then◌else◌}
use chess_engine.Base.Int.{ℤ, pos, negsuc}
use chess_engine.Types.{make_square, rank_of, file_of}

-- `n + d`, if it lies in 0 … 7.
abbrev pub shift : ℕ → ℤ → Option ℕ
shift n (pos d) = if ltb (n + d) 8 then some (n + d) else none
shift n (negsuc d) = if ltb d n then if ltb (n - suc d) 8 then some (n - suc d) else none else none

abbrev pub Offset : Type 0
Offset = ℤ × ℤ

-- The rank and file at an offset (dr, df), if both are on the board.
abbrev pub shift_both : ℕ → ℕ → Offset → Option (ℕ × ℕ)
shift_both r f (dr, df) = elim (shift r dr) [
  | none ↦ none
  | some nr ↦ elim (shift f df) [ none ↦ none | some nf ↦ some (nr, nf) ]
]

-- The rows `kn_dr`, `kn_df` of the table, and the king's double loop in its order.
abbrev pub knight_offsets : List Offset
knight_offsets =
    (negsuc 1, negsuc 0)
    ∷ (negsuc 1, pos 1)
    ∷ (negsuc 0, negsuc 1)
    ∷ (negsuc 0, pos 2)
    ∷ (pos 1, negsuc 1)
    ∷ (pos 1, pos 2)
    ∷ (pos 2, negsuc 0)
    ∷ (pos 2, pos 1)
    ∷ []

abbrev pub king_offsets : List Offset
king_offsets =
    (negsuc 0, negsuc 0)
    ∷ (negsuc 0, pos 0)
    ∷ (negsuc 0, pos 1)
    ∷ (pos 0, negsuc 0)
    ∷ (pos 0, pos 1)
    ∷ (pos 1, negsuc 0)
    ∷ (pos 1, pos 0)
    ∷ (pos 1, pos 1)
    ∷ []

-- `ray_dr`, `ray_df`: rook directions 0 to 3, bishop directions 4 to 7.
abbrev pub rook_rays : List Offset
rook_rays = (negsuc 0, pos 0) ∷ (pos 1, pos 0) ∷ (pos 0, negsuc 0) ∷ (pos 0, pos 1) ∷ []

abbrev pub bishop_rays : List Offset
bishop_rays = (negsuc 0, negsuc 0) ∷ (negsuc 0, pos 1) ∷ (pos 1, negsuc 0) ∷ (pos 1, pos 1) ∷ []

-- The squares at the offsets that stay on the board, in order: a row of `AttackTables`.
unfoldable pub targets : ℕ → List Offset → List ℕ
targets sq [] = []
targets sq (d ∷ ds) = elim (shift_both (rank_of sq) (file_of sq) d) [
  | none ↦ targets sq ds
  | some (nr, nf) ↦ make_square nr nf ∷ targets sq ds
]

unfoldable pub knight_targets : ℕ → List ℕ
unfolding targets
knight_targets sq = targets sq knight_offsets

unfoldable pub king_targets : ℕ → List ℕ
unfolding targets
king_targets sq = targets sq king_offsets

-- The squares that the `while` loop of a ray visits, up to the edge of the board.
unfoldable pub ray_from : ℕ → ℕ → ℕ → Offset → List ℕ
ray_from zero r f d = []
ray_from (suc fuel) r f d = elim (shift_both r f d) [
  | none ↦ []
  | some (nr, nf) ↦ make_square nr nf ∷ ray_from fuel nr nf d
]

-- No ray has more than seven squares: eight rounds are enough.
unfoldable pub ray : ℕ → Offset → List ℕ
unfolding ray_from
ray sq d = ray_from 8 (rank_of sq) (file_of sq) d
