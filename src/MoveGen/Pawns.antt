-- ===== src/MoveGen/Pawns.antt =====
-- The pawn's pseudo-legal moves are sound on a valid board (src/chess/move_gen.cpp).
use chess_engine.Base.{ℕ, ◌+◌, ◌-◌, ◌<◌, ◌≤◌, ◌≡◌, refl, ◌≢◌, inl, inr, false}
use chess_engine.Base.{[], ◌++◌, sym, some, arith, Bool-cases, Option-cases, not, ◌==◌}
use chess_engine.Base.{◌&&◌, subst, if◌then◌else◌, ==_iff}
use chess_engine.Base.Lists.{All, All-append}
use chess_engine.Base.Int.{ℤ, pos, negsuc}
use chess_engine.Types.{PieceType, Color, is_none, type_eq, color_eq}
use chess_engine.Types.{make_square, rank_of, file_of}
use chess_engine.Board.State.{Board}
use chess_engine.Board.Moves.{behind}
use chess_engine.Board.Hash.{IsReal}
use chess_engine.MoveGen.Geometry.{shift}
use chess_engine.MoveGen.Generate.{promote, add_pawn_move, double_push, pawn_pushes, pawn_capture}
use chess_engine.MoveGen.Generate.{generate_pawn_moves}
use chess_engine.MoveGen.Valid.{IsValid, IsSound, IsPassed, piece, rank_first, plain-IsSound}
use chess_engine.MoveGen.Valid.{promote-IsSound, double_push-IsSound, en_passant-IsSound}
use chess_engine.MoveGen.Ahead.{IsAhead, shift-IsAhead, ahead_square, behind_ahead}

module _ (b : Board) (v : IsValid b) (sq : ℕ) (inside : sq < 64) (real : IsReal (b.squares sq))
    (mine : b.squares sq ≡ piece PieceType.pawn b.side_to_move) where
  abbrev side : Color
  side = b.side_to_move

  add_pawn_move-AreSound :
      (to : ℕ) → to < 64 → sq ≢ to → All (IsSound b) (add_pawn_move side sq to 0)
  unfolding add_pawn_move
  add_pawn_move-AreSound to h ne =
      elim (Bool-cases (rank_of to == (if color_eq side Color.white then 7 else 0))) [
        | inl e ↦ rw e (
          promoted PieceType.queen refl,
          (
            promoted PieceType.rook refl,
            (promoted PieceType.bishop refl, (promoted PieceType.knight refl, tt)),
          ),
        )
        | inr e ↦ rw e (plain-IsSound b v sq inside real to h ne, tt)
      ]
    where
      promoted : (t : PieceType) → type_eq t PieceType.none ≡ false → IsSound b (promote sq to 0 t)
      promoted t e = promote-IsSound b v sq inside real mine to t h ne e

  double_push_squares :
      (c : Color)
      → rank_of sq ≡ (if color_eq c Color.white then 1 else 6)
      → let to =
          make_square
            (if color_eq c Color.white then rank_of sq + 2 else rank_of sq - 2)
            (file_of sq) in
        (to < 64) × (sq ≢ to) × (behind c to < 64)
  unfolding behind
  double_push_squares Color.white e = omega arith
  double_push_squares Color.black e = omega arith
  double_push_squares Color.none e = omega arith

  double_push-AreSound : All (IsSound b) (double_push b.squares sq side)
  unfolding double_push
  double_push-AreSound =
      elim (Bool-cases (rank_of sq == (if color_eq side Color.white then 1 else 6))) [
        | inl e ↦
            let ok = double_push_squares side ((==_iff _ _).0 e) in
            rw e
              (elim (Bool-cases (
                is_none (
                  b.squares (
                    make_square
                      (if color_eq side Color.white then rank_of sq + 2 else rank_of sq - 2)
                      (file_of sq))))) [
                        | inl f ↦
                            rw f (double_push-IsSound b v sq inside real mine _ ok.0 ok.1 ok.2, tt)
                        | inr f ↦ rw f tt
                      ])
        | inr e ↦ rw e tt
      ]

  module _ (fr : ℕ) (ahead : IsAhead side sq fr) (low : fr < 8) where
    pawn_pushes-AreSound : All (IsSound b) (pawn_pushes b.squares sq side fr)
    unfolding pawn_pushes
    pawn_pushes-AreSound =
        let ok = ahead_square side sq fr (file_of sq) inside ahead low (omega arith) in
        elim (Bool-cases (is_none (b.squares (make_square fr (file_of sq))))) [
          | inl e ↦ rw e (
              All-append (IsSound b) (add_pawn_move side sq (make_square fr (file_of sq)) 0)
                (double_push b.squares sq side) (add_pawn_move-AreSound _ ok.0 ok.1)
                double_push-AreSound)
          | inr e ↦ rw e tt
        ]

    IsPassed-here : (to : ℕ) → to < 64 → to ≡ b.en_passant_sq → IsPassed b.squares side to
    IsPassed-here to h e = elim v.en_passant [
      | inl none_set ↦ absurd (omega arith)
      | inr p ↦ subst (IsPassed b.squares side) (sym e) p
    ]

    not_last :
        (c : Color) (to : ℕ)
        → rank_first c ≤ to
        → to < rank_first c + 8
        → (rank_of to == (if color_eq c Color.white then 7 else 0)) ≡ false
    not_last Color.white to p q = ground arith
    not_last Color.black to p q = ground arith
    not_last Color.none to p q = ground arith

    passing_move :
        (to : ℕ)
        → sq ≢ to
        → IsPassed b.squares side to
        → (behind side to < 64) × (behind side to ≢ sq) × (behind side to ≢ to)
        → All (IsSound b) (add_pawn_move side sq to 2)
    unfolding add_pawn_move
    passing_move to ne p off =
        rw (not_last side to p.0 p.1)
          (en_passant-IsSound b v sq inside real mine to ne p off.0 off.1 off.2, tt)

    capture-AreSound :
        (cf : ℕ)
        → cf < 8
        → cf ≢ file_of sq
        → let cap_sq = make_square fr cf in
          All (IsSound b) (
            if not (is_none (b.squares cap_sq)) && not (color_eq (b.squares cap_sq).color side)
            then add_pawn_move side sq cap_sq 0
            else if cap_sq == b.en_passant_sq
            then add_pawn_move side sq cap_sq 2
            else [])
    capture-AreSound cf h ne =
        let to = make_square fr cf in
        let ok = ahead_square side sq fr cf inside ahead low h in
        elim (Bool-cases
          (not (is_none (b.squares to)) && not (color_eq (b.squares to).color side))) [
            | inl e ↦ rw e (add_pawn_move-AreSound to ok.0 ok.1)
            | inr e ↦ rw e (elim (Bool-cases (to == b.en_passant_sq)) [
              | inl f ↦ rw f (
                  passing_move to ok.1 (IsPassed-here to ok.0 ((==_iff to b.en_passant_sq).0 f))
                    (behind_ahead side sq fr cf inside ahead low h ne))
              | inr f ↦ rw f tt
            ])
          ]

    pawn_capture-AreSound :
        (df : ℤ)
        → ((cf : ℕ) → shift (file_of sq) df ≡ some cf → (cf < 8) × (cf ≢ file_of sq))
        → All (IsSound b) (pawn_capture b sq side fr df)
    unfolding pawn_capture
    pawn_capture-AreSound df h = elim (Option-cases (shift (file_of sq) df)) [
      | inl e ↦ rw (e, pawn_capture) tt
      | inr (cf, e) ↦ rw (e, pawn_capture) (capture-AreSound cf (h cf e).0 (h cf e).1)
    ]

    left_file : (cf : ℕ) → shift (file_of sq) (negsuc 0) ≡ some cf → (cf < 8) × (cf ≢ file_of sq)
    left_file cf e = ground arith

    right_file : (cf : ℕ) → shift (file_of sq) (pos 1) ≡ some cf → (cf < 8) × (cf ≢ file_of sq)
    right_file cf e = ground arith

    forward-AreSound : All (IsSound b) (
        pawn_pushes b.squares sq side fr
        ++ (pawn_capture b sq side fr (negsuc 0) ++ pawn_capture b sq side fr (pos 1)))
    forward-AreSound =
        All-append (IsSound b) (pawn_pushes b.squares sq side fr)
          (pawn_capture b sq side fr (negsuc 0) ++ pawn_capture b sq side fr (pos 1))
          pawn_pushes-AreSound
          (All-append (IsSound b) (pawn_capture b sq side fr (negsuc 0))
            (pawn_capture b sq side fr (pos 1)) (pawn_capture-AreSound (negsuc 0) left_file)
            (pawn_capture-AreSound (pos 1) right_file))

  pub generate_pawn_moves-AreSound : All (IsSound b) (generate_pawn_moves b sq side)
  unfolding generate_pawn_moves
  generate_pawn_moves-AreSound =
      elim (Option-cases
        (shift (rank_of sq) (if color_eq side Color.white then pos 1 else negsuc 0))) [
          | inl e ↦ rw (e, generate_pawn_moves) tt
          | inr (fr, e) ↦
              let a = shift-IsAhead side sq fr inside e in
              rw (e, generate_pawn_moves) (forward-AreSound fr a.0 a.1)
        ]
