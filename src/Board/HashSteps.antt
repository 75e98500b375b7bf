-- ===== src/Board/HashSteps.antt =====
-- The key after each step of `make_move` (src/chess/board.cpp) against the hash of the squares.
use chess_engine.Base.{ℕ, ◌<◌, ◌≡◌, refl, sym, ◌∙◌, ap, ap₂, ◌⊎◌, inl, inr, true, false, not, arith}
use chess_engine.Base.{if◌then◌else◌, Bool-cases, bit_xor}
use chess_engine.Base.Bits.{xor_laws, bit_xor_cancel, bit_xor-zero}
use chess_engine.Base.Arrays.{update, update_at, update_other}
use chess_engine.Types.{Piece, Color, Move, no_piece, is_none}
use chess_engine.Types.{is_promotion, is_en_passant, is_kingside_castle, is_queenside_castle}
use chess_engine.Types.{is_castle}
use chess_engine.Board.Zobrist.{ZobristKeys, piece_key, squares_key}
use chess_engine.Board.Moves.{carry, behind, kingside_rook, kingside_rook_to, queenside_rook}
use chess_engine.Board.Moves.{queenside_rook_to, castle_rook, captured_piece, take_passed_pawn}
use chess_engine.Board.Moves.{raw_key, rook_of, key_after_castle, key_after_capture}
use chess_engine.Board.Moves.{key_after_arrival, moved_squares}
use chess_engine.Board.Undo.{IsReversible, IsClearPath, take_passed_pawn-ends}
use chess_engine.Board.Undo.{
  passed_pawn, passed_squares, passed_pawn_square, other_capture, other_squares,
}
use chess_engine.Board.Hash.{IsReal, IsHashable, piece_key-raw, piece_key-none, squares_key-update}
use chess_engine.Board.Hash.{squares_key-carry}

rook_squares :
    (from : ℕ)
    → from < 64
    → (kingside_rook from < 64)
      × (kingside_rook_to from < 64)
      × (queenside_rook from < 64)
      × (queenside_rook_to from < 64)
unfolding kingside_rook kingside_rook_to queenside_rook queenside_rook_to
rook_squares from h = omega arith

module _ (k : ZobristKeys) (s : ℕ → Piece) (side : Color) (m : Move) (ok : IsReversible s side m)
    (hash : IsHashable s side m) where
  abbrev H : (ℕ → Piece) → ℕ
  H = squares_key k

  rook_step :
      (r rt : ℕ)
      → r < 64
      → rt < 64
      → s r ≡ rook_of (s m.from)
      → IsClearPath s m r rt
      → bit_xor (raw_key k (rook_of (s m.from)) r) (raw_key k (rook_of (s m.from)) rt)
        ≡ bit_xor (H s) (H (carry s r rt))
  rook_step r rt hr ht e path =
      ap₂ bit_xor (rook_key r) (rook_key rt)
      ∙ sym (bit_xor_cancel (H s) _)
      ∙ ap (bit_xor (H s)) (sym (squares_key-carry k s r rt hr ht path.apart.0 path.empty))
    where
      rook_key : (q : ℕ) → raw_key k (rook_of (s m.from)) q ≡ piece_key k (s r) q
      rook_key q =
          piece_key-raw k (rook_of (s m.from)) q (refl, hash.mover.1)
          ∙ ap (λ (p : Piece). piece_key k p q) (sym e)

  castle_key : (x : ℕ) → key_after_castle k s m x ≡ bit_xor x (bit_xor (H s) (H (castle_rook s m)))
  unfolding key_after_castle castle_rook
  castle_key x = elim (Bool-cases (is_kingside_castle m)) [
    | inl e ↦ rw e (
        ap (bit_xor x) (
          rook_step _ _ (rook_squares m.from hash.in_range.0).0
            (rook_squares m.from hash.in_range.0).1 (hash.kingside e) (ok.kingside e)))
    | inr e ↦ rw e (elim (Bool-cases (is_queenside_castle m)) [
      | inl q ↦ rw q (
          ap (bit_xor x) (
            rook_step _ _ (rook_squares m.from hash.in_range.0).2
              (rook_squares m.from hash.in_range.0).3 (hash.queenside q) (ok.queenside q)))
      | inr q ↦ rw q (simp xor_laws)
    ])
  ]

  castle_rook-other : is_castle m ≡ false → castle_rook s m ≡ s
  unfolding castle_rook is_castle
  castle_rook-other h = ground arith

  abbrev taken : ℕ → Piece
  taken = take_passed_pawn s m

  -- En passant: the pawn leaves its square, and the goal is empty.
  passed_step :
      is_en_passant m ≡ true
      → raw_key k (captured_piece s m) (behind (s m.from).color m.to)
        ≡ bit_xor (H (castle_rook s m)) (bit_xor (H taken) (piece_key k (taken m.to) m.to))
  passed_step e =
      ap₂ (raw_key k) (passed_pawn s side m ok e ∙ ap (λ (t : ℕ → Piece). t b) same)
        (passed_pawn_square s side m ok e)
      ∙ piece_key-raw k (s b) b (hash.passing e).1
      ∙ sym (bit_xor_cancel (H (castle_rook s m)) _)
      ∙ ap (bit_xor (H (castle_rook s m))) (sym gone)
    where
      b : ℕ
      b = behind side m.to

      same : castle_rook s m ≡ s
      same = castle_rook-other (ok.passing e).4

      target_empty : piece_key k (taken m.to) m.to ≡ 0
      target_empty =
          ap (λ (p : Piece). piece_key k p m.to)
            ((take_passed_pawn-ends s side m ok).1 ∙ (ok.passing e).1)
          ∙ piece_key-none k no_piece m.to refl

      gone :
          bit_xor (H taken) (piece_key k (taken m.to) m.to)
          ≡ bit_xor (H (castle_rook s m)) (piece_key k (s b) b)
      gone =
          ap₂ bit_xor
            (ap H (passed_squares s side m ok e)
              ∙ squares_key-update k (castle_rook s m) b no_piece (hash.passing e).0)
            target_empty
          ∙ ap₂
              (λ (p : Piece) (t : ℕ).
                bit_xor (bit_xor (H (castle_rook s m)) (bit_xor (piece_key k p b) t)) 0)
              (ap (λ (t : ℕ → Piece). t b) same) (piece_key-none k no_piece b refl)
          ∙ simp xor_laws

  key_of_target :
      (x : ℕ) (p : Piece) (sq : ℕ)
      → (p ≡ no_piece) ⊎ IsReal p
      → (if not (is_none p) then bit_xor x (raw_key k p sq) else x) ≡ bit_xor x (piece_key k p sq)
  key_of_target x p sq (inl e) =
      rw e (sym (ap (bit_xor x) (piece_key-none k no_piece sq refl) ∙ bit_xor-zero x))
  key_of_target x p sq (inr h) = rw h.0 (ap (bit_xor x) (piece_key-raw k p sq h))

  -- Otherwise what stands on the goal goes out, if anything does.
  target_step :
      (x : ℕ)
      → is_en_passant m ≡ false
      → (if not (is_none (s m.to)) then bit_xor x (raw_key k (s m.to) m.to) else x)
        ≡ bit_xor x
            (bit_xor (H (castle_rook s m)) (bit_xor (H taken) (piece_key k (taken m.to) m.to)))
  target_step x e = key_of_target x (s m.to) m.to hash.target ∙ ap (bit_xor x) (sym value)
    where
      value :
          bit_xor (H (castle_rook s m)) (bit_xor (H taken) (piece_key k (taken m.to) m.to))
          ≡ piece_key k (s m.to) m.to
      value =
          ap₂ (λ (t v : ℕ). bit_xor (H (castle_rook s m)) (bit_xor t v))
            (ap H (other_squares s side m ok e))
            (ap (λ (p : Piece). piece_key k p m.to) (take_passed_pawn-ends s side m ok).1)
          ∙ bit_xor_cancel (H (castle_rook s m)) _

  capture_key :
      (x : ℕ)
      → key_after_capture k s m x
        ≡ bit_xor x
            (bit_xor (H (castle_rook s m)) (bit_xor (H taken) (piece_key k (taken m.to) m.to)))
  unfolding key_after_capture
  capture_key x = elim (Bool-cases (is_en_passant m)) [
    | inl e ↦ rw e (ap (bit_xor x) (passed_step e))
    | inr e ↦ rw (e, other_capture s side m ok e) (target_step x e)
  ]

  -- The piece leaves its square and arrives, promoted or not.
  abbrev arrived : ℕ → Piece
  arrived = update (update taken m.to (s m.from)) m.from no_piece

  arrived_step :
      H arrived
      ≡ bit_xor (H taken) (
          bit_xor
            (piece_key k (taken m.to) m.to)
            (bit_xor (piece_key k (s m.from) m.to) (piece_key k (s m.from) m.from)))
  arrived_step =
      squares_key-update k (update taken m.to (s m.from)) m.from no_piece hash.in_range.0
      ∙ ap₂
          (λ (t : ℕ) (p : Piece).
            bit_xor t (bit_xor (piece_key k p m.from) (piece_key k no_piece m.from)))
          (squares_key-update k taken m.to (s m.from) hash.in_range.1)
          (update_other taken m.to m.from (s m.from) (λ e. ok.distinct (sym e))
            ∙ (take_passed_pawn-ends s side m ok).0)
      ∙ rw (piece_key-none k no_piece m.from refl) (simp xor_laws)

  abbrev promoted_piece : Piece
  promoted_piece = record { type = m.promo_type; color = (s m.from).color }

  promoted_step :
      is_promotion m ≡ true
      → H (update arrived m.to promoted_piece)
        ≡ bit_xor
            (H arrived)
            (bit_xor (piece_key k (s m.from) m.to) (raw_key k promoted_piece m.to))
  promoted_step e =
      squares_key-update k arrived m.to promoted_piece hash.in_range.1
      ∙ ap₂ (λ (p : Piece) (t : ℕ). bit_xor (H arrived) (bit_xor (piece_key k p m.to) t))
          (update_other (update taken m.to (s m.from)) m.from m.to no_piece ok.distinct
            ∙ update_at taken m.to (s m.from))
          (sym (piece_key-raw k promoted_piece m.to (hash.promoted e, hash.mover.1)))

  arrival_key :
      (x : ℕ)
      → key_after_arrival k s m x
        ≡ bit_xor x (
            bit_xor (H taken) (
              bit_xor
                (piece_key k (taken m.to) m.to)
                (bit_xor (piece_key k (s m.from) m.from) (H (moved_squares s m)))))
  unfolding key_after_arrival moved_squares
  arrival_key x = elim (Bool-cases (is_promotion m)) [
    | inl e ↦ rw (e, promoted_step e, arrived_step) (simp xor_laws)
    | inr e ↦ rw (e, arrived_step, piece_key-raw k (s m.from) m.to hash.mover) (simp xor_laws)
  ]

  -- Steps 1 to 4 change the key by the difference of the two boards.
  pub squares_part :
      (x : ℕ)
      → key_after_arrival k s m (
          key_after_capture k s m
            (key_after_castle k s m (bit_xor x (raw_key k (s m.from) m.from))))
        ≡ bit_xor x (bit_xor (H s) (H (moved_squares s m)))
  squares_part x =
      rw (arrival_key, capture_key, castle_key, piece_key-raw k (s m.from) m.from hash.mover)
        (simp xor_laws)
