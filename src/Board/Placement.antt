-- ===== src/Board/Placement.antt =====
-- The first field of a FEN, written by `to_fen` and read by `set_from_fen` (src/chess/board.cpp).
use chess_engine.Base.{ℕ, zero, suc, ◌+◌, ◌<◌, ◌≤◌, ◌≡◌, ◌≢◌, refl, sym, ap, ◌∙◌, ◌⊎◌}
use chess_engine.Base.{inl, inr, true, false, List, [], ◌∷◌, ◌++◌, arith}
use chess_engine.Base.{leb, ◌==◌, Bool-cases}
use mathlib.Core.List.{append_assoc, append-nil}
use chess_engine.Base.Arrays.{update}
use chess_engine.Base.Int.{pos, ◌-ℤ◌}
use chess_engine.Types.{Piece, PieceType, Color, no_piece, is_none, make_square}
use chess_engine.Board.Hash.{IsReal}
use chess_engine.Board.Text.{to_char, rank_text, placement_text, empty_text}
use chess_engine.Board.RoundTrip.{from_char-to_char}
use chess_engine.Board.Fill.{fill, fills, fills_all, fill_empty, fill_piece, IsClean}
use chess_engine.Board.Fen.{
  ok, Cursor, next_rank, skip_squares, put_piece, read_char, read_chars, read_placement,
}

-- The characters of pieces are letters.
letter :
    (t : PieceType) (c : Color) → t ≢ PieceType.none → 57 < to_char (record { type = t; color = c })
unfolding to_char
letter PieceType.none c h = absurd (h refl)
letter PieceType.pawn Color.black h = omega arith
letter PieceType.pawn Color.white h = omega arith
letter PieceType.pawn Color.none h = omega arith
letter PieceType.knight Color.black h = omega arith
letter PieceType.knight Color.white h = omega arith
letter PieceType.knight Color.none h = omega arith
letter PieceType.bishop Color.black h = omega arith
letter PieceType.bishop Color.white h = omega arith
letter PieceType.bishop Color.none h = omega arith
letter PieceType.rook Color.black h = omega arith
letter PieceType.rook Color.white h = omega arith
letter PieceType.rook Color.none h = omega arith
letter PieceType.queen Color.black h = omega arith
letter PieceType.queen Color.white h = omega arith
letter PieceType.queen Color.none h = omega arith
letter PieceType.king Color.black h = omega arith
letter PieceType.king Color.white h = omega arith
letter PieceType.king Color.none h = omega arith

is_letter : (p : Piece) → IsReal p → 57 < to_char p
is_letter p (a, b) = letter p.type p.color (λ e. ground (arith, e))

-- The cursor in a rank of the board.
abbrev pub cursor : ℕ → ℕ → (ℕ → Piece) → Cursor
cursor r f q = record { rank = pos r; file = f; squares = q }

read_piece :
    (p : Piece) (r f : ℕ) (q : ℕ → Piece)
    → IsReal p
    → r < 8
    → f < 8
    → read_char (to_char p) (cursor r f q) ≡ ok (cursor r (f + 1) (update q (make_square r f) p))
unfolding read_char put_piece
read_piece p r f q real hr hf =
    let big = is_letter p real in
    let back = from_char-to_char p (inr real) in
    let slash : (to_char p == 47) ≡ false = ground arith in
    let above : leb 48 (to_char p) ≡ true = ground arith in
    let digit : leb (to_char p) 57 ≡ false = ground arith in
    let low : leb 8 f ≡ false = ground arith in
    let inside : leb 64 (make_square r f) ≡ false = ground arith in
    rw (slash, above, digit, back, real.0, low, inside) refl

read_empty :
    (e r g : ℕ) (q : ℕ → Piece)
    → 0 < e
    → g + e ≤ 8
    → read_char (48 + e) (cursor r g q) ≡ ok (cursor r (g + e) q)
unfolding read_char skip_squares
read_empty e r g q he hg = ground arith

read_chars_step :
    (c : ℕ) (cs : List ℕ) (cur next : Cursor)
    → read_char c cur ≡ ok next
    → read_chars (c ∷ cs) cur ≡ read_chars cs next
unfolding read_chars
read_chars_step c cs cur next e = rw (e, read_chars) refl

-- The pending empty squares, written before whatever follows.
read_empty_text :
    (e r g f : ℕ) (q : ℕ → Piece) (rest : List ℕ)
    → g + e ≡ f
    → f ≤ 8
    → read_chars (empty_text e ++ rest) (cursor r g q) ≡ read_chars rest (cursor r f q)
unfolding read_chars
read_empty_text zero r g f q rest h hf = let same : g ≡ f = omega arith in rw same refl
read_empty_text (suc e) r g f q rest h hf =
    let counted : empty_text (suc e) ≡ (48 + suc e) ∷ [] = ground arith in
    rw counted (
      read_chars_step (48 + suc e) rest (cursor r g q) (cursor r (g + suc e) q)
        (read_empty (suc e) r g q (omega arith) (omega arith))
      ∙ ap (λ (t : ℕ). read_chars rest (cursor r t q)) h)

module _ (s : ℕ → Piece) (r f n e : ℕ) where
  rank_text_empty :
      is_none (s (make_square r f)) ≡ true
      → rank_text s r f (suc n) e ≡ rank_text s r (f + 1) n (e + 1)
  unfolding rank_text
  rank_text_empty h = rw (h, rank_text) refl

  rank_text_piece :
      is_none (s (make_square r f)) ≡ false
      → rank_text s r f (suc n) e
        ≡ empty_text e ++ (to_char (s (make_square r f)) ∷ rank_text s r (f + 1) n 0)
  unfolding rank_text
  rank_text_piece h = rw (h, rank_text) refl

piece-IsReal : (p : Piece) → (p ≡ no_piece) ⊎ IsReal p → is_none p ≡ false → IsReal p
piece-IsReal p (inl e) h = absurd (let none_left : true ≡ false = rw e at h in ground arith)
piece-IsReal p (inr real) h = real

module _ (s : ℕ → Piece) (clean : IsClean s) where
  square-IsReal :
      (r f : ℕ)
      → r < 8
      → f < 8
      → is_none (s (make_square r f)) ≡ false
      → IsReal (s (make_square r f))
  unfolding IsClean
  square-IsReal r f hr hf =
      piece-IsReal (s (make_square r f)) (clean (make_square r f) (ground arith))

  read_rank :
      (n r g f e : ℕ) (q : ℕ → Piece) (rest : List ℕ)
      → r < 8
      → g + e ≡ f
      → f + n ≡ 8
      → read_chars (rank_text s r f n e ++ rest) (cursor r g q)
        ≡ read_chars rest (cursor r 8 (fill s q r f n))
  unfolding rank_text fill
  read_rank zero r g f e q rest hr h hn =
      let full : f ≡ 8 = omega arith in
      read_empty_text e r g f q rest h (omega arith)
      ∙ ap (λ (t : ℕ). read_chars rest (cursor r t q)) full
  read_rank (suc n) r g f e q rest hr h hn = elim (Bool-cases (is_none (s (make_square r f)))) [
    | inl none_there ↦
        rw (rank_text_empty s r f n e none_there, fill_empty s q r f n none_there)
          (read_rank n r g (f + 1) (e + 1) q rest hr (omega arith) (omega arith))
    | inr there ↦
        let p = s (make_square r f) in
        let text = rank_text s r (f + 1) n 0 in
        rw (rank_text_piece s r f n e there, fill_piece s q r f n there)
          (ap (λ (t : List ℕ). read_chars t (cursor r g q))
              (append_assoc (empty_text e) (to_char p ∷ text) rest)
            ∙ read_empty_text e r g f q (to_char p ∷ (text ++ rest)) h (omega arith)
            ∙ read_chars_step (to_char p) (text ++ rest) (cursor r f q)
                (cursor r (f + 1) (update q (make_square r f) p))
                (read_piece p r f q (square-IsReal r f hr (omega arith) there) hr (omega arith))
            ∙ read_rank n r (f + 1) (f + 1) 0 (update q (make_square r f) p) rest hr (omega arith)
                (omega arith))
  ]

  rank_end : (r : ℕ) (q : ℕ → Piece) → read_char 47 (cursor (suc r) 8 q) ≡ ok (cursor r 0 q)
  unfolding read_char next_rank ◌-ℤ◌
  rank_end r q = let down : pos (suc r) -ℤ pos 1 ≡ pos r = ground arith in rw down refl

  pub read_ranks :
      (r : ℕ) (q : ℕ → Piece)
      → r < 8
      → read_chars (placement_text s r) (cursor r 0 q) ≡ ok (cursor 0 8 (fills s q r))
  unfolding placement_text fills read_chars
  read_ranks zero q hr =
      ap (λ (t : List ℕ). read_chars t (cursor 0 0 q)) (sym (append-nil (rank_text s 0 0 8 0)))
      ∙ read_rank 8 0 0 0 0 q [] hr refl refl
  read_ranks (suc r) q hr =
      read_rank 8 (suc r) 0 0 0 q (47 ∷ placement_text s r) hr refl refl
      ∙ read_chars_step 47 (placement_text s r) (cursor (suc r) 8 (fill s q (suc r) 0 8))
          (cursor r 0 (fill s q (suc r) 0 8)) (rank_end r (fill s q (suc r) 0 8))
      ∙ read_ranks r (fill s q (suc r) 0 8) (omega arith)

  -- The placement that `to_fen` writes of squares with pieces of White, of Black or none is read
  -- by `set_from_fen` without an error, and gives each square its piece back.
  pub read_placement-placement_text :
      (out : ℕ → Piece) × (read_placement (placement_text s 7) ≡ ok out)
      × ((sq : ℕ) → sq < 64 → out sq ≡ s sq)
  unfolding read_placement
  read_placement-placement_text = (
    fills s (λ sq. no_piece) 7,
    rw (read_ranks 7 (λ sq. no_piece) (omega arith), read_placement) refl,
    fills_all s clean,
  )
