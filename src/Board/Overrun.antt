-- ===== src/Board/Overrun.antt =====
-- Where `set_from_fen` stays within the array of the squares and where it does not
-- (src/chess/board.cpp).
use chess_engine.Base.{ℕ, zero, suc, ◌+◌, ◌<◌, ◌≤◌, ◌≡◌, ◌≢◌, refl, ◌∙◌, arith}
use chess_engine.Base.{
  Bool, false, if◌then◌else◌, List, [], ◌∷◌, ◌++◌, ◌==◌, ltb, leb, ◌||◌, ◌&&◌, ◌-◌, ◌⊎◌, Bool-cases,
  inl, inr,
}
use chess_engine.Base.Arrays.{update}
use chess_engine.Base.Int.{pos, negsuc, ◌-ℤ◌}
use chess_engine.Types.{Piece, no_piece, is_none, make_square}
use chess_engine.Board.Text.{from_char, placement_text}
use chess_engine.Board.Fen.{
  Outcome, rejected, out_of_bounds, ok, Cursor, next_rank, skip_squares, put_piece, read_char,
  read_chars, is_digit, after, is_rank_1, read_placement,
}
use chess_engine.Board.Placement.{cursor, read_ranks}
use chess_engine.Board.Fill.{IsClean, fills}

-- The slashes of a text.
abbrev pub slashes : List ℕ → ℕ
slashes [] = 0
slashes (c ∷ cs) = if c == 47 then suc (slashes cs) else slashes cs

-- Past the last rank: the loop has no test of the rank.
pos_down : (r : ℕ) → pos (suc r) -ℤ pos 1 ≡ pos r
unfolding ◌-ℤ◌
pos_down r = ground arith

read_past :
    (c : ℕ) (q : ℕ → Piece)
    → (c == 47) ≡ false
    → is_digit c ≡ false
    → is_none (from_char c) ≡ false
    → read_char c (record { rank = negsuc 0; file = 0; squares = q }) ≡ out_of_bounds
unfolding read_char put_piece
read_past c q slash digit piece = rw (slash, digit, piece) refl

after-append :
    (o : Outcome Cursor) (f g : Cursor → Outcome Cursor) (mid : Cursor) (there : Outcome Cursor)
    → ((cur : Cursor) → f cur ≡ ok mid → g cur ≡ there)
    → after o f ≡ ok mid
    → after o g ≡ there
after-append rejected f g mid there each h = absurd (ground (arith, h))
after-append out_of_bounds f g mid there each h = absurd (ground (arith, h))
after-append (ok cur) f g mid there each h = each cur h

read_chars-append :
    (xs ys : List ℕ) (cur mid : Cursor)
    → read_chars xs cur ≡ ok mid
    → read_chars (xs ++ ys) cur ≡ read_chars ys mid
unfolding read_chars
read_chars-append [] ys cur mid h = let same : cur ≡ mid = ground (arith, h) in rw same refl
read_chars-append (x ∷ xs) ys cur mid h =
    after-append (read_char x cur) (read_chars xs) (read_chars (xs ++ ys)) mid (read_chars ys mid)
      (λ next. read_chars-append xs ys next mid) h

ninth_rank :
    (c : ℕ) (rest : List ℕ) (q : ℕ → Piece)
    → (c == 47) ≡ false
    → is_digit c ≡ false
    → is_none (from_char c) ≡ false
    → read_chars (47 ∷ c ∷ rest) (cursor 0 8 q) ≡ out_of_bounds
unfolding read_chars read_char next_rank ◌-ℤ◌
ninth_rank c rest q slash digit piece = rw (read_past c q slash digit piece, read_chars) refl

-- A rank after the last, with a piece in front: in every text that goes on so after the eight
-- ranks of squares with pieces of White, of Black or none, the piece is written outside the array.
pub read_placement-ninth_rank :
    (s : ℕ → Piece) (clean : IsClean s) (c : ℕ) (rest : List ℕ)
    → (c == 47) ≡ false
    → is_digit c ≡ false
    → is_none (from_char c) ≡ false
    → read_placement (placement_text s 7 ++ (47 ∷ c ∷ rest)) ≡ out_of_bounds
unfolding read_placement
read_placement-ninth_rank s clean c rest slash digit piece =
    let left = fills s (λ sq. no_piece) 7 in
    let ranks = read_ranks s clean 7 (λ sq. no_piece) (omega arith) in
    let overrun =
      read_chars-append (placement_text s 7) (47 ∷ c ∷ rest) (cursor 7 0 (λ sq. no_piece))
        (cursor 0 8 left) ranks
      ∙ ninth_rank c rest left slash digit piece in
    rw (overrun, read_placement) refl

-- A step before the last rank's end stays in the array, and in the rank unless it ends it.
IsWithin : Outcome Cursor → ℕ → Type 0
IsWithin o r = (o ≡ rejected) ⊎ ((f : ℕ) × (q : ℕ → Piece) × (f ≤ 8) × (o ≡ ok (cursor r f q)))

skip_squares-IsWithin : (n r f : ℕ) (q : ℕ → Piece) → IsWithin (skip_squares n (cursor r f q)) r
unfolding IsWithin skip_squares
skip_squares-IsWithin n r f q = elim (Bool-cases (ltb n 1 || ltb 8 n)) [
  | inl e ↦ inl (rw e refl)
  | inr e ↦ elim (Bool-cases (ltb 8 (f + n))) [
    | inl e' ↦ inl (rw (e, e') refl)
    | inr e' ↦ inr (f + n, q, ground arith, rw (e, e') refl)
  ]
]

put_piece-IsWithin :
    (p : Piece) (r f : ℕ) (q : ℕ → Piece) → r < 8 → IsWithin (put_piece p (cursor r f q)) r
unfolding IsWithin put_piece
put_piece-IsWithin p r f q hr = elim (Bool-cases (is_none p)) [
  | inl e ↦ inl (rw e refl)
  | inr e ↦ elim (Bool-cases (leb 8 f)) [
    | inl e' ↦ inl (rw (e, e') refl)
    | inr e' ↦
        let inside : leb 64 (make_square r f) ≡ false = ground arith in
        inr (f + 1, update q (make_square r f) p, ground arith, rw (e, e', inside) refl)
  ]
]

read_char-IsWithin :
    (c r f : ℕ) (q : ℕ → Piece)
    → r < 8
    → (c == 47) ≡ false
    → IsWithin (read_char c (cursor r f q)) r
unfolding IsWithin read_char
read_char-IsWithin c r f q hr slash = elim (Bool-cases (is_digit c)) [
  | inl e ↦ rw (slash, e) (skip_squares-IsWithin (c - 48) r f q)
  | inr e ↦ rw (slash, e) (put_piece-IsWithin (from_char c) r f q hr)
]

read_slash-IsWithin : (r f : ℕ) (q : ℕ → Piece) → IsWithin (read_char 47 (cursor (suc r) f q)) r
unfolding IsWithin read_char next_rank
read_slash-IsWithin r f q = elim (Bool-cases (f == 8)) [
  | inl e ↦
      let down : pos (suc r) -ℤ pos 1 ≡ pos r = pos_down r in
      inr (0, q, omega arith, rw (e, down) refl)
  | inr e ↦ inl (rw e refl)
]

Safe : Outcome Cursor → Type 0
Safe o = o ≢ out_of_bounds

after-Safe :
    (o : Outcome Cursor) (g : Cursor → Outcome Cursor) (r : ℕ)
    → IsWithin o r
    → ((f : ℕ) (q : ℕ → Piece) → Safe (g (cursor r f q)))
    → Safe (after o g)
unfolding IsWithin Safe
after-Safe o g r (inl e) each = rw e (λ same. ground (arith, same))
after-Safe o g r (inr (f, q, hf, e)) each = rw e (each f q)

slash-Safe :
    (c : ℕ) (cs : List ℕ) (r f : ℕ) (q : ℕ → Piece)
    → c ≡ 47
    → suc (slashes cs) ≤ r
    → ((r' f' : ℕ) (q' : ℕ → Piece) → suc r' ≡ r → Safe (read_chars cs (cursor r' f' q')))
    → Safe (read_chars (c ∷ cs) (cursor r f q))
unfolding read_chars
slash-Safe c cs zero f q same h each = absurd (omega arith)
slash-Safe c cs (suc r) f q same h each = rw same (
    after-Safe (read_char 47 (cursor (suc r) f q)) (read_chars cs) r (read_slash-IsWithin r f q)
      (λ f' q'. each r f' q' refl))

read_chars-Safe :
    (text : List ℕ) (r f : ℕ) (q : ℕ → Piece)
    → r < 8
    → slashes text ≤ r
    → Safe (read_chars text (cursor r f q))
unfolding Safe read_chars
read_chars-Safe [] r f q hr h = λ same. ground (arith, same)
read_chars-Safe (c ∷ cs) r f q hr h = elim (Bool-cases (c == 47)) [
  | inr e ↦
      let fewer : slashes cs ≤ r = rw e at h in
      after-Safe (read_char c (cursor r f q)) (read_chars cs) r (read_char-IsWithin c r f q hr e)
        (λ f' q'. read_chars-Safe cs r f' q' hr fewer)
  | inl e ↦
      let fewer : suc (slashes cs) ≤ r = rw e at h in
      slash-Safe c cs r f q (ground arith) fewer
        (λ r' f' q' below. read_chars-Safe cs r' f' q' (omega arith) (omega arith))
]

end-Safe :
    (o : Outcome Cursor) (good : Cursor → Bool)
    → Safe o
    → after o (λ cur. if good cur then ok cur.squares else rejected) ≢ out_of_bounds
unfolding Safe
end-Safe rejected good safe = λ same. ground (arith, same)
end-Safe out_of_bounds good safe = absurd (safe refl)
end-Safe (ok cur) good safe = elim (Bool-cases (good cur)) [
  | inl e ↦ rw e (λ same. ground (arith, same))
  | inr e ↦ rw e (λ same. ground (arith, same))
]

-- A placement of at most eight ranks, good or bad, is read without a write outside the array.
pub read_placement-Safe : (text : List ℕ) → slashes text ≤ 7 → read_placement text ≢ out_of_bounds
unfolding read_placement Safe
read_placement-Safe text h =
    end-Safe (read_chars text (cursor 7 0 (λ sq. no_piece)))
      (λ cur. is_rank_1 cur.rank && cur.file == 8)
      (read_chars-Safe text 7 0 (λ sq. no_piece) (omega arith) h)
