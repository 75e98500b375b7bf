-- ===== src/Engine/ReversedLoops.antt =====
-- The counts and searches of the evaluation (src/chess/evaluator.cpp) in the opposite order.
use chess_engine.Base.{ℕ, zero, suc, ◌+◌, ◌-◌, ◌*◌, ◌/◌, ◌%◌, ◌<◌, ◌≡◌, refl, arith, bit_xor, Bool}
use chess_engine.Base.{false, ◌||◌, ap, ap₂, ◌∙◌, sym, if◌then◌else◌, Bool-cases, inl, inr}
use chess_engine.Base.Range.{passes_each}
use chess_engine.Base.Int.{ℤ, pos, pos_part, ◌+ℤ◌, int_laws}
use chess_engine.Types.{make_square}
use chess_engine.Engine.Evaluate.{sum_from, count_from, any_from}
use chess_engine.Engine.Reversed.{lies_opposite, opposite_checked, sum_from-mirror}

-- The square that lies opposite, by its rank and file.
pub opposite_square : (sq : ℕ) → sq < 64 → bit_xor sq 56 ≡ 8 * (7 - sq / 8) + sq % 8
opposite_square sq h =
    let checked = passes_each 64 0 sq lies_opposite opposite_checked (omega arith) (omega arith) in
    ground (arith, checked)

pub make_square-opposite :
    (rank file : ℕ)
    → rank < 8
    → file < 8
    → bit_xor (make_square rank file) 56 ≡ make_square (7 - rank) file
make_square-opposite rank file p q =
    let same : (rank * 8 + file) % 256 ≡ rank * 8 + file = omega arith in
    ap (λ s. bit_xor s 56) same ∙ opposite_square (rank * 8 + file) (omega arith) ∙ omega arith

-- Two searches over ranges with the same tests.
pub any_from-shift :
    (n a b : ℕ) (f g : ℕ → Bool)
    → ((i : ℕ) → i < n → f (a + i) ≡ g (b + i))
    → any_from a n f ≡ any_from b n g
unfolding any_from
any_from-shift zero a b f g h = refl
any_from-shift (suc n) a b f g h =
    ap₂ (λ v w. v || w) (ap f (omega arith) ∙ h 0 (omega arith) ∙ ap g (omega arith))
      (any_from-shift n (a + 1) (b + 1) f g
        (λ i p. ap f (omega arith) ∙ h (suc i) (omega arith) ∙ ap g (omega arith)))

any_from-last : (n a : ℕ) (f : ℕ → Bool) → any_from a (suc n) f ≡ (f (a + n) || any_from a n f)
unfolding any_from
any_from-last zero a f = ap (λ i. f i || false) (omega arith)
any_from-last (suc n) a f =
    let place : a + 1 + n ≡ a + suc n = omega arith in
    ap (λ v. f a || v) (any_from-last n (a + 1) f ∙ ap (λ i. f i || any_from (a + 1) n f) place)
    ∙ ground arith

-- A search does not depend on the order.
pub any_from-reversed :
    (n a b : ℕ) (f g : ℕ → Bool)
    → ((i : ℕ) → i < n → f (a + i) ≡ g (b + (n - 1 - i)))
    → any_from a n f ≡ any_from b n g
unfolding any_from
any_from-reversed zero a b f g h = refl
any_from-reversed (suc n) a b f g h =
    ap₂ (λ v w. v || w) (ap f (omega arith) ∙ h 0 (omega arith) ∙ ap g (omega arith))
      (any_from-reversed n (a + 1) b f g
        (λ i p. ap f (omega arith) ∙ h (suc i) (omega arith) ∙ ap g (omega arith)))
    ∙ sym (any_from-last n b g)

pub count_from-shift :
    (n a b : ℕ) (f g : ℕ → Bool)
    → ((i : ℕ) → i < n → f (a + i) ≡ g (b + i))
    → count_from a n f ≡ count_from b n g
unfolding count_from
count_from-shift zero a b f g h = refl
count_from-shift (suc n) a b f g h =
    ap₂ (λ (t : Bool) (c : ℕ). if t then 1 + c else c)
      (ap f (omega arith) ∙ h 0 (omega arith) ∙ ap g (omega arith))
      (count_from-shift n (a + 1) (b + 1) f g
        (λ i p. ap f (omega arith) ∙ h (suc i) (omega arith) ∙ ap g (omega arith)))

-- A count is a sum of ones.
abbrev one_if : Bool → ℤ
one_if t = if t then pos 1 else pos 0

one_more : (c : ℕ) → pos (1 + c) ≡ pos 1 +ℤ pos c
one_more c = grind int_laws

none_more : (c : ℕ) → pos c ≡ pos 0 +ℤ pos c
none_more c = grind int_laws

count_from-sum :
    (n a : ℕ) (f : ℕ → Bool) → pos (count_from a n f) ≡ sum_from a n (λ i. one_if (f i))
unfolding count_from sum_from
count_from-sum zero a f = refl
count_from-sum (suc n) a f = elim (Bool-cases (f a)) [
  | inl h ↦
      rw h (one_more (count_from (a + 1) n f) ∙ ap (λ v. pos 1 +ℤ v) (count_from-sum n (a + 1) f))
  | inr h ↦
      rw h (none_more (count_from (a + 1) n f) ∙ ap (λ v. pos 0 +ℤ v) (count_from-sum n (a + 1) f))
]

pub count_from-mirror :
    (f : ℕ → Bool) → count_from 0 64 (λ sq. f (bit_xor sq 56)) ≡ count_from 0 64 f
count_from-mirror f = ap pos_part (
    count_from-sum 64 0 (λ sq. f (bit_xor sq 56))
    ∙ sum_from-mirror (λ sq. one_if (f sq))
    ∙ sym (count_from-sum 64 0 f))
