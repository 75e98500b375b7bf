-- ===== src/Base/Bits.antt =====
-- Laws of `bit_xor` (the `^` of the Zobrist keys) at every width, from its digit recursion.
use Prim.Native.Nat.{ℕ, zero, suc, ◌+◌, ◌*◌, ◌/◌, ◌%◌, ◌≤◌}
use Prim.Native.Nat.{bit_xor, digits, differ, bit_xor-bitwise}
use mathlib.Core.Logic.{◌⊎◌, inl, inr}
use mathlib.Core.Path.{◌≡◌, refl, sym, ap, ◌∙◌}
use native.Mathlib.Omega.{arith}

-- The digits of an exclusive or, `n` of them at most.
abbrev xor_digits : ℕ → ℕ → ℕ → ℕ
xor_digits = digits (λ y. y) differ

no_digits : (n b : ℕ) → xor_digits n 0 b ≡ b
no_digits zero b = refl
no_digits (suc n) b = refl

-- Rounds beyond the first number's digits are spare.
spare_rounds : (few many a b : ℕ) → a ≤ few → few ≤ many → xor_digits many a b ≡ xor_digits few a b
spare_rounds few many zero b h more = no_digits many b ∙ sym (no_digits few b)
spare_rounds (suc few) (suc many) (suc a) b h more =
    rw (spare_rounds few many (suc a / 2) (b / 2) (omega arith) (omega arith))
spare_rounds zero many (suc a) b h more = absurd (omega arith)
spare_rounds few zero (suc a) b h more = absurd (omega arith)

one_digit : (x y : ℕ) → (x ≡ 0) ⊎ (x ≡ 1) → (y ≡ 0) ⊎ (y ≡ 1) → differ x y ≡ (x + y) % 2
one_digit x y (inl p) (inl q) = rw (p, q) refl
one_digit x y (inl p) (inr q) = rw (p, q) refl
one_digit x y (inr p) (inl q) = rw (p, q) refl
one_digit x y (inr p) (inr q) = rw (p, q) refl

low_digit : (a b : ℕ) → differ (a % 2) (b % 2) ≡ (a + b) % 2
low_digit a b = one_digit (a % 2) (b % 2) (omega arith) (omega arith) ∙ omega arith

high_digits : (a b : ℕ) → xor_digits a (suc a / 2) b ≡ bit_xor (suc a / 2) b
high_digits a b =
    spare_rounds (suc a / 2) a (suc a / 2) b (omega arith) (omega arith)
    ∙ sym (bit_xor-bitwise (suc a / 2) b)

pub bit_xor_step : (a b : ℕ) → bit_xor a b ≡ bit_xor (a / 2) (b / 2) * 2 + (a + b) % 2
bit_xor_step zero b = bit_xor-bitwise 0 b ∙ omega (arith, bit_xor-bitwise 0 (b / 2))
bit_xor_step (suc a) b =
    bit_xor-bitwise (suc a) b ∙ omega (arith, high_digits a (b / 2), low_digit (suc a) b)

-- Each law goes from the halves to the whole, under a bound on the numbers.
pub zero-bit_xor : (b : ℕ) → bit_xor 0 b ≡ b
zero-bit_xor b = bit_xor-bitwise 0 b

bit_xor_comm_below : (n a b : ℕ) → a ≤ n → b ≤ n → bit_xor a b ≡ bit_xor b a
bit_xor_comm_below zero zero zero p q = refl
bit_xor_comm_below zero zero (suc b) p q = absurd (omega arith)
bit_xor_comm_below zero (suc a) b p q = absurd (omega arith)
bit_xor_comm_below (suc n) a b p q = omega (
  arith,
  bit_xor_step a b,
  bit_xor_step b a,
  bit_xor_comm_below n (a / 2) (b / 2) (omega arith) (omega arith),
)

pub bit_xor_comm : (a b : ℕ) → bit_xor a b ≡ bit_xor b a
bit_xor_comm a b = bit_xor_comm_below (a + b) a b (omega arith) (omega arith)

pub bit_xor-zero : (a : ℕ) → bit_xor a 0 ≡ a
bit_xor-zero a = bit_xor_comm a 0 ∙ zero-bit_xor a

bit_xor_self_below : (n a : ℕ) → a ≤ n → bit_xor a a ≡ 0
bit_xor_self_below n zero p = refl
bit_xor_self_below zero (suc a) p = absurd (omega arith)
bit_xor_self_below (suc n) (suc a) p =
    omega (arith, bit_xor_step (suc a) (suc a), bit_xor_self_below n (suc a / 2) (omega arith))

pub bit_xor_self : (a : ℕ) → bit_xor a a ≡ 0
bit_xor_self a = bit_xor_self_below a a (omega arith)

bit_xor_halves :
    (a b : ℕ) → (bit_xor a b / 2 ≡ bit_xor (a / 2) (b / 2)) × (bit_xor a b % 2 ≡ (a + b) % 2)
bit_xor_halves a b = omega (arith, bit_xor_step a b)

bit_xor_assoc_below :
    (n a b c : ℕ) → a ≤ n → b ≤ n → c ≤ n → bit_xor (bit_xor a b) c ≡ bit_xor a (bit_xor b c)
bit_xor_assoc_below zero zero zero zero p q r = refl
bit_xor_assoc_below zero zero zero (suc c) p q r = absurd (omega arith)
bit_xor_assoc_below zero zero (suc b) c p q r = absurd (omega arith)
bit_xor_assoc_below zero (suc a) b c p q r = absurd (omega arith)
bit_xor_assoc_below (suc n) a b c p q r =
    let ih =
      bit_xor_assoc_below n (a / 2) (b / 2) (c / 2) (omega arith) (omega arith) (omega arith) in
    let left = bit_xor_step (bit_xor a b) c in
    let right = bit_xor_step a (bit_xor b c) in
    let ab = bit_xor_halves a b in
    let bc = bit_xor_halves b c in
    omega (
      arith,
      left ∙ ap (λ (t : ℕ). bit_xor t (c / 2) * 2 + (bit_xor a b + c) % 2) ab.0,
      right ∙ ap (λ (t : ℕ). bit_xor (a / 2) t * 2 + (a + bit_xor b c) % 2) bc.0,
      ih,
      ab.1,
      bc.1,
    )

pub bit_xor_assoc : (a b c : ℕ) → bit_xor (bit_xor a b) c ≡ bit_xor a (bit_xor b c)
bit_xor_assoc a b c =
    bit_xor_assoc_below (a + b + c) a b c (omega arith) (omega arith) (omega arith)

pub bit_xor_left_comm : (a b c : ℕ) → bit_xor a (bit_xor b c) ≡ bit_xor b (bit_xor a c)
bit_xor_left_comm a b c =
    sym (bit_xor_assoc a b c) ∙ ap (λ (t : ℕ). bit_xor t c) (bit_xor_comm a b) ∙ bit_xor_assoc b a c

pub bit_xor_cancel : (a b : ℕ) → bit_xor a (bit_xor a b) ≡ b
bit_xor_cancel a b =
    sym (bit_xor_assoc a a b) ∙ ap (λ (t : ℕ). bit_xor t b) (bit_xor_self a) ∙ zero-bit_xor b

-- Sorting and cancelling the terms of an exclusive or.
pub ruleset xor_laws = (
  bit_xor_assoc, bit_xor_comm, bit_xor_left_comm, bit_xor_self, bit_xor_cancel, bit_xor-zero,
  zero-bit_xor,
)

xor_laws_example :
    (a b c d : ℕ) → bit_xor (bit_xor a b) (bit_xor (bit_xor c a) d) ≡ bit_xor d (bit_xor b c)
xor_laws_example a b c d = simp xor_laws
