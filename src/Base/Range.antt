-- ===== src/Base/Range.antt =====
-- Checking each number of a range by evaluation.
use Prim.Native.Nat.{ℕ, zero, suc, ◌+◌, ◌≤◌, ◌<◌}
use mathlib.Core.Path.{◌≡◌, sym}
use mathlib.Core.Logic.{inl, inr}
use mathlib.Core.Bool.{Bool, true, ◌&&◌}
use native.Mathlib.Omega.{arith}
use chess_engine.Base.Tests.{◌==◌, Bool-cases}

-- A test of the `n` numbers from `i` up.
unfoldable pub passes : ℕ → ℕ → (ℕ → Bool) → Bool
passes zero i test = true
passes (suc n) i test = test i && passes n (suc i) test

-- Where the test of the numbers from `i` to `i + n - 1` passes, each of them does.
pub passes_each :
    (n i sq : ℕ) (test : ℕ → Bool) → passes n i test ≡ true → i ≤ sq → sq < i + n → test sq ≡ true
unfolding passes
passes_each zero i sq test h low high = absurd (omega arith)
passes_each (suc n) i sq test h low high = elim (Bool-cases (i == sq)) [
  | inl e ↦ let same : i ≡ sq = ground arith in rw (sym same) (ground arith)
  | inr e ↦ passes_each n (suc i) sq test (ground arith) (ground arith) (omega arith)
]
