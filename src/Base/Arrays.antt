-- ===== src/Base/Arrays.antt =====
-- Fixed arrays as functions of the index, and folds over the first `n` indices.
use Prim.Native.Nat.{ℕ, zero, suc, ◌<◌, bit_xor}
use mathlib.Core.Path.{◌≡◌, refl, sym, fun_ext}
use mathlib.Core.Logic.{◌≢◌}
use native.Mathlib.Decide.{dec_lt}
use native.Mathlib.Omega.{arith}
use chess_engine.Base.Bits.{xor_laws}
use chess_engine.Base.Tests.{◌==◌, if◌then◌else◌}

-- The array `f` after `f[i] = v`.
abbrev pub update {ℓ} : {A : Type ℓ} → (ℕ → A) → ℕ → A → ℕ → A
update f i v j = if i == j then v else f j

module _ {A : Type 0} where
  pub update_at : (f : ℕ → A) (i : ℕ) (v : A) → update f i v i ≡ v
  update_at f i v = ground arith

  pub update_other : (f : ℕ → A) (i j : ℕ) (v : A) → i ≢ j → update f i v j ≡ f j
  update_other f i j v h = ground arith

  pub update_again : (f : ℕ → A) (i : ℕ) (v w : A) → update (update f i v) i w ≡ update f i w
  update_again f i v w = fun_ext λ j. ground arith

  pub update_undone : (f : ℕ → A) (i : ℕ) (v w : A) → f i ≡ w → update (update f i v) i w ≡ f
  update_undone f i v w e = fun_ext λ j. ground arith

  -- Putting back the two entries at which `g` differs from `f`.
  pub update_both :
      (f g : ℕ → A) (a b : ℕ)
      → ((j : ℕ) → a ≢ j → b ≢ j → g j ≡ f j)
      → update (update g a (f a)) b (f b) ≡ f
  update_both f g a b h = fun_ext λ j. ground (arith, h j)

-- The exclusive or of `w 0 … w (n - 1)`.
pub xor_below : ℕ → (ℕ → ℕ) → ℕ
xor_below zero w = 0
xor_below (suc n) w = bit_xor (xor_below n w) (w n)

pub xor_below_ext :
    (n : ℕ) (v w : ℕ → ℕ) → ((i : ℕ) → i < n → v i ≡ w i) → xor_below n v ≡ xor_below n w
unfolding xor_below
xor_below_ext zero v w h = refl
xor_below_ext (suc n) v w h =
    ground (arith, xor_below_ext n v w (λ i p. h i (omega arith)), h n (omega arith))

-- Two families that differ at index `i` alone.
pub xor_below_change :
    (n : ℕ) (v w : ℕ → ℕ) (i : ℕ)
    → i < n
    → ((j : ℕ) → i ≢ j → v j ≡ w j)
    → xor_below n w ≡ bit_xor (xor_below n v) (bit_xor (v i) (w i))
unfolding xor_below
xor_below_change zero v w i p h = absurd (omega arith)
xor_below_change (suc n) v w i p h = elim (dec_lt i n) [
  | yes below ↦
      rw (xor_below_change n v w i below h, ← h n (λ e. absurd (omega arith))) (simp xor_laws)
  | no last ↦
      let e : i ≡ n = omega arith in
      rw (e, xor_below_ext n w v (λ j q. sym (h j (λ d. absurd (omega arith))))) (simp xor_laws)
]
