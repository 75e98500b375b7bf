-- ===== src/Engine/Reversed.antt =====
-- The loops of the evaluation (src/chess/evaluator.cpp) over the ranks in the opposite order.
use chess_engine.Base.{ℕ, zero, suc, ◌+◌, ◌-◌, ◌*◌, ◌/◌, ◌%◌, ◌<◌, ◌≡◌, refl, arith, bit_xor, Bool}
use chess_engine.Base.{true, ◌&&◌, ap, ap₂, ◌∙◌, sym, ◌==◌}
use chess_engine.Base.Range.{passes, passes_each}
use chess_engine.Base.Int.{ℤ, pos, ◌+ℤ◌, ◌-ℤ◌, int_laws}
use chess_engine.Engine.Evaluate.{sum_from}

-- Two ranges with the same values.
pub sum_from-shift :
    (n a b : ℕ) (f g : ℕ → ℤ)
    → ((i : ℕ) → i < n → f (a + i) ≡ g (b + i))
    → sum_from a n f ≡ sum_from b n g
unfolding sum_from
sum_from-shift zero a b f g h = refl
sum_from-shift (suc n) a b f g h =
    let first : f a ≡ g b = ap f (omega arith) ∙ h 0 (omega arith) ∙ ap g (omega arith) in
    let rest =
      sum_from-shift n (a + 1) (b + 1) f g
        (λ i p. ap f (omega arith) ∙ h (suc i) (omega arith) ∙ ap g (omega arith)) in
    ap₂ (λ v w. v +ℤ w) first rest

pub sum_from-board :
    (f g : ℕ → ℤ) → ((sq : ℕ) → sq < 64 → f sq ≡ g sq) → sum_from 0 64 f ≡ sum_from 0 64 g
sum_from-board f g h =
    sum_from-shift 64 0 0 f g
      (λ i p. let here : 0 + i ≡ i = omega arith in ap f here ∙ h i p ∙ ap g (sym here))

+ℤ_zero : (x : ℤ) → pos 0 +ℤ x ≡ x
+ℤ_zero x = grind int_laws

+ℤ_assoc : (x y z : ℤ) → x +ℤ y +ℤ z ≡ x +ℤ (y +ℤ z)
+ℤ_assoc x y z = grind int_laws

sum_from-split :
    (n m a : ℕ) (f : ℕ → ℤ) → sum_from a (n + m) f ≡ sum_from a n f +ℤ sum_from (a + n) m f
unfolding sum_from
sum_from-split zero m a f =
    ap₂ (λ n b. sum_from b n f) (omega arith) (omega arith) ∙ sym (+ℤ_zero (sum_from (a + 0) m f))
sum_from-split (suc n) m a f =
    let rest = sum_from-split n m (a + 1) f in
    let parts : sum_from a (suc (n + m)) f ≡ sum_from a (suc n) f +ℤ sum_from (a + 1 + n) m f =
      ap (λ v. f a +ℤ v) rest
      ∙ sym (+ℤ_assoc (f a) (sum_from (a + 1) n f) (sum_from (a + 1 + n) m f)) in
    let count : suc n + m ≡ suc (n + m) = omega arith in
    let place : a + 1 + n ≡ a + suc n = omega arith in
    ap (λ k. sum_from a k f) count ∙ parts ∙ ap (λ b. sum_from a (suc n) f +ℤ sum_from b m f) place

-- The ranks, from the first to the last, and from the last to the first.
rank_sum : (ℕ → ℤ) → ℕ → ℤ
rank_sum f r = sum_from (8 * r) 8 f

sum_from-ranks :
    (f : ℕ → ℤ)
    → sum_from 0 64 f
      ≡ rank_sum f 0
        +ℤ (rank_sum f 1
            +ℤ (rank_sum f 2
                +ℤ (rank_sum f 3
                    +ℤ (rank_sum f 4 +ℤ (rank_sum f 5 +ℤ (rank_sum f 6 +ℤ rank_sum f 7))))))
unfolding rank_sum
sum_from-ranks f =
    sum_from-split 8 56 0 f
    ∙ ap (λ v. rank_sum f 0 +ℤ v)
        (sum_from-split 8 48 8 f
          ∙ ap (λ v. rank_sum f 1 +ℤ v)
              (sum_from-split 8 40 16 f
                ∙ ap (λ v. rank_sum f 2 +ℤ v)
                    (sum_from-split 8 32 24 f
                      ∙ ap (λ v. rank_sum f 3 +ℤ v)
                          (sum_from-split 8 24 32 f
                            ∙ ap (λ v. rank_sum f 4 +ℤ v)
                                (sum_from-split 8 16 40 f
                                  ∙ ap (λ v. rank_sum f 5 +ℤ v) (sum_from-split 8 8 48 f))))))

eight_reversed :
    (a b c d e f g h : ℤ)
    → a +ℤ (b +ℤ (c +ℤ (d +ℤ (e +ℤ (f +ℤ (g +ℤ h))))))
      ≡ h +ℤ (g +ℤ (f +ℤ (e +ℤ (d +ℤ (c +ℤ (b +ℤ a))))))
eight_reversed a b c d e f g h = grind int_laws

abbrev pub lies_opposite : ℕ → Bool
lies_opposite sq = bit_xor sq 56 == 8 * (7 - sq / 8) + sq % 8 && bit_xor (bit_xor sq 56) 56 == sq

pub opposite_checked : passes 64 0 lies_opposite ≡ true
unfolding passes
opposite_checked = refl

-- Eight terms at once.
rows :
    {a b c d e f g h p q r s t u v w : ℤ}
    → a ≡ p
    → b ≡ q
    → c ≡ r
    → d ≡ s
    → e ≡ t
    → f ≡ u
    → g ≡ v
    → h ≡ w
    → a +ℤ (b +ℤ (c +ℤ (d +ℤ (e +ℤ (f +ℤ (g +ℤ h))))))
      ≡ p +ℤ (q +ℤ (r +ℤ (s +ℤ (t +ℤ (u +ℤ (v +ℤ w))))))
rows ea eb ec ed ee ef eg eh =
    ap₂ (λ x y. x +ℤ y) ea
      (ap₂ (λ x y. x +ℤ y) eb
        (ap₂ (λ x y. x +ℤ y) ec
          (ap₂ (λ x y. x +ℤ y) ed
            (ap₂ (λ x y. x +ℤ y) ee (ap₂ (λ x y. x +ℤ y) ef (ap₂ (λ x y. x +ℤ y) eg eh))))))

pub opposite_rank : (r i : ℕ) → r < 8 → i < 8 → bit_xor (8 * r + i) 56 ≡ 8 * (7 - r) + i
opposite_rank r i p q =
    let checked =
      passes_each 64 0 (8 * r + i) lies_opposite opposite_checked (omega arith) (omega arith) in
    ground (arith, checked)

rank_sum-mirror :
    (f : ℕ → ℤ) (r : ℕ) → r < 8 → rank_sum (λ sq. f (bit_xor sq 56)) r ≡ rank_sum f (7 - r)
unfolding rank_sum
rank_sum-mirror f r p =
    sum_from-shift 8 (8 * r) (8 * (7 - r)) (λ sq. f (bit_xor sq 56)) f
      (λ i q. ap f (opposite_rank r i p q))

-- The sum over the board does not change where the ranks are taken in the opposite order.
pub sum_from-mirror : (f : ℕ → ℤ) → sum_from 0 64 (λ sq. f (bit_xor sq 56)) ≡ sum_from 0 64 f
sum_from-mirror f =
    let g : ℕ → ℤ = λ sq. f (bit_xor sq 56) in
    let row = rank_sum-mirror f in
    sum_from-ranks g
    ∙ rows (row 0 (omega arith)) (row 1 (omega arith)) (row 2 (omega arith)) (row 3 (omega arith))
        (row 4 (omega arith)) (row 5 (omega arith)) (row 6 (omega arith)) (row 7 (omega arith))
    ∙ eight_reversed (rank_sum f 7) (rank_sum f 6) (rank_sum f 5) (rank_sum f 4) (rank_sum f 3)
        (rank_sum f 2) (rank_sum f 1) (rank_sum f 0)
    ∙ sym (sum_from-ranks f)

pub swapped_difference : (x y : ℤ) → y -ℤ x ≡ pos 0 -ℤ (x -ℤ y)
swapped_difference x y = grind int_laws
