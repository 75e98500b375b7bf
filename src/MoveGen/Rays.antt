-- ===== src/MoveGen/Rays.antt =====
-- Facts on the attack tables and rays, by evaluation at the 64 squares (src/chess/move_gen.cpp).
use chess_engine.Base.{ℕ, zero, suc, ◌<◌, ◌≤◌, ◌≡◌, refl, ap, ◌≢◌, List, [], ◌∷◌, inl, inr}
use chess_engine.Base.{Bool, true, ◌&&◌, not, ltb, ◌==◌, arith, Option-cases}
use chess_engine.Base.Lists.{length, All}
use chess_engine.Base.Range.{passes, passes_each}
use chess_engine.MoveGen.Geometry.{Offset, shift_both, knight_targets, king_targets, rook_rays}
use chess_engine.MoveGen.Geometry.{bishop_rays, ray, ray_from}
use chess_engine.Types.{make_square, rank_of, file_of}

-- Squares of the board other than `sq`.
abbrev pub AreOthers : ℕ → List ℕ → Type 0
AreOthers sq = All (λ t. (t < 64) × (sq ≢ t))

are_others : ℕ → List ℕ → Bool
are_others sq [] = true
are_others sq (t ∷ ts) = ltb t 64 && (not (sq == t) && are_others sq ts)

are_others-AreOthers : (sq : ℕ) (ts : List ℕ) → are_others sq ts ≡ true → AreOthers sq ts
unfolding are_others
are_others-AreOthers sq [] h = tt
are_others-AreOthers sq (t ∷ ts) h =
    ((ground arith, ground arith), are_others-AreOthers sq ts (ground arith))

-- On each ray at most seven squares, all other ones.
rays_checked : ℕ → List Offset → Bool
unfolding are_others
rays_checked sq [] = true
rays_checked sq (d ∷ ds) =
    are_others sq (ray sq d) && (ltb (length (ray sq d)) 8 && rays_checked sq ds)

abbrev pub AreShortRays : ℕ → List Offset → Type 0
AreShortRays sq = All (λ d. AreOthers sq (ray sq d) × (length (ray sq d) < 8))

rays_checked-AreShortRays :
    (sq : ℕ) (ds : List Offset) → rays_checked sq ds ≡ true → AreShortRays sq ds
unfolding rays_checked
rays_checked-AreShortRays sq [] h = tt
rays_checked-AreShortRays sq (d ∷ ds) h = (
  (are_others-AreOthers sq (ray sq d) (ground arith), ground arith),
  rays_checked-AreShortRays sq ds (ground arith),
)

pub knight_targets-AreOthers : (sq : ℕ) → sq < 64 → AreOthers sq (knight_targets sq)
unfolding passes are_others knight_targets
knight_targets-AreOthers sq h =
    are_others-AreOthers sq (knight_targets sq)
      (passes_each 64 0 sq (λ n. are_others n (knight_targets n)) refl (omega arith) h)

pub king_targets-AreOthers : (sq : ℕ) → sq < 64 → AreOthers sq (king_targets sq)
unfolding passes are_others king_targets
king_targets-AreOthers sq h =
    are_others-AreOthers sq (king_targets sq)
      (passes_each 64 0 sq (λ n. are_others n (king_targets n)) refl (omega arith) h)

pub rook_rays-AreShortRays : (sq : ℕ) → sq < 64 → AreShortRays sq rook_rays
unfolding passes rays_checked ray
rook_rays-AreShortRays sq h =
    rays_checked-AreShortRays sq rook_rays
      (passes_each 64 0 sq (λ n. rays_checked n rook_rays) refl (omega arith) h)

pub bishop_rays-AreShortRays : (sq : ℕ) → sq < 64 → AreShortRays sq bishop_rays
unfolding passes rays_checked ray
bishop_rays-AreShortRays sq h =
    rays_checked-AreShortRays sq bishop_rays
      (passes_each 64 0 sq (λ n. rays_checked n bishop_rays) refl (omega arith) h)

-- A ray that ends before its fuel does not need more.
ray_from-longer :
    (f g r c : ℕ) (d : Offset)
    → f ≤ g
    → length (ray_from f r c d) < f
    → ray_from g r c d ≡ ray_from f r c d
unfolding ray_from
ray_from-longer zero g r c d p h = absurd (omega arith)
ray_from-longer (suc f) zero r c d p h = absurd (omega arith)
ray_from-longer (suc f) (suc g) r c d p h = elim (Option-cases (shift_both r c d)) [
  | inl e ↦ rw (e, ray_from)
  | inr ((nr, nc), e) ↦
      let shorter : suc (length (ray_from f nr nc d)) < suc f = rw (e, ray_from) at h in
      rw (e, ray_from)
        (ap (◌∷◌ (make_square nr nc)) (ray_from-longer f g nr nc d (omega arith) (omega arith)))
]

one_ray :
    (sq : ℕ) (d : Offset) (n : ℕ)
    → 8 ≤ n
    → length (ray sq d) < 8
    → ray_from n (rank_of sq) (file_of sq) d ≡ ray sq d
unfolding ray
one_ray sq d n p h = ray_from-longer 8 n (rank_of sq) (file_of sq) d p h

-- More than eight rounds of a ray's loop change nothing, from any square of the board, in any of
-- the eight directions.
abbrev pub IsFinished : ℕ → List Offset → Type 0
IsFinished sq = All (λ d. (n : ℕ) → 8 ≤ n → ray_from n (rank_of sq) (file_of sq) d ≡ ray sq d)

finished : (sq : ℕ) (ds : List Offset) → AreShortRays sq ds → IsFinished sq ds
finished sq [] h = tt
finished sq (d ∷ ds) h = (enough, finished sq ds h.1)
  where
    enough : (n : ℕ) → 8 ≤ n → ray_from n (rank_of sq) (file_of sq) d ≡ ray sq d
    enough n p = one_ray sq d n p h.0.1

pub ray-IsFinished : (sq : ℕ) → sq < 64 → IsFinished sq rook_rays × IsFinished sq bishop_rays
ray-IsFinished sq h = (
  finished sq rook_rays (rook_rays-AreShortRays sq h),
  finished sq bishop_rays (bishop_rays-AreShortRays sq h),
)
