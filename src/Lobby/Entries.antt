-- ===== src/Lobby/Entries.antt =====
-- Where an entry of the matchmaker's queue is (src/game/matchmaker.cpp): how often a connection
-- stands in a bucket, in all buckets and in the pairs, through every operation on the lists.
use chess_engine.Base.{ℕ, ◌+◌, ◌*◌, ◌≤◌, false, ◌≡◌, refl, arith}
use chess_engine.Base.{if◌then◌else◌, none, some, List, [], ◌∷◌, ◌++◌}
use chess_engine.Base.Lists.{length}
use chess_engine.Base.Dict.{find, put, erase_found}
use chess_engine.Base.Int.{ℤ, eqb_ℤ}
use chess_engine.Room.State.{TimeControl}
use chess_engine.Lobby.Queue.{QueueEntry, fd_of, tc_eq, insert_entry, erase_entry, shrunk, walk}
use chess_engine.Lobby.Queue.{match_bucket, sweep_buckets}

abbrev pub Buckets : Type 0
Buckets = List (TimeControl × List QueueEntry)

abbrev pub entries_at : TimeControl → Buckets → List QueueEntry
entries_at tc buckets = elim (find tc_eq tc buckets) [ none ↦ [] | some bucket ↦ bucket ]

unfoldable pub seat : ℤ → QueueEntry → ℕ
seat fd e = if eqb_ℤ (fd_of e) fd then 1 else 0

-- The weights of the entries, summed: the seats of a connection, or 1 for each.
module _ (weight : QueueEntry → ℕ) where
  unfoldable pub total : List QueueEntry → ℕ
  total [] = 0
  total (x ∷ xs) = weight x + total xs

  unfoldable pub total_all : Buckets → ℕ
  unfolding total
  total_all [] = 0
  total_all ((tc, bucket) ∷ buckets) = total bucket + total_all buckets

  unfoldable pub total_pairs : List (QueueEntry × QueueEntry) → ℕ
  total_pairs [] = 0
  total_pairs ((a, b) ∷ pairs) = weight a + weight b + total_pairs pairs

  pub total-insert_entry :
      (e : QueueEntry) (xs : List QueueEntry) → total (insert_entry e xs) ≡ weight e + total xs
  unfolding total insert_entry
  total-insert_entry e [] = refl
  total-insert_entry e (x ∷ xs) = ground (arith, total-insert_entry e xs)

  pub total-walk :
      (now : ℕ) (a : QueueEntry) (xs : List QueueEntry)
      → total_pairs (walk now a xs).0 + total (walk now a xs).1 ≡ weight a + total xs
  unfolding total total_pairs walk
  total-walk now a [] = omega arith
  total-walk now a (b ∷ []) = ground arith
  total-walk now a (b ∷ c ∷ rest) =
      ground (arith, total-walk now c rest, total-walk now b (c ∷ rest))

  pub total-match_bucket :
      (now : ℕ) (xs : List QueueEntry)
      → total_pairs (match_bucket now xs).0 + total (match_bucket now xs).1 ≡ total xs
  unfolding total total_pairs match_bucket
  total-match_bucket now [] = refl
  total-match_bucket now (a ∷ rest) = total-walk now a rest

  pub total_pairs-append :
      (front back : List (QueueEntry × QueueEntry))
      → total_pairs (front ++ back) ≡ total_pairs front + total_pairs back
  unfolding total_pairs
  total_pairs-append [] back = omega arith
  total_pairs-append ((a, b) ∷ front) back = ground (arith, total_pairs-append front back)

  pub total-sweep_buckets :
      (now : ℕ) (buckets : Buckets)
      → total_all (sweep_buckets now buckets).0 + total_pairs (sweep_buckets now buckets).1
        ≡ total_all buckets
  unfolding total_all total_pairs sweep_buckets
  total-sweep_buckets now [] = refl
  total-sweep_buckets now ((tc, bucket) ∷ buckets) =
      let pairs = (match_bucket now bucket).0 in
      let more = (sweep_buckets now buckets).1 in
      ground (
        arith,
        total_pairs-append pairs more,
        total-match_bucket now bucket,
        total-sweep_buckets now buckets,
      )

  pub total_all-put :
      (tc : TimeControl) (xs : List QueueEntry) (buckets : Buckets)
      → total_all (put tc_eq tc xs buckets) + total (entries_at tc buckets)
        ≡ total xs + total_all buckets
  unfolding total total_all put find
  total_all-put tc xs [] = omega arith
  total_all-put tc xs ((j, w) ∷ buckets) = ground (arith, total_all-put tc xs buckets)

  pub total_all-shrunk :
      (tc : TimeControl) (xs bucket : List QueueEntry) (buckets : Buckets)
      → find tc_eq tc buckets ≡ some bucket
      → total_all (shrunk tc xs buckets) + total bucket ≡ total xs + total_all buckets
  unfolding total total_all put erase_found find
  total_all-shrunk tc (x ∷ xs) bucket [] h = ground (arith, h)
  total_all-shrunk tc [] bucket [] h = ground (arith, h)
  total_all-shrunk tc (x ∷ xs) bucket ((j, w) ∷ buckets) h =
      let others = total_all-shrunk tc (x ∷ xs) bucket buckets in ground (arith, h, others)
  total_all-shrunk tc [] bucket ((j, w) ∷ buckets) h =
      let others = total_all-shrunk tc [] bucket buckets in ground (arith, h, others)

  -- One bucket holds no more than all of them.
  pub total-entries_at :
      (tc : TimeControl) (buckets : Buckets) → total (entries_at tc buckets) ≤ total_all buckets
  unfolding total total_all find
  total-entries_at tc [] = omega arith
  total-entries_at tc ((j, w) ∷ buckets) = ground (arith, total-entries_at tc buckets)

module _ (fd : ℤ) where
  abbrev pub count : List QueueEntry → ℕ
  count = total (seat fd)

  abbrev pub count_all : Buckets → ℕ
  count_all = total_all (seat fd)

  abbrev pub count_pairs : List (QueueEntry × QueueEntry) → ℕ
  count_pairs = total_pairs (seat fd)

  pub count-erase_entry : (xs : List QueueEntry) → count xs ≡ 1 → count (erase_entry fd xs) ≡ 0
  unfolding total erase_entry seat
  count-erase_entry [] h = omega arith
  count-erase_entry (x ∷ xs) h = ground (arith, h, count-erase_entry xs)

  -- Another connection keeps its entries.
  pub count-erase_other :
      (g : ℤ) (xs : List QueueEntry)
      → eqb_ℤ fd g ≡ false
      → total (seat g) (erase_entry fd xs) ≡ total (seat g) xs
  unfolding total erase_entry seat
  count-erase_other g [] ne = refl
  count-erase_other g (x ∷ xs) ne = ground (arith, ne, count-erase_other g xs ne)

  pub length-erase_entry :
      (xs : List QueueEntry)
      → count xs ≡ 1
      → total (λ _. 1) (erase_entry fd xs) + 1 ≡ total (λ _. 1) xs
  unfolding total erase_entry seat
  length-erase_entry [] h = omega arith
  length-erase_entry (x ∷ xs) h = ground (arith, h, length-erase_entry xs)

unfoldable pub size_all : Buckets → ℕ
size_all [] = 0
size_all ((tc, bucket) ∷ buckets) = length bucket + size_all buckets

pub total-length : (xs : List QueueEntry) → total (λ _. 1) xs ≡ length xs
unfolding total
total-length [] = refl
total-length (x ∷ xs) = ground (arith, total-length xs)

pub total_all-size_all : (buckets : Buckets) → total_all (λ _. 1) buckets ≡ size_all buckets
unfolding total_all size_all
total_all-size_all [] = refl
total_all-size_all ((tc, bucket) ∷ buckets) =
    ground (arith, total-length bucket, total_all-size_all buckets)

pub total_pairs-length :
    (pairs : List (QueueEntry × QueueEntry)) → total_pairs (λ _. 1) pairs ≡ 2 * length pairs
unfolding total_pairs
total_pairs-length [] = refl
total_pairs-length ((a, b) ∷ pairs) = ground (arith, total_pairs-length pairs)
