-- ===== src/Lobby/Matched.antt =====
-- Matching the players of the queue (src/game/matchmaker.cpp): whom it pairs, and that the index
-- goes on agreeing with the buckets.
use chess_engine.Base.{ℕ, ◌+◌, ◌-◌, ◌*◌, ◌/◌, ◌≤◌, true, false, ◌&&◌, ◌≡◌, refl, sym}
use chess_engine.Base.{arith, ◌∙◌, ◌==◌}
use chess_engine.Base.{some, List, [], ◌∷◌, Bool-cases, inl, inr}
use chess_engine.Base.Lists.{All, All-append}
use chess_engine.Base.Dict.{find, erase, has_key, find-erase_other, find-none}
use chess_engine.Base.Int.{ℤ, pos, ◌-ℤ◌, ◌≤ℤ◌, eqb_ℤ, int_laws}
use chess_engine.Board.State.{Board}
use chess_engine.Room.State.{TimeControl}
use chess_engine.Lobby.Rooms.{RoomManager}
use chess_engine.Lobby.Queue.{
  QueueEntry, fd_of, tc_eq, Matchmaker, acceptable_range, compatible, walk,
}
use chess_engine.Lobby.Queue.{match_bucket, sweep_buckets, forget_pairs, try_match}
use chess_engine.Lobby.Entries.{Buckets, entries_at, seat, total_pairs, count}
use chess_engine.Lobby.Entries.{count_pairs}
use chess_engine.Lobby.Entries.{total-match_bucket, total-sweep_buckets, total_pairs-append}
use chess_engine.Lobby.Entries.{total_all-size_all, total_pairs-length}
use chess_engine.Lobby.Consistent.{IsConsistent, eqb_ℤ-Apart, has_key-erase}

abbrev pub Pairs : Type 0
Pairs = List (QueueEntry × QueueEntry)

-- The points by which two ratings may differ after a wait: 200, and 50 for every ten seconds.
abbrev pub Accepts : ℕ → QueueEntry → QueueEntry → Type 0
Accepts now e other =
    (e.player.elo -ℤ other.player.elo ≤ℤ pos (200 + 50 * ((now - e.enqueue_time) / 10000)))
    × (other.player.elo -ℤ e.player.elo ≤ℤ pos (200 + 50 * ((now - e.enqueue_time) / 10000)))

abbrev pub BothAccept : ℕ → QueueEntry × QueueEntry → Type 0
BothAccept now (a, b) = Accepts now a b × Accepts now b a

compatible-BothAccept :
    (now : ℕ) (a b : QueueEntry) → compatible now a b ≡ true → BothAccept now (a, b)
unfolding compatible acceptable_range
compatible-BothAccept now a b h = grind (int_laws, h)

walk-BothAccept :
    (now : ℕ) (a : QueueEntry) (xs : List QueueEntry) → All (BothAccept now) (walk now a xs).0
unfolding walk
walk-BothAccept now a [] = tt
walk-BothAccept now a (b ∷ []) = elim (Bool-cases (compatible now a b)) [
  | inl h ↦ rw h (compatible-BothAccept now a b h, tt)
  | inr h ↦ rw h tt
]
walk-BothAccept now a (b ∷ c ∷ rest) = elim (Bool-cases (compatible now a b)) [
  | inl h ↦ rw (h, All) (compatible-BothAccept now a b h, walk-BothAccept now c rest)
  | inr h ↦ rw (h, All) (walk-BothAccept now b (c ∷ rest))
]

-- In every pair that one sweep makes, the ratings differ by no more than 200 points and 50 for every
-- whole ten seconds that the one player has waited, and as much for the other player.
pub sweep_buckets-BothAccept :
    (now : ℕ) (buckets : Buckets) → All (BothAccept now) (sweep_buckets now buckets).1
unfolding sweep_buckets match_bucket
sweep_buckets-BothAccept now [] = tt
sweep_buckets-BothAccept now ((tc, []) ∷ buckets) = sweep_buckets-BothAccept now buckets
sweep_buckets-BothAccept now ((tc, a ∷ rest) ∷ buckets) =
    All-append (BothAccept now) (walk now a rest).0 (sweep_buckets now buckets).1
      (walk-BothAccept now a rest) (sweep_buckets-BothAccept now buckets)

pub entries_at-sweep_buckets :
    (now : ℕ) (tc : TimeControl) (buckets : Buckets)
    → entries_at tc (sweep_buckets now buckets).0 ≡ (match_bucket now (entries_at tc buckets)).1
unfolding sweep_buckets find match_bucket
entries_at-sweep_buckets now tc [] = refl
entries_at-sweep_buckets now tc ((j, w) ∷ buckets) = elim (Bool-cases (tc_eq j tc)) [
  | inl h ↦ ground (arith, h)
  | inr h ↦ ground (arith, h, entries_at-sweep_buckets now tc buckets)
]

-- One bucket's pairs are among all pairs.
pub total_pairs-sweep_buckets :
    (weight : QueueEntry → ℕ) (now : ℕ) (tc : TimeControl) (buckets : Buckets)
    → total_pairs weight (match_bucket now (entries_at tc buckets)).0
      ≤ total_pairs weight (sweep_buckets now buckets).1
unfolding sweep_buckets find match_bucket total_pairs
total_pairs-sweep_buckets weight now tc [] = omega arith
total_pairs-sweep_buckets weight now tc ((j, w) ∷ buckets) =
    let own = (match_bucket now w).0 in
    let others = (sweep_buckets now buckets).1 in
    ground
      (arith, total_pairs-append weight own others, total_pairs-sweep_buckets weight now tc buckets)

pub has_key-some :
    (fd : ℤ) (tc : TimeControl) (index : List (ℤ × TimeControl))
    → find eqb_ℤ fd index ≡ some tc
    → has_key eqb_ℤ fd index ≡ true
has_key-some fd tc index h = elim (Bool-cases (has_key eqb_ℤ fd index)) [
  | inl has ↦ has
  | inr hasnt ↦ ground (arith, h, find-none eqb_ℤ fd index hasnt)
]

-- The index after a connection is in no pair, and after it is in one.
pub find-forget_pairs :
    (fd : ℤ) (pairs : Pairs) (index : List (ℤ × TimeControl))
    → count_pairs fd pairs ≡ 0
    → find eqb_ℤ fd (forget_pairs pairs index) ≡ find eqb_ℤ fd index
unfolding forget_pairs total_pairs seat
find-forget_pairs fd [] index h = refl
find-forget_pairs fd ((a, b) ∷ pairs) index h =
    let apart_a : eqb_ℤ (fd_of a) fd ≡ false = ground (arith, h) in
    let apart_b : eqb_ℤ (fd_of b) fd ≡ false = ground (arith, h) in
    find-forget_pairs fd pairs (erase eqb_ℤ (fd_of b) (erase eqb_ℤ (fd_of a) index))
      (ground (arith, h))
    ∙ find-erase_other eqb_ℤ (fd_of b) fd (erase eqb_ℤ (fd_of a) index)
        (eqb_ℤ-Apart (fd_of b) fd apart_b)
    ∙ find-erase_other eqb_ℤ (fd_of a) fd index (eqb_ℤ-Apart (fd_of a) fd apart_a)

pub has_key-forget_pairs :
    (fd : ℤ) (pairs : Pairs) (index : List (ℤ × TimeControl))
    → has_key eqb_ℤ fd (forget_pairs pairs index)
      ≡ (count_pairs fd pairs == 0 && has_key eqb_ℤ fd index)
unfolding forget_pairs total_pairs seat
has_key-forget_pairs fd [] index = ground arith
has_key-forget_pairs fd ((a, b) ∷ pairs) index =
    let without_a = erase eqb_ℤ (fd_of a) index in
    ground (
      arith,
      has_key-forget_pairs fd pairs (erase eqb_ℤ (fd_of b) without_a),
      has_key-erase (fd_of b) fd without_a,
      has_key-erase (fd_of a) fd index,
    )

-- A connection that the index still has is in no pair, and keeps its entry.
still_found :
    (now : ℕ) (q : Matchmaker)
    → IsConsistent q
    → (fd : ℤ) (tc : TimeControl)
    → find eqb_ℤ fd (forget_pairs (sweep_buckets now q.buckets).1 q.fd_index) ≡ some tc
    → 1 ≤ count fd (entries_at tc (sweep_buckets now q.buckets).0)
still_found now q c fd tc h =
    let pairs = (sweep_buckets now q.buckets).1 in
    let has : has_key eqb_ℤ fd (forget_pairs pairs q.fd_index) ≡ true =
      has_key-some fd tc (forget_pairs pairs q.fd_index) h in
    let unpaired : count_pairs fd pairs ≡ 0 =
      ground (arith, has, has_key-forget_pairs fd pairs q.fd_index) in
    let before = c.found fd tc (sym (find-forget_pairs fd pairs q.fd_index unpaired) ∙ h) in
    let few = total_pairs-sweep_buckets (seat fd) now tc q.buckets in
    let kept = total-match_bucket (seat fd) now (entries_at tc q.buckets) in
    rw (entries_at-sweep_buckets now tc q.buckets) (ground (arith, unpaired, before, few, kept))

pub try_match-IsConsistent :
    (start : Board) (now : ℕ) (q : Matchmaker) (m : RoomManager)
    → IsConsistent q
    → IsConsistent (try_match start now q m).1.0
unfolding try_match
try_match-IsConsistent start now q m c =
    let pairs = (sweep_buckets now q.buckets).1 in
    let buckets = (sweep_buckets now q.buckets).0 in
    record {
      once = λ fd. ground (
        arith,
        c.once fd,
        total-sweep_buckets (seat fd) now q.buckets,
        has_key-forget_pairs fd pairs q.fd_index,
      );
      found = λ fd tc h. still_found now q c fd tc h;
      sized = ground (
        arith,
        c.sized,
        total-sweep_buckets (λ _. 1) now q.buckets,
        total_all-size_all q.buckets,
        total_all-size_all buckets,
        total_pairs-length pairs,
      );
    }
