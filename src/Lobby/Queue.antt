-- ===== src/Lobby/Queue.antt =====
-- The matchmaker (src/game/matchmaker.h, src/game/matchmaker.cpp).
-- A multimap by rating is a list in its order. The iterator that the index keeps for a connection
-- stands for the entry of that connection in its bucket.
use chess_engine.Base.{ℕ, ◌+◌, ◌-◌, ◌*◌, ◌/◌, Bool, true, false, ◌&&◌, leb, ◌==◌}
use chess_engine.Base.{if◌then◌else◌, none, some, List, [], ◌∷◌, ◌++◌}
use chess_engine.Base.Lists.{length}
use chess_engine.Base.Dict.{find, put, erase, erase_found, has_key}
use chess_engine.Base.Int.{ℤ, neg_part, pos_part, ◌-ℤ◌, ltb_ℤ, eqb_ℤ}
use chess_engine.Board.State.{Board}
use chess_engine.Room.State.{GameRoom, TimeControl}
use chess_engine.Room.Setup.{Newcomer, join}
use chess_engine.Lobby.Rooms.{RoomManager, create_room}

pub record QueueEntry : Type 0 where
  pub player : Newcomer
  pub time_control : TimeControl
  pub enqueue_time : ℕ

abbrev pub fd_of : QueueEntry → ℤ
fd_of e = e.player.connection_fd

-- In rating points, from a wait in milliseconds.
unfoldable pub acceptable_range : ℕ → QueueEntry → ℕ
acceptable_range now e = 200 + (now - e.enqueue_time) / 1000 / 10 * 50

abbrev pub tc_eq : TimeControl → TimeControl → Bool
tc_eq a b = a.base_time_ms == b.base_time_ms && a.increment_ms == b.increment_ms

pub record Matchmaker : Type 0 where
  pub buckets : List (TimeControl × List QueueEntry)
  pub fd_index : List (ℤ × TimeControl)
  pub total_size : ℕ

abbrev pub empty_matchmaker : Matchmaker
empty_matchmaker = record { buckets = []; fd_index = []; total_size = 0 }

-- `multimap::insert`: behind the entries of the same rating.
unfoldable pub insert_entry : QueueEntry → List QueueEntry → List QueueEntry
insert_entry e [] = e ∷ []
insert_entry e (x ∷ xs) =
    let rest = insert_entry e xs in if ltb_ℤ e.player.elo x.player.elo then e ∷ x ∷ xs else x ∷ rest

abbrev pub bucket_of : TimeControl → Matchmaker → List QueueEntry
bucket_of tc q = elim (find tc_eq tc q.buckets) [ none ↦ [] | some bucket ↦ bucket ]

unfoldable pub is_queued : ℤ → Matchmaker → Bool
is_queued fd q = has_key eqb_ℤ fd q.fd_index

unfoldable pub enqueue : ℕ → Newcomer → TimeControl → Matchmaker → Matchmaker × Bool
unfolding insert_entry
enqueue now player tc q =
    if has_key eqb_ℤ player.connection_fd q.fd_index
    then (q, false)
    else let entry : QueueEntry = record {
      player = player;
      time_control = tc;
      enqueue_time = now;
    } in
      (
        record {
          buckets = put tc_eq tc (insert_entry entry (bucket_of tc q)) q.buckets;
          fd_index = put eqb_ℤ player.connection_fd tc q.fd_index;
          total_size = q.total_size + 1;
        },
        true,
      )

-- `erase` of the connection's entry.
unfoldable pub erase_entry : ℤ → List QueueEntry → List QueueEntry
erase_entry fd [] = []
erase_entry fd (x ∷ xs) =
    let rest = erase_entry fd xs in if eqb_ℤ (fd_of x) fd then xs else x ∷ rest

-- An empty bucket is erased, too, by its iterator.
abbrev pub shrunk :
    TimeControl
    → List QueueEntry
    → List (TimeControl × List QueueEntry)
    → List (TimeControl × List QueueEntry)
shrunk tc [] buckets = erase_found tc_eq tc buckets
shrunk tc (x ∷ xs) buckets = put tc_eq tc (x ∷ xs) buckets

unfoldable pub dequeue : ℤ → Matchmaker → Matchmaker × Bool
unfolding erase_entry
dequeue fd q = elim (find eqb_ℤ fd q.fd_index) [
  | none ↦ (q, false)
  | some tc ↦ (
    record {
      buckets = elim (find tc_eq tc q.buckets) [
        | none ↦ q.buckets
        | some bucket ↦ shrunk tc (erase_entry fd bucket) q.buckets
      ];
      fd_index = erase eqb_ℤ fd q.fd_index;
      total_size = q.total_size - 1;
    },
    true,
  )
]

abbrev pub elo_gap : QueueEntry → QueueEntry → ℕ
elo_gap a b = pos_part (a.player.elo -ℤ b.player.elo) + neg_part (a.player.elo -ℤ b.player.elo)

-- Both players accept the difference.
unfoldable pub compatible : ℕ → QueueEntry → QueueEntry → Bool
unfolding acceptable_range
compatible now a b =
    leb (elo_gap a b) (acceptable_range now a) && leb (elo_gap a b) (acceptable_range now b)

-- The walk along a bucket: the pairs in order, and the entries that stay. `a` is `it`.
unfoldable pub walk :
    ℕ → QueueEntry → List QueueEntry → List (QueueEntry × QueueEntry) × List QueueEntry
unfolding compatible
walk now a [] = ([], a ∷ [])
walk now a (b ∷ []) = if compatible now a b then ((a, b) ∷ [], []) else ([], a ∷ b ∷ [])
walk now a (b ∷ c ∷ rest) = elim (compatible now a b) [
  | true ↦ let (pairs, left) = walk now c rest in ((a, b) ∷ pairs, left)
  | false ↦ let (pairs, left) = walk now b (c ∷ rest) in (pairs, a ∷ left)
]

unfoldable pub match_bucket : ℕ → List QueueEntry → List (QueueEntry × QueueEntry) × List QueueEntry
unfolding walk
match_bucket now [] = ([], [])
match_bucket now (a ∷ rest) = walk now a rest

pub record MatchResult : Type 0 where
  pub white_fd : ℤ
  pub black_fd : ℤ
  pub white_id : ℕ
  pub black_id : ℕ
  pub white_name : List ℕ
  pub black_name : List ℕ
  pub game_id : ℕ
  pub time_control : TimeControl

-- `(*room).join(...)` on the room that the registry holds under the number.
abbrev pub joined : ℕ → Newcomer → GameRoom → RoomManager → RoomManager
joined now player room m = record m { rooms = put ◌==◌ room.id (join now player room).0 m.rooms }

-- Both players leave the index.
unfoldable pub forget_pairs :
    List (QueueEntry × QueueEntry) → List (ℤ × TimeControl) → List (ℤ × TimeControl)
forget_pairs [] index = index
forget_pairs ((a, b) ∷ pairs) index =
    forget_pairs pairs (erase eqb_ℤ (fd_of b) (erase eqb_ℤ (fd_of a) index))

-- The sweep over the buckets.
unfoldable pub sweep_buckets :
    ℕ
    → List (TimeControl × List QueueEntry)
    → List (TimeControl × List QueueEntry) × List (QueueEntry × QueueEntry)
unfolding match_bucket
sweep_buckets now [] = ([], [])
sweep_buckets now ((tc, bucket) ∷ buckets) =
    let (pairs, left) = match_bucket now bucket in
    let (others, more) = sweep_buckets now buckets in ((tc, left) ∷ others, pairs ++ more)

module _ (start : Board) (now : ℕ) where
  -- The room of a pair.
  unfoldable pub start_match : QueueEntry → QueueEntry → RoomManager → MatchResult × RoomManager
  unfolding create_room
  start_match a b m =
      let (room, created) = create_room start a.time_control a.player m in
      (
        record {
          white_fd = a.player.connection_fd;
          black_fd = b.player.connection_fd;
          white_id = a.player.player_id;
          black_id = b.player.player_id;
          white_name = a.player.username;
          black_name = b.player.username;
          game_id = room.id;
          time_control = a.time_control;
        },
        joined now b.player room created,
      )

  unfoldable pub start_matches :
      List (QueueEntry × QueueEntry) → RoomManager → List MatchResult × RoomManager
  unfolding start_match
  start_matches [] m = ([], m)
  start_matches ((a, b) ∷ pairs) m =
      let (result, after) = start_match a b m in
      let (results, final) = start_matches pairs after in (result ∷ results, final)

  unfoldable pub try_match :
      Matchmaker → RoomManager → List MatchResult × (Matchmaker × RoomManager)
  unfolding sweep_buckets start_matches forget_pairs
  try_match q m =
      let (buckets, pairs) = sweep_buckets now q.buckets in
      let (results, rooms) = start_matches pairs m in
      (
        results,
        (
          record {
            buckets = buckets;
            fd_index = forget_pairs pairs q.fd_index;
            total_size = q.total_size - 2 * length pairs;
          },
          rooms,
        ),
      )
