-- ===== src/Lobby/Consistent.antt =====
-- The matchmaker's index against its buckets (src/game/matchmaker.cpp), through every operation.
use mathlib.Core.Option.{some-injective}
use chess_engine.Base.{ℕ, ◌+◌, ◌≤◌, true, false, not, ◌&&◌, ◌||◌, ◌≡◌, refl, ap, sym, arith, ◌∙◌}
use chess_engine.Base.{if◌then◌else◌, some, List, [], ◌∷◌, Bool-cases, inl, inr}
use chess_engine.Base.{subst}
use chess_engine.Base.Dict.{find, put, erase, has_key, Apart, find-put_self, find-put_other}
use chess_engine.Base.Int.{ℤ, eqb_ℤ-eq, eqb_ℤ_refl, eqb_ℤ}
use chess_engine.Room.State.{TimeControl}
use chess_engine.Room.Setup.{Newcomer}
use chess_engine.Lobby.Queue.{QueueEntry, fd_of, tc_eq, insert_entry, Matchmaker, bucket_of}
use chess_engine.Lobby.Queue.{enqueue}
use chess_engine.Lobby.Entries.{Buckets, entries_at, seat, total_all, count}
use chess_engine.Lobby.Entries.{count_all, size_all, total_all-put}
use chess_engine.Lobby.Entries.{total-insert_entry}
use chess_engine.Lobby.Entries.{total_all-size_all}

-- Each connection of the index has one entry, in the bucket that the index names, and there is no
-- other entry; the size is the number of the entries.
pub record IsConsistent (q : Matchmaker) : Type 0 where
  pub once : (fd : ℤ) → count_all fd q.buckets ≡ (if has_key eqb_ℤ fd q.fd_index then 1 else 0)
  pub found :
      (fd : ℤ) (tc : TimeControl)
      → find eqb_ℤ fd q.fd_index ≡ some tc
      → 1 ≤ count fd (entries_at tc q.buckets)
  pub sized : q.total_size ≡ size_all q.buckets

pub eqb_ℤ-Apart : (a b : ℤ) → eqb_ℤ a b ≡ false → Apart eqb_ℤ a b
eqb_ℤ-Apart a b h = λ j e. ground (arith, h, e)

pub tc_eq-eq : (a b : TimeControl) → tc_eq a b ≡ true → a ≡ b
tc_eq-eq a b h = ground (arith, h)

pub tc_eq_refl : (a : TimeControl) → tc_eq a a ≡ true
tc_eq_refl a = ground arith

pub tc_eq-Apart : (a b : TimeControl) → tc_eq a b ≡ false → Apart tc_eq a b
tc_eq-Apart a b h = λ j e. ground (arith, h, e)

pub has_key-put :
    (fd g : ℤ) (tc : TimeControl) (index : List (ℤ × TimeControl))
    → has_key eqb_ℤ g (put eqb_ℤ fd tc index) ≡ (eqb_ℤ fd g || has_key eqb_ℤ g index)
unfolding put
has_key-put fd g tc [] = ground arith
has_key-put fd g tc ((j, v) ∷ index) = ground (arith, has_key-put fd g tc index)

pub has_key-erase :
    (fd g : ℤ) (index : List (ℤ × TimeControl))
    → has_key eqb_ℤ g (erase eqb_ℤ fd index) ≡ (not (eqb_ℤ fd g) && has_key eqb_ℤ g index)
unfolding erase
has_key-erase fd g [] = ground arith
has_key-erase fd g ((j, v) ∷ index) = ground (arith, has_key-erase fd g index)

pub entries_at-put_self :
    (tc : TimeControl) (xs : List QueueEntry) (buckets : Buckets)
    → entries_at tc (put tc_eq tc xs buckets) ≡ xs
entries_at-put_self tc xs buckets =
    rw (find-put_self tc_eq tc xs buckets (tc_eq_refl tc), entries_at) refl

pub entries_at-put_other :
    (tc i : TimeControl) (xs : List QueueEntry) (buckets : Buckets)
    → tc_eq tc i ≡ false
    → entries_at i (put tc_eq tc xs buckets) ≡ entries_at i buckets
entries_at-put_other tc i xs buckets ne =
    rw (find-put_other tc_eq tc i xs buckets ne (tc_eq-Apart tc i ne), entries_at) refl

pub count-entries_at-insert :
    (fd : ℤ) (tc i : TimeControl) (e : QueueEntry) (buckets : Buckets)
    → count fd (entries_at i buckets)
      ≤ count fd (entries_at i (put tc_eq tc (insert_entry e (entries_at tc buckets)) buckets))
count-entries_at-insert fd tc i e buckets =
    let xs = insert_entry e (entries_at tc buckets) in
    let more : count fd (entries_at tc buckets) ≤ count fd xs =
      ground (arith, total-insert_entry (seat fd) e (entries_at tc buckets)) in
    elim (Bool-cases (tc_eq tc i)) [
      | inl h ↦
          subst
            (λ j.
              count fd (entries_at j buckets) ≤ count fd (entries_at j (put tc_eq tc xs buckets)))
            (tc_eq-eq tc i h) (rw (entries_at-put_self tc xs buckets) more)
      | inr h ↦ rw (entries_at-put_other tc i xs buckets h) (omega arith)
    ]

-- An entry of a connection that has none.
module _ (e : QueueEntry) (tc : TimeControl) (q : Matchmaker) (c : IsConsistent q)
    (absent : has_key eqb_ℤ (fd_of e) q.fd_index ≡ false) where
  abbrev with_entry : Matchmaker
  with_entry = record {
    buckets = put tc_eq tc (insert_entry e (bucket_of tc q)) q.buckets;
    fd_index = put eqb_ℤ (fd_of e) tc q.fd_index;
    total_size = q.total_size + 1;
  }

  weight-with_entry :
      (weight : QueueEntry → ℕ)
      → total_all weight with_entry.buckets ≡ weight e + total_all weight q.buckets
  weight-with_entry weight =
      let xs = entries_at tc q.buckets in
      ground (
        arith,
        total-insert_entry weight e xs,
        total_all-put weight tc (insert_entry e xs) q.buckets,
      )

  seat-fd_of : seat (fd_of e) e ≡ 1
  unfolding seat
  seat-fd_of = ground (arith, eqb_ℤ_refl (fd_of e))

  with_entry-once_self :
      count_all (fd_of e) with_entry.buckets
      ≡ (if has_key eqb_ℤ (fd_of e) with_entry.fd_index then 1 else 0)
  with_entry-once_self = ground (
    arith,
    absent,
    c.once (fd_of e),
    weight-with_entry (seat (fd_of e)),
    seat-fd_of,
    has_key-put (fd_of e) (fd_of e) tc q.fd_index,
    eqb_ℤ_refl (fd_of e),
  )

  with_entry-found_self : 1 ≤ count (fd_of e) (entries_at tc with_entry.buckets)
  with_entry-found_self =
      let xs = entries_at tc q.buckets in
      rw (entries_at-put_self tc (insert_entry e xs) q.buckets)
        (ground (arith, total-insert_entry (seat (fd_of e)) e xs, seat-fd_of))

  pub with_entry-once :
      (fd : ℤ)
      → count_all fd with_entry.buckets ≡ (if has_key eqb_ℤ fd with_entry.fd_index then 1 else 0)
  unfolding seat
  with_entry-once fd = elim (Bool-cases (eqb_ℤ (fd_of e) fd)) [
    | inl h ↦
        let same : fd_of e ≡ fd = eqb_ℤ-eq (fd_of e) fd h in
        subst
          (λ g.
            count_all g with_entry.buckets ≡ (if has_key eqb_ℤ g with_entry.fd_index then 1 else 0))
          same with_entry-once_self
    | inr h ↦
        ground
          (arith, h, c.once fd, weight-with_entry (seat fd), has_key-put (fd_of e) fd tc q.fd_index)
  ]

  pub with_entry-found :
      (fd : ℤ) (i : TimeControl)
      → find eqb_ℤ fd with_entry.fd_index ≡ some i
      → 1 ≤ count fd (entries_at i with_entry.buckets)
  with_entry-found fd i h = elim (Bool-cases (eqb_ℤ (fd_of e) fd)) [
    | inl same ↦
        let here : fd_of e ≡ fd = eqb_ℤ-eq (fd_of e) fd same in
        let kept = find-put_self eqb_ℤ (fd_of e) tc q.fd_index (eqb_ℤ_refl (fd_of e)) in
        let place : some tc ≡ some i =
          sym kept ∙ (ap (λ g. find eqb_ℤ g with_entry.fd_index) here ∙ h) in
        subst (λ g. 1 ≤ count g (entries_at i with_entry.buckets)) here
          (subst (λ j. 1 ≤ count (fd_of e) (entries_at j with_entry.buckets))
            (some-injective tc i place) with_entry-found_self)
    | inr ne ↦
        let old = c.found fd i (
          sym (find-put_other eqb_ℤ (fd_of e) fd tc q.fd_index ne (eqb_ℤ-Apart (fd_of e) fd ne))
          ∙ h) in
        ground (arith, old, count-entries_at-insert fd tc i e q.buckets)
  ]

  pub with_entry-sized : with_entry.total_size ≡ size_all with_entry.buckets
  with_entry-sized = ground (
    arith,
    c.sized,
    weight-with_entry (λ _. 1),
    total_all-size_all q.buckets,
    total_all-size_all with_entry.buckets,
  )

  pub with_entry-IsConsistent : IsConsistent with_entry
  with_entry-IsConsistent = record {
    once = with_entry-once;
    found = with_entry-found;
    sized = with_entry-sized;
  }

pub enqueue-IsConsistent :
    (now : ℕ) (player : Newcomer) (tc : TimeControl) (q : Matchmaker)
    → IsConsistent q
    → IsConsistent (enqueue now player tc q).0
unfolding enqueue
enqueue-IsConsistent now player tc q c =
    let e : QueueEntry = record { player = player; time_control = tc; enqueue_time = now } in
    elim (Bool-cases (has_key eqb_ℤ player.connection_fd q.fd_index)) [
      | inl h ↦ rw h c
      | inr h ↦ rw h (with_entry-IsConsistent e tc q c h)
    ]
