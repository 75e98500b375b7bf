-- ===== src/Lobby/Left.antt =====
-- Leaving the matchmaker's queue and being matched (src/game/matchmaker.cpp): the index goes on
-- agreeing with the buckets.
use chess_engine.Base.{◌-◌, ◌≤◌, false, ◌≡◌, refl, sym}
use chess_engine.Base.{arith, ◌∙◌, Option-cases, subst}
use chess_engine.Base.{if◌then◌else◌, none, some, List, [], ◌∷◌, Bool-cases, inl, inr}
use chess_engine.Base.Dict.{find, erase, has_key, find-erase_other, find-erase_self}
use chess_engine.Base.Dict.{find-erase_found}
use chess_engine.Base.Int.{eqb_ℤ-eq, eqb_ℤ_refl, ℤ, eqb_ℤ}
use chess_engine.Room.State.{TimeControl}
use chess_engine.Lobby.Queue.{QueueEntry, tc_eq, erase_entry, shrunk, Matchmaker}
use chess_engine.Lobby.Queue.{dequeue}
use chess_engine.Lobby.Entries.{Buckets, entries_at, seat, total, count}
use chess_engine.Lobby.Entries.{count_all, size_all, total_all-shrunk}
use chess_engine.Lobby.Entries.{total-entries_at, count-erase_entry, count-erase_other}
use chess_engine.Lobby.Entries.{length-erase_entry, total_all-size_all}
use chess_engine.Lobby.Consistent.{IsConsistent, eqb_ℤ-Apart, tc_eq-eq}
use chess_engine.Lobby.Consistent.{tc_eq-Apart, has_key-erase, entries_at-put_self}
use chess_engine.Lobby.Consistent.{entries_at-put_other}

pub count-shrunk_self :
    (g : ℤ) (tc : TimeControl) (xs : List QueueEntry) (buckets : Buckets)
    → 1 ≤ count g xs
    → 1 ≤ count g (entries_at tc (shrunk tc xs buckets))
unfolding total
count-shrunk_self g tc [] buckets h = ground (arith, h)
count-shrunk_self g tc (x ∷ xs) buckets h = rw (entries_at-put_self tc (x ∷ xs) buckets) h

pub entries_at-shrunk_other :
    (tc i : TimeControl) (xs : List QueueEntry) (buckets : Buckets)
    → tc_eq tc i ≡ false
    → entries_at i (shrunk tc xs buckets) ≡ entries_at i buckets
entries_at-shrunk_other tc i [] buckets ne =
    rw (find-erase_found tc_eq tc i buckets (tc_eq-Apart tc i ne), entries_at) refl
entries_at-shrunk_other tc i (x ∷ xs) buckets ne = entries_at-put_other tc i (x ∷ xs) buckets ne

-- The entry of a connection in the bucket that the index names.
module _ (fd : ℤ) (tc : TimeControl) (bucket : List QueueEntry) (q : Matchmaker)
    (c : IsConsistent q) (indexed : find eqb_ℤ fd q.fd_index ≡ some tc)
    (here : find tc_eq tc q.buckets ≡ some bucket) where
  abbrev without_entry : Matchmaker
  without_entry = record {
    buckets = shrunk tc (erase_entry fd bucket) q.buckets;
    fd_index = erase eqb_ℤ fd q.fd_index;
    total_size = q.total_size - 1;
  }

  entries_at-here : entries_at tc q.buckets ≡ bucket
  entries_at-here = rw (here, entries_at) refl

  count_all-one : count_all fd q.buckets ≡ 1
  count_all-one =
      let some_entry = c.found fd tc indexed in
      let within = total-entries_at (seat fd) tc q.buckets in
      ground (arith, c.once fd, some_entry, within)

  count-one : count fd bucket ≡ 1
  count-one =
      let some_entry = c.found fd tc indexed in
      let within = total-entries_at (seat fd) tc q.buckets in
      rw (sym entries_at-here) (ground (arith, some_entry, within, count_all-one))

  without_entry-once_self :
      count_all fd without_entry.buckets
      ≡ (if has_key eqb_ℤ fd without_entry.fd_index then 1 else 0)
  without_entry-once_self = ground (
    arith,
    count_all-one,
    count-one,
    count-erase_entry fd bucket count-one,
    total_all-shrunk (seat fd) tc (erase_entry fd bucket) bucket q.buckets here,
    has_key-erase fd fd q.fd_index,
    eqb_ℤ_refl fd,
  )

  without_entry-once :
      (g : ℤ)
      → count_all g without_entry.buckets
        ≡ (if has_key eqb_ℤ g without_entry.fd_index then 1 else 0)
  without_entry-once g = elim (Bool-cases (eqb_ℤ fd g)) [
    | inl h ↦
        subst
          (λ j.
            count_all j without_entry.buckets
            ≡ (if has_key eqb_ℤ j without_entry.fd_index then 1 else 0))
          (eqb_ℤ-eq fd g h) without_entry-once_self
    | inr h ↦ ground (
      arith,
      h,
      c.once g,
      count-erase_other fd g bucket h,
      total_all-shrunk (seat g) tc (erase_entry fd bucket) bucket q.buckets here,
      has_key-erase fd g q.fd_index,
    )
  ]

  without_entry-found :
      (g : ℤ) (i : TimeControl)
      → find eqb_ℤ g without_entry.fd_index ≡ some i
      → 1 ≤ count g (entries_at i without_entry.buckets)
  without_entry-found g i h = elim (Bool-cases (eqb_ℤ fd g)) [
    | inl same ↦
        let gone = find-erase_self eqb_ℤ fd q.fd_index in
        let gone_too =
          subst (λ j. find eqb_ℤ j without_entry.fd_index ≡ none) (eqb_ℤ-eq fd g same) gone in
        ground (arith, h, gone_too)
    | inr ne ↦
        let old =
          c.found g i (sym (find-erase_other eqb_ℤ fd g q.fd_index (eqb_ℤ-Apart fd g ne)) ∙ h) in
        elim (Bool-cases (tc_eq tc i)) [
          | inl same ↦
              let place : tc ≡ i = tc_eq-eq tc i same in
              let before : 1 ≤ count g bucket =
                subst (λ xs. 1 ≤ count g xs) entries_at-here
                  (subst (λ j. 1 ≤ count g (entries_at j q.buckets)) (sym place) old) in
              let after : 1 ≤ count g (erase_entry fd bucket) =
                ground (arith, before, count-erase_other fd g bucket ne) in
              subst (λ j. 1 ≤ count g (entries_at j without_entry.buckets)) place
                (count-shrunk_self g tc (erase_entry fd bucket) q.buckets after)
          | inr apart ↦
              rw (entries_at-shrunk_other tc i (erase_entry fd bucket) q.buckets apart) old
        ]
  ]

  without_entry-sized : without_entry.total_size ≡ size_all without_entry.buckets
  without_entry-sized = ground (
    arith,
    c.sized,
    length-erase_entry fd bucket count-one,
    total_all-shrunk (λ _. 1) tc (erase_entry fd bucket) bucket q.buckets here,
    total_all-size_all q.buckets,
    total_all-size_all without_entry.buckets,
  )

  pub without_entry-IsConsistent : IsConsistent without_entry
  without_entry-IsConsistent = record {
    once = without_entry-once;
    found = without_entry-found;
    sized = without_entry-sized;
  }

-- A bucket with an entry is there.
bucket-found :
    (fd : ℤ) (tc : TimeControl) (buckets : Buckets)
    → 1 ≤ count fd (entries_at tc buckets)
    → (bucket : List QueueEntry) × (find tc_eq tc buckets ≡ some bucket)
unfolding total
bucket-found fd tc buckets h = elim (Option-cases (find tc_eq tc buckets)) [
  | inl missing ↦ ground (arith, h, missing)
  | inr bucket ↦ bucket
]

pub dequeue-IsConsistent :
    (fd : ℤ) (q : Matchmaker) → IsConsistent q → IsConsistent (dequeue fd q).0
unfolding dequeue
dequeue-IsConsistent fd q c = elim (Option-cases (find eqb_ℤ fd q.fd_index)) [
  | inl h ↦ rw (h, dequeue) c
  | inr (tc, h) ↦
      let (bucket, here) = bucket-found fd tc q.buckets (c.found fd tc h) in
      rw (h, here, dequeue) (without_entry-IsConsistent fd tc bucket q c h here)
]
