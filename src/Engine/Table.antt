-- ===== src/Engine/Table.antt =====
-- src/chess/transposition_table.h and src/chess/transposition_table.cpp.
-- A table has at least one entry, at the indices from 0 to the mask.
use chess_engine.Base.{ℕ, ◌+◌, ◌-◌, ◌*◌, ◌/◌, ◌%◌, Bool, true, false, ◌&&◌, ◌||◌, not, ltb, leb}
use chess_engine.Base.{◌==◌, if◌then◌else◌, Option, some, bit_and, zero, suc}
use chess_engine.Base.Arrays.{update}
use chess_engine.Base.Int.{ℤ, pos, negsuc, ◌+ℤ◌, ◌-ℤ◌, ltb_ℤ, sub_ℕ}
use chess_engine.Types.{Move, no_move}

pub data NodeType : Type 0 where
  none exact lower_bound upper_bound : NodeType

abbrev pub node_index : NodeType → ℕ
node_index NodeType.none = 0
node_index exact = 1
node_index lower_bound = 2
node_index upper_bound = 3

abbrev pub node_eq : NodeType → NodeType → Bool
node_eq s t = node_index s == node_index t

pub record TtEntry : Type 0 where
  pub key : ℕ
  pub best_move : Move
  pub score : ℤ
  pub depth : ℤ
  pub node_type : NodeType
  pub age : ℕ

abbrev pub empty_entry : TtEntry
empty_entry = record {
  key = 0;
  best_move = no_move;
  score = pos 0;
  depth = pos 0;
  node_type = NodeType.none;
  age = 0;
}

pub record TranspositionTable : Type 0 where
  pub entries : ℕ → TtEntry
  pub mask : ℕ
  pub age : ℕ

-- The largest power of two up to `n`, by doublings of `power`, on fuel.
unfoldable pub power_up_to : ℕ → ℕ → ℕ → ℕ
power_up_to zero power n = power
power_up_to (suc fuel) power n = elim (leb (power * 2) n) [
  | true ↦ power_up_to fuel (power * 2) n
  | false ↦ power
]

-- `resize`, for a given size of an entry. The shifts of a 64-bit number end after 64 doublings.
unfoldable pub resize : ℕ → ℕ → TranspositionTable
unfolding power_up_to
resize entry_bytes size_mb =
    let size = if size_mb == 0 then 1 else size_mb in
    record {
      entries = λ i. empty_entry;
      mask = power_up_to 64 1 (size * 1024 * 1024 / entry_bytes) - 1;
      age = 0;
    }

unfoldable pub clear_table : TranspositionTable → TranspositionTable
clear_table table = record table { entries = λ i. empty_entry; age = 0 }

-- `age_` is a uint8_t.
unfoldable pub new_search : TranspositionTable → TranspositionTable
new_search table = record table { age = (table.age + 1) % 256 }

abbrev pub mate_bound : ℤ
mate_bound = pos 800000

abbrev pub minus_mate_bound : ℤ
minus_mate_bound = negsuc 799999

abbrev pub at_least : ℤ → ℤ → Bool
at_least a b = not (ltb_ℤ a b)

unfoldable pub score_to_tt : ℤ → ℕ → ℤ
score_to_tt score ply =
    if at_least score mate_bound
    then score +ℤ pos ply
    else if at_least minus_mate_bound score
    then score -ℤ pos ply
    else score

unfoldable pub score_from_tt : ℤ → ℕ → ℤ
score_from_tt score ply =
    if at_least score mate_bound
    then score -ℤ pos ply
    else if at_least minus_mate_bound score
    then score +ℤ pos ply
    else score

-- `static_cast<int8_t>`.
abbrev pub int8_of_byte : ℕ → ℤ
int8_of_byte n = if ltb n 128 then pos n else sub_ℕ n 256

unfoldable pub int8 : ℤ → ℤ
int8 (pos n) = int8_of_byte (n % 256)
int8 (negsuc n) = int8_of_byte (255 - n % 256)

abbrev pub index : TranspositionTable → ℕ → ℕ
index table key = bit_and key table.mask

-- Whether a result takes the place of an entry.
unfoldable pub replaces : TtEntry → ℕ → ℕ → ℤ → NodeType → Bool
replaces entry age key depth type =
    if entry.key == 0
    then true
    else if entry.key == key
    then at_least depth entry.depth || node_eq type exact
    else if not (entry.age == age)
    then true
    else at_least depth entry.depth

-- An empty move does not take the place of a known one.
abbrev pub kept_move : TtEntry → ℕ → Move → Move
kept_move entry key best =
    if best.from == best.to && entry.key == key then entry.best_move else best

unfoldable pub store : TranspositionTable → ℕ → ℤ → ℕ → ℤ → NodeType → Move → TranspositionTable
unfolding score_to_tt replaces int8
store table key depth ply score type best =
    let entry = table.entries (index table key) in
    if replaces entry table.age key depth type
    then (record table {
      entries = update table.entries (index table key) (record {
        key = key;
        best_move = kept_move entry key best;
        score = score_to_tt score ply;
        depth = int8 depth;
        node_type = type;
        age = table.age;
      });
    })
    else table

-- What is probed: the move where an entry is there, and the score where it cuts off.
abbrev pub cuts_off : NodeType → ℤ → ℤ → ℤ → Bool
cuts_off NodeType.none score alpha beta = false
cuts_off exact score alpha beta = true
cuts_off lower_bound score alpha beta = at_least score beta
cuts_off upper_bound score alpha beta = at_least alpha score

abbrev pub is_hit : TtEntry → ℕ → Bool
is_hit entry key = entry.key == key && not (node_eq entry.node_type NodeType.none)

unfoldable pub probe : TranspositionTable → ℕ → ℤ → ℕ → ℤ → ℤ → Option ℤ × Option Move
unfolding score_from_tt
probe table key depth ply alpha beta =
    let entry = table.entries (index table key) in
    let score = score_from_tt entry.score ply in
    if not (is_hit entry key)
    then (Option.none, Option.none)
    else if at_least entry.depth depth && cuts_off entry.node_type score alpha beta
    then (some score, some entry.best_move)
    else (Option.none, some entry.best_move)

unfoldable pub probe_move : TranspositionTable → ℕ → Option Move
probe_move table key =
    let entry = table.entries (index table key) in
    if is_hit entry key then some entry.best_move else Option.none
