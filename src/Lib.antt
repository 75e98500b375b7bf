-- ===== src/Lib.antt =====
-- A chess server with its own rules engine: the rules, the engine, the life of a game and its lobby.
--
-- The repository is a C++ server. Its core, src/chess, keeps a board, executes and undoes moves,
-- generates the legal ones and reads and writes positions as text. A game room, src/game, lets
-- two seats play on such a board under a clock; services and the network around it call its
-- methods. The room takes moves only from the list that src/chess generates, and makes them with
-- Board::make_move. An engine searches the tree of those moves for a move of its own. The room
-- manager and the matchmaker open rooms for connections and bring players together, the Swiss
-- pairing seats a tournament's round, and the frames of the websocket and the codings of
-- src/crypto carry what is sent.
--
-- Base and its children: Boolean tests, lists, arrays as functions of an index, integers, and the
--   laws of the exclusive or.
-- Types: src/core/types.h and src/chess/move.h.
-- Board/State, Board/Access: the fields and setters of src/chess/board.h and src/chess/board.cpp.
-- Board/Zobrist: src/chess/zobrist.cpp, init_keys and compute_hash.
-- Board/Moves: Board::make_move and Board::undo_move, in steps named for what they do.
-- Board/Undo, Board/Hash, Board/HashSteps, Board/Incremental: undoing, and the key kept along with
--   the moves.
-- Board/Text, Board/RoundTrip: Piece::to_char, Piece::from_char, Move::to_uci, Move::from_uci,
--   square_to_algebraic, algebraic_to_square and Board::to_fen.
-- Board/Fen: Board::set_from_fen. Board/Fill, Board/Placement, Board/Overrun: its first field.
-- MoveGen and its children: src/chess/move_gen.cpp. Geometry holds the attack tables and rays,
--   Attack is_square_attacked, Generate the pseudo-legal moves, Legal generate_legal_moves,
--   get_game_status and perft. Valid states the invariant of a board; Ahead, Pawns, Castling, Sound,
--   Rays and Legality hold the proofs.
-- Room and its children: src/game/game_room.cpp. State holds the fields, Setup the constructors,
--   join and the reserved seats of a tournament, Clock the Fischer clock, Play submit_move and
--   submit_move_ai, Offers resignation, draws and rematches, Connections the connections, timeouts
--   and spectators, Queries the accessors. Actions makes a step of each public call that changes
--   the room. Final, Kept, History, Moved, Played, Told, Once and Turns hold the proofs.
-- Engine/Table, Engine/TableLaws, Engine/Window: src/chess/transposition_table.cpp and its header.
-- Engine/Tables, Engine/Evaluate: src/chess/evaluator.cpp; Tilt, Reversed, ReversedLoops, Mirror,
--   MirrorPawns, MirrorKings and MirrorScores hold the proofs.
-- Engine/Order, Engine/Quiesce, Engine/Search: src/chess/engine.cpp; Deepen, SearchLaws and
--   Quiescence hold the proofs.
-- Net/Frame, Net/RoundTrip, Net/Masked: the frames of src/net/websocket.cpp.
-- Lobby/Rooms, Lobby/Registry: src/game/room_manager.cpp. Lobby/Queue: src/game/matchmaker.cpp, whose
--   proofs are Entries, Consistent, Left, Matched and Calls.
-- Tournament/Swiss, Tournament/Matching: src/tournament/swiss.cpp; Kept, KeptSearch, Finds, FirstRound,
--   Round and RoundLaws hold the proofs.
-- Crypto/Base64, Crypto/Base64Laws, Crypto/RoundTrip: src/crypto/base64.cpp. Crypto/Sha256, with its
--   proofs in Feed and Streaming: src/crypto/sha256.cpp.
-- Tests: examples at the starting position and in small games.
--
-- Conventions. A square is a number, NO_SQUARE is 64, and the cast to uint8_t is written `% 256`,
-- so that a rank of -1 may be given as 255 where only make_square reads it; in set_from_fen, where
-- the rank is tested, it is an integer. An array of 64 squares is a function of the index. A
-- 64-bit sum keeps its wrap-around. Text is the list of its ASCII codes, and an error message a
-- constructor. A method that changes an object takes its state and gives the new one back.
-- A call of a room reads the clock once: the reading is an argument, in milliseconds, and stands
-- for all the readings of that call; the steady clock does not go back. Elapsed times and counters
-- of type int are numbers without a bound, since no game comes near 2 ^ 31.
--
-- A connection's buffer is a list of bytes; the sum of a position and a payload's length does not
-- wrap around, since longer frames are turned down before it is taken. An unordered map is an association list with one entry
-- for each key; a multimap by rating is a list in its order, and an iterator into it that is kept
-- for a connection stands for the entry of that connection. GameId is a uint32_t and wraps around.
--
-- The search reads the clock and the stop flag together: its readings are a sequence of answers, of
-- which each reading takes the next.
--
-- In a Swiss round a score is counted in half points, a rating is not negative, and the players
-- that are not taken are kept as a list.
--
-- Fuel. The search for a Swiss round has one call more than the pool has players, and each call
-- leaves fewer of them. SHA-256 has a round for each byte of the message or the padding, and each
-- round takes some. The quiescence search has 65 rounds: it ends at ply 64, and each round adds
-- one. A ray is followed for eight rounds; the board has eight ranks and files. The power of two
-- of a table's size is doubled at most 64 times, and a 64-bit size is reached before. The digits
-- of a number are fewer than the number and one more.
--
-- Parameters. The stream that splits a FEN into its six fields, the board that a new room starts
-- from, the size of a table's entry, std::sort (it rearranges its list), the SAN text of a move,
-- and the cast from a durable player id to a local one.
--
-- Not modelled: the search's elapsed time and its worker thread, the occupancy statistic of the
-- table, SAN and PGN, the tournament manager, services, authentication, the other primitives of
-- src/crypto, sockets and the handshake, storage, logging, wall-clock times and the client. The
-- mutex of a room makes each of its calls one step, which is how they are modelled.
pub mod Base
pub mod Types
pub mod Board
pub mod MoveGen
mod Tests
pub mod Room
pub mod Engine
pub mod Lobby
pub mod Tournament
pub mod Net
pub mod Crypto
