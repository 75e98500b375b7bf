-- ===== src/Room/Offers.antt =====
-- Resignation, and the offers of a draw and of a rematch (src/game/game_room.cpp).
-- The error is `none` where the call returns true.
use chess_engine.Base.{ℕ, ◌-◌, Bool, true, false, not, ltb, ◌||◌, if◌then◌else◌, Option, none, some}
use chess_engine.Base.Int.{ℤ, pos, ltb_ℤ}
use chess_engine.Types.{Color, color_eq, opposite_color, resignation, draw_agreement}
use chess_engine.Room.State.{
  GameRoom, RoomError, color_of, bump, finish_game, seat, state_eq, in_progress, finished, drawn,
  not_in_progress, only_human_games, not_a_player, opponent_disconnected, already_offered,
  respond_first, no_pending_offer, only_opponent_responds, not_finished, ai_rematch_immediate,
  no_tournament_rematch,
}
use chess_engine.Room.Play.{loss}

unfoldable pub resign : ℤ → GameRoom → GameRoom × Bool
resign fd before =
    let room = bump before in
    let player = color_of room fd in
    if not (state_eq room.state in_progress)
    then (room, false)
    else if color_eq player Color.none
    then (room, false)
    else (finish_game resignation (loss player) room, true)

-- A second offer is refused by who made the first.
abbrev pub pending_error : Color → Color → RoomError
pending_error first offerer = if color_eq first offerer then already_offered else respond_first

unfoldable pub offer_draw : ℕ → ℤ → GameRoom → GameRoom × Option RoomError
offer_draw now fd room =
    let offerer = color_of room fd in
    if not (state_eq room.state in_progress)
    then (room, some not_in_progress)
    else if room.is_ai
    then (room, some only_human_games)
    else if color_eq offerer Color.none
    then (room, some not_a_player)
    else if not (seat (opposite_color offerer) room).connected
    then (room, some opponent_disconnected)
    else elim room.draw_offer_from [
      | some first ↦ (room, some (pending_error first offerer))
      | none ↦
          (record (bump room) { draw_offer_from = some offerer; draw_offer_created_at = now }, none)
    ]

abbrev pub without_draw_offer : GameRoom → GameRoom
without_draw_offer room = record (bump room) { draw_offer_from = none; draw_offer_created_at = 0 }

unfoldable pub respond_to_draw : ℤ → Bool → GameRoom → GameRoom × Option RoomError
respond_to_draw fd accept room =
    let responder = color_of room fd in
    if not (state_eq room.state in_progress)
    then (room, some no_pending_offer)
    else elim room.draw_offer_from [
      | none ↦ (room, some no_pending_offer)
      | some offerer ↦
          if color_eq responder Color.none
          then (room, some not_a_player)
          else if color_eq responder offerer
          then (room, some only_opponent_responds)
          else if accept
          then (finish_game draw_agreement drawn (without_draw_offer room), none)
          else (without_draw_offer room, none)
    ]

unfoldable pub expire_draw_offer : ℕ → ℕ → GameRoom → GameRoom × Color
expire_draw_offer now ttl room =
    if not (state_eq room.state in_progress)
    then (room, Color.none)
    else elim room.draw_offer_from [
      | none ↦ (room, Color.none)
      | some offerer ↦
          if ltb (now - room.draw_offer_created_at) ttl
          then (room, Color.none)
          else (without_draw_offer room, offerer)
    ]

unfoldable pub offer_rematch : ℕ → ℤ → GameRoom → GameRoom × Option RoomError
offer_rematch now fd room =
    let offerer = color_of room fd in
    let opponent = seat (opposite_color offerer) room in
    if not (state_eq room.state finished)
    then (room, some not_finished)
    else if room.is_ai
    then (room, some ai_rematch_immediate)
    else if room.is_tournament_reserved
    then (room, some no_tournament_rematch)
    else if color_eq offerer Color.none
    then (room, some not_a_player)
    else if not opponent.connected || ltb_ℤ opponent.connection_fd (pos 0)
    then (room, some opponent_disconnected)
    else elim room.rematch_offer_from [
      | some first ↦ (room, some (pending_error first offerer))
      | none ↦ (
        record (bump room) { rematch_offer_from = some offerer; rematch_offer_created_at = now },
        none,
      )
    ]

abbrev pub without_rematch_offer : GameRoom → GameRoom
without_rematch_offer room = record (bump room) {
  rematch_offer_from = none;
  rematch_offer_created_at = 0;
}

-- The offerer of an answered offer, or the error.
unfoldable pub respond_to_rematch : ℤ → GameRoom → GameRoom × (Color × Option RoomError)
respond_to_rematch fd room =
    let responder = color_of room fd in
    if not (state_eq room.state finished)
    then (room, (Color.none, some no_pending_offer))
    else elim room.rematch_offer_from [
      | none ↦ (room, (Color.none, some no_pending_offer))
      | some offerer ↦
          if color_eq responder Color.none
          then (room, (Color.none, some not_a_player))
          else if color_eq responder offerer
          then (room, (Color.none, some only_opponent_responds))
          else (without_rematch_offer room, (offerer, none))
    ]

unfoldable pub expire_rematch_offer : ℕ → ℕ → GameRoom → GameRoom × Color
expire_rematch_offer now ttl room =
    if not (state_eq room.state finished)
    then (room, Color.none)
    else elim room.rematch_offer_from [
      | none ↦ (room, Color.none)
      | some offerer ↦
          if ltb (now - room.rematch_offer_created_at) ttl
          then (room, Color.none)
          else (without_rematch_offer room, offerer)
    ]
