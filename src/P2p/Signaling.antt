-- ===== src/P2p/Signaling.antt =====
-- P2PSignalingHandler: the events of a websocket.
pub mod Invariant
pub mod Leaving
pub mod Steps
pub mod Rooms
use aird.Base.{
  ℕ, Bool, true, false, not, ◌&&◌, Option, none, some, List, [], ◌∷◌, leb, if◌then◌else◌,
}
use aird.Base.Text.{is_empty}
use aird.P2p.Room.{
  Room, Connection, Message, error, room_error, connected, room_created, room_joined, peer_joined,
  peer_left, file_info_updated, offer, answer, ice_candidate, restart_connection, State, put_room,
  set_connection, send, add_peer, remove_peer, peer_count, other_of, broadcast, new_token,
  make_room, register, get_room, mark_room_empty,
}

-- The texts of the error messages.
abbrev pub disabled : Message
disabled = error 0

abbrev pub requires_login : Message
requires_login = room_error 1

abbrev pub room_gone : Message
room_gone = room_error 2

abbrev pub room_id_required : Message
room_id_required = error 3

abbrev pub room_not_found : Message
room_not_found = error 4

abbrev pub login_to_receive : Message
login_to_receive = error 5

abbrev pub room_full : Message
room_full = error 6

abbrev pub too_large : Message
too_large = error 7

abbrev pub invalid_json : Message
invalid_json = error 8

-- `P2PSignalingService.leave_room`.
service_leave_room : ℕ → Room → State → State
service_leave_room now room s = if is_empty room.peers then mark_room_empty now room s else s

-- `_handle_leave_room` of a handler whose room is this object.
leave_room : ℕ → ℕ → Connection → Room → State → State
unfolding service_leave_room
leave_room now peer c room s =
    let room' = remove_peer peer room in
    let s' = broadcast room'.peers (peer_left peer c.username) none (put_room room' s) in
    set_connection peer (record c { room = none })
      (if is_empty room'.peers then service_leave_room now room' s' else s')

leave_object : ℕ → ℕ → Connection → Option Room → State → State
leave_object now peer c none s = s
leave_object now peer c (some room) s = leave_room now peer c room s

leave_of : ℕ → ℕ → Connection → Option ℕ → State → State
unfolding leave_object
leave_of now peer c none s = s
leave_of now peer c (some id) s = leave_object now peer c (s.heap id) s

unfoldable pub handle_leave_room : ℕ → ℕ → Connection → State → State
unfolding leave_of leave_room
handle_leave_room now peer c s = leave_of now peer c c.room s

-- The end of `_handle_create_room`, with the token of the new room.
abbrev with_info : Option ℕ → Room → Room
with_info none room = room
with_info (some info) room = record room { file_info = some info }

enter_new : ℕ → ℕ → Connection → Bool → Option ℕ → Option ℕ → State → State
enter_new now peer c allow_anonymous info none s = s
enter_new now peer c allow_anonymous info (some token) s =
    let made = with_info info (make_room now token peer allow_anonymous none) in
    let room = add_peer peer made in
    send peer (room_created token room.file_info allow_anonymous)
      (set_connection peer (record c { room = some token }) (put_room room (register made s)))

unfoldable pub handle_create_room : ℕ → List ℕ → ℕ → Connection → Bool → Option ℕ → State → State
unfolding enter_new handle_leave_room
handle_create_room now tokens peer c allow_anonymous info s =
    let s' = handle_leave_room now peer c s in
    enter_new now peer c allow_anonymous info (new_token tokens s'.listed) s'

-- `_handle_join_room`, after its tests: the object is read again, as leaving may have changed it.
enter_object : ℕ → Connection → Option Room → State → State
enter_object peer c none s = s
enter_object peer c (some room) s =
    let room' = add_peer peer (record room { empty_since = none }) in
    broadcast room'.peers (peer_joined peer c.username c.is_anonymous) (some peer) (
      send peer (room_joined room'.room_id room'.file_info (peer_count room') room'.allow_anonymous)
        (set_connection peer (record c { room = some room'.room_id }) (put_room room' s)))

join_found : ℕ → ℕ → Connection → Option Room → State → State
unfolding enter_object handle_leave_room
join_found now peer c none s = send peer room_not_found s
join_found now peer c (some room) s =
    if c.is_anonymous && not room.allow_anonymous
    then send peer login_to_receive s
    else if leb 2 (peer_count room)
    then send peer room_full s
    else (let s' = handle_leave_room now peer c s in enter_object peer c (s'.heap room.room_id) s')

unfoldable pub handle_join_room : ℕ → ℕ → Connection → Option ℕ → State → State
unfolding join_found get_room
handle_join_room now peer c none s = send peer room_id_required s
handle_join_room now peer c (some id) s = join_found now peer c (get_room id s) s

-- `forward_to_other_peer`.
send_to : Option ℕ → Message → State → State
send_to none m s = s
send_to (some other) m s = send other m s

forward_in : ℕ → Option Room → Message → State → State
unfolding send_to
forward_in peer none m s = s
forward_in peer (some room) m s = send_to (other_of peer room.peers) m s

abbrev pub object_of : Option ℕ → State → Option Room
object_of none s = none
object_of (some id) s = s.heap id

unfoldable pub forward : ℕ → Connection → Message → State → State
unfolding forward_in
forward peer c m s = forward_in peer (object_of c.room s) m s

-- `_handle_file_info`.
update_info : ℕ → Option ℕ → Option Room → State → State
update_info peer info none s = s
update_info peer info (some room) s =
    broadcast room.peers (file_info_updated info) (some peer)
      (put_room (record room { file_info = info }) s)

-- A decoded message; `unknown` is one of another type, `undecodable` no JSON, `oversized` one above
-- the limit.
pub data Request : Type 0 where
  create_room : Bool → Option ℕ → Request
  join_room : Option ℕ → Request
  leave_room_request : Request
  offer_request answer_request ice_request : Option ℕ → Request
  file_info_request : Option ℕ → Request
  restart_request unknown undecodable oversized : Request

unfoldable pub on_message : ℕ → List ℕ → ℕ → Connection → Request → State → State
unfolding handle_create_room handle_join_room handle_leave_room forward update_info
on_message now tokens peer c (create_room anonymous info) s =
    handle_create_room now tokens peer c anonymous info s
on_message now tokens peer c (join_room id) s = handle_join_room now peer c id s
on_message now tokens peer c leave_room_request s = handle_leave_room now peer c s
on_message now tokens peer c (offer_request sdp) s = forward peer c (offer sdp peer) s
on_message now tokens peer c (answer_request sdp) s = forward peer c (answer sdp peer) s
on_message now tokens peer c (ice_request candidate) s =
    forward peer c (ice_candidate candidate peer) s
on_message now tokens peer c (file_info_request info) s =
    update_info peer info (object_of c.room s) s
on_message now tokens peer c restart_request s =
    forward peer c (restart_connection peer c.username) s
on_message now tokens peer c unknown s = s
on_message now tokens peer c undecodable s = send peer invalid_json s
on_message now tokens peer c oversized s = send peer too_large s

-- `open`: an anonymous visitor with a room's token is turned away unless the room is there and
-- admits anonymous peers.
welcome : ℕ → ℕ → Bool → Option ℕ → State → State
welcome peer username anonymous pending s = send peer (connected peer username anonymous pending) (
    set_connection peer
      (record {
        username = username;
        is_anonymous = anonymous;
        room = none;
        pending_room = pending;
      })
      s)

open_pending : ℕ → ℕ → ℕ → Option Room → State → State
unfolding welcome
open_pending peer guest id none s = send peer room_gone s
open_pending peer guest id (some room) s =
    if room.allow_anonymous then welcome peer guest true (some id) s else send peer requires_login s

open_guest : ℕ → ℕ → Option ℕ → State → State
unfolding open_pending get_room welcome
open_guest peer guest none s = welcome peer guest true none s
open_guest peer guest (some id) s = open_pending peer guest id (get_room id s) s

open_as : ℕ → ℕ → Option ℕ → Option ℕ → State → State
unfolding open_guest
open_as peer guest none room s = open_guest peer guest room s
open_as peer guest (some user) room s = welcome peer user false none s

unfoldable pub on_open : Bool → ℕ → ℕ → Option ℕ → Option ℕ → State → State
unfolding open_as
on_open feature_on peer guest user room s =
    if feature_on then open_as peer guest user room s else send peer disabled s

unfoldable pub on_close : ℕ → ℕ → Connection → State → State
unfolding handle_leave_room
on_close now peer c s = handle_leave_room now peer c s
