-- ===== src/P2p/Examples.antt =====
-- Tests of the signalling server, and the theorem on rooms at a concrete run.
use aird.Base.{◌≤◌, ◌≡◌, refl, true, false, none, some, [], ◌∷◌, All}
use aird.Base.Text.{is_empty}
use aird.P2p.Room.{
  Room, Connection, State, peer_count, add_peer, remove_peer, broadcast, new_token, get_room,
  mark_room_empty, remove_room,
}
use aird.P2p.Signaling.{
  create_room, join_room, on_open, on_message, handle_create_room, handle_join_room,
  handle_leave_room,
}
use aird.P2p.Signaling.Invariant.{Allowed}
use aird.P2p.Signaling.Rooms.{Reach, here, next, opens, receives, start, rooms_guarded}

-- Alice, peer 1 with the name 10, makes a private room with the token 7; Bob joins it.
abbrev alice : Connection
alice = record { username = 10; is_anonymous = false; room = none; pending_room = none }

abbrev bob : Connection
bob = record { username = 20; is_anonymous = false; room = none; pending_room = none }

abbrev opened : State
opened = on_open true 2 99 (some 20) none (on_open true 1 98 (some 10) none start)

abbrev made : State
made = on_message 5 (7 ∷ []) 1 alice (create_room false none) opened

abbrev joined : State
joined = on_message 6 [] 2 bob (join_room (some 7)) made

abbrev shared : Room
shared = record {
  room_id = 7;
  creator_id = 1;
  created_at = 5;
  expiry_seconds = none;
  peers = 1 ∷ 2 ∷ [];
  file_info = none;
  allow_anonymous = false;
  empty_since = none;
}

joined_test : joined.heap 7 ≡ some shared
unfolding on_open on_message handle_create_room handle_join_room handle_leave_room add_peer
    new_token get_room broadcast
joined_test = refl

opened_alice : opened.connections 1 ≡ some alice
unfolding on_open
opened_alice = refl

made_bob : made.connections 2 ≡ some bob
unfolding on_open on_message handle_create_room handle_leave_room add_peer new_token
made_bob = refl

second_new : (on_open true 1 98 (some 10) none start).connections 2 ≡ none
unfolding on_open
second_new = refl

joined-Reach : Reach start joined
joined-Reach =
    next
      (next
        (next (next here (opens start true 1 98 (some 10) none refl))
          (opens _ true 2 99 (some 20) none second_new))
        (receives opened 5 (7 ∷ []) 1 alice (create_room false none) opened_alice))
      (receives made 6 [] 2 bob (join_room (some 7)) made_bob)

rooms_guarded_example :
    (peer_count shared ≤ 2) × All (Allowed joined.connections shared) shared.peers
rooms_guarded_example = rooms_guarded joined 7 shared joined-Reach joined_test

-- Alice, alone in her room, joins it again: she is in a room that the manager no longer finds.
abbrev in_room : Connection
in_room = record { username = 10; is_anonymous = false; room = some 7; pending_room = none }

abbrev rejoined : State
rejoined = on_message 6 [] 1 in_room (join_room (some 7)) made

rejoin_test : rejoined.listed ≡ []
unfolding on_open on_message handle_create_room handle_join_room handle_leave_room add_peer
    remove_peer new_token get_room broadcast mark_room_empty remove_room is_empty
rejoin_test = refl
