-- ===== src/P2p/Room.antt =====
-- P2PRoom and P2PRoomManager. Tokens are numbers. A room is an object that handlers keep a
-- reference to, also when the manager has dropped it: `heap` holds every room that was made, and
-- `listed` the keys of the manager's dictionary.
use aird.Base.{
  ℕ, ◌-◌, max, min, Bool, false, ◌||◌, Option, none, some, List, [], ◌∷◌, ◌++◌, length, any, ltb,
  eqb, if◌then◌else◌,
}

pub record Room : Type 0 where
  pub room_id : ℕ
  pub creator_id : ℕ
  pub created_at : ℕ
  pub expiry_seconds : Option ℕ
  pub peers : List ℕ
  pub file_info : Option ℕ
  pub allow_anonymous : Bool
  pub empty_since : Option ℕ

-- A websocket, by the fields of its P2PSignalingHandler; `room` is the room's token.
pub record Connection : Type 0 where
  pub username : ℕ
  pub is_anonymous : Bool
  pub room : Option ℕ
  pub pending_room : Option ℕ

pub data Message : Type 0 where
  error room_error : ℕ → Message
  connected : ℕ → ℕ → Bool → Option ℕ → Message
  room_created : ℕ → Option ℕ → Bool → Message
  room_joined : ℕ → Option ℕ → ℕ → Bool → Message
  peer_joined : ℕ → ℕ → Bool → Message
  peer_left : ℕ → ℕ → Message
  file_info_updated : Option ℕ → Message
  offer answer ice_candidate : Option ℕ → ℕ → Message
  restart_connection : ℕ → ℕ → Message

pub record State : Type 0 where
  pub heap : ℕ → Option Room
  pub listed : List ℕ
  pub connections : ℕ → Option Connection
  pub sent : List (ℕ × Message)

abbrev pub update {ℓ} : {A : Type ℓ} → (ℕ → A) → ℕ → A → ℕ → A
update f k v j = if eqb k j then v else f j

abbrev pub put_room : Room → State → State
put_room room s = record s { heap = update s.heap room.room_id (some room) }

abbrev pub set_connection : ℕ → Connection → State → State
set_connection peer c s = record s { connections = update s.connections peer (some c) }

-- `write_message`.
abbrev pub send : ℕ → Message → State → State
send peer m s = record s { sent = s.sent ++ (peer, m) ∷ [] }

abbrev pub has : ℕ → List ℕ → Bool
has p ps = any (λ q. eqb q p) ps

unfoldable pub remove : ℕ → List ℕ → List ℕ
remove p [] = []
remove p (q ∷ qs) = let rest = remove p qs in if eqb q p then rest else q ∷ rest

-- `add_peer`: a key that is there keeps its place.
unfoldable pub add_peer : ℕ → Room → Room
add_peer peer room = record room {
  peers = if has peer room.peers then room.peers else room.peers ++ peer ∷ [];
}

unfoldable pub remove_peer : ℕ → Room → Room
unfolding remove
remove_peer peer room = record room { peers = remove peer room.peers }

abbrev pub peer_count : Room → ℕ
peer_count room = length room.peers

-- `get_other_peer`: the first peer that is another one.
unfoldable pub other_of : ℕ → List ℕ → Option ℕ
other_of peer [] = none
other_of peer (q ∷ qs) = let rest = other_of peer qs in if eqb q peer then rest else some q

-- `broadcast`; `none` excludes nobody.
abbrev pub excluded : Option ℕ → ℕ → Bool
excluded none q = false
excluded (some p) q = eqb q p

unfoldable pub broadcast : List ℕ → Message → Option ℕ → State → State
broadcast [] m exclude s = s
broadcast (q ∷ qs) m exclude s =
    broadcast qs m exclude (if excluded exclude q then s else send q m s)

abbrev pub min_expiry : ℕ
min_expiry = 300

abbrev pub max_expiry : ℕ
max_expiry = 604800

abbrev pub anonymous_empty_grace : ℕ
anonymous_empty_grace = 3600

abbrev pub clamp_expiry : Option ℕ → Option ℕ
clamp_expiry none = none
clamp_expiry (some n) = some (max min_expiry (min max_expiry n))

-- `secrets.token_urlsafe` until the token is new; `tokens` are its results.
unfoldable pub new_token : List ℕ → List ℕ → Option ℕ
new_token [] listed = none
new_token (t ∷ ts) listed = let rest = new_token ts listed in if has t listed then rest else some t

-- `P2PRoomManager.create_room`: the room object, before its registration.
abbrev pub make_room : ℕ → ℕ → ℕ → Bool → Option ℕ → Room
make_room now token creator allow_anonymous expiry = record {
  room_id = token;
  creator_id = creator;
  created_at = now;
  expiry_seconds = clamp_expiry expiry;
  peers = [];
  file_info = none;
  allow_anonymous = allow_anonymous;
  empty_since = none;
}

abbrev pub register : Room → State → State
register room s = record s {
  heap = update s.heap room.room_id (some room);
  listed = s.listed ++ room.room_id ∷ [];
}

-- `get_room`.
unfoldable pub get_room : ℕ → State → Option Room
get_room id s = if has id s.listed then s.heap id else none

unfoldable pub remove_room : ℕ → State → State
unfolding remove
remove_room id s = record s { listed = remove id s.listed }

-- `cleanup_old_rooms`.
abbrev past : ℕ → ℕ → Option ℕ → Bool
past now since none = false
past now since (some limit) = ltb limit (now - since)

abbrev past_grace : ℕ → Option ℕ → Bool
past_grace now none = false
past_grace now (some since) = ltb anonymous_empty_grace (now - since)

unfoldable pub is_stale : ℕ → Room → Bool
is_stale now room = past now room.created_at room.expiry_seconds || past_grace now room.empty_since

abbrev stale_object : ℕ → Option Room → Bool
stale_object now none = false
stale_object now (some room) = is_stale now room

keep_fresh : ℕ → (ℕ → Option Room) → List ℕ → List ℕ
keep_fresh now heap [] = []
keep_fresh now heap (id ∷ ids) =
    let rest = keep_fresh now heap ids in if stale_object now (heap id) then rest else id ∷ rest

unfoldable pub cleanup_old_rooms : ℕ → State → State
unfolding keep_fresh is_stale
cleanup_old_rooms now s = record s { listed = keep_fresh now s.heap s.listed }

-- `mark_room_empty`.
unfoldable pub mark_room_empty : ℕ → Room → State → State
unfolding remove_room
mark_room_empty now room s =
    if room.allow_anonymous
    then put_room (record room { empty_since = some now }) s
    else remove_room room.room_id s
