-- ===== src/P2p/Signaling/Rooms.antt =====
-- The life of the signalling server: peers connect, send and close, and the cleaning drops rooms.
use aird.Base.{
  ℕ, ◌≤◌, ◌≡◌, sym, inl, inr, subst, Bool, true, false, Option, none, some, List, [], All,
  Bool-cases, if_true, if_false,
}
use aird.P2p.Room.{Room, Connection, State, get_room, cleanup_old_rooms, peer_count}
use aird.P2p.Signaling.{
  Request, on_message, welcome, open_pending, open_guest, open_as, on_open, on_close,
}
use aird.P2p.Signaling.Invariant.{Allowed, Sound, set-Sound}
use aird.P2p.Signaling.Steps.{on_message-Sound, on_close-Sound}

-- A peer's identifier is random, so a peer that connects has one that no peer had before.
pub data Step : State → State → Type 0 where
  opens :
      (s : State) (feature_on : Bool) (peer guest : ℕ) (user room : Option ℕ)
      → s.connections peer ≡ none
      → Step s (on_open feature_on peer guest user room s)
  receives :
      (s : State) (now : ℕ) (tokens : List ℕ) (peer : ℕ) (c : Connection) (q : Request)
      → s.connections peer ≡ some c
      → Step s (on_message now tokens peer c q s)
  closes :
      (s : State) (now peer : ℕ) (c : Connection)
      → s.connections peer ≡ some c
      → Step s (on_close now peer c s)
  cleans : (s : State) (now : ℕ) → Step s (cleanup_old_rooms now s)

pub data Reach : State → State → Type 0 where
  here : {s : State} → Reach s s
  next : {s t u : State} → Reach s t → Step t u → Reach s u

abbrev pub start : State
start = record { heap = λ id. none; listed = []; connections = λ p. none; sent = [] }

start-Sound : Sound start
start-Sound = record { rooms = λ id room e. cc; keys = λ id room e. cc }

module _ (peer guest : ℕ) (s : State) (k : Sound s) (new : s.connections peer ≡ none) where
  welcome-Sound :
      (username : ℕ) (anonymous : Bool) (pending : Option ℕ)
      → Sound (welcome peer username anonymous pending s)
  unfolding welcome
  welcome-Sound username anonymous pending = set-Sound s.heap s.connections peer _ (λ c' e. cc) k

  pending-Sound : (id : ℕ) (o : Option Room) → Sound (open_pending peer guest id o s)
  unfolding open_pending
  pending-Sound id none = k
  pending-Sound id (some room) = elim (Bool-cases room.allow_anonymous) [
    | inl free ↦ subst Sound (sym (if_true _ _ free)) (welcome-Sound guest true (some id))
    | inr shut ↦ subst Sound (sym (if_false _ _ shut)) k
  ]

  guest-Sound : (room : Option ℕ) → Sound (open_guest peer guest room s)
  unfolding open_guest
  guest-Sound none = welcome-Sound guest true none
  guest-Sound (some id) = pending-Sound id (get_room id s)

  open_as-Sound : (user room : Option ℕ) → Sound (open_as peer guest user room s)
  unfolding open_as
  open_as-Sound none room = guest-Sound room
  open_as-Sound (some user) room = welcome-Sound user false none

  on_open-Sound :
      (feature_on : Bool) (user room : Option ℕ) → Sound (on_open feature_on peer guest user room s)
  unfolding on_open
  on_open-Sound true user room = open_as-Sound user room
  on_open-Sound false user room = k

Step-Sound : {s t : State} → Step s t → Sound s → Sound t
unfolding cleanup_old_rooms
Step-Sound (opens s feature_on peer guest user room new) k =
    on_open-Sound peer guest s k new feature_on user room
Step-Sound (receives s now tokens peer c q there) k = on_message-Sound now tokens peer c q s k there
Step-Sound (closes s now peer c there) k = on_close-Sound now peer c s k there
Step-Sound (cleans s now) k = record { rooms = k.rooms; keys = k.keys }

Reach-Sound : {s t : State} → Sound s → Reach s t → Sound t
Reach-Sound k here = k
Reach-Sound k (next r st) = Step-Sound st (Reach-Sound k r)

-- After any sequence of connections, messages, departures and cleanings, each room that the manager
-- finds or a handler still refers to has at most two peers, and each of them is there because the
-- room admits anonymous peers, because it made the room, or because it has logged in. A new peer is
-- assumed to have an identifier that no peer had.
pub rooms_guarded :
    (s : State) (id : ℕ) (room : Room)
    → Reach start s
    → s.heap id ≡ some room
    → (peer_count room ≤ 2) × All (Allowed s.connections room) room.peers
rooms_guarded s id room r e =
    let ok = (Reach-Sound start-Sound r).rooms id room e in (ok.small, ok.allowed)
