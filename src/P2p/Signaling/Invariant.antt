-- ===== src/P2p/Signaling/Invariant.antt =====
-- A room never holds more than two peers, and no anonymous peer but its maker where it admits none.
use aird.Base.{
  ℕ, ◌≤◌, ◌<◌, ◌≡◌, refl, sym, ◌∙◌, ap, subst, ◌⊎◌, inl, inr, Bool, true, false, Bool-cases, Option,
  some, List, [], ◌∷◌, ◌++◌, All, All-map, All-append, length, length-append, eqb, eqb→eq, arith,
  if◌then◌else◌, if_true, if_false,
}
use mathlib.Core.Option.{some-injective}
use aird.P2p.Room.{
  Room, Connection, Message, State, update, has, remove, add_peer, remove_peer, peer_count,
  excluded, send, broadcast,
}

abbrev pub Connections : Type 0
Connections = ℕ → Option Connection

abbrev pub Heap : Type 0
Heap = ℕ → Option Room

-- A peer that has logged in.
abbrev pub LoggedIn : Connections → ℕ → Type 0
LoggedIn cs p = (c : Connection) × (cs p ≡ some c) × (c.is_anonymous ≡ false)

abbrev pub Allowed : Connections → Room → ℕ → Type 0
Allowed cs room p = (room.allow_anonymous ≡ true) ⊎ ((p ≡ room.creator_id) ⊎ LoggedIn cs p)

pub record RoomOk (cs : Connections) (room : Room) : Type 0 where
  pub small : peer_count room ≤ 2
  pub allowed : All (Allowed cs room) room.peers

pub record IsSound (h : Heap) (cs : Connections) : Type 0 where
  pub rooms : (id : ℕ) (room : Room) → h id ≡ some room → RoomOk cs room
  pub keys : (id : ℕ) (room : Room) → h id ≡ some room → room.room_id ≡ id

abbrev pub Sound : State → Type 0
Sound s = IsSound s.heap s.connections

pub length-remove : (p : ℕ) (qs : List ℕ) → length (remove p qs) ≤ length qs
unfolding remove
length-remove p [] = omega arith
length-remove p (q ∷ qs) = ground (arith, length-remove p qs)

All-remove : (P : ℕ → Type 0) (p : ℕ) (qs : List ℕ) → All P qs → All P (remove p qs)
unfolding remove
All-remove P p [] h = tt
All-remove P p (q ∷ qs) (h, hs) = elim (Bool-cases (eqb q p)) [
  | inl same ↦ rw same (All-remove P p qs hs)
  | inr differ ↦ rw differ (h, All-remove P p qs hs)
]

pub remove_peer-RoomOk :
    (cs : Connections) (p : ℕ) (room : Room) → RoomOk cs room → RoomOk cs (remove_peer p room)
unfolding remove_peer
remove_peer-RoomOk cs p room k = record {
  small = omega (arith, length-remove p room.peers, k.small);
  allowed = All-remove (Allowed cs room) p room.peers k.allowed;
}

pub add_peer-RoomOk :
    (cs : Connections) (p : ℕ) (room : Room)
    → peer_count room < 2
    → RoomOk cs room
    → Allowed cs room p
    → RoomOk cs (add_peer p room)
unfolding add_peer
add_peer-RoomOk cs p room free k a = elim (Bool-cases (has p room.peers)) [
  | inl old ↦ record {
    small = subst (λ (l : List ℕ). length l ≤ 2) (sym (if_true _ _ old)) k.small;
    allowed = subst (All (Allowed cs room)) (sym (if_true _ _ old)) k.allowed;
  }
  | inr new ↦ record {
    small =
        let room_left : length (room.peers ++ p ∷ []) ≤ 2 =
          omega (arith, length-append room.peers (p ∷ [])) in
        subst (λ (l : List ℕ). length l ≤ 2) (sym (if_false _ _ new)) room_left;
    allowed =
        subst (All (Allowed cs room)) (sym (if_false _ _ new))
          (All-append (Allowed cs room) room.peers (p ∷ []) k.allowed (a, tt));
  }
]

-- More peers have logged in: what was allowed is.
grow :
    (h : Heap) (cs ds : Connections)
    → ((p : ℕ) → LoggedIn cs p → LoggedIn ds p)
    → IsSound h cs
    → IsSound h ds
grow h cs ds more k = record {
  rooms = λ id room e.
      let r = k.rooms id room e in
      record {
        small = r.small;
        allowed =
            All-map (Allowed cs room) (Allowed ds room) room.peers (λ p a. widen room p a)
              r.allowed;
      };
  keys = k.keys;
}
  where
    widen : (room : Room) (p : ℕ) → Allowed cs room p → Allowed ds room p
    widen room p (inl a) = inl a
    widen room p (inr (inl a)) = inr (inl a)
    widen room p (inr (inr a)) = inr (inr (more p a))

-- A connection keeps whether it is anonymous, or is a new one.
set_connection-LoggedIn :
    (cs : Connections) (peer : ℕ) (c : Connection)
    → ((c' : Connection) → cs peer ≡ some c' → c.is_anonymous ≡ c'.is_anonymous)
    → (p : ℕ) → LoggedIn cs p
    → LoggedIn (update cs peer (some c)) p
set_connection-LoggedIn cs peer c same p (c', e, a) = elim (Bool-cases (eqb peer p)) [
  | inl here ↦ (c, if_true _ _ here, same c' (ap cs (eqb→eq peer p here) ∙ e) ∙ a)
  | inr there ↦ (c', if_false _ _ there ∙ e, a)
]

pub set-Sound :
    (h : Heap) (cs : Connections) (peer : ℕ) (c : Connection)
    → ((c' : Connection) → cs peer ≡ some c' → c.is_anonymous ≡ c'.is_anonymous)
    → IsSound h cs
    → IsSound h (update cs peer (some c))
set-Sound h cs peer c same k =
    grow h cs (update cs peer (some c)) (set_connection-LoggedIn cs peer c same) k

pub put-Sound :
    (h : Heap) (cs : Connections) (room : Room)
    → RoomOk cs room
    → IsSound h cs
    → IsSound (update h room.room_id (some room)) cs
put-Sound h cs room ok k = record {
  rooms = λ id r e. elim (Bool-cases (eqb room.room_id id)) [
    | inl here ↦ subst (RoomOk cs) (some-injective _ _ (sym (if_true _ _ here) ∙ e)) ok
    | inr there ↦ k.rooms id r (sym (if_false _ _ there) ∙ e)
  ];
  keys = λ id r e. elim (Bool-cases (eqb room.room_id id)) [
    | inl here ↦
        ap (λ (x : Room). x.room_id) (sym (some-injective _ _ (sym (if_true _ _ here) ∙ e)))
        ∙ eqb→eq _ _ here
    | inr there ↦ k.keys id r (sym (if_false _ _ there) ∙ e)
  ];
}

pub broadcast_fields :
    (qs : List ℕ) (m : Message) (x : Option ℕ) (s : State)
    → ((broadcast qs m x s).heap ≡ s.heap)
      × ((broadcast qs m x s).connections ≡ s.connections)
      × ((broadcast qs m x s).listed ≡ s.listed)
unfolding broadcast
broadcast_fields [] m x s = (refl, refl, refl)
broadcast_fields (q ∷ qs) m x s =
    let (h, c, l) = broadcast_fields qs m x (if excluded x q then s else send q m s) in
    let same = step (excluded x q) in (h ∙ same.0, c ∙ same.1, l ∙ same.2)
  where
    step :
        (b : Bool)
        → ((if b then s else send q m s).heap ≡ s.heap)
          × ((if b then s else send q m s).connections ≡ s.connections)
          × ((if b then s else send q m s).listed ≡ s.listed)
    step true = (refl, refl, refl)
    step false = (refl, refl, refl)

pub broadcast-Sound :
    (qs : List ℕ) (m : Message) (x : Option ℕ) (s : State) → Sound s → Sound (broadcast qs m x s)
broadcast-Sound qs m x s k =
    let (h, c, _) = broadcast_fields qs m x s in
    subst (λ h'. IsSound h' (broadcast qs m x s).connections) (sym h)
      (subst (IsSound s.heap) (sym c) k)

-- Leaving: the rooms that are left keep their makers and rules, and have no more peers.
pub record Shrinks (h h' : Heap) : Type 0 where
  pub before :
      (id : ℕ) (room' : Room)
      → h' id ≡ some room'
      → (room : Room) × (h id ≡ some room)
        × (peer_count room' ≤ peer_count room)
        × (room'.allow_anonymous ≡ room.allow_anonymous)
        × (room'.creator_id ≡ room.creator_id)

pub Shrinks-refl : (h : Heap) → Shrinks h h
Shrinks-refl h = record { before = λ id room' e. (room', e, omega arith, refl, refl) }

pub put-Shrinks :
    (h h' : Heap) (room room' : Room)
    → h room.room_id ≡ some room
    → room'.room_id ≡ room.room_id
    → peer_count room' ≤ peer_count room
    → room'.allow_anonymous ≡ room.allow_anonymous
    → room'.creator_id ≡ room.creator_id
    → Shrinks h h'
    → Shrinks h (update h' room'.room_id (some room'))
put-Shrinks h h' room room' there key less allow creator k = record {
  before = λ id r e. elim (Bool-cases (eqb room'.room_id id)) [
    | inl here ↦
        let same : room' ≡ r = some-injective _ _ (sym (if_true _ _ here) ∙ e) in
        (
          room,
          ap h (sym (eqb→eq _ _ here) ∙ key) ∙ there,
          subst (λ (x : Room). peer_count x ≤ peer_count room) same less,
          ap (λ (x : Room). x.allow_anonymous) (sym same) ∙ allow,
          ap (λ (x : Room). x.creator_id) (sym same) ∙ creator,
        )
    | inr other ↦ k.before id r (sym (if_false _ _ other) ∙ e)
  ];
}
