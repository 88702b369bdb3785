-- ===== src/P2p/Signaling/Steps.antt =====
-- Every event keeps the invariant of the rooms.
use mathlib.Core.Option.{some-injective}
use aird.Base.{
  ℕ, ◌≤◌, ◌<◌, ◌≡◌, refl, sym, ◌∙◌, ap, subst, ◌⊎◌, inl, inr, Bool, true, false, not, ◌&&◌,
  Bool-cases, Option, none, some, List, [], All, length, leb, arith, if_true, if_false,
}
use aird.P2p.Room.{
  Room, Connection, Message, State, update, add_peer, peer_count, make_room, get_room, other_of,
}
use aird.P2p.Signaling.{
  handle_leave_room, enter_new, with_info, handle_create_room, enter_object, join_found,
  handle_join_room, forward, forward_in, send_to, update_info, object_of, Request, create_room,
  join_room, leave_room_request, offer_request, answer_request, ice_request, file_info_request,
  restart_request, unknown, undecodable, oversized, on_message, on_close,
}
use aird.P2p.Signaling.Invariant.{
  Allowed, RoomOk, IsSound, Sound, put-Sound, set-Sound, broadcast-Sound, add_peer-RoomOk,
}
use aird.P2p.Signaling.Leaving.{eqb_refl, Leaves, leave-Leaves}

-- Entering a room that has a free place, by a peer that may be there.
enter-Sound :
    (peer : ℕ) (c : Connection) (room : Room) (id : ℕ) (t : State)
    → Sound t
    → ((c' : Connection) → t.connections peer ≡ some c' → c'.is_anonymous ≡ c.is_anonymous)
    → t.heap id ≡ some room
    → peer_count room < 2
    → (room.allow_anonymous ≡ true) ⊎ (c.is_anonymous ≡ false)
    → Sound (enter_object peer c (some room) t)
unfolding enter_object
enter-Sound peer c room id t k same found free may =
    let open_room : Room = record room { empty_since = none } in
    let c' : Connection = record c { room = some (add_peer peer open_room).room_id } in
    let conns = update t.connections peer (some c') in
    let grown : IsSound t.heap conns =
      set-Sound t.heap t.connections peer c' (λ d e. sym (same d e)) k in
    let ok = grown.rooms id room found in
    let reopened : RoomOk conns open_room = record { small = ok.small; allowed = ok.allowed } in
    let joined : RoomOk conns (add_peer peer open_room) =
      add_peer-RoomOk conns peer open_room free reopened
        (admit conns (c', if_true _ _ (eqb_refl peer), refl) may) in
    broadcast-Sound _ _ _ _ (put-Sound t.heap conns (add_peer peer open_room) joined grown)
  where
    admit :
        (conns : ℕ → Option Connection)
        → (d : Connection) × (conns peer ≡ some d) × (d.is_anonymous ≡ c.is_anonymous)
        → (room.allow_anonymous ≡ true) ⊎ (c.is_anonymous ≡ false)
        → Allowed conns (record room { empty_since = none }) peer
    admit conns _ (inl a) = inl a
    admit conns (d, e, b) (inr a) = inr (inr (d, e, b ∙ a))

module _ (now peer : ℕ) (c : Connection) (s : State) (k : Sound s)
    (here : s.connections peer ≡ some c) where
  abbrev left : State
  left = handle_leave_room now peer c s

  left-Leaves : Leaves s peer c left
  left-Leaves = leave-Leaves now peer c s k here

  -- After leaving, the room that is joined has no more peers than before.
  rejoin-Sound :
      (room : Room) (o : Option Room)
      → left.heap room.room_id ≡ o
      → s.heap room.room_id ≡ some room
      → peer_count room < 2
      → (room.allow_anonymous ≡ true) ⊎ (c.is_anonymous ≡ false)
      → Sound (enter_object peer c o left)
  unfolding enter_object
  rejoin-Sound room none e found free may = left-Leaves.sound
  rejoin-Sound room (some now_room) e found free may =
      let (old, there, less', allow, _) = left-Leaves.shrinks.before room.room_id now_room e in
      let same : old ≡ room = some-injective _ _ (sym there ∙ found) in
      let count : peer_count old ≡ peer_count room = ap (λ (x : Room). peer_count x) same in
      enter-Sound peer c now_room room.room_id left left-Leaves.sound left-Leaves.anonymity e
        (omega (arith, count, less'))
        (open_or_known (allow ∙ ap (λ (x : Room). x.allow_anonymous) same) may)
    where
      open_or_known :
          now_room.allow_anonymous ≡ room.allow_anonymous
          → (room.allow_anonymous ≡ true) ⊎ (c.is_anonymous ≡ false)
          → (now_room.allow_anonymous ≡ true) ⊎ (c.is_anonymous ≡ false)
      open_or_known e (inl a) = inl (e ∙ a)
      open_or_known e (inr a) = inr a

  admission : (a b : Bool) → (a && not b) ≡ false → (b ≡ true) ⊎ (a ≡ false)
  admission true true h = inl refl
  admission true false h = cc
  admission false b h = inr refl

  join_found-Sound :
      (o : Option Room)
      → ((room : Room) → o ≡ some room → s.heap room.room_id ≡ some room)
      → Sound (join_found now peer c o s)
  unfolding join_found
  join_found-Sound none h = k
  join_found-Sound (some room) h = elim (Bool-cases (c.is_anonymous && not room.allow_anonymous)) [
    | inl barred ↦ subst Sound (sym (if_true _ _ barred)) k
    | inr may ↦ subst Sound (sym (if_false _ _ may)) (elim (Bool-cases (leb 2 (peer_count room))) [
      | inl full ↦ subst Sound (sym (if_true _ _ full)) k
      | inr free ↦ subst Sound (sym (if_false _ _ free)) (
          rejoin-Sound room (left.heap room.room_id) refl (h room refl) (ground arith)
            (admission c.is_anonymous room.allow_anonymous may))
    ])
  ]

  found_object :
      (id : ℕ) (room : Room) → get_room id s ≡ some room → s.heap room.room_id ≡ some room
  unfolding get_room
  found_object id room e =
      let there : s.heap id ≡ some room = ground (arith, e) in
      ap s.heap (k.keys id room there) ∙ there

  join-Sound : (id : Option ℕ) → Sound (handle_join_room now peer c id s)
  unfolding handle_join_room
  join-Sound none = k
  join-Sound (some id) = join_found-Sound (get_room id s) (found_object id)

  info-Sound : (info o : Option ℕ) → Sound (update_info peer info (object_of o s) s)
  unfolding update_info
  info-Sound info none = k
  info-Sound info (some id) = go (s.heap id) refl
    where
      go : (o : Option Room) → s.heap id ≡ o → Sound (update_info peer info o s)
      go none e = k
      go (some room) e =
          let ok = k.rooms id room e in
          broadcast-Sound _ _ _ _ (
            put-Sound s.heap s.connections (record room { file_info = info })
              (record { small = ok.small; allowed = ok.allowed }) k)

  forward-Sound : (m : Message) → Sound (forward peer c m s)
  unfolding forward forward_in send_to
  forward-Sound m = go (object_of c.room s)
    where
      to : (o : Option ℕ) → Sound (send_to o m s)
      to none = k
      to (some q) = k

      go : (o : Option Room) → Sound (forward_in peer o m s)
      go none = k
      go (some room) = to (other_of peer room.peers)

  create-Sound :
      (anonymous : Bool) (info token : Option ℕ)
      → Sound (enter_new now peer c anonymous info token left)
  unfolding enter_new
  create-Sound anonymous info none = left-Leaves.sound
  create-Sound anonymous info (some token) =
      let made : Room = with_info info (make_room now token peer anonymous none) in
      made-Sound token made (fresh info) (creator info) (key info)
    where
      fresh : (i : Option ℕ) → (with_info i (make_room now token peer anonymous none)).peers ≡ []
      fresh none = refl
      fresh (some i) = refl

      creator :
          (i : Option ℕ) → peer ≡ (with_info i (make_room now token peer anonymous none)).creator_id
      creator none = refl
      creator (some i) = refl

      key : (i : Option ℕ) → (with_info i (make_room now token peer anonymous none)).room_id ≡ token
      key none = refl
      key (some i) = refl

      made-Sound :
          (token : ℕ) (made : Room)
          → made.peers ≡ []
          → peer ≡ made.creator_id
          → made.room_id ≡ token
          → IsSound
              (update
                (update left.heap made.room_id (some made))
                (add_peer peer made).room_id
                (some (add_peer peer made)))
              (update left.connections peer (some (record c { room = some token })))
      made-Sound token made empty maker e =
          let c' : Connection = record c { room = some token } in
          let conns = update left.connections peer (some c') in
          let grown : IsSound left.heap conns =
            set-Sound left.heap left.connections peer c' (λ d e. sym (left-Leaves.anonymity d e))
              left-Leaves.sound in
          let ok : RoomOk conns made = record {
            small = subst (λ (l : List ℕ). length l ≤ 2) (sym empty) (omega arith);
            allowed = subst (All (Allowed conns made)) (sym empty) tt;
          } in
          let room : peer_count made < 2 =
            subst (λ (l : List ℕ). length l < 2) (sym empty) (omega arith) in
          put-Sound _ conns (add_peer peer made)
            (add_peer-RoomOk conns peer made room ok (inr (inl maker)))
            (put-Sound left.heap conns made ok grown)

-- Whatever a connected peer sends, and when it closes, the rooms stay sound.
pub on_message-Sound :
    (now : ℕ) (tokens : List ℕ) (peer : ℕ) (c : Connection) (q : Request) (s : State)
    → Sound s
    → s.connections peer ≡ some c
    → Sound (on_message now tokens peer c q s)
unfolding on_message handle_create_room
on_message-Sound now tokens peer c (create_room anonymous info) s k here =
    create-Sound now peer c s k here anonymous info _
on_message-Sound now tokens peer c (join_room id) s k here = join-Sound now peer c s k here id
on_message-Sound now tokens peer c leave_room_request s k here =
    (left-Leaves now peer c s k here).sound
on_message-Sound now tokens peer c (offer_request sdp) s k here =
    forward-Sound now peer c s k here _
on_message-Sound now tokens peer c (answer_request sdp) s k here =
    forward-Sound now peer c s k here _
on_message-Sound now tokens peer c (ice_request candidate) s k here =
    forward-Sound now peer c s k here _
on_message-Sound now tokens peer c (file_info_request info) s k here =
    info-Sound now peer c s k here info c.room
on_message-Sound now tokens peer c restart_request s k here = forward-Sound now peer c s k here _
on_message-Sound now tokens peer c unknown s k here = k
on_message-Sound now tokens peer c undecodable s k here = k
on_message-Sound now tokens peer c oversized s k here = k

pub on_close-Sound :
    (now peer : ℕ) (c : Connection) (s : State)
    → Sound s
    → s.connections peer ≡ some c
    → Sound (on_close now peer c s)
unfolding on_close
on_close-Sound now peer c s k here = (left-Leaves now peer c s k here).sound
