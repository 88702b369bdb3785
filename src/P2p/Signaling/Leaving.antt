-- ===== src/P2p/Signaling/Leaving.antt =====
-- Leaving a room: what it does to the rooms and to the connection that leaves.
use mathlib.Core.Option.{some-injective}
use aird.Base.{
  ℕ, ◌≤◌, ◌≡◌, refl, sym, ◌∙◌, ap, subst, Bool, true, false, Option, none, some, eqb, arith,
  if◌then◌else◌, if_true,
}
use aird.Base.Text.{is_empty}
use aird.P2p.Room.{
  Room, Connection, State, put_room, set_connection, remove_peer, peer_count, peer_left, broadcast,
  mark_room_empty, remove_room,
}
use aird.P2p.Signaling.{service_leave_room, leave_room, leave_object, leave_of, handle_leave_room}
use aird.P2p.Signaling.Invariant.{
  RoomOk, IsSound, Sound, Shrinks, Shrinks-refl, put-Shrinks, put-Sound, set-Sound,
  broadcast_fields, remove_peer-RoomOk, length-remove,
}

pub eqb_refl : (n : ℕ) → eqb n n ≡ true
eqb_refl n = ground arith

either : (P : State → Type 0) (b : Bool) (x y : State) → P x → P y → P (if b then x else y)
either P true x y h k = h
either P false x y h k = k

-- What leaving does to the rooms and to the connection.
pub record Leaves (s : State) (peer : ℕ) (c : Connection) (t : State) : Type 0 where
  pub sound : Sound t
  pub shrinks : Shrinks s.heap t.heap
  pub anonymity :
      (c' : Connection) → t.connections peer ≡ some c' → c'.is_anonymous ≡ c.is_anonymous

module _ (now peer : ℕ) (c : Connection) (s : State) (k : Sound s)
    (here : s.connections peer ≡ some c) where
  stays : Leaves s peer c s
  stays = record {
    sound = k;
    shrinks = Shrinks-refl s.heap;
    anonymity = λ c' e. ap (λ (x : Connection). x.is_anonymous) (some-injective _ _ (sym e ∙ here));
  }

  module _ (room : Room) (found : s.heap room.room_id ≡ some room) where
    abbrev less : Room
    less = remove_peer peer room

    abbrev after : State
    after = broadcast less.peers (peer_left peer c.username) none (put_room less s)

    less-RoomOk : RoomOk s.connections less
    less-RoomOk = remove_peer-RoomOk s.connections peer room (k.rooms room.room_id room found)

    fewer : peer_count less ≤ peer_count room
    unfolding remove_peer
    fewer = length-remove peer room.peers

    same_room :
        (less.room_id ≡ room.room_id)
        × (less.allow_anonymous ≡ room.allow_anonymous)
        × (less.creator_id ≡ room.creator_id)
    unfolding remove_peer
    same_room = (refl, refl, refl)

    put_less : IsSound (put_room less s).heap s.connections
    put_less = put-Sound s.heap s.connections less less-RoomOk k

    -- The rooms after the departure, whether the room is kept, marked or dropped.
    abbrev Rest : State → Type 0
    Rest t = (t.connections ≡ s.connections) × IsSound t.heap s.connections × Shrinks s.heap t.heap

    left_heap :
        (t : State) → Rest t → Leaves s peer c (set_connection peer (record c { room = none }) t)
    left_heap t (e, sound, shrinks) = record {
      sound =
          set-Sound t.heap t.connections peer (record c { room = none })
            (λ c' f.
              ap (λ (x : Connection). x.is_anonymous)
                (some-injective _ _ (sym here ∙ ap (λ cs. cs peer) (sym e) ∙ f)))
            (subst (IsSound t.heap) (sym e) sound);
      shrinks = shrinks;
      anonymity = λ c' f.
          ap (λ (x : Connection). x.is_anonymous)
            (some-injective _ _ (sym f ∙ if_true _ _ (eqb_refl peer)));
    }

    kept : Rest after
    kept =
        let (h, cs, l) =
          broadcast_fields less.peers (peer_left peer c.username) none (put_room less s) in
        (
          cs,
          subst (λ h'. IsSound h' s.connections) (sym h) put_less,
          subst (Shrinks s.heap) (sym h) (
              put-Shrinks s.heap s.heap room less found same_room.0 fewer same_room.1 same_room.2
                (Shrinks-refl s.heap)),
        )

    marked : Rest (mark_room_empty now less after)
    unfolding mark_room_empty remove_room
    marked =
        either Rest less.allow_anonymous _ _
          (
            kept.0,
            put-Sound after.heap s.connections (record less { empty_since = some now })
                (record { small = less-RoomOk.small; allowed = less-RoomOk.allowed }) kept.1,
            put-Shrinks s.heap after.heap room (record less { empty_since = some now }) found
                same_room.0 fewer same_room.1 same_room.2 kept.2,
          )
          kept

    leave_room-Leaves : Leaves s peer c (leave_room now peer c room s)
    unfolding leave_room service_leave_room
    leave_room-Leaves = left_heap _ (
        either Rest (is_empty less.peers) _ _ (either Rest (is_empty less.peers) _ _ marked kept)
          kept)

  leave_object-Leaves :
      (id : ℕ) (o : Option Room) → s.heap id ≡ o → Leaves s peer c (leave_object now peer c o s)
  unfolding leave_object
  leave_object-Leaves id none e = stays
  leave_object-Leaves id (some room) e = leave_room-Leaves room (ap s.heap (k.keys id room e) ∙ e)

  leave_of-Leaves : (o : Option ℕ) → Leaves s peer c (leave_of now peer c o s)
  unfolding leave_of
  leave_of-Leaves none = stays
  leave_of-Leaves (some id) = leave_object-Leaves id (s.heap id) refl

  pub leave-Leaves : Leaves s peer c (handle_leave_room now peer c s)
  unfolding handle_leave_room
  leave-Leaves = leave_of-Leaves c.room
