-- ===== src/Game/Server/Sound/Enter.antt =====
-- src/game/game_server.cpp, enter_room: a player that may enter a room gets a seat in it.
use mathlib.Core.Path.{subst}
use hovorun.Prelude.{
  ◌==◌, ==_refl, Bool-cases, Option-cases, get_or-set, ℕ, zero, suc, ◌+◌, ◌≤◌, ◌<◌, ◌≡◌, refl, sym,
  ◌≢◌, inl, inr, Bool, true, false, not, ◌&&◌, ◌||◌, Option, some, List, arith,
}
use hovorun.Containers.IdMap
use hovorun.Containers.IdMap.{IdMap}
use hovorun.Game.Server.{
  Player, Room, GameServer, capacity, is_open, first_open, free_slot, leave_found, remove_at,
  remove_from_room, out_of_room,
}
use hovorun.Game.Server.Entry.{in_seat, sit, sit_found, join_room, has_slot, enter_room_of}
use hovorun.Game.Server.Sound.{room_of, slot_of, occupant, IsSound}
use hovorun.Game.Server.Sound.Leave.{Left, leave_found-Left, seated_room}
use hovorun.Game.Server.Sound.Join.{free_slot-IsFree, out_of-host, join_room-IsSound}
use hovorun.Game.Server.Lobby.{find_room}
use hovorun.Containers.TextMap.{same_text}
use hovorun.App.Accounts.{is_blank}

-- An open slot is enough for the loop of free_slot to stop.
first_open-some :
    (r : Room) (n i j : ℕ)
    → is_open r j ≡ true
    → i ≤ j
    → j < i + n
    → (m : ℕ) × (first_open r n i ≡ some m)
unfolding first_open
first_open-some r zero i j o a b = absurd (omega arith)
first_open-some r (suc n) i j o a b = elim (Bool-cases (is_open r i)) [
  | inl q ↦ (i, rw (first_open, q) refl)
  | inr q ↦
      let other : i ≢ j = λ c. let bad = rw (c) at q in ground arith in
      let (m, e) = first_open-some r n (suc i) j o (omega arith) (omega arith) in
      (m, rw (first_open, q) e)
]

-- Slot `j` of a room is one that free_slot could give.
pub record HasFree (j : ℕ) (o : Option Room) : Type 0 where
  pub room : Room
  pub found : o ≡ some room
  pub empty : is_open room j ≡ true
  pub below : j < capacity room

pub HasFree-free_slot :
    (j : ℕ) (r : Room) → is_open r j ≡ true → j < capacity r → (m : ℕ) × (free_slot r ≡ some m)
unfolding free_slot
HasFree-free_slot j r o b = first_open-some r (capacity r) 0 j o (omega arith) (omega arith)

keeps_HasFree :
    {k b : ℕ} {p : Player} {r r' : Room} {players m : IdMap Player} {rooms n : IdMap ℕ}
    {heap h : IdMap Room} (a j : ℕ)
    → IdMap.find b heap ≡ some r
    → Left k b p r r' players m rooms n heap h
    → HasFree j (IdMap.find a heap)
    → HasFree j (IdMap.find a h)
keeps_HasFree {k} {b} {p} {r} {r'} a j f l free = elim (Bool-cases (a == b)) [
  | inr q ↦ record {
    room = free.room;
    found = rw (l.room a, q) free.found;
    empty = free.empty;
    below = free.below;
  }
  | inl q ↦
      let same : a ≡ b = ground arith in
      let here : some r ≡ some free.room = rw (same, f) at free.found in
      let is : r ≡ free.room = cc in
      let empty : is_open r j ≡ true = subst (λ x. is_open x j ≡ true) (sym is) free.empty in
      let below : j < capacity r = subst (λ x. j < capacity x) (sym is) free.below in
      record {
        room = r';
        found = rw (l.room a, q) refl;
        empty = rw (l.slots, l.closed, get_or-set r.slots p.slot 0 j 0) (ground arith);
        below = subst (λ i. j < capacity (record r { info = i })) (sym l.info) below;
      }
]

-- Taking a player out of its room takes no free slot of any room away.
pub remove_from_room-HasFree :
    (p : Player) (kicked : Bool) (a j : ℕ) (g : GameServer)
    → IsSound g
    → IdMap.find p.host g.players ≡ some p
    → HasFree j (IdMap.find a g.heap)
    → HasFree j (IdMap.find a (remove_from_room p kicked g).heap)
unfolding remove_from_room
remove_from_room-HasFree p kicked a j g s e free = elim (Option-cases p.current_room) [
  | inl i ↦ subst (λ o. HasFree j (IdMap.find a (remove_at p kicked o g).heap)) (sym i) free
  | inr (b, i) ↦
      let (r, f) = seated_room p b g s e i in
      subst (λ o. HasFree j (IdMap.find a (remove_at p kicked o g).heap)) (sym i)
        (subst (λ o. HasFree j (IdMap.find a (leave_found p kicked b o g).heap)) (sym f)
          (keeps_HasFree a j f (leave_found-Left p b r g i e f s kicked).1 free))
]

sit_found-room :
    (p : Player) (a j : ℕ) (g : GameServer)
    → HasFree j (IdMap.find a g.heap)
    → room_of (IdMap.find p.host (sit_found p a (IdMap.find a g.heap) g).players) ≡ some a
unfolding sit
sit_found-room p a j g free =
    let (m, e) = HasFree-free_slot j free.room free.empty free.below in
    rw (free.found, sit_found, e)
      (let law = IdMap.find-put p.host p.host (in_seat a m p) g.players in
        rw (law, ==_refl p.host) refl)

join_room-room :
    (p : Player) (a j : ℕ) (g : GameServer)
    → IsSound g
    → IdMap.find p.host g.players ≡ some p
    → HasFree j (IdMap.find a g.heap)
    → room_of (IdMap.find p.host (join_room p a g).players) ≡ some a
unfolding join_room
join_room-room p a j g s e free =
    let left = remove_from_room p false g in
    subst
      (λ k.
        room_of (IdMap.find k (sit_found (out_of_room p) a (IdMap.find a left.heap) left).players)
        ≡ some a)
      (out_of-host p.current_room p)
      (sit_found-room (out_of_room p) a j left (remove_from_room-HasFree p false a j g s e free))

find_room-find :
    (channel number a : ℕ) (r : Room) (g : GameServer)
    → find_room channel number g ≡ some (a, r)
    → IdMap.find a g.heap ≡ some r
unfolding find_room
find_room-find channel number a r g e = ground arith

-- A player of a sound server that asks for a room of its channel gets a seat in it, wherever it was
-- before and whatever the rooms' states: after enter_room it is in that room, with its host id in its
-- slot there, if the race has not started, the room has no password or this one, and free_slot has a
-- slot for it.
pub enter_room-seated :
    (p : Player) (number : ℕ) (password : List ℕ) (a slot : ℕ) (r : Room) (g : GameServer)
    → IsSound g
    → IdMap.find p.host g.players ≡ some p
    → find_room p.channel number g ≡ some (a, r)
    → r.playing ≡ false
    → (is_blank r.info.password || same_text r.info.password password) ≡ true
    → free_slot r ≡ some slot
    → (room_of (IdMap.find p.host (enter_room_of p (number, password) g).players) ≡ some a)
      × (occupant
            (slot_of (IdMap.find p.host (enter_room_of p (number, password) g).players))
            (IdMap.find a (enter_room_of p (number, password) g).heap)
          ≡ p.host)
unfolding enter_room_of
enter_room-seated p number password a slot r g s e found waits knows free =
    let f = find_room-find p.channel number a r g found in
    let got = free_slot-IsFree r slot free in
    let lets : (not (is_blank r.info.password) && not (same_text r.info.password password))
        ≡ false =
      ground arith in
    let room = join_room-room p a slot g s e (record {
      room = r;
      found = f;
      empty = rw (got.empty, got.not_closed) refl;
      below = got.below;
    }) in
    let sound = join_room-IsSound p a g s e in
    rw (enter_room_of, found, waits, lets, has_slot, free) (room, sound.seated p.host a room)
