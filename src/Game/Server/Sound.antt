-- ===== src/Game/Server/Sound.antt =====
-- src/game/game_server.cpp: what holds of the players and the rooms between two messages.
pub mod Leave
pub mod Enter
pub mod Join
pub mod Kept
pub mod Login
pub mod Departed
pub mod Dispatch
pub mod Moves
use hovorun.Prelude.{length, get_or, ℕ, ◌<◌, ◌≡◌, refl, sym, ap, ◌∙◌, true, Option, none, some}
use hovorun.Containers.IdMap
use hovorun.Containers.IdMap.{IdMap}
use hovorun.Game.Server.{Player, Room, GameServer, room_slots}

abbrev pub host_of : Option Player → ℕ
host_of none = 0
host_of (some p) = p.host

abbrev pub room_of : Option Player → Option ℕ
room_of none = none
room_of (some p) = p.current_room

abbrev pub slot_of : Option Player → ℕ
slot_of none = 0
slot_of (some p) = p.slot

abbrev pub occupant : ℕ → Option Room → ℕ
occupant slot none = 0
occupant slot (some r) = get_or r.slots slot 0

-- Who the master's slot holds.
abbrev pub master_of : Option Room → ℕ
master_of none = 0
master_of (some r) = get_or r.slots r.master_slot 0

abbrev pub number_of : Option Room → ℕ
number_of none = 0
number_of (some r) = r.info.number

abbrev pub size_of : Option Room → ℕ
size_of none = room_slots
size_of (some r) = length r.slots

-- A player stands under its host id; a player that is in a room has its host id in its slot there; a
-- room that m_rooms holds has that number, and someone in the master's slot; rooms have eight slots.
pub record SoundParts (players : IdMap Player) (rooms : IdMap ℕ) (heap : IdMap Room) (next : ℕ)
    : Type 0 where
  pub hosts : (k : ℕ) → IdMap.has k players ≡ true → host_of (IdMap.find k players) ≡ k
  pub nonzero : (k : ℕ) → IdMap.has k players ≡ true → 0 < k
  pub seated :
      (k a : ℕ)
      → room_of (IdMap.find k players) ≡ some a
      → occupant (slot_of (IdMap.find k players)) (IdMap.find a heap) ≡ k
  pub numbered : (n a : ℕ) → IdMap.find n rooms ≡ some a → number_of (IdMap.find a heap) ≡ n
  pub mastered : (n a : ℕ) → IdMap.find n rooms ≡ some a → 0 < master_of (IdMap.find a heap)
  pub sizes : (a : ℕ) → size_of (IdMap.find a heap) ≡ room_slots
  pub fresh : (a : ℕ) → IdMap.has a heap ≡ true → a < next

abbrev pub IsSound : GameServer → Type 0
IsSound g = SoundParts g.players g.rooms g.heap g.next_address

-- Rooms with the same players in the same slots, the same masters and the same numbers.
pub record SameRooms (h h' : IdMap Room) : Type 0 where
  pub occupants : (slot a : ℕ) → occupant slot (IdMap.find a h') ≡ occupant slot (IdMap.find a h)
  pub masters : (a : ℕ) → master_of (IdMap.find a h') ≡ master_of (IdMap.find a h)
  pub numbers : (a : ℕ) → number_of (IdMap.find a h') ≡ number_of (IdMap.find a h)
  pub sizes : (a : ℕ) → size_of (IdMap.find a h') ≡ size_of (IdMap.find a h)
  pub has : (a : ℕ) → IdMap.has a h' ≡ IdMap.has a h

pub SameRooms-refl : (h : IdMap Room) → SameRooms h h
SameRooms-refl h = record {
  occupants = λ slot a. refl;
  masters = λ a. refl;
  numbers = λ a. refl;
  sizes = λ a. refl;
  has = λ a. refl;
}

-- Players in the same places.
pub record SamePlaces (m m' : IdMap Player) : Type 0 where
  pub has : (k : ℕ) → IdMap.has k m' ≡ IdMap.has k m
  pub hosts : (k : ℕ) → host_of (IdMap.find k m') ≡ host_of (IdMap.find k m)
  pub rooms : (k : ℕ) → room_of (IdMap.find k m') ≡ room_of (IdMap.find k m)
  pub slots : (k : ℕ) → slot_of (IdMap.find k m') ≡ slot_of (IdMap.find k m)

module _ {players : IdMap Player} {rooms : IdMap ℕ} {heap : IdMap Room} {next : ℕ} where
  pub SameRooms-SoundParts :
      {h' : IdMap Room}
      → SameRooms heap h'
      → SoundParts players rooms heap next
      → SoundParts players rooms h' next
  SameRooms-SoundParts e s = record {
    hosts = s.hosts;
    nonzero = s.nonzero;
    seated = λ k a q. e.occupants _ a ∙ s.seated k a q;
    numbered = λ n a q. e.numbers a ∙ s.numbered n a q;
    mastered = λ n a q. rw (e.masters a) (s.mastered n a q);
    sizes = λ a. e.sizes a ∙ s.sizes a;
    fresh = λ a q. s.fresh a (sym (e.has a) ∙ q);
  }

  pub SamePlaces-SoundParts :
      {m' : IdMap Player}
      → SamePlaces players m'
      → SoundParts players rooms heap next
      → SoundParts m' rooms heap next
  SamePlaces-SoundParts e s = record {
    hosts = λ k q. e.hosts k ∙ s.hosts k (sym (e.has k) ∙ q);
    nonzero = λ k q. s.nonzero k (sym (e.has k) ∙ q);
    seated = λ k a q. rw (e.slots k) (s.seated k a (sym (e.rooms k) ∙ q));
    numbered = s.numbered;
    mastered = s.mastered;
    sizes = s.sizes;
    fresh = s.fresh;
  }

-- A room whose settings alone were written.
pub record SameSeats (r r' : Room) : Type 0 where
  pub slots : r'.slots ≡ r.slots
  pub master : r'.master_slot ≡ r.master_slot
  pub number : r'.info.number ≡ r.info.number

pub put_room-SameRooms :
    (a : ℕ) (r r' : Room) (h : IdMap Room)
    → IdMap.find a h ≡ some r
    → SameSeats r r'
    → SameRooms h (IdMap.put a r' h)
unfolding IdMap.has
put_room-SameRooms a r r' h e same = record {
  occupants = λ slot j.
      IdMap.find-put_view (occupant slot) a r r' h j e (ap (λ s. get_or s slot 0) same.slots);
  masters = λ j. IdMap.find-put_view master_of a r r' h j e (rw (same.slots, same.master) refl);
  numbers = λ j. IdMap.find-put_view number_of a r r' h j e same.number;
  sizes = λ j. IdMap.find-put_view size_of a r r' h j e (ap length same.slots);
  has = λ j. IdMap.has-put_self a j r' h (rw (IdMap.has, e) refl);
}

-- A player whose place was not written.
pub record SamePlace (p p' : Player) : Type 0 where
  pub host : p'.host ≡ p.host
  pub room : p'.current_room ≡ p.current_room
  pub slot : p'.slot ≡ p.slot

pub put_player-SamePlaces :
    (k : ℕ) (p p' : Player) (m : IdMap Player)
    → IdMap.find k m ≡ some p
    → SamePlace p p'
    → SamePlaces m (IdMap.put k p' m)
unfolding IdMap.has
put_player-SamePlaces k p p' m e same = record {
  has = λ j. IdMap.has-put_self k j p' m (rw (IdMap.has, e) refl);
  hosts = λ j. IdMap.find-put_view host_of k p p' m j e same.host;
  rooms = λ j. IdMap.find-put_view room_of k p p' m j e same.room;
  slots = λ j. IdMap.find-put_view slot_of k p p' m j e same.slot;
}
