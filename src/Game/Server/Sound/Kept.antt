-- ===== src/Game/Server/Sound/Kept.antt =====
-- src/game/game_server.cpp: the handlers that leave every player in its place keep players and rooms
-- sound, and so do those that move players.
use hovorun.Prelude.{
  ltb, leb, ◌==◌, Option-cases, is_none, if_elim, get_or, ℕ, ◌≡◌, refl, inl, inr, Bool, true, false,
  not, ◌&&◌, Option, none, some, List, map, arith,
}
use hovorun.Containers.IdMap
use hovorun.Containers.IdMap.{IdMap}
use hovorun.Net.Message.Reader.{Result, Reads, ok, err}
use hovorun.Game.Gscl.Rooms
use hovorun.Game.Server.{
  Player, Room, GameServer, channel_count, room_slots, no_channel, result_ok, players_in, member_of,
  remove_from_room, out_of_room, reading,
}
use hovorun.Game.Server.Settings.{
  say_room, say_team, mastered_room, as_master_if, with_map, with_mode, with_lap, with_attribute,
  with_closed, in_race, in_wait, same_room, set_map, set_type, set_lap, set_attribute,
  set_random_map, set_team, shut, unshut, set_ready, no_start_info, start, waited, wait_again,
  set_comment,
}
use hovorun.Game.Server.Sound.{
  SoundParts, SameRooms, SameSeats, SamePlace, IsSound, SameRooms-refl, SameRooms-SoundParts,
  SamePlaces-SoundParts, put_room-SameRooms, put_player-SamePlaces,
}
use hovorun.Net.Message.Writer.{Writer}
use hovorun.Game.Server.Misc.{set_character, set_avatar, set_nation}
use hovorun.Game.Server.Lobby.{move_to, enter_channel_to, change_channel_to, room_list_of}
use hovorun.Game.Server.Sound.Join.{out_of-host}
use hovorun.Game.Server.Sound.Leave.{remove_from_room-IsSound, remove_from_room-player}

-- `p` is a player of the server.
abbrev pub IsPlayer : Player → GameServer → Type 0
IsPlayer p g = IdMap.find p.host g.players ≡ some p

-- An action of a player of a sound server leaves it sound.
abbrev pub Keeps : {A : Type 0} → (Player → A → GameServer → GameServer) → Type 0
Keeps {A} act =
    (p : Player) (x : A) (g : GameServer) → IsSound g → IsPlayer p g → IsSound (act p x g)

pub reading-Keeps :
    {A : Type 0} (reads : Reads A) (act : Player → A → GameServer → GameServer)
    → Keeps act
    → Keeps (reading reads act)
unfolding reading
reading-Keeps {A} reads act keeps p params g s e = at (reads params)
  where
    at :
        (result : Result (A × List ℕ))
        → IsSound (elim result [ err e ↦ g | ok (a, rest) ↦ act p a g ])
    at (err x) = s
    at (ok (a, rest)) = keeps p a g s e

-- A write to a player that does not move it.
pub put_player-IsSound :
    (p p' : Player) (g : GameServer)
    → IsSound g
    → IsPlayer p g
    → SamePlace p p'
    → SoundParts (IdMap.put p.host p' g.players) g.rooms g.heap g.next_address
put_player-IsSound p p' g s e same =
    SamePlaces-SoundParts (put_player-SamePlaces p.host p p' g.players e same) s

-- A write to the settings of a room.
pub put_room-IsSound :
    (a : ℕ) (r r' : Room) (g : GameServer)
    → IsSound g
    → IdMap.find a g.heap ≡ some r
    → SameSeats r r'
    → SoundParts g.players g.rooms (IdMap.put a r' g.heap) g.next_address
put_room-IsSound a r r' g s e same =
    SameRooms-SoundParts (put_room-SameRooms a r r' g.heap e same) s

pub mastered_room-find :
    (p : Player) (g : GameServer) (a : ℕ) (r : Room)
    → mastered_room p g ≡ some (a, r)
    → IdMap.find a g.heap ≡ some r
unfolding mastered_room
mastered_room-find p g a r e = ground arith

-- A change by the master that leaves every player in its seat.
as_master-IsSound :
    (p : Player) (test : Room → Bool) (change : Room → Room) (message : Room → GameServer → Writer)
    (g : GameServer)
    → IsSound g
    → ((r : Room) → SameSeats r (change r))
    → IsSound (as_master_if p test change message g)
unfolding as_master_if
as_master-IsSound p test change message g s same = elim (Option-cases (mastered_room p g)) [
  | inl i ↦ rw (i, as_master_if) s
  | inr ((a, r), i) ↦
      let f = mastered_room-find p g a r i in
      rw (i, as_master_if)
        (if_elim IsSound (test r) (λ q. put_room-IsSound a r (change r) g s f (same r)) (λ q. s))
]

abbrev seats :
    {r r' : Room}
    → r'.slots ≡ r.slots
    → r'.master_slot ≡ r.master_slot
    → r'.info.number ≡ r.info.number
    → SameSeats r r'
seats a b c = record { slots = a; master = b; number = c }

pub set_map-Keeps : Keeps set_map
unfolding set_map
set_map-Keeps p code g s e =
    as_master-IsSound p (λ r. true) (with_map code) (λ r g. Rooms.change_map code) g s
      (λ r. seats refl refl refl)

pub set_type-Keeps : Keeps set_type
unfolding set_type
set_type-Keeps p type g s e =
    as_master-IsSound p (λ r. true) (with_mode type)
      (λ r g. Rooms.change_type type (map member_of (players_in r.slots g))) g s
      (λ r. seats refl refl refl)

pub set_lap-Keeps : Keeps set_lap
unfolding set_lap
set_lap-Keeps p laps g s e =
    as_master-IsSound p (λ r. true) (with_lap laps) (λ r g. Rooms.change_lap laps) g s
      (λ r. seats refl refl refl)

pub set_attribute-Keeps : Keeps set_attribute
unfolding set_attribute
set_attribute-Keeps p x g s e =
    as_master-IsSound p (λ r. true) (with_attribute x) (λ r g. Rooms.change_attribute x) g s
      (λ r. seats refl refl refl)

pub set_random_map-Keeps : Keeps set_random_map
unfolding set_random_map
set_random_map-Keeps p v g s e =
    as_master-IsSound p (λ r. true) same_room (λ r g. Rooms.change_random_map (not (v == 0))) g s
      (λ r. seats refl refl refl)

pub shut-Keeps : Keeps shut
unfolding shut
shut-Keeps p slot g s e =
    as_master-IsSound p (λ r. ltb slot room_slots && get_or r.slots slot 0 == 0)
      (with_closed slot true) (λ r g. Rooms.close_slot_room slot) g s (λ r. seats refl refl refl)

pub unshut-Keeps : Keeps unshut
unfolding unshut
unshut-Keeps p slot g s e =
    as_master-IsSound p (λ r. ltb slot room_slots) (with_closed slot false)
      (λ r g. Rooms.open_slot_room slot) g s (λ r. seats refl refl refl)

pub start-Keeps : Keeps start
unfolding start
start-Keeps p x g s e =
    as_master-IsSound p (λ r. true) in_race
      (λ r g. Rooms.start_game no_start_info r.info.mode r.info.max_lap result_ok) g s
      (λ r. seats refl refl refl)

-- What is told to the room of a player writes nothing.
abbrev same_place :
    {p p' : Player}
    → p'.host ≡ p.host
    → p'.current_room ≡ p.current_room
    → p'.slot ≡ p.slot
    → SamePlace p p'
same_place a b c = record { host = a; room = b; slot = c }

pub say_room-Keeps : Keeps say_room
unfolding say_room
say_room-Keeps p text g s e = s

pub say_team-Keeps : Keeps say_team
unfolding say_team
say_team-Keeps p text g s e = s

pub set_team-Keeps : Keeps set_team
unfolding set_team
set_team-Keeps p team g s e =
    let sound = put_player-IsSound p (record p { team = team }) g s e (same_place refl refl refl) in
    if_elim IsSound (is_none p.current_room) (λ q. s) (λ q. sound)

pub set_ready-Keeps : Keeps set_ready
unfolding set_ready
set_ready-Keeps p v g s e =
    let sound =
      put_player-IsSound p (record p { ready = not (v == 0) }) g s e (same_place refl refl refl) in
    if_elim IsSound (is_none p.current_room) (λ q. s) (λ q. sound)

pub set_comment-Keeps : Keeps set_comment
unfolding set_comment
set_comment-Keeps p comment g s e =
    put_player-IsSound p (record p { comment = comment }) g s e (same_place refl refl refl)

pub set_avatar-Keeps : Keeps set_avatar
unfolding set_avatar
set_avatar-Keeps p read g s e =
    put_player-IsSound p (record p { avatar = record read { host = p.host } }) g s e
      (same_place refl refl refl)

pub set_character-Keeps : Keeps set_character
unfolding set_character
set_character-Keeps p x g s e =
    put_player-IsSound p (record p { character = x }) g s e (same_place refl refl refl)

pub set_nation-Keeps : Keeps set_nation
unfolding set_nation
set_nation-Keeps p x g s e =
    put_player-IsSound p (record p { nation = x }) g s e (same_place refl refl refl)

waited-SameRooms : (o : Option ℕ) (heap : IdMap Room) → SameRooms heap (waited o heap)
waited-SameRooms none heap = SameRooms-refl heap
waited-SameRooms (some a) heap = elim (Option-cases (IdMap.find a heap)) [
  | inl q ↦ rw (waited, q) (SameRooms-refl heap)
  | inr (r, q) ↦ rw (waited, q) (put_room-SameRooms a r (in_wait r) heap q (seats refl refl refl))
]

pub wait_again-Keeps : Keeps wait_again
unfolding wait_again
wait_again-Keeps p x g s e =
    SameRooms-SoundParts (waited-SameRooms p.current_room g.heap)
      (put_player-IsSound p (record p { ready = false }) g s e (same_place refl refl refl))

pub enter_channel_to-Keeps : Keeps enter_channel_to
unfolding enter_channel_to
enter_channel_to-Keeps p channel g s e =
    if_elim IsSound (leb channel_count channel) (λ q. s)
      (λ q. put_player-IsSound p (record p { channel = channel }) g s e (same_place refl refl refl))

-- remove_from_room, and a move of the player to a channel.
pub move_to-IsSound :
    (channel : ℕ) (p : Player) (g : GameServer)
    → IsSound g
    → IsPlayer p g
    → IsSound (move_to channel p g)
move_to-IsSound channel p g s e =
    let q = out_of_room p in
    put_player-IsSound q (record q { channel = channel }) (remove_from_room p false g)
      (remove_from_room-IsSound p false g s e)
      (rw (out_of-host p.current_room p) (remove_from_room-player p false g s e))
      (same_place refl refl refl)

pub change_channel_to-Keeps : Keeps change_channel_to
unfolding change_channel_to
change_channel_to-Keeps p channel g s e =
    if_elim IsSound (leb channel_count channel) (λ q. s) (λ q. move_to-IsSound channel p g s e)

pub room_list_of-Keeps : Keeps room_list_of
unfolding room_list_of
room_list_of-Keeps p (page, filter) g s e =
    if_elim IsSound (p.channel == no_channel) (λ q. s) (λ q. s)
