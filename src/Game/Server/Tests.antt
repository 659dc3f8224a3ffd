-- ===== src/Game/Server/Tests.antt =====
-- src/game/game_server.cpp: small runs of the server, and the theorems at them.
use hovorun.Prelude.{
  replicate, ℕ, ◌^◌, ◌≡◌, refl, ◌≢◌, true, false, none, some, List, [], ◌∷◌, arith,
}
use hovorun.Containers.IdMap
use hovorun.Containers.IdMap.{IdMap}
use hovorun.Net.Message.Writer.{Writer, ◌▹◌, write_u16, write_text}
use hovorun.Proudnet.Peer.{Peer, State, new_peer}
use hovorun.Proudnet.Server.{init}
use hovorun.App.Accounts
use hovorun.App.Accounts.{Account, Accounts}
use hovorun.Game.GsclTypes.RoomInfo.{RoomInfo}
use hovorun.Game.Clgs
use hovorun.Game.Server.{
  Player, Room, GameServer, count_taken, first_open, free_slot, after_leave, leave_found,
  remove_from_room,
}
use hovorun.Game.Server.Login.{new_player}
use hovorun.Game.Server.Lobby.{find_room}
use hovorun.Game.Server.Entry.{next_number, created_room, in_seat, sit, join_room, enter_room_of}
use hovorun.Game.Server.Numbers.{next_number-found}
use hovorun.Game.Server.Dispatch.{on_rmi}
use hovorun.Game.Server.Sound.{room_of, slot_of, occupant, IsSound}
use hovorun.Game.Server.Sound.Departed.{Departed, remove_from_room-Departed}
use hovorun.Game.Server.Sound.Dispatch.{on_rmi-IsSound}
use hovorun.Game.Server.Sound.Enter.{enter_room-seated}

abbrev bob : List ℕ
bob = 98 ∷ 111 ∷ 98 ∷ []

abbrev al : List ℕ
al = 97 ∷ 108 ∷ []

abbrev linked : Peer
linked = record new_peer { state = State.connected }

abbrev some_info : RoomInfo
some_info = record {
  number = 1;
  u16_06 = 0;
  u16_08 = 0;
  players = 0;
  max_players = 2;
  map = 0;
  mode = 0;
  max_lap = 0;
  u8_0e = 0;
  title = 82 ∷ [];
  password = [];
  str_18 = [];
  state = 0;
  u8_26 = 0;
  u8_27 = 0;
  slots = replicate 8 0;
  has_password = 0;
}

abbrev account_of : ℕ → List ℕ → Account
account_of index name = record { index = index; username = name; password = name }

abbrev player_of : ℕ → List ℕ → Player
player_of host name = record (new_player host (account_of host name) name) { channel = 2 }

abbrev seated_bob : Player
seated_bob = in_seat 0 0 (player_of 3 bob)

abbrev waiting_al : Player
waiting_al = player_of 4 al

-- The room of bob alone, in channel 2.
abbrev some_room : Room
some_room = created_room 1 5 seated_bob some_info

-- bob on peer 3, in its room, and al on peer 4, in none.
abbrev some_server : GameServer
some_server = record {
  net = record (init (replicate 16 7)) {
    peers = (3, linked) ∷ (4, linked) ∷ [];
    groups = (5, 3 ∷ []) ∷ [];
    next_id = 6;
  };
  accounts = Accounts.load true [];
  players = (3, seated_bob) ∷ (4, waiting_al) ∷ [];
  rooms = (1, 0) ∷ [];
  heap = (0, some_room) ∷ [];
  next_address = 1;
  next_room_number = 2;
}

some_server-IsSound : IsSound some_server
unfolding IdMap.has IdMap.find
some_server-IsSound = record {
  hosts = λ k h. ground arith;
  nonzero = λ k h. ground arith;
  seated = λ k a e. ground arith;
  numbered = λ n a e. ground arith;
  mastered = λ n a e. ground arith;
  sizes = λ a. ground arith;
  fresh = λ a h. ground arith;
}

bob-found : IdMap.find 3 some_server.players ≡ some seated_bob
unfolding IdMap.find
bob-found = refl

al-found : IdMap.find 4 some_server.players ≡ some waiting_al
unfolding IdMap.find
al-found = refl

abbrev asks_for_room : Writer
asks_for_room = [] ▹ write_u16 1 ▹ write_text []

on_rmi-IsSound_example : IsSound (on_rmi 4 Clgs.enter_room asks_for_room some_server)
on_rmi-IsSound_example =
    on_rmi-IsSound 4 Clgs.enter_room asks_for_room some_server (omega arith) some_server-IsSound

remove_from_room-Departed_example :
    Departed seated_bob 0 some_server (remove_from_room seated_bob true some_server)
remove_from_room-Departed_example =
    remove_from_room-Departed seated_bob true 0 some_server some_server-IsSound bob-found refl

next_number-found_example :
    (m : ℕ) × (next_number (IdMap.put 65535 0 some_server.rooms) (2 ^ 16) 65535 ≡ some m)
    × (m ≢ 0)
    × (IdMap.has m (IdMap.put 65535 0 some_server.rooms) ≡ false)
unfolding IdMap.put
next_number-found_example =
    next_number-found (IdMap.put 65535 0 some_server.rooms) 65535 (omega arith) (omega arith)

found_room : find_room 2 1 some_server ≡ some (0, some_room)
unfolding find_room IdMap.find
found_room = refl

one_free : free_slot some_room ≡ some 1
unfolding free_slot first_open
one_free = refl

enter_room-seated_example :
    (room_of (IdMap.find 4 (enter_room_of waiting_al (1, []) some_server).players) ≡ some 0)
    × (occupant
          (slot_of (IdMap.find 4 (enter_room_of waiting_al (1, []) some_server).players))
          (IdMap.find 0 (enter_room_of waiting_al (1, []) some_server).heap)
        ≡ 4)
enter_room-seated_example =
    enter_room-seated waiting_al 1 [] 0 1 some_room some_server some_server-IsSound al-found
      found_room refl refl one_free

-- bob, alone in its room, asks to enter it: it ends in a room that m_rooms has lost.
lost_room :
    (IdMap.find 1 (enter_room_of seated_bob (1, []) some_server).rooms ≡ none)
    × (room_of (IdMap.find 3 (enter_room_of seated_bob (1, []) some_server).players) ≡ some 0)
unfolding enter_room_of find_room IdMap.find IdMap.put IdMap.remove free_slot first_open join_room
    remove_from_room leave_found after_leave count_taken sit
lost_room = (refl, refl)
