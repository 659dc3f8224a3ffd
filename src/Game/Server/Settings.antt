-- ===== src/Game/Server/Settings.antt =====
-- src/game/game_server.cpp: what players in a room say, what its master sets, and the race start.
use hovorun.Prelude.{
  ltb, ◌==◌, if◌then◌else◌, is_none, get_or, set, ℕ, Bool, true, false, not, ◌&&◌, Option, none,
  some, List, [], ◌∷◌, ◌++◌, map,
}
use hovorun.Containers.IdMap
use hovorun.Containers.IdMap.{IdMap}
use hovorun.Containers.TextMap.{same_text}
use hovorun.Net.Message.Writer.{Writer}
use hovorun.Net.Message.Reader.{Reads, pure, ◌>>=◌, read_u8, read_u16, read_u32, read_string}
use hovorun.Proudnet.Server
use hovorun.Proudnet.Server.{Server}
use hovorun.Game.GsclTypes.StartGameInfo.{StartGameInfo}
use hovorun.Game.Gscl.Items
use hovorun.Game.Gscl.Lobby
use hovorun.Game.Gscl.Rooms
use hovorun.Game.Server.{
  Player, Room, GameServer, room_slots, result_ok, room_at, put_player, put_room, send, send_hosts,
  send_room, players_in, member_of, room_state_waiting, room_state_playing, Handler, reading,
}

abbrev pub tell : Option Room → Writer → Server → Server
tell none message net = net
tell (some r) message net = send_hosts r.slots message 0 net

-- A message to the room of a player, if there is one.
abbrev pub tell_room : Player → Writer → GameServer → GameServer
tell_room p message g = record g { net = tell (room_at p.current_room g) message g.net }

unfoldable pub say_room : Player → List ℕ → GameServer → GameServer
unfolding send_hosts
say_room p text g = tell_room p (Lobby.room_chat p.host text) g

unfoldable pub room_chat : Handler
unfolding reading say_room
room_chat = reading read_string say_room

unfoldable pub send_team : ℕ → List Player → Writer → Server → Server
send_team team [] message net = net
send_team team (other ∷ others) message net =
    send_team team others message
      (if other.team == team then Server.send other.host message false net else net)

unfoldable pub say_team : Player → List ℕ → GameServer → GameServer
unfolding send_team players_in
say_team p text g = record g {
  net = elim (room_at p.current_room g) [
    | none ↦ g.net
    | some r ↦ send_team p.team (players_in r.slots g) (Lobby.room_chat p.host text) g.net
  ];
}

unfoldable pub team_chat : Handler
unfolding reading say_team
team_chat = reading read_string say_team

unfoldable pub send_named : List ℕ → IdMap Player → Writer → Server → Server
send_named target [] message net = net
send_named target ((host, other) ∷ players) message net =
    send_named target players message
      (if same_text other.nickname target then Server.send other.host message false net else net)

-- std::format("[{}] {}", p.nickname, text)
abbrev whispered : List ℕ → List ℕ → List ℕ
whispered nickname text = 91 ∷ (nickname ++ (93 ∷ 32 ∷ text))

unfoldable pub whisper : Player → List ℕ × List ℕ → GameServer → GameServer
unfolding send_named
whisper p (target, text) g = record g {
  net = send_named target g.players (Lobby.room_chat p.host (whispered p.nickname text)) g.net;
}

unfoldable pub read_whisper : Reads (List ℕ × List ℕ)
unfolding ◌>>=◌ pure
read_whisper = do target ← read_string; text ← read_string; pure (target, text)

unfoldable pub whisper_chat : Handler
unfolding reading whisper read_whisper
whisper_chat = reading read_whisper whisper

abbrev mastered : ℕ → ℕ → Option Room → Option (ℕ × Room)
mastered slot a none = none
mastered slot a (some r) = if r.master_slot == slot then some (a, r) else none

abbrev mastered_at : ℕ → Option ℕ → IdMap Room → Option (ℕ × Room)
mastered_at slot none heap = none
mastered_at slot (some a) heap = mastered slot a (IdMap.find a heap)

-- is_master, with the room that the player is the master of and its address
unfoldable pub mastered_room : Player → GameServer → Option (ℕ × Room)
mastered_room p g = mastered_at p.slot p.current_room g.heap

-- A change of the room by its master, if `test` lets it, and the message about it to the players.
unfoldable pub as_master_if :
    Player → (Room → Bool) → (Room → Room) → (Room → GameServer → Writer) → GameServer → GameServer
unfolding mastered_room send_hosts
as_master_if p test change message g = elim (mastered_room p g) [
  | none ↦ g
  | some (a, r) ↦ if test r then send_room r (message r g) 0 (put_room a (change r) g) else g
]

abbrev as_master : Player → (Room → Room) → (Room → GameServer → Writer) → GameServer → GameServer
as_master p = as_master_if p (λ r. true)

abbrev pub with_map : ℕ → Room → Room
with_map code r = record r { info = record r.info { map = code } }

abbrev pub with_mode : ℕ → Room → Room
with_mode type r = record r { info = record r.info { mode = type } }

abbrev pub with_lap : ℕ → Room → Room
with_lap laps r = record r { info = record r.info { max_lap = laps } }

abbrev pub with_attribute : ℕ → Room → Room
with_attribute attribute r = record r { info = record r.info { u8_0e = attribute } }

abbrev pub with_closed : ℕ → Bool → Room → Room
with_closed slot v r = record r { closed = set r.closed slot v }

abbrev pub in_race : Room → Room
in_race r = record r { playing = true; info = record r.info { state = room_state_playing } }

abbrev pub in_wait : Room → Room
in_wait r = record r { playing = false; info = record r.info { state = room_state_waiting } }

abbrev pub same_room : Room → Room
same_room r = r

unfoldable pub set_map : Player → ℕ → GameServer → GameServer
unfolding as_master_if
set_map p code = as_master p (with_map code) (λ r g. Rooms.change_map code)

unfoldable pub change_map : Handler
unfolding reading set_map
change_map = reading read_u8 set_map

unfoldable pub set_type : Player → ℕ → GameServer → GameServer
unfolding as_master_if players_in
set_type p type =
    as_master p (with_mode type)
      (λ r g. Rooms.change_type type (map member_of (players_in r.slots g)))

unfoldable pub change_type : Handler
unfolding reading set_type
change_type = reading read_u8 set_type

unfoldable pub set_lap : Player → ℕ → GameServer → GameServer
unfolding as_master_if
set_lap p laps = as_master p (with_lap laps) (λ r g. Rooms.change_lap laps)

unfoldable pub change_lap : Handler
unfolding reading set_lap
change_lap = reading read_u8 set_lap

unfoldable pub set_attribute : Player → ℕ → GameServer → GameServer
unfolding as_master_if
set_attribute p attribute =
    as_master p (with_attribute attribute) (λ r g. Rooms.change_attribute attribute)

unfoldable pub change_attribute : Handler
unfolding reading set_attribute
change_attribute = reading read_u8 set_attribute

unfoldable pub set_random_map : Player → ℕ → GameServer → GameServer
unfolding as_master_if
set_random_map p v = as_master p same_room (λ r g. Rooms.change_random_map (not (v == 0)))

unfoldable pub change_random_map : Handler
unfolding reading set_random_map
change_random_map = reading read_u8 set_random_map

unfoldable pub set_team : Player → ℕ → GameServer → GameServer
unfolding send_hosts
set_team p team g =
    if is_none p.current_room
    then g
    else tell_room p (Rooms.change_team p.slot team) (put_player (record p { team = team }) g)

unfoldable pub change_team : Handler
unfolding reading set_team
change_team = reading read_u8 set_team

unfoldable pub shut : Player → ℕ → GameServer → GameServer
unfolding as_master_if
shut p slot =
    as_master_if p (λ r. ltb slot room_slots && get_or r.slots slot 0 == 0) (with_closed slot true)
      (λ r g. Rooms.close_slot_room slot)

unfoldable pub close_slot : Handler
unfolding reading shut
close_slot = reading read_u32 shut

unfoldable pub unshut : Player → ℕ → GameServer → GameServer
unfolding as_master_if
unshut p slot =
    as_master_if p (λ r. ltb slot room_slots) (with_closed slot false)
      (λ r g. Rooms.open_slot_room slot)

unfoldable pub open_slot : Handler
unfolding reading unshut
open_slot = reading read_u32 unshut

unfoldable pub answer_mission : Player → ℕ → GameServer → GameServer
answer_mission p value g = send p (Rooms.mission_answer value) g

unfoldable pub mission : Handler
unfolding reading answer_mission
mission = reading read_u8 answer_mission

unfoldable pub set_ready : Player → ℕ → GameServer → GameServer
unfolding send_hosts
set_ready p v g =
    let ready = not (v == 0) in
    if is_none p.current_room
    then g
    else tell_room p (Rooms.ready_game p.host p.slot ready)
        (put_player (record p { ready = ready }) g)

unfoldable pub ready_game : Handler
unfolding reading set_ready
ready_game = reading read_u8 set_ready

abbrev pub no_start_info : StartGameInfo
no_start_info = record {
  u32_04 = 0;
  str_08 = [];
  u32_0c = 0;
  u32_10 = 0;
  u32_14 = 0;
  u32_18 = 0;
  str_1c = [];
}

unfoldable pub start : Player → ℕ → GameServer → GameServer
unfolding as_master_if
start p unused =
    as_master p in_race (λ r g. Rooms.start_game no_start_info r.info.mode r.info.max_lap result_ok)

unfoldable pub start_game : Handler
unfolding reading start
start_game = reading read_u16 start

abbrev pub waited : Option ℕ → IdMap Room → IdMap Room
waited none heap = heap
waited (some a) heap = elim (IdMap.find a heap) [
  | none ↦ heap
  | some r ↦ IdMap.put a (in_wait r) heap
]

unfoldable pub wait_again : Player → ℕ → GameServer → GameServer
wait_again p unused g = record (put_player (record p { ready = false }) g) {
  heap = waited p.current_room g.heap;
}

unfoldable pub goto_wait_room : Handler
unfolding reading wait_again
goto_wait_room = reading read_u8 wait_again

unfoldable pub set_comment : Player → List ℕ → GameServer → GameServer
unfolding send_hosts
set_comment p comment g =
    tell_room p (Items.room_change_comment comment p.slot)
      (put_player (record p { comment = comment }) g)

unfoldable pub change_comment : Handler
unfolding reading set_comment
change_comment = reading read_string set_comment
