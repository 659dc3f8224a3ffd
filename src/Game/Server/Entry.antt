-- ===== src/Game/Server/Entry.antt =====
-- src/game/game_server.cpp: creating, entering and leaving rooms, and who is put out of one.
use hovorun.Prelude.{
  ltb, ◌==◌, if◌then◌else◌, is_none, set, replicate, ℕ, zero, suc, ◌+◌, ◌%◌, ◌^◌, Bool, true, false,
  not, ◌&&◌, ◌||◌, Option, none, some, List, [], ◌∷◌, map,
}
use hovorun.Containers.IdMap
use hovorun.Containers.IdMap.{IdMap}
use hovorun.Containers.TextMap.{same_text}
use hovorun.Net.Message.Reader.{Reads, pure, ◌>>=◌, read_u16, read_string}
use hovorun.Proudnet.Server.{join_p2p_group, create_p2p_group}
use hovorun.App.Accounts.{is_blank}
use hovorun.Game.GsclTypes.RoomInfo
use hovorun.Game.GsclTypes.RoomInfo.{RoomInfo}
use hovorun.Game.Gscl.Rooms
use hovorun.Game.Server.{
  send, Player, Room, GameServer, room_slots, no_channel, result_ok, count_taken, free_slot,
  put_player, put_room, send_hosts, send_room, players_in, member_of, avatar_of, listed_info,
  remove_from_room, out_of_room, Handler, reading,
}
use hovorun.Game.Server.Lobby.{rooms_in, find_room}

-- namespace enter_result
abbrev pub enter_ok : ℕ
enter_ok = 0

abbrev pub enter_failed : ℕ
enter_failed = 1

abbrev pub wrong_password : ℕ
wrong_password = 11

abbrev pub enter_full : ℕ
enter_full = 12

abbrev pub enter_playing : ℕ
enter_playing = 13

abbrev no_room_info : RoomInfo
no_room_info = record {
  number = 0;
  u16_06 = 0;
  u16_08 = 0;
  players = 0;
  max_players = 0;
  map = 0;
  mode = 0;
  max_lap = 0;
  u8_0e = 0;
  title = [];
  password = [];
  str_18 = [];
  state = 0;
  u8_26 = 0;
  u8_27 = 0;
  slots = replicate 8 0;
  has_password = 0;
}

abbrev pub is_taken : IdMap ℕ → ℕ → Bool
is_taken rooms n = IdMap.has n rooms || n == 0

-- The loop of create_room over the room numbers, on fuel.
unfoldable pub next_number : IdMap ℕ → ℕ → ℕ → Option ℕ
next_number rooms zero n = none
next_number rooms (suc fuel) n = elim (is_taken rooms n) [
  | true ↦ next_number rooms fuel ((n + 1) % 2 ^ 16)
  | false ↦ some n
]

abbrev pub created_info : ℕ → RoomInfo → RoomInfo
created_info number info = record info {
  number = number;
  has_password = if is_blank info.password then 0 else 1;
  max_players =
      if info.max_players == 0 || ltb room_slots info.max_players
      then room_slots
      else info.max_players;
}

abbrev pub created_room : ℕ → ℕ → Player → RoomInfo → Room
created_room number group p info = record {
  info = created_info number info;
  channel = p.channel;
  slots = p.host ∷ replicate 7 0;
  closed = replicate 8 false;
  master_slot = 0;
  p2p_group = group;
  playing = false;
}

abbrev pub in_seat : ℕ → ℕ → Player → Player
in_seat a slot p = record p { current_room = some a; slot = slot; ready = false }

-- create_room with the number that the loop found.
unfoldable pub open_room : Player → RoomInfo → ℕ → GameServer → GameServer
unfolding count_taken
open_room p info number g =
    let (group, net) = create_p2p_group [] g.net in
    let r = created_room number group p info in
    let a = g.next_address in
    send p (Rooms.create_room (listed_info r) 0 result_ok) (record g {
      net = join_p2p_group group p.host net;
      players = IdMap.put p.host (in_seat a 0 p) g.players;
      rooms = IdMap.put number a g.rooms;
      heap = IdMap.put a r g.heap;
      next_address = suc a;
      next_room_number = (number + 1) % 2 ^ 16;
    })

-- Where the loop finds no number, the source goes on without an end.
unfoldable pub create_room_of : Player → RoomInfo → GameServer → GameServer
unfolding remove_from_room next_number open_room
create_room_of p info g =
    if p.channel == no_channel
    then send p (Rooms.create_room info 0 1) g
    else let left = remove_from_room p false g in
      elim (next_number left.rooms (2 ^ 16) left.next_room_number) [
        | none ↦ left
        | some number ↦ open_room (out_of_room p) info number left
      ]

unfoldable pub create_room : Handler
unfolding reading create_room_of RoomInfo.read
create_room = reading RoomInfo.read create_room_of

-- The end of join_room, for a player that is in no room.
unfoldable pub sit : Player → ℕ → Room → ℕ → GameServer → GameServer
unfolding send_hosts players_in count_taken
sit p a r slot g =
    let now = record r { slots = set r.slots slot p.host } in
    let seated = in_seat a slot p in
    let placed = put_player seated (put_room a now g) in
    let others = players_in now.slots placed in
    let entered =
      send p
        (Rooms.enter_room (map member_of others) (map avatar_of others) r.master_slot
          (listed_info now) enter_ok)
        placed in
    let told =
      send_room now (Rooms.room_add_user_avatar (avatar_of seated) (member_of seated)) p.host
        entered in
    record told { net = join_p2p_group r.p2p_group p.host told.net }

-- That the room has no free slot is ruled out by the callers; the source dereferences it.
abbrev pub sit_found : Player → ℕ → Option Room → GameServer → GameServer
sit_found p a none g = g
sit_found p a (some r) g = elim (free_slot r) [ none ↦ g | some slot ↦ sit p a r slot g ]

unfoldable pub join_room : Player → ℕ → GameServer → GameServer
unfolding remove_from_room sit free_slot
join_room p a g =
    let left = remove_from_room p false g in
    sit_found (out_of_room p) a (IdMap.find a left.heap) left

abbrev pub refuse : Player → ℕ → GameServer → GameServer
refuse p code g = send p (Rooms.enter_room [] [] 0 no_room_info code) g

abbrev pub has_slot : Room → Bool
has_slot r = elim (free_slot r) [ none ↦ false | some slot ↦ true ]

-- The guards of enter_room, in their order.
abbrev pub enter_found : Player → List ℕ → ℕ → Room → GameServer → GameServer
enter_found p password a r g =
    if r.playing
    then refuse p enter_playing g
    else if not (is_blank r.info.password) && not (same_text r.info.password password)
    then refuse p wrong_password g
    else if not (has_slot r)
    then refuse p enter_full g
    else join_room p a g

unfoldable pub enter_room_of : Player → ℕ × List ℕ → GameServer → GameServer
unfolding find_room join_room free_slot
enter_room_of p (number, password) g = elim (find_room p.channel number g) [
  | none ↦ refuse p enter_failed g
  | some (a, r) ↦ enter_found p password a r g
]

unfoldable pub read_enter : Reads (ℕ × List ℕ)
unfolding ◌>>=◌ pure
read_enter = do number ← read_u16; password ← read_string; pure (number, password)

unfoldable pub enter_room : Handler
unfolding reading enter_room_of read_enter
enter_room = reading read_enter enter_room_of

abbrev is_joinable : Room → Bool
is_joinable r = not r.playing && is_blank r.info.password && has_slot r

unfoldable pub first_joinable : List (ℕ × Room) → Option ℕ
unfolding free_slot
first_joinable [] = none
first_joinable ((a, r) ∷ rooms) = elim (is_joinable r) [
  | true ↦ some a
  | false ↦ first_joinable rooms
]

unfoldable pub quick_join_of : Player → ℕ → GameServer → GameServer
unfolding rooms_in first_joinable join_room
quick_join_of p unused g = elim (first_joinable (rooms_in p.channel g.rooms g.heap)) [
  | none ↦ refuse p enter_failed g
  | some a ↦ join_room p a g
]

unfoldable pub quick_join : Handler
unfolding reading quick_join_of
quick_join = reading read_u16 quick_join_of

unfoldable pub leave_room : Handler
unfolding remove_from_room
leave_room p params g =
    if is_none p.current_room
    then send p (Rooms.leave_room 1) g
    else send p (Rooms.leave_room result_ok) (remove_from_room p false g)
