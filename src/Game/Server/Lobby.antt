-- ===== src/Game/Server/Lobby.antt =====
-- src/game/game_server.cpp: channels, their lists of rooms and of users, and the chat of the lobby.
use hovorun.Prelude.{
  leb, ◌==◌, if◌then◌else◌, length, take, drop, get_or, ℕ, ◌+◌, ◌*◌, ◌%◌, ◌^◌, false, Option, none,
  some, List, [], ◌∷◌, ◌++◌, map,
}
use hovorun.Containers.IdMap
use hovorun.Containers.IdMap.{IdMap}
use hovorun.Net.Message.Writer.{Writer}
use hovorun.Net.Message.Reader.{Reads, pure, ◌>>=◌, read_u8, read_u16, read_string}
use hovorun.Proudnet.Server
use hovorun.Proudnet.Server.{Server}
use hovorun.Game.GsclTypes.ChannelInfo.{ChannelInfo}
use hovorun.Game.GsclTypes.ChannelUser.{ChannelUser}
use hovorun.Game.GsclTypes.RoomInfo.{RoomInfo}
use hovorun.Game.GsclTypes.RoomSlotUser.{RoomSlotUser}
use hovorun.Game.Gscl.Channels
use hovorun.Game.Gscl.Items
use hovorun.Game.Gscl.Lobby
use hovorun.Game.Server.{
  Player, Room, GameServer, channel_count, rooms_per_page, no_channel, result_ok, count_taken,
  put_player, send, send_lobby, send_channel_lobby, players_in, member_of, listed_info,
  remove_from_room, out_of_room, Handler, reading,
}

-- The player out of its room and in `channel`.
abbrev pub move_to : ℕ → Player → GameServer → GameServer
move_to channel p g =
    put_player (record (out_of_room p) { channel = channel }) (remove_from_room p false g)

unfoldable pub enter_lobby : Handler
unfolding remove_from_room
enter_lobby p params g = send p (Channels.enter_lobby result_ok) (move_to no_channel p g)

unfoldable pub count_in : ℕ → IdMap Player → ℕ
count_in channel [] = 0
count_in channel ((host, p) ∷ players) =
    (if p.channel == channel then 1 else 0) + count_in channel players

abbrev channel_capacity : ℕ
channel_capacity = 200

abbrev channel_row : IdMap Player → ℕ → ChannelInfo
channel_row players i = record {
  users = count_in i players % 2 ^ 32;
  capacity = channel_capacity;
  u32_0c = 0;
  u32_10 = 0;
  u32_14 = 0;
  u8_18 = 0;
  u8_19 = 0;
  index = i;
  u8_1b = 0;
}

unfoldable pub channel_list : Handler
unfolding count_in
channel_list p params g =
    send p (Channels.channel_list (map (channel_row g.players) (0 ∷ 1 ∷ 2 ∷ 3 ∷ 4 ∷ 5 ∷ []))) g

-- rooms_in, in the order of the room numbers, with the addresses
unfoldable pub rooms_in : ℕ → IdMap ℕ → IdMap Room → List (ℕ × Room)
rooms_in channel [] heap = []
rooms_in channel ((number, a) ∷ rooms) heap =
    let rest = rooms_in channel rooms heap in
    elim (IdMap.find a heap) [
      | none ↦ rest
      | some r ↦ if r.channel == channel then (a, r) ∷ rest else rest
    ]

abbrev listed_room : ℕ × Room → RoomInfo
listed_room (a, r) = listed_info r

unfoldable pub listed : ℕ → ℕ → GameServer → List RoomInfo
unfolding rooms_in count_taken
listed skipped channel g =
    map listed_room (take rooms_per_page (drop skipped (rooms_in channel g.rooms g.heap)))

unfoldable pub enter_channel_to : Player → ℕ → GameServer → GameServer
unfolding listed
enter_channel_to p channel g =
    if leb channel_count channel
    then send p (Channels.enter_channel channel 1) g
    else let entered =
        send p (Channels.enter_channel channel result_ok)
          (put_player (record p { channel = channel }) g) in
      send p (Lobby.lobby_add_rooms (listed 0 channel entered) 0) entered

unfoldable pub enter_channel : Handler
unfolding reading enter_channel_to
enter_channel = reading read_u8 enter_channel_to

unfoldable pub leave_channel : Handler
unfolding remove_from_room
leave_channel p params g = send p (Channels.leave_channel result_ok) (move_to no_channel p g)

unfoldable pub change_channel_to : Player → ℕ → GameServer → GameServer
unfolding listed remove_from_room
change_channel_to p channel g =
    if leb channel_count channel
    then send p (Channels.change_channel channel 1) g
    else let moved = send p (Channels.change_channel channel result_ok) (move_to channel p g) in
      send p (Lobby.lobby_add_rooms (listed 0 channel moved) 0) moved

unfoldable pub change_channel : Handler
unfolding reading change_channel_to
change_channel = reading read_u8 change_channel_to

unfoldable pub channel_total_room_number : Handler
unfolding rooms_in
channel_total_room_number p params g =
    let count = if p.channel == no_channel then 0 else length (rooms_in p.channel g.rooms g.heap) in
    send p (Items.channel_room_number_answer (count % 2 ^ 32) result_ok) g

abbrev user_of : Player → ChannelUser
user_of p = record {
  nickname = p.nickname;
  u32_08 = 0;
  u8_1a = 0;
  u32_0c = 0;
  u32_10 = 0;
  host = p.host;
  u16_18 = 0;
  str_1c = p.comment;
}

unfoldable pub users_in : ℕ → IdMap Player → List ChannelUser
users_in channel [] = []
users_in channel ((host, p) ∷ players) =
    let rest = users_in channel players in if p.channel == channel then user_of p ∷ rest else rest

unfoldable pub channel_user_list : Handler
unfolding users_in
channel_user_list p params g =
    send p (Channels.channel_user_list_answer p.host (users_in p.channel g.players) result_ok 0) g

unfoldable pub two_u16 : Reads (ℕ × ℕ)
unfolding ◌>>=◌ pure
two_u16 = do a ← read_u16; b ← read_u16; pure (a, b)

unfoldable pub room_list_of : Player → ℕ × ℕ → GameServer → GameServer
unfolding listed
room_list_of p (page, filter) g =
    if p.channel == no_channel
    then g
    else send p (Lobby.lobby_add_rooms (listed (page * rooms_per_page) p.channel g) 0) g

unfoldable pub room_list : Handler
unfolding reading room_list_of two_u16
room_list = reading two_u16 room_list_of

-- find_room: the address and the room
unfoldable pub find_room : ℕ → ℕ → GameServer → Option (ℕ × Room)
find_room channel number g = elim (IdMap.find number g.rooms) [
  | none ↦ none
  | some a ↦ elim (IdMap.find a g.heap) [
    | none ↦ none
    | some r ↦ if r.channel == channel then some (a, r) else none
  ]
]

abbrev slot_user_of : Player → RoomSlotUser
slot_user_of other = record {
  str_04 = other.nickname;
  str_08 = other.comment;
  u32_0c = other.account.index;
  u32_10 = other.exp;
  u16_14 = 0;
  u16_16 = 0;
  u8_18 = other.slot % 2 ^ 8;
}

abbrev members_answer : ℕ → ℕ → Option (ℕ × Room) → GameServer → Writer
members_answer number extra none g = Items.room_member_answer number 1 0 [] []
members_answer number extra (some (a, r)) g =
    let others = players_in r.slots g in
    Items.room_member_answer number extra (get_or r.slots r.master_slot 0) (map member_of others)
      (map slot_user_of others)

unfoldable pub room_request_member_of : Player → ℕ × ℕ → GameServer → GameServer
unfolding find_room players_in
room_request_member_of p (number, extra) g =
    send p (members_answer number extra (find_room p.channel number g) g) g

unfoldable pub room_request_member : Handler
unfolding reading room_request_member_of two_u16
room_request_member = reading two_u16 room_request_member_of

unfoldable pub say_lobby : Player → List ℕ → GameServer → GameServer
unfolding send_lobby
say_lobby p text g = send_channel_lobby p.channel (Lobby.lobby_chat p.host text) g

unfoldable pub lobby_chat : Handler
unfolding reading say_lobby
lobby_chat = reading read_string say_lobby

unfoldable pub send_players : IdMap Player → Writer → Server → Server
send_players [] message net = net
send_players ((host, other) ∷ players) message net =
    send_players players message (Server.send other.host message false net)

-- std::format("{} : {}", p.nickname, text)
unfoldable pub cry_all : Player → List ℕ → GameServer → GameServer
unfolding send_players
cry_all p text g = record g {
  net = send_players g.players (Lobby.cry (p.nickname ++ (32 ∷ 58 ∷ 32 ∷ text))) g.net;
}

unfoldable pub cry : Handler
unfolding reading cry_all
cry = reading read_string cry_all
