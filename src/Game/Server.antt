-- ===== src/Game/Server.antt =====
-- src/game/game_server.hpp and game_server.cpp: players, rooms, and leaving and joining a room. A room
-- is an object that players share and that can be in use after `m_rooms` lost it, so that rooms stand
-- in a heap under addresses, and `rooms` and `current_room` hold addresses. No address is used again.
pub mod Dispatch
pub mod Eject
pub mod Lobby
pub mod Login
pub mod Misc
pub mod Numbers
pub mod Entry
pub mod Settings
pub mod Sound
mod Tests
use hovorun.Prelude.{
  ltb, ◌==◌, if◌then◌else◌, is_none, get_or, set, ℕ, zero, suc, ◌+◌, ◌%◌, ◌^◌, Bool, true, false,
  not, ◌&&◌, Option, none, some, List, [], ◌∷◌, map,
}
use hovorun.Containers.IdMap
use hovorun.Containers.IdMap.{IdMap}
use hovorun.Net.Message.Writer.{Writer}
use hovorun.Net.Message.Reader.{Reads, ok, err}
use hovorun.Proudnet.Server
use hovorun.Proudnet.Server.{Server, leave_p2p_group, destroy_p2p_group}
use hovorun.App.Accounts.{Account, AccountStore, is_blank}
use hovorun.Game.GsclTypes.AvatarInfo.{AvatarInfo}
use hovorun.Game.GsclTypes.RoomInfo.{RoomInfo}
use hovorun.Game.GsclTypes.RoomMember.{RoomMember}
use hovorun.Game.Gscl.Channels
use hovorun.Game.Gscl.Rooms

abbrev pub channel_count : ℕ
channel_count = 6

abbrev pub room_slots : ℕ
room_slots = 8

abbrev pub rooms_per_page : ℕ
rooms_per_page = 8

abbrev pub no_channel : ℕ
no_channel = 0xff

-- gscl::ok
abbrev pub result_ok : ℕ
result_ok = 0

pub record Player : Type 0 where
  pub host : ℕ
  pub account : Account
  pub nickname : List ℕ
  pub exp : ℕ
  pub money : ℕ
  pub character : ℕ
  pub comment : List ℕ
  pub nation : ℕ
  pub channel : ℕ
  pub current_room : Option ℕ
  pub slot : ℕ
  pub ready : Bool
  pub team : ℕ
  pub avatar : AvatarInfo

-- In `slots`, 0 is empty.
pub record Room : Type 0 where
  pub info : RoomInfo
  pub channel : ℕ
  pub slots : List ℕ
  pub closed : List Bool
  pub master_slot : ℕ
  pub p2p_group : ℕ
  pub playing : Bool

pub record GameServer : Type 0 where
  pub net : Server
  pub accounts : AccountStore
  pub players : IdMap Player
  pub rooms : IdMap ℕ
  pub heap : IdMap Room
  pub next_address : ℕ
  pub next_room_number : ℕ

unfoldable pub count_taken : List ℕ → ℕ
count_taken [] = 0
count_taken (h ∷ slots) = (if h == 0 then 0 else 1) + count_taken slots

abbrev pub player_count : Room → ℕ
player_count r = count_taken r.slots

abbrev pub capacity : Room → ℕ
capacity r =
    if r.info.max_players == 0
    then room_slots
    else if ltb r.info.max_players room_slots
    then r.info.max_players
    else room_slots

abbrev pub is_open : Room → ℕ → Bool
is_open r i = get_or r.slots i 0 == 0 && not (get_or r.closed i false)

-- The loop of free_slot, with the number of the slots from `i` to the capacity.
unfoldable pub first_open : Room → ℕ → ℕ → Option ℕ
first_open r zero i = none
first_open r (suc n) i = elim (is_open r i) [ true ↦ some i | false ↦ first_open r n (suc i) ]

unfoldable pub free_slot : Room → Option ℕ
unfolding first_open
free_slot r = first_open r (capacity r) 0

-- The index that find_if stops at.
unfoldable pub first_taken : List ℕ → ℕ
first_taken [] = 0
first_taken (h ∷ slots) = if h == 0 then suc (first_taken slots) else 0

abbrev pub player_by_host : ℕ → GameServer → Option Player
player_by_host host g = IdMap.find host g.players

-- The object at the end of a pointer to a room.
abbrev pub room_at : Option ℕ → GameServer → Option Room
room_at none g = none
room_at (some a) g = IdMap.find a g.heap

-- A change of the player that a pointer points to.
abbrev pub put_player : Player → GameServer → GameServer
put_player p g = record g { players = IdMap.put p.host p g.players }

abbrev pub put_room : ℕ → Room → GameServer → GameServer
put_room a r g = record g { heap = IdMap.put a r g.heap }

abbrev pub send : Player → Writer → GameServer → GameServer
send p message g = record g { net = Server.send p.host message false g.net }

unfoldable pub send_hosts : List ℕ → Writer → ℕ → Server → Server
send_hosts [] message except net = net
send_hosts (host ∷ slots) message except net =
    send_hosts slots message except
      (if not (host == 0) && not (host == except) then Server.send host message false net else net)

abbrev pub send_room : Room → Writer → ℕ → GameServer → GameServer
send_room r message except g = record g { net = send_hosts r.slots message except g.net }

unfoldable pub send_lobby : IdMap Player → ℕ → Writer → Server → Server
send_lobby [] channel message net = net
send_lobby ((host, p) ∷ players) channel message net = send_lobby players channel message (
    if p.channel == channel && is_none p.current_room
    then Server.send host message false net
    else net)

abbrev pub send_channel_lobby : ℕ → Writer → GameServer → GameServer
send_channel_lobby channel message g = record g { net = send_lobby g.players channel message g.net }

-- The players of a list of slots that are logged in.
unfoldable pub players_in : List ℕ → GameServer → List Player
players_in [] g = []
players_in (host ∷ slots) g =
    let rest = players_in slots g in
    elim (player_by_host host g) [ none ↦ rest | some other ↦ other ∷ rest ]

abbrev pub member_of : Player → RoomMember
member_of p = record {
  host = p.host;
  nickname = p.nickname;
  str_24 = p.comment;
  user_index = p.account.index;
  u32_2c = 0;
  exp = p.exp;
  u32_04 = 0;
  slot = p.slot;
  ready = if p.ready then 1 else 0;
  u32_0c = 0;
  u32_10 = 0;
  u8_35 = 0;
  character = p.character % 2 ^ 8;
  u32_14 = 0;
  order = p.slot;
}

abbrev pub avatar_of : Player → AvatarInfo
avatar_of p = record p.avatar { host = p.host }

-- Room state byte shown in the lobby list
abbrev pub room_state_waiting : ℕ
room_state_waiting = 0

abbrev pub room_state_playing : ℕ
room_state_playing = 1

abbrev pub listed_info : Room → RoomInfo
listed_info r = record r.info {
  players = player_count r % 2 ^ 8;
  state = if r.playing then room_state_playing else room_state_waiting;
  has_password = if is_blank r.info.password then 0 else 1;
  slots = map (λ closed. if closed then 1 else 0) r.closed;
}

-- The room with the first player in it as its master.
abbrev pub hand_over : Room → Room
hand_over r = record r { master_slot = first_taken r.slots }

-- The end of remove_from_room: the room at `a` has lost the player in `slot`.
unfoldable pub after_leave : ℕ → ℕ → ℕ → Room → GameServer → GameServer
unfolding count_taken send_hosts first_taken
after_leave host slot a r g =
    if player_count r == 0
    then record g {
      net = destroy_p2p_group r.p2p_group g.net;
      rooms = IdMap.remove r.info.number g.rooms;
    }
    else let told = send_room r (Channels.room_del_user host slot 0) 0 g in
      let now = hand_over r in
      if r.master_slot == slot
      then send_room now (Rooms.new_room_master now.master_slot) 0 (put_room a now told)
      else told

abbrev pub kicked_notice : Bool → Player → GameServer → GameServer
kicked_notice kicked p g = record g {
  net = if kicked then Server.send p.host (Rooms.kicked_room result_ok) false g.net else g.net;
}

abbrev pub without_room : Player → Player
without_room p = record p { current_room = none; ready = false }

-- The room without the player in its slot.
abbrev pub emptied : Player → Room → Room
emptied p r = record r { slots = set r.slots p.slot 0 }

unfoldable pub leave_found : Player → Bool → ℕ → Option Room → GameServer → GameServer
unfolding after_leave
leave_found p kicked a none g = g
leave_found p kicked a (some r) g =
    let left = put_player (without_room p) (put_room a (emptied p r) g) in
    after_leave p.host p.slot a (emptied p r)
      (kicked_notice kicked p (record left { net = leave_p2p_group r.p2p_group p.host left.net }))

abbrev pub remove_at : Player → Bool → Option ℕ → GameServer → GameServer
remove_at p kicked none g = g
remove_at p kicked (some a) g = leave_found p kicked a (IdMap.find a g.heap) g

unfoldable pub remove_from_room : Player → Bool → GameServer → GameServer
unfolding leave_found
remove_from_room p kicked g = remove_at p kicked p.current_room g

abbrev pub out_of : Option ℕ → Player → Player
out_of none p = p
out_of (some a) p = without_room p

-- What is left of the player that remove_from_room was called with.
abbrev pub out_of_room : Player → Player
out_of_room p = out_of p.current_room p

-- A handler, with the player that the client is logged in as and what is left of the message.
abbrev pub Handler : Type 0
Handler = Player → List ℕ → GameServer → GameServer

-- The parameters are read first; a read that throws ends the handler.
unfoldable pub reading : {A : Type 0} → Reads A → (Player → A → GameServer → GameServer) → Handler
reading reads act p params g = elim (reads params) [ err e ↦ g | ok (a, rest) ↦ act p a g ]

-- on_client_leave, for a player's host id.
unfoldable pub on_client_leave : ℕ → GameServer → GameServer
unfolding remove_from_room
on_client_leave client g = elim (player_by_host client g) [
  | none ↦ g
  | some p ↦
      let left = remove_from_room p false g in
      record left { players = IdMap.remove client left.players }
]
