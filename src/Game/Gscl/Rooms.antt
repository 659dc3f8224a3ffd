-- ===== src/Game/Gscl/Rooms.antt =====
-- src/game/gscl_proxy.hpp: the messages to the client, first Create_Room and last New_RoomMaster.
use hovorun.Prelude.{ℕ, Bool, List}
use hovorun.Net.Message.Writer.{Writer, ◌▹◌, write_bool, write_u16, write_u32, write_u8}
use hovorun.Proudnet.Types.{rmi_begin}
use hovorun.Game.Arrays.{write_array}
use hovorun.Game.GsclTypes.AvatarInfo
use hovorun.Game.GsclTypes.AvatarInfo.{AvatarInfo}
use hovorun.Game.GsclTypes.RoomInfo
use hovorun.Game.GsclTypes.RoomInfo.{RoomInfo}
use hovorun.Game.GsclTypes.RoomMember
use hovorun.Game.GsclTypes.RoomMember.{RoomMember}
use hovorun.Game.GsclTypes.StartGameInfo
use hovorun.Game.GsclTypes.StartGameInfo.{StartGameInfo}
use hovorun.Game.Gscl.Id

abbrev pub create_room : RoomInfo → ℕ → ℕ → Writer
create_room room unk result =
    rmi_begin Id.create_room ▹ RoomInfo.write room ▹ write_u16 unk ▹ write_u16 result

abbrev pub enter_room : List RoomMember → List AvatarInfo → ℕ → RoomInfo → ℕ → Writer
enter_room members avatars master_slot room result =
    rmi_begin Id.enter_room
    ▹ write_array RoomMember.write members
    ▹ write_array AvatarInfo.write avatars
    ▹ write_u32 master_slot
    ▹ RoomInfo.write room
    ▹ write_u16 result

abbrev pub room_add_user_avatar : AvatarInfo → RoomMember → Writer
room_add_user_avatar avatar member =
    rmi_begin Id.room_add_user_avatar ▹ AvatarInfo.write avatar ▹ RoomMember.write member

abbrev pub leave_room : ℕ → Writer
leave_room result = rmi_begin Id.leave_room ▹ write_u16 result

abbrev pub change_map : ℕ → Writer
change_map map = rmi_begin Id.change_map ▹ write_u8 map

abbrev pub change_type : ℕ → List RoomMember → Writer
change_type type members =
    rmi_begin Id.change_type ▹ write_u8 type ▹ write_array RoomMember.write members

abbrev pub kicked_room : ℕ → Writer
kicked_room reason = rmi_begin Id.kicked_room ▹ write_u16 reason

abbrev pub change_team : ℕ → ℕ → Writer
change_team slot team = rmi_begin Id.change_team ▹ write_u32 slot ▹ write_u8 team

abbrev pub close_slot_room : ℕ → Writer
close_slot_room slot = rmi_begin Id.close_slot_room ▹ write_u32 slot

abbrev pub open_slot_room : ℕ → Writer
open_slot_room slot = rmi_begin Id.open_slot_room ▹ write_u32 slot

abbrev pub change_lap : ℕ → Writer
change_lap laps = rmi_begin Id.change_lap ▹ write_u8 laps

abbrev pub change_attribute : ℕ → Writer
change_attribute attribute = rmi_begin Id.change_attribute ▹ write_u8 attribute

abbrev pub change_random_map : Bool → Writer
change_random_map random = rmi_begin Id.change_random_map ▹ write_bool random

abbrev pub mission_answer : ℕ → Writer
mission_answer v = rmi_begin Id.mission_answer ▹ write_u8 v

abbrev pub start_game : StartGameInfo → ℕ → ℕ → ℕ → Writer
start_game info mode laps result =
    rmi_begin Id.start_game
    ▹ StartGameInfo.write info
    ▹ write_u16 mode
    ▹ write_u16 laps
    ▹ write_u16 result

abbrev pub ready_game : ℕ → ℕ → Bool → Writer
ready_game host slot ready =
    rmi_begin Id.ready_game ▹ write_u32 host ▹ write_u32 slot ▹ write_bool ready

abbrev pub new_room_master : ℕ → Writer
new_room_master slot = rmi_begin Id.new_room_master ▹ write_u32 slot
