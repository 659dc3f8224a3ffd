-- ===== src/Game/Gscl/Lobby.antt =====
-- src/game/gscl_proxy.hpp: the messages to the client, first Lobby_Add_Rooms and last User_New_Infor_Answer.
use hovorun.Prelude.{ℕ, Bool, List}
use hovorun.Net.Message.Writer.{Writer, ◌▹◌, write_bool, write_text, write_u16, write_u32, write_u8}
use hovorun.Proudnet.Types.{rmi_begin}
use hovorun.Game.Arrays.{write_array}
use hovorun.Game.GsclTypes.AvatarInfo
use hovorun.Game.GsclTypes.AvatarInfo.{AvatarInfo}
use hovorun.Game.GsclTypes.RankEntry
use hovorun.Game.GsclTypes.RankEntry.{RankEntry}
use hovorun.Game.GsclTypes.RankInfo
use hovorun.Game.GsclTypes.RankInfo.{RankInfo}
use hovorun.Game.GsclTypes.RoomInfo
use hovorun.Game.GsclTypes.RoomInfo.{RoomInfo}
use hovorun.Game.Gscl.Id

abbrev pub lobby_add_rooms : List RoomInfo → ℕ → Writer
lobby_add_rooms rooms unk =
    rmi_begin Id.lobby_add_rooms ▹ write_array RoomInfo.write rooms ▹ write_u32 unk

abbrev pub lobby_chat : ℕ → List ℕ → Writer
lobby_chat sender text = rmi_begin Id.lobby_chat ▹ write_u32 sender ▹ write_text text

abbrev pub room_chat : ℕ → List ℕ → Writer
room_chat sender text = rmi_begin Id.room_chat ▹ write_u32 sender ▹ write_text text

abbrev pub cry : List ℕ → Writer
cry text = rmi_begin Id.cry ▹ write_text text

abbrev pub ranking_answer : List RankEntry → Writer
ranking_answer entries = rmi_begin Id.ranking_answer ▹ write_array RankEntry.write entries

abbrev pub rank_info_answer : List RankInfo → List RankInfo → ℕ → ℕ → ℕ → Writer
rank_info_answer a b x y z =
    rmi_begin Id.rank_info_answer
    ▹ write_array RankInfo.write a
    ▹ write_array RankInfo.write b
    ▹ write_u32 x
    ▹ write_u32 y
    ▹ write_u32 z

abbrev pub hs_client_out : Bool → Writer
hs_client_out v = rmi_begin Id.hs_client_out ▹ write_bool v

abbrev pub forced_close : ℕ → Writer
forced_close reason = rmi_begin Id.forced_close ▹ write_u16 reason

abbrev pub add_avatars : List AvatarInfo → Writer
add_avatars avatars = rmi_begin Id.add_avatars ▹ write_array AvatarInfo.write avatars

abbrev pub enter_nation : ℕ → ℕ → Writer
enter_nation nation result = rmi_begin Id.enter_nation ▹ write_u8 nation ▹ write_u16 result

abbrev pub updata_ranking : List RankEntry → Writer
updata_ranking entries = rmi_begin Id.updata_ranking ▹ write_array RankEntry.write entries

abbrev pub room_index_request : ℕ → Writer
room_index_request v = rmi_begin Id.room_index_request ▹ write_u16 v

abbrev pub ranking_answer_notice : List RankEntry → Writer
ranking_answer_notice entries =
    rmi_begin Id.ranking_answer_notice ▹ write_array RankEntry.write entries

abbrev pub user_new_infor_answer : ℕ → Writer
user_new_infor_answer v = rmi_begin Id.user_new_infor_answer ▹ write_u32 v
