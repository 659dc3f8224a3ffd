-- ===== src/Game/Gscl/Items.antt =====
-- src/game/gscl_proxy.hpp: the messages to the client, first Select_Character and last Channel_RoomNumber_Answer.
use hovorun.Prelude.{ℕ, List}
use hovorun.Net.Message.Writer.{Writer, ◌▹◌, write_text, write_u16, write_u32}
use hovorun.Proudnet.Types.{rmi_begin}
use hovorun.Game.Arrays.{write_array}
use hovorun.Game.GsclTypes.AvatarInfo
use hovorun.Game.GsclTypes.AvatarInfo.{AvatarInfo}
use hovorun.Game.GsclTypes.GiftInfo
use hovorun.Game.GsclTypes.GiftInfo.{GiftInfo}
use hovorun.Game.GsclTypes.ItemInfo
use hovorun.Game.GsclTypes.ItemInfo.{ItemInfo}
use hovorun.Game.GsclTypes.RoomMember
use hovorun.Game.GsclTypes.RoomMember.{RoomMember}
use hovorun.Game.GsclTypes.RoomSlotUser
use hovorun.Game.GsclTypes.RoomSlotUser.{RoomSlotUser}
use hovorun.Game.Gscl.Id

abbrev pub select_character : ℕ → List ℕ → List ℕ → ℕ → Writer
select_character character a b result =
    rmi_begin Id.select_character
    ▹ write_u32 character
    ▹ write_text a
    ▹ write_text b
    ▹ write_u16 result

abbrev pub insert_item : ItemInfo → ℕ → Writer
insert_item item result = rmi_begin Id.insert_item ▹ ItemInfo.write item ▹ write_u16 result

abbrev pub delete_item_answer : ℕ → ℕ → Writer
delete_item_answer item_id result =
    rmi_begin Id.delete_item_answer ▹ write_u32 item_id ▹ write_u16 result

abbrev pub gift_item : GiftInfo → List ℕ → ℕ → ℕ → Writer
gift_item gift s v result =
    rmi_begin Id.gift_item ▹ GiftInfo.write gift ▹ write_text s ▹ write_u32 v ▹ write_u16 result

abbrev pub answer_gift : ItemInfo → ℕ → ℕ → ℕ → Writer
answer_gift item v a result =
    rmi_begin Id.answer_gift ▹ ItemInfo.write item ▹ write_u32 v ▹ write_u16 a ▹ write_u16 result

abbrev pub room_up_data_avatar : AvatarInfo → ℕ → Writer
room_up_data_avatar avatar v =
    rmi_begin Id.room_up_data_avatar ▹ AvatarInfo.write avatar ▹ write_u32 v

abbrev pub room_change_comment : List ℕ → ℕ → Writer
room_change_comment comment v = rmi_begin Id.room_change_comment ▹ write_text comment ▹ write_u32 v

abbrev pub room_member_answer : ℕ → ℕ → ℕ → List RoomMember → List RoomSlotUser → Writer
room_member_answer a b host members slots =
    rmi_begin Id.room_member_answer
    ▹ write_u16 a
    ▹ write_u16 b
    ▹ write_u32 host
    ▹ write_array RoomMember.write members
    ▹ write_array RoomSlotUser.write slots

abbrev pub channel_room_number_answer : ℕ → ℕ → Writer
channel_room_number_answer number result =
    rmi_begin Id.channel_room_number_answer ▹ write_u32 number ▹ write_u16 result
