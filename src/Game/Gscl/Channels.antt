-- ===== src/Game/Gscl/Channels.antt =====
-- src/game/gscl_proxy.hpp: the messages to the client, first Logon_GSCL and last Change_Channel.
use hovorun.Prelude.{ℕ, List}
use hovorun.Net.Message.Writer.{Writer, ◌▹◌, write_text, write_u16, write_u32, write_u8}
use hovorun.Proudnet.Types.{rmi_begin}
use hovorun.Game.Arrays.{write_array}
use hovorun.Game.GsclTypes.ChannelInfo
use hovorun.Game.GsclTypes.ChannelInfo.{ChannelInfo}
use hovorun.Game.GsclTypes.ChannelUser
use hovorun.Game.GsclTypes.ChannelUser.{ChannelUser}
use hovorun.Game.GsclTypes.GiftInfo
use hovorun.Game.GsclTypes.GiftInfo.{GiftInfo}
use hovorun.Game.GsclTypes.ItemInfo
use hovorun.Game.GsclTypes.ItemInfo.{ItemInfo}
use hovorun.Game.GsclTypes.LogonInfo
use hovorun.Game.GsclTypes.LogonInfo.{LogonInfo}
use hovorun.Game.Gscl.Id

abbrev pub logon_gscl : ℕ → LogonInfo → ℕ → ℕ → ℕ → ℕ → ℕ → List ℕ → Writer
logon_gscl my_host info result a b gender age location =
    rmi_begin Id.logon_gscl
    ▹ write_u32 my_host
    ▹ LogonInfo.write info
    ▹ write_u16 result
    ▹ write_u32 a
    ▹ write_u16 b
    ▹ write_u32 gender
    ▹ write_u32 age
    ▹ write_text location

abbrev pub log_out_ok : Writer
log_out_ok = rmi_begin Id.log_out_ok

abbrev pub add_items : List ItemInfo → Writer
add_items items = rmi_begin Id.add_items ▹ write_array ItemInfo.write items

abbrev pub add_gifts : List GiftInfo → Writer
add_gifts gifts = rmi_begin Id.add_gifts ▹ write_array GiftInfo.write gifts

abbrev pub channel_user_list_notify : List ChannelUser → Writer
channel_user_list_notify users =
    rmi_begin Id.channel_user_list_notify ▹ write_array ChannelUser.write users

abbrev pub room_del_user : ℕ → ℕ → ℕ → Writer
room_del_user host slot unk =
    rmi_begin Id.room_del_user ▹ write_u32 host ▹ write_u32 slot ▹ write_u32 unk

abbrev pub channel_list : List ChannelInfo → Writer
channel_list channels = rmi_begin Id.channel_list ▹ write_array ChannelInfo.write channels

abbrev pub channel_user_list_answer : ℕ → List ChannelUser → ℕ → ℕ → Writer
channel_user_list_answer host users u16v flag =
    rmi_begin Id.channel_user_list_answer
    ▹ write_u32 host
    ▹ write_array ChannelUser.write users
    ▹ write_u16 u16v
    ▹ write_u8 flag

abbrev pub enter_lobby : ℕ → Writer
enter_lobby result = rmi_begin Id.enter_lobby ▹ write_u16 result

abbrev pub enter_channel : ℕ → ℕ → Writer
enter_channel channel result = rmi_begin Id.enter_channel ▹ write_u8 channel ▹ write_u16 result

abbrev pub leave_channel : ℕ → Writer
leave_channel result = rmi_begin Id.leave_channel ▹ write_u16 result

abbrev pub change_channel : ℕ → ℕ → Writer
change_channel channel result = rmi_begin Id.change_channel ▹ write_u8 channel ▹ write_u16 result
