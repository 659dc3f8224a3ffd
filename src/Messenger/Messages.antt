-- ===== src/Messenger/Messages.antt =====
-- src/messenger/messenger_server.cpp: the messages to the clients. `date` is the text that std::format
-- makes of the clock.
use hovorun.Prelude.{replicate, pos, ℕ, List, []}
use hovorun.Net.Message.Writer.{
  Writer, ◌▹◌, write_u8, write_u16, write_u32, write_i32, ssize, write_text,
}
use hovorun.Proudnet.Types.{rmi_begin}
use hovorun.Game.Arrays.{for_each}
use hovorun.Messenger.Mscl

abbrev pub ok_code : ℕ
ok_code = 0

abbrev pub whisper_target_offline : ℕ
whisper_target_offline = 9

abbrev pub invitation_not_connected : ℕ
invitation_not_connected = 1

abbrev pub clan_create_failed : ℕ
clan_create_failed = 9

abbrev pub clan_join_not_found : ℕ
clan_join_not_found = 6

abbrev pub clan_not_member : ℕ
clan_not_member = 3

abbrev pub state_offline : ℕ
state_offline = 0

abbrev pub state_online : ℕ
state_online = 1

abbrev u8_zeros : ℕ → Writer → Writer
u8_zeros n = for_each write_u8 (replicate n 0)

abbrev u16_zeros : ℕ → Writer → Writer
u16_zeros n = for_each write_u16 (replicate n 0)

abbrev u32_zeros : ℕ → Writer → Writer
u32_zeros n = for_each write_u32 (replicate n 0)

unfoldable pub write_empty_clan_info : Writer → Writer
unfolding for_each
write_empty_clan_info w =
    w
    ▹ write_u32 0
    ▹ write_text []
    ▹ write_text []
    ▹ u32_zeros 14
    ▹ u16_zeros 9
    ▹ write_u8 0
    ▹ write_text []
    ▹ write_text []
    ▹ write_text []
    ▹ u8_zeros 5

unfoldable pub write_empty_clan_member_info : Writer → Writer
unfolding for_each
write_empty_clan_member_info w =
    w
    ▹ write_u32 0
    ▹ write_u32 0
    ▹ write_text []
    ▹ write_text []
    ▹ write_u16 0
    ▹ u32_zeros 10
    ▹ write_u8 0
    ▹ write_u8 0
    ▹ u16_zeros 4
    ▹ write_text []
    ▹ write_u16 0
    ▹ write_u8 0

unfoldable pub write_empty_clan_board_info : Writer → Writer
write_empty_clan_board_info w =
    w
    ▹ write_u32 0
    ▹ write_u32 0
    ▹ write_u32 0
    ▹ write_u8 0
    ▹ write_text []
    ▹ write_text []
    ▹ write_text []

unfoldable pub write_message_info : List ℕ → ℕ → ℕ → List ℕ → List ℕ → Writer → Writer
write_message_info date index receiver sender text w =
    w
    ▹ write_u32 index
    ▹ write_u32 receiver
    ▹ write_u32 0
    ▹ write_u8 0
    ▹ write_u8 0
    ▹ write_text sender
    ▹ write_text text
    ▹ write_text date

-- What write_friend_info looks up: the room, positions and online flag of the user, and its index.
pub record FriendInfo : Type 0 where
  pub room : ℕ
  pub index : ℕ
  pub username : List ℕ
  pub position_a : ℕ
  pub position_b : ℕ
  pub online : ℕ

unfoldable pub write_friend_info : FriendInfo → Writer → Writer
unfolding for_each
write_friend_info f w =
    w
    ▹ write_u16 f.room
    ▹ write_u32 0
    ▹ write_u32 f.index
    ▹ write_text f.username
    ▹ write_u32 0
    ▹ write_u16 0
    ▹ write_u16 0
    ▹ u8_zeros 8
    ▹ write_u8 f.position_a
    ▹ write_u8 f.position_b
    ▹ write_u8 f.online
    ▹ write_u8 0
    ▹ write_u32 0
    ▹ write_text []
    ▹ write_text []

abbrev pub logon_mscl : ℕ → ℕ → Writer
logon_mscl index result =
    rmi_begin Mscl.logon_mscl
    ▹ write_u8 0
    ▹ write_u32 index
    ▹ write_u8 0
    ▹ write_u16 0
    ▹ write_u32 0
    ▹ write_u16 result

unfoldable pub add_friend_info : List FriendInfo → Writer
unfolding for_each write_friend_info
add_friend_info friends =
    rmi_begin Mscl.add_friend_info
    ▹ write_i32 (ssize friends)
    ▹ for_each write_friend_info friends
    ▹ write_u16 ok_code

abbrev pub change_state : ℕ → ℕ → ℕ → Writer
change_state host index state =
    rmi_begin Mscl.change_state ▹ write_u32 host ▹ write_u32 index ▹ write_u16 state

unfoldable pub insert_friend : ℕ → ℕ → FriendInfo → ℕ → Writer
unfolding write_friend_info
insert_friend host index info result =
    rmi_begin Mscl.insert_friend
    ▹ write_u32 host
    ▹ write_u32 index
    ▹ write_friend_info info
    ▹ write_u16 result

abbrev pub agree_friend : ℕ → List ℕ → Writer
agree_friend host name = rmi_begin Mscl.agree_friend ▹ write_u32 host ▹ write_text name

unfoldable pub agree_friend_answer_result : FriendInfo → ℕ → Writer
unfolding write_friend_info
agree_friend_answer_result info accepted =
    rmi_begin Mscl.agree_friend_answer_result
    ▹ write_friend_info info
    ▹ write_u8 accepted
    ▹ write_u16 ok_code

abbrev pub delete_friend_user_id : List ℕ → Writer
delete_friend_user_id target =
    rmi_begin Mscl.delete_friend_user_id ▹ write_text target ▹ write_u16 ok_code

abbrev pub whisper_answer : List ℕ → Writer
whisper_answer target =
    rmi_begin Mscl.whisper_answer ▹ write_text target ▹ write_u16 whisper_target_offline

abbrev pub whisper_user_index : List ℕ → List ℕ → ℕ → Writer
whisper_user_index name text flag =
    rmi_begin Mscl.whisper_user_index ▹ write_text name ▹ write_text text ▹ write_u8 flag

abbrev pub invitation : List ℕ → ℕ → List ℕ → Writer
invitation name room text =
    rmi_begin Mscl.invitation ▹ write_text name ▹ write_u32 room ▹ write_text text

abbrev pub invitation_answer : List ℕ → ℕ → Writer
invitation_answer name answer = rmi_begin Mscl.invitation_answer ▹ write_text name ▹ write_u8 answer

unfoldable pub send_message : List ℕ → ℕ → List ℕ → List ℕ → ℕ → Writer
unfolding write_message_info
send_message date receiver sender text result =
    rmi_begin Mscl.send_message ▹ write_message_info date 1 receiver sender text ▹ write_u16 result

-- Message_Info and Clan_List_Request: no entries.
abbrev pub no_entries : ℕ → Writer
no_entries id = rmi_begin id ▹ write_i32 (pos 0) ▹ write_u16 ok_code

abbrev pub check_clan_name : List ℕ → Writer
check_clan_name name = rmi_begin Mscl.check_clan_name ▹ write_text name ▹ write_u16 1

unfoldable pub create_clan : Writer
unfolding write_empty_clan_info write_empty_clan_member_info write_empty_clan_board_info
create_clan =
    rmi_begin Mscl.create_clan
    ▹ write_empty_clan_info
    ▹ write_empty_clan_member_info
    ▹ write_u32 0
    ▹ write_empty_clan_board_info
    ▹ write_u16 clan_create_failed

unfoldable pub join_clan : List ℕ → Writer
unfolding write_message_info
join_clan date =
    rmi_begin Mscl.join_clan
    ▹ write_text []
    ▹ write_u8 0
    ▹ write_u8 0
    ▹ write_message_info date 0 0 [] []
    ▹ write_u32 0
    ▹ write_u16 clan_join_not_found

-- Secede_Clan and Dissolve_Clan.
abbrev pub not_member : ℕ → Writer
not_member id = rmi_begin id ▹ write_u16 clan_not_member

abbrev pub rank_info_answer : Writer
rank_info_answer =
    rmi_begin Mscl.rank_info_answer
    ▹ write_i32 (pos 0)
    ▹ write_i32 (pos 0)
    ▹ write_u32 0
    ▹ write_u32 0

abbrev pub find_user_clan_answer : Writer
find_user_clan_answer = rmi_begin Mscl.find_user_clan_answer ▹ write_i32 (pos 0)
