-- ===== src/Game/Gscl/Id.antt =====
-- src/game/gscl_proxy.hpp, namespace id: the RMI ids of the messages to the client.
use hovorun.Prelude.{ℕ}

abbrev pub logon_gscl : ℕ
logon_gscl = 0x579

abbrev pub log_out_ok : ℕ
log_out_ok = 0x57a

abbrev pub add_items : ℕ
add_items = 0x57b

abbrev pub add_gifts : ℕ
add_gifts = 0x57c

abbrev pub channel_user_list_notify : ℕ
channel_user_list_notify = 0x57d

abbrev pub create_avatar : ℕ
create_avatar = 0x57e

abbrev pub room_del_user : ℕ
room_del_user = 0x57f

abbrev pub channel_list : ℕ
channel_list = 0x580

abbrev pub channel_user_list_answer : ℕ
channel_user_list_answer = 0x581

abbrev pub enter_lobby : ℕ
enter_lobby = 0x582

abbrev pub enter_channel : ℕ
enter_channel = 0x583

abbrev pub leave_channel : ℕ
leave_channel = 0x584

abbrev pub change_channel : ℕ
change_channel = 0x585

abbrev pub create_room : ℕ
create_room = 0x586

abbrev pub enter_room : ℕ
enter_room = 0x587

abbrev pub room_add_user_avatar : ℕ
room_add_user_avatar = 0x588

abbrev pub leave_room : ℕ
leave_room = 0x589

abbrev pub change_map : ℕ
change_map = 0x58a

abbrev pub change_type : ℕ
change_type = 0x58b

abbrev pub kicked_room : ℕ
kicked_room = 0x58c

abbrev pub change_team : ℕ
change_team = 0x58d

abbrev pub close_slot_room : ℕ
close_slot_room = 0x58e

abbrev pub open_slot_room : ℕ
open_slot_room = 0x58f

abbrev pub change_lap : ℕ
change_lap = 0x590

abbrev pub change_attribute : ℕ
change_attribute = 0x591

abbrev pub change_random_map : ℕ
change_random_map = 0x592

abbrev pub mission_answer : ℕ
mission_answer = 0x593

abbrev pub start_game_answer : ℕ
start_game_answer = 0x594

abbrev pub start_game : ℕ
start_game = 0x595

abbrev pub start_game_notify : ℕ
start_game_notify = 0x596

abbrev pub ready_game : ℕ
ready_game = 0x597

abbrev pub ready_game_notify : ℕ
ready_game_notify = 0x598

abbrev pub new_room_master : ℕ
new_room_master = 0x599

abbrev pub select_character : ℕ
select_character = 0x59a

abbrev pub insert_item : ℕ
insert_item = 0x59b

abbrev pub delete_item_answer : ℕ
delete_item_answer = 0x59c

abbrev pub gift_item : ℕ
gift_item = 0x59d

abbrev pub answer_gift : ℕ
answer_gift = 0x59e

abbrev pub room_up_data_avatar : ℕ
room_up_data_avatar = 0x59f

abbrev pub room_change_comment : ℕ
room_change_comment = 0x5a0

abbrev pub enable_room : ℕ
enable_room = 0x5a1

abbrev pub room_member_answer : ℕ
room_member_answer = 0x5a2

abbrev pub channel_room_number_answer : ℕ
channel_room_number_answer = 0x5a3

abbrev pub lobby_add_rooms : ℕ
lobby_add_rooms = 0x5a4

abbrev pub lobby_chat : ℕ
lobby_chat = 0x5a5

abbrev pub room_chat : ℕ
room_chat = 0x5a6

abbrev pub cry : ℕ
cry = 0x5a7

abbrev pub ranking_answer : ℕ
ranking_answer = 0x5a8

abbrev pub rank_info_answer : ℕ
rank_info_answer = 0x5a9

abbrev pub hs_period_check : ℕ
hs_period_check = 0x5aa

abbrev pub hs_client_out : ℕ
hs_client_out = 0x5ab

abbrev pub forced_close : ℕ
forced_close = 0x5ac

abbrev pub add_avatars : ℕ
add_avatars = 0x5ad

abbrev pub enter_nation : ℕ
enter_nation = 0x5ae

abbrev pub change_nation : ℕ
change_nation = 0x5af

abbrev pub updata_ranking : ℕ
updata_ranking = 0x5b0

abbrev pub check_hs_request : ℕ
check_hs_request = 0x5b1

abbrev pub room_index_request : ℕ
room_index_request = 0x5b2

abbrev pub ranking_answer_notice : ℕ
ranking_answer_notice = 0x5b3

abbrev pub user_new_infor_answer : ℕ
user_new_infor_answer = 0x5b4

abbrev pub gs2cl_test : ℕ
gs2cl_test = 0x5b5
