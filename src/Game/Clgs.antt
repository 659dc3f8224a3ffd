-- ===== src/Game/Clgs.antt =====
-- src/game/clgs.hpp, enum id: the ids of the RMIs of a client, and the version that it sends.
use hovorun.Prelude.{ℕ}

abbrev pub logon_clgs : ℕ
logon_clgs = 1001

abbrev pub create_avatar : ℕ
create_avatar = 1002

abbrev pub select_avatar : ℕ
select_avatar = 1003

abbrev pub logout_notify : ℕ
logout_notify = 1004

abbrev pub room_list : ℕ
room_list = 1005

abbrev pub room_request_room_member : ℕ
room_request_room_member = 1006

abbrev pub create_room : ℕ
create_room = 1007

abbrev pub enter_room : ℕ
enter_room = 1008

abbrev pub room_chat : ℕ
room_chat = 1009

abbrev pub team_chat : ℕ
team_chat = 1010

abbrev pub wisper_chat : ℕ
wisper_chat = 1011

abbrev pub leave_room : ℕ
leave_room = 1012

abbrev pub change_map : ℕ
change_map = 1013

abbrev pub change_type : ℕ
change_type = 1014

abbrev pub kicked_room : ℕ
kicked_room = 1015

abbrev pub close_slot_room : ℕ
close_slot_room = 1016

abbrev pub open_slot_room : ℕ
open_slot_room = 1017

abbrev pub change_team : ℕ
change_team = 1018

abbrev pub change_lap : ℕ
change_lap = 1019

abbrev pub change_attribute : ℕ
change_attribute = 1020

abbrev pub change_random_map : ℕ
change_random_map = 1021

abbrev pub mission_request : ℕ
mission_request = 1022

abbrev pub start_game : ℕ
start_game = 1023

abbrev pub ready_game : ℕ
ready_game = 1024

abbrev pub room_save_score : ℕ
room_save_score = 1025

abbrev pub goto_wait_room_notify : ℕ
goto_wait_room_notify = 1026

abbrev pub room_quick_join : ℕ
room_quick_join = 1027

abbrev pub room_connect_ok : ℕ
room_connect_ok = 1028

abbrev pub game_ready_notify : ℕ
game_ready_notify = 1029

abbrev pub select_character_request : ℕ
select_character_request = 1030

abbrev pub insert_item_request : ℕ
insert_item_request = 1031

abbrev pub delete_item_request : ℕ
delete_item_request = 1032

abbrev pub gift_item_request : ℕ
gift_item_request = 1033

abbrev pub answer_gift : ℕ
answer_gift = 1034

abbrev pub dura_check_item_request : ℕ
dura_check_item_request = 1035

abbrev pub update_avatar : ℕ
update_avatar = 1036

abbrev pub update_asdkey : ℕ
update_asdkey = 1037

abbrev pub buy_item_request : ℕ
buy_item_request = 1038

abbrev pub channel_list : ℕ
channel_list = 1039

abbrev pub channel_user_list_request : ℕ
channel_user_list_request = 1040

abbrev pub enter_channel : ℕ
enter_channel = 1041

abbrev pub leave_channel : ℕ
leave_channel = 1042

abbrev pub change_channel : ℕ
change_channel = 1043

abbrev pub channel_total_room_number : ℕ
channel_total_room_number = 1044

abbrev pub guid_request : ℕ
guid_request = 1045

abbrev pub check_period_answer : ℕ
check_period_answer = 1046

abbrev pub check_error_notify : ℕ
check_error_notify = 1047

abbrev pub enter_lobby : ℕ
enter_lobby = 1048

abbrev pub lobby_chat : ℕ
lobby_chat = 1049

abbrev pub change_comment : ℕ
change_comment = 1050

abbrev pub cry : ℕ
cry = 1051

abbrev pub ranking_request : ℕ
ranking_request = 1052

abbrev pub enter_nation : ℕ
enter_nation = 1053

abbrev pub change_nation : ℕ
change_nation = 1054

abbrev pub rank_info_request : ℕ
rank_info_request = 1055

abbrev pub update_gs_user_clan_info : ℕ
update_gs_user_clan_info = 1056

abbrev pub room_index_answer : ℕ
room_index_answer = 1057

abbrev pub get_user_new_cash : ℕ
get_user_new_cash = 1058

abbrev pub blasting_room_gm : ℕ
blasting_room_gm = 1059

abbrev pub user_kick_room_gm : ℕ
user_kick_room_gm = 1060

abbrev pub cl2_gs_test : ℕ
cl2_gs_test = 1061

abbrev pub client_version : ℕ
client_version = 20070204
