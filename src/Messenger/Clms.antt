-- ===== src/Messenger/Clms.antt =====
-- src/messenger/messenger_server.hpp, namespace clms: the ids of the RMIs of a client.
use hovorun.Prelude.{ℕ}

abbrev pub logon_clms : ℕ
logon_clms = 2601

abbrev pub load_agree_user : ℕ
load_agree_user = 2602

abbrev pub add_friend_nick : ℕ
add_friend_nick = 2603

abbrev pub add_friend_user_id : ℕ
add_friend_user_id = 2604

abbrev pub add_friend_friend_id : ℕ
add_friend_friend_id = 2605

abbrev pub agree_friend_answer : ℕ
agree_friend_answer = 2606

abbrev pub del_friend : ℕ
del_friend = 2607

abbrev pub del_friend_user_id : ℕ
del_friend_user_id = 2608

abbrev pub change_position : ℕ
change_position = 2609

abbrev pub whisper_user_index : ℕ
whisper_user_index = 2610

abbrev pub whisper_user_id : ℕ
whisper_user_id = 2611

abbrev pub invitation : ℕ
invitation = 2612

abbrev pub invitation_answer : ℕ
invitation_answer = 2613

abbrev pub send_message : ℕ
send_message = 2616

abbrev pub send_message_id : ℕ
send_message_id = 2617

abbrev pub get_message : ℕ
get_message = 2618

abbrev pub delete_message : ℕ
delete_message = 2619

abbrev pub create_clan : ℕ
create_clan = 2620

abbrev pub join_clan : ℕ
join_clan = 2621

abbrev pub join_clan_name : ℕ
join_clan_name = 2622

abbrev pub secede_clan : ℕ
secede_clan = 2623

abbrev pub dissolve_clan : ℕ
dissolve_clan = 2624

abbrev pub clan_list : ℕ
clan_list = 2627

abbrev pub clan_chat : ℕ
clan_chat = 2635

abbrev pub check_clan_name : ℕ
check_clan_name = 2636

abbrev pub rank_info_request : ℕ
rank_info_request = 2644

abbrev pub find_user_clan : ℕ
find_user_clan = 2649

abbrev pub cl2ms_test : ℕ
cl2ms_test = 2650
