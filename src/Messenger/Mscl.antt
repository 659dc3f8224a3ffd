-- ===== src/Messenger/Mscl.antt =====
-- src/messenger/messenger_server.hpp, namespace mscl: the ids of the RMIs to a client.
use hovorun.Prelude.{ℕ}

abbrev pub logon_mscl : ℕ
logon_mscl = 2701

abbrev pub forced_close : ℕ
forced_close = 2702

abbrev pub change_state : ℕ
change_state = 2706

abbrev pub insert_friend : ℕ
insert_friend = 2707

abbrev pub agree_friend : ℕ
agree_friend = 2708

abbrev pub agree_friend_answer_result : ℕ
agree_friend_answer_result = 2710

abbrev pub delete_friend_user_id : ℕ
delete_friend_user_id = 2713

abbrev pub add_friend_info : ℕ
add_friend_info = 2714

abbrev pub whisper_user_index : ℕ
whisper_user_index = 2715

abbrev pub whisper_answer : ℕ
whisper_answer = 2716

abbrev pub invitation : ℕ
invitation = 2717

abbrev pub invitation_answer : ℕ
invitation_answer = 2718

abbrev pub send_message : ℕ
send_message = 2720

abbrev pub create_clan : ℕ
create_clan = 2722

abbrev pub join_clan : ℕ
join_clan = 2723

abbrev pub secede_clan : ℕ
secede_clan = 2727

abbrev pub dissolve_clan : ℕ
dissolve_clan = 2729

abbrev pub message_info : ℕ
message_info = 2735

abbrev pub clan_list_request : ℕ
clan_list_request = 2741

abbrev pub check_clan_name : ℕ
check_clan_name = 2744

abbrev pub rank_info_answer : ℕ
rank_info_answer = 2759

abbrev pub find_user_clan_answer : ℕ
find_user_clan_answer = 2763
