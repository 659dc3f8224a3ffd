-- ===== src/Proudnet/CoreRmi.antt =====
-- src/proudnet/message_type.hpp, core_rmi: the ids of ProudNet's own RMIs.
use hovorun.Prelude.{ℕ}

abbrev pub c2s_first : ℕ
c2s_first = 64001

abbrev pub c2s_last : ℕ
c2s_last = 64019

abbrev pub c2s_reliable_ping : ℕ
c2s_reliable_ping = 64001

abbrev pub c2s_shutdown_tcp : ℕ
c2s_shutdown_tcp = 64003

abbrev pub p2p_group_member_join : ℕ
p2p_group_member_join = 64501

abbrev pub p2p_group_member_join_unencrypted : ℕ
p2p_group_member_join_unencrypted = 64502

abbrev pub request_p2p_holepunch : ℕ
request_p2p_holepunch = 64504

abbrev pub p2p_notify_direct_p2p_disconnected2 : ℕ
p2p_notify_direct_p2p_disconnected2 = 64505

abbrev pub p2p_group_member_leave : ℕ
p2p_group_member_leave = 64506

abbrev pub notify_direct_p2p_establish : ℕ
notify_direct_p2p_establish = 64507

abbrev pub reliable_pong : ℕ
reliable_pong = 64508

abbrev pub enable_log : ℕ
enable_log = 64509

abbrev pub disable_log : ℕ
disable_log = 64510

abbrev pub notify_udp_to_tcp_fallback_by_server : ℕ
notify_udp_to_tcp_fallback_by_server = 64511

abbrev pub notify_speed_hack_detector_enabled : ℕ
notify_speed_hack_detector_enabled = 64512

abbrev pub shutdown_tcp_ack : ℕ
shutdown_tcp_ack = 64513

abbrev pub request_auto_prune : ℕ
request_auto_prune = 64514

abbrev pub renew_p2p_connection_state : ℕ
renew_p2p_connection_state = 64515

abbrev pub new_direct_p2p_connection : ℕ
new_direct_p2p_connection = 64516

abbrev pub request_measure_send_speed : ℕ
request_measure_send_speed = 64517

abbrev pub s2c_request_create_udp_socket : ℕ
s2c_request_create_udp_socket = 64518

abbrev pub s2c_create_udp_socket_ack : ℕ
s2c_create_udp_socket_ack = 64519
