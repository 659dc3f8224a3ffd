-- ===== src/Proudnet/MessageType.antt =====
-- src/proudnet/message_type.hpp: the first byte of a payload. An enumerator is its number, since a
-- byte off the wire is cast to the enum.
use hovorun.Prelude.{ℕ}

abbrev pub none : ℕ
none = 0

abbrev pub rmi : ℕ
rmi = 1

abbrev pub user_message : ℕ
user_message = 2

abbrev pub connect_server_timedout : ℕ
connect_server_timedout = 3

abbrev pub notify_server_connection_hint : ℕ
notify_server_connection_hint = 4

abbrev pub notify_cs_public_key : ℕ
notify_cs_public_key = 5

abbrev pub notify_cs_encrypted_session_key : ℕ
notify_cs_encrypted_session_key = 6

abbrev pub notify_server_connection_request_data : ℕ
notify_server_connection_request_data = 7

abbrev pub notify_protocol_version_mismatch : ℕ
notify_protocol_version_mismatch = 8

abbrev pub notify_server_denied_connection : ℕ
notify_server_denied_connection = 9

abbrev pub notify_server_connect_success : ℕ
notify_server_connect_success = 10

abbrev pub request_start_server_holepunch : ℕ
request_start_server_holepunch = 11

abbrev pub server_holepunch : ℕ
server_holepunch = 12

abbrev pub server_holepunch_ack : ℕ
server_holepunch_ack = 13

abbrev pub notify_holepunch_success : ℕ
notify_holepunch_success = 14

abbrev pub notify_client_server_udp_matched : ℕ
notify_client_server_udp_matched = 15

abbrev pub peer_udp_server_holepunch : ℕ
peer_udp_server_holepunch = 16

abbrev pub peer_udp_server_holepunch_ack : ℕ
peer_udp_server_holepunch_ack = 17

abbrev pub peer_udp_notify_holepunch_success : ℕ
peer_udp_notify_holepunch_success = 18

abbrev pub reliable_udp_frame : ℕ
reliable_udp_frame = 19

abbrev pub reliable_relay1 : ℕ
reliable_relay1 = 20

abbrev pub unreliable_relay1 : ℕ
unreliable_relay1 = 21

abbrev pub reliable_udp_frame_relay1 : ℕ
reliable_udp_frame_relay1 = 22

abbrev pub reliable_relay2 : ℕ
reliable_relay2 = 23

abbrev pub unreliable_relay2 : ℕ
unreliable_relay2 = 24

abbrev pub reliable_udp_frame_relay2 : ℕ
reliable_udp_frame_relay2 = 25

abbrev pub request_server_time_and_keep_alive : ℕ
request_server_time_and_keep_alive = 26

abbrev pub speed_hack_detector_ping : ℕ
speed_hack_detector_ping = 27

abbrev pub reply_server_time_and_keep_alive : ℕ
reply_server_time_and_keep_alive = 28

abbrev pub ignored_29 : ℕ
ignored_29 = 29

abbrev pub peer_udp_peer_holepunch : ℕ
peer_udp_peer_holepunch = 30

abbrev pub peer_udp_peer_holepunch_ack : ℕ
peer_udp_peer_holepunch_ack = 31

abbrev pub p2p_indirect_server_time_and_ping : ℕ
p2p_indirect_server_time_and_ping = 32

abbrev pub p2p_indirect_server_time_and_pong : ℕ
p2p_indirect_server_time_and_pong = 33

abbrev pub s2c_routed_multicast1 : ℕ
s2c_routed_multicast1 = 34

abbrev pub s2c_routed_multicast2 : ℕ
s2c_routed_multicast2 = 35

abbrev pub encrypted_reliable : ℕ
encrypted_reliable = 36

abbrev pub encrypted_unreliable : ℕ
encrypted_unreliable = 37

abbrev pub compressed : ℕ
compressed = 38

abbrev pub request_receive_speed_at_receiver_side : ℕ
request_receive_speed_at_receiver_side = 39

abbrev pub reply_receive_speed_at_receiver_side : ℕ
reply_receive_speed_at_receiver_side = 40
