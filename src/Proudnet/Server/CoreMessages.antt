-- ===== src/Proudnet/Server/CoreMessages.antt =====
-- src/proudnet/server.cpp, handle_core_message and handle_core_rmi. Their results only decide what is
-- logged.
pub mod Kept
use hovorun.Prelude.{◌==◌, if◌then◌else◌, ℕ, false, none, some, List, []}
use hovorun.Net.Message.Writer.{Writer, ◌▹◌, write_u8, write_f64}
use hovorun.Net.Message.Reader.{Reads, pure, ◌>>=◌, read_f64, ok, err}
use hovorun.Proudnet.MessageType
use hovorun.Proudnet.CoreRmi
use hovorun.Proudnet.Types.{rmi_begin}
use hovorun.Proudnet.Peer
use hovorun.Proudnet.Server.{Server, find, queue}
use hovorun.Proudnet.Server.Relay.{relay_reliable, relay_unreliable, relay_reliable_udp_frame}
use hovorun.Proudnet.Peer.{Peer}

-- from.send(w), for a peer that is not taken off the server yet
unfoldable pub reply : ℕ → Writer → Server → Server
unfolding queue
reply from w s = elim (find from s) [ none ↦ s | some p ↦ queue from (Peer.send w false p) s ]

-- [f64 clientLocalTime][f64 clientAvgPing]
read_ping : Reads ℕ
unfolding ◌>>=◌ pure
read_ping = do client_time ← read_f64; ping ← read_f64; pure client_time

pub server_time_message : ℕ → ℕ → Writer
server_time_message client_time server_time =
    []
    ▹ write_u8 MessageType.reply_server_time_and_keep_alive
    ▹ write_f64 client_time
    ▹ write_f64 server_time

-- 10.0 * 1024 * 1024 as a double
abbrev generous_speed : ℕ
generous_speed = 0x4164000000000000

pub receive_speed_message : Writer
receive_speed_message =
    [] ▹ write_u8 MessageType.reply_receive_speed_at_receiver_side ▹ write_f64 generous_speed

reply_server_time : ℕ → ℕ → List ℕ → Server → Server
unfolding reply read_ping server_time_message
reply_server_time server_time from r s = elim (read_ping r) [
  | err e ↦ s
  | ok (client_time, rest) ↦ reply from (server_time_message client_time server_time) s
]

pub handle_core_message : ℕ → ℕ → ℕ → List ℕ → Server → Server
unfolding reply_server_time
handle_core_message server_time from type r s =
    if type == MessageType.request_server_time_and_keep_alive
    then reply_server_time server_time from r s
    else if type == MessageType.speed_hack_detector_ping
    then s
    else if type == MessageType.request_receive_speed_at_receiver_side
    then reply from receive_speed_message s
    else if type == MessageType.reply_receive_speed_at_receiver_side
    then s
    else if type == MessageType.reliable_relay1
    then relay_reliable from r s
    else if type == MessageType.unreliable_relay1
    then relay_unreliable from r s
    else if type == MessageType.reliable_udp_frame_relay1
    then relay_reliable_udp_frame from r s
    else s

pub handle_core_rmi : ℕ → ℕ → Server → Server
handle_core_rmi from rmi_id s =
    if rmi_id == CoreRmi.c2s_reliable_ping
    then reply from (rmi_begin CoreRmi.reliable_pong) s
    else if rmi_id == CoreRmi.c2s_shutdown_tcp
    then reply from (rmi_begin CoreRmi.shutdown_tcp_ack) s
    else s
