-- ===== src/Proudnet/Server/Hint.antt =====
-- src/proudnet/server.cpp, peer::start and peer::send_connection_hint, and net_settings of types.hpp. A
-- double is its bit pattern.
use hovorun.Prelude.{ℤ, pos, ℕ, ◌+◌, ◌^◌, ◌<◌, []}
use hovorun.Net.Message.Writer.{Writer, ◌▹◌, write_u8, write_f64, write_i32}
use hovorun.Proudnet.MessageType
use hovorun.Proudnet.Server.{Server, accept}
use hovorun.Proudnet.Server.Consistent.{IsConsistent, SameBooks-IsConsistent}
use hovorun.Proudnet.Server.Keeps.{accept-IsConsistent}
use hovorun.Proudnet.Server.CoreMessages.{reply}
use hovorun.Proudnet.Server.CoreMessages.Kept.{reply-SameBooks}

pub record NetSettings : Type 0 where
  pub fallback_method : ℕ
  pub message_max_length : ℤ
  pub default_timeout_sec : ℕ
  pub direct_p2p_start_condition : ℕ
  pub over_send_suspecting_threshold : ℤ
  pub enable_nagle_algorithm : ℕ
  pub encrypted_message_key_length : ℤ
  pub allow_server_as_p2p_group_member : ℕ
  pub enable_p2p_encrypted_messaging : ℕ
  pub upnp_detect_nat_device : ℕ
  pub upnp_tcp_add_port_mapping : ℕ
  pub emergency_log_line_count : ℤ
  pub enable_ping_test : ℕ
  pub unknown_bool : ℕ

-- 60.0 as a double is 0x404E000000000000.
abbrev pub default_settings : NetSettings
default_settings = record {
  fallback_method = 0;
  message_max_length = pos 0x100000;
  default_timeout_sec = 0x404E000000000000;
  direct_p2p_start_condition = 2;
  over_send_suspecting_threshold = pos 0;
  enable_nagle_algorithm = 0;
  encrypted_message_key_length = pos 128;
  allow_server_as_p2p_group_member = 0;
  enable_p2p_encrypted_messaging = 0;
  upnp_detect_nat_device = 0;
  upnp_tcp_add_port_mapping = 0;
  emergency_log_line_count = pos 0;
  enable_ping_test = 0;
  unknown_bool = 0;
}

unfoldable pub connection_hint : NetSettings → Writer
connection_hint s =
    []
    ▹ write_u8 MessageType.notify_server_connection_hint
    ▹ write_u8 0
    ▹ write_u8 s.fallback_method
    ▹ write_i32 s.message_max_length
    ▹ write_f64 s.default_timeout_sec
    ▹ write_u8 s.direct_p2p_start_condition
    ▹ write_i32 s.over_send_suspecting_threshold
    ▹ write_u8 s.enable_nagle_algorithm
    ▹ write_i32 s.encrypted_message_key_length
    ▹ write_u8 s.allow_server_as_p2p_group_member
    ▹ write_u8 s.enable_p2p_encrypted_messaging
    ▹ write_u8 s.upnp_detect_nat_device
    ▹ write_u8 s.upnp_tcp_add_port_mapping
    ▹ write_i32 s.emergency_log_line_count
    ▹ write_u8 s.enable_ping_test
    ▹ write_u8 s.unknown_bool

unfoldable pub start : NetSettings → ℕ → Server → Server
start settings id s = reply id (connection_hint settings) s

-- server::accept with what peer::start sends.
unfoldable pub accept_started : NetSettings → Server → ℕ × Server
unfolding start
accept_started settings s = let (id, s') = accept s in (id, start settings id s')

pub accept_started-IsConsistent :
    (settings : NetSettings) (s : Server)
    → IsConsistent s
    → s.next_id + 2 < 2 ^ 32
    → IsConsistent (accept_started settings s).1
unfolding accept_started start
accept_started-IsConsistent settings s c h =
    SameBooks-IsConsistent (reply-SameBooks (accept s).0 (connection_hint settings) (accept s).1)
      (accept-IsConsistent s c h)
