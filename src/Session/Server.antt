-- ===== src/Session/Server.antt =====
-- src/session/session_server.cpp, over the state of its proudnet::server and its own. `users` is the
-- user_data of the peers, by their ids; it goes with the peer.
pub mod Online
pub mod Sink
mod Tests
use hovorun.Prelude.{◌==◌, if◌then◌else◌, ℕ, ◌+◌, ◌%◌, Option, none, some, List}
use hovorun.Containers.TextMap
use hovorun.Containers.TextMap.{TextMap}
use hovorun.Containers.IdMap
use hovorun.Containers.IdMap.{IdMap}
use hovorun.Net.Message.Writer.{Writer, ◌▹◌, write_u8, write_u16, write_text}
use hovorun.Net.Message.Reader.{Reads, pure, ◌>>=◌, read_u8, read_string, ok, err}
use hovorun.Proudnet.Types.{rmi_begin}
use hovorun.Proudnet.Peer.{Peer, State, is_connected, is_closed}
use hovorun.Proudnet.Server
use hovorun.Proudnet.Server.{Server}
use hovorun.Proudnet.Server.CoreMessages.{reply}
use hovorun.App.Accounts
use hovorun.App.Accounts.{AccountStore, LoginResult, Accounts}
use hovorun.Session.Clss
use hovorun.Session.Sscl

pub record Config : Type 0 where
  pub game_public_ip : List ℕ
  pub game_port : ℕ

pub record SessionUser : Type 0 where
  pub username : List ℕ
  pub nation : ℕ

pub record SessionServer : Type 0 where
  pub net : Server
  pub accounts : AccountStore
  pub online : TextMap ℕ
  pub users : IdMap SessionUser

pub logon_answer : Config → ℕ → ℕ → ℕ → Writer
logon_answer config rmi nation result =
    rmi_begin rmi
    ▹ write_u8 nation
    ▹ write_text config.game_public_ip
    ▹ write_u16 config.game_port
    ▹ write_u16 result

unfoldable pub send_logon_answer : Config → ℕ → ℕ → ℕ → ℕ → SessionServer → SessionServer
unfolding logon_answer
send_logon_answer config client rmi nation result s = record s {
  net = reply client (logon_answer config rmi nation result) s.net;
}

abbrev leave_online : ℕ → List ℕ → Option ℕ → SessionServer → SessionServer
leave_online client username none s = s
leave_online client username (some id) s =
    if id == client then record s { online = TextMap.remove username s.online } else s

abbrev leave_user : ℕ → Option SessionUser → SessionServer → SessionServer
leave_user client none s = s
leave_user client (some user) s =
    leave_online client user.username (TextMap.find user.username s.online) s

unfoldable pub on_client_leave : ℕ → SessionServer → SessionServer
on_client_leave client s = leave_user client (IdMap.find client s.users) s

pub kick_message : Writer
kick_message = rmi_begin Sscl.forced_close ▹ write_u16 Sscl.forced_close_duplicate_login

-- Kick an older session of the same account.
abbrev kick : ℕ → Option ℕ → Server → Server
kick client none net = net
kick client (some old) net = if old == client then net else reply old kick_message net

abbrev logged_on : Config → ℕ → List ℕ → SessionServer → SessionServer
logged_on config client user s =
    send_logon_answer config client Sscl.user_logon 1 Sscl.result_ok (record s {
      net = kick client (TextMap.find user s.online) s.net;
      online = TextMap.put user client s.online;
      users = IdMap.put client (record { username = user; nation = 1 }) s.users;
    })

abbrev answer_login : Config → ℕ → List ℕ → LoginResult → SessionServer → SessionServer
answer_login config client user LoginResult.wrong_password s =
    send_logon_answer config client Sscl.user_logon 1 Sscl.result_wrong_password s
answer_login config client user LoginResult.unknown_user s =
    send_logon_answer config client Sscl.user_logon 1 Sscl.result_wrong_password s
answer_login config client user LoginResult.ok s = logged_on config client user s

unfoldable pub logon : Config → ℕ → List ℕ → List ℕ → SessionServer → SessionServer
logon config client user password s =
    let r = Accounts.login user password s.accounts in
    answer_login config client user r.0 (record s { accounts = r.1 })

-- peer::close for a peer of this server, with its callback and the end of the peer's user_data.
close_peer : ℕ → Option Peer → SessionServer → SessionServer
unfolding on_client_leave
close_peer client none s = s
close_peer client (some p) s =
    if is_closed p.state
    then s
    else let marked = record s {
      net = record s.net {
        peers = IdMap.put client (record p { state = State.closed }) s.net.peers;
      };
    } in
      let left = if is_connected p.state then on_client_leave client marked else marked in
      record left {
        net = Server.on_peer_closed client left.net;
        users = IdMap.remove client left.users;
      }

pub close : ℕ → SessionServer → SessionServer
unfolding close_peer
close client s = close_peer client (Server.find client s.net) s

read_logon : Reads (List ℕ × List ℕ)
unfolding ◌>>=◌ pure
read_logon = do user ← read_string; password ← read_string; pure (user, password)

-- The value that the client expects back counts from 1.
change_nation_to : Config → ℕ → ℕ → Option SessionUser → SessionServer → SessionServer
unfolding send_logon_answer
change_nation_to config client nation none s = s
change_nation_to config client nation (some user) s =
    let now = (nation + 1) % 256 in
    send_logon_answer config client Sscl.change_nation now Sscl.result_ok
      (record s { users = IdMap.put client (record user { nation = now }) s.users })

-- The result is whether the id is known, which decides what is logged.
pub on_rmi : Config → ℕ → ℕ → List ℕ → SessionServer → SessionServer
unfolding logon close change_nation_to read_logon
on_rmi config client rmi_id params s =
    if rmi_id == Clss.logon
    then elim (read_logon params) [
      | err e ↦ s
      | ok ((user, password), rest) ↦ logon config client user password s
    ]
    else if rmi_id == Clss.change_nation
    then elim (read_u8 params) [
      | err e ↦ s
      | ok (nation, rest) ↦ change_nation_to config client nation (IdMap.find client s.users) s
    ]
    else if rmi_id == Clss.logout
    then close client s
    else s
