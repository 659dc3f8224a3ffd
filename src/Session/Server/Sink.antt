-- ===== src/Session/Server/Sink.antt =====
-- src/session/session_server.cpp as the event_sink of its proudnet::server. The user_data of a peer
-- ends with the peer, which the server drops right after on_client_leave.
mod Tests
use hovorun.Prelude.{
  ◌∙◌, if◌then◌else◌, ◌==◌, ◌+◌, ◌%◌, if_elim, Option-cases, Bool-cases, ℕ, ◌≡◌, refl, inl, inr,
  Option, none, some, List,
}
use hovorun.Containers.TextMap
use hovorun.Containers.TextMap.{TextMap}
use hovorun.Containers.IdMap
use hovorun.Containers.IdMap.{IdMap}
use hovorun.Net.Message.Reader.{Result-cases, read_u8}
use hovorun.Net.Framing.{Buffer}
use hovorun.Net.Framing.Drain.{read_loop}
use hovorun.Proudnet.Peer.{Peer, State, is_connected, is_closed}
use hovorun.Proudnet.Peer.Handshake.{Connection}
use hovorun.Proudnet.Server
use hovorun.Proudnet.Server.{Server, find}
use hovorun.Proudnet.Server.Books.{SameBooks, SameBooks-refl, SameBooks-trans, has-find}
use hovorun.Proudnet.Server.Consistent.{IsConsistent, is_peer, SameBooks-IsConsistent}
use hovorun.Proudnet.Server.CoreMessages.{reply}
use hovorun.Proudnet.Server.CoreMessages.Kept.{reply-SameBooks}
use hovorun.Proudnet.Server.Reach.{on_peer_closed-IsConsistent}
use hovorun.Proudnet.Loop.{Events, Environment, peer_sink}
use hovorun.Proudnet.Loop.Kept.{IsLawful, put_peer-SameBooks, read_loop-IsConsistent}
use hovorun.App.Accounts
use hovorun.App.Accounts.{AccountStore, LoginResult, Accounts}
use hovorun.Session.Clss
use hovorun.Session.Sscl
use hovorun.Session.Server.{
  Config, SessionUser, SessionServer, logon_answer, send_logon_answer, leave_online, leave_user,
  on_client_leave, kick_message, kick, logged_on, answer_login, logon, close_peer, close,
  read_logon, change_nation_to, on_rmi,
}

-- The session server without its proudnet::server.
pub record SessionState : Type 0 where
  pub accounts : AccountStore
  pub online : TextMap ℕ
  pub users : IdMap SessionUser

abbrev pub joined : Server × SessionState → SessionServer
joined (net, g) = record { net = net; accounts = g.accounts; online = g.online; users = g.users }

abbrev pub parted : SessionServer → Server × SessionState
parted s = (s.net, record { accounts = s.accounts; online = s.online; users = s.users })

abbrev pub without_user : ℕ → SessionServer → SessionServer
without_user client s = record s { users = IdMap.remove client s.users }

unfoldable pub session_events : Config → Events SessionState
unfolding on_client_leave on_rmi
session_events config = record {
  on_client_join = λ id w. w;
  on_client_leave = λ id w. parted (without_user id (on_client_leave id (joined w)));
  on_rmi = λ id rmi_id r w. parted (on_rmi config id rmi_id r (joined w));
}

leave_online-net :
    (client : ℕ) (name : List ℕ) (o : Option ℕ) (s : SessionServer)
    → (leave_online client name o s).net ≡ s.net
leave_online-net client name none s = refl
leave_online-net client name (some id) s =
    if_elim (λ (t : SessionServer). t.net ≡ s.net) (id == client) (λ _. refl) (λ _. refl)

on_client_leave-net : (client : ℕ) (s : SessionServer) → (on_client_leave client s).net ≡ s.net
unfolding on_client_leave
on_client_leave-net client s = elim (Option-cases (IdMap.find client s.users)) [
  | inl e ↦ rw (on_client_leave, e) refl
  | inr (u, e) ↦
      rw (on_client_leave, e)
        (leave_online-net client u.username (TextMap.find u.username s.online) s)
]

send_logon_answer-SameBooks :
    (config : Config) (client rmi nation result : ℕ) (s : SessionServer)
    → SameBooks s.net (send_logon_answer config client rmi nation result s).net
unfolding send_logon_answer
send_logon_answer-SameBooks config client rmi nation result s =
    reply-SameBooks client (logon_answer config rmi nation result) s.net

kick-SameBooks : (client : ℕ) (old : Option ℕ) (net : Server) → SameBooks net (kick client old net)
kick-SameBooks client none net = SameBooks-refl net
kick-SameBooks client (some old) net =
    if_elim (SameBooks net) (old == client) (λ _. SameBooks-refl net)
      (λ _. reply-SameBooks old kick_message net)

answer_login-SameBooks :
    (config : Config) (client : ℕ) (user : List ℕ) (r : LoginResult) (s : SessionServer)
    → SameBooks s.net (answer_login config client user r s).net
answer_login-SameBooks config client user LoginResult.wrong_password s =
    send_logon_answer-SameBooks config client Sscl.user_logon 1 Sscl.result_wrong_password s
answer_login-SameBooks config client user LoginResult.unknown_user s =
    send_logon_answer-SameBooks config client Sscl.user_logon 1 Sscl.result_wrong_password s
answer_login-SameBooks config client user LoginResult.ok s =
    SameBooks-trans (kick-SameBooks client (TextMap.find user s.online) s.net)
      (send_logon_answer-SameBooks config client Sscl.user_logon 1 Sscl.result_ok _)

logon-SameBooks :
    (config : Config) (client : ℕ) (user password : List ℕ) (s : SessionServer)
    → SameBooks s.net (logon config client user password s).net
unfolding logon
logon-SameBooks config client user password s =
    let r = Accounts.login user password s.accounts in
    answer_login-SameBooks config client user r.0 (record s { accounts = r.1 })

change_nation_to-SameBooks :
    (config : Config) (client nation : ℕ) (u : Option SessionUser) (s : SessionServer)
    → SameBooks s.net (change_nation_to config client nation u s).net
unfolding change_nation_to
change_nation_to-SameBooks config client nation none s = SameBooks-refl s.net
change_nation_to-SameBooks config client nation (some u) s =
    let now = (nation + 1) % 256 in
    send_logon_answer-SameBooks config client Sscl.change_nation now Sscl.result_ok
      (record s { users = IdMap.put client (record u { nation = now }) s.users })

-- What close_peer hands to on_client_leave.
abbrev marked : ℕ → Peer → SessionServer → SessionServer
marked client p s = record s {
  net = record s.net { peers = IdMap.put client (record p { state = State.closed }) s.net.peers };
}

left-net :
    (client : ℕ) (p : Peer) (s : SessionServer)
    → (if is_connected p.state
        then on_client_leave client (marked client p s)
        else marked client p s).net
      ≡ (marked client p s).net
left-net client p s =
    if_elim (λ (t : SessionServer). t.net ≡ (marked client p s).net) (is_connected p.state)
      (λ _. on_client_leave-net client (marked client p s)) (λ _. refl)

close_open-IsConsistent :
    (client : ℕ) (p : Peer) (s : SessionServer)
    → find client s.net ≡ some p
    → IsConsistent s.net
    → IsConsistent (Server.on_peer_closed client (marked client p s).net)
close_open-IsConsistent client p s e c =
    let b = put_peer-SameBooks client p (record p { state = State.closed }) s.net e in
    on_peer_closed-IsConsistent client _ (SameBooks-IsConsistent b c)
      (b.peers client ∙ has-find client s.net p e)

close-IsConsistent :
    (client : ℕ) (s : SessionServer) → IsConsistent s.net → IsConsistent (close client s).net
unfolding close close_peer
close-IsConsistent client s c = elim (Option-cases (find client s.net)) [
  | inl e ↦ rw (close, close_peer, e) c
  | inr (p, e) ↦ elim (Bool-cases (is_closed p.state)) [
    | inl q ↦ rw (close, close_peer, e) (rw (q) c)
    | inr q ↦
        rw (close, close_peer, e)
          (rw (q, left-net client p s) (close_open-IsConsistent client p s e c))
  ]
]

on_rmi-IsConsistent :
    (config : Config) (client rmi_id : ℕ) (params : List ℕ) (s : SessionServer)
    → IsConsistent s.net
    → IsConsistent (on_rmi config client rmi_id params s).net
unfolding on_rmi
on_rmi-IsConsistent config client rmi_id params s c = elim (Bool-cases (rmi_id == Clss.logon)) [
  | inl q ↦ elim (Result-cases (read_logon params)) [
    | inl (x, e) ↦ rw (on_rmi, q, e) c
    | inr (((user, password), rest), e) ↦
        rw (on_rmi, q, e) (SameBooks-IsConsistent (logon-SameBooks config client user password s) c)
  ]
  | inr q ↦ elim (Bool-cases (rmi_id == Clss.change_nation)) [
    | inl q' ↦ elim (Result-cases (read_u8 params)) [
      | inl (x, e) ↦ rw (on_rmi, q, q', e) c
      | inr ((nation, rest), e) ↦
          rw (on_rmi, q, q', e)
            (SameBooks-IsConsistent
              (change_nation_to-SameBooks config client nation (IdMap.find client s.users) s) c)
    ]
    | inr q' ↦ elim (Bool-cases (rmi_id == Clss.logout)) [
      | inl t ↦ rw (on_rmi, q, q', t) (close-IsConsistent client s c)
      | inr t ↦ rw (on_rmi, q, q', t) c
    ]
  ]
]

session_events-IsLawful : (config : Config) → IsLawful (session_events config)
unfolding session_events
session_events-IsLawful config = record {
  join = λ id w c. c;
  leave = λ id w c. rw (on_client_leave-net id (joined w)) c;
  leave_peer = λ id w h. rw (on_client_leave-net id (joined w)) h;
  rmi = λ id rmi_id r w c. on_rmi-IsConsistent config id rmi_id r (joined w) c;
}

-- What the connections of the session server take from outside.
abbrev pub session_environment :
    Config → (Server → ℕ) → (ℕ → Server → Connection) → Environment SessionState
session_environment config server_time connection = record {
  events = session_events config;
  server_time = server_time;
  connection = connection;
}

-- Whatever the bytes that a connection of the session server reads, and however they are cut, the books
-- of its proudnet::server are consistent after them if they were before: after frames good and bad, the
-- handshake, the messages to the server, logons, changes of nation, kicks of older sessions and logouts.
pub read_loop-session_environment-IsConsistent :
    (config : Config) (server_time : Server → ℕ) (connection : ℕ → Server → Connection) (id : ℕ)
    (chunks : List (List ℕ)) (w : Server × SessionState) (buffer : Buffer)
    → IsConsistent w.0
    → IsConsistent
        (read_loop
          (peer_sink (session_environment config server_time connection) id)
          (w, buffer)
          chunks).0.0
read_loop-session_environment-IsConsistent config server_time connection id chunks w buffer c =
    read_loop-IsConsistent (session_environment config server_time connection)
      (session_events-IsLawful config) id chunks w buffer c
