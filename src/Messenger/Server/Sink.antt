-- ===== src/Messenger/Server/Sink.antt =====
-- src/messenger/messenger_server.cpp as the event_sink of its proudnet::server.
mod Tests
use hovorun.Prelude.{
  ◌==◌, ◌∙◌, ◌≡◌, if◌then◌else◌, if_elim, Option-cases, Bool-cases, ℕ, refl, inl, inr, Option, none,
  some, List,
}
use hovorun.Containers.TextMap
use hovorun.Containers.TextMap.{TextMap}
use hovorun.Containers.TextSet.{TextSet}
use hovorun.Containers.IdMap
use hovorun.Containers.IdMap.{IdMap}
use hovorun.Net.Message.Reader.{Result-cases}
use hovorun.Net.Framing.{Buffer}
use hovorun.Net.Framing.Drain.{read_loop}
use hovorun.Proudnet.Peer.{Peer, State, is_connected, is_closed}
use hovorun.Proudnet.Peer.Handshake.{Connection}
use hovorun.Proudnet.Server
use hovorun.Proudnet.Server.{Server, find}
use hovorun.Proudnet.Server.Books.{SameBooks, SameBooks-refl, SameBooks-trans, has-find}
use hovorun.Proudnet.Server.Consistent.{IsConsistent, is_peer, SameBooks-IsConsistent}
use hovorun.Proudnet.Server.CoreMessages.Kept.{reply-SameBooks}
use hovorun.Proudnet.Server.Reach.{on_peer_closed-IsConsistent}
use hovorun.Proudnet.Loop.{Events, Environment, peer_sink}
use hovorun.Proudnet.Loop.Kept.{IsLawful, put_peer-SameBooks, read_loop-IsConsistent}
use hovorun.App.Accounts
use hovorun.App.Accounts.{Account, AccountStore, LoginResult, Accounts}
use hovorun.Messenger.Clms
use hovorun.Messenger.Messages
use hovorun.Messenger.Server.{
  MessengerUser, MessengerServer, online, friends_of, notify_loop, on_client_leave, close_peer,
  close_old, new_user, answer, infos, logged_on, answer_login, logon, read_logon, on_logon,
}
use hovorun.Messenger.Server.Dispatch.{on_rmi}
use hovorun.Messenger.Server.Quiet.{notify_loop-SameBooks, run-SameBooks}

-- The messenger server without its proudnet::server.
pub record MessengerState : Type 0 where
  pub accounts : AccountStore
  pub users : IdMap MessengerUser
  pub friendships : TextMap TextSet

abbrev pub joined : Server × MessengerState → MessengerServer
joined (net, g) = record {
  net = net;
  accounts = g.accounts;
  users = g.users;
  friendships = g.friendships;
}

abbrev pub parted : MessengerServer → Server × MessengerState
parted s = (s.net, record { accounts = s.accounts; users = s.users; friendships = s.friendships })

unfoldable pub messenger_events : List ℕ → Events MessengerState
unfolding on_client_leave on_rmi
messenger_events date = record {
  on_client_join = λ id w. w;
  on_client_leave = λ id w. parted (on_client_leave id (joined w));
  on_rmi = λ id rmi_id r w. parted (on_rmi date id rmi_id r (joined w));
}

on_client_leave-SameBooks :
    (client : ℕ) (s : MessengerServer) → SameBooks s.net (on_client_leave client s).net
unfolding on_client_leave
on_client_leave-SameBooks client s = elim (Option-cases (IdMap.find client s.users)) [
  | inl e ↦ rw (on_client_leave, e) (SameBooks-refl s.net)
  | inr (u, e) ↦
      rw (on_client_leave, e)
        (notify_loop-SameBooks u Messages.state_offline
          (friends_of u.account.username s.friendships) (IdMap.remove client s.users) s.net)
]

-- What close_peer hands to on_client_leave.
abbrev marked : ℕ → Peer → MessengerServer → MessengerServer
marked client p s = record s {
  net = record s.net { peers = IdMap.put client (record p { state = State.closed }) s.net.peers };
}

close_open-IsConsistent :
    (client : ℕ) (p : Peer) (s : MessengerServer)
    → find client s.net ≡ some p
    → IsConsistent s.net
    → IsConsistent (
        Server.on_peer_closed client
          (if is_connected p.state
            then on_client_leave client (marked client p s)
            else marked client p s).net)
close_open-IsConsistent client p s e c =
    let b = put_peer-SameBooks client p (record p { state = State.closed }) s.net e in
    let peer = b.peers client ∙ has-find client s.net p e in
    let left = on_client_leave-SameBooks client (marked client p s) in
    if_elim (λ (t : MessengerServer). IsConsistent (Server.on_peer_closed client t.net))
      (is_connected p.state)
      (λ _.
        on_peer_closed-IsConsistent client _ (SameBooks-IsConsistent (SameBooks-trans b left) c)
          (left.peers client ∙ peer))
      (λ _. on_peer_closed-IsConsistent client _ (SameBooks-IsConsistent b c) peer)

close_peer-IsConsistent :
    (client : ℕ) (s : MessengerServer)
    → IsConsistent s.net
    → IsConsistent (close_peer client (find client s.net) s).net
unfolding close_peer
close_peer-IsConsistent client s c = elim (Option-cases (find client s.net)) [
  | inl e ↦ rw (close_peer, e) c
  | inr (p, e) ↦ elim (Bool-cases (is_closed p.state)) [
    | inl q ↦ rw (close_peer, e) (rw (q) c)
    | inr q ↦ rw (close_peer, e) (rw (q) (close_open-IsConsistent client p s e c))
  ]
]

close_old-IsConsistent :
    (o : Option MessengerUser) (s : MessengerServer)
    → IsConsistent s.net
    → IsConsistent (close_old o s).net
close_old-IsConsistent none s c = c
close_old-IsConsistent (some old) s c = close_peer-IsConsistent old.host s c

logged_on-IsConsistent :
    (client : ℕ) (user : List ℕ) (account : Account) (s : MessengerServer)
    → IsConsistent s.net
    → IsConsistent (logged_on client user account s).net
unfolding logged_on
logged_on-IsConsistent client user account s c =
    let closed = close_old (online user s) s in
    let u = new_user client account in
    let entered = record closed { users = IdMap.put client u closed.users } in
    let welcome = Messages.logon_mscl account.index Messages.ok_code in
    let welcomed = answer client welcome entered in
    let list = Messages.add_friend_info (infos (friends_of user welcomed.friendships) welcomed) in
    let told = answer client list welcomed in
    SameBooks-IsConsistent
      (SameBooks-trans (reply-SameBooks client welcome entered.net) (
        SameBooks-trans (reply-SameBooks client list welcomed.net) (
          notify_loop-SameBooks u Messages.state_online
            (friends_of account.username told.friendships) told.users told.net)))
      (close_old-IsConsistent (online user s) s c)

answer_login-IsConsistent :
    (client : ℕ) (user : List ℕ) (result : LoginResult) (found : Option Account)
    (s : MessengerServer)
    → IsConsistent s.net
    → IsConsistent (answer_login client user result found s).net
answer_login-IsConsistent client user LoginResult.ok none s c =
    SameBooks-IsConsistent (reply-SameBooks client _ s.net) c
answer_login-IsConsistent client user LoginResult.ok (some account) s c =
    logged_on-IsConsistent client user account s c
answer_login-IsConsistent client user LoginResult.wrong_password found s c =
    SameBooks-IsConsistent (reply-SameBooks client _ s.net) c
answer_login-IsConsistent client user LoginResult.unknown_user found s c =
    SameBooks-IsConsistent (reply-SameBooks client _ s.net) c

on_logon-IsConsistent :
    (client : ℕ) (params : List ℕ) (s : MessengerServer)
    → IsConsistent s.net
    → IsConsistent (on_logon client params s).net
unfolding on_logon logon
on_logon-IsConsistent client params s c = elim (Result-cases (read_logon params)) [
  | inl (e, q) ↦ rw (q, on_logon) c
  | inr (((user, password), rest), q) ↦
      rw (q, on_logon, logon)
        (answer_login-IsConsistent client user (Accounts.login user password s.accounts).0
          (Accounts.find user s.accounts)
          (record s { accounts = (Accounts.login user password s.accounts).1 }) c)
]

on_rmi-IsConsistent :
    (date : List ℕ) (client rmi_id : ℕ) (params : List ℕ) (s : MessengerServer)
    → IsConsistent s.net
    → IsConsistent (on_rmi date client rmi_id params s).net
unfolding on_rmi
on_rmi-IsConsistent date client rmi_id params s c =
    if_elim (λ (t : MessengerServer). IsConsistent t.net) (rmi_id == Clms.logon_clms)
      (λ _. on_logon-IsConsistent client params s c)
      (λ _.
        if_elim (λ (t : MessengerServer). IsConsistent t.net) (rmi_id == Clms.cl2ms_test) (λ _. c)
          (λ _. SameBooks-IsConsistent (run-SameBooks date client rmi_id params s) c))

messenger_events-IsLawful : (date : List ℕ) → IsLawful (messenger_events date)
unfolding messenger_events
messenger_events-IsLawful date = record {
  join = λ id w c. c;
  leave = λ id w c. SameBooks-IsConsistent (on_client_leave-SameBooks id (joined w)) c;
  leave_peer = λ id w h. (on_client_leave-SameBooks id (joined w)).peers id ∙ h;
  rmi = λ id rmi_id r w c. on_rmi-IsConsistent date id rmi_id r (joined w) c;
}

-- What the connections of the messenger server take from outside.
abbrev pub messenger_environment :
    List ℕ → (Server → ℕ) → (ℕ → Server → Connection) → Environment MessengerState
messenger_environment date server_time connection = record {
  events = messenger_events date;
  server_time = server_time;
  connection = connection;
}

-- Whatever the bytes that a connection of the messenger server reads, and however they are cut, the
-- books of its proudnet::server are consistent after them if they were before: after frames good and
-- bad, the handshake, the messages to the server, every RMI, and a logon that closes an older
-- connection of the same user.
pub read_loop-messenger_environment-IsConsistent :
    (date : List ℕ) (server_time : Server → ℕ) (connection : ℕ → Server → Connection) (id : ℕ)
    (chunks : List (List ℕ)) (w : Server × MessengerState) (buffer : Buffer)
    → IsConsistent w.0
    → IsConsistent
        (read_loop
          (peer_sink (messenger_environment date server_time connection) id)
          (w, buffer)
          chunks).0.0
read_loop-messenger_environment-IsConsistent date server_time connection id chunks w buffer c =
    read_loop-IsConsistent (messenger_environment date server_time connection)
      (messenger_events-IsLawful date) id chunks w buffer c
