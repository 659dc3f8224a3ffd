-- ===== src/Messenger/Server.antt =====
-- src/messenger/messenger_server.cpp: who is online, friends, and logons. Sets and maps of strings are
-- keyed by their bytes; an entry of m_friendships that operator[] makes is an empty set, as one that
-- is not there.
pub mod Dispatch
pub mod Friends
pub mod Friendly
pub mod Friendship
pub mod Quiet
pub mod Sink
pub mod Spec
mod Tests
use hovorun.Prelude.{◌==◌, if◌then◌else◌, is_none, ℕ, false, Option, none, some, List, [], ◌∷◌, map}
use hovorun.Containers.IdMap
use hovorun.Containers.IdMap.{IdMap}
use hovorun.Containers.TextMap
use hovorun.Containers.TextMap.{TextMap, same_text}
use hovorun.Containers.TextSet
use hovorun.Containers.TextSet.{TextSet}
use hovorun.Net.Message.Writer.{Writer}
use hovorun.Net.Message.Reader.{Reads, pure, ◌>>=◌, read_string, ok, err}
use hovorun.Proudnet.Peer.{Peer, State, is_connected, is_closed, closed}
use hovorun.Proudnet.Server
use hovorun.Proudnet.Server.{Server}
use hovorun.Proudnet.Server.CoreMessages.{reply}
use hovorun.App.Accounts
use hovorun.App.Accounts.{Account, AccountStore, LoginResult, Accounts}
use hovorun.Messenger.Messages

pub record MessengerUser : Type 0 where
  pub host : ℕ
  pub account : Account
  pub room : ℕ
  pub position_a : ℕ
  pub position_b : ℕ
  pub pending_requests : TextSet

pub record MessengerServer : Type 0 where
  pub net : Server
  pub accounts : AccountStore
  pub users : IdMap MessengerUser
  pub friendships : TextMap TextSet

-- The loop of online over the users.
unfoldable pub named : List ℕ → IdMap MessengerUser → Option MessengerUser
named username [] = none
named username ((host, u) ∷ users) =
    let rest = named username users in
    if same_text u.account.username username then some u else rest

abbrev pub online : List ℕ → MessengerServer → Option MessengerUser
online username s = named username s.users

unfoldable pub indexed : ℕ → IdMap MessengerUser → Option MessengerUser
indexed index [] = none
indexed index ((host, u) ∷ users) =
    let rest = indexed index users in if u.account.index == index then some u else rest

abbrev pub by_index : ℕ → MessengerServer → Option MessengerUser
by_index index s = indexed index s.users

abbrev set_or_empty : Option TextSet → TextSet
set_or_empty none = []
set_or_empty (some friends) = friends

-- m_friendships[username]
abbrev pub friends_of : List ℕ → TextMap TextSet → TextSet
friends_of username friendships = set_or_empty (TextMap.find username friendships)

abbrev pub send : ℕ → Writer → MessengerServer → MessengerServer
send to message s = record s { net = Server.send to message false s.net }

-- A message to a user that may not be online.
abbrev pub send_found : Option MessengerUser → Writer → Server → Server
send_found none message net = net
send_found (some other) message net = Server.send other.host message false net

-- The lookups of write_friend_info.
abbrev room_of : Option MessengerUser → ℕ
room_of none = 0
room_of (some u) = u.room

abbrev index_of : Option Account → ℕ
index_of none = 0
index_of (some account) = account.index

abbrev position_a_of : Option MessengerUser → ℕ
position_a_of none = 0
position_a_of (some u) = u.position_a

abbrev position_b_of : Option MessengerUser → ℕ
position_b_of none = 0
position_b_of (some u) = u.position_b

abbrev pub friend_info : List ℕ → MessengerServer → Messages.FriendInfo
friend_info username s = record {
  room = room_of (online username s);
  index = index_of (Accounts.find username s.accounts);
  username = username;
  position_a = position_a_of (online username s);
  position_b = position_b_of (online username s);
  online = if is_none (online username s) then 0 else 1;
}

-- The loop of notify_friends_state over the friends.
unfoldable pub notify_loop : MessengerUser → ℕ → TextSet → IdMap MessengerUser → Server → Server
unfolding named
notify_loop u state [] users net = net
notify_loop u state (f ∷ friends) users net =
    notify_loop u state friends users
      (send_found (named f users) (Messages.change_state u.host u.account.index state) net)

abbrev pub notify_friends_state : MessengerUser → ℕ → MessengerServer → MessengerServer
notify_friends_state u state s = record s {
  net = notify_loop u state (friends_of u.account.username s.friendships) s.users s.net;
}

abbrev leave_user : ℕ → Option MessengerUser → MessengerServer → MessengerServer
leave_user client none s = s
leave_user client (some u) s =
    notify_friends_state u Messages.state_offline (record s { users = IdMap.remove client s.users })

unfoldable pub on_client_leave : ℕ → MessengerServer → MessengerServer
unfolding notify_loop
on_client_leave client s = leave_user client (IdMap.find client s.users) s

-- peer::close for a peer of this server, with its callback.
unfoldable pub close_peer : ℕ → Option Peer → MessengerServer → MessengerServer
unfolding on_client_leave
close_peer client none s = s
close_peer client (some p) s =
    if is_closed p.state
    then s
    else let marked = record s {
      net = record s.net {
        peers = IdMap.put client (record p { state = State.closed }) s.net.peers;
      };
    } in
      let left = if is_connected p.state then on_client_leave client marked else marked in
      record left { net = Server.on_peer_closed client left.net }

abbrev pub close_old : Option MessengerUser → MessengerServer → MessengerServer
close_old none s = s
close_old (some old) s = close_peer old.host (Server.find old.host s.net) s

abbrev pub new_user : ℕ → Account → MessengerUser
new_user host account = record {
  host = host;
  account = account;
  room = 0;
  position_a = 0;
  position_b = 0;
  pending_requests = [];
}

-- client.send; a client that logon closed gets nothing.
abbrev answer : ℕ → Writer → MessengerServer → MessengerServer
answer client message s = record s { net = reply client message s.net }

abbrev pub infos : List (List ℕ) → MessengerServer → List Messages.FriendInfo
infos names s = map (λ name. friend_info name s) names

unfoldable pub logged_on : ℕ → List ℕ → Account → MessengerServer → MessengerServer
unfolding named close_peer
logged_on client user account s =
    let closed = close_old (online user s) s in
    let u = new_user client account in
    let entered = record closed { users = IdMap.put client u closed.users } in
    let welcomed = answer client (Messages.logon_mscl account.index Messages.ok_code) entered in
    let told =
      answer client
        (Messages.add_friend_info (infos (friends_of user welcomed.friendships) welcomed))
        welcomed in
    notify_friends_state u Messages.state_online told

abbrev pub answer_login :
    ℕ → List ℕ → LoginResult → Option Account → MessengerServer → MessengerServer
answer_login client user LoginResult.ok none s = answer client (Messages.logon_mscl 0 1) s
answer_login client user LoginResult.ok (some account) s = logged_on client user account s
answer_login client user LoginResult.wrong_password found s =
    answer client (Messages.logon_mscl 0 1) s
answer_login client user LoginResult.unknown_user found s =
    answer client (Messages.logon_mscl 0 1) s

-- The account is looked up before login may register it.
unfoldable pub logon : ℕ → List ℕ → List ℕ → MessengerServer → MessengerServer
unfolding logged_on
logon client user password s =
    let r = Accounts.login user password s.accounts in
    answer_login client user r.0 (Accounts.find user s.accounts) (record s { accounts = r.1 })

unfoldable pub read_logon : Reads (List ℕ × List ℕ)
unfolding ◌>>=◌ pure
read_logon = do user ← read_string; password ← read_string; pure (user, password)

unfoldable pub on_logon : ℕ → List ℕ → MessengerServer → MessengerServer
unfolding logon read_logon
on_logon client params s = elim (read_logon params) [
  | err e ↦ s
  | ok ((user, password), rest) ↦ logon client user password s
]
