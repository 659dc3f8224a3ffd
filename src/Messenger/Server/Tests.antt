-- ===== src/Messenger/Server/Tests.antt =====
-- src/messenger/messenger_server.cpp: small runs of the server, and the theorems at them.
use hovorun.Prelude.{replicate, ℕ, ◌≡◌, refl, true, ◌&&◌, ◌||◌, List, [], ◌∷◌}
use hovorun.Containers.IdMap
use hovorun.Containers.TextMap
use hovorun.Containers.TextSet
use hovorun.Net.Message.Writer.{Writer, ◌▹◌, write_u8, write_text}
use hovorun.Proudnet.Peer.{Peer, State, new_peer}
use hovorun.Proudnet.Server.{init}
use hovorun.App.Accounts
use hovorun.App.Accounts.{Account, Accounts}
use hovorun.Messenger.Clms
use hovorun.Messenger.Server.{
  MessengerUser, MessengerServer, named, notify_loop, on_client_leave, close_peer, new_user,
  logged_on, logon,
}
use hovorun.Messenger.Server.Friends.{answer_friend}
use hovorun.Messenger.Server.Friendship.{is_friend, are, answer_friend-is_friend}
use hovorun.Messenger.Server.Friendly.{IsFriendly}
use hovorun.Messenger.Server.Friendly.Dispatch.{on_rmi-IsFriendly}
use hovorun.Messenger.Server.Dispatch.{on_rmi}
use hovorun.Messenger.Server.Spec.{Step, friends}
use hovorun.Messenger.Server.Spec.Refines.{on_rmi-Step}
use hovorun.Containers.TextMap.{TextMap}
use hovorun.Containers.IdMap.{IdMap}
use hovorun.Containers.TextSet.{TextSet}

abbrev bob : List ℕ
bob = 98 ∷ 111 ∷ 98 ∷ []

abbrev al : List ℕ
al = 97 ∷ 108 ∷ []

abbrev account_of : ℕ → List ℕ → Account
account_of index name = record { index = index; username = name; password = name }

abbrev linked : Peer
linked = record new_peer { state = State.connected }

-- bob, whom al asked to be its friend.
abbrev asked_bob : MessengerUser
asked_bob = record (new_user 3 (account_of 1 bob)) { pending_requests = al ∷ [] }

abbrev some_server : MessengerServer
some_server = record {
  net = record (init (replicate 16 7)) { peers = (3, linked) ∷ (4, linked) ∷ []; next_id = 5 };
  accounts = record {
    file = [];
    auto_register = true;
    accounts = (bob, account_of 1 bob) ∷ (al, account_of 2 al) ∷ [];
  };
  users = (3, asked_bob) ∷ (4, new_user 4 (account_of 2 al)) ∷ [];
  friendships = [];
}

some_server-IsFriendly : IsFriendly some_server
unfolding TextMap.find TextSet.contains TextMap.same_text
some_server-IsFriendly = record {
  both = λ a b. refl;
  others = λ a. refl;
  asked = (refl, (refl, tt));
}

abbrev accepts_al : Writer
accepts_al = [] ▹ write_text al ▹ write_u8 1

on_rmi-IsFriendly_example : IsFriendly (on_rmi [] 3 Clms.agree_friend_answer accepts_al some_server)
on_rmi-IsFriendly_example =
    on_rmi-IsFriendly [] 3 Clms.agree_friend_answer accepts_al some_server some_server-IsFriendly

answer_friend-is_friend_example :
    is_friend al bob (answer_friend asked_bob al true some_server).friendships ≡ (
      (TextSet.contains al asked_bob.pending_requests && true && are bob al al bob)
      || is_friend al bob some_server.friendships)
answer_friend-is_friend_example = answer_friend-is_friend asked_bob al al bob true some_server

-- A client that logs on again on the same connection is closed, and then entered as a user once more.
ghost_after_second_logon : IdMap.has 3 (logon 3 bob bob some_server).users ≡ true
unfolding logon logged_on named close_peer on_client_leave notify_loop IdMap.has IdMap.find
    IdMap.put IdMap.remove TextMap.find TextMap.same_text Accounts.login
ghost_after_second_logon = refl

on_rmi-Step_example :
    Step
      (friends some_server)
      (friends (on_rmi [] 3 Clms.agree_friend_answer accepts_al some_server))
on_rmi-Step_example =
    on_rmi-Step [] 3 Clms.agree_friend_answer accepts_al some_server some_server-IsFriendly
