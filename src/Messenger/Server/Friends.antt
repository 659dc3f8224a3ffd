-- ===== src/Messenger/Server/Friends.antt =====
-- src/messenger/messenger_server.cpp: friends are asked for, agreed on and deleted.
use hovorun.Prelude.{if◌then◌else◌, ℕ, Bool, Option, none, some, List}
use hovorun.Containers.IdMap
use hovorun.Containers.IdMap.{IdMap}
use hovorun.Containers.TextMap
use hovorun.Containers.TextMap.{TextMap, same_text}
use hovorun.Containers.TextSet
use hovorun.Messenger.Messages
use hovorun.Messenger.Server.{
  MessengerUser, MessengerServer, named, online, friends_of, send, send_found, friend_info,
}
use hovorun.Containers.TextSet.{TextSet}

-- m_friendships[a].insert(b)
abbrev pub befriend : List ℕ → List ℕ → TextMap TextSet → TextMap TextSet
befriend a b m = TextMap.put a (TextSet.insert b (friends_of a m)) m

-- m_friendships[a].erase(b)
abbrev pub forget : List ℕ → List ℕ → TextMap TextSet → TextMap TextSet
forget a b m = TextMap.put a (TextSet.erase b (friends_of a m)) m

-- Agree_Friend, with the request noted.
abbrev pub ask : MessengerUser → MessengerUser → MessengerServer → MessengerServer
ask u other s = send other.host (Messages.agree_friend u.host u.account.username) (record s {
  users =
      IdMap.put other.host
        (record other {
          pending_requests = TextSet.insert u.account.username other.pending_requests;
        })
        s.users;
})

abbrev pub refuse_friend : MessengerUser → ℕ → List ℕ → ℕ → MessengerServer → MessengerServer
refuse_friend u index target code s =
    send u.host (Messages.insert_friend u.host index (friend_info target s) code) s

abbrev pub ask_found :
    MessengerUser → List ℕ → Option MessengerUser → MessengerServer → MessengerServer
ask_found u target none s = refuse_friend u 0 target 1 s
ask_found u target (some other) s =
    if same_text target u.account.username
    then refuse_friend u 0 target 1 s
    else if TextSet.contains target (friends_of u.account.username s.friendships)
    then refuse_friend u other.account.index target 9 s
    else ask u other s

unfoldable pub add_friend : MessengerUser → List ℕ → MessengerServer → MessengerServer
unfolding named
add_friend u target s = ask_found u target (online target s) s

abbrev agreed : MessengerUser → List ℕ → Bool → TextMap TextSet → TextMap TextSet
agreed u requester accept m =
    if accept
    then befriend requester u.account.username (befriend u.account.username requester m)
    else m

-- The request is answered: it is no longer pending, and both are told.
unfoldable pub answered : MessengerUser → List ℕ → Bool → MessengerServer → MessengerServer
unfolding named
answered u requester accept s =
    let now = record s {
      users =
          IdMap.put u.host
            (record u { pending_requests = TextSet.erase requester u.pending_requests }) s.users;
      friendships = agreed u requester accept s.friendships;
    } in
    let told =
      send u.host
        (Messages.agree_friend_answer_result (friend_info requester now) (if accept then 1 else 0))
        now in
    record told {
      net =
          if accept
          then send_found (online requester told)
              (Messages.insert_friend u.host u.account.index (friend_info u.account.username told)
                Messages.ok_code)
              told.net
          else told.net;
    }

unfoldable pub answer_friend : MessengerUser → List ℕ → Bool → MessengerServer → MessengerServer
unfolding answered
answer_friend u requester accept s =
    if TextSet.contains requester u.pending_requests then answered u requester accept s else s

unfoldable pub delete_friend : MessengerUser → List ℕ → MessengerServer → MessengerServer
delete_friend u target s = send u.host (Messages.delete_friend_user_id target) (record s {
  friendships = forget target u.account.username (forget u.account.username target s.friendships);
})
