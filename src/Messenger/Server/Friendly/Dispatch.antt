-- ===== src/Messenger/Server/Friendly/Dispatch.antt =====
-- src/messenger/messenger_server.cpp: logons, leaving clients and every RMI keep friendship mutual.
use hovorun.Prelude.{
  ◌⊗◌, ◌==◌, Option-cases, if_elim, All, ℕ, refl, inl, inr, Option, none, some, List,
}
use hovorun.Containers.IdMap
use hovorun.Containers.IdMap.{IdMap}
use hovorun.Net.Message.Reader.{Result-cases, read_u16, read_u32, read_string}
use hovorun.Proudnet.Peer.{Peer, is_connected, is_closed}
use hovorun.Proudnet.Server
use hovorun.App.Accounts
use hovorun.App.Accounts.{Account, LoginResult, Accounts}
use hovorun.Containers.TextSet
use hovorun.Messenger.Clms
use hovorun.Messenger.Server.{
  MessengerUser, MessengerServer, online, by_index, on_client_leave, close_peer, close_old,
  new_user, logged_on, answer_login, logon, read_logon, on_logon,
}
use hovorun.Messenger.Server.Friends.{add_friend, delete_friend}
use hovorun.Messenger.Server.Dispatch.{
  Handler, read_target, read_answer, answer_with, read_index, delete_found, delete_indexed,
  read_whisper, whisper_index, whisper_name, read_invitation, invite, read_invitation_answer,
  answer_invitation, read_mail, mail_index, mail_name, get_message, check_name, telling, cases, run,
  on_rmi,
}
use hovorun.Messenger.Server.Friendly.{
  Asks, IsFriendly, put_user-FriendlyParts, removed-FriendlyParts, Keeps, reading-Keeps,
  change_position-Keeps, add_friend-Keeps, answer_with-Keeps, delete_friend-Keeps,
}
use hovorun.Proudnet.Server.{Server}

delete_indexed-Keeps : Keeps delete_indexed
unfolding delete_indexed
delete_indexed-Keeps u index s h f = elim (Option-cases (by_index index s)) [
  | inl q ↦ rw (q, delete_indexed, delete_found) f
  | inr (target, q) ↦
      rw (q, delete_indexed, delete_found) (delete_friend-Keeps u target.account.username s h f)
]

-- Every case of the switch.
cases-Keeps : (date : List ℕ) → All (λ (c : ℕ × Handler). Keeps c.1) (cases date)
unfolding cases telling answer_invitation check_name get_message invite mail_index mail_name
    whisper_index whisper_name
cases-Keeps date =
    change_position-Keeps
    ⊗ reading-Keeps read_target add_friend add_friend-Keeps
    ⊗ reading-Keeps read_target add_friend add_friend-Keeps
    ⊗ reading-Keeps read_answer answer_with answer_with-Keeps
    ⊗ reading-Keeps read_index delete_indexed delete_indexed-Keeps
    ⊗ reading-Keeps read_string delete_friend delete_friend-Keeps
    ⊗ reading-Keeps (read_whisper read_u32) whisper_index (λ u x s h f. f)
    ⊗ reading-Keeps (read_whisper read_string) whisper_name (λ u x s h f. f)
    ⊗ reading-Keeps read_invitation invite (λ u x s h f. f)
    ⊗ reading-Keeps read_invitation_answer answer_invitation (λ u x s h f. f)
    ⊗ reading-Keeps (read_mail read_u32) (mail_index date) (λ u x s h f. f)
    ⊗ reading-Keeps (read_mail read_string) (mail_name date) (λ u x s h f. f)
    ⊗ reading-Keeps read_u16 get_message (λ u x s h f. f)
    ⊗ (λ u x s h f. f)
    ⊗ reading-Keeps read_string check_name (λ u x s h f. f)
    ⊗ (λ u x s h f. f)
    ⊗ (λ u x s h f. f)
    ⊗ (λ u x s h f. f)
    ⊗ (λ u x s h f. f)
    ⊗ (λ u x s h f. f)
    ⊗ (λ u x s h f. f)
    ⊗ (λ u x s h f. f)
    ⊗ tt

run-IsFriendly :
    (date : List ℕ) (client id : ℕ) (params : List ℕ) (s : MessengerServer)
    → IsFriendly s
    → IsFriendly (run (IdMap.find client s.users) (IdMap.find id (cases date)) params s)
run-IsFriendly date client id params s f = elim (Option-cases (IdMap.find client s.users)) [
  | inl q ↦ rw (q, run) f
  | inr (u, q) ↦ elim (Option-cases (IdMap.find id (cases date))) [
    | inl c ↦ rw (q, c, run) f
    | inr (h, c) ↦
        rw (q, c, run)
          (IdMap.find-All (λ (x : Handler). Keeps x) id h (cases date) (cases-Keeps date) c u params
            s (IdMap.find-All Asks client u s.users f.asked q) f)
  ]
]

pub on_client_leave-IsFriendly :
    (client : ℕ) (s : MessengerServer) → IsFriendly s → IsFriendly (on_client_leave client s)
unfolding on_client_leave
on_client_leave-IsFriendly client s f = elim (Option-cases (IdMap.find client s.users)) [
  | inl q ↦ rw (q, on_client_leave) f
  | inr (u, q) ↦ rw (q, on_client_leave) (removed-FriendlyParts client s.users s.friendships f)
]

close_peer-IsFriendly :
    (client : ℕ) (o : Option Peer) (s : MessengerServer)
    → IsFriendly s
    → IsFriendly (close_peer client o s)
unfolding close_peer
close_peer-IsFriendly client none s f = f
close_peer-IsFriendly client (some p) s f =
    if_elim IsFriendly (is_closed p.state) (λ q. f)
      (λ q.
        if_elim (λ t. IsFriendly (record t { net = Server.on_peer_closed client t.net }))
          (is_connected p.state) (λ c. on_client_leave-IsFriendly client _ f) (λ c. f))

close_old-IsFriendly :
    (o : Option MessengerUser) (s : MessengerServer) → IsFriendly s → IsFriendly (close_old o s)
close_old-IsFriendly none s f = f
close_old-IsFriendly (some old) s f =
    close_peer-IsFriendly old.host (Server.find old.host s.net) s f

logged_on-IsFriendly :
    (client : ℕ) (user : List ℕ) (account : Account) (s : MessengerServer)
    → IsFriendly s
    → IsFriendly (logged_on client user account s)
unfolding logged_on TextSet.contains
logged_on-IsFriendly client user account s f =
    let closed = close_old (online user s) s in
    put_user-FriendlyParts client (new_user client account) closed.users closed.friendships refl
      (close_old-IsFriendly (online user s) s f)

answered-IsFriendly :
    (client : ℕ) (user : List ℕ) (result : LoginResult) (found : Option Account)
    (s : MessengerServer)
    → IsFriendly s
    → IsFriendly (answer_login client user result found s)
answered-IsFriendly client user LoginResult.ok none s f = f
answered-IsFriendly client user LoginResult.ok (some account) s f =
    logged_on-IsFriendly client user account s f
answered-IsFriendly client user LoginResult.wrong_password found s f = f
answered-IsFriendly client user LoginResult.unknown_user found s f = f

on_logon-IsFriendly :
    (client : ℕ) (params : List ℕ) (s : MessengerServer)
    → IsFriendly s
    → IsFriendly (on_logon client params s)
unfolding on_logon logon
on_logon-IsFriendly client params s f = elim (Result-cases (read_logon params)) [
  | inl (e, q) ↦ rw (q, on_logon) f
  | inr (((user, password), rest), q) ↦
      rw (q, on_logon, logon)
        (answered-IsFriendly client user (Accounts.login user password s.accounts).0
          (Accounts.find user s.accounts)
          (record s { accounts = (Accounts.login user password s.accounts).1 }) f)
]

-- Whatever a client sends, friendship stays mutual and nobody becomes its own friend, if so before and
-- if nobody had a request of its own to be its friend pending.
pub on_rmi-IsFriendly :
    (date : List ℕ) (client rmi_id : ℕ) (params : List ℕ) (s : MessengerServer)
    → IsFriendly s
    → IsFriendly (on_rmi date client rmi_id params s)
unfolding on_rmi
on_rmi-IsFriendly date client rmi_id params s f =
    if_elim IsFriendly (rmi_id == Clms.logon_clms) (λ q. on_logon-IsFriendly client params s f)
      (λ q.
        if_elim IsFriendly (rmi_id == Clms.cl2ms_test) (λ c. f)
          (λ c. run-IsFriendly date client rmi_id params s f))
