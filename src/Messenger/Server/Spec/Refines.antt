-- ===== src/Messenger/Server/Spec/Refines.antt =====
-- src/messenger/messenger_server.cpp: every RMI makes one step of the specification at most.
use hovorun.Prelude.{
  ◌==◌, Option-cases, if_elim, All, ◌⊗◌, ℕ, ◌≡◌, refl, inl, inr, Option, none, some, List,
}
use hovorun.Containers.IdMap
use hovorun.Net.Message.Reader.{Result-cases, read_u16, read_u32, read_string}
use hovorun.Proudnet.Server
use hovorun.App.Accounts
use hovorun.Messenger.Clms
use hovorun.Messenger.Server.{
  MessengerUser, MessengerServer, online, on_client_leave, close_peer, close_old, logged_on,
  answer_login, logon, read_logon, on_logon,
}
use hovorun.Messenger.Server.Friends.{add_friend, delete_friend}
use hovorun.Messenger.Server.Friendly.{Asks, IsFriendly}
use hovorun.Messenger.Server.Spec.{
  Step, friends, Steps, idle, reading-Steps, change_position-Stays, add_friend-Stays,
  answer_with-Steps, delete_friend-Steps, delete_indexed-Steps, at_rest,
}
use hovorun.Messenger.Server.Dispatch.{
  Handler, change_position, read_target, read_answer, answer_with, read_index, delete_indexed,
  read_whisper, whisper_index, whisper_name, read_invitation, invite, read_invitation_answer,
  answer_invitation, read_mail, mail_index, mail_name, get_message, check_name, telling, cases, run,
  on_rmi,
}
use hovorun.Proudnet.Peer.{is_closed, Peer, is_connected, is_closed}
use hovorun.Proudnet.Server.{Server}
use hovorun.Containers.IdMap.{IdMap}
use hovorun.App.Accounts.{Account, LoginResult, Accounts}

-- Every case of the switch.
cases-Steps : (date : List ℕ) → All (λ (c : ℕ × Handler). Steps c.1) (cases date)
unfolding cases telling answer_invitation check_name get_message invite mail_index mail_name
    whisper_index whisper_name
cases-Steps date =
    at_rest change_position change_position-Stays
    ⊗ reading-Steps read_target add_friend (at_rest add_friend add_friend-Stays)
    ⊗ reading-Steps read_target add_friend (at_rest add_friend add_friend-Stays)
    ⊗ reading-Steps read_answer answer_with answer_with-Steps
    ⊗ reading-Steps read_index delete_indexed delete_indexed-Steps
    ⊗ reading-Steps read_string delete_friend delete_friend-Steps
    ⊗ reading-Steps (read_whisper read_u32) whisper_index (λ u x s h. idle s s refl)
    ⊗ reading-Steps (read_whisper read_string) whisper_name (λ u x s h. idle s s refl)
    ⊗ reading-Steps read_invitation invite (λ u x s h. idle s s refl)
    ⊗ reading-Steps read_invitation_answer answer_invitation (λ u x s h. idle s s refl)
    ⊗ reading-Steps (read_mail read_u32) (mail_index date) (λ u x s h. idle s s refl)
    ⊗ reading-Steps (read_mail read_string) (mail_name date) (λ u x s h. idle s s refl)
    ⊗ reading-Steps read_u16 get_message (λ u x s h. idle s s refl)
    ⊗ (λ u x s h. idle s s refl)
    ⊗ reading-Steps read_string check_name (λ u x s h. idle s s refl)
    ⊗ (λ u x s h. idle s s refl)
    ⊗ (λ u x s h. idle s s refl)
    ⊗ (λ u x s h. idle s s refl)
    ⊗ (λ u x s h. idle s s refl)
    ⊗ (λ u x s h. idle s s refl)
    ⊗ (λ u x s h. idle s s refl)
    ⊗ (λ u x s h. idle s s refl)
    ⊗ tt

run-Step :
    (date : List ℕ) (client id : ℕ) (params : List ℕ) (s : MessengerServer)
    → IsFriendly s
    → Step
        (friends s)
        (friends (run (IdMap.find client s.users) (IdMap.find id (cases date)) params s))
run-Step date client id params s f = elim (Option-cases (IdMap.find client s.users)) [
  | inl q ↦ rw (q, run) (idle s s refl)
  | inr (u, q) ↦ elim (Option-cases (IdMap.find id (cases date))) [
    | inl c ↦ rw (q, c, run) (idle s s refl)
    | inr (h, c) ↦
        rw (q, c, run)
          (IdMap.find-All (λ (x : Handler). Steps x) id h (cases date) (cases-Steps date) c u params
            s (IdMap.find-All Asks client u s.users f.asked q))
  ]
]

left_friends :
    (client : ℕ) (s : MessengerServer) → (on_client_leave client s).friendships ≡ s.friendships
unfolding on_client_leave
left_friends client s = elim (Option-cases (IdMap.find client s.users)) [
  | inl q ↦ rw (q, on_client_leave) refl
  | inr (u, q) ↦ rw (q, on_client_leave) refl
]

closed_friends :
    (client : ℕ) (o : Option Peer) (s : MessengerServer)
    → (close_peer client o s).friendships ≡ s.friendships
unfolding close_peer
closed_friends client none s = refl
closed_friends client (some p) s =
    if_elim (λ (t : MessengerServer). t.friendships ≡ s.friendships) (is_closed p.state) (λ q. refl)
      (λ q.
        if_elim (λ (t : MessengerServer). t.friendships ≡ s.friendships) (is_connected p.state)
          (λ c. left_friends client _) (λ c. refl))

old_friends :
    (o : Option MessengerUser) (s : MessengerServer) → (close_old o s).friendships ≡ s.friendships
old_friends none s = refl
old_friends (some old) s = closed_friends old.host (Server.find old.host s.net) s

answered_friends :
    (client : ℕ) (user : List ℕ) (result : LoginResult) (found : Option Account)
    (s : MessengerServer)
    → (answer_login client user result found s).friendships ≡ s.friendships
unfolding logged_on
answered_friends client user LoginResult.ok none s = refl
answered_friends client user LoginResult.ok (some account) s = old_friends (online user s) s
answered_friends client user LoginResult.wrong_password found s = refl
answered_friends client user LoginResult.unknown_user found s = refl

on_logon-Step :
    (client : ℕ) (params : List ℕ) (s : MessengerServer)
    → Step (friends s) (friends (on_logon client params s))
unfolding on_logon logon
on_logon-Step client params s = elim (Result-cases (read_logon params)) [
  | inl (e, q) ↦ rw (q, on_logon) (idle s s refl)
  | inr (((user, password), rest), q) ↦ idle s (on_logon client params s) (
      rw (q, on_logon, logon)
        (answered_friends client user (Accounts.login user password s.accounts).0
          (Accounts.find user s.accounts)
          (record s { accounts = (Accounts.login user password s.accounts).1 })))
]

-- Whatever a client sends, the friendships that the server keeps make one step of the specification at
-- most, if nobody has a request of its own pending and friendship is mutual and never with oneself:
-- nothing changes, or two different users become friends of each other, or two users are friends no
-- more, each on both sides and with all other friendships as before.
pub on_rmi-Step :
    (date : List ℕ) (client rmi_id : ℕ) (params : List ℕ) (s : MessengerServer)
    → IsFriendly s
    → Step (friends s) (friends (on_rmi date client rmi_id params s))
unfolding on_rmi
on_rmi-Step date client rmi_id params s f =
    let P : MessengerServer → Type 0 = λ t. Step (friends s) (friends t) in
    if_elim P (rmi_id == Clms.logon_clms) (λ q. on_logon-Step client params s)
      (λ q.
        if_elim P (rmi_id == Clms.cl2ms_test) (λ c. idle s s refl)
          (λ c. run-Step date client rmi_id params s f))
