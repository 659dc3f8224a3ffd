-- ===== src/Messenger/Server/Quiet.antt =====
-- src/messenger/messenger_server.cpp: the cases of on_rmi only send.
use hovorun.Prelude.{
  ◌⊗◌, Option-cases, if_elim, All, ℕ, inl, inr, Bool, false, Option, none, some, List, [], ◌∷◌,
}
use hovorun.Containers.IdMap
use hovorun.Containers.IdMap.{IdMap}
use hovorun.Containers.TextSet
use hovorun.Containers.TextSet.{TextSet}
use hovorun.Containers.TextMap.{same_text}
use hovorun.Net.Message.Writer.{Writer}
use hovorun.Net.Message.Reader.{Reads, Result-cases, read_u8, read_u16, read_u32, read_string}
use hovorun.Proudnet.Server.{Server}
use hovorun.Proudnet.Server.Books.{SameBooks, SameBooks-refl, SameBooks-trans, send-SameBooks}
use hovorun.Messenger.Messages
use hovorun.Messenger.Server.{
  MessengerUser, MessengerServer, named, online, by_index, friends_of, send_found, notify_loop,
}
use hovorun.Messenger.Server.Friends.{add_friend, answer_friend, answered, delete_friend, ask_found}
use hovorun.Messenger.Server.Dispatch.{
  Handler, reading, set_b, set_a, change_position, read_target, read_answer, answer_with,
  read_index, delete_indexed, read_whisper, whisper_index, whisper_name, read_invitation, invite,
  read_invitation_answer, answer_invitation, read_mail, mail_index, mail_name, get_message,
  check_name, telling, cases, run, whispered, invited, mail,
}

-- A handler that changes no id of the proudnet::server.
abbrev pub IsQuiet : {A : Type 0} → (MessengerUser → A → MessengerServer → MessengerServer) → Type 0
IsQuiet handler =
    (u : MessengerUser) → (x : _) → (s : MessengerServer) → SameBooks s.net (handler u x s).net

reading-IsQuiet :
    {A : Type 0} (reads : Reads A) (act : MessengerUser → A → MessengerServer → MessengerServer)
    → IsQuiet act
    → IsQuiet (reading reads act)
unfolding reading
reading-IsQuiet reads act quiet u params s = elim (Result-cases (reads params)) [
  | inl (e, q) ↦ rw (reading, q) (SameBooks-refl s.net)
  | inr ((a, rest), q) ↦ rw (reading, q) (quiet u a s)
]

pub send_found-SameBooks :
    (o : Option MessengerUser) (message : Writer) (net : Server)
    → SameBooks net (send_found o message net)
send_found-SameBooks none message net = SameBooks-refl net
send_found-SameBooks (some other) message net = send-SameBooks other.host message false net

pub notify_loop-SameBooks :
    (u : MessengerUser) (state : ℕ) (friends : TextSet) (users : IdMap MessengerUser) (net : Server)
    → SameBooks net (notify_loop u state friends users net)
unfolding notify_loop
notify_loop-SameBooks u state [] users net = SameBooks-refl net
notify_loop-SameBooks u state (f ∷ friends) users net =
    SameBooks-trans
      (send_found-SameBooks (named f users) (Messages.change_state u.host u.account.index state)
        net)
      (notify_loop-SameBooks u state friends users _)

set_b-IsQuiet : IsQuiet set_b
set_b-IsQuiet u params s = elim (Result-cases (read_u8 params)) [
  | inl (e, q) ↦ rw (set_b, q) (SameBooks-refl s.net)
  | inr ((b, rest), q) ↦ rw (set_b, q) (SameBooks-refl s.net)
]

set_a-IsQuiet : IsQuiet set_a
set_a-IsQuiet u params s = elim (Result-cases (read_u8 params)) [
  | inl (e, q) ↦ rw (set_a, q) (SameBooks-refl s.net)
  | inr ((a, rest), q) ↦
      let now = record u { position_a = a } in
      rw (set_a, q) (set_b-IsQuiet now rest (record s { users = IdMap.put u.host now s.users }))
]

change_position-IsQuiet : IsQuiet change_position
unfolding change_position
change_position-IsQuiet u params s = elim (Result-cases (read_u16 params)) [
  | inl (e, q) ↦ rw (change_position, q) (SameBooks-refl s.net)
  | inr ((room, rest), q) ↦
      let now = record u { room = room } in
      rw (change_position, q)
        (set_a-IsQuiet now rest (record s { users = IdMap.put u.host now s.users }))
]

ask_found-IsQuiet :
    (u : MessengerUser) (target : List ℕ) (o : Option MessengerUser) (s : MessengerServer)
    → SameBooks s.net (ask_found u target o s).net
ask_found-IsQuiet u target none s = send-SameBooks u.host _ false s.net
ask_found-IsQuiet u target (some other) s =
    if_elim (λ (t : MessengerServer). SameBooks s.net t.net) (same_text target u.account.username)
      (λ _. send-SameBooks u.host _ false s.net)
      (λ _.
        if_elim (λ (t : MessengerServer). SameBooks s.net t.net)
          (TextSet.contains target (friends_of u.account.username s.friendships))
          (λ _. send-SameBooks u.host _ false s.net) (λ _. send-SameBooks other.host _ false s.net))

add_friend-IsQuiet : IsQuiet add_friend
unfolding add_friend
add_friend-IsQuiet u target s = ask_found-IsQuiet u target (online target s) s

answered-SameBooks :
    (u : MessengerUser) (requester : List ℕ) (accept : Bool) (s : MessengerServer)
    → SameBooks s.net (answered u requester accept s).net
unfolding answered
answered-SameBooks u requester accept s =
    if_elim (SameBooks s.net) accept
      (λ _. SameBooks-trans (send-SameBooks u.host _ false s.net) (send_found-SameBooks _ _ _))
      (λ _. send-SameBooks u.host _ false s.net)

answer_with-IsQuiet : IsQuiet answer_with
unfolding answer_with answer_friend
answer_with-IsQuiet u (requester, accept) s =
    if_elim (λ (t : MessengerServer). SameBooks s.net t.net)
      (TextSet.contains requester u.pending_requests) (λ _. answered-SameBooks u requester accept s)
      (λ _. SameBooks-refl s.net)

delete_friend-IsQuiet : IsQuiet delete_friend
unfolding delete_friend
delete_friend-IsQuiet u target s = send-SameBooks u.host _ false s.net

delete_indexed-IsQuiet : IsQuiet delete_indexed
unfolding delete_indexed
delete_indexed-IsQuiet u index s = elim (Option-cases (by_index index s)) [
  | inl q ↦ rw (delete_indexed, q) (SameBooks-refl s.net)
  | inr (target, q) ↦ rw (delete_indexed, q) (delete_friend-IsQuiet u target.account.username s)
]

whispered-SameBooks :
    (u : MessengerUser) (target : List ℕ) (o : Option MessengerUser) (text : List ℕ) (flag : ℕ)
    (net : Server)
    → SameBooks net (whispered u target o text flag net)
whispered-SameBooks u target none text flag net = send-SameBooks u.host _ false net
whispered-SameBooks u target (some other) text flag net = send-SameBooks other.host _ false net

whisper_name-IsQuiet : IsQuiet whisper_name
unfolding whisper_name
whisper_name-IsQuiet u (target, (text, flag)) s =
    whispered-SameBooks u target (online target s) text flag s.net

whisper_index-IsQuiet : IsQuiet whisper_index
unfolding whisper_index
whisper_index-IsQuiet u (index, (text, flag)) s = whispered-SameBooks u _ _ text flag s.net

invited-SameBooks :
    (u : MessengerUser) (target : List ℕ) (o : Option MessengerUser) (room : ℕ) (text : List ℕ)
    (net : Server)
    → SameBooks net (invited u target o room text net)
invited-SameBooks u target none room text net = send-SameBooks u.host _ false net
invited-SameBooks u target (some other) room text net = send-SameBooks other.host _ false net

invite-IsQuiet : IsQuiet invite
unfolding invite
invite-IsQuiet u (target, (room, text)) s =
    invited-SameBooks u target (online target s) room text s.net

answer_invitation-IsQuiet : IsQuiet answer_invitation
unfolding answer_invitation
answer_invitation-IsQuiet u (inviter, answer) s = send_found-SameBooks (online inviter s) _ s.net

mail-SameBooks :
    (date : List ℕ) (u : MessengerUser) (o : Option MessengerUser) (text : List ℕ) (net : Server)
    → SameBooks net (mail date u o text net)
mail-SameBooks date u none text net = send-SameBooks u.host _ false net
mail-SameBooks date u (some target) text net =
    SameBooks-trans (send-SameBooks target.host _ false net) (send-SameBooks u.host _ false _)

mail_index-IsQuiet : (date : List ℕ) → IsQuiet (mail_index date)
unfolding mail_index
mail_index-IsQuiet date u (index, text) s = mail-SameBooks date u (by_index index s) text s.net

mail_name-IsQuiet : (date : List ℕ) → IsQuiet (mail_name date)
unfolding mail_name
mail_name-IsQuiet date u (target, text) s = mail-SameBooks date u (online target s) text s.net

telling-IsQuiet : (message : Writer) → IsQuiet (telling message)
unfolding telling
telling-IsQuiet message u params s = send-SameBooks u.host message false s.net

get_message-IsQuiet : IsQuiet get_message
unfolding get_message
get_message-IsQuiet u unused s = send-SameBooks u.host _ false s.net

check_name-IsQuiet : IsQuiet check_name
unfolding check_name
check_name-IsQuiet u name s = send-SameBooks u.host _ false s.net

cases-IsQuiet : (date : List ℕ) → All (λ (c : ℕ × Handler). IsQuiet c.1) (cases date)
unfolding cases
cases-IsQuiet date =
    change_position-IsQuiet
    ⊗ reading-IsQuiet read_target add_friend add_friend-IsQuiet
    ⊗ reading-IsQuiet read_target add_friend add_friend-IsQuiet
    ⊗ reading-IsQuiet read_answer answer_with answer_with-IsQuiet
    ⊗ reading-IsQuiet read_index delete_indexed delete_indexed-IsQuiet
    ⊗ reading-IsQuiet read_string delete_friend delete_friend-IsQuiet
    ⊗ reading-IsQuiet (read_whisper read_u32) whisper_index whisper_index-IsQuiet
    ⊗ reading-IsQuiet (read_whisper read_string) whisper_name whisper_name-IsQuiet
    ⊗ reading-IsQuiet read_invitation invite invite-IsQuiet
    ⊗ reading-IsQuiet read_invitation_answer answer_invitation answer_invitation-IsQuiet
    ⊗ reading-IsQuiet (read_mail read_u32) (mail_index date) (mail_index-IsQuiet date)
    ⊗ reading-IsQuiet (read_mail read_string) (mail_name date) (mail_name-IsQuiet date)
    ⊗ reading-IsQuiet read_u16 get_message get_message-IsQuiet
    ⊗ telling-IsQuiet _
    ⊗ reading-IsQuiet read_string check_name check_name-IsQuiet
    ⊗ telling-IsQuiet _
    ⊗ telling-IsQuiet _
    ⊗ telling-IsQuiet _
    ⊗ telling-IsQuiet _
    ⊗ telling-IsQuiet _
    ⊗ telling-IsQuiet _
    ⊗ telling-IsQuiet _
    ⊗ tt

-- Every case of the switch leaves the ids of the proudnet::server as they are.
pub run-SameBooks :
    (date : List ℕ) (client id : ℕ) (params : List ℕ) (s : MessengerServer)
    → SameBooks s.net (run (IdMap.find client s.users) (IdMap.find id (cases date)) params s).net
run-SameBooks date client id params s = elim (Option-cases (IdMap.find client s.users)) [
  | inl q ↦ rw (q, run) (SameBooks-refl s.net)
  | inr (u, q) ↦ elim (Option-cases (IdMap.find id (cases date))) [
    | inl c ↦ rw (q, c, run) (SameBooks-refl s.net)
    | inr (h, c) ↦
        rw (q, c, run)
          (IdMap.find-All (λ (x : Handler). IsQuiet x) id h (cases date) (cases-IsQuiet date) c u
            params s)
  ]
]
