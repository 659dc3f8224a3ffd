-- ===== src/Messenger/Server/Dispatch.antt =====
-- src/messenger/messenger_server.cpp: on_rmi, with a handler for each case of its switch.
use hovorun.Prelude.{◌==◌, if◌then◌else◌, ℕ, Bool, false, not, Option, none, some, List, [], ◌∷◌}
use hovorun.Containers.IdMap
use hovorun.Containers.IdMap.{IdMap}
use hovorun.Net.Message.Writer.{Writer}
use hovorun.Net.Message.Reader.{
  Reads, pure, ◌>>=◌, read_u8, read_u16, read_u32, read_string, ok, err,
}
use hovorun.Proudnet.Server
use hovorun.Proudnet.Server.{Server}
use hovorun.Messenger.Clms
use hovorun.Messenger.Mscl
use hovorun.Messenger.Messages
use hovorun.Messenger.Server.{
  MessengerUser, MessengerServer, named, online, indexed, by_index, send, send_found, on_logon,
  answer,
}
use hovorun.Messenger.Server.Friends.{add_friend, answer_friend, delete_friend}

-- A case of the switch, with the user of the client.
abbrev pub Handler : Type 0
Handler = MessengerUser → List ℕ → MessengerServer → MessengerServer

unfoldable pub reading :
    {A : Type 0} → Reads A → (MessengerUser → A → MessengerServer → MessengerServer) → Handler
reading reads act u params s = elim (reads params) [ err e ↦ s | ok (a, rest) ↦ act u a s ]

abbrev put_user : MessengerUser → MessengerServer → MessengerServer
put_user u s = record s { users = IdMap.put u.host u s.users }

-- Each field is written as it is read, so that a short message changes the first ones only.
abbrev pub set_b : MessengerUser → List ℕ → MessengerServer → MessengerServer
set_b u params s = elim (read_u8 params) [
  | err e ↦ s
  | ok (b, rest) ↦ put_user (record u { position_b = b }) s
]

abbrev pub set_a : MessengerUser → List ℕ → MessengerServer → MessengerServer
set_a u params s = elim (read_u8 params) [
  | err e ↦ s
  | ok (a, rest) ↦ let now = record u { position_a = a } in set_b now rest (put_user now s)
]

unfoldable pub change_position : Handler
change_position u params s = elim (read_u16 params) [
  | err e ↦ s
  | ok (room, rest) ↦ let now = record u { room = room } in set_a now rest (put_user now s)
]

unfoldable pub read_target : Reads (List ℕ)
unfolding ◌>>=◌
read_target = do unused ← read_u32; read_string

unfoldable pub read_answer : Reads (List ℕ × Bool)
unfolding ◌>>=◌ pure
read_answer = do requester ← read_string; accept ← read_u8; pure (requester, not (accept == 0))

unfoldable pub answer_with : MessengerUser → List ℕ × Bool → MessengerServer → MessengerServer
unfolding answer_friend
answer_with u (requester, accept) s = answer_friend u requester accept s

unfoldable pub read_index : Reads ℕ
unfolding ◌>>=◌
read_index = do unused ← read_u32; read_u32

abbrev pub delete_found : MessengerUser → Option MessengerUser → MessengerServer → MessengerServer
delete_found u none s = s
delete_found u (some target) s = delete_friend u target.account.username s

unfoldable pub delete_indexed : MessengerUser → ℕ → MessengerServer → MessengerServer
unfolding delete_friend indexed
delete_indexed u index s = delete_found u (by_index index s) s

abbrev name_of : Option MessengerUser → List ℕ
name_of none = []
name_of (some u) = u.account.username

abbrev pub whispered : MessengerUser → List ℕ → Option MessengerUser → List ℕ → ℕ → Server → Server
whispered u target none text flag net =
    Server.send u.host (Messages.whisper_answer target) false net
whispered u target (some other) text flag net =
    Server.send other.host (Messages.whisper_user_index u.account.username text flag) false net

abbrev whisper : MessengerUser → List ℕ → List ℕ → ℕ → MessengerServer → MessengerServer
whisper u target text flag s = record s {
  net = whispered u target (online target s) text flag s.net;
}

unfoldable pub read_whisper {ℓ} : {A : Type ℓ} → Reads A → Reads (A × (List ℕ × ℕ))
unfolding ◌>>=◌ pure
read_whisper reads = do
  target ← reads
  text ← read_string
  flag ← read_u8
  pure (target, (text, flag))

unfoldable pub whisper_index : MessengerUser → ℕ × (List ℕ × ℕ) → MessengerServer → MessengerServer
unfolding named indexed
whisper_index u (index, (text, flag)) s = whisper u (name_of (by_index index s)) text flag s

unfoldable pub whisper_name :
    MessengerUser → List ℕ × (List ℕ × ℕ) → MessengerServer → MessengerServer
unfolding named
whisper_name u (target, (text, flag)) s = whisper u target text flag s

unfoldable pub read_invitation : Reads (List ℕ × (ℕ × List ℕ))
unfolding ◌>>=◌ pure
read_invitation = do
  target ← read_string
  room ← read_u32
  text ← read_string
  pure (target, (room, text))

abbrev pub invited : MessengerUser → List ℕ → Option MessengerUser → ℕ → List ℕ → Server → Server
invited u target none room text net =
    Server.send u.host (Messages.invitation_answer target Messages.invitation_not_connected) false
      net
invited u target (some other) room text net =
    Server.send other.host (Messages.invitation u.account.username room text) false net

unfoldable pub invite : MessengerUser → List ℕ × (ℕ × List ℕ) → MessengerServer → MessengerServer
unfolding named
invite u (target, (room, text)) s = record s {
  net = invited u target (online target s) room text s.net;
}

unfoldable pub read_invitation_answer : Reads (List ℕ × ℕ)
unfolding ◌>>=◌ pure
read_invitation_answer = do inviter ← read_string; answer ← read_u8; pure (inviter, answer)

unfoldable pub answer_invitation : MessengerUser → List ℕ × ℕ → MessengerServer → MessengerServer
unfolding named
answer_invitation u (inviter, answer) s = record s {
  net = send_found (online inviter s) (Messages.invitation_answer u.account.username answer) s.net;
}

-- Mail, to a target that may not be online, and its copy to the sender.
abbrev pub mail : List ℕ → MessengerUser → Option MessengerUser → List ℕ → Server → Server
mail date u none text net =
    Server.send u.host (Messages.send_message date 0 u.account.username text 15) false net
mail date u (some target) text net =
    let message =
      Messages.send_message date target.account.index u.account.username text Messages.ok_code in
    Server.send u.host message false (Server.send target.host message false net)

unfoldable pub read_mail {ℓ} : {A : Type ℓ} → Reads A → Reads (A × List ℕ)
unfolding ◌>>=◌ pure
read_mail reads = do target ← reads; text ← read_string; pure (target, text)

unfoldable pub mail_index : List ℕ → MessengerUser → ℕ × List ℕ → MessengerServer → MessengerServer
unfolding indexed Messages.send_message
mail_index date u (index, text) s = record s { net = mail date u (by_index index s) text s.net }

unfoldable pub mail_name :
    List ℕ → MessengerUser → List ℕ × List ℕ → MessengerServer → MessengerServer
unfolding named Messages.send_message
mail_name date u (target, text) s = record s { net = mail date u (online target s) text s.net }

abbrev pub told : MessengerUser → Writer → MessengerServer → MessengerServer
told u message s = send u.host message s

unfoldable pub get_message : MessengerUser → ℕ → MessengerServer → MessengerServer
get_message u unused s = told u (Messages.no_entries Mscl.message_info) s

unfoldable pub check_name : MessengerUser → List ℕ → MessengerServer → MessengerServer
check_name u name s = told u (Messages.check_clan_name name) s

unfoldable pub telling : Writer → Handler
telling message u params s = told u message s

-- The cases of the switch.
unfoldable pub cases : List ℕ → IdMap Handler
unfolding reading change_position read_target add_friend read_answer answer_with read_index
    delete_indexed delete_friend read_whisper whisper_index whisper_name read_invitation invite
    read_invitation_answer answer_invitation read_mail mail_index mail_name get_message check_name
    telling
cases date =
    (Clms.change_position, change_position)
    ∷ (Clms.add_friend_nick, reading read_target add_friend)
    ∷ (Clms.add_friend_user_id, reading read_target add_friend)
    ∷ (Clms.agree_friend_answer, reading read_answer answer_with)
    ∷ (Clms.del_friend, reading read_index delete_indexed)
    ∷ (Clms.del_friend_user_id, reading read_string delete_friend)
    ∷ (Clms.whisper_user_index, reading (read_whisper read_u32) whisper_index)
    ∷ (Clms.whisper_user_id, reading (read_whisper read_string) whisper_name)
    ∷ (Clms.invitation, reading read_invitation invite)
    ∷ (Clms.invitation_answer, reading read_invitation_answer answer_invitation)
    ∷ (Clms.send_message, reading (read_mail read_u32) (mail_index date))
    ∷ (Clms.send_message_id, reading (read_mail read_string) (mail_name date))
    ∷ (Clms.get_message, reading read_u16 get_message)
    ∷ (Clms.clan_list, telling (Messages.no_entries Mscl.clan_list_request))
    ∷ (Clms.check_clan_name, reading read_string check_name)
    ∷ (Clms.create_clan, telling Messages.create_clan)
    ∷ (Clms.join_clan, telling (Messages.join_clan date))
    ∷ (Clms.join_clan_name, telling (Messages.join_clan date))
    ∷ (Clms.secede_clan, telling (Messages.not_member Mscl.secede_clan))
    ∷ (Clms.dissolve_clan, telling (Messages.not_member Mscl.dissolve_clan))
    ∷ (Clms.rank_info_request, telling Messages.rank_info_answer)
    ∷ (Clms.find_user_clan, telling Messages.find_user_clan_answer)
    ∷ []

abbrev pub run : Option MessengerUser → Option Handler → List ℕ → MessengerServer → MessengerServer
run none handler params s = s
run (some u) none params s = s
run (some u) (some handler) params s = handler u params s

-- The result is whether the id is known, which decides what is logged.
unfoldable pub on_rmi : List ℕ → ℕ → ℕ → List ℕ → MessengerServer → MessengerServer
unfolding on_logon cases
on_rmi date client rmi_id params s =
    if rmi_id == Clms.logon_clms
    then on_logon client params s
    else if rmi_id == Clms.cl2ms_test
    then s
    else run (IdMap.find client s.users) (IdMap.find rmi_id (cases date)) params s
