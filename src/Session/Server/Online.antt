-- ===== src/Session/Server/Online.antt =====
-- src/session/session_server.cpp: who is online, after logons and after a peer leaves.
use hovorun.Prelude.{
  ◌==◌, if◌then◌else◌, Bool-cases, ℕ, ◌≡◌, refl, sym, ap, ◌∙◌, ◌≢◌, inl, inr, Bool, true, false,
  ◌&&◌, Option, none, some, List, arith,
}
use hovorun.Containers.TextMap
use hovorun.Containers.TextMap.{TextMap}
use hovorun.Containers.IdMap
use hovorun.Containers.IdMap.{IdMap}
use hovorun.App.Accounts
use hovorun.App.Accounts.{LoginResult, Accounts}
use hovorun.Session.Server.{
  Config, SessionUser, SessionServer, send_logon_answer, on_client_leave, logon, leave_online,
  leave_user, answer_login,
}

-- The peer that `name` is online with.
abbrev pub online_as : List ℕ → SessionServer → Option ℕ
online_as name s = TextMap.find name s.online

abbrev pub accepts : LoginResult → Bool
accepts LoginResult.ok = true
accepts _ = false

-- Whether the account store lets the user in.
abbrev pub may_log_on : List ℕ → List ℕ → SessionServer → Bool
may_log_on user password s = accepts (Accounts.login user password s.accounts).0

answered-online :
    (config : Config) (client : ℕ) (user name : List ℕ) (result : LoginResult) (s : SessionServer)
    → online_as name (answer_login config client user result s)
      ≡ (if accepts result && TextMap.same_text name user then some client else online_as name s)
unfolding send_logon_answer
answered-online config client user name LoginResult.ok s =
    TextMap.find-put user name client s.online
answered-online config client user name LoginResult.wrong_password s = refl
answered-online config client user name LoginResult.unknown_user s = refl

-- A logon puts the user online with that peer, in place of an older one, if the account store lets
-- the user in; else, and for all other users, who is online stays.
pub logon-online :
    (config : Config) (client : ℕ) (user password name : List ℕ) (s : SessionServer)
    → online_as name (logon config client user password s) ≡ (
        if may_log_on user password s && TextMap.same_text name user
        then some client
        else online_as name s)
unfolding logon
logon-online config client user password name s =
    answered-online config client user name (Accounts.login user password s.accounts).0 _

left-other :
    (client : ℕ) (username name : List ℕ) (o : Option ℕ) (other : ℕ) (s : SessionServer)
    → TextMap.find username s.online ≡ o
    → online_as name s ≡ some other
    → client ≢ other
    → online_as name (leave_online client username o s) ≡ some other
left-other client username name none other s e h d = h
left-other client username name (some id) other s e h d = elim (Bool-cases (id == client)) [
  | inr q ↦ rw (q) h
  | inl q ↦
      let same : id ≡ client = ground arith in
      rw (q) (
        TextMap.find-remove username name s.online
        ∙ elim (Bool-cases (TextMap.same_text name username)) [
          | inr t ↦ rw (t) h
          | inl t ↦
              let both : some id ≡ some other =
                sym e
                ∙ ap (λ x. TextMap.find x s.online) (sym (TextMap.same_text_eq name username t))
                ∙ h in
              absurd (d cc)
        ])
]

left_user-other :
    (client : ℕ) (user : Option SessionUser) (name : List ℕ) (other : ℕ) (s : SessionServer)
    → online_as name s ≡ some other
    → client ≢ other
    → online_as name (leave_user client user s) ≡ some other
left_user-other client none name other s h d = h
left_user-other client (some user) name other s h d =
    left-other client user.username name (TextMap.find user.username s.online) other s refl h d

-- A peer that leaves takes no user offline who is online with another peer.
pub on_client_leave-other :
    (client : ℕ) (name : List ℕ) (other : ℕ) (s : SessionServer)
    → online_as name s ≡ some other
    → client ≢ other
    → online_as name (on_client_leave client s) ≡ some other
unfolding on_client_leave
on_client_leave-other client name other s h d =
    left_user-other client (IdMap.find client s.users) name other s h d

left-own :
    (client : ℕ) (username : List ℕ) (o : Option ℕ) (s : SessionServer)
    → TextMap.find username s.online ≡ o
    → online_as username (leave_online client username o s) ≢ some client
left-own client username none s e = λ h. let bad = sym e ∙ h in cc
left-own client username (some id) s e = elim (Bool-cases (id == client)) [
  | inl q ↦ rw (q) (λ h.
      let gone = TextMap.find-remove username username s.online in
      let bad = rw (TextMap.same_text_refl username) at (sym h ∙ gone) in cc)
  | inr q ↦ rw (q) (λ h.
      let both : some id ≡ some client = sym e ∙ h in let same : id ≡ client = cc in ground arith)
]

-- The user of a peer that leaves is not online with that peer any more.
pub on_client_leave-own :
    (client : ℕ) (user : SessionUser) (s : SessionServer)
    → IdMap.find client s.users ≡ some user
    → online_as user.username (on_client_leave client s) ≢ some client
unfolding on_client_leave
on_client_leave-own client user s e =
    rw (e, on_client_leave)
      (left-own client user.username (TextMap.find user.username s.online) s refl)

-- When a user logs on again from another peer, the older peer's leaving does not take the user offline.
pub on_client_leave-logon :
    (config : Config) (older newer : ℕ) (user password : List ℕ) (s : SessionServer)
    → may_log_on user password s ≡ true
    → older ≢ newer
    → online_as user (on_client_leave older (logon config newer user password s)) ≡ some newer
on_client_leave-logon config older newer user password s h d =
    on_client_leave-other older user newer (logon config newer user password s)
      (logon-online config newer user password user s ∙ rw (h, TextMap.same_text_refl user) refl) d
