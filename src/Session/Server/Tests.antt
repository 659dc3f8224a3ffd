-- ===== src/Session/Server/Tests.antt =====
-- src/session/session_server.cpp: logons on small inputs, and the theorems at them.
use hovorun.Prelude.{
  if◌then◌else◌, replicate, ℕ, ◌≡◌, refl, ◌≢◌, true, ◌&&◌, some, List, [], ◌∷◌, arith,
}
use hovorun.Containers.TextMap
use hovorun.Containers.IdMap
use hovorun.Proudnet.Server.{init}
use hovorun.App.Accounts
use hovorun.Session.Server.{Config, SessionServer, send_logon_answer, on_client_leave, logon}
use hovorun.Session.Server.Online.{
  online_as, may_log_on, logon-online, on_client_leave-own, on_client_leave-logon,
}
use hovorun.Containers.TextMap.{TextMap}
use hovorun.Containers.IdMap.{IdMap}
use hovorun.App.Accounts.{Accounts}

abbrev bob : List ℕ
bob = 98 ∷ 111 ∷ 98 ∷ []

abbrev some_config : Config
some_config = record { game_public_ip = 49 ∷ []; game_port = 4000 }

abbrev empty_server : SessionServer
empty_server = record {
  net = init (replicate 16 7);
  accounts = Accounts.load true [];
  online = [];
  users = [];
}

-- The server with user bob on peer 3.
abbrev with_bob : SessionServer
with_bob = record empty_server {
  online = (bob, 3) ∷ [];
  users = (3, record { username = bob; nation = 1 }) ∷ [];
}

bob_let_in : may_log_on bob bob with_bob ≡ true
unfolding Accounts.login Accounts.contains_char Accounts.add Accounts.line Accounts.load
    Accounts.words Accounts.pairs Accounts.add_all TextMap.find
bob_let_in = refl

logon-online_example : online_as bob (logon some_config 4 bob bob with_bob) ≡ (
    if may_log_on bob bob with_bob && TextMap.same_text bob bob
    then some 4
    else online_as bob with_bob)
logon-online_example = logon-online some_config 4 bob bob bob with_bob

on_client_leave-logon_example :
    online_as bob (on_client_leave 3 (logon some_config 4 bob bob with_bob)) ≡ some 4
on_client_leave-logon_example =
    on_client_leave-logon some_config 3 4 bob bob with_bob bob_let_in (λ e. ground arith)

found_bob : IdMap.find 3 with_bob.users ≡ some (record { username = bob; nation = 1 })
unfolding IdMap.find
found_bob = refl

on_client_leave-own_example : online_as bob (on_client_leave 3 with_bob) ≢ some 3
on_client_leave-own_example =
    on_client_leave-own 3 (record { username = bob; nation = 1 }) with_bob found_bob

abbrev al : List ℕ
al = 97 ∷ 108 ∷ []

-- A peer that logs on as a second user and leaves stays in `online` as the first.
stale_after_second_user :
    online_as bob (on_client_leave 3 (logon some_config 3 al al with_bob)) ≡ some 3
unfolding logon on_client_leave send_logon_answer Accounts.login Accounts.contains_char Accounts.add
    Accounts.line Accounts.load Accounts.words Accounts.pairs Accounts.add_all TextMap.find
    TextMap.put TextMap.remove IdMap.find IdMap.put
stale_after_second_user = refl
