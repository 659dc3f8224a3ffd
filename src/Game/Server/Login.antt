-- ===== src/Game/Server/Login.antt =====
-- src/game/game_server.cpp: logon, which drops an older connection of the account, and logout.
use hovorun.Prelude.{
  ◌==◌, if◌then◌else◌, replicate, ℕ, false, not, ◌&&◌, Option, none, some, List, [], ◌∷◌,
}
use hovorun.Containers.IdMap
use hovorun.Containers.IdMap.{IdMap}
use hovorun.Containers.TextMap.{same_text}
use hovorun.Net.Message.Writer.{Writer}
use hovorun.Net.Message.Reader.{Reads, pure, ◌>>=◌, read_u32, read_string, ok, err}
use hovorun.Proudnet.Peer.{Peer, State, is_connected, is_closed}
use hovorun.Proudnet.Server
use hovorun.Proudnet.Server.{Server}
use hovorun.Proudnet.Server.CoreMessages.{reply}
use hovorun.App.Accounts
use hovorun.App.Accounts.{Account, LoginResult, Accounts}
use hovorun.Game.GsclTypes.AvatarInfo.{AvatarInfo}
use hovorun.Game.GsclTypes.LogonInfo.{LogonInfo}
use hovorun.Game.Gscl.Channels
use hovorun.Game.Gscl.Lobby
use hovorun.Game.Server.{
  send, Player, GameServer, no_channel, result_ok, put_player, avatar_of, remove_from_room, Handler,
  on_client_leave,
}

abbrev no_logon_info : LogonInfo
no_logon_info = record {
  user_index = 0;
  nickname = [];
  unk_0c = 0;
  exp = 0;
  money = 0;
  unk_18 = 0;
  host = 0;
  unk_50 = 0;
  unk_1c = 0;
  unk_20 = 0;
  unk_24 = 0;
  unk_28 = 0;
  unk_2c = 0;
  unk_30 = 0;
  unk_34 = 0;
  unk_38 = 0;
  unk_3c = 0;
  str_40 = [];
  str_44 = [];
  need_select_character = 0;
}

abbrev pub no_avatar : AvatarInfo
no_avatar = record {
  u32_04 = 0;
  host = 0;
  u32_0c = 0;
  u32_10 = 0;
  u32_14 = 0;
  u32_18 = 0;
  u8_1c = 0;
  parts = replicate 14 0;
}

abbrev pub new_player : ℕ → Account → List ℕ → Player
new_player host account nickname = record {
  host = host;
  account = account;
  nickname = nickname;
  exp = 0;
  money = 100000;
  character = 0;
  comment = [];
  nation = 1;
  channel = no_channel;
  current_room = none;
  slot = 0;
  ready = false;
  team = 0;
  avatar = record no_avatar { host = host };
}

abbrev info_of : Player → LogonInfo
info_of p = record no_logon_info {
  user_index = p.account.index;
  nickname = p.nickname;
  exp = p.exp;
  money = p.money;
  host = p.host;
}

-- peer::close for a peer of this server, with its callback.
unfoldable pub close_peer : ℕ → Peer → GameServer → GameServer
unfolding on_client_leave
close_peer client p g =
    if is_closed p.state
    then g
    else let marked = record g {
      net = record g.net {
        peers = IdMap.put client (record p { state = State.closed }) g.net.peers;
      };
    } in
      let left = if is_connected p.state then on_client_leave client marked else marked in
      record left { net = Server.on_peer_closed client left.net }

-- client.send, for a peer that is not taken off the server
abbrev answer : ℕ → Writer → GameServer → GameServer
answer client message g = record g { net = reply client message g.net }

abbrev pub close_found : ℕ → Option Peer → GameServer → GameServer
close_found client none g = g
close_found client (some p) g = close_peer client p g

-- The older connection that the loop of logon stops at: the first of another peer as that user.
unfoldable pub older : ℕ → List ℕ → IdMap Player → Server → Option ℕ
older client user [] net = none
older client user ((host, other) ∷ players) net =
    let rest = older client user players net in
    if same_text other.account.username user && not (host == client)
    then elim (Server.find host net) [ some peer ↦ some host | none ↦ rest ]
    else rest

unfoldable pub drop_older : Option ℕ → GameServer → GameServer
unfolding close_peer
drop_older none g = g
drop_older (some host) g =
    let warned = answer host (Lobby.forced_close 2) g in
    close_found host (Server.find host warned.net) warned

unfoldable pub welcome : ℕ → Player → GameServer → GameServer
welcome client p g =
    let told = answer client (Channels.logon_gscl p.host (info_of p) result_ok 0 0 0 0 []) g in
    let items = answer client (Channels.add_items []) told in
    let avatars = answer client (Lobby.add_avatars (avatar_of p ∷ [])) items in
    answer client (Channels.add_gifts []) avatars

abbrev refused : ℕ → GameServer → GameServer
refused client g = answer client (Channels.logon_gscl client no_logon_info 1 0 0 0 0 []) g

unfoldable pub logged_on : ℕ → List ℕ → Account → GameServer → GameServer
unfolding older drop_older welcome
logged_on client user account g =
    let p = new_player client account user in
    welcome client p (put_player p (drop_older (older client user g.players g.net) g))

abbrev pub answer_login : ℕ → List ℕ → LoginResult → Option Account → GameServer → GameServer
answer_login client user LoginResult.ok none g = refused client g
answer_login client user LoginResult.ok (some account) g = logged_on client user account g
answer_login client user LoginResult.wrong_password found g = refused client g
answer_login client user LoginResult.unknown_user found g = refused client g

unfoldable pub logon : ℕ → List ℕ → List ℕ → GameServer → GameServer
unfolding logged_on
logon client user password g =
    let r = Accounts.login user password g.accounts in
    answer_login client user r.0 (Accounts.find user r.1) (record g { accounts = r.1 })

unfoldable pub read_logon : Reads (List ℕ × (List ℕ × ℕ))
unfolding ◌>>=◌ pure
read_logon = do
  user ← read_string
  password ← read_string
  version ← read_u32
  pure (user, (password, version))

-- Another version of the client is logged only.
unfoldable pub on_logon : ℕ → List ℕ → GameServer → GameServer
unfolding logon read_logon
on_logon client params g = elim (read_logon params) [
  | err e ↦ g
  | ok ((user, (password, version)), rest) ↦ logon client user password g
]

unfoldable pub logout : Handler
unfolding remove_from_room
logout p params g = send p Channels.log_out_ok (remove_from_room p false g)
