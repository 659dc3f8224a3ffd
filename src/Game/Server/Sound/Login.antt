-- ===== src/Game/Server/Sound/Login.antt =====
-- src/game/game_server.cpp: logons and leaving clients keep players and rooms sound, and with the
-- handlers so does on_rmi.
use hovorun.Prelude.{
  ◌==◌, Bool-cases, Option-cases, if_elim, ℕ, ◌<◌, inl, inr, false, Option, none, some, List, arith,
}
use hovorun.Containers.IdMap
use hovorun.Containers.IdMap.{IdMap}
use hovorun.Net.Message.Reader.{Result, ok, err}
use hovorun.Proudnet.Peer.{Peer, is_connected, is_closed}
use hovorun.Proudnet.Server
use hovorun.App.Accounts
use hovorun.App.Accounts.{Account, LoginResult, Accounts}
use hovorun.Game.Server.{Player, Room, GameServer, player_by_host, on_client_leave}
use hovorun.Game.Server.Login.{
  new_player, close_peer, close_found, older, drop_older, welcome, logged_on, answer_login, logon,
  read_logon, on_logon,
}
use hovorun.Game.Server.Sound.{SoundParts, IsSound}
use hovorun.Game.Server.Sound.Leave.{remove_from_room-IsSound}
use hovorun.Game.Server.Sound.Moves.{found-IsPlayer}
use hovorun.Proudnet.Server.{Server}

module _ {players : IdMap Player} {rooms : IdMap ℕ} {heap : IdMap Room} {next : ℕ} where
  erased-SoundParts :
      (k : ℕ)
      → SoundParts players rooms heap next
      → SoundParts (IdMap.remove k players) rooms heap next
  unfolding IdMap.has
  erased-SoundParts k s = record {
    hosts = λ j q. let law = IdMap.find-remove k j players in let old = s.hosts j in ground arith;
    nonzero = λ j q. let law = IdMap.find-remove k j players in s.nonzero j (ground arith);
    seated = λ j a q. elim (Bool-cases (j == k)) [
      | inl t ↦ let bad = rw (IdMap.find-remove k j players, t) at q in cc
      | inr t ↦
          rw (IdMap.find-remove k j players, t)
            (s.seated j a (rw (IdMap.find-remove k j players, t) at q))
    ];
    numbered = s.numbered;
    mastered = s.mastered;
    sizes = s.sizes;
    fresh = s.fresh;
  }

  new_player-SoundParts :
      (k : ℕ) (account : Account) (nickname : List ℕ)
      → 0 < k
      → SoundParts players rooms heap next
      → SoundParts (IdMap.put k (new_player k account nickname) players) rooms heap next
  unfolding IdMap.has
  new_player-SoundParts k account nickname h s = record {
    hosts = λ j q.
        let law = IdMap.find-put k j (new_player k account nickname) players in
        let old = s.hosts j in ground arith;
    nonzero = λ j q.
        let law = IdMap.find-put k j (new_player k account nickname) players in
        let old = s.nonzero j in ground arith;
    seated = λ j a q. elim (Bool-cases (j == k)) [
      | inl t ↦
          let bad = rw (IdMap.find-put k j (new_player k account nickname) players, t) at q in cc
      | inr t ↦
          rw (IdMap.find-put k j (new_player k account nickname) players, t)
            (s.seated j a (rw (IdMap.find-put k j (new_player k account nickname) players, t) at q))
    ];
    numbered = s.numbered;
    mastered = s.mastered;
    sizes = s.sizes;
    fresh = s.fresh;
  }

-- A client that leaves is taken out of its room and forgotten.
pub on_client_leave-IsSound :
    (client : ℕ) (g : GameServer) → IsSound g → IsSound (on_client_leave client g)
unfolding on_client_leave
on_client_leave-IsSound client g s = elim (Option-cases (player_by_host client g)) [
  | inl q ↦ rw (q, on_client_leave) s
  | inr (p, q) ↦
      rw (q, on_client_leave)
        (erased-SoundParts client
          (remove_from_room-IsSound p false g s (found-IsPlayer client p g s q).1))
]

close_peer-IsSound :
    (client : ℕ) (p : Peer) (g : GameServer) → IsSound g → IsSound (close_peer client p g)
unfolding close_peer
close_peer-IsSound client p g s =
    if_elim IsSound (is_closed p.state) (λ q. s)
      (λ q.
        if_elim (λ h. IsSound (record h { net = Server.on_peer_closed client h.net }))
          (is_connected p.state) (λ c. on_client_leave-IsSound client _ s) (λ c. s))

close_found-IsSound :
    (client : ℕ) (o : Option Peer) (g : GameServer) → IsSound g → IsSound (close_found client o g)
close_found-IsSound client none g s = s
close_found-IsSound client (some p) g s = close_peer-IsSound client p g s

drop_older-IsSound : (o : Option ℕ) (g : GameServer) → IsSound g → IsSound (drop_older o g)
unfolding drop_older
drop_older-IsSound none g s = s
drop_older-IsSound (some host) g s = close_found-IsSound host _ _ s

logged_on-IsSound :
    (client : ℕ) (user : List ℕ) (account : Account) (g : GameServer)
    → 0 < client
    → IsSound g
    → IsSound (logged_on client user account g)
unfolding logged_on welcome
logged_on-IsSound client user account g h s =
    new_player-SoundParts client account user h
      (drop_older-IsSound (older client user g.players g.net) g s)

answered-IsSound :
    (client : ℕ) (user : List ℕ) (result : LoginResult) (found : Option Account) (g : GameServer)
    → 0 < client
    → IsSound g
    → IsSound (answer_login client user result found g)
answered-IsSound client user LoginResult.ok none g h s = s
answered-IsSound client user LoginResult.ok (some account) g h s =
    logged_on-IsSound client user account g h s
answered-IsSound client user LoginResult.wrong_password found g h s = s
answered-IsSound client user LoginResult.unknown_user found g h s = s

pub on_logon-IsSound :
    (client : ℕ) (params : List ℕ) (g : GameServer)
    → 0 < client
    → IsSound g
    → IsSound (on_logon client params g)
unfolding on_logon logon
on_logon-IsSound client params g h s = at (read_logon params)
  where
    at :
        (result : Result ((List ℕ × (List ℕ × ℕ)) × List ℕ))
        → IsSound (elim result [
          | err e ↦ g
          | ok ((user, (password, version)), rest) ↦ logon client user password g
        ])
    at (err e) = s
    at (ok ((user, (password, version)), rest)) =
        answered-IsSound client user (Accounts.login user password g.accounts).0
          (Accounts.find user (Accounts.login user password g.accounts).1) _ h s
