-- ===== src/Messenger/Server/Sink/Tests.antt =====
-- src/messenger/messenger_server.cpp: a connection whose bytes come in two reads.
use hovorun.Prelude.{replicate, ℕ, refl, true, List, [], ◌∷◌, arith}
use hovorun.Containers.IdMap
use hovorun.Containers.IdMap.{IdMap}
use hovorun.Proudnet.Peer.{State, new_peer}
use hovorun.Proudnet.Peer.Handshake.{Connection}
use hovorun.Proudnet.Server.{Server, init, accept, allocate_host_id, find}
use hovorun.Proudnet.Server.Consistent.{IsConsistent, init-IsConsistent, SameBooks-IsConsistent}
use hovorun.Proudnet.Server.Keeps.{accept-IsConsistent}
use hovorun.Net.Framing.Drain.{read_loop}
use hovorun.Proudnet.Loop.{peer_sink}
use hovorun.Proudnet.Loop.Kept.{put_peer-SameBooks}
use hovorun.App.Accounts
use hovorun.App.Accounts.{Accounts}
use hovorun.Messenger.Server.Sink.{
  MessengerState, messenger_environment, read_loop-messenger_environment-IsConsistent,
}

some_connection : ℕ → Server → Connection
some_connection id s = record {
  id = id;
  protocol_version = replicate 16 1;
  instance_guid = s.instance_guid;
  address = 127 ∷ 0 ∷ 0 ∷ 1 ∷ [];
  port = 4000;
  random_key = replicate 16 9;
  nonzero = λ i. 1;
}

-- A server that just accepted peer 3.
abbrev accepted : Server
accepted = (accept (init (replicate 16 7))).1

accepted-IsConsistent : IsConsistent accepted
accepted-IsConsistent =
    accept-IsConsistent (init (replicate 16 7)) (init-IsConsistent (replicate 16 7)) (omega arith)

-- The same with that peer connected.
abbrev linked : Server
linked = record accepted {
  peers = IdMap.put 3 (record new_peer { state = State.connected }) accepted.peers;
}

linked-IsConsistent : IsConsistent linked
unfolding find accept allocate_host_id IdMap.find IdMap.put
linked-IsConsistent =
    SameBooks-IsConsistent
      (put_peer-SameBooks 3 new_peer (record new_peer { state = State.connected }) accepted refl)
      accepted-IsConsistent

abbrev some_state : MessengerState
some_state = record { accounts = Accounts.load true []; users = []; friendships = [] }

-- A logon without its parameters, cut in its middle.
abbrev two_reads : List (List ℕ)
two_reads = (0x13 ∷ 0x57 ∷ 1 ∷ []) ∷ (3 ∷ 1 ∷ 41 ∷ 10 ∷ []) ∷ []

read_loop-messenger_environment-IsConsistent_example :
    IsConsistent
      (read_loop
        (peer_sink (messenger_environment [] (λ s. 0) some_connection) 3)
        ((linked, some_state), [])
        two_reads).0.0
read_loop-messenger_environment-IsConsistent_example =
    read_loop-messenger_environment-IsConsistent [] (λ s. 0) some_connection 3 two_reads
      (linked, some_state) [] linked-IsConsistent
