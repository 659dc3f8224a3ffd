-- ===== src/Proudnet/Server/Tests.antt =====
-- src/proudnet/server.cpp: runs of the server on small inputs, and the theorems at them.
use hovorun.Prelude.{
  ◌==◌, replicate, signed, ℕ, ◌+◌, ◌^◌, ◌<◌, ◌≡◌, refl, true, not, ◌&&◌, ◌||◌, List, [], ◌∷◌, map,
  flatten, arith,
}
use hovorun.Containers.IdSet
use hovorun.Containers.IdSet.{IdSet}
use hovorun.Containers.IdMap
use hovorun.Containers.IdMap.{IdMap}
use hovorun.Proudnet.Server.{
  Server, init, allocate_host_id, queue, send, accept, notify_group_member_leave, join_p2p_group,
  leave_loop, leave_p2p_group, destroy_p2p_group, on_peer_closed, leave_groups,
}
use hovorun.Proudnet.Peer
use hovorun.Proudnet.Peer.{Peer, connected}
use hovorun.Proudnet.Server.Consistent.{
  IsConsistent, Allocated, is_peer, is_group, is_member, init-IsConsistent,
}
use hovorun.Proudnet.Server.Allocate.{allocate_host_id-Allocated}
use hovorun.Proudnet.Server.Close.{
  Closed, Destroyed, on_peer_closed-Closed, destroy_p2p_group-Destroyed,
}
use hovorun.Proudnet.Server.Groups.{Changed, leave_p2p_group-Changed, join_p2p_group-Changed}
use hovorun.Net.Bytes.{of_le}
use hovorun.Net.Message.Reader.{
  pure, ◌>>=◌, take_bytes, read_word, read_int, scalar_body, read_scalar, length_in, read_length,
  read_many, ok,
}
use hovorun.Proudnet.MessageType
use hovorun.Proudnet.Server.Books.{SameBooks}
use hovorun.Proudnet.Server.Relay.{
  take_rest, read_unreliable, unreliable_relay2_message, relay_unreliable,
}
use hovorun.Proudnet.Server.Relay.Once.{send_each, distinct, stands_for, relay_unreliable-distinct}
use hovorun.Proudnet.Server.CoreMessages.{reply, handle_core_message}
use hovorun.Proudnet.Server.CoreMessages.Kept.{handle_core_message-SameBooks}
use hovorun.Proudnet.Server.Hint.{default_settings, start, accept_started}
use hovorun.Proudnet.Server.Reach.{Reach, Reach-IsConsistent, accepts, closes, started, then_step}

abbrev some_guid : List ℕ
some_guid = replicate 16 7

abbrev joined_peer : Peer
joined_peer = record { state = connected; session_key = []; recv_serial = 0; send_serial = 0 }

-- Two peers, and a group of theirs with the id 5.
abbrev in_group : Server
in_group = record {
  instance_guid = some_guid;
  peers = (3, joined_peer) ∷ (4, joined_peer) ∷ [];
  groups = (5, 3 ∷ 4 ∷ []) ∷ [];
  free_ids = [];
  next_id = 6;
  next_event_id = 1;
  sent = [];
}

abbrev alone : Server
alone = record in_group { groups = (5, 4 ∷ []) ∷ [] }

abbrev first_accepted : Server
first_accepted = (accept_started default_settings (init some_guid)).1

abbrev second_accepted : Server
second_accepted = (accept_started default_settings first_accepted).1

-- The server after two connections, of which the first closed.
abbrev one_left : Server
one_left = on_peer_closed 3 second_accepted

accepted_ids : (accept (init some_guid)).0 ≡ 3
unfolding accept allocate_host_id
accepted_ids = refl

first_peer : is_peer 3 second_accepted ≡ true
unfolding accept_started start reply queue Peer.send accept allocate_host_id IdMap.has IdMap.put
    IdMap.find
first_peer = refl

accepted_next : first_accepted.next_id + 2 < 2 ^ 32
unfolding accept_started start reply queue Peer.send accept allocate_host_id IdMap.has IdMap.put
    IdMap.find
accepted_next = omega arith

freed_again : (allocate_host_id one_left).0 ≡ 3
unfolding on_peer_closed leave_groups IdMap.remove IdSet.insert accept_started start reply queue
    Peer.send accept allocate_host_id IdMap.has IdMap.put IdMap.find
freed_again = refl

members_after : (leave_p2p_group 5 3 in_group).groups ≡ (5, 4 ∷ []) ∷ []
unfolding leave_p2p_group IdMap.find IdMap.put IdSet.contains IdSet.erase leave_loop
    notify_group_member_leave send queue Peer.send
members_after = refl

fifty_skipped : (allocate_host_id (record in_group { next_id = 50 })).0 ≡ 51
unfolding allocate_host_id
fifty_skipped = refl

abbrev one_left_reached : Reach some_guid one_left
one_left_reached =
    then_step _ _
      (then_step _ _
        (then_step _ _ started (accepts default_settings (init some_guid) (omega arith)))
        (accepts default_settings first_accepted accepted_next))
      (closes 3 second_accepted first_peer)

Reach-IsConsistent_example : IsConsistent one_left
Reach-IsConsistent_example = Reach-IsConsistent one_left_reached

allocate_host_id-Allocated_example :
    Allocated
      (init some_guid)
      (allocate_host_id (init some_guid)).0
      (allocate_host_id (init some_guid)).1
allocate_host_id-Allocated_example =
    allocate_host_id-Allocated (init some_guid) (init-IsConsistent some_guid) (omega arith)

on_peer_closed-Closed_example : Closed 3 in_group (on_peer_closed 3 in_group)
on_peer_closed-Closed_example = on_peer_closed-Closed 3 in_group

destroy_p2p_group-Destroyed_example : Destroyed 5 in_group (destroy_p2p_group 5 in_group)
destroy_p2p_group-Destroyed_example = destroy_p2p_group-Destroyed 5 in_group

leave_p2p_group-Changed_example :
    Changed
      (λ g m. not (g == 5 && m == 3) && is_member g m in_group)
      in_group
      (leave_p2p_group 5 3 in_group)
leave_p2p_group-Changed_example = leave_p2p_group-Changed 5 3 in_group

join_p2p_group-Changed_example :
    Changed
      (λ g m. is_member g m alone || (g == 5 && m == 3 && is_group 5 alone && is_peer 3 alone))
      alone
      (join_p2p_group 5 3 alone)
join_p2p_group-Changed_example = join_p2p_group-Changed 5 3 alone

-- To the group of peer 3 and to peer 4, with a payload of one byte.
abbrev relay_request : List ℕ
relay_request = 0 ∷ 1 ∷ 7 ∷ 1 ∷ 2 ∷ 5 ∷ 0 ∷ 0 ∷ 0 ∷ 4 ∷ 0 ∷ 0 ∷ 0 ∷ 1 ∷ 1 ∷ 9 ∷ []

relay_request_read : read_unreliable relay_request ≡ ok ((5 ∷ 4 ∷ [], 9 ∷ []), [])
unfolding read_unreliable read_many take_rest read_length length_in ◌>>=◌ pure read_word read_int
    read_scalar scalar_body take_bytes of_le signed
relay_request_read = refl

relay_unreliable-distinct_example :
    relay_unreliable 3 relay_request in_group
    ≡ send_each
        (unreliable_relay2_message 3 (9 ∷ []))
        (distinct (flatten (map (stands_for in_group.groups 3) (5 ∷ 4 ∷ []))))
        in_group
relay_unreliable-distinct_example =
    relay_unreliable-distinct 3 relay_request [] (5 ∷ 4 ∷ []) (9 ∷ []) in_group relay_request_read

handle_core_message-SameBooks_example :
    SameBooks in_group
      (handle_core_message 0 3 MessageType.unreliable_relay1 relay_request in_group)
handle_core_message-SameBooks_example =
    handle_core_message-SameBooks 0 3 MessageType.unreliable_relay1 relay_request in_group
