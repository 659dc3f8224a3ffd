-- ===== src/Proudnet/Server.antt =====
-- src/proudnet/server.hpp and server.cpp: the connected peers, the host ids and the P2P groups.
-- `sent` holds the frames that were queued, with the peer of each, the oldest first.
pub mod Allocate
pub mod Books
pub mod Close
pub mod Consistent
pub mod CoreMessages
pub mod Groups
pub mod Hint
pub mod Keeps
pub mod Reach
pub mod Relay
mod Tests
use hovorun.Prelude.{
  ◌==◌, if◌then◌else◌, pos, ℕ, ◌+◌, ◌%◌, ◌^◌, Bool, false, Option, none, some, List, [], ◌∷◌, ◌++◌,
}
use hovorun.Containers.IdSet
use hovorun.Containers.IdSet.{IdSet}
use hovorun.Containers.IdMap
use hovorun.Containers.IdMap.{IdMap}
use hovorun.Net.Message.Writer.{
  Writer, ◌▹◌, write_u16, write_u32, write_i32, write_bool, write_byte_array, write_guid,
}
use hovorun.Proudnet.CoreRmi
use hovorun.Proudnet.Types.{host_id_first_client, rmi_begin}
use hovorun.Proudnet.Peer
use hovorun.Proudnet.Peer.{Peer, is_connected, new_peer}

pub record Server : Type 0 where
  pub instance_guid : List ℕ
  pub peers : IdMap Peer
  pub groups : IdMap IdSet
  pub free_ids : IdSet
  pub next_id : ℕ
  pub next_event_id : ℕ
  pub sent : List (ℕ × List ℕ)

abbrev pub init : List ℕ → Server
init guid = record {
  instance_guid = guid;
  peers = [];
  groups = [];
  free_ids = [];
  next_id = host_id_first_client;
  next_event_id = 1;
  sent = [];
}

-- `m_next_id++`
abbrev pub next_u32 : ℕ → ℕ
next_u32 n = (n + 1) % 2 ^ 32

-- The smallest free id, or the next new one; 50 is skipped.
unfoldable pub allocate_host_id : Server → ℕ × Server
allocate_host_id s = elim s.free_ids [
  | id ∷ rest ↦ (id, record s { free_ids = rest })
  | [] ↦
      if s.next_id == 50
      then (next_u32 s.next_id, record s { next_id = next_u32 (next_u32 s.next_id) })
      else (s.next_id, record s { next_id = next_u32 s.next_id })
]

abbrev pub release_host_id : ℕ → Server → Server
release_host_id id s = record s { free_ids = IdSet.insert id s.free_ids }

abbrev pub find : ℕ → Server → Option Peer
find id s = IdMap.find id s.peers

-- A payload to one peer, whatever its state.
pub queue : ℕ → Peer × Option (List ℕ) → Server → Server
queue id (p, none) s = record s { peers = IdMap.put id p s.peers }
queue id (p, some frame) s = record s {
  peers = IdMap.put id p s.peers;
  sent = s.sent ++ (id, frame) ∷ [];
}

pub send : ℕ → Writer → Bool → Server → Server
unfolding queue
send to message encrypt s = elim (find to s) [
  | none ↦ s
  | some p ↦ if is_connected p.state then queue to (Peer.send message encrypt p) s else s
]

-- The part of server::accept that keeps the books; Server/Hint adds what peer::start sends.
unfoldable pub accept : Server → ℕ × Server
unfolding allocate_host_id
accept s =
    let (id, s') = allocate_host_id s in (id, record s' { peers = IdMap.put id new_peer s'.peers })

pub member_join_message : List ℕ → ℕ → ℕ → ℕ → Writer
member_join_message guid group joined event =
    rmi_begin CoreRmi.p2p_group_member_join_unencrypted
    ▹ write_u32 group
    ▹ write_u32 joined
    ▹ write_byte_array []
    ▹ write_u32 event
    ▹ write_i32 (pos 1)
    ▹ write_guid guid
    ▹ write_bool false
    ▹ write_u16 0

pub notify_group_member_join : ℕ → ℕ → ℕ → Server → Server
unfolding member_join_message
notify_group_member_join group member_to_notify joined_member s =
    send member_to_notify (member_join_message s.instance_guid group joined_member s.next_event_id)
      false (record s { next_event_id = next_u32 s.next_event_id })

pub member_leave_message : ℕ → ℕ → Writer
member_leave_message group left =
    rmi_begin CoreRmi.p2p_group_member_leave ▹ write_u32 left ▹ write_u32 group

pub notify_group_member_leave : ℕ → ℕ → ℕ → Server → Server
unfolding member_leave_message
notify_group_member_leave group member_to_notify left_member =
    send member_to_notify (member_leave_message group left_member) false

-- The loop of join_p2p_group over the members, the new one among them.
pub join_loop : ℕ → ℕ → IdSet → Server → Server
unfolding notify_group_member_join
join_loop group member [] s = s
join_loop group member (existing ∷ rest) s =
    let s' = notify_group_member_join group member existing s in
    join_loop group member rest
      (if existing == member then s' else notify_group_member_join group existing member s')

-- A member that has its connection and is not in the group yet.
join_members : ℕ → ℕ → IdSet → Server → Server
unfolding join_loop
join_members group member members s =
    if IdSet.contains member members
    then s
    else join_loop group member (IdSet.insert member members)
        (record s { groups = IdMap.put group (IdSet.insert member members) s.groups })

pub join_p2p_group : ℕ → ℕ → Server → Server
unfolding join_members
join_p2p_group group member s = elim (IdMap.find group s.groups) [
  | none ↦ s
  | some members ↦ elim (find member s) [ none ↦ s | some p ↦ join_members group member members s ]
]

pub leave_loop : ℕ → ℕ → IdSet → Server → Server
unfolding notify_group_member_leave
leave_loop group member [] s = s
leave_loop group member (remaining ∷ rest) s =
    leave_loop group member rest (notify_group_member_leave group remaining member s)

pub leave_p2p_group : ℕ → ℕ → Server → Server
unfolding leave_loop
leave_p2p_group group member s = elim (IdMap.find group s.groups) [
  | none ↦ s
  | some members ↦
      if IdSet.contains member members
      then notify_group_member_leave group member member (
          leave_loop group member (IdSet.erase member members)
            (record s { groups = IdMap.put group (IdSet.erase member members) s.groups }))
      else s
]

join_all : ℕ → List ℕ → Server → Server
unfolding join_p2p_group
join_all group [] s = s
join_all group (m ∷ members) s = join_all group members (join_p2p_group group m s)

pub create_p2p_group : List ℕ → Server → ℕ × Server
unfolding allocate_host_id join_all
create_p2p_group members s =
    let (group, s') = allocate_host_id s in
    (group, join_all group members (record s' { groups = IdMap.put group [] s'.groups }))

leave_all : ℕ → List ℕ → Server → Server
unfolding leave_p2p_group
leave_all group [] s = s
leave_all group (m ∷ members) s = leave_all group members (leave_p2p_group group m s)

pub destroy_p2p_group : ℕ → Server → Server
unfolding leave_all
destroy_p2p_group group s = elim (IdMap.find group s.groups) [
  | none ↦ s
  | some members ↦
      let s' = leave_all group members s in
      release_host_id group (record s' { groups = IdMap.remove group s'.groups })
]

-- The loop of on_peer_closed over the groups.
leave_groups : ℕ → IdMap IdSet → Server → Server
unfolding leave_p2p_group
leave_groups id [] s = s
leave_groups id ((group, members) ∷ groups) s =
    leave_groups id groups (if IdSet.contains id members then leave_p2p_group group id s else s)

pub on_peer_closed : ℕ → Server → Server
unfolding leave_groups
on_peer_closed id s =
    let s' = leave_groups id s.groups s in
    release_host_id id (record s' { peers = IdMap.remove id s'.peers })
