-- ===== src/Proudnet/Server/Reach.antt =====
-- src/proudnet/server.cpp: every server that its operations can reach has consistent books.
use hovorun.Prelude.{
  ◌==◌, Bool-cases, ℕ, ◌+◌, ◌^◌, ◌≤◌, ◌<◌, ◌≡◌, refl, inl, inr, Bool, true, false, ◌&&◌, ◌||◌, List,
  arith,
}
use hovorun.Proudnet.Server.{
  Server, init, send, join_p2p_group, leave_p2p_group, create_p2p_group, destroy_p2p_group,
  on_peer_closed,
}
use hovorun.Proudnet.Server.Consistent.{
  IdOk, IsConsistent, is_peer, is_group, init-IsConsistent, SameBooks-IsConsistent, IdOk-mono,
}
use hovorun.Proudnet.Server.Books.{send-SameBooks}
use hovorun.Proudnet.Server.CoreMessages.{handle_core_message, handle_core_rmi}
use hovorun.Proudnet.Server.CoreMessages.Kept.{
  handle_core_message-SameBooks, handle_core_rmi-SameBooks,
}
use hovorun.Proudnet.Server.Hint.{NetSettings, accept_started, accept_started-IsConsistent}
use hovorun.Proudnet.Server.Close.{
  Closed, Destroyed, on_peer_closed-Closed, on_peer_closed-Above, destroy_p2p_group-Destroyed,
  destroy_p2p_group-Above,
}
use hovorun.Proudnet.Server.Keeps.{
  join_p2p_group-IsConsistent, leave_p2p_group-IsConsistent, create_p2p_group-IsConsistent,
}

-- An id that was in use and is released.
freed-IdOk :
    (id : ℕ) (s t : Server)
    → IdOk s id
    → (is_peer id s || is_group id s) ≡ true
    → is_peer id t ≡ false
    → is_group id t ≡ false
    → t.next_id ≡ s.next_id
    → IdOk t id
freed-IdOk id s t own used peer group next =
    let from_three = own.from_three in
    let handed_out = own.handed_out in
    let not_fifty = own.not_fifty in
    record {
      free_peer = rw peer (ground arith);
      free_group = rw group (ground arith);
      peer_group = rw peer refl;
      from_three = λ q. ground arith;
      handed_out = λ q. ground arith;
      not_fifty = λ q. ground arith;
    }

used-from_three :
    (id : ℕ) (s : Server) → IsConsistent s → (is_peer id s || is_group id s) ≡ true → 3 ≤ id
used-from_three id s c used = let own = c.ids id in let from_three = own.from_three in ground arith

freed_peer-IdOk :
    (id j : ℕ) (s t : Server) → IsConsistent s → is_peer id s ≡ true → Closed id s t → IdOk t j
freed_peer-IdOk id j s t c p d =
    let peers = d.peers j in
    let groups = d.groups j in
    let free = d.free j in
    let own = c.ids j in
    let peer_group = own.peer_group in
    elim (Bool-cases (j == id)) [
      | inl e ↦
          let same : j ≡ id = ground arith in
          let peer : is_peer j s ≡ true = rw same p in
          freed-IdOk j s t own (ground arith) (ground arith) (ground arith) d.next
      | inr e ↦
          IdOk-mono s t j own (λ q. ground arith) (λ q. ground arith) (λ q. ground arith)
            (rw (d.next) (omega arith))
    ]

pub on_peer_closed-IsConsistent :
    (id : ℕ) (s : Server)
    → IsConsistent s
    → is_peer id s ≡ true
    → IsConsistent (on_peer_closed id s)
on_peer_closed-IsConsistent id s c p =
    let d = on_peer_closed-Closed id s in
    record {
      ids = λ j. freed_peer-IdOk id j s (on_peer_closed id s) c p d;
      sorted = on_peer_closed-Above id s c.sorted (used-from_three id s c (rw p refl));
      next = rw (d.next) c.next;
      members = λ g m e.
          let member = d.member g m in
          let peers = d.peers m in let old = c.members g m in ground arith;
    }

freed_group-IdOk : (group j : ℕ) (s t : Server) → IsConsistent s → Destroyed group s t → IdOk t j
freed_group-IdOk group j s t c d =
    let peers = d.peers j in
    let groups = d.groups j in
    let free = d.free j in
    let own = c.ids j in
    let peer_group = own.peer_group in
    elim (Bool-cases (j == group && is_group group s)) [
      | inl e ↦
          let same : j ≡ group = ground arith in
          let used : is_group j s ≡ true = rw same (ground arith) in
          freed-IdOk j s t own (ground arith) (ground arith) (ground arith) d.next
      | inr e ↦
          IdOk-mono s t j own (λ q. ground arith) (λ q. ground arith) (λ q. ground arith)
            (rw (d.next) (omega arith))
    ]

pub destroy_p2p_group-IsConsistent :
    (group : ℕ) (s : Server) → IsConsistent s → IsConsistent (destroy_p2p_group group s)
destroy_p2p_group-IsConsistent group s c =
    let d = destroy_p2p_group-Destroyed group s in
    record {
      ids = λ j. freed_group-IdOk group j s (destroy_p2p_group group s) c d;
      sorted =
          destroy_p2p_group-Above group s c.sorted
            (λ q. used-from_three group s c (rw q (ground arith)));
      next = rw (d.next) c.next;
      members = λ g m e.
          let member = d.member g m in
          let peers = d.peers m in let old = c.members g m in ground arith;
    }

-- One operation of the server. An id is closed only for a peer, as its peer::close calls
-- on_peer_closed; a new id is asked for only while some are left below 2^32.
pub data Step : Server → Server → Type 0 where
  accepts :
      (settings : NetSettings) (s : Server)
      → s.next_id + 2 < 2 ^ 32
      → Step s (accept_started settings s).1
  sends :
      (to : ℕ) (message : List ℕ) (encrypt : Bool) (s : Server) → Step s (send to message encrypt s)
  creates :
      (members : List ℕ) (s : Server)
      → s.next_id + 2 < 2 ^ 32
      → Step s (create_p2p_group members s).1
  joins : (group member : ℕ) (s : Server) → Step s (join_p2p_group group member s)
  leaves : (group member : ℕ) (s : Server) → Step s (leave_p2p_group group member s)
  destroys : (group : ℕ) (s : Server) → Step s (destroy_p2p_group group s)
  handles_message :
      (server_time from type : ℕ) (r : List ℕ) (s : Server)
      → Step s (handle_core_message server_time from type r s)
  handles_rmi : (from rmi_id : ℕ) (s : Server) → Step s (handle_core_rmi from rmi_id s)
  closes : (id : ℕ) (s : Server) → is_peer id s ≡ true → Step s (on_peer_closed id s)

-- The servers that a run from a start can reach.
pub data Reach (guid : List ℕ) : Server → Type 0 where
  started : Reach guid (init guid)
  then_step : (s t : Server) → Reach guid s → Step s t → Reach guid t

Step-IsConsistent : {s t : Server} → Step s t → IsConsistent s → IsConsistent t
Step-IsConsistent (accepts settings s h) c = accept_started-IsConsistent settings s c h
Step-IsConsistent (sends to message encrypt s) c =
    SameBooks-IsConsistent (send-SameBooks to message encrypt s) c
Step-IsConsistent (creates members s h) c = create_p2p_group-IsConsistent members s c h
Step-IsConsistent (joins group member s) c = join_p2p_group-IsConsistent group member s c
Step-IsConsistent (leaves group member s) c = leave_p2p_group-IsConsistent group member s c
Step-IsConsistent (destroys group s) c = destroy_p2p_group-IsConsistent group s c
Step-IsConsistent (handles_message server_time from type r s) c =
    SameBooks-IsConsistent (handle_core_message-SameBooks server_time from type r s) c
Step-IsConsistent (handles_rmi from rmi_id s) c =
    SameBooks-IsConsistent (handle_core_rmi-SameBooks from rmi_id s) c
Step-IsConsistent (closes id s p) c = on_peer_closed-IsConsistent id s c p

-- In every server that accepts, sends, core messages, group operations and closes can reach, as long
-- as new ids are asked for below 2^32 - 2 and on_peer_closed is called for a peer: no id is in two of
-- the peers, the groups and the free ids; each id in use or free is at least 3, below the next new id,
-- and not 50; the free ids are in order; and every member of a group is a peer.
pub Reach-IsConsistent : {guid : List ℕ} {s : Server} → Reach guid s → IsConsistent s
Reach-IsConsistent started = init-IsConsistent _
Reach-IsConsistent (then_step s t r step) = Step-IsConsistent step (Reach-IsConsistent r)
