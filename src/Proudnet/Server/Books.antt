-- ===== src/Proudnet/Server/Books.antt =====
-- src/proudnet/server.cpp: what sending leaves alone, and which ids are in use.
use hovorun.Prelude.{
  ◌==◌, Option-cases, if_elim, ℕ, ◌≡◌, refl, ◌∙◌, inl, inr, Bool, true, false, Option, none, some,
  List, [], ◌∷◌,
}
use hovorun.Containers.IdSet.{IdSet}
use hovorun.Containers.IdMap
use hovorun.Containers.IdMap.{IdMap}
use hovorun.Proudnet.Server.{
  Server, find, send, member_join_message, member_leave_message, queue, notify_group_member_join,
  notify_group_member_leave, join_loop, leave_loop,
}
use hovorun.Proudnet.Peer.{Peer, is_connected}

-- The same ids are peers, groups and free; only the peers' own state and the messages may differ.
pub record SameBooks (s t : Server) : Type 0 where
  pub peers : (j : ℕ) → IdMap.has j t.peers ≡ IdMap.has j s.peers
  pub groups : t.groups ≡ s.groups
  pub free : t.free_ids ≡ s.free_ids
  pub next : t.next_id ≡ s.next_id

pub SameBooks-refl : (s : Server) → SameBooks s s
SameBooks-refl s = record { peers = λ j. refl; groups = refl; free = refl; next = refl }

pub SameBooks-trans : {s t u : Server} → SameBooks s t → SameBooks t u → SameBooks s u
SameBooks-trans a b = record {
  peers = λ j. b.peers j ∙ a.peers j;
  groups = b.groups ∙ a.groups;
  free = b.free ∙ a.free;
  next = b.next ∙ a.next;
}

pub queue-SameBooks :
    (id : ℕ) (r : Peer × Option (List ℕ)) (s : Server)
    → IdMap.has id s.peers ≡ true
    → SameBooks s (queue id r s)
unfolding queue
queue-SameBooks id (p, none) s h = record {
  peers = λ j. IdMap.has-put_self id j p s.peers h;
  groups = refl;
  free = refl;
  next = refl;
}
queue-SameBooks id (p, some frame) s h = record {
  peers = λ j. IdMap.has-put_self id j p s.peers h;
  groups = refl;
  free = refl;
  next = refl;
}

pub has-find : (id : ℕ) (s : Server) (p : Peer) → find id s ≡ some p → IdMap.has id s.peers ≡ true
unfolding IdMap.has
has-find id s p e = rw (e, IdMap.has) refl

-- A send changes no id.
pub send-SameBooks :
    (to : ℕ) (message : List ℕ) (encrypt : Bool) (s : Server)
    → SameBooks s (send to message encrypt s)
unfolding send
send-SameBooks to message encrypt s = elim (Option-cases (find to s)) [
  | inl e ↦ rw (e, send) (SameBooks-refl s)
  | inr (p, e) ↦
      rw (e, send)
        (if_elim (SameBooks s) (is_connected p.state)
          (λ _. queue-SameBooks to _ s (has-find to s p e)) (λ _. SameBooks-refl s))
]

pub join_notice-SameBooks :
    (group to joined : ℕ) (s : Server) → SameBooks s (notify_group_member_join group to joined s)
unfolding notify_group_member_join
join_notice-SameBooks group to joined s =
    SameBooks-trans (record { peers = λ j. refl; groups = refl; free = refl; next = refl })
      (send-SameBooks to (member_join_message s.instance_guid group joined s.next_event_id) false _)

pub leave_notice-SameBooks :
    (group to left : ℕ) (s : Server) → SameBooks s (notify_group_member_leave group to left s)
unfolding notify_group_member_leave
leave_notice-SameBooks group to left s = send-SameBooks to (member_leave_message group left) false s

pub join_loop-SameBooks :
    (group member : ℕ) (members : IdSet) (s : Server)
    → SameBooks s (join_loop group member members s)
unfolding join_loop
join_loop-SameBooks group member [] s = SameBooks-refl s
join_loop-SameBooks group member (existing ∷ rest) s =
    let s' = notify_group_member_join group member existing s in
    SameBooks-trans (join_notice-SameBooks group member existing s) (
      SameBooks-trans
        (if_elim (SameBooks s') (existing == member) (λ _. SameBooks-refl s')
          (λ _. join_notice-SameBooks group existing member s'))
        (join_loop-SameBooks group member rest _))

pub leave_loop-SameBooks :
    (group member : ℕ) (members : IdSet) (s : Server)
    → SameBooks s (leave_loop group member members s)
unfolding leave_loop
leave_loop-SameBooks group member [] s = SameBooks-refl s
leave_loop-SameBooks group member (remaining ∷ rest) s =
    SameBooks-trans (leave_notice-SameBooks group remaining member s)
      (leave_loop-SameBooks group member rest _)
