-- ===== src/Proudnet/Server/Keeps.antt =====
-- src/proudnet/server.cpp: accepting a peer and changing the groups keep the books consistent.
use hovorun.Prelude.{
  ◌==◌, Bool-cases, ℕ, ◌+◌, ◌^◌, ◌<◌, ◌≡◌, refl, sym, inl, inr, true, false, List, [], ◌∷◌, arith,
}
use hovorun.Containers.IdSet
use hovorun.Containers.IdSet.{IdSet}
use hovorun.Containers.IdMap
use hovorun.Containers.IdMap.{IdMap}
use hovorun.Proudnet.Server.{
  Server, allocate_host_id, accept, join_p2p_group, leave_p2p_group, create_p2p_group, join_all,
}
use hovorun.Proudnet.Peer.{Peer, new_peer}
use hovorun.Proudnet.Server.Consistent.{IdOk, IsConsistent, Allocated, is_peer, is_group, IdOk-mono}
use hovorun.Proudnet.Server.Groups.{
  SameIds-IsConsistent, leave_p2p_group-Changed, join_p2p_group-Changed,
}
use hovorun.Proudnet.Server.Allocate.{allocate_host_id-Allocated}

is_peer_same : (m k : ℕ) (s : Server) → (m == k) ≡ true → is_peer m s ≡ is_peer k s
is_peer_same m k s e = let same : m ≡ k = ground arith in rw same refl

pub join_p2p_group-IsConsistent :
    (group member : ℕ) (s : Server) → IsConsistent s → IsConsistent (join_p2p_group group member s)
join_p2p_group-IsConsistent group member s c =
    let b = join_p2p_group-Changed group member s in
    SameIds-IsConsistent b.ids c (λ g m e.
      let old = c.members g m in
      let new = b.member g m in
      let same : (m == member) ≡ true → is_peer m s ≡ is_peer member s =
        λ q. is_peer_same m member s q in
      ground arith)

pub leave_p2p_group-IsConsistent :
    (group member : ℕ) (s : Server) → IsConsistent s → IsConsistent (leave_p2p_group group member s)
leave_p2p_group-IsConsistent group member s c =
    let b = leave_p2p_group-Changed group member s in
    SameIds-IsConsistent b.ids c
      (λ g m e. let old = c.members g m in let new = b.member g m in ground arith)

-- The books with a new id put to use as a peer's.
accepted-IdOk :
    (s t : Server) (id : ℕ) (p : Peer) (j : ℕ)
    → IsConsistent s
    → Allocated s id t
    → IdOk (record t { peers = IdMap.put id p t.peers }) j
unfolding IdSet.contains
accepted-IdOk s t id p j c a = elim (Bool-cases (j == id)) [
  | inl e ↦
      let same : j ≡ id = ground arith in
      let no_group : is_group j t ≡ false = rw (a.groups, same) a.no_group in
      record {
        free_peer = rw (same, a.not_free) refl;
        free_group = rw (same, a.not_free) refl;
        peer_group = (ground arith);
        from_three = λ e. rw same a.from_three;
        handed_out = λ e. rw same a.below;
        not_fifty = λ e. rw same a.not_fifty;
      }
  | inr e ↦
      IdOk-mono s _ j (c.ids j) (λ q. let free = a.free j in ground arith)
        (λ q. rw (IdMap.has-put id j p t.peers, e, a.peers) at q) (λ q. rw (a.groups) at q) a.grows
]

pub accept-IsConsistent :
    (s : Server) → IsConsistent s → s.next_id + 2 < 2 ^ 32 → IsConsistent (accept s).1
unfolding accept
accept-IsConsistent s c h =
    let a = allocate_host_id-Allocated s c h in
    record {
      ids = λ j. accepted-IdOk s _ _ new_peer j c a;
      sorted = a.sorted;
      next = omega (arith, c.next, a.grows);
      members = λ g m e.
          let old = c.members g m (rw a.groups at e) in
          rw
            (
              IdMap.has-put (allocate_host_id s).0 m new_peer (allocate_host_id s).1.peers,
              a.peers,
              old,
            )
            (ground arith);
    }

-- The books with a new id put to use as a group's.
created-IdOk :
    (s t : Server) (id : ℕ) (j : ℕ)
    → IsConsistent s
    → Allocated s id t
    → IdOk (record t { groups = IdMap.put id [] t.groups }) j
unfolding IdSet.contains
created-IdOk s t id j c a = elim (Bool-cases (j == id)) [
  | inl e ↦
      let same : j ≡ id = ground arith in
      let no_peer : is_peer j t ≡ false = rw (a.peers, same) a.no_peer in
      record {
        free_peer = rw (same, a.not_free) refl;
        free_group = rw (same, a.not_free) refl;
        peer_group = ground arith;
        from_three = λ e. rw same a.from_three;
        handed_out = λ e. rw same a.below;
        not_fifty = λ e. rw same a.not_fifty;
      }
  | inr e ↦
      IdOk-mono s _ j (c.ids j) (λ q. let free = a.free j in ground arith) (λ q. rw (a.peers) at q)
        (λ q. rw (IdMap.has-put id j [] t.groups, e, a.groups) at q) a.grows
]

created-IsConsistent :
    (s t : Server) (id : ℕ)
    → IsConsistent s
    → Allocated s id t
    → IsConsistent (record t { groups = IdMap.put id [] t.groups })
unfolding IdSet.contains
created-IsConsistent s t id c a = record {
  ids = λ j. created-IdOk s t id j c a;
  sorted = a.sorted;
  next = omega (arith, c.next, a.grows);
  members = λ g m e.
      let old = c.members g m in
      let found = IdMap.find-put id g [] t.groups in
      let groups = a.groups in
      rw (a.peers) (
        old (elim (Bool-cases (g == id)) [
          | inl q ↦ let bad = rw (found, q) at e in ground arith
          | inr q ↦ rw (sym groups) (rw (found, q) at e)
        ]));
}

join_all-IsConsistent :
    (group : ℕ) (members : List ℕ) (s : Server)
    → IsConsistent s
    → IsConsistent (join_all group members s)
unfolding join_all
join_all-IsConsistent group [] s c = c
join_all-IsConsistent group (m ∷ members) s c =
    join_all-IsConsistent group members (join_p2p_group group m s)
      (join_p2p_group-IsConsistent group m s c)

pub create_p2p_group-IsConsistent :
    (members : List ℕ) (s : Server)
    → IsConsistent s
    → s.next_id + 2 < 2 ^ 32
    → IsConsistent (create_p2p_group members s).1
unfolding create_p2p_group
create_p2p_group-IsConsistent members s c h =
    join_all-IsConsistent _ members _
      (created-IsConsistent s _ _ c (allocate_host_id-Allocated s c h))
