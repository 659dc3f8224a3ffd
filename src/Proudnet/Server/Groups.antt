-- ===== src/Proudnet/Server/Groups.antt =====
-- src/proudnet/server.cpp: which members join_p2p_group and leave_p2p_group leave in which group.
use hovorun.Prelude.{
  ◌==◌, if◌then◌else◌, Bool-cases, Option-cases, set, ℕ, ◌≡◌, refl, ◌∙◌, inl, inr, Bool, true,
  false, not, ◌&&◌, ◌||◌, Option, none, some, arith,
}
use hovorun.Containers.IdSet
use hovorun.Containers.IdSet.{IdSet}
use hovorun.Containers.IdMap
use hovorun.Containers.IdMap.{IdMap}
use hovorun.Proudnet.Server.{Server, find, join_p2p_group, leave_p2p_group, join_members}
use hovorun.Proudnet.Server.Books.{
  SameBooks, SameBooks-trans, leave_notice-SameBooks, join_loop-SameBooks, leave_loop-SameBooks,
}
use hovorun.Proudnet.Server.Consistent.{IsConsistent, is_peer, is_group, has_member, is_member}
use hovorun.Proudnet.Peer.{Peer}

-- The same ids are peers, groups and free; the members may differ.
pub record SameIds (s t : Server) : Type 0 where
  pub peers : (j : ℕ) → is_peer j t ≡ is_peer j s
  pub groups : (j : ℕ) → is_group j t ≡ is_group j s
  pub free : t.free_ids ≡ s.free_ids
  pub next : t.next_id ≡ s.next_id

pub SameIds-refl : (s : Server) → SameIds s s
SameIds-refl s = record { peers = λ j. refl; groups = λ j. refl; free = refl; next = refl }

pub SameIds-trans : {s t u : Server} → SameIds s t → SameIds t u → SameIds s u
SameIds-trans a b = record {
  peers = λ j. b.peers j ∙ a.peers j;
  groups = λ j. b.groups j ∙ a.groups j;
  free = b.free ∙ a.free;
  next = b.next ∙ a.next;
}

SameBooks-SameIds : {s t : Server} → SameBooks s t → SameIds s t
SameBooks-SameIds b = record {
  peers = b.peers;
  groups = λ j. rw (b.groups) refl;
  free = b.free;
  next = b.next;
}

pub SameIds-IsConsistent :
    {s t : Server}
    → SameIds s t
    → IsConsistent s
    → ((g m : ℕ) → is_member g m t ≡ true → is_peer m s ≡ true)
    → IsConsistent t
SameIds-IsConsistent {s} {t} b c keep = record {
  ids = λ id.
      let ok = c.ids id in
      let peer = b.peers id in
      let group = b.groups id in
      record {
        free_peer = rw (peer, b.free) ok.free_peer;
        free_group = rw (b.free, group) ok.free_group;
        peer_group = rw (peer, group) ok.peer_group;
        from_three = rw (peer, b.free, group) ok.from_three;
        handed_out = rw (peer, b.free, group, b.next) ok.handed_out;
        not_fifty = rw (peer, b.free, group) ok.not_fifty;
      };
  sorted = rw b.free c.sorted;
  next = rw b.next c.next;
  members = λ group m e. rw (b.peers m) (keep group m e);
}

-- What the books say after a group's set was written and only messages followed.
record Wrote (group : ℕ) (set : IdSet) (s t : Server) : Type 0 where
  ids : SameIds s t
  member :
      (g m : ℕ) → is_member g m t ≡ (if g == group then IdSet.contains m set else is_member g m s)

put_group-Wrote :
    (group : ℕ) (old set : IdSet) (s t : Server)
    → IdMap.find group s.groups ≡ some old
    → SameBooks (record s { groups = IdMap.put group set s.groups }) t
    → Wrote group set s t
unfolding IdMap.has
put_group-Wrote group old set s t e b = record {
  ids =
      SameIds-trans
        (record {
          peers = λ j. refl;
          groups = λ j. IdMap.has-put_self group j set s.groups (rw (e, IdMap.has) refl);
          free = refl;
          next = refl;
        })
        (SameBooks-SameIds b);
  member = λ g m. rw (b.groups, IdMap.find-put group g set s.groups) (ground arith);
}

leave_found :
    (group member : ℕ) (members : IdSet) (s : Server)
    → IdMap.find group s.groups ≡ some members
    → IdSet.contains member members ≡ true
    → Wrote group (IdSet.erase member members) s (leave_p2p_group group member s)
unfolding leave_p2p_group
leave_found group member members s e h =
    rw (e, h, leave_p2p_group)
      (put_group-Wrote group members (IdSet.erase member members) s _ e (
        SameBooks-trans
          (leave_loop-SameBooks group member (IdSet.erase member members)
            (record s { groups = IdMap.put group (IdSet.erase member members) s.groups }))
          (leave_notice-SameBooks group member member _)))

join_found :
    (group member : ℕ) (members : IdSet) (p : Peer) (s : Server)
    → IdMap.find group s.groups ≡ some members
    → find member s ≡ some p
    → IdSet.contains member members ≡ false
    → Wrote group (IdSet.insert member members) s (join_p2p_group group member s)
unfolding join_p2p_group join_members
join_found group member members p s e f h =
    rw (e, f, h, join_p2p_group, join_members)
      (put_group-Wrote group members (IdSet.insert member members) s _ e (
        join_loop-SameBooks group member (IdSet.insert member members)
          (record s { groups = IdMap.put group (IdSet.insert member members) s.groups })))

-- The ids are as before, and `m` is a member of `g` as `f` says.
pub record Changed (f : ℕ → ℕ → Bool) (s t : Server) : Type 0 where
  pub ids : SameIds s t
  pub member : (g m : ℕ) → is_member g m t ≡ f g m

pub is_member-found :
    (group g m : ℕ) (members : Option IdSet) (s : Server)
    → IdMap.find group s.groups ≡ members
    → (g == group) ≡ true
    → is_member g m s ≡ has_member m members
is_member-found group g m members s e h = let same : g ≡ group = ground arith in rw (same, e) refl

contains_same :
    (m k : ℕ) (members : IdSet) {b : Bool}
    → (m == k) ≡ true
    → IdSet.contains k members ≡ b
    → IdSet.contains m members ≡ b
contains_same m k members e h = let same : m ≡ k = ground arith in rw same h

-- leave_p2p_group takes that member out of that group; every other membership, and which ids are
-- peers, groups, free or next, stay as they were.
pub leave_p2p_group-Changed :
    (group member : ℕ) (s : Server)
    → Changed
        (λ g m. not (g == group && m == member) && is_member g m s)
        s
        (leave_p2p_group group member s)
unfolding leave_p2p_group
leave_p2p_group-Changed group member s = elim (Option-cases (IdMap.find group s.groups)) [
  | inl e ↦
      rw (e, leave_p2p_group)
        (record {
          ids = SameIds-refl s;
          member = λ g m. let found = is_member-found group g m none s e in ground (arith);
        })
  | inr (members, e) ↦ elim (Bool-cases (IdSet.contains member members)) [
    | inl h ↦
        let w = leave_found group member members s e h in
        record {
          ids = w.ids;
          member = λ g m.
              rw (w.member g m, IdSet.contains-erase member m members)
                (let found = is_member-found group g m (some members) s e in ground (arith));
        }
    | inr h ↦
        rw (e, h, leave_p2p_group)
          (record {
            ids = SameIds-refl s;
            member = λ g m.
                let found = is_member-found group g m (some members) s e in
                let same : (m == member) ≡ true → IdSet.contains m members ≡ false =
                  λ q. contains_same m member members q h in
                ground arith;
          })
  ]
]

-- join_p2p_group puts that member in that group if there are such a group and such a peer; every other
-- membership, and which ids are peers, groups, free or next, stay as they were.
pub join_p2p_group-Changed :
    (group member : ℕ) (s : Server)
    → Changed
        (λ g m.
          is_member g m s || (g == group && m == member && is_group group s && is_peer member s))
        s
        (join_p2p_group group member s)
unfolding join_p2p_group join_members IdMap.has
join_p2p_group-Changed group member s = elim (Option-cases (IdMap.find group s.groups)) [
  | inl e ↦
      rw (e, join_p2p_group)
        (record { ids = SameIds-refl s; member = λ g m. rw (IdMap.has, e) (ground arith) })
  | inr (members, e) ↦ elim (Option-cases (find member s)) [
    | inl f ↦
        rw (e, f, join_p2p_group)
          (record { ids = SameIds-refl s; member = λ g m. rw (IdMap.has, e, f) (ground arith) })
    | inr (p, f) ↦ elim (Bool-cases (IdSet.contains member members)) [
      | inl h ↦
          rw (e, f, h, join_p2p_group, join_members)
            (record {
              ids = SameIds-refl s;
              member = λ g m.
                  let found = is_member-found group g m (some members) s e in
                  let same : (m == member) ≡ true → IdSet.contains m members ≡ true =
                    λ q. contains_same m member members q h in
                  rw (IdMap.has, e, f) (ground arith);
            })
      | inr h ↦
          let w = join_found group member members p s e f h in
          record {
            ids = w.ids;
            member = λ g m.
                let found = is_member-found group g m (some members) s e in
                rw (w.member g m, IdSet.contains-insert member m members, IdMap.has, e, f)
                  (ground arith);
          }
    ]
  ]
]
