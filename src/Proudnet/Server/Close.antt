-- ===== src/Proudnet/Server/Close.antt =====
-- src/proudnet/server.cpp: on_peer_closed and destroy_p2p_group, exactly.
use hovorun.Prelude.{
  ◌==◌, Bool-cases, Option-cases, ℕ, ◌≤◌, ◌≡◌, refl, ◌∙◌, inl, inr, true, false, not, ◌&&◌, ◌||◌,
  none, some, List, [], ◌∷◌, arith,
}
use hovorun.Containers.IdSet
use hovorun.Containers.IdSet.{IdSet}
use hovorun.Containers.IdMap
use hovorun.Containers.IdMap.{IdMap}
use hovorun.Proudnet.Server.{
  Server, leave_p2p_group, destroy_p2p_group, on_peer_closed, leave_all, leave_groups,
}
use hovorun.Proudnet.Server.Consistent.{is_peer, is_group, is_free, has_member, is_member}
use hovorun.Proudnet.Server.Groups.{
  SameIds, SameIds-refl, SameIds-trans, is_member-found, leave_p2p_group-Changed,
}

-- What the loop of on_peer_closed leaves: the member is in no group of the list.
record Left (id : ℕ) (groups : IdMap IdSet) (s t : Server) : Type 0 where
  ids : SameIds s t
  others : (g m : ℕ) → (m == id) ≡ false → is_member g m t ≡ is_member g m s
  gone : (g : ℕ) → is_member g id t ≡ true → is_member g id s ≡ true
  listed : (g : ℕ) → is_member g id t ≡ true → has_member id (IdMap.find g groups) ≡ false

leave_groups-Left :
    (id : ℕ) (groups : IdMap IdSet) (s : Server) → Left id groups s (leave_groups id groups s)
unfolding leave_groups IdMap.find
leave_groups-Left id [] s = record {
  ids = SameIds-refl s;
  others = λ g m e. refl;
  gone = λ g e. e;
  listed = λ g e. refl;
}
leave_groups-Left id ((group, members) ∷ groups) s = elim (Bool-cases (IdSet.contains id members)) [
  | inl h ↦
      let b = leave_p2p_group-Changed group id s in
      let l = leave_groups-Left id groups (leave_p2p_group group id s) in
      rw (h, leave_groups)
        (record {
          ids = SameIds-trans b.ids l.ids;
          others = λ g m e. let now = b.member g m in let later = l.others g m e in ground arith;
          gone = λ g e. let now = b.member g id in let later = l.gone g e in ground arith;
          listed = λ g e.
              let now = b.member g id in
              let later = l.gone g e in let rest = l.listed g e in ground arith;
        })
  | inr h ↦
      let l = leave_groups-Left id groups s in
      rw (h, leave_groups)
        (record {
          ids = l.ids;
          others = l.others;
          gone = l.gone;
          listed = λ g e. let rest = l.listed g e in ground arith;
        })
]

gone_everywhere :
    (id : ℕ) (s : Server) (g : ℕ) → is_member g id (leave_groups id s.groups s) ≡ false
gone_everywhere id s g =
    let l = leave_groups-Left id s.groups s in
    elim (Bool-cases (is_member g id (leave_groups id s.groups s))) [
      | inl e ↦ let gone = l.gone g e in let listed = l.listed g e in ground arith
      | inr e ↦ e
    ]

-- The books after a peer closed: it is no peer and in no group, its id is free, and the rest stays.
pub record Closed (id : ℕ) (s t : Server) : Type 0 where
  pub peers : (j : ℕ) → is_peer j t ≡ (not (j == id) && is_peer j s)
  pub groups : (j : ℕ) → is_group j t ≡ is_group j s
  pub free : (j : ℕ) → is_free j t ≡ (j == id || is_free j s)
  pub member : (g m : ℕ) → is_member g m t ≡ (not (m == id) && is_member g m s)
  pub next : t.next_id ≡ s.next_id

-- on_peer_closed takes the peer off the peers and out of every group, frees its id, and changes no
-- other peer, group, membership or free id.
pub on_peer_closed-Closed : (id : ℕ) (s : Server) → Closed id s (on_peer_closed id s)
unfolding on_peer_closed
on_peer_closed-Closed id s =
    let l = leave_groups-Left id s.groups s in
    record {
      peers = λ j.
          let same = l.ids.peers j in
          rw (IdMap.has-remove id j (leave_groups id s.groups s).peers, same) refl;
      groups = l.ids.groups;
      free = λ j.
          rw (IdSet.contains-insert id j (leave_groups id s.groups s).free_ids, l.ids.free) refl;
      member = λ g m.
          let others = l.others g m in
          elim (Bool-cases (m == id)) [
            | inl e ↦ let same : m ≡ id = ground arith in rw (e) (rw same (gone_everywhere id s g))
            | inr e ↦ rw (e) (others e)
          ];
      next = l.ids.next;
    }

pub on_peer_closed-Above :
    (id : ℕ) (s : Server)
    → IdSet.Above 3 s.free_ids
    → 3 ≤ id
    → IdSet.Above 3 (on_peer_closed id s).free_ids
unfolding on_peer_closed
on_peer_closed-Above id s a h =
    let l = leave_groups-Left id s.groups s in
    IdSet.insert-Above 3 id (leave_groups id s.groups s).free_ids h (rw (l.ids.free) a)

leave_all-SameIds :
    (group : ℕ) (members : List ℕ) (s : Server) → SameIds s (leave_all group members s)
unfolding leave_all
leave_all-SameIds group [] s = SameIds-refl s
leave_all-SameIds group (m ∷ members) s =
    let b = leave_p2p_group-Changed group m s in
    SameIds-trans b.ids (leave_all-SameIds group members (leave_p2p_group group m s))

leave_all-others :
    (group : ℕ) (members : List ℕ) (s : Server) (g m : ℕ)
    → (g == group) ≡ false
    → is_member g m (leave_all group members s) ≡ is_member g m s
unfolding leave_all
leave_all-others group [] s g m e = refl
leave_all-others group (k ∷ members) s g m e =
    let b = leave_p2p_group-Changed group k s in
    let now = b.member g m in
    leave_all-others group members (leave_p2p_group group k s) g m e ∙ ground arith

-- The books after a group is destroyed, if there was one with that id.
pub record Destroyed (group : ℕ) (s t : Server) : Type 0 where
  pub peers : (j : ℕ) → is_peer j t ≡ is_peer j s
  pub groups : (j : ℕ) → is_group j t ≡ (not (j == group) && is_group j s)
  pub free : (j : ℕ) → is_free j t ≡ (j == group && is_group group s || is_free j s)
  pub member : (g m : ℕ) → is_member g m t ≡ (not (g == group) && is_member g m s)
  pub next : t.next_id ≡ s.next_id

destroy_found :
    (group : ℕ) (members : IdSet) (s : Server)
    → IdMap.find group s.groups ≡ some members
    → Destroyed group s (destroy_p2p_group group s)
unfolding destroy_p2p_group IdMap.has
destroy_found group members s e =
    let b = leave_all-SameIds group members s in
    let t = leave_all group members s in
    rw (e, destroy_p2p_group)
      (record {
        peers = b.peers;
        groups = λ j. let same = b.groups j in rw (IdMap.has-remove group j t.groups, same) refl;
        free =
            λ j. rw (IdSet.contains-insert group j t.free_ids, b.free, IdMap.has, e) (ground arith);
        member = λ g m.
            let found = IdMap.find-remove group g t.groups in
            let others = leave_all-others group members s g m in ground arith;
        next = b.next;
      })

no_group :
    (j group : ℕ) (s : Server)
    → IdMap.find group s.groups ≡ none
    → is_group j s ≡ (not (j == group) && is_group j s)
unfolding IdMap.has
no_group j group s e = elim (Bool-cases (j == group)) [
  | inl h ↦ let same : j ≡ group = ground arith in rw (h) (rw (same, IdMap.has, e) refl)
  | inr h ↦ rw (h) refl
]

-- destroy_p2p_group takes the group and its memberships away and frees its id, and changes nothing
-- else in the books; for an id that is no group's it changes nothing.
pub destroy_p2p_group-Destroyed :
    (group : ℕ) (s : Server) → Destroyed group s (destroy_p2p_group group s)
unfolding destroy_p2p_group IdMap.has
destroy_p2p_group-Destroyed group s = elim (Option-cases (IdMap.find group s.groups)) [
  | inr (members, e) ↦ destroy_found group members s e
  | inl e ↦
      rw (e, destroy_p2p_group)
        (record {
          peers = λ j. refl;
          groups = λ j. no_group j group s e;
          free = λ j. rw (IdMap.has, e) (ground arith);
          member = λ g m. let found = is_member-found group g m none s e in ground arith;
          next = refl;
        })
]

pub destroy_p2p_group-Above :
    (group : ℕ) (s : Server)
    → IdSet.Above 3 s.free_ids
    → (is_group group s ≡ true → 3 ≤ group)
    → IdSet.Above 3 (destroy_p2p_group group s).free_ids
unfolding destroy_p2p_group IdMap.has
destroy_p2p_group-Above group s a h = elim (Option-cases (IdMap.find group s.groups)) [
  | inl e ↦ rw (e, destroy_p2p_group) a
  | inr (members, e) ↦
      let b = leave_all-SameIds group members s in
      rw (e, destroy_p2p_group)
        (IdSet.insert-Above 3 group (leave_all group members s).free_ids
          (h (rw (e, IdMap.has) refl)) (rw (b.free) a))
]
