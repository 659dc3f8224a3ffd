-- ===== src/Proudnet/Server/Consistent.antt =====
-- src/proudnet/server.cpp: the invariant of the books, and that sending keeps it.
use hovorun.Prelude.{
  ◌==◌, Bool-cases, ℕ, ◌≤◌, ◌<◌, ◌≡◌, refl, ◌≢◌, inl, inr, Bool, true, false, not, ◌&&◌, ◌||◌,
  Option, none, some, List, [], arith,
}
use hovorun.Containers.IdSet
use hovorun.Containers.IdSet.{IdSet}
use hovorun.Containers.IdMap
use hovorun.Containers.IdMap.{IdMap}
use hovorun.Proudnet.Server.{Server, init}
use hovorun.Proudnet.Server.Books.{SameBooks}

abbrev pub is_peer : ℕ → Server → Bool
is_peer id s = IdMap.has id s.peers

abbrev pub is_group : ℕ → Server → Bool
is_group id s = IdMap.has id s.groups

abbrev pub is_free : ℕ → Server → Bool
is_free id s = IdSet.contains id s.free_ids

abbrev pub has_member : ℕ → Option IdSet → Bool
has_member m none = false
has_member m (some members) = IdSet.contains m members

abbrev pub is_member : ℕ → ℕ → Server → Bool
is_member group m s = has_member m (IdMap.find group s.groups)

-- An id is free, or a peer's, or a group's, and one of these only; and such an id was handed out.
pub record IdOk (s : Server) (id : ℕ) : Type 0 where
  pub free_peer : (is_free id s && is_peer id s) ≡ false
  pub free_group : (is_free id s && is_group id s) ≡ false
  pub peer_group : (is_peer id s && is_group id s) ≡ false
  pub from_three : (is_free id s || is_peer id s || is_group id s) ≡ true → 3 ≤ id
  pub handed_out : (is_free id s || is_peer id s || is_group id s) ≡ true → id < s.next_id
  pub not_fifty : (is_free id s || is_peer id s || is_group id s) ≡ true → id ≢ 50

pub record IsConsistent (s : Server) : Type 0 where
  pub ids : (id : ℕ) → IdOk s id
  pub sorted : IdSet.Above 3 s.free_ids
  pub next : 3 ≤ s.next_id
  pub members : (group m : ℕ) → is_member group m s ≡ true → is_peer m s ≡ true

pub init-IsConsistent : (guid : List ℕ) → IsConsistent (init guid)
unfolding IdMap.has IdMap.find IdSet.contains
init-IsConsistent guid = record {
  ids = λ id. record {
    free_peer = refl;
    free_group = refl;
    peer_group = refl;
    from_three = λ e. cc;
    handed_out = λ e. cc;
    not_fifty = λ e. cc;
  };
  sorted = tt;
  next = omega arith;
  members = λ group m e. cc;
}

pub SameBooks-IsConsistent : {s t : Server} → SameBooks s t → IsConsistent s → IsConsistent t
SameBooks-IsConsistent {s} {t} b c = record {
  ids = λ id.
      let ok = c.ids id in
      let peer = b.peers id in
      record {
        free_peer = rw (peer, b.free) ok.free_peer;
        free_group = rw (b.free, b.groups) ok.free_group;
        peer_group = rw (peer, b.groups) ok.peer_group;
        from_three = rw (peer, b.free, b.groups) ok.from_three;
        handed_out = rw (peer, b.free, b.groups, b.next) ok.handed_out;
        not_fifty = rw (peer, b.free, b.groups) ok.not_fifty;
      };
  sorted = rw b.free c.sorted;
  next = rw b.next c.next;
  members = λ group m e. rw (b.peers m) (c.members group m (rw b.groups at e));
}

-- An id in no new use is all right as before.
pub IdOk-mono :
    (s t : Server) (id : ℕ)
    → IdOk s id
    → (is_free id t ≡ true → is_free id s ≡ true)
    → (is_peer id t ≡ true → is_peer id s ≡ true)
    → (is_group id t ≡ true → is_group id s ≡ true)
    → s.next_id ≤ t.next_id
    → IdOk t id
IdOk-mono s t id ok free peer group next =
    let free_peer = ok.free_peer in
    let free_group = ok.free_group in
    let peer_group = ok.peer_group in
    let from_three = ok.from_three in
    let handed_out = ok.handed_out in
    let not_fifty = ok.not_fifty in
    record {
      free_peer = ground arith;
      free_group = ground arith;
      peer_group = ground arith;
      from_three = λ e. ground arith;
      handed_out = λ e. ground arith;
      not_fifty = λ e. ground arith;
    }

-- What allocate_host_id does to consistent books: `id` is in no use and the rest stays.
pub record Allocated (s : Server) (id : ℕ) (t : Server) : Type 0 where
  pub no_peer : is_peer id s ≡ false
  pub no_group : is_group id s ≡ false
  pub not_free : is_free id t ≡ false
  pub from_three : 3 ≤ id
  pub not_fifty : id ≢ 50
  pub below : id < t.next_id
  pub grows : s.next_id ≤ t.next_id
  pub peers : t.peers ≡ s.peers
  pub groups : t.groups ≡ s.groups
  pub free : (j : ℕ) → is_free j t ≡ (not (j == id) && is_free j s)
  pub sorted : IdSet.Above 3 t.free_ids

-- An id that was not handed out is in no use.
unused-is_peer : (s : Server) (id : ℕ) → IsConsistent s → s.next_id ≤ id → is_peer id s ≡ false
unused-is_peer s id c h =
    let ok = c.ids id in
    elim (Bool-cases (is_peer id s)) [ inl e ↦ let bad = ok.handed_out in ground arith | inr e ↦ e ]

unused-is_group : (s : Server) (id : ℕ) → IsConsistent s → s.next_id ≤ id → is_group id s ≡ false
unused-is_group s id c h =
    let ok = c.ids id in
    elim (Bool-cases (is_group id s)) [
      | inl e ↦ let bad = ok.handed_out in ground arith
      | inr e ↦ e
    ]

pub allocate_new :
    (s : Server) (id n : ℕ)
    → IsConsistent s
    → s.free_ids ≡ []
    → s.next_id ≤ id
    → id < n
    → id ≢ 50
    → Allocated s id (record s { next_id = n })
unfolding IdSet.contains
allocate_new s id n c e h g f = record {
  no_peer = unused-is_peer s id c h;
  no_group = unused-is_group s id c h;
  not_free = rw e refl;
  from_three = omega (arith, c.next);
  not_fifty = f;
  below = g;
  grows = omega arith;
  peers = refl;
  groups = refl;
  free = λ j. rw e (ground arith);
  sorted = c.sorted;
}
