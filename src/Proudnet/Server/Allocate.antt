-- ===== src/Proudnet/Server/Allocate.antt =====
-- src/proudnet/server.cpp: allocate_host_id hands out an id that is in no use.
use hovorun.Prelude.{
  ◌==◌, Bool-cases, List-cases, ℕ, suc, ◌+◌, ◌^◌, ◌<◌, ◌≡◌, refl, ◌≢◌, inl, inr, true, not, ◌&&◌,
  ◌||◌, [], ◌∷◌, arith,
}
use hovorun.Containers.IdSet
use hovorun.Containers.IdSet.{IdSet}
use hovorun.Proudnet.Server.{Server, next_u32, allocate_host_id}
use hovorun.Proudnet.Server.Consistent.{IsConsistent, Allocated, is_free, allocate_new}

free_rest :
    (id j : ℕ) (rest : IdSet)
    → IdSet.Above (suc id) rest
    → IdSet.contains j rest ≡ (not (j == id) && (j == id || IdSet.contains j rest))
free_rest id j rest a = elim (Bool-cases (j == id)) [
  | inl e ↦
      let same : j ≡ id = ground arith in
      rw (e) (rw same (IdSet.contains-below (suc id) id rest a (omega arith)))
  | inr e ↦ rw (e) refl
]

allocate_free :
    (s : Server) (id : ℕ) (rest : IdSet)
    → IsConsistent s
    → s.free_ids ≡ id ∷ rest
    → Allocated s id (record s { free_ids = rest })
unfolding IdSet.contains
allocate_free s id rest c e =
    let ok = c.ids id in
    let free_peer = ok.free_peer in
    let free_group = ok.free_group in
    let free : is_free id s ≡ true = rw e (ground arith) in
    let sorted = rw e at (c.sorted) in
    record {
      no_peer = ground arith;
      no_group = ground arith;
      not_free = IdSet.contains-below (suc id) id rest (sorted.1) (omega arith);
      from_three = sorted.0;
      not_fifty = ok.not_fifty (rw free refl);
      below = ok.handed_out (rw free refl);
      grows = omega arith;
      peers = refl;
      groups = refl;
      free = λ j. rw e (free_rest id j rest (sorted.1));
      sorted = IdSet.Above-mono 3 (suc id) rest (omega (arith, sorted.0)) (sorted.1);
    }

new_id :
    (s : Server)
    → s.free_ids ≡ []
    → s.next_id ≢ 50
    → allocate_host_id s ≡ (s.next_id, record s { next_id = next_u32 s.next_id })
unfolding allocate_host_id
new_id s e f = rw (e, allocate_host_id) (ground arith)

new_id-fifty :
    (s : Server)
    → s.free_ids ≡ []
    → s.next_id ≡ 50
    → allocate_host_id s
      ≡ (next_u32 s.next_id, record s { next_id = next_u32 (next_u32 s.next_id) })
unfolding allocate_host_id
new_id-fifty s e f = rw (e, allocate_host_id) (ground arith)

free_id :
    (s : Server) (id : ℕ) (rest : IdSet)
    → s.free_ids ≡ id ∷ rest
    → allocate_host_id s ≡ (id, record s { free_ids = rest })
unfolding allocate_host_id
free_id s id rest e = rw (e, allocate_host_id) refl

-- In a server with consistent books and with two ids left below 2^32, the id that allocate_host_id returns
-- is no peer's and no group's before the call, and not free after it; it is at least 3 and is not 50;
-- the peers and groups stay as they are, and of the free ids only the one returned goes.
pub allocate_host_id-Allocated :
    (s : Server)
    → IsConsistent s
    → s.next_id + 2 < 2 ^ 32
    → Allocated s (allocate_host_id s).0 (allocate_host_id s).1
allocate_host_id-Allocated s c h = elim (List-cases s.free_ids) [
  | inl e ↦ elim (Bool-cases (s.next_id == 50)) [
    | inl f ↦ rw (new_id-fifty s e (ground arith)) (
        allocate_new s (next_u32 s.next_id) (next_u32 (next_u32 s.next_id)) c e (omega arith)
          (omega arith) (λ g. ground arith))
    | inr f ↦ rw (new_id s e (λ g. ground arith)) (
        allocate_new s s.next_id (next_u32 s.next_id) c e (omega arith) (omega arith)
          (λ g. ground arith))
  ]
  | inr (id, (rest, e)) ↦ rw (free_id s id rest e) (allocate_free s id rest c e)
]
