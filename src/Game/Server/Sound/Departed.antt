-- ===== src/Game/Server/Sound/Departed.antt =====
-- src/game/game_server.cpp, remove_from_room: what becomes of the player, the room and its master.
use mathlib.Core.Path.{subst}
use hovorun.Prelude.{
  ◌==◌, if◌then◌else◌, lt→ltb, ==_refl, if_elim, length, get_or, set, get_or-set, ℕ, zero, suc, ◌<◌,
  ◌≡◌, refl, sym, ◌≢◌, Bool, false, Option, none, some, List, [], ◌∷◌, arith,
}
use hovorun.Containers.IdMap
use hovorun.Containers.IdMap.{IdMap}
use hovorun.Game.Server.{
  Player, Room, GameServer, count_taken, after_leave, without_room, emptied, leave_found, remove_at,
  remove_from_room,
}
use hovorun.Game.Server.Sound.{occupant, master_of, IsSound}
use hovorun.Game.Server.Sound.Leave.{Left, vacant-Left, kept-Left, handed-Left, seated_room}

abbrev pub taken_in : Option Room → ℕ
taken_in none = 0
taken_in (some r) = count_taken r.slots

-- `p`, the player of the room at `a`, was taken out of it: it is in no room, its slot is empty, and
-- the other players and slots are as before. If nobody is left in the room, m_rooms has lost it, and
-- else m_rooms is as before, and the room has someone in its master's slot if m_rooms holds it.
pub record Departed (p : Player) (a : ℕ) (g g' : GameServer) : Type 0 where
  pub player : IdMap.find p.host g'.players ≡ some (without_room p)
  pub others : (k : ℕ) → (k == p.host) ≡ false → IdMap.find k g'.players ≡ IdMap.find k g.players
  pub slots :
      (i : ℕ)
      → occupant i (IdMap.find a g'.heap)
        ≡ (if i == p.slot then 0 else occupant i (IdMap.find a g.heap))
  pub dropped : taken_in (IdMap.find a g'.heap) ≡ 0 → (n : ℕ) → IdMap.find n g'.rooms ≢ some a
  pub kept : taken_in (IdMap.find a g'.heap) ≢ 0 → g'.rooms ≡ g.rooms
  pub master : (n : ℕ) → IdMap.find n g'.rooms ≡ some a → 0 < master_of (IdMap.find a g'.heap)

get_or_in : (xs : List ℕ) (i : ℕ) → get_or xs i 0 ≢ 0 → i < length xs
get_or_in [] i h = absurd (h refl)
get_or_in (x ∷ xs) zero h = omega arith
get_or_in (x ∷ xs) (suc i) h = omega (arith, get_or_in xs i h)

empty_slots : (xs : List ℕ) → count_taken xs ≡ 0 → (i : ℕ) → get_or xs i 0 ≡ 0
unfolding count_taken
empty_slots [] h i = refl
empty_slots (zero ∷ xs) h zero = refl
empty_slots (zero ∷ xs) h (suc i) = empty_slots xs (omega (arith, h)) i
empty_slots (suc n ∷ xs) h i = absurd (ground arith)

module _ (p : Player) (a : ℕ) (r r' : Room) (g g' : GameServer) (s : IsSound g)
    (e : IdMap.find p.host g.players ≡ some p) (i : p.current_room ≡ some a)
    (f : IdMap.find a g.heap ≡ some r)
    (l : Left p.host a p r r' g.players g'.players g.rooms g'.rooms g.heap g'.heap) where
  room_now : IdMap.find a g'.heap ≡ some r'
  room_now = rw (l.room a, ==_refl a) refl

  slots_now :
      (j : ℕ)
      → occupant j (IdMap.find a g'.heap)
        ≡ (if j == p.slot then 0 else occupant j (IdMap.find a g.heap))
  unfolding IdMap.has
  slots_now j =
      let sat : get_or r.slots p.slot 0 ≡ p.host = rw (e, f) at (s.seated p.host a (rw (e) i)) in
      let positive = s.nonzero p.host (rw (IdMap.has, e) refl) in
      let inside = get_or_in r.slots p.slot (λ z. omega arith) in
      rw
        (
          room_now,
          f,
          l.slots,
          get_or-set r.slots p.slot 0 j 0,
          lt→ltb p.slot (length r.slots) inside,
        )
        (ground arith)

  Left-Departed : (count_taken r'.slots ≢ 0 → g'.rooms ≡ g.rooms) → Departed p a g g'
  Left-Departed kept = record {
    player = rw (l.player p.host, ==_refl p.host) refl;
    others = λ k d. rw (l.player k, d) refl;
    slots = slots_now;
    dropped = λ z n c.
        let empty = empty_slots r'.slots (rw (room_now) at z) r'.master_slot in
        let bad = l.master n c in omega arith;
    kept = λ z. kept (rw (room_now) at z);
    master = λ n c. rw (room_now) (l.master n c);
  }

leave_found-Departed :
    (p : Player) (kicked : Bool) (a : ℕ) (r : Room) (g : GameServer)
    → IsSound g
    → IdMap.find p.host g.players ≡ some p
    → p.current_room ≡ some a
    → IdMap.find a g.heap ≡ some r
    → Departed p a g (leave_found p kicked a (some r) g)
unfolding leave_found after_leave
leave_found-Departed p kicked a r g s e i f =
    if_elim (Departed p a g) (count_taken (set r.slots p.slot 0) == 0)
      (λ q.
        Left-Departed p a r (emptied p r) g _ s e i f (vacant-Left p a r g i e f s)
          (λ z. absurd (z (ground arith))))
      (λ q.
        if_elim (Departed p a g) (r.master_slot == p.slot)
          (λ c.
            Left-Departed p a r _ g _ s e i f (handed-Left p a r g i e f s (λ z. ground arith))
              (λ z. refl))
          (λ c.
            Left-Departed p a r (emptied p r) g _ s e i f (kept-Left p a r g i e f s c)
              (λ z. refl)))

-- A player of a room that is taken out of it, kicked or not, on a sound server, is in no room then, and
-- its slot is empty; the other slots and the other players are as before. If nobody is left in the
-- room, no number of m_rooms leads to it any more; else m_rooms is as before. If m_rooms still leads to
-- the room, someone sits in its master's slot.
pub remove_from_room-Departed :
    (p : Player) (kicked : Bool) (a : ℕ) (g : GameServer)
    → IsSound g
    → IdMap.find p.host g.players ≡ some p
    → p.current_room ≡ some a
    → Departed p a g (remove_from_room p kicked g)
unfolding remove_from_room
remove_from_room-Departed p kicked a g s e i =
    let (r, f) = seated_room p a g s e i in
    subst (λ o. Departed p a g (remove_at p kicked o g)) (sym i)
      (subst (λ o. Departed p a g (leave_found p kicked a o g)) (sym f)
        (leave_found-Departed p kicked a r g s e i f))
