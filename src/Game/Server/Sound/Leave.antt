-- ===== src/Game/Server/Sound/Leave.antt =====
-- src/game/game_server.cpp, remove_from_room: players and rooms stay sound.
use mathlib.Core.Path.{subst}
use hovorun.Prelude.{
  ◌==◌, if◌then◌else◌, ==_refl, Bool-cases, Option-cases, if_elim, get_or, set, length-set,
  get_or-set, ℕ, zero, suc, ◌<◌, ◌≡◌, refl, sym, ap, ◌∙◌, ◌≢◌, inl, inr, Bool, true, false, some,
  List, [], ◌∷◌, arith,
}
use hovorun.Containers.IdMap
use hovorun.Containers.IdMap.{IdMap}
use hovorun.Game.Server.{
  hand_over, Player, Room, GameServer, room_slots, count_taken, first_taken, after_leave,
  without_room, emptied, leave_found, remove_at, remove_from_room, out_of, out_of_room,
}
use hovorun.Game.Server.Sound.{
  SoundParts, host_of, room_of, slot_of, occupant, master_of, number_of, size_of, IsSound,
}

-- Where a slot is taken, find_if stops at one.
pub first_taken_lem :
    (slots : List ℕ) → count_taken slots ≢ 0 → 0 < get_or slots (first_taken slots) 0
unfolding count_taken first_taken
first_taken_lem [] h = absurd (h refl)
first_taken_lem (zero ∷ slots) h = first_taken_lem slots (λ e. h (omega (arith, e)))
first_taken_lem (suc n ∷ slots) h = ground arith

-- The player `p` under `k`, in the room `r` at `a`, was taken out of it, which made it `r'`.
pub record Left (k a : ℕ) (p : Player) (r r' : Room) (players m : IdMap Player) (rooms n : IdMap ℕ)
    (heap h : IdMap Room) : Type 0 where
  pub player :
      (j : ℕ) → IdMap.find j m ≡ (if j == k then some (without_room p) else IdMap.find j players)
  pub room : (j : ℕ) → IdMap.find j h ≡ (if j == a then some r' else IdMap.find j heap)
  pub slots : r'.slots ≡ set r.slots p.slot 0
  pub info : r'.info ≡ r.info
  pub closed : r'.closed ≡ r.closed
  pub listed : (i b : ℕ) → IdMap.find i n ≡ some b → IdMap.find i rooms ≡ some b
  pub master : (i : ℕ) → IdMap.find i n ≡ some a → 0 < get_or r'.slots r'.master_slot 0

module _ {k a : ℕ} {p : Player} {r r' : Room} {players m : IdMap Player} {rooms n : IdMap ℕ}
    {heap h : IdMap Room} {next : ℕ} (e : IdMap.find k players ≡ some p)
    (i : p.current_room ≡ some a) (f : IdMap.find a heap ≡ some r)
    (l : Left k a p r r' players m rooms n heap h) (s : SoundParts players rooms heap next) where
  left-sat : get_or r.slots p.slot 0 ≡ k
  left-sat = rw (e, f) at (s.seated k a (rw (e) i))

  left-has : (j : ℕ) → IdMap.has j m ≡ true → IdMap.has j players ≡ true
  unfolding IdMap.has
  left-has j q = elim (Bool-cases (j == k)) [
    | inl t ↦ let same : j ≡ k = ground arith in rw (same, e, IdMap.has) refl
    | inr t ↦ rw (IdMap.has, l.player j, t) at q
  ]

  left-hosts : (j : ℕ) → IdMap.has j m ≡ true → host_of (IdMap.find j m) ≡ j
  unfolding IdMap.has
  left-hosts j q =
      let old = s.hosts j (left-has j q) in
      elim (Bool-cases (j == k)) [
        | inl t ↦
            let same : j ≡ k = ground arith in rw (l.player j, t) ((rw (same, e) at old) ∙ sym same)
        | inr t ↦ rw (l.player j, t) old
      ]

  -- Someone else in that room sits elsewhere.
  left-elsewhere :
      (j slot : ℕ) → (j == k) ≡ false → get_or r.slots slot 0 ≡ j → get_or r'.slots slot 0 ≡ j
  left-elsewhere j slot t q =
      let sat = left-sat in
      let cleared = get_or-set r.slots p.slot 0 slot 0 in
      let same : slot ≡ p.slot → get_or r.slots slot 0 ≡ get_or r.slots p.slot 0 =
        λ c. ap (λ x. get_or r.slots x 0) c in
      rw (l.slots, cleared) (ground arith)

  left-seated :
      (j b : ℕ)
      → room_of (IdMap.find j m) ≡ some b
      → occupant (slot_of (IdMap.find j m)) (IdMap.find b h) ≡ j
  left-seated j b q = elim (Bool-cases (j == k)) [
    | inl t ↦ let bad = rw (l.player j, t) at q in cc
    | inr t ↦
        let old = s.seated j b (rw (l.player j, t) at q) in
        rw (l.player j, t, l.room b)
          (if_elim (λ o. occupant (slot_of (IdMap.find j players)) o ≡ j) (b == a)
            (λ c.
              let same : b ≡ a = ground arith in
              left-elsewhere j (slot_of (IdMap.find j players)) t (rw (same, f) at old))
            (λ c. old))
  ]

  left-mastered : (i b : ℕ) → IdMap.find i n ≡ some b → 0 < master_of (IdMap.find b h)
  left-mastered i b q = rw (l.room b) (
      if_elim (λ o. 0 < master_of o) (b == a)
        (λ c. let same : b ≡ a = ground arith in l.master i (rw same at q))
        (λ c. s.mastered i b (l.listed i b q)))

  pub Left-SoundParts : SoundParts m n h next
  unfolding IdMap.has
  Left-SoundParts = record {
    hosts = left-hosts;
    nonzero = λ j q. s.nonzero j (left-has j q);
    seated = left-seated;
    numbered = λ i b q.
        let old = s.numbered i b (l.listed i b q) in
        rw (l.room b) (
          if_elim (λ o. number_of o ≡ i) (b == a)
            (λ c.
              let same : b ≡ a = ground arith in ap (λ x. x.number) l.info ∙ (rw (same, f) at old))
            (λ c. old));
    mastered = left-mastered;
    sizes = λ b. rw (l.room b) (
        if_elim (λ o. size_of o ≡ room_slots) (b == a)
          (λ c. rw (l.slots, length-set r.slots p.slot 0) (rw (f) at (s.sizes a)))
          (λ c. s.sizes b));
    fresh = λ b q. elim (Bool-cases (b == a)) [
      | inl c ↦ let same : b ≡ a = ground arith in rw same (s.fresh a (rw (f, IdMap.has) refl))
      | inr c ↦ s.fresh b (rw (IdMap.has, l.room b, c) at q)
    ];
  }

-- What remove_from_room writes for the player `p`, by whether the room is empty then and whether it
-- was the master's slot.
module _ (p : Player) (a : ℕ) (r : Room) (g : GameServer) (i : p.current_room ≡ some a)
    (e : IdMap.find p.host g.players ≡ some p) (f : IdMap.find a g.heap ≡ some r)
    (s : IsSound g) where
  pub vacant-Left :
      Left p.host a p r
        (emptied p r)
        g.players
        (IdMap.put p.host (without_room p) g.players)
        g.rooms
        (IdMap.remove r.info.number g.rooms)
        g.heap
        (IdMap.put a (emptied p r) g.heap)
  vacant-Left = record {
    player = λ j. IdMap.find-put p.host j (without_room p) g.players;
    room = λ j. IdMap.find-put a j (emptied p r) g.heap;
    slots = refl;
    info = refl;
    closed = refl;
    listed = λ n b q. let law = IdMap.find-remove r.info.number n g.rooms in ground arith;
    master = λ n q.
        let law = IdMap.find-remove r.info.number n g.rooms in
        let number : IdMap.find n g.rooms ≡ some a → r.info.number ≡ n =
          λ c. rw (f) at (s.numbered n a c) in
        ground arith;
  }

  pub kept-Left :
      (r.master_slot == p.slot) ≡ false
      → Left p.host a p r
          (emptied p r)
          g.players
          (IdMap.put p.host (without_room p) g.players)
          g.rooms
          g.rooms
          g.heap
          (IdMap.put a (emptied p r) g.heap)
  kept-Left d = record {
    player = λ j. IdMap.find-put p.host j (without_room p) g.players;
    room = λ j. IdMap.find-put a j (emptied p r) g.heap;
    slots = refl;
    info = refl;
    closed = refl;
    listed = λ n b q. q;
    master =
        λ n q. rw (get_or-set r.slots p.slot 0 r.master_slot 0, d) (rw (f) at (s.mastered n a q));
  }

  pub handed-Left :
      count_taken (set r.slots p.slot 0) ≢ 0
      → Left p.host a p r
          (record (emptied p r) { master_slot = first_taken (set r.slots p.slot 0) })
          g.players
          (IdMap.put p.host (without_room p) g.players)
          g.rooms
          g.rooms
          g.heap
          (IdMap.put a
            (record (emptied p r) { master_slot = first_taken (set r.slots p.slot 0) })
            (IdMap.put a (emptied p r) g.heap))
  handed-Left d = record {
    player = λ j. IdMap.find-put p.host j (without_room p) g.players;
    room = λ j.
        let first = IdMap.find-put a j (emptied p r) g.heap in
        let law =
          IdMap.find-put a j
            (record (emptied p r) { master_slot = first_taken (set r.slots p.slot 0) })
            (IdMap.put a (emptied p r) g.heap) in
        ground arith;
    slots = refl;
    info = refl;
    closed = refl;
    listed = λ n b q. q;
    master = λ n q. first_taken_lem (set r.slots p.slot 0) d;
  }

  pub leave_found-Left :
      (kicked : Bool)
      → (r' : Room) × Left p.host a p r r' g.players
          (leave_found p kicked a (some r) g).players
          g.rooms
          (leave_found p kicked a (some r) g).rooms
          g.heap
          (leave_found p kicked a (some r) g).heap
  unfolding leave_found after_leave
  leave_found-Left kicked =
      let Made : GameServer → Type 0 =
        λ h. (r' : Room) × Left p.host a p r r' g.players h.players g.rooms h.rooms g.heap h.heap in
      if_elim Made (count_taken (set r.slots p.slot 0) == 0) (λ q. (emptied p r, vacant-Left))
        (λ q.
          if_elim Made (r.master_slot == p.slot)
            (λ c. (hand_over (emptied p r), handed-Left (λ z. ground arith)))
            (λ c. (emptied p r, kept-Left c)))

  leave_found-IsSound : (kicked : Bool) → IsSound (leave_found p kicked a (some r) g)
  unfolding leave_found after_leave
  leave_found-IsSound kicked =
      if_elim IsSound (count_taken (set r.slots p.slot 0) == 0)
        (λ q. Left-SoundParts e i f vacant-Left s)
        (λ q.
          if_elim IsSound (r.master_slot == p.slot)
            (λ c. Left-SoundParts e i f (handed-Left (λ z. ground arith)) s)
            (λ c. Left-SoundParts e i f (kept-Left c) s))

  leave_found-player :
      (kicked : Bool)
      → IdMap.find p.host (leave_found p kicked a (some r) g).players ≡ some (without_room p)
  unfolding leave_found after_leave
  leave_found-player kicked =
      let law : IdMap.find p.host (IdMap.put p.host (without_room p) g.players)
          ≡ some (without_room p) =
        rw (IdMap.find-put p.host p.host (without_room p) g.players, ==_refl p.host) refl in
      if_elim (λ (h : GameServer). IdMap.find p.host h.players ≡ some (without_room p))
        (count_taken (set r.slots p.slot 0) == 0) (λ q. law)
        (λ q.
          if_elim (λ (h : GameServer). IdMap.find p.host h.players ≡ some (without_room p))
            (r.master_slot == p.slot) (λ c. law) (λ c. law))

-- The room of a player is an object of the heap.
pub seated_room :
    (p : Player) (a : ℕ) (g : GameServer)
    → IsSound g
    → IdMap.find p.host g.players ≡ some p
    → p.current_room ≡ some a
    → (r : Room) × (IdMap.find a g.heap ≡ some r)
unfolding IdMap.has
seated_room p a g s e i = elim (Option-cases (IdMap.find a g.heap)) [
  | inr found ↦ found
  | inl q ↦
      let sat : 0 ≡ p.host = rw (e, q) at (s.seated p.host a (rw (e) i)) in
      let bad = s.nonzero p.host (rw (IdMap.has, e) refl) in absurd (omega arith)
]

-- A player that is taken out of its room is in none, and leaves all sound.
pub remove_from_room-IsSound :
    (p : Player) (kicked : Bool) (g : GameServer)
    → IsSound g
    → IdMap.find p.host g.players ≡ some p
    → IsSound (remove_from_room p kicked g)
unfolding remove_from_room
remove_from_room-IsSound p kicked g s e = elim (Option-cases p.current_room) [
  | inl i ↦ subst (λ o. IsSound (remove_at p kicked o g)) (sym i) s
  | inr (a, i) ↦
      let (r, f) = seated_room p a g s e i in
      subst (λ o. IsSound (remove_at p kicked o g)) (sym i)
        (rw (f) (leave_found-IsSound p a r g i e f s kicked))
]

pub remove_from_room-player :
    (p : Player) (kicked : Bool) (g : GameServer)
    → IsSound g
    → IdMap.find p.host g.players ≡ some p
    → IdMap.find p.host (remove_from_room p kicked g).players ≡ some (out_of_room p)
unfolding remove_from_room
remove_from_room-player p kicked g s e = elim (Option-cases p.current_room) [
  | inl i ↦
      subst (λ o. IdMap.find p.host (remove_at p kicked o g).players ≡ some (out_of o p)) (sym i) e
  | inr (a, i) ↦
      let (r, f) = seated_room p a g s e i in
      subst (λ o. IdMap.find p.host (remove_at p kicked o g).players ≡ some (out_of o p)) (sym i)
        (rw (f) (leave_found-player p a r g i e f s kicked))
]
