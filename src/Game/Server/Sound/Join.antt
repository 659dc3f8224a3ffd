-- ===== src/Game/Server/Sound/Join.antt =====
-- src/game/game_server.cpp, join_room and create_room: players and rooms stay sound.
use hovorun.Prelude.{
  ◌==◌, if◌then◌else◌, lt→ltb, ==_refl, Bool-cases, Option-cases, if_elim, length, get_or, set,
  length-set, get_or-set, ℕ, zero, suc, ◌+◌, ◌^◌, ◌≤◌, ◌<◌, ◌≡◌, refl, sym, ap, ◌∙◌, ◌≢◌, inl, inr,
  Bool, true, false, Option, none, some, [], arith,
}
use hovorun.Containers.IdMap
use hovorun.Containers.IdMap.{IdMap}
use hovorun.Game.Server.{
  Player, Room, GameServer, room_slots, no_channel, capacity, is_open, first_open, free_slot,
  remove_from_room, out_of, out_of_room,
}
use hovorun.Game.Server.Entry.{
  next_number, created_room, in_seat, open_room, create_room_of, sit, sit_found, join_room,
}
use hovorun.Game.Server.Sound.{
  SoundParts, host_of, room_of, slot_of, occupant, master_of, number_of, size_of, IsSound,
}
use hovorun.Game.Server.Sound.Leave.{remove_from_room-IsSound, remove_from_room-player}
use hovorun.Game.GsclTypes.RoomInfo.{RoomInfo}
use hovorun.Proudnet.Server.{create_p2p_group}

pub room_of-has :
    (k a : ℕ) (players : IdMap Player)
    → room_of (IdMap.find k players) ≡ some a
    → IdMap.has k players ≡ true
unfolding IdMap.has
room_of-has k a players e = ground arith

-- The player `p` under `k` was put in `slot` of the room at `a`, which is `r'` now.
pub record Placed (k a slot : ℕ) (p : Player) (r' : Room) (players m : IdMap Player)
    (rooms n : IdMap ℕ) (heap h : IdMap Room) (next next' : ℕ) : Type 0 where
  pub player :
      (j : ℕ) → IdMap.find j m ≡ (if j == k then some (in_seat a slot p) else IdMap.find j players)
  pub room : (j : ℕ) → IdMap.find j h ≡ (if j == a then some r' else IdMap.find j heap)
  pub host : p.host ≡ k
  pub positive : 0 < k
  pub sits : get_or r'.slots slot 0 ≡ k
  pub others : (i j : ℕ) → 0 < j → occupant i (IdMap.find a heap) ≡ j → get_or r'.slots i 0 ≡ j
  pub number : (i : ℕ) → IdMap.find i n ≡ some a → r'.info.number ≡ i
  pub master : (i : ℕ) → IdMap.find i n ≡ some a → 0 < get_or r'.slots r'.master_slot 0
  pub listed : (i b : ℕ) → (b == a) ≡ false → IdMap.find i n ≡ some b → IdMap.find i rooms ≡ some b
  pub size : length r'.slots ≡ room_slots
  pub below : a < next'
  pub grows : next ≤ next'

module _ {k a slot : ℕ} {p : Player} {r' : Room} {players m : IdMap Player} {rooms n : IdMap ℕ}
    {heap h : IdMap Room} {next next' : ℕ}
    (l : Placed k a slot p r' players m rooms n heap h next next')
    (s : SoundParts players rooms heap next) where
  placed-hosts : (j : ℕ) → IdMap.has j m ≡ true → host_of (IdMap.find j m) ≡ j
  unfolding IdMap.has
  placed-hosts j q = elim (Bool-cases (j == k)) [
    | inl t ↦ let same : j ≡ k = ground arith in rw (l.player j, t) (l.host ∙ sym same)
    | inr t ↦ rw (l.player j, t) (s.hosts j (rw (IdMap.has, l.player j, t) at q))
  ]

  placed-nonzero : (j : ℕ) → IdMap.has j m ≡ true → 0 < j
  unfolding IdMap.has
  placed-nonzero j q = elim (Bool-cases (j == k)) [
    | inl t ↦ let positive = l.positive in ground arith
    | inr t ↦ s.nonzero j (rw (IdMap.has, l.player j, t) at q)
  ]

  placed-seated :
      (j b : ℕ)
      → room_of (IdMap.find j m) ≡ some b
      → occupant (slot_of (IdMap.find j m)) (IdMap.find b h) ≡ j
  placed-seated j b q = elim (Bool-cases (j == k)) [
    | inl t ↦
        let same : j ≡ k = ground arith in
        let here : some a ≡ some b = rw (l.player j, t) at q in
        let there : (b == a) ≡ true = ground arith in
        rw (l.player j, t, l.room b, there) (l.sits ∙ sym same)
    | inr t ↦
        let was = rw (l.player j, t) at q in
        let old = s.seated j b was in
        let positive = s.nonzero j (room_of-has j b players was) in
        rw (l.player j, t, l.room b)
          (if_elim (λ o. occupant (slot_of (IdMap.find j players)) o ≡ j) (b == a)
            (λ c. let same : b ≡ a = ground arith in l.others _ j positive (rw same at old))
            (λ c. old))
  ]

  pub Placed-SoundParts : SoundParts m n h next'
  unfolding IdMap.has
  Placed-SoundParts = record {
    hosts = placed-hosts;
    nonzero = placed-nonzero;
    seated = placed-seated;
    numbered = λ i b q. rw (l.room b) (
        if_elim (λ o. number_of o ≡ i) (b == a)
          (λ c. let same : b ≡ a = ground arith in l.number i (rw same at q))
          (λ c. s.numbered i b (l.listed i b c q)));
    mastered = λ i b q. rw (l.room b) (
        if_elim (λ o. 0 < master_of o) (b == a)
          (λ c. let same : b ≡ a = ground arith in l.master i (rw same at q))
          (λ c. s.mastered i b (l.listed i b c q)));
    sizes = λ b.
        rw (l.room b)
          (if_elim (λ o. size_of o ≡ room_slots) (b == a) (λ c. l.size) (λ c. s.sizes b));
    fresh = λ b q. elim (Bool-cases (b == a)) [
      | inl c ↦ let same : b ≡ a = ground arith in rw same l.below
      | inr c ↦ omega (arith, l.grows, s.fresh b (rw (IdMap.has, l.room b, c) at q))
    ];
  }

-- A slot that free_slot gives is empty and open, below the capacity, and below eight.
pub record IsFree (r : Room) (slot : ℕ) : Type 0 where
  pub empty : get_or r.slots slot 0 ≡ 0
  pub not_closed : get_or r.closed slot false ≡ false
  pub below : slot < capacity r

first_open-IsFree :
    (r : Room) (n i slot : ℕ) → i + n ≤ capacity r → first_open r n i ≡ some slot → IsFree r slot
unfolding first_open
first_open-IsFree r zero i slot h e = cc
first_open-IsFree r (suc n) i slot h e = elim (Bool-cases (is_open r i)) [
  | inr q ↦ first_open-IsFree r n (suc i) slot (omega arith) (rw (first_open, q) at e)
  | inl q ↦
      let found : some i ≡ some slot = rw (first_open, q) at e in
      let same : i ≡ slot = cc in
      record {
        empty = rw⁻¹ same (ground arith);
        not_closed = rw⁻¹ same (ground arith);
        below = omega arith;
      }
]

pub free_slot-IsFree : (r : Room) (slot : ℕ) → free_slot r ≡ some slot → IsFree r slot
unfolding free_slot
free_slot-IsFree r slot e = first_open-IsFree r (capacity r) 0 slot (omega arith) e

pub capacity-le : (r : Room) → capacity r ≤ room_slots
capacity-le r = ground arith

pub sit-IsSound :
    (p : Player) (a slot : ℕ) (r : Room) (g : GameServer)
    → IsSound g
    → IdMap.has p.host g.players ≡ true
    → IdMap.find a g.heap ≡ some r
    → free_slot r ≡ some slot
    → IsSound (sit p a r slot g)
unfolding sit IdMap.has
sit-IsSound p a slot r g s e f q =
    let free = free_slot-IsFree r slot q in
    let size : length r.slots ≡ 8 = rw (f) at (s.sizes a) in
    let small : slot < 8 = omega (arith, free.below, capacity-le r) in
    let positive = s.nonzero p.host e in
    let written = λ (j : ℕ). get_or-set r.slots slot p.host j 0 in
    let empty = free.empty in
    Placed-SoundParts {p = p}
      (record {
        player = λ j. IdMap.find-put p.host j (in_seat a slot p) g.players;
        room = λ j. IdMap.find-put a j (record r { slots = set r.slots slot p.host }) g.heap;
        host = refl;
        positive = positive;
        sits = rw (written slot, size, lt→ltb slot 8 small, ==_refl slot) refl;
        others = λ i j d o.
            let old : get_or r.slots i 0 ≡ j = rw (f) at o in
            let here : i ≡ slot → get_or r.slots i 0 ≡ get_or r.slots slot 0 =
              λ c. ap (λ x. get_or r.slots x 0) c in
            rw (written i) (ground arith);
        number = λ n c. rw (f) at (s.numbered n a c);
        master = λ n c.
            let old : 0 < get_or r.slots r.master_slot 0 = rw (f) at (s.mastered n a c) in
            rw (written r.master_slot) (ground arith);
        listed = λ n b d c. c;
        size = length-set r.slots slot p.host ∙ size;
        below = s.fresh a (rw (IdMap.has, f) refl);
        grows = omega arith;
      })
      s

pub out_of-host : (o : Option ℕ) (p : Player) → (out_of o p).host ≡ p.host
out_of-host none p = refl
out_of-host (some a) p = refl

pub sit_found-IsSound :
    (p : Player) (a : ℕ) (g : GameServer)
    → IsSound g
    → IdMap.has p.host g.players ≡ true
    → IsSound (sit_found p a (IdMap.find a g.heap) g)
sit_found-IsSound p a g s e = elim (Option-cases (IdMap.find a g.heap)) [
  | inl q ↦ rw (q) s
  | inr (r, q) ↦ elim (Option-cases (free_slot r)) [
    | inl c ↦ rw (q, sit_found, c) s
    | inr (slot, c) ↦ rw (q, sit_found, c) (sit-IsSound p a slot r g s e q c)
  ]
]

-- The player after remove_from_room stands under the same id.
pub removed-has :
    (p : Player) (kicked : Bool) (g : GameServer)
    → IsSound g
    → IdMap.find p.host g.players ≡ some p
    → IdMap.has (out_of_room p).host (remove_from_room p kicked g).players ≡ true
unfolding IdMap.has
removed-has p kicked g s e =
    rw (out_of-host p.current_room p, IdMap.has, remove_from_room-player p kicked g s e) refl

pub join_room-IsSound :
    (p : Player) (a : ℕ) (g : GameServer)
    → IsSound g
    → IdMap.find p.host g.players ≡ some p
    → IsSound (join_room p a g)
unfolding join_room
join_room-IsSound p a g s e =
    sit_found-IsSound (out_of_room p) a (remove_from_room p false g)
      (remove_from_room-IsSound p false g s e) (removed-has p false g s e)

-- No object stands at the next address yet.
next_address-free : (g : GameServer) → IsSound g → IdMap.find g.next_address g.heap ≡ none
unfolding IdMap.has
next_address-free g s = elim (Option-cases (IdMap.find g.next_address g.heap)) [
  | inl q ↦ q
  | inr (r, q) ↦ let bad = s.fresh g.next_address (rw (IdMap.has, q) refl) in absurd (omega arith)
]

pub open_room-IsSound :
    (p : Player) (info : RoomInfo) (number : ℕ) (g : GameServer)
    → IsSound g
    → IdMap.has p.host g.players ≡ true
    → IsSound (open_room p info number g)
unfolding open_room
open_room-IsSound p info number g s e =
    let none_yet = next_address-free g s in
    let no_number : (n : ℕ) → IdMap.find n g.rooms ≢ some g.next_address =
      λ n c. let bad = rw (none_yet) at (s.mastered n g.next_address c) in omega arith in
    Placed-SoundParts {p = p} {r' = created_room number (create_p2p_group [] g.net).0 p info}
      (record {
        player = λ j. IdMap.find-put p.host j (in_seat g.next_address 0 p) g.players;
        room = λ j. IdMap.find-put g.next_address j _ g.heap;
        host = refl;
        positive = s.nonzero p.host e;
        sits = refl;
        others = λ i j d o. let bad : 0 ≡ j = rw (none_yet) at o in absurd (omega arith);
        number = λ n c.
            let law = IdMap.find-put number n g.next_address g.rooms in
            let no = no_number n in ground arith;
        master = λ n c. s.nonzero p.host e;
        listed =
            λ n b d c. let law = IdMap.find-put number n g.next_address g.rooms in ground arith;
        size = refl;
        below = omega arith;
        grows = omega arith;
      })
      s

pub create_room_of-IsSound :
    (p : Player) (info : RoomInfo) (g : GameServer)
    → IsSound g
    → IdMap.find p.host g.players ≡ some p
    → IsSound (create_room_of p info g)
unfolding create_room_of
create_room_of-IsSound p info g s e =
    let left = remove_from_room p false g in
    let sound = remove_from_room-IsSound p false g s e in
    if_elim IsSound (p.channel == no_channel) (λ q. s)
      (λ q. elim (Option-cases (next_number left.rooms (2 ^ 16) left.next_room_number)) [
        | inl c ↦ rw (c) sound
        | inr (number, c) ↦
            rw (c)
              (open_room-IsSound (out_of_room p) info number left sound (removed-has p false g s e))
      ])
