-- ===== src/Game/Server/Eject.antt =====
-- src/game/game_server.cpp: kick, gm_close_room and gm_kick.
use hovorun.Prelude.{
  leb, ◌==◌, if◌then◌else◌, get_or, ℕ, zero, suc, Bool, true, not, ◌||◌, Option, none, some, List,
}
use hovorun.Containers.IdMap
use hovorun.Containers.IdMap.{IdMap}
use hovorun.Containers.TextMap.{same_text}
use hovorun.Net.Message.Reader.{read_u32, read_string}
use hovorun.Game.Server.{
  Player, GameServer, room_slots, player_by_host, remove_from_room, Handler, reading,
}
use hovorun.Game.Server.Settings.{mastered_room}

unfoldable pub eject : Option Player → GameServer → GameServer
unfolding remove_from_room
eject none g = g
eject (some target) g = remove_from_room target true g

unfoldable pub kick_slot : Player → ℕ → GameServer → GameServer
unfolding eject mastered_room
kick_slot p slot g = elim (mastered_room p g) [
  | none ↦ g
  | some (a, r) ↦
      if leb room_slots slot || slot == p.slot
      then g
      else eject (player_by_host (get_or r.slots slot 0) g) g
]

unfoldable pub kick : Handler
unfolding reading kick_slot
kick = reading read_u32 kick_slot

-- Who stands in a slot of the room at `a` now.
abbrev pub in_slot : ℕ → ℕ → GameServer → Option Player
in_slot a i g = elim (IdMap.find a g.heap) [
  | none ↦ none
  | some r ↦ player_by_host (get_or r.slots i 0) g
]

abbrev pub only : (Player → Bool) → Option Player → Option Player
only test none = none
only test (some other) = if test other then some other else none

-- The loops over the slots, `n` of them from slot `i`, which read the room while it is emptied.
unfoldable pub eject_slots : (Player → Bool) → ℕ → ℕ → ℕ → GameServer → GameServer
unfolding eject
eject_slots test a zero i g = g
eject_slots test a (suc n) i g = eject_slots test a n (suc i) (eject (only test (in_slot a i g)) g)

unfoldable pub gm_close_room : Handler
unfolding eject_slots
gm_close_room p params g = elim p.current_room [
  | none ↦ g
  | some a ↦ eject_slots (λ other. not (other.host == p.host)) a room_slots 0 g
]

-- The source may read the room after its last player left it and it was freed.
unfoldable pub kick_named : Player → List ℕ → GameServer → GameServer
unfolding eject_slots
kick_named p nickname g = elim p.current_room [
  | none ↦ g
  | some a ↦ eject_slots (λ other. same_text other.nickname nickname) a room_slots 0 g
]

unfoldable pub gm_kick : Handler
unfolding reading kick_named
gm_kick = reading read_string kick_named
