-- ===== src/Game/Server/Sound/Moves.antt =====
-- src/game/game_server.cpp: the handlers that take players into rooms and out of them keep players and
-- rooms sound.
use mathlib.Core.Path.{subst}
use hovorun.Prelude.{
  leb, ◌==◌, Bool-cases, Option-cases, is_none, if_elim, get_or, ℕ, zero, suc, ◌≡◌, refl, sym, inl,
  inr, Bool, true, false, not, ◌&&◌, ◌||◌, some,
}
use hovorun.Containers.IdMap
use hovorun.Containers.IdMap.{IdMap}
use hovorun.Game.Server.{Player, GameServer, room_slots, no_channel, player_by_host}
use hovorun.Game.Server.Settings.{mastered_room}
use hovorun.Game.Server.Eject.{
  eject, kick_slot, in_slot, only, eject_slots, gm_close_room, kick_named,
}
use hovorun.Game.Server.Login.{logout}
use hovorun.Game.Server.Sound.{IsSound}
use hovorun.Game.Server.Sound.Leave.{remove_from_room-IsSound}
use hovorun.Game.Server.Sound.Kept.{IsPlayer, Keeps, move_to-IsSound}
use hovorun.Game.Server.Lobby.{enter_lobby, leave_channel, rooms_in, find_room}
use hovorun.Game.Server.Entry.{
  leave_room, create_room_of, has_slot, enter_room_of, first_joinable, quick_join_of,
}
use hovorun.Game.Server.Sound.Join.{join_room-IsSound, create_room_of-IsSound}
use hovorun.Containers.TextMap.{same_text}
use hovorun.App.Accounts.{is_blank}

-- The player found under an id stands there under its own.
pub found-IsPlayer :
    (k : ℕ) (p : Player) (g : GameServer)
    → IsSound g
    → player_by_host k g ≡ some p
    → (p.host ≡ k) × IsPlayer p g
unfolding IdMap.has
found-IsPlayer k p g s e =
    let same : p.host ≡ k = rw (e) at (s.hosts k (rw (IdMap.has, e) refl)) in
    (same, subst (λ j. IdMap.find j g.players ≡ some p) (sym same) e)

eject-IsSound : (k : ℕ) (g : GameServer) → IsSound g → IsSound (eject (player_by_host k g) g)
unfolding eject
eject-IsSound k g s = elim (Option-cases (player_by_host k g)) [
  | inl q ↦ rw (q, eject) s
  | inr (p, q) ↦ rw (q, eject) (remove_from_room-IsSound p true g s (found-IsPlayer k p g s q).1)
]

pub kick_slot-Keeps : Keeps kick_slot
unfolding kick_slot
kick_slot-Keeps p slot g s e = elim (Option-cases (mastered_room p g)) [
  | inl i ↦ rw (i, kick_slot) s
  | inr ((a, r), i) ↦
      rw (i, kick_slot)
        (if_elim IsSound (leb room_slots slot || slot == p.slot) (λ q. s)
          (λ q. eject-IsSound (get_or r.slots slot 0) g s))
]

eject-only-IsSound :
    (test : Player → Bool) (k : ℕ) (g : GameServer)
    → IsSound g
    → IsSound (eject (only test (player_by_host k g)) g)
unfolding eject
eject-only-IsSound test k g s = elim (Option-cases (player_by_host k g)) [
  | inl q ↦ rw (q, only, eject) s
  | inr (p, q) ↦ elim (Bool-cases (test p)) [
    | inl t ↦
        rw (q, only, t, eject) (remove_from_room-IsSound p true g s (found-IsPlayer k p g s q).1)
    | inr t ↦ rw (q, only, t, eject) s
  ]
]

eject_slot-IsSound :
    (test : Player → Bool) (a i : ℕ) (g : GameServer)
    → IsSound g
    → IsSound (eject (only test (in_slot a i g)) g)
unfolding eject
eject_slot-IsSound test a i g s = elim (Option-cases (IdMap.find a g.heap)) [
  | inl q ↦ rw (in_slot, q, only, eject) s
  | inr (r, q) ↦ rw (in_slot, q) (eject-only-IsSound test (get_or r.slots i 0) g s)
]

eject_slots-IsSound :
    (test : Player → Bool) (a n i : ℕ) (g : GameServer)
    → IsSound g
    → IsSound (eject_slots test a n i g)
unfolding eject_slots
eject_slots-IsSound test a zero i g s = s
eject_slots-IsSound test a (suc n) i g s =
    eject_slots-IsSound test a n (suc i) (eject (only test (in_slot a i g)) g)
      (eject_slot-IsSound test a i g s)

pub gm_close_room-Keeps : Keeps gm_close_room
unfolding gm_close_room
gm_close_room-Keeps p params g s e = elim (Option-cases p.current_room) [
  | inl q ↦ rw (q, gm_close_room) s
  | inr (a, q) ↦
      rw (q, gm_close_room)
        (eject_slots-IsSound (λ other. not (other.host == p.host)) a room_slots 0 g s)
]

pub kick_named-Keeps : Keeps kick_named
unfolding kick_named
kick_named-Keeps p nickname g s e = elim (Option-cases p.current_room) [
  | inl q ↦ rw (q, kick_named) s
  | inr (a, q) ↦
      rw (q, kick_named)
        (eject_slots-IsSound (λ other. same_text other.nickname nickname) a room_slots 0 g s)
]

pub create_room_of-Keeps : Keeps create_room_of
create_room_of-Keeps p info g s e = create_room_of-IsSound p info g s e

pub enter_room_of-Keeps : Keeps enter_room_of
unfolding enter_room_of
enter_room_of-Keeps p (number, password) g s e =
    elim (Option-cases (find_room p.channel number g)) [
      | inl q ↦ rw (q, enter_room_of) s
      | inr ((a, r), q) ↦
          rw (q, enter_room_of)
            (if_elim IsSound r.playing (λ c. s)
              (λ c.
                if_elim IsSound
                  (not (is_blank r.info.password) && not (same_text r.info.password password))
                  (λ c. s)
                  (λ c.
                    if_elim IsSound (not (has_slot r)) (λ c. s)
                      (λ c. join_room-IsSound p a g s e))))
    ]

pub quick_join_of-Keeps : Keeps quick_join_of
unfolding quick_join_of
quick_join_of-Keeps p x g s e =
    elim (Option-cases (first_joinable (rooms_in p.channel g.rooms g.heap))) [
      | inl q ↦ rw (q, quick_join_of) s
      | inr (a, q) ↦ rw (q, quick_join_of) (join_room-IsSound p a g s e)
    ]

pub leave_room-Keeps : Keeps leave_room
unfolding leave_room
leave_room-Keeps p params g s e =
    if_elim IsSound (is_none p.current_room) (λ q. s) (λ q. remove_from_room-IsSound p false g s e)

pub logout-Keeps : Keeps logout
unfolding logout
logout-Keeps p params g s e = remove_from_room-IsSound p false g s e

pub enter_lobby-Keeps : Keeps enter_lobby
unfolding enter_lobby
enter_lobby-Keeps p params g s e = move_to-IsSound no_channel p g s e

pub leave_channel-Keeps : Keeps leave_channel
unfolding leave_channel
leave_channel-Keeps p params g s e = move_to-IsSound no_channel p g s e
