-- ===== src/Game/Server/Sound/Dispatch.antt =====
-- src/game/game_server.cpp: on_rmi keeps players and rooms sound.
use hovorun.Net.Message.Reader.{read_u8, read_u16, read_u32, read_string, read_many}
use hovorun.Game.GsclTypes.RoomInfo
use hovorun.Game.GsclTypes.AvatarInfo
use hovorun.Prelude.{◌⊗◌, ◌==◌, Option-cases, if_elim, All, ℕ, ◌<◌, inl, inr, List}
use hovorun.Containers.IdMap
use hovorun.Game.Clgs
use hovorun.Game.Server.{GameServer, player_by_host, Handler}
use hovorun.Game.Server.Lobby.{
  channel_list, enter_channel_to, enter_channel, change_channel_to, change_channel,
  channel_total_room_number, channel_user_list, two_u16, room_list_of, room_list,
  room_request_member_of, room_request_member, say_lobby, lobby_chat, cry_all, cry,
}
use hovorun.Game.Server.Misc.{
  set_character, select_character, set_avatar, update_avatar, read_slot_avatar, select_avatar,
  answer_delete, delete_item, answer_ranking, ranking, rank_info, set_nation, enter_nation,
  new_cash, note, game_ready, room_connect_ok, save_score, buy_item, check_error, ignore,
}
use hovorun.Game.Server.Entry.{
  create_room_of, create_room, enter_room_of, read_enter, enter_room, quick_join_of, quick_join,
}
use hovorun.Game.Server.Settings.{
  say_room, room_chat, say_team, team_chat, whisper, read_whisper, whisper_chat, set_map,
  change_map, set_type, change_type, set_lap, change_lap, set_attribute, change_attribute,
  set_random_map, change_random_map, set_team, change_team, shut, close_slot, unshut, open_slot,
  answer_mission, mission, set_ready, ready_game, start, start_game, wait_again, goto_wait_room,
  set_comment, change_comment,
}
use hovorun.Game.Server.Eject.{kick_slot, kick, kick_named, gm_kick}
use hovorun.Game.Server.Dispatch.{handlers, run, on_rmi}
use hovorun.Game.Server.Sound.Kept.{
  Keeps, reading-Keeps, set_map-Keeps, set_type-Keeps, set_lap-Keeps, set_attribute-Keeps,
  set_random_map-Keeps, shut-Keeps, unshut-Keeps, start-Keeps, say_room-Keeps, say_team-Keeps,
  set_team-Keeps, set_ready-Keeps, set_comment-Keeps, set_avatar-Keeps, set_character-Keeps,
  set_nation-Keeps, wait_again-Keeps, enter_channel_to-Keeps, change_channel_to-Keeps,
  room_list_of-Keeps,
}
use hovorun.Game.Server.Sound.Moves.{
  found-IsPlayer, kick_slot-Keeps, gm_close_room-Keeps, kick_named-Keeps, create_room_of-Keeps,
  enter_room_of-Keeps, quick_join_of-Keeps, leave_room-Keeps, logout-Keeps, enter_lobby-Keeps,
  leave_channel-Keeps,
}
use hovorun.Game.Server.Sound.{IsSound}
use hovorun.Game.Server.Sound.Login.{on_logon-IsSound}
use hovorun.Game.GsclTypes.AvatarInfo.{AvatarInfo}
use hovorun.Game.GsclTypes.RoomInfo.{RoomInfo}
use hovorun.Containers.IdMap.{IdMap}

-- Every handler of the table.
handlers-Keeps : All (λ (h : ℕ × Handler). Keeps h.1) handlers
unfolding handlers note game_ready room_connect_ok save_score buy_item check_error read_many
    room_list room_request_member room_request_member_of create_room enter_room room_chat team_chat
    whisper_chat whisper change_map change_type kick close_slot open_slot change_team change_lap
    change_attribute change_random_map mission answer_mission start_game ready_game ignore
    goto_wait_room quick_join select_character select_avatar update_avatar delete_item answer_delete
    channel_list channel_user_list enter_channel change_channel channel_total_room_number lobby_chat
    say_lobby change_comment cry cry_all ranking answer_ranking enter_nation rank_info new_cash
    gm_kick
handlers-Keeps =
    logout-Keeps
    ⊗ reading-Keeps two_u16 room_list_of room_list_of-Keeps
    ⊗ reading-Keeps two_u16 room_request_member_of (λ p x g s e. s)
    ⊗ reading-Keeps RoomInfo.read create_room_of create_room_of-Keeps
    ⊗ reading-Keeps read_enter enter_room_of enter_room_of-Keeps
    ⊗ reading-Keeps read_string say_room say_room-Keeps
    ⊗ reading-Keeps read_string say_team say_team-Keeps
    ⊗ reading-Keeps read_whisper whisper (λ p x g s e. s)
    ⊗ leave_room-Keeps
    ⊗ reading-Keeps read_u8 set_map set_map-Keeps
    ⊗ reading-Keeps read_u8 set_type set_type-Keeps
    ⊗ reading-Keeps read_u32 kick_slot kick_slot-Keeps
    ⊗ reading-Keeps read_u32 shut shut-Keeps
    ⊗ reading-Keeps read_u32 unshut unshut-Keeps
    ⊗ reading-Keeps read_u8 set_team set_team-Keeps
    ⊗ reading-Keeps read_u8 set_lap set_lap-Keeps
    ⊗ reading-Keeps read_u8 set_attribute set_attribute-Keeps
    ⊗ reading-Keeps read_u8 set_random_map set_random_map-Keeps
    ⊗ reading-Keeps read_u8 answer_mission (λ p x g s e. s)
    ⊗ reading-Keeps read_u16 start start-Keeps
    ⊗ reading-Keeps read_u8 set_ready set_ready-Keeps
    ⊗ reading-Keeps (read_many 8 read_u32) note (λ p x g s e. s)
    ⊗ reading-Keeps read_u8 wait_again wait_again-Keeps
    ⊗ reading-Keeps read_u16 quick_join_of quick_join_of-Keeps
    ⊗ reading-Keeps read_u8 note (λ p x g s e. s)
    ⊗ (λ p x g s e. s)
    ⊗ reading-Keeps read_u32 set_character set_character-Keeps
    ⊗ reading-Keeps read_slot_avatar set_avatar set_avatar-Keeps
    ⊗ reading-Keeps AvatarInfo.read set_avatar set_avatar-Keeps
    ⊗ reading-Keeps read_u32 answer_delete (λ p x g s e. s)
    ⊗ reading-Keeps (read_many 4 read_u32) note (λ p x g s e. s)
    ⊗ (λ p x g s e. s)
    ⊗ (λ p x g s e. s)
    ⊗ reading-Keeps read_u8 enter_channel_to enter_channel_to-Keeps
    ⊗ leave_channel-Keeps
    ⊗ reading-Keeps read_u8 change_channel_to change_channel_to-Keeps
    ⊗ (λ p x g s e. s)
    ⊗ reading-Keeps read_string note (λ p x g s e. s)
    ⊗ enter_lobby-Keeps
    ⊗ reading-Keeps read_string say_lobby (λ p x g s e. s)
    ⊗ reading-Keeps read_string set_comment set_comment-Keeps
    ⊗ reading-Keeps read_string cry_all (λ p x g s e. s)
    ⊗ reading-Keeps read_u32 answer_ranking (λ p x g s e. s)
    ⊗ reading-Keeps read_u8 set_nation set_nation-Keeps
    ⊗ (λ p x g s e. s)
    ⊗ (λ p x g s e. s)
    ⊗ gm_close_room-Keeps
    ⊗ reading-Keeps read_string kick_named kick_named-Keeps
    ⊗ (λ p x g s e. s)
    ⊗ (λ p x g s e. s)
    ⊗ (λ p x g s e. s)
    ⊗ (λ p x g s e. s)
    ⊗ (λ p x g s e. s)
    ⊗ (λ p x g s e. s)
    ⊗ (λ p x g s e. s)
    ⊗ (λ p x g s e. s)
    ⊗ (λ p x g s e. s)
    ⊗ (λ p x g s e. s)
    ⊗ (λ p x g s e. s)
    ⊗ (λ p x g s e. s)
    ⊗ tt

run-IsSound :
    (client id : ℕ) (params : List ℕ) (g : GameServer)
    → IsSound g
    → IsSound (run (IdMap.find id handlers) (player_by_host client g) params g)
run-IsSound client id params g s = elim (Option-cases (IdMap.find id handlers)) [
  | inl q ↦ rw (q, run) s
  | inr (h, q) ↦ elim (Option-cases (player_by_host client g)) [
    | inl c ↦ rw (q, c, run) s
    | inr (p, c) ↦
        rw (q, c, run)
          (IdMap.find-All (λ (x : Handler). Keeps x) id h handlers handlers-Keeps q p params g s
            (found-IsPlayer client p g s c).1)
  ]
]

-- Whatever a client sends, the players and the rooms stay sound, if its host id is not zero: a player
-- stands under its host id, a player in a room has its host id in its slot there, and each room of
-- m_rooms has the number it is listed under and someone in the master's slot.
pub on_rmi-IsSound :
    (client rmi_id : ℕ) (params : List ℕ) (g : GameServer)
    → 0 < client
    → IsSound g
    → IsSound (on_rmi client rmi_id params g)
unfolding on_rmi
on_rmi-IsSound client rmi_id params g h s =
    if_elim IsSound (rmi_id == Clgs.logon_clgs) (λ q. on_logon-IsSound client params g h s)
      (λ q.
        if_elim IsSound (rmi_id == Clgs.cl2_gs_test) (λ c. s)
          (λ c. run-IsSound client rmi_id params g s))
