-- ===== src/Game/Server/Dispatch.antt =====
-- src/game/game_server.cpp: the handlers and on_rmi.
use hovorun.Prelude.{◌==◌, if◌then◌else◌, ℕ, Option, none, some, List, [], ◌∷◌}
use hovorun.Containers.IdMap
use hovorun.Containers.IdMap.{IdMap}
use hovorun.Proudnet.Server.{Server}
use hovorun.Proudnet.Loop.{Events}
use hovorun.Game.Clgs
use hovorun.Game.Server.{Player, GameServer, player_by_host, Handler, on_client_leave}
use hovorun.Game.Server.Login.{on_logon, logout}
use hovorun.Game.Server.Lobby
use hovorun.Game.Server.Entry
use hovorun.Game.Server.Settings
use hovorun.Game.Server.Eject
use hovorun.Game.Server.Misc

-- m_handlers
unfoldable pub handlers : IdMap Handler
handlers =
    (Clgs.logout_notify, logout)
    ∷ (Clgs.room_list, Lobby.room_list)
    ∷ (Clgs.room_request_room_member, Lobby.room_request_member)
    ∷ (Clgs.create_room, Entry.create_room)
    ∷ (Clgs.enter_room, Entry.enter_room)
    ∷ (Clgs.room_chat, Settings.room_chat)
    ∷ (Clgs.team_chat, Settings.team_chat)
    ∷ (Clgs.wisper_chat, Settings.whisper_chat)
    ∷ (Clgs.leave_room, Entry.leave_room)
    ∷ (Clgs.change_map, Settings.change_map)
    ∷ (Clgs.change_type, Settings.change_type)
    ∷ (Clgs.kicked_room, Eject.kick)
    ∷ (Clgs.close_slot_room, Settings.close_slot)
    ∷ (Clgs.open_slot_room, Settings.open_slot)
    ∷ (Clgs.change_team, Settings.change_team)
    ∷ (Clgs.change_lap, Settings.change_lap)
    ∷ (Clgs.change_attribute, Settings.change_attribute)
    ∷ (Clgs.change_random_map, Settings.change_random_map)
    ∷ (Clgs.mission_request, Settings.mission)
    ∷ (Clgs.start_game, Settings.start_game)
    ∷ (Clgs.ready_game, Settings.ready_game)
    ∷ (Clgs.room_save_score, Misc.save_score)
    ∷ (Clgs.goto_wait_room_notify, Settings.goto_wait_room)
    ∷ (Clgs.room_quick_join, Entry.quick_join)
    ∷ (Clgs.room_connect_ok, Misc.room_connect_ok)
    ∷ (Clgs.game_ready_notify, Misc.game_ready)
    ∷ (Clgs.select_character_request, Misc.select_character)
    ∷ (Clgs.select_avatar, Misc.select_avatar)
    ∷ (Clgs.update_avatar, Misc.update_avatar)
    ∷ (Clgs.delete_item_request, Misc.delete_item)
    ∷ (Clgs.buy_item_request, Misc.buy_item)
    ∷ (Clgs.channel_list, Lobby.channel_list)
    ∷ (Clgs.channel_user_list_request, Lobby.channel_user_list)
    ∷ (Clgs.enter_channel, Lobby.enter_channel)
    ∷ (Clgs.leave_channel, Lobby.leave_channel)
    ∷ (Clgs.change_channel, Lobby.change_channel)
    ∷ (Clgs.channel_total_room_number, Lobby.channel_total_room_number)
    ∷ (Clgs.check_error_notify, Misc.check_error)
    ∷ (Clgs.enter_lobby, Lobby.enter_lobby)
    ∷ (Clgs.lobby_chat, Lobby.lobby_chat)
    ∷ (Clgs.change_comment, Settings.change_comment)
    ∷ (Clgs.cry, Lobby.cry)
    ∷ (Clgs.ranking_request, Misc.ranking)
    ∷ (Clgs.enter_nation, Misc.enter_nation)
    ∷ (Clgs.rank_info_request, Misc.rank_info)
    ∷ (Clgs.get_user_new_cash, Misc.new_cash)
    ∷ (Clgs.blasting_room_gm, Eject.gm_close_room)
    ∷ (Clgs.user_kick_room_gm, Eject.gm_kick)
    ∷ (Clgs.cl2_gs_test, Misc.ignore)
    ∷ (Clgs.guid_request, Misc.ignore)
    ∷ (Clgs.check_period_answer, Misc.ignore)
    ∷ (Clgs.update_gs_user_clan_info, Misc.ignore)
    ∷ (Clgs.room_index_answer, Misc.ignore)
    ∷ (Clgs.dura_check_item_request, Misc.ignore)
    ∷ (Clgs.update_asdkey, Misc.ignore)
    ∷ (Clgs.insert_item_request, Misc.ignore)
    ∷ (Clgs.gift_item_request, Misc.ignore)
    ∷ (Clgs.answer_gift, Misc.ignore)
    ∷ (Clgs.create_avatar, Misc.ignore)
    ∷ (Clgs.change_nation, Misc.ignore)
    ∷ []

abbrev pub run : Option Handler → Option Player → List ℕ → GameServer → GameServer
run none p params g = g
run (some handler) none params g = g
run (some handler) (some p) params g = handler p params g

-- The result is whether the id is known, which decides what is logged.
unfoldable pub on_rmi : ℕ → ℕ → List ℕ → GameServer → GameServer
unfolding on_logon handlers
on_rmi client rmi_id params g =
    if rmi_id == Clgs.logon_clgs
    then on_logon client params g
    else if rmi_id == Clgs.cl2_gs_test
    then g
    else run (IdMap.find rmi_id handlers) (player_by_host client g) params g

-- The server as the event sink of its connections, with its books beside the rest of its state.
abbrev with_net : Server → GameServer → GameServer
with_net net g = record g { net = net }

pub events : Events GameServer
unfolding on_rmi on_client_leave
events = record {
  on_client_join = λ client w. w;
  on_client_leave =
      λ client w. let left = on_client_leave client (with_net w.0 w.1) in (left.net, left);
  on_rmi = λ client rmi_id params w.
      let done = on_rmi client rmi_id params (with_net w.0 w.1) in (done.net, done);
}
