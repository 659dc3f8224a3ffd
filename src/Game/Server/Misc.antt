-- ===== src/Game/Server/Misc.antt =====
-- src/game/game_server.cpp: characters, items, and the requests that are only answered or logged.
use hovorun.Prelude.{ℕ, []}
use hovorun.Net.Message.Reader.{Reads, ◌>>=◌, read_u8, read_u32, read_string, read_many}
use hovorun.Game.GsclTypes.AvatarInfo
use hovorun.Game.GsclTypes.AvatarInfo.{AvatarInfo}
use hovorun.Game.Gscl.Items
use hovorun.Game.Gscl.Lobby
use hovorun.Game.Server.Settings.{tell_room}
use hovorun.Game.Server.{
  Player, GameServer, result_ok, put_player, send, send_hosts, Handler, reading,
}

unfoldable pub set_character : Player → ℕ → GameServer → GameServer
set_character p character g =
    send p (Items.select_character character p.nickname [] result_ok)
      (put_player (record p { character = character }) g)

unfoldable pub select_character : Handler
unfolding reading set_character
select_character = reading read_u32 set_character

unfoldable pub set_avatar : Player → AvatarInfo → GameServer → GameServer
unfolding send_hosts
set_avatar p read g =
    let avatar = record read { host = p.host } in
    tell_room p (Items.room_up_data_avatar avatar p.slot)
      (put_player (record p { avatar = avatar }) g)

unfoldable pub update_avatar : Handler
unfolding reading set_avatar AvatarInfo.read
update_avatar = reading AvatarInfo.read set_avatar

unfoldable pub read_slot_avatar : Reads AvatarInfo
unfolding ◌>>=◌ AvatarInfo.read
read_slot_avatar = do slot ← read_u8; AvatarInfo.read

unfoldable pub select_avatar : Handler
unfolding reading set_avatar read_slot_avatar
select_avatar = reading read_slot_avatar set_avatar

unfoldable pub answer_delete : Player → ℕ → GameServer → GameServer
answer_delete p item g = send p (Items.delete_item_answer item result_ok) g

unfoldable pub delete_item : Handler
unfolding reading answer_delete
delete_item = reading read_u32 answer_delete

unfoldable pub answer_ranking : Player → ℕ → GameServer → GameServer
answer_ranking p unused g = send p (Lobby.ranking_answer []) g

unfoldable pub ranking : Handler
unfolding reading answer_ranking
ranking = reading read_u32 answer_ranking

unfoldable pub rank_info : Handler
rank_info p params g = send p (Lobby.rank_info_answer [] [] 0 0 0) g

unfoldable pub set_nation : Player → ℕ → GameServer → GameServer
set_nation p nation g =
    send p (Lobby.enter_nation nation result_ok) (put_player (record p { nation = nation }) g)

unfoldable pub enter_nation : Handler
unfolding reading set_nation
enter_nation = reading read_u8 set_nation

unfoldable pub new_cash : Handler
new_cash p params g = send p (Lobby.user_new_infor_answer p.money) g

-- What is only logged.
unfoldable pub note : {A : Type 0} → Player → A → GameServer → GameServer
note p x g = g

unfoldable pub game_ready : Handler
game_ready p params g = g

unfoldable pub room_connect_ok : Handler
unfolding reading note
room_connect_ok = reading read_u8 note

unfoldable pub save_score : Handler
unfolding reading note read_many
save_score = reading (read_many 8 read_u32) note

unfoldable pub buy_item : Handler
unfolding reading note read_many
buy_item = reading (read_many 4 read_u32) note

unfoldable pub check_error : Handler
unfolding reading note
check_error = reading read_string note

unfoldable pub ignore : Handler
ignore p params g = g
