-- ===== src/Session/Sscl.antt =====
-- src/session/session_server.hpp, namespace sscl: the ids of the RMIs to the client and their codes.
use hovorun.Prelude.{ℕ}

abbrev pub user_logon : ℕ
user_logon = 2301

abbrev pub change_nation : ℕ
change_nation = 2302

abbrev pub forced_close : ℕ
forced_close = 2303

abbrev pub result_ok : ℕ
result_ok = 0

abbrev pub result_wrong_password : ℕ
result_wrong_password = 11

abbrev pub forced_close_duplicate_login : ℕ
forced_close_duplicate_login = 2
