-- ===== src/Session/Clss.antt =====
-- src/session/session_server.hpp, namespace clss: the ids of the client's RMIs.
use hovorun.Prelude.{ℕ}

abbrev pub logon : ℕ
logon = 1201

abbrev pub change_nation : ℕ
change_nation = 1202

abbrev pub logout : ℕ
logout = 1203
