-- ===== src/Lib.antt =====
-- A model of hovorun, a game server for a ProudNet client, and proofs about it.
--
-- The program: src/net puts messages on a byte stream and takes them off it; src/crypto is the cipher
-- of the encrypted messages; src/proudnet keeps the connected peers, their host ids and the P2P groups
-- over them; src/game, src/session and src/messenger are the servers on top, each with one
-- proudnet::server, which calls them through an event_sink.
--
--   Net/Bytes, Net/Message: src/net/message.hpp. A writer is the list of the bytes written, a reader
--   the list of the bytes left; an exception is a value of Error. Message/Text is the conversion
--   between UTF-8 and UTF-16, Message/Decodes and Message/RoundTrip the reads that undo a write.
--   Net/Framing: src/net/framing.hpp, make_frame and frame_parser. Framing/Drain is peer::read_loop of
--   src/proudnet/server.cpp over the reads of one connection, with the peer as a parameter. Its fuel
--   is one more than the length of the buffer, and a round that goes on takes a byte at least.
--   Crypto/Rc4: src/crypto/rc4.hpp; Rc4/Stream is the definition of RC4 apart from the code. Crypto/Bigint: class bigint of src/crypto/rsa.hpp, a number as its
--   limbs. Bigint/Mod is bit, compare and mod, Bigint/Mul mul, Bigint/Pow mod_pow and Bigint/Bytes the
--   conversions; their children say what these do to the number. The loop of bit_length over the top
--   limb has fuel 32, the bits of a limb. Crypto/Rsa: the blobs and the encryption of rsa.hpp; what the
--   random numbers draw is a parameter, and the source's exception is none.
--   Proudnet/Types, MessageType, CoreRmi: src/proudnet/types.hpp, rmi.hpp and message_type.hpp.
--   Proudnet/Peer: the state of a connection and peer::send. Proudnet/Server: the peers, host ids and
--   groups of proudnet::server as explicit state, with the frames queued in order. Server/Books and
--   Server/Groups say what sending and the groups change, Server/Allocate and Server/Close what ids
--   do, Server/Reach what holds after any sequence of operations. Host ids are taken while fewer than
--   2^32 - 2 were handed out, as the counter wraps around there.
--   Peer/Handshake and Peer/Dispatch are the handlers of a payload, which return the calls of the
--   server that they end with as effects; Server/CoreMessages and Server/Relay are what it does then.
--   Proudnet/Loop joins these: the bytes that a connection reads, to the server and its event_sink, of
--   any state, whose callbacks are a parameter. Session/Server/Sink and Messenger/Server/Sink give it
--   the callbacks of these two servers.
--   App/Config: src/app/config.hpp, from the content of the file to the values of the servers.
--   App/Accounts: src/app/accounts.hpp, with the file as its content. Session/Server:
--   src/session/session_server.cpp over the states of its proudnet::server and the accounts.
--   Game/Arrays, Game/GsclTypes, Game/Gscl: src/game/gscl_types.hpp and gscl_proxy.hpp, every struct and
--   every message to a client.
--   Game/Clgs: src/game/clgs.hpp. Game/Server: src/game/game_server.hpp and game_server.cpp, over the
--   states of its proudnet::server and the accounts. A room is an object at an address of a heap, since
--   a player can be in a room that m_rooms has lost; addresses are not used again, and no object is
--   freed. Server/Login, Lobby, Entry, Settings, Eject and Misc hold the handlers, Server/Dispatch the
--   table of them and the event_sink. Server/Sound says what holds of the players and rooms between two
--   messages, and its children that every handler keeps it. The loop over the room numbers has fuel
--   2^16, the number of them.
--   Messenger: src/messenger. Messages are the messages to the clients, with the date in mail as a
--   parameter; Server is messenger_server.cpp, Server/Friends the requests of friends, Server/Dispatch
--   the switch of on_rmi as a table; Server/Friendship and Server/Friendly say who is whose friend, and
--   Server/Spec is the abstract state that clients see of that, with its steps.
--   Containers: std::set and std::map, with numbers or strings as keys. Prelude: numbers, tests, lists.
--
-- Not modelled: sockets, timers and logging, which are I/O (src/util/log.hpp, src/main.cpp), and with
-- them the timeouts and the shutdown of proudnet::server. A string of the game messages is its UTF-8
-- bytes, a float or a double its bit pattern. An RC4 key of no bytes is left aside. The game server is
-- not joined to Proudnet/Loop: it creates groups, and the host ids for these may run out.
pub mod Prelude
pub mod Containers
pub mod Net
pub mod Crypto
pub mod App
pub mod Game
pub mod Proudnet
pub mod Session
pub mod Messenger
