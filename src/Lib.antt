-- ===== src/Lib.antt =====
-- letmein opens ports of a server for clients that authenticate. A client (letmein) sends a Knock or
-- a Close to the server (letmeind), answers its challenge with an HMAC under the key that it shares
-- with the server, and is let in when the firewall daemon (letmeinfwd) has changed the rules.
-- letmeind has no rights of its own: it asks letmeinfwd over a Unix socket, and letmeinfwd adds and
-- removes rules with `nft` and keeps a lease with a timeout for each of them.
--
-- The library follows the crates:
--   Proto     letmein-proto/src/lib.rs: `Message`, its operations and wire format (Operation,
--             Message, Wire) and the tokens (Auth). Bytes are numbers, arrays are lists; what the
--             Rust types guarantee is `IsValid`. HMAC-SHA3-256 is the parameter `mac`, a function
--             of the key and the input; `getrandom` is an argument.
--   Socket    letmein-proto/src/socket.rs: `UdpDispatcherRx`, with its map of connections, and any
--             sequence of calls of it (Calls). The address type is a parameter with an equality.
--             Net is `NetSocket` over both protocols, with `Message::send` and `recv`.
--   Systemd   letmein-systemd/src/lib.rs: the sockets that systemd hands over.
--   FwProto   letmein-fwproto/src/lib.rs: `FirewallMessage` and its wire format.
--   Stream    the loops that send and receive one message over a stream (letmein-fwproto `send` and
--             `recv`; the TCP side of letmein-proto/src/socket.rs has the same loops). The kernel's
--             answers are a list of events, and the recursion is on it; a loop whose list ends is
--             waiting.
--   Conf      letmein-conf/src/lib.rs: the loaded `Config` and its look-ups.
--             Parsing, Durations and Resources: letmein-conf/src/parse.rs, parse_items.rs and
--             `get_resources` of lib.rs; Keys: `get_keys` and `parse_hex`; Settings: the other
--             `get_` functions; Load: `load_ini` and `load`; Ids: the ids as texts, from
--             letmein-proto/src/lib.rs; Ini: letmein-conf/src/ini.rs. A duration is a number of
--             nanoseconds; `f64::from_str` is the parameter `read_f64`.
--   Server    letmeind/src/protocol.rs: `Protocol::run`, in the stages `receive_initial`,
--             `authorise`, `challenge_client`, `reconfigure` and `welcome`, and
--             letmeind/src/firewall_client.rs. A session passes its state along; the answers of the
--             peer, the network, the random source and the firewall daemon are scripts in it, and
--             its trace records what was received and sent, newest first. Logic is a program logic
--             for it, and Safety one for runs without a panic. Protocol.Allowed says what a trace
--             may hold. Listen is `Server::new` of letmeind/src/server.rs, and Tasks the tasks and the
--             main loop of letmeind/src/main.rs, as sequences of inputs.
--   Firewall  letmeinfwd/src/firewall.rs (leases), letmeinfwd/src/firewall/nftables.rs (Commands:
--             rules and commands; State: `NftFirewall`) and letmeinfwd/src/server.rs (Server:
--             `handle_message`). The kernel with `nft` is a type with a listing and a batch, both
--             of which may fail. `Display` of an address is the parameter `show_addr`. Kernel
--             states what `nft` documents of them for one chain. UidGid is
--             letmeinfwd/src/uid_gid.rs, Accept the checks of who connects, and Daemon the tasks
--             and the main loop of letmeinfwd/src/main.rs, as sequences of inputs.
--   Seccomp   letmein-seccomp/src/lib.rs: the map of system calls and their conditions, the calls of
--             each feature (Features), and the lists of the three programs (Lists, from the
--             seccomp.rs of each). The filter in the kernel is an `Engine`, which tells what
--             matches the map; what does not match meets the deny action.
--   Client    letmein/src/client.rs, and letmein/src/command/knock.rs and close.rs: the sequences, the
--             control port and the address modes; Resolver: letmein/src/resolver.rs. LetIn joins the
--             client to the server.
--   Base      shared types and lemmas: lists over the native numbers, results with a panic, byte
--             arrays, texts, maps.
--   Tests     runs at concrete inputs.
-- Errors are values in place of their texts, a failed assertion is `panic`, instants are numbers.
--
-- Not modelled: the compilation of a seccomp map to BPF, `verify` of letmeinfwd, genkey, the start-up
-- of the daemons (directories, PID-files, signal handlers), the command lines, and messages to the
-- console. They are input and output, or calls of other libraries.
pub mod Base
pub mod Proto
pub mod Socket
pub mod Stream
pub mod FwProto
pub mod Conf
pub mod Server
pub mod Firewall
pub mod Client
pub mod Seccomp
pub mod Systemd
pub mod Tests
