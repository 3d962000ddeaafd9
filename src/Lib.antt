-- ===== src/Lib.antt =====
-- chonkline: an IRC server in Rust. This library models the parts of the program that decide: what a
-- message means, who may connect, who is banned, who is on the network, and how two servers link.
--
-- The parts and how they interact. A listener (http.rs, tls.rs, ops.rs) reads lines from a socket.
-- `limits.rs` admits the connection and charges each message. `proto.rs` turns a line into a command
-- and back. `cmds.rs` runs the command against the shared state of `state.rs`. `bans.rs` keeps the
-- server-wide bans, matched by `glob_match`, which channel bans use as well. `link.rs` is one link to
-- another server as a state machine over lines; the events it gives are applied to `network.rs`,
-- which keeps the other servers and their users.
--
-- Which file models which part:
--   Base      numbers, lists, texts as lists of code points, decidable equality, maps, results
--   Str       what the program uses of Rust's str and char: split, lines, join, trim, decimal numbers
--   Glob      src/bans.rs, glob_match: the loop is glob_loop on fuel, with the star it backtracks to
--   Bans      src/bans.rs, BanStore: the list of bans and the file that it is kept in
--   Limits    src/limits.rs, SourceTable: connections and messages by source address
--   Proto     src/proto.rs: line, params, tags, and parse
--   Network   src/network.rs: RemoteServer, RemoteUser, Network and its operations
--   State     src/state.rs: the case mapping, the client record Cx and the channel record Chn
--   State.Server  src/state.rs: ServerState and its operations on users, channels and the history
--   Crypto    src/crypto.rs: SHA-256, HMAC, PBKDF2, base64, hex, and the comparison in constant time
--   Accounts  src/accounts.rs: AccountStore, its certificates and its file
--   Channels  src/channels.rs: ChannelRegistry, the founders and topics of registered channels
--   Proxy     src/proxyproto.rs: parse_v1 and read_v1; the addresses of Rust's library stand in Str
--   Cmds      src/cmds.rs: JOIN, PART, KICK and QUIT, and how lines are delivered (World is the state
--             with the reply buffer and the logs of what is offered to connections and to links)
--   Link      src/link.rs: LinkSession, its handlers and handle_line, and the lines of a burst
-- A client's reply queue, its clock readings and its close notification are not part of its record.
-- A definition carries the source's name where it can; a helper stands in front of the function that
-- it is part of. State that is changed in place is passed and returned.
--
-- Bounds and fuel. glob_loop has (|text| + 1) * (|mask| + 1) + |mask| + 1 rounds: the index into the
-- mask grows in every round until the star is taken up again, and each time that happens the place
-- to go back to moves on in the text. The rounds of a split are as many as there are servers and one
-- more: every round but the last finds a server that has not been found before. The u64 counters of
-- network.rs and the expiry of a ban wrap at 2^64; the counters of limits.rs count connections that
-- are open and are left unbounded. The padding of SHA-256 has 64 rounds, and PBKDF2 one round for each
-- 32 bytes and one more. The rounds of ServerState::lookup are the eight of the source.
--
-- What is not modelled: sockets, threads, locks and clocks (the time is an argument), the entropy of a
-- salt (an argument), whether a full queue takes a line, the other handlers of cmds.rs, the operator
-- console, HTTP, TLS and logging. Nor is a panic: where the source would slice a text inside a character,
-- in valid_uuid of network.rs, the model answers false. A HashMap's iteration order is the order of the list that stands for
-- it.
pub mod Accounts
pub mod Bans
pub mod Base
pub mod Channels
pub mod Cmds
pub mod Crypto
pub mod Glob
pub mod Limits
pub mod Link
pub mod Network
pub mod Proto
pub mod Proxy
pub mod State
pub mod Str
