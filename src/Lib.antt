-- ===== src/Lib.antt =====
-- A SOCKS5 proxy that carries Telegram traffic over WebSocket.
--
-- A client opens a SOCKS5 connection (Socks), names a target and sends the init packet of the
-- obfuscated MTProto protocol. If the target is a Telegram address (Telegram.Catalog) the proxy reads
-- the data centre from the packet, or takes it from what it knows of the address and patches the
-- packet (Telegram.Init, Routing.Resolve, Routing.Ipv6Cache). It asks the shared table of routes whether the
-- WebSocket route of that data centre may be tried (Routing.Backoff), tries its domains and writes the outcome to the
-- table (Routing.Client), and then carries the messages, cut at their boundaries (Telegram.Splitter), in the frames of
-- a WebSocket (Ws) whose opening handshake it has checked (Ws.Handshake), in both directions at once (Relay).
--
-- Base                 shared names, lists, bits, UTF-8, decimals, functions of texts, and Base.Stream: a connection as
--                      the bytes that still arrive, how they end, the bytes sent, and the writes that still go through
-- Net                  reading and writing of `Ipv4Addr`, `Ipv6Addr` (Net.Ip) and `SocketAddr` (Net.Address), after the
--                      standard library
-- Telegram.Cipher      AES-256-CTR, a parameter, with the laws that its crates document
-- Telegram.Init        src/modules/telegram/init.rs: extract_dc, patch_init_dc
-- Telegram.Splitter    src/modules/telegram/splitter.rs: new, split, split_plain_mtproto_messages
-- Telegram.Catalog     src/modules/telegram/catalog.rs: the tables, is_telegram_ip, ip_to_dc, ws_domains
-- Ws.Types, Ws.Frame   src/modules/ws.rs: the frames, build_frame, read_frame
-- Ws.Client            src/modules/ws.rs: recv, recv_frame, send, close, send_control_frame
-- Ws.Handshake         src/modules/ws.rs: read_handshake_headers and parse_handshake_response; in Ws.Handshake.Exchange
--                      the request, the checks, perform_handshake, connect and connect_raw; in Ws.Handshake.LastValue,
--                      Ws.Handshake.RoundTrip and Ws.Handshake.Answered a response as text
-- Relay                src/modules/relay.rs: bridge_ws_tcp, its two tasks as rounds (Relay.Uplink, Relay.Downlink), what
--                      they do together (Relay.Faithful, Relay.Ended, Relay.Success), and bridge_tcp_tcp (Relay.Tcp)
-- Socks                src/modules/socks.rs: handle_socks5_handshake and what it calls
-- Socks.Users          src/modules/socks.rs: parse_socks_auth
-- Routing.Backoff      src/modules/routing/backoff.rs: begin_probe, record_failure, disable_404, clear
-- Routing.Ipv6Cache    src/modules/routing/ipv6_cache.rs
-- Routing.Resolve      src/modules/routing.rs: resolve_telegram_init, remember_telegram_ipv6
-- Routing.Client       src/modules/routing.rs: route_client, connect_ws_route, route_decision, and in
--                      Routing.Client.Bridged a client from its handshake to its bridge
-- Routing.System       src/modules/routing.rs: the tasks of a process, which run route_client at once, and what they share
-- Listen               src/runtime/listen.rs: split_host_port, bind_host
-- Config               src/config.rs: RoutedConfig::try_from, telegram_socks_proxy_links; in Config.Priority and
--                      Config.Complete the addresses to announce
-- Server               src/runtime/server.rs and src/modules/health.rs: their starts and accepting loops
-- Main                 src/main.rs and src/runtime/shutdown.rs: what main announces, and its select
-- Pool, Stats          src/modules/pool.rs and src/modules/stats.rs
-- Tests                the unit tests, a toy cipher, and theorems at concrete inputs
--
-- A byte is a number; an operation that the source does on w bits keeps its wrap-around or its bound where
-- the values can reach it. A `HashMap` is a function into `Option`, an `Instant` counts nanoseconds, and `usize` has
-- 64 bits. A read waits for ever (`pending`) on a peer that stays silent, a write fails once the writes of its
-- connection are used up, and `vec![0; n]` panics above `isize::MAX`.
--
-- Loops run on fuel: the splitters on one more than the length of their chunk, since each round moves on,
-- and the receive loops on one more than the bytes that still arrive, since each frame takes two at least.
-- `none` is a loop without fuel left, and the termination theorems say that it does not come out.
--
-- The two tasks of a bridge share the writing half of the WebSocket under a lock. A schedule is a list of turns: a turn
-- runs one task up to the end of a round, or up to the receipt of a ping, whose answer is a turn of its own, and says how
-- many bytes the client's read finds. A write never waits, so a task that waits does so in a read, without the lock.
--
-- TCP, TLS, SHA-1, Base64, copy_bidirectional, the resolver of names, sockets and the list of interfaces are
-- parameters; a text that is written to a connection stands for its bytes. A handshake header is read within 8192
-- bytes, as in the source, so its loop counts the room that is left.
--
-- route_client is split where it waits for the network: `route_client` runs to the decision to try a route, the outcome
-- of `RawWsClient::connect` is a parameter of `connect_ws_route`, `conclude` writes the table, and `bridge_route` starts
-- the bridge.
-- What other clients do meanwhile is a trace of calls (Routing.Backoff.Trace). A process with all its tasks is a step
-- relation (Routing.System): a task goes on over one access to the clock, the addresses learned or the table at a time.
--
-- Not modelled: the reading of the command line, the set-up of logger and signal handlers, RuntimeConfig, which nothing
-- uses, and the shutdown on other systems than Unix; log lines but for those that main writes before it starts, and the
-- messages of a UTF-8 error and of a number that does not parse.
pub mod Base
pub mod Net
pub mod Telegram
pub mod Ws
pub mod Socks
pub mod Routing
pub mod Relay
pub mod Listen
pub mod Config
pub mod Server
pub mod Main
pub mod Pool
pub mod Stats
mod Tests
