-- ===== src/Lib.antt =====
-- NPS, an intranet penetration proxy: the server keeps tables of clients, tunnels and hosts
-- (lib/file), a bridge to which clients connect (bridge), proxies that serve the tunnels
-- (server), and shared libraries (lib).
--
-- The parts and their files:
--   Base      shared names; text as lists of bytes, association lists for `sync.Map`, and Go
--             integers over native numbers with the wrap-around of int32 and int64 written out
--   File      lib/file/obj.go: the stored records and their methods. File/Clients has the check of
--             server/proxy/base.go and the connection counter, File/Race the steps of `GetConn`
--             for several goroutines, File/Targets the choice of a target
--   Db        lib/file/db.go and the counters and loads of lib/file/file.go. Db/Keys, Db/Draws and
--             Db/Secrets are on clients and tunnels that are added, Db/Hosts on hosts, Db/Routing on
--             `GetInfoByHost`, Db/Load on the loads at the start, Db/Pages on the lists of the web
--             pages
--   Persist   the bytes of the files of lib/file/file.go
--   Bridge    bridge/bridge.go: the sessions. Bridge/Sessions is on `typeDeal`, Bridge/Ping on
--             `ping`, Bridge/Links on `SendLinkInfo` and `register`, Bridge/Health on
--             `GetHealthFromClient`, Bridge/Config on the tunnels that `getConfig` adds,
--             Bridge/Messages on its other messages, Bridge/Process on `cliProcess`
--   Server    server/server.go: the list of tunnels that run. Server/Tasks is on single tunnels,
--             Server/Owners on all those of a client, Server/Reach on what a change leaves alone
--   Wire      the messages of lib/conn/conn.go and lib/common/util.go
--   Socks     lib/common/netpackager.go: SOCKS5 addresses and datagrams. Socks/Stream is a connection
--             whose bytes arrive in pieces, Socks/Handshake the negotiation and the login of
--             server/proxy/socks5.go, Socks/Requests its requests
--   Tls       lib/crypt/clientHello.go: the client hello, and the server name that
--             server/proxy/https.go takes from it
--   Web       web/controllers: what the pages change in the tables. Web/Tunnels and Web/Hosts are
--             index.go, Web/Clients client.go, Web/Login login.go, Web/Users the rights of base.go
--   Health    client/health.go: the check of targets and its reports
--   Config    lib/config/config.go: the configuration file of the client. Config/Titles is on titles and
--             the text between them, Config/NewConfig on the whole file
--   Pairing   server/proxy/p2p.go: the ends of a p2p tunnel, Pairing/Meetings on who is told what
--   Ports     the port lists of lib/common/util.go and server/tool/utils.go
--   Rate      lib/rate/rate.go: the bandwidth limiter
--   Lru       lib/cache/lru.go: the cache of pages
-- Each part but Base has its runs on concrete data in a child module Tests.
--
-- How they meet: the bridge asks the tables for clients and tunnels (`is_pub_client`, `get_client`,
-- `get_task_by_md5_password`), and tells the server over channels what to open and close; a handler
-- of the bridge returns what it writes and sends as a list of effects, and `deal_bridge_task` of
-- Server is the receiving end. A report of health changes targets of the tables. Wire and Socks
-- are the bytes on the connections.
--
-- State and steps: a table is a list of ids and records, and each operation takes the state and
-- returns the next one with its result. A pointer to a client inside a tunnel is the id of the
-- client. Locks are not modelled: an operation is one step, save in File/Race and Pairing. Errors
-- are values: `DbError`, `FlowError`, `TaskError`, `LinkError`, `none`, or an `Outcome` where the
-- source can panic.
--
-- Bounds: the counters of ids are int32 and the flows int64, as in the source; ids are unbounded.
-- The one loop without a bound, the draws of `NewClient`, runs over the list of draws to come and is
-- shown to end at the first that is free. Every other loop is a recursion on a list, or on the
-- number of its rounds.
--
-- Parameters: MD5, encoding/json, the text of IP addresses, text/template, the sort orders, and what
-- the network and the system answer.
--
-- Not modelled: the loops of the listeners, TLS and AES, the multiplexer, the pages of the web
-- interface, the commands and the installation, which are I/O or code of other packages; the timers
-- of the health checks; the connections that the client program opens; `InitFromCsv` of
-- server/server.go, which the program calls at its start; what the goroutines of a registration and a
-- configuration connection do is not part of `type_deal`, but of Bridge/Links and Bridge/Messages.
pub mod Base
pub mod Bridge
pub mod Config
pub mod Db
pub mod File
pub mod Health
pub mod Lru
pub mod Pairing
pub mod Persist
pub mod Ports
pub mod Rate
pub mod Server
pub mod Socks
pub mod Tls
pub mod Web
pub mod Wire
