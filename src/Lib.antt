-- ===== src/Lib.antt =====
-- Models and theorems for uptp, a peer-to-peer gateway: it opens local ports that lead to resources
-- of peers, and it sends the traffic of a tunnel to the proxies of peers.
--
-- The parts and how they interact. The gateway (gateway/gateway.go) serves an HTTP console. Its
-- handlers change three stores that stand in one LevelDB database: the resources that this gateway
-- offers (gateway/portmap_resource.go), the port mappings towards peers (gateway/portmap_app.go)
-- and the outbounds, which are proxies of peers (gateway/proxy_client.go). A running port mapping
-- has a listener in the port map (portmap/portmap.go); an open outbound has a route in the table
-- that sends an IPv4 address to a dialer (gateway/proxy_router.go). A peer first asks for
-- authorization (gateway/authorize.go), and its handshake on a port mapping is then answered with
-- the target of a resource. The relay of a port mapping runs from an accepted connection over a
-- stream to the peer that dials the target (portmap/portmap.go). The traffic of an outbound goes
-- over streams that a SOCKS5 client opens (socks5/client.go) and a SOCKS5 server of the peer serves
-- (socks5/server.go), where the outbound's token is the password. The agent (agent/agent.go,
-- agent/proxy.go) is the client on a user's device: it keeps port mappings with the gateway's
-- manager, and its own list of proxies. The gateway can replace its own program
-- (gateway/upgrade.go), which a daemon starts as its worker (gateway/cmd/daemon.go).
--
-- Which file models which part:
-- - Common and its children: numbers, Go's results, slices, maps, int and decimal text.
-- - Gateway/Cidr, Gateway/Router: gateway/proxy_router.go. get_cidr_int_range is getCidrIntRange;
--   get, add, add_route and del_route are the methods of proxyRouter. The AVL tree is a third-party
--   package: its nodes are the type Tree, its calls the record AvlTree with what it documents, and
--   Router/Plain fills that record with a plain search tree.
-- - Gateway/Store: what the managers share: goleveldb as the record Leveldb, encoding/json as
--   MapJson and ValueJson. Gateway/Memory fills them with a database in memory.
-- - Gateway/PortmapResource, PortmapApp, ProxyService, Settings: the stores, a record for each
--   manager with its database, a function for each method.
-- - Gateway/ResourceApi, AppApi, OutboundApi, InfoApi, Sessions: the handlers of
--   gateway/gateway.go. A request's body is what io.ReadAll and json.Unmarshal make of it; a reply
--   is a JSON document, a plain error or a dropped connection.
-- - Gateway/Outbounds: proxyClient, with socks5ProxyManager in Outbounds/Managed and its Start and
--   Stop in Outbounds/Life.
-- - Gateway/Routes: router, with the middleware before it; how github.com/go-chi/chi finds a route
--   is the record Mux. Gateway/Identity: the file uuid, from which both gateway/gateway.go and
--   agent/agent.go take the seed of their key. Gateway/Run: Run of gateway/gateway.go, over a Disk
--   that stays between runs; Run/Frame, Run/Laws and Run/Settings hold proofs.
-- - P2p/Engine: NewP2PEngine of p2pengine/engine.go, over the answers of libp2p.
-- - Gateway/Authorize: the stream handlers of gateway/authorize.go; Authorize/Asking:
--   ResourceAuthorize, each side reading its stream once.
-- - Apiutil: apiutil.go/api.go.
-- - Portmap, for portmap/portmap.go: Listeners has the table of listeners, Sockets
--   the opening of their sockets, Locks has the calls on
--   it as threads that take connMtx and are interleaved by a schedule, Handshake has relayHandshake
--   and handleUptpStream, which logs what it does to the stream and to the connection, Relayed has
--   the callbacks of a connection as steps on its state. Served, Relayed/Laws and Relayed/Opening
--   hold proofs; Access joins Handshake with Gateway/ResourceApi.
-- - Stream: stream/var_length_packet.go, packets behind a varint. Stream/Bytes models what Read and
--   Write use of io and encoding/binary.
-- - Socks5: Packet is packetReadWriter of socks5/util.go, the datagrams of a relayed connection
--   behind two bytes, Datagram is socks5ReadFrom and socks5WriteTo on one packet, and Framed is
--   both on a connection. Packets has the two loops of handleUDPPackConnRequest of
--   socks5/server.go, PacketConn the packetConn of socks5/client.go. Errors, Negotiate and Request
--   are socks5/server.go; Client is socks5/client.go. The messages of github.com/txthinking/socks5
--   are answers. Negotiate/Tokens joins the server with Gateway/Settings and Gateway/Outbounds,
--   Client/Framing joins the client with the server.
-- - Upgrade: Version is CompareVersion of common/version.go, Install is upgradeMyself of
--   gateway/upgrade.go over three files, Daemon is gateway/cmd/daemon.go over the rounds of run.
-- - Tunnel/Engine: tun_stack/engine.go and stack.go, the global variables as one record.
-- - Logging: Level is logging/log.go, LogFile is logger/log.go, Rotation holds proofs.
-- - Agent/Apps: the calls on port mappings of agent/agent.go. Apps/Reachable puts addApp, the
--   question to the gateway, and the gateway's two handlers together. Agent/Life: start and close.
--   Agent/Tun: the start and the stop of the tunnel, over Tunnel/Engine.
--   Agent/Proxies: agent/proxy.go, the list of proxies that the user interface names by index.
-- - Types/Id: types/id.go.
-- - The modules whose names end in Tests: concrete runs.
--
-- Each method that holds a lock is one step on an explicit state, and concurrency is the order of
-- the steps; Portmap/Locks goes below that, to the steps between taking a lock and giving it back.
-- Random numbers, tokens, the answers of peers, of the operating system and of the tunnel are
-- arguments. Machine integers: addresses are numbers below 2 ^ 32 with the wrap-around of the code
-- written out; ids are 64-bit numbers which the code does not add to. Every loop is structural
-- recursion, but for the loop over the stream of a packet connection, which runs on fuel: one more
-- than the bytes of the stream is enough, since each datagram that is read takes two or more of
-- them; the decimal printer runs on fuel 20, as many digits as a uint64 has; a varint has at most
-- ten bytes, as in encoding/binary.
--
-- Not modelled: the options and the set-up of libp2p and of the tunnel's device, the commands of
-- the operating system, the loops that copy bytes between two open connections, Stop and the exit
-- signal of the gateway, one-time passwords (totp/totp.go, which nothing calls), command lines,
-- installation and user interfaces.
pub mod Agent
pub mod Apiutil
pub mod Common
pub mod Gateway
pub mod Logging
pub mod P2p
pub mod Portmap
pub mod Socks5
pub mod Stream
pub mod Tunnel
pub mod Types
pub mod Upgrade
