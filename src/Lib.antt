-- ===== src/Lib.antt =====
-- Verification of abyss_core: the neighbour discovery of a host, the messages it exchanges, the
-- host around it, and the peers and connections that carry the messages.
--
-- A host (host/) opens and joins worlds. For each world, package and keeps what it knows of every
-- peer and decides, on the application's calls, on timers and on the messages of peers, whom to
-- greet, whom to introduce and what to tell the application: the events go to the event loop
-- of the host, which keeps the worlds. The messages come from and go to peers (net_service/) in the
-- raw form of package ahmp; a peer is connected by one handshake in each direction.
--
-- Interfaces        interfaces/i_and.go, i_and_peer.go: events, messages, sessions
-- And.State         and/world.go, and/consts.go: WorldState is the WS_ constants, AndWorld the
--                   struct ANDWorld
-- And.Effect        how a handler runs: a function of the state to a result, a state and the list of
--                   its actions (channel writes, TrySend calls, counters), or to a panic
-- And.Clear         and/world.go: Clear, ClearStates, TryUpdateSessionID, IsProperMemberOrReset
-- And.Info          and/world.go: what each handler does to the entry of its sender
-- And.World         and/world.go: NewWorldOpen, NewWorldJoin, PeerConnected, JN, JOK, JDN, JNI, MEM
-- And.Members       and/world.go: SJN, CRR, SOA, SOD, RST, AcceptSession, DeclineSession,
--                   TimerExpire, RemovePeer, Close
-- And.Monitor       readers of the actions: membership events of a peer, counters
-- And.Steps, And.Run, And.Ends    what each handler keeps, on one entry and on a world, and that it
--                   ends; And.Call and And.Call.History join them to histories of calls
-- And.Keeping       what each call leaves of the entries of connected peers
-- And.Closing, And.Sessions, And.Rounds,
--                   And.Announcing, And.Counters    theorems on single handlers
-- And.Calm          which events a world tells that waits for no join
-- And.Service       and/and.go: the API, one call after another under its lock
-- Host              host/host.go, host/world.go, host/peer.go: the event loop over events, with
--                   the worlds, the joins that wait and the activity of peers
-- Host.Opened, Host.Histories     the event loop on what And tells of an opened world
-- Host.Paths        host/default_path_resolver.go
-- Host.Serving, Host.Arriving     host/host.go: serveLoop, from a peer's messages to calls of And
-- Net.Peer          net_service/abyss_peer.go, abyss_inbound.go, abyss_outbound.go: the connection
--                   state of a peer; Steps and Handshakes are what it goes through
-- Net.Identity      net_service/cert_helper.go: Binding on certificates, Handshake on encryption
-- Net.Addresses     net_service/address_selector.go
-- Net.Contexts, Net.Timeouts      net_service/peer_context.go: the peer map and its waiters
-- Net.Service       net_service/net_service.go: known peers and connecting
-- Url               aurl/abyss_url.go: printing and parsing of URLs, on code points
-- Functional        tools/functional: the loops over slices
-- Tools.Pool        tools/dacp: actions that wait for other actions
-- Ahmp              ahmp/raw_message.go, ahmp/message.go: messages and TryParse; Ahmp.Build is the
--                   bodies of TrySend in net_service/abyss_peer.go, Ahmp.Listen the frames on a
--                   stream and listenAhmp
-- And.Examples, Ahmp.Examples, Host.Examples, Net.Examples, Url.Examples, Tools.Pool.Examples
--                   concrete worlds, messages, peers, URLs and a pool
--
-- A Go map is a function from keys to Option. A range visits keys in an order that is an argument, so
-- a theorem holds for every order. A pointer `info` is the slot of its key in the map, and a deleted
-- slot is empty. The clock and rand.Intn are arguments. There is no fuel in a definition of the code:
-- every loop is structural over a list. The popping of a whole pool is bounded by the number of its
-- actions, which is shown to be enough. The event channel never blocks in the model; it holds 4096
-- events in the program. Numbers have no bound, except the 64 bits of a time on the wire and of
-- the ids of Tools.Pool: sjnc counts messages one by one, and a join code is only passed on.
--
-- Goroutines are sequences: what runs under one lock is one step, and theorems hold for all orders of
-- the steps. What a call of another library returns is an argument of the step that makes it, or, where
-- its laws matter (CBOR, x509, RSA, AES-GCM), a function of a record with a record of its documented
-- laws. A time is a number of nanoseconds, and a wait for a channel is the step that ends it.
--
-- Not modelled: the QUIC transport, the TLS configuration and the accept loop of net_service, which are
-- I/O of libraries; the HTTP/3 client of host and its waits for contexts; the C interface of
-- native_dll; the logs of watchdog, the text of ANDStatistics and of errors; tools/sear; and
-- CheckSanity, which nothing calls. uuid.Parse and UUID.String are parameters, and so are aurl.TryParse
-- and AURL.ToString for Ahmp, whose texts are whole strings.
pub mod Prelude
pub mod Interfaces
pub mod And
pub mod Ahmp
pub mod Functional
pub mod Host
pub mod Net
pub mod Url
pub mod Tools
