-- ===== src/Lib.antt =====
-- Verification of pmux, the agent that shows the tmux sessions of a host to a paired mobile client.
--
-- The program. A mobile is paired once (internal/auth). It asks for a connection through the signaling
-- server, to which the agent keeps a connection (internal/webrtc/signaling.go); the manager of the peers
-- (internal/webrtc/peer.go) admits the paired device only, and the two sides prove to each other on
-- the data channel that they hold the pairing secret. A client's messages then arrive on that channel
-- as MessagePack and are decoded by the receive path (internal/protocol), which checks every field. The
-- handler (internal/agent/handler.go) answers them: it asks tmux through the command line
-- (internal/tmux), keeps at most one attachment per peer, and streams a pane's output back through a
-- filter for window titles. The result of an update check (internal/update) is announced with the
-- session tree.
--
-- The files.
--   Base                 shared names: tests on numbers, lists, byte strings, Go's int, results, maps
--   Strings              the functions of Go's strings, strconv and bytes that the source calls
--   Protocol.Messages    internal/protocol/messages.go: a constructor for each struct
--   Protocol.Validation  internal/protocol/validation.go: `Validate`, the helpers and the constants
--   Protocol.Codec       internal/protocol/codec.go: `Encode`, `Decode`, `DecodeRequest`; MessagePack
--                        is the record `Msgpack`
--   Tmux.TitleFilter     internal/tmux/titlefilter.go: the state, `Filter` and `appendTitle`
--   Tmux.Server          internal/tmux/tmux.go: `runCtxStdin`; the tmux process is the record `Server`
--   Tmux.Client          internal/tmux/tmux.go: the commands; internal/tmux/pty.go: `WindowForPane`
--   Tmux.Listing         internal/tmux/tmux.go: `ListSessions` to `ListAll`, and their parsers
--   Tmux.Resize          internal/tmux/resize.go: `PaneSizeTracker`, a map of panes to `true`
--   Agent.Handler        internal/agent/handler.go: State is `Handler`, with its maps as association
--                        lists; Detach is `detachPeerWait`, `endStream` and `resetStream`; Sessions is
--                        `handleListSessions` and `handlePaneExit`; Attach is `handleAttach`; Requests
--                        holds the other handlers and `HandleMessage`; Stream is one round of the loop
--                        of `streamOutput`; Events puts these in a sequence
--   Webrtc.Peer          internal/webrtc/peer.go: State is what `Peer` holds for its data channel, with
--                        the record `Platform` for what it calls; Fingerprints is
--                        `pcDTLSFingerprints`; Send is `SendMessageContext` and `SendRaw`; Auth holds
--                        `sendAuthChallenge`, `verifyAuthResponse` and `handleDataChannelMessage`, cut
--                        where the code lets go of a lock; Steps lets these parts interleave
--   Webrtc.Manager       internal/webrtc/peer.go: State is `PeerManager`, with the record `Network` for
--                        what it calls; Cleanup, Connect, Signals and Restart hold its methods; Steps
--                        puts them in a sequence with the callbacks and timers of any peers
--   Webrtc.Signaling     internal/webrtc/signaling.go: State is `SignalingClient` with the variables of
--                        `Run`, and the record `Server` for what it calls; Token is `ensureToken`
--                        and `tokenRefreshLoop`, Loop `Run` and `connectAndServe`, cut where they
--                        wait; Steps puts them in a sequence with the calls of other goroutines
--   Auth.Session         internal/auth/pair_session.go: `PairSession` with what its connection will
--                        still deliver; a client calls it in any order
--   Auth.Pairing         internal/auth/pairing.go: `pairBind`, `VerifyPairMAC` and
--                        `ComputeSharedSecret` over a record for the cryptography
--   Update               internal/update: the state's record, version.go, and `Check` of checker.go
--   Config               internal/config/config.go: Settings holds the records and the defaults, Load
--                        the overlays of file and environment, Check `Validate` and the intervals; the
--                        parsers of TOML and of durations are parameters
-- Below these, a module is named for what it is about: Isolation for what an event of a peer does to
-- the other peers, Attachment for what the maps hold for one peer; Inbound, Outbound and Phases for
-- what a peer handles, what it sends and how far its authentication is; Quiet for the operations that
-- add no peer to the table, Reachable and Stale for the table and for replaced peers; Pace, Steady and
-- Wake for the reconnects of the signaling client; Answered and Commits for what a pairing session tells
-- the server and is told. The modules Tests hold tests and concrete instances of the theorems.
--
-- How the model stands to the code.
--   Bytes are numbers and a string is the list of its bytes. An `int` is an integer, and where the
--   code reads or prints one the 64 bits are written out.
--   A call of something outside the source (the tmux process, MessagePack, the peer connection, the
--   compressor, the clock, the release server) is a field of a record that the definitions take, with
--   a world that each call may change. Nothing is assumed of these fields but what a theorem says.
--   The loop of `Filter` runs on fuel, as many rounds as the chunk has bytes; each round consumes a
--   byte.
--   The handler's contexts and done channels are numbers: a context is canceled, or a channel closed,
--   if its number is in the list of these. The messages handed to `send` are kept in their order.
--   A peer's channel, its timer, its other senders and the manager take turns between the critical
--   sections of its code; the world may change between any two. A peer is named by its number, and a
--   write through a pointer is a write to a function from numbers. What a goroutine of the manager
--   does is an event, which may come late, twice or never; the check of `teardownIfCurrent` and the
--   disconnect handler that it lets run are two events. A reconnect waits for the teardown of the
--   old peer without the code's limit of three seconds.
--   The goroutine of `Run` takes turns with the calls of other goroutines where it waits; its times are
--   nanoseconds, and each event finds the world in a state of its own. A frame of the pairing session
--   stands for its JSON; a read past the frames given fails.
--   For the handler, a message is handled in one piece. A wait for a stream's channel ends, with the
--   deferred calls of that stream, only if its context is canceled and its bridge closed; any other
--   wait is noted as blocked. The agent's own context is not canceled.
--
-- Not modelled: recovery from panics, logging and the text of Go's %q; the interleaving of a stream
-- with a message that is handled at the same time; the fifo behind a pane's bridge and its raw
-- reads; the compressor; the peer connections themselves and the HTTP request for TURN credentials;
-- the heartbeat, the read deadlines and the socket of the signaling client; the keepalive and the HTTP
-- requests of pairing, the list of paired devices and key storage; the paths and the printing of the
-- configuration; the supervisor and the command line; firewall, proxy, keep-awake and the installers,
-- which call the operating system.
pub mod Base
pub mod Strings
pub mod Protocol
pub mod Tmux
pub mod Update
pub mod Webrtc
pub mod Auth
pub mod Config
pub mod Agent
