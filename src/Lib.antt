-- ===== src/Lib.antt =====
-- Claudy turns a computer into a personal cloud: an owner serves a folder, a viewer mounts it,
-- and a small broker introduces the two. The Go program is under claudy-p2p/. This library models
-- its logic and proves what makes it correct.
--
-- A viewer's request goes from its WebDAV client through the Noise transport (Secure) over a data
-- channel (Peer) to the owner, where the wrappers of the owner's file system (Ownerfs) answer it.
-- The broker (Signal) carries the envelopes that set up the channel, and the keyring (Identity)
-- says whose key the Noise handshake must see.
--
-- - Base: native numbers, lists, Go strings as lists of bytes (Bytes), Go maps as association
--   lists (Dict), and Go's package path (Paths, Rooted).
-- - Signaling: the Envelope of claudy-p2p/internal/signaling/message.go.
-- - Signal: the broker, claudy-p2p/cmd/signal/main.go. Signal has the room table (pair,
--   counterpart, drop); Signal.Server has the handler (handle) and the loop of the pump
--   (pump_round) over every sequence of accepted sockets, frames and failures; a peerConn pointer
--   is the number of its socket.
-- - Signaling.Client: claudy-p2p/internal/signaling/client.go, over what every dial, write and
--   read of the sockets returns.
-- - Identity: claudy-p2p/internal/identity. Identity.Base64 is the unpadded base64 of the
--   standard library, Identity.KeyFile is LoadOrCreate, Identity.Keyring is the
--   trust-on-first-use store with its file, over the outcomes that the system calls of each save
--   can have, where Identity.Utf8 is what JSON keeps of its strings.
-- - Secure: claudy-p2p/internal/secure/noise.go. Secure.Frame has readFrame and writeFrame,
--   Secure.Channel the Read and Write of Conn over any cipher states that keep the contract of
--   the noise package, Secure.Handshake doHandshake and the key conversions, over the handshake
--   state of that package.
-- - Peer: claudy-p2p/internal/peer. Peer.Conn has the Read, Write, Close and message handler of
--   Conn, where the choice of every select and the outcome of every Send are arguments; Peer.Link
--   two ends of it over a data channel; Peer.Timer has atomicTimer with the runtime's timers;
--   Peer.Listener has Listener; Peer.Remote has ApplyRemote and the configuration of a peer
--   connection.
-- - Ownerfs: claudy-p2p/internal/ownerfs. Ownerfs has the interface that the wrappers take and
--   give, Ownerfs.Client the calls of a client; Ownerfs.Filter, Ownerfs.Normalize and
--   Ownerfs.Cache have the wrappers FilterJunk, NormalizeNFC and Cached, method by method;
--   Ownerfs.ShareDelete has the path resolution and the OpenFile of the Windows directory;
--   Ownerfs.Stack puts the wrappers on top of each other as claudy-p2p/cmd/dav-owner/main.go
--   does.
-- - Claudy: claudy-p2p/cmd/claudy/main.go. Claudy.Subprocess has a child's log ring, status line
--   and pipe reader; Claudy.App the operations of appState on the slots, the connection and the
--   running children, and with Claudy.App.Races requests that interleave between the critical
--   sections of addViewer and startConnect, and between those of removeViewer, stopShare and
--   stopConnect and the end of their stops; Claudy.Rooms the random room codes; Claudy.Views the
--   status and the log dump that the pages show; Claudy.Picker what the folder dialogs return;
--   Claudy.Waiting waitForStatus and the mount supervisor; Claudy.Mounts the recorded path, the
--   unmount and the parsing of drive letters. Claudy.Files is claudy-p2p/cmd/claudy/files.go: the
--   URL of a path, the WebDAV requests, and with Claudy.Files.Listing, Upload and Download the
--   routes of the file browser.
-- - Session: the two binaries that hold a session. Session.Viewer is the viewerSession of
--   claudy-p2p/cmd/dav-client/main.go and Session.Owner the ownerSession of
--   claudy-p2p/cmd/dav-owner/main.go: their rebuilds, the callbacks of their peer connections,
--   their watchdogs and signal handlers, in any order. Session.Admission is the check of the
--   peer's key at the start of both, over the keyring of Identity; Session.Streams the listener
--   that hands the streams of the tunnels to the owner's HTTP server; Session.Proxy the local
--   proxy of the viewer; Session.Tunnel is claudy-p2p/internal/tunnel/tunnel.go, over the
--   handshake of Secure; Session.Delivery runs the Noise transport over the data channel.
-- - Powerlock: claudy-p2p/internal/powerlock: Acquire and Release, where a back end is the flag
--   that keeps the host awake.
--
-- Fuel: the loops of both Write methods take one more than the number of bytes, and every round
-- takes at least one byte; the loop of pipeToLog that cuts lines takes the number of bytes, and
-- every round takes a newline; waitForStatus takes the hundreds of milliseconds of its timeout
-- and two, and the mount supervisor the milliseconds of five minutes, where every round ends
-- later than the one before. Everything else is structural recursion.
--
-- Not modelled: the flags and wiring of the main functions, the browser and the pages of
-- claudy-p2p/cmd/claudy, and the smoke-test binaries; the commands that mount, and the system
-- calls and helper processes of each platform, of which the outcomes are arguments; the WebRTC,
-- WebSocket, yamux, WebDAV, HTTP, XML and Noise packages, of which the code relies on what the
-- records and hypotheses name; logging.
pub mod Base
pub mod Signaling
pub mod Signal
pub mod Identity
pub mod Secure
pub mod Peer
pub mod Ownerfs
pub mod Claudy
pub mod Session
pub mod Powerlock
mod Tests
