-- ===== src/Lib.antt =====
-- Verification library of the engine of Syncy (engine/internal), a peer-to-peer file
-- synchroniser written in Go.
--
-- The program. Devices talk over streams of one authenticated connection. The daemon decides what
-- a connection may do by the store: an untrusted device may only ask for friendship or answer our
-- request, a trusted one is served folders. A sync session pulls an index, fetches the blocks that
-- no local file holds, and installs each file over a temporary file, archiving the one it replaces.
-- Files are cut into blocks by their content; versions are compared by vectors. The engine scans a
-- folder, pulls it and records the hashes of what it then finds as the baseline of the next round. A
-- watcher and a monitor turn what happens in a folder into lists of changes.
--
-- The parts and their files.
--   Base        lists, numbers, maps and results that all parts share
--   Conflict    conflict/conflict.go: Vector and its operations; Conflict.Order compares, Conflict.Merge
--               merges, Conflict.Name is ConflictName
--   Io          the readers and writers of Go's io package, with io.ReadFull
--   Protocol    protocol/protocol.go: WriteFrame and ReadFrame on bytes; Protocol.Framing, Protocol.Writing,
--               Protocol.Blocks and Protocol.Progress prove, Protocol.Messages has the other messages
--   Hashing     hashing/hashing.go: a hash is its 32 bytes; hexadecimal text in Hashing.Hex
--   Chunker     chunker/chunker.go: the gear table, boundary, Split and SplitBytes
--   Fsafe       fsafe/fsafe.go: Local and Join, over filepath.Clean on the elements of a path
--               Fsafe.Cleaning and Fsafe.Containment prove, Fsafe.Below says what lies below a directory
--   Core        core/core.go: the domain types; a time is seconds and nanoseconds from 1970 on, or the zero time
--   Metadata    metadata/*.go: the store over the interface of a table (Metadata.Table), with a
--               table kept in memory (Metadata.Memory) that meets it
--               Metadata.Synced is synced.go and Metadata.Queue queue.go, each over a table of its own
--   Friends     syncengine/friends.go: adding, asking, accepting, applying; a store is passed from
--               call to call
--   Daemon      daemon/daemon.go: serveConn and the rest of a connection, events that change trust
--               (with handleAddDevice of api/api.go), the lock of a sync (Daemon.Syncing), whom the loops dial and what the
--               daemon announces (Daemon.Dialing)
--   Fs          regular files by their cleaned path
--   Session     session/session.go: Session has the index, classify and the request loops,
--               Session.Transfer pullFile and Pull, Session.Serving the side that answers
--   Versioning  versioning/versioning.go: Archive, Versions, Restore, prune and uniquePath
--   Scanner     scanner/scanner.go: Scan over a tree; Scanner.Diff is diff.go, Scanner.Apply makes the
--               changes of Diff on an index
--   Watch       fswatch/fswatch.go: the loop that gathers changed paths
--   Monitor     monitor/monitor.go: the loop that scans and compares
--   Engine      syncengine/syncengine.go: PullFolder and what it is made of; Engine.Conflicts is Conflicts
--   Nat         nat/nat.go: the external endpoint and the local addresses
--   Examples    concrete inputs
--
-- How they interact. Daemon calls Friends, which calls Metadata; both take the database and the
-- network (Friends.World) as parameters, so that a theorem holds whatever they answer. Session uses
-- Protocol for streams, Hashing and Chunker for blocks, Fsafe for paths and Conflict for names. Its
-- parameters (Session.Transfer.Env) are SHA-256, the peer's streams, the failures of the operating
-- system and the version store, an interface (Session.Transfer.Archiver) that Versioning fills. Engine
-- runs Scanner, Session with Versioning, and Metadata.Synced one after the other. Monitor runs Scanner
-- on what Watch reports. The loops of Watch and Monitor are functions of a list of inputs, one for
-- each round of their select.
--
-- Bounds and fuel. Counters of vectors and the fingerprint of the chunker wrap at 2^64, the length
-- of a frame at 2^32. Three loops have no bound of their own: the loop of Split takes more rounds
-- than bytes, and the two loops that read frames take more rounds than there are bytes in the
-- stream, which is enough because every round takes at least one byte. The search of uniquePath is
-- followed for a number of rounds that is a parameter (Versioning.Disk): one round more than there
-- are files is enough while Stat fails only with ErrNotExist, since each round meets a file that no
-- other round met; with other errors of Stat the code may search for ever. Sizes and lengths are
-- natural numbers: a negative Go int is outside the model. The store keeps whole seconds of a time.
--
-- Not modelled. SHA-256, SQLite, encoding/json, fsnotify, the router and mDNS libraries, TLS and
-- QUIC are parameters or interfaces, and so is the file system below its calls. A directory that
-- stands where a file is looked for is outside the model of files (Fs): of what stands in a folder
-- only the walk of Scanner sees directories. Symbolic links are outside the model. In Versions, a
-- name in which the stem and the extension overlap ends the Go program with a slice error; the
-- model gives it an empty stamp. The accept loops, start-up, discovery, identity, the HTTP API (but
-- for the handler that adds a device) and the AI helper are not modelled: they pass on what other
-- components decide, or call external services. A call that takes a lock is one step, and so is a
-- send on a channel. Stopping by a context is the closing of a loop's done channel.
pub mod Base
pub mod Conflict
pub mod Io
pub mod Protocol
pub mod Hashing
pub mod Chunker
pub mod Fsafe
pub mod Core
pub mod Metadata
pub mod Friends
pub mod Daemon
pub mod Fs
pub mod Session
pub mod Examples
pub mod Versioning
pub mod Scanner
pub mod Watch
pub mod Monitor
pub mod Engine
pub mod Nat
