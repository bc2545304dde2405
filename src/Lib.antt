-- ===== src/Lib.antt =====
-- quicrtc: the wire formats, the publish/subscribe core, the feed pumps and their scheduler, the session,
-- the session store and the resumption of sessions of the Go library.
--
-- Package wire (wire/frame.go, wire/datagram.go, wire/hello.go) turns frames into bytes: control frames,
-- the track header that opens a stream, feed frames and datagrams, and negotiates the version. Package
-- pubsub (pubsub/access_unit.go, pubsub/broadcaster.go) hands the access units that one publisher
-- produces to many receivers, and keeps the latest of them in a replay ring for receivers that come
-- back. A session (session/session.go) lets a subscriber in with a handshake on the control stream, and
-- attaches a receiver and a pump for each track. A pump (package feed) takes what its receiver
-- delivers and writes it as feed frames, on streams or in datagrams, and a scheduler orders the writes
-- of all pumps. The other way, a subscriber announces tracks and opens streams for them, which the
-- session reads into queues. When a client disconnects, its receivers are parked in the session store
-- until it comes back or its time is up; the server (server/server.go) then merges what the client has
-- missed into them.
--
-- Prelude: Boolean tests on native numbers, lists, maps, byte encodings, and Go's errors, readers and
--   writers. A reader is the list of the bytes to come. A writer keeps what was written, and a list
--   that says how the coming calls of Write end. Bytes and machine words are native numbers; the
--   encoders cut them with % and /, and the bounds IsByte, IsU16, IsU32 and IsU64 are hypotheses where
--   a value has to fit. A string is a list of bytes, and a map is a list of entries.
-- Wire: the constants and the end that all writers share. Wire.Control, Wire.Header, Wire.Feed and
--   Wire.Datagram have the functions of the first two files under their names in snake case;
--   Wire.Readers and Wire.Writers have the lemmas that they share. Wire.Hello has the payloads of
--   wire/hello.go, NegotiateVersion and UnmarshalError.
-- Track: the tables of track/track.go.
-- Pubsub: the access unit. Pubsub.Replay is the ring, the five replay fields of Broadcaster as a
--   record of their own; Pubsub.Replay.Spec is its specification on lists, and Pubsub.Replay.Refine,
--   Limits and History relate the two. The eviction loop runs on fuel, the number of entries, which is
--   enough since each round takes one out. Pubsub.Replay.Since is ReplaySince. Pubsub.Receiver is a
--   receiver with its channel, whose panics and blocked sends are the value none, and
--   Pubsub.Receiver.Splice is SpliceFront. Pubsub.Broadcaster has the methods of Broadcaster, as
--   functions on the broadcaster and a heap of receivers; a pointer is an index of the heap.
--   Pubsub.Broadcaster.Interleaving splits the calls at their locks, as a relation of steps.
-- Feed: the frame writer of feed/pump.go, which has an encoder of its own and writes large frames in
--   chunks when a scheduler is shared. The chunk loop runs on fuel, the number of bytes, which is
--   enough since each round takes at least one. Feed.Gop is runStreamGOP: a round of its loop is a
--   function on the current stream and what the coming opens and writes do, and the loop is a
--   recursion on the units that the receiver delivers; Feed.LowLatency is runStreamLowLatency, and
--   Feed.Datagram is runDatagramOrStream of feed/datagram.go, with its fallback stream.
--   Feed.Scheduler is feed/scheduler.go: calls, watcher and worker are events on the state.
--   Feed.Scheduler.Heap is the queue, with the loops of container/heap on fuel, the number of entries,
--   which is enough since each round halves the index or goes to a child; a panic and spent fuel are
--   the value none.
-- Session: the track set of session/session.go, AttachTrack and its variants. Session.Handshake is
--   handshake, on the bytes that are there to read; the two calls of encoding/json and the
--   callbacks of Config and of the server are parameters, and may be any functions. Session.Inbound
--   and Session.Streams are the other direction: announcements, drainInboundStream and InboundRecv
--   as events on the state, a track being an index as a receiver is; what the rate limiter says is
--   part of an event. The frames of a stream are read on fuel, the number of bytes, which is enough
--   since each frame takes at least one. Session.Control is controlReader, a round of its loop at a
--   time, on what the rounds get from the clock and from ctx.Err.
-- SessionStore: the in-memory store of server/session_store.go. The time is an argument where the
--   code calls time.Now, and a callback is a label that is put on a list when it is called. The loop
--   that makes room runs on fuel, the number of entries, which is enough since each round takes one.
-- Server: what runSession of server/server.go does when a session starts, resumes or ends, with one heap
--   for the receivers of all broadcasters. It runs the operations of the store, of the broadcasters
--   and of the receivers; what a callback of the store captures is looked up by its label.
--
-- Go does not say in which order it visits a map. The fanout takes the receivers in the order of a
-- list, and the theorems on it say what happens to each receiver, which no order changes; so do those
-- on the tracks that a handshake attaches. The sort by sequence number in ReplaySince keeps equal
-- numbers in place, where Go's may not; the theorem on it speaks of the order of the numbers and of
-- the units as a multiset. Of parked sessions that expire at the same time the model evicts the first
-- of its list. An interceptor is a function: what else it does, such as counting, is not seen. The
-- handling of an announcement is one event, though it takes the lock more than once: only one
-- goroutine handles announcements, and a stream passes its test only on what the last write leaves.
--
-- Not modelled: mutexes other than as the steps that they enclose, the text of errors, deadlines (a
-- deadline that passes is a read or a write that fails), the sharing of payload slices (which are never
-- written after Publish), callbacks that only count, and the packages around this core. Of session
-- these are the idle watchdog, the rate limiter and the joining of goroutines in
-- Run; of server the adding and removing of tracks, recorders, and the listener; of feed the calls on
-- bidirectional streams; and client, relay, record, cert and metrics.
pub mod Prelude
pub mod Wire
pub mod Pubsub
pub mod Feed
pub mod Server
pub mod SessionStore
pub mod Track
pub mod Session
