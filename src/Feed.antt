-- ===== src/Feed.antt =====
-- The frame writer of feed/pump.go. A write deadline is one of the reasons for which a Write fails.
pub mod Laws
pub mod Gop
pub mod LowLatency
pub mod Datagram
pub mod Scheduler
mod Tests
use quicrtc.Prelude.{
  ℕ, zero, suc, ◌+◌, ◌*◌, List, Bool, true, false, not, ◌||◌, ◌==◌, ltb, leb, if◌then◌else◌, length,
  take, drop, [], ◌∷◌, ◌++◌, Option, some, none, Sink, Error, frame_too_large, write, put_u24,
  put_u32, put_u64, bit_or,
}
use quicrtc.Wire.{max_feed_payload, feed_header_len, flag_publish_wall}

abbrev pub pacing_chunk_bytes : ℕ
pacing_chunk_bytes = 16 * 1024

-- appendFeedFrame
unfoldable pub append_feed_frame : List ℕ → ℕ → ℕ → ℕ → ℕ → ℕ → List ℕ → List ℕ
append_feed_frame dst typ pts seq flags pub_wall payload =
    let fl = if pub_wall == 0 then flags else bit_or flags flag_publish_wall in
    let hdr = typ ∷ (put_u24 (length payload) ++ (put_u64 pts ++ (put_u32 seq ++ fl ∷ []))) in
    let ext = if pub_wall == 0 then [] else put_u64 pub_wall in ((dst ++ hdr) ++ ext) ++ payload

-- writeFeedFramePooled; the pooled buffer starts empty.
unfoldable pub write_feed_frame_pooled : Sink → ℕ → ℕ → ℕ → ℕ → ℕ → List ℕ → Sink × Option Error
unfolding append_feed_frame
write_feed_frame_pooled w typ pts seq flags pub_wall payload =
    if ltb max_feed_payload (length payload)
    then (w, some frame_too_large)
    else write w (append_feed_frame [] typ pts seq flags pub_wall payload)

-- The loop of writeFrame on what is left of the buffer. A round takes at least a byte, so as many
-- rounds as bytes are enough.
unfoldable pub write_chunks : ℕ → List ℕ → Sink → Sink × Option Error
write_chunks zero buf w = (w, none)
write_chunks (suc fuel) [] w = (w, none)
write_chunks (suc fuel) (x ∷ xs) w =
    let (w', e) = write w (take pacing_chunk_bytes (x ∷ xs)) in
    elim e [
      | some fault ↦ (w', some fault)
      | none ↦ write_chunks fuel (drop pacing_chunk_bytes (x ∷ xs)) w'
    ]

-- writeFrame, with or without a scheduler. scheduledDo runs what it is given before it returns, on
-- the scheduler's goroutine or inline.
unfoldable pub write_frame : Bool → Sink → ℕ → ℕ → ℕ → ℕ → ℕ → List ℕ → Sink × Option Error
unfolding write_feed_frame_pooled write_chunks append_feed_frame
write_frame scheduled w typ pts seq flags pub_wall payload =
    let buf = append_feed_frame [] typ pts seq flags pub_wall payload in
    if ltb max_feed_payload (length payload)
    then (w, some frame_too_large)
    else if not scheduled || leb (feed_header_len + length payload) pacing_chunk_bytes
    then write_feed_frame_pooled w typ pts seq flags pub_wall payload
    else write_chunks (length buf) buf w
