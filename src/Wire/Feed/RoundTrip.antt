-- ===== src/Wire/Feed/RoundTrip.antt =====
-- The whole of a feed frame's way: written, cut short, and read back.
use native.Mathlib.Decide.{dec_lt}
use quicrtc.Prelude.{
  ℕ, List, Option, some, none, ◌≡◌, length, Sink, Error, eof, unexpected_eof, frame_too_large,
  io_fault, ok, err, [], ◌∷◌, ◌++◌, append-nil, arith, ◌≤◌, ◌<◌, ◌⊎◌, inl, inr, ◌≢◌, bit_and,
  IsByte, IsU32, IsU64, bit_and-bit_or_four, bit_or_four-IsByte,
}
use quicrtc.Wire.{max_feed_payload, flag_publish_wall}
use quicrtc.Wire.Readers.{truncated}
use quicrtc.Wire.Writers.{Outcome}
use quicrtc.Wire.Feed.{FeedFrame, write_feed_frame, write_feed_frame_wall, read_feed_frame}
use quicrtc.Wire.Feed.Laws.{
  IsFrame, feed_frame, plain_frame, wall_frame, read-feed_frame, read_feed_frame-IsStable,
  write_feed_frame_cases, write_wall_cases,
}

-- What a writer of feed frames does with a frame: refuses it with nothing written, fails in a
-- Write, or appends it so that ReadFeedFrame reads it back and leaves the bytes behind it.
abbrev pub Delivers : Sink → Sink × Option Error → FeedFrame → List ℕ → Type 0
Delivers w r f rest =
    ((max_feed_payload < length f.payload) × (r ≡ (w, some frame_too_large)))
    ⊎ ((length f.payload ≤ max_feed_payload) × (w.faults ≢ []) × (r.1 ≡ some io_fault))
    ⊎ ((length f.payload ≤ max_feed_payload)
        × (r.1 ≡ none)
        × (r.0.out ≡ w.out ++ feed_frame f)
        × (read_feed_frame (feed_frame f ++ rest) ≡ ok (f, rest)))

pub delivers :
    (w : Sink) (r : Sink × Option Error) (f : FeedFrame) (rest : List ℕ)
    → IsFrame f
    → Outcome w r (feed_frame f)
    → Delivers w r f rest
delivers w r f rest v (inl (a, b)) = inr (inl (v.payload_fits, a, b))
delivers w r f rest v (inr (a, b)) = inr (inr (v.payload_fits, a, b, read-feed_frame f rest v))

-- A feed frame survives the wire, for every type, timestamp, sequence number and flags without the
-- publish-wall flag: WriteFeedFrame refuses a payload over the limit with nothing written, or a
-- Write fails, or ReadFeedFrame returns the same frame with no wall clock.
pub feed_round_trip :
    (w : Sink) (t pts s fl : ℕ) (p rest : List ℕ)
    → IsU64 pts
    → IsU32 s
    → IsByte fl
    → bit_and fl flag_publish_wall ≡ 0
    → Delivers w (write_feed_frame w t pts s fl p) (plain_frame t pts s fl p) rest
feed_round_trip w t pts s fl p rest hp hs hf z = elim (dec_lt max_feed_payload (length p)) [
  | yes big ↦ inl (big, unfold write_feed_frame in ground arith)
  | no fits ↦
      delivers w _ (plain_frame t pts s fl p) rest (omega arith)
        (write_feed_frame_cases w t pts s fl p (omega arith) z)
]

pub wall_frame-IsFrame :
    (t pts s fl wall : ℕ) (p : List ℕ)
    → IsU64 pts
    → IsU32 s
    → IsByte fl
    → IsU64 wall
    → length p ≤ max_feed_payload
    → IsFrame (wall_frame t pts s fl wall p)
wall_frame-IsFrame t pts s fl wall p hp hs hf hw h = record {
  pts_fits = hp;
  seq_fits = hs;
  flags_fit = bit_or_four-IsByte fl hf;
  wall_fits = hw;
  wall_flagged = inl (λ z. absurd (omega (arith, bit_and-bit_or_four fl hf)));
  payload_fits = h;
}

-- A feed frame with a wall clock survives the wire, for every type, timestamp, sequence number,
-- flags and clock: WriteFeedFrameWall refuses a payload over the limit with nothing written, or a
-- Write fails, or ReadFeedFrame returns the frame with its wall clock and with the publish-wall flag
-- set.
pub feed_wall_round_trip :
    (w : Sink) (t pts s fl wall : ℕ) (p rest : List ℕ)
    → IsU64 pts
    → IsU32 s
    → IsByte fl
    → IsU64 wall
    → Delivers w (write_feed_frame_wall w t pts s fl wall p) (wall_frame t pts s fl wall p) rest
feed_wall_round_trip w t pts s fl wall p rest hp hs hf hw =
    elim (dec_lt max_feed_payload (length p)) [
      | yes big ↦ inl (big, unfold write_feed_frame_wall in ground arith)
      | no fits ↦
          delivers w _ (wall_frame t pts s fl wall p) rest
            (wall_frame-IsFrame t pts s fl wall p hp hs hf hw (omega arith))
            (write_wall_cases w t pts s fl wall p (omega arith) hf)
    ]

-- On every proper part of a frame ReadFeedFrame reports that the stream ended.
pub read_feed_frame-truncated :
    (f : FeedFrame) (front : List ℕ) (x : ℕ) (back : List ℕ)
    → IsFrame f
    → feed_frame f ≡ front ++ x ∷ back
    → (read_feed_frame front ≡ err eof) ⊎ (read_feed_frame front ≡ err unexpected_eof)
read_feed_frame-truncated f front x back v e =
    truncated read_feed_frame front x back read_feed_frame-IsStable
      (rw (append-nil, e) at (read-feed_frame f [] v))
