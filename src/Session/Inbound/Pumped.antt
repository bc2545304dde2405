-- ===== src/Session/Inbound/Pumped.antt =====
-- A stream that the low-latency pump of feed/pump.go wrote, as drainInboundStream of
-- session/session.go reads it.
use quicrtc.Prelude.{
  ℕ, ◌≤◌, ◌≡◌, List, true, ◌==◌, if◌then◌else◌, length, map, [], ◌∷◌, ◌++◌, ok, Text, IsU32, IsU64,
}
use quicrtc.Pubsub.{AccessUnit, zero_au}
use quicrtc.Wire.{type_keyframe, max_feed_payload}
use quicrtc.Wire.Feed.{FeedFrame}
use quicrtc.Feed.Laws.{pump_frame}
use quicrtc.Feed.Gop.{Config, pub_wall}
use quicrtc.Feed.LowLatency.{flags_of}
use quicrtc.Feed.LowLatency.Laws.{Seen}
use quicrtc.Session.Streams.{named_by_header, primary, units_in}

-- The fields of a unit fit the wire, and so does its publish time.
abbrev pub UnitFits : Config → AccessUnit × ℕ → Type 0
UnitFits c x =
    IsU64 x.0.pts_micro
    × IsU32 x.0.seq
    × IsU64 (pub_wall c x.1 x.0)
    × (length x.0.bytes ≤ max_feed_payload)

-- What the other side makes of a unit: all units of such a track are keyframes.
abbrev pub received : AccessUnit × ℕ → AccessUnit
received x = record zero_au {
  bytes = x.0.bytes;
  keyframe = true;
  pts_micro = x.0.pts_micro;
  seq = x.0.seq;
  discontinuity = x.0.discontinuity;
}

unit_frame : Config → AccessUnit × ℕ → FeedFrame
unit_frame c x =
    pump_frame type_keyframe x.0.pts_micro x.0.seq (flags_of x.0) (pub_wall c x.1 x.0) x.0.bytes

-- The track that the stream is for.
abbrev pub stream_name : Config → Text
stream_name c = if length c.track_name == 0 then primary else c.track_name

-- What a reader makes of the bytes of a stream.
pub record ReadBack (c : Config) (xs : Seen) (x : AccessUnit × ℕ) (bytes : List ℕ) : Type 0 where
  pub before : Seen
  pub units : Seen
  pub split : xs ≡ before ++ units
  pub rest : List ℕ
  pub routed : named_by_header bytes ≡ ok (stream_name c, rest)
  pub read : units_in (length rest) rest ≡ map received (units ++ x ∷ [])
