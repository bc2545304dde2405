-- ===== src/Feed/LowLatency.antt =====
-- The low-latency pump of feed/pump.go: one stream for all units, opened again after a failure. The
-- callbacks that only count are left out, and so is the Close of the stream at the end.
pub mod Laws
mod Tests
use quicrtc.Prelude.{
  ℕ, List, Bool, true, false, ◌==◌, if◌then◌else◌, length, [], ◌∷◌, ◌++◌, Option, some, none, Sink,
  Error, bit_or,
}
use quicrtc.Pubsub.{AccessUnit}
use quicrtc.Wire.{type_keyframe, flag_keyframe, flag_discontinuity}
use quicrtc.Wire.Header.{write_stream_header}
use quicrtc.Feed.{write_frame}
use quicrtc.Feed.Gop.{Config, pub_wall}

-- The reasons that are given to OnAUDropped.
pub data DropReason : Type 0 where
  stream_open_failed write_deadline : DropReason

-- The variables of runStreamLowLatency. `opens` and `reset` are as for the per-GOP pump, and
-- `dropped` lists the calls of OnAUDropped.
pub record LowLatency : Type 0 where
  pub stream : Option Sink
  pub opens : List (Option (List (Option ℕ)))
  pub reset : List Sink
  pub dropped : List DropReason

-- The track header on a new stream; whether the stream is kept.
unfoldable pub announce : Config → Sink → Sink × Bool
announce c w =
    let (w', e) = write_stream_header w c.track_name in
    if length c.track_name == 0
    then (w, true)
    else (elim e [ none ↦ (w', true) | some fault ↦ (w', false) ])

-- openStream, and what the caller makes of its result.
unfoldable pub reopen : Config → LowLatency → LowLatency
unfolding announce
reopen c g = elim g.opens [
  | [] ↦ record g { stream = none; dropped = g.dropped ++ stream_open_failed ∷ [] }
  | none ∷ opens ↦ record g {
    stream = none;
    opens = opens;
    dropped = g.dropped ++ stream_open_failed ∷ [];
  }
  | some faults ∷ opens ↦
      let (w, kept) = announce c (record { out = []; faults = faults }) in
      if kept then record g { stream = some w; opens = opens } else record g {
        stream = none;
        opens = opens;
        reset = g.reset ++ w ∷ [];
        dropped = g.dropped ++ stream_open_failed ∷ [];
      }
]

-- The variables before the loop: the stream is opened up front.
unfoldable pub start : Config → List (Option (List (Option ℕ))) → LowLatency
unfolding reopen
start c opens = reopen c (record { stream = none; opens = opens; reset = []; dropped = [] })

abbrev pub flags_of : AccessUnit → ℕ
flags_of au = if au.discontinuity then bit_or flag_keyframe flag_discontinuity else flag_keyframe

-- The write of a unit, if there is a stream.
unfoldable pub write_unit : Config → ℕ → AccessUnit → LowLatency → LowLatency
write_unit c now au g = elim g.stream [
  | none ↦ g
  | some w ↦
      let (w', e) =
        write_frame c.scheduled w type_keyframe au.pts_micro au.seq (flags_of au)
          (pub_wall c now au) au.bytes in
      elim e [
        | none ↦ record g { stream = some w' }
        | some fault ↦ record g {
          stream = none;
          reset = g.reset ++ w' ∷ [];
          dropped = g.dropped ++ write_deadline ∷ [];
        }
      ]
]

-- A round of the loop.
unfoldable pub send_unit : Config → ℕ → AccessUnit → LowLatency → LowLatency
unfolding reopen write_unit
send_unit c now au g = elim g.stream [
  | none ↦ write_unit c now au (reopen c g)
  | some w ↦ write_unit c now au g
]

-- The loop, on the units that the receiver's channel delivers and the times at which it does.
unfoldable pub run_stream_low_latency : Config → List (AccessUnit × ℕ) → LowLatency → LowLatency
unfolding send_unit
run_stream_low_latency c [] g = g
run_stream_low_latency c (x ∷ xs) g = run_stream_low_latency c xs (send_unit c x.1 x.0 g)
