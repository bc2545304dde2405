-- ===== src/Feed/Gop.antt =====
-- The per-GOP pump of feed/pump.go: one stream for each keyframe, on which the P-frames follow.
-- The callbacks that only count are left out, and so is the Close of the current stream at the end.
pub mod Laws
pub mod Carried
mod Tests
use quicrtc.Prelude.{
  ℕ, zero, suc, ◌+◌, List, Bool, true, false, not, ◌||◌, ◌==◌, ltb, if◌then◌else◌, length, [], ◌∷◌,
  ◌++◌, Option, some, none, Sink, Error, bit_or,
}
use quicrtc.Pubsub.{AccessUnit}
use quicrtc.Wire.{type_keyframe, type_p_frame, flag_keyframe, flag_discontinuity}
use quicrtc.Wire.Header.{write_stream_header}
use quicrtc.Feed.{write_frame}

-- The fields of Config that runStreamGOP reads. `scheduled` says whether there is a Scheduler.
pub record Config : Type 0 where
  pub track_name : List ℕ
  pub scheduled : Bool
  pub allow_leading_p_frames : Bool
  pub stamp_publish_wall : Bool

-- The variables of runStreamGOP. `opens` says how the coming calls of OpenSendStream end: with an
-- error, or with a stream whose Writes end as its list says. `reset` has the streams on which
-- CancelWrite was called, and `requests` counts the calls of RequestKeyframe.
pub record Pump : Type 0 where
  pub current : Option Sink
  pub leading_allowed : Bool
  pub opens : List (Option (List (Option ℕ)))
  pub reset : List Sink
  pub requests : ℕ

-- The track header on a new stream.
unfoldable pub write_track_header : Config → Sink → Pump → Pump × Option Sink
write_track_header c w g =
    let (w', e) = write_stream_header w c.track_name in
    if length c.track_name == 0 then (g, some w) else (elim e [
      | none ↦ (g, some w')
      | some fault ↦ (record g { reset = g.reset ++ w' ∷ [] }, none)
    ])

-- openGOPStream
unfoldable pub open_gop_stream : Config → Pump → Pump × Option Sink
unfolding write_track_header
open_gop_stream c g = elim g.opens [
  | [] ↦ (g, none)
  | none ∷ opens ↦ (record g { opens = opens }, none)
  | some faults ∷ opens ↦
      write_track_header c (record { out = []; faults = faults }) (record g { opens = opens })
]

-- `recv.RequestKeyframe()`
unfoldable pub request : Pump → Pump
request g = record g { requests = g.requests + 1 }

-- An open, and what follows if it fails; whether the unit is to be written.
unfoldable pub switch_stream : Config → Pump → Pump × Bool
unfolding open_gop_stream request
switch_stream c g =
    let (g', s) = open_gop_stream c g in
    elim s [
      | none ↦ (request (record g' { current = none }), false)
      | some w ↦ (record g' { current = some w }, true)
    ]

abbrev pub cancelled : Option Sink → List Sink
cancelled none = []
cancelled (some w) = w ∷ []

-- The part of the loop before the write.
unfoldable pub ready : Config → AccessUnit → Pump → Pump × Bool
unfolding switch_stream request
ready c au g =
    if au.keyframe
    then switch_stream c
        (record g { leading_allowed = false; reset = g.reset ++ cancelled g.current })
    else (elim g.current [
      | some w ↦ (g, true)
      | none ↦
          if g.leading_allowed
          then switch_stream c (record g { leading_allowed = false })
          else (request g, false)
    ])

-- pubWall; `now` is what time.Now returns.
unfoldable pub pub_wall : Config → ℕ → AccessUnit → ℕ
pub_wall c now au =
    if c.stamp_publish_wall then if au.pub_wall_micro == 0 then now else au.pub_wall_micro else 0

abbrev pub frame_type : AccessUnit → ℕ
frame_type au = if au.keyframe then type_keyframe else type_p_frame

abbrev pub frame_flags : AccessUnit → ℕ
frame_flags au =
    let flags = if au.keyframe then flag_keyframe else 0 in
    if au.discontinuity then bit_or flags flag_discontinuity else flags

-- The write of a unit to the current stream.
unfoldable pub write_au : Config → ℕ → AccessUnit → Pump → Pump
unfolding pub_wall request
write_au c now au g = elim g.current [
  | none ↦ g
  | some w ↦
      let (w', e) =
        write_frame c.scheduled w (frame_type au) au.pts_micro au.seq (frame_flags au)
          (pub_wall c now au) au.bytes in
      elim e [
        | none ↦ record g { current = some w' }
        | some fault ↦ request (record g { current = none; reset = g.reset ++ w' ∷ [] })
      ]
]

-- A round of the loop.
unfoldable pub send_au : Config → ℕ → AccessUnit → Pump → Pump
unfolding ready write_au
send_au c now au g = let (g', go) = ready c au g in if go then write_au c now au g' else g'

-- The loop, on the units that the receiver's channel delivers and the times at which it does.
unfoldable pub run_stream_gop : Config → List (AccessUnit × ℕ) → Pump → Pump
unfolding send_au
run_stream_gop c [] g = g
run_stream_gop c (x ∷ xs) g = run_stream_gop c xs (send_au c x.1 x.0 g)

-- The state before the loop.
abbrev pub started : Config → List (Option (List (Option ℕ))) → Pump
started c opens = record {
  current = none;
  leading_allowed = c.allow_leading_p_frames;
  opens = opens;
  reset = [];
  requests = 0;
}
