-- ===== src/Feed/Datagram.antt =====
-- The datagram pump of feed/datagram.go: a datagram for each unit, and a stream for those that a
-- datagram cannot carry. The callbacks that only count are left out, and so is the Close of the
-- fallback stream at the end.
pub mod Laws
pub mod Fates
pub mod Loop
mod Tests
use quicrtc.Prelude.{
  ℕ, ◌+◌, ◌%◌, ◌^◌, List, Bool, true, false, not, ◌==◌, if◌then◌else◌, length, [], ◌∷◌, ◌++◌,
  Option, some, none, Sink, Error, Result, err, ok, bit_or,
}
use quicrtc.Pubsub.{AccessUnit}
use quicrtc.Wire.{type_keyframe, flag_keyframe, flag_discontinuity}
use quicrtc.Wire.Datagram.{encode_datagram}
use quicrtc.Wire.Header.{write_stream_header}
use quicrtc.Feed.{write_feed_frame_pooled}
use quicrtc.Feed.Gop.{Config, pub_wall}

-- The reasons that are given to OnAUDropped, the first two also to OnFallback.
pub data SpillReason : Type 0 where
  datagram_too_large send_failed : SpillReason
  fallback_write_failed fallback_open_failed : SpillReason

-- The fields of Config that this pump reads beside those of the stream pumps. `sender` and
-- `fallback` say whether there is a DatagramSender and a FallbackOpener.
pub record DatagramConfig : Type 0 where
  pub feed : Config
  pub track_id : ℕ
  pub sender : Bool
  pub fallback : Bool

-- The variables of runDatagramOrStream. `opens` and `reset` are as for the per-GOP pump; `refusals`
-- says of each of the coming calls of SendDatagram whether it fails, and every call past it
-- succeeds. `sent` has the datagrams that the sender took, `dropped` and `spilled` list the calls
-- of OnAUDropped and OnFallback.
pub record Datagrams : Type 0 where
  pub seq : ℕ
  pub fallback_stream : Option Sink
  pub opens : List (Option (List (Option ℕ)))
  pub reset : List Sink
  pub refusals : List Bool
  pub sent : List (List ℕ)
  pub dropped : List SpillReason
  pub spilled : List SpillReason

-- The track header on a new stream; whether it was written.
unfoldable pub write_fallback_header : Config → Sink → Sink × Bool
write_fallback_header c w =
    let (w', e) = write_stream_header w c.track_name in
    if not (length c.track_name == 0)
    then (elim e [ none ↦ (w', true) | some fault ↦ (w', false) ])
    else (w, true)

-- openFallback, where there is an opener.
unfoldable pub open_fallback : Config → Datagrams → Datagrams × Option Sink
open_fallback c g = elim g.opens [
  | [] ↦ (g, none)
  | none ∷ opens ↦ (record g { opens = opens }, none)
  | some faults ∷ opens ↦
      let (w, written) = write_fallback_header c (record { out = []; faults = faults }) in
      if written
      then (record g { opens = opens }, some w)
      else (record g { opens = opens; reset = g.reset ++ w ∷ [] }, none)
]

-- `if p.cfg.OnAUDropped != nil { p.cfg.OnAUDropped(reason) }`
unfoldable pub drop_au : SpillReason → Datagrams → Datagrams
drop_au reason g = record g { dropped = g.dropped ++ reason ∷ [] }

abbrev pub fallback_flags : AccessUnit → ℕ
fallback_flags au =
    if au.discontinuity then bit_or flag_keyframe flag_discontinuity else flag_keyframe

-- writeFallback on the stream, and what the caller makes of its result.
unfoldable pub write_fallback : Config → ℕ → AccessUnit → SpillReason → Sink → Datagrams → Datagrams
write_fallback c now au reason w g =
    let (w', e) =
      write_feed_frame_pooled w type_keyframe au.pts_micro au.seq (fallback_flags au)
        (pub_wall c now au) au.bytes in
    elim e [
      | none ↦ record g { fallback_stream = some w'; spilled = g.spilled ++ reason ∷ [] }
      | some fault ↦
          drop_au SpillReason.fallback_write_failed
            (record g { fallback_stream = none; reset = g.reset ++ w' ∷ [] })
    ]

-- fallbackOrDrop
unfoldable pub fallback_or_drop :
    DatagramConfig → ℕ → AccessUnit → SpillReason → Datagrams → Datagrams
fallback_or_drop c now au reason g =
    if not c.fallback then drop_au reason g else (elim g.fallback_stream [
      | some w ↦ write_fallback c.feed now au reason w g
      | none ↦
          let (g', s) = open_fallback c.feed g in
          elim s [
            | none ↦ drop_au SpillReason.fallback_open_failed g'
            | some w ↦
                write_fallback c.feed now au reason w (record g' { fallback_stream = some w })
          ]
    ])

-- SendDatagram; whether it failed.
unfoldable pub send_datagram : List ℕ → Datagrams → Datagrams × Bool
send_datagram encoded g = elim g.refusals [
  | true ∷ refusals ↦ (record g { refusals = refusals }, true)
  | false ∷ refusals ↦ (record g { refusals = refusals; sent = g.sent ++ encoded ∷ [] }, false)
  | [] ↦ (record g { sent = g.sent ++ encoded ∷ [] }, false)
]

-- `seq++` on a uint16.
unfoldable pub advance : Datagrams → Datagrams
advance g = record g { seq = (g.seq + 1) % 2 ^ 16 }

-- A round of the loop.
unfoldable pub send_or_spill : DatagramConfig → ℕ → AccessUnit → Datagrams → Datagrams
send_or_spill c now au g = elim (encode_datagram [] c.track_id g.seq au.bytes) [
  | err oversize ↦ advance (fallback_or_drop c now au SpillReason.datagram_too_large g)
  | ok encoded ↦
      let (g', failed) = send_datagram encoded g in
      advance (if failed then fallback_or_drop c now au SpillReason.send_failed g' else g')
]

-- The loop, on the units that the receiver's channel delivers and the times at which it does.
unfoldable pub datagram_loop : DatagramConfig → List (AccessUnit × ℕ) → Datagrams → Datagrams
datagram_loop c [] g = g
datagram_loop c (x ∷ xs) g = datagram_loop c xs (send_or_spill c x.1 x.0 g)

-- The variables before the loop.
abbrev pub before_units : List (Option (List (Option ℕ))) → List Bool → Datagrams
before_units opens refusals = record {
  seq = 0;
  fallback_stream = none;
  opens = opens;
  reset = [];
  refusals = refusals;
  sent = [];
  dropped = [];
  spilled = [];
}

-- runDatagramOrStream; `none` is ErrDatagramSenderNil.
unfoldable pub run_datagram_or_stream :
    DatagramConfig
    → List (Option (List (Option ℕ)))
    → List Bool
    → List (AccessUnit × ℕ)
    → Option Datagrams
run_datagram_or_stream c opens refusals xs =
    if not c.sender then none else some (datagram_loop c xs (before_units opens refusals))
