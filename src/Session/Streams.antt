-- ===== src/Session/Streams.antt =====
-- The streams of a subscriber in session/session.go: the demultiplexer, InboundRecv, and the events
-- that run on the inbound tracks. What goroutines do comes as a list of events; of the ready cases of
-- a select an event says which one is taken.
use quicrtc.Prelude.{
  ℕ, zero, suc, List, Bool, true, false, not, ◌&&◌, ◌||◌, ◌==◌, ltb, if◌then◌else◌, length, set,
  get_elem?, [], ◌∷◌, ◌++◌, Option, none, some, Text, lookup, bit_and, Result, ok, err,
}
use quicrtc.Pubsub.{AccessUnit, zero_au}
use quicrtc.Wire.{flag_discontinuity}
use quicrtc.Wire.Feed.{FeedFrame, is_keyframe, read_feed_frame}
use quicrtc.Wire.Header.{peek_stream_header}
use quicrtc.Wire.Hello.{Announce, Unannounce}
use quicrtc.Session.Inbound.{
  inbound_buffer, Inbound, inbound_track_chan, inbound_track_chan_wire, handle_announce,
  handle_unannounce,
}

-- The test at the stream's header, if there is an OnAnnounce.
unfoldable pub stream_authorized : Text → Inbound → Bool
stream_authorized name s = elim (lookup name s.inbound_tracks) [
  | none ↦ false
  | some t ↦ elim (get_elem? s.tracks t) [
    | none ↦ false
    | some track ↦ track.announced && track.authorized
  ]
]

-- "primary"
abbrev pub primary : Text
primary = 112 ∷ 114 ∷ 105 ∷ 109 ∷ 97 ∷ 114 ∷ 121 ∷ []

-- The track that a stream names in its header, and what is read after it.
unfoldable pub named_by_header : List ℕ → Result (Text × List ℕ)
named_by_header input = elim (peek_stream_header input) [
  | err e ↦ err e
  | ok ((name, first), rest) ↦
      if length name == 0 then ok (primary, first ∷ rest) else ok (name, rest)
]

-- The part of drainInboundStream up to the test.
unfoldable pub accept_stream : Bool → Text → Inbound → Inbound
accept_stream gated name s =
    if gated && not (stream_authorized name s)
    then s
    else record s { opening = s.opening ++ some name ∷ [] }

-- The part between the test and the loop, of a stream in `opening`.
unfoldable pub enter_stream : ℕ → Inbound → Inbound
enter_stream i s = elim (get_elem? s.opening i) [
  | none ↦ s
  | some none ↦ s
  | some (some name) ↦
      let s₁ : Inbound = record s { opening = set s.opening i none } in
      let (s', t) = inbound_track_chan_wire name s₁ in
      elim t [ none ↦ s' | some j ↦ record s' { streams = s'.streams ++ some j ∷ [] } ]
]

-- The unit of a feed frame.
unfoldable pub unit_of : FeedFrame → AccessUnit
unit_of f = record zero_au {
  bytes = f.payload;
  keyframe = is_keyframe f;
  pts_micro = f.pts_micro;
  seq = f.seq;
  discontinuity = not (bit_and f.flags flag_discontinuity == 0);
}

-- A round of the loop of drainInboundStream on a track: whether it goes on. `allowed` is what the
-- rate limiter says, and with `leave` the select takes a ready case that returns before one that sends.
unfoldable pub deliver_unit : Bool → Bool → Bool → AccessUnit → ℕ → Inbound → Inbound × Bool
deliver_unit allowed ctx_done leave au t s =
    if not allowed then (s, true) else (elim (get_elem? s.tracks t) [
      | none ↦ (s, false)
      | some track ↦
          let returns = track.done || ctx_done in
          let room = ltb (length track.queue) inbound_buffer in
          if room && not (returns && leave)
          then (
            record s { tracks = set s.tracks t (record track { queue = track.queue ++ au ∷ [] }) },
            true,
          )
          else if returns
          then (s, false)
          else (record s { dropped = s.dropped ++ track.name ∷ [] }, true)
    ])

-- What InboundRecv has got from its track: a unit, io.EOF, or nothing so far.
pub data Received : Type 0 where
  unit : AccessUnit → Received
  eof waits : Received

unfoldable pub inbound_recv : ℕ → Inbound → Inbound × Received
inbound_recv t s = elim (get_elem? s.tracks t) [
  | none ↦ (s, Received.waits)
  | some track ↦ elim track.queue [
    | au ∷ rest ↦
        (record s { tracks = set s.tracks t (record track { queue = rest }) }, Received.unit au)
    | [] ↦ (s, if track.done then Received.eof else Received.waits)
  ]
]

-- InboundTracks
unfoldable pub inbound_track_names : List (Text × ℕ) → Inbound → List Text
inbound_track_names [] s = []
inbound_track_names ((name, t) ∷ named) s =
    let rest = inbound_track_names named s in
    elim (get_elem? s.tracks t) [
      | none ↦ rest
      | some track ↦ if track.announced then name ∷ rest else rest
    ]

-- The units of a stream, up to the first read that fails: the frames that readInboundFrame returns.
-- A frame takes at least a byte, so as many rounds as bytes are enough.
unfoldable pub units_in : ℕ → List ℕ → List AccessUnit
units_in zero input = []
units_in (suc fuel) input = elim (read_feed_frame input) [
  | err e ↦ []
  | ok (f, rest) ↦ unit_of f ∷ units_in fuel rest
]

pub data Event : Type 0 where
  announced : Announce → Event
  unannounced : Unannounce → Event
  stream_opened : Text → Event
  stream_entered : ℕ → Event
  unit_arrived : Bool → Bool → Bool → AccessUnit → ℕ → Event
  recv_called : Text → Event
  recv_on : ℕ → Event

-- An event. A unit arrives on the stream of an index, if that has not returned.
unfoldable pub step : Option (Text → Text → Option Text) → Event → Inbound → Inbound
step on_announce (Event.announced a) s = handle_announce on_announce a s
step on_announce (Event.unannounced u) s = handle_unannounce u s
step on_announce (Event.stream_opened name) s =
    accept_stream (elim on_announce [ none ↦ false | some f ↦ true ]) name s
step on_announce (Event.stream_entered i) s = enter_stream i s
step on_announce (Event.unit_arrived allowed ctx_done leave au i) s = elim (get_elem? s.streams i) [
  | none ↦ s
  | some none ↦ s
  | some (some t) ↦
      let (s', goes_on) = deliver_unit allowed ctx_done leave au t s in
      if goes_on then s' else record s' { streams = set s'.streams i none }
]
step on_announce (Event.recv_called name) s = (inbound_track_chan name s).0
step on_announce (Event.recv_on t) s = (inbound_recv t s).0

unfoldable pub run : Option (Text → Text → Option Text) → List Event → Inbound → Inbound
run on_announce [] s = s
run on_announce (e ∷ es) s = run on_announce es (step on_announce e s)
