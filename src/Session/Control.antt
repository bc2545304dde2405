-- ===== src/Session/Control.antt =====
-- controlReader of session/session.go. A round has what ctx.Err and time.Now return in it; the
-- bytes to read come as a list. What encoding/json makes of a payload is a parameter, and a call of
-- a callback, of the data channel or of OnProtocolError is logged.
pub mod Laws
pub mod Frames
pub mod Pacing
pub mod Reader
mod Tests
use quicrtc.Prelude.{
  ℕ, ◌+◌, List, Bool, true, false, not, ◌&&◌, ◌==◌, ltb, if◌then◌else◌, [], ◌∷◌, ◌++◌, Option, none,
  some, Text, Sink, Result, ok, err, Error,
}
use quicrtc.Wire.Control.{read_control_frame, write_control_frame}
use quicrtc.Wire.Hello.{
  Announce, Unannounce, KindStats, Backpressure, ErrorPayload, unmarshal_error,
}
use quicrtc.Session.Inbound.{Inbound, handle_announce, handle_unannounce}

-- minPingInterval, in nanoseconds.
abbrev pub min_ping_interval : ℕ
min_ping_interval = 1000000000

abbrev pub type_ping : ℕ
type_ping = 3

abbrev pub type_pong : ℕ
type_pong = 4

abbrev pub type_error : ℕ
type_error = 5

abbrev pub type_close : ℕ
type_close = 6

abbrev pub type_data : ℕ
type_data = 7

abbrev pub type_announce : ℕ
type_announce = 10

abbrev pub type_unannounce : ℕ
type_unannounce = 12

abbrev pub type_backpressure : ℕ
type_backpressure = 11

abbrev pub type_kind_stats : ℕ
type_kind_stats = 14

-- The Unmarshal functions; `none` is an error. `parse_error` is json.Unmarshal in UnmarshalError.
pub record ControlJson : Type 0 where
  pub unmarshal_announce : List ℕ → Option Announce
  pub unmarshal_unannounce : List ℕ → Option Unannounce
  pub unmarshal_kind_stats : List ℕ → Option KindStats
  pub unmarshal_backpressure : List ℕ → Option Backpressure
  pub parse_error : List ℕ → Option ErrorPayload

-- The callbacks of Config: OnAnnounce with the tenant and the session id, and of the others whether
-- they are set.
pub record Callbacks : Type 0 where
  pub on_announce : Option (Text → Text → Option Text)
  pub on_kind_stats : Bool
  pub on_keyframe_request : Bool
  pub on_backpressure : Bool

-- `last_ping` is lastPingNano. `ctl` takes the PONGs; the TypeError frames, whose write errors are
-- ignored, are in `told` of the inbound part.
pub record Control : Type 0 where
  pub inbound : Inbound
  pub ctl : Sink
  pub last_ping : ℕ
  pub delivered : List (List ℕ)
  pub kind_stats : List KindStats
  pub keyframe_requests : List Text
  pub levels : List (Text × ℕ)
  pub protocol_errors : List ℕ

-- What controlReader returns: nil after a TypeClose frame, or an error.
pub data ControlEnd : Type 0 where
  closed_by_peer ctx_ended : ControlEnd
  read_failed pong_failed : Error → ControlEnd
  peer_error : ErrorPayload → ControlEnd

-- protocolError
unfoldable pub protocol_error : ℕ → Control → Control
protocol_error t s = record s { protocol_errors = s.protocol_errors ++ t ∷ [] }

-- TypePing
unfoldable pub handle_ping : ℕ → List ℕ → Control → Control × Option ControlEnd
handle_ping now payload s =
    let (ctl, e) = write_control_frame s.ctl type_pong payload in
    let s' : Control = record s { ctl = ctl; last_ping = now } in
    if not (s.last_ping == 0) && ltb now (s.last_ping + min_ping_interval)
    then (s, none)
    else (s', elim e [ none ↦ none | some fault ↦ some (ControlEnd.pong_failed fault) ])

-- TypeAnnounce
unfoldable pub announce_frame : Callbacks → ControlJson → List ℕ → Control → Control
announce_frame c json payload s = elim (json.unmarshal_announce payload) [
  | none ↦ protocol_error type_announce s
  | some a ↦ record s { inbound = handle_announce c.on_announce a s.inbound }
]

-- TypeUnannounce
unfoldable pub unannounce_frame : ControlJson → List ℕ → Control → Control
unannounce_frame json payload s = elim (json.unmarshal_unannounce payload) [
  | none ↦ protocol_error type_unannounce s
  | some u ↦ record s { inbound = handle_unannounce u s.inbound }
]

-- TypeKindStats
unfoldable pub kind_stats_frame : Callbacks → ControlJson → List ℕ → Control → Control
kind_stats_frame c json payload s =
    if c.on_kind_stats
    then (elim (json.unmarshal_kind_stats payload) [
      | none ↦ protocol_error type_kind_stats s
      | some ks ↦ record s { kind_stats = s.kind_stats ++ ks ∷ [] }
    ])
    else s

-- TypeBackpressure
unfoldable pub backpressure_frame : Callbacks → ControlJson → List ℕ → Control → Control
backpressure_frame c json payload s = elim (json.unmarshal_backpressure payload) [
  | none ↦ protocol_error type_backpressure s
  | some bp ↦ record s {
    keyframe_requests =
        if bp.needs_keyframe && c.on_keyframe_request
        then s.keyframe_requests ++ bp.track_name ∷ []
        else s.keyframe_requests;
    levels = if c.on_backpressure then s.levels ++ (bp.track_name, bp.level) ∷ [] else s.levels;
  }
]

-- The switch on the frame's type; an unknown type is ignored.
unfoldable pub handle_frame :
    Callbacks → ControlJson → ℕ → ℕ → List ℕ → Control → Control × Option ControlEnd
handle_frame c json now t payload s =
    if t == type_ping
    then handle_ping now payload s
    else if t == type_close
    then (s, some ControlEnd.closed_by_peer)
    else if t == type_error
    then (s, some (ControlEnd.peer_error (unmarshal_error json.parse_error payload)))
    else if t == type_data
    then (record s { delivered = s.delivered ++ payload ∷ [] }, none)
    else if t == type_announce
    then (announce_frame c json payload s, none)
    else if t == type_unannounce
    then (unannounce_frame json payload s, none)
    else if t == type_kind_stats
    then (kind_stats_frame c json payload s, none)
    else if t == type_backpressure
    then (backpressure_frame c json payload s, none)
    else (s, none)

-- A round of the loop, and what is left to read.
unfoldable pub control_round :
    Callbacks → ControlJson → Bool → ℕ → List ℕ → Control → (Control × Option ControlEnd) × List ℕ
control_round c json ctx_err now input s =
    if ctx_err then ((s, some ControlEnd.ctx_ended), input) else (elim (read_control_frame input) [
      | err e ↦ ((s, some (ControlEnd.read_failed e)), input)
      | ok ((t, payload), rest) ↦ (handle_frame c json now t payload s, rest)
    ])

-- controlReader, for as many rounds as are given; `none` if it has not returned by then.
unfoldable pub control_reader :
    Callbacks → ControlJson → List (Bool × ℕ) → List ℕ → Control → Control × Option ControlEnd
control_reader c json [] input s = (s, none)
control_reader c json ((ctx_err, now) ∷ rounds) input s =
    let ((s', end), rest) = control_round c json ctx_err now input s in
    let later = control_reader c json rounds rest s' in
    elim end [ some e ↦ (s', some e) | none ↦ later ]
