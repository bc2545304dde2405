-- ===== src/Session/Inbound.antt =====
-- Inbound tracks of session/session.go, and their announcements. A track is its index in `tracks`, as
-- a pointer is in Go, so that a stream may hold one that has no name any more.
pub mod Places
pub mod Authorized
pub mod Deliveries
pub mod Bounded
pub mod Caps
pub mod Pumped
mod Tests
use quicrtc.Prelude.{
  ℕ, zero, suc, ◌+◌, List, Bool, true, false, not, ◌&&◌, ◌||◌, ◌==◌, ltb, leb, if◌then◌else◌,
  length, set, get_elem?, [], ◌∷◌, ◌++◌, Option, none, some, Text, lookup, insert, delete, bit_and,
  Result, ok, err,
}
use quicrtc.Pubsub.{AccessUnit, zero_au}
use quicrtc.Wire.{flag_discontinuity}
use quicrtc.Wire.Feed.{FeedFrame, is_keyframe, read_feed_frame}
use quicrtc.Wire.Header.{peek_stream_header}
use quicrtc.Wire.Hello.{Announce, Unannounce, ErrorPayload}

abbrev pub max_inbound_tracks : ℕ
max_inbound_tracks = 256

-- The capacity of the channel of an inbound track.
abbrev pub inbound_buffer : ℕ
inbound_buffer = 64

-- inboundTrack; `queue` is its channel.
pub record InboundTrack : Type 0 where
  pub name : Text
  pub kind : Text
  pub codec : Text
  pub queue : List AccessUnit
  pub announced : Bool
  pub authorized : Bool
  pub done : Bool

-- The inbound part of Session. `told` lists the TypeError payloads that were sent, `dropped` the
-- calls of OnInboundDropped. Of each stream that has passed the test at its header, `opening` has the
-- name until drainInboundStream takes the lock again for the track; then `streams` has the track that
-- it delivers to, until it returns.
pub record Inbound : Type 0 where
  pub tracks : List InboundTrack
  pub inbound_tracks : List (Text × ℕ)
  pub told : List ErrorPayload
  pub dropped : List Text
  pub opening : List (Option Text)
  pub streams : List (Option ℕ)

abbrev pub no_inbound : Inbound
no_inbound = record {
  tracks = [];
  inbound_tracks = [];
  told = [];
  dropped = [];
  opening = [];
  streams = [];
}

abbrev pub new_track : Text → InboundTrack
new_track name = record {
  name = name;
  kind = [];
  codec = [];
  queue = [];
  announced = false;
  authorized = false;
  done = false;
}

unfoldable pub add_track : Text → Inbound → Inbound
add_track name s = record s {
  tracks = s.tracks ++ new_track name ∷ [];
  inbound_tracks = insert name (length s.tracks) s.inbound_tracks;
}

-- inboundTrackChan
unfoldable pub inbound_track_chan : Text → Inbound → Inbound × ℕ
inbound_track_chan name s = elim (lookup name s.inbound_tracks) [
  | some t ↦ (s, t)
  | none ↦ (add_track name s, length s.tracks)
]

-- inboundTrackChanWire
unfoldable pub inbound_track_chan_wire : Text → Inbound → Inbound × Option ℕ
inbound_track_chan_wire name s = elim (lookup name s.inbound_tracks) [
  | some t ↦ (s, some t)
  | none ↦
      if leb max_inbound_tracks (length s.inbound_tracks)
      then (s, none)
      else (add_track name s, some (length s.tracks))
]

-- A write to the fields of a track.
unfoldable pub update_track : ℕ → (InboundTrack → InboundTrack) → Inbound → Inbound
update_track t f s = elim (get_elem? s.tracks t) [
  | none ↦ s
  | some track ↦ record s { tracks = set s.tracks t (f track) }
]

abbrev pub describe : Announce → Bool → InboundTrack → InboundTrack
describe a authorized track = record track {
  kind = a.kind;
  codec = a.codec;
  announced = true;
  authorized = authorized;
}

-- "track_unauthorized"
abbrev pub track_unauthorized : Text
track_unauthorized =
    116 ∷ 114 ∷ 97 ∷ 99 ∷ 107 ∷ 95 ∷ 117 ∷ 110 ∷ 97 ∷ 117 ∷ 116 ∷ 104 ∷ 111 ∷ 114 ∷ 105 ∷ 122 ∷ 101
    ∷ 100 ∷ []

-- "too_many_tracks"
abbrev pub too_many_tracks : Text
too_many_tracks =
    116 ∷ 111 ∷ 111 ∷ 95 ∷ 109 ∷ 97 ∷ 110 ∷ 121 ∷ 95 ∷ 116 ∷ 114 ∷ 97 ∷ 99 ∷ 107 ∷ 115 ∷ []

-- "inbound track cap (256) reached"
abbrev pub cap_reached : Text
cap_reached =
    105 ∷ 110 ∷ 98 ∷ 111 ∷ 117 ∷ 110 ∷ 100 ∷ 32 ∷ 116 ∷ 114 ∷ 97 ∷ 99 ∷ 107 ∷ 32 ∷ 99 ∷ 97 ∷ 112
    ∷ 32 ∷ 40 ∷ 50 ∷ 53 ∷ 54 ∷ 41 ∷ 32 ∷ 114 ∷ 101 ∷ 97 ∷ 99 ∷ 104 ∷ 101 ∷ 100 ∷ []

unfoldable pub tell : Text → Text → Inbound → Inbound
tell code reason s =
    let payload : ErrorPayload = record { code = code; reason = reason } in
    record s { told = s.told ++ payload ∷ [] }

-- The announcement is recorded on the track of its name.
unfoldable pub record_announce : Announce → Bool → Inbound → Inbound × Bool
record_announce a authorized s =
    let (s', t) = inbound_track_chan_wire a.name s in
    elim t [ none ↦ (s', false) | some i ↦ (update_track i (describe a authorized) s', true) ]

-- handleAnnounce. OnAnnounce, with the tenant and the session id, gives an error's text or none.
unfoldable pub handle_announce : Option (Text → Text → Option Text) → Announce → Inbound → Inbound
handle_announce on_announce a s =
    let refused : Option Text = elim on_announce [
      | none ↦ none
      | some validate ↦ validate a.name a.kind
    ] in
    elim refused [
      | some reason ↦ (record_announce a false (tell track_unauthorized reason s)).0
      | none ↦
          let (s', found) = record_announce a true s in
          if found then s' else tell too_many_tracks cap_reached s'
    ]

abbrev pub finish : InboundTrack → InboundTrack
finish track = record track { done = true }

-- handleUnannounce
unfoldable pub handle_unannounce : Unannounce → Inbound → Inbound
handle_unannounce u s = elim (lookup u.name s.inbound_tracks) [
  | none ↦ s
  | some t ↦ update_track t finish (record s { inbound_tracks = delete u.name s.inbound_tracks })
]
