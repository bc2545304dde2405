-- ===== src/Session/Tests.antt =====
-- A handshake of session/session.go: a client that agrees on "kind-stats" and names no session.
use quicrtc.Prelude.{
  ℕ, ◌≡◌, refl, List, true, false, Option, none, some, [], ◌∷◌, Text, lookup, insert, Sink, length,
  same_text, if◌then◌else◌, write, read_full, get_be, put_u24,
}
use quicrtc.Track.{default_delivery_class}
use quicrtc.Wire.{write_parts}
use quicrtc.Wire.Control.{read_control_frame, write_control_frame}
use quicrtc.Wire.Hello.{Hello, cmp_version, negotiate_version}
use quicrtc.Session.{
  Config, Hooks, TrackPump, Session, new_session, feature_kind_stats, contains,
  has_negotiated_feature, keep_features, intersect_features, track_pump, attach_track_with_kind,
}
use quicrtc.Session.Handshake.{
  type_hello, Json, HandshakeError, offered_range, authenticate, attach_fresh, resumable,
  resume_or_start, answer, admit, check_hello, handshake,
}
use quicrtc.Session.Handshake.Gate.{Gate, handshake-Gate}
use quicrtc.Session.Handshake.Stamps.{handshake-stamps}

abbrev slug : Text
slug = 115 ∷ 49 ∷ []

-- "video"
abbrev video : Text
video = 118 ∷ 105 ∷ 100 ∷ 101 ∷ 111 ∷ []

abbrev hello : Hello
hello = record {
  role = [];
  slug = slug;
  version = 49 ∷ [];
  min_version = [];
  max_version = [];
  session_id = [];
  features = feature_kind_stats ∷ [];
  last_seen_seq = [];
}

abbrev config : Config
config = record {
  expect_slug = slug;
  auth_validator = none;
  supported_features = feature_kind_stats ∷ [];
  sdp = record { media = 0; session_id = []; features = []; negotiated_version = [] };
  feed_config = record {
    delivery = default_delivery_class [];
    allow_leading_p_frames = false;
    stamp_publish_wall = false;
  };
}

abbrev hooks : Hooks
hooks = record {
  on_allocate_id = some (7 ∷ []);
  on_resume = none;
  on_fresh_session = some ((video, 3) ∷ []);
  on_lookup_priority = some (λ name. length name);
  on_lookup_track_id = none;
  on_lookup_kind = none;
}

-- The client's payload is its slug, and the answer's is the session's id.
abbrev json : Json
json = record {
  unmarshal_hello = λ payload. if same_text payload slug then some hello else none;
  marshal_sdp = λ sdp. some sdp.session_id;
}

abbrev input : List ℕ
input = type_hello ∷ 0 ∷ 0 ∷ 2 ∷ slug

abbrev ctl : Sink
ctl = record { out = []; faults = [] }

abbrev opened : Session × Option HandshakeError
opened = handshake config hooks json true input (new_session ctl)

abbrev video_pump : TrackPump
video_pump = record {
  name = video;
  recv = 3;
  priority = 5;
  track_id = 0;
  delivery = default_delivery_class [];
  allow_leading_p_frames = false;
  stamp_publish_wall = false;
}

opened-fine : opened.1 ≡ none
unfolding handshake check_hello admit answer resume_or_start resumable attach_fresh
    attach_track_with_kind track_pump authenticate offered_range negotiate_version cmp_version
    read_control_frame write_control_frame write_parts read_full get_be put_u24 write new_session
    intersect_features keep_features contains has_negotiated_feature lookup insert
opened-fine = refl

opened-agreed : has_negotiated_feature opened.0 feature_kind_stats ≡ true
unfolding handshake check_hello admit answer resume_or_start resumable attach_fresh
    attach_track_with_kind track_pump authenticate offered_range negotiate_version cmp_version
    read_control_frame write_control_frame write_parts read_full get_be put_u24 write new_session
    intersect_features keep_features contains has_negotiated_feature lookup insert
opened-agreed = refl

opened-video : lookup video opened.0.tracks ≡ some video_pump
unfolding handshake check_hello admit answer resume_or_start resumable attach_fresh
    attach_track_with_kind track_pump authenticate offered_range negotiate_version cmp_version
    read_control_frame write_control_frame write_parts read_full get_be put_u24 write new_session
    intersect_features keep_features contains has_negotiated_feature lookup insert
opened-video = refl

opened-late : lookup slug opened.0.tracks ≡ none
unfolding handshake check_hello admit answer resume_or_start resumable attach_fresh
    attach_track_with_kind track_pump authenticate offered_range negotiate_version cmp_version
    read_control_frame write_control_frame write_parts read_full get_be put_u24 write new_session
    intersect_features keep_features contains has_negotiated_feature lookup insert
opened-late = refl

handshake-Gate_example :
    Gate config json input
      (new_session ctl)
      (handshake config hooks json true input (new_session ctl))
handshake-Gate_example = handshake-Gate config hooks json true input (new_session ctl)

handshake-stamps_example :
    (video_pump.stamp_publish_wall ≡ config.feed_config.stamp_publish_wall)
    × ((new : TrackPump) × (lookup slug
            (attach_track_with_kind config slug [] 4 4 0 opened.0).tracks
          ≡ some new)
        × (new.stamp_publish_wall ≡ true))
handshake-stamps_example =
    handshake-stamps config hooks json true input ctl video video_pump slug [] 4 4 0 opened-fine
      opened-agreed opened-video opened-late
