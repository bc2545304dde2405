-- ===== src/Session.antt =====
-- One subscriber's session, session/session.go: its tracks. A receiver is a pointer; strings are lists
-- of bytes; a Go map is a list of entries, in the order in which it happens to be ranged over.
pub mod Attach
pub mod Handshake
pub mod Inbound
pub mod Streams
pub mod Control
mod Tests
use quicrtc.Prelude.{
  ℕ, List, Bool, true, false, not, ◌&&◌, ◌||◌, ◌==◌, if◌then◌else◌, length, [], ◌∷◌, ◌++◌, Option,
  none, some, Text, same_text, lookup, delete, insert, Sink,
}
use quicrtc.Track.{DeliveryClass, default_delivery_class}
use quicrtc.Wire.Control.{write_control_frame}
use quicrtc.Wire.Hello.{Sdp}

-- The fields of feed.Config that the session sets for a track.
pub record FeedConfig : Type 0 where
  pub delivery : DeliveryClass
  pub allow_leading_p_frames : Bool
  pub stamp_publish_wall : Bool

-- The fields of Config that decide what the session does. AuthValidator takes a credential, and
-- gives a tenant or an error.
pub record Config : Type 0 where
  pub expect_slug : Text
  pub auth_validator : Option (Text → Option Text)
  pub supported_features : List Text
  pub sdp : Sdp
  pub feed_config : FeedConfig

-- The callbacks that the server sets before Run.
pub record Hooks : Type 0 where
  pub on_allocate_id : Option Text
  pub on_resume : Option (Text → Text → List (Text × ℕ) → Option (List (Text × ℕ)))
  pub on_fresh_session : Option (List (Text × ℕ))
  pub on_lookup_priority : Option (Text → ℕ)
  pub on_lookup_track_id : Option (Text → ℕ)
  pub on_lookup_kind : Option (Text → Text)

-- trackPump, with the fields of its cfg.
pub record TrackPump : Type 0 where
  pub name : Text
  pub recv : ℕ
  pub priority : ℕ
  pub track_id : ℕ
  pub delivery : DeliveryClass
  pub allow_leading_p_frames : Bool
  pub stamp_publish_wall : Bool

-- `ctl` is the write side of the control stream. `spawned` lists the pumps that have been started,
-- and `stopped` those whose stop channel has been closed; `resume_calls` lists the calls of OnResume,
-- with the tenant, the session id and the cursors.
pub record Session : Type 0 where
  pub session_id : Text
  pub negotiated_features : List Text
  pub negotiated_version : Text
  pub tenant : Text
  pub hello_session_id : Text
  pub hello_last_seen_seq : List (Text × ℕ)
  pub ctl : Sink
  pub tracks : List (Text × TrackPump)
  pub run_started : Bool
  pub resumed_leading : List Text
  pub spawned : List TrackPump
  pub stopped : List TrackPump
  pub resume_calls : List (Text × Text × List (Text × ℕ))

-- New
unfoldable pub new_session : Sink → Session
new_session ctl = record {
  session_id = [];
  negotiated_features = [];
  negotiated_version = [];
  tenant = [];
  hello_session_id = [];
  hello_last_seen_seq = [];
  ctl = ctl;
  tracks = [];
  run_started = false;
  resumed_leading = [];
  spawned = [];
  stopped = [];
  resume_calls = [];
}

-- The token "kind-stats".
abbrev pub feature_kind_stats : Text
feature_kind_stats = 107 ∷ 105 ∷ 110 ∷ 100 ∷ 45 ∷ 115 ∷ 116 ∷ 97 ∷ 116 ∷ 115 ∷ []

-- Whether a name is in a list: a loop, or the test of a map without values.
unfoldable pub contains : List Text → Text → Bool
contains [] x = false
contains (y ∷ ys) x = same_text y x || contains ys x

-- hasNegotiatedFeature
unfoldable pub has_negotiated_feature : Session → Text → Bool
has_negotiated_feature s feat = contains s.negotiated_features feat

-- The loop of intersectFeatures.
unfoldable pub keep_features : List Text → List Text → List Text
keep_features [] b = []
keep_features (x ∷ a) b = let rest = keep_features a b in if contains b x then x ∷ rest else rest

-- intersectFeatures
unfoldable pub intersect_features : List Text → List Text → List Text
intersect_features a b = if length a == 0 || length b == 0 then [] else keep_features a b

-- The pump that AttachTrackWithKind makes.
unfoldable pub track_pump : Config → Session → Text → Text → ℕ → ℕ → ℕ → TrackPump
track_pump c s name kind recv priority track_id = record {
  name = name;
  recv = recv;
  priority = priority;
  track_id = track_id;
  delivery = if not (length kind == 0) then default_delivery_class kind else c.feed_config.delivery;
  allow_leading_p_frames =
      if contains s.resumed_leading name then true else c.feed_config.allow_leading_p_frames;
  stamp_publish_wall =
      if has_negotiated_feature s feature_kind_stats
      then true
      else c.feed_config.stamp_publish_wall;
}

-- AttachTrackWithKind
unfoldable pub attach_track_with_kind : Config → Text → Text → ℕ → ℕ → ℕ → Session → Session
attach_track_with_kind c name kind recv priority track_id s =
    let tp = track_pump c s name kind recv priority track_id in
    elim (lookup name s.tracks) [
      | some old ↦ s
      | none ↦ record s {
        tracks = insert name tp s.tracks;
        spawned = if s.run_started then s.spawned ++ tp ∷ [] else s.spawned;
      }
    ]

-- `if s.OnLookupKind != nil { kind = s.OnLookupKind(name) }`
abbrev pub looked_up_kind : Hooks → Text → Text
looked_up_kind h name = elim h.on_lookup_kind [ none ↦ [] | some f ↦ f name ]

-- AttachTrackWithTrackID
unfoldable pub attach_track_with_track_id : Config → Hooks → Text → ℕ → ℕ → ℕ → Session → Session
attach_track_with_track_id c h name recv priority track_id s =
    attach_track_with_kind c name (looked_up_kind h name) recv priority track_id s

-- AttachTrackWithPriority
unfoldable pub attach_track_with_priority : Config → Hooks → Text → ℕ → ℕ → Session → Session
attach_track_with_priority c h name recv priority s =
    attach_track_with_track_id c h name recv priority 0 s

-- AttachTrack
unfoldable pub attach_track : Config → Hooks → Text → ℕ → Session → Session
attach_track c h name recv s = attach_track_with_priority c h name recv 4 s

-- Receivers
unfoldable pub receivers : Text → Session → List ℕ
receivers name s = elim (lookup name s.tracks) [ none ↦ [] | some tp ↦ tp.recv ∷ [] ]

-- DetachTrack
unfoldable pub detach_track : Text → Session → Session
detach_track name s = elim (lookup name s.tracks) [
  | none ↦ s
  | some tp ↦ record s { tracks = delete name s.tracks; stopped = s.stopped ++ tp ∷ [] }
]

-- The part of Run that spawns the pumps of the tracks attached so far.
unfoldable pub spawn_all : List (Text × TrackPump) → List TrackPump
spawn_all [] = []
spawn_all ((n, tp) ∷ tracks) = tp ∷ spawn_all tracks

unfoldable pub start_run : Session → Session
start_run s = record s { run_started = true; spawned = s.spawned ++ spawn_all s.tracks }

-- bestEffortError
unfoldable pub best_effort_error : List ℕ → Session → Session
best_effort_error msg s = record s { ctl = (write_control_frame s.ctl 5 msg).0 }
