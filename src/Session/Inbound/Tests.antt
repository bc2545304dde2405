-- ===== src/Session/Inbound/Tests.antt =====
-- Runs of the inbound part of session/session.go: an OnAnnounce that accepts the kind "a" only.
use quicrtc.Prelude.{
  ℕ, ◌≡◌, refl, ◌⊎◌, List, true, false, if◌then◌else◌, Option, none, some, [], ◌∷◌, get_elem?, Text,
  same_text, lookup, insert, delete,
}
use quicrtc.Pubsub.{AccessUnit, zero_au}
use quicrtc.Feed.Gop.{Config}
use quicrtc.Feed.LowLatency.Laws.{Seen}
use quicrtc.Session.Inbound.{
  InboundTrack, no_inbound, add_track, inbound_track_chan, inbound_track_chan_wire, update_track,
  tell, record_announce, handle_announce, handle_unannounce,
}
use quicrtc.Session.Streams.{
  stream_authorized, accept_stream, enter_stream, deliver_unit, inbound_recv, Event, step, run,
}
use quicrtc.Session.Inbound.Deliveries.{Approved, run-Approved}
use quicrtc.Session.Inbound.Bounded.{IsBounded}
use quicrtc.Session.Inbound.Caps.{recv_calls, run-IsBounded}

abbrev kind : Text
kind = 97 ∷ []

abbrev validate : Text → Text → Option Text
validate name k = if same_text k kind then none else some name

abbrev mic : Text
mic = 109 ∷ []

abbrev camera : Text
camera = 99 ∷ []

abbrev unit : ℕ → AccessUnit
unit seq = record zero_au { bytes = seq ∷ []; seq = seq }

abbrev announce : Text → Text → Event
announce name k = Event.announced (record { name = name; kind = k; codec = [] })

abbrev calls : List Event
calls =
    Event.stream_opened mic
    ∷ announce mic kind
    ∷ announce camera mic
    ∷ Event.stream_opened camera
    ∷ Event.stream_opened mic
    ∷ Event.stream_entered 0
    ∷ Event.unit_arrived true false false (unit 1) 0
    ∷ Event.unit_arrived false false false (unit 2) 0
    ∷ Event.unannounced (record { name = mic })
    ∷ Event.unit_arrived true false false (unit 3) 0
    ∷ Event.recv_called mic
    ∷ Event.recv_on 0
    ∷ []

abbrev mic_track : InboundTrack
mic_track = record {
  name = mic;
  kind = kind;
  codec = [];
  queue = unit 3 ∷ [];
  announced = true;
  authorized = true;
  done = true;
}

mic_track-place : get_elem? (run (some validate) calls no_inbound).tracks 0 ≡ some mic_track
unfolding run step add_track inbound_track_chan inbound_track_chan_wire update_track tell
    record_announce handle_announce handle_unannounce stream_authorized accept_stream enter_stream
    deliver_unit inbound_recv lookup insert delete
mic_track-place = refl

run-Approved_example : (mic_track.queue ≡ []) ⊎ Approved validate calls mic
run-Approved_example = run-Approved validate calls 0 mic_track mic_track-place

run-IsBounded_example : IsBounded (recv_calls calls) (run (some validate) calls no_inbound)
run-IsBounded_example = run-IsBounded (some validate) calls

abbrev config : Config
config = record {
  track_name = mic;
  scheduled = true;
  allow_leading_p_frames = false;
  stamp_publish_wall = true;
}

abbrev seen : Seen
seen = (unit 1, 1000) ∷ (unit 2, 1000) ∷ []

-- The first open fails.
abbrev opens : List (Option (List (Option ℕ)))
opens = none ∷ some [] ∷ []
