-- ===== src/Session/Control/Tests.antt =====
-- A run of controlReader of session/session.go: three pings, an announcement, and the end.
use quicrtc.Prelude.{
  ℕ, ◌≡◌, refl, List, Bool, true, false, none, some, [], ◌∷◌, arith, read_full, get_be, put_u24,
  write, insert, lookup,
}
use quicrtc.Wire.{write_parts}
use quicrtc.Wire.Control.{read_control_frame, write_control_frame}
use quicrtc.Session.Inbound.{
  no_inbound, inbound_track_chan_wire, add_track, update_track, record_announce, handle_announce,
}
use quicrtc.Session.Control.{
  type_ping, type_pong, type_close, type_announce, ControlJson, Callbacks, Control, ControlEnd,
  handle_ping, announce_frame, handle_frame, control_round, control_reader,
}
use quicrtc.Session.Control.Laws.{pongs_due}
use quicrtc.Session.Control.Pacing.{IsPaced}
use quicrtc.Session.Control.Reader.{Followed, control_reader-Controlled, control_reader-returns}

abbrev callbacks : Callbacks
callbacks = record {
  on_announce = none;
  on_kind_stats = false;
  on_keyframe_request = false;
  on_backpressure = true;
}

abbrev json : ControlJson
json = record {
  unmarshal_announce = λ payload. some (record { name = payload; kind = []; codec = [] });
  unmarshal_unannounce = λ payload. some (record { name = payload });
  unmarshal_kind_stats = λ payload. none;
  unmarshal_backpressure = λ payload. none;
  parse_error = λ payload. none;
}

abbrev state : Control
state = record {
  inbound = no_inbound;
  ctl = record { out = []; faults = [] };
  last_ping = 0;
  delivered = [];
  kind_stats = [];
  keyframe_requests = [];
  levels = [];
  protocol_errors = [];
}

abbrev input : List ℕ
input =
    type_ping ∷ 0 ∷ 0 ∷ 0 ∷ type_ping ∷ 0 ∷ 0 ∷ 0 ∷ type_announce ∷ 0 ∷ 0 ∷ 1 ∷ 97 ∷ type_ping ∷ 0
    ∷ 0 ∷ 0 ∷ type_close ∷ 0 ∷ 0 ∷ 0 ∷ []

abbrev rounds : List (Bool × ℕ)
rounds = (false, 5) ∷ (false, 6) ∷ (false, 7) ∷ (false, 2000000000) ∷ (false, 2000000001) ∷ []

second_ping_unanswered :
    (control_reader callbacks json rounds input state).0.ctl.out
    ≡ type_pong ∷ 0 ∷ 0 ∷ 0 ∷ type_pong ∷ 0 ∷ 0 ∷ 0 ∷ []
unfolding control_reader control_round handle_frame handle_ping announce_frame read_control_frame
    write_control_frame write_parts read_full get_be put_u24 write handle_announce record_announce
    inbound_track_chan_wire add_track update_track insert lookup
second_ping_unanswered = refl

control_reader-Controlled_example :
    (f : Followed callbacks json rounds input state
      (control_reader callbacks json rounds input state))
    × IsPaced 0 (pongs_due 0 f.frames)
control_reader-Controlled_example =
    control_reader-Controlled callbacks json rounds input state
      (omega arith, (omega arith, (omega arith, (omega arith, (omega arith, tt)))))

control_reader-returns_example :
    (end : ControlEnd) × ((control_reader callbacks json rounds
        (type_close ∷ 0 ∷ 0 ∷ 0 ∷ [])
        state).1
      ≡ some end)
control_reader-returns_example =
    control_reader-returns callbacks json rounds (type_close ∷ 0 ∷ 0 ∷ 0 ∷ []) state (omega arith)
