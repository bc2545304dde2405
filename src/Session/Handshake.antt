-- ===== src/Session/Handshake.antt =====
-- handshake of session/session.go. What encoding/json makes of HELLO and SDP is a parameter, and so
-- are the callbacks; a deadline that passes is a read or a write that fails.
pub mod Auth
pub mod Gate
pub mod Tracks
pub mod Opened
pub mod Success
pub mod Stamps
use mathlib.Core.Option
use quicrtc.Prelude.{
  ℕ, List, Bool, true, false, not, ◌&&◌, ◌==◌, if◌then◌else◌, ltb, length, map, [], ◌∷◌, ◌++◌,
  Option, none, some, Result, ok, err, Error, Text, same_text,
}
use quicrtc.Wire.Control.{read_control_frame, write_control_frame}
use quicrtc.Wire.Hello.{Hello, Sdp, current_version, min_supported_version, negotiate_version}
use quicrtc.Session.{
  Config, Hooks, Session, intersect_features, attach_track, attach_track_with_kind, looked_up_kind,
  best_effort_error,
}

abbrev pub type_hello : ℕ
type_hello = 1

abbrev pub type_sdp : ℕ
type_sdp = 2

-- "expected HELLO"
abbrev pub expected_hello : List ℕ
expected_hello = 101 ∷ 120 ∷ 112 ∷ 101 ∷ 99 ∷ 116 ∷ 101 ∷ 100 ∷ 32 ∷ 72 ∷ 69 ∷ 76 ∷ 76 ∷ 79 ∷ []

-- "bad hello json"
abbrev pub bad_hello_json : List ℕ
bad_hello_json = 98 ∷ 97 ∷ 100 ∷ 32 ∷ 104 ∷ 101 ∷ 108 ∷ 108 ∷ 111 ∷ 32 ∷ 106 ∷ 115 ∷ 111 ∷ 110 ∷ []

-- "version"
abbrev pub version_message : List ℕ
version_message = 118 ∷ 101 ∷ 114 ∷ 115 ∷ 105 ∷ 111 ∷ 110 ∷ []

-- "auth"
abbrev pub auth_message : List ℕ
auth_message = 97 ∷ 117 ∷ 116 ∷ 104 ∷ []

-- "bad role"
abbrev pub bad_role : List ℕ
bad_role = 98 ∷ 97 ∷ 100 ∷ 32 ∷ 114 ∷ 111 ∷ 108 ∷ 101 ∷ []

-- UnmarshalHello, and SDP.Marshal; `none` is an error.
pub record Json : Type 0 where
  pub unmarshal_hello : List ℕ → Option Hello
  pub marshal_sdp : Sdp → Option (List ℕ)

pub data HandshakeError : Type 0 where
  set_deadline marshal_sdp_failed bad_hello auth : HandshakeError
  read_hello write_sdp : Error → HandshakeError

abbrev or_version : Text → Text → Text
or_version bound version = if length bound == 0 then version else bound

-- The versions that a client offers.
unfoldable pub offered_range : Hello → Text × Text
offered_range h =
    let client_min = or_version h.min_version h.version in
    let client_max = or_version h.max_version h.version in
    if (length client_min == 0) && (length client_max == 0)
    then (current_version, current_version)
    else (client_min, client_max)

-- The tenant of an accepted credential.
unfoldable pub authenticate : Config → Hello → Session → Option Text
authenticate c h s = elim c.auth_validator [
  | some validate ↦ validate h.slug
  | none ↦ if same_text h.slug c.expect_slug then some s.tenant else none
]

-- Whether the role is one that the server takes: none, or "recv".
abbrev pub takes_role : Text → Bool
takes_role role = if length role == 0 then true else same_text role (114 ∷ 101 ∷ 99 ∷ 118 ∷ [])

-- The loop that attaches the receivers of a resumed session.
unfoldable pub attach_resumed : Config → Hooks → List (Text × ℕ) → Session → Session
attach_resumed c hooks [] s = s
attach_resumed c hooks ((name, r) ∷ rs) s =
    attach_resumed c hooks rs (attach_track c hooks name r s)

abbrev pub looked_up : Option (Text → ℕ) → ℕ → Text → ℕ
looked_up hook default name = elim hook [ none ↦ default | some f ↦ f name ]

-- The loop that attaches the tracks of a fresh session.
unfoldable pub attach_fresh : Config → Hooks → List (Text × ℕ) → Session → Session
attach_fresh c hooks [] s = s
attach_fresh c hooks ((name, r) ∷ rs) s = attach_fresh c hooks rs (
    attach_track_with_kind c name (looked_up_kind hooks name) r
      (looked_up hooks.on_lookup_priority 4 name) (looked_up hooks.on_lookup_track_id 0 name) s)

-- What OnResume gives for the HELLO, if it is asked.
unfoldable pub resumable : Hooks → Hello → Session → Option (List (Text × ℕ))
resumable hooks h s =
    if not (length h.session_id == 0)
    then (elim hooks.on_resume [
      | none ↦ none
      | some resume ↦ resume s.tenant h.session_id h.last_seen_seq
    ])
    else none

-- The call of OnResume, if it is asked.
abbrev pub resume_request : Hooks → Hello → Text → List (Text × Text × List (Text × ℕ))
resume_request hooks h tenant =
    if not (length h.session_id == 0)
    then (elim hooks.on_resume [
      | none ↦ []
      | some resume ↦ (tenant, h.session_id, h.last_seen_seq) ∷ []
    ])
    else []

-- The session with that call on its list.
abbrev pub log_resume : Hooks → Hello → Session → Session
log_resume hooks h s = record s { resume_calls = s.resume_calls ++ resume_request hooks h s.tenant }

-- The tracks that may begin with P-frames.
unfoldable pub mark_leading : Hello → Session → Session
mark_leading h s =
    if ltb 0 (length h.last_seen_seq)
    then record s { resumed_leading = map (λ (c : Text × ℕ). c.0) h.last_seen_seq }
    else s

-- Resume an existing session, or start fresh.
unfoldable pub resume_or_start : Config → Hooks → Hello → Session → Session
resume_or_start c hooks h s =
    let asked = log_resume hooks h s in
    elim (resumable hooks h s) [
      | some rs ↦
          attach_resumed c hooks rs (mark_leading h (record asked { session_id = h.session_id }))
      | none ↦
          let id = Option.get_or hooks.on_allocate_id s.session_id in
          let fresh = Option.get_or hooks.on_fresh_session [] in
          attach_fresh c hooks fresh (record asked { session_id = id })
    ]

-- The SDP in answer.
unfoldable pub answer : Config → Json → Hello → Session → Session × Option HandshakeError
answer c json h s =
    let features = intersect_features h.features c.supported_features in
    let sdp : Sdp = record c.sdp {
      session_id = s.session_id;
      features = features;
      negotiated_version = s.negotiated_version;
    } in
    let s' : Session = record s { negotiated_features = features } in
    elim (json.marshal_sdp sdp) [
      | none ↦ (s', some HandshakeError.marshal_sdp_failed)
      | some body ↦
          let (ctl, e) = write_control_frame s.ctl type_sdp body in
          let s'' : Session = record s' { ctl = ctl } in
          elim e [ none ↦ (s'', none) | some fault ↦ (s'', some (HandshakeError.write_sdp fault)) ]
    ]

-- After authentication.
unfoldable pub admit : Config → Hooks → Json → Hello → Session → Session × Option HandshakeError
admit c hooks json h s =
    if not (takes_role h.role)
    then (best_effort_error bad_role s, some HandshakeError.bad_hello)
    else answer c json h (
        resume_or_start c hooks h
          (record s { hello_session_id = h.session_id; hello_last_seen_seq = h.last_seen_seq }))

-- The version, and then the credential.
unfoldable pub check_hello :
    Config → Hooks → Json → Hello → Session → Session × Option HandshakeError
check_hello c hooks json h s =
    let (client_min, client_max) = offered_range h in
    elim (negotiate_version client_min client_max min_supported_version current_version) [
      | none ↦ (best_effort_error version_message s, some HandshakeError.bad_hello)
      | some v ↦
          let s₁ : Session = record s { negotiated_version = v } in
          elim (authenticate c h s₁) [
            | none ↦ (best_effort_error auth_message s₁, some HandshakeError.auth)
            | some tenant ↦ admit c hooks json h (record s₁ { tenant = tenant })
          ]
    ]

-- handshake, on what there is to read on the control stream; `deadline_set` says whether the read
-- deadline could be set.
unfoldable pub handshake :
    Config → Hooks → Json → Bool → List ℕ → Session → Session × Option HandshakeError
handshake c hooks json deadline_set input s =
    if not deadline_set
    then (s, some HandshakeError.set_deadline)
    else (elim (read_control_frame input) [
      | err e ↦ (s, some (HandshakeError.read_hello e))
      | ok ((t, payload), rest) ↦
          if not (t == type_hello)
          then (best_effort_error expected_hello s, some HandshakeError.bad_hello)
          else (elim (json.unmarshal_hello payload) [
            | none ↦ (best_effort_error bad_hello_json s, some HandshakeError.bad_hello)
            | some h ↦ check_hello c hooks json h s
          ])
    ])
