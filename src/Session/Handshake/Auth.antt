-- ===== src/Session/Handshake/Auth.antt =====
-- Who gets past the handshake of session/session.go.
use mathlib.Core.Option
use quicrtc.Prelude.{
  ℕ, ◌≡◌, refl, ◌∙◌, ◌⊎◌, inl, inr, List, true, ◌==◌, length, nil_of_length, [], ◌∷◌, Option, none,
  some, ok, Error, Text, same_text, same_text→eq, arith, Bool-cases, Option-cases,
}
use quicrtc.Wire.Control.{read_control_frame, write_control_frame}
use quicrtc.Wire.Hello.{Hello, Sdp, current_version, min_supported_version}
use quicrtc.Wire.Hello.Laws.{Within}
use quicrtc.Session.{
  Config, Hooks, Session, intersect_features, attach_track_with_kind, attach_track_with_track_id,
  attach_track_with_priority, attach_track, looked_up_kind, best_effort_error,
}
use quicrtc.Session.Attach.{
  SameSession, SameSession-refl, SameSession-trans, attach_track_with_kind-Attached,
}
use quicrtc.Session.Handshake.{
  type_hello, type_sdp, Json, HandshakeError, offered_range, authenticate, takes_role,
  attach_resumed, looked_up, attach_fresh, resumable, log_resume, mark_leading, resume_or_start,
  answer,
}

attach_track-same :
    (c : Config) (h : Hooks) (name : Text) (recv : ℕ) (s : Session)
    → SameSession s (attach_track c h name recv s)
unfolding attach_track attach_track_with_priority attach_track_with_track_id
attach_track-same c h name recv s =
    (attach_track_with_kind-Attached c name (looked_up_kind h name) recv 4 0 s).same

pub attach_resumed-same :
    (c : Config) (h : Hooks) (rs : List (Text × ℕ)) (s : Session)
    → SameSession s (attach_resumed c h rs s)
unfolding attach_resumed
attach_resumed-same c h [] s = SameSession-refl s
attach_resumed-same c h ((name, r) ∷ rs) s =
    let s' = attach_track c h name r s in
    SameSession-trans s s' (attach_resumed c h rs s') (attach_track-same c h name r s)
      (attach_resumed-same c h rs s')

pub attach_fresh-same :
    (c : Config) (h : Hooks) (rs : List (Text × ℕ)) (s : Session)
    → SameSession s (attach_fresh c h rs s)
unfolding attach_fresh
attach_fresh-same c h [] s = SameSession-refl s
attach_fresh-same c h ((name, r) ∷ rs) s =
    let a =
      attach_track_with_kind-Attached c name (looked_up_kind h name) r
        (looked_up h.on_lookup_priority 4 name) (looked_up h.on_lookup_track_id 0 name) s in
    let s' =
      attach_track_with_kind c name (looked_up_kind h name) r
        (looked_up h.on_lookup_priority 4 name) (looked_up h.on_lookup_track_id 0 name) s in
    SameSession-trans s s' (attach_fresh c h rs s') a.same (attach_fresh-same c h rs s')

-- The identity that authentication has settled.
pub record SameIdentity (s s' : Session) : Type 0 where
  pub tenant : s'.tenant ≡ s.tenant
  pub version : s'.negotiated_version ≡ s.negotiated_version

mark_leading-same : (h : Hello) (s : Session) → SameIdentity s (mark_leading h s)
unfolding mark_leading
mark_leading-same h s = record { tenant = ground arith; version = ground arith }

pub resume_or_start-same :
    (c : Config) (hooks : Hooks) (h : Hello) (s : Session)
    → SameIdentity s (resume_or_start c hooks h s)
unfolding resume_or_start
resume_or_start-same c hooks h s = elim (Option-cases (resumable hooks h s)) [
  | inl e ↦
      let id = Option.get_or hooks.on_allocate_id s.session_id in
      let fresh = Option.get_or hooks.on_fresh_session [] in
      let same =
        attach_fresh-same c hooks fresh (record (log_resume hooks h s) { session_id = id }) in
      rw (resume_or_start, e) record { tenant = same.tenant; version = same.version }
  | inr (rs, e) ↦
      let s₁ : Session = record (log_resume hooks h s) { session_id = h.session_id } in
      let m = mark_leading-same h s₁ in
      let same = attach_resumed-same c hooks rs (mark_leading h s₁) in
      rw (resume_or_start, e)
        record { tenant = same.tenant ∙ m.tenant; version = same.version ∙ m.version }
]

pub answer-same :
    (c : Config) (json : Json) (h : Hello) (s : Session) → SameIdentity s (answer c json h s).0
unfolding answer
answer-same c json h s =
    let features = intersect_features h.features c.supported_features in
    let sdp : Sdp = record c.sdp {
      session_id = s.session_id;
      features = features;
      negotiated_version = s.negotiated_version;
    } in
    elim (Option-cases (json.marshal_sdp sdp)) [
      | inl e ↦ record { tenant = ground (arith, e); version = ground (arith, e) }
      | inr (body, e) ↦ elim (Option-cases (write_control_frame s.ctl type_sdp body).1) [
        | inl fine ↦ record { tenant = ground (arith, e, fine); version = ground (arith, e, fine) }
        | inr (fault, bad) ↦ record {
          tenant = ground (arith, e, bad);
          version = ground (arith, e, bad);
        }
      ]
    ]

-- Nothing is attached or spawned, no session has been named, and OnResume has not been called.
pub record Refused (s s' : Session) : Type 0 where
  pub tracks : s'.tracks ≡ s.tracks
  pub spawned : s'.spawned ≡ s.spawned
  pub session_id : s'.session_id ≡ s.session_id
  pub features : s'.negotiated_features ≡ s.negotiated_features
  pub leading : s'.resumed_leading ≡ s.resumed_leading
  pub uncalled : s'.resume_calls ≡ s.resume_calls

-- The credential is one that AuthValidator takes, and it names the tenant; or there is no validator
-- and it is the expected slug.
abbrev pub Accepted : Config → Hello → Session → Session → Type 0
Accepted c h s s' =
    ((validate : Text → Option Text) × (c.auth_validator ≡ some validate)
      × (validate h.slug ≡ some s'.tenant))
    ⊎ ((c.auth_validator ≡ none) × (h.slug ≡ c.expect_slug) × (s'.tenant ≡ s.tenant))

-- A HELLO was read whose credential, role and versions are right.
pub record Admitted (c : Config) (json : Json) (input : List ℕ) (s s' : Session) : Type 0 where
  pub payload : List ℕ
  pub rest : List ℕ
  pub hello : Hello
  pub framed : read_control_frame input ≡ ok ((type_hello, payload), rest)
  pub parsed : json.unmarshal_hello payload ≡ some hello
  pub accepted : Accepted c hello s s'
  pub role : (hello.role ≡ []) ⊎ (hello.role ≡ 114 ∷ 101 ∷ 99 ∷ 118 ∷ [])
  pub version_offered : Within (offered_range hello).0 (offered_range hello).1 s'.negotiated_version
  pub version_supported : Within min_supported_version current_version s'.negotiated_version

pub best_effort_error-Refused : (msg : List ℕ) (s : Session) → Refused s (best_effort_error msg s)
unfolding best_effort_error
best_effort_error-Refused msg s = record {
  tracks = refl;
  spawned = refl;
  session_id = refl;
  features = refl;
  leading = refl;
  uncalled = refl;
}

pub takes_role-lem :
    (role : Text) → takes_role role ≡ true → (role ≡ []) ⊎ (role ≡ 114 ∷ 101 ∷ 99 ∷ 118 ∷ [])
takes_role-lem role h = elim (Bool-cases (length role == 0)) [
  | inl empty ↦ inl (nil_of_length role (ground (arith, empty)))
  | inr some_role ↦ inr (same_text→eq role _ (ground (arith, some_role, h)))
]

pub authenticate-Accepted :
    (c : Config) (h : Hello) (s s' : Session)
    → authenticate c h s ≡ some s'.tenant
    → Accepted c h s s'
unfolding authenticate
authenticate-Accepted c h s s' e = elim (Option-cases c.auth_validator) [
  | inr (validate, there) ↦ inl (validate, there, ground (arith, there, e))
  | inl nothing ↦ elim (Bool-cases (same_text h.slug c.expect_slug)) [
    | inl same ↦
        inr (nothing, same_text→eq h.slug c.expect_slug same, ground (arith, nothing, same, e))
    | inr differs ↦ absurd (ground (arith, nothing, differs, e))
  ]
]

-- How the handshake ends once it has attached the tracks: only the SDP may still fail.
abbrev pub AnswerEnd : Option HandshakeError → Type 0
AnswerEnd o =
    (o ≡ none)
    ⊎ (o ≡ some HandshakeError.marshal_sdp_failed)
    ⊎ ((fault : Error) × (o ≡ some (HandshakeError.write_sdp fault)))

pub answer-AnswerEnd :
    (c : Config) (json : Json) (h : Hello) (s : Session) → AnswerEnd (answer c json h s).1
unfolding answer
answer-AnswerEnd c json h s =
    let features = intersect_features h.features c.supported_features in
    let sdp : Sdp = record c.sdp {
      session_id = s.session_id;
      features = features;
      negotiated_version = s.negotiated_version;
    } in
    elim (Option-cases (json.marshal_sdp sdp)) [
      | inl e ↦ inr (inl (ground (arith, e)))
      | inr (body, e) ↦ elim (Option-cases (write_control_frame s.ctl type_sdp body).1) [
        | inl fine ↦ inl (ground (arith, e, fine))
        | inr (fault, bad) ↦ inr (inr (fault, ground (arith, e, bad)))
      ]
    ]

-- What the handshake makes of a HELLO that has been parsed.
abbrev pub Checked : Config → Hello → Session → Session → Type 0
Checked c h s s' =
    Accepted c h s s'
    × ((h.role ≡ []) ⊎ (h.role ≡ 114 ∷ 101 ∷ 99 ∷ 118 ∷ []))
    × Within (offered_range h).0 (offered_range h).1 s'.negotiated_version
    × Within min_supported_version current_version s'.negotiated_version

abbrev pub Verdict : Config → Hello → Session → Session × Option HandshakeError → Type 0
Verdict c h s r =
    ((e : HandshakeError) × (r.1 ≡ some e) × Refused s r.0) ⊎ (AnswerEnd r.1 × Checked c h s r.0)
