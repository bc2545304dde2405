-- ===== src/Session/Handshake/Success.antt =====
-- A handshake of session/session.go that succeeds.
use mathlib.Core.Option
use quicrtc.Prelude.{
  ℕ, ◌≡◌, refl, sym, ap, ◌∙◌, subst, ◌⊎◌, inl, inr, List, Bool, ◌==◌, [], Option, none, some, ok,
  Text, Sink, arith, Bool-cases, Option-cases,
}
use quicrtc.Wire.Control.{read_control_frame, write_control_frame}
use quicrtc.Wire.Hello.{Hello, Sdp, current_version, min_supported_version, negotiate_version}
use quicrtc.Session.{Config, Hooks, Session, new_session, intersect_features}
use quicrtc.Session.Handshake.{
  type_hello, type_sdp, Json, HandshakeError, offered_range, authenticate, takes_role,
  attach_resumed, attach_fresh, resumable, log_resume, mark_leading, resume_or_start, answer, admit,
  check_hello, handshake,
}
use quicrtc.Session.Handshake.Auth.{Accepted, Verdict, attach_resumed-same, attach_fresh-same}
use quicrtc.Session.Handshake.Gate.{Result-cases, check_hello-Verdict}
use quicrtc.Session.Handshake.Opened.{Started, Blank, resume_or_start-Started}

-- What a client that was let in has asked for, and what it got.
pub record Served (c : Config) (hooks : Hooks) (json : Json) (h : Hello) (ctl : Sink) (s : Session)
    : Type 0 where
  pub started : Started c hooks h s
  pub features : s.negotiated_features ≡ intersect_features h.features c.supported_features
  pub body : List ℕ
  pub encoded :
      json.marshal_sdp (record c.sdp {
        session_id = s.session_id;
        features = s.negotiated_features;
        negotiated_version = s.negotiated_version;
      })
      ≡ some body
  pub written : write_control_frame ctl type_sdp body ≡ (s.ctl, none)

-- An error, or a session that is served.
abbrev Answered : Config → Hooks → Json → Hello → Sink → Session × Option HandshakeError → Type 0
Answered c hooks json h ctl r =
    ((e : HandshakeError) × (r.1 ≡ some e)) ⊎ ((r.1 ≡ none) × Served c hooks json h ctl r.0)

resume_or_start-ctl :
    (c : Config) (hooks : Hooks) (h : Hello) (s : Session)
    → (resume_or_start c hooks h s).ctl ≡ s.ctl
unfolding resume_or_start mark_leading
resume_or_start-ctl c hooks h s = elim (Option-cases (resumable hooks h s)) [
  | inl e ↦
      let id = Option.get_or hooks.on_allocate_id s.session_id in
      let fresh = Option.get_or hooks.on_fresh_session [] in
      let s₁ : Session = record (log_resume hooks h s) { session_id = id } in
      let eq : resume_or_start c hooks h s ≡ attach_fresh c hooks fresh s₁ = ground (arith, e) in
      ap (λ t. t.ctl) eq ∙ (attach_fresh-same c hooks fresh s₁).ctl
  | inr (rs, e) ↦
      let s₁ : Session = record (log_resume hooks h s) { session_id = h.session_id } in
      let eq : resume_or_start c hooks h s ≡ attach_resumed c hooks rs (mark_leading h s₁) =
        ground (arith, e) in
      let marked : (mark_leading h s₁).ctl ≡ s.ctl = ground arith in
      ap (λ t. t.ctl) eq ∙ (attach_resumed-same c hooks rs (mark_leading h s₁)).ctl ∙ marked
]

Started-later :
    (c : Config) (hooks : Hooks) (h : Hello) (s : Session) (features : List Text) (ctl : Sink)
    → Started c hooks h s
    → Started c hooks h (record s { negotiated_features = features; ctl = ctl })
Started-later c hooks h s features ctl (inl r) =
    inl record { parked = r.parked; asked = r.asked; named = r.named; tracks = r.tracks }
Started-later c hooks h s features ctl (inr f) =
    inr record { declined = f.declined; named = f.named; tracks = f.tracks }

answer-Answered :
    (c : Config) (hooks : Hooks) (json : Json) (h : Hello) (s : Session)
    → Started c hooks h s
    → Answered c hooks json h s.ctl (answer c json h s)
unfolding answer
answer-Answered c hooks json h s started =
    let features = intersect_features h.features c.supported_features in
    let sdp : Sdp = record c.sdp {
      session_id = s.session_id;
      features = features;
      negotiated_version = s.negotiated_version;
    } in
    elim (Option-cases (json.marshal_sdp sdp)) [
      | inl e ↦ inl (HandshakeError.marshal_sdp_failed, ground (arith, e))
      | inr (body, e) ↦
          let w = write_control_frame s.ctl type_sdp body in
          elim (Option-cases w.1) [
            | inr (fault, bad) ↦ inl (HandshakeError.write_sdp fault, ground (arith, e, bad))
            | inl fine ↦
                let s' : Session = record s { negotiated_features = features; ctl = w.0 } in
                let eq : answer c json h s ≡ (s', none) = ground (arith, e, fine) in
                subst (Answered c hooks json h s.ctl) (sym eq) (
                  inr (
                    refl,
                    record {
                      started = Started-later c hooks h s features w.0 started;
                      features = refl;
                      body = body;
                      encoded = e;
                      written = ap (λ o. (w.0, o)) fine;
                    },
                  ))
          ]
    ]

admit-Answered :
    (c : Config) (hooks : Hooks) (json : Json) (h : Hello) (s : Session)
    → Blank s
    → Answered c hooks json h s.ctl (admit c hooks json h s)
unfolding admit
admit-Answered c hooks json h s blank = elim (Bool-cases (takes_role h.role)) [
  | inr strange ↦ inl (HandshakeError.bad_hello, ground (arith, strange))
  | inl fine ↦
      let s₁ : Session = record s {
        hello_session_id = h.session_id;
        hello_last_seen_seq = h.last_seen_seq;
      } in
      let b : Blank s₁ = record {
        tracks = blank.tracks;
        features = blank.features;
        leading = blank.leading;
        unnamed = blank.unnamed;
        uncalled = blank.uncalled;
      } in
      let s₂ = resume_or_start c hooks h s₁ in
      let eq : admit c hooks json h s ≡ answer c json h s₂ = ground (arith, fine) in
      let a = answer-Answered c hooks json h s₂ (resume_or_start-Started c hooks h s₁ b) in
      subst (Answered c hooks json h s.ctl) (sym eq) (
        subst (λ w. Answered c hooks json h w (answer c json h s₂))
          (resume_or_start-ctl c hooks h s₁) a)
]

check_hello-Answered :
    (c : Config) (hooks : Hooks) (json : Json) (h : Hello) (s : Session)
    → Blank s
    → Answered c hooks json h s.ctl (check_hello c hooks json h s)
unfolding check_hello
check_hello-Answered c hooks json h s blank =
    elim (Option-cases (
      negotiate_version (offered_range h).0 (offered_range h).1 min_supported_version
        current_version)) [
          | inl apart ↦ inl (HandshakeError.bad_hello, ground (arith, apart))
          | inr (v, agreed) ↦
              let s₁ : Session = record s { negotiated_version = v } in
              elim (Option-cases (authenticate c h s₁)) [
                | inl wrong ↦ inl (HandshakeError.auth, ground (arith, agreed, wrong))
                | inr (tenant, right) ↦
                    let s₂ : Session = record s₁ { tenant = tenant } in
                    let eq : check_hello c hooks json h s ≡ admit c hooks json h s₂ =
                      ground (arith, agreed, right) in
                    subst (Answered c hooks json h s.ctl) (sym eq) (
                      admit-Answered c hooks json h s₂ record {
                        tracks = blank.tracks;
                        features = blank.features;
                        leading = blank.leading;
                        unnamed = blank.unnamed;
                        uncalled = blank.uncalled;
                      })
              ]
        ]

new_session-Blank : (ctl : Sink) → Blank (new_session ctl)
unfolding new_session
new_session-Blank ctl = record {
  tracks = refl;
  features = refl;
  leading = refl;
  unnamed = refl;
  uncalled = refl;
}

-- A verdict without an error is that the credential was accepted.
accepted_of :
    (c : Config) (h : Hello) (s : Session) (r : Session × Option HandshakeError)
    → Verdict c h s r
    → r.1 ≡ none
    → Accepted c h s r.0
accepted_of c h s r (inl (e, bad, _)) fine = absurd (cc (bad, fine))
accepted_of c h s r (inr (_, checked)) fine = checked.0

pub handshake-Served :
    (c : Config) (hooks : Hooks) (json : Json) (deadline_set : Bool) (input : List ℕ) (ctl : Sink)
    → let r = handshake c hooks json deadline_set input (new_session ctl) in
      ((e : HandshakeError) × (r.1 ≡ some e))
      ⊎ ((h : Hello) × (payload : List ℕ) × (rest : List ℕ) × (read_control_frame input
            ≡ ok ((type_hello, payload), rest))
          × (json.unmarshal_hello payload ≡ some h)
          × (r.1 ≡ none)
          × Accepted c h (new_session ctl) r.0
          × Served c hooks json h ctl r.0)
unfolding handshake new_session
handshake-Served c hooks json deadline_set input ctl =
    let s = new_session ctl in
    elim (Bool-cases deadline_set) [
      | inr unset ↦ inl (HandshakeError.set_deadline, ground (arith, unset))
      | inl timed ↦ elim (Result-cases (read_control_frame input)) [
        | inl (fault, bad) ↦ inl (HandshakeError.read_hello fault, ground (arith, timed, bad))
        | inr (((t, payload), rest), framed) ↦ elim (Bool-cases (t == type_hello)) [
          | inr other ↦ inl (HandshakeError.bad_hello, ground (arith, timed, framed, other))
          | inl hello ↦ elim (Option-cases (json.unmarshal_hello payload)) [
            | inl garbled ↦
                inl (HandshakeError.bad_hello, ground (arith, timed, framed, hello, garbled))
            | inr (h, parsed) ↦
                let eq : handshake c hooks json deadline_set input s
                    ≡ check_hello c hooks json h s =
                  ground (arith, timed, framed, hello, parsed) in
                let is_hello : t ≡ type_hello = ground (arith, hello) in
                elim (subst (Answered c hooks json h ctl) (sym eq)
                  (check_hello-Answered c hooks json h s (new_session-Blank ctl))) [
                    | inl failed ↦ inl failed
                    | inr (fine, served) ↦ inr (
                      h,
                      payload,
                      rest,
                      framed ∙ ap (λ k. ok ((k, payload), rest)) is_hello,
                      parsed,
                      fine,
                      accepted_of c h s (handshake c hooks json deadline_set input s)
                          (subst (Verdict c h s) (sym eq) (check_hello-Verdict c hooks json h s))
                          fine,
                      served,
                    )
                  ]
          ]
        ]
      ]
    ]
