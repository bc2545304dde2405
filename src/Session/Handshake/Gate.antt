-- ===== src/Session/Handshake/Gate.antt =====
-- Who gets past the handshake of session/session.go.
use quicrtc.Prelude.{
  ℕ, ◌≡◌, refl, sym, ap, ◌∙◌, subst, ◌⊎◌, inl, inr, List, Bool, ◌==◌, [], Option, some, Result, ok,
  err, Error, arith, Bool-cases, Option-cases,
}
use quicrtc.Wire.Control.{read_control_frame}
use quicrtc.Wire.Hello.{Hello, current_version, min_supported_version}
use quicrtc.Wire.Hello.Laws.{Within, negotiate_version_lem}
use quicrtc.Session.{Config, Hooks, Session, best_effort_error}
use quicrtc.Session.Handshake.{
  type_hello, Json, HandshakeError, offered_range, authenticate, takes_role, resume_or_start,
  answer, admit, check_hello, handshake, expected_hello, bad_hello_json, version_message,
  auth_message, bad_role,
}
use quicrtc.Session.Handshake.Auth.{
  resume_or_start-same, answer-same, Refused, Accepted, Admitted, best_effort_error-Refused,
  takes_role-lem, authenticate-Accepted, Verdict, AnswerEnd, answer-AnswerEnd,
}

-- An accepted credential stays one, whatever the tracks.
Accepted-same :
    (c : Config) (h : Hello) (s a b : Session)
    → b.tenant ≡ a.tenant
    → Accepted c h s a
    → Accepted c h s b
Accepted-same c h s a b e (inl (v, there, t)) = inl (v, there, t ∙ ap some (sym e))
Accepted-same c h s a b e (inr (nothing, slug, t)) = inr (nothing, slug, e ∙ t)

Refused-after : (s a b : Session) → Refused s a → Refused a b → Refused s b
Refused-after s a b p q = record {
  tracks = q.tracks ∙ p.tracks;
  spawned = q.spawned ∙ p.spawned;
  session_id = q.session_id ∙ p.session_id;
  features = q.features ∙ p.features;
  leading = q.leading ∙ p.leading;
  uncalled = q.uncalled ∙ p.uncalled;
}

admit-Verdict :
    (c : Config) (hooks : Hooks) (json : Json) (h : Hello) (s a : Session)
    → Refused s a
    → Accepted c h s a
    → Within (offered_range h).0 (offered_range h).1 a.negotiated_version
    → Within min_supported_version current_version a.negotiated_version
    → Verdict c h s (admit c hooks json h a)
unfolding admit
admit-Verdict c hooks json h s a clean accepted offered supported =
    elim (Bool-cases (takes_role h.role)) [
      | inr strange ↦
          let msg = bad_role in
          let e : admit c hooks json h a
              ≡ (best_effort_error msg a, some HandshakeError.bad_hello) =
            ground (arith, strange) in
          subst (Verdict c h s) (sym e) (
            inl (
              HandshakeError.bad_hello,
              refl,
              Refused-after s a (best_effort_error msg a) clean (best_effort_error-Refused msg a),
            ))
      | inl fine ↦
          let a₁ : Session = record a {
            hello_session_id = h.session_id;
            hello_last_seen_seq = h.last_seen_seq;
          } in
          let b = resume_or_start c hooks h a₁ in
          let e : admit c hooks json h a ≡ answer c json h b = ground (arith, fine) in
          let p = resume_or_start-same c hooks h a₁ in
          let q = answer-same c json h b in
          let tenant = q.tenant ∙ p.tenant in
          let version = q.version ∙ p.version in
          subst (Verdict c h s) (sym e) (
            inr (
              answer-AnswerEnd c json h b,
              (
                Accepted-same c h s a (answer c json h b).0 tenant accepted,
                takes_role-lem h.role fine,
                subst (Within (offered_range h).0 (offered_range h).1) (sym version) offered,
                subst (Within min_supported_version current_version) (sym version) supported,
              ),
            ))
    ]

pub check_hello-Verdict :
    (c : Config) (hooks : Hooks) (json : Json) (h : Hello) (s : Session)
    → Verdict c h s (check_hello c hooks json h s)
unfolding check_hello
check_hello-Verdict c hooks json h s =
    let (lo, hi) = offered_range h in
    elim (negotiate_version_lem (offered_range h).0 (offered_range h).1 min_supported_version
      current_version []) [
        | inl (apart, _) ↦
            let msg = version_message in
            let e : check_hello c hooks json h s
                ≡ (best_effort_error msg s, some HandshakeError.bad_hello) =
              ground (arith, apart) in
            subst (Verdict c h s) (sym e)
              (inl (HandshakeError.bad_hello, refl, best_effort_error-Refused msg s))
        | inr (v, agreed, offered, supported, _) ↦
            let s₁ : Session = record s { negotiated_version = v } in
            let clean : Refused s s₁ = record {
              tracks = refl;
              spawned = refl;
              session_id = refl;
              features = refl;
              leading = refl;
              uncalled = refl;
            } in
            elim (Option-cases (authenticate c h s₁)) [
              | inl wrong ↦
                  let msg = auth_message in
                  let e : check_hello c hooks json h s
                      ≡ (best_effort_error msg s₁, some HandshakeError.auth) =
                    ground (arith, agreed, wrong) in
                  subst (Verdict c h s) (sym e) (
                    inl (
                      HandshakeError.auth,
                      refl,
                      Refused-after s s₁ (best_effort_error msg s₁) clean
                          (best_effort_error-Refused msg s₁),
                    ))
              | inr (tenant, right) ↦
                  let s₂ : Session = record s₁ { tenant = tenant } in
                  let e : check_hello c hooks json h s ≡ admit c hooks json h s₂ =
                    ground (arith, agreed, right) in
                  let clean' : Refused s s₂ = record {
                    tracks = refl;
                    spawned = refl;
                    session_id = refl;
                    features = refl;
                    leading = refl;
                    uncalled = refl;
                  } in
                  subst (Verdict c h s) (sym e) (
                    admit-Verdict c hooks json h s s₂ clean' (authenticate-Accepted c h s₁ s₂ right)
                      offered supported)
            ]
      ]

-- What a result of read_control_frame is.
pub Result-cases {ℓ} :
    {T : Type ℓ} (r : Result T) → ((e : Error) × (r ≡ err e)) ⊎ ((t : T) × (r ≡ ok t))
Result-cases (err e) = inl (e, refl)
Result-cases (ok t) = inr (t, refl)

-- A refusal, or a HELLO that was right.
abbrev pub Gate : Config → Json → List ℕ → Session → Session × Option HandshakeError → Type 0
Gate c json input s r =
    ((e : HandshakeError) × (r.1 ≡ some e) × Refused s r.0)
    ⊎ (AnswerEnd r.1 × Admitted c json input s r.0)

-- A return with an error before anything was done.
refusal :
    (c : Config) (json : Json) (input : List ℕ) (s : Session) (e : HandshakeError)
    (r : Session × Option HandshakeError)
    → r ≡ (s, some e)
    → Gate c json input s r
refusal c json input s e r h =
    let same : Refused s s = record {
      tracks = refl;
      spawned = refl;
      session_id = refl;
      features = refl;
      leading = refl;
      uncalled = refl;
    } in
    subst (Gate c json input s) (sym h) (inl (e, refl, same))

-- A return with an error that the peer is told of.
told :
    (c : Config) (json : Json) (input : List ℕ) (s : Session) (e : HandshakeError) (msg : List ℕ)
    (r : Session × Option HandshakeError)
    → r ≡ (best_effort_error msg s, some e)
    → Gate c json input s r
told c json input s e msg r h =
    subst (Gate c json input s) (sym h) (inl (e, refl, best_effort_error-Refused msg s))

-- The part after a HELLO has been parsed.
parsed-Gate :
    (c : Config) (hooks : Hooks) (json : Json) (input payload rest : List ℕ) (h : Hello)
    (s : Session)
    → read_control_frame input ≡ ok ((type_hello, payload), rest)
    → json.unmarshal_hello payload ≡ some h
    → Gate c json input s (check_hello c hooks json h s)
parsed-Gate c hooks json input payload rest h s framed parsed =
    elim (check_hello-Verdict c hooks json h s) [
      | inl refused ↦ inl refused
      | inr (ended, (accepted, role, offered, supported)) ↦ inr (
        ended,
        record {
          payload = payload;
          rest = rest;
          hello = h;
          framed = framed;
          parsed = parsed;
          accepted = accepted;
          role = role;
          version_offered = offered;
          version_supported = supported;
        },
      )
    ]

-- The handshake is a gate. Either it refuses with an error, and then no track has been attached, no
-- pump spawned, no session named, no feature agreed on and OnResume not called; or the first frame
-- was a HELLO that parses, with a credential that AuthValidator takes, and the session's tenant is
-- the one it gives (without a validator, the credential is the expected slug), with a role that is
-- absent or "recv", the version agreed on is in the range of both sides, and the only errors left
-- are that the SDP cannot be encoded or written. This holds for every configuration, callback and
-- input.
pub handshake-Gate :
    (c : Config) (hooks : Hooks) (json : Json) (deadline_set : Bool) (input : List ℕ) (s : Session)
    → Gate c json input s (handshake c hooks json deadline_set input s)
unfolding handshake
handshake-Gate c hooks json deadline_set input s = elim (Bool-cases deadline_set) [
  | inr unset ↦ refusal c json input s HandshakeError.set_deadline _ (ground (arith, unset))
  | inl timed ↦ elim (Result-cases (read_control_frame input)) [
    | inl (fault, bad) ↦
        refusal c json input s (HandshakeError.read_hello fault) _ (ground (arith, timed, bad))
    | inr (((t, payload), rest), framed) ↦ elim (Bool-cases (t == type_hello)) [
      | inr other ↦
          told c json input s HandshakeError.bad_hello expected_hello _
            (ground (arith, timed, framed, other))
      | inl hello ↦ elim (Option-cases (json.unmarshal_hello payload)) [
        | inl garbled ↦
            told c json input s HandshakeError.bad_hello bad_hello_json _
              (ground (arith, timed, framed, hello, garbled))
        | inr (h, parsed) ↦
            let e : handshake c hooks json deadline_set input s ≡ check_hello c hooks json h s =
              ground (arith, timed, framed, hello, parsed) in
            let is_hello : t ≡ type_hello = ground (arith, hello) in
            subst (Gate c json input s) (sym e) (
              parsed-Gate c hooks json input payload rest h s
                (framed ∙ ap (λ k. ok ((k, payload), rest)) is_hello) parsed)
      ]
    ]
  ]
]
