-- ===== src/Session/Handshake/Opened.antt =====
-- A session that the handshake of session/session.go has opened.
use mathlib.Core.Option
use quicrtc.Prelude.{
  ℕ, ◌≡◌, refl, sym, ap, ◌∙◌, subst, ◌⊎◌, inl, inr, List, true, not, ◌==◌, ltb, if◌then◌else◌,
  length, nil_of_length, map, [], ◌∷◌, ◌<◌, Option, none, some, Text, lookup, arith, Bool-cases,
  Option-cases,
}
use quicrtc.Track.{default_delivery_class}
use quicrtc.Wire.Hello.{Hello}
use quicrtc.Session.{
  Config, Hooks, TrackPump, Session, contains, has_negotiated_feature, track_pump,
}
use quicrtc.Session.Handshake.{
  attach_resumed, attach_fresh, resumable, log_resume, mark_leading, resume_or_start,
}
use quicrtc.Session.Handshake.Auth.{attach_resumed-same, attach_fresh-same}
use quicrtc.Session.Handshake.Tracks.{
  Lookups, resumed_lookups, fresh_lookups, pump_for, track_of, attach_resumed-tracks,
  attach_fresh-tracks,
}

-- The pump of a track that a handshake attaches. Those in `leading` may begin with P-frames.
abbrev pub opened_pump : Config → Lookups → List Text → Text → ℕ → TrackPump
opened_pump c l leading name r = record {
  name = name;
  recv = r;
  priority = l.priority name;
  track_id = l.track_id name;
  delivery =
      if not (length (l.kind name) == 0)
      then default_delivery_class (l.kind name)
      else c.feed_config.delivery;
  allow_leading_p_frames =
      if contains leading name then true else c.feed_config.allow_leading_p_frames;
  stamp_publish_wall = c.feed_config.stamp_publish_wall;
}

-- The tracks whose seq the client has sent.
abbrev pub cursor_names : Hello → List Text
cursor_names h = map (λ (c : Text × ℕ). c.0) h.last_seen_seq

-- Whether OnResume was asked, with which tenant, and what it gave: it is if the client named a
-- session and there is such a callback, once, with the id and the cursors of the HELLO.
abbrev pub Asked :
    Hooks → Hello → Text → List (Text × Text × List (Text × ℕ)) → Option (List (Text × ℕ)) → Type 0
Asked hooks h tenant calls given =
    (((h.session_id ≡ []) ⊎ (hooks.on_resume ≡ none)) × (calls ≡ []) × (given ≡ none))
    ⊎ ((resume : Text → Text → List (Text × ℕ) → Option (List (Text × ℕ))) × (hooks.on_resume
          ≡ some resume)
        × (0 < length h.session_id)
        × (calls ≡ (tenant, h.session_id, h.last_seen_seq) ∷ [])
        × (given ≡ resume tenant h.session_id h.last_seen_seq))

-- The session that was parked under the tenant and the id goes on, with its receivers.
pub record Resumed (c : Config) (hooks : Hooks) (h : Hello) (s : Session) : Type 0 where
  pub parked : List (Text × ℕ)
  pub asked : Asked hooks h s.tenant s.resume_calls (some parked)
  pub named : s.session_id ≡ h.session_id
  pub tracks :
      (name : Text)
      → lookup name s.tracks
        ≡ Option.map
            (opened_pump c (resumed_lookups hooks) (cursor_names h) name)
            (lookup name parked)

-- A new session, with the server's tracks.
pub record Fresh (c : Config) (hooks : Hooks) (h : Hello) (s : Session) : Type 0 where
  pub declined : Asked hooks h s.tenant s.resume_calls none
  pub named : s.session_id ≡ Option.get_or hooks.on_allocate_id []
  pub tracks :
      (name : Text)
      → lookup name s.tracks
        ≡ Option.map
            (opened_pump c (fresh_lookups hooks) [] name)
            (lookup name (Option.get_or hooks.on_fresh_session []))

-- Before anything has been attached.
pub record Blank (s : Session) : Type 0 where
  pub tracks : s.tracks ≡ []
  pub features : s.negotiated_features ≡ []
  pub leading : s.resumed_leading ≡ []
  pub unnamed : s.session_id ≡ []
  pub uncalled : s.resume_calls ≡ []

pump_for-opened :
    (c : Config) (l : Lookups) (leading : List Text) (s : Session) (name : Text) (r : ℕ)
    → s.negotiated_features ≡ []
    → s.resumed_leading ≡ leading
    → pump_for c l s name r ≡ opened_pump c l leading name r
unfolding track_pump has_negotiated_feature contains
pump_for-opened c l leading s name r e f = rw (e, f)

track_of-opened :
    (c : Config) (l : Lookups) (leading : List Text) (rs : List (Text × ℕ)) (s : Session)
    (name : Text)
    → s.tracks ≡ []
    → s.negotiated_features ≡ []
    → s.resumed_leading ≡ leading
    → track_of c l rs s name ≡ Option.map (opened_pump c l leading name) (lookup name rs)
unfolding lookup
track_of-opened c l leading rs s name e f g = rw (track_of, e) (at (lookup name rs))
  where
    at :
        (o : Option ℕ)
        → Option.map (pump_for c l s name) o ≡ Option.map (opened_pump c l leading name) o
    at none = refl
    at (some r) = ap some (pump_for-opened c l leading s name r f g)

mark_leading-names :
    (h : Hello) (s : Session)
    → s.resumed_leading ≡ []
    → mark_leading h s ≡ record s { resumed_leading = cursor_names h }
unfolding mark_leading
mark_leading-names h s e = elim (Bool-cases (ltb 0 (length h.last_seen_seq))) [
  | inl some_seen ↦ ground (arith, some_seen)
  | inr nothing ↦
      let empty : h.last_seen_seq ≡ [] = nil_of_length h.last_seen_seq (ground (arith, nothing)) in
      let named : cursor_names h ≡ [] = ap (map (λ (c : Text × ℕ). c.0)) empty in
      ground (arith, nothing, named, e)
]

-- One or the other.
abbrev pub Started : Config → Hooks → Hello → Session → Type 0
Started c hooks h s = Resumed c hooks h s ⊎ Fresh c hooks h s

resumable-Asked :
    (hooks : Hooks) (h : Hello) (s : Session)
    → s.resume_calls ≡ []
    → Asked hooks h s.tenant (log_resume hooks h s).resume_calls (resumable hooks h s)
unfolding resumable
resumable-Asked hooks h s e = elim (Bool-cases (length h.session_id == 0)) [
  | inl unnamed ↦
      let no_name : h.session_id ≡ [] = nil_of_length h.session_id (ground (arith, unnamed)) in
      rw (e, unnamed) (inl (inl no_name, refl, refl))
  | inr named ↦ elim (Option-cases hooks.on_resume) [
    | inl nothing ↦ rw (e, named, nothing) (inl (inr refl, refl, refl))
    | inr (resume, there) ↦
        rw (e, named, there) (inr (resume, refl, ground (arith, named), refl, refl))
  ]
]

pub resume_or_start-Started :
    (c : Config) (hooks : Hooks) (h : Hello) (s : Session)
    → Blank s
    → Started c hooks h (resume_or_start c hooks h s)
unfolding resume_or_start
resume_or_start-Started c hooks h s blank =
    let asked_of : (s' : Session) (o : Option (List (Text × ℕ)))
        → s'.tenant ≡ s.tenant
        → s'.resume_calls ≡ (log_resume hooks h s).resume_calls
        → resumable hooks h s ≡ o
        → Asked hooks h s'.tenant s'.resume_calls o =
      λ s' o t q e.
        subst (λ u. Asked hooks h u s'.resume_calls o) (sym t)
          (subst (λ u. Asked hooks h s.tenant u o) (sym q)
            (subst (Asked hooks h s.tenant (log_resume hooks h s).resume_calls) e
              (resumable-Asked hooks h s blank.uncalled))) in
    elim (Option-cases (resumable hooks h s)) [
      | inr (rs, e) ↦
          let s₁ : Session = record (log_resume hooks h s) { session_id = h.session_id } in
          let s₂ : Session = record s₁ { resumed_leading = cursor_names h } in
          let m : mark_leading h s₁ ≡ s₂ = mark_leading-names h s₁ blank.leading in
          let eq : resume_or_start c hooks h s ≡ attach_resumed c hooks rs s₂ =
            let first : resume_or_start c hooks h s
                ≡ attach_resumed c hooks rs (mark_leading h s₁) =
              ground (arith, e) in
            first ∙ ap (attach_resumed c hooks rs) m in
          let same = attach_resumed-same c hooks rs s₂ in
          subst (Started c hooks h) (sym eq) (
            inl record {
              parked = rs;
              asked =
                  asked_of (attach_resumed c hooks rs s₂) (some rs) same.tenant same.resume_calls e;
              named = same.session_id;
              tracks = λ name.
                  attach_resumed-tracks c hooks rs s₂ name
                  ∙ track_of-opened c (resumed_lookups hooks) (cursor_names h) rs s₂ name
                      blank.tracks blank.features refl;
            })
      | inl e ↦
          let id = Option.get_or hooks.on_allocate_id [] in
          let fresh = Option.get_or hooks.on_fresh_session [] in
          let s₁ : Session = record (log_resume hooks h s) { session_id = id } in
          let eq : resume_or_start c hooks h s ≡ attach_fresh c hooks fresh s₁ =
            let first : resume_or_start c hooks h s
                ≡ attach_fresh c hooks fresh (record (log_resume hooks h s) {
                  session_id = Option.get_or hooks.on_allocate_id s.session_id;
                }) =
              ground (arith, e) in
            first
            ∙ ap
                (λ u. attach_fresh c hooks fresh (record (log_resume hooks h s) {
                  session_id = Option.get_or hooks.on_allocate_id u;
                }))
                blank.unnamed in
          let same = attach_fresh-same c hooks fresh s₁ in
          subst (Started c hooks h) (sym eq) (
            inr record {
              declined =
                  asked_of (attach_fresh c hooks fresh s₁) none same.tenant same.resume_calls e;
              named = same.session_id;
              tracks = λ name.
                  attach_fresh-tracks c hooks fresh s₁ name
                  ∙ track_of-opened c (fresh_lookups hooks) [] fresh s₁ name blank.tracks
                      blank.features blank.leading;
            })
    ]
