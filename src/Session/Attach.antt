-- ===== src/Session/Attach.antt =====
-- Attaching and detaching tracks: session/session.go.
use quicrtc.Prelude.{
  ℕ, ◌≡◌, refl, sym, ◌∙◌, subst, ◌⊎◌, inl, inr, if◌then◌else◌, [], ◌∷◌, ◌++◌, none, some, Text,
  lookup, insert, arith, Option-cases,
}
use quicrtc.Session.{Config, TrackPump, Session, track_pump, attach_track_with_kind}

-- The fields that attaching leaves alone.
pub record SameSession (s s' : Session) : Type 0 where
  pub session_id : s'.session_id ≡ s.session_id
  pub features : s'.negotiated_features ≡ s.negotiated_features
  pub version : s'.negotiated_version ≡ s.negotiated_version
  pub tenant : s'.tenant ≡ s.tenant
  pub hello_session_id : s'.hello_session_id ≡ s.hello_session_id
  pub cursors : s'.hello_last_seen_seq ≡ s.hello_last_seen_seq
  pub ctl : s'.ctl ≡ s.ctl
  pub leading : s'.resumed_leading ≡ s.resumed_leading
  pub started : s'.run_started ≡ s.run_started
  pub stopped : s'.stopped ≡ s.stopped
  pub resume_calls : s'.resume_calls ≡ s.resume_calls

pub SameSession-refl : (s : Session) → SameSession s s
SameSession-refl s = record {
  session_id = refl;
  features = refl;
  version = refl;
  tenant = refl;
  hello_session_id = refl;
  cursors = refl;
  ctl = refl;
  leading = refl;
  started = refl;
  stopped = refl;
  resume_calls = refl;
}

pub SameSession-trans : (a b c : Session) → SameSession a b → SameSession b c → SameSession a c
SameSession-trans a b c p q = record {
  session_id = q.session_id ∙ p.session_id;
  features = q.features ∙ p.features;
  version = q.version ∙ p.version;
  tenant = q.tenant ∙ p.tenant;
  hello_session_id = q.hello_session_id ∙ p.hello_session_id;
  cursors = q.cursors ∙ p.cursors;
  ctl = q.ctl ∙ p.ctl;
  leading = q.leading ∙ p.leading;
  started = q.started ∙ p.started;
  stopped = q.stopped ∙ p.stopped;
  resume_calls = q.resume_calls ∙ p.resume_calls;
}

-- A name that is attached stays as it is, and any other gets the pump.
pub record Attached (name : Text) (tp : TrackPump) (s s' : Session) : Type 0 where
  pub same : SameSession s s'
  pub here :
      ((old : TrackPump) × (lookup name s.tracks ≡ some old) × (s' ≡ s))
      ⊎ ((lookup name s.tracks ≡ none)
          × (s'.tracks ≡ insert name tp s.tracks)
          × (s'.spawned ≡ (if s.run_started then s.spawned ++ tp ∷ [] else s.spawned)))

pub attach_track_with_kind-Attached :
    (c : Config) (name kind : Text) (recv priority track_id : ℕ) (s : Session)
    → Attached name
        (track_pump c s name kind recv priority track_id)
        s
        (attach_track_with_kind c name kind recv priority track_id s)
unfolding attach_track_with_kind
attach_track_with_kind-Attached c name kind recv priority track_id s =
    let tp = track_pump c s name kind recv priority track_id in
    elim (Option-cases (lookup name s.tracks)) [
      | inr (old, e) ↦
          let eq : attach_track_with_kind c name kind recv priority track_id s ≡ s =
            ground (arith, e) in
          subst (Attached name tp s) (sym eq)
            record { same = SameSession-refl s; here = inl (old, e, refl) }
      | inl e ↦
          let s' : Session = record s {
            tracks = insert name tp s.tracks;
            spawned = if s.run_started then s.spawned ++ tp ∷ [] else s.spawned;
          } in
          let eq : attach_track_with_kind c name kind recv priority track_id s ≡ s' =
            ground (arith, e) in
          subst (Attached name tp s) (sym eq) record {
            same = record {
              session_id = refl;
              features = refl;
              version = refl;
              tenant = refl;
              hello_session_id = refl;
              cursors = refl;
              ctl = refl;
              leading = refl;
              started = refl;
              stopped = refl;
              resume_calls = refl;
            };
            here = inr (e, refl, refl);
          }
    ]
