-- ===== src/Session/Handshake/Stamps.antt =====
-- The publish-wall stamps of the tracks that a handshake of session/session.go attaches.
use mathlib.Core.Option
use quicrtc.Prelude.{
  ℕ, ◌≡◌, sym, ap, ◌∙◌, inl, inr, List, Bool, true, Option, none, some, some-injective, [], Text,
  lookup, Sink, lookup-insert,
}
use quicrtc.Session.{
  Config, Hooks, TrackPump, Session, new_session, track_pump, attach_track_with_kind,
  has_negotiated_feature, feature_kind_stats,
}
use quicrtc.Session.Attach.{attach_track_with_kind-Attached}
use quicrtc.Session.Handshake.{Json, handshake}
use quicrtc.Session.Handshake.Tracks.{Lookups, resumed_lookups, fresh_lookups}
use quicrtc.Session.Handshake.Opened.{opened_pump, cursor_names}
use quicrtc.Session.Handshake.Success.{handshake-Served}

-- Such a pump stamps only if the session's own configuration says so.
opened_pump-stamp :
    (c : Config) (l : Lookups) (leading : List Text) (name : Text) (o : Option ℕ) (tp : TrackPump)
    → Option.map (opened_pump c l leading name) o ≡ some tp
    → tp.stamp_publish_wall ≡ c.feed_config.stamp_publish_wall
opened_pump-stamp c l leading name none tp h = absurd (cc h)
opened_pump-stamp c l leading name (some r) tp h = sym (
    ap (λ (q : TrackPump). q.stamp_publish_wall)
      (some-injective (opened_pump c l leading name r) tp h))

late_pump-stamp :
    (c : Config) (s : Session) (name kind : Text) (recv priority track_id : ℕ)
    → has_negotiated_feature s feature_kind_stats ≡ true
    → (track_pump c s name kind recv priority track_id).stamp_publish_wall ≡ true
unfolding track_pump
late_pump-stamp c s name kind recv priority track_id h = rw h

-- Even if "kind-stats" was agreed on in a handshake that succeeded, no track that the handshake
-- attached gets the publish-wall stamp by that: its pump has the flag of the session's
-- configuration. A track that is attached afterwards does get it.
pub handshake-stamps :
    (c : Config) (hooks : Hooks) (json : Json) (deadline_set : Bool) (input : List ℕ) (ctl : Sink)
    (name : Text) (tp : TrackPump) (late kind : Text) (recv priority track_id : ℕ)
    → let r = handshake c hooks json deadline_set input (new_session ctl) in
      r.1 ≡ none
      → has_negotiated_feature r.0 feature_kind_stats ≡ true
      → lookup name r.0.tracks ≡ some tp
      → lookup late r.0.tracks ≡ none
      → (tp.stamp_publish_wall ≡ c.feed_config.stamp_publish_wall)
        × ((new : TrackPump) × (lookup late
                (attach_track_with_kind c late kind recv priority track_id r.0).tracks
              ≡ some new)
            × (new.stamp_publish_wall ≡ true))
handshake-stamps c hooks json deadline_set input ctl name tp late kind recv priority track_id fine
      agreed there absent =
    let r = handshake c hooks json deadline_set input (new_session ctl) in
    let new = track_pump c r.0 late kind recv priority track_id in
    let old : tp.stamp_publish_wall ≡ c.feed_config.stamp_publish_wall =
      elim (handshake-Served c hooks json deadline_set input ctl) [
        | inl (e, bad) ↦ absurd (cc (bad, fine))
        | inr (h, payload, rest, framed, parsed, ok_, accepted, served) ↦ elim served.started [
          | inl m ↦
              opened_pump-stamp c (resumed_lookups hooks) (cursor_names h) name
                (lookup name m.parked) tp (sym (m.tracks name) ∙ there)
          | inr f ↦
              opened_pump-stamp c (fresh_lookups hooks) [] name
                (lookup name (Option.get_or hooks.on_fresh_session [])) tp
                (sym (f.tracks name) ∙ there)
        ]
      ] in
    let attached : lookup late
          (attach_track_with_kind c late kind recv priority track_id r.0).tracks
        ≡ some new =
      elim (attach_track_with_kind-Attached c late kind recv priority track_id r.0).here [
        | inl (q, found, _) ↦ absurd (cc (found, absent))
        | inr (_, tracks, _) ↦ ap (lookup late) tracks ∙ lookup-insert late new r.0.tracks
      ] in
    (old, (new, attached, late_pump-stamp c r.0 late kind recv priority track_id agreed))
