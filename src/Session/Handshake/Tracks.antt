-- ===== src/Session/Handshake/Tracks.antt =====
-- What the handshake of session/session.go attaches.
use mathlib.Core.Option
use quicrtc.Prelude.{
  ℕ, ◌≡◌, ◌≢◌, refl, sym, ap, ◌∙◌, inl, inr, List, true, false, [], ◌∷◌, Option, none, some, Text,
  same_text, same_text→eq, same_text_refl, lookup, insert, lookup-insert, lookup-insert_other,
  Bool-cases, Option-cases,
}
use quicrtc.Session.{
  Config, Hooks, TrackPump, Session, has_negotiated_feature, track_pump, attach_track_with_kind,
  attach_track_with_track_id, attach_track_with_priority, attach_track, looked_up_kind,
}
use quicrtc.Session.Attach.{SameSession, Attached, attach_track_with_kind-Attached}
use quicrtc.Session.Handshake.{attach_resumed, attach_fresh, looked_up}

-- How a track is attached: its kind, priority and id by its name.
pub record Lookups : Type 0 where
  pub kind : Text → Text
  pub priority : Text → ℕ
  pub track_id : Text → ℕ

abbrev pub resumed_lookups : Hooks → Lookups
resumed_lookups h = record { kind = looked_up_kind h; priority = λ name. 4; track_id = λ name. 0 }

abbrev pub fresh_lookups : Hooks → Lookups
fresh_lookups h = record {
  kind = looked_up_kind h;
  priority = looked_up h.on_lookup_priority 4;
  track_id = looked_up h.on_lookup_track_id 0;
}

-- The loop that both are.
attach_each : Config → Lookups → List (Text × ℕ) → Session → Session
attach_each c l [] s = s
attach_each c l ((name, r) ∷ rs) s =
    attach_each c l rs
      (attach_track_with_kind c name (l.kind name) r (l.priority name) (l.track_id name) s)

attach_resumed-each :
    (c : Config) (h : Hooks) (rs : List (Text × ℕ)) (s : Session)
    → attach_resumed c h rs s ≡ attach_each c (resumed_lookups h) rs s
unfolding attach_resumed attach_each attach_track attach_track_with_priority
    attach_track_with_track_id
attach_resumed-each c h [] s = refl
attach_resumed-each c h ((name, r) ∷ rs) s = attach_resumed-each c h rs _

attach_fresh-each :
    (c : Config) (h : Hooks) (rs : List (Text × ℕ)) (s : Session)
    → attach_fresh c h rs s ≡ attach_each c (fresh_lookups h) rs s
unfolding attach_fresh attach_each
attach_fresh-each c h [] s = refl
attach_fresh-each c h ((name, r) ∷ rs) s = attach_fresh-each c h rs _

-- The pump of a track that is attached to this session.
abbrev pub pump_for : Config → Lookups → Session → Text → ℕ → TrackPump
pump_for c l s name r = track_pump c s name (l.kind name) r (l.priority name) (l.track_id name)

-- The track of a name: the one that is there already, or else one for its receiver.
abbrev pub track_of : Config → Lookups → List (Text × ℕ) → Session → Text → Option TrackPump
track_of c l rs s name = elim (lookup name s.tracks) [
  | some tp ↦ some tp
  | none ↦ Option.map (pump_for c l s name) (lookup name rs)
]

track_pump-same :
    (c : Config) (l : Lookups) (s s' : Session) (name : Text) (r : ℕ)
    → SameSession s s'
    → pump_for c l s' name r ≡ pump_for c l s name r
unfolding track_pump has_negotiated_feature
track_pump-same c l s s' name r e = rw (e.leading, e.features)

-- The tracks of a list of receivers, where the name has none yet.
abbrev new_track : Config → Lookups → List (Text × ℕ) → Session → Text → Option TrackPump
new_track c l rs s name = Option.map (pump_for c l s name) (lookup name rs)

track_of-none :
    (c : Config) (l : Lookups) (rs : List (Text × ℕ)) (s : Session) (name : Text)
    → lookup name s.tracks ≡ none
    → track_of c l rs s name ≡ new_track c l rs s name
track_of-none c l rs s name e = rw (track_of, e)

track_of-some :
    (c : Config) (l : Lookups) (rs : List (Text × ℕ)) (s : Session) (name : Text) (tp : TrackPump)
    → lookup name s.tracks ≡ some tp
    → track_of c l rs s name ≡ some tp
track_of-some c l rs s name tp e = rw (track_of, e)

lookup-skip :
    (n name : Text) (r : ℕ) (rs : List (Text × ℕ))
    → same_text n name ≡ false
    → lookup name ((n, r) ∷ rs) ≡ lookup name rs
unfolding lookup
lookup-skip n name r rs e = rw e

lookup-head :
    (n name : Text) (r : ℕ) (rs : List (Text × ℕ))
    → same_text n name ≡ true
    → lookup name ((n, r) ∷ rs) ≡ some r
unfolding lookup
lookup-head n name r rs e = rw e

same_pumps :
    (c : Config) (l : Lookups) (s s' : Session) (name : Text)
    → SameSession s s'
    → (o : Option ℕ) → Option.map (pump_for c l s' name) o ≡ Option.map (pump_for c l s name) o
same_pumps c l s s' name same none = refl
same_pumps c l s s' name same (some r) = ap some (track_pump-same c l s s' name r same)

-- A receiver for another name says nothing of this one.
track_of-skip :
    (c : Config) (l : Lookups) (n name : Text) (r : ℕ) (rs : List (Text × ℕ)) (s s' : Session)
    → same_text n name ≡ false
    → SameSession s s'
    → lookup name s'.tracks ≡ lookup name s.tracks
    → track_of c l rs s' name ≡ track_of c l ((n, r) ∷ rs) s name
track_of-skip c l n name r rs s s' differs same e =
    let skip = lookup-skip n name r rs differs in
    elim (Option-cases (lookup name s.tracks)) [
      | inr (tp, there) ↦
          track_of-some c l rs s' name tp (e ∙ there)
          ∙ sym (track_of-some c l ((n, r) ∷ rs) s name tp there)
      | inl absent ↦
          track_of-none c l rs s' name (e ∙ absent)
          ∙ same_pumps c l s s' name same (lookup name rs)
          ∙ ap (Option.map (pump_for c l s name)) (sym skip)
          ∙ sym (track_of-none c l ((n, r) ∷ rs) s name absent)
    ]

attach_step :
    (c : Config) (l : Lookups) (n name : Text) (r : ℕ) (rs : List (Text × ℕ)) (s s' : Session)
    → Attached n (pump_for c l s n r) s s'
    → track_of c l rs s' name ≡ track_of c l ((n, r) ∷ rs) s name
attach_step c l n name r rs s s' a = elim (Bool-cases (same_text n name)) [
  | inr differs ↦ elim a.here [
    | inl (old, there, unchanged) ↦
        track_of-skip c l n name r rs s s' differs a.same (ap (λ t. lookup name t.tracks) unchanged)
    | inr (absent, tracks, _) ↦
        let apart : n ≢ name =
          λ e. absurd (cc (differs, ap (λ t. same_text t name) e, same_text_refl name)) in
        track_of-skip c l n name r rs s s' differs a.same
          (ap (lookup name) tracks ∙ lookup-insert_other n name (pump_for c l s n r) s.tracks apart)
  ]
  | inl same ↦
      let e : n ≡ name = same_text→eq n name same in
      elim a.here [
        | inl (old, there, unchanged) ↦
            let here : lookup name s.tracks ≡ some old =
              ap (λ t. lookup t s.tracks) (sym e) ∙ there in
            track_of-some c l rs s' name old (ap (λ t. lookup name t.tracks) unchanged ∙ here)
            ∙ sym (track_of-some c l ((n, r) ∷ rs) s name old here)
        | inr (absent, tracks, _) ↦
            let tp = pump_for c l s n r in
            let found : lookup name s'.tracks ≡ some tp =
              ap (lookup name) tracks
              ∙ ap (λ t. lookup t (insert n tp s.tracks)) (sym e)
              ∙ lookup-insert n tp s.tracks in
            let gone : lookup name s.tracks ≡ none = ap (λ t. lookup t s.tracks) (sym e) ∙ absent in
            track_of-some c l rs s' name tp found
            ∙ ap (λ t. some (pump_for c l s t r)) e
            ∙ sym (
                track_of-none c l ((n, r) ∷ rs) s name gone
                ∙ ap (Option.map (pump_for c l s name)) (lookup-head n name r rs same))
      ]
]

attach_each_lem :
    (c : Config) (l : Lookups) (rs : List (Text × ℕ)) (s : Session) (name : Text)
    → lookup name (attach_each c l rs s).tracks ≡ track_of c l rs s name
unfolding attach_each lookup
attach_each_lem c l [] s name = elim (Option-cases (lookup name s.tracks)) [
  | inl e ↦ e ∙ sym (track_of-none c l [] s name e)
  | inr (tp, e) ↦ e ∙ sym (track_of-some c l [] s name tp e)
]
attach_each_lem c l ((n, r) ∷ rs) s name =
    let s' = attach_track_with_kind c n (l.kind n) r (l.priority n) (l.track_id n) s in
    let a = attach_track_with_kind-Attached c n (l.kind n) r (l.priority n) (l.track_id n) s in
    attach_each_lem c l rs s' name ∙ attach_step c l n name r rs s s' a

pub attach_resumed-tracks :
    (c : Config) (h : Hooks) (rs : List (Text × ℕ)) (s : Session) (name : Text)
    → lookup name (attach_resumed c h rs s).tracks ≡ track_of c (resumed_lookups h) rs s name
attach_resumed-tracks c h rs s name =
    ap (λ t. lookup name t.tracks) (attach_resumed-each c h rs s)
    ∙ attach_each_lem c (resumed_lookups h) rs s name

pub attach_fresh-tracks :
    (c : Config) (h : Hooks) (rs : List (Text × ℕ)) (s : Session) (name : Text)
    → lookup name (attach_fresh c h rs s).tracks ≡ track_of c (fresh_lookups h) rs s name
attach_fresh-tracks c h rs s name =
    ap (λ t. lookup name t.tracks) (attach_fresh-each c h rs s)
    ∙ attach_each_lem c (fresh_lookups h) rs s name
