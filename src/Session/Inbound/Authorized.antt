-- ===== src/Session/Inbound/Authorized.antt =====
-- Which units an inbound track of session/session.go can hold.
use quicrtc.Prelude.{
  ℕ, ◌≡◌, ◌≢◌, refl, sym, ap, ◌∙◌, subst, ◌⊎◌, inl, inr, Bool, true, false, set, get_elem?, [], ◌∷◌,
  ◌++◌, Option, none, some, some-injective, Text, lookup, delete, All-delete, All-lookup,
  All-append, All-set, All-get_elem?, arith, Bool-cases, Option-cases,
}
use quicrtc.Wire.Hello.{Announce, Unannounce}
use quicrtc.Session.Inbound.{
  InboundTrack, Inbound, update_track, describe, tell, record_announce, handle_announce, finish,
  handle_unannounce, track_unauthorized, too_many_tracks, cap_reached,
}
use quicrtc.Session.Streams.{stream_authorized, accept_stream, enter_stream, Event}
use quicrtc.Session.Inbound.Places.{
  Keeps-set, IsNamed, Delivers, Opens, Guarded, IsInbound, replaced, Found,
  inbound_track_chan_wire-FoundWire,
}

-- A write to a track that keeps its name.
update_track-IsInbound :
    (Ok : Text → Type 0) (t : ℕ) (f : InboundTrack → InboundTrack) (s : Inbound)
    → IsInbound Ok s
    → ((tr : InboundTrack)
        → get_elem? s.tracks t ≡ some tr
        → ((f tr).name ≡ tr.name) × Guarded Ok (f tr))
    → IsInbound Ok (update_track t f s)
unfolding update_track
update_track-IsInbound Ok t f s v keep = elim (Option-cases (get_elem? s.tracks t)) [
  | inl e ↦ rw (update_track, e) v
  | inr (tr, e) ↦
      let k = keep tr e in
      let next =
        replaced Ok s (set s.tracks t (f tr)) v
          (All-set (Guarded Ok) s.tracks t (f tr) v.guarded k.1)
          (Keeps-set s.tracks t tr (f tr) e k.0) in
      let eq : update_track t f s ≡ record s { tracks = set s.tracks t (f tr) } =
        ground (arith, e) in
      subst (IsInbound Ok) (sym eq) next
]

-- The record of an announcement. If it authorizes, the name has to be in `Ok`.
record_announce-IsInbound :
    (Ok : Text → Type 0) (a : Announce) (authorized : Bool) (s : Inbound)
    → IsInbound Ok s
    → (authorized ≡ false) ⊎ Ok a.name
    → IsInbound Ok (record_announce a authorized s).0
unfolding record_announce
record_announce-IsInbound Ok a authorized s v fine =
    elim (inbound_track_chan_wire-FoundWire Ok a.name s v) [
      | inl e ↦
          let eq : record_announce a authorized s ≡ (s, false) = ground (arith, e) in
          subst (λ r. IsInbound Ok r.0) (sym eq) v
      | inr (s', t, e, found) ↦
          let eq : record_announce a authorized s
              ≡ (update_track t (describe a authorized) s', true) =
            ground (arith, e) in
          subst (λ r. IsInbound Ok r.0) (sym eq)
            (update_track-IsInbound Ok t (describe a authorized) s' found.state λ tr here.
              let (named, there, name) = found.place in
              let same : tr ≡ named = some-injective tr named (sym here ∙ there) in
              let is_named : tr.name ≡ a.name = ap (λ r. r.name) same ∙ name in
              (
                refl,
                elim fine [
                  | inr ok_ ↦ inr (subst Ok (sym is_named) ok_)
                  | inl off ↦
                      elim (All-get_elem? (Guarded Ok) s'.tracks t tr found.state.guarded here) [
                        | inl (empty, _) ↦ inl (empty, off)
                        | inr ok_ ↦ inr ok_
                      ]
                ],
              ))
    ]

tell-IsInbound :
    (Ok : Text → Type 0) (code reason : Text) (s : Inbound)
    → IsInbound Ok s
    → IsInbound Ok (tell code reason s)
unfolding tell
tell-IsInbound Ok code reason s v = record {
  guarded = v.guarded;
  named = v.named;
  opening = v.opening;
  streams = v.streams;
}

-- What the event is given leave for.
abbrev pub Grants : (Text → Type 0) → (Text → Text → Option Text) → Event → Type 0
Grants Ok validate (Event.announced a) = (validate a.name a.kind ≢ none) ⊎ Ok a.name
Grants Ok validate e = Unit

pub handle_announce-IsInbound :
    (Ok : Text → Type 0) (validate : Text → Text → Option Text) (a : Announce) (s : Inbound)
    → IsInbound Ok s
    → (validate a.name a.kind ≢ none) ⊎ Ok a.name
    → IsInbound Ok (handle_announce (some validate) a s)
unfolding handle_announce
handle_announce-IsInbound Ok validate a s v grant = elim (Option-cases (validate a.name a.kind)) [
  | inr (reason, e) ↦
      let refused =
        record_announce-IsInbound Ok a false (tell track_unauthorized reason s)
          (tell-IsInbound Ok track_unauthorized reason s v) (inl refl) in
      let same : handle_announce (some validate) a s
          ≡ (record_announce a false (tell track_unauthorized reason s)).0 =
        ground (arith, e) in
      subst (IsInbound Ok) (sym same) refused
  | inl e ↦
      let ok_ : Ok a.name = elim grant [ inl no_ ↦ absurd (no_ e) | inr fine ↦ fine ] in
      let r = record_announce a true s in
      let kept = record_announce-IsInbound Ok a true s v (inr ok_) in
      elim (Bool-cases r.1) [
        | inl found ↦
            let same : handle_announce (some validate) a s ≡ r.0 = ground (arith, e, found) in
            subst (IsInbound Ok) (sym same) kept
        | inr full ↦
            let same : handle_announce (some validate) a s ≡ tell too_many_tracks cap_reached r.0 =
              ground (arith, e, full) in
            subst (IsInbound Ok) (sym same) (tell-IsInbound Ok too_many_tracks cap_reached r.0 kept)
      ]
]

pub handle_unannounce-IsInbound :
    (Ok : Text → Type 0) (u : Unannounce) (s : Inbound)
    → IsInbound Ok s
    → IsInbound Ok (handle_unannounce u s)
unfolding handle_unannounce
handle_unannounce-IsInbound Ok u s v = elim (Option-cases (lookup u.name s.inbound_tracks)) [
  | inl e ↦
      let same : handle_unannounce u s ≡ s = ground (arith, e) in subst (IsInbound Ok) (sym same) v
  | inr (t, e) ↦
      let s₁ : Inbound = record s { inbound_tracks = delete u.name s.inbound_tracks } in
      let v₁ : IsInbound Ok s₁ = record {
        guarded = v.guarded;
        named = All-delete (IsNamed s.tracks) u.name s.inbound_tracks v.named;
        opening = v.opening;
        streams = v.streams;
      } in
      let same : handle_unannounce u s ≡ update_track t finish s₁ = ground (arith, e) in
      subst (IsInbound Ok) (sym same) (
        update_track-IsInbound Ok t finish s₁ v₁
          λ tr here. (refl, All-get_elem? (Guarded Ok) s.tracks t tr v.guarded here))
]

-- A name that passes the test at the stream's header has been approved.
stream_authorized-Ok :
    (Ok : Text → Type 0) (name : Text) (s : Inbound)
    → IsInbound Ok s
    → stream_authorized name s ≡ true
    → Ok name
unfolding stream_authorized
stream_authorized-Ok Ok name s v h = elim (Option-cases (lookup name s.inbound_tracks)) [
  | inl e ↦ absurd (ground (arith, e, h))
  | inr (t, e) ↦
      let (tr, here, is_named) = All-lookup (IsNamed s.tracks) name t s.inbound_tracks v.named e in
      let on : tr.authorized ≡ true = ground (arith, e, here, h) in
      elim (All-get_elem? (Guarded Ok) s.tracks t tr v.guarded here) [
        | inl (_, off) ↦ absurd (cc (on, off))
        | inr fine ↦ subst Ok is_named fine
      ]
]

pub accept_stream-IsInbound :
    (Ok : Text → Type 0) (name : Text) (s : Inbound)
    → IsInbound Ok s
    → IsInbound Ok (accept_stream true name s)
unfolding accept_stream
accept_stream-IsInbound Ok name s v = elim (Bool-cases (stream_authorized name s)) [
  | inr refused ↦
      let same : accept_stream true name s ≡ s = ground (arith, refused) in
      subst (IsInbound Ok) (sym same) v
  | inl fine ↦
      let same : accept_stream true name s ≡ record s { opening = s.opening ++ some name ∷ [] } =
        ground (arith, fine) in
      subst (IsInbound Ok) (sym same) record {
        guarded = v.guarded;
        named = v.named;
        opening =
            All-append (Opens Ok) s.opening (some name ∷ []) v.opening
              (inr (name, refl, stream_authorized-Ok Ok name s v fine), tt);
        streams = v.streams;
      }
]

-- The track of an approved name gets one more stream.
pub joined :
    (Ok : Text → Type 0) (name : Text) (s : Inbound) (t : ℕ)
    → Found Ok name s t
    → Ok name
    → IsInbound Ok (record s { streams = s.streams ++ some t ∷ [] })
joined Ok name s t found fine =
    let (tr, here, is_named) = found.place in
    record {
      guarded = found.state.guarded;
      named = found.state.named;
      opening = found.state.opening;
      streams =
          All-append (Delivers Ok s.tracks) s.streams (some t ∷ []) found.state.streams
            (inr (t, tr, refl, here, subst Ok (sym is_named) fine), tt);
    }

-- A stream for which the lock is taken again.
pub enter_stream-IsInbound :
    (Ok : Text → Type 0) (i : ℕ) (s : Inbound) → IsInbound Ok s → IsInbound Ok (enter_stream i s)
unfolding enter_stream
enter_stream-IsInbound Ok i s v = elim (Option-cases (get_elem? s.opening i)) [
  | inl nowhere ↦
      let same : enter_stream i s ≡ s = ground (arith, nowhere) in subst (IsInbound Ok) (sym same) v
  | inr (none, over) ↦
      let same : enter_stream i s ≡ s = ground (arith, over) in subst (IsInbound Ok) (sym same) v
  | inr (some name, opened) ↦
      let s₁ : Inbound = record s { opening = set s.opening i none } in
      let v₁ : IsInbound Ok s₁ = record {
        guarded = v.guarded;
        named = v.named;
        opening = All-set (Opens Ok) s.opening i none v.opening (inl refl);
        streams = v.streams;
      } in
      let fine : Ok name =
        elim (All-get_elem? (Opens Ok) s.opening i (some name) v.opening opened) [
          | inl gone ↦ absurd (cc gone)
          | inr (named, e, approved) ↦ subst Ok (sym (some-injective name named e)) approved
        ] in
      elim (inbound_track_chan_wire-FoundWire Ok name s₁ v₁) [
        | inl e ↦
            let same : enter_stream i s ≡ s₁ = ground (arith, opened, e) in
            subst (IsInbound Ok) (sym same) v₁
        | inr (s', t, e, found) ↦
            let same : enter_stream i s ≡ record s' { streams = s'.streams ++ some t ∷ [] } =
              ground (arith, opened, e) in
            subst (IsInbound Ok) (sym same) (joined Ok name s' t found fine)
      ]
]
