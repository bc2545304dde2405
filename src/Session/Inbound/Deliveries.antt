-- ===== src/Session/Inbound/Deliveries.antt =====
-- What the streams of session/session.go put into inbound tracks.
use quicrtc.Prelude.{
  ℕ, ◌≡◌, ◌≢◌, refl, sym, ap, ◌∙◌, subst, ◌⊎◌, inl, inr, List, Bool, true, false, not, ◌&&◌, ◌||◌,
  ltb, length, set, get_elem?, [], ◌∷◌, ◌++◌, Option, none, some, some-injective, Text, All,
  All-set, All-get_elem?, arith, Bool-cases, Option-cases, List-cases,
}
use quicrtc.Pubsub.{AccessUnit}
use quicrtc.Session.Inbound.{InboundTrack, Inbound, no_inbound, inbound_buffer}
use quicrtc.Session.Streams.{deliver_unit, inbound_recv, Event, step, run}
use quicrtc.Session.Inbound.Places.{
  Keeps-set, Delivers, Guarded, IsInbound, replaced, inbound_track_chan-Found,
}
use quicrtc.Session.Inbound.Authorized.{
  Grants, handle_announce-IsInbound, handle_unannounce-IsInbound, accept_stream-IsInbound,
  enter_stream-IsInbound,
}

-- A round of drainInboundStream on a track whose name has been approved.
deliver_unit-IsInbound :
    (Ok : Text → Type 0) (allowed ctx_done leave : Bool) (au : AccessUnit) (t : ℕ)
    (tr : InboundTrack) (s : Inbound)
    → IsInbound Ok s
    → get_elem? s.tracks t ≡ some tr
    → Ok tr.name
    → IsInbound Ok (deliver_unit allowed ctx_done leave au t s).0
unfolding deliver_unit
deliver_unit-IsInbound Ok allowed ctx_done leave au t tr s v here fine =
    let next : InboundTrack = record tr { queue = tr.queue ++ au ∷ [] } in
    let queued =
      replaced Ok s (set s.tracks t next) v
        (All-set (Guarded Ok) s.tracks t next v.guarded (inr fine))
        (Keeps-set s.tracks t tr next here refl) in
    let r = deliver_unit allowed ctx_done leave au t s in
    let returns = tr.done || ctx_done in
    elim (Bool-cases allowed) [
      | inr off ↦
          let same : r ≡ (s, true) = ground (arith, off) in
          subst (λ q. IsInbound Ok q.0) (sym same) v
      | inl on ↦
          elim (Bool-cases (ltb (length tr.queue) inbound_buffer && not (returns && leave))) [
            | inl sends ↦
                let same : r ≡ (record s { tracks = set s.tracks t next }, true) =
                  ground (arith, on, here, sends) in
                subst (λ q. IsInbound Ok q.0) (sym same) queued
            | inr stays ↦ elim (Bool-cases returns) [
              | inl leaves ↦
                  let same : r ≡ (s, false) = ground (arith, on, here, stays, leaves) in
                  subst (λ q. IsInbound Ok q.0) (sym same) v
              | inr drops ↦
                  let same : r ≡ (record s { dropped = s.dropped ++ tr.name ∷ [] }, true) =
                    ground (arith, on, here, stays, drops) in
                  subst (λ q. IsInbound Ok q.0) (sym same)
                    record {
                      guarded = v.guarded;
                      named = v.named;
                      opening = v.opening;
                      streams = v.streams;
                    }
            ]
          ]
    ]

inbound_recv-IsInbound :
    (Ok : Text → Type 0) (t : ℕ) (s : Inbound) → IsInbound Ok s → IsInbound Ok (inbound_recv t s).0
unfolding inbound_recv
inbound_recv-IsInbound Ok t s v = elim (Option-cases (get_elem? s.tracks t)) [
  | inl e ↦ rw (inbound_recv, e) v
  | inr (tr, here) ↦ elim (List-cases tr.queue) [
    | inl empty ↦
        let same : (inbound_recv t s).0 ≡ s = ground (arith, here, empty) in
        subst (IsInbound Ok) (sym same) v
    | inr (au, rest, some_left) ↦
        let next : InboundTrack = record tr { queue = rest } in
        let same : (inbound_recv t s).0 ≡ record s { tracks = set s.tracks t next } =
          ground (arith, here, some_left) in
        let guard : Guarded Ok next =
          elim (All-get_elem? (Guarded Ok) s.tracks t tr v.guarded here) [
            | inl (empty, _) ↦ absurd (cc (empty, some_left))
            | inr fine ↦ inr fine
          ] in
        subst (IsInbound Ok) (sym same) (
          replaced Ok s (set s.tracks t next) v
            (All-set (Guarded Ok) s.tracks t next v.guarded guard)
            (Keeps-set s.tracks t tr next here refl))
  ]
]

-- A unit that arrives on a stream.
arrived-IsInbound :
    (Ok : Text → Type 0) (validate : Text → Text → Option Text) (allowed ctx_done leave : Bool)
    (au : AccessUnit) (i : ℕ) (s : Inbound)
    → IsInbound Ok s
    → IsInbound Ok (step (some validate) (Event.unit_arrived allowed ctx_done leave au i) s)
unfolding step
arrived-IsInbound Ok validate allowed ctx_done leave au i s v =
    let e = Event.unit_arrived allowed ctx_done leave au i in
    elim (Option-cases (get_elem? s.streams i)) [
      | inl none_ ↦
          let same : step (some validate) e s ≡ s = ground (arith, none_) in
          subst (IsInbound Ok) (sym same) v
      | inr (none, over) ↦
          let same : step (some validate) e s ≡ s = ground (arith, over) in
          subst (IsInbound Ok) (sym same) v
      | inr (some t, open_) ↦
          elim (All-get_elem? (Delivers Ok s.tracks) s.streams i (some t) v.streams open_) [
            | inl gone ↦ absurd (cc gone)
            | inr (k, tr, at, here, fine) ↦
                let place : get_elem? s.tracks t ≡ some tr =
                  ap (get_elem? s.tracks) (some-injective t k at) ∙ here in
                let r = deliver_unit allowed ctx_done leave au t s in
                let kept =
                  deliver_unit-IsInbound Ok allowed ctx_done leave au t tr s v place fine in
                elim (Bool-cases r.1) [
                  | inl goes_on ↦
                      let same : step (some validate) e s ≡ r.0 = ground (arith, open_, goes_on) in
                      subst (IsInbound Ok) (sym same) kept
                  | inr returned ↦
                      let same : step (some validate) e s
                          ≡ record r.0 { streams = set r.0.streams i none } =
                        ground (arith, open_, returned) in
                      subst (IsInbound Ok) (sym same) record {
                        guarded = kept.guarded;
                        named = kept.named;
                        opening = kept.opening;
                        streams =
                            All-set (Delivers Ok r.0.tracks) r.0.streams i none kept.streams
                              (inl refl);
                      }
                ]
          ]
    ]

step-IsInbound :
    (Ok : Text → Type 0) (validate : Text → Text → Option Text) (e : Event) (s : Inbound)
    → IsInbound Ok s
    → Grants Ok validate e
    → IsInbound Ok (step (some validate) e s)
unfolding step
step-IsInbound Ok validate (Event.announced a) s v g = handle_announce-IsInbound Ok validate a s v g
step-IsInbound Ok validate (Event.unannounced u) s v g = handle_unannounce-IsInbound Ok u s v
step-IsInbound Ok validate (Event.stream_opened name) s v g = accept_stream-IsInbound Ok name s v
step-IsInbound Ok validate (Event.stream_entered i) s v g = enter_stream-IsInbound Ok i s v
step-IsInbound Ok validate (Event.unit_arrived a c l au i) s v g =
    arrived-IsInbound Ok validate a c l au i s v
step-IsInbound Ok validate (Event.recv_called name) s v g =
    (inbound_track_chan-Found Ok name s v).state
step-IsInbound Ok validate (Event.recv_on t) s v g = inbound_recv-IsInbound Ok t s v

run-IsInbound :
    (Ok : Text → Type 0) (validate : Text → Text → Option Text) (es : List Event) (s : Inbound)
    → IsInbound Ok s
    → All (Grants Ok validate) es
    → IsInbound Ok (run (some validate) es s)
unfolding run
run-IsInbound Ok validate [] s v g = v
run-IsInbound Ok validate (e ∷ es) s v g =
    run-IsInbound Ok validate es (step (some validate) e s) (step-IsInbound Ok validate e s v g.0)
      g.1

-- The name is that of an announcement that OnAnnounce accepted.
abbrev pub Approved : (Text → Text → Option Text) → List Event → Text → Type 0
Approved validate [] name = ⊥
Approved validate (Event.announced a ∷ es) name =
    ((a.name ≡ name) × (validate a.name a.kind ≡ none)) ⊎ Approved validate es name
Approved validate (Event.unannounced u ∷ es) name = Approved validate es name
Approved validate (Event.stream_opened n ∷ es) name = Approved validate es name
Approved validate (Event.stream_entered i ∷ es) name = Approved validate es name
Approved validate (Event.unit_arrived a c l au i ∷ es) name = Approved validate es name
Approved validate (Event.recv_called n ∷ es) name = Approved validate es name
Approved validate (Event.recv_on t ∷ es) name = Approved validate es name

granted :
    (Ok : Text → Type 0) (validate : Text → Text → Option Text) (es : List Event)
    → ((name : Text) → Approved validate es name → Ok name)
    → All (Grants Ok validate) es
granted Ok validate [] f = tt
granted Ok validate (Event.announced a ∷ es) f =
    let this : (validate a.name a.kind ≢ none) ⊎ Ok a.name =
      elim (Option-cases (validate a.name a.kind)) [
        | inl accepted ↦ inr (f a.name (inl (refl, accepted)))
        | inr (reason, refused) ↦ inl (λ e. absurd (cc (e, refused)))
      ] in
    (this, granted Ok validate es (λ name p. f name (inr p)))
granted Ok validate (Event.unannounced u ∷ es) f = (tt, granted Ok validate es f)
granted Ok validate (Event.stream_opened n ∷ es) f = (tt, granted Ok validate es f)
granted Ok validate (Event.stream_entered i ∷ es) f = (tt, granted Ok validate es f)
granted Ok validate (Event.unit_arrived a c l au i ∷ es) f = (tt, granted Ok validate es f)
granted Ok validate (Event.recv_called n ∷ es) f = (tt, granted Ok validate es f)
granted Ok validate (Event.recv_on t ∷ es) f = (tt, granted Ok validate es f)

-- With an OnAnnounce, no unit is ever queued on an inbound track unless OnAnnounce has accepted an
-- announcement of the track's name, in any interleaving of announcements, streams, units and calls
-- of InboundRecv, whatever the rate limiter and the selects decide, although a stream takes the lock
-- twice, for the test and for its track, and keeps the track when that is unannounced.
pub run-Approved :
    (validate : Text → Text → Option Text) (es : List Event) (t : ℕ) (tr : InboundTrack)
    → get_elem? (run (some validate) es no_inbound).tracks t ≡ some tr
    → (tr.queue ≡ []) ⊎ Approved validate es tr.name
run-Approved validate es t tr here =
    let Ok = Approved validate es in
    let begin : IsInbound Ok no_inbound = record {
      guarded = tt;
      named = tt;
      opening = tt;
      streams = tt;
    } in
    let v = run-IsInbound Ok validate es no_inbound begin (granted Ok validate es (λ name p. p)) in
    elim (All-get_elem? (Guarded Ok) (run (some validate) es no_inbound).tracks t tr v.guarded
      here) [ inl (empty, _) ↦ inl empty | inr fine ↦ inr fine ]
