-- ===== src/Session/Inbound/Caps.antt =====
-- How much a subscriber can make a session hold (session/session.go).
use quicrtc.Prelude.{
  ℕ, ◌+◌, ◌≤◌, ◌<◌, ◌≡◌, sym, ap, subst, List, Bool, true, false, not, ◌&&◌, ◌||◌, ltb, length,
  length-append, set, get_elem?, [], ◌∷◌, ◌++◌, Option, none, some, Text, All-set, All-get_elem?,
  arith, inl, inr, Bool-cases, Option-cases, List-cases,
}
use quicrtc.Pubsub.{AccessUnit}
use quicrtc.Session.Inbound.{inbound_buffer, InboundTrack, Inbound, no_inbound}
use quicrtc.Session.Streams.{deliver_unit, inbound_recv, Event, step, run}
use quicrtc.Session.Inbound.Bounded.{
  QueueFits, IsBounded, chan-IsBounded, accept-IsBounded, enter-IsBounded, unannounce-IsBounded,
  announce-IsBounded,
}

deliver-IsBounded :
    (calls : ℕ) (allowed ctx_done leave : Bool) (au : AccessUnit) (t : ℕ) (s : Inbound)
    → IsBounded calls s
    → IsBounded calls (deliver_unit allowed ctx_done leave au t s).0
unfolding deliver_unit
deliver-IsBounded calls allowed ctx_done leave au t s v =
    let r = deliver_unit allowed ctx_done leave au t s in
    elim (Bool-cases allowed) [
      | inr off ↦
          let eq : r ≡ (s, true) = ground (arith, off) in
          subst (λ q. IsBounded calls q.0) (sym eq) v
      | inl on ↦ elim (Option-cases (get_elem? s.tracks t)) [
        | inl nowhere ↦
            let eq : r ≡ (s, false) = ground (arith, on, nowhere) in
            subst (λ q. IsBounded calls q.0) (sym eq) v
        | inr (tr, here) ↦
            let returns = tr.done || ctx_done in
            let next : InboundTrack = record tr { queue = tr.queue ++ au ∷ [] } in
            elim (Bool-cases (ltb (length tr.queue) inbound_buffer && not (returns && leave))) [
              | inl sends ↦
                  let room : length tr.queue < inbound_buffer = ground (arith, sends) in
                  let eq : r ≡ (record s { tracks = set s.tracks t next }, true) =
                    ground (arith, on, here, sends) in
                  subst (λ q. IsBounded calls q.0) (sym eq)
                    record {
                      names = v.names;
                      queues =
                          All-set QueueFits s.tracks t next v.queues
                            (omega (arith, room, length-append tr.queue (au ∷ [])));
                    }
              | inr stays ↦ elim (Bool-cases returns) [
                | inl leaves ↦
                    let eq : r ≡ (s, false) = ground (arith, on, here, stays, leaves) in
                    subst (λ q. IsBounded calls q.0) (sym eq) v
                | inr drops ↦
                    let eq : r ≡ (record s { dropped = s.dropped ++ tr.name ∷ [] }, true) =
                      ground (arith, on, here, stays, drops) in
                    subst (λ q. IsBounded calls q.0) (sym eq)
                      record { names = v.names; queues = v.queues }
              ]
            ]
      ]
    ]

recv-IsBounded :
    (calls t : ℕ) (s : Inbound) → IsBounded calls s → IsBounded calls (inbound_recv t s).0
unfolding inbound_recv
recv-IsBounded calls t s v = elim (Option-cases (get_elem? s.tracks t)) [
  | inl e ↦ rw (inbound_recv, e) v
  | inr (tr, here) ↦ elim (List-cases tr.queue) [
    | inl empty ↦
        let eq : (inbound_recv t s).0 ≡ s = ground (arith, here, empty) in
        subst (IsBounded calls) (sym eq) v
    | inr (au, rest, some_left) ↦
        let next : InboundTrack = record tr { queue = rest } in
        let eq : (inbound_recv t s).0 ≡ record s { tracks = set s.tracks t next } =
          ground (arith, here, some_left) in
        let fits = All-get_elem? QueueFits s.tracks t tr v.queues here in
        subst (IsBounded calls) (sym eq) record {
          names = v.names;
          queues =
              All-set QueueFits s.tracks t next v.queues (omega (arith, fits, ap length some_left));
        }
  ]
]

-- The calls of InboundRecv for a name, which is where it makes a track.
abbrev pub recv_calls : List Event → ℕ
recv_calls [] = 0
recv_calls (Event.recv_called name ∷ es) = recv_calls es + 1
recv_calls (Event.announced a ∷ es) = recv_calls es
recv_calls (Event.unannounced u ∷ es) = recv_calls es
recv_calls (Event.stream_opened name ∷ es) = recv_calls es
recv_calls (Event.stream_entered i ∷ es) = recv_calls es
recv_calls (Event.unit_arrived a c l au i ∷ es) = recv_calls es
recv_calls (Event.recv_on t ∷ es) = recv_calls es

more : (calls calls' : ℕ) (s : Inbound) → calls ≤ calls' → IsBounded calls s → IsBounded calls' s
more calls calls' s h v = record { names = omega (arith, v.names); queues = v.queues }

step-IsBounded :
    (calls : ℕ) (on_announce : Option (Text → Text → Option Text)) (e : Event) (s : Inbound)
    → IsBounded calls s
    → IsBounded (calls + recv_calls (e ∷ [])) (step on_announce e s)
unfolding step
step-IsBounded calls on_announce (Event.recv_called name) s v = chan-IsBounded calls name s v
step-IsBounded calls on_announce (Event.announced a) s v =
    more calls _ _ (omega arith) (announce-IsBounded calls on_announce a s v)
step-IsBounded calls on_announce (Event.unannounced u) s v =
    more calls _ _ (omega arith) (unannounce-IsBounded calls u s v)
step-IsBounded calls on_announce (Event.stream_opened name) s v =
    more calls _ _ (omega arith) (accept-IsBounded calls _ name s v)
step-IsBounded calls on_announce (Event.stream_entered i) s v =
    more calls _ _ (omega arith) (enter-IsBounded calls i s v)
step-IsBounded calls on_announce (Event.recv_on t) s v =
    more calls _ _ (omega arith) (recv-IsBounded calls t s v)
step-IsBounded calls on_announce (Event.unit_arrived allowed ctx_done leave au i) s v =
    let e = Event.unit_arrived allowed ctx_done leave au i in
    more calls _ _ (omega arith) (elim (Option-cases (get_elem? s.streams i)) [
      | inl none_ ↦
          let eq : step on_announce e s ≡ s = ground (arith, none_) in
          subst (IsBounded calls) (sym eq) v
      | inr (none, over) ↦
          let eq : step on_announce e s ≡ s = ground (arith, over) in
          subst (IsBounded calls) (sym eq) v
      | inr (some t, open_) ↦
          let r = deliver_unit allowed ctx_done leave au t s in
          let w = deliver-IsBounded calls allowed ctx_done leave au t s v in
          elim (Bool-cases r.1) [
            | inl goes_on ↦
                let eq : step on_announce e s ≡ r.0 = ground (arith, open_, goes_on) in
                subst (IsBounded calls) (sym eq) w
            | inr returned ↦
                let eq : step on_announce e s ≡ record r.0 { streams = set r.0.streams i none } =
                  ground (arith, open_, returned) in
                subst (IsBounded calls) (sym eq) record { names = w.names; queues = w.queues }
          ]
    ])

recv_calls-cons :
    (e : Event) (es : List Event) → recv_calls (e ∷ es) ≡ recv_calls (e ∷ []) + recv_calls es
recv_calls-cons (Event.recv_called name) es = omega arith
recv_calls-cons (Event.announced a) es = omega arith
recv_calls-cons (Event.unannounced u) es = omega arith
recv_calls-cons (Event.stream_opened name) es = omega arith
recv_calls-cons (Event.stream_entered i) es = omega arith
recv_calls-cons (Event.unit_arrived a c l au i) es = omega arith
recv_calls-cons (Event.recv_on t) es = omega arith

run-bounded :
    (calls : ℕ) (on_announce : Option (Text → Text → Option Text)) (es : List Event) (s : Inbound)
    → IsBounded calls s
    → IsBounded (calls + recv_calls es) (run on_announce es s)
unfolding run
run-bounded calls on_announce [] s v = more calls (calls + 0) s (omega arith) v
run-bounded calls on_announce (e ∷ es) s v =
    let s' = step on_announce e s in
    let w =
      run-bounded (calls + recv_calls (e ∷ [])) on_announce es s'
        (step-IsBounded calls on_announce e s v) in
    more (calls + recv_calls (e ∷ []) + recv_calls es) _ (run on_announce es s')
      (omega (arith, recv_calls-cons e es)) w

-- Whatever a subscriber sends, in any interleaving, and with or without an OnAnnounce, a session has
-- names for at most 256 inbound tracks and one for each call of InboundRecv, and no track ever has
-- more than 64 units queued.
pub run-IsBounded :
    (on_announce : Option (Text → Text → Option Text)) (es : List Event)
    → IsBounded (recv_calls es) (run on_announce es no_inbound)
run-IsBounded on_announce es =
    let begin : IsBounded 0 no_inbound = record { names = omega arith; queues = tt } in
    more (0 + recv_calls es) _ (run on_announce es no_inbound) (omega arith)
      (run-bounded 0 on_announce es no_inbound begin)
