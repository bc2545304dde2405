-- ===== src/Session/Inbound/Bounded.antt =====
-- How much a subscriber can make a session hold (session/session.go).
use quicrtc.Prelude.{
  ℕ, ◌+◌, ◌≤◌, ◌<◌, ◌≡◌, sym, subst, Bool, true, false, not, ◌&&◌, leb, length, set, get_elem?, [],
  ◌∷◌, ◌++◌, Option, none, some, Text, lookup, delete, length-insert_le, length-delete_le, All,
  All-append, All-set, All-get_elem?, arith, inl, inr, Bool-cases, Option-cases,
}
use quicrtc.Wire.Hello.{Announce, Unannounce}
use quicrtc.Session.Inbound.{
  max_inbound_tracks, inbound_buffer, InboundTrack, Inbound, new_track, add_track,
  inbound_track_chan, inbound_track_chan_wire, update_track, describe, tell, record_announce,
  handle_announce, finish, handle_unannounce, track_unauthorized, too_many_tracks, cap_reached,
}
use quicrtc.Session.Streams.{accept_stream, enter_stream, stream_authorized}

abbrev pub QueueFits : InboundTrack → Type 0
QueueFits tr = length tr.queue ≤ inbound_buffer

-- `calls` counts the calls of InboundRecv, which make tracks past the cap.
pub record IsBounded (calls : ℕ) (s : Inbound) : Type 0 where
  pub names : length s.inbound_tracks ≤ max_inbound_tracks + calls
  pub queues : All QueueFits s.tracks

add_track-queues :
    (name : Text) (s : Inbound) → All QueueFits s.tracks → All QueueFits (add_track name s).tracks
unfolding add_track
add_track-queues name s q = All-append QueueFits s.tracks (new_track name ∷ []) q (omega arith, tt)

add_track-names :
    (name : Text) (s : Inbound)
    → length (add_track name s).inbound_tracks ≤ length s.inbound_tracks + 1
unfolding add_track
add_track-names name s = length-insert_le name (length s.tracks) s.inbound_tracks

pub chan-IsBounded :
    (calls : ℕ) (name : Text) (s : Inbound)
    → IsBounded calls s
    → IsBounded (calls + 1) (inbound_track_chan name s).0
unfolding inbound_track_chan
chan-IsBounded calls name s v = elim (Option-cases (lookup name s.inbound_tracks)) [
  | inr (t, e) ↦
      rw (inbound_track_chan, e) record { names = omega (arith, v.names); queues = v.queues }
  | inl e ↦
      rw (inbound_track_chan, e)
        record {
          names = omega (arith, v.names, add_track-names name s);
          queues = add_track-queues name s v.queues;
        }
]

wire-IsBounded :
    (calls : ℕ) (name : Text) (s : Inbound)
    → IsBounded calls s
    → IsBounded calls (inbound_track_chan_wire name s).0
unfolding inbound_track_chan_wire
wire-IsBounded calls name s v = elim (Option-cases (lookup name s.inbound_tracks)) [
  | inr (t, e) ↦ rw (inbound_track_chan_wire, e) v
  | inl e ↦ elim (Bool-cases (leb max_inbound_tracks (length s.inbound_tracks))) [
    | inl full ↦ rw (inbound_track_chan_wire, e, full) v
    | inr room ↦
        let small : length s.inbound_tracks < max_inbound_tracks = ground (arith, room) in
        rw (inbound_track_chan_wire, e, room)
          record {
            names = omega (arith, small, add_track-names name s);
            queues = add_track-queues name s v.queues;
          }
  ]
]

update-IsBounded :
    (calls t : ℕ) (f : InboundTrack → InboundTrack) (s : Inbound)
    → IsBounded calls s
    → ((tr : InboundTrack) → QueueFits tr → QueueFits (f tr))
    → IsBounded calls (update_track t f s)
unfolding update_track
update-IsBounded calls t f s v keep = elim (Option-cases (get_elem? s.tracks t)) [
  | inl e ↦ rw (update_track, e) v
  | inr (tr, e) ↦
      let eq : update_track t f s ≡ record s { tracks = set s.tracks t (f tr) } =
        ground (arith, e) in
      subst (IsBounded calls) (sym eq) record {
        names = v.names;
        queues =
            All-set QueueFits s.tracks t (f tr) v.queues
              (keep tr (All-get_elem? QueueFits s.tracks t tr v.queues e));
      }
]

record_announce-IsBounded :
    (calls : ℕ) (a : Announce) (authorized : Bool) (s : Inbound)
    → IsBounded calls s
    → IsBounded calls (record_announce a authorized s).0
unfolding record_announce
record_announce-IsBounded calls a authorized s v =
    let s' = (inbound_track_chan_wire a.name s).0 in
    let w = wire-IsBounded calls a.name s v in
    elim (Option-cases (inbound_track_chan_wire a.name s).1) [
      | inl e ↦
          let eq : record_announce a authorized s ≡ (s', false) = ground (arith, e) in
          subst (λ r. IsBounded calls r.0) (sym eq) w
      | inr (t, e) ↦
          let eq : record_announce a authorized s
              ≡ (update_track t (describe a authorized) s', true) =
            ground (arith, e) in
          subst (λ r. IsBounded calls r.0) (sym eq)
            (update-IsBounded calls t (describe a authorized) s' w (λ tr q. q))
    ]

tell-IsBounded :
    (calls : ℕ) (code reason : Text) (s : Inbound)
    → IsBounded calls s
    → IsBounded calls (tell code reason s)
unfolding tell
tell-IsBounded calls code reason s v = record { names = v.names; queues = v.queues }

pub accept-IsBounded :
    (calls : ℕ) (gated : Bool) (name : Text) (s : Inbound)
    → IsBounded calls s
    → IsBounded calls (accept_stream gated name s)
unfolding accept_stream
accept-IsBounded calls gated name s v =
    elim (Bool-cases (gated && not (stream_authorized name s))) [
      | inl refused ↦
          let eq : accept_stream gated name s ≡ s = ground (arith, refused) in
          subst (IsBounded calls) (sym eq) v
      | inr fine ↦
          let eq : accept_stream gated name s ≡ record s { opening = s.opening ++ some name ∷ [] } =
            ground (arith, fine) in
          subst (IsBounded calls) (sym eq) record { names = v.names; queues = v.queues }
    ]

pub enter-IsBounded :
    (calls i : ℕ) (s : Inbound) → IsBounded calls s → IsBounded calls (enter_stream i s)
unfolding enter_stream
enter-IsBounded calls i s v = elim (Option-cases (get_elem? s.opening i)) [
  | inl nowhere ↦
      let eq : enter_stream i s ≡ s = ground (arith, nowhere) in subst (IsBounded calls) (sym eq) v
  | inr (none, over) ↦
      let eq : enter_stream i s ≡ s = ground (arith, over) in subst (IsBounded calls) (sym eq) v
  | inr (some name, opened) ↦
      let s₁ : Inbound = record s { opening = set s.opening i none } in
      let s' = (inbound_track_chan_wire name s₁).0 in
      let w = wire-IsBounded calls name s₁ record { names = v.names; queues = v.queues } in
      elim (Option-cases (inbound_track_chan_wire name s₁).1) [
        | inl e ↦
            let eq : enter_stream i s ≡ s' = ground (arith, opened, e) in
            subst (IsBounded calls) (sym eq) w
        | inr (t, e) ↦
            let eq : enter_stream i s ≡ record s' { streams = s'.streams ++ some t ∷ [] } =
              ground (arith, opened, e) in
            subst (IsBounded calls) (sym eq) record { names = w.names; queues = w.queues }
      ]
]

pub unannounce-IsBounded :
    (calls : ℕ) (u : Unannounce) (s : Inbound)
    → IsBounded calls s
    → IsBounded calls (handle_unannounce u s)
unfolding handle_unannounce
unannounce-IsBounded calls u s v = elim (Option-cases (lookup u.name s.inbound_tracks)) [
  | inl e ↦
      let eq : handle_unannounce u s ≡ s = ground (arith, e) in subst (IsBounded calls) (sym eq) v
  | inr (t, e) ↦
      let s₁ : Inbound = record s { inbound_tracks = delete u.name s.inbound_tracks } in
      let w : IsBounded calls s₁ = record {
        names = omega (arith, v.names, length-delete_le u.name s.inbound_tracks);
        queues = v.queues;
      } in
      let eq : handle_unannounce u s ≡ update_track t finish s₁ = ground (arith, e) in
      subst (IsBounded calls) (sym eq) (update-IsBounded calls t finish s₁ w (λ tr q. q))
]

pub announce-IsBounded :
    (calls : ℕ) (on_announce : Option (Text → Text → Option Text)) (a : Announce) (s : Inbound)
    → IsBounded calls s
    → IsBounded calls (handle_announce on_announce a s)
unfolding handle_announce
announce-IsBounded calls on_announce a s v =
    let refused : Option Text = elim on_announce [
      | none ↦ none
      | some validate ↦ validate a.name a.kind
    ] in
    elim (Option-cases refused) [
      | inr (reason, e) ↦
          let eq : handle_announce on_announce a s
              ≡ (record_announce a false (tell track_unauthorized reason s)).0 =
            ground (arith, e) in
          subst (IsBounded calls) (sym eq) (
            record_announce-IsBounded calls a false (tell track_unauthorized reason s)
              (tell-IsBounded calls track_unauthorized reason s v))
      | inl e ↦
          let r = record_announce a true s in
          let w = record_announce-IsBounded calls a true s v in
          elim (Bool-cases r.1) [
            | inl found ↦
                let eq : handle_announce on_announce a s ≡ r.0 = ground (arith, e, found) in
                subst (IsBounded calls) (sym eq) w
            | inr full ↦
                let eq : handle_announce on_announce a s ≡ tell too_many_tracks cap_reached r.0 =
                  ground (arith, e, full) in
                subst (IsBounded calls) (sym eq)
                  (tell-IsBounded calls too_many_tracks cap_reached r.0 w)
          ]
    ]
