-- ===== src/Session/Control/Frames.antt =====
-- The switch of controlReader of session/session.go.
use quicrtc.Prelude.{
  ℕ, ◌≡◌, ◌≢◌, refl, sym, subst, inl, inr, List, false, ◌==◌, [], ◌∷◌, ◌++◌, Option, none, some,
  arith, Bool-cases,
}
use quicrtc.Wire.Hello.{unmarshal_error}
use quicrtc.Session.Control.{
  type_ping, type_close, type_error, type_data, type_announce, type_unannounce, type_kind_stats,
  type_backpressure, ControlJson, Callbacks, Control, ControlEnd, protocol_error, handle_ping,
  announce_frame, unannounce_frame, kind_stats_frame, backpressure_frame, handle_frame,
}
use quicrtc.Session.Control.Laws.{
  Frame, pong_due, announcement, Ending, Handled, Same, Same-Handled, handle_ping-Handled,
  announce_frame-Handled, unannounce_frame-Handled,
}

kind_stats_frame-Same :
    (c : Callbacks) (json : ControlJson) (payload : List ℕ) (s : Control)
    → Same s (kind_stats_frame c json payload s, none)
unfolding kind_stats_frame protocol_error
kind_stats_frame-Same c json payload s = record {
  last_ping = ground arith;
  ctl = ground arith;
  fault = refl;
  inbound = ground arith;
}

backpressure_frame-Same :
    (c : Callbacks) (json : ControlJson) (payload : List ℕ) (s : Control)
    → Same s (backpressure_frame c json payload s, none)
unfolding backpressure_frame protocol_error
backpressure_frame-Same c json payload s = record {
  last_ping = ground arith;
  ctl = ground arith;
  fault = refl;
  inbound = ground arith;
}

-- A frame that is no PING and no announcement.
plain_frame-Same :
    (c : Callbacks) (json : ControlJson) (now t : ℕ) (payload : List ℕ) (s : Control)
    → (t == type_ping) ≡ false
    → (t == type_announce) ≡ false
    → (t == type_unannounce) ≡ false
    → Same s (handle_frame c json now t payload s)
      × Ending json (now, (t, payload)) (handle_frame c json now t payload s).1
unfolding handle_frame
plain_frame-Same c json now t payload s a b d =
    let f : Frame = (now, (t, payload)) in
    let r = handle_frame c json now t payload s in
    elim (Bool-cases (t == type_close)) [
      | inl closes ↦
          let e : r ≡ (s, some ControlEnd.closed_by_peer) = ground (arith, a, closes) in
          let is : t ≡ type_close = ground (arith, closes) in
          subst (λ x. Same s x × Ending json f x.1) (sym e)
            (
              record { last_ping = refl; ctl = refl; fault = refl; inbound = refl },
              inr (ControlEnd.closed_by_peer, refl, inl (is, refl)),
            )
      | inr g ↦ elim (Bool-cases (t == type_error)) [
        | inl faulty ↦
            let end = ControlEnd.peer_error (unmarshal_error json.parse_error payload) in
            let e : r ≡ (s, some end) = ground (arith, a, g, faulty) in
            let is : t ≡ type_error = ground (arith, faulty) in
            subst (λ x. Same s x × Ending json f x.1) (sym e)
              (
                record { last_ping = refl; ctl = refl; fault = refl; inbound = refl },
                inr (end, refl, inr (inl (is, refl))),
              )
        | inr h ↦
            let goes_on : (t ≢ type_close) × (t ≢ type_error) =
              (λ e. absurd (ground (arith, g, e)), λ e. absurd (ground (arith, h, e))) in
            let data_frame : Control = record s { delivered = s.delivered ++ payload ∷ [] } in
            elim (Bool-cases (t == type_data)) [
              | inl is_data ↦
                  let e : r ≡ (data_frame, none) = ground (arith, a, g, h, is_data) in
                  subst (λ x. Same s x × Ending json f x.1) (sym e)
                    (
                      record { last_ping = refl; ctl = refl; fault = refl; inbound = refl },
                      inl (refl, goes_on.0, goes_on.1),
                    )
              | inr i ↦ elim (Bool-cases (t == type_kind_stats)) [
                | inl stats ↦
                    let e : r ≡ (kind_stats_frame c json payload s, none) =
                      ground (arith, a, b, d, g, h, i, stats) in
                    subst (λ x. Same s x × Ending json f x.1) (sym e)
                      (kind_stats_frame-Same c json payload s, inl (refl, goes_on.0, goes_on.1))
                | inr j ↦ elim (Bool-cases (t == type_backpressure)) [
                  | inl pressed ↦
                      let e : r ≡ (backpressure_frame c json payload s, none) =
                        ground (arith, a, b, d, g, h, i, j, pressed) in
                      subst (λ x. Same s x × Ending json f x.1) (sym e)
                        (backpressure_frame-Same c json payload s, inl (refl, goes_on.0, goes_on.1))
                  | inr k ↦
                      let e : r ≡ (s, none) = ground (arith, a, b, d, g, h, i, j, k) in
                      subst (λ x. Same s x × Ending json f x.1) (sym e)
                        (
                          record { last_ping = refl; ctl = refl; fault = refl; inbound = refl },
                          inl (refl, goes_on.0, goes_on.1),
                        )
                ]
              ]
            ]
      ]
    ]

pub handle_frame-Handled :
    (c : Callbacks) (json : ControlJson) (now t : ℕ) (payload : List ℕ) (s : Control)
    → Handled c json (now, (t, payload)) s (handle_frame c json now t payload s)
unfolding handle_frame
handle_frame-Handled c json now t payload s =
    let f : Frame = (now, (t, payload)) in
    let r = handle_frame c json now t payload s in
    elim (Bool-cases (t == type_ping)) [
      | inl ping ↦
          let e : r ≡ handle_ping now payload s = ground (arith, ping) in
          let is : type_ping ≡ t = ground (arith, ping) in
          subst (Handled c json f s) (sym e) (
            subst (λ k. Handled c json (now, (k, payload)) s (handle_ping now payload s)) is
              (handle_ping-Handled c json now payload s))
      | inr a ↦ elim (Bool-cases (t == type_announce)) [
        | inl announces ↦
            let r' : Control × Option ControlEnd = (announce_frame c json payload s, none) in
            let is : type_announce ≡ t = ground (arith, announces) in
            let e : r ≡ r' = ground (arith, announces) in
            subst (Handled c json f s) (sym e) (
              subst (λ k. Handled c json (now, (k, payload)) s r') is
                (announce_frame-Handled c json now payload s))
        | inr b ↦ elim (Bool-cases (t == type_unannounce)) [
          | inl ends ↦
              let r' : Control × Option ControlEnd = (unannounce_frame json payload s, none) in
              let is : type_unannounce ≡ t = ground (arith, ends) in
              let e : r ≡ r' = ground (arith, ends) in
              subst (Handled c json f s) (sym e) (
                subst (λ k. Handled c json (now, (k, payload)) s r') is
                  (unannounce_frame-Handled c json now payload s))
          | inr d ↦
              let plain = plain_frame-Same c json now t payload s a b d in
              let quiet : pong_due s.last_ping f ≡ [] = ground (arith, a) in
              let silent : announcement json f ≡ [] = ground (arith, b, d) in
              Same-Handled c json f s r quiet silent plain.0 plain.1
        ]
      ]
    ]
