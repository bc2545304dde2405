-- ===== src/Session/Control/Laws.antt =====
-- What controlReader of session/session.go does with a frame.
use quicrtc.Prelude.{
  ℕ, ◌+◌, ◌≡◌, ◌≢◌, refl, sym, ap, ap₂, ◌∙◌, subst, ◌⊎◌, inl, inr, List, not, ◌&&◌, ◌||◌, ◌==◌, ltb,
  leb, if◌then◌else◌, [], ◌∷◌, ◌++◌, Option, none, some, Sink, Error, arith, Bool-cases,
  Option-cases,
}
use quicrtc.Wire.Control.{write_control_frame}
use quicrtc.Wire.Hello.{unmarshal_error}
use quicrtc.Session.Inbound.{Inbound}
use quicrtc.Session.Streams.{Event, step, run}
use quicrtc.Session.Control.{
  min_ping_interval, type_ping, type_pong, type_error, type_close, type_announce, type_unannounce,
  ControlJson, Callbacks, Control, ControlEnd, protocol_error, handle_ping, announce_frame,
  unannounce_frame,
}

-- A frame that is read: when it is handled, its type, and its payload.
abbrev pub Frame : Type 0
Frame = ℕ × (ℕ × List ℕ)

-- The PONG that a frame is due, with its time: a PING's payload goes back, if none was sent before,
-- or the last one at least the interval ago.
abbrev pub pong_due : ℕ → Frame → List (ℕ × List ℕ)
pong_due last (now, (t, payload)) =
    if (t == type_ping) && ((last == 0) || leb (last + min_ping_interval) now)
    then (now, payload) ∷ []
    else []

abbrev pub last_pong : ℕ → List (ℕ × List ℕ) → ℕ
last_pong last [] = last
last_pong last (p ∷ ps) = last_pong p.0 ps

abbrev pub pongs_due : ℕ → List Frame → List (ℕ × List ℕ)
pongs_due last [] = []
pongs_due last (f ∷ fs) = pong_due last f ++ pongs_due (last_pong last (pong_due last f)) fs

-- The PONGs are written one after the other, up to the first write that fails.
abbrev pub write_pongs : List (ℕ × List ℕ) → Sink → Sink × Option Error
write_pongs [] w = (w, none)
write_pongs (p ∷ ps) w =
    let (w', e) = write_control_frame w type_pong p.1 in
    let rest = write_pongs ps w' in elim e [ none ↦ rest | some fault ↦ (w', some fault) ]

-- The announcement or its end that a frame carries.
abbrev pub announcement : ControlJson → Frame → List Event
announcement json (now, (t, payload)) =
    if t == type_announce
    then (elim (json.unmarshal_announce payload) [ none ↦ [] | some a ↦ Event.announced a ∷ [] ])
    else if t == type_unannounce
    then (elim (json.unmarshal_unannounce payload) [
      | none ↦ []
      | some u ↦ Event.unannounced u ∷ []
    ])
    else []

abbrev pub announcements : ControlJson → List Frame → List Event
announcements json [] = []
announcements json (f ∷ fs) = announcement json f ++ announcements json fs

-- A frame with which the reader returns.
abbrev pub Ends : ControlJson → Frame → ControlEnd → Type 0
Ends json f e =
    ((f.1.0 ≡ type_close) × (e ≡ ControlEnd.closed_by_peer))
    ⊎ ((f.1.0 ≡ type_error) × (e ≡ ControlEnd.peer_error (unmarshal_error json.parse_error f.1.1)))
    ⊎ ((f.1.0 ≡ type_ping) × ((fault : Error) × (e ≡ ControlEnd.pong_failed fault)))

abbrev pub fault_of : Option ControlEnd → Option Error
fault_of none = none
fault_of (some ControlEnd.closed_by_peer) = none
fault_of (some ControlEnd.ctx_ended) = none
fault_of (some (ControlEnd.read_failed fault)) = none
fault_of (some (ControlEnd.pong_failed fault)) = some fault
fault_of (some (ControlEnd.peer_error payload)) = none

-- A frame after which the reader goes on, or one with which it returns.
abbrev pub Ending : ControlJson → Frame → Option ControlEnd → Type 0
Ending json f end =
    ((end ≡ none) × (f.1.0 ≢ type_close) × (f.1.0 ≢ type_error))
    ⊎ ((e : ControlEnd) × (end ≡ some e) × Ends json f e)

-- What handling a frame does to the PONGs and to the inbound tracks.
pub record Handled (c : Callbacks) (json : ControlJson) (f : Frame) (s : Control)
    (r : Control × Option ControlEnd) : Type 0 where
  pub last_ping : r.0.last_ping ≡ last_pong s.last_ping (pong_due s.last_ping f)
  pub ctl : write_pongs (pong_due s.last_ping f) s.ctl ≡ (r.0.ctl, fault_of r.1)
  pub inbound : r.0.inbound ≡ run c.on_announce (announcement json f) s.inbound
  pub ending : Ending json f r.1

-- A result that leaves both alone.
pub record Same (s : Control) (r : Control × Option ControlEnd) : Type 0 where
  pub last_ping : r.0.last_ping ≡ s.last_ping
  pub ctl : r.0.ctl ≡ s.ctl
  pub fault : fault_of r.1 ≡ none
  pub inbound : r.0.inbound ≡ s.inbound

run-nil : (c : Callbacks) (i : Inbound) → run c.on_announce [] i ≡ i
unfolding run
run-nil c i = refl

run-one :
    (c : Callbacks) (e : Event) (i : Inbound)
    → run c.on_announce (e ∷ []) i ≡ step c.on_announce e i
unfolding run
run-one c e i = refl

-- A frame that is due no PONG and carries no announcement.
pub Same-Handled :
    (c : Callbacks) (json : ControlJson) (f : Frame) (s : Control) (r : Control × Option ControlEnd)
    → pong_due s.last_ping f ≡ []
    → announcement json f ≡ []
    → Same s r
    → Ending json f r.1
    → Handled c json f s r
Same-Handled c json f s r quiet silent same ending = record {
  last_ping = same.last_ping ∙ ap (last_pong s.last_ping) (sym quiet);
  ctl = ap (λ ps. write_pongs ps s.ctl) quiet ∙ ap₂ (λ w e. (w, e)) (sym same.ctl) (sym same.fault);
  inbound =
      same.inbound
      ∙ sym (run-nil c s.inbound)
      ∙ ap (λ es. run c.on_announce es s.inbound) (sym silent);
  ending = ending;
}

pub handle_ping-Handled :
    (c : Callbacks) (json : ControlJson) (now : ℕ) (payload : List ℕ) (s : Control)
    → Handled c json (now, (type_ping, payload)) s (handle_ping now payload s)
unfolding handle_ping
handle_ping-Handled c json now payload s =
    let f : Frame = (now, (type_ping, payload)) in
    let w = write_control_frame s.ctl type_pong payload in
    let goes_on : (type_ping ≢ type_close) × (type_ping ≢ type_error) =
      (λ e. absurd (omega (arith, e)), λ e. absurd (omega (arith, e))) in
    elim (Bool-cases (not (s.last_ping == 0) && ltb now (s.last_ping + min_ping_interval))) [
      | inl early ↦
          let e : handle_ping now payload s ≡ (s, none) = ground (arith, early) in
          let quiet : pong_due s.last_ping f ≡ [] = ground (arith, early) in
          subst (Handled c json f s) (sym e) (
            Same-Handled c json f s (s, none) quiet refl
              record { last_ping = refl; ctl = refl; fault = refl; inbound = refl }
              (inl (refl, goes_on.0, goes_on.1)))
      | inr free ↦
          let due : pong_due s.last_ping f ≡ (now, payload) ∷ [] = ground (arith, free) in
          let s' : Control = record s { ctl = w.0; last_ping = now } in
          elim (Option-cases w.1) [
            | inl sent ↦
                let e : handle_ping now payload s ≡ (s', none) = ground (arith, free, sent) in
                let written : write_pongs ((now, payload) ∷ []) s.ctl ≡ (w.0, none) =
                  ground (arith, sent) in
                subst (Handled c json f s) (sym e) record {
                  last_ping = ap (last_pong s.last_ping) (sym due);
                  ctl = ap (λ ps. write_pongs ps s.ctl) due ∙ written;
                  inbound = sym (run-nil c s.inbound);
                  ending = inl (refl, goes_on.0, goes_on.1);
                }
            | inr (fault, failed) ↦
                let end = ControlEnd.pong_failed fault in
                let e : handle_ping now payload s ≡ (s', some end) = ground (arith, free, failed) in
                let written : write_pongs ((now, payload) ∷ []) s.ctl ≡ (w.0, some fault) =
                  ground (arith, failed) in
                subst (Handled c json f s) (sym e) record {
                  last_ping = ap (last_pong s.last_ping) (sym due);
                  ctl = ap (λ ps. write_pongs ps s.ctl) due ∙ written;
                  inbound = sym (run-nil c s.inbound);
                  ending = inr (end, refl, inr (inr (refl, (fault, refl))));
                }
          ]
    ]

pub announce_frame-Handled :
    (c : Callbacks) (json : ControlJson) (now : ℕ) (payload : List ℕ) (s : Control)
    → Handled c json (now, (type_announce, payload)) s (announce_frame c json payload s, none)
unfolding announce_frame protocol_error step
announce_frame-Handled c json now payload s =
    let f : Frame = (now, (type_announce, payload)) in
    let goes_on : (type_announce ≢ type_close) × (type_announce ≢ type_error) =
      (λ e. absurd (omega (arith, e)), λ e. absurd (omega (arith, e))) in
    elim (Option-cases (json.unmarshal_announce payload)) [
      | inl e ↦
          rw (announce_frame, e)
            (Same-Handled c json f s (protocol_error type_announce s, none) refl (rw e refl)
              record { last_ping = refl; ctl = refl; fault = refl; inbound = refl }
              (inl (refl, goes_on.0, goes_on.1)))
      | inr (a, e) ↦
          rw (announce_frame, e)
            record {
              last_ping = refl;
              ctl = refl;
              inbound = rw e (sym (run-one c (Event.announced a) s.inbound));
              ending = inl (refl, goes_on.0, goes_on.1);
            }
    ]

pub unannounce_frame-Handled :
    (c : Callbacks) (json : ControlJson) (now : ℕ) (payload : List ℕ) (s : Control)
    → Handled c json (now, (type_unannounce, payload)) s (unannounce_frame json payload s, none)
unfolding unannounce_frame protocol_error step
unannounce_frame-Handled c json now payload s =
    let f : Frame = (now, (type_unannounce, payload)) in
    let goes_on : (type_unannounce ≢ type_close) × (type_unannounce ≢ type_error) =
      (λ e. absurd (omega (arith, e)), λ e. absurd (omega (arith, e))) in
    elim (Option-cases (json.unmarshal_unannounce payload)) [
      | inl e ↦
          rw (unannounce_frame, e)
            (Same-Handled c json f s (protocol_error type_unannounce s, none) refl (rw e refl)
              record { last_ping = refl; ctl = refl; fault = refl; inbound = refl }
              (inl (refl, goes_on.0, goes_on.1)))
      | inr (u, e) ↦
          rw (unannounce_frame, e)
            record {
              last_ping = refl;
              ctl = refl;
              inbound = rw e (sym (run-one c (Event.unannounced u) s.inbound));
              ending = inl (refl, goes_on.0, goes_on.1);
            }
    ]
