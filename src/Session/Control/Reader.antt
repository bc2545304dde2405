-- ===== src/Session/Control/Reader.antt =====
-- The loop of controlReader of session/session.go.
use quicrtc.Prelude.{
  ℕ, ◌<◌, ◌≡◌, ◌≢◌, refl, sym, ap, ◌∙◌, subst, ◌⊎◌, inl, inr, List, Bool, true, false, length, [],
  ◌∷◌, ◌++◌, Option, none, some, Sink, Error, err, ok, All, append-nil, arith, Bool-cases,
  Option-cases,
}
use quicrtc.Wire.Control.{read_control_frame, write_control_frame}
use quicrtc.Wire.Control.Laws.{read_control_frame-shorter}
use quicrtc.Session.Handshake.Gate.{Result-cases}
use quicrtc.Session.Inbound.{Inbound}
use quicrtc.Session.Streams.{Event, step, run}
use quicrtc.Session.Control.{
  type_close, type_error, type_pong, ControlJson, Callbacks, Control, ControlEnd, handle_frame,
  control_round, control_reader,
}
use quicrtc.Session.Control.Laws.{
  Frame, pong_due, pongs_due, write_pongs, announcement, announcements, Ends, fault_of, Handled,
}
use quicrtc.Session.Control.Frames.{handle_frame-Handled}
use quicrtc.Session.Control.Pacing.{IsPaced, pongs_due-IsPaced}

-- The frames that the reader reads, each handled at the time of its round, and why it returns:
-- after a frame with which it returns, when the context has ended, or when no frame can be read.
abbrev pub Reads : ControlJson → List (Bool × ℕ) → List ℕ → List Frame → Option ControlEnd → Type 0
Reads json [] input [] end = end ≡ none
Reads json [] input (f ∷ fs) end = ⊥
Reads json ((ctx_err, now) ∷ rounds) input [] end =
    ((ctx_err ≡ true) × (end ≡ some ControlEnd.ctx_ended))
    ⊎ ((fault : Error) × (ctx_err ≡ false)
        × (read_control_frame input ≡ err fault)
        × (end ≡ some (ControlEnd.read_failed fault)))
Reads json ((ctx_err, now) ∷ rounds) input (f ∷ fs) end =
    (ctx_err ≡ false)
    × (f.0 ≡ now)
    × ((rest : List ℕ) × (read_control_frame input ≡ ok (f.1, rest))
        × (((e : ControlEnd) × (end ≡ some e) × Ends json f e × (fs ≡ []))
            ⊎ ((f.1.0 ≢ type_close) × (f.1.0 ≢ type_error) × Reads json rounds rest fs end)))

-- What the reader does with the frames.
pub record Followed (c : Callbacks) (json : ControlJson) (rounds : List (Bool × ℕ)) (input : List ℕ)
    (s : Control) (r : Control × Option ControlEnd) : Type 0 where
  pub frames : List Frame
  pub reads : Reads json rounds input frames r.1
  pub ctl : write_pongs (pongs_due s.last_ping frames) s.ctl ≡ (r.0.ctl, fault_of r.1)
  pub inbound : r.0.inbound ≡ run c.on_announce (announcements json frames) s.inbound

run-append :
    (on_announce : Option (List ℕ → List ℕ → Option (List ℕ))) (es fs : List Event) (i : Inbound)
    → run on_announce (es ++ fs) i ≡ run on_announce fs (run on_announce es i)
unfolding run
run-append on_announce [] fs i = refl
run-append on_announce (e ∷ es) fs i = run-append on_announce es fs (step on_announce e i)

write_pongs-append :
    (ps qs : List (ℕ × List ℕ)) (w w' : Sink)
    → write_pongs ps w ≡ (w', none)
    → write_pongs (ps ++ qs) w ≡ write_pongs qs w'
write_pongs-append [] qs w w' h = ap (write_pongs qs) (ap (λ x. x.0) h)
write_pongs-append (p ∷ ps) qs w w' h =
    let (w₁, e) = write_control_frame w type_pong p.1 in
    elim (Option-cases e) [
      | inl sent ↦
          let one : write_pongs (p ∷ ps) w ≡ write_pongs ps w₁ = ground (arith, sent) in
          let all : write_pongs ((p ∷ ps) ++ qs) w ≡ write_pongs (ps ++ qs) w₁ =
            ground (arith, sent) in
          all ∙ write_pongs-append ps qs w₁ w' (sym one ∙ h)
      | inr (fault, failed) ↦
          let one : write_pongs (p ∷ ps) w ≡ (w₁, some fault) = ground (arith, failed) in
          absurd (cc (ap (λ x. x.1) (sym one ∙ h)))
    ]

-- The reader has handled a frame and goes on.
Followed-cons :
    (c : Callbacks) (json : ControlJson) (now : ℕ) (rounds : List (Bool × ℕ)) (input rest : List ℕ)
    (frame : ℕ × List ℕ) (s s' : Control) (r : Control × Option ControlEnd)
    → read_control_frame input ≡ ok (frame, rest)
    → Handled c json (now, frame) s (s', none)
    → frame.0 ≢ type_close
    → frame.0 ≢ type_error
    → Followed c json rounds rest s' r
    → Followed c json ((false, now) ∷ rounds) input s r
Followed-cons c json now rounds input rest frame s s' r framed h apart sound later =
    let f : Frame = (now, frame) in
    record {
      frames = f ∷ later.frames;
      reads = (refl, refl, (rest, framed, inr (apart, sound, later.reads)));
      ctl =
          write_pongs-append (pong_due s.last_ping f) _ s.ctl s'.ctl h.ctl
          ∙ subst (λ n. write_pongs (pongs_due n later.frames) s'.ctl ≡ (r.0.ctl, fault_of r.1))
              h.last_ping later.ctl;
      inbound =
          later.inbound
          ∙ ap (run c.on_announce (announcements json later.frames)) h.inbound
          ∙ sym (
              run-append c.on_announce (announcement json f) (announcements json later.frames)
                s.inbound);
    }

-- The reader returns with a frame.
Followed-last :
    (c : Callbacks) (json : ControlJson) (now : ℕ) (rounds : List (Bool × ℕ)) (input rest : List ℕ)
    (frame : ℕ × List ℕ) (s : Control) (r : Control × Option ControlEnd) (e : ControlEnd)
    → read_control_frame input ≡ ok (frame, rest)
    → Handled c json (now, frame) s r
    → r.1 ≡ some e
    → Ends json (now, frame) e
    → Followed c json ((false, now) ∷ rounds) input s r
Followed-last c json now rounds input rest frame s r e framed h ended ends =
    let f : Frame = (now, frame) in
    record {
      frames = f ∷ [];
      reads = (refl, refl, (rest, framed, inl (e, ended, ends, refl)));
      ctl = ap (λ ps. write_pongs ps s.ctl) (append-nil (pong_due s.last_ping f)) ∙ h.ctl;
      inbound =
          h.inbound
          ∙ ap (λ es. run c.on_announce es s.inbound) (sym (append-nil (announcement json f)));
    }

-- The reader has read nothing.
Followed-nil :
    (c : Callbacks) (json : ControlJson) (rounds : List (Bool × ℕ)) (input : List ℕ) (s : Control)
    (end : Option ControlEnd)
    → fault_of end ≡ none
    → Reads json rounds input [] end
    → Followed c json rounds input s (s, end)
unfolding run
Followed-nil c json rounds input s end quiet reads = record {
  frames = [];
  reads = reads;
  ctl = ap (λ e. (s.ctl, e)) (sym quiet);
  inbound = refl;
}

control_reader-Followed :
    (c : Callbacks) (json : ControlJson) (rounds : List (Bool × ℕ)) (input : List ℕ) (s : Control)
    → Followed c json rounds input s (control_reader c json rounds input s)
unfolding control_reader control_round
control_reader-Followed c json [] input s = Followed-nil c json [] input s none refl refl
control_reader-Followed c json ((true, now) ∷ rounds) input s =
    Followed-nil c json ((true, now) ∷ rounds) input s (some ControlEnd.ctx_ended) refl
      (inl (refl, refl))
control_reader-Followed c json ((false, now) ∷ rounds) input s =
    let all = (false, now) ∷ rounds in
    let run_all = control_reader c json all input s in
    elim (Result-cases (read_control_frame input)) [
      | inl (fault, bad) ↦
          let end = some (ControlEnd.read_failed fault) in
          let e : run_all ≡ (s, end) = ground (arith, bad) in
          subst (Followed c json all input s) (sym e)
            (Followed-nil c json all input s end refl (inr (fault, refl, bad, refl)))
      | inr (((t, payload), rest), framed) ↦
          let r = handle_frame c json now t payload s in
          let h = handle_frame-Handled c json now t payload s in
          elim h.ending [
            | inl (on, apart, sound) ↦
                let e : run_all ≡ control_reader c json rounds rest r.0 =
                  ground (arith, framed, on) in
                let is : r ≡ (r.0, none) = ap (λ x. (r.0, x)) on in
                subst (Followed c json all input s) (sym e) (
                  Followed-cons c json now rounds input rest (t, payload) s r.0 _ framed
                    (subst (Handled c json (now, (t, payload)) s) is h) apart sound
                    (control_reader-Followed c json rounds rest r.0))
            | inr (end, ended, ends) ↦
                let e : run_all ≡ r = ground (arith, framed, ended) in
                subst (Followed c json all input s) (sym e) (
                  Followed-last c json now rounds input rest (t, payload) s r end framed h ended
                    ends)
          ]
    ]

Reads-late :
    (json : ControlJson) (rounds : List (Bool × ℕ)) (input : List ℕ) (fs : List Frame)
    (end : Option ControlEnd)
    → All (λ (r : Bool × ℕ). 0 < r.1) rounds
    → Reads json rounds input fs end
    → All (λ f. 0 < f.0) fs
Reads-late json rounds input [] end late reads = tt
Reads-late json [] input (f ∷ fs) end late reads = absurd reads
Reads-late json ((ctx_err, now) ∷ rounds) input (f ∷ fs) end late (go, is, (rest, framed, next)) = (
  subst (λ n. 0 < n) (sym is) late.0,
  elim next [
    | inl (e, ended, ends, is_last) ↦ subst (All (λ f. 0 < f.0)) (sym is_last) tt
    | inr (apart, sound, later) ↦ Reads-late json rounds rest fs end late.1 later
  ],
)

-- Whatever the peer sends, controlReader, for as many rounds as are given, reads the frames of the
-- control stream in order until it returns: after a TypeClose, a TypeError or a PONG that cannot be
-- written, or because the context has ended or no frame can be read. Beside the TypeError frames for
-- announcements it writes PONGs only, each with the payload of a PING: one for every PING but those
-- that come less than a second after the last PONG. So no two PONGs are less than a second apart, if
-- the clock is past 0, however often it is pinged and even if the clock is set back. What it does to
-- the inbound tracks is to announce and to unannounce what the frames say, in order, and nothing
-- else.
pub control_reader-Controlled :
    (c : Callbacks) (json : ControlJson) (rounds : List (Bool × ℕ)) (input : List ℕ) (s : Control)
    → All (λ (r : Bool × ℕ). 0 < r.1) rounds
    → (f : Followed c json rounds input s (control_reader c json rounds input s)) × IsPaced
        s.last_ping
        (pongs_due s.last_ping f.frames)
control_reader-Controlled c json rounds input s late =
    let f = control_reader-Followed c json rounds input s in
    (
      f,
      pongs_due-IsPaced s.last_ping f.frames (Reads-late json rounds input f.frames _ late f.reads),
    )

-- A round that goes on has read a frame.
control_round-shorter :
    (c : Callbacks) (json : ControlJson) (ctx_err : Bool) (now : ℕ) (input : List ℕ) (s : Control)
    → (control_round c json ctx_err now input s).0.1 ≡ none
    → length (control_round c json ctx_err now input s).1 < length input
unfolding control_round
control_round-shorter c json ctx_err now input s h =
    let r = control_round c json ctx_err now input s in
    elim (Bool-cases ctx_err) [
      | inl over ↦ absurd (ground (arith, over, h))
      | inr goes ↦ elim (Result-cases (read_control_frame input)) [
        | inl (fault, bad) ↦ absurd (ground (arith, goes, bad, h))
        | inr (((t, payload), rest), framed) ↦
            let e : r.1 ≡ rest = ground (arith, goes, framed) in
            subst (λ b. length b < length input) (sym e)
              (read_control_frame-shorter input t payload rest framed)
      ]
    ]

-- On a control stream that ends, controlReader returns: with more rounds than there are bytes to
-- read it has done so, whatever the bytes are.
pub control_reader-returns :
    (c : Callbacks) (json : ControlJson) (rounds : List (Bool × ℕ)) (input : List ℕ) (s : Control)
    → length input < length rounds
    → (end : ControlEnd) × ((control_reader c json rounds input s).1 ≡ some end)
unfolding control_reader
control_reader-returns c json [] input s h = absurd (omega arith)
control_reader-returns c json ((ctx_err, now) ∷ rounds) input s h =
    let r = control_round c json ctx_err now input s in
    elim (Option-cases r.0.1) [
      | inr (end, e) ↦ (end, ground (arith, e))
      | inl e ↦
          let eq : (control_reader c json ((ctx_err, now) ∷ rounds) input s).1
              ≡ (control_reader c json rounds r.1 r.0.0).1 =
            ground (arith, e) in
          let fewer = control_round-shorter c json ctx_err now input s e in
          let (end, ended) =
            control_reader-returns c json rounds r.1 r.0.0 (omega (arith, fewer)) in
          (end, eq ∙ ended)
    ]
