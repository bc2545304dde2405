-- ===== src/Feed/LowLatency/Laws.antt =====
-- What the stream of runStreamLowLatency (feed/pump.go) carries after every unit.
use quicrtc.Prelude.{
  ℕ, ◌≡◌, refl, sym, ap, ◌∙◌, ◌⊎◌, inl, inr, List, true, ◌==◌, length, [], ◌∷◌, ◌++◌, append_assoc,
  append-nil, Option, some, none, Sink, arith, Bool-cases, Option-cases, List-cases, subst,
}
use quicrtc.Pubsub.{AccessUnit}
use quicrtc.Wire.{type_keyframe}
use quicrtc.Wire.Header.{write_stream_header}
use quicrtc.Wire.Header.Laws.{stream_header}
use quicrtc.Feed.{append_feed_frame, write_frame}
use quicrtc.Feed.Gop.{Config, pub_wall}
use quicrtc.Feed.Gop.Laws.{header_bytes, written_header, written_frame}
use quicrtc.Feed.LowLatency.{
  DropReason, LowLatency, announce, reopen, start, flags_of, write_unit, send_unit,
  run_stream_low_latency,
}

abbrev pub Seen : Type 0
Seen = List (AccessUnit × ℕ)

abbrev pub unit_bytes : Config → AccessUnit × ℕ → List ℕ
unit_bytes c x =
    append_feed_frame [] type_keyframe x.0.pts_micro x.0.seq (flags_of x.0) (pub_wall c x.1 x.0)
      x.0.bytes

abbrev pub all_units : Config → Seen → List ℕ
all_units c [] = []
all_units c (x ∷ xs) = unit_bytes c x ++ all_units c xs

all_units-append :
    (c : Config) (xs : Seen) (x : AccessUnit × ℕ)
    → all_units c (xs ++ x ∷ []) ≡ all_units c xs ++ unit_bytes c x
all_units-append c [] x = append-nil (unit_bytes c x)
all_units-append c (y ∷ xs) x =
    ap (λ b. unit_bytes c y ++ b) (all_units-append c xs x)
    ∙ sym (append_assoc (unit_bytes c y) (all_units c xs) (unit_bytes c x))

-- The bytes are the header and the frames of the last of the units seen.
pub record Holds (c : Config) (seen : Seen) (bytes : List ℕ) : Type 0 where
  pub before : Seen
  pub units : Seen
  pub split : seen ≡ before ++ units
  pub sent : bytes ≡ header_bytes c ++ all_units c units

abbrev pub Stream : Config → Seen → LowLatency → Type 0
Stream c seen g = (g.stream ≡ none) ⊎ ((w : Sink) × (g.stream ≡ some w) × Holds c seen w.out)

pub fresh-Holds :
    (c : Config) (seen : Seen) (bytes : List ℕ) → bytes ≡ header_bytes c → Holds c seen bytes
fresh-Holds c seen bytes e = record {
  before = seen;
  units = [];
  split = sym (append-nil seen);
  sent = e ∙ sym (append-nil (header_bytes c));
}

-- The bytes end in the frame of the unit that came last.
pub record Ends (c : Config) (seen : Seen) (x : AccessUnit × ℕ) (bytes : List ℕ) : Type 0 where
  pub before : Seen
  pub units : Seen
  pub split : seen ≡ before ++ units
  pub sent : bytes ≡ header_bytes c ++ all_units c (units ++ x ∷ [])

pub next-Ends :
    (c : Config) (seen : Seen) (x : AccessUnit × ℕ) (bytes : List ℕ)
    → Holds c seen bytes
    → Ends c seen x (bytes ++ unit_bytes c x)
next-Ends c seen x bytes h = record {
  before = h.before;
  units = h.units;
  split = h.split;
  sent =
      ap (λ b. b ++ unit_bytes c x) h.sent
      ∙ append_assoc (header_bytes c) (all_units c h.units) (unit_bytes c x)
      ∙ ap (λ b. header_bytes c ++ b) (sym (all_units-append c h.units x));
}

pub Ends-Holds :
    (c : Config) (seen : Seen) (x : AccessUnit × ℕ) (bytes : List ℕ)
    → Ends c seen x bytes
    → Holds c (seen ++ x ∷ []) bytes
Ends-Holds c seen x bytes k = record {
  before = k.before;
  units = k.units ++ x ∷ [];
  split = ap (λ s. s ++ x ∷ []) k.split ∙ append_assoc k.before k.units (x ∷ []);
  sent = k.sent;
}

announce-header :
    (c : Config) (w : Sink)
    → w.out ≡ []
    → (announce c w).1 ≡ true
    → (announce c w).0.out ≡ header_bytes c
unfolding announce
announce-header c w e h = elim (Bool-cases (length c.track_name == 0)) [
  | inl unnamed ↦ rw (announce, unnamed) e
  | inr named ↦ elim (Option-cases (write_stream_header w c.track_name).1) [
    | inl fine ↦
        rw (announce, named, fine)
          (written_header w c.track_name fine ∙ ap (λ b. b ++ stream_header c.track_name) e)
    | inr (fault, bad) ↦ absurd (ground (arith, named, bad, h))
  ]
]

-- A failed open is reported; another one gives a stream with the header on it.
reopen_lem :
    (c : Config) (g : LowLatency)
    → (((reopen c g).stream ≡ none)
        × ((reason : DropReason) × ((reopen c g).dropped ≡ g.dropped ++ reason ∷ [])))
      ⊎ ((w : Sink) × ((reopen c g).stream ≡ some w)
          × (w.out ≡ header_bytes c)
          × ((reopen c g).dropped ≡ g.dropped))
unfolding reopen
reopen_lem c g = elim (List-cases g.opens) [
  | inl e ↦ rw (reopen, e) (inl (refl, (DropReason.stream_open_failed, refl)))
  | inr (none, opens, e) ↦ rw (reopen, e) (inl (refl, (DropReason.stream_open_failed, refl)))
  | inr (some faults, opens, e) ↦
      let w : Sink = record { out = []; faults = faults } in
      elim (Bool-cases (announce c w).1) [
        | inl kept ↦
            rw (reopen, e, kept) (inr ((announce c w).0, refl, announce-header c w refl kept, refl))
        | inr lost ↦ rw (reopen, e, lost) (inl (refl, (DropReason.stream_open_failed, refl)))
      ]
]

-- The unit was dropped, which is reported, and there is no stream; or it ends what the stream
-- carries, and nothing is reported.
abbrev pub Sent : Config → Seen → AccessUnit × ℕ → LowLatency → LowLatency → Type 0
Sent c seen x g g' =
    ((g'.stream ≡ none) × ((reason : DropReason) × (g'.dropped ≡ g.dropped ++ reason ∷ [])))
    ⊎ ((w : Sink) × (g'.stream ≡ some w) × Ends c seen x w.out × (g'.dropped ≡ g.dropped))

write_unit-Sent :
    (c : Config) (seen : Seen) (x : AccessUnit × ℕ) (g : LowLatency) (w : Sink)
    → g.stream ≡ some w
    → Holds c seen w.out
    → Sent c seen x g (write_unit c x.1 x.0 g)
unfolding write_unit
write_unit-Sent c seen x g w h k =
    let wall = pub_wall c x.1 x.0 in
    let r =
      write_frame c.scheduled w type_keyframe x.0.pts_micro x.0.seq (flags_of x.0) wall x.0.bytes in
    elim (Option-cases r.1) [
      | inl fine ↦
          let out =
            written_frame c.scheduled w type_keyframe x.0.pts_micro x.0.seq (flags_of x.0) wall
              x.0.bytes fine in
          rw (write_unit, h, fine)
            (inr (r.0, refl, subst (Ends c seen x) (sym out) (next-Ends c seen x w.out k), refl))
      | inr (fault, bad) ↦ rw (write_unit, h, bad) (inl (refl, (DropReason.write_deadline, refl)))
    ]

write_unit-none :
    (c : Config) (now : ℕ) (au : AccessUnit) (g : LowLatency)
    → g.stream ≡ none
    → write_unit c now au g ≡ g
unfolding write_unit
write_unit-none c now au g h = ground (arith, h)

send_unit-Sent :
    (c : Config) (seen : Seen) (x : AccessUnit × ℕ) (g : LowLatency)
    → Stream c seen g
    → Sent c seen x g (send_unit c x.1 x.0 g)
unfolding send_unit
send_unit-Sent c seen x g (inl nothing) =
    let e : send_unit c x.1 x.0 g ≡ write_unit c x.1 x.0 (reopen c g) = ground (arith, nothing) in
    subst (Sent c seen x g) (sym e) (elim (reopen_lem c g) [
      | inl (gone, (reason, reported)) ↦
          subst (Sent c seen x g) (sym (write_unit-none c x.1 x.0 (reopen c g) gone))
            (inl (gone, (reason, reported)))
      | inr (w, there, out, quiet) ↦
          elim (write_unit-Sent c seen x (reopen c g) w there (fresh-Holds c seen w.out out)) [
            | inl (gone, (reason, reported)) ↦
                inl (gone, (reason, reported ∙ ap (λ d. d ++ reason ∷ []) quiet))
            | inr (w', there', holds, quiet') ↦ inr (w', there', holds, quiet' ∙ quiet)
          ]
    ])
send_unit-Sent c seen x g (inr (w, there, holds)) =
    let e : send_unit c x.1 x.0 g ≡ write_unit c x.1 x.0 g = ground (arith, there) in
    subst (Sent c seen x g) (sym e) (write_unit-Sent c seen x g w there holds)

Sent-Stream :
    (c : Config) (seen : Seen) (x : AccessUnit × ℕ) (g g' : LowLatency)
    → Sent c seen x g g'
    → Stream c (seen ++ x ∷ []) g'
Sent-Stream c seen x g g' (inl s) = inl s.0
Sent-Stream c seen x g g' (inr (w, there, ends, quiet)) =
    inr (w, there, Ends-Holds c seen x w.out ends)

run_stream_low_latency-Stream :
    (c : Config) (seen xs : Seen) (g : LowLatency)
    → Stream c seen g
    → Stream c (seen ++ xs) (run_stream_low_latency c xs g)
unfolding run_stream_low_latency
run_stream_low_latency-Stream c seen [] g v = subst (λ s. Stream c s g) (sym (append-nil seen)) v
run_stream_low_latency-Stream c seen (x ∷ xs) g v =
    let g' = send_unit c x.1 x.0 g in
    subst (λ s. Stream c s (run_stream_low_latency c xs g')) (append_assoc seen (x ∷ []) xs)
      (run_stream_low_latency-Stream c (seen ++ x ∷ []) xs g'
        (Sent-Stream c seen x g g' (send_unit-Sent c seen x g v)))

start-Stream : (c : Config) (opens : List (Option (List (Option ℕ)))) → Stream c [] (start c opens)
unfolding start
start-Stream c opens =
    let g : LowLatency = record { stream = none; opens = opens; reset = []; dropped = [] } in
    elim (reopen_lem c g) [
      | inl (gone, reported) ↦ inl gone
      | inr (w, there, out, quiet) ↦ inr (w, there, fresh-Holds c [] w.out out)
    ]

-- After any units, whatever opens and writes fail, the next unit either is dropped, and then one
-- drop is reported and there is no stream until the next open; or it ends what the stream carries:
-- the track header and then, with no gap, the frames of all units received since the stream was
-- opened, and no drop is reported. So a failed write costs the stream, and no stream ever skips a
-- unit.
pub run_stream_low_latency-Sent :
    (c : Config) (opens : List (Option (List (Option ℕ)))) (xs : Seen) (x : AccessUnit × ℕ)
    → let g = run_stream_low_latency c xs (start c opens) in Sent c xs x g (send_unit c x.1 x.0 g)
run_stream_low_latency-Sent c opens xs x =
    send_unit-Sent c xs x (run_stream_low_latency c xs (start c opens))
      (run_stream_low_latency-Stream c [] xs (start c opens) (start-Stream c opens))
