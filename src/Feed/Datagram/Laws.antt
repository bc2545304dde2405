-- ===== src/Feed/Datagram/Laws.antt =====
-- What becomes of a unit in runDatagramOrStream (feed/datagram.go).
use quicrtc.Prelude.{
  ℕ, ◌≡◌, refl, sym, ap, ◌∙◌, subst, ◌⊎◌, inl, inr, List, true, false, ◌==◌, ltb, length, [], ◌∷◌,
  ◌++◌, Option, some, none, Sink, arith, Bool-cases, Option-cases, List-cases,
}
use quicrtc.Pubsub.{AccessUnit}
use quicrtc.Wire.{type_keyframe, max_feed_payload}
use quicrtc.Wire.Header.{write_stream_header}
use quicrtc.Wire.Header.Laws.{stream_header}
use quicrtc.Wire.Writers.{write_cases}
use quicrtc.Feed.{append_feed_frame, write_feed_frame_pooled}
use quicrtc.Feed.Gop.{Config, pub_wall}
use quicrtc.Feed.Gop.Laws.{header_bytes, written_header}
use quicrtc.Feed.LowLatency.Laws.{Seen, Holds, fresh-Holds, Ends, next-Ends}
use quicrtc.Feed.Datagram.{
  SpillReason, DatagramConfig, Datagrams, write_fallback_header, open_fallback, drop_au,
  fallback_flags, write_fallback, fallback_or_drop,
}

written_pooled :
    (w : Sink) (typ pts seq flags wall : ℕ) (payload : List ℕ)
    → (write_feed_frame_pooled w typ pts seq flags wall payload).1 ≡ none
    → (write_feed_frame_pooled w typ pts seq flags wall payload).0.out
      ≡ w.out ++ append_feed_frame [] typ pts seq flags wall payload
unfolding write_feed_frame_pooled
written_pooled w typ pts seq flags wall payload h =
    elim (Bool-cases (ltb max_feed_payload (length payload))) [
      | inl big ↦ absurd (ground (arith, big, h))
      | inr fits ↦ elim (write_cases w (append_feed_frame [] typ pts seq flags wall payload)) [
        | inl r ↦ absurd (ground (arith, fits, h, r.1))
        | inr r ↦ rw (write_feed_frame_pooled, fits) (r.1)
      ]
    ]

fallback_header-bytes :
    (c : Config) (w : Sink)
    → w.out ≡ []
    → (write_fallback_header c w).1 ≡ true
    → (write_fallback_header c w).0.out ≡ header_bytes c
unfolding write_fallback_header
fallback_header-bytes c w e h = elim (Bool-cases (length c.track_name == 0)) [
  | inl unnamed ↦ rw (write_fallback_header, unnamed) e
  | inr named ↦ elim (Option-cases (write_stream_header w c.track_name).1) [
    | inl fine ↦
        rw (write_fallback_header, named, fine)
          (written_header w c.track_name fine ∙ ap (λ b. b ++ stream_header c.track_name) e)
    | inr (fault, bad) ↦ absurd (ground (arith, named, bad, h))
  ]
]

-- The fields that neither a fallback nor a drop touches.
pub record Quiet (g g' : Datagrams) : Type 0 where
  pub same_seq : g'.seq ≡ g.seq
  pub same_sent : g'.sent ≡ g.sent

-- The reason that is given for a drop: without a fallback, why there was no datagram.
abbrev pub Explained : DatagramConfig → SpillReason → SpillReason → Type 0
Explained c why reason =
    ((c.fallback ≡ false) × (reason ≡ why))
    ⊎ ((c.fallback ≡ true) × (reason ≡ SpillReason.fallback_open_failed))
    ⊎ ((c.fallback ≡ true) × (reason ≡ SpillReason.fallback_write_failed))

-- The unit is dropped, and that is reported once.
pub record Dropped (c : DatagramConfig) (why : SpillReason) (g g' : Datagrams) : Type 0 where
  pub quiet : Quiet g g'
  pub reason : SpillReason
  pub explained : Explained c why reason
  pub reported : g'.dropped ≡ g.dropped ++ reason ∷ []
  pub no_spill : g'.spilled ≡ g.spilled

-- The unit ends what the fallback stream carries.
pub record Spilled (c : Config) (units : Seen) (x : AccessUnit × ℕ) (reason : SpillReason)
    (g g' : Datagrams) : Type 0 where
  pub quiet : Quiet g g'
  pub w : Sink
  pub there : g'.fallback_stream ≡ some w
  pub ends : Ends c units x w.out
  pub reported : g'.spilled ≡ g.spilled ++ reason ∷ []
  pub no_drop : g'.dropped ≡ g.dropped

abbrev pub Fallback : Config → Seen → Datagrams → Type 0
Fallback c units g =
    (g.fallback_stream ≡ none) ⊎ ((w : Sink) × (g.fallback_stream ≡ some w) × Holds c units w.out)

-- open_fallback changes neither lists nor number; a stream that it gives has the header on it.
record OpenedFallback (c : Config) (g : Datagrams) (r : Datagrams × Option Sink) : Type 0 where
  quiet : Quiet g r.0
  same_stream : r.0.fallback_stream ≡ g.fallback_stream
  same_dropped : r.0.dropped ≡ g.dropped
  same_spilled : r.0.spilled ≡ g.spilled
  result : (r.1 ≡ none) ⊎ ((w : Sink) × (r.1 ≡ some w) × (w.out ≡ header_bytes c))

open_fallback_lem : (c : Config) (g : Datagrams) → OpenedFallback c g (open_fallback c g)
unfolding open_fallback
open_fallback_lem c g = elim (List-cases g.opens) [
  | inl e ↦
      rw (open_fallback, e)
        record {
          quiet = record { same_seq = refl; same_sent = refl };
          same_stream = refl;
          same_dropped = refl;
          same_spilled = refl;
          result = inl refl;
        }
  | inr (none, opens, e) ↦
      rw (open_fallback, e)
        record {
          quiet = record { same_seq = refl; same_sent = refl };
          same_stream = refl;
          same_dropped = refl;
          same_spilled = refl;
          result = inl refl;
        }
  | inr (some faults, opens, e) ↦
      let w : Sink = record { out = []; faults = faults } in
      elim (Bool-cases (write_fallback_header c w).1) [
        | inl fine ↦
            rw (open_fallback, e, fine)
              record {
                quiet = record { same_seq = refl; same_sent = refl };
                same_stream = refl;
                same_dropped = refl;
                same_spilled = refl;
                result =
                    inr ((write_fallback_header c w).0, refl, fallback_header-bytes c w refl fine);
              }
        | inr bad ↦
            rw (open_fallback, e, bad)
              record {
                quiet = record { same_seq = refl; same_sent = refl };
                same_stream = refl;
                same_dropped = refl;
                same_spilled = refl;
                result = inl refl;
              }
      ]
]

abbrev pub Handled :
    DatagramConfig → Seen → AccessUnit × ℕ → SpillReason → Datagrams → Datagrams → Type 0
Handled c units x why g g' =
    (Dropped c why g g' × Fallback c.feed units g') ⊎ Spilled c.feed units x why g g'

write_fallback_lem :
    (c : DatagramConfig) (units : Seen) (x : AccessUnit × ℕ) (why : SpillReason) (w : Sink)
    (g : Datagrams)
    → c.fallback ≡ true
    → Holds c.feed units w.out
    → Handled c units x why g (write_fallback c.feed x.1 x.0 why w g)
unfolding write_fallback drop_au
write_fallback_lem c units x why w g on h =
    let wall = pub_wall c.feed x.1 x.0 in
    let r =
      write_feed_frame_pooled w type_keyframe x.0.pts_micro x.0.seq (fallback_flags x.0) wall
        x.0.bytes in
    elim (Option-cases r.1) [
      | inl fine ↦
          let out =
            written_pooled w type_keyframe x.0.pts_micro x.0.seq (fallback_flags x.0) wall x.0.bytes
              fine in
          inr (
            rw (write_fallback, fine)
              record {
                quiet = record { same_seq = refl; same_sent = refl };
                w = r.0;
                there = refl;
                ends = subst (Ends c.feed units x) (sym out) (next-Ends c.feed units x w.out h);
                reported = refl;
                no_drop = refl;
              })
      | inr (fault, bad) ↦ inl (
          rw (write_fallback, bad)
            (
              record {
                quiet = record { same_seq = refl; same_sent = refl };
                reason = SpillReason.fallback_write_failed;
                explained = inr (inr (on, refl));
                reported = refl;
                no_spill = refl;
              },
              inl refl,
            ))
    ]

pub fallback_or_drop_lem :
    (c : DatagramConfig) (units : Seen) (x : AccessUnit × ℕ) (why : SpillReason) (g : Datagrams)
    → Fallback c.feed units g
    → Handled c units x why g (fallback_or_drop c x.1 x.0 why g)
unfolding fallback_or_drop drop_au
fallback_or_drop_lem c units x why g h = elim (Bool-cases c.fallback) [
  | inr off ↦
      let e : fallback_or_drop c x.1 x.0 why g ≡ drop_au why g = ground (arith, off) in
      subst (Handled c units x why g) (sym e) (
        inl (
          record {
            quiet = record { same_seq = refl; same_sent = refl };
            reason = why;
            explained = inl (off, refl);
            reported = refl;
            no_spill = refl;
          },
          h,
        ))
  | inl on ↦ elim h [
    | inr (w, there, holds) ↦
        let e : fallback_or_drop c x.1 x.0 why g ≡ write_fallback c.feed x.1 x.0 why w g =
          ground (arith, on, there) in
        subst (Handled c units x why g) (sym e) (write_fallback_lem c units x why w g on holds)
    | inl nothing ↦
        let r = open_fallback c.feed g in
        let o = open_fallback_lem c.feed g in
        elim o.result [
          | inl failed ↦
              let e : fallback_or_drop c x.1 x.0 why g
                  ≡ drop_au SpillReason.fallback_open_failed r.0 =
                ground (arith, on, nothing, failed) in
              subst (Handled c units x why g) (sym e) (
                inl (
                  record {
                    quiet = record { same_seq = o.quiet.same_seq; same_sent = o.quiet.same_sent };
                    reason = SpillReason.fallback_open_failed;
                    explained = inr (inl (on, refl));
                    reported = ap (λ d. d ++ SpillReason.fallback_open_failed ∷ []) o.same_dropped;
                    no_spill = o.same_spilled;
                  },
                  inl (o.same_stream ∙ nothing),
                ))
          | inr (w, got, out) ↦
              let g₁ : Datagrams = record r.0 { fallback_stream = some w } in
              let e : fallback_or_drop c x.1 x.0 why g ≡ write_fallback c.feed x.1 x.0 why w g₁ =
                ground (arith, on, nothing, got) in
              subst (Handled c units x why g) (sym e)
                (elim (write_fallback_lem c units x why w g₁ on
                  (fresh-Holds c.feed units w.out out)) [
                    | inl (d, s) ↦ inl (
                      record {
                        quiet = record {
                          same_seq = d.quiet.same_seq ∙ o.quiet.same_seq;
                          same_sent = d.quiet.same_sent ∙ o.quiet.same_sent;
                        };
                        reason = d.reason;
                        explained = d.explained;
                        reported = d.reported ∙ ap (λ l. l ++ d.reason ∷ []) o.same_dropped;
                        no_spill = d.no_spill ∙ o.same_spilled;
                      },
                      s,
                    )
                    | inr s ↦ inr record {
                      quiet = record {
                        same_seq = s.quiet.same_seq ∙ o.quiet.same_seq;
                        same_sent = s.quiet.same_sent ∙ o.quiet.same_sent;
                      };
                      w = s.w;
                      there = s.there;
                      ends = s.ends;
                      reported = s.reported ∙ ap (λ l. l ++ why ∷ []) o.same_spilled;
                      no_drop = s.no_drop ∙ o.same_dropped;
                    }
                  ])
        ]
  ]
]
