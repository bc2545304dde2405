-- ===== src/Feed/Gop/Carried.antt =====
-- What the current stream of runStreamGOP (feed/pump.go) carries after every unit.
use quicrtc.Prelude.{
  ℕ, ◌+◌, ◌≡◌, refl, sym, ap, ◌∙◌, ◌⊎◌, inl, inr, List, true, false, [], ◌∷◌, ◌++◌, append_assoc,
  append-nil, Option, some, none, Sink, All, All-append, arith, Bool-cases, subst,
}
use quicrtc.Pubsub.{AccessUnit}
use quicrtc.Feed.Gop.{
  Config, Pump, switch_stream, cancelled, ready, send_au, run_stream_gop, started, request,
}
use quicrtc.Feed.Gop.Laws.{
  frame_bytes, all_frames, header_bytes, all_frames-append, switch_stream-Switched, write_au_lem,
}

abbrev pub Seen : Type 0
Seen = List (AccessUnit × ℕ)

-- The bytes are the header and the frames of the last of the units seen, from one on that may start
-- a stream: a keyframe, or the very first unit where leading P-frames are allowed. No keyframe
-- follows it.
pub record Carries (c : Config) (seen : Seen) (bytes : List ℕ) : Type 0 where
  pub before : Seen
  pub first : AccessUnit × ℕ
  pub rest : Seen
  pub split : seen ≡ before ++ first ∷ rest
  pub starts : (first.0.keyframe ≡ true) ⊎ ((c.allow_leading_p_frames ≡ true) × (before ≡ []))
  pub follow : All (λ x. x.0.keyframe ≡ false) rest
  pub sent : bytes ≡ header_bytes c ++ all_frames c (first ∷ rest)

-- The current stream, if there is one, and the flag for leading P-frames.
pub record Inv (c : Config) (seen : Seen) (g : Pump) : Type 0 where
  pub stream : (g.current ≡ none) ⊎ ((w : Sink) × (g.current ≡ some w) × Carries c seen w.out)
  pub leading : (g.leading_allowed ≡ false) ⊎ ((seen ≡ []) × (c.allow_leading_p_frames ≡ true))

-- The unit was not sent, and a keyframe was requested; or it ends what the current stream carries.
abbrev pub Sent : Config → Seen → Pump → Pump → Type 0
Sent c seen g g' =
    ((g'.current ≡ none) × (g'.requests ≡ g.requests + 1))
    ⊎ ((w : Sink) × (g'.current ≡ some w) × (g'.requests ≡ g.requests) × Carries c seen w.out)

-- A frame that starts a stream.
start-Carries :
    (c : Config) (seen : Seen) (x : AccessUnit × ℕ) (bytes : List ℕ)
    → (x.0.keyframe ≡ true) ⊎ ((c.allow_leading_p_frames ≡ true) × (seen ≡ []))
    → bytes ≡ header_bytes c ++ frame_bytes c x
    → Carries c (seen ++ x ∷ []) bytes
start-Carries c seen x bytes h e = record {
  before = seen;
  first = x;
  rest = [];
  split = refl;
  starts = h;
  follow = tt;
  sent = e ∙ ap (λ b. header_bytes c ++ b) (sym (append-nil (frame_bytes c x)));
}

-- A P-frame that follows.
next-Carries :
    (c : Config) (seen : Seen) (x : AccessUnit × ℕ) (bytes : List ℕ)
    → x.0.keyframe ≡ false
    → Carries c seen bytes
    → Carries c (seen ++ x ∷ []) (bytes ++ frame_bytes c x)
next-Carries c seen x bytes h k = record {
  before = k.before;
  first = k.first;
  rest = k.rest ++ x ∷ [];
  split = ap (λ s. s ++ x ∷ []) k.split ∙ append_assoc k.before (k.first ∷ k.rest) (x ∷ []);
  starts = k.starts;
  follow = All-append (λ y. y.0.keyframe ≡ false) k.rest (x ∷ []) k.follow (h, tt);
  sent =
      ap (λ b. b ++ frame_bytes c x) k.sent
      ∙ append_assoc (header_bytes c) (all_frames c (k.first ∷ k.rest)) (frame_bytes c x)
      ∙ ap (λ b. header_bytes c ++ b) (sym (all_frames-append c (k.first ∷ k.rest) x));
}

-- A unit that starts a stream.
started-Sent :
    (c : Config) (seen : Seen) (x : AccessUnit × ℕ) (g g0 : Pump)
    → (x.0.keyframe ≡ true) ⊎ ((c.allow_leading_p_frames ≡ true) × (seen ≡ []))
    → g0.requests ≡ g.requests
    → ready c x.0 g ≡ switch_stream c g0
    → Sent c (seen ++ x ∷ []) g (send_au c x.1 x.0 g)
      × ((send_au c x.1 x.0 g).leading_allowed ≡ g0.leading_allowed)
unfolding send_au
started-Sent c seen x g g0 h q e = elim (switch_stream-Switched c g0) [
  | inl (stop, lost) ↦
      rw (send_au, e, stop) (inl (lost.gone, lost.asked ∙ ap (λ n. n + 1) q), lost.same_leading)
  | inr (go, kept) ↦
      let g1 = (switch_stream c g0).0 in
      rw (send_au, e, go)
        (elim (write_au_lem c x.1 x.0 g1 kept.w kept.there) [
          | inl lost ↦ (
            inl (lost.gone, lost.asked ∙ ap (λ n. n + 1) (kept.same_requests ∙ q)),
            lost.same_leading ∙ kept.same_leading,
          )
          | inr more ↦ (
            inr (
              more.w,
              more.there,
              more.same_requests ∙ kept.same_requests ∙ q,
              start-Carries c seen x more.w.out h
                  (more.out ∙ ap (λ b. b ++ frame_bytes c x) kept.out),
            ),
            more.same_leading ∙ kept.same_leading,
          )
        ])
]

Carries-nonempty : (c : Config) (bytes : List ℕ) → Carries c [] bytes → ⊥
Carries-nonempty c bytes k = impossible k.before k.split
  where
    impossible : (before : Seen) → [] ≡ before ++ k.first ∷ k.rest → ⊥
    impossible [] e = cc e
    impossible (y ∷ ys) e = cc e

-- A P-frame, on a current stream.
follow-Sent :
    (c : Config) (seen : Seen) (x : AccessUnit × ℕ) (g : Pump) (w : Sink)
    → x.0.keyframe ≡ false
    → g.current ≡ some w
    → Carries c seen w.out
    → Sent c (seen ++ x ∷ []) g (send_au c x.1 x.0 g)
      × ((send_au c x.1 x.0 g).leading_allowed ≡ g.leading_allowed)
unfolding send_au ready
follow-Sent c seen x g w k h carried =
    let e : ready c x.0 g ≡ (g, true) = ground (arith, k, h) in
    rw (send_au, e)
      (elim (write_au_lem c x.1 x.0 g w h) [
        | inl lost ↦ (inl (lost.gone, lost.asked), lost.same_leading)
        | inr more ↦ (
          inr (
            more.w,
            more.there,
            more.same_requests,
            subst (Carries c (seen ++ x ∷ [])) (sym more.out)
                (next-Carries c seen x w.out k carried),
          ),
          more.same_leading,
        )
      ])

send_au-Sent :
    (c : Config) (seen : Seen) (x : AccessUnit × ℕ) (g : Pump)
    → Inv c seen g
    → Sent c (seen ++ x ∷ []) g (send_au c x.1 x.0 g)
      × ((send_au c x.1 x.0 g).leading_allowed ≡ false)
unfolding send_au ready request
send_au-Sent c seen x g v = elim (Bool-cases x.0.keyframe) [
  | inl k ↦
      started-Sent c seen x g
        (record g { leading_allowed = false; reset = g.reset ++ cancelled g.current }) (inl k) refl
        (rw (ready, k))
  | inr k ↦ elim v.stream [
    | inl nothing ↦ elim (Bool-cases g.leading_allowed) [
      | inl allowed ↦ elim v.leading [
        | inl off ↦ absurd (cc (allowed, off))
        | inr (unseen, on) ↦
            started-Sent c seen x g (record g { leading_allowed = false }) (inr (on, unseen)) refl
              (ground (arith, k, nothing, allowed))
      ]
      | inr off ↦
          let e : ready c x.0 g ≡ (request g, false) = ground (arith, k, nothing, off) in
          rw (send_au, e) (inl (nothing, refl), off)
    ]
    | inr (w, h, carried) ↦
        let r = follow-Sent c seen x g w k h carried in
        elim v.leading [
          | inl off ↦ (r.0, r.1 ∙ off)
          | inr (unseen, on) ↦
              absurd (Carries-nonempty c w.out (subst (λ s. Carries c s w.out) unseen carried))
        ]
  ]
]

send_au-Inv :
    (c : Config) (seen : Seen) (x : AccessUnit × ℕ) (g : Pump)
    → Inv c seen g
    → Inv c (seen ++ x ∷ []) (send_au c x.1 x.0 g)
send_au-Inv c seen x g v =
    let (sent, off) = send_au-Sent c seen x g v in
    record {
      stream = elim sent [
        | inl lost ↦ inl lost.0
        | inr (w, there, same, carried) ↦ inr (w, there, carried)
      ];
      leading = inl off;
    }

run_stream_gop-Inv :
    (c : Config) (seen xs : Seen) (g : Pump)
    → Inv c seen g
    → Inv c (seen ++ xs) (run_stream_gop c xs g)
unfolding run_stream_gop
run_stream_gop-Inv c seen [] g v = subst (λ s. Inv c s g) (sym (append-nil seen)) v
run_stream_gop-Inv c seen (x ∷ xs) g v =
    subst (λ s. Inv c s (run_stream_gop c xs (send_au c x.1 x.0 g))) (append_assoc seen (x ∷ []) xs)
      (run_stream_gop-Inv c (seen ++ x ∷ []) xs (send_au c x.1 x.0 g) (send_au-Inv c seen x g v))

started-Inv : (c : Config) (opens : List (Option (List (Option ℕ)))) → Inv c [] (started c opens)
started-Inv c opens = record {
  stream = inl refl;
  leading = elim (Bool-cases c.allow_leading_p_frames) [
    | inl on ↦ inr (refl, on)
    | inr off ↦ inl off
  ];
}

-- After any units, whatever opens and writes fail, the next unit either is not sent, and then there
-- is no current stream and one more keyframe is requested; or it ends what the current stream
-- carries: the track header and then, with no gap, the frames of all units received since the one
-- that the stream starts with. That one is a keyframe, or the very first unit where leading
-- P-frames are allowed, and no later unit on the stream is a keyframe.
pub run_stream_gop-Sent :
    (c : Config) (opens : List (Option (List (Option ℕ)))) (xs : Seen) (x : AccessUnit × ℕ)
    → let g = run_stream_gop c xs (started c opens) in Sent c (xs ++ x ∷ []) g (send_au c x.1 x.0 g)
run_stream_gop-Sent c opens xs x =
    (send_au-Sent c xs x (run_stream_gop c xs (started c opens))
      (run_stream_gop-Inv c [] xs (started c opens) (started-Inv c opens))).0
