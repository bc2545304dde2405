-- ===== src/Feed/Gop/Laws.antt =====
-- The opens and the writes of runStreamGOP (feed/pump.go).
use quicrtc.Prelude.{
  ℕ, ◌+◌, ◌≡◌, refl, sym, ap, ◌∙◌, ◌⊎◌, inl, inr, List, Bool, true, false, ◌==◌, ltb, if◌then◌else◌,
  length, [], ◌∷◌, ◌++◌, append_assoc, append-nil, Option, some, none, Sink, Bool-cases,
  Option-cases, List-cases,
}
use quicrtc.Pubsub.{AccessUnit}
use quicrtc.Wire.{max_feed_payload}
use quicrtc.Wire.Header.{write_stream_header}
use quicrtc.Wire.Header.Laws.{stream_header, stream_header_round_trip}
use quicrtc.Feed.{append_feed_frame, write_frame}
use quicrtc.Feed.Laws.{write_frame-refused, write_frame-Outcome}
use quicrtc.Feed.Gop.{
  Config, Pump, write_track_header, open_gop_stream, request, switch_stream, pub_wall, frame_type,
  frame_flags, write_au,
}

-- The bytes of a frame that were sent, by the time at which it was.
abbrev pub frame_bytes : Config → AccessUnit × ℕ → List ℕ
frame_bytes c x =
    append_feed_frame [] (frame_type x.0) x.0.pts_micro x.0.seq (frame_flags x.0)
      (pub_wall c x.1 x.0) x.0.bytes

abbrev pub all_frames : Config → List (AccessUnit × ℕ) → List ℕ
all_frames c [] = []
all_frames c (x ∷ xs) = frame_bytes c x ++ all_frames c xs

abbrev pub header_bytes : Config → List ℕ
header_bytes c = if length c.track_name == 0 then [] else stream_header c.track_name

pub all_frames-append :
    (c : Config) (xs : List (AccessUnit × ℕ)) (x : AccessUnit × ℕ)
    → all_frames c (xs ++ x ∷ []) ≡ all_frames c xs ++ frame_bytes c x
all_frames-append c [] x = append-nil (frame_bytes c x)
all_frames-append c (y ∷ xs) x =
    ap (λ b. frame_bytes c y ++ b) (all_frames-append c xs x)
    ∙ sym (append_assoc (frame_bytes c y) (all_frames c xs) (frame_bytes c x))

pub written_header :
    (w : Sink) (name : List ℕ)
    → (write_stream_header w name).1 ≡ none
    → (write_stream_header w name).0.out ≡ w.out ++ stream_header name
written_header w name h = elim (stream_header_round_trip w name []) [
  | inl r ↦ absurd (cc (r.2, h))
  | inr (inl r) ↦ absurd (cc (r.2, h))
  | inr (inr (inl r)) ↦ r.2
  | inr (inr (inr r)) ↦ r.2
]

pub written_frame :
    (scheduled : Bool) (w : Sink) (typ pts seq flags wall : ℕ) (payload : List ℕ)
    → (write_frame scheduled w typ pts seq flags wall payload).1 ≡ none
    → (write_frame scheduled w typ pts seq flags wall payload).0.out
      ≡ w.out ++ append_feed_frame [] typ pts seq flags wall payload
written_frame scheduled w typ pts seq flags wall payload h =
    elim (Bool-cases (ltb max_feed_payload (length payload))) [
      | inl big ↦ absurd (
          cc
            (ap (λ r. r.1) (write_frame-refused scheduled w typ pts seq flags wall payload big), h))
      | inr fits ↦ elim (write_frame-Outcome scheduled w typ pts seq flags wall payload fits) [
        | inl r ↦ absurd (cc (r.1, h))
        | inr r ↦ r.1
      ]
    ]

-- A failure: no current stream, and a keyframe is requested.
pub record Lost (g g' : Pump) : Type 0 where
  pub gone : g'.current ≡ none
  pub asked : g'.requests ≡ g.requests + 1
  pub same_leading : g'.leading_allowed ≡ g.leading_allowed

-- A current stream with these bytes.
pub record Kept (bytes : List ℕ) (g g' : Pump) : Type 0 where
  pub w : Sink
  pub there : g'.current ≡ some w
  pub out : w.out ≡ bytes
  pub same_requests : g'.requests ≡ g.requests
  pub same_leading : g'.leading_allowed ≡ g.leading_allowed

-- What an open gives: nothing, or a stream with the header on it.
record Opened (c : Config) (g : Pump) (r : Pump × Option Sink) : Type 0 where
  result : (r.1 ≡ none) ⊎ ((w : Sink) × (r.1 ≡ some w) × (w.out ≡ header_bytes c))
  pub same_requests : r.0.requests ≡ g.requests
  pub same_leading : r.0.leading_allowed ≡ g.leading_allowed

write_track_header-Opened :
    (c : Config) (faults : List (Option ℕ)) (g : Pump)
    → Opened c g (write_track_header c (record { out = []; faults = faults }) g)
unfolding write_track_header
write_track_header-Opened c faults g =
    let w : Sink = record { out = []; faults = faults } in
    elim (Bool-cases (length c.track_name == 0)) [
      | inl unnamed ↦
          rw (write_track_header, unnamed)
            record { result = inr (w, refl, rw unnamed); same_requests = refl; same_leading = refl }
      | inr named ↦ elim (Option-cases (write_stream_header w c.track_name).1) [
        | inl e ↦
            rw (write_track_header, named, e)
              record {
                result = inr (
                  (write_stream_header w c.track_name).0,
                  refl,
                  rw named (written_header w c.track_name e),
                );
                same_requests = refl;
                same_leading = refl;
              }
        | inr (fault, e) ↦
            rw (write_track_header, named, e)
              record { result = inl refl; same_requests = refl; same_leading = refl }
      ]
    ]

open_gop_stream-Opened : (c : Config) (g : Pump) → Opened c g (open_gop_stream c g)
unfolding open_gop_stream
open_gop_stream-Opened c g = elim (List-cases g.opens) [
  | inl e ↦
      rw (open_gop_stream, e)
        record { result = inl refl; same_requests = refl; same_leading = refl }
  | inr (none, opens, e) ↦
      rw (open_gop_stream, e)
        record { result = inl refl; same_requests = refl; same_leading = refl }
  | inr (some faults, opens, e) ↦
      rw (open_gop_stream, e)
        (let o = write_track_header-Opened c faults (record g { opens = opens }) in
          record {
            result = o.result;
            same_requests = o.same_requests;
            same_leading = o.same_leading;
          })
]

-- A switch to a new stream, and a write to the current one.
abbrev pub Switched : Config → Pump → Pump × Bool → Type 0
Switched c g r = ((r.1 ≡ false) × Lost g r.0) ⊎ ((r.1 ≡ true) × Kept (header_bytes c) g r.0)

pub switch_stream-Switched : (c : Config) (g : Pump) → Switched c g (switch_stream c g)
unfolding switch_stream request
switch_stream-Switched c g =
    let o = open_gop_stream-Opened c g in
    elim o.result [
      | inl e ↦
          rw (switch_stream, e)
            (inl (
              refl,
              record {
                gone = refl;
                asked = ap (λ n. n + 1) o.same_requests;
                same_leading = o.same_leading;
              },
            ))
      | inr (w, e, out) ↦
          rw (switch_stream, e)
            (inr (
              refl,
              record {
                w = w;
                there = refl;
                out = out;
                same_requests = o.same_requests;
                same_leading = o.same_leading;
              },
            ))
    ]

pub write_au_lem :
    (c : Config) (now : ℕ) (au : AccessUnit) (g : Pump) (w : Sink)
    → g.current ≡ some w
    → Lost g (write_au c now au g) ⊎ Kept (w.out ++ frame_bytes c (au, now)) g (write_au c now au g)
unfolding write_au request
write_au_lem c now au g w h =
    let r =
      write_frame c.scheduled w (frame_type au) au.pts_micro au.seq (frame_flags au)
        (pub_wall c now au) au.bytes in
    elim (Option-cases r.1) [
      | inl e ↦ inr (
          rw (write_au, h, e)
            record {
              w = r.0;
              there = refl;
              out =
                  written_frame c.scheduled w (frame_type au) au.pts_micro au.seq (frame_flags au)
                    (pub_wall c now au) au.bytes e;
              same_requests = refl;
              same_leading = refl;
            })
      | inr (fault, e) ↦
          inl (rw (write_au, h, e) record { gone = refl; asked = refl; same_leading = refl })
    ]
