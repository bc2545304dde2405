-- ===== src/Feed/Laws.antt =====
-- writeFrame of feed/pump.go against the codec of wire/frame.go.
use quicrtc.Prelude.{
  ℕ, zero, suc, ◌+◌, ◌≡◌, refl, sym, ap, ◌∙◌, ◌≤◌, ◌<◌, inl, inr, List, Bool, true, false, not,
  ◌||◌, ◌==◌, ltb, leb, if◌then◌else◌, length, take, drop, length-drop, take-append-drop, [], ◌∷◌,
  ◌++◌, append_assoc, append-nil, some, Sink, frame_too_large, write, put_u64, bit_and, bit_or,
  IsByte, IsU32, IsU64, arith, Bool-cases, subst, bit_and-bit_or_four,
}
use quicrtc.Wire.{max_feed_payload, feed_header_len, flag_publish_wall}
use quicrtc.Wire.Writers.{write_cases, Outcome}
use quicrtc.Wire.Feed.{FeedFrame, feed_header}
use quicrtc.Wire.Feed.Laws.{IsFrame, feed_frame, plain_frame, wall_frame}
use quicrtc.Wire.Feed.RoundTrip.{Delivers, delivers, wall_frame-IsFrame}
use quicrtc.Feed.{
  append_feed_frame, write_feed_frame_pooled, write_chunks, write_frame, pacing_chunk_bytes,
}

write-Outcome : (w : Sink) (p : List ℕ) → Outcome w (write w p) p
write-Outcome w p = elim (write_cases w p) [ inl f ↦ inl f | inr g ↦ inr (g.0, g.1) ]

write_chunks-Outcome :
    (fuel : ℕ) (buf : List ℕ) (w : Sink)
    → length buf ≤ fuel
    → Outcome w (write_chunks fuel buf w) buf
unfolding write_chunks
write_chunks-Outcome zero [] w h = inr (refl, sym (append-nil w.out))
write_chunks-Outcome zero (x ∷ xs) w h = absurd (omega arith)
write_chunks-Outcome (suc fuel) [] w h = inr (refl, sym (append-nil w.out))
write_chunks-Outcome (suc fuel) (x ∷ xs) w h =
    let chunk = take pacing_chunk_bytes (x ∷ xs) in
    let rest = drop pacing_chunk_bytes (x ∷ xs) in
    elim (write_cases w chunk) [
      | inl f ↦ rw (write_chunks, f.1) (inl (f.0, refl))
      | inr g ↦
          elim (write_chunks-Outcome fuel rest (write w chunk).0
            (omega (arith, length-drop pacing_chunk_bytes (x ∷ xs)))) [
              | inl k ↦ rw (write_chunks, g.0) (inl (λ z. k.0 (g.2 z), k.1))
              | inr k ↦
                  let out =
                    k.1
                    ∙ ap (λ o. o ++ rest) g.1
                    ∙ append_assoc w.out chunk rest
                    ∙ ap (λ b. w.out ++ b) (take-append-drop pacing_chunk_bytes (x ∷ xs)) in
                  rw (write_chunks, g.0) (inr (k.0, out))
            ]
    ]

-- The frame that the pump means to send: with a wall clock and its flag, or without.
abbrev pub pump_frame : ℕ → ℕ → ℕ → ℕ → ℕ → List ℕ → FeedFrame
pump_frame typ pts seq flags pub_wall payload =
    if pub_wall == 0
    then plain_frame typ pts seq flags payload
    else wall_frame typ pts seq flags pub_wall payload

regroup :
    (dst hdr ext payload : List ℕ)
    → ((dst ++ hdr) ++ ext) ++ payload ≡ dst ++ ((hdr ++ ext) ++ payload)
regroup dst hdr ext payload =
    append_assoc (dst ++ hdr) ext payload
    ∙ append_assoc dst hdr (ext ++ payload)
    ∙ ap (λ b. dst ++ b) (sym (append_assoc hdr ext payload))

-- The pump's encoder appends the bytes of the wire codec's frame.
pub append_feed_frame-feed_frame :
    (dst : List ℕ) (typ pts seq flags pub_wall : ℕ) (payload : List ℕ)
    → IsByte flags
    → bit_and flags flag_publish_wall ≡ 0
    → append_feed_frame dst typ pts seq flags pub_wall payload
      ≡ dst ++ feed_frame (pump_frame typ pts seq flags pub_wall payload)
unfolding append_feed_frame feed_header
append_feed_frame-feed_frame dst typ pts seq flags pub_wall payload hf z =
    elim (Bool-cases (pub_wall == 0)) [
      | inl off ↦
          rw (append_feed_frame, off, z)
            (regroup dst (feed_header typ pts seq flags payload) [] payload)
      | inr on ↦
          rw (append_feed_frame, on, bit_and-bit_or_four flags hf)
            (regroup dst (feed_header typ pts seq (bit_or flags flag_publish_wall) payload)
              (put_u64 pub_wall) payload)
    ]

pub pump_frame-IsFrame :
    (typ pts seq flags pub_wall : ℕ) (payload : List ℕ)
    → IsU64 pts
    → IsU32 seq
    → IsByte flags
    → IsU64 pub_wall
    → length payload ≤ max_feed_payload
    → IsFrame (pump_frame typ pts seq flags pub_wall payload)
pump_frame-IsFrame typ pts seq flags pub_wall payload hp hs hf hw h =
    elim (Bool-cases (pub_wall == 0)) [
      | inl off ↦ rw off record {
        pts_fits = hp;
        seq_fits = hs;
        flags_fit = hf;
        wall_fits = omega arith;
        wall_flagged = inr refl;
        payload_fits = h;
      }
      | inr on ↦ rw on (wall_frame-IsFrame typ pts seq flags pub_wall payload hp hs hf hw h)
    ]

pump_payload :
    (typ pts seq flags pub_wall : ℕ) (payload : List ℕ)
    → (pump_frame typ pts seq flags pub_wall payload).payload ≡ payload
pump_payload typ pts seq flags pub_wall payload = elim (Bool-cases (pub_wall == 0)) [
  | inl off ↦ rw off
  | inr on ↦ rw on
]

pub write_frame-refused :
    (scheduled : Bool) (w : Sink) (typ pts seq flags pub_wall : ℕ) (payload : List ℕ)
    → ltb max_feed_payload (length payload) ≡ true
    → write_frame scheduled w typ pts seq flags pub_wall payload ≡ (w, some frame_too_large)
unfolding write_frame
write_frame-refused scheduled w typ pts seq flags pub_wall payload h = rw (write_frame, h)

pub write_frame-Outcome :
    (scheduled : Bool) (w : Sink) (typ pts seq flags pub_wall : ℕ) (payload : List ℕ)
    → ltb max_feed_payload (length payload) ≡ false
    → Outcome w
        (write_frame scheduled w typ pts seq flags pub_wall payload)
        (append_feed_frame [] typ pts seq flags pub_wall payload)
unfolding write_frame write_feed_frame_pooled
write_frame-Outcome scheduled w typ pts seq flags pub_wall payload h =
    let buf = append_feed_frame [] typ pts seq flags pub_wall payload in
    elim (Bool-cases (not scheduled || leb (feed_header_len + length payload) pacing_chunk_bytes)) [
      | inl whole ↦ rw (write_frame, h, whole) (write-Outcome w buf)
      | inr chunked ↦
          rw (write_frame, h, chunked) (write_chunks-Outcome (length buf) buf w (omega arith))
    ]

-- The pump's frame survives the wire, whatever the scheduling: writeFrame refuses a payload over the
-- limit with nothing written, or a Write fails, or the frame is written whole, in one Write or in
-- chunks, as the very bytes that WriteFeedFrame or WriteFeedFrameWall write, and ReadFeedFrame reads
-- it back. This holds for flags without the publish-wall flag, which the pump sets itself.
pub write_frame-Delivers :
    (scheduled : Bool) (w : Sink) (typ pts seq flags pub_wall : ℕ) (payload rest : List ℕ)
    → IsU64 pts
    → IsU32 seq
    → IsByte flags
    → IsU64 pub_wall
    → bit_and flags flag_publish_wall ≡ 0
    → Delivers w
        (write_frame scheduled w typ pts seq flags pub_wall payload)
        (pump_frame typ pts seq flags pub_wall payload)
        rest
write_frame-Delivers scheduled w typ pts seq flags pub_wall payload rest hp hs hf hw z =
    let f = pump_frame typ pts seq flags pub_wall payload in
    elim (Bool-cases (ltb max_feed_payload (length payload))) [
      | inl big ↦ inl (
        subst (λ p. max_feed_payload < length p)
            (sym (pump_payload typ pts seq flags pub_wall payload)) (ground arith),
        write_frame-refused scheduled w typ pts seq flags pub_wall payload big,
      )
      | inr fits ↦
          delivers w (write_frame scheduled w typ pts seq flags pub_wall payload) f rest
            (pump_frame-IsFrame typ pts seq flags pub_wall payload hp hs hf hw (ground arith))
            (subst (Outcome w (write_frame scheduled w typ pts seq flags pub_wall payload))
              (append_feed_frame-feed_frame [] typ pts seq flags pub_wall payload hf z)
              (write_frame-Outcome scheduled w typ pts seq flags pub_wall payload fits))
    ]
