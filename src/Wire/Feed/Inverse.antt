-- ===== src/Wire/Feed/Inverse.antt =====
-- What ReadFeedFrame (wire/frame.go) accepts.
use quicrtc.Prelude.{
  ◌⊎◌, ◌≢◌, ℕ, List, ◌≡◌, ◌==◌, ltb, length, take, drop, get_or, Result, ok, ◌>>=◌, read_full,
  put_u24, put_u32, put_u64, get_be, [], ◌∷◌, ◌++◌, append_assoc, arith, ◌≤◌, refl, inl, inr,
  bit_and, IsByte, IsU32, IsU64, All, false, ap, Bool-cases, >>=-eq-ok,
}
use quicrtc.Wire.{max_feed_payload, feed_header_len, wall_ext_len, flag_publish_wall}
use quicrtc.Wire.Readers.{read_full-inv}
use quicrtc.Wire.Feed.{FeedFrame, feed_header, read_wall, read_payload, read_body, read_feed_frame}
use quicrtc.Wire.Feed.Laws.{IsFrame, feed_frame, wall_ext}

put_u24-get_be :
    (a b c : ℕ) → All IsByte (a ∷ b ∷ c ∷ []) → put_u24 (get_be (a ∷ b ∷ c ∷ [])) ≡ a ∷ b ∷ c ∷ []
unfolding put_u24 get_be
put_u24-get_be a b c h = ground arith

put_u32-get_be :
    (a b c d : ℕ)
    → All IsByte (a ∷ b ∷ c ∷ d ∷ [])
    → (put_u32 (get_be (a ∷ b ∷ c ∷ d ∷ [])) ≡ a ∷ b ∷ c ∷ d ∷ [])
      × IsU32 (get_be (a ∷ b ∷ c ∷ d ∷ []))
unfolding put_u32 get_be
put_u32-get_be a b c d h = ground arith

put_u64-get_be :
    (s : List ℕ) → length s ≡ 8 → All IsByte s → (put_u64 (get_be s) ≡ s) × IsU64 (get_be s)
unfolding put_u64 get_be
put_u64-get_be (a ∷ b ∷ c ∷ d ∷ e ∷ f ∷ g ∷ h ∷ []) n p = ground arith
put_u64-get_be s n p = absurd (omega arith)

-- A header of 17 bytes is the header of the fields that the reader finds in it.
header_again :
    (hdr payload : List ℕ)
    → length hdr ≡ 17
    → All IsByte hdr
    → length payload ≡ get_be (take 3 (drop 1 hdr))
    → (feed_header
          (get_or hdr 0 0)
          (get_be (take 8 (drop 4 hdr)))
          (get_be (take 4 (drop 12 hdr)))
          (get_or hdr 16 0)
          payload
        ≡ hdr)
      × IsU64 (get_be (take 8 (drop 4 hdr)))
      × IsU32 (get_be (take 4 (drop 12 hdr)))
      × IsByte (get_or hdr 16 0)
unfolding feed_header
header_again
      (t ∷ l1 ∷ l2 ∷ l3 ∷ p1 ∷ p2 ∷ p3 ∷ p4 ∷ p5 ∷ p6 ∷ p7 ∷ p8 ∷ s1 ∷ s2 ∷ s3 ∷ s4 ∷ fl ∷ [])
      payload n b e =
    let (pts, pts_fits) =
      put_u64-get_be (p1 ∷ p2 ∷ p3 ∷ p4 ∷ p5 ∷ p6 ∷ p7 ∷ p8 ∷ []) refl (omega arith) in
    let (seq, seq_fits) = put_u32-get_be s1 s2 s3 s4 (omega arith) in
    (rw (e, put_u24-get_be l1 l2 l3 (omega arith), pts, seq), pts_fits, seq_fits, omega arith)
header_again hdr payload n b e = absurd (omega arith)

All-append_inv : (xs ys : List ℕ) → All IsByte (xs ++ ys) → All IsByte xs × All IsByte ys
All-append_inv [] ys h = (tt, h)
All-append_inv (x ∷ xs) ys h = let (a, b) = All-append_inv xs ys h.1 in ((h.0, a), b)

-- What `read_wall` takes from its input.
abbrev IsWall : ℕ → ℕ → List ℕ → List ℕ → Type 0
IsWall flags wall s t =
    (s ≡ wall_ext flags wall ++ t)
    × IsU64 wall
    × ((bit_and flags flag_publish_wall ≢ 0) ⊎ (wall ≡ 0))

flagged-IsWall :
    (flags wall : ℕ) (s t ext u : List ℕ)
    → (bit_and flags flag_publish_wall == 0) ≡ false
    → All IsByte s
    → (s ≡ ext ++ u) × (length ext ≡ 8)
    → ◌≡◌ {A = Result (ℕ × List ℕ)} (ok (get_be ext, u)) (ok (wall, t))
    → IsWall flags wall s t
flagged-IsWall flags wall s t ext u flagged b (front, size) last =
    let (same, fits) = put_u64-get_be ext size (All-append_inv ext u (rw front at b)).0 in
    let value : get_be ext ≡ wall = ground arith in
    let rest : u ≡ t = ground arith in
    (ground (arith, ap put_u64 value), rw (← value) fits, inl (λ z. absurd (ground arith)))

read_wall-inv :
    (flags wall : ℕ) (s t : List ℕ)
    → All IsByte s
    → read_wall flags s ≡ ok (wall, t)
    → IsWall flags wall s t
unfolding read_wall
read_wall-inv flags wall s t b e = elim (Bool-cases (bit_and flags flag_publish_wall == 0)) [
  | inl plain ↦ ground arith
  | inr flagged ↦
      let ((ext, u), whole, last) =
        >>=-eq-ok (read_full wall_ext_len s) (λ x. ok (get_be x.0, x.1)) (rw flagged at e) in
      flagged-IsWall flags wall s t ext u flagged b (read_full-inv 8 s ext u whole) last
]

read_payload-inv :
    (n : ℕ) (s p t : List ℕ) → read_payload n s ≡ ok (p, t) → (s ≡ p ++ t) × (length p ≡ n)
unfolding read_payload
read_payload-inv n s p t e = ground (arith, read_full-inv n s p t)

-- The frame that the reader builds.
abbrev frame_of : List ℕ → ℕ → List ℕ → FeedFrame
frame_of hdr wall payload = record {
  typ = get_or hdr 0 0;
  pts_micro = get_be (take 8 (drop 4 hdr));
  seq = get_be (take 4 (drop 12 hdr));
  flags = get_or hdr 16 0;
  pub_wall_micro = wall;
  payload = payload;
}

whole-IsFrame :
    (r hdr r1 r2 payload rest : List ℕ) (wall : ℕ)
    → All IsByte r
    → (r ≡ hdr ++ r1) × (length hdr ≡ 17)
    → get_be (take 3 (drop 1 hdr)) ≤ max_feed_payload
    → IsWall (get_or hdr 16 0) wall r1 r2
    → (r2 ≡ payload ++ rest) × (length payload ≡ get_be (take 3 (drop 1 hdr)))
    → (r ≡ feed_frame (frame_of hdr wall payload) ++ rest) × IsFrame (frame_of hdr wall payload)
whole-IsFrame r hdr r1 r2 payload rest wall b (front, size) small (ext, wall_fits, flagged)
      (back, n) =
    let (same, pts, seq, flags) =
      header_again hdr payload size (All-append_inv hdr r1 (rw front at b)).0 n in
    (
      rw (
        front,
        same,
        ext,
        back,
        append_assoc (hdr ++ wall_ext (get_or hdr 16 0) wall) payload rest,
        append_assoc,
      ),
      record {
        pts_fits = pts;
        seq_fits = seq;
        flags_fit = flags;
        wall_fits = wall_fits;
        wall_flagged = flagged;
        payload_fits = omega arith;
      },
    )

abbrev built : List ℕ → ℕ → List ℕ × List ℕ → Result (FeedFrame × List ℕ)
built hdr wall x = ok (frame_of hdr wall x.0, x.1)

-- The three reads of the body, one after another.
after_payload :
    (r hdr r1 r2 p r3 : List ℕ) (wall : ℕ) (f : FeedFrame) (rest : List ℕ)
    → All IsByte r
    → (r ≡ hdr ++ r1) × (length hdr ≡ 17)
    → get_be (take 3 (drop 1 hdr)) ≤ max_feed_payload
    → IsWall (get_or hdr 16 0) wall r1 r2
    → read_payload (get_be (take 3 (drop 1 hdr))) r2 ≡ ok (p, r3)
    → ◌≡◌ {A = Result (FeedFrame × List ℕ)} (ok (frame_of hdr wall p, r3)) (ok (f, rest))
    → (r ≡ feed_frame f ++ rest) × IsFrame f
after_payload r hdr r1 r2 p r3 wall f rest b front small ext third e =
    let same : frame_of hdr wall p ≡ f = ground arith in
    let left : r3 ≡ rest = ground arith in
    rw (← same, ← left)
      (whole-IsFrame r hdr r1 r2 p r3 wall b front small ext (read_payload-inv _ r2 p r3 third))

after_wall :
    (r hdr r1 r2 : List ℕ) (wall : ℕ) (f : FeedFrame) (rest : List ℕ)
    → All IsByte r
    → (r ≡ hdr ++ r1) × (length hdr ≡ 17)
    → get_be (take 3 (drop 1 hdr)) ≤ max_feed_payload
    → read_wall (get_or hdr 16 0) r1 ≡ ok (wall, r2)
    → (read_payload (get_be (take 3 (drop 1 hdr))) r2 >>= built hdr wall) ≡ ok (f, rest)
    → (r ≡ feed_frame f ++ rest) × IsFrame f
after_wall r hdr r1 r2 wall f rest b front small second e =
    let b1 = (All-append_inv hdr r1 (rw front.0 at b)).1 in
    let ((p, r3), third, e3) = >>=-eq-ok (read_payload (get_be (take 3 (drop 1 hdr))) r2) _ e in
    after_payload r hdr r1 r2 p r3 wall f rest b front small (read_wall-inv _ wall r1 r2 b1 second)
      third e3

after_header :
    (r hdr r1 : List ℕ) (f : FeedFrame) (rest : List ℕ)
    → All IsByte r
    → (r ≡ hdr ++ r1) × (length hdr ≡ 17)
    → read_body hdr r1 ≡ ok (f, rest)
    → (r ≡ feed_frame f ++ rest) × IsFrame f
unfolding read_body
after_header r hdr r1 f rest b front e =
    elim (Bool-cases (ltb max_feed_payload (get_be (take 3 (drop 1 hdr))))) [
      | inl big ↦ absurd (ground arith)
      | inr small ↦
          let ((wall, r2), second, e2) =
            >>=-eq-ok (read_wall (get_or hdr 16 0) r1) _ (rw small at e) in
          after_wall r hdr r1 r2 wall f rest b front (ground arith) second e2
    ]

-- ReadFeedFrame takes from its input exactly the bytes of the frame that it returns, header,
-- extension and payload, and that frame is one whose fields fit the wire.
pub read_feed_frame-inv :
    (r : List ℕ) (f : FeedFrame) (rest : List ℕ)
    → All IsByte r
    → read_feed_frame r ≡ ok (f, rest)
    → (r ≡ feed_frame f ++ rest) × IsFrame f
unfolding read_feed_frame
read_feed_frame-inv r f rest b e =
    let ((hdr, r1), first, e1) =
      >>=-eq-ok (read_full feed_header_len r) (λ x. read_body x.0 x.1) e in
    after_header r hdr r1 f rest b (read_full-inv feed_header_len r hdr r1 first) e1
