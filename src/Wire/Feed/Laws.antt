-- ===== src/Wire/Feed/Laws.antt =====
-- WriteFeedFrame and WriteFeedFrameWall against ReadFeedFrame.
use quicrtc.Prelude.{
  inl, inr, ◌⊎◌, ◌≢◌, ℕ, List, ◌≡◌, ◌==◌, if◌then◌else◌, ltb, length, take, drop, get_or, Sink, ok,
  read_full, put_u24, put_u32, put_u64, get_be, [], ◌∷◌, ◌++◌, read_full-append, get_be-put_u24,
  get_be-put_u32, get_be-put_u64, append_assoc, append-nil, arith, ◌≤◌, refl, bit_and, bit_or,
  IsByte, IsU32, IsU64, bit_and-bit_or_four,
}
use quicrtc.Wire.{max_feed_payload, feed_header_len, wall_ext_len, flag_publish_wall}
use quicrtc.Wire.Readers.{IsStable, Extends-bind, Extends-if, read_full-IsStable}
use quicrtc.Wire.Writers.{write_parts_cases, Outcome}
use quicrtc.Wire.Feed.{
  FeedFrame, feed_header, write_feed_frame, write_feed_frame_wall, read_wall, read_payload,
  read_feed_frame,
}

-- The extension that follows a header with these flags.
abbrev pub wall_ext : ℕ → ℕ → List ℕ
wall_ext flags wall = if bit_and flags flag_publish_wall == 0 then [] else put_u64 wall

-- The bytes of a frame: header, extension, payload.
abbrev pub feed_frame : FeedFrame → List ℕ
feed_frame f =
    (feed_header f.typ f.pts_micro f.seq f.flags f.payload ++ wall_ext f.flags f.pub_wall_micro)
    ++ f.payload

-- The fields are machine words, the payload fits, and there is a wall clock only with its flag.
pub record IsFrame (f : FeedFrame) : Type 0 where
  pub pts_fits : IsU64 f.pts_micro
  pub seq_fits : IsU32 f.seq
  pub flags_fit : IsByte f.flags
  pub wall_fits : IsU64 f.pub_wall_micro
  pub wall_flagged : (bit_and f.flags flag_publish_wall ≢ 0) ⊎ (f.pub_wall_micro ≡ 0)
  pub payload_fits : length f.payload ≤ max_feed_payload

unflagged :
    {f : FeedFrame} → IsFrame f → bit_and f.flags flag_publish_wall ≡ 0 → f.pub_wall_micro ≡ 0
unflagged v h = elim v.wall_flagged [ inl differs ↦ absurd (differs h) | inr z ↦ z ]

read_wall-ext :
    (flags wall : ℕ) (rest : List ℕ)
    → IsU64 wall
    → (bit_and flags flag_publish_wall ≡ 0 → wall ≡ 0)
    → read_wall flags (wall_ext flags wall ++ rest) ≡ ok (wall, rest)
unfolding read_wall
read_wall-ext flags wall rest h z = ground (arith, read_ext, get_be-put_u64 wall h)
  where
    read_ext : read_full wall_ext_len (put_u64 wall ++ rest) ≡ ok (put_u64 wall, rest)
    read_ext = read_full-append (put_u64 wall) rest 8 (unfold put_u64 in omega arith)

read_payload-append : (p rest : List ℕ) → read_payload (length p) (p ++ rest) ≡ ok (p, rest)
unfolding read_payload
read_payload-append [] rest = refl
read_payload-append (x ∷ xs) rest = ground (arith, read_full-append (x ∷ xs) rest (length (x ∷ xs)))

module _ (typ pts seq flags : ℕ) (payload : List ℕ) where
  abbrev hdr : List ℕ
  hdr = feed_header typ pts seq flags payload

  read_header : (rest : List ℕ) → read_full feed_header_len (hdr ++ rest) ≡ ok (hdr, rest)
  unfolding feed_header put_u24 put_u32 put_u64
  read_header rest = read_full-append hdr rest 17 (omega arith)

  -- What the reader finds at the offsets of the header.
  header_fields :
      IsU64 pts
      → IsU32 seq
      → length payload ≤ max_feed_payload
      → (get_or hdr 0 0 ≡ typ)
        × (get_be (take 3 (drop 1 hdr)) ≡ length payload)
        × (get_be (take 8 (drop 4 hdr)) ≡ pts)
        × (get_be (take 4 (drop 12 hdr)) ≡ seq)
        × (get_or hdr 16 0 ≡ flags)
  unfolding feed_header put_u24 put_u32 put_u64
  header_fields p s n = (
    refl,
    get_be-put_u24 (length payload) (omega arith),
    get_be-put_u64 pts p,
    get_be-put_u32 seq s,
    refl,
  )

-- ReadFeedFrame reads a whole frame, and leaves what follows it.
pub read-feed_frame :
    (f : FeedFrame) (rest : List ℕ)
    → IsFrame f
    → read_feed_frame (feed_frame f ++ rest) ≡ ok (f, rest)
unfolding read_feed_frame
read-feed_frame f rest v =
    let (a, b, c, d, e) =
      header_fields f.typ f.pts_micro f.seq f.flags f.payload v.pts_fits v.seq_fits
        v.payload_fits in
    rw
      (
        append_assoc
            (feed_header f.typ f.pts_micro f.seq f.flags f.payload
              ++ wall_ext f.flags f.pub_wall_micro)
            f.payload rest,
        append_assoc (feed_header f.typ f.pts_micro f.seq f.flags f.payload),
        read_header,
        b,
        e,
        read_wall-ext f.flags f.pub_wall_micro (f.payload ++ rest) v.wall_fits (unflagged v),
        read_payload-append f.payload rest,
      )
      (ground (arith, a, c, d))

-- The frames that the two writers are asked for.
abbrev pub plain_frame : ℕ → ℕ → ℕ → ℕ → List ℕ → FeedFrame
plain_frame t pts s fl p = record {
  typ = t;
  pts_micro = pts;
  seq = s;
  flags = fl;
  pub_wall_micro = 0;
  payload = p;
}

abbrev pub wall_frame : ℕ → ℕ → ℕ → ℕ → ℕ → List ℕ → FeedFrame
wall_frame t pts s fl wall p = record {
  typ = t;
  pts_micro = pts;
  seq = s;
  flags = bit_or fl flag_publish_wall;
  pub_wall_micro = wall;
  payload = p;
}

pub write_feed_frame_cases :
    (w : Sink) (t pts s fl : ℕ) (p : List ℕ)
    → length p ≤ max_feed_payload
    → bit_and fl flag_publish_wall ≡ 0
    → Outcome w (write_feed_frame w t pts s fl p) (feed_frame (plain_frame t pts s fl p))
unfolding write_feed_frame
write_feed_frame_cases w t pts s fl p h z =
    ground (
      arith,
      append-nil (feed_header t pts s fl p),
      write_parts_cases w (feed_header t pts s fl p) p,
    )

pub write_wall_cases :
    (w : Sink) (t pts s fl wall : ℕ) (p : List ℕ)
    → length p ≤ max_feed_payload
    → IsByte fl
    → Outcome w
        (write_feed_frame_wall w t pts s fl wall p)
        (feed_frame (wall_frame t pts s fl wall p))
unfolding write_feed_frame_wall
write_wall_cases w t pts s fl wall p h b = ground (
  arith,
  bit_and-bit_or_four fl b,
  write_parts_cases w (feed_header t pts s (bit_or fl flag_publish_wall) p ++ put_u64 wall) p,
)

pub read_feed_frame-IsStable : IsStable read_feed_frame
unfolding read_feed_frame read_wall read_payload
read_feed_frame-IsStable s more =
    Extends-bind more _ _ _ (read_full-IsStable feed_header_len s more) λ hdr t.
      let n = get_be (take 3 (drop 1 hdr)) in
      let flags = get_or hdr 16 0 in
      Extends-if more (ltb max_feed_payload n) _ _ _ _ refl (
        Extends-bind more (read_wall flags t) _ _
          (Extends-if more (bit_and flags flag_publish_wall == 0) _ _ _ _ refl
            (Extends-bind more _ _ _ (read_full-IsStable wall_ext_len t more) (λ e u. refl)))
          λ wall u.
            Extends-bind more (read_payload n u) _ _
              (Extends-if more (ltb 0 n) _ _ _ _ (read_full-IsStable n u more) refl) (λ p x. refl))
