-- ===== src/Wire/Feed.antt =====
-- Feed frames: FeedFrame, ReadFeedFrame, WriteFeedFrame and WriteFeedFrameWall of wire/frame.go.
pub mod Laws
pub mod RoundTrip
pub mod Inverse
use quicrtc.Prelude.{
  ℕ, List, Bool, Option, some, none, ◌≡◌, ◌==◌, ◌||◌, not, bit_and, bit_or, if◌then◌else◌, ltb,
  length, take, drop, get_or, Sink, Error, frame_too_large, Result, ok, err, ◌>>=◌, read_full,
  put_u24, put_u32, put_u64, get_be, [], ◌∷◌, ◌++◌,
}
use quicrtc.Wire.{
  max_feed_payload, feed_header_len, wall_ext_len, type_keyframe, flag_keyframe, flag_publish_wall,
  write_parts,
}

pub record FeedFrame : Type 0 where
  pub typ : ℕ
  pub pts_micro : ℕ
  pub seq : ℕ
  pub flags : ℕ
  pub pub_wall_micro : ℕ
  pub payload : List ℕ

unfoldable pub is_keyframe : FeedFrame → Bool
is_keyframe f = f.typ == type_keyframe || not (bit_and f.flags flag_keyframe == 0)

-- The fixed header, as both writers fill it in.
unfoldable pub feed_header : ℕ → ℕ → ℕ → ℕ → List ℕ → List ℕ
feed_header typ pts_micro seq flags payload =
    typ ∷ (put_u24 (length payload) ++ (put_u64 pts_micro ++ (put_u32 seq ++ flags ∷ [])))

unfoldable pub write_feed_frame : Sink → ℕ → ℕ → ℕ → ℕ → List ℕ → Sink × Option Error
write_feed_frame w typ pts_micro seq flags payload =
    if ltb max_feed_payload (length payload)
    then (w, some frame_too_large)
    else write_parts w (feed_header typ pts_micro seq flags payload) payload

unfoldable pub write_feed_frame_wall : Sink → ℕ → ℕ → ℕ → ℕ → ℕ → List ℕ → Sink × Option Error
write_feed_frame_wall w typ pts_micro seq flags pub_wall_micro payload =
    if ltb max_feed_payload (length payload)
    then (w, some frame_too_large)
    else write_parts w
        (feed_header typ pts_micro seq (bit_or flags flag_publish_wall) payload
          ++ put_u64 pub_wall_micro)
        payload

-- The optional extension behind the header; its value is 0 where the flag is not set.
unfoldable pub read_wall : ℕ → List ℕ → Result (ℕ × List ℕ)
read_wall flags r =
    if bit_and flags flag_publish_wall == 0
    then ok (0, r)
    else (do (ext, r1) ← read_full wall_ext_len r; ok (get_be ext, r1))

unfoldable pub read_payload : ℕ → List ℕ → Result (List ℕ × List ℕ)
read_payload n r = if ltb 0 n then read_full n r else ok ([], r)

-- What ReadFeedFrame does once it has the header.
unfoldable pub read_body : List ℕ → List ℕ → Result (FeedFrame × List ℕ)
read_body hdr r =
    let n = get_be (take 3 (drop 1 hdr)) in
    let flags = get_or hdr 16 0 in
    if ltb max_feed_payload n then err frame_too_large else do
      (wall, r1) ← read_wall flags r
      (payload, r2) ← read_payload n r1
      ok (
        record {
          typ = get_or hdr 0 0;
          pts_micro = get_be (take 8 (drop 4 hdr));
          seq = get_be (take 4 (drop 12 hdr));
          flags = flags;
          pub_wall_micro = wall;
          payload = payload;
        },
        r2,
      )

unfoldable pub read_feed_frame : List ℕ → Result (FeedFrame × List ℕ)
unfolding read_body
read_feed_frame r = do (hdr, r1) ← read_full feed_header_len r; read_body hdr r1
