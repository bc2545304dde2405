-- ===== src/Wire/Header.antt =====
-- Stream headers: WriteStreamHeader and PeekStreamHeader of wire/frame.go.
pub mod Laws
use quicrtc.Prelude.{
  ℕ, List, Bool, Option, some, none, ◌≡◌, ◌==◌, if◌then◌else◌, ltb, length, get_or, Sink, Error,
  frame_too_large, empty_header, Result, ok, err, ◌>>=◌, read_full, put_u24, get_be, [], ◌∷◌, ◌++◌,
}
use quicrtc.Wire.{max_stream_header, type_stream_header, write_parts}

-- A track name is the list of its bytes.
unfoldable pub write_stream_header : Sink → List ℕ → Sink × Option Error
write_stream_header w track_name =
    if ltb max_stream_header (length track_name)
    then (w, some frame_too_large)
    else write_parts w (type_stream_header ∷ put_u24 (length track_name)) track_name

-- The result is (trackName, firstByte) and the reader after it.
unfoldable pub peek_stream_header : List ℕ → Result ((List ℕ × ℕ) × List ℕ)
peek_stream_header r = do
  (b, r1) ← read_full 1 r
  if get_or b 0 0 == type_stream_header
      then (do
        (len_buf, r2) ← read_full 3 r1
        let n = get_be len_buf
        if ltb max_stream_header n
            then err frame_too_large
            else (if n == 0
                then err empty_header
                else (do (name, r3) ← read_full n r2; ok ((name, 0), r3))))
      else ok (([], get_or b 0 0), r1)
