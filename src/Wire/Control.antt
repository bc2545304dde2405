-- ===== src/Wire/Control.antt =====
-- Control frames: ReadControlFrame and WriteControlFrame of wire/frame.go.
pub mod Laws
use quicrtc.Prelude.{
  ℕ, List, Bool, Option, some, none, ◌≡◌, ◌==◌, if◌then◌else◌, ltb, length, take, drop, get_or,
  Sink, Error, frame_too_large, Result, ok, err, ◌>>=◌, read_full, put_u24, get_be, [], ◌∷◌, ◌++◌,
}
use quicrtc.Wire.{max_control_payload, write_parts}

unfoldable pub write_control_frame : Sink → ℕ → List ℕ → Sink × Option Error
write_control_frame w typ payload =
    if ltb max_control_payload (length payload)
    then (w, some frame_too_large)
    else write_parts w (typ ∷ put_u24 (length payload)) payload

-- The result is the type, the payload (a nil payload is the empty list) and the reader after it.
unfoldable pub read_control_frame : List ℕ → Result ((ℕ × List ℕ) × List ℕ)
read_control_frame r = do
  (hdr, r1) ← read_full 4 r
  let typ = get_or hdr 0 0
  let n = get_be (take 3 (drop 1 hdr))
  if ltb max_control_payload n
      then err frame_too_large
      else (if n == 0
          then ok ((typ, []), r1)
          else (do (payload, r2) ← read_full n r1; ok ((typ, payload), r2)))
