-- ===== src/Wire.antt =====
-- wire/frame.go and wire/datagram.go: the frame types, limits and flags that the codecs share.
pub mod Readers
pub mod Writers
pub mod Control
pub mod Header
pub mod Feed
pub mod Datagram
pub mod Hello
mod Tests
use quicrtc.Prelude.{
  ℕ, List, Bool, Option, some, none, ◌≡◌, ◌*◌, bit_and, ◌||◌, not, ◌==◌, if◌then◌else◌, ltb, length,
  Sink, write, Error, [], ◌∷◌, ◌++◌, refl, arith, ltb→lt, ◌≤◌,
}

abbrev pub type_stream_header : ℕ
type_stream_header = 0x23

abbrev pub type_keyframe : ℕ
type_keyframe = 0x20

abbrev pub type_p_frame : ℕ
type_p_frame = 0x21

abbrev pub type_datagram_au : ℕ
type_datagram_au = 0x24

abbrev pub flag_keyframe : ℕ
flag_keyframe = 1

abbrev pub flag_discontinuity : ℕ
flag_discontinuity = 2

abbrev pub flag_publish_wall : ℕ
flag_publish_wall = 4

abbrev pub max_stream_header : ℕ
max_stream_header = 1024

abbrev pub max_control_payload : ℕ
max_control_payload = 64 * 1024

abbrev pub max_feed_payload : ℕ
max_feed_payload = 0xFFFFFF

abbrev pub feed_header_len : ℕ
feed_header_len = 17

abbrev pub wall_ext_len : ℕ
wall_ext_len = 8

abbrev pub datagram_header_len : ℕ
datagram_header_len = 4

abbrev pub max_datagram_payload : ℕ
max_datagram_payload = 1100

-- The end of every writer: a Write of the header, then a Write of the payload unless it is empty.
unfoldable pub write_parts : Sink → List ℕ → List ℕ → Sink × Option Error
write_parts w hdr payload =
    let (w', e) = write w hdr in
    elim e [
      | some x ↦ (w', some x)
      | none ↦ if length payload == 0 then (w', none) else write w' payload
    ]
