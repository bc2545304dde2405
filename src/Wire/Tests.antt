-- ===== src/Wire/Tests.antt =====
-- Concrete frames for the theorems on the wire formats.
use quicrtc.Prelude.{
  inr, ℕ, List, some, none, ◌≡◌, ◌≢◌, refl, ◌⊎◌, ◌≤◌, ◌<◌, length, [], ◌∷◌, ◌++◌, arith, Sink, eof,
  unexpected_eof, frame_too_large, empty_header, io_fault, datagram_too_large, ok, err, read_full,
  Text, put_u24, put_u32, put_u64, get_be,
}
use quicrtc.Wire.{
  max_control_payload, max_stream_header, max_datagram_payload, flag_keyframe, type_keyframe,
  type_p_frame,
}
use quicrtc.Wire.Control.{write_control_frame, read_control_frame}
use quicrtc.Wire.Control.Laws.{control_frame, control_round_trip}
use quicrtc.Wire.Header.{write_stream_header, peek_stream_header}
use quicrtc.Wire.Header.Laws.{stream_header, stream_header_round_trip}
use quicrtc.Wire.Feed.{
  FeedFrame, feed_header, write_feed_frame_wall, read_feed_frame, read_body, read_wall,
  read_payload,
}
use quicrtc.Wire.Feed.Laws.{IsFrame, feed_frame, plain_frame, wall_frame}
use quicrtc.Wire.Feed.RoundTrip.{Delivers, feed_wall_round_trip, read_feed_frame-truncated}
use quicrtc.Wire.Feed.Inverse.{read_feed_frame-inv}
use quicrtc.Wire.Datagram.{encode_datagram, decode_datagram}
use quicrtc.Wire.Datagram.Laws.{datagram, datagram_round_trip}
use quicrtc.Wire.Hello.{negotiate_version}
use quicrtc.Wire.Hello.Laws.{IsUpTo, Within, Outside, negotiate_version_lem}

abbrev payload : List ℕ
payload = 7 ∷ 8 ∷ 9 ∷ []

abbrev sink : Sink
sink = record { out = 1 ∷ []; faults = [] }

control_round_trip_example :
    let (w', e) = write_control_frame sink 20 payload in
    ((max_control_payload < length payload) × (w' ≡ sink) × (e ≡ some frame_too_large))
    ⊎ ((length payload ≤ max_control_payload) × (sink.faults ≢ []) × (e ≡ some io_fault))
    ⊎ ((length payload ≤ max_control_payload)
        × (e ≡ none)
        × (w'.out ≡ sink.out ++ control_frame 20 payload)
        × (read_control_frame (control_frame 20 payload ++ 5 ∷ []) ≡ ok ((20, payload), 5 ∷ [])))
control_round_trip_example = control_round_trip sink 20 payload (5 ∷ [])

abbrev control_bytes : List ℕ
control_bytes = 20 ∷ 0 ∷ 0 ∷ 3 ∷ 7 ∷ 8 ∷ 9 ∷ 5 ∷ []

read_control : read_control_frame control_bytes ≡ ok ((20, payload), 5 ∷ [])
unfolding read_control_frame read_full get_be
read_control = refl

control_cut : control_frame 20 payload ≡ (20 ∷ 0 ∷ 0 ∷ 3 ∷ 7 ∷ []) ++ 8 ∷ 9 ∷ []
unfolding put_u24
control_cut = refl

abbrev name : List ℕ
name = 118 ∷ 105 ∷ []

stream_header_round_trip_example :
    let (w', e) = write_stream_header sink name in
    ((max_stream_header < length name) × (w' ≡ sink) × (e ≡ some frame_too_large))
    ⊎ ((length name ≤ max_stream_header) × (sink.faults ≢ []) × (e ≡ some io_fault))
    ⊎ ((0 < length name)
        × (e ≡ none)
        × (w'.out ≡ sink.out ++ stream_header name)
        × (peek_stream_header (stream_header name ++ payload) ≡ ok ((name, 0), payload)))
    ⊎ ((name ≡ [])
        × (e ≡ none)
        × (w'.out ≡ sink.out ++ stream_header name)
        × (peek_stream_header (stream_header name ++ payload) ≡ err empty_header))
stream_header_round_trip_example = stream_header_round_trip sink name payload

header_cut : stream_header name ≡ (35 ∷ 0 ∷ 0 ∷ 2 ∷ []) ++ 118 ∷ 105 ∷ []
unfolding put_u24
header_cut = refl

feed_wall_round_trip_example :
    Delivers sink
      (write_feed_frame_wall sink type_keyframe 90000 7 flag_keyframe 123456 payload)
      (wall_frame type_keyframe 90000 7 flag_keyframe 123456 payload)
      []
feed_wall_round_trip_example =
    feed_wall_round_trip sink type_keyframe 90000 7 flag_keyframe 123456 payload [] (omega arith)
      (omega arith) (omega arith) (omega arith)

abbrev p_frame : FeedFrame
p_frame = plain_frame type_p_frame 90000 7 0 payload

p_frame-IsFrame : IsFrame p_frame
p_frame-IsFrame = record {
  pts_fits = omega arith;
  seq_fits = omega arith;
  flags_fit = omega arith;
  wall_fits = omega arith;
  wall_flagged = inr refl;
  payload_fits = omega arith;
}

abbrev front : List ℕ
front = 33 ∷ 0 ∷ 0 ∷ 3 ∷ 0 ∷ 0 ∷ 0 ∷ 0 ∷ 0 ∷ 1 ∷ 95 ∷ 144 ∷ 0 ∷ 0 ∷ 0 ∷ 7 ∷ 0 ∷ 7 ∷ []

feed_cut : feed_frame p_frame ≡ front ++ 8 ∷ 9 ∷ []
unfolding feed_header put_u24 put_u32 put_u64
feed_cut = refl

read_feed_frame-truncated_example :
    (read_feed_frame front ≡ err eof) ⊎ (read_feed_frame front ≡ err unexpected_eof)
read_feed_frame-truncated_example =
    read_feed_frame-truncated p_frame front 8 (9 ∷ []) p_frame-IsFrame feed_cut

abbrev feed_bytes : List ℕ
feed_bytes = front ++ 8 ∷ 9 ∷ 4 ∷ []

read_feed : read_feed_frame feed_bytes ≡ ok (p_frame, 4 ∷ [])
unfolding read_feed_frame read_body read_wall read_payload read_full get_be
read_feed = refl

read_feed_frame-inv_example : (feed_bytes ≡ feed_frame p_frame ++ 4 ∷ []) × IsFrame p_frame
read_feed_frame-inv_example =
    read_feed_frame-inv feed_bytes p_frame (4 ∷ []) (omega arith) read_feed

datagram_round_trip_example :
    (decode_datagram (datagram 3 513 payload) ≡ ok (3, 513, payload))
    × (((length payload ≤ max_datagram_payload)
          × (encode_datagram [] 3 513 payload ≡ ok ([] ++ datagram 3 513 payload)))
        ⊎ ((max_datagram_payload < length payload)
            × (encode_datagram [] 3 513 payload ≡ err datagram_too_large)))
datagram_round_trip_example = datagram_round_trip [] 3 513 payload (omega arith)

abbrev datagram_bytes : List ℕ
datagram_bytes = 36 ∷ 3 ∷ 2 ∷ 1 ∷ 7 ∷ 8 ∷ 9 ∷ []

decode : decode_datagram datagram_bytes ≡ ok (3, 513, payload)
unfolding decode_datagram get_be
decode = refl

abbrev v1 : Text
v1 = 49 ∷ []

abbrev v3 : Text
v3 = 51 ∷ []

abbrev v12 : Text
v12 = 49 ∷ 50 ∷ []

negotiate_version_lem_example :
    ((negotiate_version v1 v12 v1 v3 ≡ none) × Outside v1 v12 v1 v3 v1)
    ⊎ ((v : Text) × (negotiate_version v1 v12 v1 v3 ≡ some v)
        × Within v1 v12 v
        × Within v1 v3 v
        × (Outside v1 v12 v1 v3 v1 ⊎ IsUpTo v1 v))
negotiate_version_lem_example = negotiate_version_lem v1 v12 v1 v3 v1
