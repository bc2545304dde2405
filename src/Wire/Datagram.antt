-- ===== src/Wire/Datagram.antt =====
-- The datagram envelope: EncodeDatagram and DecodeDatagram of wire/datagram.go.
pub mod Laws
use quicrtc.Prelude.{
  ℕ, List, ◌≡◌, ◌==◌, if◌then◌else◌, ltb, length, take, drop, get_or, Error, datagram_too_large,
  datagram_too_short, unexpected_type, Result, ok, err, put_u16, get_be, [], ◌∷◌, ◌++◌, not,
}
use quicrtc.Wire.{datagram_header_len, max_datagram_payload, type_datagram_au}

unfoldable pub encode_datagram : List ℕ → ℕ → ℕ → List ℕ → Result (List ℕ)
encode_datagram dst track_id seq payload =
    if ltb max_datagram_payload (length payload)
    then err datagram_too_large
    else ok ((dst ++ type_datagram_au ∷ track_id ∷ put_u16 seq) ++ payload)

-- The result is (trackID, seq, payload).
unfoldable pub decode_datagram : List ℕ → Result (ℕ × ℕ × List ℕ)
decode_datagram b =
    if ltb (length b) datagram_header_len
    then err datagram_too_short
    else (if not (get_or b 0 0 == type_datagram_au)
        then err unexpected_type
        else ok (get_or b 1 0, get_be (take 2 (drop 2 b)), drop datagram_header_len b))
