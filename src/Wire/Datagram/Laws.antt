-- ===== src/Wire/Datagram/Laws.antt =====
-- EncodeDatagram against DecodeDatagram.
use native.Mathlib.Decide.{dec_lt}
use quicrtc.Prelude.{
  ℕ, List, ◌≡◌, length, datagram_too_large, ok, err, put_u16, get_be, [], ◌∷◌, ◌++◌, get_be-put_u16,
  arith, ◌⊎◌, inl, inr, ◌≤◌, ◌<◌, IsU16, IsByte, byte_at, All, append_assoc, refl,
}
use quicrtc.Wire.{max_datagram_payload, type_datagram_au}
use quicrtc.Wire.Datagram.{encode_datagram, decode_datagram}

abbrev pub datagram : ℕ → ℕ → List ℕ → List ℕ
datagram track_id seq payload = (type_datagram_au ∷ track_id ∷ put_u16 seq) ++ payload

decode_four :
    (t i a b : ℕ) (payload : List ℕ)
    → t ≡ type_datagram_au
    → decode_datagram (t ∷ i ∷ a ∷ b ∷ payload) ≡ ok (i, get_be (a ∷ b ∷ []), payload)
unfolding decode_datagram
decode_four t i a b payload e = ground arith

decode_written :
    (track_id seq : ℕ) (payload : List ℕ)
    → IsU16 seq
    → decode_datagram (datagram track_id seq payload) ≡ ok (track_id, seq, payload)
unfolding put_u16
decode_written track_id seq payload h =
    rw (decode_four type_datagram_au track_id (byte_at seq 8) (byte_at seq 0) payload refl)
      (ground (arith, get_be-put_u16 seq h))

encode_cases :
    (dst : List ℕ) (track_id seq : ℕ) (payload : List ℕ)
    → ((length payload ≤ max_datagram_payload)
        × (encode_datagram dst track_id seq payload ≡ ok (dst ++ datagram track_id seq payload)))
      ⊎ ((max_datagram_payload < length payload)
          × (encode_datagram dst track_id seq payload ≡ err datagram_too_large))
unfolding encode_datagram
encode_cases dst track_id seq payload = elim (dec_lt max_datagram_payload (length payload)) [
  | yes big ↦ inr (big, ground arith)
  | no fits ↦ inl (
    omega arith,
    ground (arith, append_assoc dst (type_datagram_au ∷ track_id ∷ put_u16 seq) payload),
  )
]

-- EncodeDatagram appends one envelope to its buffer, or refuses a payload over 1100 bytes, and
-- DecodeDatagram reads back from an envelope the track id, the 16-bit sequence and the payload.
pub datagram_round_trip :
    (dst : List ℕ) (track_id seq : ℕ) (payload : List ℕ)
    → IsU16 seq
    → (decode_datagram (datagram track_id seq payload) ≡ ok (track_id, seq, payload))
      × (((length payload ≤ max_datagram_payload)
            × (encode_datagram dst track_id seq payload
                ≡ ok (dst ++ datagram track_id seq payload)))
          ⊎ ((max_datagram_payload < length payload)
              × (encode_datagram dst track_id seq payload ≡ err datagram_too_large)))
datagram_round_trip dst track_id seq payload h =
    (decode_written track_id seq payload h, encode_cases dst track_id seq payload)

-- DecodeDatagram accepts nothing else: whatever bytes it accepts are the envelope of what it
-- returns.
pub decode_datagram-inv :
    (b : List ℕ) (track_id seq : ℕ) (payload : List ℕ)
    → All IsByte b
    → decode_datagram b ≡ ok (track_id, seq, payload)
    → b ≡ datagram track_id seq payload
unfolding decode_datagram put_u16 get_be
decode_datagram-inv (t ∷ i ∷ x ∷ y ∷ b) track_id seq payload h e = ground arith
decode_datagram-inv b track_id seq payload h e = absurd (ground arith)
