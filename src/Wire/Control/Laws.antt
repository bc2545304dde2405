-- ===== src/Wire/Control/Laws.antt =====
-- WriteControlFrame against ReadControlFrame (wire/frame.go).
use native.Mathlib.Decide.{dec_lt}
use quicrtc.Prelude.{
  ℕ, List, some, none, ◌≡◌, ◌==◌, ltb, length, take, drop, Sink, eof, unexpected_eof,
  frame_too_large, ok, err, read_full, put_u24, get_be, [], ◌∷◌, ◌++◌, read_full-append,
  length-append, ◌⊎◌, inl, inr, ◌≢◌, io_fault, All, IsByte, get_be-take-put_u24, append-nil, arith,
  ◌≤◌, ◌<◌, refl,
}
use quicrtc.Wire.{max_control_payload}
use quicrtc.Wire.Readers.{
  IsStable, Extends-bind, Extends-if, read_full-IsStable, read_full-inv, read_full-short, truncated,
}
use quicrtc.Wire.Writers.{write_parts_cases}
use quicrtc.Wire.Control.{write_control_frame, read_control_frame}

-- The bytes of a control frame: type, length, payload.
abbrev pub control_frame : ℕ → List ℕ → List ℕ
control_frame typ payload = (typ ∷ put_u24 (length payload)) ++ payload

read_header :
    (typ : ℕ) (payload rest : List ℕ)
    → read_full 4 (control_frame typ payload ++ rest)
      ≡ ok (typ ∷ put_u24 (length payload), payload ++ rest)
unfolding put_u24
read_header typ payload rest =
    read_full-append (typ ∷ put_u24 (length payload)) (payload ++ rest) 4 (omega arith)

read_length : (n : ℕ) → n ≤ max_control_payload → get_be (take 3 (put_u24 n)) ≡ n
read_length n h = rw append-nil at (get_be-take-put_u24 n [] (omega arith))

pub read-control_frame :
    (typ : ℕ) (payload rest : List ℕ)
    → length payload ≤ max_control_payload
    → read_control_frame (control_frame typ payload ++ rest) ≡ ok ((typ, payload), rest)
unfolding read_control_frame
read-control_frame typ [] rest h = rw (read_header typ [] rest, read_length 0 h)
read-control_frame typ (x ∷ xs) rest h =
    rw (read_header typ (x ∷ xs) rest, read_length (length (x ∷ xs)) h)
      (ground (arith, read_full-append (x ∷ xs) rest (length (x ∷ xs))))

pub read_control_frame-IsStable : IsStable read_control_frame
unfolding read_control_frame
read_control_frame-IsStable s more = Extends-bind more _ _ _ (read_full-IsStable 4 s more) λ hdr t.
    let n = get_be (take 3 (drop 1 hdr)) in
    Extends-if more (ltb max_control_payload n) _ _ _ _ refl (
      Extends-if more (n == 0) _ _ _ _ refl
        (Extends-bind more _ _ _ (read_full-IsStable n t more) (λ p u. refl)))

-- On every proper part of a frame ReadControlFrame reports that the stream ended.
pub read_control_frame-truncated :
    (typ : ℕ) (payload front : List ℕ) (x : ℕ) (back : List ℕ)
    → length payload ≤ max_control_payload
    → control_frame typ payload ≡ front ++ x ∷ back
    → (read_control_frame front ≡ err eof) ⊎ (read_control_frame front ≡ err unexpected_eof)
read_control_frame-truncated typ payload front x back h e =
    truncated read_control_frame front x back read_control_frame-IsStable
      (rw (append-nil, e) at (read-control_frame typ payload [] h))

-- The frame of what was read, from the four bytes of its header and its payload.
frame_bytes :
    (a b c : ℕ) (payload : List ℕ)
    → All IsByte (a ∷ b ∷ c ∷ [])
    → length payload ≡ get_be (a ∷ b ∷ c ∷ [])
    → put_u24 (length payload) ≡ a ∷ b ∷ c ∷ []
unfolding put_u24 get_be
frame_bytes a b c payload h e = rw e (ground arith)

-- ReadControlFrame takes from its input exactly the frame that WriteControlFrame writes for the
-- type and payload that it returns, and the payload is within the limit.
pub read_control_frame-inv :
    (r : List ℕ) (typ : ℕ) (payload rest : List ℕ)
    → All IsByte r
    → read_control_frame r ≡ ok ((typ, payload), rest)
    → (r ≡ control_frame typ payload ++ rest) × (length payload ≤ max_control_payload)
unfolding read_control_frame
read_control_frame-inv (t ∷ a ∷ b ∷ c ∷ r) typ payload rest bytes e = ground (
  arith,
  read_full-append (t ∷ a ∷ b ∷ c ∷ []) r 4 (omega arith),
  frame_bytes a b c payload,
  read_full-inv (get_be (a ∷ b ∷ c ∷ [])) r payload rest,
)
read_control_frame-inv r typ payload rest bytes e = elim (read_full-short 4 r (omega arith)) [
  | inl f ↦ absurd (ground (arith, f))
  | inr f ↦ absurd (ground (arith, f))
]

-- A control frame survives the wire. A payload over 64 KiB is refused with nothing written. Any
-- other is either refused because a Write failed, or appended whole, and then ReadControlFrame
-- reads back its type and payload and leaves the bytes behind the frame.
pub control_round_trip :
    (w : Sink) (typ : ℕ) (payload rest : List ℕ)
    → let (w', e) = write_control_frame w typ payload in
      ((max_control_payload < length payload) × (w' ≡ w) × (e ≡ some frame_too_large))
      ⊎ ((length payload ≤ max_control_payload) × (w.faults ≢ []) × (e ≡ some io_fault))
      ⊎ ((length payload ≤ max_control_payload)
          × (e ≡ none)
          × (w'.out ≡ w.out ++ control_frame typ payload)
          × (read_control_frame (control_frame typ payload ++ rest) ≡ ok ((typ, payload), rest)))
unfolding write_control_frame
control_round_trip w typ payload rest = elim (dec_lt max_control_payload (length payload)) [
  | yes big ↦ inl (big, ground arith, ground arith)
  | no fits ↦
      let h : length payload ≤ max_control_payload = omega arith in
      let back = read-control_frame typ payload rest h in
      elim (write_parts_cases w (typ ∷ put_u24 (length payload)) payload) [
        | inl f ↦ inr (inl (h, f.0, ground arith))
        | inr g ↦ inr (inr (h, ground arith, ground arith, back))
      ]
]

-- A frame takes bytes.
pub read_control_frame-shorter :
    (r : List ℕ) (typ : ℕ) (payload rest : List ℕ)
    → read_control_frame r ≡ ok ((typ, payload), rest)
    → length rest < length r
unfolding read_control_frame
read_control_frame-shorter (t ∷ a ∷ b ∷ c ∷ r) typ payload rest e =
    let n = get_be (a ∷ b ∷ c ∷ []) in
    let first = read_full-append (t ∷ a ∷ b ∷ c ∷ []) r 4 (omega arith) in
    ground (arith, first, read_full-inv n r payload rest, length-append payload rest)
read_control_frame-shorter r typ payload rest e = elim (read_full-short 4 r (omega arith)) [
  | inl f ↦ absurd (ground (arith, f))
  | inr f ↦ absurd (ground (arith, f))
]
