-- ===== src/Wire/Header/Laws.antt =====
-- WriteStreamHeader against PeekStreamHeader.
use native.Mathlib.Decide.{dec_lt}
use quicrtc.Prelude.{
  ℕ, List, some, none, ◌≡◌, ◌==◌, ltb, length, get_or, Sink, eof, unexpected_eof, frame_too_large,
  empty_header, io_fault, ok, err, read_full, put_u24, get_be, [], ◌∷◌, ◌++◌, read_full-append,
  get_be-put_u24, append_assoc, append-nil, arith, ◌≤◌, ◌<◌, refl, ◌⊎◌, inl, inr, ◌≢◌,
}
use quicrtc.Wire.{max_stream_header, type_stream_header, write_parts}
use quicrtc.Wire.Readers.{IsStable, Extends-bind, Extends-if, read_full-IsStable, truncated}
use quicrtc.Wire.Writers.{write_parts_cases}
use quicrtc.Wire.Header.{write_stream_header, peek_stream_header}

abbrev pub stream_header : List ℕ → List ℕ
stream_header name = (type_stream_header ∷ put_u24 (length name)) ++ name

peek_type : (b : ℕ) (rest : List ℕ) → read_full 1 (b ∷ rest) ≡ ok (b ∷ [], rest)
peek_type b rest = read_full-append (b ∷ []) rest 1 (omega arith)

peek_length : (n : ℕ) (rest : List ℕ) → read_full 3 (put_u24 n ++ rest) ≡ ok (put_u24 n, rest)
unfolding put_u24
peek_length n rest = read_full-append (put_u24 n) rest 3 (omega arith)

-- PeekStreamHeader on a header whose name is not empty and within the limit.
pub peek-stream_header :
    (name rest : List ℕ)
    → 0 < length name
    → length name ≤ max_stream_header
    → peek_stream_header (stream_header name ++ rest) ≡ ok ((name, 0), rest)
unfolding peek_stream_header
peek-stream_header name rest pos h =
    rw (append_assoc, peek_type, peek_length, get_be-put_u24 (length name) (omega arith))
      (ground (arith, read_full-append name rest (length name)))

peek-empty : (rest : List ℕ) → peek_stream_header (stream_header [] ++ rest) ≡ err empty_header
unfolding peek_stream_header
peek-empty rest = rw (append_assoc, peek_type, peek_length, get_be-put_u24 0 (omega arith))

-- A track name on the wire. A name over 1024 bytes is refused with nothing written; a name that
-- fits is written whole unless a Write fails. PeekStreamHeader reads a written name back, and
-- leaves the feed frames behind it, exactly when the name is not empty: the empty name, which
-- WriteStreamHeader accepts, PeekStreamHeader rejects.
pub stream_header_round_trip :
    (w : Sink) (name rest : List ℕ)
    → let (w', e) = write_stream_header w name in
      ((max_stream_header < length name) × (w' ≡ w) × (e ≡ some frame_too_large))
      ⊎ ((length name ≤ max_stream_header) × (w.faults ≢ []) × (e ≡ some io_fault))
      ⊎ ((0 < length name)
          × (e ≡ none)
          × (w'.out ≡ w.out ++ stream_header name)
          × (peek_stream_header (stream_header name ++ rest) ≡ ok ((name, 0), rest)))
      ⊎ ((name ≡ [])
          × (e ≡ none)
          × (w'.out ≡ w.out ++ stream_header name)
          × (peek_stream_header (stream_header name ++ rest) ≡ err empty_header))
unfolding write_stream_header
stream_header_round_trip w name rest = elim (dec_lt max_stream_header (length name)) [
  | yes big ↦ inl (big, ground arith, ground arith)
  | no fits ↦
      let h : length name ≤ max_stream_header = omega arith in
      elim (write_parts_cases w (type_stream_header ∷ put_u24 (length name)) name) [
        | inl f ↦ inr (inl (h, f.0, ground arith))
        | inr (sent, bytes) ↦ inr (inr (written name h sent bytes))
      ]
]
  where
    written :
        (n : List ℕ)
        → length n ≤ max_stream_header
        → (write_parts w (type_stream_header ∷ put_u24 (length n)) n).1 ≡ none
        → (write_parts w (type_stream_header ∷ put_u24 (length n)) n).0.out
          ≡ w.out ++ stream_header n
        → ((0 < length n)
            × ((write_stream_header w n).1 ≡ none)
            × ((write_stream_header w n).0.out ≡ w.out ++ stream_header n)
            × (peek_stream_header (stream_header n ++ rest) ≡ ok ((n, 0), rest)))
          ⊎ ((n ≡ [])
              × ((write_stream_header w n).1 ≡ none)
              × ((write_stream_header w n).0.out ≡ w.out ++ stream_header n)
              × (peek_stream_header (stream_header n ++ rest) ≡ err empty_header))
    written [] h sent bytes = inr (refl, ground arith, ground arith, peek-empty rest)
    written (x ∷ xs) h sent bytes =
        inl (
          omega arith,
          ground arith,
          ground arith,
          peek-stream_header (x ∷ xs) rest (omega arith) h,
        )

-- A stream that does not begin with a header is handed on: its first byte, and the rest.
pub peek-legacy :
    (b : ℕ) (rest : List ℕ)
    → b ≢ type_stream_header
    → peek_stream_header (b ∷ rest) ≡ ok (([], b), rest)
unfolding peek_stream_header
peek-legacy b rest ne = rw peek_type (ground arith)

pub peek_stream_header-IsStable : IsStable peek_stream_header
unfolding peek_stream_header
peek_stream_header-IsStable s more = Extends-bind more _ _ _ (read_full-IsStable 1 s more) λ b t.
    Extends-if more (get_or b 0 0 == type_stream_header) _ _ _ _
      (Extends-bind more _ _ _ (read_full-IsStable 3 t more) λ len_buf u.
        Extends-if more (ltb max_stream_header (get_be len_buf)) _ _ _ _ refl (
          Extends-if more (get_be len_buf == 0) _ _ _ _ refl
            (Extends-bind more _ _ _ (read_full-IsStable (get_be len_buf) u more) (λ n v. refl))))
      refl

-- On every proper part of a header PeekStreamHeader reports that the stream ended.
pub peek_stream_header-truncated :
    (name front : List ℕ) (x : ℕ) (back : List ℕ)
    → 0 < length name
    → length name ≤ max_stream_header
    → stream_header name ≡ front ++ x ∷ back
    → (peek_stream_header front ≡ err eof) ⊎ (peek_stream_header front ≡ err unexpected_eof)
peek_stream_header-truncated name front x back pos h e =
    truncated peek_stream_header front x back peek_stream_header-IsStable
      (rw (append-nil, e) at (peek-stream_header name [] pos h))
