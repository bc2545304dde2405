-- ===== src/Wire/Readers.antt =====
-- Facts that the readers of wire/frame.go share, on longer and on shorter inputs.
use native.Mathlib.Decide.{dec_lt}
use quicrtc.Prelude.{
  ℕ, zero, suc, List, ◌≡◌, ◌⊎◌, inl, inr, length, take, drop, eof, unexpected_eof, frame_too_large,
  empty_header, datagram_too_large, datagram_too_short, unexpected_type, io_fault, Result, ok, err,
  ◌>>=◌, read_full, [], ◌∷◌, ◌++◌, arith, refl, ◌<◌, ◌≤◌, Bool, true, false, if◌then◌else◌,
  length-append, length-take, ap, take-append-drop,
}

-- `r'` is the answer to an input to which `more` was added, if `r` was the answer before: the same
-- value or error, unless the input had ended too early.
abbrev pub Extends {ℓ} : {A : Type ℓ} → List ℕ → Result (A × List ℕ) → Result (A × List ℕ) → Type ℓ
Extends more (ok (a, t)) r' = r' ≡ ok (a, t ++ more)
Extends more (err eof) r' = Unit
Extends more (err unexpected_eof) r' = Unit
Extends more (err e) r' = r' ≡ err e

abbrev pub IsStable {ℓ} : {A : Type ℓ} → (List ℕ → Result (A × List ℕ)) → Type ℓ
IsStable f = (s more : List ℕ) → Extends more (f s) (f (s ++ more))

pub Extends-bind {ℓ κ} :
    {A : Type ℓ} {B : Type κ} (more : List ℕ) (m m' : Result (A × List ℕ))
    (k : A × List ℕ → Result (B × List ℕ))
    → Extends more m m'
    → ((a : A) (t : List ℕ) → Extends more (k (a, t)) (k (a, t ++ more)))
    → Extends more (m >>= k) (m' >>= k)
Extends-bind more (ok (a, t)) m' k h step = rw h (step a t)
Extends-bind more (err eof) m' k h step = tt
Extends-bind more (err unexpected_eof) m' k h step = tt
Extends-bind more (err frame_too_large) m' k h step = rw h
Extends-bind more (err empty_header) m' k h step = rw h
Extends-bind more (err datagram_too_large) m' k h step = rw h
Extends-bind more (err datagram_too_short) m' k h step = rw h
Extends-bind more (err unexpected_type) m' k h step = rw h
Extends-bind more (err io_fault) m' k h step = rw h

pub Extends-if {ℓ} :
    {A : Type ℓ} (more : List ℕ) (b : Bool) (x y x' y' : Result (A × List ℕ))
    → Extends more x x'
    → Extends more y y'
    → Extends more (if b then x else y) (if b then x' else y')
Extends-if more true x y x' y' hx hy = hx
Extends-if more false x y x' y' hx hy = hy

take-append_short : (n : ℕ) (s more : List ℕ) → n ≤ length s → take n (s ++ more) ≡ take n s
take-append_short zero s more h = refl
take-append_short (suc n) [] more h = absurd (omega arith)
take-append_short (suc n) (x ∷ s) more h =
    ap (λ t. x ∷ t) (take-append_short n s more (omega arith))

drop-append_short : (n : ℕ) (s more : List ℕ) → n ≤ length s → drop n (s ++ more) ≡ drop n s ++ more
drop-append_short zero s more h = refl
drop-append_short (suc n) [] more h = absurd (omega arith)
drop-append_short (suc n) (x ∷ s) more h = drop-append_short n s more (omega arith)

pub read_full-short :
    (n : ℕ) (s : List ℕ)
    → length s < n
    → (read_full n s ≡ err eof) ⊎ (read_full n s ≡ err unexpected_eof)
unfolding read_full
read_full-short n [] h = inl (ground arith)
read_full-short n (x ∷ s) h = inr (ground arith)

pub read_full-enough : (n : ℕ) (s : List ℕ) → n ≤ length s → read_full n s ≡ ok (take n s, drop n s)
unfolding read_full
read_full-enough n s h = ground arith

pub read_full-IsStable : (n : ℕ) → IsStable (read_full n)
read_full-IsStable n s more = elim (dec_lt (length s) n) [
  | yes short ↦ elim (read_full-short n s short) [ inl e ↦ rw e tt | inr e ↦ rw e tt ]
  | no enough ↦
      let h : n ≤ length s = omega arith in
      rw (
        read_full-enough n s h,
        read_full-enough n (s ++ more) (omega (arith, length-append s more)),
        take-append_short n s more h,
        drop-append_short n s more h,
      )
]

pub ok-IsStable {ℓ} : {A : Type ℓ} (a : A) → IsStable (λ t. ok (a, t))
ok-IsStable a t more = refl

-- What `read_full` returns is the front of the input, and its length was asked for.
pub read_full-inv :
    (n : ℕ) (s a t : List ℕ) → read_full n s ≡ ok (a, t) → (s ≡ a ++ t) × (length a ≡ n)
read_full-inv n s a t e = elim (dec_lt (length s) n) [
  | yes short ↦ elim (read_full-short n s short) [ inl f ↦ cc | inr f ↦ cc ]
  | no enough ↦
      let h : n ≤ length s = omega arith in
      let same = read_full-enough n s h in
      ground (arith, same, take-append-drop n s, length-take n s)
]

-- A reader that takes exactly a whole message answers EOF or ErrUnexpectedEOF on a part of it.
pub truncated {ℓ} :
    {A : Type ℓ} (f : List ℕ → Result (A × List ℕ)) (front : List ℕ) (x : ℕ) (back : List ℕ) {v : A}
    → IsStable f
    → f (front ++ x ∷ back) ≡ ok (v, [])
    → (f front ≡ err eof) ⊎ (f front ≡ err unexpected_eof)
truncated {A} f front x back stable whole = at (f front) refl (stable front (x ∷ back))
  where
    at :
        (r : Result (A × List ℕ))
        → f front ≡ r
        → Extends (x ∷ back) r (f (front ++ x ∷ back))
        → (f front ≡ err eof) ⊎ (f front ≡ err unexpected_eof)
    at (ok (a, [])) e h = cc
    at (ok (a, y ∷ t)) e h = cc
    at (err eof) e h = inl e
    at (err unexpected_eof) e h = inr e
    at (err z) e h = cc
