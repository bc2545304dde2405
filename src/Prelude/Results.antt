-- ===== src/Prelude/Results.antt =====
-- Go's (value, error) results, readers and writers.
use Prim.Native.Nat.{ℕ}
use mathlib.Core.Path.{◌≡◌, refl}
use mathlib.Core.Option.{Option, none, some}
use mathlib.Core.List.{List, [], ◌∷◌, ◌++◌}
use native.Mathlib.Omega.{arith}
use quicrtc.Prelude.Lists.{length, take, drop, take-append, drop-append, length-append}
use quicrtc.Prelude.Tests.{ltb, if◌then◌else◌}

-- The errors of package wire and those of package io that it passes on. `io_fault` is an error
-- of the writer below.
pub data Error : Type 0 where
  eof unexpected_eof : Error
  frame_too_large empty_header datagram_too_large datagram_too_short unexpected_type : Error
  io_fault : Error

-- What a function returns beside its error is not looked at if there is one.
pub data Result {ℓ} (T : Type ℓ) : Type ℓ where
  err : Error → Result T
  ok : T → Result T

-- An io.Reader is the bytes that are still to come; it ends in io.EOF.
-- `io.ReadFull` reads exactly n bytes: EOF if there were none, ErrUnexpectedEOF if too few.
unfoldable pub read_full : ℕ → List ℕ → Result (List ℕ × List ℕ)
read_full n s =
    if ltb (length s) n
    then (elim s [ [] ↦ err eof | _ ∷ _ ↦ err unexpected_eof ])
    else ok (take n s, drop n s)

pub read_full-append : (xs s : List ℕ) (n : ℕ) → n ≡ length xs → read_full n (xs ++ s) ≡ ok (xs, s)
unfolding read_full
read_full-append xs s n e =
    rw e (ground (arith, length-append xs s, take-append xs s, drop-append xs s))

-- An io.Writer: the bytes written so far, and how the coming calls of Write end. `some k` is a
-- call that takes at most k bytes and fails; `none`, and every call past the list, succeeds.
pub record Sink : Type 0 where
  pub out : List ℕ
  pub faults : List (Option ℕ)

unfoldable pub write : Sink → List ℕ → Sink × Option Error
write w p = elim w.faults [
  | [] ↦ (record { out = w.out ++ p; faults = [] }, none)
  | none ∷ fs ↦ (record { out = w.out ++ p; faults = fs }, none)
  | some k ∷ fs ↦ (record { out = w.out ++ take k p; faults = fs }, some io_fault)
]

-- `if err != nil { return err }`
infixl 5 ◌>>=◌
abbrev pub ◌>>=◌ {ℓ ℓ'} : {T : Type ℓ} {U : Type ℓ'} → Result T → (T → Result U) → Result U
err e >>= next = err e
ok t >>= next = next t

-- A chain that succeeds has succeeded at its first step.
pub >>=-eq-ok {ℓ ℓ'} :
    {T : Type ℓ} {U : Type ℓ'} (first : Result T) (next : T → Result U) {u : U}
    → (first >>= next) ≡ ok u
    → (t : T) × (first ≡ ok t) × (next t ≡ ok u)
>>=-eq-ok (err e) next h = cc
>>=-eq-ok (ok t) next h = (t, refl, h)
