-- ===== src/Prelude/Bytes.antt =====
-- Bytes, machine words and the big-endian code of Go's encoding/binary and of its shifts.
use Prim.Native.Nat.{ℕ, zero, suc, ◌+◌, ◌*◌, ◌/◌, ◌%◌, ◌^◌, ◌<◌, bit_and, bit_or}
use mathlib.Core.Path.{◌≡◌, refl}
use mathlib.Core.Bool.{Bool, true, false, ◌&&◌}
use mathlib.Core.List.{List, [], ◌∷◌, ◌++◌, foldl}
use native.Mathlib.Omega.{arith}
use quicrtc.Prelude.Lists.{take}
use quicrtc.Prelude.Tests.{◌==◌, ltb, if◌then◌else◌}

abbrev pub IsByte : ℕ → Type 0
IsByte b = b < 256

abbrev pub IsU16 : ℕ → Type 0
IsU16 n = n < 2 ^ 16

abbrev pub IsU32 : ℕ → Type 0
IsU32 n = n < 2 ^ 32

abbrev pub IsU64 : ℕ → Type 0
IsU64 n = n < 2 ^ 64

-- `byte(v >> k)`
abbrev pub byte_at : ℕ → ℕ → ℕ
byte_at v k = v / 2 ^ k % 256

-- `byte(n>>16), byte(n>>8), byte(n)`
unfoldable pub put_u24 : ℕ → List ℕ
put_u24 n = byte_at n 16 ∷ byte_at n 8 ∷ byte_at n 0 ∷ []

-- `binary.BigEndian.PutUint32`, `PutUint64`, and the same shifts written out
unfoldable pub put_u16 : ℕ → List ℕ
put_u16 n = byte_at n 8 ∷ byte_at n 0 ∷ []

unfoldable pub put_u32 : ℕ → List ℕ
put_u32 n = byte_at n 24 ∷ byte_at n 16 ∷ byte_at n 8 ∷ byte_at n 0 ∷ []

unfoldable pub put_u64 : ℕ → List ℕ
put_u64 n =
    byte_at n 56
    ∷ byte_at n 48
    ∷ byte_at n 40
    ∷ byte_at n 32
    ∷ byte_at n 24
    ∷ byte_at n 16
    ∷ byte_at n 8
    ∷ byte_at n 0
    ∷ []

-- The bytes, first the highest. Their bits are disjoint once shifted, so `|` is `+`.
unfoldable pub get_be : List ℕ → ℕ
get_be = foldl (λ acc b. acc * 256 + b) 0

pub get_be-put_u24 : (n : ℕ) → n < 2 ^ 24 → get_be (put_u24 n) ≡ n
unfolding get_be put_u24
get_be-put_u24 n h = omega arith

-- The three length bytes of a header, whatever follows them.
pub get_be-take-put_u24 :
    (n : ℕ) (rest : List ℕ) → n < 2 ^ 24 → get_be (take 3 (put_u24 n ++ rest)) ≡ n
unfolding get_be put_u24
get_be-take-put_u24 n rest h = omega arith

pub get_be-put_u16 : (n : ℕ) → IsU16 n → get_be (put_u16 n) ≡ n
unfolding get_be put_u16
get_be-put_u16 n h = omega arith

pub get_be-put_u32 : (n : ℕ) → IsU32 n → get_be (put_u32 n) ≡ n
unfolding get_be put_u32
get_be-put_u32 n h = omega arith

pub get_be-put_u64 : (n : ℕ) → IsU64 n → get_be (put_u64 n) ≡ n
unfolding get_be put_u64
get_be-put_u64 n h = omega arith

-- Both facts of a byte below, tested on every byte.
sets_bit_two : ℕ → Bool
sets_bit_two b = ltb (bit_or b 4) 256 && (bit_and (bit_or b 4) 4 == 4)

-- Whether a test succeeds on the numbers below a bound.
succeeds : (ℕ → Bool) → ℕ → Bool
succeeds test zero = true
succeeds test (suc bound) = let lower = succeeds test bound in if test bound then lower else false

succeeds_at :
    (test : ℕ → Bool) (bound b : ℕ) → b < bound → succeeds test bound ≡ true → test b ≡ true
unfolding succeeds
succeeds_at test zero b lt h = absurd (omega arith)
succeeds_at test (suc bound) b lt h = ground (arith, succeeds_at test bound b)

every_byte : succeeds sets_bit_two 256 ≡ true
unfolding succeeds sets_bit_two
every_byte = refl

-- Setting bit 2 of a byte gives a byte, on which the test of that bit succeeds.
set_bit_two : (b : ℕ) → IsByte b → IsByte (bit_or b 4) × (bit_and (bit_or b 4) 4 ≡ 4)
unfolding sets_bit_two
set_bit_two b h = ground (arith, succeeds_at sets_bit_two 256 b h every_byte)

pub bit_and-bit_or_four : (b : ℕ) → IsByte b → bit_and (bit_or b 4) 4 ≡ 4
bit_and-bit_or_four b h = (set_bit_two b h).1

pub bit_or_four-IsByte : (b : ℕ) → IsByte b → IsByte (bit_or b 4)
bit_or_four-IsByte b h = (set_bit_two b h).0
