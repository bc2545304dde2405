-- ===== src/Pubsub/Replay/Spec.antt =====
-- What the replay ring promises: the latest access units, oldest first, within a number of slots
-- and a number of bytes.
use quicrtc.Prelude.{
  ℕ, ◌+◌, ◌-◌, List, ◌&&◌, ltb, if◌then◌else◌, length, drop, length-append, length-drop, ◌≤◌,
  drop-append_le, arith, ap, ◌∙◌, ◌≡◌, ◌<◌, [], ◌∷◌, ◌++◌,
}
use quicrtc.Pubsub.{AccessUnit, size}
use quicrtc.Pubsub.Replay.Valid.{total}

-- Drop the oldest until `extra` more bytes fit, or nothing is left; 0 is no limit.
unfoldable pub trim : ℕ → ℕ → List AccessUnit → List AccessUnit
trim max_bytes extra [] = []
trim max_bytes extra (x ∷ xs) =
    let rest = trim max_bytes extra xs in
    if ltb 0 max_bytes && ltb max_bytes (total (x ∷ xs) + extra) then rest else x ∷ xs

-- Keep the latest `cap`.
unfoldable pub latest : ℕ → List AccessUnit → List AccessUnit
latest cap xs = drop (length xs - cap) xs

unfoldable pub append : ℕ → ℕ → AccessUnit → List AccessUnit → List AccessUnit
append cap max_bytes au xs = latest cap (trim max_bytes (size au) xs ++ au ∷ [])

unfoldable pub append_all : ℕ → ℕ → List AccessUnit → List AccessUnit → List AccessUnit
append_all cap max_bytes [] xs = xs
append_all cap max_bytes (au ∷ aus) xs = append_all cap max_bytes aus (append cap max_bytes au xs)

pub latest_room :
    (cap : ℕ) (xs : List AccessUnit) (au : AccessUnit)
    → length xs < cap
    → latest cap (xs ++ au ∷ []) ≡ xs ++ au ∷ []
unfolding latest
latest_room c xs au h =
    ap (λ k. drop k (xs ++ au ∷ [])) {y = 0} (omega (arith, length-append xs (au ∷ [])))

pub latest_full :
    (cap : ℕ) (xs : List AccessUnit) (au : AccessUnit)
    → 0 < cap
    → length xs ≡ cap
    → latest cap (xs ++ au ∷ []) ≡ drop 1 xs ++ au ∷ []
unfolding latest
latest_full c xs au pos h =
    ap (λ k. drop k (xs ++ au ∷ [])) {y = 1} (omega (arith, length-append xs (au ∷ [])))
    ∙ drop-append_le 1 xs (au ∷ []) (omega arith)

pub length-latest_le : (cap : ℕ) (xs : List AccessUnit) → length (latest cap xs) ≤ cap
unfolding latest
length-latest_le c xs = omega (arith, length-drop (length xs - c) xs)
