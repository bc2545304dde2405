-- ===== src/Pubsub/Replay/History.antt =====
-- Runs of publishes on the replay ring (pubsub/broadcaster.go).
use quicrtc.Prelude.{
  ℕ, suc, ◌+◌, ◌-◌, ◌≤◌, ◌<◌, ◌≡◌, refl, sym, ap, ◌∙◌, ◌⊎◌, inl, inr, List, ◌&&◌, ltb, length, drop,
  [], ◌∷◌, ◌++◌, arith, append-nil, append_assoc, length-append, length-drop, drop-drop,
  drop-append_le, Bool-cases,
}
use quicrtc.Pubsub.{AccessUnit, size}
use quicrtc.Pubsub.Replay.{Ring, snapshot, replay_append_all}
use quicrtc.Pubsub.Replay.Valid.{total}
use quicrtc.Pubsub.Replay.Spec.{trim, latest, append, append_all}
use quicrtc.Pubsub.Replay.Evict.{length-snapshot, total-snapshot}
use quicrtc.Pubsub.Replay.Refine.{IsRing, replay_append_all-Holds}

-- `ys` is `xs` without its first `k` entries, and not all of them.
abbrev pub IsEnd : List AccessUnit → List AccessUnit → Type 0
IsEnd ys xs = (k : ℕ) × (k < length xs) × (ys ≡ drop k xs)

IsEnd-trans : (zs ys xs : List AccessUnit) → IsEnd zs ys → IsEnd ys xs → IsEnd zs xs
IsEnd-trans zs ys xs (k, h, e) (j, g, f) =
    (j + k, omega (arith, ap length f, length-drop j xs), e ∙ ap (drop k) f ∙ drop-drop k j xs)

IsEnd-append : (ys xs zs : List AccessUnit) → IsEnd ys xs → IsEnd (ys ++ zs) (xs ++ zs)
IsEnd-append ys xs zs (k, h, e) =
    (k, omega (arith, length-append xs zs), rw e (sym (drop-append_le k xs zs (omega arith))))

IsEnd-nonempty : (ys xs : List AccessUnit) → IsEnd ys xs → 0 < length ys
IsEnd-nonempty ys xs (k, h, e) = omega (arith, ap length e, length-drop k xs)

trim-drop : (m e : ℕ) (xs : List AccessUnit) → (k : ℕ) × (k ≤ length xs) × (trim m e xs ≡ drop k xs)
unfolding trim
trim-drop m e [] = (0, omega arith, refl)
trim-drop m e (x ∷ xs) =
    let (k, h, same) = trim-drop m e xs in
    elim (Bool-cases (ltb 0 m && ltb m (total (x ∷ xs) + e))) [
      | inl over ↦ (suc k, omega arith, rw over same)
      | inr within ↦ (0, omega arith, rw within)
    ]

latest-IsEnd : (c : ℕ) (xs : List AccessUnit) → 0 < c → 0 < length xs → IsEnd (latest c xs) xs
unfolding latest
latest-IsEnd c xs pos some = (length xs - c, omega arith, refl)

append-IsEnd :
    (c m : ℕ) (au : AccessUnit) (xs : List AccessUnit)
    → 0 < c
    → IsEnd (append c m au xs) (xs ++ au ∷ [])
unfolding append
append-IsEnd c m au xs pos =
    let (j, h, same) = trim-drop m (size au) xs in
    let l = trim m (size au) xs ++ au ∷ [] in
    IsEnd-trans _ l _
      (latest-IsEnd c l pos (omega (arith, length-append (trim m (size au) xs) (au ∷ []))))
      (
        j,
        omega (arith, length-append xs (au ∷ [])),
        rw same (sym (drop-append_le j xs (au ∷ []) h)),
      )

append_all-IsEnd :
    (c m : ℕ) (aus xs : List AccessUnit)
    → 0 < c
    → 0 < length xs
    → IsEnd (append_all c m aus xs) (xs ++ aus)
unfolding append_all
append_all-IsEnd c m [] xs pos some = (0, rw append-nil some, sym (append-nil xs))
append_all-IsEnd c m (au ∷ aus) xs pos some =
    let ys = append c m au xs in
    let first = append-IsEnd c m au xs pos in
    let rest = append_all-IsEnd c m aus ys pos (IsEnd-nonempty ys (xs ++ au ∷ []) first) in
    rw append_assoc at (
      IsEnd-trans (append_all c m aus ys) (ys ++ aus) ((xs ++ au ∷ []) ++ aus) rest
        (IsEnd-append ys (xs ++ au ∷ []) aus first))

budget-snapshot :
    {m : ℕ} {r : Ring}
    → IsRing r
    → r.max_bytes ≡ m
    → (m ≡ 0) ⊎ (total (snapshot r) ≤ m) ⊎ (length (snapshot r) ≤ 1)
budget-snapshot v e = omega (arith, v.budget, e, total-snapshot v.valid, length-snapshot v.valid)

-- After any run of publishes a ring with a capacity holds the end of what it held before and of
-- what was published, in order, with no gap and with the last access unit in it; never more
-- entries than the capacity, and within the byte budget but for a single entry.
pub replay_history :
    (au : AccessUnit) (aus : List AccessUnit) {r : Ring}
    → IsRing r
    → 0 < r.cap
    → let r' = replay_append_all (au ∷ aus) r in
      IsRing r'
      × IsEnd (snapshot r') (snapshot r ++ au ∷ aus)
      × (length (snapshot r') ≤ r.cap)
      × ((r.max_bytes ≡ 0) ⊎ (total (snapshot r') ≤ r.max_bytes) ⊎ (length (snapshot r') ≤ 1))
unfolding append_all
replay_history au aus {r} v pos =
    let h = replay_append_all-Holds (au ∷ aus) v in
    let ys = append r.cap r.max_bytes au (snapshot r) in
    let first = append-IsEnd r.cap r.max_bytes au (snapshot r) pos in
    let rest = append_all-IsEnd r.cap r.max_bytes aus ys pos (IsEnd-nonempty ys _ first) in
    let whole = rw append_assoc at (
      IsEnd-trans (append_all r.cap r.max_bytes aus ys) (ys ++ aus) _ rest
        (IsEnd-append ys (snapshot r ++ au ∷ []) aus first)) in
    (
      h.ring,
      rw (h.holds) whole,
      omega (arith, length-snapshot h.ring.valid, h.ring.valid.slots, h.cap_kept),
      budget-snapshot h.ring h.max_kept,
    )
