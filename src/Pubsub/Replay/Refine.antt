-- ===== src/Pubsub/Replay/Refine.antt =====
-- replayAppendLocked of pubsub/broadcaster.go against the specification.
use native.Mathlib.Decide.{dec_lt, ℕ_discrete}
use quicrtc.Prelude.{
  ℕ, zero, suc, ◌+◌, ◌-◌, ◌≤◌, ◌<◌, ◌≡◌, refl, sym, ap, ap₂, ◌∙◌, ◌⊎◌, List, false, length, drop,
  [], ◌∷◌, ◌++◌, arith, length-append, length-drop, nil_of_length, drop-all, drop-all,
}
use quicrtc.Pubsub.{AccessUnit, size}
use quicrtc.Pubsub.Replay.{
  Ring, snapshot, over_budget, evict_over_budget, place, replay_append, replay_append_all,
}
use quicrtc.Pubsub.Replay.Valid.{IsValid, total, total-append}
use quicrtc.Pubsub.Replay.Spec.{latest, append, append_all}
use quicrtc.Pubsub.Replay.Evict.{length-snapshot, total-snapshot, evict_over_budget-Trimmed}
use quicrtc.Pubsub.Replay.Place.{Placed, place-room, place-full}

-- A valid ring within its byte budget, but for a single entry that alone is larger.
pub record IsRing (r : Ring) : Type 0 where
  pub valid : IsValid r
  pub budget : (r.max_bytes ≡ 0) ⊎ (r.bytes ≤ r.max_bytes) ⊎ (length r.buf ≤ 1)

-- `r'` is a ring with these entries and the limits of `r`.
pub record Holds (entries : List AccessUnit) (r r' : Ring) : Type 0 where
  pub ring : IsRing r'
  pub holds : snapshot r' ≡ entries
  pub cap_kept : r'.cap ≡ r.cap
  pub max_kept : r'.max_bytes ≡ r.max_bytes

place-Placed : (au : AccessUnit) {r : Ring} → IsValid r → 0 < r.cap → Placed au r (place au r)
place-Placed au {r} v pos = elim (dec_lt (length r.buf) r.cap) [
  | yes room ↦ place-room au v room
  | no full ↦ place-full au v pos (omega arith)
]

pub total-drop_le : (n : ℕ) (xs : List AccessUnit) → total (drop n xs) ≤ total xs
total-drop_le zero xs = omega arith
total-drop_le (suc n) [] = omega arith
total-drop_le (suc n) (x ∷ xs) = omega (arith, total-drop_le n xs)

-- After the eviction loop and the append the budget holds, or the new entry stands alone.
place-budget :
    (au : AccessUnit) {r r' : Ring}
    → IsValid r
    → over_budget r (size au) ≡ false
    → Placed au r r'
    → (r'.max_bytes ≡ 0) ⊎ (r'.bytes ≤ r'.max_bytes) ⊎ (length r'.buf ≤ 1)
unfolding latest
place-budget au {r} {r'} v done p =
    let all = snapshot r ++ au ∷ [] in
    let k = length all - r.cap in
    let most : total (snapshot r') ≤ r.bytes + size au =
      rw p.entries (
        omega
          (arith, total-drop_le k all, total-append (snapshot r) (au ∷ []), total-snapshot v)) in
    let many : length (snapshot r') ≤ length r.buf + 1 =
      rw p.entries (
        omega
          (arith, length-drop k all, length-append (snapshot r) (au ∷ []), length-snapshot v)) in
    ground (arith, total-snapshot p.valid, length-snapshot p.valid, p.max_kept)

pub latest-zero : (cap : ℕ) (xs : List AccessUnit) → cap ≡ 0 → latest cap xs ≡ []
unfolding latest
latest-zero cap xs h = drop-all (length xs - cap) xs (omega arith)

-- replayAppendLocked drops the oldest entries until the new one fits the byte budget, appends it,
-- and keeps the latest entries that the capacity has room for; it keeps the ring's invariant and
-- its limits.
pub replay_append-Holds :
    (au : AccessUnit) {r : Ring}
    → IsRing r
    → Holds (append r.cap r.max_bytes au (snapshot r)) r (replay_append au r)
unfolding replay_append append
replay_append-Holds au {r} v = elim (ℕ_discrete r.cap 0) [
  | yes off ↦
      let same : replay_append au r ≡ r = ground arith in
      rw same (record {
        ring = v;
        holds =
            nil_of_length (snapshot r) (omega (arith, length-snapshot v.valid, v.valid.slots))
            ∙ sym (latest-zero r.cap _ off);
        cap_kept = refl;
        max_kept = refl;
      })
  | no on ↦
      let t = evict_over_budget-Trimmed (size au) v.valid in
      let p = place-Placed au t.valid (omega (arith, t.cap_kept)) in
      let same : replay_append au r ≡ place au (evict_over_budget (size au) r) = ground arith in
      rw same (record {
        ring = record { valid = p.valid; budget = place-budget au t.valid t.done p };
        holds = p.entries ∙ ap₂ (λ c l. latest c (l ++ au ∷ [])) t.cap_kept t.entries;
        cap_kept = p.cap_kept ∙ t.cap_kept;
        max_kept = p.max_kept ∙ t.max_kept;
      })
]

-- The loop of SetReplayCap, and any run of publishes.
pub replay_append_all-Holds :
    (aus : List AccessUnit) {r : Ring}
    → IsRing r
    → Holds (append_all r.cap r.max_bytes aus (snapshot r)) r (replay_append_all aus r)
unfolding replay_append_all append_all
replay_append_all-Holds [] v = record { ring = v; holds = refl; cap_kept = refl; max_kept = refl }
replay_append_all-Holds (au ∷ aus) {r} v =
    let h = replay_append-Holds au v in
    let k = replay_append_all-Holds aus h.ring in
    record {
      ring = k.ring;
      holds =
          k.holds
          ∙ ap (λ l. append_all (replay_append au r).cap (replay_append au r).max_bytes aus l)
              h.holds
          ∙ ap₂ (λ c m. append_all c m aus (append r.cap r.max_bytes au (snapshot r))) h.cap_kept
              h.max_kept;
      cap_kept = k.cap_kept ∙ h.cap_kept;
      max_kept = k.max_kept ∙ h.max_kept;
    }
