-- ===== src/Pubsub/Replay/Limits.antt =====
-- SetReplayCap and SetReplayMaxBytes of pubsub/broadcaster.go against the specification.
use native.Mathlib.Decide.{ℕ_discrete}
use quicrtc.Prelude.{
  List-cases, ℕ, ◌+◌, ◌-◌, ◌≤◌, ◌≡◌, refl, sym, ap, ◌∙◌, ◌⊎◌, inr, List, false, ltb, if◌then◌else◌,
  length, drop, [], ◌∷◌, ◌++◌, arith, append-nil, append_assoc, length-append, length-drop,
  List-cases, ℤ, at_least_zero,
}
use quicrtc.Pubsub.{AccessUnit, size}
use quicrtc.Pubsub.Replay.{
  Ring, snapshot, over_budget, replay_append_all, set_replay_cap, set_replay_max_bytes,
}
use quicrtc.Pubsub.Replay.Valid.{IsValid, total, total-append}
use quicrtc.Pubsub.Replay.Spec.{trim, latest, append, append_all}
use quicrtc.Pubsub.Replay.Evict.{
  length-snapshot, total-snapshot, zero-IsValid, evict_over_budget-Trimmed,
}
use quicrtc.Pubsub.Replay.Refine.{latest-zero, IsRing, total-drop_le, replay_append_all-Holds}

within_budget :
    {r : Ring} → IsValid r → over_budget r 0 ≡ false → (r.max_bytes ≡ 0) ⊎ (r.bytes ≤ r.max_bytes)
within_budget {r} v done = ground (arith, List-cases r.buf)

-- SetReplayMaxBytes drops the oldest entries until the new budget holds, and keeps the ring's
-- invariant and its capacity; an argument of 0 or less is no budget, and then every entry stays.
pub set_replay_max_bytes_lem :
    (n : ℤ) {r : Ring}
    → IsRing r
    → let r' = set_replay_max_bytes n r in
      IsRing r'
      × (snapshot r' ≡ trim (at_least_zero n) 0 (snapshot r))
      × (r'.cap ≡ r.cap)
      × (r'.max_bytes ≡ at_least_zero n)
      × ((r'.max_bytes ≡ 0) ⊎ (r'.bytes ≤ r'.max_bytes))
unfolding set_replay_max_bytes snapshot
set_replay_max_bytes_lem n {r} v =
    let r1 = record r { max_bytes = at_least_zero n } in
    let v1 : IsValid r1 = record {
      slots = v.valid.slots;
      unwrapped = v.valid.unwrapped;
      inside = v.valid.inside;
      counted = v.valid.counted;
    } in
    let t = evict_over_budget-Trimmed 0 v1 in
    let fits = within_budget t.valid t.done in
    (record { valid = t.valid; budget = ground arith }, t.entries, t.cap_kept, t.max_kept, fits)

trim_fits :
    (max_bytes extra : ℕ) (xs : List AccessUnit)
    → (max_bytes ≡ 0) ⊎ (total xs + extra ≤ max_bytes) ⊎ (length xs ≡ 0)
    → trim max_bytes extra xs ≡ xs
unfolding trim
trim_fits m e [] h = refl
trim_fits m e (x ∷ xs) h = ground arith

latest_fits : (cap : ℕ) (xs : List AccessUnit) → length xs ≤ cap → latest cap xs ≡ xs
unfolding latest
latest_fits c xs h = ap (λ k. drop k xs) {y = 0} (omega arith)

-- Entries that fit together are all kept.
append_all_fits :
    (cap max_bytes : ℕ) (aus xs : List AccessUnit)
    → length xs + length aus ≤ cap
    → (max_bytes ≡ 0) ⊎ (total xs + total aus ≤ max_bytes) ⊎ (length xs + length aus ≤ 1)
    → append_all cap max_bytes aus xs ≡ xs ++ aus
unfolding append_all append
append_all_fits c m [] xs n h = sym (append-nil xs)
append_all_fits c m (au ∷ aus) xs n h =
    let l = length-append xs (au ∷ []) in
    let t = total-append xs (au ∷ []) in
    rw (
      trim_fits m (size au) xs (omega arith),
      latest_fits c (xs ++ au ∷ []) (omega (arith, l)),
      append_all_fits c m aus (xs ++ au ∷ []) (omega (arith, l)) (omega (arith, l, t)),
      append_assoc,
    )

-- The ring that SetReplayCap starts again from.
abbrev emptied : ℕ → Ring → Ring
emptied c r = record r { buf = []; head = 0; cap = c; bytes = 0 }

emptied-IsRing : (c : ℕ) (r : Ring) → IsRing (emptied c r)
emptied-IsRing c r = record {
  valid = zero-IsValid refl (omega arith) refl;
  budget = inr (inr (omega arith));
}

emptied-snapshot : (c : ℕ) (r : Ring) → snapshot (emptied c r) ≡ []
unfolding snapshot
emptied-snapshot c r = refl

-- The entries of a ring within its budget fit its budget again.
refill :
    (c : ℕ) {r : Ring}
    → IsRing r
    → append_all c r.max_bytes (latest c (snapshot r)) [] ≡ latest c (snapshot r)
unfolding latest
refill c {r} v =
    let k = length (snapshot r) - c in
    append_all_fits c r.max_bytes (drop k (snapshot r)) []
      (omega (arith, length-drop k (snapshot r)))
      (omega (
        arith,
        v.budget,
        length-drop k (snapshot r),
        length-snapshot v.valid,
        total-snapshot v.valid,
        total-drop_le k (snapshot r),
      ))

-- What SetReplayCap puts back.
kept_lem :
    (c : ℕ) (xs : List AccessUnit)
    → (if ltb c (length xs) then drop (length xs - c) xs else xs) ≡ latest c xs
unfolding latest
kept_lem c xs = ground (arith, latest_fits c xs)

-- The state after SetReplayCap, from the capacity asked for.
record Resized (c : ℕ) (r r' : Ring) : Type 0 where
  ring : IsRing r'
  entries : snapshot r' ≡ latest c (snapshot r)
  new_cap : r'.cap ≡ c
  max_kept : r'.max_bytes ≡ r.max_bytes

refilled-Resized :
    (c : ℕ) {r : Ring}
    → IsRing r
    → Resized c r (replay_append_all (latest c (snapshot r)) (emptied c r))
refilled-Resized c {r} v =
    let h = replay_append_all-Holds (latest c (snapshot r)) (emptied-IsRing c r) in
    record {
      ring = h.ring;
      entries = h.holds ∙ rw (emptied-snapshot c r) (refill c v);
      new_cap = h.cap_kept;
      max_kept = h.max_kept;
    }

set_replay_cap-Resized :
    (n : ℤ) {r : Ring} → IsRing r → Resized (at_least_zero n) r (set_replay_cap n r)
unfolding set_replay_cap
set_replay_cap-Resized n {r} v =
    let c = at_least_zero n in
    elim (ℕ_discrete c r.cap) [
      | yes same ↦
          let e : set_replay_cap n r ≡ r = ground arith in
          rw e (record {
            ring = v;
            entries = sym (
                latest_fits c (snapshot r) (omega (arith, length-snapshot v.valid, v.valid.slots)));
            new_cap = sym same;
            max_kept = refl;
          })
      | no other ↦ elim (ℕ_discrete c 0) [
        | yes off ↦
            let e : set_replay_cap n r ≡ emptied c r = ground arith in
            rw e (record {
              ring = emptied-IsRing c r;
              entries = emptied-snapshot c r ∙ sym (latest-zero c (snapshot r) off);
              new_cap = refl;
              max_kept = refl;
            })
        | no on ↦
            let e : set_replay_cap n r ≡ replay_append_all (latest c (snapshot r)) (emptied c r) =
              ground (arith, kept_lem c (snapshot r)) in
            rw e (refilled-Resized c v)
      ]
    ]

-- SetReplayCap keeps the latest entries that the new capacity has room for: shrinking drops the
-- oldest, growing drops none, and 0 or less drops all. The invariant and the budget are kept.
pub set_replay_cap_lem :
    (n : ℤ) {r : Ring}
    → IsRing r
    → let r' = set_replay_cap n r in
      IsRing r'
      × (snapshot r' ≡ latest (at_least_zero n) (snapshot r))
      × (r'.cap ≡ at_least_zero n)
      × (r'.max_bytes ≡ r.max_bytes)
set_replay_cap_lem n {r} v =
    let z = set_replay_cap-Resized n v in (z.ring, z.entries, z.new_cap, z.max_kept)
