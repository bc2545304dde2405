-- ===== src/Pubsub/Replay/Evict.antt =====
-- The eviction loops of the replay ring (pubsub/broadcaster.go) and the specification's `trim`.
use native.Mathlib.Decide.{ℕ_discrete}
use quicrtc.Prelude.{
  List-cases, ℕ, zero, suc, ◌-◌, ◌≤◌, ◌<◌, ◌≡◌, refl, sym, ap, ap₂, ◌∙◌, inl, inr, List, true,
  false, length, take, drop, [], ◌∷◌, arith, append-nil, take-append-drop, length-append,
  length-take, length-drop, Bool-cases, drop-all,
}
use quicrtc.Pubsub.{AccessUnit, size}
use quicrtc.Pubsub.Replay.{
  Ring, at, snapshot, evict_oldest, over_budget, evict_loop, evict_over_budget,
}
use quicrtc.Pubsub.Replay.Valid.{IsValid, total, total-append, snapshot-IsValid, drop-cons}
use quicrtc.Pubsub.Replay.Spec.{trim}

pub length-snapshot : {r : Ring} → IsValid r → length (snapshot r) ≡ length r.buf
length-snapshot {r} v = rw (snapshot-IsValid v) (
    omega (
      arith,
      length-append (drop r.head r.buf) (take r.head r.buf),
      length-drop r.head r.buf,
      length-take r.head r.buf,
    ))

pub total-snapshot : {r : Ring} → IsValid r → total (snapshot r) ≡ r.bytes
total-snapshot {r} v = rw (snapshot-IsValid v) (
    omega (
      arith,
      total-append (drop r.head r.buf) (take r.head r.buf),
      total-append (take r.head r.buf) (drop r.head r.buf),
      ap total (take-append-drop r.head r.buf),
      v.counted,
    ))

-- a buffer with its front cut off
total-drop : (xs : List AccessUnit) → total (drop 1 xs) ≡ total xs - size (at xs 0)
total-drop [] = omega arith
total-drop (x ∷ xs) = omega arith

-- The entry that is evicted or overwritten is the first of the snapshot.
pub snapshot-cons :
    {r : Ring} → IsValid r → 0 < length r.buf → snapshot r ≡ at r.buf r.head ∷ drop 1 (snapshot r)
snapshot-cons {r} v h = rw (snapshot-IsValid v, drop-cons r.buf r.head (omega arith))

-- A ring that begins at index 0 shows its buffer as it is.
pub snapshot-zero : {r : Ring} → IsValid r → r.head ≡ 0 → snapshot r ≡ r.buf
snapshot-zero {r} v h = ground (arith, snapshot-IsValid v, append-nil r.buf)

pub record Evicted (r r' : Ring) : Type 0 where
  pub valid : IsValid r'
  pub entries : snapshot r' ≡ drop 1 (snapshot r)
  pub cap_kept : r'.cap ≡ r.cap
  pub max_kept : r'.max_bytes ≡ r.max_bytes

-- A ring that begins at index 0 is valid if its slots and its byte count are right.
pub zero-IsValid :
    {r : Ring} → r.head ≡ 0 → length r.buf ≤ r.cap → r.bytes ≡ total r.buf → IsValid r
zero-IsValid h n b = record { slots = n; unwrapped = inr h; inside = inl h; counted = b }

evict_oldest-empty : {r : Ring} → length r.buf ≡ 0 → evict_oldest r ≡ r
unfolding evict_oldest
evict_oldest-empty h = ground arith

evict_oldest-nonempty : {r : Ring} → IsValid r → 0 < length r.buf → (evict_oldest r).head ≡ 0
unfolding evict_oldest
evict_oldest-nonempty v h = ground arith

evict_oldest-buf :
    {r : Ring}
    → IsValid r
    → 0 < length r.buf
    → ((evict_oldest r).buf ≡ drop 1 (snapshot r))
      × ((evict_oldest r).bytes ≡ r.bytes - size (at r.buf r.head))
unfolding evict_oldest
evict_oldest-buf {r} v h = (ground (arith, snapshot-zero v, drop-all 1 (snapshot r)), ground arith)

evict_oldest-limits :
    (r : Ring) → ((evict_oldest r).cap ≡ r.cap) × ((evict_oldest r).max_bytes ≡ r.max_bytes)
unfolding evict_oldest
evict_oldest-limits r = ground arith

-- replayEvictOldestLocked keeps the invariant and drops the oldest entry.
pub evict_oldest-Evicted : {r : Ring} → IsValid r → Evicted r (evict_oldest r)
evict_oldest-Evicted {r} v = elim (ℕ_discrete (length r.buf) 0) [
  | yes none_left ↦ rw (evict_oldest-empty {r = r} none_left) (record {
    valid = v;
    entries = ground (arith, length-snapshot v, drop-all 1 (snapshot r), List-cases (snapshot r));
    cap_kept = refl;
    max_kept = refl;
  })
  | no some_left ↦
      let h : 0 < length r.buf = omega arith in
      let (entries, bytes) = evict_oldest-buf v h in
      let (cap, most) = evict_oldest-limits r in
      let start = evict_oldest-nonempty v h in
      let cons = snapshot-cons v h in
      let ok : IsValid (evict_oldest r) =
        zero-IsValid start
          (rw entries (omega (arith, cap, length-drop 1 (snapshot r), length-snapshot v, v.slots)))
          (rw (entries, bytes) (omega (arith, total-snapshot v, ap total cons))) in
      record {
        valid = ok;
        entries = snapshot-zero ok start ∙ entries;
        cap_kept = cap;
        max_kept = most;
      }
]

pub record Trimmed (extra : ℕ) (r r' : Ring) : Type 0 where
  pub valid : IsValid r'
  pub entries : snapshot r' ≡ trim r.max_bytes extra (snapshot r)
  pub cap_kept : r'.cap ≡ r.cap
  pub max_kept : r'.max_bytes ≡ r.max_bytes
  pub done : over_budget r' extra ≡ false

-- One round of the loop is one of the specification.
trim-over :
    (extra : ℕ) {r : Ring}
    → IsValid r
    → over_budget r extra ≡ true
    → trim r.max_bytes extra (snapshot r) ≡ trim r.max_bytes extra (drop 1 (snapshot r))
unfolding trim
trim-over extra {r} v h =
    ground (arith, List-cases (snapshot r), length-snapshot v, total-snapshot v)

trim-within :
    (extra : ℕ) {r : Ring}
    → IsValid r
    → over_budget r extra ≡ false
    → trim r.max_bytes extra (snapshot r) ≡ snapshot r
unfolding trim
trim-within extra {r} v h =
    ground (arith, List-cases (snapshot r), length-snapshot v, total-snapshot v)

evict_loop-Trimmed :
    (fuel extra : ℕ) {r : Ring}
    → IsValid r
    → length r.buf ≤ fuel
    → Trimmed extra r (evict_loop fuel extra r)
unfolding evict_loop
evict_loop-Trimmed zero extra {r} v h = record {
  valid = v;
  entries = sym (trim-within extra v (ground arith));
  cap_kept = refl;
  max_kept = refl;
  done = ground arith;
}
evict_loop-Trimmed (suc fuel) extra {r} v h = elim (Bool-cases (over_budget r extra)) [
  | inl over ↦
      let e = evict_oldest-Evicted v in
      let shorter : length (evict_oldest r).buf ≤ fuel = omega (
        arith,
        length-snapshot e.valid,
        ap length e.entries,
        length-drop 1 (snapshot r),
        length-snapshot v,
      ) in
      let t = evict_loop-Trimmed fuel extra e.valid shorter in
      rw over (record {
        valid = t.valid;
        entries =
            t.entries
            ∙ ap₂ (λ m l. trim m extra l) e.max_kept e.entries
            ∙ sym (trim-over extra v over);
        cap_kept = t.cap_kept ∙ e.cap_kept;
        max_kept = t.max_kept ∙ e.max_kept;
        done = t.done;
      })
  | inr within ↦ rw within (record {
    valid = v;
    entries = sym (trim-within extra v within);
    cap_kept = refl;
    max_kept = refl;
    done = within;
  })
]

pub evict_over_budget-Trimmed :
    (extra : ℕ) {r : Ring} → IsValid r → Trimmed extra r (evict_over_budget extra r)
unfolding evict_over_budget
evict_over_budget-Trimmed extra {r} v = evict_loop-Trimmed (length r.buf) extra v (omega arith)
