-- ===== src/Pubsub/Replay/Place.antt =====
-- The end of replayAppendLocked (pubsub/broadcaster.go) against the specification.
use native.Mathlib.Nat.{mod-eq_of_lt, mod-eq-sub-mod}
use native.Mathlib.Decide.{dec_lt}
use quicrtc.Prelude.{
  inl, ℕ, zero, suc, ◌+◌, ◌-◌, ◌%◌, ◌≤◌, ◌<◌, ◌≡◌, refl, sym, ap, ◌∙◌, inr, List, length, take,
  drop, set, [], ◌∷◌, ◌++◌, arith, append-nil, append_assoc, length-append, length-set, drop-all,
  drop-set, take-set, take-all, drop-all,
}
use quicrtc.Pubsub.{AccessUnit, size}
use quicrtc.Pubsub.Replay.{Ring, at, snapshot, place}
use quicrtc.Pubsub.Replay.Valid.{
  start_of_room, IsValid, total, total-append, snapshot-IsValid, drop-cons,
}
use quicrtc.Pubsub.Replay.Spec.{latest}
use quicrtc.Pubsub.Replay.Evict.{length-snapshot, snapshot-zero, zero-IsValid}

pub total-set :
    (buf : List AccessUnit) (i : ℕ) (au : AccessUnit)
    → i < length buf
    → (total (set buf i au) + size (at buf i) ≡ total buf + size au) × (size (at buf i) ≤ total buf)
total-set [] i au h = absurd (omega arith)
total-set (x ∷ buf) zero au h = omega arith
total-set (x ∷ buf) (suc i) au h = omega (arith, total-set buf i au (omega arith))

-- What is left to append once the budget has room.
pub record Placed (au : AccessUnit) (r r' : Ring) : Type 0 where
  pub valid : IsValid r'
  pub entries : snapshot r' ≡ latest r.cap (snapshot r ++ au ∷ [])
  pub cap_kept : r'.cap ≡ r.cap
  pub max_kept : r'.max_bytes ≡ r.max_bytes

drop-none : (n : ℕ) (xs : List AccessUnit) → n ≡ 0 → drop n xs ≡ xs
drop-none n xs h = ap (λ k. drop k xs) h

pub place-room :
    (au : AccessUnit) {r : Ring} → IsValid r → length r.buf < r.cap → Placed au r (place au r)
unfolding place latest
place-room au {r} v h =
    let r' = record r { buf = r.buf ++ au ∷ []; bytes = r.bytes + size au } in
    let n = length-append r.buf (au ∷ []) in
    let start = start_of_room v h in
    let ok : IsValid r' =
      zero-IsValid start (omega (arith, n))
        (omega (arith, total-append r.buf (au ∷ []), v.counted)) in
    let same : place au r ≡ r' = ground arith in
    rw same (record {
      valid = ok;
      entries =
          snapshot-zero ok start
          ∙ rw (snapshot-zero v start) (sym (drop-none _ (r.buf ++ au ∷ []) (omega (arith, n))));
      cap_kept = refl;
      max_kept = refl;
    })

-- What the overwritten buffer shows from the new head on.
turned :
    (buf : List AccessUnit) (h cap : ℕ) (au : AccessUnit)
    → length buf ≡ cap
    → h < cap
    → let h' = (h + 1) % cap in
      drop h' (set buf h au) ++ take h' (set buf h au) ≡ drop (suc h) buf ++ (take h buf ++ au ∷ [])
turned buf h cap au n lt = elim (dec_lt (h + 1) cap) [
  | yes more ↦
      let e : (h + 1) % cap ≡ suc h = omega (arith, mod-eq_of_lt more) in
      rw (e, drop-set buf h au, take-set buf h au (omega arith))
  | no last ↦
      let e : (h + 1) % cap ≡ 0 = omega (
        arith,
        mod-eq-sub-mod {n = h + 1} {m = cap} (omega arith),
        mod-eq_of_lt {n = 0} {m = cap} (omega arith),
      ) in
      let whole = take-set buf h au (omega arith) in
      rw (e, append-nil, drop-all (suc h) buf (omega arith))
        (sym (take-all (suc h) (set buf h au) (omega (arith, length-set buf h au))) ∙ whole)
]

-- The snapshot of a full ring, with the entry that is overwritten in front.
front :
    {r : Ring}
    → IsValid r
    → r.head < r.cap
    → length r.buf ≡ r.cap
    → snapshot r ≡ at r.buf r.head ∷ (drop (suc r.head) r.buf ++ take r.head r.buf)
front {r} v h full = rw (snapshot-IsValid v, drop-cons r.buf r.head (omega arith))

latest-full :
    (cap : ℕ) (au : AccessUnit) {x : AccessUnit} {snap rest : List AccessUnit}
    → snap ≡ x ∷ rest
    → length snap ≡ cap
    → latest cap (snap ++ au ∷ []) ≡ rest ++ au ∷ []
unfolding latest
latest-full cap au {x} {snap} {rest} e n =
    let one : length (snap ++ au ∷ []) - cap ≡ 1 = omega (arith, length-append snap (au ∷ [])) in
    rw (one, e)

pub place-full :
    (au : AccessUnit) {r : Ring}
    → IsValid r
    → 0 < r.cap
    → length r.buf ≡ r.cap
    → Placed au r (place au r)
unfolding place latest
place-full au {r} v pos full =
    let r' = record r {
      buf = set r.buf r.head au;
      bytes = r.bytes - size (at r.buf r.head) + size au;
      head = (r.head + 1) % r.cap;
    } in
    let n = length-set r.buf r.head au in
    let h : r.head < r.cap = omega arith in
    let ok : IsValid r' = record {
      slots = omega (arith, n);
      unwrapped = inl (omega (arith, n));
      inside = inr (omega (arith, n));
      counted = omega (arith, total-set r.buf r.head au, v.counted);
    } in
    let same : place au r ≡ r' = ground arith in
    rw same (record {
      valid = ok;
      entries =
          snapshot-IsValid ok
          ∙ turned r.buf r.head r.cap au full h
          ∙ sym (append_assoc (drop (suc r.head) r.buf) (take r.head r.buf) (au ∷ []))
          ∙ sym (latest-full r.cap au (front v h full) (omega (arith, length-snapshot v)));
      cap_kept = refl;
      max_kept = refl;
    })
