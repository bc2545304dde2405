-- ===== src/Pubsub/Receiver/Splice/Laws.antt =====
-- The queue that SpliceFront leaves.
use quicrtc.Prelude.{
  ℕ, ◌≡◌, refl, sym, ap, ◌∙◌, ◌≤◌, ◌<◌, ◌-◌, ◌⊎◌, inl, inr, List, false, length, drop, [], ◌∷◌,
  ◌++◌, some, arith, length-append, length-drop, drop-append_le, drop-drop, append_assoc,
  append-nil,
}
use quicrtc.Pubsub.{AccessUnit}
use quicrtc.Pubsub.Replay.Spec.{latest, length-latest_le}
use quicrtc.Pubsub.Receiver.{Receiver}
use quicrtc.Pubsub.Receiver.Laws.{IsValid, send_evicting-latest}
use quicrtc.Pubsub.Receiver.Splice.{merge, refill, splice_front}
use quicrtc.Pubsub.Receiver.Splice.Merge.{Merged, merge-Merged}

-- The latest of the latest.
latest-append :
    (c : ℕ) (xs ys : List AccessUnit) → latest c (latest c xs ++ ys) ≡ latest c (xs ++ ys)
unfolding latest
latest-append c xs ys =
    let k = length xs - c in
    ap (λ zs. drop (length zs - c) zs) (sym (drop-append_le k xs ys (omega arith)))
    ∙ drop-drop (length (drop k (xs ++ ys)) - c) k (xs ++ ys)
    ∙ ap (λ n. drop n (xs ++ ys)) {y = length (xs ++ ys) - c}
        (omega (arith, length-append xs ys, length-drop k (xs ++ ys)))

latest_fits : (c : ℕ) (xs : List AccessUnit) → length xs ≤ c → latest c xs ≡ xs
unfolding latest
latest_fits c xs h = ap (λ k. drop k xs) {y = 0} (omega arith)

abbrev with_queue : List AccessUnit → Receiver → Receiver
with_queue queue r = record r { ch = record r.ch { queue = queue } }

refill-latest :
    (aus : List AccessUnit) (r : Receiver)
    → r.ch.shut ≡ false
    → 0 < r.ch.cap
    → length r.ch.queue ≤ r.ch.cap
    → refill aus r ≡ some (with_queue (latest r.ch.cap (r.ch.queue ++ aus)) r)
unfolding refill
refill-latest [] r o pos b =
    ap (λ q. some (with_queue q r))
      (sym (ap (latest r.ch.cap) (append-nil r.ch.queue) ∙ latest_fits r.ch.cap r.ch.queue b))
refill-latest (au ∷ aus) r o pos b =
    let q = latest r.ch.cap (r.ch.queue ++ au ∷ []) in
    rw (
      send_evicting-latest au r.ch o pos b,
      refill-latest aus (with_queue q r) o pos (length-latest_le r.ch.cap (r.ch.queue ++ au ∷ [])),
      latest-append r.ch.cap (r.ch.queue ++ au ∷ []) aus,
      append_assoc,
    )

pub splice_front_lem :
    (prefix : List AccessUnit) {r : Receiver}
    → IsValid r
    → r.closed ≡ false
    → ((prefix ≡ []) × (splice_front prefix r ≡ some r))
      ⊎ ((merged : List AccessUnit) × Merged (prefix ++ r.ch.queue) merged
          × (splice_front prefix r
              ≡ some (record r { ch = record r.ch { queue = latest r.ch.cap merged } })))
unfolding splice_front
splice_front_lem [] {r} v o = inl (refl, refl)
splice_front_lem (au ∷ aus) {r} v o =
    let merged = merge (au ∷ aus) r.ch.queue in
    let e = refill-latest merged (with_queue [] r) (sym v.flagged ∙ o) v.room (omega arith) in
    inr (merged, merge-Merged (au ∷ aus) r.ch.queue, ground (arith, e))
