-- ===== src/Server/CatchUp.antt =====
-- The receivers of a resumed session: the loop of OnResume in server/server.go.
use mathlib.Core.List.{Perm}
use mathlib.Core.List.Perm
use quicrtc.Prelude.{
  ℕ, ◌+◌, ◌%◌, ◌^◌, ◌<◌, ◌≡◌, refl, ◌⊎◌, inl, inr, List, true, not, ltb, if◌then◌else◌, length, [],
  ◌++◌, Option, some, Text, All, arith, Bool-cases, nil_of_length,
}
use quicrtc.Pubsub.{AccessUnit}
use quicrtc.Pubsub.Replay.{Ring, snapshot}
use quicrtc.Pubsub.Replay.Spec.{latest, length-latest_le}
use quicrtc.Pubsub.Replay.Valid
use quicrtc.Pubsub.Replay.Since.{replay_since}
use quicrtc.Pubsub.Replay.Since.Laws.{from_seq, replay_since_lem}
use quicrtc.Pubsub.Receiver.{Receiver, request_keyframe}
use quicrtc.Pubsub.Receiver.Laws.{IsValid}
use quicrtc.Pubsub.Receiver.Splice.{splice_front}
use quicrtc.Pubsub.Receiver.Splice.Merge.{Merged}
use quicrtc.Pubsub.Receiver.Splice.Laws.{splice_front_lem}
use quicrtc.Pubsub.Broadcaster.{Broadcaster}
use quicrtc.Server.{TrackEntry, waits_for_keyframe}

-- The Seq that follows the client's, a uint32.
abbrev pub next_seq : ℕ → ℕ
next_seq n = (n + 1) % 2 ^ 32

-- The ring still has the units from `next` on, or has none at all, and they are `replay`.
pub record Replays (ring : Ring) (next : ℕ) (replay : List AccessUnit) : Type 0 where
  pub units : Perm replay (from_seq next (snapshot ring))
  pub reached : (snapshot ring ≡ []) ⊎ ¬ All (λ au. next < au.seq) (snapshot ring)

-- What a receiver becomes.
abbrev pub CaughtUp : Ring → Text → ℕ → Receiver → Receiver → Type 0
CaughtUp ring kind next r r' =
    (All (λ au. next < au.seq) (snapshot ring)
      × (0 < length (snapshot ring))
      × (r' ≡ (if waits_for_keyframe kind then request_keyframe r else r)))
    ⊎ ((replay : List AccessUnit) × Replays ring next replay
        × (((replay ≡ []) ⊎ (r.closed ≡ true)) × (r' ≡ r)))
    ⊎ ((replay : List AccessUnit) × (merged : List AccessUnit) × Replays ring next replay
        × Merged (replay ++ r.ch.queue) merged
        × (r' ≡ record r { ch = record r.ch { queue = latest r.ch.cap merged } }))

-- The receiver that catch_up writes back.
abbrev pub caught : TrackEntry → ℕ → Broadcaster → Receiver → Option Receiver
caught te from bc recv =
    let (replay, available) = replay_since (next_seq from) bc.replay in
    let gap = if waits_for_keyframe te.kind then request_keyframe recv else recv in
    let spliced = if ltb 0 (length replay) then splice_front replay recv else some recv in
    if not available then some gap else spliced

spliced_lem :
    (te : TrackEntry) (from : ℕ) (bc : Broadcaster) (recv : Receiver)
    → IsValid recv
    → (replay_since (next_seq from) bc.replay).1 ≡ true
    → Replays bc.replay (next_seq from) (replay_since (next_seq from) bc.replay).0
    → (recv' : Receiver) × (caught te from bc recv ≡ some recv')
      × IsValid recv'
      × CaughtUp bc.replay te.kind (next_seq from) recv recv'
unfolding splice_front
spliced_lem te from bc recv v ready has =
    let replay = (replay_since (next_seq from) bc.replay).0 in
    elim (Bool-cases (ltb 0 (length replay))) [
      | inr nothing ↦
          let empty = nil_of_length replay (ground (arith, nothing)) in
          (recv, rw (ready, nothing) refl, v, inr (inl (replay, has, (inl empty, refl))))
      | inl some_left ↦ elim (Bool-cases recv.closed) [
        | inl shut ↦
            let e : splice_front replay recv ≡ some recv = ground (arith, some_left, shut) in
            (recv, rw (ready, some_left) e, v, inr (inl (replay, has, (inr shut, refl))))
        | inr open_ ↦ elim (splice_front_lem replay v open_) [
          | inl (empty, e) ↦
              (recv, rw (ready, some_left) e, v, inr (inl (replay, has, (inl empty, refl))))
          | inr (merged, m, e) ↦
              let valid : IsValid
                  (record recv { ch = record recv.ch { queue = latest recv.ch.cap merged } }) =
                record {
                  flagged = v.flagged;
                  room = v.room;
                  bounded = length-latest_le recv.ch.cap merged;
                } in
              (_, rw (ready, some_left) e, valid, inr (inr (replay, merged, has, m, refl)))
        ]
      ]
    ]

pub caught_lem :
    (te : TrackEntry) (from : ℕ) (bc : Broadcaster) (recv : Receiver)
    → IsValid recv
    → Valid.IsValid bc.replay
    → (recv' : Receiver) × (caught te from bc recv ≡ some recv')
      × IsValid recv'
      × CaughtUp bc.replay te.kind (next_seq from) recv recv'
unfolding request_keyframe
caught_lem te from bc recv v ring =
    let replay = (replay_since (next_seq from) bc.replay).0 in
    elim (replay_since_lem (next_seq from) ring) [
      | inl (none_left, empty, ready) ↦
          let units : Perm replay (from_seq (next_seq from) (snapshot bc.replay)) =
            rw (empty, none_left) (Perm.refl _) in
          spliced_lem te from bc recv v ready record { units = units; reached = inl none_left }
      | inr (inl (some_left, all, _, behind)) ↦ elim (Bool-cases (waits_for_keyframe te.kind)) [
        | inl waits ↦ (
          request_keyframe recv,
          rw (behind, waits) refl,
          record { flagged = v.flagged; room = v.room; bounded = v.bounded },
          inl (all, some_left, rw waits refl),
        )
        | inr goes ↦ (recv, rw (behind, goes) refl, v, inl (all, some_left, rw goes refl))
      ]
      | inr (inr (some_old, _, units, ready)) ↦
          spliced_lem te from bc recv v ready record { units = units; reached = inr some_old }
    ]
