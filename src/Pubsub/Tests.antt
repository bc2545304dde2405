-- ===== src/Pubsub/Tests.antt =====
-- Concrete rings, receivers and broadcasters for the theorems on package pubsub.
use quicrtc.Prelude.{
  ℕ, Bool, true, false, some, ◌≡◌, refl, ◌⊎◌, inl, inr, ◌≤◌, length, [], ◌∷◌, ◌++◌, arith, pos,
}
use quicrtc.Pubsub.{AccessUnit, zero_au}
use quicrtc.Pubsub.Replay.{Ring, snapshot, replay_append, replay_append_all, set_replay_cap}
use quicrtc.Pubsub.Replay.Valid.{IsValid, total}
use quicrtc.Pubsub.Replay.Spec.{latest, append}
use quicrtc.Pubsub.Replay.Refine.{IsRing, Holds, replay_append-Holds}
use quicrtc.Pubsub.Replay.Limits.{set_replay_cap_lem}
use quicrtc.Pubsub.Replay.History.{IsEnd, replay_history}
use quicrtc.Pubsub.Replay.Since.{replay_since}
use quicrtc.Pubsub.Replay.Since.Laws.{Answer, replay_since_lem}
use quicrtc.Pubsub.Receiver.{Receiver, deliver}
use quicrtc.Pubsub.Receiver.Laws.{Outcome, deliver-Outcome}
use quicrtc.Pubsub.Receiver.Laws

-- A unit of one byte.
abbrev au : ℕ → Bool → AccessUnit
au seq keyframe = record zero_au { bytes = seq ∷ []; seq = seq; keyframe = keyframe }

-- A ring that has wrapped around: 3 is its oldest unit.
abbrev ring : Ring
ring = record {
  buf = au 5 false ∷ au 3 true ∷ au 4 false ∷ [];
  head = 1;
  cap = 3;
  bytes = 3;
  max_bytes = 10;
}

ring-IsValid : IsValid ring
ring-IsValid = record {
  slots = omega arith;
  unwrapped = inl refl;
  inside = inr (omega arith);
  counted = refl;
}

ring-IsRing : IsRing ring
ring-IsRing = record { valid = ring-IsValid; budget = inr (inl (omega arith)) }

replay_append-Holds_example :
    Holds (append 3 10 (au 6 true) (snapshot ring)) ring (replay_append (au 6 true) ring)
replay_append-Holds_example = replay_append-Holds (au 6 true) ring-IsRing

replay_history_example :
    let r' = replay_append_all (au 6 true ∷ au 7 false ∷ []) ring in
    IsRing r'
    × IsEnd (snapshot r') (snapshot ring ++ au 6 true ∷ au 7 false ∷ [])
    × (length (snapshot r') ≤ 3)
    × ((ring.max_bytes ≡ 0) ⊎ (total (snapshot r') ≤ 10) ⊎ (length (snapshot r') ≤ 1))
replay_history_example = replay_history (au 6 true) (au 7 false ∷ []) ring-IsRing (omega arith)

set_replay_cap_lem_example :
    let r' = set_replay_cap (pos 2) ring in
    IsRing r' × (snapshot r' ≡ latest 2 (snapshot ring)) × (r'.cap ≡ 2) × (r'.max_bytes ≡ 10)
set_replay_cap_lem_example = set_replay_cap_lem (pos 2) ring-IsRing

replay_since_lem_example : Answer 4 (snapshot ring) (replay_since 4 ring)
replay_since_lem_example = replay_since_lem 4 ring-IsValid

-- A full receiver.
abbrev receiver : Receiver
receiver = record {
  ch = record { queue = au 3 true ∷ au 4 false ∷ []; cap = 2; shut = false };
  closed = false;
  need_keyframe = false;
}

receiver-IsValid : Laws.IsValid receiver
receiver-IsValid = record { flagged = refl; room = omega arith; bounded = omega arith }

deliver-Outcome_example :
    (r' : Receiver) × (deliver false (au 5 true) receiver ≡ some r')
    × Outcome false (au 5 true) receiver r'
deliver-Outcome_example = deliver-Outcome false (au 5 true) receiver-IsValid refl
