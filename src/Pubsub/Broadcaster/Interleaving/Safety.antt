-- ===== src/Pubsub/Broadcaster/Interleaving/Safety.antt =====
-- Panics in the interleavings of the calls of pubsub/broadcaster.go.
use quicrtc.Prelude.{
  ℕ, ◌≡◌, sym, ap, ◌∙◌, subst, ◌<◌, List, length, set, [], ◌∷◌, ◌++◌, some, some-injective, arith,
  All, All-get_elem?, All-set, All-remove, get_elem?-lt, length-set, length-drop,
}
use quicrtc.Pubsub.Receiver.{Receiver, request_keyframe, try_receive}
use quicrtc.Pubsub.Receiver.Laws.{IsValid}
use quicrtc.Pubsub.Broadcaster.{State}
use quicrtc.Pubsub.Broadcaster.Sound.{IsSound, IsOpenAt}
use quicrtc.Pubsub.Broadcaster.Interleaving.{
  Pending, System, run, read_frame, with_heap, Step, publish_step, unsubscribe_step, close_step,
  subscribe_step, run_step, read_step, request_step, Steps, done, next,
}
use quicrtc.Pubsub.Broadcaster.Interleaving.Safe.{
  IsSafe, target, run-IsValid, publish_locked-IsSafe, unsubscribe_locked-IsSafe,
  close_locked-IsSafe, with_heap-IsSafe, subscribed_state, subscribed-IsSafe,
}

set-IsSafe :
    (p : ℕ) (r' : Receiver) {y : System}
    → IsSafe y
    → IsValid r'
    → IsSafe (with_heap (set y.state.heap p r') y)
set-IsSafe p r' {y} v h =
    with_heap-IsSafe (set y.state.heap p r') y.todo v
      (All-set IsValid y.state.heap p r' v.receivers_valid h) (length-set y.state.heap p r')
      v.targets

read_frame-IsValid : {r : Receiver} → IsValid r → IsValid (read_frame r)
unfolding read_frame try_receive
read_frame-IsValid {r} v = record {
  flagged = v.flagged;
  room = v.room;
  bounded = omega (arith, v.bounded, length-drop 1 r.ch.queue);
}

request_keyframe-IsValid : {r : Receiver} → IsValid r → IsValid (request_keyframe r)
unfolding request_keyframe
request_keyframe-IsValid {r} v = record { flagged = v.flagged; room = v.room; bounded = v.bounded }

run_step-IsSafe :
    (before : List Pending) (t : Pending) (after : List Pending) {y : System} {heap : List Receiver}
    → IsSafe y
    → y.todo ≡ before ++ t ∷ after
    → run t y.state.heap ≡ some heap
    → IsSafe (record (with_heap heap y) { todo = before ++ after })
run_step-IsSafe before t after {y} {heap} v e h =
    let P = λ (u : Pending). target u < length y.state.heap in
    let left = All-remove P before t after (subst (All P) e v.targets) in
    let (heap', e', all, len) = run-IsValid t y.state.heap v.receivers_valid left.0 in
    let same : heap' ≡ heap = some-injective heap' heap (sym e' ∙ h) in
    with_heap-IsSafe heap (before ++ after) v (subst (All IsValid) same all)
      (ap length (sym same) ∙ len) left.1

pub Step-IsSafe : {y z : System} → Step y z → IsSafe y → IsSafe z
Step-IsSafe (publish_step au) v = publish_locked-IsSafe au v
Step-IsSafe (unsubscribe_step p) v = unsubscribe_locked-IsSafe p v
Step-IsSafe close_step v = close_locked-IsSafe v
Step-IsSafe (subscribe_step chan_size p {y} {s} e) v =
    let (r, valid, same) = subscribed_state chan_size y.state s p v.room e in
    subst (λ s'. IsSafe (record y { state = s' })) same (subscribed-IsSafe r v valid)
Step-IsSafe (run_step before t after e h) v = run_step-IsSafe before t after v e h
Step-IsSafe (read_step p {y} {r} e) v =
    set-IsSafe p (read_frame r) v
      (read_frame-IsValid (All-get_elem? IsValid y.state.heap p r v.receivers_valid e))
Step-IsSafe (request_step p {y} {r} e) v =
    set-IsSafe p (request_keyframe r) v
      (request_keyframe-IsValid (All-get_elem? IsValid y.state.heap p r v.receivers_valid e))

pub Steps-IsSafe : {y z : System} → Steps y z → IsSafe y → IsSafe z
Steps-IsSafe done v = v
Steps-IsSafe (next s rest) v = Steps-IsSafe rest (Step-IsSafe s v)

open_lt :
    (heap : List Receiver) (ps : List ℕ) → All (IsOpenAt heap) ps → All (λ p. p < length heap) ps
open_lt heap [] all = tt
open_lt heap (p ∷ ps) all =
    let (r, e, o) = all.0 in (get_elem?-lt heap p r e, open_lt heap ps all.1)

-- A sound state, with no call under way.
abbrev pub at_rest : State → System
at_rest s = record { state = s; todo = [] }

pub at_rest-IsSafe : {s : State} → IsSound s → IsSafe (at_rest s)
at_rest-IsSafe {s} v = record {
  receivers_valid = v.receivers_valid;
  registered = open_lt s.heap s.bc.receivers v.registered_open;
  targets = tt;
  room = v.room;
}

-- In any interleaving of calls of Publish, Unsubscribe, Close, SubscribeWithCapacity and
-- RequestKeyframe and of reads of Frames, from a sound state with no call under way, whatever a
-- call still has to do under a receiver's lock does not panic: no unit is sent on a closed channel
-- and no channel is closed twice. And every channel is within its capacity.
pub run-never_panics :
    {s : State} {y : System} (before : List Pending) (t : Pending) (after : List Pending)
    → IsSound s
    → Steps (at_rest s) y
    → y.todo ≡ before ++ t ∷ after
    → All IsValid y.state.heap × ((heap : List Receiver) × (run t y.state.heap ≡ some heap))
run-never_panics {s} {y} before t after sound steps e =
    let v = Steps-IsSafe steps (at_rest-IsSafe sound) in
    let P = λ (u : Pending). target u < length y.state.heap in
    let left = All-remove P before t after (subst (All P) e v.targets) in
    let (heap, h, all, len) = run-IsValid t y.state.heap v.receivers_valid left.0 in
    (v.receivers_valid, (heap, h))
