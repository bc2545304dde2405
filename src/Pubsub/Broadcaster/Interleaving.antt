-- ===== src/Pubsub/Broadcaster/Interleaving.antt =====
-- Calls that run at the same time. Publish, Unsubscribe and Close each take the broadcaster's lock
-- once and then, one after the other, the locks of the receivers they found; a step of the system
-- is what is done under one lock.
pub mod Safe
pub mod Safety
pub mod Closed
use quicrtc.Prelude.{
  ℕ, zero, suc, ◌≡◌, List, Bool, true, false, if◌then◌else◌, length, set, get_elem?, [], ◌∷◌, ◌++◌,
  Option, some, none, map, ℤ,
}
use quicrtc.Pubsub.{AccessUnit}
use quicrtc.Pubsub.Receiver.{
  Chan, Receiver, deliver, request_keyframe, shut_receiver, try_receive, ◌>>=◌,
}
use quicrtc.Pubsub.Broadcaster.{
  Broadcaster, State, subscribe_with_capacity, present, delete, shut_at, admit, record_au,
  deliver_at,
}

-- What is left to be done under the lock of the receiver at `target`.
pub data Pending : Type 0 where
  send : (self_contained : Bool) (au : AccessUnit) (target : ℕ) → Pending
  shut : (target : ℕ) → Pending

-- The sends that calls of Publish, and the closings that calls of Unsubscribe and Close, still have
-- to do.
pub record System : Type 0 where
  pub state : State
  pub todo : List Pending

-- The part of Publish under the broadcaster's lock.
unfoldable pub publish_locked : AccessUnit → System → System
unfolding admit record_au
publish_locked au y = elim (admit y.state.bc au) [
  | none ↦ y
  | some au' ↦
      let b = y.state.bc in
      record {
        state = record y.state { bc = record_au au' b };
        todo = y.todo ++ map (λ p. send b.self_contained au' p) b.receivers;
      }
]

-- The part of Unsubscribe under the broadcaster's lock.
unfoldable pub unsubscribe_locked : ℕ → System → System
unfolding present delete
unsubscribe_locked p y =
    let b = y.state.bc in
    if present p b.receivers
    then record {
      state = record y.state { bc = record b { receivers = delete p b.receivers } };
      todo = y.todo ++ shut p ∷ [];
    }
    else y

-- The part of Close under the broadcaster's lock.
unfoldable pub close_locked : System → System
close_locked y =
    let b = y.state.bc in
    record {
      state = record y.state { bc = record b { receivers = [] } };
      todo = y.todo ++ map (λ p. shut p) b.receivers;
    }

-- What is done under a receiver's lock; `none` is a panic.
unfoldable pub run : Pending → List Receiver → Option (List Receiver)
unfolding deliver_at shut_at
run (send self_contained au p) heap = deliver_at self_contained au p heap
run (shut p) heap = shut_at p heap

-- A reader of Frames takes a unit.
unfoldable pub read_frame : Receiver → Receiver
unfolding try_receive
read_frame r = record r { ch = try_receive r.ch }

abbrev pub with_heap : List Receiver → System → System
with_heap heap y = record y { state = record y.state { heap = heap } }

-- The steps, in any order. Those left to be done are taken in any order too, which allows more than
-- the calls do: each call does its own in the order in which it found the receivers.
pub data Step : System → System → Type 0 where
  publish_step : (au : AccessUnit) {y : System} → Step y (publish_locked au y)
  unsubscribe_step : (p : ℕ) {y : System} → Step y (unsubscribe_locked p y)
  close_step : {y : System} → Step y (close_locked y)
  subscribe_step :
      (chan_size : ℤ) (p : ℕ) {y : System} {s : State}
      → subscribe_with_capacity chan_size y.state ≡ some (s, p)
      → Step y (record y { state = s })
  run_step :
      (before : List Pending) (t : Pending) (after : List Pending) {y : System}
      {heap : List Receiver}
      → y.todo ≡ before ++ t ∷ after
      → run t y.state.heap ≡ some heap
      → Step y (record (with_heap heap y) { todo = before ++ after })
  read_step :
      (p : ℕ) {y : System} {r : Receiver}
      → get_elem? y.state.heap p ≡ some r
      → Step y (with_heap (set y.state.heap p (read_frame r)) y)
  request_step :
      (p : ℕ) {y : System} {r : Receiver}
      → get_elem? y.state.heap p ≡ some r
      → Step y (with_heap (set y.state.heap p (request_keyframe r)) y)

-- Any number of steps.
pub data Steps : System → System → Type 0 where
  done : {y : System} → Steps y y
  next : {x y z : System} → Step x y → Steps y z → Steps x z
