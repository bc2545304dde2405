-- ===== src/Pubsub/Broadcaster.antt =====
-- Broadcaster of pubsub/broadcaster.go. A receiver is reached by a pointer, an index of the heap;
-- a lookup that fails is a nil dereference, which panics: `none`.
pub mod Chain
pub mod Sound
pub mod Fanout
pub mod Membership
pub mod Removal
pub mod Interleaving
mod Tests
use quicrtc.Prelude.{
  ℕ, zero, suc, ◌+◌, ◌^◌, ◌%◌, List, Bool, true, false, ◌||◌, ◌&&◌, not, ◌==◌, ltb, leb,
  if◌then◌else◌, length, take, drop, set, get_elem?, [], ◌∷◌, ◌++◌, Option, some, none, ℤ, pos,
  negsuc, at_least_zero,
}
use quicrtc.Pubsub.{AccessUnit, size}
use quicrtc.Pubsub.Replay.{Ring, replay_append, set_replay_cap, set_replay_max_bytes}
use quicrtc.Pubsub.Receiver.{Chan, Receiver, ◌>>=◌, try_send, deliver, shut_receiver}

-- An interceptor; `none` is a returned error.
abbrev pub Interceptor : Type 0
Interceptor = AccessUnit → Option AccessUnit

pub record Broadcaster : Type 0 where
  pub receivers : List ℕ
  pub latest_keyframe : Option AccessUnit
  pub chan_size : ℕ
  pub max_au_bytes : ℤ
  pub self_contained : Bool
  pub replay : Ring
  pub interceptors : List Interceptor
  pub next_interceptor_id : ℕ
  pub interceptor_ids : List ℕ

-- A broadcaster and the receivers that were allocated.
pub record State : Type 0 where
  pub bc : Broadcaster
  pub heap : List Receiver

abbrev pub default_replay_cap : ℕ
default_replay_cap = 256

abbrev pub default_replay_max_bytes : ℕ
default_replay_max_bytes = 67108864

-- `chanSize <= 0` picks 30.
abbrev pub or_thirty : ℤ → ℕ
or_thirty (pos zero) = 30
or_thirty (pos (suc n)) = suc n
or_thirty (negsuc n) = 30

-- NewBroadcasterWithBytes
unfoldable pub new_broadcaster_with_bytes : ℤ → ℤ → Broadcaster
new_broadcaster_with_bytes chan_size max_au_bytes = record {
  receivers = [];
  latest_keyframe = none;
  chan_size = or_thirty chan_size;
  max_au_bytes = max_au_bytes;
  self_contained = false;
  replay = record {
    buf = [];
    head = 0;
    cap = default_replay_cap;
    bytes = 0;
    max_bytes = default_replay_max_bytes;
  };
  interceptors = [];
  next_interceptor_id = 0;
  interceptor_ids = [];
}

-- NewBroadcaster
unfoldable pub new_broadcaster : ℤ → Broadcaster
unfolding new_broadcaster_with_bytes
new_broadcaster chan_size = new_broadcaster_with_bytes chan_size (pos 16777216)

-- SetSelfContained
unfoldable pub set_self_contained : Bool → Broadcaster → Broadcaster
set_self_contained v b = record b { self_contained = v }

-- `r.ch <- au`; `none` is a panic, or a wait for room that no one makes.
unfoldable pub send_blocking : AccessUnit → Chan → Option Chan
unfolding try_send
send_blocking au c = do (c', sent) ← try_send au c; if sent then some c' else none

-- What subscribeWithCap makes of the new receiver.
unfoldable pub first_receiver : Broadcaster → ℕ → Option Receiver
unfolding send_blocking
first_receiver b chan_size =
    let ch : Chan = record { queue = []; cap = chan_size; shut = false } in
    elim b.latest_keyframe [
      | some k ↦ do
        c ← send_blocking k ch
        some (record { ch = c; closed = false; need_keyframe = false })
      | none ↦ some (record { ch = ch; closed = false; need_keyframe = not b.self_contained })
    ]

-- subscribeWithCap: the pointer to the new receiver.
unfoldable pub subscribe_with_cap : ℕ → State → Option (State × ℕ)
unfolding first_receiver
subscribe_with_cap chan_size s = do
  r ← first_receiver s.bc chan_size
  some (
    record {
      bc = record s.bc { receivers = length s.heap ∷ s.bc.receivers };
      heap = s.heap ++ r ∷ [];
    },
    length s.heap,
  )

-- Subscribe
unfoldable pub subscribe : State → Option (State × ℕ)
unfolding subscribe_with_cap
subscribe s = subscribe_with_cap s.bc.chan_size s

-- SubscribeWithCapacity. A size below 0 is below the broadcaster's too.
unfoldable pub subscribe_with_capacity : ℤ → State → Option (State × ℕ)
unfolding subscribe_with_cap
subscribe_with_capacity chan_size s =
    let n = at_least_zero chan_size in
    subscribe_with_cap (if ltb n s.bc.chan_size then s.bc.chan_size else n) s

-- `_, present := b.receivers[r]`
unfoldable pub present : ℕ → List ℕ → Bool
present p [] = false
present p (q ∷ qs) = (q == p) || present p qs

-- `delete(b.receivers, r)`
unfoldable pub delete : ℕ → List ℕ → List ℕ
delete p [] = []
delete p (q ∷ qs) = if q == p then delete p qs else q ∷ delete p qs

-- The part of Unsubscribe and of Close under a receiver's lock.
unfoldable pub shut_at : ℕ → List Receiver → Option (List Receiver)
unfolding shut_receiver
shut_at p heap = do r ← get_elem? heap p; r' ← shut_receiver r; some (set heap p r')

-- Unsubscribe
unfoldable pub unsubscribe : ℕ → State → Option State
unfolding present delete shut_at
unsubscribe p s =
    if present p s.bc.receivers
    then (do
      heap ← shut_at p s.heap
      some (record { bc = record s.bc { receivers = delete p s.bc.receivers }; heap = heap }))
    else some s

-- Count
unfoldable pub count : State → ℕ
count s = length s.bc.receivers

unfoldable pub shut_all : List ℕ → List Receiver → Option (List Receiver)
unfolding shut_at
shut_all [] heap = some heap
shut_all (p ∷ ps) heap = do heap' ← shut_at p heap; shut_all ps heap'

-- Close
unfoldable pub close : State → Option State
unfolding shut_all
close s = do
  heap ← shut_all s.bc.receivers s.heap
  some (record { bc = record s.bc { receivers = [] }; heap = heap })

-- LatestKeyframe
unfoldable pub latest_keyframe : Broadcaster → Option AccessUnit
latest_keyframe b = b.latest_keyframe

-- AddInterceptor: the handle of the returned closure, `none` for a nil function.
unfoldable pub add_interceptor : Option Interceptor → Broadcaster → Broadcaster × Option ℕ
add_interceptor none b = (b, none)
add_interceptor (some fn) b =
    let id = (b.next_interceptor_id + 1) % 2 ^ 64 in
    (
      record b {
        interceptors = b.interceptors ++ fn ∷ [];
        next_interceptor_id = id;
        interceptor_ids = b.interceptor_ids ++ id ∷ [];
      },
      some id,
    )

-- The search loop of the returned closure.
unfoldable pub index_of : ℕ → ℕ → List ℕ → Option ℕ
index_of id i [] = none
index_of id i (got ∷ ids) = if got == id then some i else index_of id (i + 1) ids

-- `append(s[:i], s[i+1:]...)` on a fresh slice
abbrev pub without {ℓ} : {A : Type ℓ} → ℕ → List A → List A
without i xs = take i xs ++ drop (suc i) xs

-- The closure that AddInterceptor returns.
unfoldable pub remove_interceptor : Option ℕ → Broadcaster → Broadcaster
unfolding index_of
remove_interceptor none b = b
remove_interceptor (some id) b = elim (index_of id 0 b.interceptor_ids) [
  | none ↦ b
  | some i ↦ record b {
    interceptors = without i b.interceptors;
    interceptor_ids = without i b.interceptor_ids;
  }
]

-- The interceptor loop of Publish.
unfoldable pub run_chain : List Interceptor → AccessUnit → Option AccessUnit
run_chain [] au = some au
run_chain (fn ∷ fns) au = do next ← fn au; run_chain fns next

-- `maxAU > 0 && int64(len(au.Bytes)) > maxAU`
unfoldable pub over_cap : ℤ → ℕ → Bool
over_cap (pos m) n = ltb 0 m && ltb m n
over_cap (negsuc m) n = false

-- The unit that passes the first two steps of Publish, `none` for one that is dropped there.
unfoldable pub admit : Broadcaster → AccessUnit → Option AccessUnit
unfolding run_chain over_cap
admit b au = do
  au' ← run_chain b.interceptors au
  if over_cap b.max_au_bytes (size au') then none else some au'

-- The third step of Publish.
unfoldable pub record_au : AccessUnit → Broadcaster → Broadcaster
record_au au b = record b {
  latest_keyframe = if au.keyframe then some au else b.latest_keyframe;
  replay = replay_append au b.replay;
}

unfoldable pub deliver_at : Bool → AccessUnit → ℕ → List Receiver → Option (List Receiver)
deliver_at self_contained au p heap = do
  r ← get_elem? heap p
  r' ← deliver self_contained au r
  some (set heap p r')

-- The fourth step of Publish.
unfoldable pub fanout : Bool → AccessUnit → List ℕ → List Receiver → Option (List Receiver)
unfolding deliver_at
fanout self_contained au [] heap = some heap
fanout self_contained au (p ∷ ps) heap = do
  heap' ← deliver_at self_contained au p heap
  fanout self_contained au ps heap'

-- The rest of Publish, for a unit that is not dropped.
unfoldable pub publish_admitted : AccessUnit → State → Option State
unfolding record_au fanout
publish_admitted au s = do
  heap ← fanout s.bc.self_contained au s.bc.receivers s.heap
  some (record { bc = record_au au s.bc; heap = heap })

-- Publish
unfoldable pub publish : AccessUnit → State → Option State
unfolding admit publish_admitted
publish au s = elim (admit s.bc au) [ none ↦ some s | some au' ↦ publish_admitted au' s ]
