-- ===== src/Pubsub/Receiver.antt =====
-- Receiver of pubsub/broadcaster.go: a subscriber's channel and its two flags.
pub mod Laws
pub mod Splice
use quicrtc.Prelude.{
  ℕ, zero, suc, List, Bool, true, false, ◌||◌, ◌&&◌, not, ◌==◌, ltb, leb, if◌then◌else◌, length,
  drop, [], ◌∷◌, ◌++◌, Option, some, none,
}
use quicrtc.Pubsub.{AccessUnit}

-- A Go channel of access units: what it buffers, for how many, and whether it was closed.
pub record Chan : Type 0 where
  pub queue : List AccessUnit
  pub cap : ℕ
  pub shut : Bool

pub record Receiver : Type 0 where
  pub ch : Chan
  pub closed : Bool
  pub need_keyframe : Bool

-- `select { case ch <- au: … default: … }`: whether it was sent. `none` is the run-time panic of a
-- send on a closed channel.
unfoldable pub try_send : AccessUnit → Chan → Option (Chan × Bool)
try_send au c =
    if c.shut
    then none
    else if ltb (length c.queue) c.cap
    then some (record c { queue = c.queue ++ au ∷ [] }, true)
    else some (c, false)

-- `select { case <-ch: default: }`
unfoldable pub try_receive : Chan → Chan
try_receive c = record c { queue = drop 1 c.queue }

-- `close(ch)`; `none` is the panic of a second close.
unfoldable pub close_chan : Chan → Option Chan
close_chan c = if c.shut then none else some (record c { shut = true })

infixl 5 ◌>>=◌
abbrev pub ◌>>=◌ {ℓ κ} : {A : Type ℓ} {B : Type κ} → Option A → (A → Option B) → Option B
none >>= f = none
some a >>= f = f a

-- A send that makes room, if there is none, by taking one unit out first.
unfoldable pub send_evicting : AccessUnit → Chan → Option (Chan × Bool)
unfolding try_send try_receive
send_evicting au c = do
  (c', sent) ← try_send au c
  if sent then some (c', true) else try_send au (try_receive c')

-- The body of the fanout loop of Publish, for one receiver.
unfoldable pub deliver : Bool → AccessUnit → Receiver → Option Receiver
unfolding send_evicting
deliver self_contained au r =
    if r.closed
    then some r
    else if self_contained
    then (do (c, sent) ← send_evicting au r.ch; some (record r { ch = c }))
    else if r.need_keyframe && not au.keyframe
    then some r
    else if au.keyframe
    then (do
      (c, sent) ← send_evicting au r.ch
      some (record r { ch = c; need_keyframe = not sent }))
    else (do
      (c, sent) ← try_send au r.ch
      some (record r { ch = c; need_keyframe = if sent then r.need_keyframe else true }))

-- RequestKeyframe
unfoldable pub request_keyframe : Receiver → Receiver
request_keyframe r = record r { need_keyframe = true }

-- NeedsKeyframe
unfoldable pub needs_keyframe : Receiver → Bool
needs_keyframe r = r.need_keyframe

-- QueueDepth
unfoldable pub queue_depth : Receiver → ℕ
queue_depth r = length r.ch.queue

-- The part of Unsubscribe and of Close that a receiver's lock guards.
unfoldable pub shut_receiver : Receiver → Option Receiver
unfolding close_chan
shut_receiver r =
    if r.closed then some r else (do c ← close_chan r.ch; some (record r { ch = c; closed = true }))
