-- ===== src/Pubsub/Receiver/Splice.antt =====
-- SpliceFront of pubsub/broadcaster.go.
pub mod Merge
pub mod Laws
use quicrtc.Prelude.{
  ℕ, zero, suc, List, Bool, true, false, ◌==◌, if◌then◌else◌, length, [], ◌∷◌, Option, some, none,
}
use quicrtc.Pubsub.{AccessUnit}
use quicrtc.Pubsub.Replay.Since.{sort_by_seq}
use quicrtc.Pubsub.Receiver.{Chan, Receiver, send_evicting, ◌>>=◌}

-- `bySeq[au.Seq] = au`; the map is the list of its values, each by its own Seq.
unfoldable pub put : AccessUnit → List AccessUnit → List AccessUnit
put au [] = au ∷ []
put au (x ∷ xs) = if x.seq == au.seq then au ∷ xs else x ∷ put au xs

unfoldable pub put_all : List AccessUnit → List AccessUnit → List AccessUnit
unfolding put
put_all [] by_seq = by_seq
put_all (au ∷ aus) by_seq = put_all aus (put au by_seq)

-- The sorted values of the map. No two have the same Seq, so neither the order in which Go visits
-- the map nor the sort's treatment of ties shows.
unfoldable pub merge : List AccessUnit → List AccessUnit → List AccessUnit
unfolding put_all sort_by_seq
merge prefix current = sort_by_seq (put_all current (put_all prefix []))

-- The refill loop.
unfoldable pub refill : List AccessUnit → Receiver → Option Receiver
unfolding send_evicting
refill [] r = some r
refill (au ∷ aus) r = do
  (c, sent) ← send_evicting au r.ch
  if sent
      then refill aus (record r { ch = c })
      else some (record r { ch = c; need_keyframe = true })

-- The drain leaves the channel empty.
unfoldable pub splice_front : List AccessUnit → Receiver → Option Receiver
unfolding merge refill
splice_front prefix r =
    if length prefix == 0
    then some r
    else if r.closed
    then some r
    else refill (merge prefix r.ch.queue) (record r { ch = record r.ch { queue = [] } })
