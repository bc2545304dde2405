-- ===== src/Pubsub/Replay/Since.antt =====
-- ReplaySince of pubsub/broadcaster.go, and the sort by Seq that it shares with SpliceFront.
pub mod Laws
use quicrtc.Prelude.{
  ℕ, zero, suc, List, Bool, true, false, ◌||◌, ◌==◌, ltb, leb, if◌then◌else◌, length, [], ◌∷◌, ◌++◌,
}
use quicrtc.Pubsub.{AccessUnit}
use quicrtc.Pubsub.Replay.{Ring, snapshot}

-- `sort.Slice` by Seq. It does not say how it orders units of equal Seq; this sort keeps them in
-- the order of the input.
unfoldable pub insert_by_seq : AccessUnit → List AccessUnit → List AccessUnit
insert_by_seq x [] = x ∷ []
insert_by_seq x (y ∷ ys) =
    let rest = insert_by_seq x ys in if leb x.seq y.seq then x ∷ y ∷ ys else y ∷ rest

unfoldable pub sort_by_seq : List AccessUnit → List AccessUnit
unfolding insert_by_seq
sort_by_seq [] = []
sort_by_seq (x ∷ xs) = insert_by_seq x (sort_by_seq xs)

-- The loop that finds the oldest Seq.
unfoldable pub min_seq : ℕ → List AccessUnit → ℕ
min_seq m [] = m
min_seq m (au ∷ aus) = min_seq (if ltb au.seq m then au.seq else m) aus

-- The loop that collects the units with `au.Seq >= fromSeq`.
unfoldable pub seq_at_least : ℕ → List AccessUnit → List AccessUnit
seq_at_least from [] = []
seq_at_least from (au ∷ aus) =
    let rest = seq_at_least from aus in if leb from au.seq then au ∷ rest else rest

-- What ReplaySince does with the snapshot; nil and an empty slice are both the empty list.
unfoldable pub since : ℕ → List AccessUnit → List AccessUnit × Bool
unfolding min_seq seq_at_least sort_by_seq
since from [] = ([], true)
since from (au ∷ aus) =
    if ltb from (min_seq au.seq aus)
    then ([], false)
    else (sort_by_seq (seq_at_least from (au ∷ aus)), true)

unfoldable pub replay_since : ℕ → Ring → List AccessUnit × Bool
unfolding since
replay_since from r =
    if r.cap == 0 || length r.buf == 0 then ([], true) else since from (snapshot r)
