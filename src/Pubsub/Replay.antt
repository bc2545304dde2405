-- ===== src/Pubsub/Replay.antt =====
-- The replay ring of pubsub/broadcaster.go: the five replay fields of Broadcaster as one record,
-- and the functions that read and change them.
pub mod Valid
pub mod Spec
pub mod Evict
pub mod Place
pub mod Refine
pub mod Limits
pub mod History
pub mod Since
use quicrtc.Prelude.{
  ℕ, zero, suc, ◌+◌, ◌-◌, ◌%◌, List, Bool, true, false, ◌&&◌, ◌==◌, ltb, leb, if◌then◌else◌, length,
  drop, get_or, set, [], ◌∷◌, ◌++◌, ℤ, at_least_zero,
}
use quicrtc.Pubsub.{AccessUnit, zero_au, size}

pub record Ring : Type 0 where
  pub buf : List AccessUnit
  pub head : ℕ
  pub cap : ℕ
  pub bytes : ℕ
  pub max_bytes : ℕ

-- `b.replayBuf[i]`; `Replay.Valid` shows that no index is out of range.
abbrev pub at : List AccessUnit → ℕ → AccessUnit
at buf i = get_or buf i zero_au

-- The loop of replaySnapshotLocked, from round `i`, with `k` rounds left.
unfoldable pub snapshot_loop : List AccessUnit → ℕ → ℕ → ℕ → List AccessUnit
snapshot_loop buf head i zero = []
snapshot_loop buf head i (suc k) =
    at buf ((head + i) % length buf) ∷ snapshot_loop buf head (i + 1) k

-- replaySnapshotLocked
unfoldable pub snapshot : Ring → List AccessUnit
unfolding snapshot_loop
snapshot r =
    let n = length r.buf in
    if n == 0 then [] else if ltb n r.cap then r.buf else snapshot_loop r.buf r.head 0 n

-- replayEvictOldestLocked. `-` stops at 0, as the source's last test makes replayBytes do.
unfoldable pub evict_oldest : Ring → Ring
evict_oldest r =
    let n = length r.buf in
    let oldest_idx = if ltb n r.cap then 0 else r.head in
    let left = r.bytes - size (at r.buf oldest_idx) in
    let snap = snapshot r in
    if n == 0
    then r
    else if ltb n r.cap
    then record r { buf = drop 1 r.buf; bytes = left }
    else record r { buf = if ltb 1 (length snap) then drop 1 snap else []; head = 0; bytes = left }

-- The test of both eviction loops; `extra` is the size of the unit that is to be appended.
abbrev pub over_budget : Ring → ℕ → Bool
over_budget r extra =
    ltb 0 r.max_bytes && (ltb 0 (length r.buf) && ltb r.max_bytes (r.bytes + extra))

-- The loops `for over budget { b.replayEvictOldestLocked() }`. Each round takes an entry, so
-- `length buf` rounds are enough.
unfoldable pub evict_loop : ℕ → ℕ → Ring → Ring
evict_loop zero extra r = r
evict_loop (suc fuel) extra r =
    let rest = evict_loop fuel extra (evict_oldest r) in if over_budget r extra then rest else r

unfoldable pub evict_over_budget : ℕ → Ring → Ring
unfolding evict_loop
evict_over_budget extra r = evict_loop (length r.buf) extra r

-- The end of replayAppendLocked, once the budget has room.
unfoldable pub place : AccessUnit → Ring → Ring
place au r =
    if ltb (length r.buf) r.cap
    then record r { buf = r.buf ++ au ∷ []; bytes = r.bytes + size au }
    else record r {
      buf = set r.buf r.head au;
      bytes = r.bytes - size (at r.buf r.head) + size au;
      head = (r.head + 1) % r.cap;
    }

-- replayAppendLocked
unfoldable pub replay_append : AccessUnit → Ring → Ring
replay_append au r = if r.cap == 0 then r else place au (evict_over_budget (size au) r)

-- `for _, au := range current { b.replayAppendLocked(au) }`
unfoldable pub replay_append_all : List AccessUnit → Ring → Ring
replay_append_all [] r = r
replay_append_all (au ∷ aus) r = replay_append_all aus (replay_append au r)

-- SetReplayCap
unfoldable pub set_replay_cap : ℤ → Ring → Ring
set_replay_cap n r =
    let cap = at_least_zero n in
    let current = snapshot r in
    let kept = if ltb cap (length current) then drop (length current - cap) current else current in
    let fresh = record r { buf = []; head = 0; cap = cap; bytes = 0 } in
    if cap == r.cap then r else if cap == 0 then fresh else replay_append_all kept fresh

-- SetReplayMaxBytes
unfoldable pub set_replay_max_bytes : ℤ → Ring → Ring
set_replay_max_bytes n r = evict_over_budget 0 (record r { max_bytes = at_least_zero n })
