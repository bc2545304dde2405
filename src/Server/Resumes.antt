-- ===== src/Server/Resumes.antt =====
-- A session that is resumed: OnResume of server/server.go.
use quicrtc.Prelude.{ℕ, ◌<◌, ◌≡◌, ◌⊎◌, List, length, get_elem?, ◌∷◌, none, some, Text, lookup, All}
use quicrtc.Pubsub.Replay.Valid
use quicrtc.Pubsub.Receiver.{Receiver}
use quicrtc.Pubsub.Receiver.Laws.{IsValid}
use quicrtc.Pubsub.Broadcaster.{Broadcaster}
use quicrtc.Server.{TrackEntry, Server, catch_up_all}
use quicrtc.Server.CatchUp.{next_seq, CaughtUp}

-- Every pointer is one to a valid receiver, or to a broadcaster with a valid ring.
pub record IsReady (recvs : List (Text × ℕ)) (s : Server) : Type 0 where
  pub valid : All IsValid s.heap
  pub rings : All (λ (bc : Broadcaster). Valid.IsValid bc.replay) s.bcs
  pub placed : All (λ (e : Text × TrackEntry). e.1.bc < length s.bcs) s.tracks
  pub held : All (λ (e : Text × ℕ). e.1 < length s.heap) recvs

-- The rest of the loop, on a state in which the receiver `r` is as it was.
record Passed (recvs : List (Text × ℕ)) (r : ℕ) (cursor : Text × ℕ) (rest : List (Text × ℕ))
    (s s' : Server) : Type 0 where
  pub goes_on : catch_up_all recvs (cursor ∷ rest) s ≡ catch_up_all recvs rest s'
  pub ready : IsReady recvs s'
  pub tracks : s'.tracks ≡ s.tracks
  pub bcs : s'.bcs ≡ s.bcs
  pub same : get_elem? s'.heap r ≡ get_elem? s.heap r

-- The receiver of a track, after the loop.
abbrev pub Outcome :
    List (Text × ℕ) → Text → TrackEntry → Broadcaster → Receiver → Receiver → Type 0
Outcome last_seen name te bc recv recv' =
    ((lookup name last_seen ≡ none) × (recv' ≡ recv))
    ⊎ ((from : ℕ) × (lookup name last_seen ≡ some from)
        × CaughtUp bc.replay te.kind (next_seq from) recv recv')
