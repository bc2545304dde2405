-- ===== src/Server.antt =====
-- What server/server.go does for a session that starts, resumes or ends: the callbacks and the
-- deferred function of runSession, with the track table behind them. All receivers are on one heap,
-- and a pointer is an index of it; a broadcaster is reached by an index too, since a parked session
-- holds it when its track has gone. `none` is a panic of the broadcasters and receivers.

pub mod CatchUp
pub mod Resumes
mod Tests
use quicrtc.Prelude.{
  ℕ, ◌+◌, ◌%◌, ◌^◌, List, Bool, true, false, not, ◌&&◌, ◌||◌, ◌==◌, ltb, if◌then◌else◌, length,
  drop, set, get_elem?, [], ◌∷◌, ◌++◌, Option, none, some, pos, Text, same_text, lookup, insert,
}
use quicrtc.Track.{kind_video}
use quicrtc.Pubsub.Replay.Since.{replay_since}
use quicrtc.Pubsub.Receiver.{Receiver, ◌>>=◌, request_keyframe}
use quicrtc.Pubsub.Receiver.Splice.{splice_front}
use quicrtc.Pubsub.Broadcaster.{Broadcaster, State, subscribe, subscribe_with_capacity, unsubscribe}
use quicrtc.SessionStore.{Store, park, resume}
use quicrtc.Session.{Session, receivers}

pub record TrackEntry : Type 0 where
  pub name : Text
  pub kind : Text
  pub priority : ℕ
  pub track_id : ℕ
  pub bc : ℕ

-- The part of Server that a session's start and end use. `evictions` has, for each onEvict closure,
-- the broadcasters and receivers that it captured; a label of the store is an index of it.
pub record Server : Type 0 where
  pub tracks : List (Text × TrackEntry)
  pub bcs : List Broadcaster
  pub heap : List Receiver
  pub store : Store
  pub evictions : List (List (ℕ × ℕ))
  pub draining : Bool

-- A method of a broadcaster.
unfoldable pub on_broadcaster : ℕ → (State → Option State) → Server → Option Server
on_broadcaster b method s = do
  bc ← get_elem? s.bcs b
  st ← method (record { bc = bc; heap = s.heap })
  some (record s { bcs = set s.bcs b st.bc; heap = st.heap })

-- The same for a method that returns a receiver.
unfoldable pub from_broadcaster : ℕ → (State → Option (State × ℕ)) → Server → Option (Server × ℕ)
from_broadcaster b method s = do
  bc ← get_elem? s.bcs b
  (st, r) ← method (record { bc = bc; heap = s.heap })
  some (record s { bcs = set s.bcs b st.bc; heap = st.heap }, r)

-- trackEntry
unfoldable pub track_entry : Text → Server → Option TrackEntry
track_entry name s = lookup name s.tracks

-- trackIDFor
unfoldable pub track_id_for : Text → Server → ℕ
track_id_for name s = elim (lookup name s.tracks) [ none ↦ 0 | some t ↦ t.track_id ]

-- priorityFor
unfoldable pub priority_for : Text → Server → ℕ
priority_for name s = elim (lookup name s.tracks) [ none ↦ 4 | some t ↦ t.priority ]

-- kindFor
unfoldable pub kind_for : Text → Server → Text
kind_for name s = elim (lookup name s.tracks) [
  | none ↦ kind_video
  | some t ↦ if not (length t.kind == 0) then t.kind else kind_video
]

-- The loop of trackSnapshot, with that of OnFreshSession, which makes a map of its result.
unfoldable pub subscribe_all : List (Text × TrackEntry) → Server → Option (Server × List (Text × ℕ))
subscribe_all [] s = some (s, [])
subscribe_all ((k, t) ∷ tracks) s = do
  (s', r) ← from_broadcaster t.bc subscribe s
  (s'', rest) ← subscribe_all tracks s'
  some (s'', insert t.name r rest)

-- OnFreshSession
unfoldable pub on_fresh_session : Server → Option (Server × List (Text × ℕ))
on_fresh_session s = subscribe_all s.tracks s

-- The calls of Unsubscribe of an onEvict closure.
unfoldable pub unsubscribe_pairs : List (ℕ × ℕ) → Server → Option Server
unsubscribe_pairs [] s = some s
unsubscribe_pairs ((b, r) ∷ ps) s = do
  s' ← on_broadcaster b (unsubscribe r) s
  unsubscribe_pairs ps s'

-- The onEvict closures that a call of the store has called.
unfoldable pub run_evictions : List ℕ → Server → Option Server
run_evictions [] s = some s
run_evictions (f ∷ fs) s = do
  captured ← get_elem? s.evictions f
  s' ← unsubscribe_pairs captured s
  run_evictions fs s'

unfoldable pub put_store : Store → Server → Option Server
put_store store s =
    run_evictions (drop (length s.store.called) store.called) (record s { store = store })

-- `te.kind == track.KindVideo || te.kind == ""`
abbrev pub waits_for_keyframe : Text → Bool
waits_for_keyframe kind = same_text kind kind_video || (length kind == 0)

-- The body of the loop of OnResume, for a receiver and a track that are there.
unfoldable pub catch_up : TrackEntry → ℕ → ℕ → Server → Option Server
catch_up te from_seq r s = do
  bc ← get_elem? s.bcs te.bc
  recv ← get_elem? s.heap r
  let (replay, available) = replay_since ((from_seq + 1) % 2 ^ 32) bc.replay
  let gap = if waits_for_keyframe te.kind then request_keyframe recv else recv
  let spliced = if ltb 0 (length replay) then splice_front replay recv else some recv
  recv' ← if not available then some gap else spliced
  some (record s { heap = set s.heap r recv' })

-- The loop of OnResume over the client's cursors.
unfoldable pub catch_up_all : List (Text × ℕ) → List (Text × ℕ) → Server → Option Server
catch_up_all recvs [] s = some s
catch_up_all recvs ((name, from_seq) ∷ last_seen) s = elim (lookup name recvs) [
  | none ↦ catch_up_all recvs last_seen s
  | some r ↦ elim (track_entry name s) [
    | none ↦ catch_up_all recvs last_seen s
    | some te ↦ catch_up te from_seq r s >>= λ s'. catch_up_all recvs last_seen s'
  ]
]

-- OnResume; `now` is what the store's call of time.Now returns.
unfoldable pub on_resume :
    ℕ → Text → Text → List (Text × ℕ) → Server → Option (Server × Option (List (Text × ℕ)))
on_resume now tenant id last_seen s =
    let (store, found) = resume now tenant id s.store in
    put_store store s >>= λ s'. elim found [
      | none ↦ some (s', none)
      | some recvs ↦ catch_up_all recvs last_seen s' >>= λ s''. some (s'', some recvs)
    ]

-- The calls of Unsubscribe for the receivers that a session has of a track.
unfoldable pub unsubscribe_receivers : ℕ → List ℕ → Server → Option Server
unsubscribe_receivers b [] s = some s
unsubscribe_receivers b (r ∷ rs) s = do
  s' ← on_broadcaster b (unsubscribe r) s
  unsubscribe_receivers b rs s'

-- The loop over the tracks that unsubscribes what the session has.
unfoldable pub unsubscribe_all : List (Text × TrackEntry) → Session → Server → Option Server
unsubscribe_all [] sess s = some s
unsubscribe_all ((k, t) ∷ tracks) sess s = do
  s' ← unsubscribe_receivers t.bc (receivers t.name sess) s
  unsubscribe_all tracks sess s'

-- parkedChanCap
abbrev pub parked_chan_cap : ℕ
parked_chan_cap = 320

-- The loop that subscribes fresh receivers: those to park, and what onEvict captures.
unfoldable pub subscribe_parked :
    List (Text × TrackEntry) → Server → Option (Server × List (Text × ℕ) × List (ℕ × ℕ))
subscribe_parked [] s = some (s, [], [])
subscribe_parked ((k, t) ∷ tracks) s = do
  (s', r) ← from_broadcaster t.bc (subscribe_with_capacity (pos parked_chan_cap)) s
  (s'', parked, pairs) ← subscribe_parked tracks s'
  some (s'', insert t.name r parked, (t.bc, r) ∷ pairs)

-- The deferred function of runSession, when Run has returned. `ctx_done` is `ctx.Err() != nil`, and
-- `now` and `later` are what Park's two calls of time.Now return.
unfoldable pub end_session : ℕ → ℕ → Bool → Session → Server → Option Server
end_session now later ctx_done sess s =
    if (length sess.session_id == 0) || ctx_done || s.draining
    then unsubscribe_all s.tracks sess s
    else (subscribe_parked s.tracks s >>= λ (s₁, parked, captured).
        unsubscribe_all s.tracks sess s₁ >>= λ s₂.
        let s₃ : Server = record s₂ { evictions = s₂.evictions ++ captured ∷ [] } in
        put_store
          (park now later sess.tenant sess.session_id parked (some (length s₂.evictions)) s₃.store)
          s₃)
