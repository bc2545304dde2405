-- ===== src/Pubsub/Broadcaster/Interleaving/Closed.antt =====
-- Closed receivers in the interleavings of the calls of pubsub/broadcaster.go.
use quicrtc.Prelude.{
  ℕ, ◌≡◌, refl, sym, ap, ◌∙◌, subst, ◌+◌, inl, inr, List, true, drop, set, get_elem?, [], ◌∷◌, ◌++◌,
  Option, some, some-injective, arith, get_elem?-lt, Bool-cases, Option-cases,
}
use quicrtc.Pubsub.{AccessUnit}
use quicrtc.Pubsub.Receiver.{Receiver, deliver, request_keyframe, shut_receiver, try_receive, ◌>>=◌}
use quicrtc.Pubsub.Receiver.Laws.{deliver-closed}
use quicrtc.Pubsub.Broadcaster.{State, present, shut_at, admit, deliver_at}
use quicrtc.Pubsub.Broadcaster.Sound.{IsSound}
use quicrtc.Pubsub.Broadcaster.Interleaving.{
  Pending, send, shut, System, publish_locked, unsubscribe_locked, close_locked, run, read_frame,
  Step, publish_step, unsubscribe_step, close_step, subscribe_step, run_step, read_step,
  request_step, Steps, done, next,
}
use quicrtc.Pubsub.Broadcaster.Interleaving.Safe.{IsSafe, subscribed_state}
use quicrtc.Pubsub.Broadcaster.Interleaving.Safety.{
  Step-IsSafe, at_rest, at_rest-IsSafe, Steps-IsSafe,
}
use quicrtc.Prelude.{get_elem?-set, get_elem?-set_other, get_elem?-append_left, drop-drop, ◌==◌}

-- The receiver at a pointer is closed, and what it buffers is what is left of a queue.
pub record StaysClosed (p : ℕ) (queue : List AccessUnit) (heap : List Receiver) : Type 0 where
  pub r : Receiver
  pub reached : get_elem? heap p ≡ some r
  pub closed : r.closed ≡ true
  pub reads : ℕ
  pub left : r.ch.queue ≡ drop reads queue

-- An operation on one receiver that leaves a receiver as it is.
set-same :
    (f : Receiver → Option Receiver) (q p : ℕ) (heap heap' : List Receiver) (r : Receiver)
    → (get_elem? heap q >>= (λ x. f x >>= (λ x'. some (set heap q x')))) ≡ some heap'
    → get_elem? heap p ≡ some r
    → f r ≡ some r
    → get_elem? heap' p ≡ some r
set-same f q p heap heap' r h e k = elim (Option-cases (get_elem? heap q)) [
  | inl nil ↦ absurd (cc (h, nil))
  | inr (x, there) ↦ elim (Option-cases (f x)) [
    | inl panics ↦ absurd (ground (arith, there, panics, h))
    | inr (x', g) ↦
        let same : set heap q x' ≡ heap' =
          some-injective (set heap q x') heap' (ground (arith, there, g, h)) in
        subst (λ h'. get_elem? h' p ≡ some r) same
          (elim (Bool-cases (q == p)) [
            | inl at_p ↦
                let qp : q ≡ p = ground arith in
                let xr = some-injective x r (sym there ∙ ap (get_elem? heap) qp ∙ e) in
                let x'r = some-injective x' r (sym g ∙ ap f xr ∙ k) in
                ap (get_elem? (set heap q x')) (sym qp)
                ∙ get_elem?-set heap q x' (get_elem?-lt heap q x there)
                ∙ ap some x'r
            | inr other ↦ get_elem?-set_other heap q p x' (λ qp. absurd (ground arith)) ∙ e
          ])
  ]
]

run-closed :
    (t : Pending) (p : ℕ) (heap heap' : List Receiver) (r : Receiver)
    → run t heap ≡ some heap'
    → get_elem? heap p ≡ some r
    → r.closed ≡ true
    → get_elem? heap' p ≡ some r
unfolding run deliver_at shut_at shut_receiver
run-closed (send self_contained au q) p heap heap' r h e c =
    set-same (deliver self_contained au) q p heap heap' r h e (deliver-closed self_contained au c)
run-closed (shut q) p heap heap' r h e c = set-same shut_receiver q p heap heap' r h e (rw c)

-- What a reader or RequestKeyframe does to one receiver keeps a closed one closed.
set-StaysClosed :
    (q p : ℕ) {queue : List AccessUnit} (heap : List Receiver) (x x' : Receiver) (n : ℕ)
    → get_elem? heap q ≡ some x
    → x'.closed ≡ x.closed
    → x'.ch.queue ≡ drop n x.ch.queue
    → StaysClosed p queue heap
    → StaysClosed p queue (set heap q x')
set-StaysClosed q p {queue} heap x x' n there c d v = elim (Bool-cases (q == p)) [
  | inl at_p ↦
      let qp : q ≡ p = ground arith in
      let xr = some-injective x v.r (sym there ∙ ap (get_elem? heap) qp ∙ v.reached) in
      record {
        r = x';
        reached =
            ap (get_elem? (set heap q x')) (sym qp)
            ∙ get_elem?-set heap q x' (get_elem?-lt heap q x there);
        closed = c ∙ ap (λ y. y.closed) xr ∙ v.closed;
        reads = v.reads + n;
        left = d ∙ ap (λ y. drop n y.ch.queue) xr ∙ ap (drop n) v.left ∙ drop-drop n v.reads queue;
      }
  | inr other ↦ record {
    r = v.r;
    reached = get_elem?-set_other heap q p x' (λ qp. absurd (ground arith)) ∙ v.reached;
    closed = v.closed;
    reads = v.reads;
    left = v.left;
  }
]

run-StaysClosed :
    (t : Pending) (p : ℕ) {queue : List AccessUnit} (heap heap' : List Receiver)
    → run t heap ≡ some heap'
    → StaysClosed p queue heap
    → StaysClosed p queue heap'
run-StaysClosed t p heap heap' h v = record {
  r = v.r;
  reached = run-closed t p heap heap' v.r h v.reached v.closed;
  closed = v.closed;
  reads = v.reads;
  left = v.left;
}

append-StaysClosed :
    (p : ℕ) {queue : List AccessUnit} (heap : List Receiver) (x : Receiver)
    → StaysClosed p queue heap
    → StaysClosed p queue (heap ++ x ∷ [])
append-StaysClosed p heap x v = record {
  r = v.r;
  reached = get_elem?-append_left heap (x ∷ []) p (get_elem?-lt heap p v.r v.reached) ∙ v.reached;
  closed = v.closed;
  reads = v.reads;
  left = v.left;
}

-- The calls that only take the broadcaster's lock leave the heap alone.
publish_locked-heap :
    (au : AccessUnit) (y : System) → (publish_locked au y).state.heap ≡ y.state.heap
unfolding publish_locked
publish_locked-heap au y = elim (Option-cases (admit y.state.bc au)) [
  | inl dropped ↦ rw (publish_locked, dropped)
  | inr (au', passed) ↦ rw (publish_locked, passed)
]

unsubscribe_locked-heap : (p : ℕ) (y : System) → (unsubscribe_locked p y).state.heap ≡ y.state.heap
unfolding unsubscribe_locked
unsubscribe_locked-heap p y = elim (Bool-cases (present p y.state.bc.receivers)) [
  | inl there ↦ rw (unsubscribe_locked, there)
  | inr gone ↦ rw (unsubscribe_locked, gone)
]

module _ (p : ℕ) {queue : List AccessUnit} where
  Step-StaysClosed :
      {y z : System}
      → Step y z
      → IsSafe y
      → StaysClosed p queue y.state.heap
      → StaysClosed p queue z.state.heap
  unfolding close_locked request_keyframe read_frame try_receive
  Step-StaysClosed (publish_step au {y}) v c =
      subst (StaysClosed p queue) (sym (publish_locked-heap au y)) c
  Step-StaysClosed (unsubscribe_step q {y}) v c =
      subst (StaysClosed p queue) (sym (unsubscribe_locked-heap q y)) c
  Step-StaysClosed close_step v c = c
  Step-StaysClosed (subscribe_step chan_size q {y} {s} e) v c =
      let (r, valid, same) = subscribed_state chan_size y.state s q v.room e in
      subst (λ (s' : State). StaysClosed p queue s'.heap) same
        (append-StaysClosed p y.state.heap r c)
  Step-StaysClosed (run_step before t after {y} {heap} e h) v c =
      run-StaysClosed t p y.state.heap heap h c
  Step-StaysClosed (read_step q {y} {r} e) v c =
      set-StaysClosed q p y.state.heap r (read_frame r) 1 e refl refl c
  Step-StaysClosed (request_step q {y} {r} e) v c =
      set-StaysClosed q p y.state.heap r (request_keyframe r) 0 e refl refl c

  Steps-StaysClosed :
      {y z : System}
      → Steps y z
      → IsSafe y
      → StaysClosed p queue y.state.heap
      → StaysClosed p queue z.state.heap
  Steps-StaysClosed done v c = c
  Steps-StaysClosed (next s rest) v c =
      Steps-StaysClosed rest (Step-IsSafe s v) (Step-StaysClosed s v c)

-- In any interleaving from a sound state with no call under way, a receiver that is closed at some
-- moment is closed at every later one, and of what it buffered then only what its reader took is
-- gone: nothing is put in its queue, not even by a Publish that was under way.
pub closed-StaysClosed :
    {s : State} {y z : System} {p : ℕ} {r : Receiver}
    → IsSound s
    → Steps (at_rest s) y
    → get_elem? y.state.heap p ≡ some r
    → r.closed ≡ true
    → Steps y z
    → StaysClosed p r.ch.queue z.state.heap
closed-StaysClosed {s} {y} {z} {p} {r} sound before e c after =
    Steps-StaysClosed p after (Steps-IsSafe before (at_rest-IsSafe sound))
      record { r = r; reached = e; closed = c; reads = 0; left = refl }
