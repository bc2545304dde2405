-- ===== src/Pubsub/Broadcaster/Interleaving/Safe.antt =====
-- The invariant of the interleavings, for the calls of pubsub/broadcaster.go one by one.
use quicrtc.Prelude.{
  ℕ, ◌≡◌, sym, ap, ◌∙◌, ◌≤◌, ◌<◌, ◌+◌, inl, inr, List, Bool, ltb, if◌then◌else◌, length, set, [],
  ◌∷◌, ◌++◌, some, some-injective, map, arith, ℤ, at_least_zero, All, All-get_elem?, All-set,
  All-append, get_elem?-some, length-set, length-append, Bool-cases, Option-cases,
}
use quicrtc.Pubsub.{AccessUnit}
use quicrtc.Pubsub.Receiver.{Receiver, deliver}
use quicrtc.Pubsub.Receiver.Laws.{IsValid, deliver-Outcome, deliver-closed, shut_receiver_lem}
use quicrtc.Pubsub.Broadcaster.{
  State, subscribe_with_cap, subscribe_with_capacity, present, shut_at, admit, record_au,
  deliver_at,
}
use quicrtc.Pubsub.Broadcaster.Membership.{first_receiver-Fresh}
use quicrtc.Pubsub.Broadcaster.Removal.{delete-All, present-All}
use quicrtc.Pubsub.Broadcaster.Interleaving.{
  Pending, send, shut, System, publish_locked, unsubscribe_locked, close_locked, run, with_heap,
}

abbrev pub target : Pending → ℕ
target (send self_contained au p) = p
target (shut p) = p

-- Every receiver is valid, and every pointer is to one.
pub record IsSafe (y : System) : Type 0 where
  pub receivers_valid : All IsValid y.state.heap
  pub registered : All (λ p. p < length y.state.heap) y.state.bc.receivers
  pub targets : All (λ t. target t < length y.state.heap) y.todo
  pub room : 0 < y.state.bc.chan_size

deliver-IsValid :
    (self_contained : Bool) (au : AccessUnit) {r : Receiver}
    → IsValid r
    → (r' : Receiver) × (deliver self_contained au r ≡ some r') × IsValid r'
deliver-IsValid self_contained au {r} v = elim (Bool-cases r.closed) [
  | inl c ↦ (r, deliver-closed self_contained au c, v)
  | inr o ↦ let (r', e, out) = deliver-Outcome self_contained au v o in (r', e, out.valid)
]

-- What is left to be done never panics on valid receivers.
pub run-IsValid :
    (t : Pending) (heap : List Receiver)
    → All IsValid heap
    → target t < length heap
    → (heap' : List Receiver) × (run t heap ≡ some heap')
      × All IsValid heap'
      × (length heap' ≡ length heap)
unfolding run deliver_at shut_at
run-IsValid (send self_contained au p) heap all h =
    let (r, e) = get_elem?-some heap p h in
    let (r', d, v) = deliver-IsValid self_contained au (All-get_elem? IsValid heap p r all e) in
    (set heap p r', rw (e, d), All-set IsValid heap p r' all v, length-set heap p r')
run-IsValid (shut p) heap all h =
    let (r, e) = get_elem?-some heap p h in
    let (r', d, v, c, q) = shut_receiver_lem (All-get_elem? IsValid heap p r all e) in
    (set heap p r', rw (e, d), All-set IsValid heap p r' all v, length-set heap p r')

-- A bound on pointers, moved to a heap of at least the same length.
All-lt :
    {A : Type 0} (f : A → ℕ) (m n : ℕ) (xs : List A)
    → m ≤ n
    → All (λ x. f x < m) xs
    → All (λ x. f x < n) xs
All-lt f m n [] h all = tt
All-lt f m n (x ∷ xs) h all = (omega arith, All-lt f m n xs h all.1)

sends_lt :
    (self_contained : Bool) (au : AccessUnit) (n : ℕ) (ps : List ℕ)
    → All (λ p. p < n) ps
    → All (λ t. target t < n) (map (λ p. send self_contained au p) ps)
sends_lt self_contained au n [] all = tt
sends_lt self_contained au n (p ∷ ps) all = (all.0, sends_lt self_contained au n ps all.1)

shuts_lt :
    (n : ℕ) (ps : List ℕ) → All (λ p. p < n) ps → All (λ t. target t < n) (map (λ p. shut p) ps)
shuts_lt n [] all = tt
shuts_lt n (p ∷ ps) all = (all.0, shuts_lt n ps all.1)

pub publish_locked-IsSafe : (au : AccessUnit) {y : System} → IsSafe y → IsSafe (publish_locked au y)
unfolding publish_locked record_au
publish_locked-IsSafe au {y} v = elim (Option-cases (admit y.state.bc au)) [
  | inl dropped ↦ rw (publish_locked, dropped) v
  | inr (au', passed) ↦
      rw (publish_locked, passed)
        record {
          receivers_valid = v.receivers_valid;
          registered = v.registered;
          targets =
              All-append (λ t. target t < length y.state.heap) y.todo
                (map (λ p. send y.state.bc.self_contained au' p) y.state.bc.receivers) v.targets
                (sends_lt y.state.bc.self_contained au' (length y.state.heap) y.state.bc.receivers
                  v.registered);
          room = v.room;
        }
]

pub unsubscribe_locked-IsSafe : (p : ℕ) {y : System} → IsSafe y → IsSafe (unsubscribe_locked p y)
unfolding unsubscribe_locked
unsubscribe_locked-IsSafe p {y} v = elim (Bool-cases (present p y.state.bc.receivers)) [
  | inl there ↦
      rw (unsubscribe_locked, there)
        record {
          receivers_valid = v.receivers_valid;
          registered =
              delete-All (λ q. q < length y.state.heap) p y.state.bc.receivers v.registered;
          targets =
              All-append (λ t. target t < length y.state.heap) y.todo (shut p ∷ []) v.targets
                (
                  present-All (λ q. q < length y.state.heap) p y.state.bc.receivers there
                      v.registered,
                  tt,
                );
          room = v.room;
        }
  | inr gone ↦ rw (unsubscribe_locked, gone) v
]

pub close_locked-IsSafe : {y : System} → IsSafe y → IsSafe (close_locked y)
unfolding close_locked
close_locked-IsSafe {y} v = record {
  receivers_valid = v.receivers_valid;
  registered = tt;
  targets =
      All-append (λ t. target t < length y.state.heap) y.todo
        (map (λ p. shut p) y.state.bc.receivers) v.targets
        (shuts_lt (length y.state.heap) y.state.bc.receivers v.registered);
  room = v.room;
}

pub with_heap-IsSafe :
    (heap : List Receiver) (todo : List Pending) {y : System}
    → IsSafe y
    → All IsValid heap
    → length heap ≡ length y.state.heap
    → All (λ t. target t < length y.state.heap) todo
    → IsSafe (record (with_heap heap y) { todo = todo })
with_heap-IsSafe heap todo {y} v all e h = record {
  receivers_valid = all;
  registered = rw e v.registered;
  targets = rw e h;
  room = v.room;
}

abbrev pub subscribed : State → Receiver → State
subscribed s r = record {
  bc = record s.bc { receivers = length s.heap ∷ s.bc.receivers };
  heap = s.heap ++ r ∷ [];
}

-- What a call of SubscribeWithCapacity that returns has done.
subscribed_with_cap :
    (c : ℕ) (s s' : State) (p : ℕ)
    → 0 < c
    → subscribe_with_cap c s ≡ some (s', p)
    → (r : Receiver) × IsValid r × (subscribed s r ≡ s')
unfolding subscribe_with_cap
subscribed_with_cap c s s' p pos h =
    let (r, e, f) = first_receiver-Fresh c s.bc pos in
    let did : subscribe_with_cap c s ≡ some (subscribed s r, length s.heap) = rw e in
    (
      r,
      f.valid,
      ap (λ x. x.0) (some-injective (subscribed s r, length s.heap) (s', p) (sym did ∙ h)),
    )

pub subscribed_state :
    (chan_size : ℤ) (s s' : State) (p : ℕ)
    → 0 < s.bc.chan_size
    → subscribe_with_capacity chan_size s ≡ some (s', p)
    → (r : Receiver) × IsValid r × (subscribed s r ≡ s')
unfolding subscribe_with_capacity
subscribed_state chan_size s s' p pos h =
    let n = at_least_zero chan_size in
    subscribed_with_cap (if ltb n s.bc.chan_size then s.bc.chan_size else n) s s' p (ground arith) h

pub subscribed-IsSafe :
    (r : Receiver) {y : System}
    → IsSafe y
    → IsValid r
    → IsSafe (record y { state = subscribed y.state r })
subscribed-IsSafe r {y} v h =
    let m = length y.state.heap in
    let grown : length (y.state.heap ++ r ∷ []) ≡ m + 1 = length-append y.state.heap (r ∷ []) in
    record {
      receivers_valid = All-append IsValid y.state.heap (r ∷ []) v.receivers_valid (h, tt);
      registered = (
        omega (arith, grown),
        All-lt (λ p. p) m (length (y.state.heap ++ r ∷ [])) y.state.bc.receivers
            (omega (arith, grown)) v.registered,
      );
      targets =
          All-lt target m (length (y.state.heap ++ r ∷ [])) y.todo (omega (arith, grown)) v.targets;
      room = v.room;
    }
