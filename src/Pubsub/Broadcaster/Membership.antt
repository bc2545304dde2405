-- ===== src/Pubsub/Broadcaster/Membership.antt =====
-- Registering a receiver.
use quicrtc.Prelude.{
  ℕ, zero, suc, ◌≡◌, ◌≢◌, refl, ap, ◌∙◌, ◌<◌, ◌⊎◌, inl, inr, List, Bool, false, not, ◌==◌, ◌&&◌,
  ltb, if◌then◌else◌, length, get_elem?, [], ◌∷◌, ◌++◌, some, none, arith, All, All-append,
  get_elem?-append_left, get_elem?-append_last, get_elem?-lt, ℤ, at_least_zero, Option-cases, max,
}
use quicrtc.Pubsub.{AccessUnit}
use quicrtc.Pubsub.Receiver.{Receiver, try_send}
use quicrtc.Pubsub.Receiver.Laws.{IsValid}
use quicrtc.Pubsub.Broadcaster.{
  Broadcaster, State, send_blocking, first_receiver, subscribe_with_cap, subscribe_with_capacity,
}
use quicrtc.Pubsub.Broadcaster.Sound.{IsOpenAt, IsSound, elsewhere}

-- The cached keyframe as a queue.
abbrev pub cached_queue : Broadcaster → List AccessUnit
cached_queue b = elim b.latest_keyframe [ none ↦ [] | some k ↦ k ∷ [] ]

abbrev new_receiver : ℕ → List AccessUnit → Bool → Receiver
new_receiver c queue need = record {
  ch = record { queue = queue; cap = c; shut = false };
  closed = false;
  need_keyframe = need;
}

-- A receiver that starts with the cached keyframe, or awaits one.
pub record Fresh (b : Broadcaster) (chan_size : ℕ) (r : Receiver) : Type 0 where
  pub valid : IsValid r
  pub is_open : r.closed ≡ false
  pub sized : r.ch.cap ≡ chan_size
  pub seeded : r.ch.queue ≡ cached_queue b
  pub awaits : r.need_keyframe ≡ (length (cached_queue b) == 0 && not b.self_contained)

pub record Subscribed (s : State) (chan_size : ℕ) (s' : State) (p : ℕ) : Type 0 where
  pub sound : IsSound s'
  pub r : Receiver
  pub new : get_elem? s'.heap p ≡ some r
  pub fresh : Fresh s.bc chan_size r
  pub unused : get_elem? s.heap p ≡ none
  pub others : (q : ℕ) → (p ≡ q) ⊎ (get_elem? s'.heap q ≡ get_elem? s.heap q)
  pub registered : s'.bc.receivers ≡ p ∷ s.bc.receivers

pub first_receiver-Fresh :
    (chan_size : ℕ) (b : Broadcaster)
    → 0 < chan_size
    → (r : Receiver) × (first_receiver b chan_size ≡ some r) × Fresh b chan_size r
unfolding first_receiver send_blocking try_send
first_receiver-Fresh c b h = elim (Option-cases b.latest_keyframe) [
  | inl e ↦ (
    new_receiver c [] (not b.self_contained),
    rw (first_receiver, e),
    record {
      valid = record { flagged = refl; room = h; bounded = omega arith };
      is_open = refl;
      sized = refl;
      seeded = rw e;
      awaits = ground (arith, e);
    },
  )
  | inr (k, e) ↦ (
    new_receiver c (k ∷ []) false,
    ground (arith, e, first_receiver),
    record {
      valid = record { flagged = refl; room = h; bounded = omega arith };
      is_open = refl;
      sized = refl;
      seeded = rw e;
      awaits = rw e;
    },
  )
]

IsOpenAt-append :
    (heap : List Receiver) (r : Receiver) (ps : List ℕ)
    → All (IsOpenAt heap) ps
    → All (IsOpenAt (heap ++ r ∷ [])) ps
IsOpenAt-append heap r [] all = tt
IsOpenAt-append heap r (p ∷ ps) all =
    let (x, e, o) = all.0 in
    (
      (x, get_elem?-append_left heap (r ∷ []) p (get_elem?-lt heap p x e) ∙ e, o),
      IsOpenAt-append heap r ps all.1,
    )

IsOpenAt-unused :
    (heap : List Receiver) (ps : List ℕ) → All (IsOpenAt heap) ps → All (λ q. q ≢ length heap) ps
IsOpenAt-unused heap [] all = tt
IsOpenAt-unused heap (p ∷ ps) all =
    let (x, e, o) = all.0 in
    (λ same. absurd (omega (arith, same, get_elem?-lt heap p x e)), IsOpenAt-unused heap ps all.1)

get_elem?-append_other :
    (heap : List Receiver) (r : Receiver) (q : ℕ)
    → length heap ≢ q
    → get_elem? (heap ++ r ∷ []) q ≡ get_elem? heap q
get_elem?-append_other [] r zero h = absurd (h refl)
get_elem?-append_other [] r (suc q) h = refl
get_elem?-append_other (x ∷ heap) r zero h = refl
get_elem?-append_other (x ∷ heap) r (suc q) h = get_elem?-append_other heap r q (λ e. h (ap suc e))

get_elem?-length : (heap : List Receiver) → get_elem? heap (length heap) ≡ none
get_elem?-length [] = refl
get_elem?-length (x ∷ heap) = get_elem?-length heap

subscribe_with_cap_lem :
    (chan_size : ℕ) {s : State}
    → IsSound s
    → 0 < chan_size
    → (s' : State) × (subscribe_with_cap chan_size s ≡ some (s', length s.heap))
      × Subscribed s chan_size s' (length s.heap)
unfolding subscribe_with_cap
subscribe_with_cap_lem c {s} v h =
    let (r, e, f) = first_receiver-Fresh c s.bc h in
    (
      record {
        bc = record s.bc { receivers = length s.heap ∷ s.bc.receivers };
        heap = s.heap ++ r ∷ [];
      },
      rw e,
      record {
        sound = record {
          receivers_valid = All-append IsValid s.heap (r ∷ []) v.receivers_valid (f.valid, tt);
          registered_open = (
            (r, get_elem?-append_last s.heap r, f.is_open),
            IsOpenAt-append s.heap r s.bc.receivers v.registered_open,
          );
          registered_once =
              (IsOpenAt-unused s.heap s.bc.receivers v.registered_open, v.registered_once);
          room = v.room;
          ring = v.ring;
        };
        r = r;
        new = get_elem?-append_last s.heap r;
        fresh = f;
        unused = get_elem?-length s.heap;
        others = elsewhere (length s.heap) (λ q d. get_elem?-append_other s.heap r q d);
        registered = refl;
      },
    )

-- SubscribeWithCapacity on a sound state never panics and never blocks. It registers a receiver
-- that was not there before, open, with a channel of the asked-for size or of the broadcaster's if
-- that is larger. The queue is the cached keyframe, if there is one; if there is none, a track
-- that is not self-contained awaits a keyframe. No other receiver changes, and the state stays
-- sound.
pub subscribe_with_capacity_lem :
    (chan_size : ℤ) {s : State}
    → IsSound s
    → (s' : State) × (p : ℕ) × (subscribe_with_capacity chan_size s ≡ some (s', p))
      × Subscribed s (max (at_least_zero chan_size) s.bc.chan_size) s' p
unfolding subscribe_with_capacity
subscribe_with_capacity_lem chan_size {s} v =
    let n = at_least_zero chan_size in
    let asked : (if ltb n s.bc.chan_size then s.bc.chan_size else n) ≡ max n s.bc.chan_size =
      ground arith in
    let (s', e, sub) = subscribe_with_cap_lem (max n s.bc.chan_size) v (omega (arith, v.room)) in
    (s', length s.heap, ap (λ c. subscribe_with_cap c s) asked ∙ e, sub)
