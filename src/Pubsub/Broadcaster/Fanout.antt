-- ===== src/Pubsub/Broadcaster/Fanout.antt =====
-- What Publish does to the broadcaster and to every receiver.
use quicrtc.Prelude.{
  ℕ, ◌≡◌, ◌≢◌, refl, sym, ◌∙◌, ◌⊎◌, inl, inr, List, Bool, if◌then◌else◌, set, get_elem?, [], ◌∷◌,
  some, none, All, All-get_elem?,
}
use quicrtc.Pubsub.{AccessUnit}
use quicrtc.Pubsub.Replay.{snapshot}
use quicrtc.Pubsub.Replay.Spec.{append}
use quicrtc.Pubsub.Replay.Refine.{replay_append-Holds}
use quicrtc.Pubsub.Receiver.{Receiver}
use quicrtc.Pubsub.Receiver.Laws.{IsValid, Outcome, deliver-Outcome}
use quicrtc.Pubsub.Broadcaster.{
  State, admit, record_au, deliver_at, fanout, publish, publish_admitted,
}
use quicrtc.Pubsub.Broadcaster.Chain.{IsDropped, IsAdmitted, admit-cases}
use quicrtc.Pubsub.Broadcaster.Sound.{
  IsOpenAt, IsUnique, IsSound, Changed, set-Changed, IsOpenAt-others, Untouched, Untouched-at,
  Untouched-cons,
}

-- The receiver at a pointer before and after a delivery.
abbrev pub Received : Bool → AccessUnit → List Receiver → List Receiver → ℕ → Type 0
Received self_contained au heap heap' p =
    (r : Receiver) × (r' : Receiver) × (get_elem? heap p ≡ some r)
    × (get_elem? heap' p ≡ some r')
    × Outcome self_contained au r r'

-- A delivery to each of some open receivers.
pub record FannedOut (self_contained : Bool) (au : AccessUnit) (ps : List ℕ)
    (heap heap' : List Receiver) : Type 0 where
  pub valid : All IsValid heap'
  pub still_open : All (IsOpenAt heap') ps
  pub received : All (Received self_contained au heap heap') ps
  pub others : Untouched ps heap heap'

deliver_at-Changed :
    (self_contained : Bool) (au : AccessUnit) {p : ℕ} {heap : List Receiver}
    → All IsValid heap
    → IsOpenAt heap p
    → (r : Receiver) × (r' : Receiver) × (heap' : List Receiver) × (deliver_at self_contained au p
          heap
        ≡ some heap')
      × Changed p r r' heap heap'
      × Outcome self_contained au r r'
unfolding deliver_at
deliver_at-Changed self_contained au {p} {heap} all (r, e, o) =
    let (r', d, out) = deliver-Outcome self_contained au (All-get_elem? IsValid heap p r all e) o in
    (r, r', set heap p r', rw (e, d), set-Changed all e out.valid, out)

-- A pointer that is not among those delivered to.
Received-later :
    (self_contained : Bool) (au : AccessUnit) {p : ℕ} {r r' : Receiver}
    (heap heap' heap'' : List Receiver) (qs : List ℕ)
    → Changed p r r' heap heap'
    → All (λ q. q ≢ p) qs
    → All (Received self_contained au heap' heap'') qs
    → All (Received self_contained au heap heap'') qs
Received-later self_contained au heap heap' heap'' [] c d all = tt
Received-later self_contained au heap heap' heap'' (q ∷ qs) c d all =
    let (x, x', e, e', out) = all.0 in
    (
      (x, x', sym (c.others q (λ h. d.0 (sym h))) ∙ e, e', out),
      Received-later self_contained au heap heap' heap'' qs c d.1 all.1,
    )

pub fanout-FannedOut :
    (self_contained : Bool) (au : AccessUnit) (ps : List ℕ) {heap : List Receiver}
    → All IsValid heap
    → All (IsOpenAt heap) ps
    → IsUnique ps
    → (heap' : List Receiver) × (fanout self_contained au ps heap ≡ some heap')
      × FannedOut self_contained au ps heap heap'
unfolding fanout
fanout-FannedOut self_contained au [] {heap} all opens u = (
  heap,
  refl,
  record { valid = all; still_open = tt; received = tt; others = record { at = λ q. inr refl } },
)
fanout-FannedOut self_contained au (p ∷ ps) {heap} all opens u =
    let (r, r', heap1, e1, c, out) = deliver_at-Changed self_contained au all opens.0 in
    let (heap2, e2, f) =
      fanout-FannedOut self_contained au ps c.valid (IsOpenAt-others ps c u.0 opens.1) u.1 in
    let kept = Untouched-at p ps f.others u.0 ∙ c.after in
    (
      heap2,
      rw (e1, e2),
      record {
        valid = f.valid;
        still_open = ((r', kept, out.still_open), f.still_open);
        received = (
          (r, r', c.before, kept, out),
          Received-later self_contained au heap heap1 heap2 ps c u.0 f.received,
        );
        others = Untouched-cons ps c f.others;
      },
    )

-- What Publish does with a unit that passes the interceptors and the size cap.
pub record Published (au : AccessUnit) (s s' : State) : Type 0 where
  pub sound : IsSound s'
  pub fanned_out : FannedOut s.bc.self_contained au s.bc.receivers s.heap s'.heap
  pub recorded :
      snapshot s'.bc.replay ≡ append s.bc.replay.cap s.bc.replay.max_bytes au (snapshot s.bc.replay)
  pub cached : s'.bc.latest_keyframe ≡ (if au.keyframe then some au else s.bc.latest_keyframe)
  pub registered : s'.bc.receivers ≡ s.bc.receivers

-- Publish on a sound state never panics. A unit that an interceptor drops, or that is over the
-- size cap after the interceptors, if the cap is above 0, changes nothing. What the interceptors make
-- of any other is cached if it is a keyframe, appended to the replay ring, and delivered once to
-- every registered receiver; no other receiver changes, no registration does, and the state stays
-- sound.
pub publish_lem :
    (au : AccessUnit) {s : State}
    → IsSound s
    → ((admit s.bc au ≡ none) × IsDropped au s.bc × (publish au s ≡ some s))
      ⊎ ((au' : AccessUnit) × (s' : State) × (admit s.bc au ≡ some au')
          × IsAdmitted au au' s.bc
          × (publish au s ≡ some s')
          × Published au' s s')
unfolding publish publish_admitted record_au
publish_lem au {s} v = elim (admit-cases au s.bc) [
  | inl (dropped, why) ↦ inl (dropped, why, rw (publish, dropped))
  | inr (au', passed, admitted) ↦
      let h = replay_append-Holds au' v.ring in
      let (heap', e, f) =
        fanout-FannedOut s.bc.self_contained au' s.bc.receivers v.receivers_valid v.registered_open
          v.registered_once in
      inr (
        au',
        record { bc = record_au au' s.bc; heap = heap' },
        passed,
        admitted,
        rw (publish, passed, e),
        record {
          sound = record {
            receivers_valid = f.valid;
            registered_open = f.still_open;
            registered_once = v.registered_once;
            room = v.room;
            ring = h.ring;
          };
          fanned_out = f;
          recorded = h.holds;
          cached = refl;
          registered = refl;
        },
      )
]
