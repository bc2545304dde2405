-- ===== src/Pubsub/Broadcaster/Removal.antt =====
-- Removing one receiver, and removing all.
use quicrtc.Prelude.{
  subst, ℕ, ◌≡◌, ◌≢◌, refl, sym, ◌∙◌, ◌⊎◌, inl, inr, List, true, false, ◌==◌, set, get_elem?, [],
  ◌∷◌, some, arith, All, All-get_elem?, Bool-cases,
}
use quicrtc.Pubsub.Receiver.{Receiver}
use quicrtc.Pubsub.Receiver.Laws.{IsValid, shut_receiver_lem}
use quicrtc.Pubsub.Broadcaster.{State, present, delete, shut_at, shut_all, unsubscribe, close}
use quicrtc.Pubsub.Broadcaster.Sound.{
  IsOpenAt, IsUnique, IsSound, Changed, set-Changed, IsOpenAt-others, absent, elsewhere, Untouched,
  Untouched-at, Untouched-cons,
}

pub delete-All {ℓ} : (P : ℕ → Type ℓ) (p : ℕ) (qs : List ℕ) → All P qs → All P (delete p qs)
unfolding delete
delete-All P p [] all = tt
delete-All P p (q ∷ qs) all = elim (Bool-cases (q == p)) [
  | inl e ↦ rw e (delete-All P p qs all.1)
  | inr e ↦ rw e (all.0, delete-All P p qs all.1)
]

delete-gone : (p : ℕ) (qs : List ℕ) → All (λ q. q ≢ p) (delete p qs)
unfolding delete
delete-gone p [] = tt
delete-gone p (q ∷ qs) = elim (Bool-cases (q == p)) [
  | inl e ↦ rw e (delete-gone p qs)
  | inr e ↦ rw e (λ same. absurd (ground arith), delete-gone p qs)
]

delete-IsUnique : (p : ℕ) (qs : List ℕ) → IsUnique qs → IsUnique (delete p qs)
unfolding delete
delete-IsUnique p [] u = tt
delete-IsUnique p (q ∷ qs) u = elim (Bool-cases (q == p)) [
  | inl e ↦ rw e (delete-IsUnique p qs u.1)
  | inr e ↦ rw e (delete-All (λ x. x ≢ q) p qs u.0, delete-IsUnique p qs u.1)
]

pub present-All {ℓ} : (P : ℕ → Type ℓ) (p : ℕ) (qs : List ℕ) → present p qs ≡ true → All P qs → P p
unfolding present
present-All P p [] h all = absurd (cc h)
present-All P p (q ∷ qs) h all = elim (Bool-cases (q == p)) [
  | inl e ↦ let same : q ≡ p = ground arith in subst P same all.0
  | inr e ↦ present-All P p qs (ground (arith, h, e)) all.1
]

-- The receiver at a pointer was closed, with its queue left to be read.
abbrev pub Shut : List Receiver → List Receiver → ℕ → Type 0
Shut heap heap' p =
    (r : Receiver) × (r' : Receiver) × (get_elem? heap p ≡ some r)
    × (get_elem? heap' p ≡ some r')
    × (r'.closed ≡ true)
    × (r'.ch.shut ≡ true)
    × (r'.ch.queue ≡ r.ch.queue)

shut_at-Changed :
    (p : ℕ) {heap : List Receiver}
    → All IsValid heap
    → IsOpenAt heap p
    → (r : Receiver) × (r' : Receiver) × (heap' : List Receiver) × (shut_at p heap ≡ some heap')
      × Changed p r r' heap heap'
      × Shut heap heap' p
unfolding shut_at
shut_at-Changed p {heap} all (r, e, o) =
    let (r', d, valid, closed, queue) = shut_receiver_lem (All-get_elem? IsValid heap p r all e) in
    let c : Changed p r r' heap (set heap p r') = set-Changed all e valid in
    (
      r,
      r',
      set heap p r',
      rw (e, d),
      c,
      (r, r', e, c.after, closed, sym valid.flagged ∙ closed, queue),
    )

pub record Unsubscribed (p : ℕ) (s s' : State) : Type 0 where
  pub sound : IsSound s'
  pub shut : Shut s.heap s'.heap p
  pub others : (q : ℕ) → (p ≡ q) ⊎ (get_elem? s'.heap q ≡ get_elem? s.heap q)
  pub removed : s'.bc.receivers ≡ delete p s.bc.receivers
  pub again : unsubscribe p s' ≡ some s'

-- Unsubscribe on a sound state never panics. A receiver that is not registered is left alone, with
-- everything else. A registered one is removed and its channel is closed, with what it buffers left
-- to be read; no other receiver changes, the state stays sound, and a second call changes nothing.
pub unsubscribe_lem :
    (p : ℕ) {s : State}
    → IsSound s
    → ((present p s.bc.receivers ≡ false) × (unsubscribe p s ≡ some s))
      ⊎ ((s' : State) × (present p s.bc.receivers ≡ true)
          × (unsubscribe p s ≡ some s')
          × Unsubscribed p s s')
unfolding unsubscribe
unsubscribe_lem p {s} v = elim (Bool-cases (present p s.bc.receivers)) [
  | inl there ↦
      let (r, r', heap', e, c, shut) =
        shut_at-Changed p v.receivers_valid
          (present-All (IsOpenAt s.heap) p s.bc.receivers there v.registered_open) in
      let left = delete p s.bc.receivers in
      inr (
        record { bc = record s.bc { receivers = left }; heap = heap' },
        there,
        rw (there, e),
        record {
          sound = record {
            receivers_valid = c.valid;
            registered_open =
                IsOpenAt-others left c (delete-gone p s.bc.receivers)
                  (delete-All (IsOpenAt s.heap) p s.bc.receivers v.registered_open);
            registered_once = delete-IsUnique p s.bc.receivers v.registered_once;
            room = v.room;
            ring = v.ring;
          };
          shut = shut;
          others = elsewhere p c.others;
          removed = refl;
          again = rw (absent p left (delete-gone p s.bc.receivers));
        },
      )
  | inr gone ↦ inl (gone, rw gone)
]

record ShutAll (ps : List ℕ) (heap heap' : List Receiver) : Type 0 where
  valid : All IsValid heap'
  shut : All (Shut heap heap') ps
  others : Untouched ps heap heap'

Shut-later :
    {p : ℕ} {r r' : Receiver} (heap heap' heap'' : List Receiver) (qs : List ℕ)
    → Changed p r r' heap heap'
    → All (λ q. q ≢ p) qs
    → All (Shut heap' heap'') qs
    → All (Shut heap heap'') qs
Shut-later heap heap' heap'' [] c d all = tt
Shut-later heap heap' heap'' (q ∷ qs) c d all =
    let (x, x', e, e', cl, sh, qu) = all.0 in
    (
      (x, x', sym (c.others q (λ h. d.0 (sym h))) ∙ e, e', cl, sh, qu),
      Shut-later heap heap' heap'' qs c d.1 all.1,
    )

shut_all-ShutAll :
    (ps : List ℕ) {heap : List Receiver}
    → All IsValid heap
    → All (IsOpenAt heap) ps
    → IsUnique ps
    → (heap' : List Receiver) × (shut_all ps heap ≡ some heap') × ShutAll ps heap heap'
unfolding shut_all
shut_all-ShutAll [] {heap} all opens u =
    (heap, refl, record { valid = all; shut = tt; others = record { at = λ q. inr refl } })
shut_all-ShutAll (p ∷ ps) {heap} all opens u =
    let (r, r', heap1, e1, c, (x, x', xe, xe', cl, sh, qu)) = shut_at-Changed p all opens.0 in
    let (heap2, e2, f) = shut_all-ShutAll ps c.valid (IsOpenAt-others ps c u.0 opens.1) u.1 in
    (
      heap2,
      rw (e1, e2),
      record {
        valid = f.valid;
        shut = (
          (x, x', xe, Untouched-at p ps f.others u.0 ∙ xe', cl, sh, qu),
          Shut-later heap heap1 heap2 ps c u.0 f.shut,
        );
        others = Untouched-cons ps c f.others;
      },
    )

-- Close on a sound state never panics. It closes the channel of every registered receiver, with
-- what each buffers left to be read, leaves no receiver registered, and changes no other receiver;
-- the state stays sound, and a second call changes nothing.
pub close_lem :
    {s : State}
    → IsSound s
    → (s' : State) × (close s ≡ some s')
      × IsSound s'
      × (s'.bc.receivers ≡ [])
      × All (Shut s.heap s'.heap) s.bc.receivers
      × Untouched s.bc.receivers s.heap s'.heap
      × (close s' ≡ some s')
unfolding close shut_all
close_lem {s} v =
    let (heap', e, f) =
      shut_all-ShutAll s.bc.receivers v.receivers_valid v.registered_open v.registered_once in
    (
      record { bc = record s.bc { receivers = [] }; heap = heap' },
      rw e,
      record {
        receivers_valid = f.valid;
        registered_open = tt;
        registered_once = tt;
        room = v.room;
        ring = v.ring;
      },
      refl,
      f.shut,
      f.others,
      refl,
    )
