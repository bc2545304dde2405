-- ===== src/Pubsub/Broadcaster/Sound.antt =====
-- What holds of a broadcaster and its receivers between two operations.
use quicrtc.Prelude.{
  ◌==◌, Bool-cases, ℕ, ◌≡◌, ◌≢◌, refl, sym, ◌∙◌, ◌<◌, ◌⊎◌, inl, inr, List, true, false, set,
  get_elem?, [], ◌∷◌, some, arith, All, All-set, get_elem?-set, get_elem?-set_other, get_elem?-lt,
}
use quicrtc.Pubsub.Replay.Refine.{IsRing}
use quicrtc.Pubsub.Receiver.{Receiver}
use quicrtc.Pubsub.Receiver.Laws.{IsValid}
use quicrtc.Pubsub.Broadcaster.{State, present}

-- A pointer to an open receiver.
abbrev pub IsOpenAt : List Receiver → ℕ → Type 0
IsOpenAt heap p = (r : Receiver) × (get_elem? heap p ≡ some r) × (r.closed ≡ false)

-- No pointer twice.
abbrev pub IsUnique : List ℕ → Type 0
IsUnique [] = Unit {0}
IsUnique (p ∷ ps) = All (λ q. q ≢ p) ps × IsUnique ps

-- Every receiver is valid, the registered ones are open and registered once, and the replay ring
-- is in order.
pub record IsSound (s : State) : Type 0 where
  pub receivers_valid : All IsValid s.heap
  pub registered_open : All (IsOpenAt s.heap) s.bc.receivers
  pub registered_once : IsUnique s.bc.receivers
  pub room : 0 < s.bc.chan_size
  pub ring : IsRing s.bc.replay

-- What one operation on the receiver at `p` does to the heap.
pub record Changed (p : ℕ) (r r' : Receiver) (heap heap' : List Receiver) : Type 0 where
  pub before : get_elem? heap p ≡ some r
  pub after : get_elem? heap' p ≡ some r'
  pub others : (q : ℕ) → p ≢ q → get_elem? heap' q ≡ get_elem? heap q
  pub valid : All IsValid heap'

pub set-Changed :
    {p : ℕ} {r r' : Receiver} {heap : List Receiver}
    → All IsValid heap
    → get_elem? heap p ≡ some r
    → IsValid r'
    → Changed p r r' heap (set heap p r')
set-Changed {p} {r} {r'} {heap} all e v = record {
  before = e;
  after = get_elem?-set heap p r' (get_elem?-lt heap p r e);
  others = λ q h. get_elem?-set_other heap p q r' h;
  valid = All-set IsValid heap p r' all v;
}

-- A pointer other than the changed one is as open as before.
pub IsOpenAt-others :
    {p : ℕ} {r r' : Receiver} {heap heap' : List Receiver} (qs : List ℕ)
    → Changed p r r' heap heap'
    → All (λ q. q ≢ p) qs
    → All (IsOpenAt heap) qs
    → All (IsOpenAt heap') qs
IsOpenAt-others [] c d all = tt
IsOpenAt-others (q ∷ qs) c d all =
    let (r, e, o) = all.0 in
    ((r, c.others q (λ h. d.0 (sym h)) ∙ e, o), IsOpenAt-others qs c d.1 all.1)

pub absent : (p : ℕ) (qs : List ℕ) → All (λ q. q ≢ p) qs → present p qs ≡ false
unfolding present
absent p [] all = refl
absent p (q ∷ qs) all = ground (arith, all.0, absent p qs all.1)

-- Whether `q` was meant, or else what holds of it.
pub elsewhere {ℓ} : {X : ℕ → Type ℓ} (p : ℕ) → ((q : ℕ) → p ≢ q → X q) → (q : ℕ) → (p ≡ q) ⊎ X q
elsewhere p h q = elim (Bool-cases (p == q)) [
  | inl e ↦ inl (ground arith)
  | inr e ↦ inr (h q (λ same. absurd (ground arith)))
]

-- Receivers other than those at `ps` are left alone.
pub record Untouched (ps : List ℕ) (heap heap' : List Receiver) : Type 0 where
  pub at : (q : ℕ) → (present q ps ≡ true) ⊎ (get_elem? heap' q ≡ get_elem? heap q)

pub Untouched-at :
    (q : ℕ) (ps : List ℕ) {heap heap' : List Receiver}
    → Untouched ps heap heap'
    → All (λ p. p ≢ q) ps
    → get_elem? heap' q ≡ get_elem? heap q
Untouched-at q ps u h = elim (u.at q) [ inl e ↦ absurd (ground (arith, absent q ps h)) | inr e ↦ e ]

pub Untouched-cons :
    {p : ℕ} {r r' : Receiver} (ps : List ℕ) {heap heap' heap'' : List Receiver}
    → Changed p r r' heap heap'
    → Untouched ps heap' heap''
    → Untouched (p ∷ ps) heap heap''
unfolding present
Untouched-cons {p} ps {heap} {heap'} {heap''} c u = record {
  at = λ q. elim (Bool-cases (p == q)) [
    | inl e ↦ inl (rw e)
    | inr e ↦ elim (u.at q) [
      | inl there ↦ inl (ground arith)
      | inr same ↦ inr (same ∙ c.others q (λ h. absurd (ground arith)))
    ]
  ];
}
