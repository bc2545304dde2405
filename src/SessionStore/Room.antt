-- ===== src/SessionStore/Room.antt =====
-- The loop of Park (server/session_store.go) that makes room.
use quicrtc.Prelude.{
  Text, same_text, lookup, delete, same_text_refl, same_text→eq, LacksKey, IsMap, lookup-LacksKey,
  lookup-delete, lookup-delete_other, delete-IsMap, ℕ, zero, suc, ◌≡◌, ◌≢◌, refl, sym, ap, subst,
  ◌∙◌, ◌≤◌, ◌<◌, ◌⊎◌, inl, inr, List, Bool, true, false, ltb, if◌then◌else◌, length, [], ◌∷◌, ◌++◌,
  some, none, some-injective, arith, All, Bool-cases, List-cases, pos,
}
use quicrtc.SessionStore.{
  PersistedSession, Store, callbacks, soonest, evict_soonest, at_cap, make_room,
}

delete_le : (key : Text) (es : List (Text × PersistedSession)) → length (delete key es) ≤ length es
unfolding delete
delete_le key [] = omega arith
delete_le key ((k, p) ∷ es) = ground (arith, delete_le key es)

pub delete_lt :
    (key : Text) (p : PersistedSession) (es : List (Text × PersistedSession))
    → lookup key es ≡ some p
    → length (delete key es) < length es
unfolding delete lookup
delete_lt key p [] h = absurd (cc h)
delete_lt key p ((k, q) ∷ es) h = elim (Bool-cases (same_text k key)) [
  | inl e ↦ rw e (omega (arith, delete_le key es))
  | inr e ↦ rw e (omega (arith, delete_lt key p es (rw e at h)))
]

delete-All {ℓ} :
    (P : Text × PersistedSession → Type ℓ) (key : Text) (es : List (Text × PersistedSession))
    → All P es
    → All P (delete key es)
unfolding delete
delete-All P key [] all = tt
delete-All P key ((k, p) ∷ es) all = elim (Bool-cases (same_text k key)) [
  | inl e ↦ rw e (delete-All P key es all.1)
  | inr e ↦ rw e (all.0, delete-All P key es all.1)
]

-- A bound on the time of every entry is one on what is found.
lookup_bound :
    (t : ℕ) (key : Text) (p : PersistedSession) (es : List (Text × PersistedSession))
    → All (λ e. t ≤ e.1.expires_at) es
    → lookup key es ≡ some p
    → t ≤ p.expires_at
unfolding lookup
lookup_bound t key p [] all h = absurd (cc h)
lookup_bound t key p ((k, q) ∷ es) all h = elim (Bool-cases (same_text k key)) [
  | inl e ↦ let same = some-injective q p (rw e at h) in subst (λ x. t ≤ x.expires_at) same all.0
  | inr e ↦ lookup_bound t key p es all.1 (rw e at h)
]

soonest_first :
    (e : Text × PersistedSession) (es : List (Text × PersistedSession))
    → ((soonest e es).1.expires_at ≤ e.1.expires_at)
      × All (λ x. (soonest e es).1.expires_at ≤ x.1.expires_at) es
unfolding soonest
soonest_first e [] = (omega arith, tt)
soonest_first e (x ∷ es) =
    ground (arith, soonest_first (if ltb x.1.expires_at e.1.expires_at then x else e) es)

lookup-later :
    (x : Text × PersistedSession) (key : Text) (p : PersistedSession)
    (es : List (Text × PersistedSession))
    → LacksKey x.0 es
    → lookup key es ≡ some p
    → lookup key (x ∷ es) ≡ some p
unfolding lookup
lookup-later x key p es l h = elim (Bool-cases (same_text x.0 key)) [
  | inl e ↦
      let gone = lookup-LacksKey key es (subst (λ k. LacksKey k es) (same_text→eq x.0 key e) l) in
      absurd (cc (gone, h))
  | inr e ↦ rw e h
]

lookup-first :
    (x : Text × PersistedSession) (es : List (Text × PersistedSession))
    → lookup x.0 (x ∷ es) ≡ some x.1
unfolding lookup
lookup-first x es = rw (same_text_refl x.0)

found_step :
    (e x b r : Text × PersistedSession) (es : List (Text × PersistedSession))
    → (b ≡ e) ⊎ (b ≡ x)
    → LacksKey x.0 es
    → (r ≡ b) ⊎ (lookup r.0 es ≡ some r.1)
    → (r ≡ e) ⊎ (lookup r.0 (x ∷ es) ≡ some r.1)
found_step e x b r es c l (inr there) = inr (lookup-later x r.0 r.1 es l there)
found_step e x b r es (inl c) l (inl same) = inl (same ∙ c)
found_step e x b r es (inr c) l (inl same) =
    inr (subst (λ y. lookup y.0 (x ∷ es) ≡ some y.1) (sym (same ∙ c)) (lookup-first x es))

earlier :
    (e x : Text × PersistedSession) (b : Bool)
    → ((if b then x else e) ≡ e) ⊎ ((if b then x else e) ≡ x)
earlier e x true = inr refl
earlier e x false = inl refl

soonest_found :
    (e : Text × PersistedSession) (es : List (Text × PersistedSession))
    → IsMap es
    → (soonest e es ≡ e) ⊎ (lookup (soonest e es).0 es ≡ some (soonest e es).1)
unfolding soonest
soonest_found e [] m = inl refl
soonest_found e (x ∷ es) m =
    let sooner = ltb x.1.expires_at e.1.expires_at in
    found_step e x (if sooner then x else e) (soonest (if sooner then x else e) es) es
      (earlier e x sooner) m.0 (soonest_found (if sooner then x else e) es m.1)

-- The entry that a round evicts is in the map, and none expires before it.
pub record First (o : Text × PersistedSession) (es : List (Text × PersistedSession)) : Type 0 where
  pub found : lookup o.0 es ≡ some o.1
  pub first : All (λ x. o.1.expires_at ≤ x.1.expires_at) es

soonest-First :
    (e : Text × PersistedSession) (es : List (Text × PersistedSession))
    → IsMap (e ∷ es)
    → First (soonest e es) (e ∷ es)
soonest-First e es m = record {
  found = elim (soonest_found e es m.1) [
    | inl same ↦ subst (λ y. lookup y.0 (e ∷ es) ≡ some y.1) (sym same) (lookup-first e es)
    | inr there ↦ lookup-later e (soonest e es).0 (soonest e es).1 es m.0 there
  ];
  first = soonest_first e es;
}

-- What a round does to a map that is not empty.
pub record Round (s s' : Store) : Type 0 where
  pub oldest : Text × PersistedSession
  pub chosen : First oldest s.by_id
  pub left : s'.by_id ≡ delete oldest.0 s.by_id
  pub called : s'.called ≡ s.called ++ callbacks oldest.1
  pub same_cap : s'.max_parked ≡ s.max_parked
  pub same_ttl : s'.resume_ttl ≡ s.resume_ttl

pub evict_soonest-Round :
    {s : Store} → IsMap s.by_id → 0 < length s.by_id → Round s (evict_soonest s)
unfolding evict_soonest
evict_soonest-Round {s} m h = elim (List-cases s.by_id) [
  | inl e ↦ absurd (omega (arith, ap length e))
  | inr (x, xs, e) ↦ record {
    oldest = soonest x xs;
    chosen = subst (First (soonest x xs)) (sym e) (soonest-First x xs (subst IsMap e m));
    left = rw (evict_soonest, e) (ap (delete (soonest x xs).0) e);
    called = rw (evict_soonest, e);
    same_cap = rw (evict_soonest, e);
    same_ttl = rw (evict_soonest, e);
  }
]

pub differs : (xs ys : Text) → same_text xs ys ≡ false → xs ≢ ys
differs xs ys e same = absurd (cc (e, ap (same_text xs) same, same_text_refl xs))

-- What the loop leaves: a part of the map; and whatever is gone from it expires no later than
-- anything that is left.
pub record Made (s s' : Store) : Type 0 where
  pub is_map : IsMap s'.by_id
  pub kept :
      (key : Text) → (lookup key s'.by_id ≡ none) ⊎ (lookup key s'.by_id ≡ lookup key s.by_id)
  pub oldest_first :
      (a b : Text) (p q : PersistedSession)
      → lookup a s.by_id ≡ some p
      → lookup a s'.by_id ≡ none
      → lookup b s'.by_id ≡ some q
      → p.expires_at ≤ q.expires_at
  pub same_cap : s'.max_parked ≡ s.max_parked
  pub same_ttl : s'.resume_ttl ≡ s.resume_ttl

same-Made : {s : Store} → IsMap s.by_id → Made s s
same-Made {s} m = record {
  is_map = m;
  kept = λ key. inr refl;
  oldest_first = λ a b p q h g k. absurd (cc (h, g));
  same_cap = refl;
  same_ttl = refl;
}

Round-Made : {s s1 s2 : Store} → IsMap s.by_id → Round s s1 → Made s1 s2 → Made s s2
Round-Made {s} {s1} {s2} m r d =
    let o = r.oldest in
    let lookup1 : (key : Text) → lookup key s1.by_id ≡ lookup key (delete o.0 s.by_id) =
      λ key. ap (lookup key) r.left in
    record {
      is_map = d.is_map;
      kept = λ key. elim (d.kept key) [
        | inl gone ↦ inl gone
        | inr same ↦ elim (Bool-cases (same_text o.0 key)) [
          | inl e ↦ inl (
              same
              ∙ lookup1 key
              ∙ subst (λ k. lookup k (delete o.0 s.by_id) ≡ none) (same_text→eq o.0 key e)
                  (lookup-delete o.0 s.by_id))
          | inr e ↦
              inr (same ∙ lookup1 key ∙ lookup-delete_other o.0 key s.by_id (differs o.0 key e))
        ]
      ];
      oldest_first = λ a b p q h g k. elim (Bool-cases (same_text o.0 a)) [
        | inl e ↦
            let same =
              some-injective o.1 p
                (sym r.chosen.found ∙ ap (λ x. lookup x s.by_id) (same_text→eq o.0 a e) ∙ h) in
            let later : lookup b (delete o.0 s.by_id) ≡ some q = elim (d.kept b) [
              | inl gone ↦ absurd (cc (gone, k))
              | inr still ↦ sym (lookup1 b) ∙ sym still ∙ k
            ] in
            subst (λ x. x.expires_at ≤ q.expires_at) same
              (lookup_bound o.1.expires_at b q (delete o.0 s.by_id)
                (delete-All (λ x. o.1.expires_at ≤ x.1.expires_at) o.0 s.by_id r.chosen.first)
                later)
        | inr e ↦
            d.oldest_first a b p q
              (lookup1 a ∙ lookup-delete_other o.0 a s.by_id (differs o.0 a e) ∙ h) g k
      ];
      same_cap = d.same_cap ∙ r.same_cap;
      same_ttl = d.same_ttl ∙ r.same_ttl;
    }

pub at_cap-nonempty : (s : Store) → at_cap s ≡ true → 0 < length s.by_id
unfolding at_cap
at_cap-nonempty s h = ground arith

pub make_room-Made : (fuel : ℕ) {s : Store} → IsMap s.by_id → Made s (make_room fuel s)
unfolding make_room
make_room-Made zero m = same-Made m
make_room-Made (suc fuel) {s} m = elim (Bool-cases (at_cap s)) [
  | inl full ↦
      let r = evict_soonest-Round m (at_cap-nonempty s full) in
      let m1 = subst IsMap (sym r.left) (delete-IsMap r.oldest.0 s.by_id m) in
      rw full (Round-Made m r (make_room-Made fuel m1))
  | inr free ↦ rw free (same-Made m)
]

-- Enough rounds end with room.
pub at_cap-make_room :
    (fuel : ℕ) (s : Store)
    → IsMap s.by_id
    → length s.by_id ≤ fuel
    → at_cap (make_room fuel s) ≡ false
unfolding make_room
at_cap-make_room zero s m h = elim (Bool-cases (at_cap s)) [
  | inl full ↦ absurd (omega (arith, at_cap-nonempty s full))
  | inr free ↦ free
]
at_cap-make_room (suc fuel) s m h = elim (Bool-cases (at_cap s)) [
  | inl full ↦
      let r = evict_soonest-Round m (at_cap-nonempty s full) in
      let m1 = subst IsMap (sym r.left) (delete-IsMap r.oldest.0 s.by_id m) in
      let lt = delete_lt r.oldest.0 r.oldest.1 s.by_id r.chosen.found in
      rw full (at_cap-make_room fuel (evict_soonest s) m1 (omega (arith, lt, ap length r.left)))
  | inr free ↦ rw free free
]

pub room_left :
    (m : ℕ) (s : Store) → s.max_parked ≡ pos m → 0 < m → at_cap s ≡ false → length s.by_id < m
unfolding at_cap
room_left m s e pos_m h = ground arith
