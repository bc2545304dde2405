-- ===== src/SessionStore/Evictions.antt =====
-- What the loop of Park (server/session_store.go) evicts.
use mathlib.Core.List.{Memᴰ}
use quicrtc.Prelude.{
  Text, true, same_text, lookup, delete, same_text→eq, IsMap, lookup-delete, lookup-delete_other,
  delete-IsMap, append_assoc, append-nil, ℕ, zero, suc, ◌≡◌, refl, sym, ap, subst, ◌∙◌, ◌≤◌, ◌<◌,
  ◌⊎◌, inl, inr, List, length, [], ◌∷◌, ◌++◌, some, none, arith, Bool-cases, pos,
}
use quicrtc.SessionStore.{PersistedSession, Store, callbacks, evict_soonest, at_cap, make_room}
use quicrtc.SessionStore.Expiry.{all_callbacks}
use quicrtc.SessionStore.Room.{
  First, evict_soonest-Round, at_cap-nonempty, room_left, delete_lt, differs,
}

-- Entries are taken from a map one by one, each when the map holds the cap or more and none of its
-- entries expires before this one, until there is room for one more.
abbrev pub Evictions :
    ℕ
    → List (Text × PersistedSession)
    → List (Text × PersistedSession)
    → List (Text × PersistedSession)
    → Type 0
Evictions m [] es left = (left ≡ es) × (length es < m)
Evictions m (o ∷ os) es left = (m ≤ length es) × First o es × Evictions m os (delete o.0 es) left

full_le : (m : ℕ) (s : Store) → s.max_parked ≡ pos m → at_cap s ≡ true → m ≤ length s.by_id
unfolding at_cap
full_le m s e h = ground arith

-- What make_room evicts, in order.
pub record Freed (m : ℕ) (s s' : Store) : Type 0 where
  pub evicted : List (Text × PersistedSession)
  pub evictions : Evictions m evicted s.by_id s'.by_id
  pub called : s'.called ≡ s.called ++ all_callbacks evicted

none-Freed : (m : ℕ) (s : Store) → length s.by_id < m → Freed m s s
none-Freed m s small = record {
  evicted = [];
  evictions = (refl, small);
  called = sym (append-nil s.called);
}

pub make_room-Freed :
    (m fuel : ℕ) {s : Store}
    → IsMap s.by_id
    → length s.by_id ≤ fuel
    → s.max_parked ≡ pos m
    → 0 < m
    → Freed m s (make_room fuel s)
unfolding make_room
make_room-Freed m zero {s} is_map h e pos_m = none-Freed m s (omega arith)
make_room-Freed m (suc fuel) {s} is_map h e pos_m = elim (Bool-cases (at_cap s)) [
  | inr free ↦ rw free (none-Freed m s (room_left m s e pos_m free))
  | inl full ↦
      let s₁ = evict_soonest s in
      let r = evict_soonest-Round is_map (at_cap-nonempty s full) in
      let o = r.oldest in
      let is_map₁ = subst IsMap (sym r.left) (delete-IsMap o.0 s.by_id is_map) in
      let fewer = delete_lt o.0 o.1 s.by_id r.chosen.found in
      let f =
        make_room-Freed m fuel is_map₁ (omega (arith, fewer, ap length r.left)) (r.same_cap ∙ e)
          pos_m in
      rw full record {
        evicted = o ∷ f.evicted;
        evictions = (
          full_le m s e full,
          r.chosen,
          subst (λ es. Evictions m f.evicted es (make_room fuel s₁).by_id) r.left f.evictions,
        );
        called =
            f.called
            ∙ ap (λ cs. cs ++ all_callbacks f.evicted) r.called
            ∙ append_assoc s.called (callbacks o.1) (all_callbacks f.evicted);
      }
]

-- An entry is left, or it is one of those that were evicted.
pub Evictions-lookup :
    (m : ℕ) (os es left : List (Text × PersistedSession)) (key : Text)
    → Evictions m os es left
    → (lookup key left ≡ lookup key es)
      ⊎ ((p : PersistedSession) × Memᴰ (key, p) os
          × (lookup key es ≡ some p)
          × (lookup key left ≡ none))
Evictions-lookup m [] es left key v = inl (ap (lookup key) v.0)
Evictions-lookup m (o ∷ os) es left key v =
    let later = Evictions-lookup m os (delete o.0 es) left key v.2 in
    elim (Bool-cases (same_text o.0 key)) [
      | inl e ↦
          let same = same_text→eq o.0 key e in
          let gone : lookup key (delete o.0 es) ≡ none =
            subst (λ k. lookup k (delete o.0 es) ≡ none) same (lookup-delete o.0 es) in
          elim later [
            | inl kept ↦
                let was = subst (λ k. lookup k es ≡ some o.1) same v.1.found in
                let first : Memᴰ (key, o.1) (o ∷ os) =
                  subst (λ k. Memᴰ (k, o.1) (o ∷ os)) same (Memᴰ.head refl) in
                inr (o.1, first, was, kept ∙ gone)
            | inr (p, mem, was, out) ↦ absurd (cc (was, gone))
          ]
      | inr e ↦
          let other = lookup-delete_other o.0 key es (differs o.0 key e) in
          elim later [
            | inl kept ↦ inl (kept ∙ other)
            | inr (p, mem, was, out) ↦ inr (p, Memᴰ.tail mem, sym other ∙ was, out)
          ]
    ]
