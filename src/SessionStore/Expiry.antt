-- ===== src/SessionStore/Expiry.antt =====
-- evictExpiredLocked of server/session_store.go.
use native.Mathlib.Decide.{dec_le, dec_lt}
use mathlib.Core.List.{filter}
use quicrtc.Prelude.{
  Text, same_text, lookup, same_text→eq, LacksKey, IsMap, lookup-LacksKey, ℕ, ◌≡◌, refl, ap, subst,
  ◌∙◌, ◌+◌, inl, inr, List, ltb, if◌then◌else◌, length, [], ◌∷◌, ◌++◌, Option, some, none, arith,
  Bool-cases,
}
use quicrtc.SessionStore.{PersistedSession, Store, evict_entries, evict_expired, callbacks}

-- What is found of a session that may have expired.
abbrev pub unexpired : ℕ → Option PersistedSession → Option PersistedSession
unexpired now none = none
unexpired now (some p) = if ltb p.expires_at now then none else some p

-- The callbacks of some entries.
abbrev pub all_callbacks : List (Text × PersistedSession) → List ℕ
all_callbacks [] = []
all_callbacks (e ∷ es) = callbacks e.1 ++ all_callbacks es

abbrev pub expired_entries : ℕ → List (Text × PersistedSession) → List (Text × PersistedSession)
expired_entries now = filter (λ e. dec_lt e.1.expires_at now)

abbrev pub live_entries : ℕ → List (Text × PersistedSession) → List (Text × PersistedSession)
live_entries now = filter (λ e. dec_le now e.1.expires_at)

evict_entries-kept :
    (now : ℕ) (es : List (Text × PersistedSession)) → (evict_entries now es).0 ≡ live_entries now es
unfolding evict_entries
evict_entries-kept now [] = refl
evict_entries-kept now ((k, p) ∷ es) = ground (arith, evict_entries-kept now es)

evict_entries-lookup :
    (now : ℕ) (key : Text) (es : List (Text × PersistedSession))
    → IsMap es
    → lookup key (evict_entries now es).0 ≡ unexpired now (lookup key es)
unfolding lookup evict_entries
evict_entries-lookup now key [] m = refl
evict_entries-lookup now key ((k, p) ∷ es) m = elim (Bool-cases (ltb p.expires_at now)) [
  | inl old ↦ elim (Bool-cases (same_text k key)) [
    | inl e ↦
        let none_left : lookup key es ≡ none =
          lookup-LacksKey key es (subst (λ x. LacksKey x es) (same_text→eq k key e) m.0) in
        rw (old, e, old) (evict_entries-lookup now key es m.1 ∙ ap (unexpired now) none_left)
    | inr e ↦ rw (old, e) (evict_entries-lookup now key es m.1)
  ]
  | inr young ↦ elim (Bool-cases (same_text k key)) [
    | inl e ↦ rw (young, e, young)
    | inr e ↦ rw (young, e) (evict_entries-lookup now key es m.1)
  ]
]

evict_entries-LacksKey :
    (now : ℕ) (key : Text) (es : List (Text × PersistedSession))
    → LacksKey key es
    → LacksKey key (evict_entries now es).0
unfolding evict_entries
evict_entries-LacksKey now key [] l = tt
evict_entries-LacksKey now key ((k, p) ∷ es) l = elim (Bool-cases (ltb p.expires_at now)) [
  | inl old ↦ rw old (evict_entries-LacksKey now key es l.1)
  | inr young ↦ rw young (l.0, evict_entries-LacksKey now key es l.1)
]

evict_entries-IsMap :
    (now : ℕ) (es : List (Text × PersistedSession)) → IsMap es → IsMap (evict_entries now es).0
unfolding evict_entries
evict_entries-IsMap now [] m = tt
evict_entries-IsMap now ((k, p) ∷ es) m = elim (Bool-cases (ltb p.expires_at now)) [
  | inl old ↦ rw old (evict_entries-IsMap now es m.1)
  | inr young ↦ rw young (evict_entries-LacksKey now k es m.0, evict_entries-IsMap now es m.1)
]

evict_entries-length :
    (now : ℕ) (es : List (Text × PersistedSession))
    → length (evict_entries now es).0 + (evict_entries now es).2 ≡ length es
unfolding evict_entries
evict_entries-length now [] = refl
evict_entries-length now ((k, p) ∷ es) = elim (Bool-cases (ltb p.expires_at now)) [
  | inl old ↦ rw old (omega (arith, evict_entries-length now es))
  | inr young ↦ rw young (omega (arith, evict_entries-length now es))
]

evict_entries-called :
    (now : ℕ) (es : List (Text × PersistedSession))
    → (evict_entries now es).1 ≡ all_callbacks (expired_entries now es)
unfolding evict_entries
evict_entries-called now [] = refl
evict_entries-called now ((k, p) ∷ es) = ground (arith, evict_entries-called now es)

-- What an eviction at a time does to a store.
pub record Swept (now : ℕ) (s s' : Store) (n : ℕ) : Type 0 where
  pub is_map : IsMap s'.by_id
  pub kept : s'.by_id ≡ live_entries now s.by_id
  pub found : (key : Text) → lookup key s'.by_id ≡ unexpired now (lookup key s.by_id)
  pub counted : length s'.by_id + n ≡ length s.by_id
  pub called : s'.called ≡ s.called ++ all_callbacks (expired_entries now s.by_id)
  pub same_ttl : s'.resume_ttl ≡ s.resume_ttl
  pub same_cap : s'.max_parked ≡ s.max_parked

-- EvictExpired removes exactly the sessions whose time is past, counts them, and calls the callback
-- of each of them once and no other; every other session is found as before.
pub evict_expired-Swept :
    (now : ℕ) {s : Store}
    → IsMap s.by_id
    → Swept now s (evict_expired now s).0 (evict_expired now s).1
unfolding evict_expired
evict_expired-Swept now {s} m = record {
  is_map = evict_entries-IsMap now s.by_id m;
  kept = evict_entries-kept now s.by_id;
  found = λ key. evict_entries-lookup now key s.by_id m;
  counted = evict_entries-length now s.by_id;
  called = ap (λ t. s.called ++ t) (evict_entries-called now s.by_id);
  same_ttl = refl;
  same_cap = refl;
}
