-- ===== src/SessionStore.antt =====
-- The in-memory store of server/session_store.go. Strings are lists of bytes and times are numbers
-- of nanoseconds; the caller gives what time.Now returns. A receiver is a pointer, and a callback is
-- a label: `called` lists those that were called.
pub mod Expiry
pub mod Room
pub mod Evictions
pub mod Park
pub mod Keys
mod Tests
use quicrtc.Prelude.{
  Text, same_text, lookup, delete, insert, same_text_refl, same_text→eq, neq→same_text, LacksKey,
  IsMap, lookup-LacksKey, lookup-delete, lookup-delete_other, lookup-insert, lookup-insert_other,
  delete-LacksKey, delete-IsMap, insert-IsMap, length-insert_le, ℕ, zero, suc, ◌+◌, List, Bool,
  true, false, ◌&&◌, ◌==◌, ltb, leb, if◌then◌else◌, length, [], ◌∷◌, ◌++◌, Option, some, none, ℤ,
  pos, negsuc,
}

pub record PersistedSession : Type 0 where
  pub id : Text
  pub receivers : List (Text × ℕ)
  pub expires_at : ℕ
  pub on_evict : Option ℕ

pub record Store : Type 0 where
  pub by_id : List (Text × PersistedSession)
  pub resume_ttl : ℕ
  pub max_parked : ℤ
  pub called : List ℕ

abbrev pub default_resume_window : ℕ
default_resume_window = 60000000000

abbrev pub default_max_parked : ℕ
default_max_parked = 1024

-- A number above 0, or else a default.
abbrev pub or_default : ℤ → ℕ → ℕ
or_default (pos zero) d = d
or_default (pos (suc n)) d = suc n
or_default (negsuc n) d = d

-- NewMemorySessionStoreWithCap
unfoldable pub new_memory_session_store_with_cap : ℤ → ℤ → Store
new_memory_session_store_with_cap ttl max_parked = record {
  by_id = [];
  resume_ttl = or_default ttl default_resume_window;
  max_parked = pos (or_default max_parked default_max_parked);
  called = [];
}

-- NewMemorySessionStore
unfoldable pub new_memory_session_store : ℤ → Store
unfolding new_memory_session_store_with_cap
new_memory_session_store ttl = new_memory_session_store_with_cap ttl (pos default_max_parked)

-- scopedKey
unfoldable pub scoped_key : Text → Text → Text
scoped_key tenant session_id = tenant ++ 0 ∷ session_id

-- `if p.onEvict != nil { p.onEvict() }`
abbrev pub callbacks : PersistedSession → List ℕ
callbacks p = elim p.on_evict [ none ↦ [] | some f ↦ f ∷ [] ]

-- The loop of evictExpiredLocked: what it keeps, what it calls, and how many it evicts.
unfoldable pub evict_entries :
    ℕ → List (Text × PersistedSession) → List (Text × PersistedSession) × List ℕ × ℕ
evict_entries now [] = ([], [], 0)
evict_entries now ((k, p) ∷ by_id) =
    let (kept, called, n) = evict_entries now by_id in
    if ltb p.expires_at now
    then (kept, callbacks p ++ called, n + 1)
    else ((k, p) ∷ kept, called, n)

-- evictExpiredLocked, and EvictExpired
unfoldable pub evict_expired : ℕ → Store → Store × ℕ
unfolding evict_entries
evict_expired now s =
    let (kept, called, n) = evict_entries now s.by_id in
    (record s { by_id = kept; called = s.called ++ called }, n)

-- The search for the entry that expires first.
unfoldable pub soonest :
    Text × PersistedSession → List (Text × PersistedSession) → Text × PersistedSession
soonest oldest [] = oldest
soonest oldest (e ∷ es) = soonest (if ltb e.1.expires_at oldest.1.expires_at then e else oldest) es

-- A round of the loop in Park.
unfoldable pub evict_soonest : Store → Store
unfolding soonest delete
evict_soonest s = elim s.by_id [
  | [] ↦ s
  | e ∷ es ↦
      let oldest = soonest e es in
      record s { by_id = delete oldest.0 s.by_id; called = s.called ++ callbacks oldest.1 }
]

-- `s.maxParked > 0 && len(s.byID) >= s.maxParked`
unfoldable pub at_cap : Store → Bool
at_cap s = elim s.max_parked [ pos m ↦ ltb 0 m && leb m (length s.by_id) | negsuc m ↦ false ]

-- The loop in Park. Each round takes an entry, so as many rounds as entries are enough.
unfoldable pub make_room : ℕ → Store → Store
unfolding evict_soonest at_cap
make_room zero s = s
make_room (suc fuel) s = let rest = make_room fuel (evict_soonest s) in if at_cap s then rest else s

-- Park; `later` is what its second call of time.Now returns.
unfoldable pub park : ℕ → ℕ → Text → Text → List (Text × ℕ) → Option ℕ → Store → Store
unfolding evict_expired make_room insert scoped_key
park now later tenant session_id receivers on_evict s =
    let live = (evict_expired now s).0 in
    let room = make_room (length live.by_id) live in
    let parked : PersistedSession = record {
      id = session_id;
      receivers = receivers;
      expires_at = later + s.resume_ttl;
      on_evict = on_evict;
    } in
    record room { by_id = insert (scoped_key tenant session_id) parked room.by_id }

-- Resume
unfoldable pub resume : ℕ → Text → Text → Store → Store × Option (List (Text × ℕ))
unfolding evict_expired lookup delete scoped_key
resume now tenant session_id s =
    let live = (evict_expired now s).0 in
    let key = scoped_key tenant session_id in
    elim (lookup key live.by_id) [
      | none ↦ (live, none)
      | some p ↦ (record live { by_id = delete key live.by_id }, some p.receivers)
    ]
