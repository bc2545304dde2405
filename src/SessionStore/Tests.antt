-- ===== src/SessionStore/Tests.antt =====
-- A concrete store for the theorems on it.
use quicrtc.Prelude.{
  Text, lookup, delete, insert, IsMap, ℕ, ◌≡◌, ◌≢◌, refl, ◌≤◌, [], ◌∷◌, some, none, arith, get_or,
  ap, pos,
}
use quicrtc.SessionStore.{
  PersistedSession, Store, scoped_key, evict_entries, evict_expired, evict_soonest, soonest,
  make_room, at_cap, park, resume,
}
use quicrtc.SessionStore.Expiry.{unexpired}
use quicrtc.SessionStore.Park.{
  Parked, Resumed, parked_session, park-Parked, resume-Resumed, park-oldest_first, resume-park,
}

abbrev session : ℕ → ℕ → PersistedSession
session id expires_at = record {
  id = id ∷ [];
  receivers = (9 ∷ [], id) ∷ [];
  expires_at = expires_at;
  on_evict = some id;
}

abbrev key : ℕ → Text
key id = 65 ∷ 0 ∷ id ∷ []

abbrev store : Store
store = record {
  by_id = (key 1, session 1 50) ∷ (key 2, session 2 30) ∷ (key 3, session 3 5) ∷ [];
  resume_ttl = 60;
  max_parked = pos 2;
  called = [];
}

key_differs : (i j : ℕ) → i ≢ j → key i ≢ key j
key_differs i j d e = d (ap (λ k. get_or k 2 0) e)

store-IsMap : IsMap store.by_id
store-IsMap = (
  (key_differs 2 1 (λ h. absurd (omega arith)), (key_differs 3 1 (λ h. absurd (omega arith)), tt)),
  ((key_differs 3 2 (λ h. absurd (omega arith)), tt), (tt, tt)),
)

abbrev parked : Store
parked = park 10 11 (65 ∷ []) (4 ∷ []) [] none store

park-Parked_example :
    Parked 10 2
      (scoped_key (65 ∷ []) (4 ∷ []))
      (parked_session 11 (4 ∷ []) [] none store)
      store
      parked
park-Parked_example = park-Parked 10 11 (65 ∷ []) (4 ∷ []) [] none 2 store-IsMap refl (omega arith)

resume-Resumed_example :
    Resumed 10
      (scoped_key (65 ∷ []) (1 ∷ []))
      store
      (resume 10 (65 ∷ []) (1 ∷ []) store).0
      (resume 10 (65 ∷ []) (1 ∷ []) store).1
resume-Resumed_example = resume-Resumed 10 (65 ∷ []) (1 ∷ []) store-IsMap

gone : lookup (key 2) parked.by_id ≡ none
unfolding park evict_expired evict_entries make_room evict_soonest soonest delete insert at_cap
    lookup scoped_key
gone = refl

left : lookup (key 1) parked.by_id ≡ some (session 1 50)
unfolding park evict_expired evict_entries make_room evict_soonest soonest delete insert at_cap
    lookup scoped_key
left = refl

live : unexpired 10 (lookup (key 2) store.by_id) ≡ some (session 2 30)
unfolding lookup
live = refl

other : key 1 ≢ scoped_key (65 ∷ []) (4 ∷ [])
unfolding scoped_key
other = key_differs 1 4 (λ h. absurd (omega arith))

park-oldest_first_example : 30 ≤ 50
park-oldest_first_example =
    park-oldest_first 10 11 (65 ∷ []) (4 ∷ []) [] none (key 2) (key 1) (session 2 30) (session 1 50)
      store store-IsMap live gone other left

resume-park_example : (resume 71 (65 ∷ []) (4 ∷ []) parked).1 ≡ some []
resume-park_example =
    resume-park 10 11 71 (65 ∷ []) (4 ∷ []) [] none 2 store store-IsMap refl (omega arith)
      (omega arith)

abbrev tenant : Text
tenant = 0 ∷ 65 ∷ []

abbrev session_id : Text
session_id = 4 ∷ []
