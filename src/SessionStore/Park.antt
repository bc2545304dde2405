-- ===== src/SessionStore/Park.antt =====
-- Park and Resume of server/session_store.go.
use mathlib.Core.List.{Memᴰ}
use quicrtc.Prelude.{
  Text, same_text, lookup, insert, same_text_refl, same_text→eq, IsMap, lookup-delete,
  lookup-delete_other, lookup-insert, lookup-insert_other, delete-IsMap, insert-IsMap,
  length-insert_le, ℕ, ◌≡◌, ◌≢◌, refl, sym, ap, subst, ◌∙◌, ◌≤◌, ◌<◌, ◌+◌, ◌⊎◌, inl, inr, List,
  length, ◌++◌, append_assoc, Option, some, none, some-injective, arith, Bool-cases, Option-cases,
  pos,
}
use quicrtc.SessionStore.{
  PersistedSession, Store, scoped_key, evict_expired, make_room, park, resume,
}
use quicrtc.SessionStore.Expiry.{
  unexpired, all_callbacks, expired_entries, live_entries, Swept, evict_expired-Swept,
}
use quicrtc.SessionStore.Evictions.{Evictions, make_room-Freed, Evictions-lookup}
use quicrtc.SessionStore.Room.{Made, make_room-Made, at_cap-make_room, room_left}

abbrev pub parked_session : ℕ → Text → List (Text × ℕ) → Option ℕ → Store → PersistedSession
parked_session later session_id receivers on_evict s = record {
  id = session_id;
  receivers = receivers;
  expires_at = later + s.resume_ttl;
  on_evict = on_evict;
}

-- What Park does to a store. `room` holds the sessions that are parked when the new one is stored.
pub record Parked (now : ℕ) (m : ℕ) (key : Text) (p : PersistedSession) (s s' : Store)
    : Type 0 where
  pub is_map : IsMap s'.by_id
  pub bounded : length s'.by_id ≤ m
  pub found : lookup key s'.by_id ≡ some p
  pub evicted : List (Text × PersistedSession)
  pub room : List (Text × PersistedSession)
  pub evictions : Evictions m evicted (live_entries now s.by_id) room
  pub stored : s'.by_id ≡ insert key p room
  pub called :
      s'.called ≡ s.called ++ (all_callbacks (expired_entries now s.by_id) ++ all_callbacks evicted)
  pub others :
      (other : Text)
      → (other ≡ key)
        ⊎ (lookup other s'.by_id ≡ unexpired now (lookup other s.by_id))
        ⊎ ((q : PersistedSession) × Memᴰ (other, q) evicted
            × (unexpired now (lookup other s.by_id) ≡ some q)
            × (lookup other s'.by_id ≡ none))

-- Park evicts exactly the sessions that have expired, and then, one by one and only while as many
-- sessions as the cap allows are left, one that expires first of those. It calls the callback of
-- each evicted session once, first those of the expired ones, and no other callback. The new session
-- is then found under its key, no more sessions are parked than the cap allows, and every other one
-- that had not expired is found as before, or is one of those that were evicted and is not found.
pub park-Parked :
    (now later : ℕ) (tenant session_id : Text) (receivers : List (Text × ℕ)) (on_evict : Option ℕ)
    (m : ℕ) {s : Store}
    → IsMap s.by_id
    → s.max_parked ≡ pos m
    → 0 < m
    → Parked now m
        (scoped_key tenant session_id)
        (parked_session later session_id receivers on_evict s)
        s
        (park now later tenant session_id receivers on_evict s)
unfolding park
park-Parked now later tenant session_id receivers on_evict m {s} is_map e pos_m =
    let l = (evict_expired now s).0 in
    let rm = make_room (length l.by_id) l in
    let sw : Swept now s l (evict_expired now s).1 = evict_expired-Swept now is_map in
    let md : Made l rm = make_room-Made (length l.by_id) sw.is_map in
    let key = scoped_key tenant session_id in
    let p = parked_session later session_id receivers on_evict s in
    let fits : length rm.by_id < m =
      room_left m rm (md.same_cap ∙ sw.same_cap ∙ e) pos_m
        (at_cap-make_room (length l.by_id) l sw.is_map (omega arith)) in
    let enough : length l.by_id ≤ length l.by_id = omega arith in
    let f = make_room-Freed m (length l.by_id) sw.is_map enough (sw.same_cap ∙ e) pos_m in
    record {
      is_map = insert-IsMap key p rm.by_id md.is_map;
      bounded = omega (arith, fits, length-insert_le key p rm.by_id);
      found = lookup-insert key p rm.by_id;
      evicted = f.evicted;
      room = rm.by_id;
      evictions = subst (λ es. Evictions m f.evicted es rm.by_id) sw.kept f.evictions;
      stored = refl;
      called =
          f.called
          ∙ ap (λ cs. cs ++ all_callbacks f.evicted) sw.called
          ∙ append_assoc s.called (all_callbacks (expired_entries now s.by_id))
              (all_callbacks f.evicted);
      others = λ other. elim (Bool-cases (same_text other key)) [
        | inl same ↦ inl (same_text→eq other key same)
        | inr differs ↦
            let d : key ≢ other =
              λ h. absurd (cc (differs, ap (λ k. same_text k key) h, same_text_refl key)) in
            let now_found = lookup-insert_other key other p rm.by_id d in
            elim (Evictions-lookup m f.evicted l.by_id rm.by_id other f.evictions) [
              | inl kept ↦ inr (inl (now_found ∙ kept ∙ sw.found other))
              | inr (q, mem, was, gone) ↦
                  inr (inr (q, mem, sym (sw.found other) ∙ was, now_found ∙ gone))
            ]
      ];
    }

-- What Resume does to a store.
pub record Resumed (now : ℕ) (key : Text) (s s' : Store) (r : Option (List (Text × ℕ)))
    : Type 0 where
  pub is_map : IsMap s'.by_id
  pub gone : lookup key s'.by_id ≡ none
  pub given :
      ((unexpired now (lookup key s.by_id) ≡ none) × (r ≡ none))
      ⊎ ((p : PersistedSession) × (unexpired now (lookup key s.by_id) ≡ some p)
          × (r ≡ some p.receivers))
  pub others :
      (other : Text)
      → (other ≡ key) ⊎ (lookup other s'.by_id ≡ unexpired now (lookup other s.by_id))

-- Resume gives out the receivers of the session that is parked under the key, if it has not
-- expired, and removes it, so that no second call finds it; if there is none, it gives out nothing.
-- Every other session that has not expired is found as before.
pub resume-Resumed :
    (now : ℕ) (tenant session_id : Text) {s : Store}
    → IsMap s.by_id
    → Resumed now
        (scoped_key tenant session_id)
        s
        (resume now tenant session_id s).0
        (resume now tenant session_id s).1
unfolding resume
resume-Resumed now tenant session_id {s} m =
    let l = (evict_expired now s).0 in
    let sw : Swept now s l (evict_expired now s).1 = evict_expired-Swept now m in
    let key = scoped_key tenant session_id in
    elim (Option-cases (lookup key l.by_id)) [
      | inl absent ↦
          rw (resume, absent)
            record {
              is_map = sw.is_map;
              gone = absent;
              given = inl (sym (sw.found key) ∙ absent, refl);
              others = λ other. inr (sw.found other);
            }
      | inr (p, there) ↦
          rw (resume, there)
            record {
              is_map = delete-IsMap key l.by_id sw.is_map;
              gone = lookup-delete key l.by_id;
              given = inr (p, sym (sw.found key) ∙ there, refl);
              others = λ other. elim (Bool-cases (same_text other key)) [
                | inl same ↦ inl (same_text→eq other key same)
                | inr differs ↦
                    let d : key ≢ other =
                      λ h. absurd (cc (differs, ap (λ k. same_text k key) h, same_text_refl key)) in
                    inr (lookup-delete_other key other l.by_id d ∙ sw.found other)
              ];
            }
    ]

-- What Park evicts for want of room expires no later than any other session that it leaves.
pub park-oldest_first :
    (now later : ℕ) (tenant session_id : Text) (receivers : List (Text × ℕ)) (on_evict : Option ℕ)
    (a b : Text) (p q : PersistedSession) (s : Store)
    → IsMap s.by_id
    → unexpired now (lookup a s.by_id) ≡ some p
    → lookup a (park now later tenant session_id receivers on_evict s).by_id ≡ none
    → b ≢ scoped_key tenant session_id
    → lookup b (park now later tenant session_id receivers on_evict s).by_id ≡ some q
    → p.expires_at ≤ q.expires_at
unfolding park
park-oldest_first now later tenant session_id receivers on_evict a b p q s m h g d k =
    let l = (evict_expired now s).0 in
    let rm = make_room (length l.by_id) l in
    let sw : Swept now s l (evict_expired now s).1 = evict_expired-Swept now m in
    let md : Made l rm = make_room-Made (length l.by_id) sw.is_map in
    let key = scoped_key tenant session_id in
    let new = parked_session later session_id receivers on_evict s in
    let a_differs : key ≢ a = λ e.
      absurd
        (cc (lookup-insert key new rm.by_id, ap (λ x. lookup x (insert key new rm.by_id)) e, g)) in
    md.oldest_first a b p q (sw.found a ∙ h)
      (sym (lookup-insert_other key a new rm.by_id a_differs) ∙ g)
      (sym (lookup-insert_other key b new rm.by_id (λ e. d (sym e))) ∙ k)

-- A parked session is resumed with its own receivers at any time up to its expiry, if nothing was
-- parked or resumed in between.
pub resume-park :
    (now later t : ℕ) (tenant session_id : Text) (receivers : List (Text × ℕ)) (on_evict : Option ℕ)
    (m : ℕ) (s : Store)
    → IsMap s.by_id
    → s.max_parked ≡ pos m
    → 0 < m
    → t ≤ later + s.resume_ttl
    → (resume t tenant session_id (park now later tenant session_id receivers on_evict s)).1
      ≡ some receivers
resume-park now later t tenant session_id receivers on_evict m s is_map e pos_m h =
    let s' = park now later tenant session_id receivers on_evict s in
    let p = parked_session later session_id receivers on_evict s in
    let done = park-Parked now later tenant session_id receivers on_evict m is_map e pos_m in
    let r = resume-Resumed t tenant session_id {s = s'} done.is_map in
    let young : unexpired t (some p) ≡ some p = ground arith in
    let there = ap (unexpired t) done.found ∙ young in
    elim r.given [
      | inl (gone, _) ↦ absurd (cc (gone, there))
      | inr (q, found, given) ↦
          given ∙ ap (λ x. some x.receivers) (some-injective q p (sym found ∙ there))
    ]
