-- ===== src/Pubsub/Broadcaster/Chain.antt =====
-- The interceptor chain, and the size cap that is tested after it.
use quicrtc.Prelude.{
  ℕ, ◌≡◌, refl, sym, ap, subst, ◌∙◌, ◌≤◌, ◌<◌, ◌+◌, ◌%◌, ◌^◌, inl, inr, List, length, zero, suc,
  negsuc, ℤ, ◌⊎◌, none, true, false, ltb, Bool-cases, [], ◌∷◌, ◌++◌, some, arith, All, pos,
  append_assoc, append-nil, Option-cases, length-append, All-map, All-append,
}
use quicrtc.Pubsub.{AccessUnit, size}
use quicrtc.Pubsub.Receiver.{◌>>=◌}
use quicrtc.Pubsub.Broadcaster.{
  Interceptor, Broadcaster, add_interceptor, index_of, without, remove_interceptor, run_chain,
  over_cap, admit,
}

-- Every number is less than those after it.
abbrev pub IsAscending : List ℕ → Type 0
IsAscending [] = Unit
IsAscending (id ∷ ids) = All (λ later. id < later) ids × IsAscending ids

-- Each registered interceptor has an id, which is at most the last one given out, and the ids
-- ascend.
pub record HasIds (b : Broadcaster) : Type 0 where
  pub same_length : length b.interceptors ≡ length b.interceptor_ids
  pub given_out : All (λ id. id ≤ b.next_interceptor_id) b.interceptor_ids
  pub ascending : IsAscending b.interceptor_ids

-- `full` has an interceptor between those of `b` and the later ones, and its id between theirs; in
-- `left` both are gone, and all else is as it was.
pub record TakenOut (id : ℕ) (later : List Interceptor) (b full left : Broadcaster) : Type 0 where
  pub later_ids : List ℕ
  pub one_each : length later_ids ≡ length later
  pub ids : full.interceptor_ids ≡ b.interceptor_ids ++ id ∷ later_ids
  pub taken_out : left ≡ record full {
    interceptors = b.interceptors ++ later;
    interceptor_ids = b.interceptor_ids ++ later_ids;
  }

unfoldable pub add_interceptors : List Interceptor → Broadcaster → Broadcaster
unfolding add_interceptor
add_interceptors [] b = b
add_interceptors (fn ∷ fns) b = add_interceptors fns (add_interceptor (some fn) b).0

-- What a list of additions appends, to the chain and to the ids alike.
record Added (fns : List Interceptor) (b b' : Broadcaster) : Type 0 where
  new_ids : List ℕ
  one_each : length new_ids ≡ length fns
  chain : b'.interceptors ≡ b.interceptors ++ fns
  ids : b'.interceptor_ids ≡ b.interceptor_ids ++ new_ids

add_interceptors-Added :
    (fns : List Interceptor) (b : Broadcaster) → Added fns b (add_interceptors fns b)
unfolding add_interceptors add_interceptor
add_interceptors-Added [] b = record {
  new_ids = [];
  one_each = refl;
  chain = sym (append-nil b.interceptors);
  ids = sym (append-nil b.interceptor_ids);
}
add_interceptors-Added (fn ∷ fns) b =
    let b1 = (add_interceptor (some fn) b).0 in
    let id = (b.next_interceptor_id + 1) % 2 ^ 64 in
    let a = add_interceptors-Added fns b1 in
    record {
      new_ids = id ∷ a.new_ids;
      one_each = ap suc a.one_each;
      chain = a.chain ∙ append_assoc b.interceptors (fn ∷ []) fns;
      ids = a.ids ∙ append_assoc b.interceptor_ids (id ∷ []) a.new_ids;
    }

index_of-new :
    (id i : ℕ) (ids later : List ℕ)
    → All (λ old. old < id) ids
    → index_of id i (ids ++ id ∷ later) ≡ some (i + length ids)
unfolding index_of
index_of-new id i [] later all = ground arith
index_of-new id i (old ∷ ids) later all = ground (arith, index_of-new id (i + 1) ids later all.1)

lt_of_le : (n : ℕ) (ids : List ℕ) → All (λ id. id ≤ n) ids → All (λ id. id < n + 1) ids
lt_of_le n [] all = tt
lt_of_le n (id ∷ ids) all = (omega arith, lt_of_le n ids all.1)

without-append {ℓ} :
    {A : Type ℓ} (xs : List A) (x : A) (ys : List A) → without (length xs) (xs ++ x ∷ ys) ≡ xs ++ ys
without-append [] x ys = refl
without-append (y ∷ xs) x ys = ap (λ t. y ∷ t) (without-append xs x ys)

run_chain-append :
    (fns : List Interceptor) (fn : Interceptor) (au : AccessUnit)
    → run_chain (fns ++ fn ∷ []) au ≡ (run_chain fns au >>= fn)
unfolding run_chain
run_chain-append [] fn au = elim (Option-cases (fn au)) [ inl e ↦ rw e | inr (au', e) ↦ rw e ]
run_chain-append (f ∷ fns) fn au = elim (Option-cases (f au)) [
  | inl e ↦ rw e
  | inr (au', e) ↦ rw e (run_chain-append fns fn au')
]

remove_interceptor-new :
    (id : ℕ) (ids later_ids : List ℕ) (xs later : List Interceptor) (fn : Interceptor)
    (c : Broadcaster)
    → c.interceptor_ids ≡ ids ++ id ∷ later_ids
    → c.interceptors ≡ xs ++ fn ∷ later
    → length xs ≡ length ids
    → All (λ old. old < id) ids
    → remove_interceptor (some id) c
      ≡ record c { interceptors = xs ++ later; interceptor_ids = ids ++ later_ids }
unfolding remove_interceptor
remove_interceptor-new id ids later_ids xs later fn c e f l all =
    let at : index_of id 0 c.interceptor_ids ≡ some (length xs) =
      ap (index_of id 0) e ∙ index_of-new id 0 ids later_ids all ∙ ap some (omega arith) in
    let chain = ap (without (length xs)) f ∙ without-append xs fn later in
    let left =
      ap (λ n. without n c.interceptor_ids) l
      ∙ ap (without (length ids)) e
      ∙ without-append ids id later_ids in
    rw (remove_interceptor, at, chain, left)

IsAscending-append :
    (id : ℕ) (ids : List ℕ)
    → IsAscending ids
    → All (λ old. old < id) ids
    → IsAscending (ids ++ id ∷ [])
IsAscending-append id [] up all = (tt, tt)
IsAscending-append id (i ∷ ids) up all = (
  All-append (λ later. i < later) ids (id ∷ []) up.0 (all.0, tt),
  IsAscending-append id ids up.1 all.1,
)

add_interceptor-HasIds :
    (fn : Interceptor) {b : Broadcaster}
    → HasIds b
    → b.next_interceptor_id + 1 < 2 ^ 64
    → HasIds (add_interceptor (some fn) b).0
unfolding add_interceptor
add_interceptor-HasIds fn {b} v small =
    let id : (b.next_interceptor_id + 1) % 2 ^ 64 ≡ b.next_interceptor_id + 1 = omega arith in
    record {
      same_length = omega (
        arith,
        v.same_length,
        length-append b.interceptors (fn ∷ []),
        length-append b.interceptor_ids ((b.next_interceptor_id + 1) % 2 ^ 64 ∷ []),
      );
      given_out =
          All-append (λ i. i ≤ (b.next_interceptor_id + 1) % 2 ^ 64) b.interceptor_ids
            ((b.next_interceptor_id + 1) % 2 ^ 64 ∷ [])
            (All-map (λ i h. omega arith) b.interceptor_ids v.given_out) (omega arith, tt);
      ascending =
          IsAscending-append ((b.next_interceptor_id + 1) % 2 ^ 64) b.interceptor_ids v.ascending
            (All-map (λ i h. omega arith) b.interceptor_ids v.given_out);
    }

-- An interceptor is added at the end of the chain, so it sees what the others made of a unit, and
-- the ids still ascend. Whatever is added after it, its handle takes that interceptor and its id out
-- again, leaves the others and their ids in order, and changes nothing else of the broadcaster. This
-- holds as long as fewer than 2^64 - 1 were added before.
pub remove-add_interceptor :
    (fn : Interceptor) (later : List Interceptor) (au : AccessUnit) {b : Broadcaster}
    → HasIds b
    → b.next_interceptor_id + 1 < 2 ^ 64
    → HasIds (add_interceptor (some fn) b).0
      × (run_chain (add_interceptor (some fn) b).0.interceptors au
          ≡ (run_chain b.interceptors au >>= fn))
      × TakenOut
          (b.next_interceptor_id + 1)
          later
          b
          (add_interceptors later (add_interceptor (some fn) b).0)
          (remove_interceptor
            (add_interceptor (some fn) b).1
            (add_interceptors later (add_interceptor (some fn) b).0))
unfolding add_interceptor
remove-add_interceptor fn later au {b} v small =
    let id = (b.next_interceptor_id + 1) % 2 ^ 64 in
    let full = add_interceptors later (add_interceptor (some fn) b).0 in
    let a = add_interceptors-Added later (add_interceptor (some fn) b).0 in
    let ids = a.ids ∙ append_assoc b.interceptor_ids (id ∷ []) a.new_ids in
    let fits : id ≡ b.next_interceptor_id + 1 = omega arith in
    (
      add_interceptor-HasIds fn v small,
      run_chain-append b.interceptors fn au,
      subst (λ n. TakenOut n later b full (remove_interceptor (some id) full)) fits
          record {
            later_ids = a.new_ids;
            one_each = a.one_each;
            ids = ids;
            taken_out =
                remove_interceptor-new id b.interceptor_ids a.new_ids b.interceptors later fn full
                  ids (a.chain ∙ append_assoc b.interceptors (fn ∷ []) later) v.same_length
                  (All-map (λ i h. omega arith) b.interceptor_ids v.given_out);
          },
    )

-- A size that a cap allows, and one that it does not; only a cap above 0 is one.
abbrev pub IsWithin : ℤ → ℕ → Type 0
IsWithin (pos zero) n = Unit
IsWithin (pos (suc m)) n = n ≤ suc m
IsWithin (negsuc m) n = Unit

abbrev pub IsOver : ℤ → ℕ → Type 0
IsOver (pos zero) n = ⊥
IsOver (pos (suc m)) n = suc m < n
IsOver (negsuc m) n = ⊥

-- An interceptor drops the unit, or what the interceptors make of it is over the cap.
abbrev pub IsDropped : AccessUnit → Broadcaster → Type 0
IsDropped au b =
    (run_chain b.interceptors au ≡ none)
    ⊎ ((au' : AccessUnit) × (run_chain b.interceptors au ≡ some au')
        × IsOver b.max_au_bytes (size au'))

-- The interceptors make one unit of the other, and it is within the cap.
abbrev pub IsAdmitted : AccessUnit → AccessUnit → Broadcaster → Type 0
IsAdmitted au au' b = (run_chain b.interceptors au ≡ some au') × IsWithin b.max_au_bytes (size au')

over_cap-cases :
    (cap : ℤ) (n : ℕ)
    → ((over_cap cap n ≡ true) × IsOver cap n) ⊎ ((over_cap cap n ≡ false) × IsWithin cap n)
unfolding over_cap
over_cap-cases (pos zero) n = inr (refl, tt)
over_cap-cases (pos (suc m)) n = elim (Bool-cases (ltb (suc m) n)) [
  | inl over ↦ inl (ground (arith, over), ground (arith, over))
  | inr fits ↦ inr (ground (arith, fits), ground (arith, fits))
]
over_cap-cases (negsuc m) n = inr (refl, tt)

pub admit-cases :
    (au : AccessUnit) (b : Broadcaster)
    → ((admit b au ≡ none) × IsDropped au b)
      ⊎ ((au' : AccessUnit) × (admit b au ≡ some au') × IsAdmitted au au' b)
unfolding admit
admit-cases au b = elim (Option-cases (run_chain b.interceptors au)) [
  | inl e ↦ inl (ground (arith, e), inl e)
  | inr (au', e) ↦ elim (over_cap-cases b.max_au_bytes (size au')) [
    | inl (over, is_over) ↦ inl (ground (arith, e, over), inr (au', e, is_over))
    | inr (fits, is_within) ↦ inr (au', ground (arith, e, fits), (e, is_within))
  ]
]
