-- ===== src/Pubsub/Replay/Since/Laws.antt =====
-- The answers of ReplaySince (pubsub/broadcaster.go).
use native.Mathlib.Decide.{dec_le}
use mathlib.Core.List.{Perm, filter}
use mathlib.Core.List.Perm
use quicrtc.Prelude.{
  ℕ, ◌≡◌, refl, ◌≤◌, ◌<◌, ◌⊎◌, inl, inr, List, Bool, true, false, ◌||◌, ◌==◌, ltb, leb,
  if◌then◌else◌, length, [], ◌∷◌, arith, All, Bool-cases, nil_of_length,
}
use quicrtc.Pubsub.{AccessUnit}
use quicrtc.Pubsub.Replay.{Ring, snapshot}
use quicrtc.Pubsub.Replay.Valid.{IsValid}
use quicrtc.Pubsub.Replay.Evict.{length-snapshot}
use quicrtc.Pubsub.Replay.Since.{
  insert_by_seq, sort_by_seq, min_seq, seq_at_least, since, replay_since,
}

-- Ascending by Seq.
abbrev pub IsSorted : List AccessUnit → Type 0
IsSorted [] = Unit {0}
IsSorted (x ∷ xs) = All (λ y. x.seq ≤ y.seq) xs × IsSorted xs

All-le :
    (m n : ℕ) (xs : List AccessUnit) → m ≤ n → All (λ y. n ≤ y.seq) xs → All (λ y. m ≤ y.seq) xs
All-le m n [] h all = tt
All-le m n (x ∷ xs) h all = (omega arith, All-le m n xs h all.1)

insert_by_seq-All :
    (m : ℕ) (x : AccessUnit) (ys : List AccessUnit)
    → m ≤ x.seq
    → All (λ y. m ≤ y.seq) ys
    → All (λ y. m ≤ y.seq) (insert_by_seq x ys)
unfolding insert_by_seq
insert_by_seq-All m x [] h all = (h, tt)
insert_by_seq-All m x (y ∷ ys) h all = elim (Bool-cases (leb x.seq y.seq)) [
  | inl le ↦ rw le (h, all)
  | inr gt ↦ rw gt (all.0, insert_by_seq-All m x ys h all.1)
]

insert_by_seq-IsSorted :
    (x : AccessUnit) (ys : List AccessUnit) → IsSorted ys → IsSorted (insert_by_seq x ys)
unfolding insert_by_seq
insert_by_seq-IsSorted x [] s = (tt, tt)
insert_by_seq-IsSorted x (y ∷ ys) s = elim (Bool-cases (leb x.seq y.seq)) [
  | inl le ↦ rw le ((ground arith, All-le x.seq y.seq ys (ground arith) s.0), s)
  | inr gt ↦
      rw gt (insert_by_seq-All y.seq x ys (ground arith) s.0, insert_by_seq-IsSorted x ys s.1)
]

pub sort_by_seq-IsSorted : (xs : List AccessUnit) → IsSorted (sort_by_seq xs)
unfolding sort_by_seq
sort_by_seq-IsSorted [] = tt
sort_by_seq-IsSorted (x ∷ xs) = insert_by_seq-IsSorted x (sort_by_seq xs) (sort_by_seq-IsSorted xs)

insert_by_seq-perm : (x : AccessUnit) (ys : List AccessUnit) → Perm (insert_by_seq x ys) (x ∷ ys)
unfolding insert_by_seq
insert_by_seq-perm x [] = Perm.refl _
insert_by_seq-perm x (y ∷ ys) = elim (Bool-cases (leb x.seq y.seq)) [
  | inl le ↦ rw le (Perm.refl _)
  | inr gt ↦ rw gt (Perm.trans (Perm.cons y (insert_by_seq-perm x ys)) (Perm.swap x y ys))
]

pub sort_by_seq-perm : (xs : List AccessUnit) → Perm (sort_by_seq xs) xs
unfolding sort_by_seq
sort_by_seq-perm [] = Perm.nil
sort_by_seq-perm (x ∷ xs) =
    Perm.trans (insert_by_seq-perm x (sort_by_seq xs)) (Perm.cons x (sort_by_seq-perm xs))

min_seq-All :
    (m : ℕ) (xs : List AccessUnit) → (min_seq m xs ≤ m) × All (λ y. min_seq m xs ≤ y.seq) xs
unfolding min_seq
min_seq-All m [] = (omega arith, tt)
min_seq-All m (x ∷ xs) = ground (arith, min_seq-All (if ltb x.seq m then x.seq else m) xs)

min_seq-gt :
    (from m : ℕ) (xs : List AccessUnit)
    → from < m
    → All (λ y. from < y.seq) xs
    → from < min_seq m xs
unfolding min_seq
min_seq-gt from m [] h all = h
min_seq-gt from m (x ∷ xs) h all =
    min_seq-gt from (if ltb x.seq m then x.seq else m) xs (ground arith) all.1

All-lt :
    (from m : ℕ) (xs : List AccessUnit)
    → from < m
    → All (λ y. m ≤ y.seq) xs
    → All (λ y. from < y.seq) xs
All-lt from m [] h all = tt
All-lt from m (x ∷ xs) h all = (omega arith, All-lt from m xs h all.1)

-- The units from a sequence number on, by the library's filter.
abbrev pub from_seq : ℕ → List AccessUnit → List AccessUnit
from_seq from = filter (λ au. dec_le from au.seq)

seq_at_least-eq : (from : ℕ) (xs : List AccessUnit) → seq_at_least from xs ≡ from_seq from xs
unfolding seq_at_least
seq_at_least-eq from [] = refl
seq_at_least-eq from (x ∷ xs) = ground (arith, seq_at_least-eq from xs)

collected-perm :
    (from : ℕ) (xs : List AccessUnit) → Perm (sort_by_seq (seq_at_least from xs)) (from_seq from xs)
collected-perm from xs = rw (seq_at_least-eq from xs) (sort_by_seq-perm (from_seq from xs))

-- The three answers of ReplaySince about the buffered units.
abbrev pub Answer : ℕ → List AccessUnit → List AccessUnit × Bool → Type 0
Answer from snap r =
    ((snap ≡ []) × (r.0 ≡ []) × (r.1 ≡ true))
    ⊎ ((0 < length snap) × All (λ au. from < au.seq) snap × (r.0 ≡ []) × (r.1 ≡ false))
    ⊎ (¬ All (λ au. from < au.seq) snap
        × IsSorted r.0
        × Perm r.0 (from_seq from snap)
        × (r.1 ≡ true))

since-Answer : (from : ℕ) (snap : List AccessUnit) → Answer from snap (since from snap)
unfolding since
since-Answer from [] = inl (refl, refl, refl)
since-Answer from (au ∷ aus) =
    let (first, others) = min_seq-All au.seq aus in
    elim (Bool-cases (ltb from (min_seq au.seq aus))) [
      | inl behind ↦
          let lt : from < min_seq au.seq aus = ground arith in
          inr (
            inl (
              omega arith,
              (omega arith, All-lt from (min_seq au.seq aus) aus lt others),
              rw behind,
              rw behind,
            ))
      | inr within ↦
          let kept = seq_at_least from (au ∷ aus) in
          inr (
            inr (
              λ all. absurd (ground (arith, min_seq-gt from au.seq aus all.0 all.1)),
              rw within (sort_by_seq-IsSorted kept),
              rw within (collected-perm from (au ∷ aus)),
              rw within,
            ))
    ]

-- ReplaySince on a valid ring, in its three cases. With nothing buffered the caller is up to date
-- and gets nothing. If every buffered unit is later than the one asked for, the caller has fallen
-- behind the ring and is told so. Otherwise it gets exactly the buffered units from the asked-for
-- sequence number on, ascending by sequence number.
pub replay_since_lem :
    (from : ℕ) {r : Ring} → IsValid r → Answer from (snapshot r) (replay_since from r)
unfolding replay_since
replay_since_lem from {r} v = elim (Bool-cases (r.cap == 0 || length r.buf == 0)) [
  | inl none_left ↦
      let e : snapshot r ≡ [] =
        nil_of_length (snapshot r) (ground (arith, length-snapshot v, v.slots)) in
      inl (e, rw none_left, rw none_left)
  | inr some_left ↦ rw some_left (since-Answer from (snapshot r))
]
