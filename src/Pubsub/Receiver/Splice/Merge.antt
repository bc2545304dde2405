-- ===== src/Pubsub/Receiver/Splice/Merge.antt =====
-- The merge of SpliceFront: one unit for each Seq, in order.
use quicrtc.Prelude.{
  ℕ, ◌≡◌, ◌≢◌, refl, sym, ap, ◌∙◌, inl, inr, List, ◌==◌, leb, if◌then◌else◌, [], ◌∷◌, ◌++◌, Option,
  some, none, arith, All, Bool-cases,
}
use quicrtc.Pubsub.{AccessUnit}
use quicrtc.Pubsub.Replay.Since.{insert_by_seq, sort_by_seq}
use quicrtc.Pubsub.Replay.Since.Laws.{IsSorted, sort_by_seq-IsSorted}
use quicrtc.Pubsub.Receiver.Splice.{put, put_all, merge}

-- The first unit with a Seq.
abbrev pub find : ℕ → List AccessUnit → Option AccessUnit
find s [] = none
find s (x ∷ xs) = if x.seq == s then some x else find s xs

-- The last unit with a Seq, or else `before`.
abbrev pub find_last : ℕ → Option AccessUnit → List AccessUnit → Option AccessUnit
find_last s before [] = before
find_last s before (x ∷ xs) = find_last s (if x.seq == s then some x else before) xs

-- No unit has a Seq.
abbrev pub Lacks : ℕ → List AccessUnit → Type 0
Lacks s xs = All (λ y. y.seq ≢ s) xs

-- No Seq twice.
abbrev pub IsDistinct : List AccessUnit → Type 0
IsDistinct [] = Unit {0}
IsDistinct (x ∷ xs) = Lacks x.seq xs × IsDistinct xs

find-put :
    (s : ℕ) (au : AccessUnit) (xs : List AccessUnit)
    → find s (put au xs) ≡ (if au.seq == s then some au else find s xs)
unfolding put
find-put s au [] = refl
find-put s au (x ∷ xs) = ground (arith, find-put s au xs)

put-Lacks :
    (s : ℕ) (au : AccessUnit) (xs : List AccessUnit) → au.seq ≢ s → Lacks s xs → Lacks s (put au xs)
unfolding put
put-Lacks s au [] h l = (h, tt)
put-Lacks s au (x ∷ xs) h l = elim (Bool-cases (x.seq == au.seq)) [
  | inl e ↦ rw e (h, l.1)
  | inr e ↦ rw e (l.0, put-Lacks s au xs h l.1)
]

put-IsDistinct : (au : AccessUnit) (xs : List AccessUnit) → IsDistinct xs → IsDistinct (put au xs)
unfolding put
put-IsDistinct au [] d = (tt, tt)
put-IsDistinct au (x ∷ xs) d = elim (Bool-cases (x.seq == au.seq)) [
  | inl e ↦ let same : x.seq ≡ au.seq = ground arith in rw e (rw (sym same) d.0, d.1)
  | inr e ↦
      rw e (put-Lacks x.seq au xs (λ same. absurd (ground arith)) d.0, put-IsDistinct au xs d.1)
]

find-put_all :
    (s : ℕ) (aus xs : List AccessUnit) → find s (put_all aus xs) ≡ find_last s (find s xs) aus
unfolding put_all
find-put_all s [] xs = refl
find-put_all s (au ∷ aus) xs =
    find-put_all s aus (put au xs) ∙ ap (λ o. find_last s o aus) (find-put s au xs)

put_all-IsDistinct : (aus xs : List AccessUnit) → IsDistinct xs → IsDistinct (put_all aus xs)
unfolding put_all
put_all-IsDistinct [] xs d = d
put_all-IsDistinct (au ∷ aus) xs d = put_all-IsDistinct aus (put au xs) (put-IsDistinct au xs d)

find-insert_by_seq :
    (s : ℕ) (x : AccessUnit) (ys : List AccessUnit)
    → Lacks x.seq ys
    → find s (insert_by_seq x ys) ≡ find s (x ∷ ys)
unfolding insert_by_seq
find-insert_by_seq s x [] l = refl
find-insert_by_seq s x (y ∷ ys) l = ground (arith, find-insert_by_seq s x ys l.1, l.0)

insert_by_seq-Lacks :
    (s : ℕ) (x : AccessUnit) (ys : List AccessUnit)
    → x.seq ≢ s
    → Lacks s ys
    → Lacks s (insert_by_seq x ys)
unfolding insert_by_seq
insert_by_seq-Lacks s x [] h l = (h, tt)
insert_by_seq-Lacks s x (y ∷ ys) h l = elim (Bool-cases (leb x.seq y.seq)) [
  | inl e ↦ rw e (h, l)
  | inr e ↦ rw e (l.0, insert_by_seq-Lacks s x ys h l.1)
]

sort_by_seq-Lacks : (s : ℕ) (xs : List AccessUnit) → Lacks s xs → Lacks s (sort_by_seq xs)
unfolding sort_by_seq
sort_by_seq-Lacks s [] l = tt
sort_by_seq-Lacks s (x ∷ xs) l =
    insert_by_seq-Lacks s x (sort_by_seq xs) l.0 (sort_by_seq-Lacks s xs l.1)

find-sort_by_seq :
    (s : ℕ) (xs : List AccessUnit) → IsDistinct xs → find s (sort_by_seq xs) ≡ find s xs
unfolding sort_by_seq
find-sort_by_seq s [] d = refl
find-sort_by_seq s (x ∷ xs) d =
    find-insert_by_seq s x (sort_by_seq xs) (sort_by_seq-Lacks x.seq xs d.0)
    ∙ ap (λ o. if x.seq == s then some x else o) (find-sort_by_seq s xs d.1)

insert_by_seq-IsDistinct :
    (x : AccessUnit) (ys : List AccessUnit)
    → Lacks x.seq ys
    → IsDistinct ys
    → IsDistinct (insert_by_seq x ys)
unfolding insert_by_seq
insert_by_seq-IsDistinct x [] l d = (tt, tt)
insert_by_seq-IsDistinct x (y ∷ ys) l d = elim (Bool-cases (leb x.seq y.seq)) [
  | inl e ↦ rw e (l, d)
  | inr e ↦
      rw e (
        insert_by_seq-Lacks y.seq x ys (λ h. l.0 (sym h)) d.0,
        insert_by_seq-IsDistinct x ys l.1 d.1,
      )
]

sort_by_seq-IsDistinct : (xs : List AccessUnit) → IsDistinct xs → IsDistinct (sort_by_seq xs)
unfolding sort_by_seq
sort_by_seq-IsDistinct [] d = tt
sort_by_seq-IsDistinct (x ∷ xs) d =
    insert_by_seq-IsDistinct x (sort_by_seq xs) (sort_by_seq-Lacks x.seq xs d.0)
      (sort_by_seq-IsDistinct xs d.1)

find_last-append :
    (s : ℕ) (before : Option AccessUnit) (xs ys : List AccessUnit)
    → find_last s before (xs ++ ys) ≡ find_last s (find_last s before xs) ys
find_last-append s before [] ys = refl
find_last-append s before (x ∷ xs) ys =
    find_last-append s (if x.seq == s then some x else before) xs ys

-- Ascending by Seq, no Seq twice, and for each Seq the last unit that carries it in a list.
pub record Merged (xs merged : List AccessUnit) : Type 0 where
  pub ascending : IsSorted merged
  pub distinct : IsDistinct merged
  pub newest : (s : ℕ) → find s merged ≡ find_last s none xs

pub merge-Merged :
    (prefix current : List AccessUnit) → Merged (prefix ++ current) (merge prefix current)
unfolding merge
merge-Merged prefix current =
    let all = put_all current (put_all prefix []) in
    let d = put_all-IsDistinct current (put_all prefix []) (put_all-IsDistinct prefix [] tt) in
    record {
      ascending = sort_by_seq-IsSorted all;
      distinct = sort_by_seq-IsDistinct all d;
      newest = λ s.
          find-sort_by_seq s all d
          ∙ find-put_all s current (put_all prefix [])
          ∙ ap (λ o. find_last s o current) (find-put_all s prefix [])
          ∙ sym (find_last-append s none prefix current);
    }
