-- ===== src/Feed/Scheduler/Heap/Slots.antt =====
-- workHeap (feed/scheduler.go) as an array: what is at an index, also after Swap and append.
use mathlib.Core.List.{Perm}
use mathlib.Core.List.Perm
use quicrtc.Prelude.{
  ℕ, zero, suc, ◌-◌, ◌<◌, ◌≡◌, refl, ap, ◌∙◌, List, ◌==◌, if◌then◌else◌, length, take, set, get_or,
  get_elem?, length-set, [], ◌∷◌, ◌++◌, some, arith,
}
use quicrtc.Feed.Scheduler.Heap.{WorkEntry, swap, pop_last}

abbrev no_entry : WorkEntry
no_entry = record { priority = 0; seq = 0; work = 0 }

-- The entry at an index that is in range.
unfoldable pub slot : List WorkEntry → ℕ → WorkEntry
slot h i = get_or h i no_entry

unfoldable pub exchange : List WorkEntry → ℕ → ℕ → List WorkEntry
exchange h i j = set (set h i (slot h j)) j (slot h i)

pub get_elem?-slot : (h : List WorkEntry) (i : ℕ) → i < length h → get_elem? h i ≡ some (slot h i)
unfolding slot
get_elem?-slot [] i p = absurd (omega arith)
get_elem?-slot (x ∷ h) zero p = refl
get_elem?-slot (x ∷ h) (suc i) p = get_elem?-slot h i (omega arith)

pub slot-set :
    (h : List WorkEntry) (i k : ℕ) (x : WorkEntry)
    → i < length h
    → slot (set h i x) k ≡ (if i == k then x else slot h k)
unfolding slot
slot-set [] i k x p = absurd (omega arith)
slot-set (y ∷ h) zero zero x p = refl
slot-set (y ∷ h) zero (suc k) x p = ground arith
slot-set (y ∷ h) (suc i) zero x p = ground arith
slot-set (y ∷ h) (suc i) (suc k) x p = ground (arith, slot-set h i k x)

pub slot-append : (h t : List WorkEntry) (i : ℕ) → i < length h → slot (h ++ t) i ≡ slot h i
unfolding slot
slot-append [] t i p = absurd (omega arith)
slot-append (x ∷ h) t zero p = refl
slot-append (x ∷ h) t (suc i) p = slot-append h t i (omega arith)

pub slot-append_last : (h : List WorkEntry) (x : WorkEntry) → slot (h ++ x ∷ []) (length h) ≡ x
unfolding slot
slot-append_last [] x = refl
slot-append_last (y ∷ h) x = slot-append_last h x

pub slot-take : (n : ℕ) (h : List WorkEntry) (i : ℕ) → i < n → slot (take n h) i ≡ slot h i
unfolding slot
slot-take zero h i p = absurd (omega arith)
slot-take (suc n) [] i p = refl
slot-take (suc n) (x ∷ h) zero p = refl
slot-take (suc n) (x ∷ h) (suc i) p = slot-take n h i (omega arith)

pub length-exchange : (h : List WorkEntry) (i j : ℕ) → length (exchange h i j) ≡ length h
unfolding exchange
length-exchange h i j = length-set (set h i (slot h j)) j (slot h i) ∙ length-set h i (slot h j)

-- A write trades one entry for another.
set-Perm :
    (h : List WorkEntry) (i : ℕ) (x : WorkEntry)
    → i < length h
    → Perm (slot h i ∷ set h i x) (x ∷ h)
unfolding slot
set-Perm [] i x p = absurd (omega arith)
set-Perm (y ∷ h) zero x p = Perm.swap x y h
set-Perm (y ∷ h) (suc i) x p =
    Perm.trans (Perm.swap y _ _)
      (Perm.trans (Perm.cons y (set-Perm h i x (omega arith))) (Perm.swap x y h))

pub take-slot : (n : ℕ) (h : List WorkEntry) → length h ≡ suc n → take n h ++ slot h n ∷ [] ≡ h
unfolding slot
take-slot zero (x ∷ []) e = refl
take-slot zero (x ∷ y ∷ h) e = absurd (omega arith)
take-slot (suc n) (x ∷ h) e = ap (λ t. x ∷ t) (take-slot n h (omega arith))
take-slot n [] e = absurd (omega arith)

module _ (h : List WorkEntry) (i j : ℕ) (p : i < length h) (q : j < length h) where
  pub swap-exchange : swap h i j ≡ some (exchange h i j)
  unfolding swap exchange
  swap-exchange = rw (get_elem?-slot h i p, get_elem?-slot h j q)

  pub slot-exchange :
      (k : ℕ)
      → slot (exchange h i j) k
        ≡ (if j == k then slot h i else if i == k then slot h j else slot h k)
  unfolding exchange
  slot-exchange k = ground (
    arith,
    slot-set h i k (slot h j),
    slot-set (set h i (slot h j)) j k (slot h i),
    length-set h i (slot h j),
  )

  pub exchange-Perm : Perm (exchange h i j) h
  unfolding exchange
  exchange-Perm =
      let g = set h i (slot h j) in
      let same : slot g j ≡ slot h j = ground (arith, slot-set h i j (slot h j)) in
      let inside : j < length g = omega (arith, length-set h i (slot h j)) in
      Perm.cons_inv
        (Perm.trans (rw same at (set-Perm g j (slot h i) inside)) (set-Perm h i (slot h j) p))

-- The last entry and the others.
pub pop_last-slot :
    (h : List WorkEntry) (n : ℕ) → length h ≡ suc n → pop_last h ≡ some (slot h n, take n h)
unfolding pop_last
pop_last-slot h n e =
    let at_end : length h - 1 ≡ n = omega arith in
    rw (pop_last, at_end, get_elem?-slot h n (omega arith))
