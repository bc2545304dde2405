-- ===== src/Feed/Scheduler/Heap/Order.antt =====
-- The order of the entries of workHeap (feed/scheduler.go) as one number each.
use mathlib.Core.List.{Perm}
use quicrtc.Prelude.{
  ℕ, zero, suc, ◌+◌, ◌-◌, ◌*◌, ◌/◌, ◌^◌, ◌≤◌, ◌<◌, ◌≡◌, refl, List, ltb, length, Option, some,
  arith,
}
use quicrtc.Feed.Scheduler.Heap.{WorkEntry, before, less}
use quicrtc.Feed.Scheduler.Heap.Slots.{slot, get_elem?-slot}

-- The priority first, then the seq, which is a uint64.
unfoldable pub rank : WorkEntry → ℕ
rank x = x.priority * 2 ^ 64 + x.seq

abbrev pub Fits : WorkEntry → Type 0
Fits x = x.seq < 2 ^ 64

abbrev pub rank_at : List WorkEntry → ℕ → ℕ
rank_at h i = rank (slot h i)

pub before-rank : (x y : WorkEntry) → Fits x → Fits y → before x y ≡ ltb (rank x) (rank y)
unfolding before rank
before-rank x y p q = ground arith

-- Every entry fits, up to an index.
abbrev pub AllFit : List WorkEntry → Type 0
AllFit h = (i : ℕ) → i < length h → Fits (slot h i)

pub less-rank :
    (h : List WorkEntry) (i j : ℕ)
    → AllFit h
    → i < length h
    → j < length h
    → less h i j ≡ some (ltb (rank_at h i) (rank_at h j))
unfolding less
less-rank h i j fit p q = rw (
  get_elem?-slot h i p,
  get_elem?-slot h j q,
  before-rank (slot h i) (slot h j) (fit i p) (fit j q),
)

abbrev pub above : ℕ → ℕ
above c = (c - 1) / 2

-- Among the first n entries none is before the one above it.
abbrev pub IsHeap : ℕ → List WorkEntry → Type 0
IsHeap n h = (c : ℕ) → 0 < c → c < n → rank_at h (above c) ≤ rank_at h c

-- What the loops do: the same entries, the first n in heap order, the last one left in its place.
pub record Settled (n : ℕ) (h g : List WorkEntry) : Type 0 where
  pub heap : IsHeap n g
  pub same : Perm g h
  pub size : length g ≡ length h
  pub fit : AllFit g
  pub rest : (i : ℕ) → n ≤ i → slot g i ≡ slot h i

-- The call returns, with a value of which P holds.
pub data Gives {ℓ κ} {A : Type ℓ} (P : A → Type κ) : Option A → Type (ℓ ⊔ κ) where
  gives : {a : A} → P a → Gives P (some a)

pub Gives-value {ℓ κ} :
    {A : Type ℓ} {P : A → Type κ} {o : Option A} → Gives P o → (a : A) × (o ≡ some a) × P a
Gives-value (gives p) = (_, refl, p)

pub Gives-some {ℓ κ} : {A : Type ℓ} {P : A → Type κ} {a : A} → Gives P (some a) → P a
Gives-some (gives p) = p

root_least_below :
    (fuel n : ℕ) (h : List WorkEntry) (i : ℕ)
    → IsHeap n h
    → i < fuel
    → i < n
    → rank_at h 0 ≤ rank_at h i
root_least_below zero n h i v f p = absurd (omega arith)
root_least_below (suc fuel) n h i v f p = ground (arith, v i, root_least_below fuel n h (above i) v)

-- Nothing is before the root.
pub root_least :
    (n : ℕ) (h : List WorkEntry) (i : ℕ) → IsHeap n h → i < n → rank_at h 0 ≤ rank_at h i
root_least n h i v p = root_least_below (suc i) n h i v (omega arith) p
