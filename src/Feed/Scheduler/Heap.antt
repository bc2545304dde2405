-- ===== src/Feed/Scheduler/Heap.antt =====
-- The priority queue of feed/scheduler.go: workHeap, and heap.Push and heap.Pop of Go's
-- container/heap on it. `none` is a panic, or a loop whose rounds have run out.
pub mod Slots
pub mod Order
pub mod Up
pub mod Down
pub mod Laws
use quicrtc.Prelude.{
  ℕ, zero, suc, ◌+◌, ◌-◌, ◌*◌, ◌/◌, List, Bool, true, false, not, ◌==◌, ltb, leb, if◌then◌else◌,
  length, take, set, get_elem?, [], ◌∷◌, ◌++◌, Option, none, some,
}

-- `work` stands for the function do.
pub record WorkEntry : Type 0 where
  pub priority : ℕ
  pub seq : ℕ
  pub work : ℕ

-- What a panic or a spent loop does to the calls that follow.
infixl 5 ◌>>=◌
abbrev pub ◌>>=◌ {ℓ κ} : {A : Type ℓ} {B : Type κ} → Option A → (A → Option B) → Option B
none >>= then_do = none
some a >>= then_do = then_do a

-- workHeap.Less on the two entries.
unfoldable pub before : WorkEntry → WorkEntry → Bool
before x y = if not (x.priority == y.priority) then ltb x.priority y.priority else ltb x.seq y.seq

-- workHeap.Less
unfoldable pub less : List WorkEntry → ℕ → ℕ → Option Bool
less h i j = do x ← get_elem? h i; y ← get_elem? h j; some (before x y)

-- workHeap.Swap
unfoldable pub swap : List WorkEntry → ℕ → ℕ → Option (List WorkEntry)
swap h i j = do x ← get_elem? h i; y ← get_elem? h j; some (set (set h i y) j x)

-- workHeap.Pop
unfoldable pub pop_last : List WorkEntry → Option (WorkEntry × List WorkEntry)
pop_last h = do item ← get_elem? h (length h - 1); some (item, take (length h - 1) h)

-- up of container/heap; `(j - 1) / 2` is 0 at the root in Go too.
unfoldable pub up : ℕ → List WorkEntry → ℕ → Option (List WorkEntry)
up zero h j = none
up (suc fuel) h j =
    let i = (j - 1) / 2 in
    if i == j
    then some h
    else (less h j i >>= λ b. elim b [ true ↦ swap h i j >>= λ h'. up fuel h' i | false ↦ some h ])

-- The child that down compares with its parent.
unfoldable pub child : List WorkEntry → ℕ → ℕ → Option ℕ
child h j1 n =
    if ltb (j1 + 1) n
    then (less h (j1 + 1) j1 >>= λ b. some (if b then j1 + 1 else j1))
    else some j1

-- down of container/heap on the first n entries.
unfoldable pub down : ℕ → List WorkEntry → ℕ → ℕ → Option (List WorkEntry)
down zero h i n = none
down (suc fuel) h i n =
    if leb n (2 * i + 1)
    then some h
    else (child h (2 * i + 1) n >>= λ j. less h j i >>= λ b. elim b [
      | true ↦ swap h i j >>= λ h'. down fuel h' j n
      | false ↦ some h
    ])

-- heap.Push; a round of up halves the index, so one round for each entry is enough.
unfoldable pub heap_push : List WorkEntry → WorkEntry → Option (List WorkEntry)
heap_push h x = up (suc (length h)) (h ++ x ∷ []) (length h)

-- heap.Pop; a round of down goes to a child, so one round for each entry is enough.
unfoldable pub heap_pop : List WorkEntry → Option (WorkEntry × List WorkEntry)
heap_pop h = do
  h' ← swap h 0 (length h - 1)
  h'' ← down (length h) h' 0 (length h - 1)
  pop_last h''
