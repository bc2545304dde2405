-- ===== src/Feed/Scheduler/Heap/Down.antt =====
-- The loop of heap.Pop, which the worker of feed/scheduler.go calls.
use mathlib.Core.List.Perm
use quicrtc.Prelude.{
  ℕ, zero, suc, ◌+◌, ◌*◌, ◌≤◌, ◌<◌, ◌≡◌, refl, ◌∙◌, ◌≢◌, inl, inr, List, ltb, leb, ◌==◌, length,
  Bool-cases, arith, ltb→lt,
}
use quicrtc.Feed.Scheduler.Heap.{WorkEntry, down, child, ◌>>=◌}
use quicrtc.Feed.Scheduler.Heap.Slots.{
  exchange, length-exchange, swap-exchange, slot-exchange, exchange-Perm,
}
use quicrtc.Feed.Scheduler.Heap.Order.{
  AllFit, rank_at, less-rank, above, IsHeap, Settled, Gives, gives, Gives-value,
}

-- All is in order but for the entry at i and those below it.
pub record Sinking (n : ℕ) (h : List WorkEntry) (i : ℕ) : Type 0 where
  pub bound : n ≤ length h
  pub fit : AllFit h
  pub others : (c : ℕ) → 0 < c → c < n → above c ≢ i → rank_at h (above c) ≤ rank_at h c
  pub across : (c : ℕ) → 0 < c → c < n → above c ≡ i → 0 < i → rank_at h (above i) ≤ rank_at h c

-- The child of i that comes first.
record First (n : ℕ) (h : List WorkEntry) (i j : ℕ) : Type 0 where
  inside : j < n
  below : above j ≡ i
  pos : 0 < j
  first : (c : ℕ) → 0 < c → c < n → above c ≡ i → rank_at h j ≤ rank_at h c

child-First :
    (n : ℕ) (h : List WorkEntry) (i : ℕ)
    → n ≤ length h
    → AllFit h
    → 2 * i + 1 < n
    → Gives (First n h i) (child h (2 * i + 1) n)
unfolding child
child-First n h i b fit p = elim (Bool-cases (ltb (2 * i + 1 + 1) n)) [
  | inr alone ↦
      rw (child, alone)
        (gives record {
          inside = p;
          below = omega arith;
          pos = omega arith;
          first = λ c q r s. let e : c ≡ 2 * i + 1 = ground (arith, alone) in rw e (omega arith);
        })
  | inl two ↦
      let q : 2 * i + 1 + 1 < n = ltb→lt _ _ two in
      let test = less-rank h (2 * i + 1 + 1) (2 * i + 1) fit (omega arith) (omega arith) in
      elim (Bool-cases (ltb (rank_at h (2 * i + 1 + 1)) (rank_at h (2 * i + 1)))) [
        | inl right ↦
            rw (child, two, test, right, ◌>>=◌)
              (gives record {
                inside = q;
                below = omega arith;
                pos = omega arith;
                first = λ c r s t. elim (Bool-cases (c == 2 * i + 1)) [
                  | inl l ↦
                      let e : c ≡ 2 * i + 1 = ground (arith, l) in rw e (ground (arith, right))
                  | inr l ↦ let e : c ≡ 2 * i + 1 + 1 = ground (arith, l) in rw e (omega arith)
                ];
              })
        | inr left ↦
            rw (child, two, test, left, ◌>>=◌)
              (gives record {
                inside = p;
                below = omega arith;
                pos = omega arith;
                first = λ c r s t. elim (Bool-cases (c == 2 * i + 1)) [
                  | inl l ↦ let e : c ≡ 2 * i + 1 = ground (arith, l) in rw e (omega arith)
                  | inr l ↦
                      let e : c ≡ 2 * i + 1 + 1 = ground (arith, l) in rw e (ground (arith, left))
                ];
              })
      ]
]

sink :
    (n : ℕ) (h : List WorkEntry) (i j : ℕ)
    → Sinking n h i
    → First n h i j
    → rank_at h j < rank_at h i
    → Sinking n (exchange h i j) j
sink n h i j v m low =
    let same = length-exchange h i j in
    let pj : j < length h = omega (arith, m.inside, v.bound) in
    let pi : i < length h = omega (arith, m.below) in
    let at = slot-exchange h i j pi pj in
    record {
      bound = omega (arith, same, v.bound);
      fit = λ k p. ground (arith, at k, same, v.fit k, v.fit i pi, v.fit j pj);
      others = λ c p q r. ground (
        arith,
        at c,
        at (above c),
        m.below,
        v.others c p q,
        v.across j m.pos m.inside m.below,
        m.first c p q,
      );
      across = λ c p q r s. ground (arith, at c, at (above j), m.below, v.others c p q);
    }

settle : (n : ℕ) (h : List WorkEntry) (i : ℕ) → Sinking n h i → IsHeap n h → Settled n h h
settle n h i v k = record {
  heap = k;
  same = Perm.rfl;
  size = refl;
  fit = v.fit;
  rest = λ m p. refl;
}

pub down-Settled :
    (fuel n : ℕ) (h : List WorkEntry) (i : ℕ)
    → n ≤ i + fuel
    → 0 < fuel
    → Sinking n h i
    → Gives (Settled n h) (down fuel h i n)
unfolding down
down-Settled zero n h i f z v = absurd (omega arith)
down-Settled (suc fuel) n h i f z v = elim (Bool-cases (leb n (2 * i + 1))) [
  | inl leaf ↦
      rw (down, leaf) (gives (settle n h i v (λ c p q. v.others c p q (ground (arith, leaf)))))
  | inr inner ↦
      let room : 2 * i + 1 < n = ground (arith, inner) in
      let (j, e, m) = Gives-value (child-First n h i v.bound v.fit room) in
      let pj : j < length h = omega (arith, m.inside, v.bound) in
      let pi : i < length h = omega (arith, v.bound) in
      let test = less-rank h j i v.fit pj pi in
      elim (Bool-cases (ltb (rank_at h j) (rank_at h i))) [
        | inl low ↦
            let g = exchange h i j in
            let (a, e', s) = Gives-value (
              down-Settled fuel n g j (omega (arith, m.below, m.pos)) (omega arith)
                (sink n h i j v m (ltb→lt _ _ low))) in
            rw (down, inner, e, test, low, swap-exchange h i j pi pj, e')
              (gives record {
                heap = s.heap;
                same = Perm.trans s.same (exchange-Perm h i j pi pj);
                size = s.size ∙ length-exchange h i j;
                fit = s.fit;
                rest = λ k p. ground (arith, s.rest k p, slot-exchange h i j pi pj k, m.inside);
              })
        | inr high ↦
            rw (down, inner, e, test, high, ◌>>=◌)
              (gives
                (settle n h i v (λ c p q. ground (arith, v.others c p q, m.first c p q, high))))
      ]
]
