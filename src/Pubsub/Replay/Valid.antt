-- ===== src/Pubsub/Replay/Valid.antt =====
-- The representation invariant of the replay ring, and what its snapshot is.
use native.Mathlib.Nat.{mod-eq_of_lt, mod-eq-sub-mod}
use quicrtc.Prelude.{
  ℕ, zero, suc, ◌+◌, ◌-◌, ◌%◌, ◌≤◌, ◌<◌, ◌≡◌, refl, ap, ap₂, ◌∙◌, ◌⊎◌, inl, inr, List, length, take,
  drop, [], ◌∷◌, ◌++◌, arith, append-nil, take-all, length-drop,
}
use quicrtc.Pubsub.{AccessUnit, size}
use quicrtc.Pubsub.Replay.{Ring, at, snapshot_loop, snapshot}

-- The bytes of a list of access units.
abbrev pub total : List AccessUnit → ℕ
total [] = 0
total (x ∷ xs) = size x + total xs

pub total-append : (xs ys : List AccessUnit) → total (xs ++ ys) ≡ total xs + total ys
total-append [] ys = omega arith
total-append (x ∷ xs) ys = omega (arith, total-append xs ys)

-- The slots are within the capacity and the head within the slots; while there is room the oldest
-- entry is the first; and the byte count is that of the entries.
pub record IsValid (r : Ring) : Type 0 where
  pub slots : length r.buf ≤ r.cap
  pub unwrapped : (length r.buf ≡ r.cap) ⊎ (r.head ≡ 0)
  pub inside : (r.head ≡ 0) ⊎ (r.head < length r.buf)
  pub counted : r.bytes ≡ total r.buf

pub start_of_room : {r : Ring} → IsValid r → length r.buf < r.cap → r.head ≡ 0
start_of_room v h = elim v.unwrapped [ inl e ↦ absurd (omega arith) | inr z ↦ z ]

pub drop-cons :
    (buf : List AccessUnit) (j : ℕ) → j < length buf → drop j buf ≡ at buf j ∷ drop (suc j) buf
drop-cons [] j h = absurd (omega arith)
drop-cons (x ∷ buf) zero h = refl
drop-cons (x ∷ buf) (suc j) h = drop-cons buf j (omega arith)

-- `j` is the index that round `i` reads.
Reads : ℕ → ℕ → ℕ → ℕ → Type 0
Reads n head i j = (head + i ≡ j) ⊎ (head + i ≡ j + n)

Reads-mod : (n head i j : ℕ) → j < n → Reads n head i j → (head + i) % n ≡ j
unfolding Reads
Reads-mod n head i j h (inl e) = rw e (mod-eq_of_lt h)
Reads-mod n head i j h (inr e) =
    rw e
      (mod-eq-sub-mod {n = j + n} {m = n} (omega arith) ∙ mod-eq_of_lt (omega arith) ∙ omega arith)

snapshot_loop-take :
    (buf : List AccessUnit) (head i k j : ℕ)
    → Reads (length buf) head i j
    → j + k ≤ length buf
    → snapshot_loop buf head i k ≡ take k (drop j buf)
unfolding snapshot_loop Reads
snapshot_loop-take buf head i zero j r h = refl
snapshot_loop-take buf head i (suc k) j r h =
    rw (Reads-mod (length buf) head i j (omega arith) r, drop-cons buf j (omega arith))
      (ap (λ t. at buf j ∷ t)
        (snapshot_loop-take buf head (i + 1) k (suc j) (omega arith) (omega arith)))

snapshot_loop-split :
    (buf : List AccessUnit) (head i a b : ℕ)
    → snapshot_loop buf head i (a + b)
      ≡ snapshot_loop buf head i a ++ snapshot_loop buf head (i + a) b
unfolding snapshot_loop
snapshot_loop-split buf head i zero b =
    ap₂ (λ p q. snapshot_loop buf head p q) (omega arith) (omega arith)
snapshot_loop-split buf head i (suc a) b =
    ap (snapshot_loop buf head i) {x = suc a + b} {y = suc (a + b)} (omega arith)
    ∙ ap (λ t. at buf ((head + i) % length buf) ∷ t)
        (snapshot_loop-split buf head (i + 1) a b
          ∙ ap (λ t. snapshot_loop buf head (i + 1) a ++ snapshot_loop buf head t b) (omega arith))

-- From a head inside the buffer the rounds read it to its end, and then from its start.
snapshot_loop-full :
    (buf : List AccessUnit) (head : ℕ)
    → head ≤ length buf
    → snapshot_loop buf head 0 (length buf) ≡ drop head buf ++ take head buf
unfolding Reads
snapshot_loop-full buf head h =
    let n = length buf in
    ap (snapshot_loop buf head 0) {x = n} {y = n - head + head} (omega arith)
    ∙ snapshot_loop-split buf head 0 (n - head) head
    ∙ ap₂ ◌++◌
        (snapshot_loop-take buf head 0 (n - head) head (omega arith) (omega arith)
          ∙ take-all (n - head) (drop head buf) (omega (arith, length-drop head buf)))
        (snapshot_loop-take buf head (0 + (n - head)) head 0 (omega arith) (omega arith))

-- The snapshot of a valid ring is its buffer, turned to begin at the head.
pub snapshot-IsValid : {r : Ring} → IsValid r → snapshot r ≡ drop r.head r.buf ++ take r.head r.buf
unfolding snapshot
snapshot-IsValid {r} v = ground (arith, append-nil r.buf, snapshot_loop-full r.buf r.head)
