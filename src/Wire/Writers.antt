-- ===== src/Wire/Writers.antt =====
-- What the writers of wire/frame.go have written.
use quicrtc.Prelude.{
  ℕ, List, Option, some, none, ◌≡◌, Sink, write, io_fault, ◌⊎◌, ◌≢◌, [], ◌∷◌, ◌++◌, append_assoc,
  append-nil, inl, inr, arith, refl, Error,
}
use quicrtc.Wire.{write_parts}

pub write_cases :
    (w : Sink) (p : List ℕ)
    → ((w.faults ≢ []) × ((write w p).1 ≡ some io_fault))
      ⊎ (((write w p).1 ≡ none)
          × ((write w p).0.out ≡ w.out ++ p)
          × (w.faults ≡ [] → (write w p).0.faults ≡ []))
unfolding write
write_cases w p = at w.faults refl
  where
    at :
        (fs : List (Option ℕ))
        → w.faults ≡ fs
        → ((w.faults ≢ []) × ((write w p).1 ≡ some io_fault))
          ⊎ (((write w p).1 ≡ none)
              × ((write w p).0.out ≡ w.out ++ p)
              × (w.faults ≡ [] → (write w p).0.faults ≡ []))
    at [] e = inr (ground arith, ground arith, λ z. ground arith)
    at (none ∷ fs) e = inr (ground arith, ground arith, λ z. cc)
    at (some k ∷ fs) e = inl (λ z. cc, ground arith)

-- Either the writer failed, or header and payload were appended.
abbrev pub Outcome : Sink → Sink × Option Error → List ℕ → Type 0
Outcome w r bytes =
    ((w.faults ≢ []) × (r.1 ≡ some io_fault)) ⊎ ((r.1 ≡ none) × (r.0.out ≡ w.out ++ bytes))

pub write_parts_cases :
    (w : Sink) (hdr payload : List ℕ) → Outcome w (write_parts w hdr payload) (hdr ++ payload)
unfolding write_parts
write_parts_cases w hdr payload = elim (write_cases w hdr) [
  | inl f ↦ inl (f.0, ground arith)
  | inr g ↦ body payload g
]
  where
    body :
        (p : List ℕ)
        → (((write w hdr).1 ≡ none)
            × ((write w hdr).0.out ≡ w.out ++ hdr)
            × (w.faults ≡ [] → (write w hdr).0.faults ≡ []))
        → Outcome w (write_parts w hdr p) (hdr ++ p)
    body [] g = inr (ground arith, ground (arith, append-nil hdr))
    body (x ∷ xs) g = elim (write_cases (write w hdr).0 (x ∷ xs)) [
      | inl f ↦ inl (λ z. f.0 (g.2 z), ground arith)
      | inr k ↦ inr (ground arith, ground (arith, append_assoc w.out hdr (x ∷ xs)))
    ]
