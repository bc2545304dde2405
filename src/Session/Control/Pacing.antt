-- ===== src/Session/Control/Pacing.antt =====
-- The times of the PONGs of controlReader (session/session.go).
use quicrtc.Prelude.{
  ℕ, ◌+◌, ◌<◌, ◌≤◌, ◌≡◌, ◌⊎◌, inl, inr, List, [], ◌∷◌, All, ◌==◌, leb, arith, Bool-cases,
}
use quicrtc.Session.Control.{min_ping_interval, type_ping}
use quicrtc.Session.Control.Laws.{Frame, pong_due, pongs_due}

-- Each PONG is at least the interval after the one before.
abbrev pub IsSpaced : ℕ → List (ℕ × List ℕ) → Type 0
IsSpaced last [] = Unit
IsSpaced last (p ∷ ps) = (last + min_ping_interval ≤ p.0) × IsSpaced p.0 ps

-- So they are after the last one sent before, if there was one.
abbrev pub IsPaced : ℕ → List (ℕ × List ℕ) → Type 0
IsPaced last [] = Unit
IsPaced last (p ∷ ps) = ((last ≡ 0) ⊎ (last + min_ping_interval ≤ p.0)) × IsSpaced p.0 ps

pong_due-cases :
    (last : ℕ) (f : Frame)
    → (pong_due last f ≡ [])
      ⊎ ((pong_due last f ≡ (f.0, f.1.1) ∷ []) × ((last ≡ 0) ⊎ (last + min_ping_interval ≤ f.0)))
pong_due-cases last (now, (t, payload)) = elim (Bool-cases (t == type_ping)) [
  | inr no_ping ↦ inl (ground (arith, no_ping))
  | inl ping ↦ elim (Bool-cases (last == 0)) [
    | inl first ↦ inr (ground (arith, ping, first), inl (ground (arith, first)))
    | inr later ↦ elim (Bool-cases (leb (last + min_ping_interval) now)) [
      | inl far ↦ inr (ground (arith, ping, later, far), inr (ground (arith, far)))
      | inr near ↦ inl (ground (arith, ping, later, near))
    ]
  ]
]

pongs_due-IsSpaced :
    (last : ℕ) (fs : List Frame)
    → 0 < last
    → All (λ f. 0 < f.0) fs
    → IsSpaced last (pongs_due last fs)
pongs_due-IsSpaced last [] pos late = tt
pongs_due-IsSpaced last (f ∷ fs) pos late = elim (pong_due-cases last f) [
  | inl quiet ↦ rw quiet (pongs_due-IsSpaced last fs pos late.1)
  | inr (due, far) ↦
      let spaced : last + min_ping_interval ≤ f.0 = elim far [
        | inl zero_last ↦ absurd (omega (arith, zero_last))
        | inr h ↦ h
      ] in
      rw due (spaced, pongs_due-IsSpaced f.0 fs late.0 late.1)
]

pub pongs_due-IsPaced :
    (last : ℕ) (fs : List Frame) → All (λ f. 0 < f.0) fs → IsPaced last (pongs_due last fs)
pongs_due-IsPaced last [] late = tt
pongs_due-IsPaced last (f ∷ fs) late = elim (pong_due-cases last f) [
  | inl quiet ↦ rw quiet (pongs_due-IsPaced last fs late.1)
  | inr (due, far) ↦ rw due (far, pongs_due-IsSpaced f.0 fs late.0 late.1)
]
