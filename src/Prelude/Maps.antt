-- ===== src/Prelude/Maps.antt =====
-- Strings as lists of bytes, and Go maps from them as lists of entries.
use Prim.Native.Nat.{ℕ, ◌+◌, ◌≤◌}
use mathlib.Core.Path.{◌≡◌, refl, sym, ap, ap₂, subst, ◌∙◌}
use mathlib.Core.Logic.{◌≢◌, inl, inr}
use mathlib.Core.Bool.{Bool, true, false, ◌&&◌}
use mathlib.Core.Option.{Option, none, some, some-injective}
use mathlib.Core.List.{List, [], ◌∷◌}
use native.Mathlib.Omega.{arith}
use quicrtc.Prelude.Lists.{length, All}
use quicrtc.Prelude.Tests.{◌==◌, if◌then◌else◌, Bool-cases}

abbrev pub Text : Type 0
Text = List ℕ

abbrev pub same_text : Text → Text → Bool
same_text [] [] = true
same_text [] (y ∷ ys) = false
same_text (x ∷ xs) [] = false
same_text (x ∷ xs) (y ∷ ys) = (x == y) && same_text xs ys

pub same_text_refl : (xs : Text) → same_text xs xs ≡ true
same_text_refl [] = refl
same_text_refl (x ∷ xs) = ground (arith, same_text_refl xs)

pub same_text→eq : (xs ys : Text) → same_text xs ys ≡ true → xs ≡ ys
same_text→eq [] [] h = refl
same_text→eq [] (y ∷ ys) h = absurd (cc h)
same_text→eq (x ∷ xs) [] h = absurd (cc h)
same_text→eq (x ∷ xs) (y ∷ ys) h =
    let same : x ≡ y = ground arith in
    let rest : same_text xs ys ≡ true = ground arith in
    ap₂ (λ a t. a ∷ t) same (same_text→eq xs ys rest)

pub neq→same_text : (xs ys : Text) → xs ≢ ys → same_text xs ys ≡ false
neq→same_text xs ys h = elim (Bool-cases (same_text xs ys)) [
  | inl e ↦ absurd (h (same_text→eq xs ys e))
  | inr e ↦ e
]

module _ {ℓ} {A : Type ℓ} where
  -- `v, ok := m[key]`
  unfoldable pub lookup : Text → List (Text × A) → Option A
  lookup key [] = none
  lookup key ((k, p) ∷ es) = if same_text k key then some p else lookup key es

  -- `delete(m, key)`
  unfoldable pub delete : Text → List (Text × A) → List (Text × A)
  delete key [] = []
  delete key ((k, p) ∷ es) =
      let rest = delete key es in if same_text k key then rest else (k, p) ∷ rest

  -- `m[key] = v`
  unfoldable pub insert : Text → A → List (Text × A) → List (Text × A)
  insert key p [] = (key, p) ∷ []
  insert key p ((k, q) ∷ es) =
      let rest = insert key p es in if same_text k key then (k, p) ∷ es else (k, q) ∷ rest

  -- No key twice.
  abbrev pub LacksKey : Text → List (Text × A) → Type 0
  LacksKey key es = All (λ e. e.0 ≢ key) es

  abbrev pub IsMap : List (Text × A) → Type 0
  IsMap [] = Unit {0}
  IsMap (e ∷ es) = LacksKey e.0 es × IsMap es

  pub lookup-LacksKey : (key : Text) (es : List (Text × A)) → LacksKey key es → lookup key es ≡ none
  unfolding lookup
  lookup-LacksKey key [] l = refl
  lookup-LacksKey key ((k, p) ∷ es) l = rw (neq→same_text k key l.0) (lookup-LacksKey key es l.1)

  pub lookup-delete : (key : Text) (es : List (Text × A)) → lookup key (delete key es) ≡ none
  unfolding lookup delete
  lookup-delete key [] = refl
  lookup-delete key ((k, p) ∷ es) = elim (Bool-cases (same_text k key)) [
    | inl e ↦ rw e (lookup-delete key es)
    | inr e ↦ rw (e, e) (lookup-delete key es)
  ]

  pub lookup-delete_other :
      (key other : Text) (es : List (Text × A))
      → key ≢ other
      → lookup other (delete key es) ≡ lookup other es
  unfolding lookup delete
  lookup-delete_other key other [] h = refl
  lookup-delete_other key other ((k, p) ∷ es) h = elim (Bool-cases (same_text k key)) [
    | inl e ↦
        let gone : same_text k other ≡ false =
          neq→same_text k other (λ o. h (sym (same_text→eq k key e) ∙ o)) in
        rw (e, gone) (lookup-delete_other key other es h)
    | inr e ↦
        rw e
          (ap (λ o. if same_text k other then some p else o) (lookup-delete_other key other es h))
  ]

  pub lookup-insert :
      (key : Text) (p : A) (es : List (Text × A)) → lookup key (insert key p es) ≡ some p
  unfolding lookup insert
  lookup-insert key p [] = rw (same_text_refl key)
  lookup-insert key p ((k, q) ∷ es) = elim (Bool-cases (same_text k key)) [
    | inl e ↦ rw (e, e)
    | inr e ↦ rw (e, e) (lookup-insert key p es)
  ]

  pub lookup-insert_other :
      (key other : Text) (p : A) (es : List (Text × A))
      → key ≢ other
      → lookup other (insert key p es) ≡ lookup other es
  unfolding lookup insert
  lookup-insert_other key other p [] h = rw (neq→same_text key other h)
  lookup-insert_other key other p ((k, q) ∷ es) h = elim (Bool-cases (same_text k key)) [
    | inl e ↦
        let gone : same_text k other ≡ false =
          neq→same_text k other (λ o. h (sym (same_text→eq k key e) ∙ o)) in
        rw (e, gone)
    | inr e ↦
        rw e
          (ap (λ o. if same_text k other then some q else o) (lookup-insert_other key other p es h))
  ]

  pub delete-LacksKey :
      (key other : Text) (es : List (Text × A)) → LacksKey other es → LacksKey other (delete key es)
  unfolding delete
  delete-LacksKey key other [] l = tt
  delete-LacksKey key other ((k, p) ∷ es) l = elim (Bool-cases (same_text k key)) [
    | inl e ↦ rw e (delete-LacksKey key other es l.1)
    | inr e ↦ rw e (l.0, delete-LacksKey key other es l.1)
  ]

  pub delete-IsMap : (key : Text) (es : List (Text × A)) → IsMap es → IsMap (delete key es)
  unfolding delete
  delete-IsMap key [] m = tt
  delete-IsMap key ((k, p) ∷ es) m = elim (Bool-cases (same_text k key)) [
    | inl e ↦ rw e (delete-IsMap key es m.1)
    | inr e ↦ rw e (delete-LacksKey key k es m.0, delete-IsMap key es m.1)
  ]

  insert-LacksKey :
      (key other : Text) (p : A) (es : List (Text × A))
      → key ≢ other
      → LacksKey other es
      → LacksKey other (insert key p es)
  unfolding insert
  insert-LacksKey key other p [] h l = (h, tt)
  insert-LacksKey key other p ((k, q) ∷ es) h l = elim (Bool-cases (same_text k key)) [
    | inl e ↦ rw e l
    | inr e ↦ rw e (l.0, insert-LacksKey key other p es h l.1)
  ]

  pub insert-IsMap :
      (key : Text) (p : A) (es : List (Text × A)) → IsMap es → IsMap (insert key p es)
  unfolding insert
  insert-IsMap key p [] m = (tt, tt)
  insert-IsMap key p ((k, q) ∷ es) m = elim (Bool-cases (same_text k key)) [
    | inl e ↦ rw e m
    | inr e ↦
        let differs : key ≢ k = λ h. absurd (ground (arith, e, h, same_text_refl k)) in
        rw e (insert-LacksKey key k p es differs m.0, insert-IsMap key p es m.1)
  ]

  pub length-insert_le :
      (key : Text) (p : A) (es : List (Text × A)) → length (insert key p es) ≤ length es + 1
  unfolding insert
  length-insert_le key p [] = omega arith
  length-insert_le key p ((k, q) ∷ es) = ground (arith, length-insert_le key p es)

  -- What holds of all entries, after a write, a deletion and a look-up.
  pub All-insert {κ} :
      (P : Text × A → Type κ) (key : Text) (v : A) (es : List (Text × A))
      → All P es
      → P (key, v)
      → All P (insert key v es)
  unfolding insert
  All-insert P key v [] all h = (h, tt)
  All-insert P key v ((k, w) ∷ es) all h = elim (Bool-cases (same_text k key)) [
    | inl e ↦ rw e (subst (λ t. P (t, v)) (sym (same_text→eq k key e)) h, all.1)
    | inr e ↦ rw e (all.0, All-insert P key v es all.1 h)
  ]

  pub All-delete {κ} :
      (P : Text × A → Type κ) (key : Text) (es : List (Text × A)) → All P es → All P (delete key es)
  unfolding delete
  All-delete P key [] all = tt
  All-delete P key ((k, w) ∷ es) all = elim (Bool-cases (same_text k key)) [
    | inl e ↦ rw e (All-delete P key es all.1)
    | inr e ↦ rw e (all.0, All-delete P key es all.1)
  ]

  pub All-lookup {κ} :
      (P : Text × A → Type κ) (key : Text) (v : A) (es : List (Text × A))
      → All P es
      → lookup key es ≡ some v
      → P (key, v)
  unfolding lookup
  All-lookup P key v [] all h = absurd (cc h)
  All-lookup P key v ((k, w) ∷ es) all h = elim (Bool-cases (same_text k key)) [
    | inl e ↦
        let same : w ≡ v = some-injective w v (ground (arith, e, h)) in
        subst (λ t. P (t, v)) (same_text→eq k key e) (subst (λ u. P (k, u)) same all.0)
    | inr e ↦ All-lookup P key v es all.1 (ground (arith, e, h))
  ]

  pub length-delete_le : (key : Text) (es : List (Text × A)) → length (delete key es) ≤ length es
  unfolding delete
  length-delete_le key [] = omega arith
  length-delete_le key ((k, w) ∷ es) = ground (arith, length-delete_le key es)
