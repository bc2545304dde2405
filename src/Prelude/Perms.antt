-- ===== src/Prelude/Perms.antt =====
-- Lists up to order.
use mathlib.Core.List.{
  List, [], ◌∷◌, ◌++◌, Mem, Perm, append-nil, perm_middle, not-mem-nil, mem-cons_self,
  mem-cons_of_mem, forall_mem-cons,
}
use mathlib.Core.List.Perm
use quicrtc.Prelude.Lists.{All}

module _ {ℓ κ} {A : Type ℓ} (P : A → Type κ) (prop : (x : A) → IsProp (P x)) where
  pub All-Mem : (xs : List A) → All P xs → (x : A) → Mem x xs → P x
  All-Mem [] a = λ x m. absurd (not-mem-nil m)
  All-Mem (y ∷ xs) a = (forall_mem-cons prop).1 (a.0, All-Mem xs a.1)

  Mem-All : (xs : List A) → ((x : A) → Mem x xs → P x) → All P xs
  Mem-All [] f = tt
  Mem-All (y ∷ xs) f = (f y mem-cons_self, Mem-All xs (λ x m. f x (mem-cons_of_mem y m)))

  -- What holds of all entries holds of them in any order.
  pub All-Perm : (xs ys : List A) → Perm xs ys → All P ys → All P xs
  All-Perm xs ys p a = Mem-All xs (λ x m. All-Mem ys a x ((Perm.mem_iff p).0 m))

pub append_one-Perm {ℓ} : {A : Type ℓ} (xs : List A) (x : A) → Perm (xs ++ x ∷ []) (x ∷ xs)
append_one-Perm xs x = rw (append-nil xs) at (perm_middle {a = x} xs [])
