-- ===== src/SessionStore/Keys.antt =====
-- scopedKey of server/session_store.go.
use quicrtc.Prelude.{Text, ◌≡◌, ◌≢◌, refl, sym, ap, ap₂, [], ◌∷◌, ◌++◌, All, drop, get_or, subst}
use quicrtc.SessionStore.{scoped_key}

-- No byte is 0.
abbrev pub HasNoNul : Text → Type 0
HasNoNul = All (λ b. b ≢ 0)

HasNoNul-tail : (t s : Text) → HasNoNul (t ++ 0 ∷ s) → ⊥
HasNoNul-tail [] s h = h.0 refl
HasNoNul-tail (x ∷ t) s h = HasNoNul-tail t s h.1

-- Sessions of different tenants, and different sessions of one tenant, are parked under different
-- keys, as long as neither session id contains a NUL byte; the tenants may contain any byte.
pub scoped_key_lem :
    (t1 t2 s1 s2 : Text)
    → HasNoNul s1
    → HasNoNul s2
    → scoped_key t1 s1 ≡ scoped_key t2 s2
    → (t1 ≡ t2) × (s1 ≡ s2)
unfolding scoped_key
scoped_key_lem [] [] s1 s2 h1 h2 e = (refl, ap (drop 1) e)
scoped_key_lem [] (y ∷ t2) s1 s2 h1 h2 e =
    absurd (HasNoNul-tail t2 s2 (subst HasNoNul (ap (drop 1) e) h1))
scoped_key_lem (x ∷ t1) [] s1 s2 h1 h2 e =
    absurd (HasNoNul-tail t1 s1 (subst HasNoNul (sym (ap (drop 1) e)) h2))
scoped_key_lem (x ∷ t1) (y ∷ t2) s1 s2 h1 h2 e =
    let (t, s) = scoped_key_lem t1 t2 s1 s2 h1 h2 (ap (drop 1) e) in
    (ap₂ (λ a b. a ∷ b) (ap (λ k. get_or k 0 0) e) t, s)
