-- ===== src/Wire/Hello/Laws.antt =====
-- NegotiateVersion of wire/hello.go.
use quicrtc.Prelude.{
  ◌<◌, ◌≡◌, refl, sym, ap, ap₂, ◌∙◌, ◌⊎◌, inl, inr, Bool, true, false, ◌==◌, ltb, if◌then◌else◌,
  length, [], ◌∷◌, none, some, Text, arith, Bool-cases, subst,
}
use quicrtc.Wire.Hello.{text_less, cmp_version, above_zero, below_zero, negotiate_version}

-- The test that `a` is not past `b`.
abbrev NotPast : Text → Text → Type 0
NotPast a b = below_zero (cmp_version b a) ≡ false

-- The order of strings, byte by byte.
abbrev pub IsBefore : Text → Text → Type 0
IsBefore xs [] = ⊥
IsBefore [] (y ∷ ys) = Unit
IsBefore (x ∷ xs) (y ∷ ys) = (x < y) ⊎ ((x ≡ y) × IsBefore xs ys)

-- The order of versions: first by length, then by the bytes.
abbrev pub IsOlder : Text → Text → Type 0
IsOlder a b = (length a < length b) ⊎ ((length a ≡ length b) × IsBefore a b)

text_less_trans :
    (a b c : Text) → text_less a b ≡ true → text_less b c ≡ true → text_less a c ≡ true
text_less_trans [] [] c p q = absurd (cc p)
text_less_trans [] (y ∷ b) [] p q = absurd (cc q)
text_less_trans [] (y ∷ b) (z ∷ c) p q = refl
text_less_trans (x ∷ a) [] c p q = absurd (cc p)
text_less_trans (x ∷ a) (y ∷ b) [] p q = absurd (cc q)
text_less_trans (x ∷ a) (y ∷ b) (z ∷ c) p q = ground (arith, text_less_trans a b c)

text_less_irrefl : (a : Text) → text_less a a ≡ false
text_less_irrefl [] = refl
text_less_irrefl (x ∷ a) = ground (arith, text_less_irrefl a)

text_less_connex : (a b : Text) → text_less a b ≡ false → text_less b a ≡ false → a ≡ b
text_less_connex [] [] p q = refl
text_less_connex [] (y ∷ b) p q = absurd (cc p)
text_less_connex (x ∷ a) [] p q = absurd (cc q)
text_less_connex (x ∷ a) (y ∷ b) p q =
    let same : x ≡ y = ground arith in
    let less : text_less a b ≡ false = ground (arith, same) in
    let more : text_less b a ≡ false = ground (arith, same) in
    ap₂ (λ h t. h ∷ t) same (text_less_connex a b less more)

-- `a` comes before `b`.
abbrev older : Text → Text → Bool
older a b = below_zero (cmp_version a b)

older-eq :
    (a b : Text)
    → older a b ≡ (if length a == length b then text_less a b else ltb (length a) (length b))
unfolding cmp_version
older-eq a b = ground arith

above-older : (a b : Text) → above_zero (cmp_version a b) ≡ older b a
unfolding cmp_version
above-older a b = elim (Bool-cases (text_less a b)) [
  | inl less ↦ elim (Bool-cases (text_less b a)) [
    | inl more ↦ absurd (cc (text_less_trans a b a less more, text_less_irrefl a))
    | inr not_more ↦ ground (arith, less, not_more)
  ]
  | inr not_less ↦ ground (arith, not_less)
]

older_trans : (a b c : Text) → older a b ≡ true → older b c ≡ true → older a c ≡ true
older_trans a b c p q =
    ground (arith, older-eq a b, older-eq b c, older-eq a c, text_less_trans a b c)

older_connex : (a b : Text) → older a b ≡ false → older b a ≡ false → a ≡ b
older_connex a b p q =
    let less : text_less a b ≡ false = ground (arith, older-eq a b, older-eq b a) in
    let more : text_less b a ≡ false = ground (arith, older-eq a b, older-eq b a) in
    text_less_connex a b less more

NotPast-trans : (a b c : Text) → NotPast a b → NotPast b c → NotPast a c
NotPast-trans a b c p q = elim (Bool-cases (older c a)) [
  | inr fine ↦ fine
  | inl bad ↦ elim (Bool-cases (older b c)) [
    | inl step ↦ absurd (cc (older_trans b c a step bad, p))
    | inr stay ↦ absurd (cc (p, bad, ap (λ v. older v a) (older_connex b c stay q)))
  ]
]

NotPast-refl : (a : Text) → NotPast a a
NotPast-refl a = rw (older-eq a a) (ground (arith, text_less_irrefl a))

older-NotPast : (a b : Text) → older a b ≡ true → NotPast a b
older-NotPast a b p = elim (Bool-cases (older b a)) [
  | inr fine ↦ fine
  | inl bad ↦ absurd (cc (older_trans a b a p bad, NotPast-refl a))
]

-- The later of two versions, and the earlier.
later_of : Text → Text → Text
later_of s c = if above_zero (cmp_version s c) then s else c

earlier_of : Text → Text → Text
earlier_of s c = if below_zero (cmp_version s c) then s else c

later_of_lem :
    (s c : Text)
    → NotPast s (later_of s c)
      × NotPast c (later_of s c)
      × ((later_of s c ≡ s) ⊎ (later_of s c ≡ c))
unfolding later_of
later_of_lem s c = elim (Bool-cases (above_zero (cmp_version s c))) [
  | inl up ↦
      let c_first = older-NotPast c s (sym (above-older s c) ∙ up) in
      rw up (NotPast-refl s, c_first, inl refl)
  | inr same ↦
      let s_first : NotPast s c = sym (above-older s c) ∙ same in
      rw same (s_first, NotPast-refl c, inr refl)
]

earlier_of_lem :
    (s c : Text)
    → NotPast (earlier_of s c) s
      × NotPast (earlier_of s c) c
      × ((earlier_of s c ≡ s) ⊎ (earlier_of s c ≡ c))
unfolding earlier_of
earlier_of_lem s c = elim (Bool-cases (below_zero (cmp_version s c))) [
  | inl down ↦ rw down (NotPast-refl s, older-NotPast s c down, inl refl)
  | inr same ↦ rw same (same, NotPast-refl c, inr refl)
]

-- `w` is in a range.
abbrev WithinTests : Text → Text → Text → Type 0
WithinTests lo hi w = NotPast lo w × NotPast w hi

-- `w` is outside one of the ranges.
abbrev OutsideTests : Text → Text → Text → Text → Text → Type 0
OutsideTests client_min client_max server_min server_max w =
    (older w client_min ≡ true)
    ⊎ (older client_max w ≡ true)
    ⊎ (older w server_min ≡ true)
    ⊎ (older server_max w ≡ true)

OutsideTests-cases :
    (client_min client_max server_min server_max w : Text)
    → OutsideTests client_min client_max server_min server_max w
      ⊎ (WithinTests client_min client_max w × WithinTests server_min server_max w)
OutsideTests-cases client_min client_max server_min server_max w =
    elim (Bool-cases (older w client_min)) [
      | inl a ↦ inl (inl a)
      | inr a ↦ elim (Bool-cases (older client_max w)) [
        | inl b ↦ inl (inr (inl b))
        | inr b ↦ elim (Bool-cases (older w server_min)) [
          | inl c ↦ inl (inr (inr (inl c)))
          | inr c ↦ elim (Bool-cases (older server_max w)) [
            | inl d ↦ inl (inr (inr (inr d)))
            | inr d ↦ inr ((a, b), (c, d))
          ]
        ]
      ]
    ]

negotiate_version-eq :
    (client_min client_max server_min server_max : Text)
    → negotiate_version client_min client_max server_min server_max ≡ (
        if older (earlier_of server_max client_max) (later_of server_min client_min)
        then none
        else some (earlier_of server_max client_max))
unfolding negotiate_version later_of earlier_of
negotiate_version-eq client_min client_max server_min server_max = refl

-- In the range of both sides, or not: a later bound and an earlier one say which.
both :
    (client_min client_max server_min server_max w : Text)
    → WithinTests client_min client_max w
    → WithinTests server_min server_max w
    → NotPast (later_of server_min client_min) w × NotPast w (earlier_of server_max client_max)
both client_min client_max server_min server_max w (a, b) (c, d) =
    let lo : NotPast (later_of server_min client_min) w =
      elim (later_of_lem server_min client_min).2 [
        | inl e ↦ subst (λ v. NotPast v w) (sym e) c
        | inr e ↦ subst (λ v. NotPast v w) (sym e) a
      ] in
    let hi : NotPast w (earlier_of server_max client_max) =
      elim (earlier_of_lem server_max client_max).2 [
        | inl e ↦ subst (λ v. NotPast w v) (sym e) d
        | inr e ↦ subst (λ v. NotPast w v) (sym e) b
      ] in
    (lo, hi)

-- The same by the tests of the code.
negotiate_version-tests :
    (client_min client_max server_min server_max w : Text)
    → ((negotiate_version client_min client_max server_min server_max ≡ none)
        × OutsideTests client_min client_max server_min server_max w)
      ⊎ ((v : Text) × (negotiate_version client_min client_max server_min server_max ≡ some v)
          × WithinTests client_min client_max v
          × WithinTests server_min server_max v
          × (OutsideTests client_min client_max server_min server_max w ⊎ NotPast w v))
negotiate_version-tests client_min client_max server_min server_max w =
    let lo = later_of server_min client_min in
    let hi = earlier_of server_max client_max in
    let (s_lo, c_lo, _) = later_of_lem server_min client_min in
    let (s_hi, c_hi, _) = earlier_of_lem server_max client_max in
    let eq = negotiate_version-eq client_min client_max server_min server_max in
    elim (Bool-cases (older hi lo)) [
      | inl apart ↦ inl (
        rw (eq, apart) refl,
        elim (OutsideTests-cases client_min client_max server_min server_max w) [
          | inl out ↦ out
          | inr (c, s) ↦
              let (a, b) = both client_min client_max server_min server_max w c s in
              absurd (cc (NotPast-trans lo w hi a b, apart))
        ],
      )
      | inr meet ↦ inr (
        hi,
        rw (eq, meet) refl,
        (NotPast-trans client_min lo hi c_lo meet, c_hi),
        (NotPast-trans server_min lo hi s_lo meet, s_hi),
        elim (OutsideTests-cases client_min client_max server_min server_max w) [
          | inl out ↦ inl out
          | inr (c, s) ↦ inr (both client_min client_max server_min server_max w c s).1
        ],
      )
    ]

text_less-IsBefore : (a b : Text) → text_less a b ≡ true → IsBefore a b
text_less-IsBefore a [] h = absurd (cc h)
text_less-IsBefore [] (y ∷ b) h = tt
text_less-IsBefore (x ∷ a) (y ∷ b) h = elim (Bool-cases (ltb x y)) [
  | inl lower ↦ inl (ground (arith, lower))
  | inr rest ↦
      let same : x ≡ y = ground (arith, rest, h) in
      let less : text_less a b ≡ true = ground (arith, rest, h) in
      inr (same, text_less-IsBefore a b less)
]

older-IsOlder : (a b : Text) → older a b ≡ true → IsOlder a b
older-IsOlder a b h = elim (Bool-cases (length a == length b)) [
  | inl level ↦
      let less : text_less a b ≡ true = ground (arith, older-eq a b, level, h) in
      let same : length a ≡ length b = ground (arith, level) in
      inr (same, text_less-IsBefore a b less)
  | inr apart ↦ inl (ground (arith, older-eq a b, apart, h))
]

-- `a` is `b` or older.
abbrev pub IsUpTo : Text → Text → Type 0
IsUpTo a b = (a ≡ b) ⊎ IsOlder a b

NotPast-IsUpTo : (a b : Text) → NotPast a b → IsUpTo a b
NotPast-IsUpTo a b h = elim (Bool-cases (older a b)) [
  | inl less ↦ inr (older-IsOlder a b less)
  | inr same ↦ inl (older_connex a b same h)
]

-- `w` is in a range.
abbrev pub Within : Text → Text → Text → Type 0
Within lo hi w = IsUpTo lo w × IsUpTo w hi

WithinTests-Within : (lo hi w : Text) → WithinTests lo hi w → Within lo hi w
WithinTests-Within lo hi w (a, b) = (NotPast-IsUpTo lo w a, NotPast-IsUpTo w hi b)

-- `w` is outside one of the ranges.
abbrev pub Outside : Text → Text → Text → Text → Text → Type 0
Outside client_min client_max server_min server_max w =
    IsOlder w client_min ⊎ IsOlder client_max w ⊎ IsOlder w server_min ⊎ IsOlder server_max w

OutsideTests-Outside :
    (client_min client_max server_min server_max w : Text)
    → OutsideTests client_min client_max server_min server_max w
    → Outside client_min client_max server_min server_max w
OutsideTests-Outside client_min client_max server_min server_max w (inl a) =
    inl (older-IsOlder w client_min a)
OutsideTests-Outside client_min client_max server_min server_max w (inr (inl b)) =
    inr (inl (older-IsOlder client_max w b))
OutsideTests-Outside client_min client_max server_min server_max w (inr (inr (inl c))) =
    inr (inr (inl (older-IsOlder w server_min c)))
OutsideTests-Outside client_min client_max server_min server_max w (inr (inr (inr d))) =
    inr (inr (inr (older-IsOlder server_max w d)))

-- NegotiateVersion picks the newest version that both sides can speak, whatever the two ranges: the
-- version that it returns is in both, and any other is outside one of them or no newer; if it
-- returns none, every version is outside one of them. A version is older than another if it is
-- shorter, or as long and before it byte by byte.
pub negotiate_version_lem :
    (client_min client_max server_min server_max w : Text)
    → ((negotiate_version client_min client_max server_min server_max ≡ none)
        × Outside client_min client_max server_min server_max w)
      ⊎ ((v : Text) × (negotiate_version client_min client_max server_min server_max ≡ some v)
          × Within client_min client_max v
          × Within server_min server_max v
          × (Outside client_min client_max server_min server_max w ⊎ IsUpTo w v))
negotiate_version_lem client_min client_max server_min server_max w =
    let outside = OutsideTests-Outside client_min client_max server_min server_max w in
    elim (negotiate_version-tests client_min client_max server_min server_max w) [
      | inl (apart, out) ↦ inl (apart, outside out)
      | inr (v, agreed, offered, supported, best) ↦ inr (
        v,
        agreed,
        WithinTests-Within client_min client_max v offered,
        WithinTests-Within server_min server_max v supported,
        elim best [ inl out ↦ inl (outside out) | inr up ↦ inr (NotPast-IsUpTo w v up) ],
      )
    ]
