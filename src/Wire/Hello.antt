-- ===== src/Wire/Hello.antt =====
-- The payloads of control frames and the version negotiation: wire/hello.go. Strings are lists of
-- bytes. What encoding/json makes of a payload is a parameter where it is used.
pub mod Laws
use quicrtc.Prelude.{
  ℕ, zero, suc, List, Bool, true, false, not, ◌==◌, ltb, if◌then◌else◌, length, get_or, [], ◌∷◌,
  Option, none, some, ℤ, pos, negsuc, Text,
}

pub record Hello : Type 0 where
  pub role : Text
  pub slug : Text
  pub version : Text
  pub min_version : Text
  pub max_version : Text
  pub session_id : Text
  pub features : List Text
  pub last_seen_seq : List (Text × ℕ)

-- The fields of SDP that this server sets; `media` stands for those that are only passed on.
pub record Sdp : Type 0 where
  pub media : ℕ
  pub session_id : Text
  pub features : List Text
  pub negotiated_version : Text

pub record Announce : Type 0 where
  pub name : Text
  pub kind : Text
  pub codec : Text

pub record Unannounce : Type 0 where
  pub name : Text

pub record Backpressure : Type 0 where
  pub track_name : Text
  pub level : ℕ
  pub needs_keyframe : Bool

pub record KindStats : Type 0 where
  pub kind : Text
  pub last_seq : ℕ
  pub recv_p50_ms : ℕ
  pub recv_p99_ms : ℕ
  pub dropped : ℕ

pub record ErrorPayload : Type 0 where
  pub code : Text
  pub reason : Text

abbrev pub current_version : Text
current_version = 49 ∷ []

abbrev pub min_supported_version : Text
min_supported_version = 49 ∷ []

-- `a < b` on strings.
abbrev pub text_less : Text → Text → Bool
text_less xs [] = false
text_less [] (y ∷ ys) = true
text_less (x ∷ xs) (y ∷ ys) =
    let rest = text_less xs ys in if ltb x y then true else if ltb y x then false else rest

-- cmpVersion
unfoldable pub cmp_version : Text → Text → ℤ
cmp_version a b =
    if not (length a == length b)
    then (if ltb (length a) (length b) then negsuc 0 else pos 1)
    else if text_less a b
    then negsuc 0
    else if text_less b a
    then pos 1
    else pos 0

abbrev pub above_zero : ℤ → Bool
above_zero (pos zero) = false
above_zero (pos (suc n)) = true
above_zero (negsuc n) = false

abbrev pub below_zero : ℤ → Bool
below_zero (pos n) = false
below_zero (negsuc n) = true

-- NegotiateVersion; `none` is ("", false).
unfoldable pub negotiate_version : Text → Text → Text → Text → Option Text
negotiate_version client_min client_max server_min server_max =
    let lo = if above_zero (cmp_version server_min client_min) then server_min else client_min in
    let hi = if below_zero (cmp_version server_max client_max) then server_max else client_max in
    if below_zero (cmp_version hi lo) then none else some hi

-- UnmarshalError, whose error its caller ignores. `parse` is json.Unmarshal, and `none` its error.
unfoldable pub unmarshal_error : (List ℕ → Option ErrorPayload) → List ℕ → ErrorPayload
unmarshal_error parse b =
    let plain : ErrorPayload = record { code = []; reason = b } in
    if length b == 0
    then record { code = []; reason = [] }
    else if not (get_or b 0 0 == 123)
    then plain
    else (elim (parse b) [ none ↦ plain | some e ↦ e ])
