-- ===== src/Output/Halves.antt =====
-- The bytes of a text made of two, at whose meeting halves of a pair may join.
use mathlib.Core.List.{append-nil}
use openhermit.Prelude.{
  ℕ, ◌+◌, ◌≤◌, Text, utf8, utf8-nil, points, encode, encode_all, encode_bounds, alone, joined,
  is_high, is_low, true, false, ◌&&◌, ◌||◌, List, [], ◌∷◌, ◌++◌, length, length-append, Bool-cases,
  ◌≡◌, inl, inr, refl, ap, arith,
}
use openhermit.Output.{byte_length}

encode_all-cons :
    (p : ℕ) (ps : List ℕ)
    → length (encode_all (p ∷ ps)) ≡ length (encode p) + length (encode_all ps)
unfolding encode_all
encode_all-cons p ps = length-append (encode p) (encode_all ps)

-- Half of a pair is written with three bytes.
half : (c : ℕ) → (is_high c || is_low c) ≡ true → length (encode (alone c)) ≡ 3
half c h = rw h (unfold encode in refl)

utf8_single :
    (c d : ℕ) (t : Text)
    → (is_high c && is_low d) ≡ false
    → byte_length (c ∷ d ∷ t) ≡ length (encode (alone c)) + byte_length (d ∷ t)
unfolding utf8 points
utf8_single c d t h = rw h (encode_all-cons (alone c) (points (d ∷ t)))

utf8_pair :
    (c d : ℕ) (t : Text)
    → (is_high c && is_low d) ≡ true
    → byte_length (c ∷ d ∷ t) ≡ length (encode (joined c d)) + byte_length t
unfolding utf8 points
utf8_pair c d t h = rw h (encode_all-cons (joined c d) (points t))

utf8_one : (c : ℕ) → byte_length (c ∷ []) ≡ length (encode (alone c))
unfolding utf8 points encode_all
utf8_one c = ap length (append-nil (encode (alone c)))

-- A low half begins no pair.
utf8_low : (d : ℕ) (t : Text) → is_low d ≡ true → byte_length (d ∷ t) ≡ 3 + byte_length t
utf8_low d [] h = omega (arith, utf8_one d, half d (ground (arith, h)), utf8-nil)
utf8_low d (e ∷ t) h =
    omega (arith, utf8_single d e t (ground (arith, h)), half d (ground (arith, h)))

-- The bytes of a text made of two are at most those of the two: halves of a pair may meet.
pub utf8-append : (a b : Text) → byte_length (a ++ b) ≤ byte_length a + byte_length b
utf8-append [] b = omega arith
utf8-append (c ∷ []) [] = omega arith
utf8-append (c ∷ []) (d ∷ t) = elim (Bool-cases (is_high c && is_low d)) [
  | inl pair ↦ omega (
    arith,
    utf8_pair c d t pair,
    (encode_bounds (joined c d)).1,
    utf8_one c,
    half c (ground (arith, pair)),
    utf8_low d t (ground (arith, pair)),
  )
  | inr single ↦ omega (arith, utf8_single c d t single, utf8_one c)
]
utf8-append (c ∷ d ∷ s) b = elim (Bool-cases (is_high c && is_low d)) [
  | inl pair ↦ omega (arith, utf8_pair c d (s ++ b) pair, utf8_pair c d s pair, utf8-append s b)
  | inr single ↦
      omega
        (arith, utf8_single c d (s ++ b) single, utf8_single c d s single, utf8-append (d ∷ s) b)
]
