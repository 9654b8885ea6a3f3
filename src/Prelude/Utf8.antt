-- ===== src/Prelude/Utf8.antt =====
-- The bytes of a JavaScript string: `Buffer.from(s, 'utf8')`. A surrogate pair is one code point, and
-- a lone surrogate is written as U+FFFD.
use openhermit.Prelude.Tests.{ltb, leb, if◌then◌else◌, Bool-cases}
use openhermit.Prelude.Lists.{length, length-append}
use mathlib.Core.Path.{◌≡◌, refl}
use mathlib.Core.Logic.{inl, inr}
use native.Mathlib.Omega.{arith}
use openhermit.Prelude.Texts.{Text}
use Prim.Native.Nat.{ℕ, ◌+◌, ◌-◌, ◌*◌, ◌/◌, ◌%◌, ◌≤◌}
use mathlib.Core.Bool.{Bool, ◌&&◌, ◌||◌}
use mathlib.Core.List.{List, [], ◌∷◌, ◌++◌}

-- The bytes of one code point.
unfoldable pub encode : ℕ → List ℕ
encode p =
    if ltb p 0x80
    then p ∷ []
    else if ltb p 0x800
    then (0xc0 + p / 64) ∷ (0x80 + p % 64) ∷ []
    else if ltb p 0x10000
    then (0xe0 + p / 4096) ∷ (0x80 + p / 64 % 64) ∷ (0x80 + p % 64) ∷ []
    else (0xf0 + p / 262144) ∷ (0x80 + p / 4096 % 64) ∷ (0x80 + p / 64 % 64) ∷ (0x80 + p % 64) ∷ []

abbrev pub is_high : ℕ → Bool
is_high c = leb 0xd800 c && leb c 0xdbff

abbrev pub is_low : ℕ → Bool
is_low c = leb 0xdc00 c && leb c 0xdfff

abbrev pub joined : ℕ → ℕ → ℕ
joined c d = 0x10000 + (c - 0xd800) * 1024 + (d - 0xdc00)

-- A unit that is no half of a pair.
abbrev pub alone : ℕ → ℕ
alone c = if is_high c || is_low c then 0xfffd else c

-- The code points of a string.
unfoldable pub points : Text → List ℕ
points [] = []
points (c ∷ []) = alone c ∷ []
points (c ∷ d ∷ s) =
    let paired = joined c d ∷ points s in
    let single = alone c ∷ points (d ∷ s) in if is_high c && is_low d then paired else single

unfoldable pub encode_all : List ℕ → List ℕ
encode_all [] = []
encode_all (p ∷ ps) = encode p ++ encode_all ps

unfoldable pub utf8 : Text → List ℕ
utf8 s = encode_all (points s)

-- A code point has one to four bytes.
pub encode_bounds : (p : ℕ) → (1 ≤ length (encode p)) × (length (encode p) ≤ 4)
unfolding encode
encode_bounds p = ground arith

pub length-encode_all : (p : ℕ) (ps : List ℕ) → 1 ≤ length (encode_all (p ∷ ps))
unfolding encode_all
length-encode_all p ps =
    omega (arith, length-append (encode p) (encode_all ps), (encode_bounds p).0)

-- Only the empty string has no bytes.
pub length-utf8 : (c : ℕ) (s : Text) → 1 ≤ length (utf8 (c ∷ s))
unfolding points
length-utf8 c [] = unfold utf8 in length-encode_all (alone c) []
length-utf8 c (d ∷ s) = elim (Bool-cases (is_high c && is_low d)) [
  | inl pair ↦ unfold utf8 in rw pair (length-encode_all (joined c d) (points s))
  | inr single ↦ unfold utf8 in rw single (length-encode_all (alone c) (points (d ∷ s)))
]

pub utf8-nil : length (utf8 []) ≡ 0
unfolding utf8 points encode_all
utf8-nil = refl
