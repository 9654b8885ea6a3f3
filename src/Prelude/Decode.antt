-- ===== src/Prelude/Decode.antt =====
-- `buffer.toString('utf8')`. A byte that cannot stand where it stands is read as U+FFFD; encodings
-- that are longer than they need be are not told apart.
use openhermit.Prelude.Tests.{ltb, leb, if◌then◌else◌, Bool-cases}
use openhermit.Prelude.Lists.{All}
use mathlib.Core.Path.{◌≡◌, refl, ap, ◌∙◌}
use mathlib.Core.Logic.{inl, inr, ◌⊎◌}
use native.Mathlib.Omega.{arith}
use openhermit.Prelude.Texts.{Text}
use openhermit.Prelude.Utf8.{encode, encode_all, points}
use Prim.Native.Nat.{ℕ, zero, suc, ◌+◌, ◌-◌, ◌*◌, ◌/◌, ◌%◌, ◌≤◌, ◌<◌}
use mathlib.Core.Bool.{Bool, true, false, ◌&&◌}
use mathlib.Core.List.{List, [], ◌∷◌, ◌++◌}

abbrev pub is_continuation : ℕ → Bool
is_continuation b = leb 0x80 b && ltb b 0xc0

-- The code points, with the number of bytes that are still to come and what the ones before give.
unfoldable pub decode_with : ℕ → ℕ → List ℕ → List ℕ
decode_with zero acc [] = []
decode_with (suc n) acc [] = 0xfffd ∷ []
decode_with zero acc (b ∷ bytes) =
    let one = b ∷ decode_with 0 0 bytes in
    let bad = 0xfffd ∷ decode_with 0 0 bytes in
    let two = decode_with 1 (b - 0xc0) bytes in
    let three = decode_with 2 (b - 0xe0) bytes in
    let four = decode_with 3 (b - 0xf0) bytes in
    if ltb b 0x80
    then one
    else if ltb b 0xc0
    then bad
    else if ltb b 0xe0
    then two
    else if ltb b 0xf0
    then three
    else if ltb b 0xf8
    then four
    else bad
decode_with (suc zero) acc (b ∷ bytes) =
    let last = (acc * 64 + (b - 0x80)) ∷ decode_with 0 0 bytes in
    let bad = 0xfffd ∷ decode_with 0 0 bytes in if is_continuation b then last else bad
decode_with (suc (suc n)) acc (b ∷ bytes) =
    let more = decode_with (suc n) (acc * 64 + (b - 0x80)) bytes in
    let bad = 0xfffd ∷ decode_with 0 0 bytes in if is_continuation b then more else bad

abbrev pub decode_points : List ℕ → List ℕ
decode_points bytes = decode_with 0 0 bytes

-- The code units of code points.
unfoldable pub units : List ℕ → Text
units [] = []
units (p ∷ ps) =
    if ltb p 0x10000
    then p ∷ units ps
    else (0xd800 + (p - 0x10000) / 1024) ∷ (0xdc00 + (p - 0x10000) % 1024) ∷ units ps

abbrev pub decode_utf8 : List ℕ → Text
decode_utf8 bytes = units (decode_points bytes)

-- A code point that is no surrogate.
abbrev pub IsScalar : ℕ → Type 0
IsScalar p = ((p < 0xd800) ⊎ (0xdfff < p)) × (p < 0x110000)

lead_one : (b : ℕ) (t : List ℕ) → b < 0x80 → decode_with 0 0 (b ∷ t) ≡ b ∷ decode_with 0 0 t
unfolding decode_with
lead_one b t h = ground arith

lead_two : (x : ℕ) (t : List ℕ) → x < 32 → decode_with 0 0 ((0xc0 + x) ∷ t) ≡ decode_with 1 x t
unfolding decode_with
lead_two x t h =
    let t0 : ltb (0xc0 + x) 0x80 ≡ false = ground arith in
    let t1 : ltb (0xc0 + x) 0xc0 ≡ false = ground arith in
    let t2 : ltb (0xc0 + x) 0xe0 ≡ true = ground arith in
    let e : 0xc0 + x - 0xc0 ≡ x = omega arith in rw (t0, t1, t2, e) refl

lead_three : (x : ℕ) (t : List ℕ) → x < 16 → decode_with 0 0 ((0xe0 + x) ∷ t) ≡ decode_with 2 x t
unfolding decode_with
lead_three x t h =
    let t0 : ltb (0xe0 + x) 0x80 ≡ false = ground arith in
    let t1 : ltb (0xe0 + x) 0xc0 ≡ false = ground arith in
    let t2 : ltb (0xe0 + x) 0xe0 ≡ false = ground arith in
    let t3 : ltb (0xe0 + x) 0xf0 ≡ true = ground arith in
    let e : 0xe0 + x - 0xe0 ≡ x = omega arith in rw (t0, t1, t2, t3, e) refl

lead_four : (x : ℕ) (t : List ℕ) → x < 8 → decode_with 0 0 ((0xf0 + x) ∷ t) ≡ decode_with 3 x t
unfolding decode_with
lead_four x t h =
    let t0 : ltb (0xf0 + x) 0x80 ≡ false = ground arith in
    let t1 : ltb (0xf0 + x) 0xc0 ≡ false = ground arith in
    let t2 : ltb (0xf0 + x) 0xe0 ≡ false = ground arith in
    let t3 : ltb (0xf0 + x) 0xf0 ≡ false = ground arith in
    let t4 : ltb (0xf0 + x) 0xf8 ≡ true = ground arith in
    let e : 0xf0 + x - 0xf0 ≡ x = omega arith in rw (t0, t1, t2, t3, t4, e) refl

continuation_last :
    (acc y : ℕ) (t : List ℕ)
    → y < 64
    → decode_with 1 acc ((0x80 + y) ∷ t) ≡ (acc * 64 + y) ∷ decode_with 0 0 t
unfolding decode_with
continuation_last acc y t h = let e : 0x80 + y - 0x80 ≡ y = omega arith in rw e (ground arith)

continuation_more :
    (n acc y : ℕ) (t : List ℕ)
    → y < 64
    → decode_with (suc (suc n)) acc ((0x80 + y) ∷ t) ≡ decode_with (suc n) (acc * 64 + y) t
unfolding decode_with
continuation_more n acc y t h =
    let c : is_continuation (0x80 + y) ≡ true = ground arith in
    let e : 0x80 + y - 0x80 ≡ y = omega arith in rw (c, e) refl

pub one_byte : (p : ℕ) → p < 0x80 → encode p ≡ p ∷ []
unfolding encode
one_byte p h = ground arith

pub two_bytes : (p : ℕ) → 0x80 ≤ p → p < 0x800 → encode p ≡ (0xc0 + p / 64) ∷ (0x80 + p % 64) ∷ []
unfolding encode
two_bytes p h k = ground arith

pub three_bytes :
    (p : ℕ)
    → 0x800 ≤ p
    → p < 0x10000
    → encode p ≡ (0xe0 + p / 4096) ∷ (0x80 + p / 64 % 64) ∷ (0x80 + p % 64) ∷ []
unfolding encode
three_bytes p h k = ground arith

pub four_bytes :
    (p : ℕ)
    → 0x10000 ≤ p
    → encode p
      ≡ (0xf0 + p / 262144) ∷ (0x80 + p / 4096 % 64) ∷ (0x80 + p / 64 % 64) ∷ (0x80 + p % 64) ∷ []
unfolding encode
four_bytes p h = ground arith

decode_one :
    (p : ℕ) (t : List ℕ) → p < 0x80 → decode_with 0 0 (encode p ++ t) ≡ p ∷ decode_with 0 0 t
decode_one p t h = rw (one_byte p h) (lead_one p t h)

decode_two :
    (p : ℕ) (t : List ℕ)
    → 0x80 ≤ p
    → p < 0x800
    → decode_with 0 0 (encode p ++ t) ≡ p ∷ decode_with 0 0 t
decode_two p t h k =
    let e : p / 64 * 64 + p % 64 ≡ p = omega arith in
    rw
      (
        two_bytes p h k,
        lead_two (p / 64) ((0x80 + p % 64) ∷ t) (omega arith),
        continuation_last (p / 64) (p % 64) t (omega arith),
        e,
      )
      refl

decode_three :
    (p : ℕ) (t : List ℕ)
    → 0x800 ≤ p
    → p < 0x10000
    → decode_with 0 0 (encode p ++ t) ≡ p ∷ decode_with 0 0 t
decode_three p t h k =
    let e : (p / 4096 * 64 + p / 64 % 64) * 64 + p % 64 ≡ p = omega arith in
    rw
      (
        three_bytes p h k,
        lead_three (p / 4096) ((0x80 + p / 64 % 64) ∷ (0x80 + p % 64) ∷ t) (omega arith),
        continuation_more 0 (p / 4096) (p / 64 % 64) ((0x80 + p % 64) ∷ t) (omega arith),
        continuation_last (p / 4096 * 64 + p / 64 % 64) (p % 64) t (omega arith),
        e,
      )
      refl

decode_four :
    (p : ℕ) (t : List ℕ)
    → 0x10000 ≤ p
    → p < 0x110000
    → decode_with 0 0 (encode p ++ t) ≡ p ∷ decode_with 0 0 t
decode_four p t h k =
    let e : ((p / 262144 * 64 + p / 4096 % 64) * 64 + p / 64 % 64) * 64 + p % 64 ≡ p =
      omega arith in
    rw
      (
        four_bytes p h,
        lead_four (p / 262144) ((0x80 + p / 4096 % 64) ∷ (0x80 + p / 64 % 64) ∷ (0x80 + p % 64) ∷ t)
            (omega arith),
        continuation_more 1 (p / 262144) (p / 4096 % 64)
            ((0x80 + p / 64 % 64) ∷ (0x80 + p % 64) ∷ t) (omega arith),
        continuation_more 0 (p / 262144 * 64 + p / 4096 % 64) (p / 64 % 64) ((0x80 + p % 64) ∷ t)
            (omega arith),
        continuation_last ((p / 262144 * 64 + p / 4096 % 64) * 64 + p / 64 % 64) (p % 64) t
            (omega arith),
        e,
      )
      refl

decode_with-encode :
    (p : ℕ) (bytes : List ℕ)
    → p < 0x110000
    → decode_with 0 0 (encode p ++ bytes) ≡ p ∷ decode_with 0 0 bytes
decode_with-encode p bytes h = elim (Bool-cases (ltb p 0x80)) [
  | inl one ↦ decode_one p bytes (ground (arith, one))
  | inr more ↦ elim (Bool-cases (ltb p 0x800)) [
    | inl two ↦ decode_two p bytes (ground (arith, more)) (ground (arith, two))
    | inr more' ↦ elim (Bool-cases (ltb p 0x10000)) [
      | inl three ↦ decode_three p bytes (ground (arith, more')) (ground (arith, three))
      | inr four ↦ decode_four p bytes (ground (arith, four)) h
    ]
  ]
]

pub decode_points-encode_all : (ps : List ℕ) → All IsScalar ps → decode_points (encode_all ps) ≡ ps
unfolding encode_all
decode_points-encode_all [] h = unfold decode_with in refl
decode_points-encode_all (p ∷ ps) h =
    decode_with-encode p (encode_all ps) h.0.1 ∙ ap (λ x. p ∷ x) (decode_points-encode_all ps h.1)

pub points-IsScalar : (s : Text) → All (λ c. c < 0x10000) s → All IsScalar (points s)
unfolding points
points-IsScalar [] h = tt
points-IsScalar (c ∷ []) h = ground arith
points-IsScalar (c ∷ d ∷ s) h = ground (arith, points-IsScalar s h.1.1, points-IsScalar (d ∷ s) h.1)

points_single : (p : ℕ) (t : Text) → IsScalar p → p < 0x10000 → points (p ∷ t) ≡ p ∷ points t
unfolding points
points_single p [] h k = ground arith
points_single p (d ∷ t) h k = ground arith

points_pair :
    (p : ℕ) (t : Text)
    → 0x10000 ≤ p
    → p < 0x110000
    → points ((0xd800 + (p - 0x10000) / 1024) ∷ (0xdc00 + (p - 0x10000) % 1024) ∷ t) ≡ p ∷ points t
unfolding points
points_pair p t h k = ground arith

pub points-units : (ps : List ℕ) → All IsScalar ps → points (units ps) ≡ ps
unfolding units
points-units [] h = unfold points in refl
points-units (p ∷ ps) h = elim (Bool-cases (ltb p 0x10000)) [
  | inl small ↦ rw small (
      points_single p (units ps) h.0 (ground (arith, small))
      ∙ ap (λ x. p ∷ x) (points-units ps h.1))
  | inr large ↦ rw large (
      points_pair p (units ps) (ground (arith, large)) h.0.1
      ∙ ap (λ x. p ∷ x) (points-units ps h.1))
]
