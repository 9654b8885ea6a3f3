-- ===== src/Output/Slice.antt =====
-- The prefix of a text that fits under a number of bytes.
use openhermit.Prelude.{
  ℕ, zero, suc, ◌+◌, ◌-◌, ◌/◌, ◌%◌, ◌≤◌, ◌<◌, Text, utf8, points, units, encode, encode_all,
  encode_bounds, decode_points, decode_points-encode_all, points-units, points-IsScalar, IsScalar,
  one_byte, two_bytes, three_bytes, four_bytes, is_continuation, All, every, leb, leb→le, ltb, true,
  false, List, [], ◌∷◌, ◌++◌, length, length-append, take, Bool-cases, ◌≡◌, ◌⊎◌, inl, inr, refl,
  sym, subst, ap, ◌∙◌, arith,
}
use openhermit.Output.{byte_at, walk_back, byte_length, slice_utf8}

-- The first byte of a code point is no continuation, and the others are.
record HasShape (bytes : List ℕ) : Type 0 where
  lead : ℕ
  tail : List ℕ
  split : bytes ≡ lead ∷ tail
  leads : is_continuation lead ≡ false
  continues : every is_continuation tail ≡ true

encode-HasShape : (p : ℕ) → p < 0x110000 → HasShape (encode p)
encode-HasShape p h = elim (Bool-cases (ltb p 0x80)) [
  | inl one ↦ record {
    lead = p;
    tail = [];
    split = one_byte p (ground (arith, one));
    leads = ground (arith, one);
    continues = refl;
  }
  | inr more ↦ elim (Bool-cases (ltb p 0x800)) [
    | inl two ↦ record {
      lead = 0xc0 + p / 64;
      tail = (0x80 + p % 64) ∷ [];
      split = two_bytes p (ground (arith, more)) (ground (arith, two));
      leads = ground arith;
      continues = ground arith;
    }
    | inr more' ↦ elim (Bool-cases (ltb p 0x10000)) [
      | inl three ↦ record {
        lead = 0xe0 + p / 4096;
        tail = (0x80 + p / 64 % 64) ∷ (0x80 + p % 64) ∷ [];
        split = three_bytes p (ground (arith, more')) (ground (arith, three));
        leads = ground arith;
        continues = ground arith;
      }
      | inr four ↦ record {
        lead = 0xf0 + p / 262144;
        tail = (0x80 + p / 4096 % 64) ∷ (0x80 + p / 64 % 64) ∷ (0x80 + p % 64) ∷ [];
        split = four_bytes p (ground (arith, four));
        leads = ground arith;
        continues = ground arith;
      }
    ]
  ]
]

byte_at-append : (xs rest : List ℕ) (i : ℕ) → byte_at (xs ++ rest) (length xs + i) ≡ byte_at rest i
byte_at-append [] rest i = ground arith
byte_at-append (x ∷ xs) rest i = ground (arith, byte_at-append xs rest i)

-- Past the bytes `xs` the walk goes on in the rest, and stops where the rest begins.
walk_back-append :
    (x : ℕ) (xs rest : List ℕ) (m : ℕ)
    → is_continuation (byte_at rest 0) ≡ false
    → walk_back ((x ∷ xs) ++ rest) (suc (length xs + m)) ≡ suc (length xs + walk_back rest m)
unfolding walk_back
walk_back-append x xs rest zero h = rw (byte_at-append xs rest 0, h) refl
walk_back-append x xs rest (suc m) h =
    let e : length xs + suc m ≡ suc (length xs + m) = omega arith in
    elim (Bool-cases (is_continuation (byte_at rest (suc m)))) [
      | inl more ↦ rw (byte_at-append xs rest (suc m), more) (rw e (walk_back-append x xs rest m h))
      | inr stops ↦ rw (byte_at-append xs rest (suc m), stops) refl
    ]

byte_at-continues :
    (tail rest : List ℕ) (i : ℕ)
    → every is_continuation tail ≡ true
    → i < length tail
    → is_continuation (byte_at (tail ++ rest) i) ≡ true
byte_at-continues [] rest i h lt = absurd (omega (arith, lt))
byte_at-continues (b ∷ tail) rest zero h lt = ground arith
byte_at-continues (b ∷ tail) rest (suc i) h lt =
    byte_at-continues tail rest i (ground arith) (omega arith)

-- Inside the bytes of a code point the walk goes back to its first one.
walk_back-inside :
    (lead : ℕ) (tail rest : List ℕ) (n : ℕ)
    → every is_continuation tail ≡ true
    → n ≤ length tail
    → walk_back (lead ∷ (tail ++ rest)) n ≡ 0
unfolding walk_back
walk_back-inside lead tail rest zero h le = refl
walk_back-inside lead tail rest (suc n) h le =
    rw (byte_at-continues tail rest n h (omega arith))
      (walk_back-inside lead tail rest n h (omega arith))

take-append : (xs rest : List ℕ) (w : ℕ) → take (length xs + w) (xs ++ rest) ≡ xs ++ take w rest
take-append [] rest w = ground arith
take-append (x ∷ xs) rest w =
    let e : suc (length xs) + w ≡ suc (length xs + w) = omega arith in
    rw e (ap (λ t. x ∷ t) (take-append xs rest w))

first_leads : (ps : List ℕ) → All IsScalar ps → is_continuation (byte_at (encode_all ps) 0) ≡ false
unfolding encode_all
first_leads [] h = refl
first_leads (p ∷ ps) h = let s = encode-HasShape p h.0.1 in rw s.split s.leads

-- A cut of the bytes of code points at which the walk back ends is a cut between code points.
record IsCut (ps : List ℕ) (n : ℕ) : Type 0 where
  kept : ℕ
  bytes : take (walk_back (encode_all ps) n) (encode_all ps) ≡ encode_all (take kept ps)
  within : walk_back (encode_all ps) n ≤ n
  near : n ≤ walk_back (encode_all ps) n + 3

module _ (p lead : ℕ) (ps tail : List ℕ) (split : encode p ≡ lead ∷ tail) where
  bytes_of : (qs : List ℕ) → encode_all (p ∷ qs) ≡ lead ∷ (tail ++ encode_all qs)
  unfolding encode_all
  bytes_of qs = rw split refl

  IsCut-inside :
      (n : ℕ)
      → every is_continuation tail ≡ true
      → length tail ≤ 3
      → n ≤ length tail
      → IsCut (p ∷ ps) n
  IsCut-inside n h short le =
      let zero' : walk_back (encode_all (p ∷ ps)) n ≡ 0 =
        rw (bytes_of ps) (walk_back-inside lead tail (encode_all ps) n h le) in
      record {
        kept = 0;
        bytes = rw zero' (unfold encode_all in refl);
        within = omega (arith, zero');
        near = omega (arith, zero');
      }

  IsCut-past :
      (m : ℕ)
      → is_continuation (byte_at (encode_all ps) 0) ≡ false
      → IsCut ps m
      → IsCut (p ∷ ps) (suc (length tail + m))
  IsCut-past m leads c =
      let w = walk_back (encode_all ps) m in
      let on : walk_back (encode_all (p ∷ ps)) (suc (length tail + m)) ≡ suc (length tail + w) =
        rw (bytes_of ps) (walk_back-append lead tail (encode_all ps) m leads) in
      record {
        kept = suc c.kept;
        bytes = rw on (
            rw (bytes_of ps) (
              ap (λ t. lead ∷ t) (take-append tail (encode_all ps) w)
              ∙ rw c.bytes (sym (bytes_of (take c.kept ps)))));
        within = omega (arith, on, c.within);
        near = omega (arith, on, c.near);
      }

walk_back-IsCut : (ps : List ℕ) (n : ℕ) → All IsScalar ps → n ≤ length (encode_all ps) → IsCut ps n
walk_back-IsCut [] zero h le = record {
  kept = 0;
  bytes = unfold encode_all walk_back in refl;
  within = unfold walk_back in omega arith;
  near = omega arith;
}
walk_back-IsCut [] (suc n) h le = absurd (unfold encode_all in omega (arith, le))
walk_back-IsCut (p ∷ ps) n h le =
    let s = encode-HasShape p h.0.1 in
    let all = bytes_of p s.lead ps s.tail s.split ps in
    let short : length s.tail ≤ 3 = omega (arith, (encode_bounds p).1, ap length s.split) in
    elim (Bool-cases (leb n (length s.tail))) [
      | inl inside ↦
          IsCut-inside p s.lead ps s.tail s.split n s.continues short
            (leb→le n (length s.tail) inside)
      | inr past ↦
          let m : ℕ = n - suc (length s.tail) in
          let larger : length s.tail < n = ground (arith, past) in
          let fits : m ≤ length (encode_all ps) =
            omega (arith, le, larger, ap length all, length-append {0} s.tail (encode_all ps)) in
          let e : suc (length s.tail + m) ≡ n = omega (arith, larger) in
          subst (λ k. IsCut (p ∷ ps) k) e
            (IsCut-past p s.lead ps s.tail s.split m (first_leads ps h.1)
              (walk_back-IsCut ps m h.1 fits))
    ]

take-IsScalar : (k : ℕ) (ps : List ℕ) → All IsScalar ps → All IsScalar (take k ps)
take-IsScalar zero ps h = tt
take-IsScalar (suc k) [] h = tt
take-IsScalar (suc k) (p ∷ ps) h = (h.0, take-IsScalar k ps h.1)

-- The bytes of a text that is read back from the bytes of code points.
byte_length-decoded :
    (ps : List ℕ) → All IsScalar ps → utf8 (units (decode_points (encode_all ps))) ≡ encode_all ps
unfolding utf8
byte_length-decoded ps h = rw (decode_points-encode_all ps h, points-units ps h) refl

points-decoded :
    (ps : List ℕ) → All IsScalar ps → points (units (decode_points (encode_all ps))) ≡ ps
points-decoded ps h = rw (decode_points-encode_all ps h) (points-units ps h)

length-take_all : (n : ℕ) (xs : List ℕ) → n ≤ length xs → length (take n xs) ≡ n
length-take_all zero xs h = refl
length-take_all (suc n) [] h = absurd (omega (arith, h))
length-take_all (suc n) (x ∷ xs) h = omega (arith, length-take_all n xs (omega arith))

-- What the slice of a text keeps: whole code points from its front, no more bytes than granted, and
-- all of the text or as many bytes as granted but three.
pub record IsSlice (s : Text) (max_bytes : ℕ) (fitted : Text) : Type 0 where
  pub kept : ℕ
  pub front : points fitted ≡ take kept (points s)
  pub fits : byte_length fitted ≤ max_bytes
  pub filled : (fitted ≡ s) ⊎ (max_bytes ≤ byte_length fitted + 3)

IsSlice-IsCut :
    (s : Text) (max_bytes : ℕ)
    → All (λ c. c < 0x10000) s
    → max_bytes < byte_length s
    → IsSlice s max_bytes (units (decode_points (take (walk_back (utf8 s) max_bytes) (utf8 s))))
unfolding utf8
IsSlice-IsCut s max_bytes h over =
    let ps = points s in
    let scalars = points-IsScalar s h in
    let c = walk_back-IsCut ps max_bytes scalars (omega (arith, over)) in
    let kept_scalars = take-IsScalar c.kept ps scalars in
    let w = walk_back (encode_all ps) max_bytes in
    let size : length (encode_all (take c.kept ps)) ≡ w =
      ap length (sym c.bytes) ∙ length-take_all w (encode_all ps) (omega (arith, c.within, over)) in
    let bytes : byte_length (units (decode_points (encode_all (take c.kept ps)))) ≡ w =
      ap length (byte_length-decoded (take c.kept ps) kept_scalars) ∙ size in
    rw c.bytes (record {
      kept = c.kept;
      front = points-decoded (take c.kept ps) kept_scalars;
      fits = omega (arith, bytes, c.within);
      filled = inr (omega (arith, bytes, c.near));
    })

take-all : (ps : List ℕ) → take (length ps) ps ≡ ps
take-all [] = refl
take-all (p ∷ ps) = ap (λ t. p ∷ t) (take-all ps)

-- The prefix of a text of sixteen-bit units: whole code points from its front, at most as many
-- bytes as granted, and either the whole text or no more than three bytes fewer.
pub slice_utf8-IsSlice :
    (s : Text) (max_bytes : ℕ)
    → All (λ c. c < 0x10000) s
    → IsSlice s max_bytes (slice_utf8 s max_bytes)
unfolding slice_utf8
slice_utf8-IsSlice s max_bytes h = elim (Bool-cases (leb (byte_length s) max_bytes)) [
  | inl fits ↦ rw fits (record {
    kept = length (points s);
    front = sym (take-all (points s));
    fits = leb→le (byte_length s) max_bytes fits;
    filled = inl refl;
  })
  | inr over ↦ rw over (IsSlice-IsCut s max_bytes h (ground (arith, over)))
]
