-- ===== src/Output/Bounded.antt =====
-- What is kept of all chunks that were appended.
use mathlib.Core.List.{append_assoc, append-nil}
use openhermit.Prelude.{
  ℕ, ◌+◌, ◌-◌, ◌≤◌, ◌<◌, Text, utf8-nil, All, leb, leb→le, ltb, true, false, List, [], ◌∷◌, ◌++◌,
  Bool-cases, ◌≡◌, ◌⊎◌, inl, inr, refl, ap, arith,
}
use openhermit.Output.{BoundedString, empty_string, append, byte_length, slice_utf8, join_parts}
use openhermit.Output.Slice.{IsSlice, slice_utf8-IsSlice}
use openhermit.Output.Halves.{utf8-append}

abbrev IsUnits : Text → Type 0
IsUnits s = All (λ c. c < 0x10000) s

unfoldable pub append_all : ℕ → BoundedString → List Text → BoundedString
append_all max_bytes s [] = s
append_all max_bytes s (c ∷ chunks) = append_all max_bytes (append max_bytes c s) chunks

unfoldable pub total_bytes : List Text → ℕ
total_bytes [] = 0
total_bytes (c ∷ chunks) = byte_length c + total_bytes chunks

total_bytes-append : (xs ys : List Text) → total_bytes (xs ++ ys) ≡ total_bytes xs + total_bytes ys
unfolding total_bytes
total_bytes-append [] ys = omega arith
total_bytes-append (x ∷ xs) ys = omega (arith, total_bytes-append xs ys)

-- The parts after a cut at the chunk `c`: the chunks before it, and a slice of it if one was taken.
abbrev CutAt : List Text → Text → List Text → Type 0
CutAt before c parts =
    (parts ≡ before)
    ⊎ ((room : ℕ) × (fitted : Text) × IsSlice c room fitted × (parts ≡ before ++ fitted ∷ []))

-- Nothing was cut, or the chunks were cut at one of them and nothing after it was kept.
abbrev pub IsKept : List Text → BoundedString → Type 0
IsKept chunks s =
    ((s.truncated ≡ false) × (s.parts ≡ chunks) × ◌≡◌ {A = ℕ} s.dropped_bytes 0)
    ⊎ ((s.truncated ≡ true)
        × ((before : List Text) × (c : Text) × (rest : List Text) × (chunks ≡ before ++ c ∷ rest)
            × CutAt before c s.parts))

pub record IsBounded (max_bytes : ℕ) (chunks : List Text) (s : BoundedString) : Type 0 where
  pub fits : s.bytes ≤ max_bytes
  pub counted : s.bytes + s.dropped_bytes ≡ total_bytes chunks
  pub sized : s.bytes ≡ total_bytes s.parts
  pub keeps : IsKept chunks s

IsKept-dropped :
    (chunks : List Text) (c : Text) (s : BoundedString) (n : ℕ)
    → s.truncated ≡ true
    → IsKept chunks s
    → IsKept (chunks ++ c ∷ []) (record s { dropped_bytes = n; truncated = true })
IsKept-dropped chunks c s n cut (inl (whole, same, none_dropped)) = absurd (cc (cut, whole))
IsKept-dropped chunks c s n cut (inr (t, (before, d, rest, e, at))) =
    inr (refl, (before, d, rest ++ c ∷ [], rw e (append_assoc before (d ∷ rest) (c ∷ [])), at))

kept_whole :
    (chunks : List Text) (c : Text) (s : BoundedString)
    → s.truncated ≡ false
    → IsKept chunks s
    → (s.parts ≡ chunks) × ◌≡◌ {A = ℕ} s.dropped_bytes 0
kept_whole chunks c s whole (inl (t, same, none_dropped)) = (same, none_dropped)
kept_whole chunks c s whole (inr (t, rest)) = absurd (cc (t, whole))

module _ (max_bytes : ℕ) (chunks : List Text) (c : Text) (s : BoundedString)
    (h : IsBounded max_bytes chunks s) where
  total_next : total_bytes (chunks ++ c ∷ []) ≡ total_bytes chunks + byte_length c
  unfolding total_bytes
  total_next = omega (arith, total_bytes-append chunks (c ∷ []))

  -- After the cut a chunk is only counted.
  append_dropped :
      s.truncated ≡ true → IsBounded max_bytes (chunks ++ c ∷ []) (append max_bytes c s)
  unfolding append
  append_dropped cut = rw cut (record {
    fits = h.fits;
    counted = omega (arith, h.counted, total_next);
    sized = h.sized;
    keeps = IsKept-dropped chunks c s (s.dropped_bytes + byte_length c) cut h.keeps;
  })

  append_whole :
      s.truncated ≡ false
      → leb (s.bytes + byte_length c) max_bytes ≡ true
      → IsBounded max_bytes (chunks ++ c ∷ []) (append max_bytes c s)
  unfolding append total_bytes
  append_whole whole room =
      rw (whole, room)
        (record {
          fits = leb→le (s.bytes + byte_length c) max_bytes room;
          counted = omega (arith, h.counted, total_next);
          sized = omega (arith, h.sized, total_bytes-append s.parts (c ∷ []));
          keeps =
              let (same, none_dropped) = kept_whole chunks c s whole h.keeps in
              inl (refl, ap (λ x. x ++ c ∷ []) same, none_dropped);
        })

  cut_fitted :
      (fitted : Text)
      → IsSlice c (max_bytes - s.bytes) fitted
      → s.truncated ≡ false
      → max_bytes < s.bytes + byte_length c
      → s.bytes < max_bytes
      → IsBounded max_bytes (chunks ++ c ∷ []) (record {
        parts = s.parts ++ fitted ∷ [];
        bytes = s.bytes + byte_length fitted;
        dropped_bytes = s.dropped_bytes + (byte_length c - byte_length fitted);
        truncated = true;
      })
  unfolding total_bytes
  cut_fitted fitted slice whole over room =
      let (same, none_dropped) = kept_whole chunks c s whole h.keeps in
      record {
        fits = omega (arith, slice.fits, room);
        counted = omega (arith, h.counted, total_next, slice.fits, over, room);
        sized = omega (arith, h.sized, total_bytes-append s.parts (fitted ∷ []));
        keeps = inr (
          refl,
          (
            chunks,
            c,
            [],
            refl,
            inr (max_bytes - s.bytes, fitted, slice, ap (λ x. x ++ fitted ∷ []) same),
          ),
        );
      }

  cut_nothing :
      s.truncated ≡ false
      → IsBounded max_bytes
          (chunks ++ c ∷ [])
          (record s { dropped_bytes = s.dropped_bytes + byte_length c; truncated = true })
  cut_nothing whole =
      let (same, none_dropped) = kept_whole chunks c s whole h.keeps in
      record {
        fits = h.fits;
        counted = omega (arith, h.counted, total_next);
        sized = h.sized;
        keeps = inr (refl, (chunks, c, [], refl, inl same));
      }

  append_cut :
      IsUnits c
      → s.truncated ≡ false
      → leb (s.bytes + byte_length c) max_bytes ≡ false
      → IsBounded max_bytes (chunks ++ c ∷ []) (append max_bytes c s)
  unfolding append
  append_cut is_units whole over = elim (Bool-cases (ltb s.bytes max_bytes)) [
    | inl room ↦
        rw (whole, over, room)
          (cut_fitted (slice_utf8 c (max_bytes - s.bytes))
            (slice_utf8-IsSlice c (max_bytes - s.bytes) is_units) whole (ground (arith, over))
            (ground (arith, room)))
    | inr full ↦ rw (whole, over, full) (cut_nothing whole)
  ]

  append-IsBounded : IsUnits c → IsBounded max_bytes (chunks ++ c ∷ []) (append max_bytes c s)
  append-IsBounded is_units = elim (Bool-cases s.truncated) [
    | inl cut ↦ append_dropped cut
    | inr whole ↦ elim (Bool-cases (leb (s.bytes + byte_length c) max_bytes)) [
      | inl room ↦ append_whole whole room
      | inr over ↦ append_cut is_units whole over
    ]
  ]

append_all-IsBounded_from :
    (max_bytes : ℕ) (seen chunks : List Text) (s : BoundedString)
    → All IsUnits chunks
    → IsBounded max_bytes seen s
    → IsBounded max_bytes (seen ++ chunks) (append_all max_bytes s chunks)
unfolding append_all
append_all-IsBounded_from max_bytes seen [] s u h = rw (append-nil seen) h
append_all-IsBounded_from max_bytes seen (c ∷ chunks) s u h =
    rw (← append_assoc seen (c ∷ []) chunks) (
      append_all-IsBounded_from max_bytes (seen ++ c ∷ []) chunks (append max_bytes c s) u.1
        (append-IsBounded max_bytes seen c s h u.0))

length-join_parts : (parts : List Text) → byte_length (join_parts parts) ≤ total_bytes parts
unfolding join_parts total_bytes
length-join_parts [] = omega (arith, utf8-nil)
length-join_parts (p ∷ parts) =
    omega (arith, utf8-append p (join_parts parts), length-join_parts parts)

empty_string-IsBounded : (max_bytes : ℕ) → IsBounded max_bytes [] empty_string
empty_string-IsBounded max_bytes = record {
  fits = omega arith;
  counted = unfold total_bytes in refl;
  sized = unfold total_bytes in refl;
  keeps = inl (refl, refl, refl);
}

-- After any chunks of sixteen-bit units: the text that is kept has at most as many bytes as granted;
-- the bytes that are kept and those that are counted as dropped are the bytes of all chunks; and the
-- chunks were kept whole, or up to one of them, of which at most a slice was kept.
pub append_all-IsBounded :
    (max_bytes : ℕ) (chunks : List Text)
    → All IsUnits chunks
    → IsBounded max_bytes chunks (append_all max_bytes empty_string chunks)
      × (byte_length (join_parts (append_all max_bytes empty_string chunks).parts) ≤ max_bytes)
append_all-IsBounded max_bytes chunks u =
    let b =
      append_all-IsBounded_from max_bytes [] chunks empty_string u
        (empty_string-IsBounded max_bytes) in
    (
      b,
      omega (
        arith,
        length-join_parts (append_all max_bytes empty_string chunks).parts,
        b.sized,
        b.fits,
      ),
    )
