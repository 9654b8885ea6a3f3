-- ===== src/Sse/Streamed.antt =====
-- packages/sdk/src/sse.ts: a stream that arrives in parts.
use openhermit.Prelude.{
  ℕ, Text, Bool, true, false, ◌&&◌, ◌||◌, not, List, [], ◌∷◌, ◌++◌, ◌==◌, Bool-cases, ◌≡◌, ◌≢◌, ◌⊎◌,
  refl, sym, ap, inl, inr, arith,
}
use mathlib.Core.List.{map-append}
use openhermit.Sse.{
  normalize, Segments, split_segments, extend, close, leads, newline, carriage_return,
  parse_sse_frames, SseBatch, read_segment,
}

abbrev pub is_nil : Text → Bool
is_nil [] = true
is_nil (c ∷ t) = false

-- A carriage return stands before a newline or at the end.
abbrev pub is_crlf : Text → Bool
is_crlf [] = true
is_crlf (c ∷ t) = (not (c == carriage_return) || leads newline t || is_nil t) && is_crlf t

-- A carriage return stands at the end only.
abbrev is_late : Text → Bool
is_late [] = true
is_late (c ∷ t) = (not (c == carriage_return) || is_nil t) && is_late t

normalize-is_late : (a : Text) → is_crlf a ≡ true → is_late (normalize a) ≡ true
unfolding normalize
normalize-is_late [] h = refl
normalize-is_late (c ∷ []) h = ground arith
normalize-is_late (c ∷ d ∷ t) h = ground (arith, normalize-is_late (d ∷ t))

normalize-append :
    (a b : Text) → is_crlf a ≡ true → normalize (normalize a ++ b) ≡ normalize (a ++ b)
unfolding normalize
normalize-append [] b h = refl
normalize-append (c ∷ []) b h = ground arith
normalize-append (c ∷ d ∷ t) b h = ground (arith, normalize-append (d ∷ t) b)

-- The segments of a text and of what follows its remainder.
abbrev after : Segments → Segments → Segments
after p q = record { complete = p.complete ++ q.complete; remainder = q.remainder }

abbrev breaks : ℕ → ℕ → Bool
breaks c d = c == newline && d == newline

split_segments-blank :
    (c d : ℕ) (t : Text) → breaks c d ≡ true → split_segments (c ∷ d ∷ t) ≡ close (split_segments t)
unfolding split_segments
split_segments-blank c d t h = ground arith

split_segments-plain :
    (c d : ℕ) (t : Text)
    → breaks c d ≡ false
    → split_segments (c ∷ d ∷ t) ≡ extend c (split_segments (d ∷ t))
unfolding split_segments
split_segments-plain c d t h = ground arith

normalize-plain :
    (c : ℕ) (t : Text) → (c == carriage_return) ≡ false → normalize (c ∷ t) ≡ c ∷ normalize t
unfolding normalize
normalize-plain c t h = ground arith

-- A list is empty or has a first element.
List-cases : (xs : List Text) → (xs ≡ []) ⊎ ((u : Text) × ((us : List Text) × (xs ≡ u ∷ us)))
List-cases [] = inl refl
List-cases (u ∷ us) = inr (u, (us, refl))

extend-none :
    (c : ℕ) (s : Segments)
    → s.complete ≡ []
    → extend c s ≡ record { complete = []; remainder = c ∷ s.remainder }
extend-none c s h = rw h refl

extend-some :
    (c : ℕ) (s : Segments) (u : Text) (us : List Text)
    → s.complete ≡ u ∷ us
    → extend c s ≡ record { complete = (c ∷ u) ∷ us; remainder = s.remainder }
extend-some c s u us h = rw h refl

blank-not_none :
    (c d : ℕ) (t : Text) → breaks c d ≡ true → (split_segments (c ∷ d ∷ t)).complete ≢ []
blank-not_none c d t blank h = cc (h, ap (λ s. s.complete) (split_segments-blank c d t blank))

plain-not_none :
    (c d : ℕ) (t u : Text) (us : List Text)
    → breaks c d ≡ false
    → (split_segments (d ∷ t)).complete ≡ u ∷ us
    → (split_segments (c ∷ d ∷ t)).complete ≢ []
plain-not_none c d t u us plain e h = cc (
  h,
  ap (λ s. s.complete) (split_segments-plain c d t plain),
  ap (λ s. s.complete) (extend-some c (split_segments (d ∷ t)) u us e),
)

plain-remainder :
    (c d : ℕ) (t : Text)
    → breaks c d ≡ false
    → (split_segments (d ∷ t)).complete ≡ []
    → (split_segments (d ∷ t)).remainder ≡ d ∷ t
    → (split_segments (c ∷ d ∷ t)).remainder ≡ c ∷ d ∷ t
plain-remainder c d t plain e h =
    rw (split_segments-plain c d t plain, extend-none c (split_segments (d ∷ t)) e, h) refl

-- With no complete segment everything remains.
split_segments-none :
    (x : Text) → (split_segments x).complete ≡ [] → (split_segments x).remainder ≡ x
unfolding split_segments
split_segments-none [] h = refl
split_segments-none (c ∷ []) h = refl
split_segments-none (c ∷ d ∷ t) h = elim (Bool-cases (breaks c d)) [
  | inl blank ↦ absurd (blank-not_none c d t blank h)
  | inr plain ↦ elim (List-cases (split_segments (d ∷ t)).complete) [
    | inl e ↦ plain-remainder c d t plain e (split_segments-none (d ∷ t) e)
    | inr (u, (us, e)) ↦ absurd (plain-not_none c d t u us plain e h)
  ]
]

-- A carriage return at the end completes no segment.
is_late-plain :
    (d : ℕ) (t u : Text) (us : List Text)
    → is_late (d ∷ t) ≡ true
    → (split_segments (d ∷ t)).complete ≡ u ∷ us
    → (d == carriage_return) ≡ false
unfolding split_segments
is_late-plain d [] u us h e = ground arith
is_late-plain d (f ∷ t) u us h e = ground arith

append-blank :
    (c d : ℕ) (t b : Text)
    → breaks c d ≡ true
    → split_segments (normalize (t ++ b))
      ≡ after (split_segments t) (split_segments (normalize ((split_segments t).remainder ++ b)))
    → split_segments (normalize ((c ∷ d ∷ t) ++ b))
      ≡ after
          (split_segments (c ∷ d ∷ t))
          (split_segments (normalize ((split_segments (c ∷ d ∷ t)).remainder ++ b)))
append-blank c d t b blank h =
    rw
      (
        normalize-plain c (d ∷ (t ++ b)) (ground arith),
        normalize-plain d (t ++ b) (ground arith),
        split_segments-blank c d (normalize (t ++ b)) blank,
        split_segments-blank c d t blank,
        h,
      )
      refl

append-none :
    (c d : ℕ) (t b : Text)
    → breaks c d ≡ false
    → (split_segments (d ∷ t)).complete ≡ []
    → split_segments (normalize ((c ∷ d ∷ t) ++ b))
      ≡ after
          (split_segments (c ∷ d ∷ t))
          (split_segments (normalize ((split_segments (c ∷ d ∷ t)).remainder ++ b)))
append-none c d t b plain h =
    rw
      (
        split_segments-plain c d t plain,
        extend-none c (split_segments (d ∷ t)) h,
        split_segments-none (d ∷ t) h,
      )
      refl

append-some :
    (c d : ℕ) (t b u : Text) (us : List Text)
    → is_late (c ∷ d ∷ t) ≡ true
    → breaks c d ≡ false
    → (split_segments (d ∷ t)).complete ≡ u ∷ us
    → split_segments (normalize ((d ∷ t) ++ b))
      ≡ after
          (split_segments (d ∷ t))
          (split_segments (normalize ((split_segments (d ∷ t)).remainder ++ b)))
    → split_segments (normalize ((c ∷ d ∷ t) ++ b))
      ≡ after
          (split_segments (c ∷ d ∷ t))
          (split_segments (normalize ((split_segments (c ∷ d ∷ t)).remainder ++ b)))
append-some c d t b u us late plain h ih =
    rw
      (
        normalize-plain c (d ∷ (t ++ b)) (ground arith),
        normalize-plain d (t ++ b) (is_late-plain d t u us (ground arith) h),
        split_segments-plain c d (normalize (t ++ b)) plain,
        sym (normalize-plain d (t ++ b) (is_late-plain d t u us (ground arith) h)),
        ih,
        split_segments-plain c d t plain,
      )
      (rw (h) refl)

split_segments-append :
    (x b : Text)
    → is_late x ≡ true
    → split_segments (normalize (x ++ b))
      ≡ after (split_segments x) (split_segments (normalize ((split_segments x).remainder ++ b)))
unfolding split_segments
split_segments-append [] b h = refl
split_segments-append (c ∷ []) b h = refl
split_segments-append (c ∷ d ∷ t) b h = elim (Bool-cases (breaks c d)) [
  | inl blank ↦ append-blank c d t b blank (split_segments-append t b (ground arith))
  | inr plain ↦ elim (List-cases (split_segments (d ∷ t)).complete) [
    | inl e ↦ append-none c d t b plain e
    | inr (u, (us, e)) ↦
        append-some c d t b u us h plain e (split_segments-append (d ∷ t) b (ground arith))
  ]
]

-- The frames of two reads, the first's before the second's, and what remains of the second.
abbrev pub then_batch : SseBatch → SseBatch → SseBatch
then_batch p q = record { frames = p.frames ++ q.frames; remainder = q.remainder }

-- Where every carriage return of the first part stands before a newline or ends it, the frames of
-- the stream so far are those of the first part and then those of its remainder with the next part,
-- and the same text remains.
pub parse_sse_frames-append :
    (a b : Text)
    → is_crlf a ≡ true
    → parse_sse_frames (a ++ b)
      ≡ then_batch (parse_sse_frames a) (parse_sse_frames ((parse_sse_frames a).remainder ++ b))
parse_sse_frames-append a b h =
    rw (sym (normalize-append a b h), split_segments-append (normalize a) b (normalize-is_late a h))
      (rw
        (map-append read_segment (split_segments (normalize a)).complete
          (split_segments (normalize ((split_segments (normalize a)).remainder ++ b))).complete)
        refl)
