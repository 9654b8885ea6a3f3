-- ===== src/Secrets/Templates.antt =====
-- Placeholders of apps/agent/src/core/security.ts in a text that is given as its parts.
use openhermit.Prelude.{
  ℕ, zero, suc, ◌+◌, Text, length, starts_with, ◌==◌, Bool, true, false, not, every, lookup,
  text_keys, Option, none, some, List, [], ◌∷◌, ◌++◌, ◌≡◌, refl, ap, ◌∙◌, arith,
}
use mathlib.Core.List.{append_assoc}
use openhermit.Secrets.{
  is_word, word, after_word, opening, closing, placeholder_name, placeholder, replacement,
  interpolate_text,
}

word-append : (w s : Text) → every is_word w ≡ true → word (w ++ (closing ++ s)) ≡ w
unfolding word
word-append [] s h = refl
word-append (c ∷ w) s h = ground (arith, word-append w s)

after_word-append :
    (w s : Text) → every is_word w ≡ true → after_word (w ++ (closing ++ s)) ≡ closing ++ s
unfolding after_word
after_word-append [] s h = refl
after_word-append (c ∷ w) s h = ground (arith, after_word-append w s)

-- The text from a placeholder on.
abbrev from_opening : Text → Text → Text
from_opening w s = opening ++ (w ++ (closing ++ s))

placeholder_name-placeholder :
    (c : ℕ) (w s : Text)
    → every is_word (c ∷ w) ≡ true
    → placeholder_name (from_opening (c ∷ w) s) ≡ some (c ∷ w)
unfolding placeholder_name starts_with
placeholder_name-placeholder c w s h =
    rw (word-append (c ∷ w) s h, after_word-append (c ∷ w) s h) refl

module _ (inherited : Text → Option Text) (secrets : List (Text × Text)) where
  -- The name and the closing braces are passed over.
  passes_over :
      (n : ℕ) (w s : Text)
      → n ≡ length w + 2
      → interpolate_text inherited secrets n (w ++ (closing ++ s))
        ≡ interpolate_text inherited secrets 0 s
  unfolding interpolate_text
  passes_over zero w s h = absurd (omega (arith, h))
  passes_over (suc zero) [] s h = absurd (omega (arith, h))
  passes_over (suc (suc zero)) [] s h = refl
  passes_over (suc (suc (suc n))) [] s h = absurd (omega (arith, h))
  passes_over (suc n) (c ∷ w) s h = passes_over n w s (omega (arith, h))

  interpolate_text-match :
      (d : ℕ) (t name : Text)
      → placeholder_name (d ∷ t) ≡ some name
      → interpolate_text inherited secrets 0 (d ∷ t)
        ≡ replacement inherited secrets name
          ++ interpolate_text inherited secrets (length name + 4) t
  unfolding interpolate_text
  interpolate_text-match d t name h = rw (interpolate_text, h) refl

  after_opening :
      (n : ℕ) (w s : Text)
      → n ≡ length w + 4
      → interpolate_text inherited secrets n (123 ∷ 123 ∷ (w ++ (closing ++ s)))
        ≡ interpolate_text inherited secrets 0 s
  unfolding interpolate_text
  after_opening zero w s h = absurd (omega (arith, h))
  after_opening (suc zero) w s h = absurd (omega (arith, h))
  after_opening (suc (suc n)) w s h = passes_over n w s (omega (arith, h))

  interpolate_text-placeholder :
      (c : ℕ) (w s : Text)
      → every is_word (c ∷ w) ≡ true
      → interpolate_text inherited secrets 0 (from_opening (c ∷ w) s)
        ≡ replacement inherited secrets (c ∷ w) ++ interpolate_text inherited secrets 0 s
  interpolate_text-placeholder c w s h =
      interpolate_text-match 36 (123 ∷ 123 ∷ ((c ∷ w) ++ (closing ++ s))) (c ∷ w)
        (placeholder_name-placeholder c w s h)
      ∙ ap (λ r. replacement inherited secrets (c ∷ w) ++ r)
          (after_opening (length (c ∷ w) + 4) (c ∷ w) s refl)

  interpolate_text-plain :
      (c : ℕ) (s : Text)
      → (c == 36) ≡ false
      → interpolate_text inherited secrets 0 (c ∷ s) ≡ c ∷ interpolate_text inherited secrets 0 s
  unfolding interpolate_text placeholder_name starts_with
  interpolate_text-plain c s h = ground arith

-- A part of a template: a character that is no dollar sign, or a placeholder.
pub data Part : Type 0 where
  plain : ℕ → Part
  secret : ℕ → Text → Part

abbrev is_valid : Part → Bool
is_valid (plain c) = not (c == 36)
is_valid (secret c w) = every is_word (c ∷ w)

abbrev text_of : Part → Text
text_of (plain c) = c ∷ []
text_of (secret c w) = placeholder (c ∷ w)

-- The text that a list of parts stands for.
unfoldable pub template : List Part → Text
template [] = []
template (p ∷ ps) = text_of p ++ template ps

module _ (inherited : Text → Option Text) (secrets : List (Text × Text)) where
  -- What stands for a name: its secret, else what the object inherits under it, else the
  -- placeholder as it is.
  abbrev value_of : Option Text → Option Text → Text → Text
  value_of (some v) inherits name = v
  value_of none (some v) name = v
  value_of none none name = placeholder name

  abbrev filled_part : Part → Text
  filled_part (plain c) = c ∷ []
  filled_part (secret c w) = value_of (lookup text_keys (c ∷ w) secrets) (inherited (c ∷ w)) (c ∷ w)

  replacement-value_of :
      (o i : Option Text) (name : Text)
      → lookup text_keys name secrets ≡ o
      → inherited name ≡ i
      → replacement inherited secrets name ≡ value_of o i name
  replacement-value_of none none name e f = rw (e, f) refl
  replacement-value_of none (some v) name e f = rw (e, f) refl
  replacement-value_of (some v) i name e f = rw e refl

  -- The same with every placeholder replaced.
  unfoldable pub filled : List Part → Text
  filled [] = []
  filled (p ∷ ps) = filled_part p ++ filled ps

  placeholder-append : (w s : Text) → placeholder w ++ s ≡ from_opening w s
  placeholder-append w s = ap (λ r. opening ++ r) (append_assoc w closing s)

  -- In a text made of characters other than the dollar sign and of placeholders whose names are
  -- words that are not empty, the characters stay and every placeholder is replaced by the secret of
  -- its name; where there is none, by what a plain object inherits under the name, so that an unknown
  -- name is not always left; and where there is neither, it stays. What replaces a placeholder is not
  -- read for placeholders again.
  pub interpolate_text-template :
      (ps : List Part)
      → every is_valid ps ≡ true
      → interpolate_text inherited secrets 0 (template ps) ≡ filled ps
  unfolding template filled interpolate_text
  interpolate_text-template [] h = refl
  interpolate_text-template (plain c ∷ ps) h =
      interpolate_text-plain inherited secrets c (template ps) (ground arith)
      ∙ ap (λ r. c ∷ r) (interpolate_text-template ps (ground arith))
  interpolate_text-template (secret c w ∷ ps) h =
      ap (interpolate_text inherited secrets 0) (placeholder-append (c ∷ w) (template ps))
      ∙ interpolate_text-placeholder inherited secrets c w (template ps) (ground arith)
      ∙ ap (λ r. replacement inherited secrets (c ∷ w) ++ r)
          (interpolate_text-template ps (ground arith))
      ∙ ap (λ r. r ++ filled ps)
          (replacement-value_of (lookup text_keys (c ∷ w) secrets) (inherited (c ∷ w)) (c ∷ w) refl
            refl)
