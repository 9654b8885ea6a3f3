-- ===== src/Env/Lines.antt =====
-- A line `NAME="value"` as packages/shared/src/env.ts reads it.
use openhermit.Prelude.{
  ℕ, suc, ◌+◌, Text, codes, starts_with, ends_with-append, drop_last-append, ◌==◌, every, not, Bool,
  true, false, ◌&&◌, some, [], ◌∷◌, ◌++◌, length, take, drop, Bool-cases, ◌≡◌, inl, inr, refl, sym,
  ap, ◌∙◌, arith, if◌then◌else◌,
}
use mathlib.Core.List.{append_assoc}
use openhermit.Policy.Commands.{is_space, trim, trim_start, trim_end}
use openhermit.Sse.{normalize, split_lines}
use openhermit.Env.{Vars, index_of, unquote, unescape, entry, at_equals, parse_trimmed}

-- A newline is written as a backslash and an n.
unfoldable pub escape : Text → Text
escape [] = []
escape (c ∷ s) = let rest = escape s in if c == 10 then 92 ∷ 110 ∷ rest else c ∷ rest

abbrev pub quoted : Text → Text
quoted v = 34 ∷ (escape v ++ 34 ∷ [])

abbrev pub line_of : Text → Text → Text
line_of key value = key ++ (61 ∷ quoted value)

-- The file that has a line for each variable.
unfoldable pub render : Vars → Text
render [] = []
render ((key, value) ∷ vars) = line_of key value ++ (10 ∷ render vars)

-- A character of a name: no white space and no `=`.
abbrev pub is_key_char : ℕ → Bool
is_key_char c = not (is_space c) && not (c == 61)

abbrev pub is_key : Text → Bool
is_key [] = false
is_key (c ∷ k) = not (c == 35) && every is_key_char (c ∷ k)

-- A name that is not empty, without white space, `=` and a leading `#`, and a value without a
-- backslash.
abbrev pub is_plain : Text × Text → Bool
is_plain e = is_key e.0 && every (λ c. not (c == 92)) e.1

unescape_plain : (c : ℕ) (t : Text) → not (c == 92) ≡ true → unescape (c ∷ t) ≡ c ∷ unescape t
unfolding unescape
unescape_plain c [] h = refl
unescape_plain c (d ∷ t) h = ground arith

unescape-escape : (v : Text) → every (λ c. not (c == 92)) v ≡ true → unescape (escape v) ≡ v
unfolding unescape escape
unescape-escape [] h = refl
unescape-escape (c ∷ v) h = elim (Bool-cases (c == 10)) [
  | inl newline ↦
      let same : c ≡ 10 = ground (arith, newline) in
      rw newline (rw same (ap (λ t. 10 ∷ t) (unescape-escape v (ground (arith, h)))))
  | inr plain ↦ rw plain (
      unescape_plain c (escape v) (ground (arith, h))
      ∙ ap (λ t. c ∷ t) (unescape-escape v (ground (arith, h))))
]

unfoldable pub no_newline : Text → Bool
no_newline s = every (λ c. not (c == 10)) s

pub every-append :
    (p : ℕ → Bool) (s t : Text) → every p s ≡ true → every p t ≡ true → every p (s ++ t) ≡ true
every-append p [] t h k = k
every-append p (c ∷ s) t h k = ground (arith, every-append p s t)

pub escape-no_newline : (v : Text) → no_newline (escape v) ≡ true
unfolding escape no_newline
escape-no_newline [] = refl
escape-no_newline (c ∷ v) = ground (arith, escape-no_newline v)

pub is_key_char-no_newline : (k : Text) → every is_key_char k ≡ true → no_newline k ≡ true
unfolding no_newline is_space
is_key_char-no_newline [] h = refl
is_key_char-no_newline (c ∷ k) h = ground (arith, is_key_char-no_newline k)

-- A line that ends with a quote keeps its characters.
pub normalize_line :
    (x rest : Text)
    → no_newline x ≡ true
    → normalize (x ++ (34 ∷ 10 ∷ rest)) ≡ x ++ (34 ∷ 10 ∷ normalize rest)
unfolding normalize no_newline
normalize_line [] rest h = refl
normalize_line (c ∷ []) rest h = ground (arith, normalize_line [] rest)
normalize_line (c ∷ d ∷ x) rest h = ground (arith, normalize_line (d ∷ x) rest)

pub split_line :
    (y rest : Text) → no_newline y ≡ true → split_lines (y ++ (10 ∷ rest)) ≡ y ∷ split_lines rest
unfolding split_lines no_newline
split_line [] rest h = refl
split_line (c ∷ y) rest h = ground (arith, split_line y rest)

trim_end_quote : (s : Text) (d : ℕ) → is_space d ≡ false → trim_end (s ++ d ∷ []) ≡ s ++ d ∷ []
unfolding trim_end
trim_end_quote [] d h = rw h refl
trim_end_quote (c ∷ []) d h = rw (trim_end_quote [] d h) refl
trim_end_quote (c ∷ e ∷ s) d h = rw (trim_end_quote (e ∷ s) d h) refl

trim_end_word : (k : Text) → every is_key_char k ≡ true → trim_end k ≡ k
unfolding trim_end
trim_end_word [] h = refl
trim_end_word (c ∷ []) h = ground arith
trim_end_word (c ∷ d ∷ k) h = rw (trim_end_word (d ∷ k) (ground (arith, h))) refl

trim_word : (c : ℕ) (k : Text) → every is_key_char (c ∷ k) ≡ true → trim (c ∷ k) ≡ c ∷ k
unfolding trim trim_start
trim_word c k h =
    let plain : is_space c ≡ false = ground (arith, h) in rw plain (trim_end_word (c ∷ k) h)

trim_framed :
    (c d : ℕ) (s : Text)
    → is_space c ≡ false
    → is_space d ≡ false
    → trim (c ∷ (s ++ d ∷ [])) ≡ c ∷ (s ++ d ∷ [])
unfolding trim trim_start
trim_framed c d s h k = rw h (trim_end_quote (c ∷ s) d k)

index_of-key :
    (k t : Text) → every is_key_char k ≡ true → index_of 61 (k ++ (61 ∷ t)) ≡ some (length k)
unfolding index_of
index_of-key [] t h = refl
index_of-key (c ∷ k) t h = ground (arith, index_of-key k t)

take-key : (k t : Text) → take (length k) (k ++ t) ≡ k
take-key [] t = refl
take-key (c ∷ k) t = ap (λ x. c ∷ x) (take-key k t)

drop-key : (k t : Text) (c : ℕ) → drop (length k + 1) (k ++ (c ∷ t)) ≡ t
drop-key [] t c = refl
drop-key (d ∷ k) t c =
    let e : suc (length k) + 1 ≡ suc (length k + 1) = omega arith in rw e (drop-key k t c)

-- A name is followed by no blank.
not_export :
    (k t p q : Text)
    → every is_key_char k ≡ true
    → every (λ c. not (c == 61)) p ≡ true
    → starts_with (k ++ (61 ∷ t)) (p ++ (32 ∷ q)) ≡ false
unfolding starts_with is_space
not_export [] t [] q h n = refl
not_export [] t (d ∷ p) q h n = ground arith
not_export (c ∷ k) t [] q h n = ground arith
not_export (c ∷ k) t (d ∷ p) q h n = ground (arith, not_export k t p q)

quote_plain : is_space 34 ≡ false
unfolding is_space
quote_plain = refl

unquote-quoted : (s : Text) → unquote (34 ∷ (s ++ 34 ∷ [])) ≡ s
unfolding starts_with
unquote-quoted s = rw (ends_with-append (34 ∷ s) 34) (drop_last-append s 34)

-- The text after the name.
abbrev rest_of : Text → Text
rest_of value = escape value ++ 34 ∷ []

entry-quoted :
    (c : ℕ) (k value : Text)
    → every (λ c. not (c == 92)) value ≡ true
    → entry (c ∷ k) (quoted value) ≡ some (c ∷ k, value)
entry-quoted c k value h = rw (unquote-quoted (escape value), unescape-escape value h) refl

trim-quoted : (value : Text) → trim (quoted value) ≡ quoted value
trim-quoted value = trim_framed 34 34 (escape value) quote_plain quote_plain

at_equals_line :
    (c : ℕ) (k value : Text)
    → every is_key_char (c ∷ k) ≡ true
    → every (λ c. not (c == 92)) value ≡ true
    → at_equals (line_of (c ∷ k) value) (some (length (c ∷ k))) ≡ some (c ∷ k, value)
at_equals_line c k value h v =
    rw
      (
        take-key (c ∷ k) (61 ∷ quoted value),
        drop-key (c ∷ k) (quoted value) 61,
        trim_word c k h,
        trim-quoted value,
      )
      (entry-quoted c k value v)

not_comment : (c : ℕ) (t : Text) → not (c == 35) ≡ true → starts_with (c ∷ t) (codes "#") ≡ false
unfolding starts_with
not_comment c t h = ground arith

pub parse_trimmed-line :
    (c : ℕ) (k value : Text)
    → is_plain (c ∷ k, value) ≡ true
    → parse_trimmed (line_of (c ∷ k) value) ≡ some (c ∷ k, value)
parse_trimmed-line c k value h =
    let word : every is_key_char (c ∷ k) ≡ true = ground (arith, h) in
    rw
      (
        not_comment c (k ++ (61 ∷ quoted value)) (ground (arith, h)),
        not_export (c ∷ k) (quoted value) (codes "export") [] word refl,
        index_of-key (c ∷ k) (quoted value) word,
      )
      (at_equals_line c k value word (ground (arith, h)))

line_framed :
    (c : ℕ) (k value : Text)
    → line_of (c ∷ k) value ≡ c ∷ ((k ++ (61 ∷ 34 ∷ escape value)) ++ 34 ∷ [])
line_framed c k value = ap (λ t. c ∷ t) (sym (append_assoc k (61 ∷ 34 ∷ escape value) (34 ∷ [])))

pub trim_line :
    (c : ℕ) (k value : Text)
    → is_space c ≡ false
    → trim (line_of (c ∷ k) value) ≡ line_of (c ∷ k) value
trim_line c k value h =
    rw (line_framed c k value) (trim_framed c 34 (k ++ (61 ∷ 34 ∷ escape value)) h quote_plain)
