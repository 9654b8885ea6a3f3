-- ===== src/Env/RoundTrip.antt =====
-- The parser of packages/shared/src/env.ts reads back what is written in quotes.
use openhermit.Prelude.{
  Text, text_keys, insert, ◌==◌, every, not, true, some, List, [], ◌∷◌, ◌++◌, ◌≡◌, refl, sym, ap,
  ◌∙◌, arith,
}
use mathlib.Core.List.{append_assoc}
use openhermit.Policy.Commands.{trim, trim_start, trim_end}
use openhermit.Sse.{normalize, split_lines}
use openhermit.Env.{Vars, parse_trimmed, add_entry, parse_lines, parse_env_file}
use openhermit.Env.Lines.{
  escape, line_of, render, is_key_char, is_key, is_plain, no_newline, every-append,
  escape-no_newline, is_key_char-no_newline, normalize_line, split_line, parse_trimmed-line,
  trim_line,
}

-- The variables of the entries, a later one in place of an earlier one of the same name.
unfoldable pub set_all : Vars → Vars → Vars
set_all vars [] = vars
set_all vars ((key, value) ∷ entries) = set_all (insert text_keys key value vars) entries

lines_of : Vars → List Text
lines_of [] = [] ∷ []
lines_of ((key, value) ∷ vars) = line_of key value ∷ lines_of vars

line_no_newline :
    (k value : Text)
    → every is_key_char k ≡ true
    → no_newline (k ++ (61 ∷ 34 ∷ escape value)) ≡ true
unfolding no_newline
line_no_newline k value h =
    every-append (λ c. not (c == 10)) k (61 ∷ 34 ∷ escape value) (is_key_char-no_newline k h)
      (escape-no_newline value)

-- A line ends with a quote.
line_split : (k value : Text) → line_of k value ≡ (k ++ (61 ∷ 34 ∷ escape value)) ++ 34 ∷ []
line_split k value = sym (append_assoc k (61 ∷ 34 ∷ escape value) (34 ∷ []))

line_before :
    (k value r : Text)
    → line_of k value ++ (10 ∷ r) ≡ (k ++ (61 ∷ 34 ∷ escape value)) ++ (34 ∷ 10 ∷ r)
line_before k value r =
    rw (line_split k value) (append_assoc (k ++ (61 ∷ 34 ∷ escape value)) (34 ∷ []) (10 ∷ r))

line-no_newline :
    (k value : Text) → every is_key_char k ≡ true → no_newline (line_of k value) ≡ true
unfolding no_newline
line-no_newline k value h = rw (line_split k value) (
    every-append (λ c. not (c == 10)) (k ++ (61 ∷ 34 ∷ escape value)) (34 ∷ [])
      (line_no_newline k value h) refl)

is_key-word : (k : Text) → is_key k ≡ true → every is_key_char k ≡ true
is_key-word [] h = absurd (cc h)
is_key-word (c ∷ k) h = ground (arith, h)

normalize-line :
    (k value r : Text)
    → every is_key_char k ≡ true
    → normalize (line_of k value ++ (10 ∷ r)) ≡ line_of k value ++ (10 ∷ normalize r)
normalize-line k value r h =
    rw (line_before k value r, line_before k value (normalize r))
      (normalize_line (k ++ (61 ∷ 34 ∷ escape value)) r (line_no_newline k value h))

split_render :
    (vars : Vars)
    → every is_plain vars ≡ true
    → split_lines (normalize (render vars)) ≡ lines_of vars
unfolding render lines_of
split_render [] h = unfold normalize split_lines in refl
split_render ((k, value) ∷ vars) h =
    let word = is_key-word k (ground (arith, h)) in
    rw
      (
        normalize-line k value (render vars) word,
        split_line (line_of k value) (normalize (render vars)) (line-no_newline k value word),
      )
      (ap (λ ls. line_of k value ∷ ls) (split_render vars (ground (arith, h))))

parse_lines-lines_of :
    (seen vars : Vars)
    → every is_plain vars ≡ true
    → parse_lines seen (lines_of vars) ≡ set_all seen vars
unfolding parse_lines lines_of set_all
parse_lines-lines_of seen [] h = unfold trim trim_start trim_end in refl
parse_lines-lines_of seen (([], value) ∷ vars) h = absurd (cc h)
parse_lines-lines_of seen ((c ∷ k, value) ∷ vars) h =
    let one : parse_trimmed (trim (line_of (c ∷ k) value)) ≡ some (c ∷ k, value) =
      ap parse_trimmed (trim_line c k value (ground (arith, h)))
      ∙ parse_trimmed-line c k value (ground (arith, h)) in
    ap (λ e. parse_lines (add_entry e seen) (lines_of vars)) one
    ∙ (parse_lines-lines_of (insert text_keys (c ∷ k) value seen) vars (ground (arith, h)))

-- A file that has a line `NAME="value"` for each of some entries, newlines of the values written as
-- a backslash and an n, is read as the variables of the entries, where the names are not empty and
-- have no white space, no `=` and no leading `#`, and the values have no backslash.
pub parse_env_file-render :
    (vars : Vars) → every is_plain vars ≡ true → parse_env_file (render vars) ≡ set_all [] vars
unfolding parse_env_file
parse_env_file-render vars h = rw (split_render vars h) (parse_lines-lines_of [] vars h)
