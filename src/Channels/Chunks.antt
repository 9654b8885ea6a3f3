-- ===== src/Channels/Chunks.antt =====
-- The chunks of a message: how long they are, and what they keep.
use openhermit.Prelude.{
  ℕ, zero, suc, ◌≤◌, ◌<◌, Text, leb, not, Bool-cases, Option, none, some, List, [], ◌∷◌, ◌++◌,
  length, length-take-le, length-drop, take, drop, take-append-drop, filter, All, ◌≡◌, inl, inr,
  refl, ap, sym, subst, ◌∙◌, arith,
}
use mathlib.Core.Option
use openhermit.Policy.Commands.{is_space, trim_start, trim_end, trim_cons}
use openhermit.Channels.{last_index_of, or_next, or_hard, split_index, split_from, split_message}

AtMost : ℕ → Option ℕ → Type 0
AtMost n o = (i : ℕ) → o ≡ some i → i ≤ n

last_index_of-le : (s pat : Text) (from : ℕ) → AtMost from (last_index_of s pat from)
unfolding last_index_of AtMost
last_index_of-le s pat zero i h = ground arith
last_index_of-le s pat (suc from) i h = ground (arith, last_index_of-le s pat from i)

or_next-le : (n : ℕ) (a b : Option ℕ) → AtMost n a → AtMost n b → AtMost n (or_next a b)
unfolding AtMost
or_next-le n none b ha hb = hb
or_next-le n (some zero) b ha hb = hb
or_next-le n (some (suc i)) b ha hb = ha

or_hard-bounds : (n : ℕ) (a : Option ℕ) → AtMost n a → 0 < n → (0 < or_hard a n) × (or_hard a n ≤ n)
unfolding AtMost
or_hard-bounds n none ha pos = ground arith
or_hard-bounds n (some zero) ha pos = ground arith
or_hard-bounds n (some (suc i)) ha pos = ground (arith, ha (suc i) refl)

split_index-bounds :
    (limit : ℕ) (s : Text) → 0 < limit → (0 < split_index limit s) × (split_index limit s ≤ limit)
unfolding split_index
split_index-bounds limit s pos =
    or_hard-bounds limit _
      (or_next-le limit _ _
        (or_next-le limit _ _ (last_index_of-le s (10 ∷ 10 ∷ []) limit)
          (last_index_of-le s (10 ∷ []) limit))
        (last_index_of-le s (32 ∷ []) limit))
      pos

length-trim_start-le : (s : Text) → length (trim_start s) ≤ length s
unfolding trim_start
length-trim_start-le [] = ground arith
length-trim_start-le (c ∷ s) = ground (arith, length-trim_start-le s)

length-trim_cons-le : (c : ℕ) (t : Text) → length (trim_cons c t) ≤ suc (length t)
length-trim_cons-le c [] = ground arith
length-trim_cons-le c (d ∷ t) = ground arith

length-trim_end-le : (s : Text) → length (trim_end s) ≤ length s
unfolding trim_end
length-trim_end-le [] = ground arith
length-trim_end-le (c ∷ s) = omega (arith, length-trim_cons-le c (trim_end s), length-trim_end-le s)

-- The characters that are no spaces.
unfoldable pub plain : Text → Text
plain s = filter (λ c. not (is_space c)) s

plain-append : (s t : Text) → plain (s ++ t) ≡ plain s ++ plain t
unfolding plain
plain-append [] t = refl
plain-append (c ∷ s) t = ground (arith, plain-append s t)

plain-trim_start : (s : Text) → plain (trim_start s) ≡ plain s
unfolding plain trim_start
plain-trim_start [] = refl
plain-trim_start (c ∷ s) = ground (arith, plain-trim_start s)

plain-trim_cons : (c : ℕ) (t : Text) → plain (trim_cons c t) ≡ plain (c ∷ t)
unfolding plain
plain-trim_cons c [] = ground arith
plain-trim_cons c (d ∷ t) = refl

plain_cons : (c : ℕ) (s t : Text) → plain s ≡ plain t → plain (c ∷ s) ≡ plain (c ∷ t)
unfolding plain
plain_cons c s t h = ground (arith, h)

plain-trim_end : (s : Text) → plain (trim_end s) ≡ plain s
unfolding trim_end
plain-trim_end [] = refl
plain-trim_end (c ∷ s) =
    plain-trim_cons c (trim_end s) ∙ plain_cons c (trim_end s) s (plain-trim_end s)

abbrev pub concat : List Text → Text
concat [] = []
concat (c ∷ cs) = c ++ concat cs

-- What a list of chunks owes to the text it was made of.
pub record ChunksOf (limit : ℕ) (text : Text) (chunks : List Text) : Type 0 where
  short : All (λ c. length c ≤ limit) chunks
  kept : plain (concat chunks) ≡ plain text

append-nil : (s : Text) → s ++ [] ≡ s
append-nil [] = refl
append-nil (c ∷ s) = ap (λ t. c ∷ t) (append-nil s)

whole-ChunksOf : (limit : ℕ) (text : Text) → length text ≤ limit → ChunksOf limit text (text ∷ [])
whole-ChunksOf limit text h = record { short = (h, tt); kept = ap plain (append-nil text) }

cut-ChunksOf :
    (limit i : ℕ) (text : Text) (chunks : List Text)
    → i ≤ limit
    → ChunksOf limit (trim_start (drop i text)) chunks
    → ChunksOf limit text (trim_end (take i text) ∷ chunks)
cut-ChunksOf limit i text chunks le h = record {
  short = (omega (arith, length-trim_end-le (take i text), length-take-le i text), h.short);
  kept =
      plain-append (trim_end (take i text)) (concat chunks)
      ∙ ap (λ s. s ++ plain (concat chunks)) (plain-trim_end (take i text))
      ∙ ap (λ s. plain (take i text) ++ s) (h.kept ∙ plain-trim_start (drop i text))
      ∙ sym (plain-append (take i text) (drop i text))
      ∙ ap plain (take-append-drop i text);
}

abbrev SplitsTo : ℕ → Text → Option (List Text) → Type 0
SplitsTo limit text none = ⊥
SplitsTo limit text (some chunks) = ChunksOf limit text chunks

cut-SplitsTo :
    (limit i : ℕ) (text : Text) (o : Option (List Text))
    → i ≤ limit
    → SplitsTo limit (trim_start (drop i text)) o
    → SplitsTo limit text (Option.map (λ chunks. trim_end (take i text) ∷ chunks) o)
cut-SplitsTo limit i text none le h = h
cut-SplitsTo limit i text (some chunks) le h = cut-ChunksOf limit i text chunks le h

split_from-whole :
    (fuel limit c : ℕ) (s : Text)
    → length (c ∷ s) ≤ limit
    → split_from (suc fuel) limit (c ∷ s) ≡ some ((c ∷ s) ∷ [])
unfolding split_from
split_from-whole fuel limit c s h = ground (arith, h)

split_from-cut :
    (fuel limit c : ℕ) (s : Text)
    → limit < length (c ∷ s)
    → split_from (suc fuel) limit (c ∷ s)
      ≡ Option.map
          (λ chunks. trim_end (take (split_index limit (c ∷ s)) (c ∷ s)) ∷ chunks)
          (split_from fuel limit (trim_start (drop (split_index limit (c ∷ s)) (c ∷ s))))
unfolding split_from
split_from-cut fuel limit c s h = ground (arith, h)

-- A round takes at least one character.
split_from-SplitsTo :
    (fuel limit : ℕ) (s : Text)
    → 0 < limit
    → length s ≤ fuel
    → SplitsTo limit s (split_from fuel limit s)
split_from-SplitsTo fuel limit [] pos le = unfold split_from in record { short = tt; kept = refl }
split_from-SplitsTo zero limit (c ∷ s) pos le = absurd (omega (arith, le))
split_from-SplitsTo (suc fuel) limit (c ∷ s) pos le =
    elim (Bool-cases (leb (length (c ∷ s)) limit)) [
      | inl fits ↦
          let small : length (c ∷ s) ≤ limit = ground (arith, fits) in
          subst (SplitsTo limit (c ∷ s)) (sym (split_from-whole fuel limit c s small))
            (whole-ChunksOf limit (c ∷ s) small)
      | inr long ↦
          let i = split_index limit (c ∷ s) in
          let bounds = split_index-bounds limit (c ∷ s) pos in
          let left : length (trim_start (drop i (c ∷ s))) ≤ fuel =
            omega
              (arith, length-trim_start-le (drop i (c ∷ s)), length-drop i (c ∷ s), bounds.0, le) in
          subst (SplitsTo limit (c ∷ s))
            (sym (split_from-cut fuel limit c s (ground (arith, long))))
            (cut-SplitsTo limit i (c ∷ s) _ bounds.1
              (split_from-SplitsTo fuel limit (trim_start (drop i (c ∷ s))) pos left))
    ]

SplitsTo-some :
    (limit : ℕ) (text : Text) (o : Option (List Text))
    → SplitsTo limit text o
    → (chunks : List Text) × (o ≡ some chunks) × ChunksOf limit text chunks
SplitsTo-some limit text none h = elim h [ ]
SplitsTo-some limit text (some chunks) h = (chunks, refl, h)

split_message-SplitsTo :
    (limit : ℕ) (text : Text) → 0 < limit → SplitsTo limit text (split_message limit text)
unfolding split_message
split_message-SplitsTo limit text pos = elim (Bool-cases (leb (length text) limit)) [
  | inl fits ↦ rw fits (whole-ChunksOf limit text (ground (arith, fits)))
  | inr long ↦ rw long (split_from-SplitsTo (length text) limit text pos (omega arith))
]

-- At every limit above zero `splitMessage` ends within as many rounds as the message has characters.
-- Each chunk is at most as long as the limit, and the chunks together hold the characters of the
-- message that are no spaces, each once and in order.
pub split_message-ChunksOf :
    (limit : ℕ) (text : Text)
    → 0 < limit
    → (chunks : List Text) × (split_message limit text ≡ some chunks) × ChunksOf limit text chunks
split_message-ChunksOf limit text pos =
    SplitsTo-some limit text (split_message limit text) (split_message-SplitsTo limit text pos)
