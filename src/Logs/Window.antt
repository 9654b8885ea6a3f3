-- ===== src/Logs/Window.antt =====
-- The buffer is a window on the history of the log.
use openhermit.Prelude.{
  ℕ, zero, suc, ◌-◌, ◌≤◌, ◌<◌, leb, Bool-cases, some, List, [], ◌∷◌, ◌++◌, length, length-append,
  length-drop, drop, ◌≡◌, inl, inr, refl, ap, sym, ◌∙◌, arith,
}
use mathlib.Core.List.{append_assoc, append-nil}
use openhermit.Logs.{LogEntry, LogBuffer, new_buffer, push, tail}

unfoldable pub push_all : List LogEntry → LogBuffer → LogBuffer
push_all [] b = b
push_all (e ∷ es) b = push_all es (push e b)

-- The last `n` elements.
abbrev pub last_of : ℕ → List LogEntry → List LogEntry
last_of n es = drop (length es - n) es

drop-append_one :
    (n : ℕ) (es : List LogEntry) (e : LogEntry)
    → n ≤ length es
    → drop n (es ++ e ∷ []) ≡ drop n es ++ e ∷ []
drop-append_one zero es e h = refl
drop-append_one (suc n) [] e h = absurd (omega arith)
drop-append_one (suc n) (x ∷ es) e h = drop-append_one n es e (omega arith)

drop-drop_one : (n : ℕ) (es : List LogEntry) → drop 1 (drop n es) ≡ drop (suc n) es
drop-drop_one zero es = refl
drop-drop_one (suc n) [] = refl
drop-drop_one (suc n) (x ∷ es) = drop-drop_one n es

drop-nil : (n : ℕ) → drop {A = LogEntry} n [] ≡ []
drop-nil zero = refl
drop-nil (suc n) = refl

last_of-full :
    (n : ℕ) (es : List LogEntry) (e : LogEntry)
    → 1 ≤ n
    → n ≤ length es
    → drop 1 (last_of n es) ++ e ∷ [] ≡ last_of n (es ++ e ∷ [])
last_of-full n es e h full =
    let k = length es - n in
    let moved : suc k ≡ length (es ++ e ∷ []) - n = omega (arith, length-append es (e ∷ [])) in
    ap (λ t. t ++ e ∷ []) (drop-drop_one k es)
    ∙ sym (drop-append_one (suc k) es e (omega arith))
    ∙ ap (λ m. drop m (es ++ e ∷ [])) moved

last_of-room :
    (n : ℕ) (es : List LogEntry) (e : LogEntry)
    → length es < n
    → last_of n es ++ e ∷ [] ≡ last_of n (es ++ e ∷ [])
last_of-room n es e room =
    let none_gone : length es - n ≡ 0 = omega arith in
    let none_goes : length (es ++ e ∷ []) - n ≡ 0 = omega (arith, length-append es (e ∷ [])) in
    ap (λ m. drop m es ++ e ∷ []) none_gone ∙ sym (ap (λ m. drop m (es ++ e ∷ [])) none_goes)

-- One more entry moves a full window on by one.
push-last_of :
    (n : ℕ) (es : List LogEntry) (e : LogEntry)
    → 1 ≤ n
    → push e (record { entries = last_of n es; max_size = n })
      ≡ record { entries = last_of n (es ++ e ∷ []); max_size = n }
unfolding push
push-last_of n es e h = elim (Bool-cases (leb n (length (last_of n es)))) [
  | inl full ↦
      ap (λ kept. record { entries = kept; max_size = n })
        (rw full (last_of-full n es e h (ground (arith, length-drop (length es - n) es))))
  | inr room ↦
      ap (λ kept. record { entries = kept; max_size = n })
        (rw room (last_of-room n es e (ground (arith, length-drop (length es - n) es))))
]

push_all-from :
    (n : ℕ) (seen es : List LogEntry)
    → 1 ≤ n
    → (push_all es (record { entries = last_of n seen; max_size = n })).entries
      ≡ last_of n (seen ++ es)
unfolding push_all
push_all-from n seen [] h = rw append-nil
push_all-from n seen (e ∷ es) h =
    ap (λ b. (push_all es b).entries) (push-last_of n seen e h)
    ∙ push_all-from n (seen ++ e ∷ []) es h
    ∙ ap (last_of n) (append_assoc seen (e ∷ []) es)

-- Whatever was logged, a buffer with room for at least one entry holds the last `max_size` entries
-- of the whole history, in order.
pub push_all-last_of :
    (n : ℕ) (es : List LogEntry) → 1 ≤ n → (push_all es (new_buffer n)).entries ≡ last_of n es
push_all-last_of n es h =
    ap (λ start. (push_all es (record { entries = start; max_size = n })).entries)
      (sym (drop-nil (0 - n)))
    ∙ push_all-from n [] es h

-- `tail` of a number above 0 gives that many of the newest entries, or all where there are fewer.
pub tail-last_of : (n : ℕ) (b : LogBuffer) → 1 ≤ n → tail (some n) b ≡ last_of n b.entries
unfolding tail
tail-last_of zero b h = absurd (omega arith)
tail-last_of (suc n) b h = elim (Bool-cases (leb (length b.entries) (suc n))) [
  | inl few ↦
      let none_goes : length b.entries - suc n ≡ 0 = ground (arith, few) in
      rw few (sym (ap (λ m. drop m b.entries) none_goes))
  | inr many ↦ rw many
]

-- `tail` of 0 gives every entry.
pub tail-zero : (b : LogBuffer) → tail (some 0) b ≡ b.entries
unfolding tail
tail-zero b = ground arith
