-- ===== src/Policy/Commands/Tidy.antt =====
-- Normalizing a command a second time changes nothing.
use openhermit.Prelude.{
  ℕ, Text, Bool, true, false, [], ◌∷◌, ◌≡◌, ◌⊎◌, inl, inr, refl, ap, Bool-cases, if◌then◌else◌, sym,
  ◌∙◌,
}
use openhermit.Policy.Commands.{
  is_space, trim_start, trim_end, trim_cons, collapse, normalize_command,
}

-- Empty, or with a first character that is no space.
abbrev LeadsPlain : Text → Type 0
LeadsPlain [] = Unit
LeadsPlain (c ∷ s) = is_space c ≡ false

abbrev NoTrail : Text → Type 0
NoTrail [] = Unit
NoTrail (c ∷ []) = is_space c ≡ false
NoTrail (c ∷ d ∷ s) = NoTrail (d ∷ s)

-- Every space is a single blank between two other characters; the flag says that a space is before.
abbrev Tidy : Bool → Text → Type 0
Tidy b [] = b ≡ false
Tidy b (c ∷ s) =
    ((is_space c ≡ false) × Tidy false s)
    ⊎ ((is_space c ≡ true) × (c ≡ 32) × (b ≡ false) × Tidy true s)

trim_start-LeadsPlain : (s : Text) → LeadsPlain (trim_start s)
unfolding trim_start
trim_start-LeadsPlain [] = tt
trim_start-LeadsPlain (c ∷ s) = elim (Bool-cases (is_space c)) [
  | inl space ↦ rw space (trim_start-LeadsPlain s)
  | inr plain ↦ rw plain plain
]

trim_cons-NoTrail : (c : ℕ) (t : Text) → NoTrail t → NoTrail (trim_cons c t)
trim_cons-NoTrail c [] h = elim (Bool-cases (is_space c)) [
  | inl space ↦ rw space tt
  | inr plain ↦ rw plain plain
]
trim_cons-NoTrail c (d ∷ t) h = h

trim_end-NoTrail : (s : Text) → NoTrail (trim_end s)
unfolding trim_end
trim_end-NoTrail [] = tt
trim_end-NoTrail (c ∷ s) = trim_cons-NoTrail c (trim_end s) (trim_end-NoTrail s)

trim_cons_plain : (c : ℕ) (t : Text) → is_space c ≡ false → trim_cons c t ≡ c ∷ t
trim_cons_plain c [] h = rw h
trim_cons_plain c (d ∷ t) h = refl

trim_end-LeadsPlain : (s : Text) → LeadsPlain s → LeadsPlain (trim_end s)
unfolding trim_end
trim_end-LeadsPlain [] h = tt
trim_end-LeadsPlain (c ∷ s) h = rw (trim_cons_plain c (trim_end s) h) h

is_space-blank : is_space 32 ≡ true
unfolding is_space
is_space-blank = refl

space-Tidy : (b : Bool) (t : Text) → Tidy true t → Tidy b (if b then t else 32 ∷ t)
space-Tidy true t h = h
space-Tidy false t h = inr (is_space-blank, refl, refl, h)

collapse-Tidy : (b : Bool) (c : ℕ) (s : Text) → NoTrail (c ∷ s) → Tidy b (collapse b (c ∷ s))
unfolding collapse
collapse-Tidy b c [] h = rw h (inl (h, refl))
collapse-Tidy b c (d ∷ s) h = elim (Bool-cases (is_space c)) [
  | inl space ↦ rw space (space-Tidy b (collapse true (d ∷ s)) (collapse-Tidy true d s h))
  | inr plain ↦ rw plain (inl (plain, collapse-Tidy false d s h))
]

collapse_lem : (b : Bool) (s : Text) → Tidy b s → collapse b s ≡ s
unfolding collapse
collapse_lem b [] h = refl
collapse_lem b (c ∷ s) (inl (plain, h)) = rw plain (ap (λ t. c ∷ t) (collapse_lem false s h))
collapse_lem b (c ∷ s) (inr (space, blank, first, h)) =
    rw (space, first, collapse_lem true s h) (ap (λ t. t ∷ s) (sym blank))

trim_end_lem : (b : Bool) (s : Text) → Tidy b s → trim_end s ≡ s
unfolding trim_end
trim_end_lem b [] h = refl
trim_end_lem b (c ∷ s) (inl (plain, h)) =
    trim_cons_plain c (trim_end s) plain ∙ ap (λ t. c ∷ t) (trim_end_lem false s h)
trim_end_lem b (c ∷ s) (inr (space, blank, first, h)) =
    ap (trim_cons c) (trim_end_lem true s h) ∙ space_before c s h
  where
    space_before : (c : ℕ) (s : Text) → Tidy true s → trim_cons c s ≡ c ∷ s
    space_before c [] h = absurd (cc h)
    space_before c (d ∷ s) h = refl

trim_start_plain : (c : ℕ) (s : Text) → is_space c ≡ false → trim_start (c ∷ s) ≡ c ∷ s
unfolding trim_start
trim_start_plain c s h = rw h

-- What normalizing leaves: nothing, or a tidy text that begins with no space.
abbrev IsNormal : Text → Type 0
IsNormal [] = Unit
IsNormal (c ∷ s) = (is_space c ≡ false) × Tidy false (c ∷ s)

collapse-IsNormal : (s : Text) → LeadsPlain s → NoTrail s → IsNormal (collapse false s)
unfolding collapse
collapse-IsNormal [] lead trail = tt
collapse-IsNormal (c ∷ s) lead trail =
    let tidy : Tidy false (collapse false (c ∷ s)) = collapse-Tidy false c s trail in
    rw lead (lead, rw lead at tidy)

normalize_command-IsNormal : (cmd : Text) → IsNormal (normalize_command cmd)
unfolding normalize_command
normalize_command-IsNormal cmd =
    let start = trim_start cmd in
    collapse-IsNormal (trim_end start) (trim_end-LeadsPlain start (trim_start-LeadsPlain cmd))
      (trim_end-NoTrail start)

normalize_command_normal : (s : Text) → IsNormal s → normalize_command s ≡ s
unfolding normalize_command
normalize_command_normal [] h = refl
normalize_command_normal (c ∷ s) (lead, tidy) =
    rw (trim_start_plain c s lead)
      (ap (collapse false) (trim_end_lem false (c ∷ s) tidy) ∙ collapse_lem false (c ∷ s) tidy)

-- The command of a policy row and the command that is to run are compared in a normal form:
-- normalizing a second time changes nothing.
pub normalize_command_idempotent :
    (cmd : Text) → normalize_command (normalize_command cmd) ≡ normalize_command cmd
normalize_command_idempotent cmd =
    normalize_command_normal (normalize_command cmd) (normalize_command-IsNormal cmd)
