-- ===== src/Prelude/Texts.antt =====
-- JavaScript strings: lists of UTF-16 code units, with the string methods that the program uses.
use Prim.Native.Nat.{ℕ}
use Prim.Native.Char.{code}
use Prim.Native.String.{String}
use mathlib.Core.Path.{◌≡◌, refl, ap}
use mathlib.Core.Logic.{◌↔◌}
use mathlib.Core.Bool.{Bool, true, false, ◌&&◌}
use mathlib.Core.List.{List, [], ◌∷◌, ◌++◌}
use native.Mathlib.Omega.{arith}
use openhermit.Prelude.Tests.{◌==◌, Eq}

abbrev pub Text : Type 0
Text = List ℕ

-- The code units of a literal; no literal of the program leaves the basic plane.
abbrev pub codes : String → Text
codes String.[] = []
codes (String.◌∷◌ c s) = code c ∷ codes s

-- `s === t`
unfoldable pub text_eq : Text → Text → Bool
text_eq [] [] = true
text_eq (c ∷ s) (d ∷ t) = c == d && text_eq s t
text_eq _ _ = false

pub text_eq_iff : (s t : Text) → (text_eq s t ≡ true) ↔ (s ≡ t)
unfolding text_eq
text_eq_iff [] [] = ground arith
text_eq_iff [] (d ∷ t) = ground arith
text_eq_iff (c ∷ s) [] = ground arith
text_eq_iff (c ∷ s) (d ∷ t) = ground (arith, text_eq_iff s t)

pub text_eq_refl : (s : Text) → text_eq s s ≡ true
text_eq_refl s = (text_eq_iff s s).1 refl

abbrev pub text_keys : Eq Text
text_keys = record { beq = text_eq; beq_iff = text_eq_iff }

-- `!!s` is false at the empty string only.
abbrev pub truthy : Text → Bool
truthy [] = false
truthy (c ∷ s) = true

-- `s.startsWith(p)`
unfoldable pub starts_with : Text → Text → Bool
starts_with s [] = true
starts_with [] (d ∷ p) = false
starts_with (c ∷ s) (d ∷ p) = c == d && starts_with s p

pub starts_with-append : (p s : Text) → starts_with (p ++ s) p ≡ true
unfolding starts_with
starts_with-append [] [] = refl
starts_with-append [] (c ∷ s) = refl
starts_with-append (c ∷ p) s = ground (arith, starts_with-append p s)

-- Exactly the texts that begin with `p` are `p` followed by something.
pub starts_with-eq : (s p : Text) → starts_with s p ≡ true → (r : Text) × (s ≡ p ++ r)
unfolding starts_with
starts_with-eq [] [] h = ([], refl)
starts_with-eq (c ∷ s) [] h = (c ∷ s, refl)
starts_with-eq [] (d ∷ p) h = cc
starts_with-eq (c ∷ s) (d ∷ p) h =
    let (r, e) = starts_with-eq s p (ground arith) in (r, ground (arith, e))

-- `s.slice(0, -1)`
abbrev pub drop_last : Text → Text
drop_last [] = []
drop_last (c ∷ []) = []
drop_last (c ∷ d ∷ s) = c ∷ drop_last (d ∷ s)

-- `s.endsWith(c)` for one code unit
abbrev pub ends_with : ℕ → Text → Bool
ends_with e [] = false
ends_with e (c ∷ []) = c == e
ends_with e (c ∷ d ∷ s) = ends_with e (d ∷ s)

pub drop_last-append : (s : Text) (c : ℕ) → drop_last (s ++ c ∷ []) ≡ s
drop_last-append [] c = refl
drop_last-append (x ∷ []) c = refl
drop_last-append (x ∷ y ∷ s) c = ap (λ t. x ∷ t) (drop_last-append (y ∷ s) c)

pub ends_with-append : (s : Text) (c : ℕ) → ends_with c (s ++ c ∷ []) ≡ true
ends_with-append [] c = ground arith
ends_with-append (x ∷ []) c = ground arith
ends_with-append (x ∷ y ∷ s) c = ends_with-append (y ∷ s) c

-- `ss.join(separator)`
unfoldable pub join_with : Text → List Text → Text
join_with separator [] = []
join_with separator (s ∷ []) = s
join_with separator (s ∷ r ∷ ss) = s ++ (separator ++ join_with separator (r ∷ ss))
