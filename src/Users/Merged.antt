-- ===== src/Users/Merged.antt =====
-- What a merge leaves.
use mathlib.Core.Option
use openhermit.Prelude.{
  ◌≢◌, Bool-cases, inl, inr, text_eq_iff, Text, text_eq, text_eq_iff, Bool-cases, Option, none,
  some, List, [], ◌∷◌, ◌≡◌, inl, inr, if◌then◌else◌,
}
use openhermit.Users.{RoleRow, Pair, move_agent}

abbrev pub first_of : {A : Type 0} → Option A → Option A → Option A
first_of none b = b
first_of (some a) b = some a

abbrev round : Text → Text → Pair × RoleRow → List (Pair × RoleRow) → List (Pair × RoleRow)
round from into ((user, a), row) m =
    if text_eq user from then move_agent into ((user, a), row) m else m

-- Whose event it is after a merge, for each event in its place.
abbrev pub AllMoved : Text → Text → List (Option Text) → List (Option Text) → Type 0
AllMoved from into [] [] = Unit
AllMoved from into (e ∷ es) (g ∷ gs) =
    (e ≡ some from → g ≡ some into) × (e ≢ some from → g ≡ e) × AllMoved from into es gs
AllMoved from into _ _ = ⊥
