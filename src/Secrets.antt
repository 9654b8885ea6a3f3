-- ===== src/Secrets.antt =====
-- The secrets of apps/agent/src/core/security.ts: their resolution by name and the placeholders of a
-- configuration. What a plain object inherits under a name (`constructor`, say), as a text, is a
-- parameter.
pub mod Templates
use openhermit.Prelude.{
  ℕ, zero, suc, ◌+◌, Text, codes, text_keys, lookup, insert, leb, ◌==◌, length, take, starts_with,
  drop, Bool, true, false, ◌||◌, ◌&&◌, Option, none, some, List, [], ◌∷◌, ◌++◌, if◌then◌else◌,
}

-- `\w`
abbrev pub is_word : ℕ → Bool
is_word c = (leb 48 c && leb c 57) || (leb 65 c && leb c 90) || (c == 95) || (leb 97 c && leb c 122)

-- `\w+`, as far as it goes.
unfoldable pub word : Text → Text
word [] = []
word (c ∷ t) = let rest = word t in if is_word c then c ∷ rest else []

unfoldable pub after_word : Text → Text
after_word [] = []
after_word (c ∷ t) = let rest = after_word t in if is_word c then rest else c ∷ t

abbrev pub opening : Text
opening = codes "${{"

abbrev pub closing : Text
closing = codes "}}"

abbrev named : Text → Text → Option Text
named [] rest = none
named (c ∷ w) rest = if starts_with rest closing then some (c ∷ w) else none

-- The name of the placeholder with which a text begins.
unfoldable pub placeholder_name : Text → Option Text
placeholder_name s =
    if starts_with s opening then named (word (drop 3 s)) (after_word (drop 3 s)) else none

abbrev pub placeholder : Text → Text
placeholder name = opening ++ (name ++ closing)

abbrev or_inherited : Option Text → Option Text → Option Text
or_inherited none inherits = inherits
or_inherited (some v) inherits = some v

-- The values of a configuration; `atom` is a number, a Boolean or null, by the
-- text it is written with.
mutual
  pub data Json : Type 0 where
    text : Text → Json
    array : Items → Json
    object : Fields → Json
    atom : Text → Json

  pub data Items : Type 0 where
    nil : Items
    cons : Json → Items → Items

  pub data Fields : Type 0 where
    end : Fields
    field : Text → Json → Fields → Fields

-- What `resolveSecrets` returns, or the name with which it throws.
pub data Resolved : Type 0 where
  not_found : Text → Resolved
  resolved : List (Text × Text) → Resolved

-- Parameters: what an object inherits, and the secrets.
module _ (inherited : Text → Option Text) (secrets : List (Text × Text)) where
  -- `this.secrets[name]`
  abbrev pub secret_at : Text → Option Text
  secret_at name = or_inherited (lookup text_keys name secrets) (inherited name)

  abbrev pub put_in : Option Text → Text → Text
  put_in none name = placeholder name
  put_in (some v) name = v

  abbrev pub replacement : Text → Text
  replacement name = put_in (secret_at name) name

  -- The `replace` of a text: the first number counts the code units of a match still to pass over.
  unfoldable pub interpolate_text : ℕ → Text → Text
  interpolate_text n [] = []
  interpolate_text (suc n) (c ∷ t) = interpolate_text n t
  interpolate_text zero (c ∷ t) = elim (placeholder_name (c ∷ t)) [
    | none ↦ c ∷ interpolate_text zero t
    | some name ↦ replacement name ++ interpolate_text (length name + 4) t
  ]

  -- `resolveSecrets`: the first name that is unknown is thrown.
  abbrev resolve_next :
      Option Text → Text → (List (Text × Text) → Resolved) → List (Text × Text) → Resolved
  resolve_next none name rest done = not_found name
  resolve_next (some v) name rest done = rest (insert text_keys name v done)

  unfoldable pub resolve_from : List Text → List (Text × Text) → Resolved
  resolve_from [] done = resolved done
  resolve_from (name ∷ names) done = resolve_next (secret_at name) name (resolve_from names) done

  abbrev pub resolve_secrets : List Text → Resolved
  resolve_secrets names = resolve_from names []

  -- `interpolateSecrets`
  unfoldable mutual
    pub interpolate_secrets : Json → Json
    interpolate_secrets (text s) = text (interpolate_text 0 s)
    interpolate_secrets (array xs) = array (interpolate_items xs)
    interpolate_secrets (object fs) = object (interpolate_fields fs)
    interpolate_secrets (atom s) = atom s

    pub interpolate_items : Items → Items
    interpolate_items nil = nil
    interpolate_items (cons x xs) = cons (interpolate_secrets x) (interpolate_items xs)

    pub interpolate_fields : Fields → Fields
    interpolate_fields end = end
    interpolate_fields (field k v fs) = field k (interpolate_secrets v) (interpolate_fields fs)
