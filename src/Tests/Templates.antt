-- ===== src/Tests/Templates.antt =====
-- The placeholders of secrets.
use openhermit.Prelude.{
  Text, codes, text_eq, lookup, insert, starts_with, Option, none, some, List, [], ◌∷◌, ◌≡◌, refl,
}
use openhermit.Secrets.{
  Json, Resolved, word, after_word, placeholder_name, interpolate_text, interpolate_secrets,
  resolve_from, resolve_secrets,
}
use openhermit.Secrets.Templates.{Part, plain, secret, template, filled, interpolate_text-template}

abbrev nothing : Text → Option Text
nothing name = none

abbrev key : List (Text × Text)
key = (codes "KEY", codes "${{KEY}}") ∷ []

abbrev parts : List Part
parts = plain 97 ∷ secret 75 (codes "EY") ∷ secret 88 [] ∷ plain 122 ∷ []

interpolate_text-template_example :
    interpolate_text nothing key 0 (template parts) ≡ filled nothing key parts
interpolate_text-template_example = interpolate_text-template nothing key parts refl

filled-parts : filled nothing key parts ≡ codes "a${{KEY}}${{X}}z"
unfolding filled lookup text_eq
filled-parts = refl

-- A name that every object has, with `nothing` in its place: the text of the function.
abbrev has_constructor : Text → Option Text
has_constructor name = some (codes "function")

interpolate_secrets-constructor :
    interpolate_secrets has_constructor [] (Json.text (codes "${{constructor}}"))
    ≡ Json.text (codes "function")
unfolding interpolate_secrets interpolate_text placeholder_name starts_with word after_word lookup
interpolate_secrets-constructor = refl

resolve_secrets-unknown :
    resolve_secrets nothing key (codes "KEY" ∷ codes "X" ∷ []) ≡ Resolved.not_found (codes "X")
unfolding resolve_from lookup insert text_eq
resolve_secrets-unknown = refl
