-- ===== src/CliArgs/RoundTrip.antt =====
-- Printing options and parsing them.
use openhermit.Prelude.{
  Text, Bool, true, false, not, ◌&&◌, Option, none, some, is_some, List, [], ◌∷◌, ◌++◌, text_eq,
  truthy, ◌≡◌, refl,
}
use openhermit.CliArgs.{
  ChatCliOptions, parsed, agent_flag, session_flag, resume_flag, parse_from, parse_chat_cli_args,
}

-- The arguments that ask for options.
unfoldable pub render_session : Option Text → List Text
render_session none = []
render_session (some s) = session_flag ∷ s ∷ []

unfoldable pub render_resume : Bool → List Text
render_resume true = resume_flag ∷ []
render_resume false = []

unfoldable pub render : ChatCliOptions → List Text
render o = agent_flag ∷ o.agent_id ∷ render_session o.session_id ++ render_resume o.resume

-- Options that the command can have: no name is empty, and a session is named or resumed, not both.
abbrev pub is_named : Option Text → Bool
is_named none = true
is_named (some s) = truthy s

abbrev pub is_valid : ChatCliOptions → Bool
is_valid o = truthy o.agent_id && is_named o.session_id && not (o.resume && is_some o.session_id)

parse_rendered :
    (agent : Text) (session : Option Text) (resume : Bool) (env : Option Text)
    → is_valid (record { agent_id = agent; session_id = session; resume = resume }) ≡ true
    → parse_chat_cli_args
        (render (record { agent_id = agent; session_id = session; resume = resume }))
        env
      ≡ parsed (record { agent_id = agent; session_id = session; resume = resume })
unfolding parse_chat_cli_args parse_from render render_session render_resume text_eq
parse_rendered [] session resume env h = absurd (cc h)
parse_rendered (c ∷ a) none true env h = refl
parse_rendered (c ∷ a) none false env h = refl
parse_rendered (c ∷ a) (some []) resume env h = absurd (cc h)
parse_rendered (c ∷ a) (some (d ∷ s)) true env h = absurd (cc h)
parse_rendered (c ∷ a) (some (d ∷ s)) false env h = refl

-- Options that the command can have are those that it reads from the arguments printed for them,
-- whatever the environment says.
pub parse_chat_cli_args-render :
    (o : ChatCliOptions) (env : Option Text)
    → is_valid o ≡ true
    → parse_chat_cli_args (render o) env ≡ parsed o
parse_chat_cli_args-render o env h = parse_rendered o.agent_id o.session_id o.resume env h
