-- ===== src/CliArgs.antt =====
-- apps/cli/src/args.ts: the arguments of the chat command. An error is a value that says which of the
-- messages is thrown; the environment's agent id is an argument.
pub mod RoundTrip
use openhermit.Prelude.{
  Text, codes, text_eq, truthy, Bool, true, false, ◌&&◌, ◌||◌, Option, none, some, or_else, List,
  [], ◌∷◌, if◌then◌else◌,
}

pub record ChatCliOptions : Type 0 where
  pub agent_id : Text
  pub session_id : Option Text
  pub resume : Bool

pub data ArgsError : Type 0 where
  missing_value unknown_argument : Text → ArgsError
  help conflict : ArgsError

pub data Parsed : Type 0 where
  parsed : ChatCliOptions → Parsed
  refused : ArgsError → Parsed

abbrev pub agent_flag : Text
agent_flag = codes "--agent"

abbrev pub session_flag : Text
session_flag = codes "--session"

abbrev pub resume_flag : Text
resume_flag = codes "--resume"

abbrev is_help : Text → Bool
is_help arg = text_eq arg (codes "--help") || text_eq arg (codes "-h")

abbrev pub present : Option Text → Option Text
present none = none
present (some s) = if truthy s then some s else none

abbrev names_session : Option Text → Bool
names_session none = false
names_session (some s) = truthy s

-- After the loop.
abbrev pub finish : ChatCliOptions → Parsed
finish o =
    if o.resume && names_session o.session_id
    then refused conflict
    else parsed (record o { session_id = present o.session_id })

-- Which flag an argument is.
pub data Flag : Type 0 where
  agent session resume help_text unknown : Flag

abbrev pub flag_of : Text → Flag
flag_of arg =
    if text_eq arg agent_flag
    then agent
    else if text_eq arg session_flag
    then session
    else if text_eq arg resume_flag
    then resume
    else if is_help arg
    then help_text
    else unknown

-- One round of the loop: `value` is the argument after the flag, `next` and `skip` go on with the
-- arguments after the flag and after the value.
abbrev pub parse_flag :
    Flag
    → Text
    → Text
    → (ChatCliOptions → Parsed)
    → (ChatCliOptions → Parsed)
    → ChatCliOptions
    → Parsed
parse_flag resume arg value next skip o = next (record o { resume = true })
parse_flag help_text arg value next skip o = refused help
parse_flag unknown arg value next skip o = refused (unknown_argument arg)
parse_flag agent arg value next skip o =
    if truthy value then skip (record o { agent_id = value }) else refused (missing_value arg)
parse_flag session arg value next skip o =
    if truthy value
    then skip (record o { session_id = some value })
    else refused (missing_value arg)

-- The loop; past the end there is no value, which the source treats as an empty one.
unfoldable pub parse_from : List Text → ChatCliOptions → Parsed
parse_from [] o = finish o
parse_from (arg ∷ []) o = parse_flag (flag_of arg) arg [] finish finish o
parse_from (arg ∷ value ∷ args) o =
    parse_flag (flag_of arg) arg value (λ q. parse_from (value ∷ args) q) (λ q. parse_from args q) o

unfoldable pub parse_chat_cli_args : List Text → Option Text → Parsed
parse_chat_cli_args argv agent_env =
    parse_from argv
      (record { agent_id = or_else agent_env (codes "main"); session_id = none; resume = false })
