-- ===== src/Tests/Contexts.antt =====
-- Contexts and files: the compaction, previews, the output of commands, the paths of a workspace and
-- the files of variables.
use openhermit.Prelude.{
  ℕ, ◌*◌, ◌/◌, ◌≤◌, ◌<◌, Text, text_eq, codes, starts_with, leb, Bool, true, false, none, some,
  List, [], ◌∷◌, ◌++◌, length, ◌≡◌, ◌⊎◌, refl, arith, if◌then◌else◌,
}
use openhermit.ToolResults.{Format}
use openhermit.Compaction.{Item, AgentMessage, user_text, estimate_messages_tokens}
use openhermit.Compaction.Summary.{no_json}
use openhermit.Compaction.Window.{CompactionDeps, SummaryStore, compact_context_if_needed}
use openhermit.Compaction.Window.Shrinks.{IsCompacted, compact_context_if_needed_lem}
use openhermit.Output.{empty_string, join_parts, byte_length}
use openhermit.Output.Bounded.{append_all, IsBounded, append_all-IsBounded}
use openhermit.Workspace.{
  FilePath, FileSystem, file, read_file, resolve, resolve_path, segments, join_segments, enter_all,
  relative_segments, is_path_outside_root,
}
use openhermit.Workspace.Inside.{read_file-under}
use openhermit.Env.{Vars, parse_env_file}
use openhermit.Policy.Commands.{is_space}
use openhermit.Env.Lines.{render}
use openhermit.Env.RoundTrip.{set_all, parse_env_file-render}

abbrev format : Format
format = record {
  to_locale_string = λ n. codes "n";
  eight_tenths = λ n. n * 8 / 10;
  two_tenths = λ n. n * 2 / 10;
}

abbrev two_results : List Item
two_results = Item.text (codes "0123456789") ∷ Item.text (codes "0123456789") ∷ []

short_numbers : (n : ℕ) → length (format.to_locale_string n) ≤ 1
short_numbers n = omega arith

abbrev up_to_two : ℕ → Bool
up_to_two n = leb n 2

abbrev deps : CompactionDeps
deps = record {
  options = record { max_tokens = 20; recent_message_count = 6; summary_max_chars = 10 };
  agent = none;
  parse = λ s. no_json;
}

abbrev no_summary_saved : SummaryStore
no_summary_saved = record { saved = none; get_throws = false; set_throws = false }

abbrev greetings : List AgentMessage
greetings = user_text (codes "hello") ∷ user_text (codes "hello again") ∷ []

compact_context_if_needed_lem_example :
    let result =
      (compact_context_if_needed deps (codes "s") no_summary_saved [] greetings).messages in
    (result ≡ [] ++ greetings)
    ⊎ (IsCompacted [] greetings result
        × (estimate_messages_tokens result < estimate_messages_tokens ([] ++ greetings))
        × (20 < estimate_messages_tokens ([] ++ greetings)))
compact_context_if_needed_lem_example =
    compact_context_if_needed_lem deps (codes "s") no_summary_saved [] greetings

append_all-IsBounded_example :
    IsBounded 5
      (codes "abc" ∷ codes "defg" ∷ [])
      (append_all 5 empty_string (codes "abc" ∷ codes "defg" ∷ []))
    × (byte_length (join_parts (append_all 5 empty_string (codes "abc" ∷ codes "defg" ∷ [])).parts)
        ≤ 5)
append_all-IsBounded_example =
    append_all-IsBounded 5 (codes "abc" ∷ codes "defg" ∷ []) (omega arith)

-- The directory `/w`, in which `f` is a file and `link` points to `/etc/x`.
abbrev root : FilePath
root = codes "w" ∷ []

abbrev is_link : FilePath → Bool
is_link [] = false
is_link (s ∷ []) = false
is_link (s ∷ t ∷ p) = text_eq t (codes "link")

abbrev outside_target : FilePath
outside_target = codes "etc" ∷ codes "x" ∷ []

abbrev fs : FileSystem
fs = record {
  mkdir = λ p. true;
  realpath = λ p. some (if is_link p then outside_target else p);
  access = λ p. true;
  stat = λ p. some file;
}

read_file-under_example :
    ((r : FilePath) × (◌≡◌ {A = FilePath} (codes "w" ∷ codes "f" ∷ []) (root ++ r)))
    × ((canonical : FilePath) × (target : FilePath) × (r : FilePath) × (fs.realpath root
          ≡ some canonical)
        × (fs.realpath (codes "w" ∷ codes "f" ∷ []) ≡ some target)
        × (target ≡ canonical ++ r))
    × (fs.stat (codes "w" ∷ codes "f" ∷ []) ≡ some file)
unfolding read_file resolve resolve_path segments enter_all text_eq starts_with relative_segments
    is_path_outside_root join_segments
read_file-under_example = read_file-under fs root (codes "f") (codes "w" ∷ codes "f" ∷ []) refl

abbrev vars : Vars
vars = (codes "KEY", codes "a \"b\"\n c ") ∷ (codes "EMPTY", []) ∷ []

parse_env_file-render_example : parse_env_file (render vars) ≡ set_all [] vars
unfolding is_space
parse_env_file-render_example = parse_env_file-render vars refl

abbrev gateway_text : Text
gateway_text = codes "A=1\nB=2\n"

abbrev process_vars : Vars
process_vars = (codes "A", codes "9") ∷ []
