-- ===== src/Tests/Runs.antt =====
-- Runs: the scheduler, the event bus, the approval gate, the log buffer, the messages of the channels
-- and the arguments of the command line.
use mathlib.Core.Option
use openhermit.Prelude.{
  ℕ, ◌+◌, ◌≤◌, Text, codes, text_eq, lookup, false, starts_with, Option, none, some, or_else, List,
  [], ◌∷◌, ◌≡◌, ◌↔◌, refl, arith, if◌then◌else◌, ◌++◌,
}
use openhermit.Schedules.{
  ScheduleRecord, ScheduleType, ScheduleStatus, silent, ScheduleStore, RunStatus, mark_error,
  mark_success, get,
}
use openhermit.Schedules.Scheduler.{
  CronJob, Scheduler, loading, failing, marking_failed, Outcome, resolves, rejects, execute_job,
  backoff_ms, next_run, advance,
}
use openhermit.Schedules.Scheduler.Slots.{here, next, fires, count, has, Reach-IsExclusive}
use openhermit.Schedules.Scheduler.Releases.{fly, once_now, all_resolve, find_run, fly-completes}
use openhermit.Schedules.Scheduler.Backoff.{advance-waits}
use openhermit.Events.{
  SubscribeOptions, AgentEventBus, Result, returns, throws, VetoDecision, allow, PluginError,
  running, on, subs_of, run_veto,
}
use openhermit.Events.Chains.{Passes, run_veto_iff}
use openhermit.Gate.{new_gate, request}
use openhermit.Gate.Steps
use openhermit.Policy.Commands.{is_space, trim, trim_start, trim_end}
use openhermit.Logs.{LogEntry}
use openhermit.Channels.{split_message, split_from, split_index, last_index_of}
use openhermit.Channels.Chunks.{ChunksOf, split_message-ChunksOf}
use openhermit.CliArgs.{ChatCliOptions}
use openhermit.Sse.{
  parse_sse_frames, Number.pos, normalize, split_segments, split_lines, digits, read_lines,
}
use openhermit.Sse.Streamed.{parse_sse_frames-append, then_batch}

abbrev hourly : CronJob
hourly now = some (now + 3600000)

abbrev no_cron : Text → Option CronJob
no_cron expression = none

abbrev schedule : ScheduleRecord
schedule = record {
  schedule_id = codes "job";
  kind = ScheduleType.cron;
  status = ScheduleStatus.active;
  cron_expression = some (codes "0 * * * *");
  run_at = none;
  prompt = codes "go";
  delivery = silent;
  created_by = none;
  last_run_at = none;
  next_run_at = none;
  run_count = 4;
  consecutive_errors = 2;
  last_error = none;
}

abbrev store : ScheduleStore
store = record { schedules = (codes "job", schedule) ∷ []; runs = []; next_id = 1; now = 100 }

abbrev once_store : ScheduleStore
once_store = record store { schedules = (codes "job", once_now schedule) ∷ [] }

abbrev idle : Scheduler
idle = record { stopped = false; running = []; cron_jobs = []; flights = []; store = store }

-- The timer of a job fires twice.
Reach-IsExclusive_example :
    (count (codes "job") (execute_job (codes "job") (execute_job (codes "job") idle)).flights ≤ 1)
    × (count (codes "job") (execute_job (codes "job") (execute_job (codes "job") idle)).flights ≡ (
        if has (codes "job") (execute_job (codes "job") (execute_job (codes "job") idle)).running
        then 1
        else 0))
Reach-IsExclusive_example =
    Reach-IsExclusive no_cron (execute_job (codes "job") (execute_job (codes "job") idle))
      (codes "job")
      (next (next (here store) (fires (codes "job") idle))
        (fires (codes "job") (execute_job (codes "job") idle)))

abbrev outcomes : List Outcome
outcomes =
    resolves
    ∷ resolves
    ∷ rejects (codes "down")
    ∷ resolves
    ∷ resolves
    ∷ resolves
    ∷ resolves
    ∷ resolves
    ∷ resolves
    ∷ resolves
    ∷ []

fly-completes_example :
    (get (codes "job") (fly [] (codes "job") all_resolve (once_store, some loading)).0
      ≡ some (record (mark_success 100 none (once_now schedule)) {
        status = ScheduleStatus.completed;
      }))
    × (Option.map
          (λ r. r.status)
          (find_run 1 (fly [] (codes "job") all_resolve (once_store, some loading)).0.runs)
        ≡ some RunStatus.completed)
unfolding get lookup text_eq
fly-completes_example = fly-completes [] (codes "job") once_store schedule refl

advance-waits_example :
    (t : ℕ) × ((advance [] (codes "job") (failing schedule 1 (codes "down")) resolves store).1
      ≡ some (marking_failed schedule 1 (codes "down") (some t)))
    × ((jobs : List (Text × CronJob)) (later : ScheduleStore) (r : ScheduleRecord)
        → get (codes "job") later ≡ some r
        → get
            (codes "job")
            (advance jobs
              (codes "job")
              (marking_failed schedule 1 (codes "down") (some t))
              resolves
              later).0
          ≡ some (mark_error later.now (some t) (codes "down") r))
    × (100 + backoff_ms 2 ≤ t)
    × (or_else (next_run (codes "job") [] 100) 0 ≤ t)
    × (30000 ≤ backoff_ms 2)
    × (backoff_ms 2 ≤ 3600000)
    × (backoff_ms 2 ≤ backoff_ms 3)
advance-waits_example =
    advance-waits [] (codes "job") schedule 1 b'd' (codes "own") resolves store refl

abbrev Guards : Type 0
Guards = ℕ → Result (VetoDecision ℕ)

abbrev bus : AgentEventBus Guards
bus = record { subscriptions = []; next_registration_order = 0 }

abbrev options : ℕ → SubscribeOptions
options priority = record {
  priority = some priority;
  plugin_id = some (codes "p");
  failure_mode = none;
}

abbrev doubles : Guards
doubles n = returns (allow (some (n + n)))

abbrev broken : Guards
broken n = throws (codes "broken")

abbrev tool_before : Text
tool_before = codes "tool.before@v1"

abbrev two_guards : AgentEventBus Guards
two_guards = on tool_before broken (options 1) (on tool_before doubles (options 2) bus)

run_veto_iff_example :
    ((ends : List PluginError) × (run_veto tool_before 4 two_guards ≡ running 8 ends))
    ↔ Passes (subs_of tool_before two_guards) 4 8
unfolding text_eq lookup
run_veto_iff_example = run_veto_iff tool_before two_guards 4 8 refl

Reach-IsLive_example : Steps.IsLive (request (codes "call") new_gate)
Reach-IsLive_example =
    Steps.Reach-IsLive (request (codes "call") new_gate)
      (Steps.Reach.next Steps.Reach.here (Steps.Step.requests (codes "call") new_gate))

abbrev line : Text → LogEntry
line message = record { timestamp = codes "t"; message = message }

split_message-ChunksOf_example :
    (chunks : List Text) × (split_message 8 (codes "one two three") ≡ some chunks)
    × ChunksOf 8 (codes "one two three") chunks
split_message-ChunksOf_example = split_message-ChunksOf 8 (codes "one two three") (omega arith)

splits_at_space :
    split_message 8 (codes "one two three") ≡ some (codes "one two" ∷ codes "three" ∷ [])
unfolding split_message split_from split_index last_index_of starts_with trim_start trim_end
    is_space
splits_at_space = refl

abbrev chat_options : ChatCliOptions
chat_options = record { agent_id = codes "main"; session_id = some (codes "s1"); resume = false }

-- A stream cut between a carriage return and its newline.
abbrev first_part : Text
first_part = codes "id: 7\ndata: hi\n\nevent: end\r"

abbrev second_part : Text
second_part = codes "\ndata: x\r\n\r\nda"

parse_sse_frames-append_example :
    parse_sse_frames (first_part ++ second_part)
    ≡ then_batch
        (parse_sse_frames first_part)
        (parse_sse_frames ((parse_sse_frames first_part).remainder ++ second_part))
parse_sse_frames-append_example = parse_sse_frames-append first_part second_part refl

parse_sse_frames_two : parse_sse_frames (first_part ++ second_part) ≡ record {
  frames =
      record { id = some (pos 7); event = codes "message"; data_text = codes "hi" }
      ∷ record { id = none; event = codes "end"; data_text = codes "x" }
      ∷ [];
  remainder = codes "da";
}
unfolding normalize split_segments split_lines digits read_lines trim trim_start trim_end is_space
    starts_with
parse_sse_frames_two = refl
