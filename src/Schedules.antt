-- ===== src/Schedules.antt =====
-- packages/store/src/impl/schedule-store.ts: the schedules of one agent and their runs, with the
-- operations that the scheduler calls. Instants are milliseconds.
pub mod Scheduler
use openhermit.Prelude.{
  ℕ, suc, ◌+◌, ◌-◌, Text, text_keys, truthy, leb, ◌==◌, Bool, true, false, ◌&&◌, Option, none, some,
  or_else, List, [], ◌∷◌, ◌++◌, lookup, erase, is_some, filter, find, map, if◌then◌else◌,
}

pub data ScheduleType : Type 0 where
  cron once : ScheduleType

pub data ScheduleStatus : Type 0 where
  active paused completed failed : ScheduleStatus

pub data ScheduleDelivery : Type 0 where
  silent : ScheduleDelivery
  session : Option Text → ScheduleDelivery

pub record ScheduleRecord : Type 0 where
  pub schedule_id : Text
  pub kind : ScheduleType
  pub status : ScheduleStatus
  pub cron_expression : Option Text
  pub run_at : Option ℕ
  pub prompt : Text
  pub delivery : ScheduleDelivery
  pub created_by : Option Text
  pub last_run_at : Option ℕ
  pub next_run_at : Option ℕ
  pub run_count : ℕ
  pub consecutive_errors : ℕ
  pub last_error : Option Text

pub data RunStatus : Type 0 where
  running completed failed skipped : RunStatus

pub record ScheduleRunRecord : Type 0 where
  pub id : ℕ
  pub schedule_id : Text
  pub status : RunStatus
  pub session_id : Text
  pub prompt : Text
  pub started_at : ℕ
  pub finished_at : Option ℕ
  pub duration_ms : Option ℕ
  pub error : Option Text

-- The two tables; `next_id` is the serial of the runs, `now` what the clock shows.
pub record ScheduleStore : Type 0 where
  pub schedules : List (Text × ScheduleRecord)
  pub runs : List (ℕ × ScheduleRunRecord)
  pub next_id : ℕ
  pub now : ℕ

abbrev pub is_active : ScheduleStatus → Bool
is_active ScheduleStatus.active = true
is_active _ = false

abbrev pub is_due : ℕ → Option ℕ → Bool
is_due now none = false
is_due now (some t) = leb t now

unfoldable pub get : Text → ScheduleStore → Option ScheduleRecord
get id store = lookup text_keys id store.schedules

abbrev rows : List (Text × ScheduleRecord) → List ScheduleRecord
rows [] = []
rows ((id, s) ∷ m) = s ∷ rows m

-- `list` with the status `active`
unfoldable pub list_active : ScheduleStore → List ScheduleRecord
list_active store = filter (λ s. is_active s.status) (rows store.schedules)

unfoldable pub list_due : ScheduleStore → List ScheduleRecord
list_due store =
    filter (λ s. is_active s.status && is_due store.now s.next_run_at) (rows store.schedules)

-- `update ... set ... where schedule_id = id`
unfoldable pub update_row :
    Text
    → (ScheduleRecord → ScheduleRecord)
    → List (Text × ScheduleRecord)
    → List (Text × ScheduleRecord)
update_row id f [] = []
update_row id f ((k, s) ∷ m) =
    if text_keys.beq k id then (k, f s) ∷ update_row id f m else (k, s) ∷ update_row id f m

abbrev pub mark_error : ℕ → Option ℕ → Text → ScheduleRecord → ScheduleRecord
mark_error now next error s = record s {
  last_run_at = some now;
  next_run_at = next;
  consecutive_errors = suc s.consecutive_errors;
  last_error = some error;
}

abbrev pub mark_success : ℕ → Option ℕ → ScheduleRecord → ScheduleRecord
mark_success now next s = record s {
  last_run_at = some now;
  next_run_at = next;
  run_count = suc s.run_count;
  consecutive_errors = 0;
  last_error = none;
}

abbrev pub marked : ℕ → Option ℕ → Text → ScheduleRecord → ScheduleRecord
marked now next [] = mark_success now next
marked now next (c ∷ error) = mark_error now next (c ∷ error)

-- An `error` that is missing and one that is the empty string are the same here.
unfoldable pub mark_run : Text → Option ℕ → Text → ScheduleStore → ScheduleStore
mark_run id next error store = record store {
  schedules = update_row id (marked store.now next error) store.schedules;
}

unfoldable pub start_run : Text → Text → Text → ScheduleStore → ScheduleStore
start_run id session_id prompt store = record store {
  runs =
      (
        store.next_id,
        record {
          id = store.next_id;
          schedule_id = id;
          status = RunStatus.running;
          session_id = session_id;
          prompt = prompt;
          started_at = store.now;
          finished_at = none;
          duration_ms = none;
          error = none;
        },
      )
      ∷ store.runs;
  next_id = suc store.next_id;
}

-- `...(error ? { error } : {})`
abbrev set_error : Text → Option Text → Option Text
set_error [] old = old
set_error (c ∷ e) old = some (c ∷ e)

unfoldable pub finish_row :
    ℕ → RunStatus → Text → ℕ → List (ℕ × ScheduleRunRecord) → List (ℕ × ScheduleRunRecord)
finish_row id status error now [] = []
finish_row id status error now ((k, r) ∷ m) =
    let rest = finish_row id status error now m in
    if k == id
    then (
      k,
      record r {
        status = status;
        finished_at = some now;
        duration_ms = some (now - r.started_at);
        error = set_error error r.error;
      },
    )
      ∷ rest
    else (k, r) ∷ rest

unfoldable pub finish_run : ℕ → RunStatus → Text → ScheduleStore → ScheduleStore
finish_run id status error store = record store {
  runs = finish_row id status error store.now store.runs;
}

pub record ScheduleCreateInput : Type 0 where
  pub schedule_id : Option Text
  pub kind : ScheduleType
  pub cron_expression : Option Text
  pub run_at : Option ℕ
  pub prompt : Text
  pub delivery : Option ScheduleDelivery
  pub created_by : Option Text

-- `type === 'once' ? (runAt ?? null) : null`
abbrev first_run : ScheduleType → Option ℕ → Option ℕ
first_run ScheduleType.once run_at = run_at
first_run ScheduleType.cron run_at = none

abbrev pub new_schedule : Text → ScheduleCreateInput → ScheduleRecord
new_schedule id input = record {
  schedule_id = id;
  kind = input.kind;
  status = ScheduleStatus.active;
  cron_expression = input.cron_expression;
  run_at = input.run_at;
  prompt = input.prompt;
  delivery = or_else input.delivery silent;
  created_by = input.created_by;
  last_run_at = none;
  next_run_at = first_run input.kind input.run_at;
  run_count = 0;
  consecutive_errors = 0;
  last_error = none;
}

-- `create`; `drawn` is the id that is drawn where the input names none. The database refuses an id
-- that is taken, which gives nothing.
unfoldable pub create_schedule : Text → ScheduleCreateInput → ScheduleStore → Option ScheduleStore
create_schedule drawn input store =
    let id = or_else input.schedule_id drawn in
    if is_some (lookup text_keys id store.schedules)
    then none
    else some (record store { schedules = store.schedules ++ (id, new_schedule id input) ∷ [] })

pub record ScheduleUpdateInput : Type 0 where
  pub status : Option ScheduleStatus
  pub cron_expression : Option Text
  pub run_at : Option ℕ
  pub prompt : Option Text
  pub delivery : Option ScheduleDelivery

-- `if (x !== undefined) data.x = x`, for a column that may be null
abbrev set_if : {A : Type 0} → Option A → Option A → Option A
set_if none old = old
set_if (some x) old = some x

abbrev pub with_update : ScheduleUpdateInput → ScheduleRecord → ScheduleRecord
with_update input s = record s {
  status = or_else input.status s.status;
  cron_expression = set_if input.cron_expression s.cron_expression;
  run_at = set_if input.run_at s.run_at;
  prompt = or_else input.prompt s.prompt;
  delivery = or_else input.delivery s.delivery;
}

unfoldable pub update_schedule : Text → ScheduleUpdateInput → ScheduleStore → ScheduleStore
update_schedule id input store = record store {
  schedules = update_row id (with_update input) store.schedules;
}

unfoldable pub delete_schedule : Text → ScheduleStore → ScheduleStore
delete_schedule id store = record store { schedules = erase text_keys id store.schedules }

-- `update` with a status
unfoldable pub update_status : Text → ScheduleStatus → ScheduleStore → ScheduleStore
update_status id status store = record store {
  schedules = update_row id (λ s. record s { status = status }) store.schedules;
}
