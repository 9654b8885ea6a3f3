-- ===== src/Schedules/Scheduler.antt =====
-- apps/agent/src/core/scheduler.ts: the scheduler, an asynchronous machine. A run that `executeJob`
-- has begun waits at one `await`, its phase; an event lets one run go on with the outcome of what
-- it waits for. The cron library is a parameter: for an expression it is valid or not, and gives
-- the next run after an instant. The session host keeps no state that the scheduler reads.
pub mod Slots
pub mod Releases
pub mod Backoff
use openhermit.Prelude.{
  ℕ, zero, suc, ◌+◌, ◌-◌, max, Text, codes, text_eq, text_keys, truthy, ltb, Bool, true, false, not,
  ◌&&◌, ◌||◌, Option, none, some, is_some, or_else, List, [], ◌∷◌, ◌++◌, lookup, insert, filter,
  some_of, length, if◌then◌else◌, ◌>>=◌,
}
use openhermit.Schedules.{
  ScheduleRecord, ScheduleType, ScheduleStatus, ScheduleDelivery, silent, session, RunStatus,
  ScheduleStore, is_active, get, list_active, list_due, mark_run, start_run, finish_run,
  update_status,
}

-- `Cron`: the next run after an instant.
abbrev pub CronJob : Type 0
CronJob = ℕ → Option ℕ

pub data Phase : Type 0 where
  loading : Phase
  starting : ScheduleRecord → Text → Phase
  opening posting : ScheduleRecord → ℕ → Phase
  marking : ScheduleRecord → ℕ → Option ℕ → Phase
  finishing completing deactivating : ScheduleRecord → ℕ → Phase
  failing : ScheduleRecord → ℕ → Text → Phase
  marking_failed : ScheduleRecord → ℕ → Text → Option ℕ → Phase

-- A call of `executeJob` that has claimed its slot and has not returned.
pub record Flight : Type 0 where
  pub id : Text
  pub phase : Phase

pub record Scheduler : Type 0 where
  pub stopped : Bool
  pub running : List Text
  pub cron_jobs : List (Text × CronJob)
  pub flights : List Flight
  pub store : ScheduleStore

-- What an `await` yields: its value, or an error with this message.
pub data Outcome : Type 0 where
  resolves : Outcome
  rejects : Text → Outcome

abbrev pub backoff_steps : List ℕ
backoff_steps = 30000 ∷ 60000 ∷ 300000 ∷ 900000 ∷ 3600000 ∷ []

-- `BACKOFF_STEPS[Math.min(n, BACKOFF_STEPS.length - 1)]`
unfoldable pub backoff_at : ℕ → List ℕ → ℕ
backoff_at n [] = 0
backoff_at n (b ∷ []) = b
backoff_at zero (b ∷ c ∷ bs) = b
backoff_at (suc n) (b ∷ c ∷ bs) = backoff_at n (c ∷ bs)

unfoldable pub backoff_ms : ℕ → ℕ
unfolding backoff_at
backoff_ms errors = backoff_at errors backoff_steps

-- `cronJob?.nextRun()`
abbrev pub next_run : Text → List (Text × CronJob) → ℕ → Option ℕ
next_run id jobs now = lookup text_keys id jobs >>= λ job. job now

-- The next run after a success.
abbrev pub natural_next : ScheduleType → Text → List (Text × CronJob) → ℕ → Option ℕ
natural_next ScheduleType.cron id jobs now = next_run id jobs now
natural_next ScheduleType.once id jobs now = none

-- The next run after a failure, with the errors that the schedule had when it was read.
unfoldable pub retry_next : ScheduleType → ℕ → Text → List (Text × CronJob) → ℕ → Option ℕ
retry_next ScheduleType.cron errors id jobs now =
    some (max (or_else (next_run id jobs now) 0) (now + backoff_ms errors))
retry_next ScheduleType.once errors id jobs now = none

abbrev pub delivery_note : ScheduleDelivery → Text
delivery_note silent = []
delivery_note (session none) = []
delivery_note (session (some target)) =
    if truthy target
    then 10
        ∷ 10
        ∷ codes
            "[Delivery] After completing the task, if necessary, use session_send to send the result to session \""
      ++ target
      ++ codes "\"."
    else []

abbrev pub session_id_of : Text → Text
session_id_of id = codes "schedule:" ++ id

-- The claim at the head of `executeJob`, before its first `await`.
unfoldable pub execute_job : Text → Scheduler → Scheduler
execute_job id s = if s.stopped || some_of (λ r. text_eq r id) s.running then s else record s {
  running = id ∷ s.running;
  flights = record { id = id; phase = loading } ∷ s.flights;
}

-- After `store.get`.
abbrev pub after_get : Option ScheduleRecord → Option Phase
after_get none = none
after_get (some s) =
    if is_active s.status then some (starting s (s.prompt ++ delivery_note s.delivery)) else none

-- After `finishRun(run.id, 'completed')`.
abbrev pub after_finish : ScheduleType → ScheduleRecord → ℕ → Option Phase
after_finish ScheduleType.once s run = some (completing s run)
after_finish ScheduleType.cron s run = none

-- The awaited call has its effect, and the run goes on to the next `await`, or ends. The next run of a
-- schedule is computed before the call that records it is awaited.
unfoldable pub proceed :
    List (Text × CronJob) → Text → Phase → ScheduleStore → ScheduleStore × Option Phase
proceed jobs id loading store = (store, after_get (get id store))
proceed jobs id (starting s prompt) store =
    (start_run id (session_id_of s.schedule_id) prompt store, some (opening s store.next_id))
proceed jobs id (opening s run) store = (store, some (posting s run))
proceed jobs id (posting s run) store =
    (store, some (marking s run (natural_next s.kind id jobs store.now)))
proceed jobs id (marking s run next) store = (mark_run id next [] store, some (finishing s run))
proceed jobs id (finishing s run) store =
    (finish_run run RunStatus.completed [] store, after_finish s.kind s run)
proceed jobs id (completing s run) store =
    (update_status id ScheduleStatus.completed store, some (deactivating s run))
proceed jobs id (deactivating s run) store = (store, none)
proceed jobs id (failing s run message) store = (
  finish_run run RunStatus.failed message store,
  some (marking_failed s run message (retry_next s.kind s.consecutive_errors id jobs store.now)),
)
proceed jobs id (marking_failed s run message next) store = (mark_run id next message store, none)

-- The awaited call throws: the outer `catch` before the run is started, the inner one after, and
-- the `.catch` of the two calls that record a failure.
unfoldable pub recover : List (Text × CronJob) → Text → ℕ → Text → Phase → Option Phase
recover jobs id now message loading = none
recover jobs id now message (starting s prompt) = none
recover jobs id now message (opening s run) = some (failing s run message)
recover jobs id now message (posting s run) = some (failing s run message)
recover jobs id now message (marking s run next) = some (failing s run message)
recover jobs id now message (finishing s run) = some (failing s run message)
recover jobs id now message (completing s run) = some (failing s run message)
recover jobs id now message (deactivating s run) = some (failing s run message)
recover jobs id now message (failing s run m) =
    some (marking_failed s run m (retry_next s.kind s.consecutive_errors id jobs now))
recover jobs id now message (marking_failed s run m next) = none

unfoldable pub advance :
    List (Text × CronJob) → Text → Phase → Outcome → ScheduleStore → ScheduleStore × Option Phase
advance jobs id phase resolves store = proceed jobs id phase store
advance jobs id phase (rejects message) store = (store, recover jobs id store.now message phase)

abbrev pub get_elem? : List Flight → ℕ → Option Flight
get_elem? [] n = none
get_elem? (f ∷ fs) zero = some f
get_elem? (f ∷ fs) (suc n) = get_elem? fs n

abbrev pub set_at : ℕ → Phase → List Flight → List Flight
set_at n phase [] = []
set_at zero phase (f ∷ fs) = record f { phase = phase } ∷ fs
set_at (suc n) phase (f ∷ fs) = f ∷ set_at n phase fs

abbrev pub remove_at : ℕ → List Flight → List Flight
remove_at n [] = []
remove_at zero (f ∷ fs) = fs
remove_at (suc n) (f ∷ fs) = f ∷ remove_at n fs

-- `this.running.delete(id)`
abbrev pub delete_slot : Text → List Text → List Text
delete_slot id running = filter (λ r. not (text_eq r id)) running

-- A run that ends leaves through `finally`.
unfoldable pub settle : ℕ → Text → ScheduleStore × Option Phase → Scheduler → Scheduler
settle n id (store, some phase) s = record s { store = store; flights = set_at n phase s.flights }
settle n id (store, none) s = record s {
  store = store;
  flights = remove_at n s.flights;
  running = delete_slot id s.running;
}

-- The run in the place `n` goes on.
unfoldable pub resume : ℕ → Outcome → Scheduler → Scheduler
resume n o s = elim (get_elem? s.flights n) [
  | none ↦ s
  | some f ↦ settle n f.id (advance s.cron_jobs f.id f.phase o s.store) s
]

abbrev is_cron : ScheduleType → Bool
is_cron ScheduleType.cron = true
is_cron ScheduleType.once = false

-- One round of the loop of `tick`: a cron schedule is left to its timer where it has one.
unfoldable pub run_one : ScheduleRecord → Scheduler → Scheduler
run_one d s =
    if is_cron d.kind && is_some (lookup text_keys d.schedule_id s.cron_jobs)
    then s
    else execute_job d.schedule_id s

unfoldable pub run_due : List ScheduleRecord → Scheduler → Scheduler
run_due [] s = s
run_due (d ∷ ds) s = run_due ds (run_one d s)

unfoldable pub tick : Scheduler → Scheduler
tick s = if s.stopped then s else run_due (list_due s.store) s

abbrev pub mark_next : Text → Option ℕ → Scheduler → Scheduler
mark_next id none s = s
mark_next id (some t) s = record s { store = mark_run id (some t) [] s.store }

-- `registerCron`, with what `new Cron(expression)` gives: nothing where it throws.
unfoldable pub register_job : ScheduleRecord → Option CronJob → Scheduler → Scheduler
register_job r none s = record s {
  store = mark_run r.schedule_id none (codes "invalid cron expression") s.store;
}
register_job r (some job) s = record (mark_next r.schedule_id (job s.store.now) s) {
  cron_jobs = insert text_keys r.schedule_id job s.cron_jobs;
}

module _ (cron_of : Text → Option CronJob) where
  abbrev pub register_row : ScheduleRecord → Option Text → Scheduler → Scheduler
  register_row r none s = s
  register_row r (some e) s = if is_cron r.kind && truthy e then register_job r (cron_of e) s else s

  unfoldable pub register_all : List ScheduleRecord → Scheduler → Scheduler
  register_all [] s = s
  register_all (r ∷ rs) s = register_all rs (register_row r r.cron_expression s)

  unfoldable pub reload : Scheduler → Scheduler
  reload s = register_all (list_active s.store) (record s { cron_jobs = [] })

  unfoldable pub start : Scheduler → Scheduler
  start s = reload (record s { stopped = false })

unfoldable pub stop : Scheduler → Scheduler
stop s = record s { stopped = true; cron_jobs = [] }
