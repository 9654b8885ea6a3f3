-- ===== src/Schedules/Scheduler/Releases.antt =====
-- A run that has claimed its slot gives it back.
use openhermit.Prelude.{
  Bool, true, false, ℕ, ◌<◌, ◌≤◌, Text, Option, none, some, List, [], ◌∷◌, ◌++◌, ◌==◌,
  if◌then◌else◌, length, ◌≡◌, refl, ap, drop, arith,
}
use mathlib.Core.Option
use openhermit.Schedules.{
  ScheduleStore, ScheduleRecord, ScheduleType, ScheduleStatus, ScheduleRunRecord, RunStatus,
  mark_success, start_run, mark_run, finish_run, finish_row, update_status, get,
}
use openhermit.Schedules.Scheduler.Backoff.{lookup-update_row}
use openhermit.Schedules.Scheduler.{
  CronJob, Phase, loading, starting, opening, posting, marking, finishing, completing, deactivating,
  failing, marking_failed, Outcome, resolves, rejects, after_get, after_finish, delivery_note,
  session_id_of, proceed, recover, advance, retry_next,
}

-- How many more calls a run can wait for.
abbrev pub left : Phase → ℕ
left loading = 10
left (starting s prompt) = 9
left (opening s run) = 8
left (posting s run) = 7
left (marking s run next) = 6
left (finishing s run) = 5
left (completing s run) = 4
left (deactivating s run) = 3
left (failing s run m) = 2
left (marking_failed s run m next) = 1

abbrev left_in : Option Phase → ℕ
left_in none = 0
left_in (some p) = left p

after_get-left : (o : Option ScheduleRecord) → left_in (after_get o) ≤ 9
after_get-left none = omega arith
after_get-left (some s) = ground arith

after_finish-left :
    (k : ScheduleType) (s : ScheduleRecord) (run : ℕ) → left_in (after_finish k s run) ≤ 4
after_finish-left ScheduleType.cron s run = omega arith
after_finish-left ScheduleType.once s run = omega arith

proceed-left :
    (jobs : List (Text × CronJob)) (id : Text) (p : Phase) (store : ScheduleStore)
    → left_in (proceed jobs id p store).1 < left p
unfolding proceed
proceed-left jobs id loading store = omega (arith, after_get-left (get id store))
proceed-left jobs id (starting s prompt) store = omega arith
proceed-left jobs id (opening s run) store = omega arith
proceed-left jobs id (posting s run) store = omega arith
proceed-left jobs id (marking s run next) store = omega arith
proceed-left jobs id (finishing s run) store = omega (arith, after_finish-left s.kind s run)
proceed-left jobs id (completing s run) store = omega arith
proceed-left jobs id (deactivating s run) store = omega arith
proceed-left jobs id (failing s run m) store = omega arith
proceed-left jobs id (marking_failed s run m next) store = omega arith

recover-left :
    (jobs : List (Text × CronJob)) (id : Text) (now : ℕ) (message : Text) (p : Phase)
    → left_in (recover jobs id now message p) < left p
unfolding recover
recover-left jobs id now message loading = omega arith
recover-left jobs id now message (starting s prompt) = omega arith
recover-left jobs id now message (opening s run) = omega arith
recover-left jobs id now message (posting s run) = omega arith
recover-left jobs id now message (marking s run next) = omega arith
recover-left jobs id now message (finishing s run) = omega arith
recover-left jobs id now message (completing s run) = omega arith
recover-left jobs id now message (deactivating s run) = omega arith
recover-left jobs id now message (failing s run m) = omega arith
recover-left jobs id now message (marking_failed s run m next) = omega arith

advance-left :
    (jobs : List (Text × CronJob)) (id : Text) (p : Phase) (o : Outcome) (store : ScheduleStore)
    → left_in (advance jobs id p o store).1 < left p
unfolding advance
advance-left jobs id p resolves store = proceed-left jobs id p store
advance-left jobs id p (rejects m) store = recover-left jobs id store.now m p

-- The run with an id.
abbrev pub find_run : ℕ → List (ℕ × ScheduleRunRecord) → Option ScheduleRunRecord
find_run n [] = none
find_run n ((k, r) ∷ m) = if k == n then some r else find_run n m

-- A run alone, with the outcomes of the calls that it waits for.
unfoldable pub fly :
    List (Text × CronJob)
    → Text
    → List Outcome
    → ScheduleStore × Option Phase
    → ScheduleStore × Option Phase
fly jobs id outcomes (store, none) = (store, none)
fly jobs id [] (store, some p) = (store, some p)
fly jobs id (o ∷ outcomes) (store, some p) = fly jobs id outcomes (advance jobs id p o store)

fly-left :
    (jobs : List (Text × CronJob)) (id : Text) (outcomes : List Outcome)
    (at : ScheduleStore × Option Phase)
    → left_in at.1 ≤ length outcomes
    → (fly jobs id outcomes at).1 ≡ none
unfolding fly
fly-left jobs id [] (store, none) h = refl
fly-left jobs id (o ∷ os) (store, none) h = refl
fly-left jobs id [] (store, some p) h =
    absurd (omega (arith, recover-left jobs id store.now [] p, h))
fly-left jobs id (o ∷ os) (store, some p) h =
    fly-left jobs id os (advance jobs id p o store)
      (omega (arith, advance-left jobs id p o store, h))

-- Whatever the calls yield that a run waits for, values or errors, after at most ten of them the run
-- has ended.
pub fly-ends :
    (jobs : List (Text × CronJob)) (id : Text) (outcomes : List Outcome) (store : ScheduleStore)
    → 10 ≤ length outcomes
    → (fly jobs id outcomes (store, some loading)).1 ≡ none
fly-ends jobs id outcomes store h = fly-left jobs id outcomes (store, some loading) h

abbrev pub all_resolve : List Outcome
all_resolve =
    resolves ∷ resolves ∷ resolves ∷ resolves ∷ resolves ∷ resolves ∷ resolves ∷ resolves ∷ resolves
    ∷ resolves ∷ []

-- An active schedule that runs once.
abbrev pub once_now : ScheduleRecord → ScheduleRecord
once_now s = record s { kind = ScheduleType.once; status = ScheduleStatus.active }

fly-loaded :
    (jobs : List (Text × CronJob)) (id : Text) (os : List Outcome) (store : ScheduleStore)
    (s : ScheduleRecord)
    → get id store ≡ some (once_now s)
    → fly jobs id (resolves ∷ os) (store, some loading)
      ≡ fly jobs id os (store, some (starting (once_now s) (s.prompt ++ delivery_note s.delivery)))
unfolding fly advance proceed
fly-loaded jobs id os store s h = ap (λ o. fly jobs id os (store, after_get o)) h

abbrev after_once : Text → Text → Text → ScheduleStore → ScheduleStore
after_once id session_id prompt store = update_status id ScheduleStatus.completed (
    finish_run store.next_id RunStatus.completed []
      (mark_run id none [] (start_run id session_id prompt store)))

fly-started :
    (jobs : List (Text × CronJob)) (id prompt : Text) (store : ScheduleStore) (s : ScheduleRecord)
    → fly jobs id (drop 1 all_resolve) (store, some (starting (once_now s) prompt))
      ≡ (after_once id (session_id_of s.schedule_id) prompt store, none)
unfolding fly advance proceed
fly-started jobs id prompt store s = refl

get-after_once :
    (id session_id prompt : Text) (store : ScheduleStore) (s : ScheduleRecord)
    → get id store ≡ some s
    → get id (after_once id session_id prompt store)
      ≡ some (record (mark_success store.now none s) { status = ScheduleStatus.completed })
unfolding get update_status finish_run mark_run start_run
get-after_once id session_id prompt store s h =
    lookup-update_row id (λ r. record r { status = ScheduleStatus.completed }) _ _
      (lookup-update_row id (mark_success store.now none) store.schedules s h)

find_run-after_once :
    (id session_id prompt : Text) (store : ScheduleStore)
    → Option.map
        (λ r. r.status)
        (find_run store.next_id (after_once id session_id prompt store).runs)
      ≡ some RunStatus.completed
unfolding update_status finish_run mark_run start_run finish_row
find_run-after_once id session_id prompt store = ground arith

-- Where every awaited call succeeds, the run of a stored active schedule of the kind that runs
-- once leaves the schedule completed, with one run more, no error and no next run, and the run
-- that was recorded for it completed.
pub fly-completes :
    (jobs : List (Text × CronJob)) (id : Text) (store : ScheduleStore) (s : ScheduleRecord)
    → get id store ≡ some (once_now s)
    → (get id (fly jobs id all_resolve (store, some loading)).0
        ≡ some (record (mark_success store.now none (once_now s)) {
          status = ScheduleStatus.completed;
        }))
      × (Option.map
            (λ r. r.status)
            (find_run store.next_id (fly jobs id all_resolve (store, some loading)).0.runs)
          ≡ some RunStatus.completed)
fly-completes jobs id store s h =
    let prompt = s.prompt ++ delivery_note s.delivery in
    rw (fly-loaded jobs id (drop 1 all_resolve) store s h, fly-started jobs id prompt store s)
      (
        get-after_once id (session_id_of s.schedule_id) prompt store (once_now s) h,
        find_run-after_once id (session_id_of s.schedule_id) prompt store,
      )

-- A stored active schedule.
abbrev pub active_now : ScheduleRecord → ScheduleRecord
active_now s = record s { status = ScheduleStatus.active }

-- The session is opened and the message posted, or not, where one of them throws; the two calls that
-- record the failure succeed.
abbrev pub failing_at : Bool → Text → List Outcome
failing_at true message =
    resolves ∷ resolves ∷ resolves ∷ rejects message ∷ resolves ∷ resolves ∷ []
failing_at false message = resolves ∷ resolves ∷ rejects message ∷ resolves ∷ resolves ∷ []

abbrev after_failure :
    List (Text × CronJob)
    → Text
    → Text
    → Text
    → Text
    → ScheduleRecord
    → ScheduleStore
    → ScheduleStore
after_failure jobs id session_id prompt message s store =
    mark_run id (retry_next s.kind s.consecutive_errors id jobs store.now) message
      (finish_run store.next_id RunStatus.failed message (start_run id session_id prompt store))

-- How a run has ended, and with which error.
abbrev pub ended_with : ScheduleRunRecord → RunStatus × Option Text
ended_with r = (r.status, r.error)
