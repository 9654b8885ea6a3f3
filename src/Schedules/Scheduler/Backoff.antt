-- ===== src/Schedules/Scheduler/Backoff.antt =====
-- When a schedule runs again, and what a run leaves in the tables.
use openhermit.Prelude.{
  ℕ, zero, suc, ◌+◌, ◌≤◌, max, Text, text_keys, Option, some, List, [], ◌∷◌, lookup, or_else, ◌≡◌,
  refl, ap, ◌∙◌, arith,
}
use openhermit.Schedules.{
  ScheduleStore, ScheduleRecord, ScheduleType, update_row, mark_run, mark_error, marked,
  mark_success, get,
}
use openhermit.Schedules.Scheduler.{
  CronJob, Scheduler, Outcome, failing, marking_failed, resolves, rejects, recover, advance,
  next_run, proceed, backoff_at, backoff_ms, retry_next, register_job,
}

backoff_at-bounds :
    (n : ℕ)
    → (30000 ≤ backoff_ms n) × (backoff_ms n ≤ 3600000) × (backoff_ms n ≤ backoff_ms (suc n))
unfolding backoff_ms backoff_at
backoff_at-bounds zero = ground arith
backoff_at-bounds (suc zero) = ground arith
backoff_at-bounds (suc (suc zero)) = ground arith
backoff_at-bounds (suc (suc (suc zero))) = ground arith
backoff_at-bounds (suc (suc (suc (suc n)))) = ground arith

retry_next-cron :
    (errors : ℕ) (id : Text) (jobs : List (Text × CronJob)) (now : ℕ)
    → (t : ℕ) × (retry_next ScheduleType.cron errors id jobs now ≡ some t)
      × (now + backoff_ms errors ≤ t)
      × (or_else (next_run id jobs now) 0 ≤ t)
unfolding retry_next
retry_next-cron errors id jobs now = (
  max (or_else (next_run id jobs now) 0) (now + backoff_ms errors),
  refl,
  omega arith,
  omega arith,
)

pub lookup-update_row :
    (id : Text) (f : ScheduleRecord → ScheduleRecord) (m : List (Text × ScheduleRecord))
    (r : ScheduleRecord)
    → lookup text_keys id m ≡ some r
    → lookup text_keys id (update_row id f m) ≡ some (f r)
unfolding update_row lookup
lookup-update_row id f [] r h = absurd (cc h)
lookup-update_row id f ((k, s) ∷ m) r h = ground (arith, h, lookup-update_row id f m r)

get-mark_run :
    (id : Text) (next : Option ℕ) (error : Text) (store : ScheduleStore) (r : ScheduleRecord)
    → get id store ≡ some r
    → get id (mark_run id next error store) ≡ some (marked store.now next error r)
unfolding get mark_run
get-mark_run id next error store r h =
    lookup-update_row id (marked store.now next error) store.schedules r h

failing-next :
    (jobs : List (Text × CronJob)) (id : Text) (s : ScheduleRecord) (run : ℕ) (m : Text)
    (o : Outcome) (store : ScheduleStore)
    → (advance jobs id (failing s run m) o store).1
      ≡ some (marking_failed s run m (retry_next s.kind s.consecutive_errors id jobs store.now))
unfolding advance proceed recover
failing-next jobs id s run m resolves store = refl
failing-next jobs id s run m (rejects e) store = refl

-- When a run of a cron schedule has failed with a message that is not empty, and the call that
-- finishes its row has settled in whatever way, the next run is fixed: no sooner than the wait for the
-- errors that the schedule had, which is half a minute at least and an hour at most and does not
-- shrink with one error more, and no sooner than its expression says. Whenever the failure is then
-- recorded, the stored schedule counts one more error, keeps the message and is due at that time.
pub advance-waits :
    (jobs : List (Text × CronJob)) (id : Text) (s : ScheduleRecord) (run c : ℕ) (m : Text)
    (o : Outcome) (store : ScheduleStore)
    → s.kind ≡ ScheduleType.cron
    → (t : ℕ) × ((advance jobs id (failing s run (c ∷ m)) o store).1
        ≡ some (marking_failed s run (c ∷ m) (some t)))
      × ((jobs' : List (Text × CronJob)) (later : ScheduleStore) (r : ScheduleRecord)
          → get id later ≡ some r
          → get id (advance jobs' id (marking_failed s run (c ∷ m) (some t)) resolves later).0
            ≡ some (mark_error later.now (some t) (c ∷ m) r))
      × (store.now + backoff_ms s.consecutive_errors ≤ t)
      × (or_else (next_run id jobs store.now) 0 ≤ t)
      × (30000 ≤ backoff_ms s.consecutive_errors)
      × (backoff_ms s.consecutive_errors ≤ 3600000)
      × (backoff_ms s.consecutive_errors ≤ backoff_ms (suc s.consecutive_errors))
unfolding advance proceed
advance-waits jobs id s run c m o store kind =
    let (t, e, wait, natural) = retry_next-cron s.consecutive_errors id jobs store.now in
    let (low, high, grows) = backoff_at-bounds s.consecutive_errors in
    (
      t,
      failing-next jobs id s run (c ∷ m) o store
          ∙ ap
              (λ k. some (
                marking_failed s run (c ∷ m) (retry_next k s.consecutive_errors id jobs store.now)))
              kind
          ∙ ap (λ next. some (marking_failed s run (c ∷ m) next)) e,
      λ jobs' later r there. get-mark_run id (some t) (c ∷ m) later r there,
      wait,
      natural,
      low,
      high,
      grows,
    )

-- Registering a stored schedule with a valid cron expression that has a next run counts as a run
-- of it: the counter goes up, the errors are forgotten and the last run is set to now, though
-- nothing was run.
pub register_job-counts :
    (r s : ScheduleRecord) (job : CronJob) (t : ℕ) (at : Scheduler)
    → job at.store.now ≡ some t
    → get r.schedule_id at.store ≡ some s
    → get r.schedule_id (register_job r (some job) at).store
      ≡ some (mark_success at.store.now (some t) s)
unfolding register_job
register_job-counts r s job t at next there =
    rw next (get-mark_run r.schedule_id (some t) [] at.store s there)
