-- ===== src/Schedules/Scheduler/Slots.antt =====
-- The slot that `executeJob` claims: which runs are under way at once.
use openhermit.Prelude.{
  ℕ, zero, suc, ◌+◌, ◌≤◌, Text, text_eq, text_eq_iff, Bool, true, false, Option, Option-cases, none,
  some, List, [], ◌∷◌, some_of, ◌≡◌, inl, inr, refl, sym, subst, arith, if◌then◌else◌,
}
use openhermit.Schedules.{ScheduleRecord, ScheduleStore, list_due, list_active}
use openhermit.Schedules.Scheduler.{
  CronJob, Phase, Flight, Scheduler, Outcome, execute_job, advance, get_elem?, set_at, remove_at,
  delete_slot, settle, resume, run_one, run_due, tick, mark_next, register_job, register_row,
  register_all, reload, start, stop,
}

-- The runs of a schedule that are under way.
unfoldable pub count : Text → List Flight → ℕ
count id [] = 0
count id (f ∷ fs) = (if text_eq f.id id then 1 else 0) + count id fs

abbrev pub has : Text → List Text → Bool
has id running = some_of (λ r. text_eq r id) running

abbrev pub IsExclusive : Scheduler → Type 0
IsExclusive s = (id : Text) → count id s.flights ≡ (if has id s.running then 1 else 0)

count-set_at :
    (id : Text) (n : ℕ) (p : Phase) (fs : List Flight) → count id (set_at n p fs) ≡ count id fs
unfolding count
count-set_at id n p [] = refl
count-set_at id zero p (f ∷ fs) = refl
count-set_at id (suc n) p (f ∷ fs) = ground (arith, count-set_at id n p fs)

count-remove_at :
    (id : Text) (n : ℕ) (f : Flight) (fs : List Flight)
    → get_elem? fs n ≡ some f
    → count id (remove_at n fs) + (if text_eq f.id id then 1 else 0) ≡ count id fs
unfolding count
count-remove_at id n f [] h = absurd (cc h)
count-remove_at id zero f (g ∷ fs) h = ground (arith, h)
count-remove_at id (suc n) f (g ∷ fs) h = ground (arith, count-remove_at id n f fs h)

has-delete_slot :
    (id j : Text) (running : List Text)
    → has j (delete_slot id running) ≡ (if text_eq id j then false else has j running)
has-delete_slot id j [] = ground arith
has-delete_slot id j (r ∷ rs) =
    ground (arith, has-delete_slot id j rs, text_eq_iff id j, text_eq_iff r id, text_eq_iff r j)

execute_job-IsExclusive :
    (id : Text) (s : Scheduler) → IsExclusive s → IsExclusive (execute_job id s)
unfolding execute_job count
execute_job-IsExclusive id s h j = ground (arith, h j, h id, text_eq_iff id j, text_eq_iff j id)

settle-IsExclusive :
    (n : ℕ) (f : Flight) (r : ScheduleStore × Option Phase) (s : Scheduler)
    → get_elem? s.flights n ≡ some f
    → IsExclusive s
    → IsExclusive (settle n f.id r s)
unfolding settle
settle-IsExclusive n f (store, some p) s at h j = ground (arith, count-set_at j n p s.flights, h j)
settle-IsExclusive n f (store, none) s at h j =
    ground (arith, count-remove_at j n f s.flights at, h j, has-delete_slot f.id j s.running)

resume-none :
    (n : ℕ) (o : Outcome) (s : Scheduler) → get_elem? s.flights n ≡ none → resume n o s ≡ s
unfolding resume
resume-none n o s h = ground (arith, h)

resume-some :
    (n : ℕ) (o : Outcome) (s : Scheduler) (f : Flight)
    → get_elem? s.flights n ≡ some f
    → resume n o s ≡ settle n f.id (advance s.cron_jobs f.id f.phase o s.store) s
unfolding resume
resume-some n o s f h = ground (arith, h)

resume-IsExclusive :
    (n : ℕ) (o : Outcome) (s : Scheduler) → IsExclusive s → IsExclusive (resume n o s)
resume-IsExclusive n o s h = elim (Option-cases (get_elem? s.flights n)) [
  | inl gone ↦ subst IsExclusive (sym (resume-none n o s gone)) h
  | inr (f, at) ↦
      subst IsExclusive (sym (resume-some n o s f at))
        (settle-IsExclusive n f (advance s.cron_jobs f.id f.phase o s.store) s at h)
]

if-IsExclusive :
    (b : Bool) (s t : Scheduler) → IsExclusive s → IsExclusive t → IsExclusive (if b then s else t)
if-IsExclusive true s t h k = h
if-IsExclusive false s t h k = k

run_due-IsExclusive :
    (ds : List ScheduleRecord) (s : Scheduler) → IsExclusive s → IsExclusive (run_due ds s)
unfolding run_due run_one
run_due-IsExclusive [] s h = h
run_due-IsExclusive (d ∷ ds) s h =
    run_due-IsExclusive ds (run_one d s) (
      if-IsExclusive _ s (execute_job d.schedule_id s) h
        (execute_job-IsExclusive d.schedule_id s h))

tick-IsExclusive : (s : Scheduler) → IsExclusive s → IsExclusive (tick s)
unfolding tick
tick-IsExclusive s h =
    if-IsExclusive s.stopped s (run_due (list_due s.store) s) h
      (run_due-IsExclusive (list_due s.store) s h)

mark_next-IsExclusive :
    (id : Text) (next : Option ℕ) (s : Scheduler)
    → IsExclusive s
    → IsExclusive (mark_next id next s)
mark_next-IsExclusive id none s h = h
mark_next-IsExclusive id (some t) s h = h

register_job-IsExclusive :
    (r : ScheduleRecord) (job : Option CronJob) (s : Scheduler)
    → IsExclusive s
    → IsExclusive (register_job r job s)
unfolding register_job
register_job-IsExclusive r none s h = h
register_job-IsExclusive r (some job) s h =
    mark_next-IsExclusive r.schedule_id (job s.store.now) s h

module _ (cron_of : Text → Option CronJob) where
  register_row-IsExclusive :
      (r : ScheduleRecord) (e : Option Text) (s : Scheduler)
      → IsExclusive s
      → IsExclusive (register_row cron_of r e s)
  register_row-IsExclusive r none s h = h
  register_row-IsExclusive r (some e) s h =
      if-IsExclusive _ (register_job r (cron_of e) s) s (register_job-IsExclusive r (cron_of e) s h)
        h

  register_all-IsExclusive :
      (rs : List ScheduleRecord) (s : Scheduler)
      → IsExclusive s
      → IsExclusive (register_all cron_of rs s)
  unfolding register_all
  register_all-IsExclusive [] s h = h
  register_all-IsExclusive (r ∷ rs) s h =
      register_all-IsExclusive rs (register_row cron_of r r.cron_expression s)
        (register_row-IsExclusive r r.cron_expression s h)

  -- One event: a timer of a schedule or the tick fires, an `await` is over, the scheduler is started
  -- or stopped or reads the schedules again, or another part of the program writes the tables or time
  -- passes.
  pub data Step : Scheduler → Scheduler → Type 0 where
    fires : (id : Text) (s : Scheduler) → Step s (execute_job id s)
    ticks : (s : Scheduler) → Step s (tick s)
    resumes : (n : ℕ) (o : Outcome) (s : Scheduler) → Step s (resume n o s)
    starts : (s : Scheduler) → Step s (start cron_of s)
    reloads : (s : Scheduler) → Step s (reload cron_of s)
    stops : (s : Scheduler) → Step s (stop s)
    writes : (store : ScheduleStore) (s : Scheduler) → Step s (record s { store = store })

  pub data Reach : Scheduler → Type 0 where
    here :
        (store : ScheduleStore)
        → Reach
            (record { stopped = false; running = []; cron_jobs = []; flights = []; store = store })
    next : {s t : Scheduler} → Reach s → Step s t → Reach t

  Step-IsExclusive : {s t : Scheduler} → Step s t → IsExclusive s → IsExclusive t
  Step-IsExclusive (fires id s) h = execute_job-IsExclusive id s h
  Step-IsExclusive (ticks s) h = tick-IsExclusive s h
  Step-IsExclusive (resumes n o s) h = resume-IsExclusive n o s h
  Step-IsExclusive (starts s) h =
      unfold start reload in register_all-IsExclusive (list_active s.store) _ h
  Step-IsExclusive (reloads s) h =
      unfold reload in register_all-IsExclusive (list_active s.store) _ h
  Step-IsExclusive (stops s) h = unfold stop in h
  Step-IsExclusive (writes store s) h = h

  Reach-count : (s : Scheduler) → Reach s → IsExclusive s
  Reach-count s (here store) = λ id. unfold count in refl
  Reach-count s (next {s = r} reach step) = Step-IsExclusive step (Reach-count r reach)

  -- In every state that the scheduler can reach, whatever the order of timers, ticks, reloads and
  -- answers, a schedule has at most one run under way, and it has one exactly while its slot is
  -- taken.
  pub Reach-IsExclusive :
      (s : Scheduler) (id : Text)
      → Reach s
      → (count id s.flights ≤ 1) × (count id s.flights ≡ (if has id s.running then 1 else 0))
  Reach-IsExclusive s id reach = ground (arith, Reach-count s reach id)
