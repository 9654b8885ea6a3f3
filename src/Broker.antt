-- ===== src/Broker.antt =====
-- `SessionEventBroker` of apps/agent/src/runtime.ts: the events of the sessions, the last hundred of
-- each, and the loops that hand an event to one subscriber after another and await each. A set of
-- subscribers is an object: the map of the sessions and the loops refer to it. A subscriber is a
-- function of its own for each subscription, here a number; its calls are recorded in `received`.
pub mod Reached
pub mod Tidy
pub mod Listens
pub mod Served
pub mod Kept
pub mod Runs
pub mod Twice
use openhermit.Prelude.{
  ℕ, zero, suc, ◌+◌, ◌-◌, Text, text_keys, ltb, ◌==◌, Bool, true, false, not, Option, none, some,
  or_else, List, [], ◌∷◌, ◌++◌, map, length, drop, filter, find, some_of, lookup, insert, erase,
  if◌then◌else◌,
}

pub record Envelope : Type 0 where
  pub id : ℕ
  pub session_id : Text
  pub event : Text

-- A loop of `publish` that awaits the subscriber that it has visited last.
pub record Flight : Type 0 where
  pub envelope : Envelope
  pub set : ℕ
  pub visited : List ℕ

pub record Broker : Type 0 where
  pub subscribers : List (Text × ℕ)
  pub sets : ℕ → List ℕ
  pub next_set : ℕ
  pub next_subscriber : ℕ
  pub backlog : List (Text × List Envelope)
  pub next_event_id : ℕ
  pub flights : List Flight
  pub received : List (ℕ × Envelope)

abbrev pub new_broker : Broker
new_broker = record {
  subscribers = [];
  sets = λ ref. [];
  next_set = 0;
  next_subscriber = 0;
  backlog = [];
  next_event_id = 1;
  flights = [];
  received = [];
}

abbrev pub put : ℕ → List ℕ → (ℕ → List ℕ) → ℕ → List ℕ
put ref set sets r = if r == ref then set else sets r

abbrev pub has : ℕ → List ℕ → Bool
has n set = some_of (λ m. m == n) set

-- A set of its own where the session has none.
abbrev pub add_subscriber : Text → Option ℕ → Broker → Broker
add_subscriber session_id none b = record b {
  subscribers = insert text_keys session_id b.next_set b.subscribers;
  sets = put b.next_set (b.next_subscriber ∷ []) b.sets;
  next_set = suc b.next_set;
  next_subscriber = suc b.next_subscriber;
}
add_subscriber session_id (some ref) b = record b {
  sets = put ref (b.sets ref ++ b.next_subscriber ∷ []) b.sets;
  next_subscriber = suc b.next_subscriber;
}

-- The subscriber that the call adds is `next_subscriber` of the broker before it.
unfoldable pub subscribe : Text → Broker → Broker
subscribe session_id b = add_subscriber session_id (lookup text_keys session_id b.subscribers) b

abbrev pub emptied : Text → List ℕ → List (Text × ℕ) → List (Text × ℕ)
emptied session_id [] subscribers = erase text_keys session_id subscribers
emptied session_id (m ∷ set) subscribers = subscribers

abbrev pub without : ℕ → List ℕ → List ℕ
without n set = filter (λ m. not (m == n)) set

abbrev pub drop_subscriber : Text → ℕ → Option ℕ → Broker → Broker
drop_subscriber session_id n none b = b
drop_subscriber session_id n (some ref) b = record b {
  sets = put ref (without n (b.sets ref)) b.sets;
  subscribers = emptied session_id (without n (b.sets ref)) b.subscribers;
}

-- The function that `subscribe` returns, for the subscriber `n`.
unfoldable pub unsubscribe : Text → ℕ → Broker → Broker
unsubscribe session_id n b =
    drop_subscriber session_id n (lookup text_keys session_id b.subscribers) b

unfoldable pub get_backlog : Text → Broker → List Envelope
get_backlog session_id b = or_else (lookup text_keys session_id b.backlog) []

abbrev pub replay : ℕ → List Envelope → List Envelope
replay after backlog = filter (λ e. ltb after e.id) backlog

unfoldable pub subscribe_from : Text → ℕ → Broker → Broker
subscribe_from session_id after b =
    let s = subscribe session_id b in
    record s {
      received =
          s.received ++ map (λ e. (b.next_subscriber, e)) (replay after (get_backlog session_id b));
    }

abbrev pub hand_to : Flight → Option ℕ → List Flight × List (ℕ × Envelope)
hand_to f none = ([], [])
hand_to f (some n) = (record f { visited = n ∷ f.visited } ∷ [], (n, f.envelope) ∷ [])

-- `for (const subscriber of set)`: the next subscriber of the set, as it is now.
abbrev pub advance : List ℕ → Flight → List Flight × List (ℕ × Envelope)
advance set f = hand_to f (find (λ n. not (has n f.visited)) set)

-- `slice(-100)`
unfoldable pub last_hundred : List Envelope → List Envelope
last_hundred es = drop (length es - 100) es

abbrev pub envelope_of : Text → Text → Broker → Envelope
envelope_of session_id event b = record {
  id = b.next_event_id;
  session_id = session_id;
  event = event;
}

-- The envelope in the backlog.
unfoldable pub enqueue : Text → Text → Broker → Broker
enqueue session_id event b = record b {
  next_event_id = suc b.next_event_id;
  backlog =
      insert text_keys session_id
        (last_hundred (get_backlog session_id b ++ envelope_of session_id event b ∷ [])) b.backlog;
}

abbrev pub launch : Envelope → Option ℕ → Broker → Broker
launch e none b = b
launch e (some ref) b =
    let step = advance (b.sets ref) (record { envelope = e; set = ref; visited = [] }) in
    record b { flights = b.flights ++ step.0; received = b.received ++ step.1 }

-- `publish` up to its first `await`.
unfoldable pub publish : Text → Text → Broker → Broker
unfolding enqueue
publish session_id event b =
    launch (envelope_of session_id event b) (lookup text_keys session_id b.subscribers)
      (enqueue session_id event b)

-- The loop at a place goes on from its `await`; it ends where no subscriber is left.
unfoldable pub resume_in : ℕ → List Flight → (ℕ → List ℕ) → List Flight × List (ℕ × Envelope)
resume_in k [] sets = ([], [])
resume_in zero (f ∷ fs) sets = ((advance (sets f.set) f).0 ++ fs, (advance (sets f.set) f).1)
resume_in (suc k) (f ∷ fs) sets = let rest = resume_in k fs sets in (f ∷ rest.0, rest.1)

unfoldable pub resume : ℕ → Broker → Broker
unfolding resume_in
resume k b =
    let step = resume_in k b.flights b.sets in
    record b { flights = step.0; received = b.received ++ step.1 }
