-- ===== src/Tests/Stores.antt =====
-- The rows of the sessions and their deletion.
use openhermit.Prelude.{codes, text_eq, true, none, some, List, [], ◌∷◌, lookup, insert, ◌≡◌, refl}
use openhermit.Users.{UserStore, get_agent_role}
use openhermit.Sessions.{SessionStatus}
use openhermit.Sockets.{verify_session_access, get_session}
use openhermit.SessionStore.{
  SessionEntry, SessionType, SessionStore, Progress, upsert, delete, delete_events, delete_rows,
  get,
}
use openhermit.SessionStore.Writes.{
  Write, write_all, HasIdentityOf, upsert-HasIdentityOf, upsert-get,
}
use openhermit.SessionStore.Deletion.{Runner, Settled, delete_session, delete_entry, removed}

abbrev first_entry : SessionEntry
first_entry = record {
  session_id = codes "s";
  source_kind = codes "web";
  source_interactive = true;
  source_platform = none;
  source_type = none;
  status = none;
  created_at = 1;
  last_activity_at = 2;
  message_count = 3;
  completed_turn_count = none;
  description = none;
  description_source = none;
  last_message_preview = none;
  metadata = none;
  type = none;
  user_ids = some (codes "u" ∷ []);
}

-- The first_entry of a stale cache.
abbrev stale : SessionEntry
stale = record first_entry {
  source_kind = codes "telegram";
  created_at = 9;
  type = some SessionType.group;
  message_count = 4;
}

abbrev empty : SessionStore
empty = record { sessions = []; events = [] }

abbrev stored : SessionStore
stored =
    upsert (codes "a") first_entry
      (record { sessions = []; events = ((codes "a", codes "s"), codes "e") ∷ [] })

abbrev later : List Write
later =
    Write.upserts (codes "a") stale
    ∷ Write.ages (codes "a") 5
    ∷ Write.removes Progress.both (codes "a") (codes "t")
    ∷ []

upsert-HasIdentityOf_example :
    (g : SessionEntry) × (get
        (codes "a")
        (codes "s")
        (write_all later (upsert (codes "a") first_entry empty))
      ≡ some g)
    × HasIdentityOf first_entry g
unfolding lookup text_eq
upsert-HasIdentityOf_example =
    upsert-HasIdentityOf (codes "a") first_entry later empty refl (refl, (refl, (refl, tt)))

abbrev read : SessionEntry
read = record first_entry { status = some SessionStatus.idle; completed_turn_count = some 0 }

upsert-get_example : upsert (codes "a") read stored ≡ stored
unfolding get upsert insert lookup text_eq
upsert-get_example = upsert-get (codes "a") (codes "s") read stored refl

abbrev users : UserStore
users = record { users = []; identities = []; user_agents = []; events = [] }

abbrev runner : Runner
runner = record { active = codes "s" ∷ []; store = stored; closed = [] }

abbrev all_settle : Settled
all_settle = record { progress = Progress.both; hooks_return = true }

delete_session-deletes :
    (delete_session all_settle (codes "a") users (codes "s") (some (codes "u")) runner).1.store
    ≡ empty
unfolding delete_session delete_entry removed delete delete_events delete_rows get upsert insert
    lookup text_eq verify_session_access get_session get_agent_role
delete_session-deletes = refl
