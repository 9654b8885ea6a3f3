-- ===== src/Tests/Admissions.antt =====
-- Sessions that are opened on a private agent `a` with the owner `u`, who is `web`/`x`.
use openhermit.Prelude.{codes, text_eq, lookup, false, none, some, [], ◌∷◌, ◌≡◌, refl}
use openhermit.Policy.{UserRole}
use openhermit.Users.{UserStore, UserRecord, get, resolve, get_agent_role}
use openhermit.Admission.{
  AccessLevel, SessionSpec, Caller, nobody, resolve_sender, resolve_session_user,
}
use openhermit.Admission.Roles.{IsSender, IsAdmitted, resolve_session_user-IsAdmitted}

abbrev owner_row : UserRecord
owner_row = record { name = none; merged_into = none; created_at = 1; updated_at = 1 }

abbrev users : UserStore
users = record {
  users = (codes "u", owner_row) ∷ [];
  identities = ((codes "web", codes "x"), record { user_id = codes "u"; created_at = 1 }) ∷ [];
  user_agents = ((codes "u", codes "a"), record { role = UserRole.owner; created_at = 1 }) ∷ [];
  events = [];
}

abbrev web_session : SessionSpec
web_session = record {
  session_id = codes "web:1";
  kind = codes "web";
  platform = none;
  is_group = false;
  metadata = [];
}

abbrev as_schedule : SessionSpec
as_schedule = record web_session {
  kind = codes "schedule";
  metadata = (codes "schedule_user_id", codes "u") ∷ [];
}

abbrev web_owner : Caller
web_owner = record { channel = codes "web"; channel_user_id = codes "x" }

abbrev stranger : Caller
stranger = record { channel = codes "web"; channel_user_id = codes "y" }

resolve_session_user-IsAdmitted_example :
    (c : Caller) × IsSender none web_session (some web_owner) c
    × IsAdmitted (codes "a") AccessLevel.private_level (codes "g") 5 c users (codes "u") (
        resolve_session_user
          (codes "a")
          AccessLevel.private_level
          (codes "g")
          5
          none
          web_session
          (some web_owner)
          users)
unfolding resolve_session_user resolve_sender get get_agent_role resolve lookup text_eq
resolve_session_user-IsAdmitted_example =
    resolve_session_user-IsAdmitted (codes "a") AccessLevel.private_level (codes "g") 5 none
      web_session (some web_owner) users (codes "u") refl refl

-- The stranger is nobody to a session of its own.
stranger-nobody :
    (resolve_session_user
      (codes "a")
      AccessLevel.private_level
      (codes "g")
      5
      none
      web_session
      (some stranger)
      users).0
    ≡ nobody
unfolding resolve_session_user resolve_sender get get_agent_role resolve lookup text_eq
stranger-nobody = refl
