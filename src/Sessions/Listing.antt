-- ===== src/Sessions/Listing.antt =====
-- apps/gateway/src/session-listing.ts: which sessions a caller is shown. The runtime is one agent's
-- runner; the resolution of a caller's user is an argument.
use openhermit.Prelude.{
  ℕ, zero, suc, Text, codes, text_eq, truthy, starts_with, leb, true, Bool-cases, Option, none,
  some, List, [], ◌∷◌, ◌++◌, filter-In, some_of, map, take, In, ◌≡◌, ◌⊎◌, inl, inr, refl, ap, subst,
  ◌∙◌, arith, if◌then◌else◌,
}
use openhermit.Auth.{AuthContext, AuthMode, user, channel, admin, present}
use openhermit.Sessions.{
  PersistedSession, SessionSummary, SessionListQuery, matches_session_list_query, insert_summary,
  sort_summaries, to_summary, build_session_summaries, takes_part, list_rows, limited,
  list_sessions,
}

-- The query of a channel that names no channel is confined to the namespace.
abbrev pub confined : Text → SessionListQuery → Option Text → SessionListQuery
confined namespace query (some c) = query
confined namespace query none =
    if truthy namespace then record query { channel = some namespace } else query

abbrev pub confine : Option Text → SessionListQuery → SessionListQuery
confine none query = query
confine (some namespace) query = confined namespace query (present query.channel)

abbrev listed_for : (Option Text → List SessionSummary) → Option Text → List SessionSummary
listed_for list none = []
listed_for list (some id) = if truthy id then list (some id) else []

abbrev listed_by :
    (Option Text → List SessionSummary)
    → Option (Text → Text → Option Text)
    → AuthContext
    → List SessionSummary
listed_by list none auth = []
listed_by list (some resolve) auth = listed_for list (resolve auth.channel auth.channel_user_id)

-- The dispatch on the mode.
abbrev for_mode :
    List PersistedSession
    → (Text → ℕ)
    → Option (Text → Text → Option Text)
    → AuthContext
    → SessionListQuery
    → AuthMode
    → List SessionSummary
for_mode rows last_event_id resolve_caller auth query admin =
    list_sessions rows last_event_id query none
for_mode rows last_event_id resolve_caller auth query channel =
    list_sessions rows last_event_id (confine auth.channel_namespace query) none
for_mode rows last_event_id resolve_caller auth query user =
    listed_by (list_sessions rows last_event_id query) resolve_caller auth

-- `listSessionsForCaller`; no resolution stands for a runtime without `resolveCallerUserId`.
unfoldable pub list_sessions_for_caller :
    List PersistedSession
    → (Text → ℕ)
    → Option (Text → Text → Option Text)
    → AuthContext
    → SessionListQuery
    → List SessionSummary
list_sessions_for_caller rows last_event_id resolve_caller auth query =
    for_mode rows last_event_id resolve_caller auth query auth.mode

insert_summary-In :
    (x s : SessionSummary) (ts : List SessionSummary)
    → In x (insert_summary s ts)
    → (x ≡ s) ⊎ In x ts
unfolding insert_summary
insert_summary-In x s [] h = h
insert_summary-In x s (t ∷ ts) h = elim (Bool-cases (leb t.last_activity_at s.last_activity_at)) [
  | inl first ↦ rw first at h
  | inr later ↦ elim (rw later at h) [
    | inl e ↦ inr (inl e)
    | inr m ↦ elim (insert_summary-In x s ts m) [ inl e ↦ inl e | inr k ↦ inr (inr k) ]
  ]
]

sort_summaries-In :
    (x : SessionSummary) (ss : List SessionSummary) → In x (sort_summaries ss) → In x ss
unfolding sort_summaries
sort_summaries-In x [] h = h
sort_summaries-In x (s ∷ ss) h = elim (insert_summary-In x s (sort_summaries ss) h) [
  | inl e ↦ inl e
  | inr m ↦ inr (sort_summaries-In x ss m)
]

take-In : (x : SessionSummary) (n : ℕ) (ss : List SessionSummary) → In x (take n ss) → In x ss
take-In x zero ss h = elim h [ ]
take-In x (suc n) [] h = elim h [ ]
take-In x (suc n) (s ∷ ss) (inl e) = inl e
take-In x (suc n) (s ∷ ss) (inr m) = inr (take-In x n ss m)

limited-In :
    (x : SessionSummary) (limit : Option ℕ) (ss : List SessionSummary)
    → In x (limited limit ss)
    → In x ss
limited-In x none ss h = h
limited-In x (some n) ss h = take-In x n ss h

confine-other :
    (o : Option Text) (query : SessionListQuery) (other : Text)
    → present query.channel ≡ some other
    → confine o query ≡ query
confine-other none query other h = refl
confine-other (some namespace) query other h = ap (confined namespace query) h

module _ (last_event_id : Text → ℕ) where
  -- The row that a summary was made of.
  abbrev pub IsOf : SessionSummary → List PersistedSession → (PersistedSession → Type 0) → Type 0
  IsOf x rows P = (s : PersistedSession) × In s rows × (x ≡ to_summary last_event_id s) × P s

  map-In :
      (x : SessionSummary) (rows : List PersistedSession)
      → In x (map (to_summary last_event_id) rows)
      → IsOf x rows (λ _. Unit)
  map-In x [] h = elim h [ ]
  map-In x (r ∷ rows) (inl e) = (r, inl refl, e, tt)
  map-In x (r ∷ rows) (inr m) = let (s, i, e, u) = map-In x rows m in (s, inr i, e, u)

  list_sessions-In :
      (rows : List PersistedSession) (query : SessionListQuery) (caller : Option Text)
      (x : SessionSummary)
      → In x (list_sessions rows last_event_id query caller)
      → (matches_session_list_query x query ≡ true) × IsOf x rows (λ s. takes_part caller s ≡ true)
  unfolding list_sessions build_session_summaries list_rows
  list_sessions-In rows query caller x h =
      let listed = list_rows rows caller query.include_inactive in
      let (i, matches) =
        filter-In (λ s. matches_session_list_query s query) (map (to_summary last_event_id) listed)
          x (sort_summaries-In x _ (limited-In x query.limit _ h)) in
      let (s, m, e, u) = map-In x listed i in
      let (there, kept) = filter-In _ rows s m in (matches, (s, there, e, ground (arith, kept)))

  listed_for-In :
      (list : Option Text → List SessionSummary) (o : Option Text) (x : SessionSummary)
      → In x (listed_for list o)
      → (id : Text) × (o ≡ some id) × (truthy id ≡ true) × In x (list (some id))
  listed_for-In list none x h = elim h [ ]
  listed_for-In list (some id) x h = elim (Bool-cases (truthy id)) [
    | inl full ↦ (id, refl, full, rw full at h)
    | inr empty ↦ elim (rw empty at h) [ ]
  ]

  takes_part-some_of :
      (id : Text) (s : PersistedSession)
      → truthy id ≡ true
      → takes_part (some id) s ≡ true
      → some_of (λ u. text_eq u id) s.user_ids ≡ true
  takes_part-some_of id s full h = rw full at h

  -- A caller who is a user is shown sessions of the user that the caller resolves to and no others:
  -- each is made of a stored session among whose participants that user is.
  pub list_sessions_for_caller-user :
      (rows : List PersistedSession) (resolve : Text → Text → Option Text) (auth : AuthContext)
      (query : SessionListQuery) (x : SessionSummary)
      → auth.mode ≡ AuthMode.user
      → In x (list_sessions_for_caller rows last_event_id (some resolve) auth query)
      → (id : Text) × (resolve auth.channel auth.channel_user_id ≡ some id)
        × IsOf x rows (λ s. some_of (λ u. text_eq u id) s.user_ids ≡ true)
  unfolding list_sessions_for_caller
  list_sessions_for_caller-user rows resolve auth query x mode h =
      let (id, resolves, full, m) =
        listed_for-In (list_sessions rows last_event_id query)
          (resolve auth.channel auth.channel_user_id) x
          (subst (λ m. In x (for_mode rows last_event_id (some resolve) auth query m)) mode h) in
      let (_, (s, there, e, part)) = list_sessions-In rows query (some id) x m in
      (id, resolves, (s, there, e, takes_part-some_of id s full part))

  matches-channel :
      (x : SessionSummary) (query : SessionListQuery) (namespace : Text)
      → truthy namespace ≡ true
      → matches_session_list_query x (record query { channel = some namespace }) ≡ true
      → starts_with x.session_id (namespace ++ codes ":") ≡ true
  unfolding matches_session_list_query
  matches-channel x query namespace full h = ground (arith, h, full)

  -- A caller that is a channel with a namespace and asks for no channel is shown sessions of its
  -- own namespace only: the id of each begins with the namespace and a colon.
  pub list_sessions_for_caller-channel :
      (rows : List PersistedSession) (resolve : Option (Text → Text → Option Text))
      (auth : AuthContext) (query : SessionListQuery) (namespace : Text) (x : SessionSummary)
      → auth.mode ≡ AuthMode.channel
      → auth.channel_namespace ≡ some namespace
      → truthy namespace ≡ true
      → present query.channel ≡ none
      → In x (list_sessions_for_caller rows last_event_id resolve auth query)
      → starts_with x.session_id (namespace ++ codes ":") ≡ true
  unfolding list_sessions_for_caller
  list_sessions_for_caller-channel rows resolve auth query namespace x mode own full absent h =
      let asked : confine auth.channel_namespace query ≡ record query { channel = some namespace } =
        ap (λ o. confine o query) own
        ∙ ap (confined namespace query) absent
        ∙ ap (λ b. if b then record query { channel = some namespace } else query) full in
      let listed = subst (λ m. In x (for_mode rows last_event_id resolve auth query m)) mode h in
      matches-channel x query namespace full
        (list_sessions-In rows (record query { channel = some namespace }) none x
          (subst (λ q. In x (list_sessions rows last_event_id q none)) asked listed)).0

  -- The namespace does not confine a channel that asks for another: it is shown what an administrator
  -- is shown who asks the same.
  pub list_sessions_for_caller-other_channel :
      (rows : List PersistedSession) (resolve : Option (Text → Text → Option Text))
      (auth : AuthContext) (query : SessionListQuery) (other : Text)
      → present query.channel ≡ some other
      → list_sessions_for_caller rows last_event_id resolve
          (record auth { mode = AuthMode.channel })
          query
        ≡ list_sessions_for_caller rows last_event_id resolve
            (record auth { mode = AuthMode.admin })
            query
  unfolding list_sessions_for_caller
  list_sessions_for_caller-other_channel rows resolve auth query other asks =
      ap (λ q. list_sessions rows last_event_id q none)
        (confine-other auth.channel_namespace query other asks)
