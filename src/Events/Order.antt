-- ===== src/Events/Order.antt =====
-- The order in which the handlers of an event run.
use openhermit.Prelude.{
  ℕ, ◌+◌, Text, text_eq, text_eq_iff, text_eq_refl, text_keys, Distinct, ◌∙◌, ◌==◌, true, false,
  not, Bool-cases, none, or_else, List, [], ◌∷◌, ◌++◌, lookup, lookup-insert, insert, filter, All,
  ◌≡◌, inl, inr, refl, sym, subst, ap, arith, if◌then◌else◌,
}
use openhermit.Events.{
  Subscription, is_of, keep, remove_from, remove_plugin, SubscribeOptions, AgentEventBus, before,
  insert_sorted, sort, subscription, subs_of, on,
}

module _ {H : Type 0} where
  -- No handler stands before one that is to run earlier.
  abbrev pub IsSorted : List (Subscription H) → Type 0
  IsSorted [] = Unit
  IsSorted (s ∷ ss) = All (λ t. before s t ≡ true) ss × IsSorted ss

  before_total : (a b : Subscription H) → before a b ≡ false → before b a ≡ true
  before_total a b h = ground (arith, h)

  before_trans :
      (a b c : Subscription H) → before a b ≡ true → before b c ≡ true → before a c ≡ true
  before_trans a b c h k = ground (arith, h, k)

  All-trans :
      (a b : Subscription H) (ss : List (Subscription H))
      → before a b ≡ true
      → All (λ t. before b t ≡ true) ss
      → All (λ t. before a t ≡ true) ss
  All-trans a b [] h k = tt
  All-trans a b (s ∷ ss) h k = (before_trans a b s h k.0, All-trans a b ss h k.1)

  All-insert_sorted :
      (a s : Subscription H) (ss : List (Subscription H))
      → before a s ≡ true
      → All (λ t. before a t ≡ true) ss
      → All (λ t. before a t ≡ true) (insert_sorted s ss)
  unfolding insert_sorted
  All-insert_sorted a s [] h k = (h, tt)
  All-insert_sorted a s (t ∷ ts) h k = elim (Bool-cases (before s t)) [
    | inl first ↦ rw first (h, k)
    | inr later ↦ rw later (k.0, All-insert_sorted a s ts h k.1)
  ]

  insert_sorted-IsSorted :
      (s : Subscription H) (ss : List (Subscription H))
      → IsSorted ss
      → IsSorted (insert_sorted s ss)
  unfolding insert_sorted
  insert_sorted-IsSorted s [] h = (tt, tt)
  insert_sorted-IsSorted s (t ∷ ts) h = elim (Bool-cases (before s t)) [
    | inl first ↦ rw first ((first, All-trans s t ts first h.0), h)
    | inr later ↦
        rw later
          (All-insert_sorted t s ts (before_total s t later) h.0, insert_sorted-IsSorted s ts h.1)
  ]

  sort-IsSorted : (ss : List (Subscription H)) → IsSorted (sort ss)
  unfolding sort
  sort-IsSorted [] = tt
  sort-IsSorted (s ∷ ss) = insert_sorted-IsSorted s (sort ss) (sort-IsSorted ss)

  -- How many subscriptions have a number.
  abbrev pub times : ℕ → List (Subscription H) → ℕ
  times n [] = 0
  times n (s ∷ ss) = (if s.registration_order == n then 1 else 0) + times n ss

  times-insert_sorted :
      (n : ℕ) (s : Subscription H) (ss : List (Subscription H))
      → times n (insert_sorted s ss) ≡ (if s.registration_order == n then 1 else 0) + times n ss
  unfolding insert_sorted
  times-insert_sorted n s [] = refl
  times-insert_sorted n s (t ∷ ts) = elim (Bool-cases (before s t)) [
    | inl first ↦ rw first refl
    | inr later ↦ rw later (omega (arith, times-insert_sorted n s ts))
  ]

  times-sort : (n : ℕ) (ss : List (Subscription H)) → times n (sort ss) ≡ times n ss
  unfolding sort
  times-sort n [] = refl
  times-sort n (s ∷ ss) = omega (arith, times-insert_sorted n s (sort ss), times-sort n ss)

  times-append :
      (n : ℕ) (ss ts : List (Subscription H)) → times n (ss ++ ts) ≡ times n ss + times n ts
  times-append n [] ts = omega arith
  times-append n (s ∷ ss) ts = omega (arith, times-append n ss ts)

  subs_of-insert :
      (event other : Text) (ss : List (Subscription H)) (bus : AgentEventBus H)
      → subs_of other (record bus { subscriptions = insert text_keys event ss bus.subscriptions })
        ≡ (if text_eq event other then ss else subs_of other bus)
  subs_of-insert event other ss bus =
      ground (arith, lookup-insert text_keys event other ss bus.subscriptions)

  subs_of-on :
      (event other : Text) (handler : H) (options : SubscribeOptions) (bus : AgentEventBus H)
      → subs_of other (on event handler options bus) ≡ (
          if text_eq event other
          then sort (subs_of event bus ++ subscription bus handler options ∷ [])
          else subs_of other bus)
  unfolding on
  subs_of-on event other handler options bus = ground (
    arith,
    lookup-insert text_keys event other
        (sort (subs_of event bus ++ subscription bus handler options ∷ [])) bus.subscriptions,
  )

  subs_of-on_same :
      (event : Text) (handler : H) (options : SubscribeOptions) (bus : AgentEventBus H)
      → subs_of event (on event handler options bus)
        ≡ sort (subs_of event bus ++ subscription bus handler options ∷ [])
  subs_of-on_same event handler options bus =
      ground (arith, subs_of-on event event handler options bus, text_eq_refl event)

  -- `on` leaves the handlers of its event in the order of priorities and, among equal priorities, of
  -- registration, whatever order they had; it adds the new handler once, keeps each of the others as
  -- often as it was there, and leaves the other events as they are.
  pub on-IsSorted :
      (event other : Text) (handler : H) (options : SubscribeOptions) (bus : AgentEventBus H)
      (n : ℕ)
      → IsSorted (subs_of event (on event handler options bus))
        × (times n (subs_of event (on event handler options bus))
            ≡ times n (subs_of event bus) + (if bus.next_registration_order == n then 1 else 0))
        × (subs_of other (on event handler options bus) ≡ (
            if text_eq event other
            then subs_of event (on event handler options bus)
            else subs_of other bus))
  on-IsSorted event other handler options bus n =
      let added = subs_of event bus ++ subscription bus handler options ∷ [] in
      (
        subst IsSorted (sym (subs_of-on_same event handler options bus)) (sort-IsSorted added),
        rw (subs_of-on_same event handler options bus) (
            omega (
              arith,
              times-sort n added,
              times-append n (subs_of event bus) (subscription bus handler options ∷ []),
            )),
        ground (
          arith,
          subs_of-on event other handler options bus,
          subs_of-on_same event handler options bus,
        ),
      )

  abbrev unowned : Text → List (Subscription H) → List (Subscription H)
  unowned id ss = filter (λ s. not (is_of id s.plugin_id)) ss

  lookup-keep :
      (event other : Text) (ss : List (Subscription H)) (m : List (Text × List (Subscription H)))
      → (text_eq event other ≡ true → or_else (lookup text_keys other m) [] ≡ [])
      → or_else (lookup text_keys other (keep event ss m)) []
        ≡ (if text_eq event other then ss else or_else (lookup text_keys other m) [])
  unfolding lookup
  lookup-keep event other [] m h = ground (arith, h)
  lookup-keep event other (s ∷ ss) m h = ground arith

  lookup-remove_from :
      (id event : Text) (m : List (Text × List (Subscription H)))
      → Distinct text_keys m
      → or_else (lookup text_keys event (remove_from id m)) []
        ≡ unowned id (or_else (lookup text_keys event m) [])
  unfolding lookup remove_from
  lookup-remove_from id event [] h = refl
  lookup-remove_from id event ((k, ss) ∷ m) h =
      let rest = lookup-remove_from id event m h.1 in
      lookup-keep k event (unowned id ss) (remove_from id m) (λ e.
        rest
        ∙ ap (λ o. unowned id (or_else o []))
            (subst (λ j. lookup text_keys j m ≡ none) ((text_eq_iff k event).0 e) h.0))
      ∙ (elim (Bool-cases (text_eq k event)) [
        | inl same ↦ rw same refl
        | inr other ↦ rw other rest
      ])

  -- Unloading a plugin takes its handlers, and no others, from every event, in a bus that has one
  -- list for an event.
  pub remove_plugin-unowned :
      (id event : Text) (bus : AgentEventBus H)
      → Distinct text_keys bus.subscriptions
      → subs_of event (remove_plugin id bus)
        ≡ filter (λ s. not (is_of id s.plugin_id)) (subs_of event bus)
  unfolding remove_plugin
  remove_plugin-unowned id event bus h = lookup-remove_from id event bus.subscriptions h
