-- ===== src/Events.antt =====
-- apps/agent/src/events.ts: the event bus of an agent. `P` is the type of an event's payload and `H`
-- that of its handlers; a handler's call is a pure function into its result, an error or a value.
-- What `handleHookError` reports is emitted to the listeners of `plugin.error@v1` on the side and is
-- returned here as a list.
pub mod Order
pub mod Chains
use openhermit.Prelude.{
  ℕ, zero, suc, Text, codes, text_eq, text_keys, truthy, ltb, ◌==◌, Bool, true, false, not, ◌&&◌,
  ◌||◌, Option, none, some, or_else, List, [], ◌∷◌, ◌++◌, lookup, insert, erase, filter, map,
  if◌then◌else◌,
}

pub data EventShape : Type 0 where
  listener transform veto : EventShape

-- `EVENT_SHAPES`
abbrev pub event_shapes : List (Text × EventShape)
event_shapes =
    (codes "agent.started@v1", listener)
    ∷ (codes "agent.stopped@v1", listener)
    ∷ (codes "session.opened@v1", listener)
    ∷ (codes "session.closed@v1", listener)
    ∷ (codes "session.message.received@v1", transform)
    ∷ (codes "prompt.assemble@v1", transform)
    ∷ (codes "model.before@v1", transform)
    ∷ (codes "model.after@v1", listener)
    ∷ (codes "tool.before@v1", veto)
    ∷ (codes "tool.after@v1", listener)
    ∷ (codes "channel.message.in@v1", transform)
    ∷ (codes "channel.message.out@v1", transform)
    ∷ (codes "schedule.fired@v1", transform)
    ∷ (codes "memory.upsert@v1", listener)
    ∷ (codes "plugin.error@v1", listener)
    ∷ []

abbrev pub plugin_error : Text
plugin_error = codes "plugin.error@v1"

pub data FailureMode : Type 0 where
  skip fail : FailureMode

pub record SubscribeOptions : Type 0 where
  pub priority : Option ℕ
  pub plugin_id : Option Text
  pub failure_mode : Option FailureMode

pub record Subscription (H : Type 0) : Type 0 where
  pub handler : H
  pub priority : ℕ
  pub failure_mode : FailureMode
  pub plugin_id : Option Text
  pub registration_order : ℕ

pub record AgentEventBus (H : Type 0) : Type 0 where
  pub subscriptions : List (Text × List (Subscription H))
  pub next_registration_order : ℕ

-- What a call gives back, or the message of what it throws.
pub data Result (A : Type 0) : Type 0 where
  returns : A → Result A
  throws : Text → Result A

pub data VetoDecision (P : Type 0) : Type 0 where
  allow : Option P → VetoDecision P
  deny : Text → VetoDecision P

pub record PluginError : Type 0 where
  pub plugin_id : Text
  pub event : Text
  pub message : Text

-- `options?.pluginId ? { pluginId } : {}`
abbrev present_id : Option Text → Option Text
present_id none = none
present_id (some id) = if truthy id then some id else none

-- `s.options.pluginId === pluginId`
abbrev pub is_of : Text → Option Text → Bool
is_of id none = false
is_of id (some p) = text_eq p id

-- `handleHookError`: it throws the error again, or gives what it reports.
abbrev pub on_failure : FailureMode → Text → Option Text → Text → Result (List PluginError)
on_failure fail event id message = throws message
on_failure skip event id message = returns (
    if text_eq event plugin_error
    then []
    else record { plugin_id = or_else id (codes "<unknown>"); event = event; message = message }
      ∷ [])

module _ {H : Type 0} where
  -- `a.priority - b.priority || a.registrationOrder - b.registrationOrder`, below zero or zero
  abbrev pub before : Subscription H → Subscription H → Bool
  before a b =
      ltb a.priority b.priority
      || (a.priority == b.priority && not (ltb b.registration_order a.registration_order))

  -- `Array.prototype.sort`, which is stable.
  unfoldable pub insert_sorted : Subscription H → List (Subscription H) → List (Subscription H)
  insert_sorted s [] = s ∷ []
  insert_sorted s (t ∷ ts) =
      let rest = insert_sorted s ts in if before s t then s ∷ t ∷ ts else t ∷ rest

  unfoldable pub sort : List (Subscription H) → List (Subscription H)
  sort [] = []
  sort (s ∷ ss) = insert_sorted s (sort ss)

  abbrev pub subscription : AgentEventBus H → H → SubscribeOptions → Subscription H
  subscription bus handler options = record {
    handler = handler;
    priority = or_else options.priority 100;
    failure_mode = or_else options.failure_mode skip;
    plugin_id = present_id options.plugin_id;
    registration_order = bus.next_registration_order;
  }

  abbrev pub subs_of : Text → AgentEventBus H → List (Subscription H)
  subs_of event bus = or_else (lookup text_keys event bus.subscriptions) []

  unfoldable pub on : Text → H → SubscribeOptions → AgentEventBus H → AgentEventBus H
  on event handler options bus = record {
    subscriptions =
        insert text_keys event (sort (subs_of event bus ++ subscription bus handler options ∷ []))
          bus.subscriptions;
    next_registration_order = suc bus.next_registration_order;
  }

  -- What `on` returns: the subscription is known by its number.
  abbrev drop_number : ℕ → List (Subscription H) → List (Subscription H)
  drop_number n [] = []
  drop_number n (s ∷ ss) = if s.registration_order == n then ss else s ∷ drop_number n ss

  abbrev drop_in : Text → ℕ → Option (List (Subscription H)) → AgentEventBus H → AgentEventBus H
  drop_in event n none bus = bus
  drop_in event n (some current) bus = record bus {
    subscriptions = insert text_keys event (drop_number n current) bus.subscriptions;
  }

  unfoldable pub unsubscribe : Text → ℕ → AgentEventBus H → AgentEventBus H
  unsubscribe event n bus = drop_in event n (lookup text_keys event bus.subscriptions) bus

  abbrev pub keep :
      Text
      → List (Subscription H)
      → List (Text × List (Subscription H))
      → List (Text × List (Subscription H))
  keep event [] rest = rest
  keep event (s ∷ ss) rest = (event, s ∷ ss) ∷ rest

  unfoldable pub remove_from :
      Text → List (Text × List (Subscription H)) → List (Text × List (Subscription H))
  remove_from id [] = []
  remove_from id ((event, subs) ∷ m) =
      keep event (filter (λ s. not (is_of id s.plugin_id)) subs) (remove_from id m)

  unfoldable pub remove_plugin : Text → AgentEventBus H → AgentEventBus H
  remove_plugin id bus = record bus { subscriptions = remove_from id bus.subscriptions }

  unfoldable pub list_subscriptions : Text → AgentEventBus H → List (ℕ × Option Text)
  list_subscriptions event bus = map (λ s. (s.priority, s.plugin_id)) (subs_of event bus)

  unfoldable pub handle_hook_error : Text → Subscription H → Text → Result (List PluginError)
  handle_hook_error event s message = on_failure s.failure_mode event s.plugin_id message

-- A chain in the middle: the payload and what was reported so far; or how it ended: a denial, an error
-- that was thrown, or the error that the event is of another shape, which is given.
pub data Run (P : Type 0) : Type 0 where
  running : P → List PluginError → Run P
  denied failed : Text → List PluginError → Run P
  misused : Option EventShape → Run P

abbrev shape_eq : EventShape → Option EventShape → Bool
shape_eq listener (some listener) = true
shape_eq transform (some transform) = true
shape_eq veto (some veto) = true
shape_eq _ _ = false

abbrev pub shape_of : Text → Option EventShape
shape_of event = lookup text_keys event event_shapes

module _ {P : Type 0} where
  -- The chain after a handler has thrown.
  abbrev pub after_error : P → List PluginError → Result (List PluginError) → Run P
  after_error p reports (returns more) = running p (reports ++ more)
  after_error p reports (throws message) = failed message reports

  -- The loop over the subscriptions.
  unfoldable pub chain :
      {H : Type 0}
      → (Subscription H → P → List PluginError → Run P)
      → List (Subscription H)
      → Run P
      → Run P
  chain step [] r = r
  chain step (s ∷ ss) (running p reports) = chain step ss (step s p reports)
  chain step (s ∷ ss) (denied reason reports) = denied reason reports
  chain step (s ∷ ss) (failed message reports) = failed message reports
  chain step (s ∷ ss) (misused shape) = misused shape

  -- The check of the shape before the loop.
  abbrev pub with_shape : Text → EventShape → Run P → Run P
  with_shape event shape r = if shape_eq shape (shape_of event) then r else misused (shape_of event)

module _ {P : Type 0} (event : Text) where
  abbrev after_listener :
      Subscription (P → Result Unit) → P → List PluginError → Result Unit → Run P
  after_listener s p reports (returns _) = running p reports
  after_listener s p reports (throws message) =
      after_error p reports (handle_hook_error event s message)

  unfoldable pub listener_step : Subscription (P → Result Unit) → P → List PluginError → Run P
  listener_step s p reports = after_listener s p reports (s.handler p)

  abbrev after_transform :
      Subscription (P → Result (Option P)) → P → List PluginError → Result (Option P) → Run P
  after_transform s p reports (returns next) = running (or_else next p) reports
  after_transform s p reports (throws message) =
      after_error p reports (handle_hook_error event s message)

  unfoldable pub transform_step :
      Subscription (P → Result (Option P)) → P → List PluginError → Run P
  transform_step s p reports = after_transform s p reports (s.handler p)

  abbrev after_veto :
      Subscription (P → Result (VetoDecision P))
      → P
      → List PluginError
      → Result (VetoDecision P)
      → Run P
  after_veto s p reports (returns (allow next)) = running (or_else next p) reports
  after_veto s p reports (returns (deny reason)) = denied reason reports
  after_veto s p reports (throws message) =
      after_error p reports (handle_hook_error event s message)

  unfoldable pub veto_step :
      Subscription (P → Result (VetoDecision P)) → P → List PluginError → Run P
  veto_step s p reports = after_veto s p reports (s.handler p)

  unfoldable pub emit : P → AgentEventBus (P → Result Unit) → Run P
  emit payload bus =
      with_shape event listener (chain (listener_step) (subs_of event bus) (running payload []))

  unfoldable pub run_transform : P → AgentEventBus (P → Result (Option P)) → Run P
  run_transform payload bus =
      with_shape event transform (chain (transform_step) (subs_of event bus) (running payload []))

  unfoldable pub run_veto : P → AgentEventBus (P → Result (VetoDecision P)) → Run P
  run_veto payload bus =
      with_shape event veto (chain (veto_step) (subs_of event bus) (running payload []))
