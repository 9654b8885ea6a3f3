-- ===== src/Events/Chains.antt =====
-- The chain of the handlers of an event.
use openhermit.Prelude.{
  Text, text_eq, Option, some, or_else, List, [], ◌∷◌, ◌++◌, ◌≡◌, refl, ap, sym, ◌∙◌, codes, ◌⊎◌,
  inl, inr, ◌↔◌, arith, if◌then◌else◌,
}
use openhermit.Events.{
  EventShape, Subscription, AgentEventBus, FailureMode, skip, fail, Result, returns, throws,
  VetoDecision, allow, deny, PluginError, plugin_error, shape_of, Run, running, denied, failed,
  misused, handle_hook_error, chain, veto_step, with_shape, run_veto, subs_of,
}

module _ {P H : Type 0} (step : Subscription H → P → List PluginError → Run P) where
  chain-append :
      (ss ts : List (Subscription H)) (r : Run P)
      → chain step (ss ++ ts) r ≡ chain step ts (chain step ss r)
  unfolding chain
  chain-append [] ts r = refl
  chain-append (s ∷ ss) ts (running p reports) = chain-append ss ts (step s p reports)
  chain-append (s ∷ ss) [] (denied reason reports) = refl
  chain-append (s ∷ ss) (t ∷ ts) (denied reason reports) = refl
  chain-append (s ∷ ss) [] (failed m reports) = refl
  chain-append (s ∷ ss) (t ∷ ts) (failed m reports) = refl
  chain-append (s ∷ ss) [] (misused shape) = refl
  chain-append (s ∷ ss) (t ∷ ts) (misused shape) = refl

  chain-denied :
      (ss : List (Subscription H)) (reason : Text) (reports : List PluginError)
      → chain step ss (denied reason reports) ≡ denied reason reports
  unfolding chain
  chain-denied [] reason reports = refl
  chain-denied (s ∷ ss) reason reports = refl

  chain-failed :
      (ss : List (Subscription H)) (m : Text) (reports : List PluginError)
      → chain step ss (failed m reports) ≡ failed m reports
  unfolding chain
  chain-failed [] m reports = refl
  chain-failed (s ∷ ss) m reports = refl

module _ {P : Type 0} (event : Text) where
  veto_step-deny :
      (s : Subscription (P → Result (VetoDecision P))) (q : P) (reports : List PluginError)
      (reason : Text)
      → s.handler q ≡ returns (deny reason)
      → veto_step event s q reports ≡ denied reason reports
  unfolding veto_step
  veto_step-deny s q reports reason h = ground (arith, h)

  -- A denial ends the chain: where the handlers before it let the payload through, as `q`, and a
  -- handler denies `q`, the decision is that denial, whatever handlers come after it.
  pub run_veto-denied :
      (bus : AgentEventBus (P → Result (VetoDecision P))) (payload q : P)
      (ss ts : List (Subscription (P → Result (VetoDecision P))))
      (s : Subscription (P → Result (VetoDecision P))) (reports : List PluginError) (reason : Text)
      → subs_of event bus ≡ ss ++ s ∷ ts
      → chain (veto_step event) ss (running payload []) ≡ running q reports
      → s.handler q ≡ returns (deny reason)
      → run_veto event payload bus ≡ with_shape event EventShape.veto (denied reason reports)
  unfolding run_veto chain
  run_veto-denied bus payload q ss ts s reports reason subs passed denies =
      ap (with_shape event EventShape.veto) (
        ap (λ l. chain (veto_step event) l (running payload [])) subs
        ∙ chain-append (veto_step event) ss (s ∷ ts) (running payload [])
        ∙ ap (chain (veto_step event) (s ∷ ts)) passed
        ∙ ap (chain (veto_step event) ts) (veto_step-deny s q reports reason denies)
        ∙ chain-denied (veto_step event) ts reason reports)

mode-cases : (m : FailureMode) → (m ≡ skip) ⊎ (m ≡ fail)
mode-cases skip = inl refl
mode-cases fail = inr refl

module _ {P : Type 0} where
  abbrev payload_in : P → Run P → P
  payload_in d (running p reports) = p
  payload_in d _ = d

  with_shape-same :
      (event : Text) (r : Run P)
      → shape_of event ≡ some EventShape.veto
      → with_shape event EventShape.veto r ≡ r
  with_shape-same event r h = ground (arith, h)

-- How a veto chain lets a payload through: each handler allows what it is given, and may change it,
-- or throws and is skipped.
pub data Passes {P : Type 0}
    : List (Subscription (P → Result (VetoDecision P))) → P → P → Type 0 where
  done : {p q : P} → p ≡ q → Passes [] p q
  allows :
      {s : Subscription (P → Result (VetoDecision P))}
      {ss : List (Subscription (P → Result (VetoDecision P)))} {p q : P} (next : Option P)
      → s.handler p ≡ returns (allow next)
      → Passes ss (or_else next p) q
      → Passes (s ∷ ss) p q
  skips :
      {s : Subscription (P → Result (VetoDecision P))}
      {ss : List (Subscription (P → Result (VetoDecision P)))} {p q : P} (message : Text)
      → s.handler p ≡ throws message
      → s.failure_mode ≡ skip
      → Passes ss p q
      → Passes (s ∷ ss) p q

module _ {P : Type 0} (event : Text) where
  veto_step-allow :
      (s : Subscription (P → Result (VetoDecision P))) (p : P) (reports : List PluginError)
      (next : Option P)
      → s.handler p ≡ returns (allow next)
      → veto_step event s p reports ≡ running (or_else next p) reports
  unfolding veto_step
  veto_step-allow s p reports next h = ground (arith, h)

  veto_step-skip :
      (s : Subscription (P → Result (VetoDecision P))) (p : P) (reports : List PluginError)
      (m : Text)
      → s.handler p ≡ throws m
      → s.failure_mode ≡ skip
      → (more : List PluginError) × (veto_step event s p reports ≡ running p more)
  unfolding veto_step handle_hook_error
  veto_step-skip s p reports m h k = (
    reports
        ++ (if text_eq event plugin_error
            then []
            else record {
              plugin_id = or_else s.plugin_id (codes "<unknown>");
              event = event;
              message = m;
            }
              ∷ []),
    ground (arith, h, k),
  )

  veto_step-fail :
      (s : Subscription (P → Result (VetoDecision P))) (p : P) (reports : List PluginError)
      (m : Text)
      → s.handler p ≡ throws m
      → s.failure_mode ≡ fail
      → veto_step event s p reports ≡ failed m reports
  unfolding veto_step handle_hook_error
  veto_step-fail s p reports m h k = ground (arith, h, k)

  reply-cases :
      (r : Result (VetoDecision P))
      → ((next : Option P) × (r ≡ returns (allow next)))
        ⊎ ((reason : Text) × (r ≡ returns (deny reason)))
        ⊎ ((m : Text) × (r ≡ throws m))
  reply-cases (returns (allow next)) = inl (next, refl)
  reply-cases (returns (deny reason)) = inr (inl (reason, refl))
  reply-cases (throws m) = inr (inr (m, refl))

  chain-Passes :
      (ss : List (Subscription (P → Result (VetoDecision P)))) (p q : P)
      (reports ends : List PluginError)
      → chain (veto_step event) ss (running p reports) ≡ running q ends
      → Passes ss p q
  unfolding chain
  chain-Passes [] p q reports ends h = done (ap (payload_in p) h)
  chain-Passes (s ∷ ss) p q reports ends h = elim (reply-cases (s.handler p)) [
    | inl (next, e) ↦ allows next e (
        chain-Passes ss (or_else next p) q reports ends
          (ap (chain (veto_step event) ss) (sym (veto_step-allow s p reports next e)) ∙ h))
    | inr (inl (reason, e)) ↦ absurd (
        cc (
          h,
          ap (chain (veto_step event) ss) (veto_step-deny event s p reports reason e),
          chain-denied (veto_step event) ss reason reports,
        ))
    | inr (inr (m, e)) ↦ elim (mode-cases s.failure_mode) [
      | inl skipped ↦
          let (more, k) = veto_step-skip s p reports m e skipped in
          skips m e skipped
            (chain-Passes ss p q more ends (ap (chain (veto_step event) ss) (sym k) ∙ h))
      | inr fails ↦ absurd (
          cc (
            h,
            ap (chain (veto_step event) ss) (veto_step-fail s p reports m e fails),
            chain-failed (veto_step event) ss m reports,
          ))
    ]
  ]

  Passes-chain :
      (ss : List (Subscription (P → Result (VetoDecision P)))) (p q : P)
      (reports : List PluginError)
      → Passes ss p q
      → (ends : List PluginError) × (chain (veto_step event) ss (running p reports)
          ≡ running q ends)
  unfolding chain
  Passes-chain [] p q reports (done e) = (reports, ap (λ r. running r reports) e)
  Passes-chain (s ∷ ss) p q reports (allows next e passes) =
      let (ends, k) = Passes-chain ss (or_else next p) q reports passes in
      (ends, ap (chain (veto_step event) ss) (veto_step-allow s p reports next e) ∙ k)
  Passes-chain (s ∷ ss) p q reports (skips m e skipped passes) =
      let (more, step) = veto_step-skip s p reports m e skipped in
      let (ends, k) = Passes-chain ss p q more passes in
      (ends, ap (chain (veto_step event) ss) step ∙ k)

  -- For an event of the veto kind, the chain lets a payload through, as `q`, exactly where every
  -- handler in turn allows what the ones before it left, or throws and is to be skipped.
  pub run_veto_iff :
      (bus : AgentEventBus (P → Result (VetoDecision P))) (payload q : P)
      → (shape_of event ≡ some EventShape.veto)
      → ((ends : List PluginError) × (run_veto event payload bus ≡ running q ends))
        ↔ Passes (subs_of event bus) payload q
  unfolding run_veto
  run_veto_iff bus payload q shape =
      let start = chain (veto_step event) (subs_of event bus) (running payload []) in
      let same = with_shape-same event start shape in
      (
        λ (ends, h). chain-Passes (subs_of event bus) payload q [] ends (sym same ∙ h),
        λ passes.
            let (ends, h) = Passes-chain (subs_of event bus) payload q [] passes in
            (ends, same ∙ h),
      )
