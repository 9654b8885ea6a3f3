-- ===== src/Broker/Kept.antt =====
-- What a subscriber has received or has still to receive, as the broker is used.
use openhermit.Prelude.{
  ℕ, Text, text_eq, text_keys, text_eq_iff, ◌==◌, true, false, Bool-cases, lookup, Option, none,
  some, List, [], ◌∷◌, ◌++◌, map, All, All-append, In, In-append_left, In-append_right, ◌≡◌, ◌⊎◌,
  inl, inr, refl, sym, subst, ap, if◌then◌else◌,
}
use openhermit.Broker.{
  Envelope, Flight, Broker, has, subscribe, unsubscribe, subscribe_from, get_backlog, replay,
  advance, envelope_of, enqueue, launch, publish, resume_in, resume,
}
use openhermit.Broker.Reached.{publish-parts, subscribe-parts, unsubscribe-parts}
use openhermit.Broker.Served.{
  Waits, Given, Waits-left, Waits-right, advance-Waits, resume_in-Waits, IsHeld,
  add_subscriber-IsHeld, drop_subscriber-IsHeld,
}

abbrev pub IsServed : ℕ → ℕ → Broker → Envelope → Type 0
IsServed n ref b e = Given n e b ⊎ Waits n ref e b.flights

abbrev pub AllServed : Text → ℕ → Broker → List Envelope → Type 0
AllServed s n b es = (ref : ℕ) × IsHeld s n ref b × All (IsServed n ref b) es

pub All-mono :
    (P Q : Envelope → Type 0) (es : List Envelope)
    → ((e : Envelope) → P e → Q e)
    → All P es
    → All Q es
All-mono P Q [] h k = tt
All-mono P Q (e ∷ es) h k = (h e k.0, All-mono P Q es h k.1)

-- More was received and more loops run.
IsServed-more :
    (n ref : ℕ) (b c : Broker) (received : List (ℕ × Envelope)) (e : Envelope)
    → c.received ≡ b.received ++ received
    → (Waits n ref e b.flights → Given n e c ⊎ Waits n ref e c.flights)
    → IsServed n ref b e
    → IsServed n ref c e
IsServed-more n ref b c received e more keeps (inl given) =
    inl (rw more (In-append_left {A = ℕ × Envelope} (n, e) b.received received given))
IsServed-more n ref b c received e more keeps (inr waits) = keeps waits

module _ (s : Text) (n : ℕ) where
  pub resume-AllServed :
      (k : ℕ) (b : Broker) (es : List Envelope) → AllServed s n b es → AllServed s n (resume k b) es
  unfolding resume
  resume-AllServed k b es (ref, (mapped, old, held), served) =
      let step = resume_in k b.flights b.sets in
      (
        ref,
        (mapped, old, held),
        All-mono (IsServed n ref b) (IsServed n ref (resume k b)) es
            (λ e. IsServed-more n ref b (resume k b) step.1 e refl (λ waits.
              elim (resume_in-Waits n ref e b.sets k b.flights held waits) [
                | inl given ↦
                    inl (In-append_right {A = ℕ × Envelope} (n, e) b.received step.1 given)
                | inr waits' ↦ inr waits'
              ]))
            served,
      )

  pub subscribe-AllServed :
      (t : Text) (from : ℕ) (b : Broker) (es : List Envelope)
      → AllServed s n b es
      → AllServed s n (subscribe_from t from b) es
  unfolding subscribe_from subscribe
  subscribe-AllServed t from b es (ref, held, served) =
      let o = lookup text_keys t b.subscribers in
      let more = map (λ e. (b.next_subscriber, e)) (replay from (get_backlog t b)) in
      (
        ref,
        add_subscriber-IsHeld s t n ref o b refl held,
        All-mono (IsServed n ref b) (IsServed n ref (subscribe_from t from b)) es
            (λ e.
              IsServed-more n ref b (subscribe_from t from b) more e
                (ap (λ x. x ++ more) (subscribe-parts t b).3)
                (λ waits. inr (subst (Waits n ref e) (sym (subscribe-parts t b).2) waits)))
            served,
      )

  pub unsubscribe-AllServed :
      (t : Text) (m : ℕ) (b : Broker) (es : List Envelope)
      → (m == n) ≡ false
      → AllServed s n b es
      → AllServed s n (unsubscribe t m b) es
  unsubscribe-AllServed t m b es other (ref, held, served) = (
    ref,
    unfold unsubscribe in
        drop_subscriber-IsHeld s t n m ref (lookup text_keys t b.subscribers) b refl other held,
    All-mono (IsServed n ref b) (IsServed n ref (unsubscribe t m b)) es
        (λ e h. elim h [
          | inl given ↦
              inl (
                subst (λ x. In {A = ℕ × Envelope} (n, e) x) (sym (unsubscribe-parts t m b).1) given)
          | inr waits ↦ inr (subst (Waits n ref e) (sym (unsubscribe-parts t m b).0) waits)
        ])
        served,
  )

  -- The loop that a new event starts.
  launch-IsServed :
      (e f : Envelope) (o : Option ℕ) (ref : ℕ) (b : Broker)
      → IsServed n ref b f
      → IsServed n ref (launch e o b) f
  launch-IsServed e f none ref b h = h
  launch-IsServed e f (some r) ref b h =
      let step = advance (b.sets r) (record { envelope = e; set = r; visited = [] }) in
      IsServed-more n ref b (launch e (some r) b) step.1 f refl
        (λ waits. inr (Waits-left n ref f b.flights step.0 waits)) h

  launch-new :
      (e : Envelope) (ref : ℕ) (b : Broker)
      → has n (b.sets ref) ≡ true
      → IsServed n ref (launch e (some ref) b) e
  launch-new e ref b held =
      let f : Flight = record { envelope = e; set = ref; visited = [] } in
      elim (advance-Waits n ref e (b.sets ref) f held refl refl refl) [
        | inl given ↦
            inl (
              In-append_right {A = ℕ × Envelope} (n, e) b.received (advance (b.sets ref) f).1 given)
        | inr waits ↦ inr (Waits-right n ref e b.flights (advance (b.sets ref) f).0 waits)
      ]

  publish-new :
      (t event : Text) (ref : ℕ) (b : Broker)
      → IsHeld s n ref b
      → text_eq t s ≡ true
      → IsServed n ref (publish t event b) (envelope_of t event b)
  unfolding publish enqueue
  publish-new t event ref b (mapped, old, held) same =
      let e : lookup text_keys t b.subscribers ≡ some ref =
        subst (λ x. lookup text_keys x b.subscribers ≡ some ref) (sym ((text_eq_iff t s).0 same))
          mapped in
      subst
        (λ o.
          IsServed n ref (launch (envelope_of t event b) o (enqueue t event b))
            (envelope_of t event b))
        (sym e) (launch-new (envelope_of t event b) ref (enqueue t event b) held)

  publish-IsHeld :
      (t event : Text) (ref : ℕ) (b : Broker)
      → IsHeld s n ref b
      → IsHeld s n ref (publish t event b)
  publish-IsHeld t event ref b h =
      let (subscribers, sets, next, _, _) = publish-parts t event b in
      rw (subscribers, sets, next) h

  publish-IsServed :
      (t event : Text) (ref : ℕ) (b : Broker) (es : List Envelope)
      → All (IsServed n ref b) es
      → All (IsServed n ref (publish t event b)) es
  unfolding publish enqueue
  publish-IsServed t event ref b es served =
      All-mono (IsServed n ref b) (IsServed n ref (publish t event b)) es
        (λ e h.
          launch-IsServed (envelope_of t event b) e (lookup text_keys t b.subscribers) ref
            (enqueue t event b) h)
        served

  pub publish-AllServed :
      (t event : Text) (b : Broker) (es : List Envelope)
      → AllServed s n b es
      → AllServed s n
          (publish t event b)
          (if text_eq t s then es ++ envelope_of t event b ∷ [] else es)
  publish-AllServed t event b es (ref, held, served) = elim (Bool-cases (text_eq t s)) [
    | inl same ↦ (
      ref,
      publish-IsHeld t event ref b held,
      rw same (
          All-append (IsServed n ref (publish t event b)) es (envelope_of t event b ∷ [])
            (publish-IsServed t event ref b es served) (publish-new t event ref b held same, tt)),
    )
    | inr other ↦ (
      ref,
      publish-IsHeld t event ref b held,
      rw other (publish-IsServed t event ref b es served),
    )
  ]
