-- ===== src/Broker/Listens.antt =====
-- Which subscribers a session has, and how the operations change that.
use openhermit.Prelude.{
  ℕ, suc, ◌≤◌, ◌≢◌, ◌∙◌, Text, text_eq_refl, text_keys, ◌==◌, Bool, true, false, Bool-cases,
  Option-cases, lookup, insert, lookup-insert, Option, none, some, List, [], ◌∷◌, some_of-append,
  ◌≡◌, ◌⊎◌, inl, inr, refl, sym, subst, arith,
}
use openhermit.Broker.{
  Envelope, Broker, has, put, without, emptied, add_subscriber, drop_subscriber, subscribe,
  unsubscribe, subscribe_from, launch, enqueue, envelope_of, publish, resume,
}
use openhermit.Broker.Reached.{Step, subscribes, unsubscribes, publishes, resumes, lookup-emptied}
use openhermit.Broker.Tidy.{IsTidy, has-without_le, has-without_self, add_subscriber-made}

abbrev pub in_set : (ℕ → List ℕ) → ℕ → Option ℕ → Bool
in_set sets n none = false
in_set sets n (some ref) = has n (sets ref)

-- An event of the session will be handed to the subscriber.
abbrev pub listens : Text → ℕ → Broker → Bool
listens t n b = in_set b.sets n (lookup text_keys t b.subscribers)

listens_added :
    (s t : Text) (n : ℕ) (o : Option ℕ) (b : Broker)
    → IsTidy b
    → lookup text_keys s b.subscribers ≡ o
    → listens t n (add_subscriber s o b) ≡ true
    → (listens t n b ≡ true) ⊎ ((t ≡ s) × (n ≡ b.next_subscriber))
listens_added s t n none b h e k =
    elim (Option-cases (lookup text_keys t (insert text_keys s b.next_set b.subscribers))) [
      | inl nothing ↦ absurd (ground (arith, nothing, k))
      | inr (r, there) ↦ elim (add_subscriber-made s t r b h there) [
        | inl (same, new) ↦ inr (same, ground (arith, there, k, new))
        | inr (old, less) ↦ inl (ground (arith, there, k, old, less))
      ]
    ]
listens_added s t n (some r0) b h e k = elim (Option-cases (lookup text_keys t b.subscribers)) [
  | inl nothing ↦ absurd (ground (arith, nothing, k))
  | inr (r, there) ↦ elim (Bool-cases (r == r0)) [
    | inl shared ↦
        let at : r ≡ r0 = ground (arith, shared) in
        elim (Bool-cases (has n (b.sets r0))) [
          | inl old ↦ inl (ground (arith, there, at, old))
          | inr new ↦ inr (
            h.apart t s r0 (ground (arith, there, at)) e,
            ground (
              arith,
              there,
              at,
              new,
              k,
              some_of-append (λ m. m == n) (b.sets r0) (b.next_subscriber ∷ []),
            ),
          )
        ]
    | inr other ↦ inl (ground (arith, there, other, k))
  ]
]

listens_dropped :
    (s t : Text) (n m : ℕ) (o : Option ℕ) (b : Broker)
    → lookup text_keys s b.subscribers ≡ o
    → listens t n (drop_subscriber s m o b) ≡ true
    → (listens t n b ≡ true) × (t ≡ s → n ≢ m)
listens_dropped s t n m none b e k = (
  k,
  λ same _. absurd (
      let nothing : lookup text_keys t b.subscribers ≡ none =
        subst (λ x. lookup text_keys x b.subscribers ≡ none) (sym same) e in
      ground (arith, nothing, k)),
)
listens_dropped s t n m (some r0) b e k =
    let set = without m (b.sets r0) in
    elim (Option-cases (lookup text_keys t (emptied s set b.subscribers))) [
      | inl nothing ↦ absurd (ground (arith, nothing, k))
      | inr (r, there) ↦
          let old = lookup-emptied s t set b.subscribers r there in
          let held : has n (put r0 set b.sets r) ≡ true = ground (arith, there, k) in
          (
            ground (arith, old, held, has-without_le n m (b.sets r0)),
            λ same gone.
                let at : r ≡ r0 = ground (arith, old, e, same) in
                ground (arith, held, at, gone, has-without_self m (b.sets r0)),
          )
    ]

-- After a subscription only the new subscriber listens in addition, to that session.
pub listens-subscribe_from :
    (s t : Text) (n after : ℕ) (b : Broker)
    → IsTidy b
    → listens t n (subscribe_from s after b) ≡ true
    → (listens t n b ≡ true) ⊎ ((t ≡ s) × (n ≡ b.next_subscriber))
unfolding subscribe_from subscribe
listens-subscribe_from s t n after b h k =
    listens_added s t n (lookup text_keys s b.subscribers) b h refl k

pub listens-unsubscribe :
    (s t : Text) (n m : ℕ) (b : Broker)
    → listens t n (unsubscribe s m b) ≡ true
    → (listens t n b ≡ true) × (t ≡ s → n ≢ m)
unfolding unsubscribe
listens-unsubscribe s t n m b k =
    listens_dropped s t n m (lookup text_keys s b.subscribers) b refl k

listens-launch :
    (t : Text) (n : ℕ) (e : Envelope) (o : Option ℕ) (b : Broker)
    → listens t n (launch e o b) ≡ listens t n b
listens-launch t n e none b = refl
listens-launch t n e (some r) b = refl

pub Step-listens :
    (t : Text) (n : ℕ) {b c : Broker}
    → Step b c
    → IsTidy b
    → listens t n c ≡ true
    → (listens t n b ≡ true) ⊎ (n ≡ b.next_subscriber)
unfolding publish enqueue resume
Step-listens t n (subscribes s after b) h k = elim (listens-subscribe_from s t n after b h k) [
  | inl old ↦ inl old
  | inr (_, new) ↦ inr new
]
Step-listens t n (unsubscribes s m b) h k = inl (listens-unsubscribe s t n m b k).0
Step-listens t n (publishes s event b) h k = inl (
    sym (
      listens-launch t n (envelope_of s event b) (lookup text_keys s b.subscribers)
        (enqueue s event b))
    ∙ k)
Step-listens t n (resumes j b) h k = inl k

add_subscriber_young :
    (s : Text) (o : Option ℕ) (b : Broker)
    → (add_subscriber s o b).next_subscriber ≡ suc b.next_subscriber
add_subscriber_young s none b = refl
add_subscriber_young s (some r) b = refl

drop_subscriber_young :
    (s : Text) (m : ℕ) (o : Option ℕ) (b : Broker)
    → (drop_subscriber s m o b).next_subscriber ≡ b.next_subscriber
drop_subscriber_young s m none b = refl
drop_subscriber_young s m (some r) b = refl

launch_young :
    (e : Envelope) (o : Option ℕ) (b : Broker) → (launch e o b).next_subscriber ≡ b.next_subscriber
launch_young e none b = refl
launch_young e (some r) b = refl

pub next_subscriber-unsubscribe :
    (s : Text) (m : ℕ) (b : Broker) → (unsubscribe s m b).next_subscriber ≡ b.next_subscriber
unfolding unsubscribe
next_subscriber-unsubscribe s m b = drop_subscriber_young s m (lookup text_keys s b.subscribers) b

pub next_subscriber-subscribe_from :
    (s : Text) (after : ℕ) (b : Broker)
    → (subscribe_from s after b).next_subscriber ≡ suc b.next_subscriber
unfolding subscribe_from subscribe
next_subscriber-subscribe_from s after b =
    add_subscriber_young s (lookup text_keys s b.subscribers) b

pub Step-next_subscriber : {b c : Broker} → Step b c → b.next_subscriber ≤ c.next_subscriber
unfolding publish enqueue resume
Step-next_subscriber (subscribes s after b) =
    omega (arith, next_subscriber-subscribe_from s after b)
Step-next_subscriber (unsubscribes s m b) = omega (arith, next_subscriber-unsubscribe s m b)
Step-next_subscriber (publishes s event b) = omega (
  arith,
  launch_young (envelope_of s event b) (lookup text_keys s b.subscribers) (enqueue s event b),
)
Step-next_subscriber (resumes k b) = omega arith

listens_new :
    (s : Text) (o : Option ℕ) (b : Broker)
    → lookup text_keys s b.subscribers ≡ o
    → listens s b.next_subscriber (add_subscriber s o b) ≡ true
listens_new s none b e =
    ground (arith, lookup-insert text_keys s s b.next_set b.subscribers, text_eq_refl s)
listens_new s (some r) b e =
    ground
      (arith, e, some_of-append (λ m. m == b.next_subscriber) (b.sets r) (b.next_subscriber ∷ []))

pub listens-subscribe_from_new :
    (s : Text) (after : ℕ) (b : Broker)
    → listens s b.next_subscriber (subscribe_from s after b) ≡ true
unfolding subscribe_from subscribe
listens-subscribe_from_new s after b = listens_new s (lookup text_keys s b.subscribers) b refl
