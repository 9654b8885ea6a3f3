-- ===== src/Broker/Tidy.antt =====
-- The sets of subscribers in the states that a broker reaches.
use openhermit.Prelude.{
  ℕ, ◌<◌, Text, text_eq, text_keys, text_eq_iff, ◌==◌, true, false, Bool-cases, lookup, insert,
  lookup-insert, Option, none, some, List, [], ◌∷◌, some_of-append, ◌≡◌, ◌⊎◌, inl, inr, refl, sym,
  arith,
}
use openhermit.Broker.{
  Envelope, Broker, new_broker, has, without, add_subscriber, drop_subscriber, subscribe,
  unsubscribe, subscribe_from, launch, enqueue, envelope_of, publish, resume,
}
use openhermit.Broker.Reached.{
  Step, subscribes, unsubscribes, publishes, resumes, Reach, here, next, lookup-emptied,
}

-- No two sessions share a set, and all sets and subscribers have been made.
pub record IsTidy (b : Broker) : Type 0 where
  pub made : (s : Text) (r : ℕ) → lookup text_keys s b.subscribers ≡ some r → r < b.next_set
  pub apart :
      (s t : Text) (r : ℕ)
      → lookup text_keys s b.subscribers ≡ some r
      → lookup text_keys t b.subscribers ≡ some r
      → s ≡ t
  pub young : (r n : ℕ) → has n (b.sets r) ≡ true → n < b.next_subscriber

pub has-without_le : (n m : ℕ) (set : List ℕ) → has n (without m set) ≡ true → has n set ≡ true
has-without_le n m [] h = absurd (cc h)
has-without_le n m (k ∷ set) h = elim (Bool-cases (k == m)) [
  | inl same ↦ let rest = has-without_le n m set (ground (arith, h, same)) in ground (arith, rest)
  | inr other ↦ elim (Bool-cases (k == n)) [
    | inl is ↦ ground (arith, is)
    | inr not' ↦ ground (arith, has-without_le n m set (ground (arith, h, other, not')))
  ]
]

pub has-without_self : (m : ℕ) (set : List ℕ) → has m (without m set) ≡ false
has-without_self m [] = refl
has-without_self m (k ∷ set) = ground (arith, has-without_self m set)

pub add_subscriber-made :
    (s t : Text) (r : ℕ) (b : Broker)
    → IsTidy b
    → lookup text_keys t (insert text_keys s b.next_set b.subscribers) ≡ some r
    → ((t ≡ s) × (r ≡ b.next_set))
      ⊎ ((lookup text_keys t b.subscribers ≡ some r) × (r < b.next_set))
add_subscriber-made s t r b h there = elim (Bool-cases (text_eq s t)) [
  | inl same ↦ inl (
    sym ((text_eq_iff s t).0 same),
    ground (arith, same, there, lookup-insert text_keys s t b.next_set b.subscribers),
  )
  | inr other ↦
      let old : lookup text_keys t b.subscribers ≡ some r =
        ground (arith, other, there, lookup-insert text_keys s t b.next_set b.subscribers) in
      inr (old, h.made t r old)
]

add_subscriber-apart :
    (s t u : Text) (r : ℕ) (b : Broker)
    → IsTidy b
    → lookup text_keys t (insert text_keys s b.next_set b.subscribers) ≡ some r
    → lookup text_keys u (insert text_keys s b.next_set b.subscribers) ≡ some r
    → t ≡ u
add_subscriber-apart s t u r b h there also = elim (add_subscriber-made s t r b h there) [
  | inl (e, new) ↦ elim (add_subscriber-made s u r b h also) [
    | inl (f, _) ↦ cc (e, f)
    | inr (_, old) ↦ absurd (omega (arith, new, old))
  ]
  | inr (old, less) ↦ elim (add_subscriber-made s u r b h also) [
    | inl (_, new) ↦ absurd (omega (arith, new, less))
    | inr (old', _) ↦ h.apart t u r old old'
  ]
]

add_subscriber-IsTidy :
    (s : Text) (o : Option ℕ) (b : Broker) → IsTidy b → IsTidy (add_subscriber s o b)
add_subscriber-IsTidy s none b h = record {
  made = λ t r there. elim (add_subscriber-made s t r b h there) [
    | inl (_, new) ↦ omega (arith, new)
    | inr (_, less) ↦ omega (arith, less)
  ];
  apart = λ t u r there also. add_subscriber-apart s t u r b h there also;
  young = λ r n there. ground (arith, there, h.young r n);
}
add_subscriber-IsTidy s (some r0) b h = record {
  made = h.made;
  apart = h.apart;
  young = λ r n there. ground (
    arith,
    there,
    some_of-append (λ m. m == n) (b.sets r0) (b.next_subscriber ∷ []),
    h.young r n,
    h.young r0 n,
  );
}

drop_subscriber-IsTidy :
    (s : Text) (m : ℕ) (o : Option ℕ) (b : Broker) → IsTidy b → IsTidy (drop_subscriber s m o b)
drop_subscriber-IsTidy s m none b h = h
drop_subscriber-IsTidy s m (some r0) b h =
    let set = without m (b.sets r0) in
    record {
      made = λ t r there. h.made t r (lookup-emptied s t set b.subscribers r there);
      apart = λ t u r there also.
          h.apart t u r (lookup-emptied s t set b.subscribers r there)
            (lookup-emptied s u set b.subscribers r also);
      young = λ r n there.
          ground (arith, there, has-without_le n m (b.sets r0), h.young r n, h.young r0 n);
    }

launch-IsTidy : (e : Envelope) (o : Option ℕ) (b : Broker) → IsTidy b → IsTidy (launch e o b)
launch-IsTidy e none b h = h
launch-IsTidy e (some r) b h = record { made = h.made; apart = h.apart; young = h.young }

pub Step-IsTidy : {b c : Broker} → Step b c → IsTidy b → IsTidy c
unfolding subscribe unsubscribe subscribe_from publish enqueue resume
Step-IsTidy (subscribes s after b) h =
    let k = add_subscriber-IsTidy s (lookup text_keys s b.subscribers) b h in
    record { made = k.made; apart = k.apart; young = k.young }
Step-IsTidy (unsubscribes s n b) h =
    drop_subscriber-IsTidy s n (lookup text_keys s b.subscribers) b h
Step-IsTidy (publishes s event b) h =
    launch-IsTidy (envelope_of s event b) (lookup text_keys s b.subscribers) (enqueue s event b)
      (record { made = h.made; apart = h.apart; young = h.young })
Step-IsTidy (resumes k b) h = record { made = h.made; apart = h.apart; young = h.young }

new_broker-IsTidy : IsTidy new_broker
unfolding lookup
new_broker-IsTidy = record {
  made = λ s r there. cc there;
  apart = λ s t r there also. absurd (cc there);
  young = λ r n there. absurd (cc there);
}

pub Reach-IsTidy : (b : Broker) → Reach b → IsTidy b
Reach-IsTidy b here = new_broker-IsTidy
Reach-IsTidy b (next {b = a} r s) = Step-IsTidy s (Reach-IsTidy a r)
