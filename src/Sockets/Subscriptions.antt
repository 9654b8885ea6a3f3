-- ===== src/Sockets/Subscriptions.antt =====
-- The subscriptions of a connection, among everything else that happens to the broker.
use openhermit.Prelude.{
  ℕ, ◌<◌, Text, text_eq, text_eq_iff, text_eq_refl, text_keys, true, false, Bool-cases,
  Option-cases, lookup, lookup-In, insert, lookup-insert, lookup-erase, Option, none, some, List,
  [], ◌∷◌, In, ◌≡◌, inl, inr, refl, sym, arith,
}
use openhermit.Broker.{Broker, has, unsubscribe, subscribe_from}
use openhermit.Broker.Reached.{Step, subscribes, unsubscribes, Reach}
use openhermit.Broker.Tidy.{IsTidy, Step-IsTidy, Reach-IsTidy}
use openhermit.Broker.Listens.{
  listens, listens-subscribe_from_new, listens-subscribe_from, listens-unsubscribe, Step-listens,
  next_subscriber-unsubscribe, next_subscriber-subscribe_from, Step-next_subscriber,
}
use openhermit.Sockets.{Socket, left_by, add_subscription, end_subscription, leave_all, close}

abbrev pub before_joining : Text → Socket → Broker
before_joining session_id s =
    left_by session_id (lookup text_keys session_id s.subscriptions) s.broker

-- An open connection, and the subscribers that it has made: requests to subscribe go through at any
-- time after their checks, and the rest of the program uses the same broker.
pub data Open : Socket → List ℕ → Type 0 where
  opened : (b : Broker) → Reach b → Open (record { subscriptions = []; broker = b }) []
  grants :
      (session_id : Text) (after : ℕ) {s : Socket} {mine : List ℕ}
      → Open s mine
      → Open
          (add_subscription session_id after s)
          ((before_joining session_id s).next_subscriber ∷ mine)
  ends :
      (session_id : Text) {s : Socket} {mine : List ℕ}
      → Open s mine
      → Open (end_subscription session_id (lookup text_keys session_id s.subscriptions) s).1 mine
  elsewhere :
      {s : Socket} {mine : List ℕ} {b : Broker}
      → Open s mine
      → Step s.broker b
      → Open (record s { broker = b }) mine

pub record IsTracked (s : Socket) (mine : List ℕ) : Type 0 where
  pub tidy : IsTidy s.broker
  pub aged : (n : ℕ) → has n mine ≡ true → n < s.broker.next_subscriber
  pub tracked :
      (t : Text) (n : ℕ)
      → has n mine ≡ true
      → listens t n s.broker ≡ true
      → lookup text_keys t s.subscriptions ≡ some n

-- What stays after the old subscription of the session has ended.
left_by-tracked :
    (session_id : Text) (o : Option ℕ) (s : Socket) (mine : List ℕ) (t : Text) (n : ℕ)
    → lookup text_keys session_id s.subscriptions ≡ o
    → IsTracked s mine
    → has n mine ≡ true
    → listens t n (left_by session_id o s.broker) ≡ true
    → (lookup text_keys t s.subscriptions ≡ some n) × (text_eq session_id t ≡ false)
left_by-tracked session_id none s mine t n e h own k =
    let found = h.tracked t n own k in (found, ground (arith, found, e, text_eq_iff session_id t))
left_by-tracked session_id (some m) s mine t n e h own k =
    let (old, other) = listens-unsubscribe session_id t n m s.broker k in
    let found = h.tracked t n own old in
    (
      found,
      elim (Bool-cases (text_eq session_id t)) [
        | inl same ↦
            let at : t ≡ session_id = sym ((text_eq_iff session_id t).0 same) in
            absurd (other at (ground (arith, found, e, at)))
        | inr apart ↦ apart
      ],
    )

left_by-IsTidy :
    (session_id : Text) (o : Option ℕ) (b : Broker) → IsTidy b → IsTidy (left_by session_id o b)
left_by-IsTidy session_id none b h = h
left_by-IsTidy session_id (some m) b h = Step-IsTidy (unsubscribes session_id m b) h

left_by_young :
    (session_id : Text) (o : Option ℕ) (b : Broker)
    → (left_by session_id o b).next_subscriber ≡ b.next_subscriber
left_by_young session_id none b = refl
left_by_young session_id (some m) b = next_subscriber-unsubscribe session_id m b

listens_young :
    (t : Text) (n : ℕ) (b : Broker) → IsTidy b → listens t n b ≡ true → n < b.next_subscriber
listens_young t n b h k = elim (Option-cases (lookup text_keys t b.subscribers)) [
  | inl nothing ↦ absurd (ground (arith, nothing, k))
  | inr (r, there) ↦ h.young r n (ground (arith, there, k))
]

last_of : (n m : ℕ) (mine : List ℕ) → has n (m ∷ mine) ≡ true → has n mine ≡ false → n ≡ m
last_of n m mine h k = ground arith

module _ (session_id : Text) (after : ℕ) (s : Socket) (mine : List ℕ) (h : IsTracked s mine) where
  granted_tracked :
      (t : Text) (n : ℕ)
      → has n ((before_joining session_id s).next_subscriber ∷ mine) ≡ true
      → listens t n (subscribe_from session_id after (before_joining session_id s)) ≡ true
      → lookup text_keys t (
          insert text_keys session_id (before_joining session_id s).next_subscriber s.subscriptions)
        ≡ some n
  granted_tracked t n own k =
      let b = before_joining session_id s in
      let o = lookup text_keys session_id s.subscriptions in
      let tidy = left_by-IsTidy session_id o s.broker h.tidy in
      elim (listens-subscribe_from session_id t n after b tidy k) [
        | inr (same, new) ↦
            rw (lookup-insert text_keys session_id t b.next_subscriber s.subscriptions)
              (ground (arith, same, new, text_eq_refl session_id))
        | inl old ↦ elim (Bool-cases (has n mine)) [
          | inl mine' ↦
              let (found, other) = left_by-tracked session_id o s mine t n refl h mine' old in
              rw (lookup-insert text_keys session_id t b.next_subscriber s.subscriptions)
                (ground (arith, other, found))
          | inr other ↦ absurd (
              omega
                (arith, listens_young t n b tidy old, last_of n b.next_subscriber mine own other))
        ]
      ]

  grants-IsTracked :
      IsTracked
        (add_subscription session_id after s)
        ((before_joining session_id s).next_subscriber ∷ mine)
  unfolding add_subscription
  grants-IsTracked = record {
    tidy =
        Step-IsTidy (subscribes session_id after (before_joining session_id s))
          (left_by-IsTidy session_id (lookup text_keys session_id s.subscriptions) s.broker h.tidy);
    aged = λ n own. ground (
      arith,
      own,
      h.aged n,
      left_by_young session_id (lookup text_keys session_id s.subscriptions) s.broker,
      next_subscriber-subscribe_from session_id after (before_joining session_id s),
    );
    tracked = granted_tracked;
  }

ends-IsTracked :
    (session_id : Text) (o : Option ℕ) (s : Socket) (mine : List ℕ)
    → lookup text_keys session_id s.subscriptions ≡ o
    → IsTracked s mine
    → IsTracked (end_subscription session_id o s).1 mine
ends-IsTracked session_id none s mine e h = h
ends-IsTracked session_id (some m) s mine e h = record {
  tidy = Step-IsTidy (unsubscribes session_id m s.broker) h.tidy;
  aged = λ n own. ground (arith, h.aged n own, next_subscriber-unsubscribe session_id m s.broker);
  tracked = λ t n own k.
      let (found, other) = left_by-tracked session_id (some m) s mine t n e h own k in
      rw (lookup-erase text_keys session_id t s.subscriptions) (ground (arith, other, found));
}

elsewhere-IsTracked :
    (s : Socket) (b : Broker) (mine : List ℕ)
    → Step s.broker b
    → IsTracked s mine
    → IsTracked (record s { broker = b }) mine
elsewhere-IsTracked s b mine step h = record {
  tidy = Step-IsTidy step h.tidy;
  aged = λ n own. omega (arith, h.aged n own, Step-next_subscriber step);
  tracked = λ t n own k. elim (Step-listens t n step h.tidy k) [
    | inl old ↦ h.tracked t n own old
    | inr new ↦ absurd (omega (arith, h.aged n own, new))
  ];
}

opened-IsTracked : (b : Broker) → Reach b → IsTracked (record { subscriptions = []; broker = b }) []
opened-IsTracked b r = record {
  tidy = Reach-IsTidy b r;
  aged = λ n own. absurd (cc own);
  tracked = λ t n own k. absurd (cc own);
}

-- At any time each subscriber that a connection has made and that still listens to a session is the
-- one that the connection has noted for the session, so that the connection can end it.
pub Open-IsTracked : (s : Socket) (mine : List ℕ) → Open s mine → IsTracked s mine
Open-IsTracked s mine (opened b r) = opened-IsTracked b r
Open-IsTracked s mine (grants session_id after {s = t} {mine = ns} o) =
    grants-IsTracked session_id after t ns (Open-IsTracked t ns o)
Open-IsTracked s mine (ends session_id {s = t} o) =
    ends-IsTracked session_id (lookup text_keys session_id t.subscriptions) t mine refl
      (Open-IsTracked t mine o)
Open-IsTracked s mine (elsewhere {s = t} {b = b} o step) =
    elsewhere-IsTracked t b mine step (Open-IsTracked t mine o)

leave_all-listens :
    (subscriptions : List (Text × ℕ)) (b : Broker) (t : Text) (n : ℕ)
    → listens t n (leave_all subscriptions b) ≡ true
    → (listens t n b ≡ true) × (In {A = Text × ℕ} (t, n) subscriptions → ⊥)
unfolding leave_all
leave_all-listens [] b t n k = (k, λ m. m)
leave_all-listens ((s, m) ∷ subscriptions) b t n k =
    let (before, rest) = leave_all-listens subscriptions (unsubscribe s m b) t n k in
    let (old, other) = listens-unsubscribe s t n m b before in
    (
      old,
      λ there. elim there [
        | inl same ↦ other (λ i. (same i).0) (λ i. (same i).1)
        | inr behind ↦ rest behind
      ],
    )

-- Once the connection is closed none of the subscribers that it has made listens to anything. But a
-- request to subscribe whose check ends after that makes a new one, which listens to its session.
pub close-listens :
    (s : Socket) (mine : List ℕ) (session_id : Text) (after : ℕ)
    → Open s mine
    → ((t : Text) (n : ℕ) → has n mine ≡ true → listens t n (close s).broker ≡ false)
      × (listens session_id
            (before_joining session_id (close s)).next_subscriber
            (add_subscription session_id after (close s)).broker
          ≡ true)
unfolding close
close-listens s mine session_id after o = (
  λ t n own. elim (Bool-cases (listens t n (leave_all s.subscriptions s.broker))) [
    | inr quiet ↦ quiet
    | inl k ↦
        let (old, gone) = leave_all-listens s.subscriptions s.broker t n k in
        absurd (
          gone (
            lookup-In text_keys t s.subscriptions n
              ((Open-IsTracked s mine o).tracked t n own old)))
  ],
  unfold add_subscription lookup in
      listens-subscribe_from_new session_id after (leave_all s.subscriptions s.broker),
)
