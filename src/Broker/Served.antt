-- ===== src/Broker/Served.antt =====
-- A subscriber that a loop of `publish` has still to visit, and one that stays in its set.
use openhermit.Prelude.{
  ℕ, zero, suc, ◌<◌, Text, text_eq, text_keys, text_eq_iff, ◌==◌, not, true, false, Bool-cases,
  lookup, lookup-insert, lookup-erase, Option, none, some, List, [], ◌∷◌, ◌++◌, find,
  some_of-append, In, In-append_left, In-append_right, ◌≡◌, ◌⊎◌, inl, inr, refl, sym, subst, ◌∙◌,
  arith,
}
use openhermit.Broker.{
  Envelope, Flight, Broker, has, without, emptied, add_subscriber, drop_subscriber, advance,
  resume_in,
}

-- A loop over the set hands the event out and has not come to the subscriber.
abbrev pub Waits : ℕ → ℕ → Envelope → List Flight → Type 0
Waits n ref e fs =
    (f : Flight) × In f fs × (f.envelope ≡ e) × (f.set ≡ ref) × (has n f.visited ≡ false)

abbrev pub Given : ℕ → Envelope → Broker → Type 0
Given n e b = In {A = ℕ × Envelope} (n, e) b.received

find_unvisited :
    (n : ℕ) (set visited : List ℕ)
    → has n set ≡ true
    → has n visited ≡ false
    → (m : ℕ) × (find (λ k. not (has k visited)) set ≡ some m)
find_unvisited n [] visited h k = absurd (cc h)
find_unvisited n (m ∷ set) visited h k = elim (Bool-cases (has m visited)) [
  | inl seen ↦
      let other : (m == n) ≡ false = elim (Bool-cases (m == n)) [
        | inl same ↦ absurd (let e : m ≡ n = ground (arith, same) in cc (seen, k, e))
        | inr other ↦ other
      ] in
      let (j, found) = find_unvisited n set visited (ground (arith, h, other)) k in
      (j, ground (arith, seen, found))
  | inr fresh ↦ (m, ground (arith, fresh))
]

module _ (n ref : ℕ) (e : Envelope) where
  pub Waits-left : (fs gs : List Flight) → Waits n ref e fs → Waits n ref e (fs ++ gs)
  Waits-left fs gs (f, m, same, at, fresh) = (f, In-append_left f fs gs m, same, at, fresh)

  pub Waits-right : (fs gs : List Flight) → Waits n ref e gs → Waits n ref e (fs ++ gs)
  Waits-right fs gs (f, m, same, at, fresh) = (f, In-append_right f fs gs m, same, at, fresh)

  -- One round of a loop: it hands the event to the subscriber or to another.
  pub advance-Waits :
      (set : List ℕ) (f : Flight)
      → has n set ≡ true
      → f.envelope ≡ e
      → f.set ≡ ref
      → has n f.visited ≡ false
      → In {A = ℕ × Envelope} (n, e) (advance set f).1 ⊎ Waits n ref e (advance set f).0
  advance-Waits set f h same at k =
      let (m, found) = find_unvisited n set f.visited h k in
      elim (Bool-cases (m == n)) [
        | inl here ↦
            let here' : n ≡ m = ground (arith, here) in
            rw found (inl (inl (λ i. (here' i, sym same i))))
        | inr other ↦ rw found (
            inr
              (record f { visited = m ∷ f.visited }, inl refl, same, at, ground (arith, other, k)))
      ]

  resume_head :
      (sets : ℕ → List ℕ) (f g : Flight) (fs : List Flight)
      → has n (sets ref) ≡ true
      → (g ≡ f) ⊎ In g fs
      → g.envelope ≡ e
      → g.set ≡ ref
      → has n g.visited ≡ false
      → In {A = ℕ × Envelope} (n, e) (advance (sets f.set) f).1
        ⊎ Waits n ref e ((advance (sets f.set) f).0 ++ fs)
  resume_head sets f g fs h (inl same) p q k =
      let at : f.set ≡ ref = cc (same, q) in
      let there : has n (sets f.set) ≡ true = rw at h in
      elim (advance-Waits (sets f.set) f there (cc (same, p)) at
        (subst (λ x. has n x.visited ≡ false) same k)) [
          | inl given ↦ inl given
          | inr waits ↦ inr (Waits-left (advance (sets f.set) f).0 fs waits)
        ]
  resume_head sets f g fs h (inr m) p q k =
      inr (Waits-right (advance (sets f.set) f).0 fs (g, m, p, q, k))

  Waits-behind : (f : Flight) (fs : List Flight) → Waits n ref e fs → Waits n ref e (f ∷ fs)
  Waits-behind f fs (g, m, rest, at, fresh) = (g, inr m, rest, at, fresh)

  pub resume_in-Waits :
      (sets : ℕ → List ℕ) (k : ℕ) (fs : List Flight)
      → has n (sets ref) ≡ true
      → Waits n ref e fs
      → In {A = ℕ × Envelope} (n, e) (resume_in k fs sets).1 ⊎ Waits n ref e (resume_in k fs sets).0
  unfolding resume_in
  resume_in-Waits sets k [] h (g, m, same, at, fresh) = elim m [ ]
  resume_in-Waits sets zero (f ∷ fs) h (g, m, same, at, fresh) =
      resume_head sets f g fs h m same at fresh
  resume_in-Waits sets (suc k) (f ∷ fs) h (g, inl here, same, at, fresh) =
      inr (g, inl here, same, at, fresh)
  resume_in-Waits sets (suc k) (f ∷ fs) h (g, inr m, same, at, fresh) =
      elim (resume_in-Waits sets k fs h (g, m, same, at, fresh)) [
        | inl given ↦ inl given
        | inr waits ↦ inr (Waits-behind f (resume_in k fs sets).0 waits)
      ]

-- The subscriber stands in the set of the session.
abbrev pub IsHeld : Text → ℕ → ℕ → Broker → Type 0
IsHeld s n ref b =
    (lookup text_keys s b.subscribers ≡ some ref) × (ref < b.next_set) × (has n (b.sets ref) ≡ true)

pub add_subscriber-IsHeld :
    (s t : Text) (n ref : ℕ) (o : Option ℕ) (b : Broker)
    → lookup text_keys t b.subscribers ≡ o
    → IsHeld s n ref b
    → IsHeld s n ref (add_subscriber t o b)
add_subscriber-IsHeld s t n ref none b e (mapped, old, held) = (
  ground (arith, e, mapped, text_eq_iff t s, lookup-insert text_keys t s b.next_set b.subscribers),
  omega (arith, old),
  ground (arith, old, held),
)
add_subscriber-IsHeld s t n ref (some r) b e (mapped, old, held) = (
  mapped,
  old,
  ground (arith, held, some_of-append (λ m. m == n) (b.sets r) (b.next_subscriber ∷ [])),
)

has-without : (n m : ℕ) (set : List ℕ) → (m == n) ≡ false → has n (without m set) ≡ has n set
has-without n m [] h = refl
has-without n m (k ∷ set) h = ground (arith, h, has-without n m set h)

emptied-held :
    (s t : Text) (n r ref : ℕ) (set : List ℕ) (b : Broker)
    → lookup text_keys t b.subscribers ≡ some r
    → lookup text_keys s b.subscribers ≡ some ref
    → (r ≡ ref → has n set ≡ true)
    → lookup text_keys s (emptied t set b.subscribers) ≡ some ref
emptied-held s t n r ref [] b e mapped held = elim (Bool-cases (text_eq t s)) [
  | inl same ↦
      let k : r ≡ ref = ground (arith, e, mapped, (text_eq_iff t s).0 same) in absurd (cc (held k))
  | inr other ↦ rw (lookup-erase text_keys t s b.subscribers) (ground (arith, other, mapped))
]
emptied-held s t n r ref (m ∷ set) b e mapped held = mapped

pub drop_subscriber-IsHeld :
    (s t : Text) (n m ref : ℕ) (o : Option ℕ) (b : Broker)
    → lookup text_keys t b.subscribers ≡ o
    → (m == n) ≡ false
    → IsHeld s n ref b
    → IsHeld s n ref (drop_subscriber t m o b)
drop_subscriber-IsHeld s t n m ref none b e other h = h
drop_subscriber-IsHeld s t n m ref (some r) b e other (mapped, old, held) = (
  emptied-held s t n r ref (without m (b.sets r)) b e mapped
      (λ k. has-without n m (b.sets r) other ∙ subst (λ x. has n (b.sets x) ≡ true) (sym k) held),
  old,
  ground (arith, held, has-without n m (b.sets r) other),
)
