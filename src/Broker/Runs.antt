-- ===== src/Broker/Runs.antt =====
-- What a subscriber receives that asks for the events after an id.
use openhermit.Prelude.{
  ℕ, ◌<◌, Text, text_eq, text_eq_refl, text_keys, ◌==◌, false, lookup, lookup-insert, Option, none,
  some, List, [], ◌∷◌, ◌++◌, map, some_of-append, All, In, In-append_right, ◌≡◌, inl, inr, refl,
  subst, arith, if◌then◌else◌,
}
use openhermit.Broker.{
  Envelope, Broker, add_subscriber, subscribe, unsubscribe, subscribe_from, get_backlog, replay,
  envelope_of, publish, resume,
}
use openhermit.Broker.Reached.{Reach, Reach-IsSound}
use openhermit.Broker.Served.{Given, IsHeld}
use openhermit.Broker.Kept.{
  IsServed, AllServed, All-mono, resume-AllServed, subscribe-AllServed, unsubscribe-AllServed,
  publish-AllServed,
}

-- What happens to a broker after a subscriber has come, but for its own end; the events are those
-- that it is to receive.
pub data Run (s : Text) (after : ℕ) (first : Broker) : Broker → List Envelope → Type 0 where
  starts : Run s after first (subscribe_from s after first) (replay after (get_backlog s first))
  publishes :
      (t event : Text) {b : Broker} {es : List Envelope}
      → Run s after first b es
      → Run s after first
          (publish t event b)
          (if text_eq t s then es ++ envelope_of t event b ∷ [] else es)
  resumes :
      (k : ℕ) {b : Broker} {es : List Envelope}
      → Run s after first b es
      → Run s after first (resume k b) es
  subscribes :
      (t : Text) (from : ℕ) {b : Broker} {es : List Envelope}
      → Run s after first b es
      → Run s after first (subscribe_from t from b) es
  unsubscribes :
      (t : Text) (m : ℕ) {b : Broker} {es : List Envelope}
      → (m == first.next_subscriber) ≡ false
      → Run s after first b es
      → Run s after first (unsubscribe t m b) es

In-map_pair :
    (n : ℕ) (es : List Envelope) → All (λ e. In {A = ℕ × Envelope} (n, e) (map (λ f. (n, f)) es)) es
In-map_pair n [] = tt
In-map_pair n (e ∷ es) = (
  inl refl,
  All-mono (λ f. In {A = ℕ × Envelope} (n, f) (map (λ g. (n, g)) es)) _ es (λ f m. inr m)
      (In-map_pair n es),
)

subscribe-IsHeld :
    (s : Text) (o : Option ℕ) (b : Broker)
    → lookup text_keys s b.subscribers ≡ o
    → ((ref : ℕ) → o ≡ some ref → ref < b.next_set)
    → (ref : ℕ) × IsHeld s b.next_subscriber ref (add_subscriber s o b)
subscribe-IsHeld s none b e made = (
  b.next_set,
  (
    ground (arith, text_eq_refl s, lookup-insert text_keys s s b.next_set b.subscribers),
    omega arith,
    ground arith,
  ),
)
subscribe-IsHeld s (some r) b e made = (
  r,
  (
    e,
    made r refl,
    ground
        (arith, some_of-append (λ m. m == b.next_subscriber) (b.sets r) (b.next_subscriber ∷ [])),
  ),
)

start-AllServed :
    (s : Text) (after : ℕ) (b : Broker)
    → Reach b
    → AllServed s b.next_subscriber (subscribe_from s after b) (replay after (get_backlog s b))
unfolding subscribe_from subscribe
start-AllServed s after b r =
    let o = lookup text_keys s b.subscribers in
    let (ref, held) =
      subscribe-IsHeld s o b refl (λ ref there. (Reach-IsSound b r).made s ref there) in
    let es = replay after (get_backlog s b) in
    (
      ref,
      held,
      All-mono
          (λ e. In {A = ℕ × Envelope} (b.next_subscriber, e) (map (λ f. (b.next_subscriber, f)) es))
          (IsServed b.next_subscriber ref (subscribe_from s after b)) es
          (λ e m. inl (
            In-append_right {A = ℕ × Envelope} (b.next_subscriber, e) (subscribe s b).received
              (map (λ f. (b.next_subscriber, f)) es) m))
          (In-map_pair b.next_subscriber es),
    )

Run-AllServed :
    (s : Text) (after : ℕ) (first b : Broker) (es : List Envelope)
    → Reach first
    → Run s after first b es
    → AllServed s first.next_subscriber b es
Run-AllServed s after first b es r starts = start-AllServed s after first r
Run-AllServed s after first b es r (publishes t event {b = c} {es = fs} h) =
    publish-AllServed s first.next_subscriber t event c fs (Run-AllServed s after first c fs r h)
Run-AllServed s after first b es r (resumes k {b = c} h) =
    resume-AllServed s first.next_subscriber k c es (Run-AllServed s after first c es r h)
Run-AllServed s after first b es r (subscribes t from {b = c} h) =
    subscribe-AllServed s first.next_subscriber t from c es (Run-AllServed s after first c es r h)
Run-AllServed s after first b es r (unsubscribes t m {b = c} other h) =
    unsubscribe-AllServed s first.next_subscriber t m c es other
      (Run-AllServed s after first c es r h)

Given-all :
    (n ref : ℕ) (b : Broker) (e : Envelope) → b.flights ≡ [] → IsServed n ref b e → Given n e b
Given-all n ref b e idle (inl given) = given
Given-all n ref b e idle (inr (f, m, _, _, _)) = elim (subst (In f) idle m) [ ]

-- Whatever happens after a subscription from an id, short of its own end: once no loop of `publish`
-- is under way, the subscriber has received every later event that was still in the backlog, which
-- keeps the last hundred, and every event of the session that was published since.
pub Run-receives :
    (s : Text) (after : ℕ) (first b : Broker) (es : List Envelope)
    → Reach first
    → Run s after first b es
    → b.flights ≡ []
    → All (λ e. In {A = ℕ × Envelope} (first.next_subscriber, e) b.received) es
Run-receives s after first b es r h idle =
    let (ref, held, served) = Run-AllServed s after first b es r h in
    All-mono (IsServed first.next_subscriber ref b) (λ e. Given first.next_subscriber e b) es
      (λ e. Given-all first.next_subscriber ref b e idle) served
