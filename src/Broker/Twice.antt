-- ===== src/Broker/Twice.antt =====
-- An event that a subscriber receives twice: a loop of `publish` goes over the set as it is then.
use openhermit.Prelude.{
  ℕ, ◌<◌, ltb, Text, text_keys, not, true, false, Bool-cases, lookup, some, List, [], ◌∷◌, ◌++◌,
  map, find, every, In, ◌≡◌, inl, inr, ◌∙◌, ap, arith,
}
use openhermit.Broker.{
  Envelope, Flight, Broker, has, hand_to, advance, subscribe, subscribe_from, get_backlog, replay,
  resume_in, resume,
}
use openhermit.Broker.Reached.{subscribe-parts}

In-replayed :
    (n after : ℕ) (e : Envelope) (es : List Envelope)
    → In e es
    → after < e.id
    → In {A = ℕ × Envelope} (n, e) (map (λ f. (n, f)) (replay after es))
In-replayed n after e [] m h = elim m [ ]
In-replayed n after e (f ∷ es) m h = elim (Bool-cases (ltb after f.id)) [
  | inl later ↦ rw later (elim m [
    | inl same ↦ inl (λ i. (n, same i))
    | inr there ↦ inr (In-replayed n after e es there h)
  ])
  | inr earlier ↦ rw earlier (elim m [
    | inl same ↦
        absurd (let k : after < f.id = ground (arith, h, same) in ground (arith, k, earlier))
    | inr there ↦ In-replayed n after e es there h
  ])
]

find-append_end :
    (visited set : List ℕ) (n : ℕ)
    → every (λ m. has m visited) set ≡ true
    → has n visited ≡ false
    → find (λ m. not (has m visited)) (set ++ n ∷ []) ≡ some n
find-append_end visited [] n h k = ground (arith, k)
find-append_end visited (m ∷ set) n h k =
    ground (arith, h, find-append_end visited set n (ground (arith, h)) k)

resume-head :
    (b : Broker) (f : Flight) (fs : List Flight)
    → b.flights ≡ f ∷ fs
    → (resume 0 b).received ≡ b.received ++ (advance (b.sets f.set) f).1
unfolding resume resume_in
resume-head b f fs flying = ap (λ x. b.received ++ (resume_in 0 x b.sets).1) flying

subscribe-set :
    (s : Text) (ref : ℕ) (b : Broker)
    → lookup text_keys s b.subscribers ≡ some ref
    → (subscribe s b).sets ref ≡ b.sets ref ++ b.next_subscriber ∷ []
unfolding subscribe
subscribe-set s ref b mapped = rw mapped (ground arith)

handed_to_new :
    (s : Text) (after ref : ℕ) (b : Broker) (f : Flight)
    → lookup text_keys s b.subscribers ≡ some ref
    → f.set ≡ ref
    → every (λ m. has m f.visited) (b.sets ref) ≡ true
    → has b.next_subscriber f.visited ≡ false
    → advance ((subscribe_from s after b).sets f.set) f ≡ hand_to f (some b.next_subscriber)
unfolding subscribe_from
handed_to_new s after ref b f mapped at all_seen fresh =
    ap (λ r. advance ((subscribe s b).sets r) f) at
    ∙ ap (λ set. advance set f) (subscribe-set s ref b mapped)
    ∙ ap (hand_to f) (find-append_end f.visited (b.sets ref) b.next_subscriber all_seen fresh)

-- While the loop of an event of the session awaits the last subscriber of the set, a new subscriber
-- that asks for the events after an earlier id gets the event from the backlog, and once more from
-- the loop.
pub subscribe_from-twice :
    (s : Text) (after ref : ℕ) (b : Broker) (f : Flight) (fs : List Flight)
    → lookup text_keys s b.subscribers ≡ some ref
    → b.flights ≡ f ∷ fs
    → f.set ≡ ref
    → every (λ m. has m f.visited) (b.sets ref) ≡ true
    → has b.next_subscriber f.visited ≡ false
    → In f.envelope (get_backlog s b)
    → after < f.envelope.id
    → (new : List (ℕ × Envelope)) × ((subscribe_from s after b).received ≡ b.received ++ new)
      × In {A = ℕ × Envelope} (b.next_subscriber, f.envelope) new
      × ((resume 0 (subscribe_from s after b)).received
          ≡ (subscribe_from s after b).received ++ (b.next_subscriber, f.envelope) ∷ [])
unfolding subscribe_from
subscribe_from-twice s after ref b f fs mapped flying at all_seen fresh stored later =
    let new : List (ℕ × Envelope) =
      map (λ e. (b.next_subscriber, e)) (replay after (get_backlog s b)) in
    (
      new,
      ap (λ x. x ++ new) (subscribe-parts s b).3,
      In-replayed b.next_subscriber after f.envelope (get_backlog s b) stored later,
      resume-head (subscribe_from s after b) f fs ((subscribe-parts s b).2 ∙ flying)
          ∙ ap (λ x. (subscribe_from s after b).received ++ x.1)
              (handed_to_new s after ref b f mapped at all_seen fresh),
    )
