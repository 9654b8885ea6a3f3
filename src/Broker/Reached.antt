-- ===== src/Broker/Reached.antt =====
-- The states that a broker reaches.
use openhermit.Prelude.{
  ℕ, zero, suc, ◌-◌, ◌≤◌, ◌<◌, Text, text_eq, text_keys, text_eq_iff, Option-cases, Bool-cases,
  lookup, lookup-insert, lookup-erase, Option, none, some, List, [], ◌∷◌, ◌++◌, length, drop,
  length-drop, All, All-append, or_else, ◌≡◌, inl, inr, refl, subst, sym, arith, if◌then◌else◌,
}
use openhermit.Broker.{
  Envelope, Broker, new_broker, emptied, without, add_subscriber, drop_subscriber, subscribe,
  unsubscribe, subscribe_from, get_backlog, last_hundred, envelope_of, enqueue, publish, resume,
}

pub data Step : Broker → Broker → Type 0 where
  subscribes : (s : Text) (after : ℕ) (b : Broker) → Step b (subscribe_from s after b)
  unsubscribes : (s : Text) (n : ℕ) (b : Broker) → Step b (unsubscribe s n b)
  publishes : (s event : Text) (b : Broker) → Step b (publish s event b)
  resumes : (k : ℕ) (b : Broker) → Step b (resume k b)

pub data Reach : Broker → Type 0 where
  here : Reach new_broker
  next : {b c : Broker} → Reach b → Step b c → Reach c

-- The ids ascend, below a bound.
abbrev pub IsAscending : ℕ → List Envelope → Type 0
IsAscending bound [] = Unit
IsAscending bound (e ∷ es) = (e.id < bound) × All (λ f. e.id < f.id) es × IsAscending bound es

-- The sets that are referred to have been made; each session's backlog holds at most a hundred
-- events of the session, in the order of their ids.
pub record IsSound (b : Broker) : Type 0 where
  pub made : (s : Text) (ref : ℕ) → lookup text_keys s b.subscribers ≡ some ref → ref < b.next_set
  pub short : (s : Text) → length (get_backlog s b) ≤ 100
  pub own : (s : Text) → All (λ e. e.session_id ≡ s) (get_backlog s b)
  pub ascends : (s : Text) → IsAscending b.next_event_id (get_backlog s b)

IsAscending-mono : (m n : ℕ) (es : List Envelope) → m ≤ n → IsAscending m es → IsAscending n es
IsAscending-mono m n [] le h = h
IsAscending-mono m n (e ∷ es) le h = (omega (arith, h.0), h.1, IsAscending-mono m n es le h.2)

below : (m : ℕ) (es : List Envelope) → IsAscending m es → All (λ f. f.id < m) es
below m [] h = h
below m (e ∷ es) h = (h.0, below m es h.2)

IsAscending-append :
    (e : Envelope) (es : List Envelope)
    → IsAscending e.id es
    → IsAscending (suc e.id) (es ++ e ∷ [])
IsAscending-append e [] h = ground arith
IsAscending-append e (f ∷ es) h = (
  omega (arith, h.0),
  All-append (λ g. f.id < g.id) es (e ∷ []) h.1 (h.0, tt),
  IsAscending-append e es h.2,
)

IsAscending-drop : (n m : ℕ) (es : List Envelope) → IsAscending m es → IsAscending m (drop n es)
IsAscending-drop zero m es h = h
IsAscending-drop (suc n) m [] h = h
IsAscending-drop (suc n) m (e ∷ es) h = IsAscending-drop n m es h.2

All-drop {κ} : (P : Envelope → Type κ) (n : ℕ) (es : List Envelope) → All P es → All P (drop n es)
All-drop P zero es h = h
All-drop P (suc n) [] h = h
All-drop P (suc n) (e ∷ es) h = All-drop P n es h.1

abbrev AllMade : Broker → Type 0
AllMade b = (s : Text) (ref : ℕ) → lookup text_keys s b.subscribers ≡ some ref → ref < b.next_set

made_mono :
    (b : Broker) (s : Text) (ref : ℕ)
    → AllMade b
    → lookup text_keys s b.subscribers ≡ some ref
    → ref < suc b.next_set
made_mono b s ref h k = omega (arith, h s ref k)

add_subscriber-made :
    (t : Text) (o : Option ℕ) (b : Broker) → AllMade b → AllMade (add_subscriber t o b)
add_subscriber-made t none b h s ref there =
    ground (arith, there, lookup-insert text_keys t s b.next_set b.subscribers, made_mono b s ref h)
add_subscriber-made t (some r) b h s ref there = h s ref there

pub lookup-emptied :
    (t s : Text) (set : List ℕ) (subscribers : List (Text × ℕ)) (ref : ℕ)
    → lookup text_keys s (emptied t set subscribers) ≡ some ref
    → lookup text_keys s subscribers ≡ some ref
lookup-emptied t s [] subscribers ref h = ground (arith, h, lookup-erase text_keys t s subscribers)
lookup-emptied t s (m ∷ set) subscribers ref h = h

drop_subscriber-made :
    (t : Text) (n : ℕ) (o : Option ℕ) (b : Broker) → AllMade b → AllMade (drop_subscriber t n o b)
drop_subscriber-made t n none b h s ref there = h s ref there
drop_subscriber-made t n (some r) b h s ref there =
    h s ref (lookup-emptied t s (without n (b.sets r)) b.subscribers ref there)

pub publish-parts :
    (s event : Text) (b : Broker)
    → ((publish s event b).subscribers ≡ b.subscribers)
      × ((publish s event b).sets ≡ b.sets)
      × ((publish s event b).next_set ≡ b.next_set)
      × ((publish s event b).next_event_id ≡ suc b.next_event_id)
      × ((publish s event b).backlog ≡ (enqueue s event b).backlog)
unfolding publish enqueue
publish-parts s event b = elim (Option-cases (lookup text_keys s b.subscribers)) [
  | inl nothing ↦ rw nothing (refl, refl, refl, refl, refl)
  | inr (r, found) ↦ rw found (refl, refl, refl, refl, refl)
]

pub get_backlog-publish :
    (s event t : Text) (b : Broker)
    → get_backlog t (publish s event b) ≡ (
        if text_eq s t
        then last_hundred (get_backlog s b ++ envelope_of s event b ∷ [])
        else get_backlog t b)
get_backlog-publish s event t b =
    unfold get_backlog enqueue in
    rw (publish-parts s event b).4 (
      ground (
        arith,
        lookup-insert text_keys s t
            (last_hundred (or_else (lookup text_keys s b.backlog) [] ++ envelope_of s event b ∷ []))
            b.backlog,
      ))

abbrev AreSame : Broker → Broker → Type 0
AreSame c b = (c.backlog ≡ b.backlog) × (c.next_event_id ≡ b.next_event_id)

add_subscriber-same : (s : Text) (o : Option ℕ) (b : Broker) → AreSame (add_subscriber s o b) b
add_subscriber-same s none b = (refl, refl)
add_subscriber-same s (some ref) b = (refl, refl)

drop_subscriber-same :
    (s : Text) (n : ℕ) (o : Option ℕ) (b : Broker) → AreSame (drop_subscriber s n o b) b
drop_subscriber-same s n none b = (refl, refl)
drop_subscriber-same s n (some ref) b = (refl, refl)

same-IsSound : (b c : Broker) → IsSound b → AllMade c → AreSame c b → IsSound c
unfolding get_backlog
same-IsSound b c h made (same, count) = record {
  made = made;
  short = λ s. rw same (h.short s);
  own = λ s. rw same (h.own s);
  ascends = λ s. rw (same, count) (h.ascends s);
}

last_hundred_short : (es : List Envelope) → length (last_hundred es) ≤ 100
unfolding last_hundred
last_hundred_short es = omega (arith, length-drop (length es - 100) es)

publish-short :
    (s event t : Text) (b : Broker)
    → length (get_backlog t b) ≤ 100
    → length (get_backlog t (publish s event b)) ≤ 100
publish-short s event t b h =
    rw (get_backlog-publish s event t b)
      (ground (arith, h, last_hundred_short (get_backlog s b ++ envelope_of s event b ∷ [])))

publish-own :
    (s event t : Text) (b : Broker)
    → IsSound b
    → All (λ e. e.session_id ≡ t) (get_backlog t (publish s event b))
publish-own s event t b h = elim (Bool-cases (text_eq s t)) [
  | inl same ↦
      let e : s ≡ t = (text_eq_iff s t).0 same in
      rw (get_backlog-publish s event t b, same)
        (unfold last_hundred in
          All-drop (λ f. f.session_id ≡ t) _ (get_backlog s b ++ envelope_of s event b ∷ [])
            (All-append (λ f. f.session_id ≡ t) (get_backlog s b) (envelope_of s event b ∷ [])
              (subst (λ u. All (λ f. f.session_id ≡ u) (get_backlog s b)) e (h.own s)) (e, tt)))
  | inr other ↦ rw (get_backlog-publish s event t b, other) (h.own t)
]

publish-ascends :
    (s event t : Text) (b : Broker)
    → IsSound b
    → IsAscending (suc b.next_event_id) (get_backlog t (publish s event b))
publish-ascends s event t b h = elim (Bool-cases (text_eq s t)) [
  | inl same ↦
      rw (get_backlog-publish s event t b, same)
        (unfold last_hundred in
          IsAscending-drop _ (suc b.next_event_id) (get_backlog s b ++ envelope_of s event b ∷ [])
            (IsAscending-append (envelope_of s event b) (get_backlog s b) (h.ascends s)))
  | inr other ↦
      rw (get_backlog-publish s event t b, other)
        (IsAscending-mono b.next_event_id (suc b.next_event_id) (get_backlog t b) (omega arith)
          (h.ascends t))
]

publish-IsSound : (s event : Text) (b : Broker) → IsSound b → IsSound (publish s event b)
publish-IsSound s event b h = record {
  made = λ t ref there.
      rw (publish-parts s event b).2 (h.made t ref (rw (publish-parts s event b).0 at there));
  short = λ t. publish-short s event t b (h.short t);
  own = λ t. publish-own s event t b h;
  ascends = λ t.
      subst (λ n. IsAscending n (get_backlog t (publish s event b)))
        (sym (publish-parts s event b).3) (publish-ascends s event t b h);
}

Step-IsSound : {b c : Broker} → Step b c → IsSound b → IsSound c
unfolding subscribe unsubscribe subscribe_from resume
Step-IsSound (subscribes s after b) h =
    let o = lookup text_keys s b.subscribers in
    same-IsSound b (subscribe_from s after b) h (add_subscriber-made s o b h.made)
      (add_subscriber-same s o b)
Step-IsSound (unsubscribes s n b) h =
    let o = lookup text_keys s b.subscribers in
    same-IsSound b (unsubscribe s n b) h (drop_subscriber-made s n o b h.made)
      (drop_subscriber-same s n o b)
Step-IsSound (publishes s event b) h = publish-IsSound s event b h
Step-IsSound (resumes k b) h = same-IsSound b (resume k b) h h.made (refl, refl)

new_broker-IsSound : IsSound new_broker
unfolding get_backlog lookup
new_broker-IsSound = record {
  made = λ s ref there. cc there;
  short = λ s. omega arith;
  own = λ s. tt;
  ascends = λ s. tt;
}

pub subscribe-parts :
    (s : Text) (b : Broker)
    → ((subscribe s b).backlog ≡ b.backlog)
      × ((subscribe s b).next_event_id ≡ b.next_event_id)
      × ((subscribe s b).flights ≡ b.flights)
      × ((subscribe s b).received ≡ b.received)
unfolding subscribe
subscribe-parts s b = elim (Option-cases (lookup text_keys s b.subscribers)) [
  | inl nothing ↦ rw nothing (refl, refl, refl, refl)
  | inr (r, found) ↦ rw found (refl, refl, refl, refl)
]

pub unsubscribe-parts :
    (s : Text) (n : ℕ) (b : Broker)
    → ((unsubscribe s n b).flights ≡ b.flights) × ((unsubscribe s n b).received ≡ b.received)
unfolding unsubscribe
unsubscribe-parts s n b = elim (Option-cases (lookup text_keys s b.subscribers)) [
  | inl nothing ↦ rw nothing (refl, refl)
  | inr (r, found) ↦ rw found (refl, refl)
]

-- In every state that a broker reaches, the backlog of each session has at most a hundred events,
-- all of that session, with ascending ids below the next id.
pub Reach-IsSound : (b : Broker) → Reach b → IsSound b
Reach-IsSound b here = new_broker-IsSound
Reach-IsSound b (next {b = a} r s) = Step-IsSound s (Reach-IsSound a r)
