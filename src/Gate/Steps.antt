-- ===== src/Gate/Steps.antt =====
-- The gate under any sequence of requests, answers, timeouts and cancellations.
use openhermit.Prelude.{
  ℕ, suc, ◌<◌, Text, text_eq_refl, text_keys, ◌==◌, Bool, true, false, Bool-cases, Option-cases,
  is_some, lookup-In, ap, none, some, List, [], ◌∷◌, lookup, insert, erase, lookup-erase, In,
  some_of, ◌≡◌, ◌⊎◌, inl, inr, refl, sym, subst, arith, if◌then◌else◌,
}
use openhermit.Gate.{
  ApprovalGate, ApprovalDecision, timed_out, cancelled, new_gate, clear_timeout, request, expire,
  respond, cancel_entries, cancel_all, answer,
}

-- One event: a timer fires only while it runs.
pub data Step : ApprovalGate → ApprovalGate → Type 0 where
  requests : (id : Text) (g : ApprovalGate) → Step g (request id g)
  responds : (id : Text) (b : Bool) (g : ApprovalGate) → Step g (respond id b g).1
  expires :
      (n : ℕ) (id : Text) (g : ApprovalGate)
      → In {A = ℕ × Text} (n, id) g.timers
      → Step g (expire n id g)
  cancels : (g : ApprovalGate) → Step g (cancel_all g)

pub data Reach : ApprovalGate → Type 0 where
  here : Reach new_gate
  next : {g h : ApprovalGate} → Reach g → Step g h → Reach h

abbrev pub is_settled : ℕ → List (ℕ × ApprovalDecision) → Bool
is_settled n settled = some_of (λ s. s.0 == n) settled

abbrev pub has_timer : ℕ → List (ℕ × Text) → Bool
has_timer n timers = some_of (λ t. t.0 == n) timers

-- Every promise that was given out is settled, or its timer is running.
abbrev pub IsLive : ApprovalGate → Type 0
IsLive g = (n : ℕ) → n < g.next → (is_settled n g.settled ≡ true) ⊎ (has_timer n g.timers ≡ true)

has_timer-clear :
    (n m : ℕ) (timers : List (ℕ × Text))
    → has_timer m (clear_timeout n timers) ≡ (if n == m then false else has_timer m timers)
unfolding clear_timeout
has_timer-clear n m [] = ground arith
has_timer-clear n m ((k, id) ∷ timers) = ground (arith, has_timer-clear n m timers)

-- A promise is settled as its timer is cleared.
settle-IsLive :
    (g : ApprovalGate) (n : ℕ) (d : ApprovalDecision) (pending : List (Text × ℕ))
    → IsLive g
    → IsLive (record g {
      pending = pending;
      timers = clear_timeout n g.timers;
      settled = (n, d) ∷ g.settled;
    })
settle-IsLive g n d pending h m lt = ground (arith, h m lt, has_timer-clear n m g.timers)

request-IsLive : (id : Text) (g : ApprovalGate) → IsLive g → IsLive (request id g)
unfolding request
request-IsLive id g h m lt = elim (Bool-cases (g.next == m)) [
  | inl new ↦ inr (ground (arith, new))
  | inr old ↦ ground (arith, h m (ground (arith, old, lt)))
]

cancel_entries-IsLive :
    (entries : List (Text × ℕ)) (g : ApprovalGate) → IsLive g → IsLive (cancel_entries entries g)
unfolding cancel_entries
cancel_entries-IsLive [] g h = h
cancel_entries-IsLive ((id, n) ∷ entries) g h =
    cancel_entries-IsLive entries
      (record g { timers = clear_timeout n g.timers; settled = (n, cancelled) ∷ g.settled })
      (settle-IsLive g n cancelled g.pending h)

respond-none :
    (id : Text) (b : Bool) (g : ApprovalGate)
    → lookup text_keys id g.pending ≡ none
    → (respond id b g).1 ≡ g
unfolding respond
respond-none id b g h = ground (arith, h)

respond-some :
    (id : Text) (b : Bool) (g : ApprovalGate) (n : ℕ)
    → lookup text_keys id g.pending ≡ some n
    → (respond id b g).1 ≡ record g {
      pending = erase text_keys id g.pending;
      timers = clear_timeout n g.timers;
      settled = (n, answer b) ∷ g.settled;
    }
unfolding respond
respond-some id b g n h = ground (arith, h)

respond-IsLive : (id : Text) (b : Bool) (g : ApprovalGate) → IsLive g → IsLive (respond id b g).1
respond-IsLive id b g h = elim (Option-cases (lookup text_keys id g.pending)) [
  | inl nothing ↦ subst IsLive (sym (respond-none id b g nothing)) h
  | inr (n, there) ↦
      subst IsLive (sym (respond-some id b g n there))
        (settle-IsLive g n (answer b) (erase text_keys id g.pending) h)
]

Step-IsLive : {g h : ApprovalGate} → Step g h → IsLive g → IsLive h
Step-IsLive (requests id g) h = request-IsLive id g h
Step-IsLive (responds id b g) h = respond-IsLive id b g h
Step-IsLive (expires n id g running) h =
    unfold expire in settle-IsLive g n timed_out (erase text_keys id g.pending) h
Step-IsLive (cancels g) h = unfold cancel_all in cancel_entries-IsLive g.pending g h

-- In every state that the gate can reach, each promise that it has given out is settled or has a
-- timer that will settle it: no caller waits for ever.
pub Reach-IsLive : (g : ApprovalGate) → Reach g → IsLive g
Reach-IsLive g here = λ n lt. absurd (omega arith)
Reach-IsLive g (next {g = f} r s) = Step-IsLive s (Reach-IsLive f r)

is_settled-cancel :
    (entries : List (Text × ℕ)) (g : ApprovalGate) (n : ℕ)
    → is_settled n g.settled ≡ true
    → is_settled n (cancel_entries entries g).settled ≡ true
unfolding cancel_entries
is_settled-cancel [] g n h = h
is_settled-cancel ((id, m) ∷ entries) g n h =
    is_settled-cancel entries
      (record g { timers = clear_timeout m g.timers; settled = (m, cancelled) ∷ g.settled }) n
      (ground (arith, h))

cancel_entries-settled :
    (entries : List (Text × ℕ)) (g : ApprovalGate) (id : Text) (n : ℕ)
    → In {A = Text × ℕ} (id, n) entries
    → is_settled n (cancel_entries entries g).settled ≡ true
unfolding cancel_entries
cancel_entries-settled [] g id n m = elim m [ ]
cancel_entries-settled ((id', k) ∷ entries) g id n (inl e) =
    is_settled-cancel entries
      (record g { timers = clear_timeout k g.timers; settled = (k, cancelled) ∷ g.settled }) n
      (ground (arith, ap (λ x. x.1) e))
cancel_entries-settled ((id', k) ∷ entries) g id n (inr m) =
    cancel_entries-settled entries
      (record g { timers = clear_timeout k g.timers; settled = (k, cancelled) ∷ g.settled }) id n m

-- `cancelAll` settles every promise that was pending and leaves none pending.
pub cancel_all-settled :
    (g : ApprovalGate) (id : Text) (n : ℕ)
    → lookup text_keys id g.pending ≡ some n
    → (is_settled n (cancel_all g).settled ≡ true) × ((cancel_all g).pending ≡ [])
unfolding cancel_all
cancel_all-settled g id n there =
    (cancel_entries-settled g.pending g id n (lookup-In text_keys id g.pending n there), refl)

-- A request that is pending takes one answer, which settles its promise; the next answer finds
-- nothing. Without a pending request an answer changes nothing.
pub respond-once :
    (id : Text) (b c : Bool) (g : ApprovalGate)
    → ((respond id b g).0 ≡ is_some (lookup text_keys id g.pending))
      × ((respond id c (respond id b g).1).0 ≡ false)
      × ((n : ℕ)
          → lookup text_keys id g.pending ≡ some n
          → (respond id b g).1.settled ≡ (n, answer b) ∷ g.settled)
      × (lookup text_keys id g.pending ≡ none → (respond id b g).1 ≡ g)
unfolding respond
respond-once id b c g = elim (Option-cases (lookup text_keys id g.pending)) [
  | inl nothing ↦ (
    ground (arith, nothing),
    ground (arith, nothing),
    λ n there. cc there,
    λ _. ground (arith, nothing),
  )
  | inr (m, there) ↦ (
    ground (arith, there),
    ground (arith, there, lookup-erase text_keys id id g.pending, text_eq_refl id),
    λ n there'. ground (arith, there, there'),
    λ nothing. cc nothing,
  )
]

-- A second request for the same tool call cannot be answered any more once the timer of the first
-- has fired: the callback takes the entry of the second.
pub respond-replaced :
    (id : Text) (b : Bool) (g : ApprovalGate)
    → (respond id b (expire g.next id (request id (request id g)))).0 ≡ false
unfolding respond expire request
respond-replaced id b g = ground (
  arith,
  lookup-erase text_keys id id
      (insert text_keys id (suc g.next) (insert text_keys id g.next g.pending)),
  text_eq_refl id,
)
