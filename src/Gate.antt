-- ===== src/Gate.antt =====
-- apps/agent/src/agent-runner/approval-gate.ts: promises that wait for a human's answer. A promise
-- is a number, a timer is the number of its promise with the tool call of its callback, and `settled`
-- is the log of the calls of `resolve`.
pub mod Steps
use openhermit.Prelude.{
  ℕ, suc, Text, text_keys, ◌==◌, Bool, true, false, not, Option, none, some, List, [], ◌∷◌, ◌++◌,
  lookup, insert, erase, filter, if◌then◌else◌,
}

-- `ApprovalDecision` of apps/agent/src/tools/shared.ts
pub data ApprovalDecision : Type 0 where
  approved rejected timed_out cancelled : ApprovalDecision

pub record ApprovalGate : Type 0 where
  pub next : ℕ
  pub pending : List (Text × ℕ)
  pub timers : List (ℕ × Text)
  pub settled : List (ℕ × ApprovalDecision)

abbrev pub new_gate : ApprovalGate
new_gate = record { next = 0; pending = []; timers = []; settled = [] }

-- `clearTimeout`
unfoldable pub clear_timeout : ℕ → List (ℕ × Text) → List (ℕ × Text)
clear_timeout n timers = filter (λ t. not (t.0 == n)) timers

-- `request`: the number of the promise that it returns is `next` before.
unfoldable pub request : Text → ApprovalGate → ApprovalGate
request id g = record {
  next = suc g.next;
  pending = insert text_keys id g.next g.pending;
  timers = (g.next, id) ∷ g.timers;
  settled = g.settled;
}

-- The callback of a timer that is running.
unfoldable pub expire : ℕ → Text → ApprovalGate → ApprovalGate
expire n id g = record g {
  pending = erase text_keys id g.pending;
  timers = clear_timeout n g.timers;
  settled = (n, timed_out) ∷ g.settled;
}

abbrev answer : Bool → ApprovalDecision
answer true = approved
answer false = rejected

unfoldable pub respond : Text → Bool → ApprovalGate → Bool × ApprovalGate
respond id is_approved g = elim (lookup text_keys id g.pending) [
  | none ↦ (false, g)
  | some n ↦ (
    true,
    record g {
      pending = erase text_keys id g.pending;
      timers = clear_timeout n g.timers;
      settled = (n, answer is_approved) ∷ g.settled;
    },
  )
]

-- The loop of `cancelAll`.
unfoldable pub cancel_entries : List (Text × ℕ) → ApprovalGate → ApprovalGate
cancel_entries [] g = g
cancel_entries ((id, n) ∷ entries) g =
    cancel_entries entries
      (record g { timers = clear_timeout n g.timers; settled = (n, cancelled) ∷ g.settled })

unfoldable pub cancel_all : ApprovalGate → ApprovalGate
unfolding cancel_entries
cancel_all g = record (cancel_entries g.pending g) { pending = [] }
