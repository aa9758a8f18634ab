-- ===== src/Sandbox/Supervisor.antt =====
-- backend/services/code_sandbox_supervisor.py, InProcessCodeSandboxSupervisor. An Event is a number:
-- `is_set` is the store of the Events, and `next` the first number that is free. A poll that
-- register_execution returns reads the Event that it was handed, whatever the table then holds.
pub mod Events
pub mod Polls
pub mod Releases
mod Tests
use goat_ai.Prelude.{
  ℕ, suc, String, Bool, true, false, not, Option, none, some, List, [], ◌∷◌, ◌++◌, if◌then◌else◌,
  select, ◌==◌, str_eq, eq_iff,
}
use goat_ai.Prelude.Table.{Keyed, fetch}

pub record Token : Type 0 where
  pub execution_id : String
  pub event : ℕ

abbrev pub cancel_events_by_id : Keyed String Token
cancel_events_by_id = record { key = λ t. t.execution_id; beq = str_eq; beq_iff = eq_iff }

pub record Supervisor : Type 0 where
  pub cancel_events : List Token
  pub is_set : ℕ → Bool
  pub next : ℕ

abbrev pub new_supervisor : Supervisor
new_supervisor = record { cancel_events = []; is_set = λ event. false; next = 0 }

abbrev pub write : ℕ → Bool → (ℕ → Bool) → ℕ → Bool
write event value is_set other = if other == event then value else is_set other

-- _cancel_events.setdefault(execution_id, threading.Event()), where the Event is already stored.
abbrev pub set_default : String → Supervisor → Option Token → Supervisor × ℕ
set_default execution_id s (some token) = (s, token.event)
set_default execution_id s none = (
  record {
    cancel_events = s.cancel_events ++ record { execution_id = execution_id; event = s.next } ∷ [];
    is_set = write s.next false s.is_set;
    next = suc s.next;
  },
  s.next,
)

-- The Event whose `is_set` is the poll.
unfoldable pub register_execution : String → Supervisor → Supervisor × ℕ
register_execution execution_id s =
    set_default execution_id s (fetch cancel_events_by_id execution_id s.cancel_events)

unfoldable pub request_cancel : String → Supervisor → Supervisor
unfolding register_execution
request_cancel execution_id s =
    let (s', event) =
      set_default execution_id s (fetch cancel_events_by_id execution_id s.cancel_events) in
    record s' { is_set = write event true s'.is_set }

-- _cancel_events.pop(execution_id, None)
unfoldable pub release_execution : String → Supervisor → Supervisor
release_execution execution_id s = record s {
  cancel_events = select (λ t. not (str_eq t.execution_id execution_id)) s.cancel_events;
}
