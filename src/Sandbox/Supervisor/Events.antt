-- ===== src/Sandbox/Supervisor/Events.antt =====
-- backend/services/code_sandbox_supervisor.py: the Events that the table of the supervisor holds.
use goat_ai.Prelude.{
  ℕ, ◌<◌, ◌≡◌, ◌≢◌, refl, sym, ◌∙◌, ◌⊎◌, inl, inr, String, not, Option, none, some, List, [], ◌∷◌,
  ◌++◌, arith, select, str_eq, eq_iff,
}
use goat_ai.Prelude.Table.{fetch, fetch-append}
use goat_ai.Sandbox.Supervisor.{
  Token, cancel_events_by_id, Supervisor, set_default, register_execution, request_cancel,
  release_execution,
}

-- The calls that threads make.
pub data Call : Type 0 where
  registers cancels releases : String → Call

unfoldable pub step : Call → Supervisor → Supervisor
step (registers id) s = (register_execution id s).0
step (cancels id) s = request_cancel id s
step (releases id) s = release_execution id s

unfoldable pub steps : List Call → Supervisor → Supervisor
steps [] s = s
steps (c ∷ calls) s = steps calls (step c s)

-- Every Event of the table is stored, and no two executions share one.
pub record IsSound (s : Supervisor) : Type 0 where
  pub stored :
      (id : String) (t : Token)
      → fetch cancel_events_by_id id s.cancel_events ≡ some t
      → t.event < s.next
  pub apart :
      (i j : String) (t u : Token)
      → fetch cancel_events_by_id i s.cancel_events ≡ some t
      → fetch cancel_events_by_id j s.cancel_events ≡ some u
      → t.event ≡ u.event
      → i ≡ j

pub added :
    (id j : String) (event : ℕ) (tokens : List Token) (t : Token)
    → fetch cancel_events_by_id j (tokens ++ record { execution_id = id; event = event } ∷ [])
      ≡ some t
    → (fetch cancel_events_by_id j tokens ≡ some t) ⊎ ((j ≡ id) × (t.event ≡ event))
added id j event tokens t e = ground (
  arith,
  fetch-append cancel_events_by_id j tokens (record { execution_id = id; event = event }),
  eq_iff id j,
)

pub removed :
    (id j : String) (tokens : List Token) (t : Token)
    → fetch cancel_events_by_id j (select (λ v. not (str_eq v.execution_id id)) tokens) ≡ some t
    → (fetch cancel_events_by_id j tokens ≡ some t) × (j ≢ id)
unfolding fetch
removed id j [] t e = cc
removed id j (x ∷ tokens) t e =
    ground (arith, removed id j tokens t, eq_iff x.execution_id id, eq_iff x.execution_id j)

pub set_default-IsSound :
    (id : String) (s : Supervisor) (found : Option Token)
    → fetch cancel_events_by_id id s.cancel_events ≡ found
    → IsSound s
    → IsSound (set_default id s found).0
set_default-IsSound id s (some token) e o = o
set_default-IsSound id s none e o = record {
  stored = λ j t f. elim (added id j s.next s.cancel_events t f) [
    | inl old ↦ omega (arith, o.stored j t old)
    | inr (p, q) ↦ omega (arith, q)
  ];
  apart = λ i j t u f g same. elim (added id i s.next s.cancel_events t f) [
    | inl old ↦ elim (added id j s.next s.cancel_events u g) [
      | inl older ↦ o.apart i j t u old older same
      | inr (p, q) ↦ absurd (omega (arith, o.stored i t old, same, q))
    ]
    | inr (p, q) ↦ elim (added id j s.next s.cancel_events u g) [
      | inl older ↦ absurd (omega (arith, o.stored j u older, same, q))
      | inr (p', q') ↦ p ∙ sym p'
    ]
  ];
}

pub step-IsSound : (c : Call) (s : Supervisor) → IsSound s → IsSound (step c s)
unfolding step register_execution request_cancel release_execution
step-IsSound (registers id) s o = set_default-IsSound id s _ refl o
step-IsSound (cancels id) s o =
    let o' = set_default-IsSound id s _ refl o in record { stored = o'.stored; apart = o'.apart }
step-IsSound (releases id) s o = record {
  stored = λ j t f. o.stored j t (removed id j s.cancel_events t f).0;
  apart = λ i j t u f g.
      o.apart i j t u (removed id i s.cancel_events t f).0 (removed id j s.cancel_events u g).0;
}

pub steps-IsSound : (calls : List Call) (s : Supervisor) → IsSound s → IsSound (steps calls s)
unfolding steps
steps-IsSound [] s o = o
steps-IsSound (c ∷ calls) s o = steps-IsSound calls (step c s) (step-IsSound c s o)
