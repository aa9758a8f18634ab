-- ===== src/Sandbox/Supervisor/Polls.antt =====
-- backend/services/code_sandbox_supervisor.py: which requests a poll sees.
use goat_ai.Prelude.{
  ℕ, ◌≡◌, ◌≢◌, refl, sym, ap, ◌∙◌, inl, inr, String, Bool, false, ◌||◌, Option, none, some, List,
  [], ◌∷◌, arith, ◌==◌, str_eq, eq_iff, eq_refl, Bool-cases, All,
}
use goat_ai.Prelude.Table.{fetch, fetch-append, key-fetch}
use goat_ai.Prelude.Table.Select.{fetch-select-some}
use goat_ai.Sandbox.Supervisor.{
  Token, cancel_events_by_id, Supervisor, new_supervisor, set_default, register_execution,
  request_cancel, release_execution,
}
use goat_ai.Sandbox.Supervisor.Events.{
  Call, registers, cancels, releases, step, steps, IsSound, set_default-IsSound, step-IsSound,
  steps-IsSound,
}

-- The table holds the Event under the execution.
pub record IsHeld (id : String) (event : ℕ) (s : Supervisor) : Type 0 where
  pub sound : IsSound s
  pub token : Token
  pub found : fetch cancel_events_by_id id s.cancel_events ≡ some token
  pub its_event : token.event ≡ event

set_default-found :
    (id : String) (s : Supervisor) (found : Option Token)
    → fetch cancel_events_by_id id s.cancel_events ≡ found
    → (t : Token) × (fetch cancel_events_by_id id (set_default id s found).0.cancel_events ≡ some t)
      × (t.event ≡ (set_default id s found).1)
set_default-found id s (some token) e = (token, e, refl)
set_default-found id s none e = (
  record { execution_id = id; event = s.next },
  fetch-append cancel_events_by_id id s.cancel_events (record { execution_id = id; event = s.next })
      ∙ rw (e, eq_refl id),
  refl,
)

pub register-IsHeld :
    (id : String) (s : Supervisor)
    → IsSound s
    → let after = register_execution id s in IsHeld id after.1 after.0
unfolding register_execution
register-IsHeld id s o =
    let (t, f, e) = set_default-found id s _ refl in
    record { sound = set_default-IsSound id s _ refl o; token = t; found = f; its_event = e }

pub new-IsSound : IsSound new_supervisor
unfolding fetch
new-IsSound = record { stored = λ i t f. cc; apart = λ i j t u f g e. cc }

abbrev pub after : List Call → Supervisor
after calls = steps calls new_supervisor

-- Whether one of the calls asks to cancel the execution.
abbrev pub asks : String → List Call → Bool
asks id [] = false
asks id (cancels other ∷ calls) = let rest = asks id calls in str_eq id other || rest
asks id (_ ∷ calls) = asks id calls

abbrev pub Keeps : String → Call → Type 0
Keeps id (releases other) = id ≢ other
Keeps id _ = Unit {0}

set_default-IsHeld :
    (id j : String) (s : Supervisor) (found : Option Token) (event : ℕ)
    → fetch cancel_events_by_id j s.cancel_events ≡ found
    → (h : IsHeld id event s)
    → (fetch cancel_events_by_id id (set_default j s found).0.cancel_events ≡ some h.token)
      × ((set_default j s found).0.is_set event ≡ s.is_set event)
      × ((set_default j s found).1 == event ≡ str_eq id j)
set_default-IsHeld id j s (some t) event e h = (
  h.found,
  refl,
  elim (Bool-cases (str_eq id j)) [
    | inl mine ↦
        let here : fetch cancel_events_by_id id s.cancel_events ≡ some t =
          rw ((eq_iff id j).0 mine) e in
        let same : t ≡ h.token = cc (here, h.found) in
        ground (arith, ap (λ v. v.event) same, h.its_event)
    | inr other ↦
        let differ : t.event ≢ event = λ q.
          let same = h.sound.apart id j h.token t h.found e (h.its_event ∙ sym q) in
          let yea = (eq_iff id j).1 same in cc (yea, other) in
        ground (arith, differ)
  ],
)
set_default-IsHeld id j s none event e h = (
  fetch-append cancel_events_by_id id s.cancel_events (record { execution_id = j; event = s.next })
      ∙ rw h.found,
  ground (arith, h.sound.stored id h.token h.found, h.its_event),
  elim (Bool-cases (str_eq id j)) [
    | inl mine ↦
        let nowhere : fetch cancel_events_by_id id s.cancel_events ≡ none =
          rw ((eq_iff id j).0 mine) e in
        cc (nowhere, h.found)
    | inr other ↦ ground (arith, h.sound.stored id h.token h.found, h.its_event)
  ],
)

pub step-IsHeld :
    (c : Call) (id : String) (event : ℕ) (s : Supervisor)
    → Keeps id c
    → IsHeld id event s
    → IsHeld id event (step c s) × ((step c s).is_set event ≡ s.is_set event || asks id (c ∷ []))
unfolding step register_execution request_cancel release_execution
step-IsHeld (registers j) id event s k h =
    let (f, same, mine) = set_default-IsHeld id j s _ event refl h in
    (
      record {
        sound = step-IsSound (registers j) s h.sound;
        token = h.token;
        found = f;
        its_event = h.its_event;
      },
      ground (arith, same),
    )
step-IsHeld (cancels j) id event s k h =
    let (f, same, mine) = set_default-IsHeld id j s _ event refl h in
    (
      record {
        sound = step-IsSound (cancels j) s h.sound;
        token = h.token;
        found = f;
        its_event = h.its_event;
      },
      ground (arith, same, mine),
    )
step-IsHeld (releases j) id event s k h = (
  record {
    sound = step-IsSound (releases j) s h.sound;
    token = h.token;
    found = fetch-select-some cancel_events_by_id _ id s.cancel_events h.token h.found (
        ground (
          arith,
          key-fetch cancel_events_by_id id s.cancel_events h.token h.found,
          eq_iff h.token.execution_id j,
        ));
    its_event = h.its_event;
  },
  ground arith,
)

asks-cons :
    (c : Call) (id : String) (calls : List Call)
    → asks id (c ∷ calls) ≡ asks id (c ∷ []) || asks id calls
asks-cons (registers j) id calls = refl
asks-cons (cancels j) id calls = ground arith
asks-cons (releases j) id calls = refl

steps-IsHeld :
    (calls : List Call) (id : String) (event : ℕ) (s : Supervisor)
    → All (Keeps id) calls
    → IsHeld id event s
    → (steps calls s).is_set event ≡ s.is_set event || asks id calls
unfolding steps
steps-IsHeld [] id event s k h = ground arith
steps-IsHeld (c ∷ calls) id event s k h =
    let (h', one) = step-IsHeld c id event s k.0 h in
    steps-IsHeld calls id event (step c s) k.1 h' ∙ ground (arith, one, asks-cons c id calls)

-- Until an execution is released, the poll of a run that is registered tells whether cancellation
-- has been requested: by a call after the registration, or by one that the poll saw at once.
pub poll-asks :
    (before : List Call) (id : String) (calls : List Call)
    → All (Keeps id) calls
    → let (s, event) = register_execution id (after before) in
      (steps calls s).is_set event ≡ s.is_set event || asks id calls
poll-asks before id calls k =
    let (s, event) = register_execution id (after before) in
    let held =
      register-IsHeld id (after before) (steps-IsSound before new_supervisor new-IsSound) in
    steps-IsHeld calls id event s k held
