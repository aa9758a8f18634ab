-- ===== src/Sandbox/Supervisor/Releases.antt =====
-- backend/services/code_sandbox_supervisor.py: what a release of an execution does to its runs' polls.
use goat_ai.Prelude.{
  ℕ, ◌<◌, ◌≡◌, ◌≢◌, refl, sym, ◌∙◌, ◌⊎◌, inl, inr, String, Option, none, some, List, [], ◌∷◌, arith,
  str_eq, eq_iff, Bool-cases,
}
use goat_ai.Prelude.Table.{fetch}
use goat_ai.Sandbox.Supervisor.{
  Token, cancel_events_by_id, Supervisor, new_supervisor, set_default, register_execution,
  request_cancel, release_execution,
}
use goat_ai.Sandbox.Supervisor.Events.{
  Call, registers, cancels, releases, step, steps, added, removed, steps-IsSound,
}
use goat_ai.Sandbox.Supervisor.Polls.{IsHeld, register-IsHeld, step-IsHeld, new-IsSound, after}

-- An Event that the table holds no more.
record IsDropped (event : ℕ) (s : Supervisor) : Type 0 where
  stored : event < s.next
  gone :
      (id : String) (t : Token)
      → fetch cancel_events_by_id id s.cancel_events ≡ some t
      → t.event ≢ event

set_default-IsDropped :
    (id : String) (s : Supervisor) (found : Option Token) (event : ℕ)
    → fetch cancel_events_by_id id s.cancel_events ≡ found
    → IsDropped event s
    → IsDropped event (set_default id s found).0
      × ((set_default id s found).0.is_set event ≡ s.is_set event)
      × ((set_default id s found).1 ≢ event)
set_default-IsDropped id s (some token) event e d = (d, refl, d.gone id token e)
set_default-IsDropped id s none event e d = (
  record {
    stored = omega (arith, d.stored);
    gone = λ j t f. elim (added id j s.next s.cancel_events t f) [
      | inl old ↦ d.gone j t old
      | inr (p, q) ↦ omega (arith, d.stored, q)
    ];
  },
  ground (arith, d.stored),
  omega (arith, d.stored),
)

step-IsDropped :
    (c : Call) (s : Supervisor) (event : ℕ)
    → IsDropped event s
    → IsDropped event (step c s) × ((step c s).is_set event ≡ s.is_set event)
unfolding step register_execution request_cancel release_execution
step-IsDropped (registers id) s event d =
    let (d', same, other) = set_default-IsDropped id s _ event refl d in (d', same)
step-IsDropped (cancels id) s event d =
    let (d', same, other) = set_default-IsDropped id s _ event refl d in
    (record { stored = d'.stored; gone = d'.gone }, ground (arith, other, same))
step-IsDropped (releases id) s event d = (
  record { stored = d.stored; gone = λ j t f. d.gone j t (removed id j s.cancel_events t f).0 },
  refl,
)

steps-IsDropped :
    (calls : List Call) (s : Supervisor) (event : ℕ)
    → IsDropped event s
    → (steps calls s).is_set event ≡ s.is_set event
unfolding steps
steps-IsDropped [] s event d = refl
steps-IsDropped (c ∷ calls) s event d =
    let (d', same) = step-IsDropped c s event d in steps-IsDropped calls (step c s) event d' ∙ same

release-IsDropped :
    (id : String) (event : ℕ) (s : Supervisor)
    → IsHeld id event s
    → IsDropped event (release_execution id s)
unfolding release_execution
release-IsDropped id event s h = record {
  stored = omega (arith, h.sound.stored id h.token h.found, h.its_event);
  gone = λ j t f e.
      let (old, other) = removed id j s.cancel_events t f in
      other (h.sound.apart j id t h.token old h.found (e ∙ sym h.its_event));
}

-- An Event that the table holds under its execution, or holds no more.
abbrev IsHandedOut : String → ℕ → Supervisor → Type 0
IsHandedOut id event s = IsHeld id event s ⊎ IsDropped event s

step-IsHandedOut :
    (c : Call) (id : String) (event : ℕ) (s : Supervisor)
    → IsHandedOut id event s
    → IsHandedOut id event (step c s)
unfolding step
step-IsHandedOut c id event s (inr d) = inr (step-IsDropped c s event d).0
step-IsHandedOut (registers j) id event s (inl h) =
    inl (step-IsHeld (registers j) id event s tt h).0
step-IsHandedOut (cancels j) id event s (inl h) = inl (step-IsHeld (cancels j) id event s tt h).0
step-IsHandedOut (releases j) id event s (inl h) = elim (Bool-cases (str_eq id j)) [
  | inl mine ↦ inr (rw (← (eq_iff id j).0 mine) (release-IsDropped id event s h))
  | inr other ↦
      inl
        (step-IsHeld (releases j) id event s
          (λ same. let yea = (eq_iff id j).1 same in cc (yea, other)) h).0
]

steps-IsHandedOut :
    (calls : List Call) (id : String) (event : ℕ) (s : Supervisor)
    → IsHandedOut id event s
    → IsHandedOut id event (steps calls s)
unfolding steps
steps-IsHandedOut [] id event s h = h
steps-IsHandedOut (c ∷ calls) id event s h =
    steps-IsHandedOut calls id event (step c s) (step-IsHandedOut c id event s h)

released-IsDropped :
    (id : String) (event : ℕ) (s : Supervisor)
    → IsHandedOut id event s
    → IsDropped event (release_execution id s)
unfolding step
released-IsDropped id event s (inl h) = release-IsDropped id event s h
released-IsDropped id event s (inr d) = (step-IsDropped (releases id) s event d).0

-- Once an execution is released, by whichever of its runs, the poll of a run that was registered at any
-- time before keeps the answer that it has then: whatever calls came between the registration and the
-- release, registrations by other runs of the execution among them, no later request to cancel the
-- execution reaches that run.
pub release-deafens :
    (before : List Call) (id : String) (between calls : List Call)
    → let (s, event) = register_execution id (after before) in
      let released = steps between s in
      (steps (releases id ∷ calls) released).is_set event ≡ released.is_set event
unfolding steps step release_execution
release-deafens before id between calls =
    let (s, event) = register_execution id (after before) in
    let held =
      register-IsHeld id (after before) (steps-IsSound before new_supervisor new-IsSound) in
    let released = steps between s in
    steps-IsDropped calls (release_execution id released) event
      (released-IsDropped id event released (steps-IsHandedOut between id event s (inl held)))
