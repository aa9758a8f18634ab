-- ===== src/RateLimit/Quota.antt =====
-- What the policy of backend/domain/rate_limit_policy.py promises: a bound on the requests admitted
-- in any window, and the delay that a refused caller is told.
use goat_ai.Prelude.{
  ℕ, suc, ◌+◌, ◌*◌, ◌-◌, ◌/◌, ◌%◌, ◌↔◌, ◌≤◌, ◌<◌, max, ◌≡◌, ◌≢◌, refl, sym, ap, ◌∙◌, String, Bool,
  true, false, ◌&&◌, inl, inr, Option, none, some, List, [], ◌∷◌, ◌++◌, arith, length, select, leb,
  ltb, str_eq, eq_iff, eq_refl, Bool-cases, if◌then◌else◌, select-append, length-append, subst,
  &&_iff,
}
use mathlib.Core.List.{append_assoc, append-nil}
use goat_ai.RateLimit.Reference.{
  History, reference_respond, reference_step, reference_run, Request, run, new_limiter, InTime,
  run-refines,
}
use goat_ai.RateLimit.{
  RateLimitPolicy, RateLimitSubject, RateLimitDecision, microseconds, window, live, sorted,
  insert_sorted, first, decide, make_decision,
}

length-insert_sorted : (x : ℕ) (xs : List ℕ) → length (insert_sorted x xs) ≡ suc (length xs)
unfolding insert_sorted
length-insert_sorted x [] = refl
length-insert_sorted x (y ∷ ys) = ground (arith, length-insert_sorted x ys)

pub length-sorted : (xs : List ℕ) → length (sorted xs) ≡ length xs
unfolding sorted
length-sorted [] = refl
length-sorted (x ∷ xs) = length-insert_sorted x (sorted xs) ∙ ap suc (length-sorted xs)

-- What is left of the window of the oldest live timestamp.
abbrev pub remaining : RateLimitPolicy → List ℕ → ℕ → ℕ
remaining policy observed now = first (sorted (live policy now observed)) + window policy - now

decide_lem :
    (policy : RateLimitPolicy) (observed : List ℕ) (now : ℕ)
    → decide policy observed now
      ≡ some (record {
        allowed = ltb (length (live policy now observed)) policy.max_requests;
        retry_after =
            if ltb (length (live policy now observed)) policy.max_requests
            then 0
            else max 1 (remaining policy observed now / microseconds);
      })
unfolding decide make_decision
decide_lem policy observed now = ground (arith, length-sorted (live policy now observed))

-- The policy never raises. It admits a request exactly if fewer than `max_requests` timestamps are
-- live, with no delay; a refused caller is told at least one second, and the window of the oldest
-- live timestamp is over less than a second after the delay that it is told.
pub decide_cases :
    (policy : RateLimitPolicy) (observed : List ℕ) (now : ℕ)
    → (d : RateLimitDecision) × (decide policy observed now ≡ some d)
      × ((d.allowed ≡ true) ↔ (length (live policy now observed) < policy.max_requests))
      × ((d.allowed ≡ true) → d.retry_after ≡ 0)
      × ((d.allowed ≡ false)
          → (1 ≤ d.retry_after)
            × (remaining policy observed now < (d.retry_after + 1) * microseconds))
decide_cases policy observed now =
    (_, decide_lem policy observed now, (ground arith, ground arith), ground arith, ground arith)

-- Where more than a second is left of the window of the oldest live timestamp, and no whole number of
-- seconds, that timestamp is still live once a refused caller has waited the delay that it is told.
pub retry_after_short :
    (policy : RateLimitPolicy) (observed : List ℕ) (now : ℕ) (d : RateLimitDecision)
    → decide policy observed now ≡ some d
    → d.allowed ≡ false
    → microseconds < remaining policy observed now
    → remaining policy observed now % microseconds ≢ 0
    → now + d.retry_after * microseconds < first (sorted (live policy now observed)) + window policy
retry_after_short policy observed now d e refused more part =
    ground (arith, decide_lem policy observed now)

-- The times of a window that ends at t: t - window < s ≤ t.
abbrev pub in_window : RateLimitPolicy → ℕ → List ℕ → List ℕ
in_window policy t = select λ s. leb s t && ltb t (s + window policy)

abbrev is_allowed : Option RateLimitDecision → Bool
is_allowed none = false
is_allowed (some d) = d.allowed

-- The times at which requests of a key were admitted, as the answers tell.
unfoldable pub admitted :
    (RateLimitSubject → String) → String → List Request → List (Option RateLimitDecision) → List ℕ
admitted key_for key [] answers = []
admitted key_for key (request ∷ requests) [] = []
admitted key_for key ((subject, now) ∷ requests) (answer ∷ answers) =
    let rest = admitted key_for key requests answers in
    if str_eq key (key_for subject) && is_allowed answer then now ∷ rest else rest

in_window-le-live :
    (policy : RateLimitPolicy) (t now : ℕ) (xs : List ℕ)
    → now ≤ t
    → length (in_window policy t xs) ≤ length (live policy now xs)
in_window-le-live policy t now [] h = omega arith
in_window-le-live policy t now (x ∷ xs) h = ground (arith, in_window-le-live policy t now xs h)

abbrev Bounded : RateLimitPolicy → List ℕ → Type 0
Bounded policy times = (t : ℕ) → length (in_window policy t times) ≤ policy.max_requests

in_window-append_now :
    (policy : RateLimitPolicy) (now : ℕ) (xs : List ℕ)
    → length (live policy now xs) < policy.max_requests
    → Bounded policy xs
    → Bounded policy (xs ++ now ∷ [])
in_window-append_now policy now xs room b t =
    rw (select-append (λ s. leb s t && ltb t (s + window policy)) xs (now ∷ [])) (
      rw (length-append (in_window policy t xs) (in_window policy t (now ∷ [])))
        (elim (Bool-cases (leb now t)) [
          | inl past ↦ ground (arith, b t, in_window-le-live policy t now xs)
          | inr future ↦ ground (arith, b t)
        ]))

allowed_room :
    (policy : RateLimitPolicy) (observed : List ℕ) (now : ℕ)
    → is_allowed (decide policy observed now) ≡ true
    → length (live policy now observed) < policy.max_requests
allowed_room policy observed now h = ground (arith, decide_lem policy observed now)

reference_respond-history :
    (h : History) (key other : String) (now : ℕ) (decision : Option RateLimitDecision)
    → (reference_respond h key now decision).0 other ≡ (
        if str_eq other key && is_allowed (reference_respond h key now decision).1
        then h other ++ now ∷ []
        else h other)
unfolding reference_respond
reference_respond-history h key other now none = ground arith
reference_respond-history h key other now (some d) = elim (Bool-cases (str_eq other key)) [
  | inl hit ↦ rw hit (rw (← (eq_iff other key).0 hit) (ground (arith, eq_refl other)))
  | inr miss ↦ rw miss (ground arith)
]

reference_respond-answer :
    (h : History) (key : String) (now : ℕ) (decision : Option RateLimitDecision)
    → (reference_respond h key now decision).1 ≡ decision
unfolding reference_respond
reference_respond-answer h key now none = refl
reference_respond-answer h key now (some d) = refl

step_room :
    (policy : RateLimitPolicy) (h : History) (key other : String) (now : ℕ)
    → (str_eq key other
        && is_allowed (reference_respond h other now (decide policy (h other) now)).1)
      ≡ true
    → length (live policy now (h key)) < policy.max_requests
step_room policy h key other now hit =
    let (same, yea) = (&&_iff (str_eq key other) _).0 hit in
    rw ((eq_iff key other).0 same) (
      allowed_room policy (h other) now
        (ap is_allowed (sym (reference_respond-answer h other now _)) ∙ yea))

grow-Bounded :
    (policy : RateLimitPolicy) (before after rest : List ℕ) (now : ℕ) (hit : Bool)
    → after ≡ (if hit then before ++ now ∷ [] else before)
    → ((hit ≡ true) → length (live policy now before) < policy.max_requests)
    → Bounded policy before
    → (Bounded policy after → Bounded policy (after ++ rest))
    → Bounded policy (before ++ (if hit then now ∷ rest else rest))
grow-Bounded policy before after rest now true e room b next =
    let b' : Bounded policy after = rw e (in_window-append_now policy now before (room refl) b) in
    subst (Bounded policy) (ap (λ xs. xs ++ rest) e ∙ append_assoc before (now ∷ []) rest) (next b')
grow-Bounded policy before after rest now false e room b next =
    subst (λ xs. Bounded policy (xs ++ rest)) e (next (rw e b))

-- The times that a run of the reference admits stay within the quota, with those before them.
reference_run-Bounded :
    (policy : RateLimitPolicy) (key_for : RateLimitSubject → String) (key : String)
    (requests : List Request) (h : History)
    → Bounded policy (h key)
    → Bounded policy
        (h key ++ admitted key_for key requests (reference_run policy key_for h requests))
unfolding reference_run admitted reference_step
reference_run-Bounded policy key_for key [] h b = rw (append-nil (h key)) b
reference_run-Bounded policy key_for key ((subject, now) ∷ requests) h b =
    let step = reference_step policy h (key_for subject) now in
    grow-Bounded policy (h key) (step.0 key) _ now _
      (reference_respond-history h (key_for subject) key now
        (decide policy (h (key_for subject)) now))
      (step_room policy h key (key_for subject) now) b
      (reference_run-Bounded policy key_for key requests step.0)

-- While the clock does not go back, no key gets more than `max_requests` requests admitted in any
-- window, wherever the window ends.
pub run_quota :
    (policy : RateLimitPolicy) (key_for : RateLimitSubject → String) (requests : List Request)
    (key : String) (t : ℕ)
    → InTime 0 requests
    → length (
        in_window policy t
          (admitted key_for key requests (run (new_limiter policy key_for) requests)))
      ≤ policy.max_requests
run_quota policy key_for requests key t up =
    rw (run-refines policy key_for requests up)
      (reference_run-Bounded policy key_for key requests (λ _. []) (λ s. omega arith) t)
