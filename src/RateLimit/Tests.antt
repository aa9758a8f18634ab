-- ===== src/RateLimit/Tests.antt =====
-- backend/domain/rate_limit_policy.py and the limiter at concrete requests.
use goat_ai.Prelude.{
  ℕ, ◌+◌, ◌*◌, ◌≤◌, ◌<◌, ◌≡◌, refl, ◌↔◌, String, true, false, Option, none, some, List, [], ◌∷◌,
  arith, length,
}
use goat_ai.Prelude.Table.{fetch, put, replace}
use goat_ai.RateLimit.Reference.{Request, run, reference_run, run-refines, new_limiter}
use goat_ai.RateLimit.Quota.{
  decide_cases, retry_after_short, run_quota, in_window, admitted, remaining,
}
use goat_ai.RateLimit.{
  RateLimitPolicy, RateLimitSubject, RateLimitDecision, microseconds, window, live, sorted, first,
  decide, make_decision, make_policy, evaluate, get_timestamps, replace_timestamps, respond, expire,
  bucket,
}

abbrev two_a_minute : RateLimitPolicy
two_a_minute = record { window_sec = 60; max_requests = 2 }

abbrev reader : RateLimitSubject
reader = record {
  api_key_fingerprint = "key";
  owner_id = "alice";
  route_group = "chat";
  method_class = "write";
}

abbrev by_owner : RateLimitSubject → String
by_owner subject = subject.owner_id

abbrev third_too_soon : List Request
third_too_soon =
    (reader, 1_000_000) ∷ (reader, 2_000_000) ∷ (reader, 3_500_000) ∷ (reader, 61_000_000) ∷ []

abbrev yea : Option RateLimitDecision
yea = some (record { allowed = true; retry_after = 0 })

abbrev wait : ℕ → Option RateLimitDecision
wait n = some (record { allowed = false; retry_after = n })

-- The third request is told 57 seconds, of the 57.5 that are left.
third_refused :
    run (new_limiter two_a_minute by_owner) third_too_soon ≡ yea ∷ yea ∷ wait 57 ∷ yea ∷ []
unfolding run evaluate get_timestamps replace_timestamps respond expire bucket fetch put replace
    decide make_decision sorted
third_refused = refl

no_empty_window : make_policy 0 5 ≡ none
unfolding make_policy
no_empty_window = refl

run-refines_example :
    run (new_limiter two_a_minute by_owner) third_too_soon
    ≡ reference_run two_a_minute by_owner (λ _. []) third_too_soon
run-refines_example = run-refines two_a_minute by_owner third_too_soon (omega arith)

run_quota_example :
    length (
      in_window two_a_minute 3_600_000 (
        admitted by_owner "alice" third_too_soon
          (run (new_limiter two_a_minute by_owner) third_too_soon)))
    ≤ 2
run_quota_example = run_quota two_a_minute by_owner third_too_soon "alice" 3_600_000 (omega arith)

abbrev seen : List ℕ
seen = 1_000_000 ∷ 2_000_000 ∷ []

decide_cases_example :
    (d : RateLimitDecision) × (decide two_a_minute seen 3_500_000 ≡ some d)
    × ((d.allowed ≡ true) ↔ (length (live two_a_minute 3_500_000 seen) < 2))
    × ((d.allowed ≡ true) → d.retry_after ≡ 0)
    × ((d.allowed ≡ false)
        → (1 ≤ d.retry_after)
          × (remaining two_a_minute seen 3_500_000 < (d.retry_after + 1) * microseconds))
decide_cases_example = decide_cases two_a_minute seen 3_500_000

retry_after_short_example :
    3_500_000 + 57 * microseconds
    < first (sorted (live two_a_minute 3_500_000 seen)) + window two_a_minute
unfolding decide make_decision sorted
retry_after_short_example =
    retry_after_short two_a_minute seen 3_500_000 (record { allowed = false; retry_after = 57 })
      refl refl (omega arith) (omega arith)
