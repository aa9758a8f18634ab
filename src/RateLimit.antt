-- ===== src/RateLimit.antt =====
-- backend/domain/rate_limit_policy.py, backend/services/rate_limit_store.py and rate_limiter.py.
-- Times are in microseconds, and exact where the source has floats.
pub mod Order
pub mod Reference
pub mod Quota
mod Tests
use goat_ai.Prelude.{
  ℕ, ◌+◌, ◌-◌, ◌*◌, ◌/◌, max, String, Bool, true, false, not, ◌&&◌, Option, none, some, List, [],
  ◌∷◌, ◌++◌, str_eq, eq_iff, length, select, leb, ltb, ◌==◌, if◌then◌else◌,
}
use goat_ai.Prelude.Table.{Keyed, fetch, put}

pub record RateLimitSubject : Type 0 where
  pub api_key_fingerprint : String
  pub owner_id : String
  pub route_group : String
  pub method_class : String

pub record RateLimitDecision : Type 0 where
  pub allowed : Bool
  pub retry_after : ℕ

pub record RateLimitPolicy : Type 0 where
  pub window_sec : ℕ
  pub max_requests : ℕ

abbrev pub microseconds : ℕ
microseconds = 1_000_000

abbrev pub window : RateLimitPolicy → ℕ
window policy = policy.window_sec * microseconds

-- The constructors with their `__post_init__`: `none` is the ValueError.
unfoldable pub make_policy : ℕ → ℕ → Option RateLimitPolicy
make_policy window_sec max_requests =
    if window_sec == 0
    then none
    else if max_requests == 0
    then none
    else some (record { window_sec = window_sec; max_requests = max_requests })

unfoldable pub make_decision : Bool → ℕ → Option RateLimitDecision
make_decision allowed retry_after =
    if allowed && not (retry_after == 0)
    then none
    else if not allowed && ltb retry_after 1
    then none
    else some (record { allowed = allowed; retry_after = retry_after })

insert_sorted : ℕ → List ℕ → List ℕ
insert_sorted x [] = x ∷ []
insert_sorted x (y ∷ ys) = if leb x y then x ∷ y ∷ ys else y ∷ insert_sorted x ys

pub sorted : List ℕ → List ℕ
unfolding insert_sorted
sorted [] = []
sorted (x ∷ xs) = insert_sorted x (sorted xs)

-- now - timestamp < window_sec
abbrev pub live : RateLimitPolicy → ℕ → List ℕ → List ℕ
live policy now = select λ timestamp. ltb now (timestamp + window policy)

-- `windowed[0]`, where the list is not empty.
abbrev pub first : List ℕ → ℕ
first [] = 0
first (x ∷ xs) = x

pub decide : RateLimitPolicy → List ℕ → ℕ → Option RateLimitDecision
decide policy observed_timestamps now =
    let windowed = sorted (live policy now observed_timestamps) in
    if leb policy.max_requests (length windowed)
    then make_decision false (max 1 ((first windowed + window policy - now) / microseconds))
    else make_decision true 0

pub record Bucket : Type 0 where
  pub name : String
  pub timestamps : List ℕ

abbrev pub buckets : Keyed String Bucket
buckets = record { key = λ b. b.name; beq = str_eq; beq_iff = eq_iff }

-- `_timestamps_by_key`
abbrev pub Store : Type 0
Store = List Bucket

-- `while bucket and bucket[0] <= cutoff: bucket.popleft()`
pub expire : ℕ → ℕ → List ℕ → List ℕ
expire now width [] = []
expire now width (timestamp ∷ rest) =
    let later = expire now width rest in
    if leb (timestamp + width) now then later else timestamp ∷ rest

pub bucket : Store → String → List ℕ
bucket store key = elim (fetch buckets key store) [ none ↦ [] | some b ↦ b.timestamps ]

pub get_timestamps : Store → String → ℕ → ℕ → Store × List ℕ
get_timestamps store key now width =
    let active = expire now width (bucket store key) in
    (put buckets (record { name = key; timestamps = active }) store, active)

pub replace_timestamps : Store → String → List ℕ → Store
replace_timestamps store key timestamps =
    put buckets (record { name = key; timestamps = sorted timestamps }) store

-- The storage key is a digest of the subject's JSON text, which the program's libraries compute.
pub record RateLimiter : Type 0 where
  pub policy : RateLimitPolicy
  pub store : Store
  pub key_for : RateLimitSubject → String

-- The part of `evaluate` after the decision: an admitted request is recorded.
pub respond :
    Store → String → List ℕ → ℕ → Option RateLimitDecision → Store × Option RateLimitDecision
respond store key timestamps now none = (store, none)
respond store key timestamps now (some decision) =
    if decision.allowed
    then (replace_timestamps store key (timestamps ++ now ∷ []), some decision)
    else (store, some decision)

-- The store after the call, and the decision.
pub evaluate : RateLimiter → RateLimitSubject → ℕ → Store × Option RateLimitDecision
evaluate limiter subject now =
    let key = limiter.key_for subject in
    let (store, timestamps) = get_timestamps limiter.store key now (window limiter.policy) in
    respond store key timestamps now (decide limiter.policy timestamps now)
