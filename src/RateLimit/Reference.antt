-- ===== src/RateLimit/Reference.antt =====
-- The rate limiter against a reference that forgets nothing: every admitted time of every key.
use goat_ai.Prelude.{
  ℕ, ◌≤◌, ◌≡◌, refl, ap, ◌∙◌, String, inl, inr, Option, none, some, List, [], ◌∷◌, ◌++◌, arith,
  str_eq, eq_iff, Bool-cases, if◌then◌else◌, select-append, map,
}
use goat_ai.Prelude.Table.{fetch, put, fetch-put_self, fetch-put_ne}
use goat_ai.RateLimit.Order.{
  Ascends, IsOrdered, sorted-Ascends, All-le_mono, append-IsOrdered, expire-IsOrdered, live-expire,
  decide-live,
}
use goat_ai.RateLimit.{
  RateLimitPolicy, RateLimitSubject, RateLimitDecision, RateLimiter, Store, Bucket, buckets, bucket,
  window, live, decide, get_timestamps, replace_timestamps, respond, evaluate,
}

-- All admitted times of a key, oldest first.
abbrev pub History : Type 0
History = String → List ℕ

abbrev pub record_time : History → String → ℕ → History
record_time h key now other = if str_eq other key then h key ++ now ∷ [] else h other

-- The policy, asked about the whole history of the key.
unfoldable pub reference_respond :
    History → String → ℕ → Option RateLimitDecision → History × Option RateLimitDecision
reference_respond h key now none = (h, none)
reference_respond h key now (some d) = (if d.allowed then record_time h key now else h, some d)

-- The policy, asked about the whole history of the key.
unfoldable pub reference_step :
    RateLimitPolicy → History → String → ℕ → History × Option RateLimitDecision
reference_step policy h key now = reference_respond h key now (decide policy (h key) now)

-- The store holds, for each key, what of its history a request from `last` on can count.
pub record Agrees (policy : RateLimitPolicy) (store : Store) (h : History) (last : ℕ) : Type 0 where
  pub stored : (key : String) → IsOrdered last (bucket store key)
  pub same :
      (key : String) (t : ℕ) → last ≤ t → live policy t (bucket store key) ≡ live policy t (h key)

bucket-put :
    (store : Store) (b : Bucket) (key : String)
    → bucket (put buckets b store) key
      ≡ (if str_eq key b.name then b.timestamps else bucket store key)
unfolding bucket
bucket-put store b key = elim (Bool-cases (str_eq key b.name)) [
  | inl hit ↦ rw hit (rw ((eq_iff key b.name).0 hit) (rw (fetch-put_self buckets b store, bucket)))
  | inr miss ↦
      rw miss
        (rw (fetch-put_ne buckets key b store (λ e. ground (arith, eq_iff key b.name)), bucket))
]

IsOrdered-mono : (m n : ℕ) (xs : List ℕ) → m ≤ n → IsOrdered m xs → IsOrdered n xs
IsOrdered-mono m n xs h o = record { ascends = o.ascends; past = All-le_mono m n xs h o.past }

-- A write of one bucket keeps the agreement if the bucket agrees with the key's history.
Agrees-put :
    (policy : RateLimitPolicy) (store : Store) (h h' : History) (last now : ℕ) (b : Bucket)
    (times : List ℕ)
    → last ≤ now
    → Agrees policy store h last
    → ((key : String) → h' key ≡ (if str_eq key b.name then times else h key))
    → IsOrdered now b.timestamps
    → ((t : ℕ) → now ≤ t → live policy t b.timestamps ≡ live policy t times)
    → Agrees policy (put buckets b store) h' now
Agrees-put policy store h h' last now b times le a extends ordered same = record {
  stored = λ key.
      let old : IsOrdered now (bucket store key) = IsOrdered-mono last now _ le (a.stored key) in
      rw (bucket-put store b key) (elim (Bool-cases (str_eq key b.name)) [
        | inl hit ↦ rw hit ordered
        | inr miss ↦ rw miss old
      ]);
  same = λ key t later.
      rw (bucket-put store b key, extends key)
        (elim (Bool-cases (str_eq key b.name)) [
          | inl hit ↦ rw hit (same t later)
          | inr miss ↦ rw miss (a.same key t (omega arith))
        ]);
}

if_same :
    (h : History) (key other : String) → h other ≡ (if str_eq other key then h key else h other)
if_same h key other = elim (Bool-cases (str_eq other key)) [
  | inl hit ↦ rw hit (ap h ((eq_iff other key).0 hit))
  | inr miss ↦ rw miss
]

-- Dropping old timestamps keeps the agreement, at the later time.
Agrees-get_timestamps :
    (policy : RateLimitPolicy) (store : Store) (h : History) (last : ℕ) (key : String) (now : ℕ)
    → last ≤ now
    → Agrees policy store h last
    → Agrees policy (get_timestamps store key now (window policy)).0 h now
unfolding get_timestamps
Agrees-get_timestamps policy store h last key now le a =
    Agrees-put policy store h h last now _ (h key) le a (if_same h key)
      (IsOrdered-mono last now _ le (expire-IsOrdered now _ last _ (a.stored key)))
      (λ t later. live-expire policy now t _ later ∙ a.same key t (omega arith))

-- Recording an admitted time keeps it too.
Agrees-replace_timestamps :
    (policy : RateLimitPolicy) (store : Store) (h : History) (now : ℕ) (key : String)
    (active : List ℕ)
    → Agrees policy store h now
    → IsOrdered now active
    → ((t : ℕ) → now ≤ t → live policy t active ≡ live policy t (h key))
    → Agrees policy (replace_timestamps store key (active ++ now ∷ [])) (record_time h key now) now
unfolding replace_timestamps
Agrees-replace_timestamps policy store h now key active a o same =
    let o' = append-IsOrdered now now active (omega arith) o in
    Agrees-put policy store h (record_time h key now) now now _ (h key ++ now ∷ []) (omega arith) a
      (λ other. refl) (rw (sorted-Ascends 0 _ o'.ascends) o')
      (λ t later. rw (
        sorted-Ascends 0 _ o'.ascends,
        select-append _ active (now ∷ []),
        select-append _ (h key) (now ∷ []),
        same t later,
      ))

active-IsOrdered :
    (store : Store) (key : String) (last now width : ℕ)
    → last ≤ now
    → IsOrdered last (bucket store key)
    → IsOrdered now (get_timestamps store key now width).1
unfolding get_timestamps
active-IsOrdered store key last now width le o =
    IsOrdered-mono last now _ le (expire-IsOrdered now width last _ o)

active_same :
    (policy : RateLimitPolicy) (store : Store) (h : History) (key : String) (last now : ℕ)
    → last ≤ now
    → Agrees policy store h last
    → (t : ℕ) → now ≤ t
    → live policy t (get_timestamps store key now (window policy)).1 ≡ live policy t (h key)
unfolding get_timestamps
active_same policy store h key last now le a t later =
    live-expire policy now t _ later ∙ a.same key t (omega arith)

respond-Agrees :
    (policy : RateLimitPolicy) (h : History) (key : String) (store : Store) (active : List ℕ)
    (now : ℕ) (decision : Option RateLimitDecision)
    → Agrees policy store h now
    → Agrees policy (replace_timestamps store key (active ++ now ∷ [])) (record_time h key now) now
    → ((respond store key active now decision).1 ≡ (reference_respond h key now decision).1)
      × Agrees policy
          (respond store key active now decision).0
          (reference_respond h key now decision).0
          now
unfolding respond reference_respond
respond-Agrees policy h key store active now none read written = (refl, read)
respond-Agrees policy h key store active now (some d) read written = elim (Bool-cases d.allowed) [
  | inl yea ↦ rw yea (refl, written)
  | inr nay ↦ rw nay (refl, read)
]

-- One request: from a store that agrees with the history, the limiter answers as the reference does,
-- which asks the policy about every time it ever admitted, and the two agree again.
pub evaluate-Agrees :
    (limiter : RateLimiter) (h : History) (last : ℕ) (subject : RateLimitSubject) (now : ℕ)
    → last ≤ now
    → Agrees limiter.policy limiter.store h last
    → let key = limiter.key_for subject in
      ((evaluate limiter subject now).1 ≡ (reference_step limiter.policy h key now).1)
      × Agrees limiter.policy
          (evaluate limiter subject now).0
          (reference_step limiter.policy h key now).0
          now
unfolding evaluate reference_step
evaluate-Agrees limiter h last subject now le a =
    let key = limiter.key_for subject in
    let policy = limiter.policy in
    let active = (get_timestamps limiter.store key now (window policy)).1 in
    let read = Agrees-get_timestamps policy limiter.store h last key now le a in
    let ordered = active-IsOrdered limiter.store key last now (window policy) le (a.stored key) in
    let same = active_same policy limiter.store h key last now le a in
    let answer = decide-live policy active (h key) now (same now (omega arith)) in
    let written = Agrees-replace_timestamps policy _ h now key active read ordered same in
    rw (← answer) (respond-Agrees policy h key _ active now (decide policy active now) read written)

abbrev pub Request : Type 0
Request = RateLimitSubject × ℕ

-- The middleware's requests in turn, with the answers.
unfoldable pub run : RateLimiter → List Request → List (Option RateLimitDecision)
run limiter [] = []
run limiter ((subject, now) ∷ rest) =
    let (store, answer) = evaluate limiter subject now in
    answer ∷ run (record limiter { store = store }) rest

unfoldable pub reference_run :
    RateLimitPolicy
    → (RateLimitSubject → String)
    → History
    → List Request
    → List (Option RateLimitDecision)
reference_run policy key_for h [] = []
reference_run policy key_for h ((subject, now) ∷ rest) =
    let (h', answer) = reference_step policy h (key_for subject) now in
    answer ∷ reference_run policy key_for h' rest

-- The clock does not go back.
abbrev pub InTime : ℕ → List Request → Type 0
InTime last requests = Ascends last (map (λ r. r.1) requests)

run-Agrees :
    (requests : List Request) (limiter : RateLimiter) (h : History) (last : ℕ)
    → InTime last requests
    → Agrees limiter.policy limiter.store h last
    → run limiter requests ≡ reference_run limiter.policy limiter.key_for h requests
unfolding run reference_run
run-Agrees [] limiter h last up a = refl
run-Agrees ((subject, now) ∷ rest) limiter h last up a =
    let (answer, after) = evaluate-Agrees limiter h last subject now up.0 a in
    let later =
      run-Agrees rest (record limiter { store = (evaluate limiter subject now).0 })
        (reference_step limiter.policy h (limiter.key_for subject) now).0 now up.1 after in
    rw (answer, later)

abbrev pub new_limiter : RateLimitPolicy → (RateLimitSubject → String) → RateLimiter
new_limiter policy key_for = record { policy = policy; store = []; key_for = key_for }

pub empty-Agrees : (policy : RateLimitPolicy) → Agrees policy [] (λ _. []) 0
unfolding bucket fetch
empty-Agrees policy = record {
  stored = λ key. record { ascends = tt; past = tt };
  same = λ key t h. refl;
}

-- From an empty store, and while the clock does not go back, the limiter that drops and rewrites its
-- buckets answers every request exactly as the reference limiter that keeps every admitted time.
pub run-refines :
    (policy : RateLimitPolicy) (key_for : RateLimitSubject → String) (requests : List Request)
    → InTime 0 requests
    → run (new_limiter policy key_for) requests ≡ reference_run policy key_for (λ _. []) requests
run-refines policy key_for requests up =
    run-Agrees requests (new_limiter policy key_for) _ 0 up (empty-Agrees policy)
