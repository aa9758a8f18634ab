-- ===== src/RateLimit/Order.antt =====
-- backend/services/rate_limit_store.py: the timestamps of a bucket stay in order, and dropping the
-- old ones loses nothing that a later request could count.
use goat_ai.Prelude.{ℕ, ◌≤◌, ◌≡◌, refl, List, [], ◌∷◌, ◌++◌, arith, All}
use goat_ai.RateLimit.{RateLimitPolicy, window, live, sorted, insert_sorted, expire, decide}

abbrev pub Ascends : ℕ → List ℕ → Type 0
Ascends lo [] = Unit {0}
Ascends lo (x ∷ xs) = (lo ≤ x) × Ascends x xs

-- Ascending times, none of them later than `last`.
pub record IsOrdered (last : ℕ) (times : List ℕ) : Type 0 where
  pub ascends : Ascends 0 times
  pub past : All (λ t. t ≤ last) times

insert_sorted-Ascends : (x : ℕ) (xs : List ℕ) → Ascends x xs → insert_sorted x xs ≡ x ∷ xs
unfolding insert_sorted
insert_sorted-Ascends x [] a = refl
insert_sorted-Ascends x (y ∷ ys) a = ground arith

pub sorted-Ascends : (lo : ℕ) (xs : List ℕ) → Ascends lo xs → sorted xs ≡ xs
unfolding sorted
sorted-Ascends lo [] a = refl
sorted-Ascends lo (x ∷ xs) a = rw (sorted-Ascends x xs a.1) (insert_sorted-Ascends x xs a.1)

Ascends-append :
    (lo x : ℕ) (xs : List ℕ)
    → Ascends lo xs
    → All (λ t. t ≤ x) xs
    → lo ≤ x
    → Ascends lo (xs ++ x ∷ [])
Ascends-append lo x [] a p h = (h, tt)
Ascends-append lo x (y ∷ ys) a p h = (a.0, Ascends-append y x ys a.1 p.1 p.0)

pub All-le_mono : (m n : ℕ) (xs : List ℕ) → m ≤ n → All (λ t. t ≤ m) xs → All (λ t. t ≤ n) xs
All-le_mono m n [] h a = tt
All-le_mono m n (x ∷ xs) h a = (omega arith, All-le_mono m n xs h a.1)

All-le-append : (n : ℕ) (xs : List ℕ) → All (λ t. t ≤ n) xs → All (λ t. t ≤ n) (xs ++ n ∷ [])
All-le-append n [] a = (omega arith, tt)
All-le-append n (x ∷ xs) a = (a.0, All-le-append n xs a.1)

pub append-IsOrdered :
    (last now : ℕ) (xs : List ℕ) → last ≤ now → IsOrdered last xs → IsOrdered now (xs ++ now ∷ [])
append-IsOrdered last now xs h o = record {
  ascends = Ascends-append 0 now xs o.ascends (All-le_mono last now xs h o.past) (omega arith);
  past = All-le-append now xs (All-le_mono last now xs h o.past);
}

Ascends-weaken : (lo lo' : ℕ) (xs : List ℕ) → lo' ≤ lo → Ascends lo xs → Ascends lo' xs
Ascends-weaken lo lo' [] h a = tt
Ascends-weaken lo lo' (x ∷ xs) h a = (omega arith, a.1)

expire-Ascends : (now width lo : ℕ) (xs : List ℕ) → Ascends lo xs → Ascends lo (expire now width xs)
unfolding expire
expire-Ascends now width lo [] a = tt
expire-Ascends now width lo (x ∷ xs) a =
    ground (arith, expire-Ascends now width lo xs (Ascends-weaken x lo xs a.0 a.1))

expire-past :
    (now width last : ℕ) (xs : List ℕ)
    → All (λ t. t ≤ last) xs
    → All (λ t. t ≤ last) (expire now width xs)
unfolding expire
expire-past now width last [] a = tt
expire-past now width last (x ∷ xs) a = ground (arith, expire-past now width last xs a.1)

pub expire-IsOrdered :
    (now width last : ℕ) (xs : List ℕ) → IsOrdered last xs → IsOrdered last (expire now width xs)
expire-IsOrdered now width last xs o = record {
  ascends = expire-Ascends now width 0 xs o.ascends;
  past = expire-past now width last xs o.past;
}

-- What `get_timestamps` drops at `now` counts at no later time.
pub live-expire :
    (policy : RateLimitPolicy) (now later : ℕ) (xs : List ℕ)
    → now ≤ later
    → live policy later (expire now (window policy) xs) ≡ live policy later xs
unfolding expire
live-expire policy now later [] h = refl
live-expire policy now later (x ∷ xs) h = ground (arith, live-expire policy now later xs h)

-- A decision is about the live timestamps alone.
pub decide-live :
    (policy : RateLimitPolicy) (xs ys : List ℕ) (now : ℕ)
    → live policy now xs ≡ live policy now ys
    → decide policy xs now ≡ decide policy ys now
unfolding decide
decide-live policy xs ys now h = rw h refl
