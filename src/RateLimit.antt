-- ===== src/RateLimit.antt =====
-- packages/relay/src/rateLimit.ts: the fixed-window limiter.
pub mod Tests
pub mod Window
use remote_ttys.Base.{
  ℕ, ◌+◌, String, Bool, true, false, Option, none, some, List, [], ◌∷◌, Map, get, set, delete,
  modify, size, ltb, leb, if◌then◌else◌,
}
use remote_ttys.Base.Texts.{truthy}

pub record RateLimitEntry : Type 0 where
  pub count : ℕ
  pub reset_at : ℕ

pub record RateLimitStore : Type 0 where
  pub window_ms : ℕ
  pub max_requests : ℕ
  pub store : Map RateLimitEntry

abbrev pub max_store_size : ℕ
max_store_size = 50000

-- `new RateLimitStore(windowMs, maxRequests)`.
abbrev pub new_store : ℕ → ℕ → RateLimitStore
new_store window max = record { window_ms = window; max_requests = max; store = [] }

-- One round of the clean-up timer. A round deletes at most the entry that it visits.
unfoldable pub clean_from : ℕ → Map RateLimitEntry → Map RateLimitEntry → Map RateLimitEntry
clean_from now [] m = m
clean_from now ((k, e) ∷ rest) m =
    clean_from now rest (if ltb e.reset_at now then delete k m else m)

unfoldable pub clean : ℕ → RateLimitStore → RateLimitStore
clean now s = record s { store = clean_from now s.store s.store }

unfoldable pub bump : RateLimitEntry → RateLimitEntry
bump e = record e { count = e.count + 1 }

unfoldable pub first_request : ℕ → RateLimitStore → RateLimitEntry
first_request now s = record { count = 1; reset_at = now + s.window_ms }

-- The branch of a key with no entry, or with one whose window is over.
unfoldable pub open_window : String → ℕ → RateLimitStore → Bool × RateLimitStore
open_window key now s =
    if leb max_store_size (size s.store)
    then (false, s)
    else (true, record s { store = set key (first_request now s) s.store })

-- `entry.count++` on the stored object.
unfoldable pub count_request : String → RateLimitEntry → RateLimitStore → Bool × RateLimitStore
count_request key e s =
    (leb (e.count + 1) s.max_requests, record s { store = modify key bump s.store })

unfoldable pub check : String → ℕ → RateLimitStore → Bool × RateLimitStore
check key now s = elim (get key s.store) [
  | none ↦ open_window key now s
  | some e ↦ if ltb e.reset_at now then open_window key now s else count_request key e s
]

-- `createRateLimiter`: the key of a request, and the middleware; `false` is the answer 429.
unfoldable pub limiter_key : Option String → Option String → String
limiter_key ip remote = elim (truthy ip) [
  | some a ↦ a
  | none ↦ elim (truthy remote) [ some a ↦ a | none ↦ "unknown" ]
]
