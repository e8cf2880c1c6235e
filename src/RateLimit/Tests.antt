-- ===== src/RateLimit/Tests.antt =====
-- packages/relay/src/rateLimit.ts: runs of the limiter and concrete instances of its theorems.
use remote_ttys.Base.{◌≤◌, max, none, List, [], ◌∷◌, get, set, modify, size, ◌≡◌, refl, inl, arith}
use remote_ttys.RateLimit.{
  RateLimitStore, max_store_size, new_store, clean_from, clean, bump, first_request, open_window,
  count_request, check,
}
use remote_ttys.RateLimit.Window.{
  Call, request, timer, allowed, allowed_in_window, get-clean, check-size,
}

-- Two requests in 1000 ms.
abbrev limiter : RateLimitStore
limiter = new_store 1000 2

abbrev busy : RateLimitStore
busy = record limiter { store = ("a", record { count = 1; reset_at = 5 }) ∷ [] }

abbrev calls : List Call
calls = request "a" 20 ∷ request "b" 30 ∷ timer 40 ∷ request "a" 50 ∷ request "a" 60 ∷ []

third : allowed "a" (request "a" 10 ∷ calls) limiter ≡ 2
unfolding get clean_from clean bump first_request open_window count_request check allowed set modify
third = refl

allowed_in_window_example : allowed "a" (request "a" 10 ∷ calls) limiter ≤ max 1 2
unfolding get
allowed_in_window_example =
    allowed_in_window "a" 10 calls limiter tt (inl refl) (omega arith)
      (omega arith, (omega arith, (omega arith, (omega arith, (omega arith, tt)))))

get-clean_example : get "a" (clean 9 busy).store ≡ none
unfolding get
get-clean_example = get-clean 9 "a" busy (refl, tt)

check-size_example : size (check "b" 7 busy).1.store ≤ max_store_size
check-size_example = check-size "b" 7 busy (omega arith)
