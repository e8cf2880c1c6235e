-- ===== src/RateLimit/Window.antt =====
-- A key gets through at most `maxRequests` times while its window lasts, whatever else happens.
use remote_ttys.Base.{
  ℕ, ◌+◌, ◌-◌, ◌≤◌, ◌<◌, max, String, Bool, true, false, Option, none, some, List, [], ◌∷◌, Map,
  get, set, delete, size, get-set, get-delete, get-modify, size-set-le, size-modify, All, ltb, leb,
  ◌⊎◌, ◌≡◌, refl, inl, inr, arith, ◌==◌, eq_refl, eq_iff, subst, sym, ◌∙◌, String-cases,
  Option-cases, Bool-cases, IsUnique, delete-IsUnique, set-IsUnique, modify-IsUnique, if◌then◌else◌,
}
use remote_ttys.RateLimit.{
  RateLimitEntry, RateLimitStore, max_store_size, clean_from, clean, bump, first_request,
  open_window, count_request, check,
}

-- What happens to a store: a request of a key, or a round of the timer, at a time.
pub data Call : Type 0 where
  request : (key : String) (now : ℕ) → Call
  timer : (now : ℕ) → Call

abbrev pub time : Call → ℕ
time (request key now) = now
time (timer now) = now

abbrev pub after : Call → RateLimitStore → RateLimitStore
after (request key now) s = (check key now s).1
after (timer now) s = clean now s

-- How many requests of a key a run of calls lets through.
abbrev pub let_through : String → Call → RateLimitStore → ℕ
let_through k (request key now) s = if key == k then (if (check key now s).0 then 1 else 0) else 0
let_through k (timer now) s = 0

unfoldable pub allowed : String → List Call → RateLimitStore → ℕ
allowed k [] s = 0
allowed k (c ∷ cs) s = let_through k c s + allowed k cs (after c s)

abbrev pub expired : ℕ → Option RateLimitEntry → Bool
expired now none = false
expired now (some x) = ltb x.reset_at now

get-clean_from :
    (now : ℕ) (k : String) (entries m : Map RateLimitEntry)
    → IsUnique entries
    → get k (clean_from now entries m) ≡ (if expired now (get k entries) then none else get k m)
unfolding clean_from get
get-clean_from now k [] m unique = refl
get-clean_from now k ((j, x) ∷ rest) m (fresh, unique) = ground (
  arith,
  eq_iff j k,
  get-delete j k m,
  get-clean_from now k rest (delete j m) unique,
  get-clean_from now k rest m unique,
)

clean_from-IsUnique :
    (now : ℕ) (entries m : Map RateLimitEntry) → IsUnique m → IsUnique (clean_from now entries m)
unfolding clean_from
clean_from-IsUnique now [] m h = h
clean_from-IsUnique now ((j, x) ∷ rest) m h = elim (Bool-cases (ltb x.reset_at now)) [
  | inl old ↦ rw old (clean_from-IsUnique now rest (delete j m) (delete-IsUnique j m h))
  | inr young ↦ rw young (clean_from-IsUnique now rest m h)
]

-- If the keys are distinct, the timer drops the entries whose window is over, and no other.
pub get-clean :
    (now : ℕ) (k : String) (s : RateLimitStore)
    → IsUnique s.store
    → get k (clean now s).store ≡ (if expired now (get k s.store) then none else get k s.store)
unfolding clean
get-clean now k s unique = get-clean_from now k s.store s.store unique

abbrev pub hits : String → Call → ℕ
hits k (request key now) = if key == k then 1 else 0
hits k (timer now) = 0

-- A call during the window of `k` counts a request of `k`, and leaves the window as it is.
record Goes (k : String) (c : Call) (e : RateLimitEntry) (s : RateLimitStore) : Type 0 where
  entry : RateLimitEntry
  found : get k (after c s).store ≡ some entry
  window : entry.reset_at ≡ e.reset_at
  counted : entry.count ≡ e.count + hits k c
  limit : (after c s).max_requests ≡ s.max_requests
  unique : IsUnique (after c s).store
  through : let_through k c s + (s.max_requests - (e.count + hits k c)) ≤ s.max_requests - e.count

module _ (k : String) (e : RateLimitEntry) (s : RateLimitStore) (there : get k s.store ≡ some e)
    (unique : IsUnique s.store) where
  check_self : (now : ℕ) → now ≤ e.reset_at → check k now s ≡ count_request k e s
  unfolding check
  check_self now live = rw (there, check) (ground arith)

  own-through :
      (now : ℕ)
      → check k now s ≡ count_request k e s
      → let_through k (request k now) s + (s.max_requests - (e.count + hits k (request k now)))
        ≤ s.max_requests - e.count
  unfolding count_request
  own-through now same = rw (eq_refl k) (rw same (ground arith))

  -- The same window, one request further on.
  own-Goes : (now : ℕ) → now ≤ e.reset_at → Goes k (request k now) e s
  unfolding count_request bump
  own-Goes now live =
      let same = check_self now live in
      record {
        entry = bump e;
        found =
            subst (λ (p : Bool × RateLimitStore). get k p.1.store ≡ some (bump e)) (sym same)
              (ground (arith, get-modify k k bump s.store, eq_refl k));
        window = refl;
        counted = rw (eq_refl k);
        limit =
            subst (λ (p : Bool × RateLimitStore). p.1.max_requests ≡ s.max_requests) (sym same)
              refl;
        unique =
            subst (λ (p : Bool × RateLimitStore). IsUnique p.1.store) (sym same)
              (modify-IsUnique k bump s.store unique);
        through = own-through now same;
      }

  -- What a request of another key leaves.
  Spared : Bool × RateLimitStore → Type 0
  Spared p = (get k p.1.store ≡ some e) × (p.1.max_requests ≡ s.max_requests) × IsUnique p.1.store

  open_window-Spared : (j : String) (now : ℕ) → (j == k) ≡ false → Spared (open_window j now s)
  unfolding open_window Spared
  open_window-Spared j now other = elim (Bool-cases (leb max_store_size (size s.store))) [
    | inl full ↦ rw (full, open_window) (there, refl, unique)
    | inr room ↦
        rw (room, open_window)
          (get-set j k _ s.store ∙ rw other there, refl, set-IsUnique j _ s.store unique)
  ]

  count_request-Spared :
      (j : String) (x : RateLimitEntry) → (j == k) ≡ false → Spared (count_request j x s)
  unfolding count_request Spared
  count_request-Spared j x other =
      (get-modify j k bump s.store ∙ rw other there, refl, modify-IsUnique j bump s.store unique)

  check-Spared : (j : String) (now : ℕ) → (j == k) ≡ false → Spared (check j now s)
  unfolding check
  check-Spared j now other = elim (Option-cases (get j s.store)) [
    | inl missing ↦ rw (missing, check) (open_window-Spared j now other)
    | inr (x, stored) ↦ elim (Bool-cases (ltb x.reset_at now)) [
      | inl old ↦ rw (stored, check) (rw (old, check) (open_window-Spared j now other))
      | inr young ↦ rw (stored, check) (rw (young, check) (count_request-Spared j x other))
    ]
  ]

  other-Goes : (j : String) (now : ℕ) → (j == k) ≡ false → Goes k (request j now) e s
  unfolding Spared
  other-Goes j now other =
      let kept = check-Spared j now other in
      record {
        entry = e;
        found = kept.0;
        window = refl;
        counted = rw other (omega arith);
        limit = kept.1;
        unique = kept.2;
        through = rw other (omega arith);
      }

  timer-Goes : (now : ℕ) → now ≤ e.reset_at → Goes k (timer now) e s
  unfolding clean
  timer-Goes now live = record {
    entry = e;
    found = get-clean_from now k s.store s.store unique ∙ rw there (ground arith);
    window = refl;
    counted = omega arith;
    limit = refl;
    unique = clean_from-IsUnique now s.store s.store unique;
    through = omega arith;
  }

goes :
    (k : String) (c : Call) (e : RateLimitEntry) (s : RateLimitStore)
    → get k s.store ≡ some e
    → IsUnique s.store
    → time c ≤ e.reset_at
    → Goes k c e s
goes k (request j now) e s there unique live = elim (String-cases j k) [
  | inl self ↦
      subst (λ x. Goes k (request x now) e s) (sym self) (own-Goes k e s there unique now live)
  | inr other ↦ other-Goes k e s there unique j now other
]
goes k (timer now) e s there unique live = timer-Goes k e s there unique now live

allowed-le :
    (k : String) (cs : List Call) (e : RateLimitEntry) (s : RateLimitStore)
    → get k s.store ≡ some e
    → IsUnique s.store
    → All (λ c. time c ≤ e.reset_at) cs
    → allowed k cs s ≤ s.max_requests - e.count
unfolding allowed
allowed-le k [] e s there unique live = omega arith
allowed-le k (c ∷ cs) e s there unique (now, later) =
    let g = goes k c e s there unique now in
    let rest =
      allowed-le k cs g.entry (after c s) g.found g.unique
        (subst (λ t. All (λ c'. time c' ≤ t) cs) (sym g.window) later) in
    omega (arith, rest, g.through, g.counted, g.limit)

check_idle :
    (k : String) (now : ℕ) (s : RateLimitStore)
    → (get k s.store ≡ none) ⊎ (expired now (get k s.store) ≡ true)
    → check k now s ≡ open_window k now s
unfolding check
check_idle k now s (inl missing) = rw (missing, check)
check_idle k now s (inr over) = elim (Option-cases (get k s.store)) [
  | inl missing ↦ rw (missing, check)
  | inr (e, stored) ↦ rw (stored, check) (ground arith)
]

open_window-size :
    (k : String) (now : ℕ) (s : RateLimitStore)
    → size s.store ≤ max_store_size
    → size (open_window k now s).1.store ≤ max_store_size
unfolding open_window
open_window-size k now s h = elim (Bool-cases (leb max_store_size (size s.store))) [
  | inl full ↦ rw (full, open_window) h
  | inr room ↦ rw (room, open_window) (ground (arith, size-set-le k (first_request now s) s.store))
]

allowed-request :
    (k : String) (now : ℕ) (cs : List Call) (s : RateLimitStore)
    → allowed k (request k now ∷ cs) s
      ≡ (if (check k now s).0 then 1 else 0) + allowed k cs (check k now s).1
unfolding allowed
allowed-request k now cs s = rw (eq_refl k)

-- A request opens a window of `k`, which has none that runs, while there is room; then come any calls at times within the window. In all, at most
-- `max_requests` of the requests of `k` get through (one, where that limit is 0).
pub allowed_in_window :
    (k : String) (now : ℕ) (cs : List Call) (s : RateLimitStore)
    → IsUnique s.store
    → (get k s.store ≡ none) ⊎ (expired now (get k s.store) ≡ true)
    → size s.store < max_store_size
    → All (λ c. time c ≤ now + s.window_ms) cs
    → allowed k (request k now ∷ cs) s ≤ max 1 s.max_requests
unfolding open_window first_request
allowed_in_window k now cs s unique idle room soon =
    let full : leb max_store_size (size s.store) ≡ false = ground arith in
    let q : RateLimitStore = record s { store = set k (first_request now s) s.store } in
    let first : check k now s ≡ (true, q) = check_idle k now s idle ∙ rw (full, open_window) in
    let rest =
      allowed-le k cs (first_request now s) q
        (get-set k k (first_request now s) s.store ∙ rw (eq_refl k))
        (set-IsUnique k (first_request now s) s.store unique) soon in
    rw (allowed-request k now cs s) (rw first (omega (arith, rest)))

-- A request leaves the table of keys within its limit if it was within it.
pub check-size :
    (k : String) (now : ℕ) (s : RateLimitStore)
    → size s.store ≤ max_store_size
    → size (check k now s).1.store ≤ max_store_size
unfolding check count_request
check-size k now s h = elim (Option-cases (get k s.store)) [
  | inl missing ↦ rw (check_idle k now s (inl missing)) (open_window-size k now s h)
  | inr (e, stored) ↦ elim (Bool-cases (ltb e.reset_at now)) [
    | inl old ↦ rw (check_idle k now s (inr (rw stored old))) (open_window-size k now s h)
    | inr young ↦ count-size e stored young
  ]
]
  where
    count-size :
        (e : RateLimitEntry)
        → get k s.store ≡ some e
        → ltb e.reset_at now ≡ false
        → size (check k now s).1.store ≤ max_store_size
    count-size e stored young =
        rw (stored, check) (rw (young, check) (omega (arith, size-modify k bump s.store, h)))
