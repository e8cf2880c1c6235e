-- ===== src/KnownAgents/Tests.antt =====
-- packages/web/src/lib/knownAgents.ts: concrete checks of an agent's identity.
use remote_ttys.Base.{String, none, some, [], ◌∷◌, Map, get, ◌≡◌, ◌≢◌, refl, ◌⊎◌}
use remote_ttys.KnownAgents.{trusted, mismatch, KnownAgent, Pending, begin_check, finish_check}
use remote_ttys.KnownAgents.Trust.{
  IsPinned, Steps, done, and_then, begins, ends, pinned_key_decides,
}

abbrev key1 : String
key1 = "k1"

abbrev key2 : String
key2 = "k2"

abbrev pinned_store : Map KnownAgent
pinned_store =
    (
      "a1",
      record { identity_key = "k1"; fingerprint = "fp-k1"; first_seen = "t0"; last_seen = "t0" },
    )
    ∷ []

pinned : IsPinned "a1" "k1" pinned_store
unfolding IsPinned get
pinned = (
  record { identity_key = "k1"; fingerprint = "fp-k1"; first_seen = "t0"; last_seen = "t0" },
  refl,
  refl,
)

abbrev of_other : Pending
of_other = begin_check "a2" "k2" pinned_store

abbrev after : Map KnownAgent
after = (finish_check "t1" (some "fp-k2") of_other pinned_store).1

-- Two checks overlap; the second one's key does not decode.
overlapping :
    Steps (record { store = pinned_store; waiting = [] }) (record { store = after; waiting = [] })
unfolding finish_check
overlapping =
    and_then
      (and_then (and_then (and_then done (begins "a2" "k2" _)) (begins "a1" "k2" _))
        (ends "t1" none (begin_check "a1" "k2" pinned_store) [] (of_other ∷ []) pinned_store))
      (ends "t1" (some "fp-k2") of_other [] [] pinned_store)

pinned_key_decides_example :
    (key1 ≡ key2)
      × ((finish_check "t3" (some "fp-k2") (begin_check "a1" "k2" after) []).0 ≡ some trusted)
    ⊎ (key1 ≢ key2)
      × (known : KnownAgent) × (get "a1" after ≡ some known)
      × (finish_check "t3" (some "fp-k2") (begin_check "a1" "k2" after) []
          ≡ (some (mismatch known.fingerprint "fp-k2"), []))
pinned_key_decides_example =
    pinned_key_decides "a1" "k1" pinned_store (record { store = after; waiting = [] }) pinned
      overlapping "t3" "k2" "fp-k2" []
