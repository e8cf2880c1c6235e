-- ===== src/KnownAgents/Trust.antt =====
-- The key that an agent was first seen with stays its key until the user accepts another, however the
-- checks that began since then overlap.
use mathlib.Core.Option.{none-ne-some, some-injective}
use remote_ttys.Base.{
  String, true, false, Option, none, some, List, [], ◌∷◌, ◌++◌, Map, get, set, get-set, All, ◌≡◌,
  ◌≢◌, sym, ◌∙◌, ap, ◌⊎◌, inl, inr, arith, ◌==◌, eq_iff, Option-cases, Bool-cases,
}
use remote_ttys.KnownAgents.{
  trusted, first_use, mismatch, KnownAgent, Pending, new_agent, begin_check, resume_check,
  finish_check, seen,
}

-- The store holds the key as that of the agent.
unfoldable pub IsPinned : String → String → Map KnownAgent → Type 0
IsPinned id key agents =
    (known : KnownAgent) × (get id agents ≡ some known) × (known.identity_key ≡ key)

contradiction : true ≢ false
contradiction e = ground arith

same_or_other : (i j : String) → ((i == j) ≡ true) × (i ≡ j) ⊎ ((i == j) ≡ false) × (i ≢ j)
same_or_other i j = elim (Bool-cases (i == j)) [
  | inl t ↦ inl (t, (eq_iff i j).0 t)
  | inr f ↦ inr (f, λ e. contradiction (sym ((eq_iff i j).1 e) ∙ f))
]

-- What the end of a check does and answers, case by case.
resume_check-cases :
    (now fp : String) (p : Pending) (agents : Map KnownAgent)
    → (get p.id p.loaded ≡ none)
        × (resume_check now fp p agents ≡ (first_use, set p.id (new_agent p.key fp now) p.loaded))
      ⊎ (known : KnownAgent) × (get p.id p.loaded ≡ some known)
        × ((known.identity_key ≡ p.key)
              × (resume_check now fp p agents ≡ (trusted, set p.id (seen now known) p.loaded))
            ⊎ (known.identity_key ≢ p.key)
              × (resume_check now fp p agents ≡ (mismatch known.fingerprint fp, agents)))
unfolding resume_check
resume_check-cases now fp p agents = elim (Option-cases (get p.id p.loaded)) [
  | inl e ↦ inl (e, rw (resume_check, e))
  | inr (known, e) ↦ inr (
    known,
    e,
    elim (same_or_other known.identity_key p.key) [
      | inl (t, same) ↦ inl (same, rw (resume_check, e, t))
      | inr (f, other) ↦ inr (other, rw (resume_check, e, f))
    ],
  )
]

-- Where the object that a check loaded and the store both hold a key for an agent, so does what is left.
resume_check-IsPinned :
    (now fp j pinned : String) (p : Pending) (agents : Map KnownAgent)
    → IsPinned j pinned p.loaded
    → IsPinned j pinned agents
    → IsPinned j pinned (resume_check now fp p agents).1
unfolding IsPinned seen
resume_check-IsPinned now fp j pinned p agents (k, at, h) stored =
    elim (resume_check-cases now fp p agents) [
      | inl (e, c) ↦ elim (same_or_other p.id j) [
        | inl (t, same) ↦ absurd (none-ne-some k (sym e ∙ ap (λ x. get x p.loaded) same ∙ at))
        | inr (f, other) ↦ (k, rw (c, get-set p.id j (new_agent p.key fp now) p.loaded, f, at), h)
      ]
      | inr (known, e, inl (same, c)) ↦ elim (same_or_other p.id j) [
        | inl (t, eq) ↦ (
          seen now known,
          rw (c, get-set p.id j (seen now known) p.loaded, t),
          ap (λ (a : KnownAgent). a.identity_key)
                (some-injective known k (sym e ∙ ap (λ x. get x p.loaded) eq ∙ at))
              ∙ h,
        )
        | inr (f, other) ↦ (k, rw (c, get-set p.id j (seen now known) p.loaded, f, at), h)
      ]
      | inr (known, e, inr (other, c)) ↦ rw c stored
    ]

finish_check-IsPinned :
    (now : String) (fp : Option String) (j pinned : String) (p : Pending) (agents : Map KnownAgent)
    → IsPinned j pinned p.loaded
    → IsPinned j pinned agents
    → IsPinned j pinned (finish_check now fp p agents).1
unfolding finish_check
finish_check-IsPinned now none j pinned p agents loaded stored = stored
finish_check-IsPinned now (some fp) j pinned p agents loaded stored =
    resume_check-IsPinned now fp j pinned p agents loaded stored

-- The store, and the checks that wait.
pub record Checks : Type 0 where
  pub store : Map KnownAgent
  pub waiting : List Pending

-- What happens: a check begins, or one of those that wait ends, whichever.
pub data Step : Checks → Checks → Type 0 where
  begins :
      (id key : String) (c : Checks)
      → Step c (record { store = c.store; waiting = begin_check id key c.store ∷ c.waiting })
  ends :
      (now : String) (fp : Option String) (p : Pending) (before after : List Pending)
      (store : Map KnownAgent)
      → Step
          (record { store = store; waiting = before ++ p ∷ after })
          (record { store = (finish_check now fp p store).1; waiting = before ++ after })

pub data Steps (c : Checks) : Checks → Type 0 where
  done : Steps c c
  and_then : {d e : Checks} → Steps c d → Step d e → Steps c e

abbrev HavePinned : String → String → Checks → Type 0
HavePinned id key c =
    IsPinned id key c.store × All (λ (p : Pending). IsPinned id key p.loaded) c.waiting

All-without :
    (P : Pending → Type 0) (p : Pending) (before after : List Pending)
    → All P (before ++ p ∷ after)
    → P p × All P (before ++ after)
All-without P p [] after (h, rest) = (h, rest)
All-without P p (q ∷ before) after (k, rest) =
    let (h, others) = All-without P p before after rest in (h, (k, others))

Step-HavePinned :
    (id key : String) {c d : Checks} → Step c d → HavePinned id key c → HavePinned id key d
unfolding begin_check
Step-HavePinned id key (begins i k c) (stored, loaded) = (stored, (stored, loaded))
Step-HavePinned id key (ends now fp p before after store) (stored, loaded) =
    let (its, others) =
      All-without (λ (q : Pending). IsPinned id key q.loaded) p before after loaded in
    (finish_check-IsPinned now fp id key p store its stored, others)

Steps-HavePinned :
    (id key : String) {c d : Checks} → Steps c d → HavePinned id key c → HavePinned id key d
Steps-HavePinned id key done h = h
Steps-HavePinned id key (and_then run s) h =
    Step-HavePinned id key s (Steps-HavePinned id key run h)

verdict :
    (now fp pinned : String) (p : Pending) (agents : Map KnownAgent)
    → IsPinned p.id pinned p.loaded
    → (pinned ≡ p.key) × ((resume_check now fp p agents).0 ≡ trusted)
      ⊎ (pinned ≢ p.key)
        × (known : KnownAgent) × (get p.id p.loaded ≡ some known)
        × (resume_check now fp p agents ≡ (mismatch known.fingerprint fp, agents))
unfolding IsPinned
verdict now fp pinned p agents (k, at, h) = elim (resume_check-cases now fp p agents) [
  | inl (e, c) ↦ absurd (none-ne-some k (sym e ∙ at))
  | inr (known, e, inl (same, c)) ↦ inl (
    sym h ∙ ap (λ (a : KnownAgent). a.identity_key) (some-injective k known (sym at ∙ e)) ∙ same,
    ap (λ r. r.0) c,
  )
  | inr (known, e, inr (other, c)) ↦ inr (
    λ eq.
        other
          (ap (λ (a : KnownAgent). a.identity_key) (some-injective known k (sym e ∙ at)) ∙ h ∙ eq),
    known,
    e,
    c,
  )
]

-- From a store with a key pinned for an agent, and no check that waits, after any checks that begin and
-- end in any order, with keys that may not decode: a check of the agent that begins then, whatever the
-- store is when it ends, says trusted if it shows the pinned key; with another key that decodes it
-- says mismatch and leaves the store as it is.
pub pinned_key_decides :
    (id pinned : String) (agents : Map KnownAgent) (c : Checks)
    → IsPinned id pinned agents
    → Steps (record { store = agents; waiting = [] }) c
    → (now key fp : String) (later : Map KnownAgent)
    → (pinned ≡ key)
        × ((finish_check now (some fp) (begin_check id key c.store) later).0 ≡ some trusted)
      ⊎ (pinned ≢ key)
        × (known : KnownAgent) × (get id c.store ≡ some known)
        × (finish_check now (some fp) (begin_check id key c.store) later
            ≡ (some (mismatch known.fingerprint fp), later))
unfolding finish_check begin_check
pinned_key_decides id pinned agents c h run now key fp later =
    elim (verdict now fp pinned (begin_check id key c.store) later
      (Steps-HavePinned id pinned run (h, tt)).0) [
        | inl (same, it) ↦ inl (same, ap some it)
        | inr (other, known, at, it) ↦ inr (other, known, at, ap (λ r. (some r.0, r.1)) it)
      ]
