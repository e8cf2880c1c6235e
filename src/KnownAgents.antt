-- ===== src/KnownAgents.antt =====
-- packages/web/src/lib/knownAgents.ts: trust on first use of the agents' identity keys. The object in
-- `localStorage` is a map from agent ids; a storage that is empty or broken is the empty map.
-- A check waits for the fingerprint, `computeFingerprint`, between its load and its save.
pub mod Tests
pub mod Trust
use remote_ttys.Base.{
  String, Bool, Option, none, some, List, [], Map, get, set, ◌==◌, if◌then◌else◌,
}

pub data TofuResult : Type 0 where
  trusted : TofuResult
  first_use : TofuResult
  mismatch : (stored_fingerprint current_fingerprint : String) → TofuResult

pub record KnownAgent : Type 0 where
  pub identity_key : String
  pub fingerprint : String
  pub first_seen : String
  pub last_seen : String

-- `known.lastSeen = …`
unfoldable pub seen : String → KnownAgent → KnownAgent
seen now known = record known { last_seen = now }

-- A check that waits for its fingerprint: what it was called with, and the object that it loaded.
pub record Pending : Type 0 where
  pub id : String
  pub key : String
  pub loaded : Map KnownAgent

-- `checkAgentIdentity` up to the wait in `computeFingerprint`.
unfoldable pub begin_check : String → String → Map KnownAgent → Pending
begin_check id key agents = record { id = id; key = key; loaded = agents }

abbrev pub new_agent : String → String → String → KnownAgent
new_agent key fingerprint now = record {
  identity_key = key;
  fingerprint = fingerprint;
  first_seen = now;
  last_seen = now;
}

-- `checkAgentIdentity` from the end of the wait on. What is saved is the object that was loaded before
-- the wait, changed in place; without a save the store stays as it is now.
unfoldable pub resume_check :
    (now fingerprint : String) → Pending → Map KnownAgent → TofuResult × Map KnownAgent
resume_check now fingerprint p agents = elim (get p.id p.loaded) [
  | none ↦ (first_use, set p.id (new_agent p.key fingerprint now) p.loaded)
  | some known ↦
      if known.identity_key == p.key
      then (trusted, set p.id (seen now known) p.loaded)
      else (mismatch known.fingerprint fingerprint, agents)
]

-- The end of the wait: `none` where `atob` threw, so that the check is rejected and saves nothing.
unfoldable pub finish_check :
    (now : String) (fingerprint : Option String)
    → Pending
    → Map KnownAgent
    → Option TofuResult × Map KnownAgent
finish_check now none p agents = (none, agents)
finish_check now (some fingerprint) p agents =
    let (result, agents') = resume_check now fingerprint p agents in (some result, agents')

unfoldable pub accept_new_identity :
    String → String → String → String → Map KnownAgent → Map KnownAgent
accept_new_identity now id key fingerprint agents =
    set id
      (record { identity_key = key; fingerprint = fingerprint; first_seen = now; last_seen = now })
      agents
