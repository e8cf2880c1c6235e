-- ===== src/Relay.antt =====
-- The state of the relay process: the connection tables of agentHub.ts and browserHub.ts, the
-- session table of router.ts, the database, and what was sent.
pub mod Tests
pub mod BrowserHub
pub mod AgentHub
pub mod Router
pub mod AgentSocket
pub mod BrowserSocket
pub mod Step
pub mod Fields
pub mod Sharing
pub mod Moves
pub mod Reach
pub mod Outputs
pub mod Isolation
pub mod Returns
pub mod Delivery
pub mod Accounts
use remote_ttys.Base.{ℕ, String, Bool, Option, List, ◌∷◌, Map}
use remote_ttys.Base.Ints.{ℤ}
use remote_ttys.Protocol.{RelayToAgentMessage, RelayToBrowserMessage}
use remote_ttys.Db.{Db}
use remote_ttys.Db

-- The identity of a WebSocket object.
abbrev pub Socket : Type 0
Socket = String

-- `sent_at` is in milliseconds.
pub record PendingPing : Type 0 where
  pub id : String
  pub sent_at : ℕ

pub record AgentConnection : Type 0 where
  pub id : String
  pub ws : Socket
  pub name : String
  pub os : String
  pub token : String
  pub sessions : List String
  pub last_seen : ℕ
  pub identity_key : String
  pub latency_ms : Option ℤ
  pub pending_ping : Option PendingPing
  pub capabilities : List String

pub record BrowserConnection : Type 0 where
  pub id : String
  pub ws : Socket
  pub username : String
  pub user_id : ℕ
  pub subscribed_sessions : List String

pub record SessionMapping : Type 0 where
  pub agent_id : String
  pub browser_ids : List String
  pub created_at : ℕ
  pub last_activity : ℕ

pub record PreAuth : Type 0 where
  pub token_hash : String
  pub challenge_signature : String
  pub label : Option String

-- The variables of one call of `handleAgentConnection`, which its callbacks share.
pub record AgentLink : Type 0 where
  pub agent_id : Option String
  pub pre_auth : PreAuth

-- The calls of `ws.send` and `ws.close`.
pub data Output : Type 0 where
  to_agent : (ws : Socket) → RelayToAgentMessage → Output
  to_browser : (ws : Socket) → RelayToBrowserMessage → Output
  close : (ws : Socket) (code : Option ℕ) → Output

-- `out` is newest first. `agent_links` is keyed by the socket.
pub record Relay : Type 0 where
  pub agents : Map AgentConnection
  pub browsers : Map BrowserConnection
  pub sessions : Map SessionMapping
  pub agent_links : Map AgentLink
  pub db : Db
  pub out : List Output

-- What the process reads from outside while it handles one event: `Date.now()`, SQLite's
-- `datetime('now')`, `readyState === OPEN` of each socket, the next `randomUUID()`, and the
-- floating-point `Math.round(0.3 * raw + 0.7 * previous)`.
pub record Env : Type 0 where
  pub now : ℕ
  pub datetime : String
  pub is_open : Socket → Bool
  pub uuid : String
  pub smooth : ℤ → ℤ → ℤ

unfoldable pub emit : Output → Relay → Relay
emit o r = record r { out = o ∷ r.out }

unfoldable pub audit : Env → String → Option String → String → Relay → Relay
unfolding Db.audit
audit e action user detail r = record r {
  db = Db.audit e.datetime action user (Option.some detail) r.db;
}
