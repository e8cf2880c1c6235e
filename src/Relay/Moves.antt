-- ===== src/Relay/Moves.antt =====
-- The session machine that the relay implements: the moves that a callback may make on the tables
-- of browsers and sessions, each with what the code has checked before it.
pub mod Sessions
pub mod FromAgent
pub mod FromBrowser
pub mod Sockets
pub mod Mirror
pub mod Limits
pub mod Alone
pub mod Present
use remote_ttys.Base.{
  ℕ, ◌<◌, String, Bool, true, false, List, [], ◌∷◌, Option, none, some, Map, get, set, delete,
  modify, map_values, has_key, any, eqb, ◌⊎◌, size, count_if, ◌≡◌, refl, arith,
}
use remote_ttys.Base.Texts.{codes}
use remote_ttys.Protocol.{RelayToAgentMessage}
use remote_ttys.Relay.{AgentConnection, BrowserConnection, SessionMapping, Relay, to_agent}
use remote_ttys.Relay.Router.Validate.{is_shell_special}
use remote_ttys.Relay.BrowserHub.{unsubscribe}
use remote_ttys.Relay.Fields.{SameTables}
use remote_ttys.Relay.Sharing.{member}
use remote_ttys.Relay.Router.Sessions.{
  set_activity, max_sessions, max_sessions_per_agent, max_sessions_per_browser,
}
use remote_ttys.Relay.Router.FromBrowser.{add_subscription, may_open, is_of_agent, is_of_browser}
use remote_ttys.Relay.Router.Disconnect.{leave}
use remote_ttys.Relay.BrowserSocket.{max_browser_connections}

-- A session is entered for one browser, which is connected and may use the agent, which is connected.
-- The agent is asked for it, if at all, with a shell and a directory that pass the tests.
pub record Opens (b a s : String) (r r' : Relay) : Type 0 where
  pub mapping : SessionMapping
  pub of_agent : mapping.agent_id ≡ a
  pub of_browser : mapping.browser_ids ≡ b ∷ []
  pub fresh : get s r.sessions ≡ none
  pub connected : has_key b r.browsers ≡ true
  pub allowed : may_open b a r ≡ true
  pub few_sessions : size r.sessions < max_sessions
  pub few_of_agent : count_if (is_of_agent a) r.sessions < max_sessions_per_agent
  pub few_of_browser : count_if (is_of_browser b) r.sessions < max_sessions_per_browser
  pub online : has_key a r.agents ≡ true
  pub shell : String
  pub cwd : String
  pub public_key : String
  pub request : Option String
  pub plain_shell : any is_shell_special (codes shell) ≡ false
  pub plain_cwd : any (eqb 0) (codes cwd) ≡ false
  pub asked :
      (r'.out ≡ r.out)
      ⊎ (c : AgentConnection) × (get a r.agents ≡ some c)
        × (r'.out
            ≡ to_agent c.ws (RelayToAgentMessage.pty_create s shell cwd public_key request) ∷ r.out)
  pub entered : r'.sessions ≡ set s mapping r.sessions
  pub subscribed : r'.browsers ≡ modify b (add_subscription s) r.browsers

pub data Move (r r' : Relay) : Type 0 where
  same : SameTables r r' → Move r r'
  touched :
      (s : String) (now : ℕ)
      → r'.browsers ≡ r.browsers
      → r'.sessions ≡ modify s (set_activity now) r.sessions
      → Move r r'
  closed :
      (s : String)
      → r'.browsers ≡ map_values (unsubscribe s) r.browsers
      → r'.sessions ≡ delete s r.sessions
      → Move r r'
  resubscribed :
      (b s : String)
      → member b s r ≡ true
      → r'.browsers ≡ modify b (add_subscription s) r.browsers
      → r'.sessions ≡ r.sessions
      → Move r r'
  opened : (b a s : String) → Opens b a s r r' → Move r r'
  joined :
      (b : String) (c : BrowserConnection)
      → c.subscribed_sessions ≡ []
      → get b r.browsers ≡ none
      → ((s : String) → member b s r ≡ false)
      → size r.browsers < max_browser_connections
      → r'.browsers ≡ set b c r.browsers
      → r'.sessions ≡ r.sessions
      → Move r r'
  left :
      (b s : String)
      → get b r.browsers ≡ none
      → r'.browsers ≡ r.browsers
      → r'.sessions ≡ modify s (leave b) r.sessions
      → Move r r'

-- A browser's connection is gone from its table.
unfoldable pub forget : String → Relay → Relay
forget b r = record r { browsers = delete b r.browsers }

pub data Moves (r : Relay) : Relay → Type 0 where
  done : Moves r r
  step : {r' r'' : Relay} → Moves r r' → Move r' r'' → Moves r r''

pub Moves_trans : {r r' r'' : Relay} → Moves r r' → Moves r' r'' → Moves r r''
Moves_trans h done = h
Moves_trans h (step k m) = step (Moves_trans h k) m

pub one : {r r' : Relay} → Move r r' → Moves r r'
one m = step done m

pub one_same : {r r' : Relay} → SameTables r r' → Moves r r'
one_same h = step done (same h)
