-- ===== src/Server/System.antt =====
-- packages/relay/src/index.ts: the whole process. Requests, upgrades, and the callbacks of the sockets
-- and the timers, one after the other, on one state.
mod Upgrades
pub mod Invariant
use remote_ttys.Base.{
  if◌then◌else◌, ◌*◌, ℕ, String, Bool, true, false, Option, none, some, List, [], ◌≡◌, refl, subst,
  inl, inr, arith,
}
use remote_ttys.Db.{Db, reset_all_agents_offline}
use remote_ttys.ServerKey.{KeyState, init_server_key}
use remote_ttys.RateLimit.{new_store}
use remote_ttys.Relay.{Relay, Socket}
use remote_ttys.Relay.Step.{
  Event, agent_connects, agent_sends, agent_closes, browser_connects, browser_sends, browser_closes,
  ping_timer, sweep_timer, step,
}
use remote_ttys.Relay.Fields.{SameTables}
use remote_ttys.Relay.Moves.{Moves, one_same}
use remote_ttys.Relay.Moves.Mirror.{Moves-Mirrors}
use remote_ttys.Relay.Moves.Limits.{Moves-Within}
use remote_ttys.Relay.Moves.Alone.{Moves-HasUniqueKeys, Moves-AreAlone}
use remote_ttys.Relay.Moves.Present.{Moves-PresentBut}
use remote_ttys.Server.Tables.{handle-SameTables}
use remote_ttys.Relay.Reach.{boot, IsFresh, Inv, step-Inv, boot-Inv}
use remote_ttys.Server.Requests.{Services, WebEnv, Server, Request}
use remote_ttys.Server.Routes.{handle}
use remote_ttys.Server.Admins.Requests.{IsNamedByText}
use remote_ttys.Base.{Option-cases, Bool-cases, ◌==◌}
use remote_ttys.Base.Texts.{truthy}
use remote_ttys.Auth.{VerifiedUser, verify_agent_token, verify_jwt}
use remote_ttys.ServerKey.{sign_challenge}
use remote_ttys.Relay.Fields.{audit-SameTables}
use remote_ttys.Server.Gates.{CookieValue-cases}
use remote_ttys.Server.Guards.{parse_cookie, session_cookie}
use remote_ttys.Server.Accounts.{set_relay}
use remote_ttys.Server.Requests.{seconds}
use remote_ttys.Server.Upgrade.{
  Upgrade, to_agent_hub, to_browser_hub, elsewhere, UpgradeAnswer, on_upgrade, ask_agent_hub,
  upgrade_agent, ask_browser_hub, admit_browser, is_foreign,
}

-- The start of the server: the limiters of index.ts, the database with every agent
-- offline, the key from its file or new.
unfoldable pub start_server : Services → WebEnv → Option (List ℕ) → Db → Option Server
unfolding reset_all_agents_offline
start_server v e file db =
    let (ok, key) =
      init_server_key v.key_crypto e.new_key
        (record { private_key = none; public_key = ""; file = file }) in
    if ok
    then some (record {
      relay = boot (reset_all_agents_offline db);
      strict = new_store (15 * 60 * 1000) 10;
      standard = new_store (60 * 1000) 60;
      relaxed = new_store (60 * 1000) 120;
      logins = new_store (15 * 60 * 1000) 10;
      key = key;
    })
    else none

-- `socket` is a callback of a socket that is connected, or of a timer.
pub data SystemEvent : Type 0 where
  request : Request → SystemEvent
  upgrade : Socket → Upgrade → SystemEvent
  callback : Event → SystemEvent

-- Sockets are connected by an upgrade and in no other way.
abbrev pub is_callback : Event → Bool
is_callback (agent_connects ws auth) = false
is_callback (browser_connects ws user) = false
is_callback _ = true

abbrev pub after_upgrade : Option (UpgradeAnswer × Server) → Option Server
after_upgrade none = none
after_upgrade (some (answer, s)) = some s

abbrev pub after_callback : Server → Option Relay → Option Server
after_callback s none = none
after_callback s (some r) = some (record s { relay = r })

unfoldable pub system_step : Services → WebEnv → SystemEvent → Server → Option Server
system_step v e (request req) s = some (handle v e req s).1
system_step v e (upgrade ws u) s = after_upgrade (on_upgrade v e ws u s)
system_step v e (callback ev) s =
    if is_callback ev then after_callback s (step e.env ev s.relay) else some s

-- The web token of a request names its user by a text, if it is good.
abbrev pub IsPlain : (v : Services) → SystemEvent → Type 0
IsPlain v (request req) = IsNamedByText v req
IsPlain v _ = Unit

-- The states that the process reaches where every request is such.
pub data Runs (v : Services) (db : Db) : Server → Type 0 where
  started :
      {s : Server} (e : WebEnv) (file : Option (List ℕ))
      → start_server v e file db ≡ some s
      → Runs v db s
  goes_on :
      {s s' : Server}
      → Runs v db s
      → (e : WebEnv) (ev : SystemEvent) → IsPlain v ev
      → IsFresh e.env s.relay
      → system_step v e ev s ≡ some s'
      → Runs v db s'

-- The states after a state.
pub data Follows (v : Services) (s : Server) : Server → Type 0 where
  here : Follows v s s
  later :
      {s' s'' : Server}
      → Follows v s s'
      → (e : WebEnv) (ev : SystemEvent) → IsPlain v ev
      → IsFresh e.env s'.relay
      → system_step v e ev s' ≡ some s''
      → Follows v s s''
