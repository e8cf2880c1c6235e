-- ===== src/Relay/Step.antt =====
-- The event loop: each callback runs to its end before the next. index.ts wires the hubs to the
-- router; the REST handlers of index.ts are not among the events.
use remote_ttys.Base.{String, Option, some}
use remote_ttys.Protocol.{AgentMessage, BrowserMessage, Frame}
use remote_ttys.Relay.{Socket, PreAuth, Relay, Env}
use remote_ttys.Relay.Router.Sessions.{sweep}
use remote_ttys.Relay.AgentSocket.{connect_agent, agent_frame, agent_close, ping_agents}
use remote_ttys.Relay.BrowserSocket.{UserInfo, connect_browser, browser_frame, browser_close}

pub data Event : Type 0 where
  agent_connects : Socket → PreAuth → Event
  agent_sends : Socket → Frame AgentMessage → Event
  agent_closes : Socket → Event
  browser_connects : Socket → UserInfo → Event
  browser_sends : (ws : Socket) (id : String) → Frame BrowserMessage → Event
  browser_closes : (id : String) → Event
  ping_timer : (ids : String → String) → Event
  sweep_timer : Event

unfoldable pub step : Env → Event → Relay → Option Relay
step e (agent_connects ws auth) r = some (connect_agent ws auth r)
step e (agent_sends ws frame) r = agent_frame e ws frame r
step e (agent_closes ws) r = some (agent_close e ws r)
step e (browser_connects ws user) r = some (connect_browser e ws user r)
step e (browser_sends ws b frame) r = some (browser_frame e ws b frame r)
step e (browser_closes b) r = some (browser_close e b r)
step e (ping_timer ids) r = some (ping_agents e ids r)
step e sweep_timer r = some (sweep e r)
