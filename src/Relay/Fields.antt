-- ===== src/Relay/Fields.antt =====
-- Sending, auditing and the tables of agents leave the tables of browsers and sessions alone.
use remote_ttys.Base.{
  String, Option, List, [], ◌∷◌, get, ◌≡◌, refl, ◌∙◌, inl, inr, Option-cases, arith,
}
use remote_ttys.Base.Ints.{ℤ}
use remote_ttys.Protocol.{RelayToAgentMessage, RelayToBrowserMessage}
use remote_ttys.Relay.{Output, to_browser, Relay, Env, emit, audit}
use remote_ttys.Relay.BrowserHub.{
  send_to_browser, broadcast_to_user_browsers, send_to_session_subscribers,
}
use remote_ttys.Relay.AgentHub.{get_agent, send_to_agent}
use remote_ttys.Relay.Router.Sessions.{broadcast_to_owner}
use remote_ttys.Relay.Router.FromAgent.{send_created, send_create_error}
use remote_ttys.Relay.Router.Disconnect.{handle_latency_update}

-- The tables that say who sees a session.
pub record SameTables (r r' : Relay) : Type 0 where
  pub same_browsers : r'.browsers ≡ r.browsers
  pub same_sessions : r'.sessions ≡ r.sessions

pub SameTables-refl : (r : Relay) → SameTables r r
SameTables-refl r = record { same_browsers = refl; same_sessions = refl }

pub SameTables-trans : (r r' r'' : Relay) → SameTables r r' → SameTables r' r'' → SameTables r r''
SameTables-trans r r' r'' h k = record {
  same_browsers = k.same_browsers ∙ h.same_browsers;
  same_sessions = k.same_sessions ∙ h.same_sessions;
}

pub emit-SameTables : (o : Output) (r : Relay) → SameTables r (emit o r)
unfolding emit
emit-SameTables o r = ground arith

module _ (e : Env) where
  pub send_to_agent-SameTables :
      (a : String) (msg : RelayToAgentMessage) (r : Relay) → SameTables r (send_to_agent e a msg r)
  unfolding send_to_agent
  send_to_agent-SameTables a msg r = ground arith

  pub send_to_browser-SameTables :
      (b : String) (msg : RelayToBrowserMessage) (r : Relay)
      → SameTables r (send_to_browser e b msg r)
  unfolding send_to_browser
  send_to_browser-SameTables b msg r = ground arith

  pub send_to_session_subscribers-SameTables :
      (s : String) (msg : RelayToBrowserMessage) (r : Relay)
      → SameTables r (send_to_session_subscribers e s msg r)
  unfolding send_to_session_subscribers
  send_to_session_subscribers-SameTables s msg r = ground arith

  pub broadcast_to_owner-SameTables :
      (token : String) (msg : RelayToBrowserMessage) (r : Relay)
      → SameTables r (broadcast_to_owner e token msg r)
  unfolding broadcast_to_owner broadcast_to_user_browsers
  broadcast_to_owner-SameTables token msg r = ground arith

  pub audit-SameTables :
      (action : String) (user : Option String) (detail : String) (r : Relay)
      → SameTables r (audit e action user detail r)
  unfolding audit
  audit-SameTables action user detail r = ground arith

  pub handle_latency_update-SameTables :
      (a : String) (latency : Option ℤ) (r : Relay)
      → SameTables r (handle_latency_update e a latency r)
  unfolding handle_latency_update broadcast_to_owner broadcast_to_user_browsers get_agent
  handle_latency_update-SameTables a latency r = ground arith

  pub send_create_error-SameTables :
      (msg : RelayToBrowserMessage) (bs : List String) (r : Relay)
      → SameTables r (send_create_error e msg bs r)
  unfolding send_create_error
  send_create_error-SameTables msg [] r = SameTables-refl r
  send_create_error-SameTables msg (b ∷ bs) r =
      SameTables-trans _ _ _ (send_to_browser-SameTables b msg r)
        (send_create_error-SameTables msg bs (send_to_browser e b msg r))

pub send_created-SameTables :
    (msg : RelayToBrowserMessage) (bs : List String) (r : Relay)
    → SameTables r (send_created msg bs r)
unfolding send_created
send_created-SameTables msg [] r = SameTables-refl r
send_created-SameTables msg (b ∷ bs) r = elim (Option-cases (get b r.browsers)) [
  | inl e ↦ rw (e, send_created) (send_created-SameTables msg bs r)
  | inr (c, e) ↦
      rw (e, send_created)
        (SameTables-trans _ _ _ (emit-SameTables (to_browser c.ws msg) r)
          (send_created-SameTables msg bs (emit (to_browser c.ws msg) r)))
]
