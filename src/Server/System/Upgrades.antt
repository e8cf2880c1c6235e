-- ===== src/Server/System/Upgrades.antt =====
-- packages/relay/src/index.ts: what a request and an upgrade do to the relay.
use remote_ttys.Base.{false, Option, none, some, refl, inl, inr}
use remote_ttys.Relay.{Relay, Socket}
use remote_ttys.Relay.Step.{agent_connects, browser_connects, step}
use remote_ttys.Relay.Fields.{SameTables}
use remote_ttys.Relay.Moves.{one_same}
use remote_ttys.Relay.Moves.Mirror.{Moves-Mirrors}
use remote_ttys.Relay.Moves.Limits.{Moves-Within}
use remote_ttys.Relay.Moves.Alone.{Moves-HasUniqueKeys, Moves-AreAlone}
use remote_ttys.Relay.Moves.Present.{Moves-PresentBut}
use remote_ttys.Relay.Reach.{IsFresh, Inv, step-Inv}
use remote_ttys.Server.Requests.{Services, WebEnv, Server}
use remote_ttys.Base.{Option-cases, Bool-cases, ◌==◌}
use remote_ttys.Base.Texts.{truthy}
use remote_ttys.Auth.{VerifiedUser, verify_agent_token, verify_jwt}
use remote_ttys.ServerKey.{sign_challenge}
use remote_ttys.Relay.Fields.{audit-SameTables}
use remote_ttys.Server.Gates.{CookieValue-cases}
use remote_ttys.Server.Guards.{parse_cookie, session_cookie}
use remote_ttys.Server.Accounts.{set_relay}
use remote_ttys.Server.Requests.{seconds}
use remote_ttys.Server.Upgrade.{
  Upgrade, bad_url, to_agent_hub, to_browser_hub, elsewhere, on_upgrade, ask_agent_hub,
  upgrade_agent, ask_browser_hub, admit_browser, is_foreign,
}
use remote_ttys.Relay.{audit, Env, PreAuth}
use remote_ttys.Relay.AgentSocket.{connect_agent}
use remote_ttys.Relay.BrowserSocket.{UserInfo, connect_browser}
use remote_ttys.Relay.Accounts.{SameAccounts, SameAccounts-refl}
use remote_ttys.Relay.Accounts.Events.{step-SameAccounts}
use remote_ttys.Server.System.{after_upgrade}

pub SameTables-Inv : (r r' : Relay) → SameTables r r' → Inv r → Inv r'
SameTables-Inv r r' h v =
    let moves = one_same h in
    record {
      mirrors = Moves-Mirrors moves v.mirrors;
      present = Moves-PresentBut (λ _. false) moves v.present;
      within = Moves-Within moves v.within;
      unique = Moves-HasUniqueKeys moves v.unique;
      alone = Moves-AreAlone moves v.alone;
    }

-- A property of the state that a step leaves, if it leaves one.
abbrev pub After : (Server → Type 0) → Option Server → Type 0
After P none = Unit
After P (some s) = P s

-- All that an upgrade does to the relay.
pub data Effect (e : Env) (ws : Socket) (r : Relay) : Relay → Type 0 where
  unchanged : Effect e ws r r
  rejected : Effect e ws r (audit e "agent_reject" none "reason=invalid token (HTTP)" r)
  agent_came : (auth : PreAuth) → Effect e ws r (connect_agent ws auth r)
  browser_came : (user : UserInfo) → Effect e ws r (connect_browser e ws user r)

module _ (v : Services) (e : WebEnv) (ws : Socket) where
  admit_browser-Effect :
      (user : Option VerifiedUser) (s : Server)
      → Effect e.env ws s.relay (admit_browser v e ws user s).1.relay
  unfolding admit_browser set_relay
  admit_browser-Effect none s = unchanged
  admit_browser-Effect (some user) s = browser_came _

  pub on_upgrade-Effect :
      (u : Upgrade) (s : Server)
      → After (λ s'. Effect e.env ws s.relay s'.relay) (after_upgrade (on_upgrade v e ws u s))
  unfolding on_upgrade ask_agent_hub upgrade_agent ask_browser_hub set_relay admit_browser
  on_upgrade-Effect bad_url s = tt
  on_upgrade-Effect (to_agent_hub token) s = elim (Option-cases (truthy token)) [
    | inl missing ↦ rw (missing, ask_agent_hub) unchanged
    | inr (text, given) ↦ elim (Option-cases (verify_agent_token v.hash_token text s.relay.db)) [
      | inl bad ↦ rw (given, ask_agent_hub) (rw (bad, ask_agent_hub) rejected)
      | inr (found, good) ↦ elim (Option-cases (sign_challenge v.key_crypto text s.key)) [
        | inl unsigned ↦
            rw (given, ask_agent_hub) (rw (good, ask_agent_hub) (rw (unsigned, upgrade_agent) tt))
        | inr (signature, signed) ↦
            rw (given, ask_agent_hub)
              (rw (good, ask_agent_hub) (rw (signed, upgrade_agent) (agent_came _)))
      ]
    ]
  ]
  on_upgrade-Effect (to_browser_hub origin host cookie) s =
      elim (Bool-cases (is_foreign v e ws origin host)) [
        | inl foreign ↦ rw (foreign, ask_browser_hub) unchanged
        | inr own ↦ elim (CookieValue-cases (parse_cookie v session_cookie cookie)) [
          | inl missing ↦ rw (own, ask_browser_hub) (rw (missing, ask_browser_hub) unchanged)
          | inr (inl bad) ↦ rw (own, ask_browser_hub) (rw (bad, ask_browser_hub) tt)
          | inr (inr (token, there)) ↦ elim (Bool-cases (token == "")) [
            | inl empty ↦
                rw (own, ask_browser_hub) (rw (there, ask_browser_hub) (rw empty unchanged))
            | inr full ↦
                rw (own, ask_browser_hub)
                  (rw (there, ask_browser_hub)
                    (rw full (
                      admit_browser-Effect
                        (verify_jwt v.jwt v.secret (seconds e) (v.read_token token) s.relay.db) s)))
          ]
        ]
      ]
  on_upgrade-Effect elsewhere s = unchanged

pub Effect-Inv :
    (e : Env) (ws : Socket) (r r' : Relay) → IsFresh e r → Inv r → Effect e ws r r' → Inv r'
unfolding step
Effect-Inv e ws r r' fresh inv unchanged = inv
Effect-Inv e ws r r' fresh inv rejected =
    SameTables-Inv r _ (audit-SameTables e "agent_reject" none "reason=invalid token (HTTP)" r) inv
Effect-Inv e ws r r' fresh inv (agent_came auth) =
    step-Inv e (agent_connects ws auth) r _ fresh refl inv
Effect-Inv e ws r r' fresh inv (browser_came user) =
    step-Inv e (browser_connects ws user) r _ fresh refl inv

pub Effect-SameAccounts :
    (e : Env) (ws : Socket) (r r' : Relay) → Effect e ws r r' → SameAccounts r.db r'.db
unfolding step audit
Effect-SameAccounts e ws r r' unchanged = SameAccounts-refl r.db
Effect-SameAccounts e ws r r' rejected = record {
  users = refl;
  next_user = refl;
  agent_tokens = refl;
  next_token = refl;
}
Effect-SameAccounts e ws r r' (agent_came auth) =
    step-SameAccounts e (agent_connects ws auth) r _ refl
Effect-SameAccounts e ws r r' (browser_came user) =
    step-SameAccounts e (browser_connects ws user) r _ refl
