-- ===== src/Server/Crash.antt =====
-- packages/relay/src/index.ts: when a request for a WebSocket ends the process.
use remote_ttys.Base.{
  ℕ, String, Bool, true, false, not, ◌&&◌, Option, none, some, List, ◌≡◌, ◌≢◌, ◌↔◌, refl, inl, inr,
  Option-cases, arith,
}
use remote_ttys.ServerKey.{sign_challenge}
use remote_ttys.Relay.{Socket}
use remote_ttys.Server.Requests.{Services, WebEnv, Server}
use remote_ttys.Server.Guards.{found_cookie, parse_cookie, session_cookie}
use remote_ttys.Server.Upgrade.{
  Upgrade, bad_url, to_agent_hub, to_browser_hub, elsewhere, on_upgrade, ask_agent_hub,
  upgrade_agent, ask_browser_hub, is_foreign,
}

module _ (v : Services) (e : WebEnv) (ws : Socket) where
  -- A cookie that `decodeURIComponent` throws on, in a request for the pages' socket of no foreign origin.
  unfoldable pub has_bad_cookie : Upgrade → Bool
  has_bad_cookie (to_browser_hub origin host cookie) =
      not (is_foreign v e ws origin host) && elim (found_cookie session_cookie cookie) [
        | none ↦ false
        | some text ↦ elim (v.decode text) [ none ↦ true | some t ↦ false ]
      ]
  has_bad_cookie _ = false

  unfoldable pub is_fatal : Upgrade → Bool
  is_fatal bad_url = true
  is_fatal u = has_bad_cookie u

  ask_browser_hub-none :
      (origin host : Option String) (cookie : Option (List ℕ)) (s : Server)
      → (ask_browser_hub v e ws origin host cookie s ≡ none)
        ↔ (has_bad_cookie (to_browser_hub origin host cookie) ≡ true)
  unfolding ask_browser_hub has_bad_cookie parse_cookie
  ask_browser_hub-none origin host cookie s = ground arith

  ask_agent_hub-some :
      (token : Option String) (s : Server)
      → s.key.private_key ≢ none
      → ask_agent_hub v e ws token s ≢ none
  unfolding ask_agent_hub upgrade_agent sign_challenge
  ask_agent_hub-some token s has_key threw = elim (Option-cases s.key.private_key) [
    | inl missing ↦ has_key missing
    | inr (key, there) ↦ ground arith
  ]

  -- Once there is a key, an upgrade throws, which nothing catches, if and only if its URL, with the Host
  -- header, cannot be parsed, or it asks for the pages' socket from no foreign origin and has a session
  -- cookie that cannot be decoded.
  pub on_upgrade-none :
      (u : Upgrade) (s : Server)
      → s.key.private_key ≢ none
      → (on_upgrade v e ws u s ≡ none) ↔ (is_fatal u ≡ true)
  unfolding on_upgrade is_fatal has_bad_cookie
  on_upgrade-none bad_url s has_key = (λ threw. refl, λ bad. refl)
  on_upgrade-none (to_agent_hub token) s has_key =
      (λ threw. absurd (ask_agent_hub-some token s has_key threw), λ bad. absurd cc)
  on_upgrade-none (to_browser_hub origin host cookie) s has_key =
      ask_browser_hub-none origin host cookie s
  on_upgrade-none elsewhere s has_key = (λ threw. absurd cc, λ bad. absurd cc)
